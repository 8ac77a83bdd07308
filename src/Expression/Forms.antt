-- ===== src/Expression/Forms.antt =====
-- How each kind of operand is read, for the texts of its parts.
use mathlib.Core.Option
use cnc_3d.Common.{
  ℕ, zero, suc, ◌+◌, ◌≡◌, refl, ap, sym, ◌∙◌, Bool, true, false, Option, none, some, [], ◌∷◌, ◌++◌,
  append_assoc, length, length-append, arith,
}
use cnc_3d.FlowCtrl.Types.{Text, status_ok}
use cnc_3d.Expression.Types.{Cursor, ℤ, pos, negsuc, FloatMath, World, Got, is_invalid}
use cnc_3d.Expression.Unary.{UnaryOp, abs, atan, exists, parameter, execute_unary}
use cnc_3d.Expression.Values.{to_integer, param_id, got_param, numbered_parameter}
use cnc_3d.Expression.Read.{
  Reader, named_unary, ngc_read_integer_value, ngc_read_parameter, ngc_eval_expression, apply_unary,
  run_unary, read_unary, ngc_read_real_value, checked,
}
use cnc_3d.Expression.Tree.{
  unary_name, is_function, bracket, finite, unless_error, parameter_of, ◌>>=◌,
}
use cnc_3d.Expression.Digits.{at}
use cnc_3d.Expression.Names.{read_operation_unary-name}
use cnc_3d.Expression.Loop.{success}
use cnc_3d.Expression.Chosen.{checked-success, real-parameter, real-negative, real-unary}
use cnc_3d.Expression.Operand.{Gives}

pub >>=-eq-some :
    {A B : Type 0} (o : Option A) (f : A → Option B) {b : B}
    → (o >>= f) ≡ some b
    → (a : A) × (o ≡ some a) × (f a ≡ some b)
>>=-eq-some none f h = cc
>>=-eq-some (some a) f h = (a, refl, h)

module _ {F : Type 0} (m : FloatMath F) where
  pub finite-eq-some : (v : F) {u : F} → finite m v ≡ some u → (is_invalid m v ≡ false) × (v ≡ u)
  unfolding finite
  finite-eq-some v h = ground arith

  pub unless_error-eq-some :
      (r : ℕ × F) {u : F}
      → unless_error m r ≡ some u
      → (r.0 ≡ status_ok) × (is_invalid m r.1 ≡ false) × (r.1 ≡ u)
  unfolding unless_error
  unless_error-eq-some (zero, v) h = let (good, e) = finite-eq-some v h in (refl, good, e)
  unless_error-eq-some (suc n, v) h = cc

  module _ (w : World F) where
    pub numbered_parameter-some :
        (r : ℕ × ℤ) (end : Cursor) (old : F) {v : F}
        → parameter_of m w r ≡ some v
        → numbered_parameter m w (r.0, r.1, end) old false ≡ success v end
    unfolding parameter_of numbered_parameter got_param
    numbered_parameter-some (zero, pos n) end old h =
        let (u, e, f) = >>=-eq-some (w.param_get (param_id (pos n))) (finite m) h in
        let (good, k) = finite-eq-some u f in rw e (ap (λ x. success x end) k)
    numbered_parameter-some (zero, negsuc n) end old h = cc
    numbered_parameter-some (suc k, n) end old h = cc

    pub parameter_of-valid :
        (r : ℕ × ℤ) {v : F} → parameter_of m w r ≡ some v → is_invalid m v ≡ false
    unfolding parameter_of
    parameter_of-valid (zero, pos n) {v} h =
        let (u, e, f) = >>=-eq-some (w.param_get (param_id (pos n))) (finite m) h in
        let (good, k) = finite-eq-some u f in ap (is_invalid m) (sym k) ∙ good
    parameter_of-valid (zero, negsuc n) h = cc
    parameter_of-valid (suc k, n) h = cc

    -- A parameter whose number is an expression in brackets.
    read_integer_value-success :
        (real : Reader F) (c end : Cursor) (old : ℤ) {v : F}
        → real c (w.stale c.pos) ≡ some (success v end)
        → ngc_read_integer_value m w real c old ≡ (
            let (status, n) = to_integer m v in
            let r : Option (ℕ × ℤ × Cursor) = some (status, n, end) in r)
    unfolding ngc_read_integer_value
    read_integer_value-success real c end old h = rw (h, ngc_read_integer_value) refl

    read_parameter-bracket :
        (real : Reader F) (p : ℕ) (t rest : Text) (old : F)
        → ngc_read_parameter m w real (at p (b'#' ∷ (bracket true t ++ rest))) old false
          ≡ Option.map
              (λ r. numbered_parameter m w r old false)
              (ngc_read_integer_value m w real (at (p + 1) (bracket true t ++ rest)) (pos 0))
    unfolding ngc_read_parameter bracket
    read_parameter-bracket real p t rest old = refl

    pub param-Gives :
        (n : ℕ) (t : Text) {u v : F}
        → Gives (ngc_read_real_value m w n) (bracket true t) u
        → parameter_of m w (to_integer m u) ≡ some v
        → Gives (ngc_read_real_value m w (suc n)) (b'#' ∷ bracket true t) v
    param-Gives n t {u} {v} g h p rest old e =
        let real = ngc_read_real_value m w n in
        let end = at (p + 1 + length (bracket true t)) rest in
        let z : p + 1 + length (bracket true t) ≡ p + suc (length (bracket true t)) = omega arith in
        real-parameter m w n p (bracket true t ++ rest) old
        ∙ ap (Option.map (checked m)) (
            read_parameter-bracket real p t rest old
            ∙ ap (Option.map (λ r. numbered_parameter m w r old false)) (
                read_integer_value-success real (at (p + 1) (bracket true t ++ rest)) end (pos 0)
                  (g (p + 1) rest (w.stale (p + 1)) e))
            ∙ ap some (numbered_parameter-some (to_integer m u) end old h))
        ∙ ap some (checked-success m w v end (parameter_of-valid (to_integer m u) h))
        ∙ ap (λ q. let r : Option (Got F) = some (success v (at q rest)) in r) z

    -- The sign before an expression in brackets.
    pub negative-Gives :
        (n : ℕ) (t : Text) {u v : F}
        → Gives (ngc_read_real_value m w n) (bracket true t) u
        → finite m (m.neg u) ≡ some v
        → Gives (ngc_read_real_value m w (suc n)) (b'-' ∷ bracket true t) v
    unfolding bracket
    negative-Gives n t {u} {v} g h p rest old e =
        let (good, k) = finite-eq-some (m.neg u) h in
        let end = at (p + 1 + length (bracket true t)) rest in
        let z : p + 1 + length (bracket true t) ≡ p + suc (length (bracket true t)) = omega arith in
        real-negative m w n p ((t ++ (b']' ∷ [])) ++ rest) old
        ∙ ap
            (λ x.
              Option.map (checked m)
                (Option.map (λ (r : Got F). record r { value = m.neg r.value }) x))
            (g (p + 1) rest old e)
        ∙ ap some (checked-success m w (m.neg u) end good)
        ∙ ap (λ x. let r : Option (Got F) = some (success x end) in r) k
        ∙ ap (λ q. let r : Option (Got F) = some (success v (at q rest)) in r) z

    -- The operations that read an expression in brackets behind their name.
    abbrev pub takes_expression : UnaryOp → Bool
    takes_expression exists = false
    takes_expression parameter = false
    takes_expression _ = true

    function_takes : (op : UnaryOp) → is_function op ≡ true → takes_expression op ≡ true
    function_takes abs h = refl
    function_takes op h = cc

    pub read_unary-name :
        (real : Reader F) (op : UnaryOp) (p : ℕ) (t rest : Text) (old : F)
        → read_unary m w real (at p (unary_name op ++ (bracket true t ++ rest))) old
          ≡ run_unary m w real op (at (p + length (unary_name op)) (bracket true t ++ rest)) old
    unfolding read_unary named_unary bracket
    read_unary-name real op p t rest old =
        ap (λ r. named_unary m w real r old)
          (read_operation_unary-name op p (bracket true t ++ rest))

    pub run_unary-eval :
        (real : Reader F) (op : UnaryOp) (c end : Cursor) (old : F) {u : F}
        → takes_expression op ≡ true
        → ngc_eval_expression m w real c old ≡ some (success u end)
        → run_unary m w real op c old ≡ apply_unary m w real op (success u end)
    unfolding run_unary
    run_unary-eval real exists c end old k h = cc
    run_unary-eval real parameter c end old k h = cc
    run_unary-eval real op c end old k h = rw (h, run_unary) refl

    apply_unary-function :
        (real : Reader F) (op : UnaryOp) (end : Cursor) (u : F) {v : F}
        → is_function op ≡ true
        → (execute_unary m u op).0 ≡ status_ok
        → (execute_unary m u op).1 ≡ v
        → apply_unary m w real op (success u end) ≡ some (success v end)
    unfolding apply_unary
    apply_unary-function real atan end u k h e = cc
    apply_unary-function real exists end u k h e = cc
    apply_unary-function real parameter end u k h e = cc
    apply_unary-function real op end u k h e = ground (arith, h, e)

    pub unary-Gives :
        (n : ℕ) (op : UnaryOp) (t : Text) {u v : F}
        → is_function op ≡ true
        → Gives (ngc_eval_expression m w (ngc_read_real_value m w n)) (bracket true t) u
        → unless_error m (execute_unary m u op) ≡ some v
        → Gives (ngc_read_real_value m w (suc n)) (unary_name op ++ bracket true t) v
    unary-Gives n op t {u} {v} k g h p rest old e =
        let real = ngc_read_real_value m w n in
        let (fine, good, same) = unless_error-eq-some (execute_unary m u op) h in
        let q = p + length (unary_name op) in
        let end = at (q + length (bracket true t)) rest in
        let z : q + length (bracket true t) ≡ p + length (unary_name op ++ bracket true t) =
          omega (arith, length-append (unary_name op) (bracket true t)) in
        ap (λ x. ngc_read_real_value m w (suc n) (at p x) old)
          (append_assoc (unary_name op) (bracket true t) rest)
        ∙ real-unary m w n p (bracket true t ++ rest) old op
        ∙ ap (Option.map (checked m)) (
            read_unary-name real op p t rest old
            ∙ run_unary-eval real op (at q (bracket true t ++ rest)) end old (function_takes op k)
                (g q rest old e)
            ∙ apply_unary-function real op end u k fine same)
        ∙ ap some (checked-success m w v end (ap (is_invalid m) (sym same) ∙ good))
        ∙ ap (λ x. let r : Option (Got F) = some (success v (at x rest)) in r) z
