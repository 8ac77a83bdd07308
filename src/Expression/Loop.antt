-- ===== src/Expression/Loop.antt =====
-- One round of the loop of `ngc_eval_expression`, for operands that are read without an error.
use cnc_3d.Common.{
  ℕ, suc, ◌+◌, ◌≤◌, ◌<◌, ◌≡◌, refl, true, false, Option, some, [], ◌∷◌, ◌++◌, length, arith,
}
use cnc_3d.FlowCtrl.Types.{Text, status_ok}
use cnc_3d.Expression.Types.{Cursor, FloatMath, World, Got, Outcome, ok}
use cnc_3d.Expression.Operators.{BinaryOp, right_bracket, precedence, execute_binary}
use cnc_3d.Expression.Stack.{Stack, reduce, closed, first_value}
use cnc_3d.Expression.Read.{Reader, with_stack, with_operand, read_operand, eval_loop}
use cnc_3d.Expression.Tree.{name, is_operator}
use cnc_3d.Expression.Digits.{at}
use cnc_3d.Expression.Names.{follows, ends_operand, read_operation-name}

abbrev pub success : {F : Type 0} → F → Cursor → Got F
success v c = record { status = status_ok; value = v; cursor = c }

-- An operator of this precedence is pushed on the stack.
abbrev pub Above : {F : Type 0} → Stack F → ℕ → Type 0
Above [] p = Unit {0}
Above ((v, op) ∷ stack) p = precedence op < p

module _ {F : Type 0} where
  pub Above-trans : (stack : Stack F) (p q : ℕ) → Above stack p → p ≤ q → Above stack q
  Above-trans [] p q h k = tt
  Above-trans ((v, op) ∷ stack) p q h k = omega arith

  pub closed-push :
      (stack : Stack F) (v : F) (op : BinaryOp)
      → closed stack ≡ false
      → is_operator op ≡ true
      → closed ((v, op) ∷ stack) ≡ false
  unfolding closed
  closed-push [] v right_bracket h k = cc
  closed-push [] v op h k = refl
  closed-push (entry ∷ stack) v op h k = h

module _ {F : Type 0} (m : FloatMath F) where
  pub reduce-push :
      (v : F) (op : BinaryOp) (stack : Stack F)
      → Above stack (precedence op)
      → reduce m v op stack ≡ ok ((v, op) ∷ stack)
  unfolding reduce
  reduce-push v op [] h = refl
  reduce-push v op ((l, top) ∷ stack) h = ground arith

  pub reduce-execute :
      (v r l : F) (op top : BinaryOp) (stack : Stack F)
      → precedence op ≤ precedence top
      → execute_binary m l top v ≡ (let e : ℕ × F = (status_ok, r) in e)
      → reduce m v op ((l, top) ∷ stack) ≡ reduce m r op stack
  unfolding reduce
  reduce-execute v r l op top stack h e = ground (arith, e)

  module _ (w : World F) (real : Reader F) where
    read_operand-name :
        (c : Cursor) (v : F) (p : ℕ) (op : BinaryOp) (rest : Text)
        → real c (w.stale c.pos) ≡ some (success v (at p (name op ++ rest)))
        → ends_operand op ≡ true
        → follows op rest ≡ true
        → read_operand m w real c ≡ (
            let r : Option (Outcome (F × BinaryOp) × Cursor) =
              some (ok (v, op), at (p + length (name op)) rest) in
            r)
    unfolding read_operand
    read_operand-name c v p op rest h k f =
        rw (h, read_operand) (rw (read_operation-name op p rest k f) refl)

    pub eval_loop-operand :
        (fuel : ℕ) (old : F) (stack : Stack F) (c : Cursor) {v : F} {p : ℕ} (op : BinaryOp)
        (rest : Text)
        → closed stack ≡ false
        → real c (w.stale c.pos) ≡ some (success v (at p (name op ++ rest)))
        → ends_operand op ≡ true
        → follows op rest ≡ true
        → eval_loop m w real (suc fuel) old stack c
          ≡ with_stack
              (eval_loop m w real fuel old)
              old
              (at (p + length (name op)) rest)
              (reduce m v op stack)
    unfolding eval_loop with_operand
    eval_loop-operand fuel old stack c {v} {p} op rest e h k f =
        rw (e, eval_loop) (rw (read_operand-name c v p op rest h k f) refl)

    pub eval_loop-closed :
        (fuel : ℕ) (old v : F) (c : Cursor)
        → eval_loop m w real (suc fuel) old ((v, right_bracket) ∷ []) c ≡ some (success v c)
    unfolding eval_loop closed first_value
    eval_loop-closed fuel old v c = refl
