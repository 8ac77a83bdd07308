-- ===== src/Expression/Depth.antt =====
-- How far the stack of `ngc_eval_expression` grows.
use mathlib.Core.Path.{subst}
use cnc_3d.Common.{
  ℕ, suc, Option, some, ◌+◌, ◌<◌, ◌⊎◌, ◌≡◌, refl, ap, sym, ◌∙◌, true, false, [], ◌∷◌, length, arith,
  Bool-cases, inl, inr,
}
use cnc_3d.Expression.Types.{Cursor, FloatMath, World, Outcome, ok}
use cnc_3d.Expression.Operators.{BinaryOp, right_bracket}
use cnc_3d.Expression.Stack.{Stack, reduce, closed}
use cnc_3d.Expression.Read.{Reader, with_stack, with_operand, read_operand, eval_loop}
use cnc_3d.Expression.Loop.{success, eval_loop-closed}
use cnc_3d.Expression.Rising.{Rising, reduce-Reduced, closed_nil, Rising-short, one_left}

-- MAX_STACK
abbrev pub max_stack : ℕ
max_stack = 7

-- After `n` rounds of the loop, begun at `c` with an empty stack, this is the stack and this the
-- position: each round reads an operand and an operator and puts them on the stack.
pub data Visits {F : Type 0} (m : FloatMath F) (w : World F) (real : Reader F) (c : Cursor)
    : ℕ → Stack F → Cursor → Type 0 where
  start : Visits m w real c 0 [] c
  round :
      (n : ℕ) (stack : Stack F) (at : Cursor) (v : F) (op : BinaryOp) {stack' : Stack F}
      {end : Cursor}
      → Visits m w real c n stack at
      → closed stack ≡ false
      → read_operand m w real at
        ≡ (let r : Option (Outcome (F × BinaryOp) × Cursor) = some (ok (v, op), end) in r)
      → reduce m v op stack ≡ ok stack'
      → Visits m w real c (n + 1) stack' end

closed_op : {F : Type 0} (v : F) (op : BinaryOp) → closed ((v, op) ∷ []) ≡ true → op ≡ right_bracket
unfolding closed
closed_op v right_bracket h = refl
closed_op v op h = cc

closed_single :
    {F : Type 0} (stack : Stack F)
    → length stack ≡ 1
    → closed stack ≡ true
    → (v : F) × (stack ≡ (v, right_bracket) ∷ [])
closed_single [] e h = absurd (omega (arith, e))
closed_single ((v, op) ∷ []) e h = (v, ap (λ o. (v, o) ∷ []) (closed_op v op h))
closed_single ((v, op) ∷ entry ∷ stack) e h = absurd (omega (arith, e))

module _ {F : Type 0} (m : FloatMath F) (w : World F) (real : Reader F) where
  Visits-Rising :
      (c at : Cursor) (n : ℕ) {stack : Stack F} → Visits m w real c n stack at → Rising stack
  Visits-Rising c at n start = tt
  Visits-Rising c at n (round k stack end v op {stack'} r e o d) =
      let q = reduce-Reduced m v op stack d in
      subst Rising (sym q.shape) (q.rising (Visits-Rising c end k r))

  eval_round :
      (fuel : ℕ) (old v : F) (op : BinaryOp) (stack : Stack F) (c : Cursor) {stack' : Stack F}
      {end : Cursor}
      → closed stack ≡ false
      → read_operand m w real c
        ≡ (let r : Option (Outcome (F × BinaryOp) × Cursor) = some (ok (v, op), end) in r)
      → reduce m v op stack ≡ ok stack'
      → eval_loop m w real (suc fuel) old stack c ≡ eval_loop m w real fuel old stack' end
  unfolding eval_loop with_operand with_stack
  eval_round fuel old v op stack c e o d = rw (e, eval_loop) (rw o (rw d refl))

  -- The rounds are those of the loop.
  Visits-eval_loop :
      (old : F) (c at : Cursor) (n fuel : ℕ) {stack : Stack F}
      → Visits m w real c n stack at
      → eval_loop m w real (n + fuel) old [] c ≡ eval_loop m w real fuel old stack at
  Visits-eval_loop old c at n fuel start =
      let z : 0 + fuel ≡ fuel = omega arith in ap (λ k. eval_loop m w real k old [] c) z
  Visits-eval_loop old c at n fuel (round k stack end v op r e o d) =
      let z : k + 1 + fuel ≡ k + suc fuel = omega arith in
      ap (λ j. eval_loop m w real j old [] c) z
      ∙ Visits-eval_loop old c end k (suc fuel) r
      ∙ eval_round fuel old v op stack end e o d

  short_or_closed :
      (c at : Cursor) (n : ℕ) {stack : Stack F}
      → Visits m w real c n stack at
      → ((closed stack ≡ false) × (length stack + 1 < max_stack))
        ⊎ ((closed stack ≡ true) × (length stack ≡ 1))
  short_or_closed c at n start = inl (closed_nil m, omega arith)
  short_or_closed c at n {stack} (round k below end v op r e o d) =
      elim (Bool-cases (closed stack)) [
        | inl h ↦ inr (h, one_left m (reduce-Reduced m v op below d) e h)
        | inr h ↦
            let rising = Visits-Rising c at (k + 1) (round k below end v op r e o d) in
            inl (h, omega (arith, Rising-short m stack rising h))
      ]

  -- Whatever the expression is and however its operands are read: after any number of rounds of the
  -- loop of `ngc_eval_expression`, which the loop does go through, either it goes on and at most five
  -- operators are on its stack, so that it writes to entries well inside `values` and `operators`; or
  -- one entry is left, the loop ends, and the value of that entry is the result.
  pub stack_bound :
      (old : F) (c at : Cursor) (n : ℕ) {stack : Stack F}
      → Visits m w real c n stack at
      → ((fuel : ℕ) → eval_loop m w real (n + fuel) old [] c ≡ eval_loop m w real fuel old stack at)
        × (((closed stack ≡ false) × (length stack + 1 < max_stack))
            ⊎ ((v : F) × ((stack ≡ (v, right_bracket) ∷ [])
                  × ((fuel : ℕ)
                      → eval_loop m w real (n + suc fuel) old [] c ≡ some (success v at)))))
  stack_bound old c at n {stack} r =
      let go = λ (fuel : ℕ). Visits-eval_loop old c at n fuel r in
      (
        go,
        elim (short_or_closed c at n r) [
          | inl h ↦ inl h
          | inr (h, e) ↦
              let (v, k) = closed_single stack e h in
              inr (
                v,
                (
                  k,
                  λ fuel.
                      go (suc fuel)
                      ∙ ap (λ s. eval_loop m w real (suc fuel) old s at) k
                      ∙ eval_loop-closed m w real fuel old v at,
                ),
              )
        ],
      )
