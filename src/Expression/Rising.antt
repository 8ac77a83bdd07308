-- ===== src/Expression/Rising.antt =====
-- The precedences on the stack of `ngc_eval_expression`, from its top down, and what `reduce` makes
-- of them.
use cnc_3d.Common.{
  ℕ, ◌≤◌, ◌<◌, ◌⊎◌, ◌≡◌, refl, ap, sym, ◌∙◌, true, false, [], ◌∷◌, leb, length, arith, Bool-cases,
  inl, inr,
}
use cnc_3d.Expression.Types.{FloatMath, ok}
use cnc_3d.Expression.Operators.{BinaryOp, plus, right_bracket, precedence, execute_binary}
use cnc_3d.Expression.Stack.{Stack, reduce, closed}

precedence_bounds : (op : BinaryOp) → (0 < precedence op) × (precedence op ≤ 6)
unfolding precedence
precedence_bounds plus = (omega arith, omega arith)
precedence_bounds op = (omega arith, omega arith)

-- Each operator binds tighter than the one below it.
abbrev pub Rising : {F : Type 0} → Stack F → Type 0
Rising [] = Unit {0}
Rising ((v, op) ∷ []) = Unit {0}
Rising ((v, op) ∷ (l, top) ∷ stack) = (precedence top < precedence op) × Rising ((l, top) ∷ stack)

abbrev top_precedence : {F : Type 0} → Stack F → ℕ
top_precedence [] = 0
top_precedence ((v, op) ∷ stack) = precedence op

-- What `reduce` leaves: the operator on top of what it did not execute.
pub record Reduced {F : Type 0} (op : BinaryOp) (stack stack' : Stack F) : Type 0 where
  pub value : F
  pub below : Stack F
  pub shape : stack' ≡ (value, op) ∷ below
  pub rising : Rising stack → Rising ((value, op) ∷ below)
  pub bottom : (below ≡ []) ⊎ ((0 < length stack) × (closed below ≡ closed stack))

ok_injective : {A : Type 0} {x y : A} → ok x ≡ ok y → x ≡ y
ok_injective h = cc

Rising-tail :
    {F : Type 0} (entry : F × BinaryOp) (stack : Stack F) → Rising (entry ∷ stack) → Rising stack
Rising-tail (v, op) [] h = tt
Rising-tail (v, op) ((l, top) ∷ stack) (h, r) = r

bottom_below :
    {F : Type 0} (below : Stack F) (entry : F × BinaryOp) (stack : Stack F)
    → (below ≡ []) ⊎ ((0 < length stack) × (closed below ≡ closed stack))
    → (below ≡ []) ⊎ ((0 < length (entry ∷ stack)) × (closed below ≡ closed (entry ∷ stack)))
unfolding closed
bottom_below below entry [] (inl h) = inl h
bottom_below below entry [] (inr (h, e)) = absurd (omega arith)
bottom_below below entry (next ∷ stack) (inl h) = inl h
bottom_below below entry (next ∷ stack) (inr (h, e)) = inr (omega arith, e)

module _ {F : Type 0} (m : FloatMath F) where
  executed :
      (v l : F) (op top : BinaryOp) (stack : Stack F) {stack' : Stack F}
      → leb (precedence op) (precedence top) ≡ true
      → reduce m v op ((l, top) ∷ stack) ≡ ok stack'
      → reduce m (execute_binary m l top v).1 op stack ≡ ok stack'
  unfolding reduce
  executed v l op top stack b e = ground (arith, b, e)

  not_executed :
      (v l : F) (op top : BinaryOp) (stack : Stack F) {stack' : Stack F}
      → leb (precedence op) (precedence top) ≡ false
      → reduce m v op ((l, top) ∷ stack) ≡ ok stack'
      → stack' ≡ (v, op) ∷ (l, top) ∷ stack
  unfolding reduce
  not_executed v l op top stack b e = ground (arith, b, e)

  pub reduce-Reduced :
      (v : F) (op : BinaryOp) (stack : Stack F) {stack' : Stack F}
      → reduce m v op stack ≡ ok stack'
      → Reduced op stack stack'
  reduce-Reduced v op [] e = record {
    value = v;
    below = [];
    shape = sym (ok_injective (unfold reduce in e));
    rising = λ h. tt;
    bottom = inl refl;
  }
  reduce-Reduced v op ((l, top) ∷ stack) e =
      elim (Bool-cases (leb (precedence op) (precedence top))) [
        | inl b ↦
            let r =
              reduce-Reduced (execute_binary m l top v).1 op stack
                (executed v l op top stack b e) in
            record {
              value = r.value;
              below = r.below;
              shape = r.shape;
              rising = λ h. r.rising (Rising-tail (l, top) stack h);
              bottom = bottom_below r.below (l, top) stack r.bottom;
            }
        | inr b ↦ record {
          value = v;
          below = (l, top) ∷ stack;
          shape = not_executed v l op top stack b e;
          rising = λ h. (ground (arith, b), h);
          bottom = inr (omega arith, refl);
        }
      ]

rising_bottom :
    {F : Type 0} (v : F) (op : BinaryOp) → closed ((v, op) ∷ []) ≡ false → 1 < precedence op
unfolding closed precedence
rising_bottom v right_bracket h = cc
rising_bottom v op h = omega arith

Rising-length :
    {F : Type 0} (v : F) (op : BinaryOp) (stack : Stack F)
    → Rising ((v, op) ∷ stack)
    → closed ((v, op) ∷ stack) ≡ false
    → length ((v, op) ∷ stack) < precedence op
Rising-length v op [] h c = omega (arith, rising_bottom v op c)
Rising-length v op ((l, top) ∷ stack) (h, r) c =
    omega (arith, Rising-length l top stack r (going l top stack v op c))
  where
    going :
        {F : Type 0} (l : F) (top : BinaryOp) (stack : Stack F) (v : F) (op : BinaryOp)
        → closed ((v, op) ∷ (l, top) ∷ stack) ≡ false
        → closed ((l, top) ∷ stack) ≡ false
    going l top stack v op c = unfold closed in c

kept_open :
    {F : Type 0} (below stack : Stack F)
    → (below ≡ []) ⊎ ((0 < length stack) × (closed below ≡ closed stack))
    → closed stack ≡ false
    → (below ≡ []) ⊎ (closed below ≡ false)
kept_open below stack (inl h) c = inl h
kept_open below stack (inr (h, e)) c = inr (e ∙ c)

one_entry :
    {F : Type 0} (v : F) (op : BinaryOp) (below : Stack F)
    → (below ≡ []) ⊎ (closed below ≡ false)
    → closed ((v, op) ∷ below) ≡ true
    → length ((v, op) ∷ below) ≡ 1
unfolding closed
one_entry v op [] h c = refl
one_entry v op (next ∷ below) (inl h) c = cc
one_entry v op (next ∷ below) (inr h) c = cc

module _ {F : Type 0} (m : FloatMath F) where
  pub closed_nil : closed {F = F} [] ≡ false
  unfolding closed
  closed_nil = refl

  pub Rising-short : (stack : Stack F) → Rising stack → closed stack ≡ false → length stack ≤ 5
  Rising-short [] h c = omega arith
  Rising-short ((v, op) ∷ stack) h c =
      omega (arith, Rising-length v op stack h c, (precedence_bounds op).1)

  pub one_left :
      {op : BinaryOp} {stack stack' : Stack F}
      → Reduced op stack stack'
      → closed stack ≡ false
      → closed stack' ≡ true
      → length stack' ≡ 1
  one_left {op} {stack} d c c' =
      ap length d.shape
      ∙ one_entry d.value op d.below (kept_open d.below stack d.bottom c)
          (ap closed (sym d.shape) ∙ c')
