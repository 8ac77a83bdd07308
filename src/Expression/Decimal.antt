-- ===== src/Expression/Decimal.antt =====
-- `read_float` on a whole number with its decimals, up to where it ends.
use mathlib.Core.Path.{subst}
use native.Mathlib.Nat.{zero-add}
use cnc_3d.Common.{
  ℕ, zero, suc, ◌/◌, ◌%◌, ◌+◌, ◌-◌, ◌≤◌, ◌⊎◌, ◌<◌, ◌≡◌, refl, sym, ap, ◌∙◌, true, false, Option,
  some, List, [], ◌∷◌, ◌++◌, ◌==◌, leb, if◌then◌else◌, length, arith, length-append, append_assoc,
  inl, inr,
}
use cnc_3d.FlowCtrl.Types.{Text}
use cnc_3d.Expression.Types.{Cursor, peek, FloatMath}
use cnc_3d.Expression.Number.{
  Scan, no_digits, float_char, float_loop, scale, finish_float, read_float, scale_down,
}
use cnc_3d.Expression.Tree.{
  AllDigits, digits, decimals, number, decimals_of, multiplied, decimal_value,
}
use cnc_3d.Expression.Digits.{
  at, ends_number, bound, ScanIs, scanned, ok_after, float_loop-digits, scanned-ScanIs,
  length-digits,
}

-- The text behind a number ends the loop.
float_loop-ends :
    (s : Scan) (p : ℕ) (rest : Text)
    → ends_number rest ≡ true
    → float_loop s p rest ≡ (s, at p rest)
unfolding float_loop float_char
float_loop-ends s p [] h = refl
float_loop-ends s p (c ∷ rest) h = ground (arith, h)

float_loop-point :
    (s : Scan) (p : ℕ) (rest : Text)
    → s.is_decimal ≡ false
    → float_loop s p (b'.' ∷ rest) ≡ float_loop (record s { is_decimal = true }) (p + 1) rest
unfolding float_loop float_char
float_loop-point s p rest e = ground (arith, e)

-- The digits and the decimals of a number, read from the start.
abbrev pointed : Scan → List ℕ → Scan
pointed s [] = s
pointed s (d ∷ fs) = scanned (record s { is_decimal = true }) (d ∷ fs)

float_loop-decimals :
    (s : Scan) (p : ℕ) (fs : List ℕ) (rest : Text)
    → AllDigits fs
    → s.is_decimal ≡ false
    → ends_number rest ≡ true
    → float_loop s p (decimals fs ++ rest) ≡ (pointed s fs, at (p + length (decimals fs)) rest)
unfolding decimals
float_loop-decimals s p [] rest hs e h =
    let z : p + 0 ≡ p = omega arith in
    float_loop-ends s p rest h ∙ ap (λ q. let r : Scan × Cursor = (s, at q rest) in r) (sym z)
float_loop-decimals s p (d ∷ fs) rest hs e h =
    let z : p + 1 + length (d ∷ fs) ≡ p + suc (length (digits (d ∷ fs))) =
      omega (arith, length-digits (d ∷ fs)) in
    float_loop-point s p (digits (d ∷ fs) ++ rest) e
    ∙ float_loop-digits (record s { is_decimal = true }) (p + 1) (d ∷ fs) rest hs
    ∙ float_loop-ends (pointed s (d ∷ fs)) (p + 1 + length (d ∷ fs)) rest h
    ∙ ap (λ q. let r : Scan × Cursor = (pointed s (d ∷ fs), at q rest) in r) z

pointed-ScanIs :
    (s : Scan) (fs : List ℕ) {v k : ℕ}
    → AllDigits fs
    → k + length fs ≤ 9
    → ScanIs s true false v 0 k
    → (pointed s fs).ok ≡ true
      × (pointed s fs).intval ≡ number v fs
      × (pointed s fs).up ≡ 0
      × (pointed s fs).down ≡ length fs
unfolding number ok_after
pointed-ScanIs s [] h r i = ground (arith, i)
pointed-ScanIs s (d ∷ fs) {v} {k} h r i =
    let start : ScanIs (record s { is_decimal = true }) true true v 0 k = ground (arith, i) in
    let end = scanned-ScanIs (record s { is_decimal = true }) (d ∷ fs) h r start in
    (end.ok_is, end.value_is, end.up_is, end.down_is ∙ zero-add (length (d ∷ fs)))

scale_down_lem :
    {F : Type 0} (m : FloatMath F) (k : ℕ) (v : F) → scale_down m k v ≡ decimals_of m k v
unfolding scale_down decimals_of multiplied
scale_down_lem m zero v = refl
scale_down_lem m (suc zero) v = refl
scale_down_lem m (suc (suc n)) v =
    let half : suc (suc n) / 2 ≡ suc (n / 2) = omega arith in
    let left : suc (suc n) % 2 ≡ n % 2 = omega arith in
    scale_down_lem m n (m.mul v m.hundredth)
    ∙ sym (
        ap (λ j. multiplied m (suc (suc n) % 2) m.tenth (multiplied m j m.hundredth v)) half
        ∙ ap (λ j. multiplied m j m.tenth (multiplied m (suc (n / 2)) m.hundredth v)) left)

scale_of_down :
    {F : Type 0} (m : FloatMath F) (n k : ℕ)
    → scale m n 0 k ≡ (let v = m.of_word n in if m.eq v m.zero then v else decimals_of m k v)
unfolding scale
scale_of_down m n k =
    let tested : leb 0 k ≡ true = ground arith in
    let z : k - 0 ≡ k = omega arith in
    rw tested (ap (λ j. let v = m.of_word n in if m.eq v m.zero then v else scale_down m j v) z)
    ∙ ap (λ x. let v = m.of_word n in if m.eq v m.zero then v else x)
        (scale_down_lem m k (m.of_word n))

scanned_is :
    (ds : List ℕ)
    → 0 < length ds
    → length ds ≤ 9
    → AllDigits ds
    → ScanIs (scanned no_digits ds) true false (number 0 ds) 0 (length ds)
unfolding ok_after
scanned_is [] h r hd = absurd (omega arith)
scanned_is (d ∷ ds) h r hd =
    let one : 0 < bound 0 = unfold bound in omega arith in
    let z : 0 + length (d ∷ ds) ≡ length (d ∷ ds) = omega arith in
    let start : ScanIs no_digits false false 0 0 0 = record {
      ok_is = refl;
      decimal_is = refl;
      value_is = refl;
      up_is = refl;
      down_is = refl;
      room = omega arith;
      small = one;
    } in
    let i = scanned-ScanIs no_digits (d ∷ ds) hd (omega (arith, z)) start in
    subst (ScanIs (scanned no_digits (d ∷ ds)) true false (number 0 (d ∷ ds)) 0) z i

number_loop :
    (p : ℕ) (ds fs : List ℕ) (rest : Text)
    → (scanned no_digits ds).is_decimal ≡ false
    → AllDigits ds
    → AllDigits fs
    → ends_number rest ≡ true
    → float_loop no_digits p ((digits ds ++ decimals fs) ++ rest)
      ≡ (pointed (scanned no_digits ds) fs, at (p + length (digits ds ++ decimals fs)) rest)
number_loop p ds fs rest e hd hf h =
    let z : p + length ds + length (decimals fs) ≡ p + length (digits ds ++ decimals fs) =
      omega (arith, length-digits ds, length-append (digits ds) (decimals fs)) in
    ap (float_loop no_digits p) (append_assoc (digits ds) (decimals fs) rest)
    ∙ float_loop-digits no_digits p ds (decimals fs ++ rest) hd
    ∙ float_loop-decimals (scanned no_digits ds) (p + length ds) fs rest hf e h
    ∙ ap (λ q. let r : Scan × Cursor = (pointed (scanned no_digits ds) fs, at q rest) in r) z

read_float-unsigned :
    {F : Type 0} (m : FloatMath F) (c : Cursor)
    → (peek c.rest == b'-') ≡ false
    → (peek c.rest == b'+') ≡ false
    → read_float m c ≡ finish_float m false (float_loop no_digits c.pos c.rest)
unfolding read_float
read_float-unsigned m c h k = rw h (rw k refl)

finish_float-scan :
    {F : Type 0} (m : FloatMath F) (s : Scan) (end : Cursor)
    → s.ok ≡ true
    → finish_float m false (s, end) ≡ some (scale m s.intval s.up s.down, end)
unfolding finish_float
finish_float-scan m s end h = ground (arith, h)

number_no_sign :
    (c : ℕ) (ds : List ℕ) (rest : Text)
    → (c == 45 ≡ true) ⊎ (c == 43 ≡ true)
    → AllDigits ds
    → 0 < length ds
    → peek (digits ds ++ rest) == c ≡ false
unfolding digits
number_no_sign c [] rest k hd h = absurd (omega arith)
number_no_sign c (d ∷ ds) rest k hd h = ground (arith, k)

-- A number without a sign, with at least one digit before the point and at most nine digits in all,
-- is read up to where it ends; its value is that of all its digits, multiplied by a hundredth for each
-- pair of decimals and by a tenth for one that is left, unless it is zero.
pub read_float-num :
    {F : Type 0} (m : FloatMath F) (p : ℕ) (ds fs : List ℕ) (rest : Text)
    → 0 < length ds
    → length ds + length fs ≤ 9
    → AllDigits ds
    → AllDigits fs
    → ends_number rest ≡ true
    → read_float m (at p ((digits ds ++ decimals fs) ++ rest))
      ≡ some (decimal_value m ds fs, at (p + length (digits ds ++ decimals fs)) rest)
unfolding decimal_value
read_float-num {F} m p ds fs rest h r hd hf e =
    let i = scanned_is ds h (omega arith) hd in
    let (o, v, u, d) = pointed-ScanIs (scanned no_digits ds) fs hf r i in
    let end = at (p + length (digits ds ++ decimals fs)) rest in
    let s = pointed (scanned no_digits ds) fs in
    let start = append_assoc (digits ds) (decimals fs) rest in
    let value : scale m s.intval s.up s.down ≡ decimal_value m ds fs =
      ap (λ n. scale m n s.up s.down) v
      ∙ ap (λ n. scale m (number (number 0 ds) fs) n s.down) u
      ∙ ap (λ n. scale m (number (number 0 ds) fs) 0 n) d
      ∙ scale_of_down m (number (number 0 ds) fs) (length fs) in
    read_float-unsigned m (at p ((digits ds ++ decimals fs) ++ rest))
      (ap (λ t. peek t == b'-') start ∙ number_no_sign 45 ds (decimals fs ++ rest) (inl refl) hd h)
      (ap (λ t. peek t == b'+') start ∙ number_no_sign 43 ds (decimals fs ++ rest) (inr refl) hd h)
    ∙ ap (finish_float m false) (number_loop p ds fs rest i.decimal_is hd hf e)
    ∙ finish_float-scan m s end o
    ∙ ap (λ x. let r : Option (F × Cursor) = some (x, end) in r) value
