-- ===== src/Expression/Digits.antt =====
-- What `read_float` makes of up to nine digits: the number that they stand for.
use cnc_3d.Common.{
  ℕ, zero, suc, ◌+◌, ◌*◌, ◌-◌, ◌≤◌, ◌<◌, ◌≡◌, refl, sym, ap, ◌∙◌, Bool, true, not, ◌&&◌, some, List,
  [], ◌∷◌, ◌++◌, ◌==◌, if◌then◌else◌, length, arith,
}
use cnc_3d.FlowCtrl.Types.{Text}
use cnc_3d.Expression.Types.{Cursor, peek, is_digit}
use cnc_3d.Expression.Number.{Scan, counted, float_digit, float_char, float_loop}
use cnc_3d.Expression.Tree.{AllDigits, digits, number}

abbrev pub at : ℕ → Text → Cursor
at p t = record { pos = p; rest = t }

-- Whether a number ends before this text.
abbrev pub ends_number : Text → Bool
ends_number rest = not (is_digit (peek rest)) && not (peek rest == b'.')

-- 10 to the power of the number of digits.
unfoldable pub bound : ℕ → ℕ
bound zero = 1
bound (suc k) = 10 * bound k

bound_pos : (k : ℕ) → 0 < bound k
unfolding bound
bound_pos zero = omega arith
bound_pos (suc k) = omega (arith, bound_pos k)

bound-add : (k j : ℕ) → bound k ≤ bound (k + j)
unfolding bound
bound-add k zero = let e : k + 0 ≡ k = omega arith in omega (arith, ap bound e)
bound-add k (suc j) =
    let e : k + suc j ≡ suc (k + j) = omega arith in
    omega (arith, ap bound e, bound-add k j, bound_pos (k + j))

bound_nine : (k : ℕ) → k ≤ 9 → bound k ≤ 1000000000
bound_nine k h =
    let e : k + (9 - k) ≡ 9 = omega arith in
    let nine : bound 9 ≡ 1000000000 = unfold bound in refl in
    omega (arith, bound-add k (9 - k), ap bound e, nine)

-- What the loop keeps: the number so far, and room for more digits.
pub record ScanIs (s : Scan) (ok is_decimal : Bool) (v down k : ℕ) : Type 0 where
  pub ok_is : s.ok ≡ ok
  pub decimal_is : s.is_decimal ≡ is_decimal
  pub value_is : s.intval ≡ v
  pub up_is : s.up ≡ 0
  pub down_is : s.down ≡ down
  pub room : s.ndigit ≤ k
  pub small : v < bound s.ndigit

counted_fits :
    (s : Scan) (d : ℕ)
    → d ≤ 9
    → s.ndigit < 9
    → s.intval < bound s.ndigit
    → (counted s d ≤ 9) × (s.intval * 10 + d < bound (counted s d))
unfolding counted
counted_fits s d h k b =
    let more : bound (suc s.ndigit) ≡ 10 * bound s.ndigit = unfold bound in refl in
    let one : s.ndigit + 1 ≡ suc s.ndigit = omega arith in ground (arith, more, one, ap bound one)

counted-le : (s : Scan) (d : ℕ) → counted s d ≤ s.ndigit + 1
unfolding counted
counted-le s d = ground arith

digit_ScanIs :
    (s : Scan) (d : ℕ) {ok is_decimal : Bool} {v down k : ℕ}
    → d ≤ 9
    → k < 9
    → ScanIs s ok is_decimal v down k
    → ScanIs
        (float_digit s d)
        true
        is_decimal
        (v * 10 + d)
        (if is_decimal then down + 1 else down)
        (k + 1)
unfolding float_digit
digit_ScanIs s d {v = v} h r i =
    let (fits, below) =
      counted_fits s d h (omega (arith, i.room))
        (omega (arith, i.small, ap bound i.value_is, i.value_is)) in
    ground (arith, i, fits, below, counted-le s d, bound_nine (counted s d) fits)

pub length-digits : (ds : List ℕ) → length (digits ds) ≡ length ds
unfolding digits
length-digits [] = refl
length-digits (d ∷ ds) = ap suc (length-digits ds)

-- The scan after some digits.
unfoldable pub scanned : Scan → List ℕ → Scan
scanned s [] = s
scanned s (d ∷ ds) = scanned (float_digit s d) ds

float_char-digit : (s : Scan) (d : ℕ) → d ≤ 9 → float_char s (d + 48) ≡ some (float_digit s d)
unfolding float_char
float_char-digit s d h =
    let e : d + 48 - 48 ≡ d = omega arith in ground (arith, ap (float_digit s) e)

pub float_loop-digits :
    (s : Scan) (p : ℕ) (ds : List ℕ) (rest : Text)
    → AllDigits ds
    → float_loop s p (digits ds ++ rest) ≡ float_loop (scanned s ds) (p + length ds) rest
unfolding float_loop digits scanned
float_loop-digits s p [] rest h =
    let e : p + 0 ≡ p = omega arith in ap (λ q. float_loop s q rest) (sym e)
float_loop-digits s p (d ∷ ds) rest (h, hs) =
    let e : p + 1 + length ds ≡ p + suc (length ds) = omega arith in
    rw (float_char-digit s d h, float_loop)
      (float_loop-digits (float_digit s d) (p + 1) ds rest hs
        ∙ ap (λ q. float_loop (scanned (float_digit s d) ds) q rest) e)

unfoldable pub ok_after : Bool → List ℕ → Bool
ok_after ok [] = ok
ok_after ok (d ∷ ds) = true

ok_after-true : (ds : List ℕ) → ok_after true ds ≡ true
unfolding ok_after
ok_after-true [] = refl
ok_after-true (d ∷ ds) = refl

pub scanned-ScanIs :
    (s : Scan) (ds : List ℕ) {ok is_decimal : Bool} {v down k : ℕ}
    → AllDigits ds
    → k + length ds ≤ 9
    → ScanIs s ok is_decimal v down k
    → ScanIs
        (scanned s ds)
        (ok_after ok ds)
        is_decimal
        (number v ds)
        (if is_decimal then down + length ds else down)
        (k + length ds)
unfolding scanned number ok_after
scanned-ScanIs s [] {ok} {is_decimal} {v} {down} {k} h r i = ground (arith, i)
scanned-ScanIs s (d ∷ ds) {is_decimal} {v} {k} (h, hs) r i =
    let ih =
      scanned-ScanIs (float_digit s d) ds hs (omega arith) (digit_ScanIs s d h (omega arith) i) in
    let e : k + 1 + length ds ≡ k + suc (length ds) = omega arith in
    ground (arith, ih, ok_after-true ds, e)
