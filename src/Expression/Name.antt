-- ===== src/Expression/Name.antt =====
-- Names of parameters: what `ngc_read_name` accepts, and the buffer of `ngc_read_parameter`.
use cnc_3d.Common.{
  ℕ, suc, ◌+◌, ◌≤◌, ◌<◌, ◌≡◌, refl, ap, ap₂, ◌∙◌, true, false, [], ◌∷◌, ◌++◌, ◌==◌, drop, length,
  arith,
}
use cnc_3d.FlowCtrl.Types.{Text, status_ok}
use cnc_3d.Expression.Types.{Cursor, peek, step}
use cnc_3d.Expression.Values.{name_chars, ngc_read_name}
use cnc_3d.Expression.Digits.{at}

-- `char name[NGC_MAX_PARAM_LENGTH + 1]`
abbrev pub name_buffer : ℕ
name_buffer = 31

-- A name without `>`.
abbrev pub Plain : Text → Type 0
Plain [] = Unit {0}
Plain (c ∷ name) = ((c == b'>') ≡ false) × Plain name

name_chars-name :
    (len : ℕ) (name rest : Text)
    → Plain name
    → len + length name ≤ 31
    → name_chars len (name ++ (b'>' ∷ rest)) ≡ name
unfolding name_chars
name_chars-name len [] rest h k = refl
name_chars-name len (c ∷ name) rest (h, hs) k =
    ground (arith, h, name_chars-name (len + 1) name rest hs (omega arith))

pub drop-append : (name rest : Text) → drop (length name) (name ++ rest) ≡ rest
drop-append [] rest = refl
drop-append (c ∷ name) rest = drop-append name rest

read_name-found :
    (c : Cursor) (name : Text)
    → (peek c.rest == b'<') ≡ true
    → name_chars 0 (drop 1 c.rest) ≡ name
    → (peek (drop (length name + 1) c.rest) == b'>') ≡ true
    → ngc_read_name c
      ≡ (let r : ℕ × Text × Cursor = (status_ok, name, step 1 (step (length name + 1) c)) in r)
unfolding ngc_read_name
read_name-found c name h e k = rw (h, ngc_read_name) (rw e (rw k refl))

-- A name of at most 31 characters in angle brackets is read whole, with the position behind it.
pub ngc_read_name-name :
    (p : ℕ) (name rest : Text)
    → Plain name
    → length name ≤ 31
    → ngc_read_name (at p (b'<' ∷ (name ++ (b'>' ∷ rest))))
      ≡ (let r : ℕ × Text × Cursor = (status_ok, name, at (p + length name + 2) rest) in r)
ngc_read_name-name p name rest h k =
    let c = at p (b'<' ∷ (name ++ (b'>' ∷ rest))) in
    let one : length name + 1 ≡ suc (length name) = omega arith in
    let behind = ap (λ i. drop i c.rest) one ∙ drop-append name (b'>' ∷ rest) in
    let z : p + (length name + 1) + 1 ≡ p + length name + 2 = omega arith in
    read_name-found c name refl (name_chars-name 0 name rest h (omega arith))
      (ap (λ t. peek t == b'>') behind)
    ∙ ap₂ (λ i t. let r : ℕ × Text × Cursor = (status_ok, name, at i (drop 1 t)) in r) z behind

-- The buffer of `ngc_read_parameter` has room for 30 characters and the terminator; a name of 31
-- is accepted as well, and with its terminator is longer than the buffer.
pub ngc_read_name_overflows :
    (p : ℕ) (name rest : Text)
    → Plain name
    → length name ≡ 31
    → (ngc_read_name (at p (b'<' ∷ (name ++ (b'>' ∷ rest))))
        ≡ (let r : ℕ × Text × Cursor = (status_ok, name, at (p + length name + 2) rest) in r))
      × (name_buffer < length name + 1)
ngc_read_name_overflows p name rest h k =
    (ngc_read_name-name p name rest h (omega arith), omega arith)
