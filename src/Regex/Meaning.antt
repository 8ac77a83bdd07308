-- ===== src/Regex/Meaning.antt =====
-- What a pattern means, apart from how it is searched for, and that the matcher agrees.
use cnc_3d.Common.{
  ℕ, ◌≡◌, refl, ap, arith, Bool, true, false, ◌↔◌, inl, inr, List, [], ◌∷◌, ◌++◌, ◌==◌,
  if◌then◌else◌, Bool-cases, ==_iff,
}
use cnc_3d.Regex.{fits, matchstar, match_one, matchhere, match_anywhere, match_text}

-- Every character of a text fits one character of the pattern.
abbrev pub AllFit : ℕ → List ℕ → Type 0
AllFit c [] = Unit
AllFit c (x ∷ t) = (fits c x ≡ true) × AllFit c t

abbrev pub NoStar : List ℕ → Type 0
NoStar [] = Unit
NoStar (d ∷ r) = (d == b'*') ≡ false

-- A dollar that ends the pattern stands for no character.
abbrev pub IsPlain : ℕ → List ℕ → Type 0
IsPlain c [] = (c == b'$') ≡ false
IsPlain c (d ∷ r) = Unit

-- A pattern without `^` matches some beginning of a text.
pub data Matches : List ℕ → List ℕ → Type 0 where
  nothing : {t : List ℕ} → Matches [] t
  at_end : Matches (b'$' ∷ []) []
  one :
      {c x : ℕ} {r t : List ℕ}
      → NoStar r
      → IsPlain c r
      → fits c x ≡ true
      → Matches r t
      → Matches (c ∷ r) (x ∷ t)
  many :
      {c : ℕ} {r t : List ℕ} (pre rest : List ℕ)
      → t ≡ pre ++ rest
      → AllFit c pre
      → Matches r rest
      → Matches (c ∷ (b'*' ∷ r)) t

-- A text that splits into characters that fit `c` and a rest that is accepted.
abbrev Splits : (List ℕ → Bool) → ℕ → List ℕ → Type 0
Splits here c t =
    (pre : List ℕ) × (rest : List ℕ) × (t ≡ pre ++ rest) × AllFit c pre × (here rest ≡ true)

matchstar_sound :
    (here : List ℕ → Bool) (c : ℕ) (t : List ℕ) → matchstar here c t ≡ true → Splits here c t
unfolding matchstar
matchstar_sound here c [] h = ([], [], refl, tt, h)
matchstar_sound here c (x ∷ t) h = elim (Bool-cases (here (x ∷ t))) [
  | inl found ↦ ([], x ∷ t, refl, tt, found)
  | inr failed ↦
      let f : fits c x ≡ true = ground arith in
      let (pre, rest, e, fit, ok) = matchstar_sound here c t (ground arith) in
      (x ∷ pre, rest, ap (λ l. x ∷ l) e, (f, fit), ok)
]

matchstar_complete :
    (here : List ℕ → Bool) (c : ℕ) (pre rest : List ℕ)
    → AllFit c pre
    → here rest ≡ true
    → matchstar here c (pre ++ rest) ≡ true
unfolding matchstar
matchstar_complete here c [] [] f h = h
matchstar_complete here c [] (x ∷ t) f h = ground arith
matchstar_complete here c (x ∷ pre) rest f h =
    ground (arith, matchstar_complete here c pre rest f.1 h)

one_sound :
    (c d : ℕ) (r t : List ℕ)
    → (d == b'*') ≡ false
    → match_one (matchhere (d ∷ r)) c t ≡ true
    → ((t' : List ℕ) → matchhere (d ∷ r) t' ≡ true → Matches (d ∷ r) t')
    → Matches (c ∷ (d ∷ r)) t
one_sound c d r [] plain h more = absurd (ground arith)
one_sound c d r (x ∷ t) plain h more = one plain tt (ground arith) (more t (ground arith))

matchhere_sound : (r t : List ℕ) → matchhere r t ≡ true → Matches r t
unfolding matchhere
matchhere_sound [] t h = nothing
matchhere_sound (c ∷ []) [] h = let e : c ≡ b'$' = ground arith in rw e at_end
matchhere_sound (c ∷ []) (x ∷ t) h = one tt (ground arith) (ground arith) nothing
matchhere_sound (c ∷ (d ∷ r)) t h = elim (Bool-cases (d == b'*')) [
  | inl star ↦
      let e : d ≡ b'*' = omega (arith, (==_iff d b'*').0 star) in
      let (pre, rest, cut, fit, ok) = matchstar_sound (matchhere r) c t (ground arith) in
      rw e (many pre rest cut fit (matchhere_sound r rest ok))
  | inr plain ↦ one_sound c d r t plain (ground arith) (matchhere_sound (d ∷ r))
]

matchhere_complete : (r t : List ℕ) → Matches r t → matchhere r t ≡ true
unfolding matchhere
matchhere_complete [] t nothing = refl
matchhere_complete (c ∷ []) [] at_end = refl
matchhere_complete (c ∷ []) (x ∷ t) (one n p f m) = ground arith
matchhere_complete (c ∷ (d ∷ r)) (x ∷ t) (one n p f m) =
    ground (arith, matchhere_complete (d ∷ r) t m)
matchhere_complete (c ∷ (d ∷ r)) t (many pre rest e f m) =
    rw e (matchstar_complete (matchhere r) c pre rest f (matchhere_complete r rest m))

-- A pattern matches from some place of a text on, its end included.
abbrev pub Somewhere : List ℕ → List ℕ → Type 0
Somewhere r t = (pre : List ℕ) × (rest : List ℕ) × (t ≡ pre ++ rest) × Matches r rest

match_anywhere_sound : (r t : List ℕ) → match_anywhere r t ≡ true → Somewhere r t
unfolding match_anywhere
match_anywhere_sound r [] h = ([], [], refl, matchhere_sound r [] h)
match_anywhere_sound r (x ∷ t) h = elim (Bool-cases (matchhere r (x ∷ t))) [
  | inl found ↦ ([], x ∷ t, refl, matchhere_sound r (x ∷ t) found)
  | inr failed ↦
      let (pre, rest, e, m) = match_anywhere_sound r t (ground arith) in
      (x ∷ pre, rest, ap (λ l. x ∷ l) e, m)
]

match_anywhere_complete :
    (r pre rest : List ℕ) → Matches r rest → match_anywhere r (pre ++ rest) ≡ true
unfolding match_anywhere
match_anywhere_complete r [] [] m = matchhere_complete r [] m
match_anywhere_complete r [] (x ∷ rest) m = ground (arith, matchhere_complete r (x ∷ rest) m)
match_anywhere_complete r (x ∷ pre) rest m = ground (arith, match_anywhere_complete r pre rest m)

-- What `match` promises: a pattern that begins with `^` matches the beginning of the text, any other
-- matches somewhere.
abbrev pub Found : List ℕ → List ℕ → Type 0
Found [] t = Somewhere [] t
Found (c ∷ r) t = elim (c == b'^') [ true ↦ Matches r t | false ↦ Somewhere (c ∷ r) t ]

by_caret :
    (b : Bool) (c : ℕ) (r t : List ℕ)
    → ((if b then matchhere r t else match_anywhere (c ∷ r) t) ≡ true)
      ↔ elim b [ true ↦ Matches r t | false ↦ Somewhere (c ∷ r) t ]
by_caret true c r t = (matchhere_sound r t, matchhere_complete r t)
by_caret false c r t = (
  match_anywhere_sound (c ∷ r) t,
  λ (f : Somewhere (c ∷ r) t).
      let (pre, rest, e, m) = f in rw e (match_anywhere_complete (c ∷ r) pre rest m),
)

-- The matcher terminates on every pattern and text, and returns true just if the pattern, read as
-- its documentation says, matches: `.` any character, `*` any number of the character before it, a
-- last `$` the end of the text, a first `^` its beginning.
pub match_text_lem : (r t : List ℕ) → (match_text r t ≡ true) ↔ Found r t
unfolding match_text
match_text_lem [] t = (
  match_anywhere_sound [] t,
  λ (f : Somewhere [] t). let (pre, rest, e, m) = f in rw e (match_anywhere_complete [] pre rest m),
)
match_text_lem (c ∷ r) t = by_caret (c == b'^') c r t
