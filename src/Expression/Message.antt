-- ===== src/Expression/Message.antt =====
-- Whether a message with its parameters fits the memory that was allocated for it.
use cnc_3d.Common.{
  ℕ, zero, suc, ◌+◌, ◌≤◌, ◌<◌, ◌≡◌, refl, ap, sym, ◌∙◌, Bool, true, false, Option, none, some, [],
  ◌∷◌, ◌++◌, ◌==◌, append_assoc, append-nil, length, length-append, arith, Bool-cases, inl, inr,
  if◌then◌else◌,
}
use cnc_3d.FlowCtrl.Types.{Text}
use cnc_3d.Expression.Types.{Cursor, peek, step, FloatMath, World}
use cnc_3d.Expression.Digits.{at}
use cnc_3d.Expression.Progress.{left, left-step_one}
use cnc_3d.Expression.Total.{ngc_read_parameter_ends}
use cnc_3d.Expression.Format.{
  Format, no_text, get_format, reference, read_reference, measure, write, trim_spaces,
  ngc_substitute_parameters,
}

module _ {F : Type 0} (m : FloatMath F) (w : World F) (show : F → ℕ → Text)
    (default_decimals : ℕ) where
  -- Whether no `%` is met outside a reference.
  abbrev pub no_format : ℕ → ℕ → Cursor → Bool
  no_format zero decimals c = true
  no_format (suc fuel) decimals c =
      let further = no_format fuel decimals (step 1 c) in
      let behind : Bool = elim (read_reference m w show default_decimals fuel c decimals) [
        | none ↦ true
        | some (text, end) ↦ no_format fuel decimals end
      ] in
      if peek c.rest == 0
      then true
      else if peek c.rest == b'%'
      then false
      else if peek c.rest == b'#'
      then behind
      else further

  abbrev first : ℕ → Format → ℕ → Cursor → Option (ℕ × Format)
  first = measure m w show default_decimals

  abbrev second : ℕ → Format → Text → Text → Cursor → Option Text
  second = write m w show default_decimals

  -- One round of each pass outside a format.
  module _ (fuel : ℕ) (f : Format) (c : Cursor) (e : (f.stage == 0) ≡ true) where
    first-end : (len : ℕ) → (peek c.rest == 0) ≡ true → first (suc fuel) f len c ≡ some (len, f)
    unfolding measure
    first-end len h = rw (h, measure) refl

    second-end :
        (fmt out : Text) → (peek c.rest == 0) ≡ true → second (suc fuel) f fmt out c ≡ some out
    unfolding write
    second-end fmt out h = rw (h, write) refl

    module _ (h : (peek c.rest == 0) ≡ false) (p : (peek c.rest == b'%') ≡ false) where
      first-plain :
          (len : ℕ)
          → (peek c.rest == b'#') ≡ false
          → first (suc fuel) f len c ≡ first fuel f (len + 1) (step 1 c)
      unfolding measure
      first-plain len r = rw (h, measure) (rw e (rw p (rw r refl)))

      second-plain :
          (fmt out : Text)
          → (peek c.rest == b'#') ≡ false
          → second (suc fuel) f fmt out c ≡ second fuel f fmt (out ++ (peek c.rest ∷ [])) (step 1 c)
      unfolding write
      second-plain fmt out r = rw (h, write) (rw e (rw p (rw r refl)))

      first-reference :
          (len : ℕ) {text : Text} {end : Cursor}
          → (peek c.rest == b'#') ≡ true
          → read_reference m w show default_decimals fuel c f.decimals ≡ some (text, end)
          → first (suc fuel) f len c ≡ first fuel f (len + length text) end
      unfolding measure
      first-reference len r k = rw (h, measure) (rw e (rw p (rw r (rw k refl))))

      second-reference :
          (fmt out : Text) {text : Text} {end : Cursor}
          → (peek c.rest == b'#') ≡ true
          → read_reference m w show default_decimals fuel c f.decimals ≡ some (text, end)
          → second (suc fuel) f fmt out c ≡ second fuel f fmt (out ++ text) end
      unfolding write
      second-reference fmt out r k = rw (h, write) (rw e (rw p (rw r (rw k refl))))

      no_format-plain :
          (peek c.rest == b'#') ≡ false
          → no_format (suc fuel) f.decimals c ≡ no_format fuel f.decimals (step 1 c)
      no_format-plain r = rw h (rw p (rw r refl))

      no_format-reference :
          {text : Text} {end : Cursor}
          → (peek c.rest == b'#') ≡ true
          → read_reference m w show default_decimals fuel c f.decimals ≡ some (text, end)
          → no_format (suc fuel) f.decimals c ≡ no_format fuel f.decimals end
      no_format-reference r k = rw h (rw p (rw r (rw k refl)))

    no_format-percent :
        (peek c.rest == 0) ≡ false
        → (peek c.rest == b'%') ≡ true
        → no_format (suc fuel) f.decimals c ≡ false
    no_format-percent h p = rw h (rw p refl)

  -- Both passes, where no format is met: what is counted is what is written.
  abbrev Agree : ℕ → Format → ℕ → Text → Text → Cursor → Type 0
  Agree fuel f len fmt out c =
      (text : Text) × (first fuel f len c
        ≡ (let r : Option (ℕ × Format) = some (len + length text, f) in r))
      × (second fuel f fmt out c ≡ some (out ++ text))

  Agree-end :
      (fuel : ℕ) (f : Format) (len : ℕ) (fmt out : Text) (c : Cursor)
      → (f.stage == 0) ≡ true
      → (peek c.rest == 0) ≡ true
      → Agree (suc fuel) f len fmt out c
  Agree-end fuel f len fmt out c s h =
      let z : len ≡ len + 0 = omega arith in
      (
        [],
        first-end fuel f c s len h ∙ ap (λ k. let r : Option (ℕ × Format) = some (k, f) in r) z,
        second-end fuel f c s fmt out h ∙ ap some (sym (append-nil out)),
      )

  Agree-further :
      (fuel : ℕ) (f : Format) (len : ℕ) (fmt out : Text) (c end : Cursor) (text : Text)
      → first (suc fuel) f len c ≡ first fuel f (len + length text) end
      → second (suc fuel) f fmt out c ≡ second fuel f fmt (out ++ text) end
      → Agree fuel f (len + length text) fmt (out ++ text) end
      → Agree (suc fuel) f len fmt out c
  Agree-further fuel f len fmt out c end text d e (more, k, l) =
      let z : len + length text + length more ≡ len + length (text ++ more) =
        omega (arith, length-append text more) in
      (
        text ++ more,
        d ∙ k ∙ ap (λ i. let r : Option (ℕ × Format) = some (i, f) in r) z,
        e ∙ l ∙ ap some (append_assoc out text more),
      )

  reference_ends :
      (fuel decimals : ℕ) (c : Cursor)
      → (peek c.rest == b'#') ≡ true
      → left c ≤ fuel
      → (text : Text) × (end : Cursor) × (read_reference m w show default_decimals fuel c decimals
          ≡ (let r : Option (Text × Cursor) = some (text, end) in r))
        × (left end < left c)
  unfolding read_reference reference
  reference_ends zero decimals c b h = absurd (omega (arith, left-step_one c (ground (arith, b))))
  reference_ends (suc n) decimals c b h =
      let (g, e, k) = ngc_read_parameter_ends m w n c (w.stale c.pos) true b h in
      let (text, end) = reference m w show default_decimals g decimals in
      (text, end, rw (e, read_reference) refl, k)

  passes-Agree :
      (fuel : ℕ) (f : Format) (len : ℕ) (fmt out : Text) (c : Cursor)
      → left c < fuel
      → (f.stage == 0) ≡ true
      → no_format fuel f.decimals c ≡ true
      → Agree fuel f len fmt out c
  passes-Agree zero f len fmt out c q s b = absurd (omega arith)
  passes-Agree (suc fuel) f len fmt out c q s b = elim (Bool-cases (peek c.rest == 0)) [
    | inl h ↦ Agree-end fuel f len fmt out c s h
    | inr h ↦
        let shorter = left-step_one c h in
        elim (Bool-cases (peek c.rest == b'%')) [
          | inl p ↦ cc (b, no_format-percent fuel f c s h p)
          | inr p ↦ elim (Bool-cases (peek c.rest == b'#')) [
            | inr r ↦
                Agree-further fuel f len fmt out c (step 1 c) (peek c.rest ∷ [])
                  (first-plain fuel f c s h p len r) (second-plain fuel f c s h p fmt out r)
                  (passes-Agree fuel f (len + 1) fmt (out ++ (peek c.rest ∷ [])) (step 1 c)
                    (omega arith) s (sym (no_format-plain fuel f c s h p r) ∙ b))
            | inl r ↦
                let (text, end, g, k) = reference_ends fuel f.decimals c r (omega arith) in
                Agree-further fuel f len fmt out c end text (first-reference fuel f c s h p len r g)
                  (second-reference fuel f c s h p fmt out r g)
                  (passes-Agree fuel f (len + length text) fmt (out ++ text) end (omega arith) s
                    (sym (no_format-reference fuel f c s h p r g) ∙ b))
          ]
        ]
  ]

  abbrev start : Text → Cursor
  start line = at 0 (trim_spaces line)

  -- A message in which no `%` is met fits its memory exactly: with fuel above the length of the line,
  -- `ngc_substitute_parameters` returns, and what it allocates is the length of the text that it
  -- writes and one for the terminator.
  pub substitute_fits :
      (fuel d : ℕ) (line : Text)
      → left (start line) < fuel
      → no_format fuel default_decimals (start line) ≡ true
      → (text : Text) × (ngc_substitute_parameters m w show default_decimals fuel d line
          ≡ (let r : Option (ℕ × Text) = some (length text + 1, text) in r))
  unfolding ngc_substitute_parameters
  substitute_fits fuel d line h b =
      let f : Format = record { stage = 0; decimals = default_decimals; d = d } in
      let (text, k, l) = passes-Agree fuel f 0 no_text [] (start line) h refl b in
      let z : 0 + length text + 1 ≡ length text + 1 = omega arith in
      (
        text,
        rw (k, ngc_substitute_parameters)
            (rw l (ap (λ i. let r : Option (ℕ × Text) = some (i, text) in r) z)),
      )

  -- A `%` behind which no format follows is not counted, and is written: for a line of `%` and any
  -- other character than `d`, `f` and `.`, one byte is allocated and two characters are written, and
  -- the terminator behind them.
  pub substitute_overflows :
      (fuel d c : ℕ)
      → (c == 0) ≡ false
      → (c == b'd') ≡ false
      → (c == b'f') ≡ false
      → (c == b'.') ≡ false
      → ngc_substitute_parameters m w show default_decimals (suc (suc (suc fuel))) d (b'%' ∷ c ∷ [])
        ≡ (let r : Option (ℕ × Text) = some (1, b'%' ∷ c ∷ []) in r)
  unfolding ngc_substitute_parameters measure write get_format
  substitute_overflows fuel d c z a b e = ground arith
