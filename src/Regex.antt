-- ===== src/Regex.antt =====
-- stm32_firmware/core-master/regex.c: a matcher for patterns of literal characters, `.`, `*`, `^`
-- and `$`. A string is the list of its characters before the terminator.
pub mod Meaning
mod Examples
use cnc_3d.Common.{ℕ, Bool, true, false, ◌&&◌, ◌||◌, List, [], ◌∷◌, ◌==◌, if◌then◌else◌}

-- Whether a character of the pattern, which may be a dot, stands for a character of the text.
abbrev pub fits : ℕ → ℕ → Bool
fits c x = c == b'.' || c == x

abbrev pub is_end : List ℕ → Bool
is_end [] = true
is_end (x ∷ t) = false

-- `matchstar`, whose call of `matchhere` with the rest of the pattern is `here`.
unfoldable pub matchstar : (List ℕ → Bool) → ℕ → List ℕ → Bool
matchstar here c [] = here []
matchstar here c (x ∷ t) = here (x ∷ t) || (fits c x && matchstar here c t)

-- One character, and then the rest of the pattern.
abbrev pub match_one : (List ℕ → Bool) → ℕ → List ℕ → Bool
match_one here c [] = false
match_one here c (x ∷ t) = fits c x && here t

unfoldable pub matchhere : List ℕ → List ℕ → Bool
matchhere [] t = true
matchhere (c ∷ []) t = if c == b'$' then is_end t else match_one (λ rest. true) c t
matchhere (c ∷ (d ∷ r)) t =
    if d == b'*' then matchstar (matchhere r) c t else match_one (matchhere (d ∷ r)) c t

-- The loop of `match`, which also looks at the empty end.
unfoldable pub match_anywhere : List ℕ → List ℕ → Bool
match_anywhere r [] = matchhere r []
match_anywhere r (x ∷ t) = matchhere r (x ∷ t) || match_anywhere r t

unfoldable pub match_text : List ℕ → List ℕ → Bool
match_text [] t = match_anywhere [] t
match_text (c ∷ r) t = if c == b'^' then matchhere r t else match_anywhere (c ∷ r) t
