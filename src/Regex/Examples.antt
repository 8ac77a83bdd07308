-- ===== src/Regex/Examples.antt =====
-- A concrete pattern and text: `ab*$` in `xabb`.
use cnc_3d.Common.{ℕ, ◌≡◌, true, ◌↔◌, List, [], ◌∷◌}
use cnc_3d.Regex.{match_text}
use cnc_3d.Regex.Meaning.{Found, match_text_lem}

abbrev pattern_ab : List ℕ
pattern_ab = b'a' ∷ (b'b' ∷ (b'*' ∷ (b'$' ∷ [])))

abbrev text_xabb : List ℕ
text_xabb = b'x' ∷ (b'a' ∷ (b'b' ∷ (b'b' ∷ [])))

match_text_lem_example : (match_text pattern_ab text_xabb ≡ true) ↔ Found pattern_ab text_xabb
match_text_lem_example = match_text_lem pattern_ab text_xabb
