-- ===== src/StreamFile/Reader.antt =====
-- What a file read through `stream_read_file` looks like to the protocol.
use cnc_3d.Common.{
  ℕ, zero, suc, Bool, true, false, List, [], ◌∷◌, ◌++◌, ◌≡◌, refl, arith, if◌then◌else◌,
}
use cnc_3d.StreamFile.{no_data, char, is_eol, ascii_lf, ascii_eof, FileReader, read_open}

-- The characters that `n` calls deliver, the empty answers left out.
unfoldable pub delivered : ℕ → FileReader → List ℕ
delivered zero r = []
delivered (suc n) r =
    let (i, r') = read_open r in elim i [ no_data ↦ delivered n r' | char c ↦ c ∷ delivered n r' ]

-- The text with every run of line ends cut to its first one, and a line feed at the end of a last
-- line that has none; `after_eol` says that a line end stands before the text.
unfoldable pub lines : Bool → List ℕ → List ℕ
lines true [] = []
lines false [] = ascii_lf ∷ []
lines after_eol (c ∷ rest) =
    if is_eol c
    then (if after_eol then lines true rest else c ∷ lines true rest)
    else c ∷ lines false rest

-- How many calls it takes to reach the EOF mark.
abbrev pub calls : Bool → List ℕ → ℕ
calls true [] = 1
calls false [] = 2
calls after_eol (c ∷ rest) = suc (calls (is_eol c) rest)

-- From any state of the reader, `calls` reads of a file deliver its text with every run of line ends
-- cut to its first character, a line feed added to a last line that has none, and then the end of
-- file mark. After a line end the run goes on at the start of the text.
pub delivered-lines :
    (e : Bool) (text : List ℕ)
    → delivered (calls e text) (record { eol_ok = e; rest = text })
      ≡ lines e text ++ (ascii_eof ∷ [])
unfolding delivered read_open lines
delivered-lines true [] = refl
delivered-lines false [] = refl
delivered-lines true (c ∷ rest) =
    ground (arith, delivered-lines true rest, delivered-lines false rest)
delivered-lines false (c ∷ rest) =
    ground (arith, delivered-lines true rest, delivered-lines false rest)
