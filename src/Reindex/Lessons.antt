-- ===== src/Reindex/Lessons.antt =====
-- reindex/parsers.py, `extract_lessons`: the section of a document with lessons.
use fleet_memory.Prelude.{
  ℕ, suc, ◌+◌, Bool, true, false, ◌&&◌, ◌||◌, not, List, [], ◌∷◌, Option, none, some, Text, codes,
  ◌==◌, leb, if◌then◌else◌, is_empty, is_space, lstrip, strip, join,
}
use fleet_memory.Reindex.Classify.{newline}

is_line_break : ℕ → Bool
is_line_break c =
    (leb 0x0a c && leb c 0x0d)
    || (leb 0x1c c && leb c 0x1e)
    || c == 0x85
    || c == 0x2028
    || c == 0x2029

abbrev grow_line : ℕ → List Text → List Text
grow_line c [] = (c ∷ []) ∷ []
grow_line c (line ∷ lines) = (c ∷ line) ∷ lines

-- `text.splitlines()`; a line feed directly after a carriage return ends no further line.
lines_from : Bool → Text → List Text
unfolding is_line_break
lines_from after_return [] = []
lines_from after_return (c ∷ s) =
    let rest = lines_from (c == 0x0d) s in
    if after_return && c == 0x0a
    then rest
    else if is_line_break c
    then [] ∷ rest
    else grow_line c rest

-- The number of `#` at the head, and what is behind them.
hashes : Text → ℕ × Text
hashes [] = (0, [])
hashes (c ∷ s) = let rest = hashes s in if c == b'#' then (suc rest.0, rest.1) else (0, c ∷ s)

-- Whether a character is this small letter, with `re.IGNORECASE`: the dotted and the dotless
-- `i` are an `i`, `ſ` is an `s`, and the Kelvin sign a `k`.
same_letter : ℕ → ℕ → Bool
same_letter letter c =
    c == letter
    || (leb b'a' letter && c + 32 == letter)
    || (letter == b'i' && (c == 0x130 || c == 0x131))
    || (letter == b's' && c == 0x17f)
    || (letter == b'k' && c == 0x212a)

same_start : Text → Text → Bool
unfolding same_letter
same_start [] s = true
same_start (l ∷ word) [] = false
same_start (l ∷ word) (c ∷ s) = same_letter l c && same_start word s

mentions : Text → Text → Bool
unfolding same_start
mentions word [] = false
mentions word (c ∷ s) = same_start word (c ∷ s) || mentions word s

starts_with_space : Text → Bool
unfolding is_space
starts_with_space [] = false
starts_with_space (c ∷ s) = is_space c

-- `_LESSONS_HEADING`, with the length of its first group.
lessons_level : Text → Option ℕ
unfolding hashes starts_with_space mentions
lessons_level line =
    let (level, rest) = hashes line in
    if leb 2 level
      && leb level 3
      && starts_with_space rest
      && (mentions (codes "lessons") rest || mentions (codes "key learnings") rest)
    then some level
    else none

-- `_HEADING`, with the length of its first group.
heading_level : Text → Option ℕ
unfolding hashes starts_with_space lstrip
heading_level line =
    let (level, rest) = hashes line in
    if leb 1 level && leb level 6 && starts_with_space rest && not (is_empty (lstrip rest))
    then some level
    else none

at_most : ℕ → Option ℕ → Bool
at_most level none = false
at_most level (some n) = leb n level

-- The lines up to the next heading of this level or a higher one.
body_lines : ℕ → List Text → List Text
unfolding heading_level at_most
body_lines level [] = []
body_lines level (line ∷ lines) =
    let rest = body_lines level lines in
    if at_most level (heading_level line) then [] else line ∷ rest

abbrev found_at : Option ℕ → List Text → Option (ℕ × List Text) → Option (ℕ × List Text)
found_at none lines later = later
found_at (some level) lines later = some (level, lines)

-- The lines behind the first lessons heading, and its level.
lessons_start : List Text → Option (ℕ × List Text)
unfolding lessons_level
lessons_start [] = none
lessons_start (line ∷ lines) = found_at (lessons_level line) lines (lessons_start lines)

abbrev text_or_none : Text → Option Text
text_or_none [] = none
text_or_none (c ∷ s) = some (c ∷ s)

abbrev lessons_of : Option (ℕ × List Text) → Option Text
lessons_of none = none
lessons_of (some (level, lines)) = text_or_none (strip (join newline (body_lines level lines)))

unfoldable pub extract_lessons : Text → Option Text
unfolding lessons_start lines_from body_lines
extract_lessons text = lessons_of (lessons_start (lines_from false text))
