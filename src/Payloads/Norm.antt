-- ===== src/Payloads/Norm.antt =====
-- payloads/norm.py: normalisation of raw source ids, and the identifier rule of payloads/base.py
-- and store.py that its results meet. SHA-256 is a parameter.
pub mod Charset
pub mod Composite
use fleet_memory.Prelude.{
  ℕ, ◌+◌, Bool, ◌&&◌, ◌||◌, not, List, ◌∷◌, ◌++◌, map, leb, ◌==◌, if◌then◌else◌, all, is_empty,
  take, join, Text,
}

abbrev underscore : ℕ
underscore = b'_'

is_lower_char : ℕ → Bool
is_lower_char c = leb b'a' c && leb c b'z'

is_upper_char : ℕ → Bool
is_upper_char c = leb b'A' c && leb c b'Z'

is_digit_char : ℕ → Bool
is_digit_char c = leb b'0' c && leb c b'9'

-- `[a-zA-Z0-9_]`
unfoldable pub is_identifier_char : ℕ → Bool
unfolding is_lower_char is_upper_char is_digit_char
is_identifier_char c = is_lower_char c || is_upper_char c || is_digit_char c || c == underscore

-- `[a-z0-9_]`
pub is_namespace_char : ℕ → Bool
unfolding is_lower_char is_digit_char
is_namespace_char c = is_lower_char c || is_digit_char c || c == underscore

-- `IDENTIFIER_PATTERN.fullmatch(value)`
unfoldable pub is_identifier : Text → Bool
unfolding is_identifier_char
is_identifier value = not (is_empty value) && all is_identifier_char value

-- `_NAMESPACE_PATTERN.fullmatch(part)`
unfoldable pub is_namespace_part : Text → Bool
unfolding is_namespace_char
is_namespace_part part = not (is_empty part) && all is_namespace_char part

norm_char : ℕ → ℕ
unfolding is_identifier_char
norm_char c = if is_identifier_char c then c else underscore

unfoldable pub norm : Text → Text
unfolding norm_char
norm source_id = map norm_char source_id

-- `str.lower` on the ASCII letters; `norm` leaves no other letters
unfoldable lower_char : ℕ → ℕ
unfolding is_upper_char
lower_char c = if is_upper_char c then c + 32 else c

unfoldable pub lower : Text → Text
unfolding lower_char
lower s = map lower_char s

pub norm_project : Text → Text
unfolding norm lower
norm_project project_id = lower (norm project_id)

abbrev pub unit_separator : ℕ
unit_separator = 0x1f

module _ (sha256_hex : Text → Text) where
  pub composite_hash : List Text → Text
  composite_hash raw_parts = take 12 (sha256_hex (join unit_separator raw_parts))

  unfoldable composite_identifier : Text → List Text → Text
  unfolding norm composite_hash
  composite_identifier primary_id raw_parts =
      norm primary_id ++ (underscore ∷ composite_hash (primary_id ∷ raw_parts))
