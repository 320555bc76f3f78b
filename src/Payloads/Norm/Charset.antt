-- ===== src/Payloads/Norm/Charset.antt =====
-- What `norm` and `norm_project` return: identifiers and namespace parts, and fixed points.
use fleet_memory.Prelude.{ℕ, ◌≡◌, refl, true, ◌≢◌, [], ◌∷◌, map, arith, all, Text}
use fleet_memory.Payloads.Norm.{
  is_identifier_char, is_namespace_char, is_identifier, is_namespace_part, norm_char, norm,
  lower_char, lower, norm_project,
}

is_identifier_char-norm_char : (c : ℕ) → is_identifier_char (norm_char c) ≡ true
unfolding norm_char
is_identifier_char-norm_char c = ground arith

is_namespace_char-lower_char :
    (c : ℕ) → is_identifier_char c ≡ true → is_namespace_char (lower_char c) ≡ true
unfolding is_identifier_char is_namespace_char lower_char
is_namespace_char-lower_char c h = ground arith

all-norm : (s : Text) → all is_identifier_char (map norm_char s) ≡ true
all-norm [] = refl
all-norm (c ∷ s) = rw is_identifier_char-norm_char (all-norm s)

all-lower :
    (s : Text) → all is_identifier_char s ≡ true → all is_namespace_char (map lower_char s) ≡ true
all-lower [] h = refl
all-lower (c ∷ s) h = ground (arith, is_namespace_char-lower_char c, all-lower s)

norm_char_fixed : (c : ℕ) → is_identifier_char c ≡ true → norm_char c ≡ c
unfolding norm_char
norm_char_fixed c h = ground arith

map-norm_char_fixed : (s : Text) → all is_identifier_char s ≡ true → map norm_char s ≡ s
map-norm_char_fixed [] h = refl
map-norm_char_fixed (c ∷ s) h = ground (arith, norm_char_fixed c, map-norm_char_fixed s)

-- The normal form of a raw id that is not empty passes the identifier check, and an id that
-- passes it already is left as it is.
pub norm-is_identifier :
    (s : Text) → s ≢ [] → (is_identifier (norm s) ≡ true) × (is_identifier s ≡ true → norm s ≡ s)
unfolding is_identifier norm
norm-is_identifier [] ne = absurd (ne refl)
norm-is_identifier (c ∷ s) ne = (all-norm (c ∷ s), map-norm_char_fixed (c ∷ s))

-- The normal form of a project id that is not empty passes the stricter check that namespaces
-- and search requests make.
pub norm_project-is_namespace_part : (s : Text) → s ≢ [] → is_namespace_part (norm_project s) ≡ true
unfolding is_namespace_part norm_project norm lower
norm_project-is_namespace_part [] ne = absurd (ne refl)
norm_project-is_namespace_part (c ∷ s) ne = all-lower (map norm_char (c ∷ s)) (all-norm (c ∷ s))
