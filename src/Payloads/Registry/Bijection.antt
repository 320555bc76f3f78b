-- ===== src/Payloads/Registry/Bijection.antt =====
-- The two lookups of the registry are inverse to each other.
use fleet_memory.Prelude.{
  ◌≡◌, refl, ◌↔◌, List, [], ◌∷◌, Option, none, some, Text, text_eq, text_eq→eq, Bool-cases, All,
  arith,
}
use mathlib.Core.Path.{subst₂}
use mathlib.Core.Logic.{inl, inr}
use fleet_memory.Errors.{ok}
use fleet_memory.Payloads.Models.{Kind, kind_eq, kind_eq→eq}
use fleet_memory.Payloads.Registry.{
  payload_registry, model_to_type, find_model, find_type, or_raise_unknown, or_raise_value_error,
  get_model_for_type, get_type_for_model,
}

find_model_sound :
    (P : Text → Kind → Type 0) (name : Text) (entries : List (Text × Kind)) (model : Kind)
    → All (λ e. P e.0 e.1) entries
    → find_model name entries ≡ some model
    → P name model
unfolding find_model
find_model_sound P name [] model h e = cc
find_model_sound P name ((n, m) ∷ rest) model (p, h) e = elim (Bool-cases (text_eq n name)) [
  | inl same ↦ subst₂ P (text_eq→eq n name same) (ground arith) p
  | inr other ↦ find_model_sound P name rest model h (ground arith)
]

find_type_sound :
    (P : Kind → Text → Type 0) (model : Kind) (entries : List (Kind × Text)) (name : Text)
    → All (λ e. P e.0 e.1) entries
    → find_type model entries ≡ some name
    → P model name
unfolding find_type
find_type_sound P model [] name h e = cc
find_type_sound P model ((m, n) ∷ rest) name (p, h) e = elim (Bool-cases (kind_eq m model)) [
  | inl same ↦ subst₂ P (kind_eq→eq m model same) (ground arith) p
  | inr other ↦ find_type_sound P model rest name h (ground arith)
]

entries_agree : All (λ e. get_type_for_model e.1 ≡ ok e.0) payload_registry
unfolding get_type_for_model
entries_agree = (refl, (refl, (refl, (refl, (refl, (refl, (refl, tt)))))))

reverse_entries_agree : All (λ e. get_model_for_type e.1 ≡ ok e.0) model_to_type
unfolding get_model_for_type
reverse_entries_agree = (refl, (refl, (refl, (refl, (refl, (refl, (refl, tt)))))))

or_raise_unknown-eq-ok :
    (name : Text) (o : Option Kind) (model : Kind)
    → or_raise_unknown name o ≡ ok model
    → o ≡ some model
unfolding or_raise_unknown
or_raise_unknown-eq-ok name none model h = cc
or_raise_unknown-eq-ok name (some m) model h = cc

or_raise_value_error-eq-ok :
    (o : Option Text) (name : Text) → or_raise_value_error o ≡ ok name → o ≡ some name
unfolding or_raise_value_error
or_raise_value_error-eq-ok none name h = cc
or_raise_value_error-eq-ok (some n) name h = cc

-- A name resolves to a class exactly when the class resolves to that name.
pub get_model_for_type_iff :
    (name : Text) (model : Kind)
    → (get_model_for_type name ≡ ok model) ↔ (get_type_for_model model ≡ ok name)
unfolding get_model_for_type get_type_for_model
get_model_for_type_iff name model = (
  λ h.
      find_model_sound (λ n m. get_type_for_model m ≡ ok n) name payload_registry model
        entries_agree (or_raise_unknown-eq-ok name _ model h),
  λ h.
      find_type_sound (λ m n. get_model_for_type n ≡ ok m) model model_to_type name
        reverse_entries_agree (or_raise_value_error-eq-ok _ name h),
)
