-- ===== src/Payloads/Registry.antt =====
-- payloads/registry.py: the payload classes that may be written, by name and by class.
pub mod Bijection
use fleet_memory.Prelude.{
  Bool, List, [], ◌∷◌, Option, none, some, Text, text_eq, codes, if◌then◌else◌, map, any,
}
use fleet_memory.Errors.{Result, ok, err, unknown_payload_type, value_error}
use fleet_memory.Payloads.Models.{
  Kind, adr_payload, review_report_payload, build_outcome_payload, pattern_payload, warning_payload,
  seed_module_payload, document_payload, kind_eq,
}

abbrev pub payload_registry : List (Text × Kind)
payload_registry =
    (codes "adr", adr_payload)
    ∷ (codes "review_report", review_report_payload)
    ∷ (codes "build_outcome", build_outcome_payload)
    ∷ (codes "pattern", pattern_payload)
    ∷ (codes "warning", warning_payload)
    ∷ (codes "seed_module", seed_module_payload)
    ∷ (codes "document", document_payload)
    ∷ []

abbrev swap_entry : Text × Kind → Kind × Text
swap_entry (name, model) = (model, name)

abbrev pub model_to_type : List (Kind × Text)
model_to_type = map swap_entry payload_registry

unfoldable pub find_model : Text → List (Text × Kind) → Option Kind
unfolding text_eq
find_model name [] = none
find_model name ((n, model) ∷ rest) = if text_eq n name then some model else find_model name rest

pub find_type : Kind → List (Kind × Text) → Option Text
find_type model [] = none
find_type model ((m, name) ∷ rest) = if kind_eq m model then some name else find_type model rest

unfoldable pub or_raise_unknown : Text → Option Kind → Result Kind
or_raise_unknown payload_type none = err (unknown_payload_type payload_type)
or_raise_unknown payload_type (some model) = ok model

unfoldable pub get_model_for_type : Text → Result Kind
unfolding find_model or_raise_unknown
get_model_for_type payload_type =
    or_raise_unknown payload_type (find_model payload_type payload_registry)

or_raise_value_error : Option Text → Result Text
or_raise_value_error none = err value_error
or_raise_value_error (some name) = ok name

pub get_type_for_model : Kind → Result Text
unfolding find_type or_raise_value_error kind_eq
get_type_for_model model = or_raise_value_error (find_type model model_to_type)

-- `payload_type in PAYLOAD_REGISTRY`
unfoldable pub is_registered : Text → Bool
unfolding text_eq
is_registered payload_type = any (λ e. text_eq e.0 payload_type) payload_registry
