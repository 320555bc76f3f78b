-- ===== src/Payloads/Base.antt =====
-- payloads/base.py: `BasePayload.__init__` and the natural key. pydantic's own part is what the
-- class bodies declare: required and defaulted fields, and the validators.
pub mod Collapse
pub mod WellFormed
pub mod NaturalKey
use fleet_memory.Prelude.{
  ℕ, Bool, not, List, [], ◌∷◌, ◌++◌, Option, none, some, Text, text_mem, codes, ◌==◌, if◌then◌else◌,
  length, split, ℤ, pos,
}
use fleet_memory.Errors.{
  Result, ok, err, ◌>>=◌, ◌>>◌, check, identifier_validation, supersession_validation, validation,
}
use fleet_memory.Payloads.Norm.{is_identifier}
use fleet_memory.Payloads.Models.{Kind, payload_type, Body, kind_of, kind_eq}
use fleet_memory.Payloads.BackwardEdge.{run_validators}

-- The keyword arguments of a payload; `none` is an absent one. The fields of the class are one
-- argument: `none` where a required one is absent or no field of that type.
pub record PayloadData : Type 0 where
  pub project : Option Text
  pub identifier : Option Text
  pub domain_tags : Option (List Text)
  pub source_ref : Option Text
  pub version : Option ℤ
  pub supersedes : Option (List Text)
  pub body : Option Body

-- A payload object.
pub record Payload : Type 0 where
  pub project : Text
  pub identifier : Text
  pub domain_tags : List Text
  pub source_ref : Text
  pub version : ℤ
  pub supersedes : List Text
  pub body : Body

abbrev pub colon : ℕ
colon = b':'

unfoldable pub natural_key : Payload → Text
unfolding payload_type kind_of
natural_key p = payload_type (kind_of p.body) ++ (colon ∷ (p.project ++ (colon ∷ p.identifier)))

unfoldable pub validate_identifier : Text → Text → Result (Unit {0})
validate_identifier field_name value =
    check (is_identifier value) (identifier_validation field_name value)

-- `if field in data: _validate_identifier(field, data[field])`
unfoldable pub validate_present : Text → Option Text → Result (Unit {0})
unfolding validate_identifier
validate_present field_name none = ok tt
validate_present field_name (some value) = validate_identifier field_name value

-- The loop over `seen` and `unique`, which hold the same references.
unfoldable pub collapse : List Text → List Text → List Text
collapse unique [] = unique
collapse unique (ref ∷ rest) =
    collapse (if text_mem ref unique then unique else unique ++ (ref ∷ [])) rest

-- `len(ref.split(":")) == 3`
unfoldable pub is_key_shaped : Text → Bool
is_key_shaped ref = length (split colon ref) == 3

unfoldable pub check_shapes : List Text → Result (Unit {0})
unfolding is_key_shaped
check_shapes [] = ok tt
check_shapes (ref ∷ rest) = do
  check (is_key_shaped ref) (supersession_validation ref)
  check_shapes rest

unfoldable pub normalize_supersedes : Option (List Text) → Result (List Text)
unfolding collapse check_shapes
normalize_supersedes none = ok []
normalize_supersedes (some supersedes) = do
  let unique = collapse [] supersedes
  check_shapes unique
  ok unique

-- A required field of the class.
abbrev pub required {ℓ} : {A : Type ℓ} → Option A → Result A
required none = err validation
required (some a) = ok a

abbrev pub default_to {ℓ} : {A : Type ℓ} → A → Option A → A
default_to d none = d
default_to d (some a) = a

-- `super().__init__(**data)`: required fields, defaults and validators.
unfoldable pub build : Kind → PayloadData → List Text → Result Payload
build kind data_in supersedes = do
  project ← required data_in.project
  identifier ← required data_in.identifier
  source_ref ← required data_in.source_ref
  body ← required data_in.body
  check (kind_eq (kind_of body) kind) validation
  let domain_tags = default_to [] data_in.domain_tags
  check (run_validators domain_tags body) validation
  ok (record {
    project = project;
    identifier = identifier;
    domain_tags = domain_tags;
    source_ref = source_ref;
    version = default_to (pos 1) data_in.version;
    supersedes = supersedes;
    body = body;
  })

unfoldable pub construct : Kind → PayloadData → Result Payload
construct kind data_in = do
  validate_present (codes "project") data_in.project
  validate_present (codes "identifier") data_in.identifier
  supersedes ← normalize_supersedes data_in.supersedes
  payload ← build kind data_in supersedes
  check (not (text_mem (natural_key payload) payload.supersedes))
      (supersession_validation (natural_key payload))
  ok payload
