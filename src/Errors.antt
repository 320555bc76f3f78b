-- ===== src/Errors.antt =====
-- The exceptions of src/fleet_memory/errors.py and payloads/base.py, with the built-in ones that
-- the handlers name, and the results of code that may raise them. An f-string message is the
-- constructor with the values that the f-string shows.
use fleet_memory.Prelude.{ℕ, Text, Option, ◌≡◌, refl, List, Bool, true, false, ◌⊎◌, inl, inr}

-- The `reason` of a `PoisonEpisodeError`.
pub data Reason : Type 0 where
  unrecognized_format : Text → Reason
  missing_payload_type : Reason
  unparseable_body : Reason
  unknown_type : Text → Reason
  invalid_namespace : List Text → Reason
  invalid_identifier : Text → Text → Reason
  validation_failed : Reason
  dimension_mismatch : ℕ → ℕ → Reason
  request_rejected : Option ℕ → Option Text → Reason

pub data Error : Type 0 where
  embed_dimension : ℕ → ℕ → Error
  embed_timeout : Error
  embed_service : Option ℕ → Error
  embed_request : Option ℕ → Option Text → Error
  namespace_validation : List Text → Error
  unknown_payload_type : Text → Error
  identifier_validation : Text → Text → Error
  supersession_validation : Text → Error
  -- pydantic's `ValidationError`
  validation : Error
  -- `ConnectionError` and `TimeoutError`
  connection : Error
  timeout : Error
  -- `ValueError`, `KeyError`, `TypeError` and `RuntimeError` as raised by this code or the language
  value_error : Error
  key_error : Text → Error
  type_error : Error
  runtime_error : Error
  poison_episode : Reason → Error
  transient_ingest : Error
  -- any exception of another class
  other : Error
  -- no exception: a loop that has not ended within the rounds that its model has
  endless : Error

pub data Result {ℓ} (A : Type ℓ) : Type ℓ where
  ok : A → Result A
  err : Error → Result A

-- `if not b: raise e`
abbrev pub check : Bool → Error → Result (Unit {0})
check false e = err e
check true e = ok tt

module _ {ℓ κ} {A : Type ℓ} {B : Type κ} where
  -- An exception that the code does not catch ends it.
  infixl 5 ◌>>=◌
  abbrev pub ◌>>=◌ : Result A → (A → Result B) → Result B
  ◌>>=◌ (err raised) next = err raised
  ◌>>=◌ (ok value) next = next value

  pub >>=-eq-ok :
      (first : Result A) (next : A → Result B) {result : B}
      → (first >>= next) ≡ ok result
      → (value : A) × (first ≡ ok value) × (next value ≡ ok result)
  >>=-eq-ok (err raised) next h = cc
  >>=-eq-ok (ok value) next h = (value, refl, h)

-- A sequence raises in its first part or in the rest.
pub >>=-eq-err {ℓ κ} :
    {A : Type ℓ} {B : Type κ} (first : Result A) (next : A → Result B) (e : Error)
    → (first >>= next) ≡ err e
    → (first ≡ err e) ⊎ ((value : A) × (first ≡ ok value) × (next value ≡ err e))
>>=-eq-err (err raised) next e h = inl (cc)
>>=-eq-err (ok value) next e h = inr (value, refl, h)

infixl 5 ◌>>◌
abbrev pub ◌>>◌ {κ} : {B : Type κ} → Result (Unit {0}) → Result B → Result B
checked >> rest = checked >>= λ _. rest

pub check-eq-ok : (b : Bool) (e : Error) → check b e ≡ ok tt → b ≡ true
check-eq-ok false e h = cc
check-eq-ok true e h = refl

-- A sequence succeeds if its first part does, and the rest does after whatever that gives.
pub >>=-total {ℓ κ} :
    {A : Type ℓ} {B : Type κ} (first : Result A) (next : A → Result B)
    → (value : A) × (first ≡ ok value)
    → ((value : A) → (result : B) × (next value ≡ ok result))
    → (result : B) × ((first >>= next) ≡ ok result)
>>=-total (ok a) next (value, e) later = later a
>>=-total (err raised) next (value, e) later = absurd cc

pub Result-cases {ℓ} :
    {A : Type ℓ} (r : Result A) → ((e : Error) × (r ≡ err e)) ⊎ ((a : A) × (r ≡ ok a))
Result-cases (err e) = inl (e, refl)
Result-cases (ok a) = inr (a, refl)
