-- ===== src/Payloads/Base/NaturalKey.antt =====
-- The natural key of a well-formed payload can be read back, so it names one payload.
use fleet_memory.Prelude.{
  ◌≡◌, refl, sym, ap, ◌∙◌, true, [], ◌∷◌, ◌++◌, some, all, arith, Text, Lacks, split, split_plain,
  split-append,
}
use fleet_memory.Payloads.Norm.{is_identifier_char, is_identifier}
use fleet_memory.Payloads.Models.{Kind, adr_payload, payload_type, kind_of}
use fleet_memory.Payloads.BackwardEdge.{backward_edge_payloads}
use fleet_memory.Payloads.Registry.{payload_registry, find_model}
use fleet_memory.Payloads.Base.{Payload, colon, natural_key}
use fleet_memory.Payloads.Base.WellFormed.{IsWellFormed}

Lacks-payload_type : (k : Kind) → Lacks colon (payload_type k)
unfolding payload_type
Lacks-payload_type adr_payload = omega arith
Lacks-payload_type _ = omega arith

Lacks-identifier_chars : (s : Text) → all is_identifier_char s ≡ true → Lacks colon s
unfolding is_identifier_char
Lacks-identifier_chars [] h = tt
Lacks-identifier_chars (c ∷ s) h = (ground arith, Lacks-identifier_chars s (ground arith))

Lacks-identifier : (s : Text) → is_identifier s ≡ true → Lacks colon s
unfolding is_identifier
Lacks-identifier s h = Lacks-identifier_chars s (ground arith)

-- The key of a well-formed payload splits at the colons into its type, project and identifier.
pub split-natural_key :
    (p : Payload)
    → IsWellFormed p
    → split colon (natural_key p) ≡ payload_type (kind_of p.body) ∷ p.project ∷ p.identifier ∷ []
unfolding natural_key
split-natural_key p w =
    split-append colon (payload_type (kind_of p.body)) _ (Lacks-payload_type (kind_of p.body))
    ∙ ap (λ l. payload_type (kind_of p.body) ∷ l)
        (split-append colon p.project _ (Lacks-identifier p.project w.project)
          ∙ ap (λ l. p.project ∷ l)
              (split_plain colon p.identifier (Lacks-identifier p.identifier w.identifier)))

find_model-payload_type :
    (k : Kind) → find_model (payload_type k) (payload_registry ++ backward_edge_payloads) ≡ some k
unfolding find_model payload_type
find_model-payload_type adr_payload = refl
find_model-payload_type _ = refl

payload_type_injective : (k l : Kind) → payload_type k ≡ payload_type l → k ≡ l
payload_type_injective k l e = cc (
  find_model-payload_type k,
  find_model-payload_type l,
  ap (λ t. find_model t (payload_registry ++ backward_edge_payloads)) e,
)

-- Two well-formed payloads with one key have the same class, project and identifier.
pub natural_key_injective :
    (p q : Payload)
    → IsWellFormed p
    → IsWellFormed q
    → natural_key p ≡ natural_key q
    → (kind_of p.body ≡ kind_of q.body) × (p.project ≡ q.project) × (p.identifier ≡ q.identifier)
natural_key_injective p q v w e =
    let parts = sym (split-natural_key p v) ∙ ap (split colon) e ∙ split-natural_key q w in
    (payload_type_injective _ _ (cc parts), cc parts, cc parts)
