-- ===== src/Relay/Service/Malformed.antt =====
-- relay/service.py: the episodes that are rejected for what they say, whatever the store holds.
use fleet_memory.Prelude.{◌≡◌, ◌≢◌, true, false, [], ◌∷◌, Option, none, some, Text, codes, All}
use fleet_memory.Errors.{
  Reason, ok, unrecognized_format, missing_payload_type, unparseable_body, unknown_type,
  invalid_identifier, validation_failed, invalid_namespace,
}
use fleet_memory.Json.{Json}
use fleet_memory.Payloads.Norm.{is_identifier, is_namespace_part}
use fleet_memory.Payloads.Models.{Kind, Body, kind_of, payload_type}
use fleet_memory.Payloads.BackwardEdge.{run_validators}
use fleet_memory.Payloads.Registry.{get_model_for_type, is_registered}
use fleet_memory.Payloads.Base.{PayloadData, Payload, collapse, is_key_shaped, default_to}
use fleet_memory.Relay.Schema.{MemoryEpisodeV1}
use fleet_memory.Relay.Service.Episode.{Collaborators, episode_payload}

-- An identifier of the data is absent or valid.
abbrev Named : Option Text → Type 0
Named none = Unit {0}
Named (some value) = is_identifier value ≡ true

-- Each reference of the data is of three segments.
abbrev Shaped : PayloadData → Type 0
Shaped d = All (λ r. is_key_shaped r ≡ true) (collapse [] (default_to [] d.supersedes))

-- What makes pydantic refuse the data: a required field that is absent, or a validator.
pub data IsRefused (kind : Kind) (d : PayloadData) : Type 0 where
  no_project : d.project ≡ none → IsRefused kind d
  no_identifier : d.identifier ≡ none → IsRefused kind d
  no_source_ref : d.source_ref ≡ none → IsRefused kind d
  no_body : d.body ≡ none → IsRefused kind d
  disallowed :
      {body : Body}
      → d.body ≡ some body
      → run_validators (default_to [] d.domain_tags) body ≡ false
      → IsRefused kind d

module _ (c : Collaborators) where
  -- The body of a json episode is read as these data of this class.
  pub record IsRead (episode : MemoryEpisodeV1) (kind : Kind) (d : PayloadData) : Type 0 where
    pub format : episode.content_format ≡ codes "json"
    pub type_name : Text
    pub typed : episode.payload_type ≡ some type_name
    pub json : Json
    pub loaded : c.json_loads episode.body ≡ some json
    pub known : get_model_for_type type_name ≡ ok kind
    pub read : c.arguments kind json ≡ ok d

  -- An episode that is malformed in itself, with the reason: its format, its type, its body, an
  -- identifier, a field, or a project that is no part of a namespace.
  pub data IsMalformed (episode : MemoryEpisodeV1) : Reason → Type 0 where
    unrecognized :
        episode.content_format ≢ codes "json"
        → episode.content_format ≢ codes "markdown"
        → episode.content_format ≢ codes "text"
        → IsMalformed episode (unrecognized_format episode.content_format)
    untyped :
        episode.content_format ≡ codes "json"
        → episode.payload_type ≡ none
        → IsMalformed episode missing_payload_type
    unparsed :
        {t : Text}
        → episode.content_format ≡ codes "json"
        → episode.payload_type ≡ some t
        → c.json_loads episode.body ≡ none
        → IsMalformed episode unparseable_body
    unregistered :
        {t : Text} {j : Json}
        → episode.content_format ≡ codes "json"
        → episode.payload_type ≡ some t
        → c.json_loads episode.body ≡ some j
        → is_registered t ≡ false
        → IsMalformed episode (unknown_type t)
    misnamed_project :
        {kind : Kind} {d : PayloadData} {value : Text}
        → IsRead episode kind d
        → d.project ≡ some value
        → is_identifier value ≡ false
        → IsMalformed episode (invalid_identifier (codes "project") value)
    misnamed_identifier :
        {kind : Kind} {d : PayloadData} {value : Text}
        → IsRead episode kind d
        → Named d.project
        → d.identifier ≡ some value
        → is_identifier value ≡ false
        → IsMalformed episode (invalid_identifier (codes "identifier") value)
    unaccepted :
        {kind : Kind} {d : PayloadData}
        → IsRead episode kind d
        → Named d.project
        → Named d.identifier
        → Shaped d
        → IsRefused kind d
        → IsMalformed episode validation_failed
    misplaced :
        {p : Payload}
        → episode.content_format ≡ codes "json"
        → episode_payload c episode ≡ ok p
        → is_registered (payload_type (kind_of p.body)) ≡ true
        → is_namespace_part p.project ≡ false
        → IsMalformed episode (invalid_namespace (p.project ∷ []))
