-- ===== src/Reindex/Publisher/Ingested.antt =====
-- The relay writes what the reindexing publishes.
use fleet_memory.Prelude.{
  ◌≡◌, refl, sym, ap, ◌∙◌, Option, none, some, if◌then◌else◌, arith, Text, text_eq,
}
use mathlib.Core.Path.{subst}
use fleet_memory.Errors.{Result, ok, err}
use fleet_memory.Json.{Json, Fields, end, field, obj, dumps}
use fleet_memory.Payloads.Models.{kind_of, payload_type}
use fleet_memory.Payloads.Registry.{get_model_for_type}
use fleet_memory.Payloads.Base.{PayloadData, Payload}
use fleet_memory.Payloads.Base.WellFormed.{IsWellFormed, Holds, construct_iff}
use fleet_memory.Store.Api.{StoreApi}
use fleet_memory.Writer.Identity.{Digests, model_dump}
use fleet_memory.Writer.Core.{write}
use fleet_memory.Relay.Schema.{MemoryEpisodeV1}
use fleet_memory.Relay.Service.{ingest, route, ingest_json, map_result}
use fleet_memory.Relay.Service.Episode.{Collaborators, episode_meta, episode_payload}
use fleet_memory.Reindex.Publisher.{
  build_envelope, enveloped, envelope_of, json_mode, json_mode_fields,
}

abbrev pub entry : Text → Fields → Option Json
entry name end = none
entry name (field key j rest) = if text_eq key name then some j else entry name rest

-- The entries of the two objects are the same, in whatever order.
abbrev pub SameEntries : Fields → Fields → Type 0
SameEntries fs gs = (name : Text) → entry name fs ≡ entry name gs

-- What is documented of `json.loads` and pydantic, for this payload: the text that is dumped of its
-- fields is loaded as an object of the same entries, and the class accepts an object of the
-- entries that the payload was dumped as, with the values they stand for.
pub record ReadsDump (c : Collaborators) (p : Payload) : Type 0 where
  pub loads :
      (text : Text)
      → dumps (obj (json_mode_fields (model_dump p))) ≡ ok text
      → (fs : Fields) × (c.json_loads text ≡ some (obj fs))
        × SameEntries fs (json_mode_fields (model_dump p))
  pub reads :
      (fs : Fields)
      → SameEntries fs (json_mode_fields (model_dump p))
      → (data_in : PayloadData) × (c.arguments (kind_of p.body) (obj fs) ≡ ok data_in)
        × Holds (kind_of p.body) data_in p

enveloped-eq-ok :
    (d : Digests) (p : Payload) (r : Result Text) (e : MemoryEpisodeV1)
    → enveloped d p r ≡ ok e
    → (e ≡ envelope_of d p e.body) × (r ≡ ok e.body)
enveloped-eq-ok d p (err raised) e h = absurd (ground arith)
enveloped-eq-ok d p (ok body) e h =
    let same : envelope_of d p body ≡ e = cc in
    (
      sym same ∙ ap (λ (x : MemoryEpisodeV1). envelope_of d p x.body) same,
      ap (λ (x : MemoryEpisodeV1). ok x.body) same,
    )

-- The relay builds the payload whose fields the body is the dump of.
episode_payload-enveloped :
    (c : Collaborators) (d : Digests) (p : Payload) (body : Text)
    → get_model_for_type (payload_type (kind_of p.body)) ≡ ok (kind_of p.body)
    → IsWellFormed p
    → ReadsDump c p
    → dumps (obj (json_mode_fields (model_dump p))) ≡ ok body
    → episode_payload c (envelope_of d p body) ≡ ok p
unfolding episode_payload
episode_payload-enveloped c d p body known w r dumped =
    let (fs, loaded, same) = r.loads body dumped in
    let (data_in, read, accepted) = r.reads fs same in
    let made = (construct_iff (kind_of p.body) data_in p).1 (accepted, w) in
    rw (loaded, known, read) made

ingest-envelope_of :
    (c : Collaborators) (api : StoreApi) (d : Digests) (p : Payload) (body : Text) (s : api.State)
    → episode_payload c (envelope_of d p body) ≡ ok p
    → ingest c api d (envelope_of d p body) s ≡ (
      map_result (write api d p (some (episode_meta (envelope_of d p body))) s).0,
      (write api d p (some (episode_meta (envelope_of d p body))) s).1,
    )
unfolding ingest route ingest_json text_eq
ingest-envelope_of c api d p body s built = rw built refl

-- Where json and pydantic read the dump of a payload's fields as they are documented to, the
-- envelope of a well-formed payload of a registered class has in the relay the effect of the writer
-- on that payload: the relay's answer is the writer's, its exceptions mapped, and the store is the
-- one that the writer leaves. For the envelope carries that dump, under the payload's own type.
pub ingest-build_envelope :
    (c : Collaborators) (api : StoreApi) (d : Digests) (p : Payload) (e : MemoryEpisodeV1)
    (s : api.State)
    → get_model_for_type (payload_type (kind_of p.body)) ≡ ok (kind_of p.body)
    → IsWellFormed p
    → build_envelope d p ≡ ok e
    → ReadsDump c p
    → ingest c api d e s ≡ (
      map_result (write api d p (some (episode_meta e)) s).0,
      (write api d p (some (episode_meta e)) s).1,
    )
unfolding build_envelope json_mode
ingest-build_envelope c api d p e s known w built r =
    let (same, dumped) = enveloped-eq-ok d p _ e built in
    let payload = episode_payload-enveloped c d p e.body known w r dumped in
    subst
      (λ x. ingest c api d x s ≡ (
        map_result (write api d p (some (episode_meta x)) s).0,
        (write api d p (some (episode_meta x)) s).1,
      ))
      (sym same) (ingest-envelope_of c api d p e.body s payload)
