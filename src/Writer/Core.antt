-- ===== src/Writer/Core.antt =====
-- writer/core.py: `DeterministicWriter`.
pub mod Outcome
pub mod Effects
pub mod Batch
pub mod Totality
use fleet_memory.Prelude.{
  false, ℕ, ◌+◌, Bool, List, [], ◌∷◌, Option, none, some, Text, text_eq, codes, if◌then◌else◌,
}
use fleet_memory.Errors.{value_error}
use fleet_memory.Exec.{Exec, pure, raise, lift, read, write_to, ◌>>=◌, ◌>>◌}
use fleet_memory.Json.{obj, dumps}
use fleet_memory.Payloads.Models.{payload_type, kind_of}
use fleet_memory.Payloads.Registry.{is_registered}
use fleet_memory.Payloads.Base.{Payload, natural_key}
use fleet_memory.Store.{validate_namespace}
use fleet_memory.Store.Value.{EpisodeMeta, Value, empty_value}
use fleet_memory.Store.Api.{Address, StoreApi}
use fleet_memory.Writer.Identity.{Digests, record_identity, content_hash, model_dump}
use fleet_memory.Writer.Supersession.{apply_supersessions, check_and_apply_forward_supersession}

abbrev pub payload_namespace : Payload → List Text
payload_namespace p = codes "fleet_memory" ∷ p.project ∷ payload_type (kind_of p.body) ∷ []

abbrev pub payload_address : Digests → Payload → Address
payload_address d p = record {
  namespace = payload_namespace p;
  key = record_identity d (natural_key p);
}

-- `stored_value["supersedes"] = payload.supersedes` if there are any
abbrev stored_supersedes : List Text → Option (List Text)
stored_supersedes [] = none
stored_supersedes (t ∷ ts) = some (t ∷ ts)

abbrev pub meta_type : Option EpisodeMeta → Option Text
meta_type none = none
meta_type (some meta) = some meta.episode_type

-- The value that `_write_record` builds, before the forward supersession.
unfoldable pub stored_value : Payload → Text → Text → ℕ → Option EpisodeMeta → Value
stored_value p content_json content_hash_value version episode_meta = record empty_value {
  content = some content_json;
  content_hash = some content_hash_value;
  version = some version;
  payload_type = some (payload_type (kind_of p.body));
  natural_key = some (natural_key p);
  project = some p.project;
  identifier = some p.identifier;
  supersedes = stored_supersedes p.supersedes;
  episode_type = meta_type episode_meta;
  episode_meta = episode_meta;
}

-- `existing_value.get("content_hash") == new_hash`
abbrev pub hash_matches : Option Text → Text → Bool
hash_matches none new_hash = false
hash_matches (some old_hash) new_hash = text_eq old_hash new_hash

-- `existing_value.get("version", 1)`
abbrev pub existing_version : Option ℕ → ℕ
existing_version none = 1
existing_version (some v) = v

-- `seen_keys[natural_key] = payload`: the place of the first, the value of the last.
pub collapse_into : Payload → List Payload → List Payload
collapse_into p [] = p ∷ []
collapse_into p (q ∷ rest) =
    if text_eq (natural_key q) (natural_key p) then p ∷ rest else q ∷ collapse_into p rest

pub collapse_batch : List Payload → List Payload → List Payload
unfolding collapse_into
collapse_batch seen [] = seen
collapse_batch seen (p ∷ rest) = collapse_batch (collapse_into p seen) rest

module _ (api : StoreApi) (d : Digests) where
  unfoldable pub write_record : Payload → Text → ℕ → Option EpisodeMeta → Exec api.State (Unit {0})
  unfolding stored_value
  write_record p content_hash_value version episode_meta = do
    content_json ← lift (dumps (obj (model_dump p)))
    let value = stored_value p content_json content_hash_value version episode_meta
    checked ←
        read (check_and_apply_forward_supersession api (natural_key p) (payload_namespace p) value)
    write_to (api.aput (payload_address d p) checked)

  -- Steps 5 and 6.
  unfoldable pub upsert :
      Payload → Text → Option EpisodeMeta → Option Value → Exec api.State (Unit {0})
  upsert p new_hash episode_meta none = do
    write_record p new_hash 1 episode_meta
    apply_supersessions api d (natural_key p) p.supersedes
  upsert p new_hash episode_meta (some existing) =
      if hash_matches existing.content_hash new_hash
      then apply_supersessions api d (natural_key p) p.supersedes
      else write_record p new_hash (existing_version existing.version + 1) episode_meta
        >> apply_supersessions api d (natural_key p) p.supersedes

  -- Steps 2 to 6.
  unfoldable pub write_registered : Payload → Option EpisodeMeta → Exec api.State (Unit {0})
  write_registered p episode_meta = do
    lift (validate_namespace (payload_namespace p))
    new_hash ← lift (content_hash d p)
    existing ← read (api.aget (payload_address d p))
    upsert p new_hash episode_meta existing

  unfoldable pub write : Payload → Option EpisodeMeta → Exec api.State (Unit {0})
  write p episode_meta =
      if is_registered (payload_type (kind_of p.body))
      then write_registered p episode_meta
      else raise value_error

  unfoldable write_each : List Payload → Exec api.State (Unit {0})
  write_each [] = pure tt
  write_each (p ∷ rest) = do write p none; write_each rest

  unfoldable write_batch : List Payload → Exec api.State (Unit {0})
  unfolding collapse_batch
  write_batch payloads = write_each (collapse_batch [] payloads)
