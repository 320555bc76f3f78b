-- ===== src/Writer/Identity.antt =====
-- writer/identity.py: the identity of a record, and the hash of what it says. SHA-256 and the
-- version 5 UUID in the fleet's namespace are parameters.
mod Dump
pub mod Hashing
unfoldable pub use Dump.{model_dump}
use fleet_memory.Prelude.{Text, text_eq, codes, if◌then◌else◌}
use fleet_memory.Errors.{Result, ok, ◌>>=◌}
use fleet_memory.Json.{obj, Fields, end, field, dumps}
use fleet_memory.Payloads.Base.{Payload}

pub record Digests : Type 0 where
  -- `hashlib.sha256(text.encode("utf-8")).digest().hex()`
  pub sha256_hex : Text → Text
  -- `str(uuid.uuid5(FLEET_MEMORY_NAMESPACE, name))`
  pub uuid5 : Text → Text

-- `{k: v for k, v in payload_dict.items() if k != "version"}`
unfoldable pub without_version : Fields → Fields
unfolding text_eq
without_version end = end
without_version (field key x fs) =
    let rest = without_version fs in
    if text_eq key (codes "version") then rest else field key x rest

module _ (d : Digests) where
  unfoldable pub record_identity : Text → Text
  record_identity natural_key = d.uuid5 natural_key

  unfoldable pub content_hash : Payload → Result Text
  unfolding without_version
  content_hash payload = do
    canonical_json ← dumps (obj (without_version (model_dump payload)))
    ok (d.sha256_hex canonical_json)
