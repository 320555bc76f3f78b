-- ===== src/Relay/ChunkWriter.antt =====
-- relay/chunk_writer.py: `ChunkWriter`.
pub mod Redelivery
use fleet_memory.Prelude.{List, [], ◌∷◌, ◌++◌, Option, some, Text, codes}
use fleet_memory.Exec.{Exec, pure, lift, write_to, ◌>>◌}
use fleet_memory.Json.{decimal}
use fleet_memory.Payloads.Base.{colon}
use fleet_memory.Store.{validate_namespace}
use fleet_memory.Store.Value.{EpisodeMeta, Value, empty_value}
use fleet_memory.Store.Api.{Address, StoreApi}
use fleet_memory.Writer.Identity.{Digests}
use fleet_memory.Writer.Core.{meta_type}
use fleet_memory.Relay.Schema.{Chunk}

abbrev pub chunk_namespace : Chunk → List Text
chunk_namespace chunk = codes "fleet_memory" ∷ chunk.project ∷ codes "chunk" ∷ []

-- `uuid5(FLEET_MEMORY_NAMESPACE, f"{episode_id}:{chunk.index}")`
abbrev pub chunk_address : Digests → Text → Chunk → Address
chunk_address d episode_id chunk = record {
  namespace = chunk_namespace chunk;
  key = d.uuid5 (episode_id ++ (colon ∷ decimal chunk.index));
}

abbrev pub chunk_value : Text → Option EpisodeMeta → Chunk → Value
chunk_value episode_id episode_meta chunk = record empty_value {
  content = some chunk.text;
  episode_id = some episode_id;
  chunk_index = some chunk.index;
  source_ref = some chunk.source_ref;
  project = some chunk.project;
  episode_type = meta_type episode_meta;
  episode_meta = episode_meta;
}

module _ (api : StoreApi) (d : Digests) where
  unfoldable pub write_chunks : Text → Option EpisodeMeta → List Chunk → Exec api.State (Unit {0})
  write_chunks episode_id episode_meta [] = pure tt
  write_chunks episode_id episode_meta (chunk ∷ rest) = do
    lift (validate_namespace (chunk_namespace chunk))
    write_to
        (api.aput (chunk_address d episode_id chunk) (chunk_value episode_id episode_meta chunk))
    write_chunks episode_id episode_meta rest
