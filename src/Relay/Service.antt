-- ===== src/Relay/Service.antt =====
-- relay/service.py: the routing and the exception mapping of `RelayService`.
pub mod Episode
pub mod Ingest
pub mod Malformed
use fleet_memory.Prelude.{some, text_eq, codes, if◌then◌else◌, ◌||◌}
use fleet_memory.Errors.{
  Error, Result, ok, err, poison_episode, transient_ingest, unknown_payload_type,
  namespace_validation, identifier_validation, validation, embed_dimension, embed_request,
  unrecognized_format, unknown_type, invalid_namespace, invalid_identifier, validation_failed,
  dimension_mismatch, request_rejected, endless,
}
use fleet_memory.Exec.{Exec, lift, ◌>>=◌}
use fleet_memory.Store.Api.{StoreApi}
use fleet_memory.Writer.Identity.{Digests}
use fleet_memory.Writer.Core.{write}
use fleet_memory.Relay.Schema.{MemoryEpisodeV1}
use fleet_memory.Relay.Service.Episode.{
  Collaborators, episode_meta, episode_payload, episode_chunks,
}
use fleet_memory.Relay.ChunkWriter.{write_chunks}

-- The `except` clauses of `ingest`, in their order.
unfoldable pub map_error : Error → Error
map_error (poison_episode reason) = poison_episode reason
map_error (unknown_payload_type payload_type) = poison_episode (unknown_type payload_type)
map_error (namespace_validation invalid_parts) = poison_episode (invalid_namespace invalid_parts)
map_error (identifier_validation field_name value) =
    poison_episode (invalid_identifier field_name value)
map_error validation = poison_episode validation_failed
map_error (embed_dimension actual expected) = poison_episode (dimension_mismatch actual expected)
map_error (embed_request status_code error_type) =
    poison_episode (request_rejected status_code error_type)
-- a service that does not return raises nothing
map_error endless = endless
map_error _ = transient_ingest

abbrev pub map_result : Result (Unit {0}) → Result (Unit {0})
map_result (ok done) = ok done
map_result (err e) = err (map_error e)

module _ (c : Collaborators) where
  module _ (api : StoreApi) (d : Digests) where
    unfoldable pub ingest_json : MemoryEpisodeV1 → Exec api.State (Unit {0})
    unfolding episode_payload
    ingest_json episode = lift (episode_payload c episode) >>= λ payload.
        write api d payload (some (episode_meta episode))

    ingest_prose : MemoryEpisodeV1 → Exec api.State (Unit {0})
    unfolding episode_chunks
    ingest_prose episode = lift (episode_chunks c episode) >>= λ chunks.
        write_chunks api d episode.episode_id (some (episode_meta episode)) chunks

    unfoldable pub route : MemoryEpisodeV1 → Exec api.State (Unit {0})
    unfolding ingest_json ingest_prose
    route episode =
        if text_eq episode.content_format (codes "json")
        then ingest_json episode
        else if text_eq episode.content_format (codes "markdown")
            || text_eq episode.content_format (codes "text")
        then ingest_prose episode
        else lift (err (poison_episode (unrecognized_format episode.content_format)))

    unfoldable pub ingest : MemoryEpisodeV1 → Exec api.State (Unit {0})
    unfolding map_error route
    ingest episode s = (map_result (route episode s).0, (route episode s).1)
