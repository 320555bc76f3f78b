-- ===== src/Relay/Service/Episode.antt =====
-- relay/service.py: what an episode is turned into. `json.loads`, pydantic's reading of the keyword
-- arguments and the tokenizer are parameters.
use fleet_memory.Prelude.{ℕ, List, Option, none, some, Text}
use fleet_memory.Errors.{
  Result, ok, err, ◌>>=◌, poison_episode, missing_payload_type, unparseable_body,
}
use fleet_memory.Json.{Json}
use fleet_memory.Payloads.Models.{Kind}
use fleet_memory.Payloads.Registry.{get_model_for_type}
use fleet_memory.Payloads.Base.{PayloadData, Payload, construct}
use fleet_memory.Store.Value.{EpisodeMeta}
use fleet_memory.Relay.Schema.{MemoryEpisodeV1, Chunk}
use fleet_memory.Relay.Chunker.{chunk_prose}

abbrev pub episode_meta : MemoryEpisodeV1 → EpisodeMeta
episode_meta episode = record {
  episode_type = episode.episode_type;
  name = episode.name;
  source = episode.source;
  occurred_at = episode.occurred_at;
  published_at = episode.published_at;
  ingest_hints = episode.ingest_hints;
  payload_type = episode.payload_type;
  source_ref = episode.source_ref;
}

-- What the service uses of other code, and its settings.
pub record Collaborators : Type 0 where
  pub json_loads : Text → Option Json
  -- the arguments of `payload_model(**payload_dict)`; a `TypeError` if it is no dictionary
  pub arguments : Kind → Json → Result PayloadData
  pub encode : Text → Result (List ℕ)
  pub decode : List ℕ → Text
  pub chunk_target_tokens : ℕ
  pub chunk_overlap_tokens : ℕ

abbrev pub parsed_body : Option Json → Result Json
parsed_body none = err (poison_episode unparseable_body)
parsed_body (some payload_dict) = ok payload_dict

abbrev pub present_type : Option Text → Result Text
present_type none = err (poison_episode missing_payload_type)
present_type (some payload_type) = ok payload_type

module _ (c : Collaborators) where
  -- Steps 1 to 4 of `_ingest_json`.
  unfoldable pub episode_payload : MemoryEpisodeV1 → Result Payload
  episode_payload episode = do
    payload_type ← present_type episode.payload_type
    payload_dict ← parsed_body (c.json_loads episode.body)
    payload_model ← get_model_for_type payload_type
    data_in ← c.arguments payload_model payload_dict
    construct payload_model data_in

  unfoldable pub episode_chunks : MemoryEpisodeV1 → Result (List Chunk)
  episode_chunks episode =
      chunk_prose c.encode c.decode c.chunk_target_tokens c.chunk_overlap_tokens episode.source_ref
        episode.project_id episode.body
