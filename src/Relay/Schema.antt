-- ===== src/Relay/Schema.antt =====
-- relay/schema.py: the envelope of an episode and the chunks of its prose. Timestamps and hints
-- are kept as the texts that are stored of them.
use fleet_memory.Prelude.{ℕ, Option, Text}

pub record MemoryEpisodeV1 : Type 0 where
  pub episode_id : Text
  pub project_id : Text
  pub episode_type : Text
  pub content_format : Text
  pub body : Text
  pub payload_type : Option Text
  pub source_ref : Option Text
  pub name : Option Text
  pub source : Option Text
  pub occurred_at : Option Text
  pub published_at : Option Text
  pub ingest_hints : Option Text

pub record Chunk : Type 0 where
  pub index : ℕ
  pub text : Text
  pub source_ref : Option Text
  pub project : Text
