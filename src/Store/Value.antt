-- ===== src/Store/Value.antt =====
-- The values that are stored: a dictionary with the keys that the writers put in it, where `none`
-- is a key that is absent. Both kinds of record, of payloads and of chunks, have this type.
use fleet_memory.Prelude.{ℕ, List, none, Option, Text}

-- The envelope metadata of relay/service.py, `_episode_meta`.
pub record EpisodeMeta : Type 0 where
  pub episode_type : Text
  pub name : Option Text
  pub source : Option Text
  pub occurred_at : Option Text
  pub published_at : Option Text
  pub ingest_hints : Option Text
  pub payload_type : Option Text
  pub source_ref : Option Text

pub record Value : Type 0 where
  pub content : Option Text
  pub content_hash : Option Text
  pub version : Option ℕ
  pub payload_type : Option Text
  pub natural_key : Option Text
  pub project : Option Text
  pub identifier : Option Text
  -- no writer of the service stores it; the search looks for it
  pub domain_tags : Option (List Text)
  pub supersedes : Option (List Text)
  pub superseded_by : Option Text
  pub episode_id : Option Text
  pub chunk_index : Option ℕ
  pub source_ref : Option (Option Text)
  pub episode_type : Option Text
  pub episode_meta : Option EpisodeMeta

abbrev pub empty_value : Value
empty_value = record {
  content = none;
  content_hash = none;
  version = none;
  payload_type = none;
  natural_key = none;
  project = none;
  identifier = none;
  domain_tags = none;
  supersedes = none;
  superseded_by = none;
  episode_id = none;
  chunk_index = none;
  source_ref = none;
  episode_type = none;
  episode_meta = none;
}
