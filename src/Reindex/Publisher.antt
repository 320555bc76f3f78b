-- ===== src/Reindex/Publisher.antt =====
-- reindex/publisher.py: the envelope of a payload and its publishing. The stream's `publish` is a
-- parameter, absent before `connect()`. `ReindexPublishError` is a `RuntimeError`.
pub mod Ingested
mod Tests
use fleet_memory.Prelude.{ℕ, ◌*◌, ◌++◌, Option, none, some, Text, codes, leb, length, if◌then◌else◌}
use fleet_memory.Errors.{Result, ok, err, runtime_error}
use fleet_memory.Exec.{Exec, pure, raise, lift, ◌>>=◌}
use fleet_memory.Json.{
  Json, str, datetime, arr, obj, Items, nil, cons, Fields, end, field, decimal, dumps,
}
use fleet_memory.Payloads.Models.{payload_type, kind_of}
use fleet_memory.Payloads.Base.{Payload, natural_key}
use fleet_memory.Writer.Identity.{Digests, model_dump}
use fleet_memory.Relay.Schema.{MemoryEpisodeV1}
use fleet_memory.Reindex.Audit.{derive_episode_id}

abbrev pub max_episode_body_bytes : ℕ
max_episode_body_bytes = 900 * 1024

-- `episode_subject`
unfoldable pub episode_subject : Text → Text → Text
episode_subject project payload_type =
    codes "memory.episode." ++ (project ++ (codes "." ++ payload_type))

-- `mode="json"` writes a timestamp as a text.
unfoldable mutual
  pub json_mode : Json → Json
  json_mode (datetime s) = str s
  json_mode (arr items) = arr (json_mode_items items)
  json_mode (obj fields) = obj (json_mode_fields fields)
  json_mode j = j

  pub json_mode_items : Items → Items
  json_mode_items nil = nil
  json_mode_items (cons j rest) = cons (json_mode j) (json_mode_items rest)

  pub json_mode_fields : Fields → Fields
  json_mode_fields end = end
  json_mode_fields (field name j rest) = field name (json_mode j) (json_mode_fields rest)

-- What is given to the stream: the subject, the envelope and the header `Nats-Msg-Id`.
pub record StreamMessage : Type 0 where
  pub subject : Text
  pub envelope : MemoryEpisodeV1
  pub msg_id : Text

too_large : ℕ → Text
too_large body_bytes =
    codes "payload body "
    ++ (decimal body_bytes
        ++ (codes " bytes exceeds MAX_EPISODE_BODY_BYTES ("
            ++ (decimal max_episode_body_bytes ++ codes ")")))

module _ (d : Digests) where
  abbrev pub envelope_of : Payload → Text → MemoryEpisodeV1
  envelope_of p body = record {
    episode_id = derive_episode_id d (natural_key p);
    project_id = p.project;
    episode_type = payload_type (kind_of p.body);
    content_format = codes "json";
    body = body;
    payload_type = some (payload_type (kind_of p.body));
    source_ref = some p.source_ref;
    name = none;
    source = none;
    occurred_at = none;
    published_at = none;
    ingest_hints = none;
  }

  abbrev pub enveloped : Payload → Result Text → Result MemoryEpisodeV1
  enveloped p (err e) = err e
  enveloped p (ok body) = ok (envelope_of p body)

  unfoldable pub build_envelope : Payload → Result MemoryEpisodeV1
  unfolding json_mode
  build_envelope p = enveloped p (dumps (json_mode (obj (model_dump p))))

  abbrev pub message_of : Payload → MemoryEpisodeV1 → StreamMessage
  message_of p envelope = record {
    subject = episode_subject p.project (payload_type (kind_of p.body));
    envelope = envelope;
    msg_id = envelope.episode_id;
  }

  -- `ReindexPublisher.publish`; the body is ASCII, so it has as many bytes as characters.
  unfoldable pub publish :
      {S : Type 0} → Option (StreamMessage → Exec S (Unit {0})) → Payload → Exec S (Option Text)
  unfolding build_envelope episode_subject too_large
  publish none p = raise runtime_error
  publish (some send) p = lift (build_envelope p) >>= λ envelope.
      if leb max_episode_body_bytes (length envelope.body)
      then pure (some (too_large (length envelope.body)))
      else (send (message_of p envelope) >>= λ sent. pure none)
