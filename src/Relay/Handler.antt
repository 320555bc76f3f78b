-- ===== src/Relay/Handler.antt =====
-- relay/handler.py: ack, nak and dead-letter routing of one delivery. The service, the broker's
-- `publish` and the metadata of a message are parameters; what the handler changes beside the
-- store are the dead letters and the progress marker.
pub mod Steps
pub mod Delivery
mod Tests
use fleet_memory.Prelude.{
  ℕ, Bool, List, [], ◌∷◌, ◌++◌, Option, none, some, Text, codes, leb, if◌then◌else◌,
}
use fleet_memory.Errors.{Error, Reason, Result, ok, err, poison_episode, transient_ingest}
use fleet_memory.Relay.Schema.{MemoryEpisodeV1}

-- The `reason` of a dead letter.
pub data LetterReason : Type 0 where
  poison : Reason → LetterReason
  max_deliver_exhausted : LetterReason

-- The extra fields of a letter about exhausted deliveries.
pub record Exhaustion : Type 0 where
  pub failure_mode : Text
  pub delivery_count : ℕ
  pub max_deliver : ℕ

-- What `_publish_dlq` publishes; the subject is the prefix and the project.
pub record DeadLetter : Type 0 where
  pub subject : Text
  pub episode_id : Text
  pub project_id : Text
  pub reason : LetterReason
  pub content_format : Text
  pub payload_type : Option Text
  pub exhaustion : Option Exhaustion

pub data Progress : Type 0 where
  ingest_recorded : Progress
  message_recorded : Text → Progress

-- How one delivery ends: a return, `NackMessage`, `RejectMessage`, or another exception.
pub data Disposition : Type 0 where
  ack nack reject : Disposition
  raised : Error → Disposition

pub record World (S : Type 0) : Type 0 where
  pub store : S
  pub letters : List DeadLetter
  pub progress : List Progress

-- `_delivery_count`
abbrev pub delivery_count : Option ℕ → ℕ
delivery_count none = 0
delivery_count (some num_delivered) = num_delivered

-- `failure_mode`, by the `except` clause that handles the exception
abbrev failure_mode : Error → Text
failure_mode transient_ingest = codes "transient_ingest_error"
failure_mode e = codes "unenumerated_exception"

abbrev letter : Text → MemoryEpisodeV1 → LetterReason → Option Exhaustion → DeadLetter
letter dlq_subject episode reason exhaustion = record {
  subject = dlq_subject ++ (codes "." ++ episode.project_id);
  episode_id = episode.episode_id;
  project_id = episode.project_id;
  reason = reason;
  content_format = episode.content_format;
  payload_type = episode.payload_type;
  exhaustion = exhaustion;
}

module _ {S : Type 0} (marker : Bool) where
  -- `if marker is None: return`
  abbrev pub record_progress : Progress → World S → World S
  record_progress p w = if marker then record w { progress = w.progress ++ (p ∷ []) } else w

  module _ (publish : DeadLetter → Result (Unit {0})) where
    -- `_publish_dlq`, the record of it, and `RejectMessage`.
    abbrev pub published : DeadLetter → Result (Unit {0}) → World S → Disposition × World S
    published l (err e) w = (raised e, w)
    published l (ok done) w = (
      reject,
      record_progress (message_recorded (codes "dlq"))
          (record w { letters = w.letters ++ (l ∷ []) }),
    )

    abbrev pub park : DeadLetter → World S → Disposition × World S
    park l w = published l (publish l) w

    module _ (dlq_subject : Text) (max_deliver : ℕ) where
      unfoldable pub route_transient :
          MemoryEpisodeV1 → Option ℕ → Text → World S → Disposition × World S
      route_transient episode metadata mode w =
          if leb max_deliver (delivery_count metadata)
          then park
              (letter dlq_subject episode max_deliver_exhausted (
                some (record {
                  failure_mode = mode;
                  delivery_count = delivery_count metadata;
                  max_deliver = max_deliver;
                })))
              w
          else (nack, record_progress (message_recorded (codes "nak")) w)

      -- What follows the service's return or exception.
      unfoldable pub dispatch :
          MemoryEpisodeV1 → Option ℕ → Result (Unit {0}) → World S → Disposition × World S
      unfolding route_transient
      dispatch episode metadata (ok done) w = (ack, record_progress ingest_recorded w)
      dispatch episode metadata (err (poison_episode reason)) w =
          park (letter dlq_subject episode (poison reason) none) w
      dispatch episode metadata (err e) w = route_transient episode metadata (failure_mode e) w

      module _ (ingest : MemoryEpisodeV1 → S → Result (Unit {0}) × S) where
        unfoldable pub handle_memory_episode :
            MemoryEpisodeV1 → Option ℕ → World S → Disposition × World S
        unfolding dispatch
        handle_memory_episode episode metadata w =
            dispatch episode metadata (ingest episode w.store).0
              (record w { store = (ingest episode w.store).1 })
