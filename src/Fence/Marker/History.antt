-- ===== src/Fence/Marker/History.antt =====
-- The abstract history of the relay, and the relay's calls over its events.
use fleet_memory.Prelude.{
  ℕ, suc, ◌*◌, ◌/◌, ◌≡◌, List, [], ◌∷◌, ◌++◌, Option, none, some, Text, codes, Lacks, pos,
}
use fleet_memory.Errors.{Result, ok, ◌>>=◌}
use fleet_memory.Fence.Time.{Instant, Iso, instant, second}
use fleet_memory.Fence.Verdict.{marker_not_written}
use fleet_memory.Fence.Marker.{
  MarkerState, MarkerRead, Numerals, blind_read, RelayMarker, new_marker, Disk, Fault, no_fault,
  record_start, record_ingest, record_message,
}

-- The start of the second that an instant lies in.
abbrev pub to_second : Instant → Instant
to_second t = t / second * second

-- What is documented of `datetime`: a timestamp is shown to the second, with no "Z" but the one that
-- the caller adds, and `fromisoformat` reads it back.
pub record IsoLaws (iso : Iso) : Type 0 where
  pub no_z : (t : Instant) → Lacks b'Z' (iso.show t)
  pub reads_back :
      (t : Instant) → iso.from_iso (iso.show t ++ codes "+00:00") ≡ instant (to_second t)
  pub coarse : (t : Instant) → iso.show (to_second t) ≡ iso.show t

-- What happened since the relay's last start, and last of all.
pub record History : Type 0 where
  pub started : Instant
  pub last_message : Option Instant
  pub last_ingest : Option Instant
  pub messages : ℕ
  pub ingests : ℕ
  pub disposition : Option Text

-- The history as the process knows it, and as it was last saved.
pub record Known : Type 0 where
  pub current : History
  pub saved : Option History

-- A start of the process, and its messages, each with the time and what goes wrong in the write.
pub data Event : Type 0 where
  relay_start : Instant → Fault → Event
  relay_ingest : Instant → Fault → Event
  relay_message : Text → Instant → Fault → Event

abbrev pub since : Instant → Option History → History
since now none = record {
  started = to_second now;
  last_message = none;
  last_ingest = none;
  messages = 0;
  ingests = 0;
  disposition = none;
}
since now (some h) = record h { started = to_second now; messages = 0; ingests = 0 }

abbrev pub saved_after : Fault → History → Option History → Option History
saved_after no_fault h saved = some h
saved_after _ h saved = saved

abbrev pub known_after : Fault → History → Option History → Known
known_after fault h saved = record { current = h; saved = saved_after fault h saved }

abbrev pub ingested : Instant → History → History
ingested now h = record h {
  last_message = some (to_second now);
  last_ingest = some (to_second now);
  messages = suc h.messages;
  ingests = suc h.ingests;
  disposition = some (codes "ack");
}

abbrev pub messaged : Text → Instant → History → History
messaged disposition now h = record h {
  last_message = some (to_second now);
  messages = suc h.messages;
  disposition = some disposition;
}

abbrev pub happens : Event → Known → Known
happens (relay_start now fault) k = known_after fault (since now k.saved) k.saved
happens (relay_ingest now fault) k = known_after fault (ingested now k.current) k.saved
happens (relay_message disposition now fault) k =
    known_after fault (messaged disposition now k.current) k.saved

unfoldable pub replay : List Event → Known → Known
replay [] k = k
replay (e ∷ es) k = replay es (happens e k)

abbrev pub state_of : History → MarkerState
state_of h = record {
  started_at = some h.started;
  last_message_at = h.last_message;
  last_ingest_at = h.last_ingest;
  messages_since_start = pos h.messages;
  ingests_since_start = pos h.ingests;
  last_disposition = h.disposition;
}

abbrev pub seen : Text → Option History → MarkerRead
seen label none = blind_read marker_not_written label
seen label (some h) = record { state = some (state_of h); problem = none; path = label }

module _ (iso : Iso) (numerals : Numerals) (label : Text) where
  -- A start makes a new `RelayMarker`.
  unfoldable pub perform : Event → RelayMarker → Disk → Result (RelayMarker × Disk)
  unfolding record_start record_ingest record_message
  perform (relay_start now fault) m d = record_start iso numerals label now fault new_marker d
  perform (relay_ingest now fault) m d = ok (record_ingest iso now fault m d)
  perform (relay_message disposition now fault) m d =
      ok (record_message iso disposition now fault m d)

  unfoldable pub perform_all : List Event → RelayMarker → Disk → Result (RelayMarker × Disk)
  perform_all [] m d = ok (m, d)
  perform_all (e ∷ es) m d = perform e m d >>= λ (m', d'). perform_all es m' d'

  unfoldable pub perform_rest : List Event → RelayMarker × Disk → Result (RelayMarker × Disk)
  unfolding perform_all
  perform_rest es (m, d) = perform_all es m d
