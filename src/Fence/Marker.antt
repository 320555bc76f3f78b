-- ===== src/Fence/Marker.antt =====
-- fence/marker.py: the relay's progress marker, its writer and its reader. The clock, the reading of
-- timestamps and numbers, and what goes wrong on the disk are parameters.
pub mod History
pub mod Saved
pub mod Refinement
pub mod Raises
use fleet_memory.Prelude.{
  ℕ, suc, Bool, true, false, Option, none, some, Text, codes, if◌then◌else◌, ℤ, pos,
}
use fleet_memory.Errors.{Result, ok, err, ◌>>=◌, value_error, other}
use fleet_memory.Json.{Json, null, bool, num, float, str, obj, Fields, end, field}
use fleet_memory.Fence.Files.{FileRead, not_found, os_error, undecodable, contents, get}
use fleet_memory.Fence.Time.{Instant, Iso, parse_iso, shown_iso}
use fleet_memory.Fence.Verdict.{
  Problem, marker_not_written, marker_cannot_be_read, marker_not_json, marker_wrong_shape,
  marker_no_start,
}
use fleet_memory.Fence.Ack.{text_of}

pub record MarkerState : Type 0 where
  pub started_at : Option Instant
  pub last_message_at : Option Instant
  pub last_ingest_at : Option Instant
  pub messages_since_start : ℤ
  pub ingests_since_start : ℤ
  pub last_disposition : Option Text

pub record MarkerRead : Type 0 where
  pub state : Option MarkerState
  pub problem : Option Problem
  pub path : Text

-- `int` of a float: NaN raises a ValueError, an infinity an OverflowError
pub data Truncated : Type 0 where
  truncated : ℤ → Truncated
  not_a_number : Truncated
  infinite : Truncated

-- `int` of a text and of a float
pub record Numerals : Type 0 where
  pub int_of_text : Text → Option ℤ
  pub int_of_float : Text → Truncated

abbrev int_or : Option ℤ → ℤ
int_or none = pos 0
int_or (some z) = z

abbrev truncated_or : Truncated → Result ℤ
truncated_or (truncated z) = ok z
truncated_or not_a_number = ok (pos 0)
truncated_or infinite = err other

unfoldable pub int_or_zero : Numerals → Option Json → Result ℤ
int_or_zero numerals (some (num z)) = ok z
int_or_zero numerals (some (bool true)) = ok (pos 1)
int_or_zero numerals (some (bool false)) = ok (pos 0)
int_or_zero numerals (some (str s)) = ok (int_or (numerals.int_of_text s))
int_or_zero numerals (some (float shown)) = truncated_or (numerals.int_of_float shown)
int_or_zero numerals _ = ok (pos 0)

abbrev pub blind_read : Problem → Text → MarkerRead
blind_read problem label = record { state = none; problem = some problem; path = label }

module _ (iso : Iso) (numerals : Numerals) (label : Text) where
  -- The rest of the fields, for a marker with a start time.
  read_started : Fields → Option Instant → Result MarkerRead
  unfolding int_or_zero
  read_started fields none = ok (blind_read marker_no_start label)
  read_started fields (some started_at) = do
    last_message_at ← parse_iso iso (get (codes "last_message_at") fields)
    last_ingest_at ← parse_iso iso (get (codes "last_ingest_at") fields)
    messages ← int_or_zero numerals (get (codes "messages_since_start") fields)
    ingests ← int_or_zero numerals (get (codes "ingests_since_start") fields)
    ok (record {
      state = some (record {
        started_at = some started_at;
        last_message_at = last_message_at;
        last_ingest_at = last_ingest_at;
        messages_since_start = messages;
        ingests_since_start = ingests;
        last_disposition = text_of (get (codes "last_disposition") fields);
      });
      problem = none;
      path = label;
    })

  unfoldable pub read_marker : FileRead → Result MarkerRead
  unfolding read_started
  read_marker not_found = ok (blind_read marker_not_written label)
  read_marker (os_error class_name) = ok (blind_read (marker_cannot_be_read class_name) label)
  read_marker undecodable = err value_error
  read_marker (contents none) = ok (blind_read marker_not_json label)
  read_marker (contents (some (obj fields))) = do
    started_at ← parse_iso iso (get (codes "started_at") fields)
    read_started fields started_at
  read_marker (contents (some _)) = ok (blind_read marker_wrong_shape label)

-- The fields of `RelayMarker`, but for its path.
pub record RelayMarker : Type 0 where
  pub started_at : Option Text
  pub last_message_at : Option Text
  pub last_ingest_at : Option Text
  pub last_disposition : Option Text
  pub messages : ℕ
  pub ingests : ℕ
  pub warned : Bool

-- `RelayMarker(path)`
abbrev pub new_marker : RelayMarker
new_marker = record {
  started_at = none;
  last_message_at = none;
  last_ingest_at = none;
  last_disposition = none;
  messages = 0;
  ingests = 0;
  warned = false;
}

abbrev pub text_or_null : Option Text → Json
text_or_null none = null
text_or_null (some s) = str s

-- `_payload`
abbrev pub payload : RelayMarker → Json
payload m = obj (
    field (codes "schema") (num (pos 1)) (
      field (codes "started_at") (text_or_null m.started_at) (
        field (codes "last_message_at") (text_or_null m.last_message_at) (
          field (codes "last_ingest_at") (text_or_null m.last_ingest_at) (
            field (codes "messages_since_start") (num (pos m.messages)) (
              field (codes "ingests_since_start") (num (pos m.ingests))
                (field (codes "last_disposition") (text_or_null m.last_disposition) end)))))))

-- The marker file, its mode, and the temporary files beside it.
pub record Disk : Type 0 where
  pub marker : FileRead
  pub mode : ℕ
  pub temporaries : ℕ

-- What goes wrong in one `_write`: nothing, something before the temporary file is made, or
-- something from then on until the file is replaced, where the temporary file is unlinked or not.
pub data Fault : Type 0 where
  no_fault : Fault
  before_temporary : Fault
  in_temporary : Bool → Fault

-- 0o644
abbrev pub marker_file_mode : ℕ
marker_file_mode = 420

-- `_write`
unfoldable pub write_marker : Fault → RelayMarker → Disk → RelayMarker × Disk
write_marker no_fault m d = (
  m,
  record {
    marker = contents (some (payload m));
    mode = marker_file_mode;
    temporaries = d.temporaries;
  },
)
write_marker before_temporary m d = (record m { warned = true }, d)
write_marker (in_temporary unlinked) m d = (
  record m { warned = true },
  record d { temporaries = if unlinked then d.temporaries else suc d.temporaries },
)

module _ (iso : Iso) (numerals : Numerals) where
  abbrev iso_or_none : Option Instant → Option Text
  iso_or_none none = none
  iso_or_none (some t) = some (shown_iso iso t)

  abbrev restored : Option MarkerState → RelayMarker → RelayMarker
  restored none m = m
  restored (some prior) m = record m {
    last_message_at = iso_or_none prior.last_message_at;
    last_ingest_at = iso_or_none prior.last_ingest_at;
    last_disposition = prior.last_disposition;
  }

  -- `record_start`; what `read_marker` raises, it raises.
  unfoldable pub record_start :
      Text → Instant → Fault → RelayMarker → Disk → Result (RelayMarker × Disk)
  unfolding write_marker
  record_start label now fault m d = do
    prior ← read_marker iso numerals label d.marker
    ok (
        write_marker fault
          (record (restored prior.state m) {
            started_at = some (shown_iso iso now);
            messages = 0;
            ingests = 0;
          })
          d)

unfoldable pub record_ingest : Iso → Instant → Fault → RelayMarker → Disk → RelayMarker × Disk
unfolding write_marker
record_ingest iso now fault m d =
    write_marker fault
      (record m {
        ingests = suc m.ingests;
        messages = suc m.messages;
        last_ingest_at = some (shown_iso iso now);
        last_message_at = some (shown_iso iso now);
        last_disposition = some (codes "ack");
      })
      d

unfoldable pub record_message :
    Iso → Text → Instant → Fault → RelayMarker → Disk → RelayMarker × Disk
unfolding write_marker
record_message iso disposition now fault m d =
    write_marker fault
      (record m {
        messages = suc m.messages;
        last_message_at = some (shown_iso iso now);
        last_disposition = some disposition;
      })
      d
