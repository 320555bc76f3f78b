-- ===== src/Fence/Tests.antt =====
-- The fence on concrete files, receipts and facts.
use fleet_memory.Prelude.{
  ℕ, ◌&&◌, ◌+◌, ◌-◌, ◌*◌, ◌/◌, ◌≡◌, refl, ◌↔◌, ◌⊎◌, Bool, true, false, List, [], ◌∷◌, ◌++◌, Option,
  none, some, Text, codes, text_eq, leb, length, arith, if◌then◌else◌,
}
use fleet_memory.Errors.{Error, Result, ok, err, value_error}
use fleet_memory.Json.{obj, str, arr, cons, nil, field, end}
use fleet_memory.Fence.Time.{Iso, IsoRead, not_iso, instant, Instant, second}
use fleet_memory.Fence.Files.{FileRead, not_found, undecodable, contents, get}
use fleet_memory.Fence.Ack.{AckState, holds, read_ack}
use fleet_memory.Fence.Ack.Bounds.{Acknowledged, read_ack-holds_iff}
use fleet_memory.Fence.Marker.{
  Numerals, not_a_number, RelayMarker, new_marker, Disk, no_fault, before_temporary, read_marker,
}
use fleet_memory.Fence.Marker.History.{
  IsoLaws, relay_start, relay_ingest, relay_message, replay, seen, perform_all,
}
use fleet_memory.Fence.Marker.Refinement.{perform_all_refines}
use fleet_memory.Fence.Builds.{BuildScan, Entry, listed, scan_builds, finished_within}
use fleet_memory.Fence.Builds.Scan.{
  Exists, Unreadable, IsSorted, count_finished, scan_builds-listed,
}
use fleet_memory.Fence.StoreAge.{exact_prefix}
use fleet_memory.Fence.StoreAge.Like.{selects, selects_iff}

-- Timestamps of one character, a thousand above their seconds.
abbrev seconds_of : Text → IsoRead
seconds_of [] = not_iso
seconds_of (c ∷ s) = instant ((c - 1000) * second)

abbrev iso : Iso
iso = record { from_iso = seconds_of; show = λ t. (t / second + 1000) ∷ [] }

iso-laws : IsoLaws iso
iso-laws = record {
  no_z = λ t. ((λ e. absurd (omega (arith, e))), tt);
  reads_back = λ t. ground arith;
  coarse = λ t. ground arith;
}

abbrev numerals : Numerals
numerals = record { int_of_text = λ s. none; int_of_float = λ s. not_a_number }

abbrev empty_disk : Disk
empty_disk = record { marker = not_found; mode = 0; temporaries = 0 }

perform_all_refines_example :
    (m : RelayMarker) × (d : Disk) × (perform_all iso numerals
        (codes "m")
        (relay_start 5000000 no_fault
          ∷ relay_ingest 6500000 no_fault
          ∷ relay_start 8000000 no_fault
          ∷ relay_message (codes "dlq") 9000000 before_temporary
          ∷ [])
        new_marker
        empty_disk
      ≡ ok (m, d))
    × (read_marker iso numerals (codes "m") d.marker
        ≡ ok (
            seen (codes "m") (
              some (record {
                started = 8000000;
                last_message = some 6000000;
                last_ingest = some 6000000;
                messages = 0;
                ingests = 0;
                disposition = some (codes "ack");
              }))))
unfolding replay
perform_all_refines_example =
    perform_all_refines iso iso-laws numerals (codes "m")
      (relay_ingest 6500000 no_fault
        ∷ relay_start 8000000 no_fault
        ∷ relay_message (codes "dlq") 9000000 before_temporary
        ∷ [])
      5000000 no_fault new_marker empty_disk refl

abbrev broken_disk : Disk
broken_disk = record { marker = undecodable; mode = 0; temporaries = 0 }

-- A date is its number of characters.
abbrev day_of : Text → Option ℕ
day_of s = some (length s)

abbrev ack_file : FileRead
ack_file = contents (
    some (
      obj (
        field (codes "reason") (str (codes "known")) (
          field (codes "until") (str (codes "dddddddd"))
            (field (codes "checks") (arr (cons (str (codes "relay_idle")) nil)) end)))))

read_ack_active :
    (a : AckState) × (read_ack day_of (codes "ack") ack_file 5 ≡ ok a)
    × (holds a (codes "relay_idle") ≡ true)
unfolding read_ack holds text_eq get
read_ack_active = (_, refl, refl)

read_ack-holds_iff_example :
    ((a : AckState) × (read_ack day_of (codes "ack") ack_file 5 ≡ ok a)
      × (holds a (codes "relay_idle") ≡ true))
    ↔ Acknowledged day_of ack_file 5 (codes "relay_idle")
read_ack-holds_iff_example = read_ack-holds_iff day_of (codes "ack") ack_file 5 (codes "relay_idle")

selects_iff_example : (selects (codes "a_b") (codes "fleet_memory.axb.adr") ≡ true) ↔ (
    (codes "fleet_memory.axb.adr" ≡ exact_prefix (codes "a_b"))
    ⊎ ((rest : Text) × (codes "fleet_memory.axb.adr"
          ≡ exact_prefix (codes "a_b") ++ (b'.' ∷ rest))))
selects_iff_example = selects_iff (codes "a_b") (codes "fleet_memory.axb.adr")

abbrev is_digit : ℕ → Bool
is_digit c = leb b'0' c && leb c b'9'

-- A stamp of all zeros is out of range in universal time.
abbrev stamp : Text → Result (Option Instant)
stamp s = if text_eq s (codes "00000000000000") then err value_error else ok (some (length s))

abbrev entries : List Entry
entries =
    record { name = codes "build-FEAT-1-20260101000000"; is_dir = some true; mtime = ok (some 14) }
    ∷ record { name = codes "notes"; is_dir = some true; mtime = ok none }
    ∷ record { name = codes "build-x.txt"; is_dir = some false; mtime = ok none }
    ∷ []

abbrev scan_found : BuildScan
scan_found = record {
  receipts =
      record {
        name = codes "build-FEAT-1-20260101000000";
        feature = codes "FEAT-1";
        finished_at = 14;
        skewed = false;
      }
      ∷ [];
  malformed = codes "notes" ∷ [];
  skewed = [];
  problem = none;
  path = codes "b";
}

scan_builds_scanned : scan_builds is_digit stamp (codes "b") (listed entries) ≡ ok scan_found
unfolding scan_builds text_eq
scan_builds_scanned = refl

-- One name stops the scan_found of a directory with a build in it.
scan_builds_stopped :
    scan_builds is_digit stamp (codes "b") (
      listed (
        record { name = codes "build-x-00000000000000"; is_dir = some true; mtime = ok none }
        ∷ entries))
    ≡ err value_error
unfolding scan_builds text_eq
scan_builds_stopped = refl

scan_builds-listed_example :
    ((s : BuildScan) × (scan_builds is_digit stamp (codes "b") (listed entries) ≡ ok s)
      × IsSorted s.receipts
      × (length (finished_within 20 10 s)
          ≡ count_finished is_digit stamp (λ t. leb 20 (t + 10)) entries))
    ⊎ ((e : Error) × (scan_builds is_digit stamp (codes "b") (listed entries) ≡ err e)
        × Exists (Unreadable is_digit stamp e) entries)
scan_builds-listed_example = scan_builds-listed is_digit stamp (codes "b") entries 20 10
