-- ===== src/Fence/Marker/Saved.antt =====
-- What a file that was saved shows its reader.
use fleet_memory.Prelude.{
  ◌≡◌, refl, ap, ◌∙◌, false, text_eq, [], ◌∷◌, ◌++◌, Option, none, some, Text, codes, Lacks, arith,
}
use fleet_memory.Errors.{ok}
use fleet_memory.Json.{str}
use fleet_memory.Fence.Time.{Instant, Iso, replace_z, parse_iso, shown_iso, from_read}
use fleet_memory.Fence.Files.{FileRead, not_found, contents, get}
use fleet_memory.Fence.Ack.{text_of}
use fleet_memory.Fence.Marker.{
  Numerals, int_or_zero, read_started, read_marker, RelayMarker, text_or_null, payload, iso_or_none,
}
use fleet_memory.Fence.Marker.History.{IsoLaws, History, to_second, seen}

abbrev pub IsWhole : Instant → Type 0
IsWhole t = to_second t ≡ t

abbrev pub AllWhole : Option Instant → Type 0
AllWhole none = Unit {0}
AllWhole (some t) = IsWhole t

pub record Whole (h : History) : Type 0 where
  pub started_whole : IsWhole h.started
  pub message_whole : AllWhole h.last_message
  pub ingest_whole : AllWhole h.last_ingest

abbrev pub SavedWhole : Option History → Type 0
SavedWhole none = Unit {0}
SavedWhole (some h) = Whole h

pub to_second_twice : (t : Instant) → IsWhole (to_second t)
to_second_twice t = omega arith

replace_z-append : (s : Text) → Lacks b'Z' s → replace_z (s ++ codes "Z") ≡ s ++ codes "+00:00"
unfolding replace_z
replace_z-append [] h = refl
replace_z-append (c ∷ s) (n, h) = ground (arith, replace_z-append s h)

module _ (iso : Iso) (laws : IsoLaws iso) (numerals : Numerals) (label : Text) where
  parse_marked :
      (s : Text)
      → parse_iso iso (some (str (s ++ codes "Z")))
        ≡ from_read iso (iso.from_iso (replace_z (s ++ codes "Z")))
  unfolding parse_iso
  parse_marked [] = refl
  parse_marked (c ∷ s) = refl

  parse_shown :
      (t : Instant) → IsWhole t → parse_iso iso (some (str (shown_iso iso t))) ≡ ok (some t)
  parse_shown t h =
      parse_marked (iso.show t)
      ∙ ap (λ s. from_read iso (iso.from_iso s)) (replace_z-append (iso.show t) (laws.no_z t))
      ∙ ap (from_read iso) (laws.reads_back t)
      ∙ ap (λ x. ok (some x)) h

  parse_option :
      (o : Option Instant)
      → AllWhole o
      → parse_iso iso (some (text_or_null (iso_or_none iso numerals o))) ≡ ok o
  parse_option none h = unfold parse_iso in refl
  parse_option (some t) h = parse_shown t h

  abbrev pub marker_of : History → RelayMarker
  marker_of h = record {
    started_at = some (shown_iso iso h.started);
    last_message_at = iso_or_none iso numerals h.last_message;
    last_ingest_at = iso_or_none iso numerals h.last_ingest;
    last_disposition = h.disposition;
    messages = h.messages;
    ingests = h.ingests;
    warned = false;
  }

  abbrev pub file_of : Option History → FileRead
  file_of none = not_found
  file_of (some h) = contents (some (payload (marker_of h)))

  text_of_null : (o : Option Text) → text_of (some (text_or_null o)) ≡ o
  text_of_null none = refl
  text_of_null (some s) = refl

  pub read_file :
      (saved : Option History)
      → SavedWhole saved
      → read_marker iso numerals label (file_of saved) ≡ ok (seen label saved)
  unfolding read_marker read_started get text_eq int_or_zero
  read_file none w = refl
  read_file (some h) w = rw (parse_shown h.started w.started_whole) (
      rw (parse_option h.last_message w.message_whole)
        (rw (parse_option h.last_ingest w.ingest_whole) (rw (text_of_null h.disposition) refl)))
