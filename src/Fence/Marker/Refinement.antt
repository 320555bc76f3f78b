-- ===== src/Fence/Marker/Refinement.antt =====
-- The marker against an abstract history: whatever the relay does, over restarts and failed writes,
-- the reader sees the history as it was when the file was last replaced.
use fleet_memory.Prelude.{
  ◌≡◌, refl, sym, ap, ◌∙◌, Bool, false, List, [], ◌∷◌, ◌++◌, Option, none, some, Text, codes,
}
use fleet_memory.Errors.{Result, ok, ◌>>=◌}
use fleet_memory.Fence.Time.{Instant, Iso, shown_iso}
use fleet_memory.Fence.Files.{not_found}
use fleet_memory.Fence.Marker.{
  MarkerRead, Numerals, read_marker, RelayMarker, new_marker, Disk, Fault, no_fault,
  before_temporary, in_temporary, write_marker, record_ingest, record_message, restored,
}
use fleet_memory.Fence.Marker.History.{
  IsoLaws, History, Known, Event, relay_start, relay_ingest, relay_message, since, known_after,
  ingested, messaged, happens, replay, seen, perform, perform_all, perform_rest,
}
use fleet_memory.Fence.Marker.Saved.{
  Whole, SavedWhole, to_second_twice, marker_of, file_of, read_file,
}

module _ (iso : Iso) (laws : IsoLaws iso) (numerals : Numerals) (label : Text) where
  -- The process and its file agree with what is known.
  record Agrees (k : Known) (m : RelayMarker) (d : Disk) : Type 0 where
    memory : m ≡ record (marker_of iso laws numerals label k.current) { warned = m.warned }
    file : d.marker ≡ file_of iso laws numerals label k.saved
    whole : Whole k.current
    saved_whole : SavedWhole k.saved

  Agrees-write_marker :
      (fault : Fault) (h : History) (saved : Option History) (w : Bool) (d : Disk)
      → d.marker ≡ file_of iso laws numerals label saved
      → Whole h
      → SavedWhole saved
      → let written =
          write_marker fault (record (marker_of iso laws numerals label h) { warned = w }) d in
        Agrees (known_after fault h saved) written.0 written.1
  unfolding write_marker
  Agrees-write_marker no_fault h saved w d f wh ws = record {
    memory = refl;
    file = refl;
    whole = wh;
    saved_whole = wh;
  }
  Agrees-write_marker before_temporary h saved w d f wh ws = record {
    memory = refl;
    file = f;
    whole = wh;
    saved_whole = ws;
  }
  Agrees-write_marker (in_temporary unlinked) h saved w d f wh ws = record {
    memory = refl;
    file = f;
    whole = wh;
    saved_whole = ws;
  }

  since-Whole :
      (now : Instant) (saved : Option History) → SavedWhole saved → Whole (since now saved)
  since-Whole now none w = record {
    started_whole = to_second_twice now;
    message_whole = tt;
    ingest_whole = tt;
  }
  since-Whole now (some h) w = record {
    started_whole = to_second_twice now;
    message_whole = w.message_whole;
    ingest_whole = w.ingest_whole;
  }

  -- What `perform` does in an agreeing state, it does in the marker of the history.
  abbrev Performs : Event → Known → RelayMarker → Disk → Type 0
  Performs e k m d =
      (m' : RelayMarker) × (d' : Disk) × (perform iso numerals label e m d ≡ ok (m', d'))
      × Agrees (happens e k) m' d'

  start_memory :
      (now : Instant) (saved : Option History)
      → record (restored iso numerals (seen label saved).state new_marker) {
        started_at = some (shown_iso iso now);
        messages = 0;
        ingests = 0;
      }
        ≡ marker_of iso laws numerals label (since now saved)
  start_memory now none = rw (laws.coarse now) refl
  start_memory now (some h) = rw (laws.coarse now) refl

  perform-Agrees :
      (e : Event) (k : Known) (m : RelayMarker) (d : Disk) → Agrees k m d → Performs e k m d
  unfolding perform
  perform-Agrees (relay_start now fault) k m d a =
      let h = since now k.saved in
      let written = write_marker fault (marker_of iso laws numerals label h) d in
      let restart : MarkerRead → Result (RelayMarker × Disk) = λ prior. ok (
        write_marker fault
          (record (restored iso numerals prior.state new_marker) {
            started_at = some (shown_iso iso now);
            messages = 0;
            ingests = 0;
          })
          d) in
      (
        written.0,
        written.1,
        ap (λ r. r >>= restart)
              (ap (read_marker iso numerals label) a.file
                ∙ read_file iso laws numerals label k.saved a.saved_whole)
            ∙ ap (λ x. ok (write_marker fault x d)) (start_memory now k.saved),
        Agrees-write_marker fault h k.saved false d a.file (since-Whole now k.saved a.saved_whole)
            a.saved_whole,
      )
  perform-Agrees (relay_ingest now fault) k m d a =
      let h = ingested now k.current in
      let written =
        write_marker fault (record (marker_of iso laws numerals label h) { warned = m.warned }) d in
      let at : Text → RelayMarker = λ s. record (marker_of iso laws numerals label h) {
        last_message_at = some (s ++ codes "Z");
        last_ingest_at = some (s ++ codes "Z");
        warned = m.warned;
      } in
      (
        written.0,
        written.1,
        ap (λ x. ok (record_ingest iso now fault x d)) a.memory
            ∙ ap (λ s. ok (write_marker fault (at s) d)) (sym (laws.coarse now)),
        Agrees-write_marker fault h k.saved m.warned d a.file
            (record {
              started_whole = a.whole.started_whole;
              message_whole = to_second_twice now;
              ingest_whole = to_second_twice now;
            })
            a.saved_whole,
      )
  perform-Agrees (relay_message disposition now fault) k m d a =
      let h = messaged disposition now k.current in
      let written =
        write_marker fault (record (marker_of iso laws numerals label h) { warned = m.warned }) d in
      let at : Text → RelayMarker = λ s. record (marker_of iso laws numerals label h) {
        last_message_at = some (s ++ codes "Z");
        warned = m.warned;
      } in
      (
        written.0,
        written.1,
        ap (λ x. ok (record_message iso disposition now fault x d)) a.memory
            ∙ ap (λ s. ok (write_marker fault (at s) d)) (sym (laws.coarse now)),
        Agrees-write_marker fault h k.saved m.warned d a.file
            (record {
              started_whole = a.whole.started_whole;
              message_whole = to_second_twice now;
              ingest_whole = a.whole.ingest_whole;
            })
            a.saved_whole,
      )

  perform_all-Agrees :
      (es : List Event) (k : Known) (m : RelayMarker) (d : Disk)
      → Agrees k m d
      → (m' : RelayMarker) × (d' : Disk) × (perform_all iso numerals label es m d ≡ ok (m', d'))
        × Agrees (replay es k) m' d'
  unfolding perform_all perform_rest replay
  perform_all-Agrees [] k m d a = (m, d, refl, a)
  perform_all-Agrees (e ∷ es) k m d a =
      let (m1, d1, performed, a1) = perform-Agrees e k m d a in
      let (m2, d2, later, a2) = perform_all-Agrees es (happens e k) m1 d1 a1 in
      (m2, d2, ap (λ r. r >>= perform_rest iso numerals label es) performed ∙ later, a2)

  -- After a start of the relay without a marker file, and whatever it does then (messages, ingests,
  -- restarts, writes that fail), no call has raised, and the reader sees the history as it was at
  -- the last write that did not fail: the start, the times of the last message and ingest over
  -- restarts, to the second, the counts since the start, and the last disposition; or, if no write
  -- has succeeded, that there is no marker.
  pub perform_all_refines :
      (es : List Event) (now : Instant) (fault : Fault) (m : RelayMarker) (d : Disk)
      → d.marker ≡ not_found
      → (m' : RelayMarker) × (d' : Disk) × (perform_all iso numerals label
            (relay_start now fault ∷ es)
            m
            d
          ≡ ok (m', d'))
        × (read_marker iso numerals label d'.marker
            ≡ ok (seen label (replay es (known_after fault (since now none) none)).saved))
  unfolding perform_all perform_rest perform
  perform_all_refines es now fault m d none_there =
      let unknown : Known = record { current = since now none; saved = none } in
      let a : Agrees unknown (marker_of iso laws numerals label (since now none)) d = record {
        memory = refl;
        file = none_there;
        whole = since-Whole now none tt;
        saved_whole = tt;
      } in
      let (m1, d1, performed, a1) =
        perform-Agrees (relay_start now fault) unknown
          (marker_of iso laws numerals label (since now none)) d a in
      let (m2, d2, later, a2) =
        perform_all-Agrees es (happens (relay_start now fault) unknown) m1 d1 a1 in
      (
        m2,
        d2,
        ap (λ r. r >>= perform_rest iso numerals label es) performed ∙ later,
        ap (read_marker iso numerals label) a2.file
            ∙ read_file iso laws numerals label
                (replay es (happens (relay_start now fault) unknown)).saved a2.saved_whole,
      )
