-- ===== src/Fence/Marker/Raises.antt =====
-- What makes a start of the relay raise: reading the marker does, on bytes that are not UTF-8, on a
-- timestamp that has no instant in UTC, and on an infinite count.
use fleet_memory.Prelude.{◌≡◌, ◌≢◌, refl, ◌⊎◌, inl, inr, Option, none, some, Text, codes}
use fleet_memory.Errors.{Error, Result, ok, err, ◌>>=◌, value_error, >>=-eq-err}
use fleet_memory.Json.{Json, null, bool, num, float, str, datetime, arr, obj, Fields}
use fleet_memory.Fence.Time.{Instant, Iso, parse_iso}
use fleet_memory.Fence.Files.{FileRead, not_found, os_error, undecodable, contents, get}
use fleet_memory.Fence.Marker.{
  MarkerRead, Numerals, int_or_zero, read_started, read_marker, RelayMarker, Disk, Fault,
  record_start,
}

err≢ok {ℓ} : {A : Type ℓ} {a : A} {e : Error} → ok a ≢ err e
err≢ok h = cc

module _ (iso : Iso) (numerals : Numerals) where
  -- The value of a field is one of the two kinds that the reader does not catch.
  abbrev pub Uncaught : Option Json → Type 0
  Uncaught o =
      ((e : Error) × (parse_iso iso o ≡ err e)) ⊎ ((e : Error) × (int_or_zero numerals o ≡ err e))

  abbrev pub Raising : FileRead → Type 0
  Raising f =
      (f ≡ undecodable)
      ⊎ ((fields : Fields) × (f ≡ contents (some (obj fields)))
          × (key : Text) × Uncaught (get key fields))

  module _ (label : Text) where
    read_started_raises :
        (fields : Fields) (o : Option Instant) (e : Error)
        → read_started iso numerals label fields o ≡ err e
        → (key : Text) × Uncaught (get key fields)
    unfolding read_started
    read_started_raises fields none e h = absurd cc
    read_started_raises fields (some t) e h =
        elim (>>=-eq-err (parse_iso iso (get (codes "last_message_at") fields)) _ e h) [
          | inl q ↦ (codes "last_message_at", inl (e, q))
          | inr (a, _, h1) ↦
              elim (>>=-eq-err (parse_iso iso (get (codes "last_ingest_at") fields)) _ e h1) [
                | inl q ↦ (codes "last_ingest_at", inl (e, q))
                | inr (b, _, h2) ↦
                    elim (>>=-eq-err
                      (int_or_zero numerals (get (codes "messages_since_start") fields)) _ e h2) [
                        | inl q ↦ (codes "messages_since_start", inr (e, q))
                        | inr (c, _, h3) ↦
                            elim (>>=-eq-err
                              (int_or_zero numerals (get (codes "ingests_since_start") fields)) _ e
                              h3) [
                                | inl q ↦ (codes "ingests_since_start", inr (e, q))
                                | inr (d, _, h4) ↦ absurd (err≢ok h4)
                              ]
                      ]
              ]
        ]

    start_undecodable :
        {B : Type 0} (f : FileRead)
        → f ≡ undecodable
        → (next : MarkerRead → Result B)
        → (read_marker iso numerals label f >>= next) ≡ err value_error
    unfolding read_marker
    start_undecodable f bytes next = rw bytes refl

    read_marker_raises :
        (f : FileRead) (e : Error) → read_marker iso numerals label f ≡ err e → Raising f
    unfolding read_marker
    read_marker_raises (contents (some (obj fields))) e h =
        elim (>>=-eq-err (parse_iso iso (get (codes "started_at") fields)) _ e h) [
          | inl q ↦ inr (fields, refl, codes "started_at", inl (e, q))
          | inr (o, _, h1) ↦
              let (key, q) = read_started_raises fields o e h1 in inr (fields, refl, key, q)
        ]
    read_marker_raises undecodable e h = inl refl
    read_marker_raises not_found e h = absurd cc
    read_marker_raises (os_error class_name) e h = absurd cc
    read_marker_raises (contents none) e h = absurd cc
    read_marker_raises (contents (some null)) e h = absurd cc
    read_marker_raises (contents (some (bool b))) e h = absurd cc
    read_marker_raises (contents (some (num z))) e h = absurd cc
    read_marker_raises (contents (some (float s))) e h = absurd cc
    read_marker_raises (contents (some (str s))) e h = absurd cc
    read_marker_raises (contents (some (datetime s))) e h = absurd cc
    read_marker_raises (contents (some (arr xs))) e h = absurd cc

    -- `record_start` raises only if the marker file is not UTF-8, or is an object with a field whose
    -- reading raises; and if the file is not UTF-8 it does raise, whatever the write would do.
    pub record_start_raises :
        (now : Instant) (fault : Fault) (m : RelayMarker) (d : Disk)
        → ((e : Error) → record_start iso numerals label now fault m d ≡ err e → Raising d.marker)
          × (d.marker ≡ undecodable
              → record_start iso numerals label now fault m d ≡ err value_error)
    unfolding record_start
    record_start_raises now fault m d = (
      λ e h. elim (>>=-eq-err (read_marker iso numerals label d.marker) _ e h) [
        | inl q ↦ read_marker_raises d.marker e q
        | inr (a, _, h1) ↦ absurd (err≢ok h1)
      ],
      λ bytes. start_undecodable d.marker bytes _,
    )
