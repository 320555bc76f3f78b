-- ===== src/Writer/Core/Batch.antt =====
-- A batch is collapsed to one payload for each natural key.
use fleet_memory.Prelude.{
  or_else, ◌≡◌, refl, List, [], ◌∷◌, Option, none, some, Text, text_eq, text_eq_iff, arith,
  if◌then◌else◌, Bool-cases, inl, inr, map, ◌∙◌, ◌||◌, text_mem,
}
use fleet_memory.Payloads.Base.{Payload, natural_key}
use fleet_memory.Payloads.Base.Collapse.{Distinct}
use fleet_memory.Writer.Core.{collapse_into, collapse_batch}

abbrev keys : List Payload → List Text
keys ps = map natural_key ps

-- The first payload in the list with the key.
abbrev pub find : Text → List Payload → Option Payload
find k [] = none
find k (p ∷ ps) = if text_eq (natural_key p) k then some p else find k ps

-- The last payload in the list with the key.
abbrev pub find_last : Text → List Payload → Option Payload
find_last k [] = none
find_last k (p ∷ ps) = or_else (find_last k ps) (if text_eq (natural_key p) k then some p else none)

find-collapse_into :
    (k : Text) (p : Payload) (qs : List Payload)
    → find k (collapse_into p qs) ≡ (if text_eq (natural_key p) k then some p else find k qs)
unfolding collapse_into
find-collapse_into k p [] = refl
find-collapse_into k p (q ∷ qs) = ground (
  arith,
  find-collapse_into k p qs,
  text_eq_iff (natural_key q) (natural_key p),
  text_eq_iff (natural_key q) k,
  text_eq_iff (natural_key p) k,
)

text_mem-collapse_into :
    (k : Text) (p : Payload) (qs : List Payload)
    → text_mem k (keys (collapse_into p qs)) ≡ (text_eq (natural_key p) k || text_mem k (keys qs))
unfolding collapse_into
text_mem-collapse_into k p [] = ground arith
text_mem-collapse_into k p (q ∷ qs) = ground (
  arith,
  text_mem-collapse_into k p qs,
  text_eq_iff (natural_key q) (natural_key p),
  text_eq_iff (natural_key q) k,
  text_eq_iff (natural_key p) k,
)

Distinct-collapse_into :
    (p : Payload) (qs : List Payload) → Distinct (keys qs) → Distinct (keys (collapse_into p qs))
unfolding collapse_into
Distinct-collapse_into p [] d = (refl, tt)
Distinct-collapse_into p (q ∷ qs) (fresh, d) =
    elim (Bool-cases (text_eq (natural_key q) (natural_key p))) [
      | inl same ↦ rw same (rw (← (text_eq_iff (natural_key q) (natural_key p)).0 same) fresh, d)
      | inr other ↦ rw other (
        ground (
          arith,
          text_mem-collapse_into (natural_key q) p qs,
          text_eq_iff (natural_key q) (natural_key p),
          text_eq_iff (natural_key p) (natural_key q),
        ),
        Distinct-collapse_into p qs d,
      )
    ]

find-collapse_batch :
    (k : Text) (seen ps : List Payload)
    → find k (collapse_batch seen ps) ≡ or_else (find_last k ps) (find k seen)
unfolding collapse_batch
find-collapse_batch k seen [] = refl
find-collapse_batch k seen (p ∷ ps) =
    ground (arith, find-collapse_batch k (collapse_into p seen) ps, find-collapse_into k p seen)

Distinct-collapse_batch :
    (seen ps : List Payload) → Distinct (keys seen) → Distinct (keys (collapse_batch seen ps))
unfolding collapse_batch
Distinct-collapse_batch seen [] d = d
Distinct-collapse_batch seen (p ∷ ps) d =
    Distinct-collapse_batch (collapse_into p seen) ps (Distinct-collapse_into p seen d)

-- A collapsed batch has each natural key once, and for each key the payload of its last occurrence
-- in the batch.
pub collapse_batch_lem :
    (ps : List Payload)
    → Distinct (map natural_key (collapse_batch [] ps))
      × ((k : Text) → find k (collapse_batch [] ps) ≡ find_last k ps)
collapse_batch_lem ps =
    (Distinct-collapse_batch [] ps tt, λ k. find-collapse_batch k [] ps ∙ ground arith)
