-- ===== src/Writer/Supersession.antt =====
-- writer/supersession.py: marking predecessors as superseded, and looking for a successor that was
-- written before its predecessor.
pub mod Marks
pub mod Pages
use fleet_memory.Prelude.{
  ℕ, zero, suc, ◌+◌, Bool, false, List, [], ◌∷◌, Option, none, some, Text, text_mem, codes, ltb,
  if◌then◌else◌, length, split,
}
use fleet_memory.Errors.{Result, ok, err, value_error, endless}
use fleet_memory.Exec.{Exec, pure, raise, read, write_to, ◌>>=◌, ◌>>◌}
use fleet_memory.Payloads.Base.{colon}
use fleet_memory.Store.Value.{Value}
use fleet_memory.Store.Api.{Address, StoreApi}
use fleet_memory.Writer.Identity.{Digests, record_identity}

abbrev pub forward_page : ℕ
forward_page = 100

-- The address that the three segments of a key name.
unfoldable pub segments_address : Digests → Text → List Text → Option Address
segments_address d key (payload_type ∷ project ∷ identifier ∷ []) = some (record {
  namespace = codes "fleet_memory" ∷ project ∷ payload_type ∷ [];
  key = record_identity d key;
})
segments_address d key _ = none

unfoldable pub predecessor_address : Digests → Text → Option Address
unfolding segments_address
predecessor_address d key = segments_address d key (split colon key)

abbrev pub mark : Text → Value → Value
mark successor value = record value { superseded_by = some successor }

-- The value declares that it supersedes the key.
unfoldable pub declares : Text → Value → Bool
declares natural_key value = elim value.supersedes [
  | none ↦ false
  | some supersedes_list ↦ text_mem natural_key supersedes_list
]

-- The loop over one page: the first value that declares it, if any does.
unfoldable pub first_declaring : Text → List Value → Option Value
unfolding declares
first_declaring natural_key [] = none
first_declaring natural_key (value ∷ rest) =
    if declares natural_key value then some value else first_declaring natural_key rest

module _ (api : StoreApi) (d : Digests) where
  unfoldable pub mark_existing : Text → Address → Option Value → Exec api.State (Unit {0})
  mark_existing successor a none = pure tt
  mark_existing successor a (some existing) = write_to (api.aput a (mark successor existing))

  -- One round of the loop over the predecessors.
  unfoldable pub mark_predecessor : Text → Option Address → Exec api.State (Unit {0})
  unfolding mark_existing
  mark_predecessor successor none = raise value_error
  mark_predecessor successor (some a) = do
    existing ← read (api.aget a)
    mark_existing successor a existing

  unfoldable pub apply_supersessions : Text → List Text → Exec api.State (Unit {0})
  apply_supersessions successor [] = pure tt
  apply_supersessions successor (key ∷ rest) = do
    mark_predecessor successor (predecessor_address d key)
    apply_supersessions successor rest

-- What one page settles; `none` asks for the next page.
unfoldable pub settle_page : Text → List Value → Option Value → Option (Option Text)
settle_page natural_key results (some value) = some value.natural_key
settle_page natural_key results none = if ltb (length results) forward_page then some none else none

-- `except Exception: pass`; a loop that does not end is no exception.
unfoldable pub answer_or_none : Result (Option Text) → Result (Option Text)
answer_or_none (ok answer) = ok answer
answer_or_none (err endless) = err endless
answer_or_none (err e) = ok none

-- `if superseded_by:`
abbrev pub mark_if_found : Option Text → Value → Value
mark_if_found none value = value
mark_if_found (some []) value = value
mark_if_found (some (c ∷ successor)) value = mark (c ∷ successor) value

module _ (api : StoreApi) where
  -- The `while True` loop, from an offset; `endless` where the rounds ran out.
  unfoldable pub scan_pages : ℕ → ℕ → Text → List Text → api.State → Result (Option Text)
  scan_pages zero offset natural_key namespace s = err endless
  scan_pages (suc fuel) offset natural_key namespace s =
      let later = scan_pages fuel (offset + forward_page) natural_key namespace s in
      elim (api.asearch namespace forward_page offset s) [
        | err e ↦ err e
        | ok results ↦
            elim (settle_page natural_key results (first_declaring natural_key results)) [
              | none ↦ later
              | some answer ↦ ok answer
            ]
      ]

  -- `_apply_forward_supersessions`; each round but the last consumes a page of the namespace.
  unfoldable pub forward_supersession : Text → List Text → api.State → Result (Option Text)
  forward_supersession natural_key namespace s =
      answer_or_none (scan_pages (suc (length (api.items s namespace))) 0 natural_key namespace s)

  abbrev pub marked_with : Value → Result (Option Text) → Result Value
  marked_with value (ok superseded_by) = ok (mark_if_found superseded_by value)
  marked_with value (err e) = err e

  unfoldable pub check_and_apply_forward_supersession :
      Text → List Text → Value → api.State → Result Value
  check_and_apply_forward_supersession natural_key namespace current_value s =
      marked_with current_value (forward_supersession natural_key namespace s)
