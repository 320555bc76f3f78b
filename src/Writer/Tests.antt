-- ===== src/Writer/Tests.antt =====
-- Runs of the writer's theorems on a store in memory, with digests that leave the text as it is.
use fleet_memory.Prelude.{◌≡◌, refl, [], ◌∷◌, none, some, codes, pos, Text, text_eq}
use fleet_memory.Errors.{ok, Result}
use fleet_memory.Json.{dumps}
use fleet_memory.Payloads.Norm.{is_namespace_part}
use fleet_memory.Payloads.Models.{warning, payload_type, kind_of}
use fleet_memory.Payloads.Registry.{is_registered}
use fleet_memory.Payloads.Norm.{is_identifier}
use fleet_memory.Payloads.BackwardEdge.{run_validators}
use fleet_memory.Payloads.Base.WellFormed.{IsWellFormed}
use fleet_memory.Writer.Core.Totality.{StoreWorks, write_total}
use fleet_memory.Payloads.Base.{is_key_shaped, Payload, natural_key}
use fleet_memory.Store.{validate_namespace}
use fleet_memory.Store.Value.{Value, empty_value}
use fleet_memory.Store.Api.{Address, address_eq, namespace_eq}
use fleet_memory.Store.Memory.{memory_store, memory_store-laws, lookup, put, items}
use fleet_memory.Writer.Identity.{
  Digests, record_identity, content_hash, without_version, model_dump,
}
use fleet_memory.Writer.Supersession.{
  mark, apply_supersessions, forward_supersession, first_declaring, predecessor_address,
  check_and_apply_forward_supersession, segments_address, declares, mark_existing, mark_predecessor,
  settle_page, answer_or_none, scan_pages,
}
use fleet_memory.Writer.Supersession.Pages.{key_of, forward_supersession_lem}
use fleet_memory.Writer.Core.{
  payload_namespace, payload_address, stored_value, write_record, upsert, write_registered, write,
}
use fleet_memory.Writer.Core.Outcome.{Wrote, write-Wrote}
use fleet_memory.Writer.Core.Effects.{write_again, update_forgets_mark}

abbrev plain_digests : Digests
plain_digests = record { sha256_hex = λ t. t; uuid5 = λ t. t }

abbrev disk_warning : Text → Payload
disk_warning message = record {
  project = codes "guardkit";
  identifier = codes "D1";
  domain_tags = [];
  source_ref = codes "d";
  version = pos 1;
  supersedes = codes "warning:other:D0" ∷ [];
  body = warning (codes "high") message;
}

abbrev full : Payload
full = disk_warning (codes "full")

abbrev marked_value : Value
marked_value = record empty_value {
  content_hash = some (codes "old");
  version = some 4;
  superseded_by = some (codes "warning:other:D2");
}

abbrev predecessor : Address
predecessor = record {
  namespace = codes "fleet_memory" ∷ codes "other" ∷ codes "warning" ∷ [];
  key = codes "warning:other:D0";
}

abbrev before : memory_store.State
before = (payload_address plain_digests full, marked_value) ∷ (predecessor, empty_value) ∷ []

-- The store after the predecessor is marked.
abbrev marked_before : memory_store.State
marked_before =
    (payload_address plain_digests full, marked_value)
    ∷ (predecessor, mark (natural_key full) empty_value)
    ∷ []

abbrev full_hash : Text
full_hash =
    codes
      "{\"domain_tags\":[],\"identifier\":\"D1\",\"message\":\"full\",\"natural_key\":\"warning:guardkit:D1\",\"project\":\"guardkit\",\"severity\":\"high\",\"source_ref\":\"d\",\"supersedes\":[\"warning:other:D0\"]}"

abbrev run : Payload → memory_store.State → Result (Unit {0}) × memory_store.State
run p s = write memory_store plain_digests p none s

abbrev after : memory_store.State
after = (run full before).1

-- The two writes return.
full_written : run full before ≡ (ok tt, after)
unfolding write write_registered upsert write_record apply_supersessions mark_predecessor
    mark_existing stored_value check_and_apply_forward_supersession forward_supersession scan_pages
    answer_or_none settle_page first_declaring declares predecessor_address segments_address
    content_hash without_version model_dump dumps record_identity validate_namespace is_registered
    payload_type kind_of natural_key is_namespace_part lookup put items address_eq namespace_eq
    text_eq
full_written = refl

again_written : run full after ≡ (ok tt, (run full after).1)
unfolding write write_registered upsert write_record apply_supersessions mark_predecessor
    mark_existing stored_value check_and_apply_forward_supersession forward_supersession scan_pages
    answer_or_none settle_page first_declaring declares predecessor_address segments_address
    content_hash without_version model_dump dumps record_identity validate_namespace is_registered
    payload_type kind_of natural_key is_namespace_part lookup put items address_eq namespace_eq
    text_eq
again_written = refl

full_hashed : content_hash plain_digests full ≡ ok full_hash
unfolding content_hash without_version model_dump dumps text_eq payload_type kind_of natural_key
full_hashed = refl

full_marks :
    apply_supersessions memory_store plain_digests (natural_key full) full.supersedes before
    ≡ (ok tt, marked_before)
unfolding apply_supersessions mark_predecessor mark_existing predecessor_address segments_address
    record_identity lookup put address_eq namespace_eq text_eq payload_type kind_of natural_key
full_marks = refl

full_found : lookup before (payload_address plain_digests full) ≡ some marked_value
unfolding lookup address_eq namespace_eq record_identity natural_key payload_type kind_of text_eq
full_found = refl

forward_supersession_lem_example :
    forward_supersession memory_store (codes "warning:other:D0") (payload_namespace full) before
    ≡ ok (
        key_of (first_declaring (codes "warning:other:D0") (items before (payload_namespace full))))
forward_supersession_lem_example =
    forward_supersession_lem memory_store (codes "warning:other:D0") (payload_namespace full) before
      (λ offset. refl)

write-Wrote_example : Wrote memory_store plain_digests full full_hash none before after
write-Wrote_example =
    write-Wrote memory_store plain_digests memory_store-laws full full_hash none before after
      full_hashed full_written

write_again_example : lookup (run full after).1 predecessor ≡ lookup after predecessor
write_again_example =
    write_again memory_store plain_digests memory_store-laws full full_hash none none before after
      (run full after).1 full_hashed full_written again_written predecessor

update_forgets_mark_example :
    (v : Value) × (lookup after (payload_address plain_digests full) ≡ some v)
    × (v.superseded_by ≡ none)
unfolding forward_supersession scan_pages answer_or_none settle_page first_declaring declares
    predecessor_address segments_address record_identity payload_type kind_of natural_key items
    address_eq namespace_eq text_eq
update_forgets_mark_example =
    update_forgets_mark memory_store plain_digests memory_store-laws full full_hash none before
      after marked_value full_hashed full_found (λ e. cc) refl refl full_written

full-IsWellFormed : IsWellFormed full
unfolding is_identifier is_key_shaped natural_key run_validators text_eq
full-IsWellFormed = record {
  project = refl;
  identifier = refl;
  distinct = (refl, tt);
  shapes = (refl, tt);
  no_self = refl;
  validated = refl;
}

memory_store-Works : StoreWorks memory_store
memory_store-Works = record {
  aget_works = λ a s. (lookup s a, refl);
  aput_works = λ a v s. (put a v s, refl);
  asearch_ends = λ n limit offset s e. cc;
}

write_total_example :
    (t : memory_store.State) × (write memory_store plain_digests full none before ≡ (ok tt, t))
unfolding is_registered payload_type kind_of text_eq is_namespace_part
write_total_example =
    write_total memory_store plain_digests memory_store-laws memory_store-Works full none before
      full-IsWellFormed refl refl
