-- ===== src/Reindex/Audit/Tests.antt =====
-- An audit that misses an episode, and one behind a write.
use fleet_memory.Prelude.{
  ◌+◌, ◌≡◌, refl, ◌↔◌, true, false, [], ◌∷◌, none, some, Text, text_eq, codes, if◌then◌else◌, pos,
  Option, All,
}
use fleet_memory.Errors.{Result, ok}
use fleet_memory.Json.{dumps}
use fleet_memory.Payloads.Norm.{is_identifier, is_identifier_char, is_namespace_part}
use fleet_memory.Payloads.Models.{warning, kind_of, payload_type}
use fleet_memory.Payloads.BackwardEdge.{run_validators}
use fleet_memory.Payloads.Registry.{is_registered}
use fleet_memory.Payloads.Base.{Payload, natural_key}
use fleet_memory.Payloads.Base.WellFormed.{IsWellFormed}
use fleet_memory.Store.{validate_namespace}
use fleet_memory.Store.Value.{Value, empty_value}
use fleet_memory.Store.Api.{Address, address_eq, namespace_eq}
use fleet_memory.Store.Memory.{memory_store, memory_store-laws, lookup, put, items}
use fleet_memory.Writer.Identity.{
  Digests, record_identity, content_hash, without_version, model_dump,
}
use fleet_memory.Writer.Supersession.{
  apply_supersessions, forward_supersession, first_declaring, predecessor_address,
  check_and_apply_forward_supersession, segments_address, declares, settle_page, answer_or_none,
  scan_pages,
}
use fleet_memory.Writer.Core.{
  payload_address, stored_value, write_record, upsert, write_registered, write,
}
use fleet_memory.Reindex.Audit.{
  AuditResult, is_100_percent_accounted, namespace_for_key, tally, derive_episode_id, locate,
  audit_from, audit_published_episodes,
}
use fleet_memory.Reindex.Audit.Accounting.{Accounted, audit_published_episodes_iff}
use fleet_memory.Reindex.Audit.Written.{audit-write}

abbrev digests : Digests
digests = record { sha256_hex = λ t. t; uuid5 = λ t. t }

abbrev key : Text
key = codes "build_outcome:guardkit:T_1"

abbrev lost : Text
lost = codes "pattern:guardkit:P1"

-- A store with the record of one key.
abbrev with_key : Address → Result (Option Value)
with_key a = ok (if text_eq a.key key then some empty_value else none)

abbrev two_audit : AuditResult
two_audit = record {
  total_published = 2;
  stored_count = 1;
  dlq_count = 0;
  unaccounted_count = 1;
  unaccounted_episodes = lost ∷ [];
}

two_audited :
    audit_published_episodes digests with_key (λ id. ok false) (key ∷ lost ∷ []) ≡ ok two_audit
unfolding audit_published_episodes audit_from locate tally namespace_for_key derive_episode_id
    record_identity text_eq
two_audited = refl

audit_published_episodes_iff_example :
    (two_audit.total_published
      ≡ two_audit.stored_count + two_audit.dlq_count + two_audit.unaccounted_count)
    × ((is_100_percent_accounted two_audit ≡ true)
        ↔ All (Accounted digests with_key (λ id. ok false)) (key ∷ lost ∷ []))
audit_published_episodes_iff_example =
    audit_published_episodes_iff digests with_key (λ id. ok false) (key ∷ lost ∷ []) two_audit
      two_audited

-- A payload that the writer writes into an empty store.
abbrev written : Payload
written = record {
  project = codes "guardkit";
  identifier = codes "D1";
  domain_tags = [];
  source_ref = codes "d";
  version = pos 1;
  supersedes = [];
  body = warning (codes "high") (codes "full");
}

written-IsWellFormed : IsWellFormed written
unfolding is_identifier is_identifier_char run_validators natural_key payload_type kind_of text_eq
written-IsWellFormed = record {
  project = refl;
  identifier = refl;
  distinct = tt;
  shapes = tt;
  no_self = refl;
  validated = refl;
}

abbrev written_hash : Text
written_hash =
    codes
      "{\"domain_tags\":[],\"identifier\":\"D1\",\"message\":\"full\",\"natural_key\":\"warning:guardkit:D1\",\"project\":\"guardkit\",\"severity\":\"high\",\"source_ref\":\"d\",\"supersedes\":[]}"

written_hashed : content_hash digests written ≡ ok written_hash
unfolding content_hash without_version model_dump dumps text_eq payload_type kind_of natural_key
written_hashed = refl

abbrev after : memory_store.State
after = (write memory_store digests written none []).1

written_done : write memory_store digests written none [] ≡ (ok tt, after)
unfolding write write_registered upsert write_record apply_supersessions stored_value
    check_and_apply_forward_supersession forward_supersession scan_pages answer_or_none settle_page
    first_declaring declares predecessor_address segments_address content_hash without_version
    model_dump dumps record_identity validate_namespace is_registered payload_type kind_of
    natural_key is_namespace_part lookup put items address_eq namespace_eq text_eq
written_done = refl

audit-write_example :
    audit_published_episodes digests
      (λ a. memory_store.aget a after)
      (λ id. ok false)
      (natural_key written ∷ [])
    ≡ ok (record {
      total_published = 1;
      stored_count = 1;
      dlq_count = 0;
      unaccounted_count = 0;
      unaccounted_episodes = [];
    })
audit-write_example =
    audit-write memory_store digests memory_store-laws (λ id. ok false) written written_hash none []
      after (lookup after (payload_address digests written)) written-IsWellFormed written_hashed
      written_done refl
