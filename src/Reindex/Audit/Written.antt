-- ===== src/Reindex/Audit/Written.antt =====
-- The audit looks where the writer writes.
use mathlib.Core.Option
use fleet_memory.Prelude.{
  ◌≡◌, refl, ap, ◌∙◌, Bool, true, false, [], ◌∷◌, Option, some, Text, if◌then◌else◌,
}
use fleet_memory.Errors.{Result, ok}
use fleet_memory.Payloads.Base.{Payload, natural_key}
use fleet_memory.Payloads.Base.WellFormed.{IsWellFormed}
use fleet_memory.Payloads.Base.NaturalKey.{split-natural_key}
use fleet_memory.Store.Value.{Value, EpisodeMeta}
use fleet_memory.Store.Api.{StoreApi, StoreLaws, address_eq_iff}
use fleet_memory.Writer.Identity.{Digests, record_identity, content_hash}
use fleet_memory.Writer.Supersession.{mark}
use fleet_memory.Writer.Supersession.Marks.{is_named}
use fleet_memory.Writer.Core.{payload_namespace, payload_address, write}
use fleet_memory.Writer.Core.Outcome.{put_at, write-Wrote}
use fleet_memory.Reindex.Audit.{
  namespace_of, namespace_for_key, tally, locate, audit_from, audit_published_episodes,
}

-- The namespace of the audit is the writer's.
namespace_for_key-natural_key :
    (p : Payload) → IsWellFormed p → namespace_for_key (natural_key p) ≡ some (payload_namespace p)
unfolding namespace_for_key
namespace_for_key-natural_key p w = ap namespace_of (split-natural_key p w)

map_if-some :
    (b : Bool) (f : Value → Value) (o : Option Value) (new : Value)
    → o ≡ some new
    → (v : Value) × ((if b then Option.map f o else o) ≡ some v)
map_if-some true f o new e = (f new, rw e refl)
map_if-some false f o new e = (new, e)

module _ (api : StoreApi) (d : Digests) where
  -- A write leaves a record at the payload's address.
  write-leaves_record :
      (laws : StoreLaws api) (p : Payload) (h : Text) (meta : Option EpisodeMeta) (s t : api.State)
      → content_hash d p ≡ ok h
      → write api d p meta s ≡ (ok tt, t)
      → (v : Value) × (api.lookup t (payload_address d p) ≡ some v)
  write-leaves_record laws p h meta s t hashed e =
      let w = write-Wrote api d laws p h meta s t hashed e in
      let here = (address_eq_iff (payload_address d p) (payload_address d p)).1 refl in
      let (v, there) =
        map_if-some (is_named d p.supersedes (payload_address d p)) (mark (natural_key p))
          (put_at api d (payload_address d p) w.new (api.lookup s) (payload_address d p)) w.new
          (rw here refl) in
      (v, w.after (payload_address d p) ∙ there)

  -- If a write of a well-formed payload returned, and the store answers at its address, then an
  -- audit of its natural key finds it in the store: one published, one stored, none unaccounted,
  -- whatever the dead-letter queue holds.
  pub audit-write :
      (laws : StoreLaws api) (check_episode_on_dlq : Text → Result Bool) (p : Payload) (h : Text)
      (meta : Option EpisodeMeta) (s t : api.State) (o : Option Value)
      → IsWellFormed p
      → content_hash d p ≡ ok h
      → write api d p meta s ≡ (ok tt, t)
      → api.aget (payload_address d p) t ≡ ok o
      → audit_published_episodes d (λ a. api.aget a t) check_episode_on_dlq (natural_key p ∷ [])
        ≡ ok (record {
          total_published = 1;
          stored_count = 1;
          dlq_count = 0;
          unaccounted_count = 0;
          unaccounted_episodes = [];
        })
  unfolding audit_published_episodes audit_from locate tally record_identity
  audit-write laws check_episode_on_dlq p h meta s t o well hashed e answered =
      let (v, there) = write-leaves_record laws p h meta s t hashed e in
      let found : api.aget (payload_address d p) t ≡ ok (some v) =
        answered ∙ ap ok (laws.aget_ok (payload_address d p) t o answered ∙ there) in
      rw (namespace_for_key-natural_key p well, found) refl
