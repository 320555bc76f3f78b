-- ===== src/Reindex/Audit.antt =====
-- reindex/audit.py, with the rule for the ids of episodes of reindex/publisher.py: where each
-- published record is. `aget` of the store and the dead-letter client are parameters.
pub mod Accounting
pub mod Written
mod Tests
use fleet_memory.Prelude.{
  ℕ, suc, Bool, true, false, List, [], ◌∷◌, ◌++◌, Option, none, some, Text, codes, take, length,
  split, ◌==◌,
}
use fleet_memory.Errors.{Result, ok, ◌>>=◌}
use fleet_memory.Store.Value.{Value}
use fleet_memory.Store.Api.{Address}
use fleet_memory.Payloads.Base.{colon}
use fleet_memory.Writer.Identity.{Digests, record_identity}

pub record AuditResult : Type 0 where
  pub total_published : ℕ
  pub stored_count : ℕ
  pub dlq_count : ℕ
  pub unaccounted_count : ℕ
  pub unaccounted_episodes : List Text

-- `AuditResult.is_100_percent_accounted`
abbrev pub is_100_percent_accounted : AuditResult → Bool
is_100_percent_accounted r = r.unaccounted_count == 0

abbrev pub namespace_of : List Text → Option (List Text)
namespace_of (payload_type ∷ project ∷ identifier ∷ []) =
    some (codes "fleet_memory" ∷ project ∷ payload_type ∷ [])
namespace_of _ = none

-- `_namespace_for_key`
unfoldable pub namespace_for_key : Text → Option (List Text)
namespace_for_key natural_key = namespace_of (split colon natural_key)

-- The variables of the loop.
pub record Tally : Type 0 where
  pub stored_count : ℕ
  pub dlq_count : ℕ
  pub unaccounted_episodes : List Text

-- Where the audit finds an episode.
pub data Whereabouts : Type 0 where
  stored dead_lettered unaccounted : Whereabouts

unfoldable pub tally : Text → Whereabouts → Tally → Tally
tally natural_key stored t = record t { stored_count = suc t.stored_count }
tally natural_key dead_lettered t = record t { dlq_count = suc t.dlq_count }
tally natural_key unaccounted t = record t {
  unaccounted_episodes = t.unaccounted_episodes ++ (natural_key ∷ []);
}

abbrev pub audited : List Text → Tally → AuditResult
audited published_natural_keys t = record {
  total_published = length published_natural_keys;
  stored_count = t.stored_count;
  dlq_count = t.dlq_count;
  unaccounted_count = length t.unaccounted_episodes;
  unaccounted_episodes = t.unaccounted_episodes;
}

module _ (d : Digests) where
  -- `_derive_episode_id`
  unfoldable pub derive_episode_id : Text → Text
  derive_episode_id natural_key = codes "ep-" ++ take 16 (d.sha256_hex natural_key)

  module _ (aget : Address → Result (Option Value))
      (check_episode_on_dlq : Text → Result Bool) where
    abbrev pub on_dlq : Bool → Whereabouts
    on_dlq true = dead_lettered
    on_dlq false = unaccounted

    abbrev pub after_lookup : Text → Option Value → Result Whereabouts
    after_lookup natural_key (some value) = ok stored
    after_lookup natural_key none = do
      is_on_dlq ← check_episode_on_dlq (derive_episode_id natural_key)
      ok (on_dlq is_on_dlq)

    abbrev pub locate_in : Text → Option (List Text) → Result Whereabouts
    locate_in natural_key none = ok unaccounted
    locate_in natural_key (some namespace) = do
      found ← aget (record { namespace = namespace; key = record_identity d natural_key })
      after_lookup natural_key found

    -- The body of the loop.
    unfoldable pub locate : Text → Result Whereabouts
    unfolding namespace_for_key derive_episode_id
    locate natural_key = locate_in natural_key (namespace_for_key natural_key)

    unfoldable pub audit_from : List Text → Tally → Result Tally
    unfolding locate tally
    audit_from [] t = ok t
    audit_from (natural_key ∷ rest) t = do
      place ← locate natural_key
      audit_from rest (tally natural_key place t)

    unfoldable pub audit_published_episodes : List Text → Result AuditResult
    unfolding audit_from
    audit_published_episodes published_natural_keys = do
      t ←
          audit_from published_natural_keys
            (record { stored_count = 0; dlq_count = 0; unaccounted_episodes = [] })
      ok (audited published_natural_keys t)
