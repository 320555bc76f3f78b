-- ===== src/Fence/Check.antt =====
-- fence/check.py: the decision. Instants are compared by sums, `now <= t + window` for
-- `t >= now - window`.
pub mod Quiet
pub mod Relay
pub mod Stores
pub mod Decision
use fleet_memory.Prelude.{
  ℕ, ◌+◌, ◌*◌, Bool, true, false, ◌&&◌, List, [], ◌∷◌, ◌++◌, Option, none, some, Text, codes, map,
  any, text_mem, length, is_empty, ltb, leb, ◌==◌, if◌then◌else◌,
}
use fleet_memory.Fence.Time.{Instant, hour, minute, humanise_age, limit_phrase, window_phrase}
use fleet_memory.Fence.Verdict.{
  Status, is_alarm, blind_reason, Problem, marker_not_read, builds_not_read, Activity, Message,
  store_unreachable, store_empty, store_undated, store_stale, store_fresh, project_empty,
  project_undated, project_stale, project_fresh, store_not_seen, marker_unseen, builds_unseen,
  few_builds, relay_recorded, project_recorded, relay_restarted, relay_idle, acknowledged,
  CheckResult,
}
use fleet_memory.Fence.Report.{Thresholds, FenceFacts, FenceReport, Note, ack_note, skewed_names}
use fleet_memory.Fence.Ack.{AckState, AckNote, holds, note}
use fleet_memory.Fence.Builds.{BuildScan, finished_within}
use fleet_memory.Fence.Marker.{MarkerRead, MarkerState}
use fleet_memory.Fence.StoreAge.{StoreFacts, ProjectFacts}

abbrev passed : Text → Message → CheckResult
passed name message = record { name = name; status = Status.ok; reason = []; message = message }

abbrev tripped_by : Text → Text → Message → CheckResult
tripped_by name reason message = record {
  name = name;
  status = Status.alarm;
  reason = reason;
  message = message;
}

abbrev pub project_check_name : Text → Text
project_check_name project = codes "store_age:" ++ project

-- `store.per_project if store is not None and store.reachable else ()`
abbrev pub project_rows : Option StoreFacts → List ProjectFacts
project_rows none = []
project_rows (some facts) = if facts.reachable then facts.per_project else []

-- `_apply_ack`
unfoldable pub apply_ack : AckState → CheckResult → CheckResult
unfolding holds
apply_ack ack check =
    if is_alarm check.status && holds ack check.name
    then record {
      name = check.name;
      status = Status.held;
      reason = check.reason;
      message = acknowledged check.message ack.until ack.reason;
    }
    else check

abbrev noted : Option AckNote → List Note
noted none = []
noted (some n) = ack_note n ∷ []

abbrev noted_skewed : Option BuildScan → List Note
noted_skewed none = []
noted_skewed (some scan) =
    if is_empty scan.skewed then [] else skewed_names (length scan.skewed) ∷ []

abbrev overall : List CheckResult → Status
overall checks =
    if any (λ (c : CheckResult). is_alarm c.status) checks then Status.alarm else Status.ok

module _ (thresholds : Thresholds) (now : Instant) where
  abbrev pub max_age : ℕ
  max_age = thresholds.store_max_age_hours * hour

  abbrev pub window : ℕ
  window = thresholds.build_window_hours * hour

  abbrev pub grace : ℕ
  grace = thresholds.relay_restart_grace_minutes * minute

  abbrev limit : Text
  limit = limit_phrase thresholds.store_max_age_hours

  abbrev store_newest : ℕ → Option Instant → CheckResult
  store_newest row_count none =
      tripped_by (codes "store_age") blind_reason (store_undated row_count)
  store_newest row_count (some newest) =
      if ltb (newest + max_age) now
      then tripped_by (codes "store_age") (codes "STORE_STALE")
          (store_stale (humanise_age now newest) limit)
      else passed (codes "store_age") (store_fresh (humanise_age now newest) row_count)

  abbrev project_newest : Text → ℕ → Option Instant → CheckResult
  project_newest project row_count none =
      tripped_by (project_check_name project) blind_reason (project_undated project)
  project_newest project row_count (some newest) =
      if ltb (newest + max_age) now
      then tripped_by (project_check_name project) (codes "STORE_STALE")
          (project_stale project (humanise_age now newest) limit)
      else passed (project_check_name project)
          (project_fresh project (humanise_age now newest) row_count)

  -- The body of the loop over `per_project`.
  unfoldable pub project_check : ProjectFacts → CheckResult
  project_check p =
      if p.row_count == 0
      then tripped_by (project_check_name p.project) (codes "STORE_EMPTY") (project_empty p.project)
      else project_newest p.project p.row_count p.newest_updated_at

  unfoldable pub store_check : StoreFacts → List CheckResult
  unfolding project_check
  store_check facts =
      if facts.reachable
      then (if facts.row_count == 0
          then tripped_by (codes "store_age") (codes "STORE_EMPTY") (store_empty facts.target) ∷ []
          else store_newest facts.row_count facts.newest_updated_at
            ∷ map project_check facts.per_project)
      else tripped_by (codes "store_age") (codes "STORE_UNREACHABLE")
          (store_unreachable facts.problem)
        ∷ []

  -- Whether an instant lies in the window of the builds.
  abbrev pub in_window : Option Instant → Bool
  in_window none = false
  in_window (some t) = leb now (t + window)

  abbrev later_than : Instant → Option Instant → Bool
  later_than t none = true
  later_than t (some u) = ltb u t

  abbrev age_of : Option Instant → Option Text
  age_of none = none
  age_of (some t) = some (humanise_age now t)

  -- `state.last_disposition or 'unknown'`
  abbrev outcome_or_unknown : Option Text → Text
  outcome_or_unknown none = codes "unknown"
  outcome_or_unknown (some outcome) = if is_empty outcome then codes "unknown" else outcome

  abbrev later_message_of : MarkerState → Option Instant → Option (Text × Text)
  later_message_of state none = none
  later_message_of state (some last_message) =
      if later_than last_message state.last_ingest_at
      then some (humanise_age now last_message, outcome_or_unknown state.last_disposition)
      else none

  unfoldable pub activity_of : MarkerState → Activity
  activity_of state = record {
    last_write = age_of state.last_ingest_at;
    later_message = later_message_of state state.last_message_at;
  }

  abbrev newer :
      ProjectFacts
      → Option (ProjectFacts × Instant)
      → Option Instant
      → Option (ProjectFacts × Instant)
  newer p best none = best
  newer p none (some t) = some (p, t)
  newer p (some (q, u)) (some t) = if leb u t then some (p, t) else some (q, u)

  abbrev watched : ProjectFacts → Bool
  watched p = text_mem p.project thresholds.watch_projects

  -- `max(project_rows, key=..., default=None)`, with the instant; the first of equal ones
  unfoldable pub newest_project : List ProjectFacts → Option (ProjectFacts × Instant)
  newest_project [] = none
  newest_project (p ∷ rest) =
      let best = newest_project rest in if watched p then newer p best p.newest_updated_at else best

  abbrev relay_alarm : ℕ → CheckResult
  relay_alarm builds =
      tripped_by (codes "relay_idle") (codes "RELAY_IDLE")
        (relay_idle builds (window_phrase thresholds.build_window_hours))

  -- The grace of a restart, and the alarm.
  abbrev relay_grace : ℕ → Option Instant → CheckResult
  relay_grace builds none = relay_alarm builds
  relay_grace builds (some started_at) =
      if ltb now (started_at + grace)
      then record {
        name = codes "relay_idle";
        status = Status.ok;
        reason = codes "RELAY_RESTART_GRACE";
        message =
            relay_restarted (humanise_age now started_at) thresholds.relay_restart_grace_minutes;
      }
      else relay_alarm builds

  -- The writes that did not pass through the relay.
  abbrev relay_projects : ℕ → MarkerState → Option (ProjectFacts × Instant) → CheckResult
  relay_projects builds state none = relay_grace builds state.started_at
  relay_projects builds state (some (p, t)) =
      if leb now (t + window)
      then passed (codes "relay_idle") (
          project_recorded builds (window_phrase thresholds.build_window_hours) p.project
            (humanise_age now t) (activity_of state))
      else relay_grace builds state.started_at

  unfoldable pub relay_seen : Option StoreFacts → ℕ → MarkerState → CheckResult
  unfolding newest_project
  relay_seen store builds state =
      if ltb builds thresholds.min_builds_in_window
      then passed (codes "relay_idle") (
          few_builds builds (window_phrase thresholds.build_window_hours)
            thresholds.min_builds_in_window (activity_of state))
      else if in_window state.last_ingest_at
      then passed (codes "relay_idle") (
          relay_recorded builds (window_phrase thresholds.build_window_hours) (activity_of state)
            state.ingests_since_start)
      else relay_projects builds state (newest_project (project_rows store))

  abbrev blind_relay : Message → CheckResult
  blind_relay message = tripped_by (codes "relay_idle") blind_reason message

  abbrev relay_with_scan :
      Option StoreFacts → MarkerState → BuildScan → Option Problem → CheckResult
  relay_with_scan store state scan (some problem) = blind_relay (builds_unseen (some problem))
  relay_with_scan store state scan none =
      relay_seen store (length (finished_within now window scan)) state

  abbrev relay_with_builds : Option StoreFacts → MarkerState → Option BuildScan → CheckResult
  relay_with_builds store state none = blind_relay (builds_unseen (some builds_not_read))
  relay_with_builds store state (some scan) = relay_with_scan store state scan scan.problem

  abbrev relay_with_state :
      Option StoreFacts → Option BuildScan → Option Problem → Option MarkerState → CheckResult
  relay_with_state store builds problem none = blind_relay (marker_unseen problem)
  relay_with_state store builds problem (some state) = relay_with_builds store state builds

  unfoldable pub relay_check :
      Option BuildScan → Option MarkerRead → Option StoreFacts → CheckResult
  unfolding relay_seen
  relay_check builds none store = blind_relay (marker_unseen (some marker_not_read))
  relay_check builds (some marker) store = relay_with_state store builds marker.problem marker.state

  abbrev store_checks : Option StoreFacts → List CheckResult
  store_checks none = tripped_by (codes "store_age") blind_reason store_not_seen ∷ []
  store_checks (some facts) = store_check facts

  abbrev all_checks : FenceFacts → Bool → Bool → List CheckResult
  all_checks facts store_only relay_only =
      (if relay_only then [] else store_checks facts.store)
      ++ (if store_only then [] else relay_check facts.builds facts.marker facts.store ∷ [])

  unfoldable pub evaluate : FenceFacts → Bool → Bool → FenceReport
  unfolding store_check relay_check apply_ack
  evaluate facts store_only relay_only =
      let checks = map (apply_ack facts.ack) (all_checks facts store_only relay_only) in
      record {
        status = overall checks;
        checks = checks;
        thresholds = thresholds;
        checked_at = now;
        ack = facts.ack;
        notes = noted (note facts.ack) ++ noted_skewed facts.builds;
      }
