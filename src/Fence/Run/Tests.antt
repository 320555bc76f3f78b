-- ===== src/Fence/Run/Tests.antt =====
-- A quiet run of the fence.
use fleet_memory.Prelude.{◌≡◌, refl, ◌↔◌, true, false, [], Option, none, some, codes, pos}
use fleet_memory.Errors.{ok}
use fleet_memory.Fence.Verdict.{Status}
use fleet_memory.Fence.Ack.{AckState, no_ack}
use fleet_memory.Fence.Marker.{MarkerRead}
use fleet_memory.Fence.Builds.{BuildScan}
use fleet_memory.Fence.StoreAge.{StoreFacts}
use fleet_memory.Fence.Report.{Thresholds, FenceFacts}
use fleet_memory.Fence.Check.{evaluate}
use fleet_memory.Fence.Check.Quiet.{StoreQuiet, RelayQuiet}
use fleet_memory.Fence.Check.Decision.{evaluate-ok_iff}
use fleet_memory.Fence.Run.{Evidence, done, Gathered, exit_ok, facts_of, run_fence}
use fleet_memory.Fence.Run.Exit.{Read, Quiet, run_fence-exit_ok}

-- Timestamps of one character, a thousand above their seconds.

abbrev thresholds : Thresholds
thresholds = record {
  store_max_age_hours = 1;
  build_window_hours = 1;
  min_builds_in_window = 1;
  relay_restart_grace_minutes = 0;
  watch_projects = [];
}

abbrev store_facts : StoreFacts
store_facts = record {
  target = codes "host";
  reachable = true;
  newest_updated_at = some 7;
  newest_created_at = none;
  row_count = 3;
  per_project = [];
  problem = none;
}

abbrev quiet_builds : BuildScan
quiet_builds = record {
  receipts = [];
  malformed = [];
  skewed = [];
  problem = none;
  path = codes "b";
}

abbrev marker_read : MarkerRead
marker_read = record {
  state = some (record {
    started_at = some 1;
    last_message_at = none;
    last_ingest_at = none;
    messages_since_start = pos 0;
    ingests_since_start = pos 0;
    last_disposition = none;
  });
  problem = none;
  path = codes "m";
}

abbrev facts : FenceFacts
facts = record {
  store = some store_facts;
  builds = some quiet_builds;
  marker = some marker_read;
  ack = no_ack (codes "ack");
}

evaluate_quiet : (evaluate thresholds 9 facts false false).status ≡ Status.ok
unfolding evaluate
evaluate_quiet = refl

evaluate-ok_iff_example : ((evaluate thresholds 9 facts false false).status ≡ Status.ok) ↔ (
    (false ≡ false → StoreQuiet facts.ack thresholds 9 facts.store)
    × (false ≡ false → RelayQuiet facts.ack thresholds 9 facts))
evaluate-ok_iff_example = evaluate-ok_iff thresholds 9 facts false false

abbrev gathered : Gathered
gathered = record {
  store = store_facts;
  builds = ok quiet_builds;
  marker = ok marker_read;
  ack = ok (no_ack (codes "ack"));
}

abbrev no_evidence : Evidence
no_evidence = record { status_file = none; log = [] }

run_fence_quiet :
    (run_fence thresholds 9 false false done done gathered no_evidence).exit_code ≡ exit_ok
unfolding run_fence evaluate
run_fence_quiet = refl

run_fence-exit_ok_example :
    (builds : Option BuildScan) × (marker : Option MarkerRead) × (ack : AckState) × Read thresholds
      9 false false done done gathered builds marker ack
    × Quiet thresholds 9 false false done done
        (facts_of thresholds 9 false false store_facts builds marker ack)
run_fence-exit_ok_example =
    run_fence-exit_ok thresholds 9 false false done done gathered no_evidence run_fence_quiet
