-- ===== src/Fence/Run.antt =====
-- fence/report.py and `main` of fence/__main__.py, once its settings are resolved: the reads, the
-- verdict, the evidence and the exit code. What the reads give, and what goes wrong in a write, are
-- arguments.
pub mod Exit
mod Tests
use fleet_memory.Prelude.{ℕ, Bool, List, [], ◌∷◌, ◌++◌, Option, none, some, if◌then◌else◌}
use fleet_memory.Errors.{Result, ok, err}
use fleet_memory.Fence.Time.{Instant}
use fleet_memory.Fence.Verdict.{is_alarm}
use fleet_memory.Fence.Ack.{AckState}
use fleet_memory.Fence.Builds.{BuildScan}
use fleet_memory.Fence.Marker.{MarkerRead}
use fleet_memory.Fence.StoreAge.{StoreFacts}
use fleet_memory.Fence.Report.{Thresholds, FenceFacts, FenceReport, Line, lines}
use fleet_memory.Fence.Check.{evaluate}

-- The status file and the log of lapses, each entry of which has its stamp.
pub record Evidence : Type 0 where
  pub status_file : Option FenceReport
  pub log : List (Instant × Line)

-- How a write ends: it is done, or an OSError or another exception leaves the file as it was.
pub data Written : Type 0 where
  done os_failure other_failure : Written

-- `write_status`
abbrev pub write_status : Written → FenceReport → Evidence → Evidence
write_status done report e = record e { status_file = some report }
write_status _ report e = e

abbrev stamped : Instant → List Line → List (Instant × Line)
stamped now [] = []
stamped now (l ∷ ls) = (now, l) ∷ stamped now ls

-- `append_alarm_log` on an alarm
abbrev appended : Written → Instant → FenceReport → Evidence → Evidence
appended done now report e = record e { log = e.log ++ stamped now (lines report) }
appended _ now report e = e

-- Both writes, the second only if the first returns, and how they end.
abbrev pub append_alarm_log : Written → Instant → FenceReport → Evidence → Written × Evidence
append_alarm_log w now report e =
    if is_alarm report.status then (w, appended w now report e) else (done, e)

abbrev record_evidence : Written → Written → Instant → FenceReport → Evidence → Written × Evidence
record_evidence done log_write now report e =
    append_alarm_log log_write now report (write_status done report e)
record_evidence w log_write now report e = (w, e)

abbrev pub exit_ok : ℕ
exit_ok = 0

abbrev pub exit_alarm : ℕ
exit_alarm = 1

abbrev pub exit_internal : ℕ
exit_internal = 20

pub record Outcome : Type 0 where
  pub exit_code : ℕ
  pub printed : List Line
  pub evidence : Evidence

-- What was read: the store, the receipts, the marker and the acknowledgement.
pub record Gathered : Type 0 where
  pub store : StoreFacts
  pub builds : Result BuildScan
  pub marker : Result MarkerRead
  pub ack : Result AckState

module _ (thresholds : Thresholds) (now : Instant) (store_only relay_only : Bool) where
  -- The exit code, where an OSError has only been warned of.
  abbrev concluded : FenceReport → Written × Evidence → Outcome
  concluded report (other_failure, e) = record {
    exit_code = exit_internal;
    printed = lines report;
    evidence = e;
  }
  concluded report (_, e) = record {
    exit_code = if is_alarm report.status then exit_alarm else exit_ok;
    printed = lines report;
    evidence = e;
  }

  abbrev pub facts_of : StoreFacts → Option BuildScan → Option MarkerRead → AckState → FenceFacts
  facts_of store builds marker ack = record {
    store = if relay_only then none else some store;
    builds = builds;
    marker = marker;
    ack = ack;
  }

  abbrev internal : Evidence → Outcome
  internal e = record { exit_code = exit_internal; printed = []; evidence = e }

  module _ (status_write log_write : Written) where
    abbrev judged : FenceFacts → Evidence → Outcome
    judged facts e =
        let report = evaluate thresholds now facts store_only relay_only in
        concluded report (record_evidence status_write log_write now report e)

    abbrev with_ack :
        StoreFacts → Option BuildScan → Option MarkerRead → Result AckState → Evidence → Outcome
    with_ack store builds marker (err raised) e = internal e
    with_ack store builds marker (ok ack) e = judged (facts_of store builds marker ack) e

    abbrev with_marker :
        StoreFacts → BuildScan → Result MarkerRead → Result AckState → Evidence → Outcome
    with_marker store builds (err raised) ack e = internal e
    with_marker store builds (ok marker) ack e = with_ack store (some builds) (some marker) ack e

    abbrev pub with_builds :
        StoreFacts → Result BuildScan → Result MarkerRead → Result AckState → Evidence → Outcome
    with_builds store (err raised) marker ack e = internal e
    with_builds store (ok builds) marker ack e = with_marker store builds marker ack e

    unfoldable pub run_fence : Gathered → Evidence → Outcome
    run_fence g e =
        if store_only
        then with_ack g.store none none g.ack e
        else with_builds g.store g.builds g.marker g.ack e
