-- ===== src/Fence/Report.antt =====
-- What a run of the fence is about and reports: `FenceReport` of fence/__init__.py, and the thresholds
-- and facts of fence/check.py.
use fleet_memory.Prelude.{
  ℕ, List, [], ◌∷◌, ◌++◌, Option, Text, Bool, map, length, filter, if◌then◌else◌,
}
use fleet_memory.Fence.Time.{Instant}
use fleet_memory.Fence.Verdict.{Status, is_alarm, is_held, Message, CheckResult}
use fleet_memory.Fence.Ack.{AckState, AckNote}
use fleet_memory.Fence.Builds.{BuildScan}
use fleet_memory.Fence.Marker.{MarkerRead}
use fleet_memory.Fence.StoreAge.{StoreFacts}

pub record Thresholds : Type 0 where
  pub store_max_age_hours : ℕ
  pub build_window_hours : ℕ
  pub min_builds_in_window : ℕ
  pub relay_restart_grace_minutes : ℕ
  pub watch_projects : List Text

-- `none` is a check that was not asked for.
pub record FenceFacts : Type 0 where
  pub store : Option StoreFacts
  pub builds : Option BuildScan
  pub marker : Option MarkerRead
  pub ack : AckState

pub data Note : Type 0 where
  ack_note : AckNote → Note
  skewed_names : ℕ → Note

pub record FenceReport : Type 0 where
  pub status : Status
  pub checks : List CheckResult
  pub thresholds : Thresholds
  pub checked_at : Instant
  pub ack : AckState
  pub notes : List Note

-- `FenceReport.lines`
pub data Line : Type 0 where
  note_line : Note → Line
  check_line : Status → Message → Line
  verdict_alarm : ℕ → ℕ → Line
  verdict_ok : ℕ → Line

abbrev count_by : (Status → Bool) → List CheckResult → ℕ
count_by p checks = length (filter (λ (c : CheckResult). p c.status) checks)

unfoldable pub lines : FenceReport → List Line
lines report =
    map note_line report.notes
    ++ (map (λ (c : CheckResult). check_line c.status c.message) report.checks
        ++ ((if is_alarm report.status
              then verdict_alarm (count_by is_alarm report.checks) (length report.checks)
              else verdict_ok (count_by is_held report.checks))
            ∷ []))
