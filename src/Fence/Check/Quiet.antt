-- ===== src/Fence/Check/Quiet.antt =====
-- What it takes that a run of the fence is quiet, said without the checks: each input was seen and
-- shows a living memory, or an acknowledgement covers it.
use fleet_memory.Prelude.{
  ℕ, ◌+◌, ◌≤◌, ◌<◌, ◌≡◌, ◌≢◌, ◌⊎◌, true, false, List, [], ◌∷◌, Option, none, some, Text, text_mem,
  codes, All, length,
}
use fleet_memory.Fence.Time.{Instant}
use fleet_memory.Fence.Ack.{AckState, holds}
use fleet_memory.Fence.Builds.{BuildScan, finished_within}
use fleet_memory.Fence.Marker.{MarkerRead, MarkerState}
use fleet_memory.Fence.StoreAge.{StoreFacts, ProjectFacts}
use fleet_memory.Fence.Report.{Thresholds, FenceFacts}
use fleet_memory.Fence.Check.{project_check_name, max_age, window, grace, project_rows}

abbrev pub Somewhere {ℓ} : {A : Type ℓ} → (A → Type 0) → List A → Type 0
Somewhere P [] = ⊥
Somewhere P (x ∷ xs) = P x ⊎ Somewhere P xs

-- An instant that is there and not further back than a length of time.
abbrev pub Within : Instant → ℕ → Option Instant → Type 0
Within now length none = ⊥
Within now length (some t) = now ≤ t + length

module _ (th : Thresholds) (now : Instant) where
  -- A watched project with a row in the window of the builds.
  abbrev pub Recorded : List ProjectFacts → Type 0
  Recorded ps =
      Somewhere
        (λ (p : ProjectFacts).
          (text_mem p.project th.watch_projects ≡ true)
          × Within now (window th now) p.newest_updated_at)
        ps

  -- There are too few builds to judge by, memory has recorded work, or the relay has just started.
  abbrev pub RelayAlive : Option StoreFacts → MarkerState → BuildScan → Type 0
  RelayAlive store state scan =
      (length (finished_within now (window th now) scan) < th.min_builds_in_window)
      ⊎ Within now (window th now) state.last_ingest_at
      ⊎ Recorded (project_rows store)
      ⊎ ((started : Instant) × (state.started_at ≡ some started) × (now < started + grace th now))

  -- The receipts were seen, and the relay is alive by them; and so for the state of the marker.
  abbrev pub ScanAlive : Option StoreFacts → MarkerState → Option BuildScan → Type 0
  ScanAlive store state builds =
      (scan : BuildScan) × (builds ≡ some scan)
      × (scan.problem ≡ none)
      × RelayAlive store state scan

  abbrev pub StateAlive : Option StoreFacts → Option BuildScan → Option MarkerState → Type 0
  StateAlive store builds o =
      (state : MarkerState) × (o ≡ some state) × ScanAlive store state builds

module _ (ack : AckState) where
  abbrev pub Held : Text → Type 0
  Held name = holds ack name ≡ true

  module _ (th : Thresholds) (now : Instant) where
    abbrev pub ProjectQuiet : ProjectFacts → Type 0
    ProjectQuiet p =
        Held (project_check_name p.project)
        ⊎ ((p.row_count ≢ 0) × Within now (max_age th now) p.newest_updated_at)

    -- The store could not be read, or holds nothing.
    abbrev pub IsDark : StoreFacts → Type 0
    IsDark s = (s.reachable ≡ false) ⊎ (s.row_count ≡ 0)

    abbrev pub StoreLit : StoreFacts → Type 0
    StoreLit s =
        (s.reachable ≡ true)
        × (s.row_count ≢ 0)
        × (Held (codes "store_age") ⊎ Within now (max_age th now) s.newest_updated_at)
        × All ProjectQuiet s.per_project

    abbrev pub StoreQuiet : Option StoreFacts → Type 0
    StoreQuiet none = Held (codes "store_age")
    StoreQuiet (some s) = (IsDark s × Held (codes "store_age")) ⊎ StoreLit s

    abbrev pub RelayQuiet : FenceFacts → Type 0
    RelayQuiet facts =
        Held (codes "relay_idle")
        ⊎ ((marker : MarkerRead) × (facts.marker ≡ some marker)
            × StateAlive th now facts.store facts.builds marker.state)
