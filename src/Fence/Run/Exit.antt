-- ===== src/Fence/Run/Exit.antt =====
-- What the exit code of a run means.
use fleet_memory.Prelude.{◌≡◌, refl, Bool, true, false, Option, none, some, arith}
use fleet_memory.Errors.{Result, ok, err}
use fleet_memory.Fence.Time.{Instant}
use fleet_memory.Fence.Verdict.{Status, is_alarm}
use fleet_memory.Fence.Ack.{AckState}
use fleet_memory.Fence.Builds.{BuildScan}
use fleet_memory.Fence.Marker.{MarkerRead}
use fleet_memory.Fence.StoreAge.{StoreFacts}
use fleet_memory.Fence.Report.{Thresholds, FenceFacts, FenceReport}
use fleet_memory.Fence.Check.{evaluate}
use fleet_memory.Fence.Check.Quiet.{StoreQuiet, RelayQuiet}
use fleet_memory.Fence.Check.Decision.{evaluate-ok_iff}
use fleet_memory.Fence.Run.{
  Evidence, Written, done, os_failure, other_failure, Gathered, exit_ok, concluded, record_evidence,
  facts_of, judged, with_ack, with_marker, with_builds, run_fence,
}

module _ (th : Thresholds) (now : Instant) (store_only relay_only : Bool)
    (status_write log_write : Written) where
  abbrev pub Quiet : FenceFacts → Type 0
  Quiet facts =
      (relay_only ≡ false → StoreQuiet facts.ack th now facts.store)
      × (store_only ≡ false → RelayQuiet facts.ack th now facts)

  concluded-exit_ok :
      (report : FenceReport) (w : Written) (e : Evidence)
      → (concluded th now store_only relay_only report (w, e)).exit_code ≡ exit_ok
      → is_alarm report.status ≡ false
  concluded-exit_ok report done e h = ground arith
  concluded-exit_ok report os_failure e h = ground arith
  concluded-exit_ok report other_failure e h = absurd (omega arith)

  not_alarm :
      (facts : FenceFacts)
      → is_alarm (evaluate th now facts store_only relay_only).status ≡ false
      → (evaluate th now facts store_only relay_only).status ≡ Status.ok
  unfolding evaluate
  not_alarm facts h = ground (arith, h)

  judged-exit_ok :
      (facts : FenceFacts) (e : Evidence)
      → (judged th now store_only relay_only status_write log_write facts e).exit_code ≡ exit_ok
      → Quiet facts
  judged-exit_ok facts e h =
      let report = evaluate th now facts store_only relay_only in
      let r = record_evidence status_write log_write now report e in
      (evaluate-ok_iff th now facts store_only relay_only).0
        (not_alarm facts (concluded-exit_ok report r.0 r.1 h))

  -- What was read, if it was.
  abbrev pub Read : Gathered → Option BuildScan → Option MarkerRead → AckState → Type 0
  Read g builds marker ack =
      (g.ack ≡ ok ack)
      × (store_only ≡ true → builds ≡ none)
      × (store_only ≡ false → (b : BuildScan) × (g.builds ≡ ok b) × (builds ≡ some b))
      × (store_only ≡ true → marker ≡ none)
      × (store_only ≡ false → (m : MarkerRead) × (g.marker ≡ ok m) × (marker ≡ some m))

  with_ack-exit_ok :
      (store : StoreFacts) (builds : Option BuildScan) (marker : Option MarkerRead)
      (r : Result AckState) (e : Evidence)
      → (with_ack th now store_only relay_only status_write log_write store builds marker r
          e).exit_code
        ≡ exit_ok
      → (ack : AckState) × (r ≡ ok ack)
        × Quiet (facts_of th now store_only relay_only store builds marker ack)
  with_ack-exit_ok store builds marker (err raised) e h = absurd (omega arith)
  with_ack-exit_ok store builds marker (ok ack) e h = (
    ack,
    refl,
    judged-exit_ok (facts_of th now store_only relay_only store builds marker ack) e h,
  )

  with_marker-exit_ok :
      (store : StoreFacts) (builds : BuildScan) (q : Result MarkerRead) (r : Result AckState)
      (e : Evidence)
      → (with_marker th now store_only relay_only status_write log_write store builds q r
          e).exit_code
        ≡ exit_ok
      → (m : MarkerRead) × (q ≡ ok m)
        × (ack : AckState) × (r ≡ ok ack)
        × Quiet (facts_of th now store_only relay_only store (some builds) (some m) ack)
  with_marker-exit_ok store builds (err raised) r e h = absurd (omega arith)
  with_marker-exit_ok store builds (ok m) r e h =
      let (ack, a, quiet) = with_ack-exit_ok store (some builds) (some m) r e h in
      (m, refl, ack, a, quiet)

  with_builds-exit_ok :
      (store : StoreFacts) (p : Result BuildScan) (q : Result MarkerRead) (r : Result AckState)
      (e : Evidence)
      → (with_builds th now store_only relay_only status_write log_write store p q r e).exit_code
        ≡ exit_ok
      → (b : BuildScan) × (p ≡ ok b)
        × (m : MarkerRead) × (q ≡ ok m)
        × (ack : AckState) × (r ≡ ok ack)
        × Quiet (facts_of th now store_only relay_only store (some b) (some m) ack)
  with_builds-exit_ok store (err raised) q r e h = absurd (omega arith)
  with_builds-exit_ok store (ok b) q r e h =
      let (m, marked, ack, a, quiet) = with_marker-exit_ok store b q r e h in
      (b, refl, m, marked, ack, a, quiet)

-- A run of the fence ends with exit code 0 only if the acknowledgement file and, unless the run is
-- for the store only, the receipts and the marker were read without an exception, and what was read
-- is quiet: a run that cannot see one of the inputs it was asked about, or that finds one of them
-- stale, ends otherwise, unless an acknowledgement covers it, and whatever becomes of its own files.
pub run_fence-exit_ok :
    (th : Thresholds) (now : Instant) (store_only relay_only : Bool)
    (status_write log_write : Written) (g : Gathered) (e : Evidence)
    → (run_fence th now store_only relay_only status_write log_write g e).exit_code ≡ exit_ok
    → (builds : Option BuildScan) × (marker : Option MarkerRead) × (ack : AckState) × Read th now
        store_only relay_only status_write log_write g builds marker ack
      × Quiet th now store_only relay_only status_write log_write
          (facts_of th now store_only relay_only g.store builds marker ack)
unfolding run_fence
run_fence-exit_ok th now true relay_only status_write log_write g e h =
    let (ack, a, quiet) =
      with_ack-exit_ok th now true relay_only status_write log_write g.store none none g.ack e h in
    (none, none, ack, (a, (λ _. refl), (λ q. absurd cc), (λ _. refl), λ q. absurd cc), quiet)
run_fence-exit_ok th now false relay_only status_write log_write g e h =
    let (b, p, m, q, ack, a, quiet) =
      with_builds-exit_ok th now false relay_only status_write log_write g.store g.builds g.marker
        g.ack e h in
    (
      some b,
      some m,
      ack,
      (a, (λ z. absurd cc), (λ _. (b, p, refl)), (λ z. absurd cc), λ _. (m, q, refl)),
      quiet,
    )
