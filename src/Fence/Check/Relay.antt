-- ===== src/Fence/Check/Relay.antt =====
-- When the check of the relay is no alarm.
use fleet_memory.Prelude.{
  ℕ, ◌+◌, ◌≤◌, ◌<◌, ◌≡◌, refl, sym, ◌⊎◌, inl, inr, ◌↔◌, true, false, List, [], ◌∷◌, Option, none,
  some, codes, length, ltb, leb, arith, Bool-cases,
}
use mathlib.Core.Path.{subst}
use fleet_memory.Fence.Time.{Instant}
use fleet_memory.Fence.Verdict.{is_alarm, Problem}
use fleet_memory.Fence.Builds.{BuildScan, finished_within}
use fleet_memory.Fence.Marker.{MarkerRead, MarkerState}
use fleet_memory.Fence.StoreAge.{StoreFacts, ProjectFacts}
use fleet_memory.Fence.Report.{Thresholds}
use fleet_memory.Fence.Check.{
  window, grace, project_rows, newest_project, relay_grace, relay_projects, in_window, watched,
  newer, relay_seen, relay_check, relay_with_state, relay_with_builds, relay_with_scan,
}
use fleet_memory.Fence.Check.Quiet.{Within, Recorded, RelayAlive, ScanAlive, StateAlive}

some-injective {ℓ} : {A : Type ℓ} (x y : A) → some x ≡ some y → x ≡ y
some-injective x y e = cc

module _ (th : Thresholds) (now : Instant) where
  -- The newest row is in the window exactly if some row is.
  abbrev BestWithin : Option (ProjectFacts × Instant) → Type 0
  BestWithin none = ⊥
  BestWithin (some (p, t)) = now ≤ t + window th now

  newer-BestWithin :
      (p : ProjectFacts) (best : Option (ProjectFacts × Instant)) (o : Option Instant)
      → BestWithin (newer th now p best o) ↔ (Within now (window th now) o ⊎ BestWithin best)
  newer-BestWithin p best none = (λ h. inr h, λ h. elim h [ inl w ↦ absurd w | inr b ↦ b ])
  newer-BestWithin p none (some t) = (λ h. inl h, λ h. elim h [ inl w ↦ w | inr b ↦ absurd b ])
  newer-BestWithin p (some (q, u)) (some t) = elim (Bool-cases (leb u t)) [
    | inl later ↦
        rw later (λ h. inl h, λ h. elim h [ inl w ↦ w | inr b ↦ ground (arith, later, b) ])
    | inr earlier ↦
        rw earlier (λ h. inr h, λ h. elim h [ inl w ↦ ground (arith, earlier, w) | inr b ↦ b ])
  ]

  newest_project-Recorded :
      (ps : List ProjectFacts) → BestWithin (newest_project th now ps) ↔ Recorded th now ps
  unfolding newest_project
  newest_project-Recorded [] = (λ h. h, λ h. h)
  newest_project-Recorded (p ∷ ps) =
      let ih = newest_project-Recorded ps in
      let n = newer-BestWithin p (newest_project th now ps) p.newest_updated_at in
      elim (Bool-cases (watched th now p)) [
        | inl w ↦ rw w (
          λ h. elim (n.0 h) [ inl q ↦ inl (refl, q) | inr b ↦ inr (ih.0 b) ],
          λ h. elim h [ inl (v, q) ↦ n.1 (inl q) | inr b ↦ n.1 (inr (ih.1 b)) ],
        )
        | inr off ↦ rw off (
          λ h. inr (ih.0 h),
          λ h. elim h [ inl (v, q) ↦ absurd (ground (arith, v)) | inr b ↦ ih.1 b ],
        )
      ]

  abbrev InGrace : Option Instant → Type 0
  InGrace o = (started : Instant) × (o ≡ some started) × (now < started + grace th now)

  relay_grace_iff :
      (n : ℕ) (o : Option Instant) → (is_alarm (relay_grace th now n o).status ≡ false) ↔ InGrace o
  relay_grace_iff n none = (λ h. absurd cc, λ (t, e, l). absurd cc)
  relay_grace_iff n (some t) = elim (Bool-cases (ltb now (t + grace th now))) [
    | inl early ↦ rw early (λ h. (t, refl, ground (arith, early)), λ h. refl)
    | inr late ↦ rw late (λ h. absurd cc, λ (u, e, l). absurd (ground (arith, late, e, l)))
  ]

  relay_projects_iff :
      (n : ℕ) (state : MarkerState) (best : Option (ProjectFacts × Instant))
      → (is_alarm (relay_projects th now n state best).status ≡ false)
        ↔ (BestWithin best ⊎ InGrace state.started_at)
  relay_projects_iff n state none =
      let g = relay_grace_iff n state.started_at in
      (λ h. inr (g.0 h), λ h. elim h [ inl b ↦ absurd b | inr i ↦ g.1 i ])
  relay_projects_iff n state (some (p, t)) =
      let g = relay_grace_iff n state.started_at in
      elim (Bool-cases (leb now (t + window th now))) [
        | inl young ↦ rw young (λ h. inl (ground (arith, young)), λ h. refl)
        | inr old ↦ rw old (
          λ h. inr (g.0 h),
          λ h. elim h [ inl b ↦ absurd (ground (arith, old, b)) | inr i ↦ g.1 i ],
        )
      ]

  in_window_iff : (o : Option Instant) → (in_window th now o ≡ true) ↔ Within now (window th now) o
  in_window_iff none = (λ h. absurd cc, λ h. absurd h)
  in_window_iff (some t) = (λ h. ground arith, λ h. ground arith)

  relay_seen_iff :
      (store : Option StoreFacts) (scan : BuildScan) (state : MarkerState)
      → (is_alarm
            (relay_seen th now store
              (length (finished_within now (window th now) scan))
              state).status
          ≡ false)
        ↔ RelayAlive th now store state scan
  unfolding relay_seen
  relay_seen_iff store scan state =
      let n = length (finished_within now (window th now) scan) in
      let best = newest_project th now (project_rows store) in
      let p = relay_projects_iff n state best in
      let r = newest_project-Recorded (project_rows store) in
      let w = in_window_iff state.last_ingest_at in
      elim (Bool-cases (ltb n th.min_builds_in_window)) [
        | inl few ↦ rw few (λ h. inl (ground (arith, few)), λ h. refl)
        | inr many ↦ rw many (elim (Bool-cases (in_window th now state.last_ingest_at)) [
          | inl inside ↦ rw inside (λ h. inr (inl (w.0 inside)), λ h. refl)
          | inr outside ↦ rw outside (
            λ h. elim (p.0 h) [ inl b ↦ inr (inr (inl (r.0 b))) | inr i ↦ inr (inr (inr i)) ],
            λ h. elim h [
              | inl few ↦ absurd (ground (arith, many, few))
              | inr (inl q) ↦ absurd (ground (arith, outside, w.1 q))
              | inr (inr (inl q)) ↦ p.1 (inl (r.1 q))
              | inr (inr (inr q)) ↦ p.1 (inr q)
            ],
          )
        ])
      ]

  relay_with_scan_iff :
      (store : Option StoreFacts) (state : MarkerState) (scan : BuildScan) (o : Option Problem)
      → (is_alarm (relay_with_scan th now store state scan o).status ≡ false)
        ↔ ((o ≡ none) × RelayAlive th now store state scan)
  relay_with_scan_iff store state scan none =
      let r = relay_seen_iff store scan state in (λ h. (refl, r.0 h), λ (e, h). r.1 h)
  relay_with_scan_iff store state scan (some problem) = (λ h. absurd cc, λ (e, h). absurd cc)

  relay_with_builds_iff :
      (store : Option StoreFacts) (state : MarkerState) (builds : Option BuildScan)
      → (is_alarm (relay_with_builds th now store state builds).status ≡ false)
        ↔ ScanAlive th now store state builds
  relay_with_builds_iff store state none = (λ h. absurd cc, λ (scan, e, p, h). absurd cc)
  relay_with_builds_iff store state (some scan) =
      let r = relay_with_scan_iff store state scan scan.problem in
      (
        λ h. let (e, alive) = r.0 h in (scan, refl, e, alive),
        λ (scan', e, p, h). r.1 (
            subst (λ (x : BuildScan). (x.problem ≡ none) × RelayAlive th now store state x)
              (sym (some-injective scan scan' e)) (p, h)),
      )

  relay_with_state_iff :
      (store : Option StoreFacts) (builds : Option BuildScan) (problem : Option Problem)
      (o : Option MarkerState)
      → (is_alarm (relay_with_state th now store builds problem o).status ≡ false)
        ↔ StateAlive th now store builds o
  relay_with_state_iff store builds problem none = (λ h. absurd cc, λ (state, e, h). absurd cc)
  relay_with_state_iff store builds problem (some state) =
      let r = relay_with_builds_iff store state builds in
      (
        λ h. (state, refl, r.0 h),
        λ (state', e, h). r.1 (
            subst (λ (x : MarkerState). ScanAlive th now store x builds)
              (sym (some-injective state state' e)) h),
      )

  pub relay_check_iff :
      (builds : Option BuildScan) (marker : Option MarkerRead) (store : Option StoreFacts)
      → (is_alarm (relay_check th now builds marker store).status ≡ false)
        ↔ ((m : MarkerRead) × (marker ≡ some m) × StateAlive th now store builds m.state)
  unfolding relay_check
  relay_check_iff builds none store = (λ h. absurd cc, λ (m, e, h). absurd cc)
  relay_check_iff builds (some marker) store =
      let r = relay_with_state_iff store builds marker.problem marker.state in
      (
        λ h. (marker, refl, r.0 h),
        λ (m, e, h). r.1 (
            subst (λ (x : MarkerRead). StateAlive th now store builds x.state)
              (sym (some-injective marker m e)) h),
      )

  relay_grace-name :
      (n : ℕ) (o : Option Instant) → (relay_grace th now n o).name ≡ codes "relay_idle"
  relay_grace-name n none = refl
  relay_grace-name n (some t) = ground arith

  relay_projects-name :
      (n : ℕ) (state : MarkerState) (best : Option (ProjectFacts × Instant))
      → (relay_projects th now n state best).name ≡ codes "relay_idle"
  relay_projects-name n state none = relay_grace-name n state.started_at
  relay_projects-name n state (some (p, t)) = ground (arith, relay_grace-name n state.started_at)

  relay_seen-name :
      (store : Option StoreFacts) (n : ℕ) (state : MarkerState)
      → (relay_seen th now store n state).name ≡ codes "relay_idle"
  unfolding relay_seen
  relay_seen-name store n state =
      ground (arith, relay_projects-name n state (newest_project th now (project_rows store)))

  relay_with_scan-name :
      (store : Option StoreFacts) (state : MarkerState) (scan : BuildScan) (o : Option Problem)
      → (relay_with_scan th now store state scan o).name ≡ codes "relay_idle"
  relay_with_scan-name store state scan none =
      relay_seen-name store (length (finished_within now (window th now) scan)) state
  relay_with_scan-name store state scan (some problem) = refl

  relay_with_state-name :
      (store : Option StoreFacts) (builds : Option BuildScan) (problem : Option Problem)
      (o : Option MarkerState)
      → (relay_with_state th now store builds problem o).name ≡ codes "relay_idle"
  relay_with_state-name store builds problem none = refl
  relay_with_state-name store none problem (some state) = refl
  relay_with_state-name store (some scan) problem (some state) =
      relay_with_scan-name store state scan scan.problem

  pub relay_check-name :
      (builds : Option BuildScan) (marker : Option MarkerRead) (store : Option StoreFacts)
      → (relay_check th now builds marker store).name ≡ codes "relay_idle"
  unfolding relay_check
  relay_check-name builds none store = refl
  relay_check-name builds (some marker) store =
      relay_with_state-name store builds marker.problem marker.state
