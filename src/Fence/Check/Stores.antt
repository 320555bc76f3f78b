-- ===== src/Fence/Check/Stores.antt =====
-- When the checks of the store are no alarms.
use fleet_memory.Prelude.{
  ℕ, ◌+◌, ◌≡◌, refl, sym, ap, ◌∙◌, ◌≢◌, ◌⊎◌, inl, inr, ◌↔◌, true, false, List, [], ◌∷◌, Option,
  none, some, Text, codes, All, map, ltb, ◌==◌, arith, Bool-cases,
}
use fleet_memory.Fence.Time.{Instant}
use fleet_memory.Fence.Verdict.{
  is_alarm, CheckResult, blind_reason, store_empty, store_unreachable, store_not_seen,
}
use fleet_memory.Fence.Ack.{AckState, holds}
use fleet_memory.Fence.StoreAge.{StoreFacts, ProjectFacts}
use fleet_memory.Fence.Report.{Thresholds}
use fleet_memory.Fence.Check.{
  project_check_name, max_age, project_check, store_check, project_newest, store_newest, tripped_by,
  apply_ack, store_checks,
}
use fleet_memory.Fence.Check.Quiet.{Within, Held, ProjectQuiet, StoreQuiet}

-- What is left of a check after the acknowledgement is no alarm.
abbrev pub Calm : AckState → CheckResult → Type 0
Calm ack c = is_alarm (apply_ack ack c).status ≡ false

pub Calm-iff :
    (ack : AckState) (c : CheckResult)
    → Calm ack c ↔ (Held ack c.name ⊎ (is_alarm c.status ≡ false))
unfolding apply_ack
Calm-iff ack c = elim (Bool-cases (is_alarm c.status)) [
  | inl tripped ↦ elim (Bool-cases (holds ack c.name)) [
    | inl h ↦ (λ q. inl h, λ q. rw (tripped, h) refl)
    | inr n ↦ (λ q. absurd (ground (arith, tripped, n, q)), λ q. ground (arith, tripped, n, q))
  ]
  | inr quiet ↦ (λ q. inr quiet, λ q. rw quiet quiet)
]

-- The name of a check, and when it is no alarm.
record Judged (c : CheckResult) (name : Text) (P : Type 0) : Type 0 where
  named : c.name ≡ name
  verdict : (is_alarm c.status ≡ false) ↔ P

Judged-Calm :
    (ack : AckState) (c : CheckResult) (name : Text) (P : Type 0)
    → Judged c name P
    → Calm ack c ↔ (Held ack name ⊎ P)
Judged-Calm ack c name P j = (
  λ q. elim ((Calm-iff ack c).0 q) [
    | inl h ↦ inl (ap (holds ack) (sym j.named) ∙ h)
    | inr s ↦ inr (j.verdict.0 s)
  ],
  λ q. elim q [
    | inl h ↦ (Calm-iff ack c).1 (inl (ap (holds ack) j.named ∙ h))
    | inr s ↦ (Calm-iff ack c).1 (inr (j.verdict.1 s))
  ],
)

module _ (th : Thresholds) (now : Instant) where
  project_newest-Judged :
      (p : Text) (n : ℕ) (o : Option Instant)
      → Judged (project_newest th now p n o) (project_check_name p) (Within now (max_age th now) o)
  project_newest-Judged p n none = record { named = refl; verdict = (λ h. cc, λ h. absurd h) }
  project_newest-Judged p n (some t) = elim (Bool-cases (ltb (t + max_age th now) now)) [
    | inl old ↦
        rw old (record {
          named = refl;
          verdict = (λ h. absurd cc, λ h. absurd (ground (arith, old, h)));
        })
    | inr young ↦
        rw young (record { named = refl; verdict = (λ h. ground (arith, young), λ h. refl) })
  ]

  project_check-Judged :
      (p : ProjectFacts)
      → Judged
          (project_check th now p)
          (project_check_name p.project)
          ((p.row_count ≢ 0) × Within now (max_age th now) p.newest_updated_at)
  unfolding project_check
  project_check-Judged p = elim (Bool-cases (p.row_count == 0)) [
    | inl empty ↦ rw empty (record {
      named = refl;
      verdict = (λ h. absurd cc, λ h. absurd (h.0 (ground (arith, empty))));
    })
    | inr rows ↦
        let j = project_newest-Judged p.project p.row_count p.newest_updated_at in
        rw rows (record {
          named = j.named;
          verdict = (λ h. (ground (arith, rows), j.verdict.0 h), λ h. j.verdict.1 h.1);
        })
  ]

  store_newest-Judged :
      (n : ℕ) (o : Option Instant)
      → Judged (store_newest th now n o) (codes "store_age") (Within now (max_age th now) o)
  store_newest-Judged n none = record { named = refl; verdict = (λ h. cc, λ h. absurd h) }
  store_newest-Judged n (some t) = elim (Bool-cases (ltb (t + max_age th now) now)) [
    | inl old ↦
        rw old (record {
          named = refl;
          verdict = (λ h. absurd cc, λ h. absurd (ground (arith, old, h)));
        })
    | inr young ↦
        rw young (record { named = refl; verdict = (λ h. ground (arith, young), λ h. refl) })
  ]

  All-project_check :
      (ack : AckState) (ps : List ProjectFacts)
      → All (Calm ack) (map (project_check th now) ps) ↔ All (ProjectQuiet ack th now) ps
  All-project_check ack [] = (λ h. tt, λ h. tt)
  All-project_check ack (p ∷ ps) =
      let here =
        Judged-Calm ack (project_check th now p) (project_check_name p.project)
          ((p.row_count ≢ 0) × Within now (max_age th now) p.newest_updated_at)
          (project_check-Judged p) in
      let later = All-project_check ack ps in
      (λ (h, hs). (here.0 h, later.0 hs), λ (h, hs). (here.1 h, later.1 hs))

  -- A check that has tripped is calm only if it is held.
  Calm-Held :
      (ack : AckState) (c : CheckResult) → is_alarm c.status ≡ true → Calm ack c ↔ Held ack c.name
  Calm-Held ack c tripped = (
    λ q. elim ((Calm-iff ack c).0 q) [ inl h ↦ h | inr s ↦ absurd (ground (arith, tripped, s)) ],
    λ h. (Calm-iff ack c).1 (inl h),
  )

  All-store_check :
      (ack : AckState) (s : StoreFacts)
      → All (Calm ack) (store_check th now s) ↔ StoreQuiet ack th now (some s)
  unfolding store_check
  All-store_check ack s = elim (Bool-cases s.reachable) [
    | inl up ↦ rw up (elim (Bool-cases (s.row_count == 0)) [
      | inl empty ↦
          let h =
            Calm-Held ack
              (tripped_by (codes "store_age") (codes "STORE_EMPTY") (store_empty s.target)) refl in
          rw empty (
            λ q. inl (inr (ground (arith, empty)), h.0 q.0),
            λ q. elim q [ inl d ↦ (h.1 d.1, tt) | inr l ↦ absurd (l.1 (ground (arith, empty))) ],
          )
      | inr rows ↦
          let n =
            Judged-Calm ack (store_newest th now s.row_count s.newest_updated_at)
              (codes "store_age") (Within now (max_age th now) s.newest_updated_at)
              (store_newest-Judged s.row_count s.newest_updated_at) in
          let p = All-project_check ack s.per_project in
          rw rows (
            λ q. inr (refl, ground (arith, rows), n.0 q.0, p.0 q.1),
            λ q. elim q [
              | inl (inl down, _) ↦ absurd (cc)
              | inl (inr none_there, _) ↦ absurd (ground (arith, rows, none_there))
              | inr l ↦ (n.1 l.2, p.1 l.3)
            ],
          )
    ])
    | inr down ↦
        let h =
          Calm-Held ack
            (tripped_by (codes "store_age") (codes "STORE_UNREACHABLE")
              (store_unreachable s.problem))
            refl in
        rw down (
          λ q. inl (inl refl, h.0 q.0),
          λ q. elim q [ inl d ↦ (h.1 d.1, tt) | inr l ↦ absurd (ground (arith, l.0)) ],
        )
  ]

  pub All-store_checks :
      (ack : AckState) (o : Option StoreFacts)
      → All (Calm ack) (store_checks th now o) ↔ StoreQuiet ack th now o
  All-store_checks ack (some s) = All-store_check ack s
  All-store_checks ack none =
      let h = Calm-Held ack (tripped_by (codes "store_age") blind_reason store_not_seen) refl in
      (λ q. h.0 q.0, λ q. (h.1 q, tt))
