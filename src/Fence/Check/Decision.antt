-- ===== src/Fence/Check/Decision.antt =====
-- A run is quiet exactly if its inputs are.
use fleet_memory.Prelude.{
  ◌≡◌, refl, sym, ap, ◌∙◌, inl, inr, ◌↔◌, Bool, true, false, List, [], ◌∷◌, ◌++◌, All, map,
  Bool-cases, if◌then◌else◌,
}
use fleet_memory.Fence.Time.{Instant}
use fleet_memory.Fence.Verdict.{Status, is_alarm, CheckResult}
use fleet_memory.Fence.Ack.{AckState, holds}
use fleet_memory.Fence.Report.{Thresholds, FenceFacts}
use fleet_memory.Fence.Check.{relay_check, apply_ack, evaluate, overall, all_checks, store_checks}
use fleet_memory.Fence.Check.Relay.{relay_check_iff, relay_check-name}
use fleet_memory.Fence.Check.Quiet.{StoreQuiet, RelayQuiet}
use fleet_memory.Fence.Check.Stores.{Calm, Calm-iff, All-store_checks}

module _ (th : Thresholds) (now : Instant) where
  relay_check-quiet :
      (facts : FenceFacts)
      → Calm facts.ack (relay_check th now facts.builds facts.marker facts.store)
        ↔ RelayQuiet facts.ack th now facts
  relay_check-quiet facts =
      let c = relay_check th now facts.builds facts.marker facts.store in
      let r = relay_check_iff th now facts.builds facts.marker facts.store in
      let k = Calm-iff facts.ack c in
      let named = relay_check-name th now facts.builds facts.marker facts.store in
      (
        λ q. elim (k.0 q) [
          | inl h ↦ inl (ap (holds facts.ack) (sym named) ∙ h)
          | inr s ↦ inr (r.0 s)
        ],
        λ q. elim q [
          | inl h ↦ k.1 (inl (ap (holds facts.ack) named ∙ h))
          | inr s ↦ k.1 (inr (r.1 s))
        ],
      )

  overall_iff :
      (ack : AckState) (cs : List CheckResult)
      → (overall (map (apply_ack ack) cs) ≡ Status.ok) ↔ All (Calm ack) cs
  overall_iff ack [] = (λ h. tt, λ h. refl)
  overall_iff ack (c ∷ cs) =
      let ih = overall_iff ack cs in
      elim (Bool-cases (is_alarm (apply_ack ack c).status)) [
        | inl loud ↦ rw loud (λ h. absurd cc, λ h. absurd cc)
        | inr calm ↦ rw calm (λ h. (refl, ih.0 h), λ h. ih.1 h.1)
      ]

  All-append_iff :
      (ack : AckState) (xs ys : List CheckResult)
      → All (Calm ack) (xs ++ ys) ↔ (All (Calm ack) xs × All (Calm ack) ys)
  All-append_iff ack [] ys = (λ h. (tt, h), λ h. h.1)
  All-append_iff ack (x ∷ xs) ys =
      let ih = All-append_iff ack xs ys in
      (λ h. ((h.0, (ih.0 h.1).0), (ih.0 h.1).1), λ h. (h.0.0, ih.1 (h.0.1, h.1)))

  All-unless :
      (ack : AckState) (b : Bool) (cs : List CheckResult)
      → All (Calm ack) (if b then [] else cs) ↔ (b ≡ false → All (Calm ack) cs)
  All-unless ack true cs = (λ h e. absurd cc, λ h. tt)
  All-unless ack false cs = (λ h e. h, λ h. h refl)

  -- The verdict of a run is OK exactly if its inputs are quiet: unless the run is for the relay only,
  -- the store was read, is not empty, and its newest row and that of each watched project are within
  -- the limit, or an acknowledgement covers what is not so; and unless the run is for the store only,
  -- an acknowledgement covers the relay, or the marker and the receipts were seen and there are too
  -- few builds, or the relay or a watched project has recorded work in the window, or the relay has
  -- just started.
  pub evaluate-ok_iff :
      (facts : FenceFacts) (store_only relay_only : Bool)
      → ((evaluate th now facts store_only relay_only).status ≡ Status.ok) ↔ (
          (relay_only ≡ false → StoreQuiet facts.ack th now facts.store)
          × (store_only ≡ false → RelayQuiet facts.ack th now facts))
  unfolding evaluate
  evaluate-ok_iff facts store_only relay_only =
      let relay = relay_check th now facts.builds facts.marker facts.store ∷ [] in
      let stores = store_checks th now facts.store in
      let o = overall_iff facts.ack (all_checks th now facts store_only relay_only) in
      let a =
        All-append_iff facts.ack (if relay_only then [] else stores)
          (if store_only then [] else relay) in
      let s = All-unless facts.ack relay_only stores in
      let r = All-unless facts.ack store_only relay in
      let sq = All-store_checks th now facts.ack facts.store in
      let rq = relay_check-quiet facts in
      (
        λ h. let (hs, hr) = a.0 (o.0 h) in (λ e. sq.0 (s.0 hs e), λ e. rq.0 (r.0 hr e).0),
        λ (qs, qr). o.1 (a.1 (s.1 (λ e. sq.1 (qs e)), r.1 (λ e. (rq.1 (qr e), tt)))),
      )
