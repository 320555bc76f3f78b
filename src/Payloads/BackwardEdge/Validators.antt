-- ===== src/Payloads/BackwardEdge/Validators.antt =====
-- What the validators of the backward-edge classes guarantee.
use fleet_memory.Prelude.{
  ◌≡◌, ◌↔◌, ◌⊎◌, true, false, List, [], ◌∷◌, none, All, text_eq_iff, codes, length, any, not, pos,
  arith,
}
use fleet_memory.Payloads.Models.{AssumptionDisposition, PlanningOutcome, ApprovalDecision}
use fleet_memory.Payloads.BackwardEdge.{
  is_truthy, is_some, is_accepted, validate_assumptions, validate_gate,
}

All-is_accepted :
    (xs : List AssumptionDisposition)
    → any (λ a. not (is_accepted a)) xs ≡ false
    → All (λ a. a.disposition ≡ codes "accepted") xs
All-is_accepted [] h = tt
All-is_accepted (a ∷ xs) h =
    ground (arith, text_eq_iff a.disposition (codes "accepted"), All-is_accepted xs)

-- A planning outcome that passes counts its assumptions rightly, and has a trace reference or
-- only accepted assumptions.
pub validate_assumptions_sound :
    (p : PlanningOutcome)
    → validate_assumptions p ≡ true
    → (pos (length p.assumptions) ≡ p.assumption_count)
      × ((is_truthy p.trace_ref ≡ true) ⊎ All (λ a. a.disposition ≡ codes "accepted") p.assumptions)
unfolding validate_assumptions
validate_assumptions_sound p h = ground (arith, All-is_accepted p.assumptions)

-- The rules of an approval decision.
pub record IsAttributed (a : ApprovalDecision) : Type 0 where
  pub joined :
      (is_truthy a.correlation_id ≡ true)
      ⊎ (is_truthy a.feat_id ≡ true)
      ⊎ (is_truthy a.task_id ≡ true)
  pub approved : a.decision ≡ codes "approved" → is_truthy a.approver ≡ true
  pub rejected : a.decision ≡ codes "rejected" → is_truthy a.approver ≡ true
  pub revised : a.decision ≡ codes "revise" → is_truthy a.approver ≡ true
  pub timed_out : a.decision ≡ codes "timed_out" → a.approver ≡ none
  pub escalated : a.decision ≡ codes "escalated" → a.approver ≡ none
  pub cyclic : a.gate_kind ≡ codes "planning_assumptions" → is_some a.cycle ≡ true

-- An approval decision passes exactly when it names a work item, names its approver if a human
-- approved, rejected or revised and none if it timed out or was escalated, and has its cycle if the
-- gate is for planning.
pub validate_gate_iff : (a : ApprovalDecision) → (validate_gate a ≡ true) ↔ IsAttributed a
unfolding validate_gate
validate_gate_iff a = (
  λ h. record {
    joined = ground (arith);
    approved = λ e. ground (arith, text_eq_iff (codes "approved") a.decision);
    rejected = λ e. ground (arith, text_eq_iff (codes "rejected") a.decision);
    revised = λ e. ground (arith, text_eq_iff (codes "revise") a.decision);
    timed_out = λ e. ground (arith, text_eq_iff (codes "timed_out") a.decision);
    escalated = λ e. ground (arith, text_eq_iff (codes "escalated") a.decision);
    cyclic = λ e. ground (arith, text_eq_iff a.gate_kind (codes "planning_assumptions"));
  },
  λ v. ground (
    arith,
    v.joined,
    text_eq_iff (codes "approved") a.decision,
    text_eq_iff (codes "rejected") a.decision,
    text_eq_iff (codes "revise") a.decision,
    text_eq_iff (codes "timed_out") a.decision,
    text_eq_iff (codes "escalated") a.decision,
    text_eq_iff a.gate_kind (codes "planning_assumptions"),
  ),
)
