-- ===== src/Payloads/BackwardEdge.antt =====
-- payloads/backward_edge.py: the role tag, and the validators of the backward-edge classes.
pub mod Validators
use fleet_memory.Prelude.{
  ℕ, Bool, true, false, ◌&&◌, ◌||◌, not, List, [], ◌∷◌, Option, none, some, Text, text_eq, text_mem,
  codes, ◌==◌, if◌then◌else◌, all, any, is_empty, length, nat_eq_int,
}
use fleet_memory.Payloads.Norm.{is_identifier_char}
use fleet_memory.Payloads.Models.{
  Kind, planning_outcome_payload, approval_decision_payload, deploy_record_payload,
  live_verdict_payload, grading_outcome_payload, spec_survival_payload, AssumptionDisposition,
  PlanningOutcome, ApprovalDecision, Body, planning_outcome, approval_decision, grading_outcome,
  spec_survival,
}

-- Without one line feed at the end: a `$` in a pattern matches before it too.
abbrev pub without_final_newline : Text → Text
without_final_newline [] = []
without_final_newline (c ∷ []) = if c == 10 then [] else c ∷ []
without_final_newline (c ∷ d ∷ s) = c ∷ without_final_newline (d ∷ s)

-- The text behind a prefix.
abbrev pub strip_prefix : Text → Text → Option Text
strip_prefix [] s = some s
strip_prefix (p ∷ ps) [] = none
strip_prefix (p ∷ ps) (c ∷ s) = if p == c then strip_prefix ps s else none

-- `[a-zA-Z0-9_-]`
is_tag_char : ℕ → Bool
unfolding is_identifier_char
is_tag_char c = is_identifier_char c || c == b'-'

-- `[a-zA-Z0-9_-]+`
unfoldable pub is_tag_segment : Text → Bool
unfolding is_tag_char
is_tag_segment s = not (is_empty s) && all is_tag_char s

seat_matches : Option Text → Bool
seat_matches none = false
seat_matches (some seat) = is_tag_segment (without_final_newline seat)

-- `_ROLE_TAG_PATTERN.match(tag)`
matches_role_tag : Text → Bool
unfolding seat_matches
matches_role_tag tag = seat_matches (strip_prefix (codes "role:") tag)

unfoldable pub has_role_tag : List Text → Bool
unfolding matches_role_tag
has_role_tag domain_tags = any matches_role_tag domain_tags

-- The truth value of an optional text.
abbrev pub is_truthy : Option Text → Bool
is_truthy none = false
is_truthy (some t) = not (is_empty t)

abbrev pub is_some {ℓ} : {A : Type ℓ} → Option A → Bool
is_some none = false
is_some (some a) = true

abbrev pub is_accepted : AssumptionDisposition → Bool
is_accepted a = text_eq a.disposition (codes "accepted")

-- `PlanningOutcomePayload._validate_assumptions`
unfoldable pub validate_assumptions : PlanningOutcome → Bool
validate_assumptions p =
    nat_eq_int (length p.assumptions) p.assumption_count
    && not (any (λ a. not (is_accepted a)) p.assumptions && not (is_truthy p.trace_ref))

abbrev human_decisions : List Text
human_decisions = codes "approved" ∷ codes "rejected" ∷ codes "revise" ∷ []

abbrev unobserved_decisions : List Text
unobserved_decisions = codes "timed_out" ∷ codes "escalated" ∷ []

-- `ApprovalDecisionPayload._validate_gate`
pub validate_gate : ApprovalDecision → Bool
validate_gate a =
    if not (is_truthy a.correlation_id || is_truthy a.feat_id || is_truthy a.task_id)
    then false
    else if text_mem a.decision human_decisions && not (is_truthy a.approver)
    then false
    else if text_mem a.decision unobserved_decisions && is_some a.approver
    then false
    else not (text_eq a.gate_kind (codes "planning_assumptions") && not (is_some a.cycle))

-- The validators that run on each class, in the order of inheritance.
unfoldable pub run_validators : List Text → Body → Bool
run_validators domain_tags (planning_outcome p) = has_role_tag domain_tags && validate_assumptions p
run_validators domain_tags (approval_decision a) = validate_gate a
run_validators domain_tags (grading_outcome g) = has_role_tag domain_tags
run_validators domain_tags (spec_survival s) = has_role_tag domain_tags
run_validators domain_tags _ = true

-- `BACKWARD_EDGE_PAYLOADS`: classes that are written down and not registered.
abbrev pub backward_edge_payloads : List (Text × Kind)
backward_edge_payloads =
    (codes "planning_outcome", planning_outcome_payload)
    ∷ (codes "approval_decision", approval_decision_payload)
    ∷ (codes "deploy_record", deploy_record_payload)
    ∷ (codes "live_verdict", live_verdict_payload)
    ∷ (codes "grading_outcome", grading_outcome_payload)
    ∷ (codes "spec_survival", spec_survival_payload)
    ∷ []
