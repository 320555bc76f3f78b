-- ===== src/Payloads/Models.antt =====
-- The payload classes of payloads/models.py and payloads/backward_edge.py: their names, and the
-- fields that each adds to `BasePayload`. Timestamps and scores, which no code of the service
-- reads, are kept as the texts of the wire.
use fleet_memory.Prelude.{◌≡◌, refl, Bool, true, false, List, Option, Text, codes, ℤ}

-- A payload class.
pub data Kind : Type 0 where
  adr_payload review_report_payload build_outcome_payload pattern_payload : Kind
  warning_payload seed_module_payload document_payload : Kind
  planning_outcome_payload approval_decision_payload deploy_record_payload : Kind
  live_verdict_payload grading_outcome_payload spec_survival_payload : Kind

-- The class variable `payload_type`.
unfoldable pub payload_type : Kind → Text
payload_type adr_payload = codes "adr"
payload_type review_report_payload = codes "review_report"
payload_type build_outcome_payload = codes "build_outcome"
payload_type pattern_payload = codes "pattern"
payload_type warning_payload = codes "warning"
payload_type seed_module_payload = codes "seed_module"
payload_type document_payload = codes "document"
payload_type planning_outcome_payload = codes "planning_outcome"
payload_type approval_decision_payload = codes "approval_decision"
payload_type deploy_record_payload = codes "deploy_record"
payload_type live_verdict_payload = codes "live_verdict"
payload_type grading_outcome_payload = codes "grading_outcome"
payload_type spec_survival_payload = codes "spec_survival"

pub record AssumptionDisposition : Type 0 where
  pub assumption_id : Text
  pub text : Option Text
  pub confidence : Text
  pub disposition : Text
  pub edit_delta : Option Text
  pub edit_delta_ref : Option Text
  pub notes : Option Text

pub record AssertionResult : Type 0 where
  pub id : Text
  pub gate_id : Text
  pub status : Text
  pub disposition : Option Text
  pub evidence_ref : Option Text

pub record PlanningOutcome : Type 0 where
  pub correlation_id : Text
  pub feat_id : Option Text
  pub originator : Text
  pub mode : Text
  pub terminal_state : Text
  pub assumption_count : ℤ
  pub assumptions : List AssumptionDisposition
  pub proposal_refs : Option (List Text)
  pub spec_ref : Option Text
  pub approval_cycles_used : Option ℤ
  pub started_at : Text
  pub duration_seconds : ℤ
  pub trace_ref : Option Text

pub record ApprovalDecision : Type 0 where
  pub correlation_id : Option Text
  pub gate_id : Text
  pub gate_kind : Text
  pub approver : Option Text
  pub decision : Text
  pub latency_seconds : ℤ
  pub cycle : Option ℤ
  pub escalated_to : Option Text
  pub task_id : Option Text
  pub feat_id : Option Text
  pub request_ref : Option Text

pub record DeployRecord : Type 0 where
  pub correlation_id : Text
  pub feat_id : Option Text
  pub task_id : Option Text
  pub deploy_run_id : Text
  pub env_id : Text
  pub status : Text
  pub artifact_digest : Option Text
  pub image_digests : Option (List (Text × Text))
  pub deploy_record_ref : Text
  pub deploy_profile_ref : Option Text
  pub runbook_ref : Option Text
  pub hosts : Option (List Text)
  pub reservation_resource : Option Text
  pub failed_step : Option Text
  pub duration_seconds : Option ℤ

pub record LiveVerdict : Type 0 where
  pub correlation_id : Text
  pub feat_id : Option Text
  pub task_id : Option Text
  pub run_id : Text
  pub env_id : Text
  pub verdict : Text
  pub gate_ids : List Text
  pub assertions : List AssertionResult
  pub evidence_index_ref : Text
  pub app_url : Option Text
  pub attempt : ℤ
  pub leak_sweep_findings : Option ℤ

pub record GradingOutcome : Type 0 where
  pub suite_id : Text
  pub suite_frozen_sha : Text
  pub model_id : Text
  pub checkpoint_id : Text
  pub dataset_sha : Option Text
  pub adapter_ref : Option Text
  pub gguf_digest : Option Text
  pub llama_swap_entry : Option Text
  pub per_criterion_scores : List (Text × Text)
  pub verdict : Text
  pub pre_registered_disposition_ref : Text
  pub rollout_count : Option ℤ
  pub voided : Bool
  pub voided_reason : Option Text

pub record SpecSurvival : Type 0 where
  pub spec_id : Text
  pub correlation_id : Text
  pub survival_state : Text
  pub spec_ref : Text
  pub planned_at : Text
  pub build_status : Option Text
  pub build_outcome_ref : Option Text
  pub built_at : Option Text
  pub acceptance_verdict : Option Text
  pub live_verdict_ref : Option Text
  pub accepted_at : Option Text
  pub edges_present : List Text

-- The fields of one class, beside those of `BasePayload`.
pub data Body : Type 0 where
  adr :
      (decision status : Text) (title context consequences : Option Text)
      (alternatives : Option (List Text))
      → Body
  review_report : (verdict : Text) → Body
  build_outcome :
      (status : Text) (duration_seconds : ℤ) (task_id lessons approach : Option Text) → Body
  pattern_of : (pattern_name category : Text) → Body
  warning : (severity message : Text) → Body
  seed_module : (module_path : Text) → Body
  document : (content : Option Text) → Body
  planning_outcome : PlanningOutcome → Body
  approval_decision : ApprovalDecision → Body
  deploy_record : DeployRecord → Body
  live_verdict : LiveVerdict → Body
  grading_outcome : GradingOutcome → Body
  spec_survival : SpecSurvival → Body

-- The class that has these fields.
unfoldable pub kind_of : Body → Kind
kind_of (adr _ _ _ _ _ _) = adr_payload
kind_of (review_report _) = review_report_payload
kind_of (build_outcome _ _ _ _ _) = build_outcome_payload
kind_of (pattern_of _ _) = pattern_payload
kind_of (warning _ _) = warning_payload
kind_of (seed_module _) = seed_module_payload
kind_of (document _) = document_payload
kind_of (planning_outcome _) = planning_outcome_payload
kind_of (approval_decision _) = approval_decision_payload
kind_of (deploy_record _) = deploy_record_payload
kind_of (live_verdict _) = live_verdict_payload
kind_of (grading_outcome _) = grading_outcome_payload
kind_of (spec_survival _) = spec_survival_payload

Kind-discrete : Discrete Kind
Kind-discrete = hlevel

abbrev is_yes {ℓ} : {A : Type ℓ} → Dec A → Bool
is_yes (yes a) = true
is_yes (no n) = false

-- `k is l` for two classes
unfoldable pub kind_eq : Kind → Kind → Bool
unfolding Kind-discrete
kind_eq k l = is_yes (Kind-discrete k l)

pub kind_eq→eq : (k l : Kind) → kind_eq k l ≡ true → k ≡ l
unfolding kind_eq
kind_eq→eq k l = go (Kind-discrete k l)
  where
    go : (d : Dec (k ≡ l)) → is_yes d ≡ true → k ≡ l
    go (yes same) h = same
    go (no differ) h = cc

pub kind_eq_refl : (k : Kind) → kind_eq k k ≡ true
unfolding kind_eq
kind_eq_refl k = go (Kind-discrete k k)
  where
    go : (d : Dec (k ≡ k)) → is_yes d ≡ true
    go (yes same) = refl
    go (no differ) = absurd (differ refl)
