-- ===== src/Writer/Identity/Dump.antt =====
-- `payload.model_dump()`: the fields of the payload, then the computed natural key.
use fleet_memory.Prelude.{List, [], ◌∷◌, Option, none, some, Text, codes, ℤ}
use fleet_memory.Json.{
  Json, null, bool, num, float, str, datetime, arr, obj, Items, nil, cons, Fields, end, field,
}
use fleet_memory.Payloads.Models.{
  AssumptionDisposition, AssertionResult, Body, adr, review_report, build_outcome, pattern_of,
  warning, seed_module, document, planning_outcome, approval_decision, deploy_record, live_verdict,
  grading_outcome, spec_survival,
}
use fleet_memory.Payloads.Base.{Payload, natural_key}

unfoldable pub opt_str : Option Text → Json
opt_str none = null
opt_str (some t) = str t

opt_datetime : Option Text → Json
opt_datetime none = null
opt_datetime (some t) = datetime t

opt_num : Option ℤ → Json
opt_num none = null
opt_num (some z) = num z

unfoldable pub strs : List Text → Items
strs [] = nil
strs (t ∷ ts) = cons (str t) (strs ts)

unfoldable pub opt_strs : Option (List Text) → Json
unfolding strs
opt_strs none = null
opt_strs (some ts) = arr (strs ts)

str_fields : List (Text × Text) → Fields
str_fields [] = end
str_fields ((k, v) ∷ rest) = field k (str v) (str_fields rest)

opt_str_fields : Option (List (Text × Text)) → Json
unfolding str_fields
opt_str_fields none = null
opt_str_fields (some kvs) = obj (str_fields kvs)

float_fields : List (Text × Text) → Fields
float_fields [] = end
float_fields ((k, v) ∷ rest) = field k (float v) (float_fields rest)

dispositions : List AssumptionDisposition → Items
unfolding opt_str
dispositions [] = nil
dispositions (a ∷ rest) =
    cons
      (obj (
        field (codes "assumption_id") (str a.assumption_id) (
          field (codes "text") (opt_str a.text) (
            field (codes "confidence") (str a.confidence) (
              field (codes "disposition") (str a.disposition) (
                field (codes "edit_delta") (opt_str a.edit_delta) (
                  field (codes "edit_delta_ref") (opt_str a.edit_delta_ref)
                    (field (codes "notes") (opt_str a.notes) end))))))))
      (dispositions rest)

assertion_results : List AssertionResult → Items
unfolding opt_str
assertion_results [] = nil
assertion_results (a ∷ rest) =
    cons
      (obj (
        field (codes "id") (str a.id) (
          field (codes "gate_id") (str a.gate_id) (
            field (codes "status") (str a.status) (
              field (codes "disposition") (opt_str a.disposition)
                (field (codes "evidence_ref") (opt_str a.evidence_ref) end))))))
      (assertion_results rest)

-- The fields of the class, in front of `rest`.
unfoldable pub body_fields : Body → Fields → Fields
unfolding opt_str opt_datetime opt_num opt_strs opt_str_fields float_fields dispositions
    assertion_results
body_fields (adr decision status title context consequences alternatives) rest =
    field (codes "decision") (str decision) (
      field (codes "status") (str status) (
        field (codes "title") (opt_str title) (
          field (codes "context") (opt_str context) (
            field (codes "consequences") (opt_str consequences)
              (field (codes "alternatives") (opt_strs alternatives) rest)))))
body_fields (review_report verdict) rest = field (codes "verdict") (str verdict) rest
body_fields (build_outcome status duration_seconds task_id lessons approach) rest =
    field (codes "status") (str status) (
      field (codes "duration_seconds") (num duration_seconds) (
        field (codes "task_id") (opt_str task_id) (
          field (codes "lessons") (opt_str lessons)
            (field (codes "approach") (opt_str approach) rest))))
body_fields (pattern_of pattern_name category) rest =
    field (codes "pattern_name") (str pattern_name) (field (codes "category") (str category) rest)
body_fields (warning severity message) rest =
    field (codes "severity") (str severity) (field (codes "message") (str message) rest)
body_fields (seed_module module_path) rest = field (codes "module_path") (str module_path) rest
body_fields (document content) rest = field (codes "content") (opt_str content) rest
body_fields (planning_outcome p) rest = field (codes "correlation_id") (str p.correlation_id) (
    field (codes "feat_id") (opt_str p.feat_id) (
      field (codes "originator") (str p.originator) (
        field (codes "mode") (str p.mode) (
          field (codes "terminal_state") (str p.terminal_state) (
            field (codes "assumption_count") (num p.assumption_count) (
              field (codes "assumptions") (arr (dispositions p.assumptions)) (
                field (codes "proposal_refs") (opt_strs p.proposal_refs) (
                  field (codes "spec_ref") (opt_str p.spec_ref) (
                    field (codes "approval_cycles_used") (opt_num p.approval_cycles_used) (
                      field (codes "started_at") (datetime p.started_at) (
                        field (codes "duration_seconds") (num p.duration_seconds)
                          (field (codes "trace_ref") (opt_str p.trace_ref) rest))))))))))))
body_fields (approval_decision a) rest = field (codes "correlation_id") (opt_str a.correlation_id) (
    field (codes "gate_id") (str a.gate_id) (
      field (codes "gate_kind") (str a.gate_kind) (
        field (codes "approver") (opt_str a.approver) (
          field (codes "decision") (str a.decision) (
            field (codes "latency_seconds") (num a.latency_seconds) (
              field (codes "cycle") (opt_num a.cycle) (
                field (codes "escalated_to") (opt_str a.escalated_to) (
                  field (codes "task_id") (opt_str a.task_id) (
                    field (codes "feat_id") (opt_str a.feat_id)
                      (field (codes "request_ref") (opt_str a.request_ref) rest))))))))))
body_fields (deploy_record r) rest = field (codes "correlation_id") (str r.correlation_id) (
    field (codes "feat_id") (opt_str r.feat_id) (
      field (codes "task_id") (opt_str r.task_id) (
        field (codes "deploy_run_id") (str r.deploy_run_id) (
          field (codes "env_id") (str r.env_id) (
            field (codes "status") (str r.status) (
              field (codes "artifact_digest") (opt_str r.artifact_digest) (
                field (codes "image_digests") (opt_str_fields r.image_digests) (
                  field (codes "deploy_record_ref") (str r.deploy_record_ref) (
                    field (codes "deploy_profile_ref") (opt_str r.deploy_profile_ref) (
                      field (codes "runbook_ref") (opt_str r.runbook_ref) (
                        field (codes "hosts") (opt_strs r.hosts) (
                          field (codes "reservation_resource") (opt_str r.reservation_resource) (
                            field (codes "failed_step") (opt_str r.failed_step) (
                              field (codes "duration_seconds") (opt_num r.duration_seconds)
                                rest))))))))))))))
body_fields (live_verdict v) rest = field (codes "correlation_id") (str v.correlation_id) (
    field (codes "feat_id") (opt_str v.feat_id) (
      field (codes "task_id") (opt_str v.task_id) (
        field (codes "run_id") (str v.run_id) (
          field (codes "env_id") (str v.env_id) (
            field (codes "verdict") (str v.verdict) (
              field (codes "gate_ids") (opt_strs (some v.gate_ids)) (
                field (codes "assertions") (arr (assertion_results v.assertions)) (
                  field (codes "evidence_index_ref") (str v.evidence_index_ref) (
                    field (codes "app_url") (opt_str v.app_url) (
                      field (codes "attempt") (num v.attempt) (
                        field (codes "leak_sweep_findings") (opt_num v.leak_sweep_findings)
                          rest)))))))))))
body_fields (grading_outcome g) rest = field (codes "suite_id") (str g.suite_id) (
    field (codes "suite_frozen_sha") (str g.suite_frozen_sha) (
      field (codes "model_id") (str g.model_id) (
        field (codes "checkpoint_id") (str g.checkpoint_id) (
          field (codes "dataset_sha") (opt_str g.dataset_sha) (
            field (codes "adapter_ref") (opt_str g.adapter_ref) (
              field (codes "gguf_digest") (opt_str g.gguf_digest) (
                field (codes "llama_swap_entry") (opt_str g.llama_swap_entry) (
                  field (codes "per_criterion_scores") (obj (float_fields g.per_criterion_scores)) (
                    field (codes "verdict") (str g.verdict) (
                      field (codes "pre_registered_disposition_ref")
                        (str g.pre_registered_disposition_ref)
                        (field (codes "rollout_count") (opt_num g.rollout_count) (
                          field (codes "voided") (bool g.voided) (
                            field (codes "voided_reason") (opt_str g.voided_reason)
                              rest)))))))))))))
body_fields (spec_survival s) rest = field (codes "spec_id") (str s.spec_id) (
    field (codes "correlation_id") (str s.correlation_id) (
      field (codes "survival_state") (str s.survival_state) (
        field (codes "spec_ref") (str s.spec_ref) (
          field (codes "planned_at") (datetime s.planned_at) (
            field (codes "build_status") (opt_str s.build_status) (
              field (codes "build_outcome_ref") (opt_str s.build_outcome_ref) (
                field (codes "built_at") (opt_datetime s.built_at) (
                  field (codes "acceptance_verdict") (opt_str s.acceptance_verdict) (
                    field (codes "live_verdict_ref") (opt_str s.live_verdict_ref) (
                      field (codes "accepted_at") (opt_datetime s.accepted_at) (
                        field (codes "edges_present") (opt_strs (some s.edges_present))
                          rest)))))))))))

unfoldable pub model_dump : Payload → Fields
unfolding body_fields natural_key opt_strs
model_dump p = field (codes "project") (str p.project) (
    field (codes "identifier") (str p.identifier) (
      field (codes "domain_tags") (opt_strs (some p.domain_tags)) (
        field (codes "source_ref") (str p.source_ref) (
          field (codes "version") (num p.version) (
            field (codes "supersedes") (opt_strs (some p.supersedes))
              (body_fields p.body (field (codes "natural_key") (str (natural_key p)) end)))))))
