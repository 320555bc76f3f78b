-- ===== src/Payloads/Tests.antt =====
-- Runs of the payload theorems at concrete payloads.
use fleet_memory.Prelude.{◌≡◌, refl, ◌↔◌, true, [], ◌∷◌, none, some, codes, pos, Text, text_eq, ◌≢◌}
use fleet_memory.Errors.{ok}
use fleet_memory.Payloads.Norm.{is_identifier}
use fleet_memory.Payloads.Models.{
  warning_payload, warning, kind_of, PlanningOutcome, ApprovalDecision,
}
use fleet_memory.Payloads.BackwardEdge.{validate_assumptions, run_validators}
use fleet_memory.Payloads.Base.{
  PayloadData, Payload, natural_key, is_key_shaped, collapse, construct,
}
use fleet_memory.Payloads.Base.WellFormed.{IsWellFormed, Holds, construct_iff}

abbrev disk_data : PayloadData
disk_data = record {
  project = some (codes "guardkit");
  identifier = some (codes "DISK_1");
  domain_tags = none;
  source_ref = some (codes "docs/disk.md");
  version = none;
  supersedes = some (codes "warning:guardkit:DISK_0" ∷ codes "warning:guardkit:DISK_0" ∷ []);
  body = some (warning (codes "high") (codes "the disk is full"));
}

abbrev disk_warning : Payload
disk_warning = record {
  project = codes "guardkit";
  identifier = codes "DISK_1";
  domain_tags = [];
  source_ref = codes "docs/disk.md";
  version = pos 1;
  supersedes = codes "warning:guardkit:DISK_0" ∷ [];
  body = warning (codes "high") (codes "the disk is full");
}

disk_warning-Holds : Holds warning_payload disk_data disk_warning
unfolding kind_of collapse text_eq
disk_warning-Holds = record {
  project = refl;
  identifier = refl;
  source_ref = refl;
  body = refl;
  kind = refl;
  domain_tags = refl;
  version = refl;
  supersedes = refl;
}

disk_warning-IsWellFormed : IsWellFormed disk_warning
unfolding is_identifier is_key_shaped natural_key run_validators text_eq
disk_warning-IsWellFormed = record {
  project = refl;
  identifier = refl;
  distinct = (refl, tt);
  shapes = (refl, tt);
  no_self = refl;
  validated = refl;
}

construct_iff_example :
    (construct warning_payload disk_data ≡ ok disk_warning)
    ↔ (Holds warning_payload disk_data disk_warning × IsWellFormed disk_warning)
construct_iff_example = construct_iff warning_payload disk_data disk_warning

-- The construction does succeed.
construct_disk : construct warning_payload disk_data ≡ ok disk_warning
construct_disk =
    (construct_iff warning_payload disk_data disk_warning).1
      (disk_warning-Holds, disk_warning-IsWellFormed)

abbrev planning : PlanningOutcome
planning = record {
  correlation_id = codes "c1";
  feat_id = none;
  originator = codes "planner";
  mode = codes "auto";
  terminal_state = codes "approved";
  assumption_count = pos 1;
  assumptions =
      record {
        assumption_id = codes "a1";
        text = none;
        confidence = codes "high";
        disposition = codes "edited";
        edit_delta = none;
        edit_delta_ref = none;
        notes = none;
      }
      ∷ [];
  proposal_refs = none;
  spec_ref = none;
  approval_cycles_used = none;
  started_at = codes "2026-01-01T00:00:00Z";
  duration_seconds = pos 3;
  trace_ref = some (codes "trace-1");
}

planning_passes : validate_assumptions planning ≡ true
unfolding validate_assumptions text_eq
planning_passes = refl

abbrev timeout_decision : ApprovalDecision
timeout_decision = record {
  correlation_id = some (codes "c1");
  gate_id = codes "g1";
  gate_kind = codes "release";
  approver = none;
  decision = codes "timed_out";
  latency_seconds = pos 60;
  cycle = none;
  escalated_to = none;
  task_id = none;
  feat_id = none;
  request_ref = none;
}

abbrev raw_id : Text
raw_id = codes "TASK-1.a"

raw_id_some : raw_id ≢ []
raw_id_some = λ e. cc
