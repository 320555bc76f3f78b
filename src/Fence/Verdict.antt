-- ===== src/Fence/Verdict.antt =====
-- fence/__init__.py: the outcome of a check and of a run. A message is a constructor with the
-- values that its f-string shows. The `detail` of a check, which is for the status file only, is
-- left out.
use fleet_memory.Prelude.{ℕ, Bool, true, false, Option, Text, codes, ℤ}

pub data Status : Type 0 where
  ok alarm held : Status

-- `status is Status.ALARM`
abbrev pub is_alarm : Status → Bool
is_alarm alarm = true
is_alarm _ = false

abbrev pub is_held : Status → Bool
is_held held = true
is_held _ = false

abbrev pub blind_reason : Text
blind_reason = codes "BLIND"

-- Why an input of the fence cannot be seen.
pub data Problem : Type 0 where
  marker_not_written : Problem
  marker_cannot_be_read : Text → Problem
  marker_not_json : Problem
  marker_wrong_shape : Problem
  marker_no_start : Problem
  marker_not_read : Problem
  no_builds_directory : Problem
  builds_directory_unreadable : Text → Problem
  builds_not_read : Problem
  cannot_reach_store : Text → Problem
  store_not_queried : Text → Problem

-- `_relay_activity_phrase`: the age of the last write, and the age and the outcome of a later message
pub record Activity : Type 0 where
  pub last_write : Option Text
  pub later_message : Option (Text × Text)

pub data Message : Type 0 where
  store_unreachable : Option Problem → Message
  store_empty : Text → Message
  store_undated : ℕ → Message
  store_stale : Text → Text → Message
  store_fresh : Text → ℕ → Message
  project_empty : Text → Message
  project_undated : Text → Message
  project_stale : Text → Text → Text → Message
  project_fresh : Text → Text → ℕ → Message
  store_not_seen : Message
  marker_unseen : Option Problem → Message
  builds_unseen : Option Problem → Message
  few_builds : ℕ → Text → ℕ → Activity → Message
  relay_recorded : ℕ → Text → Activity → ℤ → Message
  project_recorded : ℕ → Text → Text → Text → Activity → Message
  relay_restarted : Text → ℕ → Message
  relay_idle : ℕ → Text → Message
  -- the message of a held check, with the day and the reason of the acknowledgement
  acknowledged : Message → Option ℕ → Option Text → Message

pub record CheckResult : Type 0 where
  pub name : Text
  pub status : Status
  pub reason : Text
  pub message : Message

-- `CheckResult.tripped`
abbrev pub tripped : Status → Bool
tripped ok = false
tripped _ = true
