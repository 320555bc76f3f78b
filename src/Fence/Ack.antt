-- ===== src/Fence/Ack.antt =====
-- fence/ack.py: the acknowledgement file and the verdict on it. Days are numbered, and the reading
-- of a date is a parameter.
pub mod Bounds
use fleet_memory.Prelude.{
  ℕ, ◌+◌, Bool, true, false, List, [], ◌∷◌, Option, none, some, Text, text_mem, ltb, if◌then◌else◌,
  is_empty, codes,
}
use fleet_memory.Errors.{Result, ok, err, value_error}
use fleet_memory.Json.{Json, str, arr, obj, Items, nil, cons, Fields}
use fleet_memory.Fence.Files.{FileRead, not_found, os_error, undecodable, contents, get}

abbrev pub ack_max_days : ℕ
ack_max_days = 14

pub data Rejection : Type 0 where
  unreadable : Text → Rejection
  not_json : Rejection
  not_object : Rejection
  no_until : Rejection
  not_a_date : Text → Rejection
  no_checks : Rejection
  no_reason : Rejection
  too_far : ℕ → Rejection

pub record AckState : Type 0 where
  pub present : Bool
  pub active : Bool
  pub reason : Option Text
  pub until : Option ℕ
  pub checks : List Text
  pub rejected : Option Rejection
  pub expired_on : Option ℕ
  pub path : Text

-- `AckState(path=label)`
abbrev pub no_ack : Text → AckState
no_ack label = record {
  present = false;
  active = false;
  reason = none;
  until = none;
  checks = [];
  rejected = none;
  expired_on = none;
  path = label;
}

-- `AckState.holds`
unfoldable pub holds : AckState → Text → Bool
holds ack check_name = if ack.active then text_mem check_name ack.checks else false

-- `AckState.note`
pub data AckNote : Type 0 where
  ack_rejected : Rejection → AckNote
  ack_expired : ℕ → AckNote

abbrev note_expired : Option ℕ → Option AckNote
note_expired none = none
note_expired (some day) = some (ack_expired day)

abbrev note_of : Option Rejection → Option ℕ → Option AckNote
note_of (some rejection) expired_on = some (ack_rejected rejection)
note_of none expired_on = note_expired expired_on

abbrev pub note : AckState → Option AckNote
note ack = note_of ack.rejected ack.expired_on

abbrev pub text_of : Option Json → Option Text
text_of (some (str s)) = some s
text_of _ = none

abbrev pub texts_of_items : Items → List Text
texts_of_items nil = []
texts_of_items (cons (str s) rest) = s ∷ texts_of_items rest
texts_of_items (cons _ rest) = texts_of_items rest

-- `checks`
abbrev pub checks_of : Option Json → List Text
checks_of (some (arr items)) = texts_of_items items
checks_of _ = []

-- `not text`
abbrev pub is_blank : Option Text → Bool
is_blank none = true
is_blank (some s) = is_empty s

module _ (date_from_iso : Text → Option ℕ) (label : Text) where
  abbrev refused : Option Text → Option ℕ → List Text → Rejection → AckState
  refused reason until checks rejection = record (no_ack label) {
    present = true;
    reason = reason;
    until = until;
    checks = checks;
    rejected = some rejection;
  }

  -- From `if not checks` on, for a date that was read.
  judge_dated : Option Text → List Text → ℕ → ℕ → AckState
  judge_dated reason checks today until =
      if is_empty checks
      then refused reason (some until) [] no_checks
      else if is_blank reason
      then refused none (some until) checks no_reason
      else if ltb (today + ack_max_days) until
      then refused reason (some until) checks (too_far until)
      else if ltb until today
      then record (no_ack label) {
        present = true;
        reason = reason;
        until = some until;
        checks = checks;
        expired_on = some until;
      }
      else record (no_ack label) {
        present = true;
        active = true;
        reason = reason;
        until = some until;
        checks = checks;
      }

  abbrev judge_date : Option Text → List Text → ℕ → Text → Option ℕ → AckState
  judge_date reason checks today until_raw none = refused reason none checks (not_a_date until_raw)
  judge_date reason checks today until_raw (some until) = judge_dated reason checks today until

  judge_until : Option Text → List Text → ℕ → Option Text → AckState
  unfolding judge_dated
  judge_until reason checks today none = refused reason none checks no_until
  judge_until reason checks today (some []) = refused reason none checks no_until
  judge_until reason checks today (some (c ∷ s)) =
      judge_date reason checks today (c ∷ s) (date_from_iso (c ∷ s))

  -- `data` is an object.
  judge_fields : ℕ → Fields → AckState
  unfolding judge_until get
  judge_fields today fields =
      judge_until (text_of (get (codes "reason") fields)) (checks_of (get (codes "checks") fields))
        today (text_of (get (codes "until") fields))

  unfoldable pub read_ack : FileRead → ℕ → Result AckState
  unfolding judge_fields
  read_ack not_found today = ok (no_ack label)
  read_ack (os_error class_name) today = ok (refused none none [] (unreadable class_name))
  read_ack undecodable today = err value_error
  read_ack (contents none) today = ok (refused none none [] not_json)
  read_ack (contents (some (obj fields))) today = ok (judge_fields today fields)
  read_ack (contents (some _)) today = ok (refused none none [] not_object)
