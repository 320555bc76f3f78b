-- ===== src/Writer/Identity/Hashing.antt =====
-- The payloads of the registered classes can be dumped, so they have a content hash.
use fleet_memory.Prelude.{
  ◌≡◌, refl, true, &&-eq-true, List, [], ◌∷◌, Option, none, some, Text, text_eq, codes, Bool-cases,
  inl, inr,
}
use fleet_memory.Errors.{ok, >>=-total}
use fleet_memory.Json.{str, obj, Fields, end, field, dumps}
use fleet_memory.Json.Plain.{is_plain, is_plain_items, is_plain_fields, dumps_plain}
use fleet_memory.Payloads.Models.{
  Body, adr, review_report, build_outcome, pattern_of, warning, seed_module, document,
  planning_outcome, approval_decision, deploy_record, live_verdict, grading_outcome, spec_survival,
  payload_type, kind_of,
}
use fleet_memory.Payloads.Registry.{is_registered}
use fleet_memory.Payloads.Base.{Payload, natural_key}
use fleet_memory.Writer.Identity.{Digests, without_version, content_hash}
use fleet_memory.Writer.Identity.Dump.{opt_str, strs, opt_strs, body_fields, model_dump}

is_plain-opt_str : (o : Option Text) → is_plain (opt_str o) ≡ true
unfolding is_plain opt_str
is_plain-opt_str none = refl
is_plain-opt_str (some t) = refl

is_plain_items-strs : (ts : List Text) → is_plain_items (strs ts) ≡ true
unfolding is_plain strs
is_plain_items-strs [] = refl
is_plain_items-strs (t ∷ ts) = is_plain_items-strs ts

is_plain-opt_strs : (o : Option (List Text)) → is_plain (opt_strs o) ≡ true
unfolding is_plain opt_strs
is_plain-opt_strs none = refl
is_plain-opt_strs (some ts) = is_plain_items-strs ts

is_plain-body_fields :
    (b : Body) (rest : Fields)
    → is_registered (payload_type (kind_of b)) ≡ true
    → is_plain_fields rest ≡ true
    → is_plain_fields (body_fields b rest) ≡ true
unfolding is_plain body_fields is_registered payload_type kind_of text_eq
is_plain-body_fields (adr d s title context consequences alternatives) rest r h =
    rw
      (
        is_plain-opt_str title,
        is_plain-opt_str context,
        is_plain-opt_str consequences,
        is_plain-opt_strs alternatives,
      )
      h
is_plain-body_fields (review_report v) rest r h = h
is_plain-body_fields (build_outcome s n task_id lessons approach) rest r h =
    rw (is_plain-opt_str task_id, is_plain-opt_str lessons, is_plain-opt_str approach) h
is_plain-body_fields (pattern_of n c) rest r h = h
is_plain-body_fields (warning s m) rest r h = h
is_plain-body_fields (seed_module m) rest r h = h
is_plain-body_fields (document content) rest r h = rw (is_plain-opt_str content) h
is_plain-body_fields (planning_outcome p) rest r h = absurd cc
is_plain-body_fields (approval_decision a) rest r h = absurd cc
is_plain-body_fields (deploy_record d) rest r h = absurd cc
is_plain-body_fields (live_verdict v) rest r h = absurd cc
is_plain-body_fields (grading_outcome g) rest r h = absurd cc
is_plain-body_fields (spec_survival s) rest r h = absurd cc

is_plain_fields-without_version :
    (fs : Fields) → is_plain_fields fs ≡ true → is_plain_fields (without_version fs) ≡ true
unfolding is_plain without_version
is_plain_fields-without_version end h = refl
is_plain_fields-without_version (field key x fs) h =
    let (first, later) = &&-eq-true (is_plain x) (is_plain_fields fs) h in
    let rest = is_plain_fields-without_version fs later in
    elim (Bool-cases (text_eq key (codes "version"))) [
      | inl version ↦ rw version rest
      | inr other ↦ rw (other, first) rest
    ]

is_plain-model_dump :
    (p : Payload)
    → is_registered (payload_type (kind_of p.body)) ≡ true
    → is_plain_fields (model_dump p) ≡ true
unfolding is_plain model_dump
is_plain-model_dump p r =
    rw
      (
        is_plain-opt_strs (some p.domain_tags),
        is_plain-opt_strs (some p.supersedes),
        is_plain-body_fields p.body (field (codes "natural_key") (str (natural_key p)) end) r refl,
      )
      refl

-- A payload of a registered class can be dumped, and has a content hash.
pub dumps-model_dump :
    (p : Payload)
    → is_registered (payload_type (kind_of p.body)) ≡ true
    → (json : Text) × (dumps (obj (model_dump p)) ≡ ok json)
unfolding is_plain
dumps-model_dump p r = dumps_plain (obj (model_dump p)) (is_plain-model_dump p r)

pub content_hash_total :
    (d : Digests) (p : Payload)
    → is_registered (payload_type (kind_of p.body)) ≡ true
    → (h : Text) × (content_hash d p ≡ ok h)
unfolding is_plain content_hash
content_hash_total d p r =
    >>=-total (dumps (obj (without_version (model_dump p)))) _
      (dumps_plain (obj (without_version (model_dump p)))
        (is_plain_fields-without_version (model_dump p) (is_plain-model_dump p r)))
      (λ json. (_, refl))
