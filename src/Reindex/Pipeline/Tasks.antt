-- ===== src/Reindex/Pipeline/Tasks.antt =====
-- The parser's payloads are build outcomes of guardkit, and keep their keys up to the publishing.
use fleet_memory.Prelude.{
  ◌≡◌, refl, sym, ap, inl, inr, List, [], ◌∷◌, ◌++◌, Option, none, some, Text, All, All-append,
  Bool-cases, codes, not, is_empty,
}
use fleet_memory.Errors
use fleet_memory.Errors.{Result, ok, err, identifier_validation}
use fleet_memory.Exec.{lift, read}
use fleet_memory.Exec.Rules.{>>=-eq-ok}
use fleet_memory.Json.{Json, str, obj, Fields}
use fleet_memory.Fence.Files.{get}
use fleet_memory.Payloads.Models.{Body, build_outcome, build_outcome_payload, payload_type, kind_of}
use fleet_memory.Payloads.Base.{Payload, natural_key, construct}
use fleet_memory.Payloads.Base.WellFormed.{construct_iff}
use fleet_memory.Store.Value.{Value}
use fleet_memory.Writer.Identity.{Digests}
use fleet_memory.Writer.Core.{payload_address}
use fleet_memory.Chronicler.Episode.{PyValues}
use fleet_memory.Reindex.Manifest.{CorpusManifest, forward_slashes}
use fleet_memory.Reindex.Classify.{
  CorpusDocument, Loaded, loaded, yaml_error, raised, SkipReason, Classification, classify_document,
  status_of, is_terminal, is_true_key,
}
use fleet_memory.Reindex.Parsers.{
  ParseResult, parsed, unparseable, parse_payload, parse_at, parse_loaded, task_data, parse_fields,
  parse_completed_task,
}
use fleet_memory.Reindex.Collisions.{Candidate}
use fleet_memory.Reindex.Walk.{Walk, add_parsed, add_classified, walk_document, walk}
use fleet_memory.Reindex.Pipeline.{
  Aget, preserved, lessons_in, with_lessons, carried, lessons_from, lessons_of_content,
  lessons_of_record, lacks_lessons, preserve_existing_lessons,
}

-- A payload of the parser.
abbrev pub IsTask : Payload → Type 0
IsTask p = (kind_of p.body ≡ build_outcome_payload) × (p.project ≡ codes "guardkit")

abbrev pub task_key : Text → Text
task_key identifier = codes "build_outcome:guardkit:" ++ identifier

pub natural_key-task : (p : Payload) → IsTask p → natural_key p ≡ task_key p.identifier
unfolding natural_key payload_type
natural_key-task p (k, e) = rw (k, e) refl

pub task_key_injective : (s t : Text) → task_key s ≡ task_key t → s ≡ t
task_key_injective s t e = cc

module _ (py : PyValues) (safe_load : Text → Loaded) (manifest : CorpusManifest) where
  parse_payload-eq-parsed :
      (r : Result Payload) (p : Payload) → parse_payload r ≡ ok (parsed p) → r ≡ ok p
  parse_payload-eq-parsed (ok q) p h = cc
  parse_payload-eq-parsed (err (identifier_validation field value)) p h = cc
  parse_payload-eq-parsed (err _) p h = cc

  parse_at-IsTask :
      (doc : CorpusDocument) (fields : Fields) (o : Option Text) (p : Payload)
      → parse_at py safe_load doc fields o ≡ ok (parsed p)
      → IsTask p
  parse_at-IsTask doc fields none p h = cc
  parse_at-IsTask doc fields (some relative) p h =
      let data_in = task_data py safe_load fields (forward_slashes relative) doc.text in
      let made = parse_payload-eq-parsed (construct build_outcome_payload data_in) p h in
      let (builds, _) = (construct_iff build_outcome_payload data_in p).0 made in
      (builds.kind, cc builds.project)

  parse_fields-IsTask :
      (doc : CorpusDocument) (fields : Fields) (p : Payload)
      → parse_fields py safe_load doc fields ≡ ok (parsed p)
      → IsTask p
  unfolding parse_fields
  parse_fields-IsTask doc fields p h =
      elim (Bool-cases (not (is_true_key py (get (codes "id") fields)))) [
        | inl missing ↦ cc
        | inr has_id ↦ elim (Bool-cases (not (is_terminal (status_of py fields)))) [
          | inl running ↦ cc
          | inr finished ↦ parse_at-IsTask doc fields doc.relative p (cc h)
        ]
      ]

  parse_completed_task-IsTask :
      (doc : CorpusDocument) (o : Option Fields) (p : Payload)
      → parse_completed_task py safe_load doc o ≡ ok (parsed p)
      → IsTask p
  unfolding parse_completed_task
  parse_completed_task-IsTask doc none p h = parse_loaded-IsTask _ h
    where
      parse_loaded-IsTask :
          (l : Loaded) → parse_loaded py safe_load doc l ≡ ok (parsed p) → IsTask p
      parse_loaded-IsTask yaml_error h = cc
      parse_loaded-IsTask (raised e) h = cc
      parse_loaded-IsTask (loaded (obj fields)) h = parse_fields-IsTask doc fields p h
      parse_loaded-IsTask (loaded _) h = cc
  parse_completed_task-IsTask doc (some fields) p h = parse_fields-IsTask doc fields p h

  abbrev pub Tasks : List Candidate → Type 0
  Tasks = All (λ c. IsTask c.payload)

  add_parsed-Tasks :
      (doc : CorpusDocument) (c : Classification) (r : Result ParseResult) (w : Walk)
      → ((p : Payload) → r ≡ ok (parsed p) → IsTask p)
      → Tasks w.candidates
      → Tasks (add_parsed py safe_load manifest doc c r w).candidates
  unfolding add_parsed
  add_parsed-Tasks doc c (err e) w task a = a
  add_parsed-Tasks doc c (ok (unparseable reason)) w task a = a
  add_parsed-Tasks doc c (ok (parsed p)) w task a = All-append _ w.candidates _ a (task p refl, tt)

  add_classified-Tasks :
      (doc : CorpusDocument) (c : Classification) (o : Option SkipReason) (w : Walk)
      → Tasks w.candidates
      → Tasks (add_classified py safe_load manifest doc c o w).candidates
  add_classified-Tasks doc c (some reason) w a = a
  add_classified-Tasks doc c none w a =
      add_parsed-Tasks doc c _ w (parse_completed_task-IsTask doc c.frontmatter) a

  pub walk-Tasks :
      (docs : List CorpusDocument) (w w' : Walk)
      → walk py safe_load manifest docs w ≡ ok w'
      → Tasks w.candidates
      → Tasks w'.candidates
  unfolding walk walk_document
  walk-Tasks [] w w' h a = let e : w ≡ w' = cc in rw (sym e) a
  walk-Tasks (doc ∷ docs) w w' h a =
      let (w1, e1, h1) = Errors.>>=-eq-ok (walk_document py safe_load manifest doc w) _ h in
      let (c, _, e2) = Errors.>>=-eq-ok (classify_document py safe_load manifest doc) _ e1 in
      let step : add_classified py safe_load manifest doc c c.skip_reason w ≡ w1 = cc in
      walk-Tasks docs w1 w' h1 (rw (sym step) (add_classified-Tasks doc c c.skip_reason w a))

kind_of-lessons_in :
    (lessons : Text) (body : Body) → kind_of (lessons_in lessons body) ≡ kind_of body
unfolding kind_of
kind_of-lessons_in lessons (build_outcome _ _ _ _ _) = refl
kind_of-lessons_in lessons _ = refl

-- The carried lessons leave the key as it is.
natural_key-with_lessons :
    (lessons : Text) (p : Payload) → natural_key (with_lessons lessons p) ≡ natural_key p
unfolding natural_key with_lessons
natural_key-with_lessons lessons p = rw (kind_of-lessons_in lessons p.body) refl

natural_key-carried : (p : Payload) (o : Option Json) → natural_key (carried p o) ≡ natural_key p
natural_key-carried p (some (str lessons)) = elim (Bool-cases (is_empty lessons)) [
  | inl blank ↦ rw blank refl
  | inr full ↦ rw full (natural_key-with_lessons lessons p)
]
natural_key-carried p _ = refl

module _ (loads : Text → Option Json) where
  natural_key-lessons_from :
      (p q : Payload) (o : Option Json)
      → lessons_from loads p o ≡ ok q
      → natural_key q ≡ natural_key p
  natural_key-lessons_from p q none h = ap natural_key (cc h)
  natural_key-lessons_from p q (some (obj fields)) h =
      let e : carried p (get (codes "lessons") fields) ≡ q = cc in
      rw (sym e) (natural_key-carried p (get (codes "lessons") fields))
  natural_key-lessons_from p q (some _) h = cc

  natural_key-lessons_of_record :
      (p q : Payload) (o : Option Value)
      → lessons_of_record loads p o ≡ ok q
      → natural_key q ≡ natural_key p
  natural_key-lessons_of_record p q none h = ap natural_key (cc h)
  natural_key-lessons_of_record p q (some value) h = of_content value.content h
    where
      of_content :
          (o : Option Text) → lessons_of_content loads p o ≡ ok q → natural_key q ≡ natural_key p
      of_content none h = ap natural_key (cc h)
      of_content (some []) h = ap natural_key (cc h)
      of_content (some (c ∷ s)) h = natural_key-lessons_from p q (loads (c ∷ s)) h

  module _ {S : Type 0} (d : Digests) where
    pub natural_key-preserved :
        (p q : Payload) (aget : Option (Aget S)) (s t : S)
        → preserved loads d p aget s ≡ (ok q, t)
        → natural_key q ≡ natural_key p
    unfolding preserve_existing_lessons
    natural_key-preserved p q none s t h = ap natural_key (cc h)
    natural_key-preserved p q (some aget) s t h = elim (Bool-cases (lacks_lessons p.body)) [
      | inl lacks ↦
          let (existing, _, e) =
            >>=-eq-ok (read (aget (payload_address d p)))
              (λ existing. lift (lessons_of_record loads p existing)) s q t (cc h) in
          natural_key-lessons_of_record p q existing (cc e)
      | inr has ↦ ap natural_key (cc h)
    ]
