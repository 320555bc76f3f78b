-- ===== src/Reindex/Pipeline/Unique.antt =====
-- No key is published twice in one run.
use fleet_memory.Prelude.{
  ||-eq-false, ◌≡◌, refl, sym, ap, ◌∙◌, false, ◌||◌, List, [], ◌∷◌, ◌++◌, Option, none, some, Text,
  text_eq, text_eq_refl, text_eq_ne, text_mem, All, map, Bool, length, append_assoc, append-nil,
}
use mathlib.Core.Bool.{false≢true}
use fleet_memory.Errors.{ok}
use fleet_memory.Exec.{lift}
use fleet_memory.Exec.Rules.{>>=-eq-ok}
use fleet_memory.Json.{Json}
use fleet_memory.Payloads.Base.{Payload, natural_key}
use fleet_memory.Payloads.Base.Collapse.{Distinct}
use fleet_memory.Writer.Identity.{Digests}
use fleet_memory.Chronicler.Episode.{PyValues}
use fleet_memory.Reindex.Manifest.{CorpusManifest}
use fleet_memory.Reindex.Classify.{CorpusDocument, Loaded}
use fleet_memory.Reindex.Collisions.{Candidate, resolve_collisions}
use fleet_memory.Reindex.Collisions.Winners.{identifiers, resolve_collisions-Distinct}
use fleet_memory.Reindex.Walk.{nothing_walked, walk}
use fleet_memory.Reindex.Pipeline.{
  RunReport, Publishing, Aget, Publisher, add_published, preserved, published_by, publish_all,
  report, to_publish, reindex_corpus,
}
use fleet_memory.Reindex.Pipeline.Tasks.{
  IsTask, task_key, natural_key-task, task_key_injective, walk-Tasks, natural_key-preserved,
}

abbrev keys : List Candidate → List Text
keys candidates = map (λ (c : Candidate). natural_key c.payload) candidates

text_eq-task_key : (s t : Text) → text_eq s t ≡ false → text_eq (task_key s) (task_key t) ≡ false
text_eq-task_key s t h =
    text_eq_ne (task_key s) (task_key t)
      (λ e. false≢true (sym h ∙ ap (λ x. text_eq x t) (task_key_injective s t e) ∙ text_eq_refl t))

||-false : (a b : Bool) → a ≡ false → b ≡ false → (a || b) ≡ false
||-false a b h k = rw (h, k) refl

mem-keys :
    (t : Text) (cs : List Candidate)
    → All (λ c. IsTask c.payload) cs
    → text_mem t (identifiers cs) ≡ false
    → text_mem (task_key t) (keys cs) ≡ false
mem-keys t [] a h = refl
mem-keys t (c ∷ cs) (task, a) h =
    let (other, rest) =
      ||-eq-false (text_eq c.payload.identifier t) (text_mem t (identifiers cs)) h in
    ||-false _ _
      (ap (λ x. text_eq x (task_key t)) (natural_key-task c.payload task)
        ∙ text_eq-task_key c.payload.identifier t other)
      (mem-keys t cs a rest)

-- Distinct identifiers make distinct keys.
keys-Distinct :
    (cs : List Candidate)
    → All (λ c. IsTask c.payload) cs
    → Distinct (identifiers cs)
    → Distinct (keys cs)
keys-Distinct [] a d = tt
keys-Distinct (c ∷ cs) (task, a) (fresh, d) = (
  ap (λ k. text_mem k (keys cs)) (natural_key-task c.payload task)
      ∙ mem-keys c.payload.identifier cs a fresh,
  keys-Distinct cs a d,
)

mem-skip :
    (t k : Text) (xs ys : List Text)
    → text_mem t (xs ++ (k ∷ ys)) ≡ false
    → text_mem t (xs ++ ys) ≡ false
mem-skip t k [] ys h = (||-eq-false (text_eq k t) (text_mem t ys) h).1
mem-skip t k (x ∷ xs) ys h =
    let (other, rest) = ||-eq-false (text_eq x t) (text_mem t (xs ++ (k ∷ ys))) h in
    ||-false _ _ other (mem-skip t k xs ys rest)

Distinct-skip : (k : Text) (xs ys : List Text) → Distinct (xs ++ (k ∷ ys)) → Distinct (xs ++ ys)
Distinct-skip k [] ys (fresh, d) = d
Distinct-skip k (x ∷ xs) ys (fresh, d) = (mem-skip x k xs ys fresh, Distinct-skip k xs ys d)

Distinct-front : (xs ys : List Text) → Distinct (xs ++ ys) → Distinct xs
Distinct-front xs [] d = rw (sym (append-nil xs)) d
Distinct-front xs (y ∷ ys) d = Distinct-front xs ys (Distinct-skip y xs ys d)

add_published-Distinct :
    (c : Candidate) (p : Payload) (o : Option Text) (done : Publishing) (rest : List Text)
    → natural_key p ≡ natural_key c.payload
    → Distinct (done.published_natural_keys ++ (natural_key c.payload ∷ rest))
    → Distinct ((add_published c p o done).published_natural_keys ++ rest)
unfolding add_published
add_published-Distinct c p (some reason) done rest e d =
    Distinct-skip (natural_key c.payload) done.published_natural_keys rest d
add_published-Distinct c p none done rest e d =
    rw (append_assoc done.published_natural_keys (natural_key p ∷ []) rest, e) d

module _ (loads : Text → Option Json) {S : Type 0} (d : Digests) where
  publish_all-Distinct :
      (aget : Option (Aget S)) (publisher : Option (Publisher S)) (winners : List Candidate)
      (done done' : Publishing) (s t : S)
      → publish_all loads d aget publisher winners done s ≡ (ok done', t)
      → Distinct (done.published_natural_keys ++ keys winners)
      → Distinct done'.published_natural_keys
  unfolding publish_all
  publish_all-Distinct aget publisher [] done done' s t h u =
      let e : done ≡ done' = cc in rw (sym e) (Distinct-front done.published_natural_keys [] u)
  publish_all-Distinct aget publisher (c ∷ winners) done done' s t h u =
      let (p, e1, h1) = >>=-eq-ok (preserved loads d c.payload aget) _ s done' t h in
      let (o, _, h2) = >>=-eq-ok (published_by loads d p publisher) _ _ done' t h1 in
      publish_all-Distinct aget publisher winners (add_published c p o done) done' _ t h2 (
        add_published-Distinct c p o done (keys winners)
          (natural_key-preserved loads d c.payload p aget s _ e1) u)

  -- A run that returns has published no natural key twice, whatever identifiers the documents
  -- share and whatever the publisher refuses.
  pub reindex_corpus-Distinct :
      (py : PyValues) (safe_load : Text → Loaded) (manifest : CorpusManifest)
      (docs : List CorpusDocument) (aget : Option (Aget S)) (publisher : Option (Publisher S))
      (r : RunReport) (s t : S)
      → reindex_corpus loads d py safe_load manifest docs aget publisher s ≡ (ok r, t)
      → Distinct r.published_natural_keys
  unfolding reindex_corpus
  reindex_corpus-Distinct py safe_load manifest docs aget publisher r s t h =
      let (w, e1, h1) =
        >>=-eq-ok (lift (walk py safe_load manifest docs nothing_walked)) _ s r t h in
      let (done, e2, h2) =
        >>=-eq-ok
          (publish_all loads d aget publisher (resolve_collisions w.candidates).0 (to_publish w)) _
          s r t h1 in
      let same : report (length docs) w done ≡ r = cc in
      let tasks = walk-Tasks py safe_load manifest docs nothing_walked w (cc e1) tt in
      let (distinct, kept) =
        resolve_collisions-Distinct (λ c. IsTask c.payload) w.candidates tasks in
      rw (sym same)
        (publish_all-Distinct aget publisher _ _ done _ _ e2 (keys-Distinct _ kept distinct))
