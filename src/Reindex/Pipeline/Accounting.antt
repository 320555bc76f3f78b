-- ===== src/Reindex/Pipeline/Accounting.antt =====
-- Every document that is walked is counted once.
use fleet_memory.Prelude.{
  length-snoc, length-map, ℕ, suc, ◌+◌, ◌≡◌, refl, sym, ap, List, [], ◌∷◌, Option, none, some, Text,
  text_eq, length, length-append, arith, Bool-cases, inl, inr,
}
use fleet_memory.Errors
use fleet_memory.Errors.{Result, ok, err}
use fleet_memory.Exec.{lift}
use fleet_memory.Exec.Rules.{>>=-eq-ok}
use fleet_memory.Json.{Json}
use fleet_memory.Payloads.Base.{Payload}
use fleet_memory.Writer.Identity.{Digests}
use fleet_memory.Chronicler.Episode.{PyValues}
use fleet_memory.Reindex.Manifest.{CorpusManifest}
use fleet_memory.Reindex.Classify.{
  CorpusDocument, Loaded, SkipReason, id_collision, shadowed_by, Classification, classify_document,
}
use fleet_memory.Reindex.Parsers.{ParseResult, parsed, unparseable}
use fleet_memory.Reindex.Collisions.{
  Candidate, Group, titles_differ, deepest, is_deeper, skip_for, sorted_paths, add_to_group,
  by_identifier, resolve_group, resolve_groups, resolve_collisions,
}
use fleet_memory.Reindex.Walk.{
  Walk, nothing_walked, add_parsed, add_classified, walk_document, walk,
}
use fleet_memory.Reindex.Pipeline.{
  RunReport, Publishing, Aget, Publisher, add_published, preserved, published_by, publish_all,
  report, to_publish, reindex_corpus,
}

abbrev walked : Walk → ℕ
walked w = length w.skipped + length w.unparsed + length w.candidates

module _ (py : PyValues) (safe_load : Text → Loaded) (manifest : CorpusManifest) where
  add_parsed-walked :
      (doc : CorpusDocument) (c : Classification) (r : Result ParseResult) (w : Walk)
      → walked (add_parsed py safe_load manifest doc c r w) ≡ suc (walked w)
  unfolding add_parsed
  add_parsed-walked doc c (err e) w = rw (length-snoc w.unparsed _) (omega arith)
  add_parsed-walked doc c (ok (unparseable reason)) w = rw (length-snoc w.unparsed _) (omega arith)
  add_parsed-walked doc c (ok (parsed payload)) w = rw (length-snoc w.candidates _) (omega arith)

  add_classified-walked :
      (doc : CorpusDocument) (c : Classification) (o : Option SkipReason) (w : Walk)
      → walked (add_classified py safe_load manifest doc c o w) ≡ suc (walked w)
  add_classified-walked doc c (some reason) w = rw (length-snoc w.skipped _) (omega arith)
  add_classified-walked doc c none w = add_parsed-walked doc c _ w

  walk-walked :
      (docs : List CorpusDocument) (w w' : Walk)
      → walk py safe_load manifest docs w ≡ ok w'
      → walked w' ≡ walked w + length docs
  unfolding walk walk_document
  walk-walked [] w w' h = let e : w ≡ w' = cc in rw (sym e) (omega arith)
  walk-walked (doc ∷ docs) w w' h =
      let (w1, e1, h1) = Errors.>>=-eq-ok (walk_document py safe_load manifest doc w) _ h in
      let (c, _, e2) = Errors.>>=-eq-ok (classify_document py safe_load manifest doc) _ e1 in
      let step : add_classified py safe_load manifest doc c c.skip_reason w ≡ w1 = cc in
      omega (
        arith,
        walk-walked docs w1 w' h1,
        add_classified-walked doc c c.skip_reason w,
        ap walked step,
      )

-- The candidates of the groups.
abbrev grouped : List Group → ℕ
grouped [] = 0
grouped ((identifier, group) ∷ groups) = length group + grouped groups

add_to_group-grouped :
    (c : Candidate) (groups : List Group) → grouped (add_to_group c groups) ≡ suc (grouped groups)
unfolding add_to_group
add_to_group-grouped c [] = refl
add_to_group-grouped c ((identifier, group) ∷ groups) =
    elim (Bool-cases (text_eq identifier c.payload.identifier)) [
      | inl same ↦ rw (same, length-snoc group c) (omega arith)
      | inr other ↦ rw (other, add_to_group-grouped c groups) (omega arith)
    ]

by_identifier-grouped :
    (candidates : List Candidate) (groups : List Group)
    → grouped (by_identifier candidates groups) ≡ length candidates + grouped groups
unfolding by_identifier
by_identifier-grouped [] groups = omega arith
by_identifier-grouped (c ∷ candidates) groups =
    omega (
      arith,
      by_identifier-grouped candidates (add_to_group c groups),
      add_to_group-grouped c groups,
    )

deepest-length :
    (c : Candidate) (group : List Candidate) → length (deepest c group).1 ≡ length group
unfolding deepest
deepest-length c [] = refl
deepest-length c (d ∷ group) = elim (Bool-cases (is_deeper (deepest d group).0 c)) [
  | inl deeper ↦ rw deeper (ap suc (deepest-length d group))
  | inr kept ↦ rw kept refl
]

resolve_group-length :
    (group : List Candidate)
    → length (resolve_group group).0 + length (resolve_group group).1 ≡ length group
unfolding resolve_group
resolve_group-length [] = refl
resolve_group-length (c ∷ []) = refl
resolve_group-length (c ∷ d ∷ group) = elim (Bool-cases (titles_differ c (d ∷ group))) [
  | inl distinct ↦ rw distinct (
      let skips = skip_for (id_collision (sorted_paths (c ∷ d ∷ group))) in
      omega (arith, length-map skips group))
  | inr same ↦ rw same (
      let (winner, others) = deepest c (d ∷ group) in
      omega (
        arith,
        length-map (skip_for (shadowed_by winner.relative_path)) others,
        deepest-length c (d ∷ group),
      ))
]

resolve_groups-length :
    (groups : List Group)
    → length (resolve_groups groups).0 + length (resolve_groups groups).1 ≡ grouped groups
unfolding resolve_groups
resolve_groups-length [] = refl
resolve_groups-length ((identifier, group) ∷ groups) = omega (
  arith,
  resolve_group-length group,
  resolve_groups-length groups,
  length-append (resolve_group group).0 (resolve_groups groups).0,
  length-append (resolve_group group).1 (resolve_groups groups).1,
)

resolve_collisions-length :
    (candidates : List Candidate)
    → length (resolve_collisions candidates).0 + length (resolve_collisions candidates).1
      ≡ length candidates
unfolding resolve_collisions
resolve_collisions-length candidates = omega (
  arith,
  resolve_groups-length (by_identifier candidates []),
  by_identifier-grouped candidates [],
)

abbrev settled : Publishing → ℕ
settled done = length done.published_natural_keys + length done.skipped

add_published-settled :
    (c : Candidate) (p : Payload) (o : Option Text) (done : Publishing)
    → settled (add_published c p o done) ≡ suc (settled done)
unfolding add_published
add_published-settled c p (some reason) done = rw (length-snoc done.skipped _) (omega arith)
add_published-settled c p none done = rw (length-snoc done.published_natural_keys _) (omega arith)

module _ (loads : Text → Option Json) {S : Type 0} (d : Digests) where
  publish_all-settled :
      (aget : Option (Aget S)) (publisher : Option (Publisher S)) (winners : List Candidate)
      (done done' : Publishing) (s t : S)
      → publish_all loads d aget publisher winners done s ≡ (ok done', t)
      → settled done' ≡ settled done + length winners
  unfolding publish_all
  publish_all-settled aget publisher [] done done' s t h =
      let e : done ≡ done' = cc in rw (sym e) (omega arith)
  publish_all-settled aget publisher (c ∷ winners) done done' s t h =
      let (p, _, h1) = >>=-eq-ok (preserved loads d c.payload aget) _ s done' t h in
      let (o, _, h2) = >>=-eq-ok (published_by loads d p publisher) _ _ done' t h1 in
      omega (
        arith,
        publish_all-settled aget publisher winners (add_published c p o done) done' _ t h2,
        add_published-settled c p o done,
      )

  -- A run that returns has counted each document that the walker yielded once: the walked documents
  -- are as many as the published, the skipped and the unparseable ones together.
  pub reindex_corpus-accounts :
      (py : PyValues) (safe_load : Text → Loaded) (manifest : CorpusManifest)
      (docs : List CorpusDocument) (aget : Option (Aget S)) (publisher : Option (Publisher S))
      (r : RunReport) (s t : S)
      → reindex_corpus loads d py safe_load manifest docs aget publisher s ≡ (ok r, t)
      → (r.walked_count ≡ length docs)
        × (r.walked_count ≡ r.published_count + r.skipped_count + r.unparseable_count)
  unfolding reindex_corpus
  reindex_corpus-accounts py safe_load manifest docs aget publisher r s t h =
      let (w, e1, h1) =
        >>=-eq-ok (lift (walk py safe_load manifest docs nothing_walked)) _ s r t h in
      let (done, e2, h2) =
        >>=-eq-ok
          (publish_all loads d aget publisher (resolve_collisions w.candidates).0 (to_publish w)) _
          s r t h1 in
      let same : report (length docs) w done ≡ r = cc in
      let walk_count = walk-walked py safe_load manifest docs nothing_walked w (cc e1) in
      let publish_count = publish_all-settled aget publisher _ _ done _ _ e2 in
      rw (sym same) (
        refl,
        omega (
          arith,
          walk_count,
          publish_count,
          resolve_collisions-length w.candidates,
          length-append w.skipped (resolve_collisions w.candidates).1,
        ),
      )
