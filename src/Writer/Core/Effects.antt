-- ===== src/Writer/Core/Effects.antt =====
-- Consequences for one write: repeated delivery, versions, and what a rewritten record forgets.
use mathlib.Core.Option
use fleet_memory.Prelude.{
  ℕ, ◌+◌, ◌≡◌, refl, sym, ap, ◌∙◌, ◌≢◌, Bool, true, false, List, [], ◌∷◌, Option, none, some, Text,
  text_eq_iff, text_eq_ne, if◌then◌else◌, Bool-cases, inl, inr,
}
use fleet_memory.Errors.{Result, err, ok}
use fleet_memory.Payloads.Base.{Payload, natural_key}
use fleet_memory.Store.Value.{EpisodeMeta, Value}
use fleet_memory.Store.Api.{Address, address_eq, address_eq_iff, StoreApi, StoreLaws}
use fleet_memory.Writer.Identity.{Digests, content_hash}
use fleet_memory.Writer.Supersession.{
  mark, marked_with, forward_supersession, check_and_apply_forward_supersession,
}
use fleet_memory.Writer.Supersession.Marks.{is_named}
use fleet_memory.Writer.Core.{
  payload_namespace, payload_address, stored_value, hash_matches, existing_version, write,
}
use fleet_memory.Writer.Core.Outcome.{
  IsRecord, Outcome, created, kept, updated, put_at, Wrote, write-Wrote,
}

hash_matches-false : (o : Option Text) (h : Text) → o ≢ some h → hash_matches o h ≡ false
hash_matches-false none h differs = refl
hash_matches-false (some g) h differs = text_eq_ne g h (λ same. differs (ap some same))

-- The version that a record gets.
abbrev pub next_version : Option Value → Text → Option ℕ
next_version none h = some 1
next_version (some o) h =
    if hash_matches o.content_hash h then o.version else some (existing_version o.version + 1)

module _ (api : StoreApi) (d : Digests) where
  marked_with-kept :
      (v new : Value) (r : Result (Option Text))
      → marked_with api v r ≡ ok new
      → (new.content_hash ≡ v.content_hash) × (new.version ≡ v.version)
  marked_with-kept v new (err e) h = cc
  marked_with-kept v new (ok none) h = let e : v ≡ new = cc in rw (sym e) (refl, refl)
  marked_with-kept v new (ok (some [])) h = let e : v ≡ new = cc in rw (sym e) (refl, refl)
  marked_with-kept v new (ok (some (c ∷ k))) h =
      let e : mark (c ∷ k) v ≡ new = cc in rw (sym e) (refl, refl)

  check-kept :
      (s : api.State) (k : Text) (n : List Text) (v new : Value)
      → check_and_apply_forward_supersession api k n v s ≡ ok new
      → (new.content_hash ≡ v.content_hash) × (new.version ≡ v.version)
  unfolding check_and_apply_forward_supersession
  check-kept s k n v new h = marked_with-kept v new (forward_supersession api k n s) h

  check-none :
      (s : api.State) (k : Text) (n : List Text) (v new : Value)
      → forward_supersession api k n s ≡ ok none
      → v.superseded_by ≡ none
      → check_and_apply_forward_supersession api k n v s ≡ ok new
      → new.superseded_by ≡ none
  unfolding check_and_apply_forward_supersession
  check-none s k n v new no_forward e h =
      let same : v ≡ new = cc (rw no_forward at h) in rw (sym same) e

  hash-IsRecord :
      (p : Payload) (h : Text) (version : ℕ) (meta : Option EpisodeMeta) (s : api.State)
      (new : Value)
      → IsRecord api d p h version meta s new
      → (new.content_hash ≡ some h) × (new.version ≡ some version)
  unfolding stored_value
  hash-IsRecord p h version meta s new r = check-kept s _ _ _ new r.stored

  Outcome_lem :
      (p : Payload) (h : Text) (meta : Option EpisodeMeta) (s : api.State) (new : Value)
      (old : Option Value)
      → Outcome api d p h meta s new old
      → (new.content_hash ≡ some h) × (new.version ≡ next_version old h)
  Outcome_lem p h meta s new old (created absent r) =
      let (hash, version) = hash-IsRecord p h 1 meta s new r in (hash, rw absent version)
  Outcome_lem p h meta s new old (kept found same) =
      (same, rw found (rw (same, (text_eq_iff h h).1 refl) refl))
  Outcome_lem p h meta s new old (updated o found differs r) =
      let (hash, version) = hash-IsRecord p h _ meta s new r in
      (hash, rw found (rw (hash_matches-false o.content_hash h differs) version))

  at_own_address :
      (p : Payload) (h : Text) (meta : Option EpisodeMeta) (s t : api.State)
      (w : Wrote api d p h meta s t)
      → api.lookup t (payload_address d p) ≡ (
          if is_named d p.supersedes (payload_address d p)
          then some (mark (natural_key p) w.new)
          else some w.new)
  at_own_address p h meta s t w =
      let own : address_eq (payload_address d p) (payload_address d p) ≡ true =
        (address_eq_iff (payload_address d p) (payload_address d p)).1 refl in
      w.after (payload_address d p) ∙ (rw own refl)

  own_record :
      (named : Bool) (k : Text) (new : Value) (o : Option Value)
      → o ≡ (if named then some (mark k new) else some new)
      → (v : Value) × (o ≡ some v) × (v.content_hash ≡ new.content_hash) × (v.version ≡ new.version)
  own_record true k new o e = (mark k new, e, refl, refl)
  own_record false k new o e = (new, e, refl, refl)

  -- After a write the payload's own record has the payload's content hash. Its version is 1 where
  -- there was no record, the old version where the hash is the old one, and the next one otherwise.
  pub write-version :
      (laws : StoreLaws api) (p : Payload) (h : Text) (meta : Option EpisodeMeta) (s t : api.State)
      → content_hash d p ≡ ok h
      → write api d p meta s ≡ (ok tt, t)
      → (v : Value) × (api.lookup t (payload_address d p) ≡ some v)
        × (v.content_hash ≡ some h)
        × (v.version ≡ next_version (api.lookup s (payload_address d p)) h)
  write-version laws p h meta s t hashed e =
      let w = write-Wrote api d laws p h meta s t hashed e in
      let (hash, version) = Outcome_lem p h meta s w.new _ w.outcome in
      let (v, found, same_hash, same_version) =
        own_record _ _ w.new _ (at_own_address p h meta s t w) in
      (v, found, same_hash ∙ hash, same_version ∙ version)

  Outcome-kept :
      (p : Payload) (h : Text) (meta : Option EpisodeMeta) (s : api.State) (new v : Value)
      (old : Option Value)
      → old ≡ some v
      → v.content_hash ≡ some h
      → Outcome api d p h meta s new old
      → new ≡ v
  Outcome-kept p h meta s new v old found same (created absent r) = cc
  Outcome-kept p h meta s new v old found same (kept at_new hash) = cc
  Outcome-kept p h meta s new v old found same (updated o at_o differs r) =
      let e : o ≡ v = cc in absurd (differs (ap (λ (x : Value). x.content_hash) e ∙ same))

  put_back :
      (s : api.State) (a : Address) (v : Value)
      → api.lookup s a ≡ some v
      → (b : Address) → put_at api d a v (api.lookup s) b ≡ api.lookup s b
  put_back s a v found b = elim (Bool-cases (address_eq a b)) [
    | inl here ↦ rw here (sym found ∙ ap (api.lookup s) ((address_eq_iff a b).0 here))
    | inr other ↦ rw other refl
  ]

  mark_twice :
      (named : Bool) (k : Text) (o : Option Value)
      → (if named
          then Option.map (mark k) (if named then Option.map (mark k) o else o)
          else (if named then Option.map (mark k) o else o))
        ≡ (if named then Option.map (mark k) o else o)
  mark_twice false k o = refl
  mark_twice true k none = refl
  mark_twice true k (some v) = refl

  -- A payload that is written again, with any envelope metadata, leaves every record as the first
  -- write left it.
  pub write_again :
      (laws : StoreLaws api) (p : Payload) (h : Text) (meta meta' : Option EpisodeMeta)
      (s t u : api.State)
      → content_hash d p ≡ ok h
      → write api d p meta s ≡ (ok tt, t)
      → write api d p meta' t ≡ (ok tt, u)
      → (b : Address) → api.lookup u b ≡ api.lookup t b
  write_again laws p h meta meta' s t u hashed e e' b =
      let first = write-Wrote api d laws p h meta s t hashed e in
      let again = write-Wrote api d laws p h meta' t u hashed e' in
      let (v, found, hash, _) = write-version laws p h meta s t hashed e in
      let same : again.new ≡ v = Outcome-kept p h meta' t again.new v _ found hash again.outcome in
      let back : put_at api d (payload_address d p) again.new (api.lookup t) b ≡ api.lookup t b =
        put_back t (payload_address d p) again.new (found ∙ ap some (sym same)) b in
      let before = put_at api d (payload_address d p) first.new (api.lookup s) b in
      again.after b
      ∙ ap (λ o. if is_named d p.supersedes b then Option.map (mark (natural_key p)) o else o)
          (back ∙ first.after b)
      ∙ mark_twice (is_named d p.supersedes b) (natural_key p) before
      ∙ sym (first.after b)

  -- A record whose content has changed is written without the mark of its successor, whatever mark
  -- it had, if no record of its own namespace declares the supersession.
  pub update_forgets_mark :
      (laws : StoreLaws api) (p : Payload) (h : Text) (meta : Option EpisodeMeta) (s t : api.State)
      (o : Value)
      → content_hash d p ≡ ok h
      → api.lookup s (payload_address d p) ≡ some o
      → o.content_hash ≢ some h
      → forward_supersession api (natural_key p) (payload_namespace p) s ≡ ok none
      → is_named d p.supersedes (payload_address d p) ≡ false
      → write api d p meta s ≡ (ok tt, t)
      → (v : Value) × (api.lookup t (payload_address d p) ≡ some v) × (v.superseded_by ≡ none)
  unfolding stored_value
  update_forgets_mark laws p h meta s t o hashed found differs no_forward own e =
      let w = write-Wrote api d laws p h meta s t hashed e in
      (w.new, at_own_address p h meta s t w ∙ rw own, unmarked w.new _ found w.outcome)
    where
      fresh :
          (version : ℕ) (new : Value)
          → IsRecord api d p h version meta s new
          → new.superseded_by ≡ none
      fresh version new r = check-none s _ _ _ new no_forward refl r.stored

      unmarked :
          (new : Value) (old : Option Value)
          → old ≡ some o
          → Outcome api d p h meta s new old
          → new.superseded_by ≡ none
      unmarked new old at_o (created absent r) = fresh 1 new r
      unmarked new old at_o (kept at_new hash) =
          let e : o ≡ new = cc in absurd (differs (ap (λ (x : Value). x.content_hash) e ∙ hash))
      unmarked new old at_o (updated o' at_o' differs' r) = fresh _ new r
