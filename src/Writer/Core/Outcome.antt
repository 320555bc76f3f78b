-- ===== src/Writer/Core/Outcome.antt =====
-- The three outcomes of a write, for the record at the payload's own address.
use mathlib.Core.Option
use mathlib.Core.Path.{subst}
use fleet_memory.Prelude.{
  ℕ, ◌+◌, ◌≡◌, refl, sym, ap, ◌∙◌, ◌≢◌, true, false, Option, none, some, Text, text_eq_iff, arith,
  if◌then◌else◌, Bool-cases, inl, inr,
}
use fleet_memory.Errors.{ok}
use fleet_memory.Exec.{lift, read, write_to}
use fleet_memory.Exec.Rules.{written-eq-ok, >>=-eq-ok}
use fleet_memory.Json.{obj, dumps}
use fleet_memory.Payloads.Models.{payload_type, kind_of}
use fleet_memory.Payloads.Registry.{is_registered}
use fleet_memory.Payloads.Base.{Payload, natural_key}
use fleet_memory.Store.{validate_namespace}
use fleet_memory.Store.Value.{EpisodeMeta, Value}
use fleet_memory.Store.Api.{Address, address_eq, address_eq_iff, StoreApi, StoreLaws}
use fleet_memory.Writer.Identity.{Digests, content_hash, model_dump}
use fleet_memory.Writer.Supersession.{
  mark, apply_supersessions, check_and_apply_forward_supersession,
}
use fleet_memory.Writer.Supersession.Marks.{is_named, lookup-apply_supersessions}
use fleet_memory.Writer.Core.{
  payload_namespace, payload_address, stored_value, hash_matches, existing_version, write_record,
  upsert, write_registered, write,
}

hash_matches-eq : (o : Option Text) (h : Text) → hash_matches o h ≡ true → o ≡ some h
hash_matches-eq none h e = cc
hash_matches-eq (some g) h e = ap some ((text_eq_iff g h).0 e)

hash_matches-ne : (o : Option Text) (h : Text) → hash_matches o h ≡ false → o ≢ some h
hash_matches-ne none h e = cc
hash_matches-ne (some g) h e = λ same. ground (arith, text_eq_iff g h)

module _ (api : StoreApi) (d : Digests) where
  -- The record of a payload, written at a version in a state.
  pub record IsRecord (p : Payload) (h : Text) (version : ℕ) (meta : Option EpisodeMeta)
      (s : api.State) (new : Value) : Type 0 where
    pub json : Text
    pub dumped : dumps (obj (model_dump p)) ≡ ok json
    pub stored :
        check_and_apply_forward_supersession api
          (natural_key p)
          (payload_namespace p)
          (stored_value p json h version meta)
          s
        ≡ ok new

  -- There was no record: it is written at version 1. There was one with this content hash: it is
  -- kept. There was one with another: it is written anew at the next version.
  pub data Outcome (p : Payload) (h : Text) (meta : Option EpisodeMeta) (s : api.State)
      (new : Value) : Option Value → Type 0 where
    created :
        {old : Option Value} → old ≡ none → IsRecord p h 1 meta s new → Outcome p h meta s new old
    kept :
        {old : Option Value}
        → old ≡ some new
        → new.content_hash ≡ some h
        → Outcome p h meta s new old
    updated :
        {old : Option Value} (o : Value)
        → old ≡ some o
        → o.content_hash ≢ some h
        → IsRecord p h (existing_version o.version + 1) meta s new
        → Outcome p h meta s new old

  -- The store after one value is put in it.
  abbrev pub put_at : Address → Value → (Address → Option Value) → Address → Option Value
  put_at a new before b = if address_eq a b then some new else before b

  -- What a write leaves: the outcome at the payload's address, then the marks on the records that
  -- it supersedes.
  pub record Wrote (p : Payload) (h : Text) (meta : Option EpisodeMeta) (s t : api.State)
      : Type 0 where
    pub new : Value
    pub outcome : Outcome p h meta s new (api.lookup s (payload_address d p))
    pub after :
        (b : Address)
        → api.lookup t b ≡ (
            if is_named d p.supersedes b
            then Option.map
                (mark (natural_key p))
                (put_at (payload_address d p) new (api.lookup s) b)
            else put_at (payload_address d p) new (api.lookup s) b)

  write_registered-eq-ok :
      (p : Payload) (h : Text) (meta : Option EpisodeMeta) (s t : api.State)
      → content_hash d p ≡ ok h
      → write_registered api d p meta s ≡ (ok tt, t)
      → (existing : Option Value) × (api.aget (payload_address d p) s ≡ ok existing)
        × (upsert api d p h meta existing s ≡ (ok tt, t))
  unfolding write_registered
  write_registered-eq-ok p h meta s t hashed e =
      let (valid, _, e1) = >>=-eq-ok (lift (validate_namespace (payload_namespace p))) _ s tt t e in
      let (h', got_hash, e2) = >>=-eq-ok (lift (content_hash d p)) _ s tt t e1 in
      let (existing, got, e3) = >>=-eq-ok (read (api.aget (payload_address d p))) _ s tt t e2 in
      let same : h' ≡ h = cc (ap (λ r. r.0) got_hash, hashed) in
      (
        existing,
        ap (λ r. r.0) got,
        subst (λ x. upsert api d p x meta existing s ≡ (ok tt, t)) same e3,
      )

  write-eq-ok :
      (p : Payload) (meta : Option EpisodeMeta) (s t : api.State)
      → write api d p meta s ≡ (ok tt, t)
      → write_registered api d p meta s ≡ (ok tt, t)
  unfolding write
  write-eq-ok p meta s t e = elim (Bool-cases (is_registered (payload_type (kind_of p.body)))) [
    | inl registered ↦ rw registered at e
    | inr unknown ↦ absurd (ground (arith, (rw unknown at e)))
  ]

  write_record-eq-ok :
      (laws : StoreLaws api) (p : Payload) (h : Text) (version : ℕ) (meta : Option EpisodeMeta)
      (s t : api.State)
      → write_record api d p h version meta s ≡ (ok tt, t)
      → (new : Value) × IsRecord p h version meta s new
        × ((b : Address) → api.lookup t b ≡ put_at (payload_address d p) new (api.lookup s) b)
  unfolding write_record
  write_record-eq-ok laws p h version meta s t e =
      let checked_value = λ (json : Text).
        check_and_apply_forward_supersession api (natural_key p) (payload_namespace p)
          (stored_value p json h version meta) in
      let (json, dumped, e1) = >>=-eq-ok (lift (dumps (obj (model_dump p)))) _ s tt t e in
      let (new, made, e2) =
        >>=-eq-ok (read (checked_value json)) (λ new. write_to (api.aput (payload_address d p) new))
          s tt t e1 in
      let put = written-eq-ok (api.aput (payload_address d p) new s) s t e2 in
      (
        new,
        record { json = json; dumped = ap (λ r. r.0) dumped; stored = ap (λ r. r.0) made },
        laws.aput_ok (payload_address d p) new s t put,
      )

  -- A write that is followed by the marks of its supersessions.
  then_marked :
      (laws : StoreLaws api) (p : Payload) (h : Text) (meta : Option EpisodeMeta)
      (s s' t : api.State) (new : Value)
      → Outcome p h meta s new (api.lookup s (payload_address d p))
      → ((b : Address) → api.lookup s' b ≡ put_at (payload_address d p) new (api.lookup s) b)
      → apply_supersessions api d (natural_key p) p.supersedes s' ≡ (ok tt, t)
      → Wrote p h meta s t
  then_marked laws p h meta s s' t new outcome put marked = record {
    new = new;
    outcome = outcome;
    after = λ b.
        subst
          (λ o.
            api.lookup t b
            ≡ (if is_named d p.supersedes b then Option.map (mark (natural_key p)) o else o))
          (put b)
          (lookup-apply_supersessions api laws d (natural_key p) p.supersedes s' t marked b);
  }

  upsert-eq-ok :
      (laws : StoreLaws api) (p : Payload) (h : Text) (meta : Option EpisodeMeta)
      (existing : Option Value) (s t : api.State)
      → existing ≡ api.lookup s (payload_address d p)
      → upsert api d p h meta existing s ≡ (ok tt, t)
      → Wrote p h meta s t
  unfolding upsert
  upsert-eq-ok laws p h meta none s t at_s e =
      let (done, wrote, e1) = >>=-eq-ok (write_record api d p h 1 meta) _ s tt t e in
      let (new, is_record, put) = write_record-eq-ok laws p h 1 meta s _ wrote in
      then_marked laws p h meta s _ t new (created (sym at_s) is_record) put e1
  upsert-eq-ok laws p h meta (some o) s t at_s e =
      elim (Bool-cases (hash_matches o.content_hash h)) [
        | inl same ↦
            then_marked laws p h meta s s t o
              (kept (sym at_s) (hash_matches-eq o.content_hash h same)) (λ b. sym (put_back b))
              (rw same at e)
        | inr differs ↦
            let (done, wrote, e1) =
              >>=-eq-ok (write_record api d p h (existing_version o.version + 1) meta) _ s tt t
                (rw differs at e) in
            let (new, is_record, put) = write_record-eq-ok laws p h _ meta s _ wrote in
            then_marked laws p h meta s _ t new
              (updated o (sym at_s) (hash_matches-ne o.content_hash h differs) is_record) put e1
      ]
    where
      put_back : (b : Address) → put_at (payload_address d p) o (api.lookup s) b ≡ api.lookup s b
      put_back b = elim (Bool-cases (address_eq (payload_address d p) b)) [
        | inl here ↦
            rw here (at_s ∙ ap (api.lookup s) ((address_eq_iff (payload_address d p) b).0 here))
        | inr other ↦ rw other refl
      ]

  -- A write that returns has one of the three outcomes at the payload's own address, has marked
  -- the records that the payload supersedes, and has changed no other record.
  pub write-Wrote :
      (laws : StoreLaws api) (p : Payload) (h : Text) (meta : Option EpisodeMeta) (s t : api.State)
      → content_hash d p ≡ ok h
      → write api d p meta s ≡ (ok tt, t)
      → Wrote p h meta s t
  write-Wrote laws p h meta s t hashed e =
      let (existing, got, e1) =
        write_registered-eq-ok p h meta s t hashed (write-eq-ok p meta s t e) in
      upsert-eq-ok laws p h meta existing s t (laws.aget_ok _ s existing got) e1
