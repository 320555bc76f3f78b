-- ===== src/Reindex/Audit/Accounting.antt =====
-- The audit's counts, and what it means that every episode is accounted for.
use fleet_memory.Prelude.{
  ℕ, suc, ◌+◌, ◌≤◌, ◌≡◌, refl, sym, ap, ◌∙◌, ◌↔◌, ◌⊎◌, inl, inr, Bool, true, false, List, [], ◌∷◌,
  Option, none, some, Text, All, length, length-append, ==_iff, arith,
}
use fleet_memory.Errors.{Result, ok, err, ◌>>=◌, >>=-eq-ok}
use fleet_memory.Store.Value.{Value}
use fleet_memory.Store.Api.{Address}
use fleet_memory.Writer.Identity.{Digests, record_identity}
use fleet_memory.Reindex.Audit.{
  AuditResult, is_100_percent_accounted, namespace_for_key, Tally, Whereabouts, stored,
  dead_lettered, unaccounted, tally, derive_episode_id, on_dlq, after_lookup, locate_in, locate,
  audit_from, audited, audit_published_episodes,
}

module _ (d : Digests) (aget : Address → Result (Option Value))
    (check_episode_on_dlq : Text → Result Bool) where
  abbrev address_in : List Text → Text → Address
  address_in namespace natural_key = record {
    namespace = namespace;
    key = record_identity d natural_key;
  }

  abbrev FoundIn : List Text → Text → Type 0
  FoundIn namespace k =
      ((v : Value) × (aget (address_in namespace k) ≡ ok (some v)))
      ⊎ ((aget (address_in namespace k) ≡ ok none)
          × (check_episode_on_dlq (derive_episode_id d k) ≡ ok true))

  -- The key names a namespace, and the store there has a record under the key's identity, or has
  -- none and the episode is on the dead-letter queue.
  abbrev pub Accounted : Text → Type 0
  Accounted k =
      (namespace : List Text) × (namespace_for_key k ≡ some namespace) × FoundIn namespace k

  Accounted-found :
      (k : Text) (namespace : List Text)
      → namespace_for_key k ≡ some namespace
      → Accounted k
      → FoundIn namespace k
  Accounted-found k namespace n (m, n', found) = let same : namespace ≡ m = cc in rw same found

  abbrev is_accounted : Whereabouts → Bool
  is_accounted unaccounted = false
  is_accounted _ = true

  data Located (k : Text) (place : Whereabouts) : Type 0 where
    somewhere : Accounted k → is_accounted place ≡ true → Located k place
    nowhere : (Accounted k → ⊥) → place ≡ unaccounted → Located k place

  queue-Located :
      (k : Text) (namespace : List Text) (q : Result Bool) (place : Whereabouts)
      → namespace_for_key k ≡ some namespace
      → aget (address_in namespace k) ≡ ok none
      → check_episode_on_dlq (derive_episode_id d k) ≡ q
      → (q >>= λ b. ok (on_dlq d aget check_episode_on_dlq b)) ≡ ok place
      → Located k place
  queue-Located k namespace (err e) place n a c h = cc
  queue-Located k namespace (ok true) place n a c h =
      let at : dead_lettered ≡ place = cc in somewhere (namespace, n, inr (a, c)) (rw (sym at) refl)
  queue-Located k namespace (ok false) place n a c h =
      nowhere (λ found. missing (Accounted-found k namespace n found)) (cc h)
    where
      missing : FoundIn namespace k → ⊥
      missing (inl (v, there)) = cc
      missing (inr (b, there)) = cc

  lookup-Located :
      (k : Text) (namespace : List Text) (r : Result (Option Value)) (place : Whereabouts)
      → namespace_for_key k ≡ some namespace
      → aget (address_in namespace k) ≡ r
      → (r >>= λ found. after_lookup d aget check_episode_on_dlq k found) ≡ ok place
      → Located k place
  lookup-Located k namespace (err e) place n a h = cc
  lookup-Located k namespace (ok (some v)) place n a h =
      let at : stored ≡ place = cc in somewhere (namespace, n, inl (v, a)) (rw (sym at) refl)
  lookup-Located k namespace (ok none) place n a h =
      queue-Located k namespace (check_episode_on_dlq (derive_episode_id d k)) place n a refl h

  locate-Located :
      (k : Text) (place : Whereabouts)
      → locate d aget check_episode_on_dlq k ≡ ok place
      → Located k place
  unfolding locate
  locate-Located k place h = in_namespace (namespace_for_key k) refl h
    where
      in_namespace :
          (o : Option (List Text))
          → namespace_for_key k ≡ o
          → locate_in d aget check_episode_on_dlq k o ≡ ok place
          → Located k place
      in_namespace none n h = nowhere (λ (m, n', found). absurd cc) (cc h)
      in_namespace (some namespace) n h =
          lookup-Located k namespace (aget (address_in namespace k)) place n refl h

  abbrev missed : Tally → ℕ
  missed t = length t.unaccounted_episodes

  abbrev counted : Tally → ℕ
  counted t = t.stored_count + t.dlq_count + missed t

  tally-counted :
      (k : Text) (place : Whereabouts) (t : Tally) → counted (tally k place t) ≡ suc (counted t)
  unfolding tally
  tally-counted k stored t = omega arith
  tally-counted k dead_lettered t = omega arith
  tally-counted k unaccounted t = rw (length-append t.unaccounted_episodes (k ∷ [])) (omega arith)

  missed-accounted :
      (k : Text) (place : Whereabouts) (t : Tally)
      → is_accounted place ≡ true
      → missed (tally k place t) ≡ missed t
  unfolding tally
  missed-accounted k stored t h = refl
  missed-accounted k dead_lettered t h = refl
  missed-accounted k unaccounted t h = cc

  missed-unaccounted : (k : Text) (t : Tally) → missed (tally k unaccounted t) ≡ suc (missed t)
  unfolding tally
  missed-unaccounted k t = omega (arith, length-append t.unaccounted_episodes (k ∷ []))

  record Tallied (keys : List Text) (t t' : Tally) : Type 0 where
    total : counted t' ≡ counted t + length keys
    grows : missed t ≤ missed t'
    complete : missed t' ≤ missed t → All Accounted keys
    sound : All Accounted keys → missed t' ≤ missed t

  cons-Tallied :
      (k : Text) (keys : List Text) (place : Whereabouts) (t t' : Tally)
      → Located k place
      → Tallied keys (tally k place t) t'
      → Tallied (k ∷ keys) t t'
  cons-Tallied k keys place t t' (somewhere found is_known) r =
      let same = missed-accounted k place t is_known in
      record {
        total = omega (arith, r.total, tally-counted k place t);
        grows = omega (arith, r.grows, same);
        complete = λ h. (found, r.complete (omega (arith, h, same)));
        sound = λ (_, a). let within = r.sound a in omega (arith, within, same);
      }
  cons-Tallied k keys place t t' (nowhere missing is_unknown) r =
      let more = ap (λ p. missed (tally k p t)) is_unknown ∙ missed-unaccounted k t in
      record {
        total = omega (arith, r.total, tally-counted k place t);
        grows = omega (arith, r.grows, more);
        complete = λ h. absurd (omega (arith, h, r.grows, more));
        sound = λ (found, a). absurd (missing found);
      }

  audit_from-Tallied :
      (keys : List Text) (t t' : Tally)
      → audit_from d aget check_episode_on_dlq keys t ≡ ok t'
      → Tallied keys t t'
  unfolding audit_from
  audit_from-Tallied [] t t' h =
      let e : t ≡ t' = cc in
      rw (sym e) (record {
        total = omega arith;
        grows = omega arith;
        complete = λ g. tt;
        sound = λ g. omega arith;
      })
  audit_from-Tallied (k ∷ keys) t t' h =
      let (place, at, h1) = >>=-eq-ok (locate d aget check_episode_on_dlq k) _ h in
      cons-Tallied k keys place t t' (locate-Located k place at)
        (audit_from-Tallied keys (tally k place t) t' h1)

  -- An audit that returns has counted every published episode once, as stored, dead-lettered or
  -- unaccounted, and it reports that all are accounted for exactly if each of them is in the store
  -- under its own namespace and identity or on the dead-letter queue.
  pub audit_published_episodes_iff :
      (keys : List Text) (r : AuditResult)
      → audit_published_episodes d aget check_episode_on_dlq keys ≡ ok r
      → (r.total_published ≡ r.stored_count + r.dlq_count + r.unaccounted_count)
        × ((is_100_percent_accounted r ≡ true) ↔ All Accounted keys)
  unfolding audit_published_episodes
  audit_published_episodes_iff keys r h =
      let start : Tally = record { stored_count = 0; dlq_count = 0; unaccounted_episodes = [] } in
      let (t, e, h1) = >>=-eq-ok (audit_from d aget check_episode_on_dlq keys start) _ h in
      let done = audit_from-Tallied keys start t e in
      let same : audited keys t ≡ r = cc in
      rw (sym same) (
        omega (arith, done.total),
        (
          λ none_missed.
              done.complete (
                let zero_missed = (==_iff (missed t) 0).0 none_missed in
                omega (arith, zero_missed)),
          λ found. let within = done.sound found in (==_iff (missed t) 0).1 (omega (arith, within)),
        ),
      )
