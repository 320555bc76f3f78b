-- ===== src/Reindex/Collisions/Winners.antt =====
-- Of the documents with one identifier at most one is left.
use fleet_memory.Prelude.{
  ||-eq-false, ◌≡◌, refl, sym, ap, ◌⊎◌, inl, inr, false, List, [], ◌∷◌, ◌++◌, Text, text_eq,
  text_eq→eq, text_eq_iff, text_mem, All, All-append, map, arith, Bool-cases,
}
use fleet_memory.Payloads.Base.Collapse.{Distinct}
use fleet_memory.Reindex.Collisions.{
  Candidate, Group, add_to_group, by_identifier, titles_differ, is_deeper, deepest, resolve_group,
  resolve_groups, resolve_collisions,
}

abbrev pub identifiers : List Candidate → List Text
identifiers candidates = map (λ (c : Candidate). c.payload.identifier) candidates

abbrev keys : List Group → List Text
keys groups = map (λ (g : Group). g.0) groups

module _ (P : Candidate → Type 0) where
  -- The candidates of a group have its identifier.
  abbrev Keyed : Group → Type 0
  Keyed (identifier, group) = All (λ c. P c × (c.payload.identifier ≡ identifier)) group

  add_to_group-Keyed :
      (c : Candidate) (groups : List Group)
      → P c
      → All Keyed groups
      → All Keyed (add_to_group c groups)
  unfolding add_to_group
  add_to_group-Keyed c [] p h = (((p, refl), tt), tt)
  add_to_group-Keyed c ((identifier, group) ∷ groups) p (g, h) =
      elim (Bool-cases (text_eq identifier c.payload.identifier)) [
        | inl same ↦ rw same (
          All-append _ group (c ∷ []) g
              ((p, sym (text_eq→eq identifier c.payload.identifier same)), tt),
          h,
        )
        | inr other ↦ rw other (g, add_to_group-Keyed c groups p h)
      ]

  mem-add_to_group :
      (c : Candidate) (groups : List Group) (k : Text)
      → text_mem k (keys groups) ≡ false
      → text_eq c.payload.identifier k ≡ false
      → text_mem k (keys (add_to_group c groups)) ≡ false
  unfolding add_to_group
  mem-add_to_group c [] k h n = rw n refl
  mem-add_to_group c ((identifier, group) ∷ groups) k h n =
      ground (arith, h, n, mem-add_to_group c groups k)

  add_to_group-Distinct :
      (c : Candidate) (groups : List Group)
      → Distinct (keys groups)
      → Distinct (keys (add_to_group c groups))
  unfolding add_to_group
  add_to_group-Distinct c [] d = (refl, tt)
  add_to_group-Distinct c ((identifier, group) ∷ groups) (fresh, d) =
      elim (Bool-cases (text_eq identifier c.payload.identifier)) [
        | inl same ↦ rw same (fresh, d)
        | inr other ↦ rw other (
          mem-add_to_group c groups identifier fresh (
              ground (
                arith,
                text_eq_iff identifier c.payload.identifier,
                text_eq_iff c.payload.identifier identifier,
              )),
          add_to_group-Distinct c groups d,
        )
      ]

  by_identifier-Keyed :
      (candidates : List Candidate) (groups : List Group)
      → All P candidates
      → All Keyed groups
      → Distinct (keys groups)
      → All Keyed (by_identifier candidates groups)
        × Distinct (keys (by_identifier candidates groups))
  unfolding by_identifier
  by_identifier-Keyed [] groups a h d = (h, d)
  by_identifier-Keyed (c ∷ candidates) groups (p, a) h d =
      by_identifier-Keyed candidates (add_to_group c groups) a (add_to_group-Keyed c groups p h)
        (add_to_group-Distinct c groups d)

module _ (P : Candidate → Type 0) where
  deepest-All : (c : Candidate) (group : List Candidate) → P c → All P group → P (deepest c group).0
  unfolding deepest
  deepest-All c [] p h = p
  deepest-All c (d ∷ group) p (q, h) = elim (Bool-cases (is_deeper (deepest d group).0 c)) [
    | inl deeper ↦ rw deeper (deepest-All d group q h)
    | inr kept ↦ rw kept p
  ]

  -- A group gives no winner or one of its own.
  resolve_group-winner :
      (group : List Candidate)
      → All P group
      → ((resolve_group group).0 ≡ [])
        ⊎ ((c : Candidate) × P c × ((resolve_group group).0 ≡ c ∷ []))
  unfolding resolve_group
  resolve_group-winner [] h = inl refl
  resolve_group-winner (c ∷ []) (p, h) = inr (c, p, refl)
  resolve_group-winner (c ∷ d ∷ group) (p, h) = elim (Bool-cases (titles_differ c (d ∷ group))) [
    | inl distinct ↦ inl (rw distinct refl)
    | inr same ↦ inr ((deepest c (d ∷ group)).0, deepest-All c (d ∷ group) p h, rw same refl)
  ]

module _ (P : Candidate → Type 0) where
  -- Winners of groups with distinct keys.
  record Won (groups : List Group) (winners : List Candidate) : Type 0 where
    distinct : Distinct (identifiers winners)
    each : All P winners
    keyed : (k : Text) → text_mem k (keys groups) ≡ false → text_mem k (identifiers winners) ≡ false

  add_winner :
      (identifier : Text) (group first winners : List Candidate) (groups : List Group)
      → text_mem identifier (keys groups) ≡ false
      → (first ≡ [])
        ⊎ ((c : Candidate) × (P c × (c.payload.identifier ≡ identifier)) × (first ≡ c ∷ []))
      → Won groups winners
      → Won ((identifier, group) ∷ groups) (first ++ winners)
  add_winner identifier group first winners groups fresh (inl none) w = rw none (record {
    distinct = w.distinct;
    each = w.each;
    keyed = λ k h. w.keyed k (ground (arith, h));
  })
  add_winner identifier group first winners groups fresh (inr (c, (p, e), one)) w = rw one (record {
    distinct = (rw e (w.keyed identifier fresh), w.distinct);
    each = (p, w.each);
    keyed = λ k h.
        let (other, rest) = ||-eq-false (text_eq identifier k) (text_mem k (keys groups)) h in
        rw (ap (λ x. text_eq x k) e, other) (w.keyed k rest);
  })

  resolve_groups-Won :
      (groups : List Group)
      → All (Keyed P) groups
      → Distinct (keys groups)
      → Won groups (resolve_groups groups).0
  unfolding resolve_groups
  resolve_groups-Won [] h d = record { distinct = tt; each = tt; keyed = λ k g. refl }
  resolve_groups-Won ((identifier, group) ∷ groups) (g, h) (fresh, d) =
      add_winner identifier group (resolve_group group).0 (resolve_groups groups).0 groups fresh
        (resolve_group-winner (λ c. P c × (c.payload.identifier ≡ identifier)) group g)
        (resolve_groups-Won groups h d)

  -- The winners have distinct identifiers, and what every candidate satisfies.
  pub resolve_collisions-Distinct :
      (candidates : List Candidate)
      → All P candidates
      → Distinct (identifiers (resolve_collisions candidates).0)
        × All P (resolve_collisions candidates).0
  unfolding resolve_collisions
  resolve_collisions-Distinct candidates a =
      let (k, d) = by_identifier-Keyed P candidates [] a tt tt in
      let w = resolve_groups-Won (by_identifier candidates []) k d in (w.distinct, w.each)
