-- ===== src/Retrieval/Search/Hits.antt =====
-- What the filters of a search guarantee of each item.
use mathlib.Core.Path.{subst}
use fleet_memory.Prelude.{
  not-eq-true, ◌≡◌, refl, Bool, true, false, ◌&&◌, not, List, [], ◌∷◌, ◌++◌, Option, Text,
  text_eq_iff, text_mem, arith, if◌then◌else◌, leb, length, filter, map, All, All-filter,
  filter-All, All-append, Bool-cases, inl, inr, text_eq_refl,
}
use fleet_memory.Errors.{ok}
use fleet_memory.Json.{Json}
use fleet_memory.Payloads.Base.Collapse.{Distinct}
use fleet_memory.Retrieval.Item.{SearchItem}
use fleet_memory.Retrieval.Request.{SearchRequest}
use fleet_memory.Retrieval.Search.{
  ranked_result_limit, key_of, deduplicate, accepts, scan_page, scan_bound_reached, refilter,
}
use fleet_memory.Retrieval.Search.Filters.{
  matches_project, matches_payload_types, matches_domain_tags, is_superseded,
  has_substantive_content,
}

pub ok_injective : {A : Type 0} (a b : A) → ok a ≡ ok b → a ≡ b
ok_injective a b e = cc

All-if :
    {A : Type 0} (P : A → Type 0) (b : Bool) (xs ys : List A)
    → (b ≡ true → All P xs)
    → (b ≡ false → All P ys)
    → All P (if b then xs else ys)
All-if P true xs ys h k = h refl
All-if P false xs ys h k = k refl

module _ {Score : Type 0} where
  deduplicate-All :
      (P : SearchItem Score → Type 0) (seen : List Text) (xs : List (SearchItem Score))
      → All P xs
      → All P (deduplicate seen xs)
  unfolding deduplicate
  deduplicate-All P seen [] h = tt
  deduplicate-All P seen (x ∷ xs) (p, h) = elim (Bool-cases (text_mem x.key seen)) [
    | inl known ↦ rw known (deduplicate-All P seen xs h)
    | inr new ↦ rw new (p, deduplicate-All P (x.key ∷ seen) xs h)
  ]

  deduplicate_lacks :
      (k : Text) (seen : List Text) (xs : List (SearchItem Score))
      → text_mem k seen ≡ true
      → text_mem k (map key_of (deduplicate seen xs)) ≡ false
  unfolding deduplicate
  deduplicate_lacks k seen [] h = refl
  deduplicate_lacks k seen (x ∷ xs) h = elim (Bool-cases (text_mem x.key seen)) [
    | inl known ↦ rw known (deduplicate_lacks k seen xs h)
    | inr new ↦ rw new (ground (arith, deduplicate_lacks k (x.key ∷ seen) xs, text_eq_iff x.key k))
  ]

  pub deduplicate-Distinct :
      (seen : List Text) (xs : List (SearchItem Score))
      → Distinct (map key_of (deduplicate seen xs))
  unfolding deduplicate
  deduplicate-Distinct seen [] = tt
  deduplicate-Distinct seen (x ∷ xs) = elim (Bool-cases (text_mem x.key seen)) [
    | inl known ↦ rw known (deduplicate-Distinct seen xs)
    | inr new ↦ rw new (
      deduplicate_lacks x.key (x.key ∷ seen) xs (rw (text_eq_refl x.key) refl),
      deduplicate-Distinct (x.key ∷ seen) xs,
    )
  ]

module _ {Score : Type 0} (json_loads : Text → Option Json) (request : SearchRequest) where
  -- The item is what was asked for.
  pub record IsHit (item : SearchItem Score) : Type 0 where
    pub in_project : matches_project item request.project ≡ true
    pub of_type : matches_payload_types item request.payload_types ≡ true
    pub tagged : matches_domain_tags json_loads item request.domain_tags ≡ true
    pub current : request.include_superseded ≡ false → is_superseded item ≡ false
    pub substantive :
        request.require_substantive ≡ true → has_substantive_content json_loads item ≡ true

  abbrev pub IsSubstantive : SearchItem Score → Type 0
  IsSubstantive item =
      request.require_substantive ≡ true → has_substantive_content json_loads item ≡ true

  pub scan_page-All :
      (payload_type : Option Text) (accepted page : List (SearchItem Score))
      → All IsSubstantive accepted
      → All IsSubstantive (scan_page json_loads request payload_type accepted page)
  unfolding scan_page accepts
  scan_page-All payload_type accepted [] h = h
  scan_page-All payload_type accepted (x ∷ xs) h =
      elim (Bool-cases
        (accepts json_loads request payload_type x && not (text_mem x.key (map key_of accepted)))) [
          | inl good ↦
              let own : IsSubstantive x = λ e. ground arith in
              let more = All-append IsSubstantive accepted (x ∷ []) h (own, tt) in
              elim (Bool-cases (leb ranked_result_limit (length (accepted ++ (x ∷ []))))) [
                | inl full ↦ rw (good, full) more
                | inr room ↦
                    rw (good, room) (scan_page-All payload_type (accepted ++ (x ∷ [])) xs more)
              ]
          | inr bad ↦ rw bad (scan_page-All payload_type accepted xs h)
        ]

  pub scan_bound_reached-All :
      (accepted result : List (SearchItem Score))
      → All IsSubstantive accepted
      → scan_bound_reached request accepted ≡ ok result
      → All IsSubstantive result
  unfolding scan_bound_reached
  scan_bound_reached-All accepted result h e = elim (Bool-cases request.require_substantive) [
    | inl strict ↦ absurd (ground (arith, (rw strict at e)))
    | inr lenient ↦ subst (All IsSubstantive) (ok_injective _ _ (rw lenient at e)) h
  ]

  All-IsHit :
      (xs : List (SearchItem Score))
      → All IsSubstantive xs
      → All (λ i. matches_project i request.project ≡ true) xs
      → All (λ i. matches_payload_types i request.payload_types ≡ true) xs
      → All (λ i. matches_domain_tags json_loads i request.domain_tags ≡ true) xs
      → (request.include_superseded ≡ false → All (λ i. not (is_superseded i) ≡ true) xs)
      → All IsHit xs
  All-IsHit [] s p q r c = tt
  All-IsHit (x ∷ xs) (s, ss) (p, ps) (q, qs) (r, rs) c = (
    record {
      in_project = p;
      of_type = q;
      tagged = r;
      current = λ e. not-eq-true _ (c e).0;
      substantive = s;
    },
    All-IsHit xs ss ps qs rs (λ e. (c e).1),
  )

  pub refilter-IsHit :
      (raw : List (SearchItem Score))
      → All IsSubstantive raw
      → All IsHit (refilter json_loads request raw)
  unfolding refilter
  refilter-IsHit raw h =
      let of_project = λ (i : SearchItem Score). matches_project i request.project in
      let of_type = λ (i : SearchItem Score). matches_payload_types i request.payload_types in
      let of_tags =
        λ (i : SearchItem Score). matches_domain_tags json_loads i request.domain_tags in
      let is_current = λ (i : SearchItem Score). not (is_superseded i) in
      let in_project = filter of_project raw in
      let typed = filter of_type in_project in
      let tagged = filter of_tags typed in
      let sub =
        filter-All IsSubstantive of_tags typed (
          filter-All IsSubstantive of_type in_project
            (filter-All IsSubstantive of_project raw h)) in
      let ps =
        filter-All (λ i. of_project i ≡ true) of_tags typed
          (filter-All (λ i. of_project i ≡ true) of_type in_project (All-filter of_project raw)) in
      let qs = filter-All (λ i. of_type i ≡ true) of_tags typed (All-filter of_type in_project) in
      let rs = All-filter of_tags typed in
      deduplicate-All IsHit [] _ (
        All-if IsHit request.include_superseded _ _
          (λ all. All-IsHit tagged sub ps qs rs (λ e. absurd (ground (arith, all, e))))
          (λ only.
            All-IsHit (filter is_current tagged) (filter-All IsSubstantive is_current tagged sub)
              (filter-All (λ i. of_project i ≡ true) is_current tagged ps)
              (filter-All (λ i. of_type i ≡ true) is_current tagged qs)
              (filter-All (λ i. of_tags i ≡ true) is_current tagged rs)
              (λ e. All-filter is_current tagged)))
