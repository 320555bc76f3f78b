-- ===== src/Retrieval/Request/Validity.antt =====
-- What a validated request guarantees to the search.
use fleet_memory.Prelude.{
  ◌≡◌, refl, ◌↔◌, ◌⊎◌, ℕ, Bool, true, not, List, [], ◌∷◌, All, arith, is_empty, filter, inl, inr, ℤ,
  pos, negsuc, is_negative, ◌||◌, Bool-cases, ◌≢◌,
}
use fleet_memory.Errors.{ok, check, >>=-eq-ok, check-eq-ok}
use fleet_memory.Payloads.Norm.{is_namespace_part}
use fleet_memory.Payloads.Registry.{is_registered}
use fleet_memory.Payloads.BackwardEdge.{is_some, without_final_newline}
use fleet_memory.Retrieval.Request.{
  SearchRequest, matches_project_pattern, matches_domain_tag_pattern, validate_payload_types,
  validate_domain_tags, validate_query_or_filter_required, validate,
}

-- The rules of a request.
pub record IsValid (r : SearchRequest) : Type 0 where
  pub project : is_namespace_part (without_final_newline r.project) ≡ true
  pub payload_types : All (λ t. is_registered t ≡ true) r.payload_types
  pub domain_tags : All (λ t. matches_domain_tag_pattern t ≡ true) r.domain_tags
  pub token_budget : (n : ℕ) × (r.token_budget ≡ pos n)
  pub asked : (is_some r.query ≡ true) ⊎ (r.payload_types ≢ []) ⊎ (r.domain_tags ≢ [])

is_empty-filter_iff {ℓ} :
    {A : Type ℓ} (p : A → Bool) (xs : List A)
    → (is_empty (filter (λ x. not (p x)) xs) ≡ true) ↔ All (λ x. p x ≡ true) xs
is_empty-filter_iff p [] = (λ h. tt, λ h. refl)
is_empty-filter_iff p (x ∷ xs) = elim (Bool-cases (p x)) [
  | inl good ↦
      rw good (λ h. (refl, (is_empty-filter_iff p xs).0 h), λ h. (is_empty-filter_iff p xs).1 h.1)
  | inr bad ↦ rw bad (λ h. absurd (ground arith), λ h. absurd (ground arith))
]

nonnegative : (z : ℤ) → not (is_negative z) ≡ true → (n : ℕ) × (z ≡ pos n)
nonnegative (pos n) h = (n, refl)
nonnegative (negsuc n) h = cc

asked_of :
    (r : SearchRequest)
    → (is_some r.query || (not (is_empty r.payload_types) || not (is_empty r.domain_tags))) ≡ true
    → (is_some r.query ≡ true) ⊎ (r.payload_types ≢ []) ⊎ (r.domain_tags ≢ [])
asked_of r h = ground arith

asked_by :
    (r : SearchRequest)
    → (is_some r.query ≡ true) ⊎ (r.payload_types ≢ []) ⊎ (r.domain_tags ≢ [])
    → (is_some r.query || (not (is_empty r.payload_types) || not (is_empty r.domain_tags))) ≡ true
asked_by r (inl query) = rw query refl
asked_by r (inr (inl types)) = ground arith
asked_by r (inr (inr tags)) = ground arith

validate_sound : (r q : SearchRequest) → validate r ≡ ok q → (q ≡ r) × IsValid r
unfolding validate matches_project_pattern validate_payload_types validate_domain_tags
    validate_query_or_filter_required
validate_sound r q h =
    let (_, project, h1) =
      >>=-eq-ok (check (is_namespace_part (without_final_newline r.project)) _) _ h in
    let (_, types, h2) =
      >>=-eq-ok (check (is_empty (filter (λ t. not (is_registered t)) r.payload_types)) _) _ h1 in
    let (_, tags, h3) =
      >>=-eq-ok
        (check (is_empty (filter (λ t. not (matches_domain_tag_pattern t)) r.domain_tags)) _) _
        h2 in
    let (_, budget, h4) = >>=-eq-ok (check (not (is_negative r.token_budget)) _) _ h3 in
    let (_, asked, h5) =
      >>=-eq-ok
        (check (is_some r.query || (not (is_empty r.payload_types) || not (is_empty r.domain_tags)))
          _)
        _ h4 in
    (
      cc,
      record {
        project = check-eq-ok _ _ project;
        payload_types =
            (is_empty-filter_iff is_registered r.payload_types).0 (check-eq-ok _ _ types);
        domain_tags =
            (is_empty-filter_iff matches_domain_tag_pattern r.domain_tags).0 (check-eq-ok _ _ tags);
        token_budget = nonnegative r.token_budget (check-eq-ok _ _ budget);
        asked = asked_of r (check-eq-ok _ _ asked);
      },
    )

pub validate_complete : (r : SearchRequest) → IsValid r → validate r ≡ ok r
unfolding validate matches_project_pattern validate_payload_types validate_domain_tags
    validate_query_or_filter_required
validate_complete r v =
    rw
      (
        v.project,
        (is_empty-filter_iff is_registered r.payload_types).1 v.payload_types,
        (is_empty-filter_iff matches_domain_tag_pattern r.domain_tags).1 v.domain_tags,
        v.token_budget.1,
        asked_by r v.asked,
      )
      refl

-- A request is accepted exactly when its project is a namespace part, but for one line feed at its
-- end, its payload types are registered, its tags have one or two segments, its budget is not
-- negative, and it has a query, a payload type or a tag; it is accepted as it is.
pub validate_iff : (r q : SearchRequest) → (validate r ≡ ok q) ↔ ((q ≡ r) × IsValid r)
validate_iff r q = (validate_sound r q, λ h. rw h.0 (validate_complete r h.1))
