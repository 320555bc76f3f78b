-- ===== src/Retrieval/RoleScope/Defaults.antt =====
-- The requests that the roles' defaults give.
use fleet_memory.Prelude.{
  ◌≡◌, refl, ℕ, Bool, true, false, List, [], ◌∷◌, none, some, Text, text_mem, text_eq_iff, All,
  arith, inl, inr, Bool-cases, ◌||◌, text_eq, text_eq_refl, pos, ap, ◌≢◌, Option, All-append,
  All-filter,
}
use mathlib.Core.Path.{subst₂}
use fleet_memory.Payloads.Base.Collapse.{text_mem-concat}
use fleet_memory.Errors.{ok, >>=-eq-ok}
use fleet_memory.Payloads.Base.{default_to}
use fleet_memory.Payloads.Registry.{is_registered}
use fleet_memory.Payloads.Norm.{is_namespace_part}
use fleet_memory.Payloads.BackwardEdge.{without_final_newline, is_tag_segment}
use fleet_memory.Retrieval.Request.{SearchRequest, matches_domain_tag_pattern}
use fleet_memory.Retrieval.Request.Validity.{IsValid, validate_iff, validate_complete}
use fleet_memory.Retrieval.RoleScope.{
  RoleRetrievalDefault, RoleScopeOptions, role_retrieval_defaults, find_default, role_tag,
  resolved_types, scoped_tags, role_scoped_search_request,
}

text_mem-scoped_tags :
    (role t : Text) (tags : List Text)
    → text_mem t (scoped_tags role false tags) ≡ (text_eq (role_tag role) t || text_mem t tags)
unfolding scoped_tags
text_mem-scoped_tags role t tags = elim (Bool-cases (text_mem (role_tag role) tags)) [
  | inl known ↦ rw known (ground (arith, text_eq_iff (role_tag role) t))
  | inr new ↦ rw new (ground (arith, text_mem-concat t (role_tag role) tags))
]

All-scoped_tags :
    (P : Text → Type 0) (role : Text) (cross_role : Bool) (tags : List Text)
    → P (role_tag role)
    → All P tags
    → All P (scoped_tags role cross_role tags)
unfolding scoped_tags
All-scoped_tags P role true tags own h = h
All-scoped_tags P role false tags own h = elim (Bool-cases (text_mem (role_tag role) tags)) [
  | inl known ↦ rw known h
  | inr new ↦ rw new (All-append P tags (role_tag role ∷ []) h (own, tt))
]

-- A seat of the table has a tag that requests accept, and a budget that is not negative.
abbrev IsSeat : Text → RoleRetrievalDefault → Type 0
IsSeat role default =
    (matches_domain_tag_pattern (role_tag role) ≡ true) × ((n : ℕ) × (default.token_budget ≡ pos n))

seats : All (λ e. IsSeat e.0 e.1) role_retrieval_defaults
unfolding matches_domain_tag_pattern is_tag_segment
seats = (
  (refl, (4000, refl)),
  (
    (refl, (4000, refl)),
    ((refl, (2500, refl)), ((refl, (1500, refl)), ((refl, (6000, refl)), tt))),
  ),
)

find_default_sound :
    (role : Text) (default : RoleRetrievalDefault) (table : List (Text × RoleRetrievalDefault))
    → All (λ e. IsSeat e.0 e.1) table
    → find_default role table ≡ ok default
    → IsSeat role default
unfolding find_default
find_default_sound role default [] h e = cc
find_default_sound role default ((r, d) ∷ rest) (seat, h) e = elim (Bool-cases (text_eq r role)) [
  | inl same ↦
      let found : d ≡ default = ground arith in
      subst₂ IsSeat ((text_eq_iff r role).0 same) found seat
  | inr other ↦ find_default_sound role default rest h (ground arith)
]

-- What a scoped request holds: the seat's own tag unless it reads across roles, the caller's tags,
-- registered types only, and the seat's budget where the caller gives none.
pub record IsScoped (role asked_project : Text) (o : RoleScopeOptions)
    (default : RoleRetrievalDefault) (q : SearchRequest) : Type 0 where
  pub known : find_default role role_retrieval_defaults ≡ ok default
  pub project : q.project ≡ asked_project
  pub query : q.query ≡ o.query
  pub token_budget : q.token_budget ≡ default_to default.token_budget o.token_budget
  pub payload_types : q.payload_types ≡ resolved_types default o.payload_types
  pub all_registered : All (λ t. is_registered t ≡ true) q.payload_types
  pub own_role : o.cross_role ≡ false → text_mem (role_tag role) q.domain_tags ≡ true
  pub tags :
      (t : Text) → text_mem t (default_to [] o.domain_tags) ≡ true → text_mem t q.domain_tags ≡ true
  pub valid : IsValid q

tags-scoped :
    (role : Text) (cross_role : Bool) (given : List Text)
    → (cross_role ≡ false → text_mem (role_tag role) (scoped_tags role cross_role given) ≡ true)
      × ((t : Text)
          → text_mem t given ≡ true
          → text_mem t (scoped_tags role cross_role given) ≡ true)
unfolding scoped_tags
tags-scoped role true given = (λ e. cc, λ t h. h)
tags-scoped role false given = (
  λ e.
      ground (arith, text_mem-scoped_tags role (role_tag role) given, text_eq_refl (role_tag role)),
  λ t h. ground (arith, text_mem-scoped_tags role t given),
)

-- A role-scoped request that is built holds the scope of its seat.
pub role_scoped_search_request_sound :
    (role project : Text) (o : RoleScopeOptions) (q : SearchRequest)
    → role_scoped_search_request role project o ≡ ok q
    → (default : RoleRetrievalDefault) × IsScoped role project o default q
unfolding role_scoped_search_request
role_scoped_search_request_sound role project o q h =
    let (default, known, h1) = >>=-eq-ok (find_default role role_retrieval_defaults) _ h in
    let (same, valid) = (validate_iff _ q).0 h1 in
    let (own, kept) = tags-scoped role o.cross_role (default_to [] o.domain_tags) in
    (
      default,
      record {
        known = known;
        project = ap (λ (r : SearchRequest). r.project) same;
        query = ap (λ (r : SearchRequest). r.query) same;
        token_budget = ap (λ (r : SearchRequest). r.token_budget) same;
        payload_types = ap (λ (r : SearchRequest). r.payload_types) same;
        all_registered = rw same valid.payload_types;
        own_role = λ e. rw same (own e);
        tags = λ t e. rw same (kept t e);
        valid = rw same valid;
      },
    )

resolved_types-registered :
    (default : RoleRetrievalDefault) (given : Option (List Text))
    → All (λ t. is_registered t ≡ true) (resolved_types default given)
resolved_types-registered default none = All-filter is_registered default.payload_types
resolved_types-registered default (some types) = All-filter is_registered types

scoped_tags-nonempty : (role : Text) (tags : List Text) → scoped_tags role false tags ≢ []
scoped_tags-nonempty role tags e =
    let own : text_mem (role_tag role) (scoped_tags role false tags) ≡ true =
      ground
        (arith, text_mem-scoped_tags role (role_tag role) tags, text_eq_refl (role_tag role)) in
    ground (arith, (rw e at own))

-- Every seat of the table can ask with its defaults: for a project and extra tags that requests
-- accept, a request within its own role is built, with a query or without.
pub role_scoped_search_request_total :
    (role project : Text) (default : RoleRetrievalDefault) (o : RoleScopeOptions)
    → find_default role role_retrieval_defaults ≡ ok default
    → is_namespace_part (without_final_newline project) ≡ true
    → All (λ t. matches_domain_tag_pattern t ≡ true) (default_to [] o.domain_tags)
    → o.token_budget ≡ none
    → o.cross_role ≡ false
    → (q : SearchRequest) × (role_scoped_search_request role project o ≡ ok q)
unfolding role_scoped_search_request
role_scoped_search_request_total role project default o known valid_project tags budget scoped =
    let (own, (n, positive)) =
      find_default_sound role default role_retrieval_defaults seats known in
    let request : SearchRequest = record {
      project = project;
      payload_types = resolved_types default o.payload_types;
      domain_tags = scoped_tags role o.cross_role (default_to [] o.domain_tags);
      query = o.query;
      token_budget = default_to default.token_budget o.token_budget;
      include_superseded = o.include_superseded;
      require_substantive = false;
    } in
    (
      request,
      rw known (
          validate_complete request (record {
            project = valid_project;
            payload_types = resolved_types-registered default o.payload_types;
            domain_tags =
                All-scoped_tags (λ t. matches_domain_tag_pattern t ≡ true) role o.cross_role
                  (default_to [] o.domain_tags) own tags;
            token_budget = (n, rw budget positive);
            asked = inr (inr (rw scoped (scoped_tags-nonempty role (default_to [] o.domain_tags))));
          })),
    )
