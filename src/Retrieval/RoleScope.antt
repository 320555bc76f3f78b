-- ===== src/Retrieval/RoleScope.antt =====
-- retrieval/role_scope.py: the default envelope of each role, and the requests built from it.
pub mod Defaults
use fleet_memory.Prelude.{
  Bool, true, false, List, [], ◌∷◌, ◌++◌, Option, none, some, Text, text_eq, text_mem, codes,
  if◌then◌else◌, filter, ℤ, pos,
}
use fleet_memory.Errors.{Result, ok, err, ◌>>=◌, key_error}
use fleet_memory.Payloads.Base.{default_to}
use fleet_memory.Payloads.Registry.{is_registered}
use fleet_memory.Retrieval.Request.{SearchRequest, validate}

pub record RoleRetrievalDefault : Type 0 where
  pub token_budget : ℤ
  pub payload_types : List Text

abbrev pub role_retrieval_defaults : List (Text × RoleRetrievalDefault)
role_retrieval_defaults =
    (
      codes "product-owner",
      record {
        token_budget = pos 4000;
        payload_types =
            codes "adr" ∷ codes "planning_outcome" ∷ codes "spec_survival" ∷ codes "document" ∷ [];
      },
    )
    ∷ (
      codes "architect",
      record {
        token_budget = pos 4000;
        payload_types = codes "adr" ∷ codes "pattern" ∷ codes "build_outcome" ∷ [];
      },
    )
    ∷ (
      codes "coach",
      record {
        token_budget = pos 2500;
        payload_types = codes "build_outcome" ∷ codes "review_report" ∷ codes "warning" ∷ [];
      },
    )
    ∷ (
      codes "qa-verifier",
      record {
        token_budget = pos 1500;
        payload_types = codes "live_verdict" ∷ codes "build_outcome" ∷ [];
      },
    )
    ∷ (codes "player", record { token_budget = pos 6000; payload_types = [] })
    ∷ []

unfoldable pub find_default :
    Text → List (Text × RoleRetrievalDefault) → Result RoleRetrievalDefault
find_default role [] = err (key_error role)
find_default role ((r, default) ∷ rest) =
    if text_eq r role then ok default else find_default role rest

abbrev pub role_tag : Text → Text
role_tag role = codes "role:" ++ role

abbrev registered : List Text → List Text
registered payload_types = filter is_registered payload_types

-- `payload_types` overrides the allowlist of the role; unregistered names are dropped of both.
abbrev pub resolved_types : RoleRetrievalDefault → Option (List Text) → List Text
resolved_types default none = registered default.payload_types
resolved_types default (some payload_types) = registered payload_types

unfoldable pub scoped_tags : Text → Bool → List Text → List Text
scoped_tags role true tags = tags
scoped_tags role false tags =
    if text_mem (role_tag role) tags then tags else tags ++ (role_tag role ∷ [])

-- The keyword arguments of `role_scoped_search_request`.
pub record RoleScopeOptions : Type 0 where
  pub query : Option Text
  pub token_budget : Option ℤ
  pub payload_types : Option (List Text)
  pub domain_tags : Option (List Text)
  pub cross_role : Bool
  pub include_superseded : Bool

unfoldable pub role_scoped_search_request : Text → Text → RoleScopeOptions → Result SearchRequest
unfolding scoped_tags find_default
role_scoped_search_request role project o = do
  default ← find_default role role_retrieval_defaults
  validate (record {
    project = project;
    payload_types = resolved_types default o.payload_types;
    domain_tags = scoped_tags role o.cross_role (default_to [] o.domain_tags);
    query = o.query;
    token_budget = default_to default.token_budget o.token_budget;
    include_superseded = o.include_superseded;
    require_substantive = false;
  })
