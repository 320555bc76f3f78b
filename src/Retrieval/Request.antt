-- ===== src/Retrieval/Request.antt =====
-- retrieval/search_request.py: `SearchRequest` and its validators.
pub mod Validity
use fleet_memory.Prelude.{
  Bool, false, ◌&&◌, ◌||◌, not, List, [], ◌∷◌, Option, Text, is_empty, split, ℤ, is_negative,
  filter,
}
use fleet_memory.Errors.{Result, ok, ◌>>◌, check, validation}
use fleet_memory.Payloads.Base.{colon}
use fleet_memory.Payloads.BackwardEdge.{is_some, is_tag_segment, without_final_newline}
use fleet_memory.Payloads.Norm.{is_namespace_part}
use fleet_memory.Payloads.Registry.{is_registered}

pub record SearchRequest : Type 0 where
  pub project : Text
  pub payload_types : List Text
  pub domain_tags : List Text
  pub query : Option Text
  pub token_budget : ℤ
  pub include_superseded : Bool
  pub require_substantive : Bool

-- `_PROJECT_PATTERN.match(v)`
unfoldable pub matches_project_pattern : Text → Bool
matches_project_pattern v = is_namespace_part (without_final_newline v)

is_tag_parts : List Text → Bool
is_tag_parts (facet ∷ []) = is_tag_segment facet
is_tag_parts (facet ∷ value ∷ []) = is_tag_segment facet && is_tag_segment value
is_tag_parts _ = false

-- `_DOMAIN_TAG_PATTERN.match(tag)`
unfoldable pub matches_domain_tag_pattern : Text → Bool
unfolding is_tag_parts
matches_domain_tag_pattern tag = is_tag_parts (split colon (without_final_newline tag))

unfoldable pub validate_payload_types : List Text → Bool
validate_payload_types v = is_empty (filter (λ pt. not (is_registered pt)) v)

unfoldable pub validate_domain_tags : List Text → Bool
validate_domain_tags v = is_empty (filter (λ tag. not (matches_domain_tag_pattern tag)) v)

unfoldable pub validate_query_or_filter_required : SearchRequest → Bool
validate_query_or_filter_required r =
    is_some r.query || (not (is_empty r.payload_types) || not (is_empty r.domain_tags))

-- The construction of a request: the field validators, then the one of the model.
unfoldable pub validate : SearchRequest → Result SearchRequest
validate r = do
  check (matches_project_pattern r.project) validation
  check (validate_payload_types r.payload_types) validation
  check (validate_domain_tags r.domain_tags) validation
  check (not (is_negative r.token_budget)) validation
  check (validate_query_or_filter_required r) validation
  ok r
