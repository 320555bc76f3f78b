-- ===== src/Retrieval/Tests.antt =====
-- Runs of the retrieval theorems on a small ranking.
use fleet_memory.Prelude.{
  ℕ, zero, suc, ◌*◌, ◌-◌, ◌≡◌, ◌≢◌, ◌↔◌, refl, false, List, [], ◌∷◌, ◌++◌, Option, none, some, Text,
  codes, pos, take, drop, filter, arith, length, text_eq,
}
use fleet_memory.Errors.{Result, ok}
use fleet_memory.Json.{Json, text_leb}
use fleet_memory.Payloads.Norm.{is_namespace_part}
use fleet_memory.Payloads.BackwardEdge.{is_tag_segment}
use fleet_memory.Payloads.Registry.{is_registered}
use fleet_memory.Store.Value.{empty_value}
use fleet_memory.Retrieval.Item.{SearchItem, extract_payload_type}
use fleet_memory.Retrieval.Request.{
  SearchRequest, validate, matches_project_pattern, matches_domain_tag_pattern,
  validate_payload_types, validate_domain_tags, validate_query_or_filter_required,
}
use fleet_memory.Retrieval.Request.Validity.{IsValid, validate_iff}
use fleet_memory.Retrieval.RoleScope.{
  RoleRetrievalDefault, RoleScopeOptions, role_scoped_search_request, find_default, scoped_tags,
}
use fleet_memory.Retrieval.Assembly.{assemble_context}
use fleet_memory.Retrieval.Assembly.Budget.{IsAssembled, IsOversized, assemble_context-IsAssembled}
use fleet_memory.Retrieval.Search.{
  ranked_result_limit, max_scanned_per_partition, deduplicate, accepts, scan, scan_page,
  scan_bound_reached, search_partition, search_partitions, partitions, refilter, search,
}
use fleet_memory.Retrieval.Search.Filters.{
  matches_project, matches_payload_types, matches_domain_tags, is_superseded,
  has_substantive_content,
}
use fleet_memory.Retrieval.Search.Order.{
  ranks_before, insert_item, sort_items, insert_text, sorted_set,
}
use fleet_memory.Retrieval.Search.Partition.{enough_rounds, search_partition_lem}
use fleet_memory.Retrieval.Search.Soundness.{IsAnswer, search-IsAnswer}

abbrev disk_request : SearchRequest
disk_request = record {
  project = codes "guardkit";
  payload_types = codes "warning" ∷ [];
  domain_tags = [];
  query = some (codes "disk");
  token_budget = pos 20;
  include_superseded = false;
  require_substantive = false;
}

abbrev no_json : Text → Option Json
no_json content = none

abbrev item : Text → Text → ℕ → Text → SearchItem ℕ
item project key score content = record {
  namespace = codes "fleet_memory" ∷ project ∷ codes "warning" ∷ [];
  key = key;
  score = some score;
  value = record empty_value {
    content = some content;
    natural_key = some (codes "warning:" ++ (project ++ (codes ":" ++ key)));
  };
}

abbrev pub low : SearchItem ℕ
low = item (codes "guardkit") (codes "k1") 3 (codes "the disk")

abbrev high : SearchItem ℕ
high = item (codes "guardkit") (codes "k2") 8 (codes "is full")

abbrev sibling : SearchItem ℕ
sibling = item (codes "guardkit_factory") (codes "k3") 9 (codes "another project")

-- Items of another project, as many as are given, in front of the ranking.
abbrev behind : ℕ → List (SearchItem ℕ)
behind zero = low ∷ sibling ∷ high ∷ low ∷ []
behind (suc n) = sibling ∷ behind n

-- A ranking whose first answer comes behind the window of the first page.
abbrev ranking : List (SearchItem ℕ)
ranking = behind 22

-- The store's inner window, which the offset does not move.
abbrev inner_window : ℕ → ℕ
inner_window limit = suc (limit * 2)

abbrev paged : List Text → Option Text → Option Text → ℕ → ℕ → Result (List (SearchItem ℕ))
paged namespace query payload_type limit offset =
    ok (take limit (drop offset (take (inner_window limit) ranking)))

abbrev place : Option ℕ → ℕ
place none = 100
place (some score) = 100 - score

validate_iff_example :
    (validate disk_request ≡ ok disk_request)
    ↔ ((disk_request ≡ disk_request) × IsValid disk_request)
validate_iff_example = validate_iff disk_request disk_request

abbrev coach_options : RoleScopeOptions
coach_options = record {
  query = none;
  token_budget = none;
  payload_types = none;
  domain_tags = some (codes "env:prod" ∷ []);
  cross_role = false;
  include_superseded = false;
}

abbrev coach_default : RoleRetrievalDefault
coach_default = record {
  token_budget = pos 2500;
  payload_types = codes "build_outcome" ∷ codes "review_report" ∷ codes "warning" ∷ [];
}

abbrev coach_request : SearchRequest
coach_request = record {
  project = codes "guardkit";
  payload_types = codes "build_outcome" ∷ codes "review_report" ∷ codes "warning" ∷ [];
  domain_tags = codes "env:prod" ∷ codes "role:coach" ∷ [];
  query = none;
  token_budget = pos 2500;
  include_superseded = false;
  require_substantive = false;
}

coach_scoped :
    role_scoped_search_request (codes "coach") (codes "guardkit") coach_options ≡ ok coach_request
unfolding role_scoped_search_request find_default scoped_tags validate matches_project_pattern
    matches_domain_tag_pattern validate_payload_types validate_domain_tags
    validate_query_or_filter_required is_registered is_namespace_part is_tag_segment text_eq
coach_scoped = refl

assemble_context-IsAssembled_example :
    IsAssembled 0
      (λ used budget. used)
      length
      20
      (low ∷ high ∷ [])
      (assemble_context 0 (λ used budget. used) length (low ∷ high ∷ []) (pos 20))
assemble_context-IsAssembled_example =
    assemble_context-IsAssembled 0 (λ used budget. used) length (low ∷ high ∷ []) 20

-- A count that is over the budget for every block that ends so.
low-IsOversized : IsOversized (λ block. suc (suc (length block))) 1 low
low-IsOversized block = ground arith

search_partition_lem_example :
    search_partition no_json paged disk_request (some (codes "warning"))
    ≡ ok (
        take ranked_result_limit
          (deduplicate [] (filter (accepts no_json disk_request (some (codes "warning"))) ranking)))
search_partition_lem_example =
    search_partition_lem no_json disk_request (some (codes "warning")) paged ranking (omega arith)
      inner_window (λ limit. omega arith) (λ limit offset. refl)

enough_rounds_example :
    scan no_json paged (suc max_scanned_per_partition) disk_request (some (codes "warning")) [] 0
    ≢ none
enough_rounds_example =
    enough_rounds no_json disk_request (some (codes "warning")) paged
      (suc max_scanned_per_partition) 0 [] (omega arith)

search_disk : search no_json paged place disk_request ≡ ok (high ∷ low ∷ [])
unfolding search search_partitions search_partition scan scan_page scan_bound_reached partitions
    refilter deduplicate accepts matches_project matches_payload_types matches_domain_tags
    is_superseded has_substantive_content ranks_before insert_item sort_items insert_text sorted_set
    text_leb text_eq extract_payload_type
search_disk = refl

search-IsAnswer_example : IsAnswer no_json disk_request paged place (high ∷ low ∷ [])
search-IsAnswer_example =
    search-IsAnswer no_json disk_request paged place (high ∷ low ∷ []) search_disk
