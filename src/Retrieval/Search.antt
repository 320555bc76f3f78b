-- ===== src/Retrieval/Search.antt =====
-- retrieval/core.py: the filters, the paged search of one partition, and the ranked search. The
-- store's filtered search, `json.loads` and the order of floats are parameters. The time limit of
-- 20 seconds is one of the errors that the store's search may raise.
pub mod Filters
pub mod Order
pub mod Paging
pub mod Collect
pub mod Partition
pub mod Hits
pub mod Sorting
pub mod Soundness
use fleet_memory.Prelude.{
  ℕ, zero, suc, ◌+◌, ◌-◌, min, Bool, true, false, ◌&&◌, ◌||◌, not, List, [], ◌∷◌, ◌++◌, Option,
  none, some, Text, text_mem, codes, ltb, leb, if◌then◌else◌, length, take, filter, is_empty, map,
}
use fleet_memory.Errors.{Result, ok, err, ◌>>=◌, runtime_error, endless}
use fleet_memory.Json.{Json}
use fleet_memory.Retrieval.Item.{SearchItem}
use fleet_memory.Retrieval.Request.{SearchRequest}
use fleet_memory.Retrieval.Search.Filters.{
  matches_project, matches_payload_types, matches_domain_tags, is_superseded,
  has_substantive_content,
}
use fleet_memory.Retrieval.Search.Order.{sorted_set, sort_items}

abbrev pub ranked_result_limit : ℕ
ranked_result_limit = 10

abbrev pub logical_page_size : ℕ
logical_page_size = 10

abbrev pub max_scanned_per_partition : ℕ
max_scanned_per_partition = 1024

-- `if payload_type is not None and not _matches_payload_types(item, [payload_type])`
abbrev in_partition : {Score : Type 0} → Option Text → SearchItem Score → Bool
in_partition none item = true
in_partition (some payload_type) item = matches_payload_types item (payload_type ∷ [])

abbrev pub partition_namespace : SearchRequest → Option Text → List Text
partition_namespace request none = codes "fleet_memory" ∷ request.project ∷ []
partition_namespace request (some payload_type) =
    codes "fleet_memory" ∷ request.project ∷ payload_type ∷ []

-- The bound on the rounds is never met (`enough_rounds` of Partition).
abbrev pub within_rounds : {A : Type 0} → Option (Result A) → Result A
within_rounds none = err endless
within_rounds (some result) = result

-- `sorted(set(request.payload_types)) if request.payload_types else [None]`
unfoldable pub partitions : SearchRequest → List (Option Text)
partitions request =
    if is_empty request.payload_types
    then none ∷ []
    else map some (sorted_set request.payload_types)

module _ {Score : Type 0} where
  abbrev pub key_of : SearchItem Score → Text
  key_of item = item.key

  -- One item of each key, the first.
  unfoldable pub deduplicate : List Text → List (SearchItem Score) → List (SearchItem Score)
  deduplicate seen_keys [] = []
  deduplicate seen_keys (item ∷ rest) =
      if text_mem item.key seen_keys
      then deduplicate seen_keys rest
      else item ∷ deduplicate (item.key ∷ seen_keys) rest

  unfoldable pub scan_bound_reached :
      SearchRequest → List (SearchItem Score) → Result (List (SearchItem Score))
  scan_bound_reached request accepted =
      if request.require_substantive then err runtime_error else ok accepted

module _ {Score : Type 0} (json_loads : Text → Option Json) where
  -- The tests of the loop, before the one on seen keys.
  unfoldable pub accepts : SearchRequest → Option Text → SearchItem Score → Bool
  accepts request payload_type item =
      matches_project item request.project
      && in_partition payload_type item
      && matches_domain_tags json_loads item request.domain_tags
      && (request.include_superseded || not (is_superseded item))
      && (not request.require_substantive || has_substantive_content json_loads item)

  -- The loop over one page; the accepted items are those with the seen keys.
  unfoldable pub scan_page :
      SearchRequest
      → Option Text
      → List (SearchItem Score)
      → List (SearchItem Score)
      → List (SearchItem Score)
  unfolding accepts
  scan_page request payload_type accepted [] = accepted
  scan_page request payload_type accepted (item ∷ rest) =
      let skipped = scan_page request payload_type accepted rest in
      let taken = scan_page request payload_type (accepted ++ (item ∷ [])) rest in
      if accepts request payload_type item && not (text_mem item.key (map key_of accepted))
      then (if leb ranked_result_limit (length (accepted ++ (item ∷ [])))
          then accepted ++ (item ∷ [])
          else taken)
      else skipped

  -- The filters behind the partitions.
  unfoldable pub refilter : SearchRequest → List (SearchItem Score) → List (SearchItem Score)
  unfolding deduplicate
  refilter request raw_results =
      let in_project = filter (λ item. matches_project item request.project) raw_results in
      let typed = filter (λ item. matches_payload_types item request.payload_types) in_project in
      let tagged = filter (λ item. matches_domain_tags json_loads item request.domain_tags) typed in
      let current =
        if request.include_superseded
        then tagged
        else filter (λ item. not (is_superseded item)) tagged in
      deduplicate [] current

  module _
      (fetch : List Text
        → Option Text
        → Option Text
        → ℕ
        → ℕ
        → Result (List (SearchItem Score))) where
    -- The `while` loop, from the accepted items and an offset; `none` where the fuel ran out.
    unfoldable pub scan :
        ℕ
        → SearchRequest
        → Option Text
        → List (SearchItem Score)
        → ℕ
        → Option (Result (List (SearchItem Score)))
    unfolding scan_page scan_bound_reached
    scan zero request payload_type accepted offset = none
    scan (suc fuel) request payload_type accepted offset =
        let remaining = max_scanned_per_partition - offset in
        let logical_size = min logical_page_size remaining in
        elim (leb ranked_result_limit (length accepted)) [
          | true ↦ some (ok accepted)
          | false ↦ elim (leb max_scanned_per_partition offset) [
            | true ↦ some (scan_bound_reached request accepted)
            | false ↦
                elim (fetch (partition_namespace request payload_type) request.query payload_type
                  (offset + logical_size) offset) [
                    | err e ↦ some (err e)
                    | ok fetched ↦
                        let page = take logical_size fetched in
                        let accepted' = scan_page request payload_type accepted page in
                        let offset' = offset + length page in
                        let exhausted =
                          (ltb (length fetched) (offset + logical_size)
                            && leb (length fetched) logical_size)
                          || ltb (length page) logical_size in
                        elim exhausted [
                          | true ↦ some (ok accepted')
                          | false ↦
                              elim (leb max_scanned_per_partition offset'
                                && ltb (length accepted') ranked_result_limit) [
                                  | true ↦ some (scan_bound_reached request accepted')
                                  | false ↦ scan fuel request payload_type accepted' offset'
                                ]
                        ]
                  ]
          ]
        ]

    unfoldable pub search_partition : SearchRequest → Option Text → Result (List (SearchItem Score))
    unfolding scan
    search_partition request payload_type =
        within_rounds (scan (suc max_scanned_per_partition) request payload_type [] 0)

    unfoldable pub search_partitions :
        SearchRequest → List (Option Text) → Result (List (SearchItem Score))
    unfolding search_partition
    search_partitions request [] = ok []
    search_partitions request (payload_type ∷ rest) = do
      found ← search_partition request payload_type
      others ← search_partitions request rest
      ok (found ++ others)

    module _ (place : Option Score → ℕ) where
      unfoldable pub search : SearchRequest → Result (List (SearchItem Score))
      unfolding search_partitions partitions refilter
      search request = do
        raw_results ← search_partitions request (partitions request)
        ok (take ranked_result_limit (sort_items place (refilter request raw_results)))
