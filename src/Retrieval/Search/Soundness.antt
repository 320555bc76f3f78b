-- ===== src/Retrieval/Search/Soundness.antt =====
-- What every search result guarantees, whatever the store returns.
use mathlib.Core.Path.{subst}
use fleet_memory.Prelude.{
  ℕ, zero, suc, ◌+◌, ◌≤◌, ◌≡◌, ap, ◌&&◌, List, [], ◌∷◌, Option, none, some, Text, arith, ltb, leb,
  length, take, map, All, All-take, All-append, Bool-cases, inl, inr, length-take,
}
use fleet_memory.Errors.{Result, ok, err, >>=-eq-ok, Result-cases}
use fleet_memory.Json.{Json}
use fleet_memory.Payloads.Base.Collapse.{Distinct}
use fleet_memory.Retrieval.Item.{SearchItem}
use fleet_memory.Retrieval.Request.{SearchRequest}
use fleet_memory.Retrieval.Search.Order.{sort_items}
use fleet_memory.Retrieval.Search.Sorting.{
  IsRanked, sort_items-IsRanked, All-sort_items, Distinct-sort_items, IsRanked-take, Distinct-take,
}
use fleet_memory.Retrieval.Search.Paging.{page_size, is_exhausted}
use fleet_memory.Retrieval.Search.Hits.{
  ok_injective, deduplicate-Distinct, IsHit, IsSubstantive, scan_page-All, scan_bound_reached-All,
  refilter-IsHit,
}
use fleet_memory.Retrieval.Search.{
  ranked_result_limit, max_scanned_per_partition, key_of, scan_page, scan, partition_namespace,
  within_rounds, search_partition, search_partitions, partitions, refilter, search,
}

some_injective : {A : Type 0} (a b : A) → some a ≡ some b → a ≡ b
some_injective a b e = cc

some_ok_injective : {A : Type 0} (a b : A) → some (ok a) ≡ some (ok b) → a ≡ b
some_ok_injective a b e = cc

within_rounds-eq-ok :
    {A : Type 0} (o : Option (Result A)) (a : A) → within_rounds o ≡ ok a → o ≡ some (ok a)
within_rounds-eq-ok none a e = cc
within_rounds-eq-ok (some r) a e = ap some e

module _ {Score : Type 0} (json_loads : Text → Option Json) (request : SearchRequest) where
  module _
      (fetch : List Text
        → Option Text
        → Option Text
        → ℕ
        → ℕ
        → Result (List (SearchItem Score))) where
    scan-All :
        (payload_type : Option Text) (fuel offset : ℕ) (accepted result : List (SearchItem Score))
        → All (IsSubstantive json_loads request) accepted
        → scan json_loads fetch fuel request payload_type accepted offset ≡ some (ok result)
        → All (IsSubstantive json_loads request) result
    unfolding scan
    scan-All payload_type zero offset accepted result h e = cc
    scan-All payload_type (suc fuel) offset accepted result h e =
        elim (Bool-cases (leb ranked_result_limit (length accepted))) [
          | inl full ↦
              subst (All (IsSubstantive json_loads request))
                (some_ok_injective _ _ (rw (full, scan) at e)) h
          | inr more ↦ elim (Bool-cases (leb max_scanned_per_partition offset)) [
            | inl bound ↦
                scan_bound_reached-All json_loads request accepted result h
                  (some_injective _ _ (rw (more, bound, scan) at e))
            | inr below ↦
                elim (Result-cases (
                  fetch (partition_namespace request payload_type) request.query payload_type
                    (offset + page_size offset) offset)) [
                      | inl (raised, e') ↦
                          let bad : some (err raised) ≡ some (ok result) =
                            (rw (more, below, e', scan) at e) in
                          cc
                      | inr (fetched, got) ↦
                          let page = take (page_size offset) fetched in
                          let accepted' = scan_page json_loads request payload_type accepted page in
                          let hits =
                            scan_page-All json_loads request payload_type accepted page h in
                          elim (Bool-cases (is_exhausted offset (length fetched) (length page))) [
                            | inl done ↦
                                subst (All (IsSubstantive json_loads request))
                                  (some_ok_injective _ _ (rw (more, below, got, done, scan) at e))
                                  hits
                            | inr go ↦
                                elim (Bool-cases (
                                  leb max_scanned_per_partition (offset + length page)
                                  && ltb (length accepted') ranked_result_limit)) [
                                    | inl bound ↦
                                        scan_bound_reached-All json_loads request accepted' result
                                          hits
                                          (some_injective _ _
                                            (rw (more, below, got, go, bound, scan) at e))
                                    | inr again ↦
                                        scan-All payload_type fuel (offset + length page) accepted'
                                          result hits (rw (more, below, got, go, again, scan) at e)
                                  ]
                          ]
                    ]
          ]
        ]

    search_partition-All :
        (payload_type : Option Text) (result : List (SearchItem Score))
        → search_partition json_loads fetch request payload_type ≡ ok result
        → All (IsSubstantive json_loads request) result
    unfolding search_partition
    search_partition-All payload_type result e =
        scan-All payload_type (suc max_scanned_per_partition) 0 [] result tt
          (within_rounds-eq-ok _ result e)

    search_partitions-All :
        (types : List (Option Text)) (result : List (SearchItem Score))
        → search_partitions json_loads fetch request types ≡ ok result
        → All (IsSubstantive json_loads request) result
    unfolding search_partitions
    search_partitions-All [] result e =
        subst (All (IsSubstantive json_loads request)) (ok_injective _ _ e) tt
    search_partitions-All (t ∷ ts) result e =
        let (found, first, e1) = >>=-eq-ok (search_partition json_loads fetch request t) _ e in
        let (others, rest, e2) = >>=-eq-ok (search_partitions json_loads fetch request ts) _ e1 in
        subst (All (IsSubstantive json_loads request)) (ok_injective _ _ e2) (
          All-append (IsSubstantive json_loads request) found others
            (search_partition-All t found first) (search_partitions-All ts others rest))

    module _ (place : Option Score → ℕ) where
      -- What a search returns: at most ten items, each of them what was asked for, one of each key,
      -- ranked.
      pub record IsAnswer (items : List (SearchItem Score)) : Type 0 where
        pub few : length items ≤ ranked_result_limit
        pub hits : All (IsHit json_loads request) items
        pub distinct : Distinct (map key_of items)
        pub ranked : IsRanked place items

      -- A search that returns, whatever the store finds, gives at most ten items, each of the
      -- project, types and tags that were asked for, superseded or without substance only where
      -- the request allows it, no key twice, by descending score and then by natural key.
      pub search-IsAnswer :
          (items : List (SearchItem Score))
          → search json_loads fetch place request ≡ ok items
          → IsAnswer items
      unfolding search refilter
      search-IsAnswer items e =
          let (raw, found, e1) =
            >>=-eq-ok (search_partitions json_loads fetch request (partitions request)) _ e in
          let hits = refilter-IsHit json_loads request raw (search_partitions-All _ raw found) in
          let sorted = sort_items place (refilter json_loads request raw) in
          subst IsAnswer (ok_injective _ _ e1) (record {
            few = omega (arith, length-take ranked_result_limit sorted);
            hits =
                All-take (IsHit json_loads request) ranked_result_limit sorted
                  (All-sort_items place (IsHit json_loads request) _ hits);
            distinct =
                Distinct-take ranked_result_limit sorted
                  (Distinct-sort_items place _ (deduplicate-Distinct [] _));
            ranked = IsRanked-take place ranked_result_limit sorted (sort_items-IsRanked place _);
          })
