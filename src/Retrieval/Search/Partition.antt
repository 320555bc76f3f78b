-- ===== src/Retrieval/Search/Partition.antt =====
-- The paged search of one partition is one search through the whole ranking.
use fleet_memory.Prelude.{
  ℕ, zero, suc, ◌+◌, ◌-◌, ◌<◌, ◌≤◌, ◌≡◌, ◌≢◌, refl, sym, ap, ◌∙◌, true, false, ◌&&◌, List, [],
  Option, none, some, Text, arith, ltb, leb, length, take, drop, Bool-cases, inl, inr, filter,
  take-append-drop, length-take, length-drop, drop-drop, take_all, min,
}
use fleet_memory.Errors.{Result, ok, Result-cases}
use fleet_memory.Json.{Json}
use fleet_memory.Retrieval.Item.{SearchItem}
use fleet_memory.Retrieval.Request.{SearchRequest}
use fleet_memory.Retrieval.Search.Paging.{
  page_size, is_exhausted, short_of, below_bound, take-take, take-drop-take, whole_page,
}
use fleet_memory.Retrieval.Search.Collect.{
  collect, collect_full, scan_page-collect, collect-append, collect-deduplicate,
}
use fleet_memory.Retrieval.Search.{
  ranked_result_limit, max_scanned_per_partition, deduplicate, accepts, scan_page, scan,
  search_partition, partition_namespace,
}

module _ {Score : Type 0} (json_loads : Text → Option Json) (request : SearchRequest)
    (payload_type : Option Text) where
  module _
      (fetch : List Text
        → Option Text
        → Option Text
        → ℕ
        → ℕ
        → Result (List (SearchItem Score))) where
    -- Whatever the store's search returns, the loop ends within as many rounds as there are items
    -- to scan, and one more.
    pub enough_rounds :
        (fuel offset : ℕ) (accepted : List (SearchItem Score))
        → max_scanned_per_partition - offset < fuel
        → scan json_loads fetch fuel request payload_type accepted offset ≢ none
    unfolding scan
    enough_rounds zero offset accepted h = absurd (omega arith)
    enough_rounds (suc fuel) offset accepted h =
        elim (Bool-cases (leb ranked_result_limit (length accepted))) [
          | inl full ↦ rw (full, scan) (λ e. cc)
          | inr more ↦ elim (Bool-cases (leb max_scanned_per_partition offset)) [
            | inl bound ↦ rw (more, bound, scan) (λ e. cc)
            | inr below ↦
                elim (Result-cases (
                  fetch (partition_namespace request payload_type) request.query payload_type
                    (offset + page_size offset) offset)) [
                      | inl (e, raised) ↦ rw (more, below, raised, scan) (λ e. cc)
                      | inr (fetched, got) ↦
                          let page = take (page_size offset) fetched in
                          let accepted' = scan_page json_loads request payload_type accepted page in
                          elim (Bool-cases (is_exhausted offset (length fetched) (length page))) [
                            | inl done ↦ rw (more, below, got, done, scan) (λ e. cc)
                            | inr go ↦
                                elim (Bool-cases (
                                  leb max_scanned_per_partition (offset + length page)
                                  && ltb (length accepted') ranked_result_limit)) [
                                    | inl bound ↦ rw (more, below, got, go, bound, scan) (λ e. cc)
                                    | inr again ↦
                                        let shorter : max_scanned_per_partition
                                              - (offset + length page)
                                            < fuel =
                                          omega (
                                            arith,
                                            whole_page offset (length fetched) (length page) below
                                                go,
                                          ) in
                                        rw (more, below, got, go, again, scan)
                                          (enough_rounds fuel (offset + length page) accepted'
                                            shorter)
                                  ]
                          ]
                    ]
          ]
        ]

    module _ (ranked : List (SearchItem Score)) (few : length ranked ≤ max_scanned_per_partition)
        (window : ℕ → ℕ) (wide : (limit : ℕ) → limit < window limit)
        (pages : (limit offset : ℕ)
          → fetch (partition_namespace request payload_type) request.query payload_type limit offset
            ≡ ok (take limit (drop offset (take (window limit) ranked)))) where
      abbrev rest_from : ℕ → List (SearchItem Score)
      rest_from offset = drop offset ranked

      -- How far behind the offset the page reaches that is asked for there.
      abbrev reach : ℕ → ℕ
      reach offset = min (offset + page_size offset) (window (offset + page_size offset) - offset)

      reaches :
          (offset : ℕ) → min (offset + page_size offset) (suc (page_size offset)) ≤ reach offset
      reaches offset = omega (arith, wide (offset + page_size offset))

      page_reached : (offset : ℕ) → page_size offset ≤ reach offset
      page_reached offset = omega (arith, wide (offset + page_size offset))

      fetched_from :
          (offset : ℕ)
          → fetch
              (partition_namespace request payload_type)
              request.query
              payload_type
              (offset + page_size offset)
              offset
            ≡ ok (take (reach offset) (rest_from offset))
      fetched_from offset =
          pages (offset + page_size offset) offset
          ∙ ap ok (
              take-drop-take (offset + page_size offset) offset (window (offset + page_size offset))
                ranked)

      rest_short :
          (offset : ℕ)
          → is_exhausted offset
              (length (take (reach offset) (rest_from offset)))
              (length (take (page_size offset) (rest_from offset)))
            ≡ true
          → length (rest_from offset) ≤ page_size offset
      rest_short offset done =
          short_of offset (reach offset) (length (rest_from offset)) _ _ (reaches offset)
            (length-take (reach offset) (rest_from offset))
            (length-take (page_size offset) (rest_from offset)) done

      scan_lem :
          (fuel offset : ℕ) (accepted : List (SearchItem Score))
          → max_scanned_per_partition - offset < fuel
          → offset ≤ length ranked
          → (leb max_scanned_per_partition offset && ltb (length accepted) ranked_result_limit)
            ≡ false
          → scan json_loads fetch fuel request payload_type accepted offset
            ≡ some (ok (collect json_loads request payload_type accepted (rest_from offset)))
      unfolding scan
      scan_lem zero offset accepted h within open_bound = absurd (omega arith)
      scan_lem (suc fuel) offset accepted h within open_bound =
          let size = page_size offset in
          let page = take size (rest_from offset) in
          let fetched = take (reach offset) (rest_from offset) in
          let at_page : take size fetched ≡ page =
            take-take size (reach offset) (rest_from offset) (page_reached offset) in
          let accepted' = collect json_loads request payload_type accepted page in
          elim (Bool-cases (leb ranked_result_limit (length accepted))) [
            | inl full ↦
                rw (full, scan)
                  (ap (λ l. some (ok l))
                    (sym (
                      collect_full json_loads request payload_type accepted (rest_from offset)
                        full)))
            | inr more ↦
                let scanned : scan_page json_loads request payload_type accepted page ≡ accepted' =
                  scan_page-collect json_loads request payload_type accepted page more in
                elim (Bool-cases (leb max_scanned_per_partition offset)) [
                  | inl bound ↦ absurd (ground arith)
                  | inr below ↦
                      elim (Bool-cases (is_exhausted offset (length fetched) (length page))) [
                        | inl done ↦
                            rw
                              (
                                more,
                                below,
                                fetched_from offset,
                                at_page,
                                done,
                                at_page,
                                scanned,
                                scan,
                              )
                              (ap
                                (λ l.
                                  some (ok (collect json_loads request payload_type accepted l)))
                                (take_all size (rest_from offset) (rest_short offset done)))
                        | inr go ↦
                            let counted : length page ≡ min size (length ranked - offset) =
                              length-take size (rest_from offset)
                              ∙ ap (min size) (length-drop offset ranked) in
                            let whole = whole_page offset (length fetched) (length page) below go in
                            let again : (leb max_scanned_per_partition (offset + length page)
                                  && ltb (length accepted') ranked_result_limit)
                                ≡ false =
                              rw
                                (below_bound offset (reach offset) (length (rest_from offset))
                                  (length fetched) (length page) (reaches offset)
                                  (length-take (reach offset) (rest_from offset))
                                  (length-take size (rest_from offset))
                                  (omega (arith, length-drop offset ranked)) below go)
                                refl in
                            let full_page : length page ≡ size = omega (arith, whole, counted) in
                            let later : collect json_loads request payload_type accepted
                                  (rest_from offset)
                                ≡ collect json_loads request payload_type accepted'
                                    (rest_from (offset + length page)) =
                              ap (collect json_loads request payload_type accepted)
                                (sym (take-append-drop size (rest_from offset)))
                              ∙ collect-append json_loads request payload_type accepted page
                                  (drop size (rest_from offset))
                              ∙ ap (collect json_loads request payload_type accepted') (
                                  drop-drop size offset ranked
                                  ∙ ap (λ n. rest_from (offset + n)) (sym full_page)) in
                            rw
                              (
                                more,
                                below,
                                fetched_from offset,
                                at_page,
                                go,
                                at_page,
                                scanned,
                                again,
                                at_page,
                                scanned,
                                scan,
                              )
                              (scan_lem fuel (offset + length page) accepted' (omega (arith, whole))
                                  (omega (arith, whole, counted)) again
                                ∙ ap (λ l. some (ok l)) (sym later))
                      ]
                ]
          ]

      -- Where the store's search answers a page of a window on its ranking, whose width depends on
      -- the limit alone and is larger than it, and the ranking has at most 1024 items, the search
      -- of a partition returns the first ten items of the whole ranking that pass the filters,
      -- counting one item for each key.
      pub search_partition_lem :
          search_partition json_loads fetch request payload_type
          ≡ ok (
              take ranked_result_limit
                (deduplicate [] (filter (accepts json_loads request payload_type) ranked)))
      unfolding search_partition
      search_partition_lem =
          rw (scan_lem (suc max_scanned_per_partition) 0 [] (omega arith) (omega arith) refl) (
            ap ok (
              collect-deduplicate json_loads request payload_type [] ranked (omega arith) []
                (λ k. refl)))
