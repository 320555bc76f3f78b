-- ===== src/Retrieval/Search/Collect.antt =====
-- The loop over the pages collects the items that one loop over all of them would.
use fleet_memory.Prelude.{
  take_nil, not_leb→lt, suc, ◌-◌, ◌≤◌, ◌≡◌, refl, sym, ap, ◌∙◌, Bool, true, false, ◌&&◌, ◌||◌, not,
  List, [], ◌∷◌, ◌++◌, Option, Text, arith, if◌then◌else◌, leb, length, take, Bool-cases, inl, inr,
  filter, map, text_mem, text_eq, leb→le, length-append, append-nil, append_assoc,
}
use fleet_memory.Json.{Json}
use fleet_memory.Retrieval.Item.{SearchItem}
use fleet_memory.Retrieval.Request.{SearchRequest}
use fleet_memory.Retrieval.Search.{ranked_result_limit, key_of, deduplicate, accepts, scan_page}

text_mem-keys :
    {Score : Type 0} (k : Text) (x : SearchItem Score) (xs : List (SearchItem Score))
    → text_mem k (map key_of (xs ++ (x ∷ []))) ≡ (text_mem k (map key_of xs) || text_eq x.key k)
text_mem-keys k x [] = ground arith
text_mem-keys k x (y ∷ ys) = ground (arith, text_mem-keys k x ys)

module _ {Score : Type 0} (json_loads : Text → Option Json) (request : SearchRequest)
    (payload_type : Option Text) where
  abbrev takes : List (SearchItem Score) → SearchItem Score → Bool
  takes accepted item =
      accepts json_loads request payload_type item && not (text_mem item.key (map key_of accepted))

  -- The items accepted from a list, until there are ten.
  abbrev pub collect : List (SearchItem Score) → List (SearchItem Score) → List (SearchItem Score)
  collect accepted [] = accepted
  collect accepted (item ∷ rest) =
      if leb ranked_result_limit (length accepted)
      then accepted
      else if takes accepted item
      then collect (accepted ++ (item ∷ [])) rest
      else collect accepted rest

  pub collect_full :
      (accepted xs : List (SearchItem Score))
      → leb ranked_result_limit (length accepted) ≡ true
      → collect accepted xs ≡ accepted
  collect_full accepted [] h = refl
  collect_full accepted (x ∷ xs) h = rw h refl

  pub scan_page-collect :
      (accepted page : List (SearchItem Score))
      → leb ranked_result_limit (length accepted) ≡ false
      → scan_page json_loads request payload_type accepted page ≡ collect accepted page
  unfolding scan_page
  scan_page-collect accepted [] h = refl
  scan_page-collect accepted (item ∷ rest) h = elim (Bool-cases (takes accepted item)) [
    | inl new ↦ elim (Bool-cases (leb ranked_result_limit (length (accepted ++ (item ∷ []))))) [
      | inl full ↦ rw (h, new, full) (sym (collect_full (accepted ++ (item ∷ [])) rest full))
      | inr more ↦ rw (h, new, more) (scan_page-collect (accepted ++ (item ∷ [])) rest more)
    ]
    | inr skipped ↦ rw (h, skipped) (scan_page-collect accepted rest h)
  ]

  pub collect-append :
      (accepted xs ys : List (SearchItem Score))
      → collect accepted (xs ++ ys) ≡ collect (collect accepted xs) ys
  collect-append accepted [] ys = refl
  collect-append accepted (x ∷ xs) ys =
      elim (Bool-cases (leb ranked_result_limit (length accepted))) [
        | inl full ↦ rw full (sym (collect_full accepted ys full))
        | inr more ↦ rw more (elim (Bool-cases (takes accepted x)) [
          | inl new ↦ rw new (collect-append (accepted ++ (x ∷ [])) xs ys)
          | inr skipped ↦ rw skipped (collect-append accepted xs ys)
        ])
      ]

  pub collect-deduplicate :
      (accepted xs : List (SearchItem Score))
      → length accepted ≤ ranked_result_limit
      → (seen : List Text) → ((k : Text) → text_mem k seen ≡ text_mem k (map key_of accepted))
      → collect accepted xs
        ≡ accepted
          ++ take
              (ranked_result_limit - length accepted)
              (deduplicate seen (filter (accepts json_loads request payload_type) xs))
  unfolding deduplicate
  collect-deduplicate accepted [] h seen same =
      sym (append-nil accepted)
      ∙ ap (λ l. accepted ++ l) (sym (take_nil (ranked_result_limit - length accepted)))
  collect-deduplicate accepted (x ∷ xs) h seen same =
      elim (Bool-cases (leb ranked_result_limit (length accepted))) [
        | inl full ↦
            let none_left : ranked_result_limit - length accepted ≡ 0 =
              omega (arith, leb→le _ _ full) in
            rw (full, none_left) (sym (append-nil accepted))
        | inr more ↦ elim (Bool-cases (accepts json_loads request payload_type x)) [
          | inl good ↦ elim (Bool-cases (text_mem x.key (map key_of accepted))) [
            | inl known ↦
                rw (more, good, same x.key, known) (collect-deduplicate accepted xs h seen same)
            | inr new ↦
                let room : ranked_result_limit - length accepted
                    ≡ suc (ranked_result_limit - length (accepted ++ (x ∷ []))) =
                  omega (arith, length-append accepted (x ∷ []), not_leb→lt _ _ more) in
                let short : length (accepted ++ (x ∷ [])) ≤ ranked_result_limit =
                  omega (arith, length-append accepted (x ∷ []), not_leb→lt _ _ more) in
                rw (more, good, same x.key, new, room)
                  (collect-deduplicate (accepted ++ (x ∷ [])) xs short (x.key ∷ seen)
                      (λ k. ground (arith, same k, text_mem-keys k x accepted))
                    ∙ append_assoc accepted (x ∷ []) _)
          ]
          | inr bad ↦ rw (more, bad) (collect-deduplicate accepted xs h seen same)
        ]
      ]
