-- ===== src/Writer/Supersession/Pages.antt =====
-- The forward search by pages is one search through the whole namespace.
use fleet_memory.Prelude.{
  or_else, ℕ, zero, suc, ◌+◌, ◌<◌, ◌≡◌, ◌≢◌, refl, sym, ap, ◌∙◌, false, List, [], ◌∷◌, ◌++◌, Option,
  none, some, Text, arith, ltb, length, take, drop, Bool-cases, Option-cases, inl, inr,
  take-append-drop, length-take, length-drop, drop-drop, take_all, min, ltb→lt, ◌≤◌,
}
use fleet_memory.Errors.{Result, ok, err, endless, Result-cases}
use fleet_memory.Store.Value.{Value}
use fleet_memory.Store.Api.{StoreApi, StoreLaws}
use fleet_memory.Writer.Supersession.{
  forward_page, first_declaring, settle_page, scan_pages, answer_or_none, forward_supersession,
}

abbrev pub key_of : Option Value → Option Text
key_of none = none
key_of (some v) = v.natural_key

le_of_not_ltb : (a b : ℕ) → ltb a b ≡ false → b ≤ a
le_of_not_ltb a b h = ground arith

first_declaring-append :
    (k : Text) (xs ys : List Value)
    → first_declaring k (xs ++ ys) ≡ or_else (first_declaring k xs) (first_declaring k ys)
unfolding first_declaring
first_declaring-append k [] ys = refl
first_declaring-append k (x ∷ xs) ys = ground (arith, first_declaring-append k xs ys)

module _ (api : StoreApi) (k : Text) (n : List Text) (s : api.State)
    (readable : (offset : ℕ)
      → api.asearch n forward_page offset s
        ≡ ok (take forward_page (drop offset (api.items s n)))) where
  abbrev left : ℕ → List Value
  left offset = drop offset (api.items s n)

  scan_pages_lem :
      (fuel offset : ℕ)
      → length (left offset) < fuel
      → scan_pages api fuel offset k n s ≡ ok (key_of (first_declaring k (left offset)))
  unfolding scan_pages settle_page
  scan_pages_lem zero offset h = absurd (omega arith)
  scan_pages_lem (suc fuel) offset h =
      let page = take forward_page (left offset) in
      let whole : left offset ≡ page ++ drop forward_page (left offset) =
        sym (take-append-drop forward_page (left offset)) in
      let next : drop forward_page (left offset) ≡ left (offset + forward_page) =
        drop-drop forward_page offset (api.items s n) in
      let split_first : first_declaring k (left offset)
          ≡ or_else (first_declaring k page) (first_declaring k (left (offset + forward_page))) =
        ap (first_declaring k) whole
        ∙ first_declaring-append k page _
        ∙ ap (λ r. or_else (first_declaring k page) (first_declaring k r)) next in
      let counted : length page ≡ min forward_page (length (left offset)) =
        length-take forward_page (left offset) in
      rw (readable offset, scan_pages)
        (elim (Option-cases (first_declaring k page)) [
          | inl absent ↦ elim (Bool-cases (ltb (length page) forward_page)) [
            | inl short ↦
                let all_read : page ≡ left offset =
                  take_all forward_page (left offset)
                    (omega (arith, counted, ltb→lt (length page) forward_page short)) in
                rw (absent, short) (rw (← all_read, absent) refl)
            | inr full ↦
                let shorter : length (left (offset + forward_page)) < fuel = omega (
                  arith,
                  ap length next,
                  length-drop forward_page (left offset),
                  counted,
                  le_of_not_ltb (length page) forward_page full,
                ) in
                let moved : first_declaring k (left (offset + forward_page))
                    ≡ first_declaring k (left offset) =
                  sym (split_first ∙ rw absent) in
                rw (absent, full)
                  (scan_pages_lem fuel (offset + forward_page) shorter
                    ∙ ap (λ r. ok (key_of r)) moved)
          ]
          | inr (v, found) ↦ rw (split_first, found) refl
        ])

  -- If every page can be read, the forward search gives the key of the first record of the
  -- namespace that declares to supersede the one being written, and nothing if no record does.
  pub forward_supersession_lem :
      forward_supersession api k n s ≡ ok (key_of (first_declaring k (api.items s n)))
  unfolding forward_supersession answer_or_none
  forward_supersession_lem =
      ap answer_or_none (scan_pages_lem (suc (length (api.items s n))) 0 (omega arith))

-- A forward search whose pages are those of the namespace, or raise, ends.
module _ (api : StoreApi) (laws : StoreLaws api) (k : Text) (n : List Text) (s : api.State)
    (returns : (offset : ℕ) → api.asearch n forward_page offset s ≢ err endless) where
  scan_pages_ends :
      (fuel offset : ℕ)
      → length (drop offset (api.items s n)) < fuel
      → scan_pages api fuel offset k n s ≢ err endless
  unfolding scan_pages settle_page
  scan_pages_ends zero offset h = absurd (omega arith)
  scan_pages_ends (suc fuel) offset h = elim (Result-cases (api.asearch n forward_page offset s)) [
    | inl (e, raised) ↦
        rw (raised, scan_pages)
          (λ same.
            let raised_endless : e ≡ endless = cc in
            returns offset (raised ∙ ap err raised_endless))
    | inr (page, read) ↦ elim (Option-cases (first_declaring k page)) [
      | inr (v, found) ↦ rw (read, found, scan_pages) (λ e. cc)
      | inl absent ↦ elim (Bool-cases (ltb (length page) forward_page)) [
        | inl short ↦ rw (read, absent, short, scan_pages) (λ e. cc)
        | inr full ↦
            let counted : length page ≡ min forward_page (length (drop offset (api.items s n))) =
              ap length (laws.asearch_ok n forward_page offset s page read)
              ∙ length-take forward_page (drop offset (api.items s n)) in
            let shorter : length (drop (offset + forward_page) (api.items s n)) < fuel = omega (
              arith,
              ap length (drop-drop forward_page offset (api.items s n)),
              length-drop forward_page (drop offset (api.items s n)),
              counted,
              le_of_not_ltb (length page) forward_page full,
            ) in
            rw (read, absent, full, scan_pages)
              (scan_pages_ends fuel (offset + forward_page) shorter)
      ]
    ]
  ]

  answer_or_none_total :
      (r : Result (Option Text))
      → r ≢ err endless
      → (answer : Option Text) × (answer_or_none r ≡ ok answer)
  unfolding answer_or_none
  answer_or_none_total (ok answer) ends = (answer, refl)
  answer_or_none_total (err endless) ends = absurd (ends refl)
  answer_or_none_total (err _) ends = (none, refl)

  pub forward_supersession_total :
      (answer : Option Text) × (forward_supersession api k n s ≡ ok answer)
  unfolding forward_supersession
  forward_supersession_total =
      answer_or_none_total _ (scan_pages_ends (suc (length (api.items s n))) 0 (omega arith))
