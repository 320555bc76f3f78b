-- ===== src/Retrieval/Search/Paging.antt =====
-- The arithmetic of the pages: a round that goes on has read a whole page.
use fleet_memory.Prelude.{
  ℕ, zero, suc, ◌+◌, ◌-◌, ◌≤◌, ◌≡◌, refl, ap, Bool, true, false, ◌&&◌, ◌||◌, List, [], ◌∷◌, arith,
  ltb, leb, take, drop, take_all, min, ◌∙◌, sym,
}
use fleet_memory.Retrieval.Search.{logical_page_size, max_scanned_per_partition}

abbrev pub page_size : ℕ → ℕ
page_size offset = min logical_page_size (max_scanned_per_partition - offset)

abbrev pub is_exhausted : ℕ → ℕ → ℕ → Bool
is_exhausted offset fetched page =
    (ltb fetched (offset + page_size offset) && leb fetched (page_size offset))
    || ltb page (page_size offset)

-- At the end of the scan no more is left than one page.
pub short_of :
    (offset reach left fetched page : ℕ)
    → min (offset + page_size offset) (suc (page_size offset)) ≤ reach
    → fetched ≡ min reach left
    → page ≡ min (page_size offset) left
    → is_exhausted offset fetched page ≡ true
    → left ≤ page_size offset
short_of offset reach left fetched page reaches f p done = ground arith

-- A scan that goes on stops short of the bound, if no more is left than the bound.
pub below_bound :
    (offset reach left fetched page : ℕ)
    → min (offset + page_size offset) (suc (page_size offset)) ≤ reach
    → fetched ≡ min reach left
    → page ≡ min (page_size offset) left
    → offset + left ≤ max_scanned_per_partition
    → leb max_scanned_per_partition offset ≡ false
    → is_exhausted offset fetched page ≡ false
    → leb max_scanned_per_partition (offset + page) ≡ false
below_bound offset reach left fetched page reaches f p few below go = ground arith

pub take-take : {A : Type 0} (m n : ℕ) (xs : List A) → m ≤ n → take m (take n xs) ≡ take m xs
take-take zero n xs h = refl
take-take (suc m) zero xs h = absurd (omega arith)
take-take (suc m) (suc n) [] h = refl
take-take (suc m) (suc n) (x ∷ xs) h = ap (λ l. x ∷ l) (take-take m n xs (omega arith))

take_as : {A : Type 0} (m n : ℕ) (xs : List A) → m ≡ n → take m xs ≡ take n xs
take_as m n xs same = ap (λ k. take k xs) same

take-take-min : {A : Type 0} (m n : ℕ) (xs : List A) → take m (take n xs) ≡ take (min m n) xs
take-take-min zero n xs = take_as zero (min zero n) xs (omega arith)
take-take-min (suc m) zero xs = take_as zero (min (suc m) zero) xs (omega arith)
take-take-min (suc m) (suc n) [] = take_as (suc (min m n)) (min (suc m) (suc n)) [] (omega arith)
take-take-min (suc m) (suc n) (x ∷ xs) =
    ap (λ l. x ∷ l) (take-take-min m n xs)
    ∙ take_as (suc (min m n)) (min (suc m) (suc n)) (x ∷ xs) (omega arith)

drop-take : {A : Type 0} (n w : ℕ) (xs : List A) → drop n (take w xs) ≡ take (w - n) (drop n xs)
drop-take zero w xs = take_as w (w - zero) xs (omega arith)
drop-take (suc n) zero xs = take_as zero (zero - suc n) (drop (suc n) xs) (omega arith)
drop-take (suc n) (suc w) [] = sym (take_all (suc w - suc n) [] (omega arith))
drop-take (suc n) (suc w) (x ∷ xs) =
    drop-take n w xs ∙ take_as (w - n) (suc w - suc n) (drop n xs) (omega arith)

-- A page of a window on a ranking, as a page of the ranking.
pub take-drop-take :
    {A : Type 0} (limit offset w : ℕ) (xs : List A)
    → take limit (drop offset (take w xs)) ≡ take (min limit (w - offset)) (drop offset xs)
take-drop-take limit offset w xs =
    ap (take limit) (drop-take offset w xs) ∙ take-take-min limit (w - offset) (drop offset xs)

-- A round that goes on has read a whole page, of one item at least.
pub whole_page :
    (offset fetched page : ℕ)
    → leb max_scanned_per_partition offset ≡ false
    → is_exhausted offset fetched page ≡ false
    → (page_size offset ≤ page) × (1 ≤ page_size offset)
whole_page offset fetched page more go = (ground arith, ground arith)
