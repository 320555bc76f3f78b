-- ===== src/Retrieval/Search/Sorting.antt =====
-- The order of the results is total and transitive, and the sort is one.
use fleet_memory.Prelude.{
  ℕ, zero, suc, ◌≡◌, refl, true, false, ◌||◌, List, [], ◌∷◌, Option, Text, text_eq, text_eq_iff,
  text_mem, arith, take, map, All, All-take, Bool-cases, inl, inr,
}
use fleet_memory.Json.{text_leb}
use fleet_memory.Payloads.Base.Collapse.{Distinct}
use fleet_memory.Retrieval.Item.{SearchItem, or_blank}
use fleet_memory.Retrieval.Search.Order.{ranks_before, insert_item, sort_items}

text_leb_total : (s t : Text) → text_leb s t ≡ false → text_leb t s ≡ true
unfolding text_leb
text_leb_total [] t h = absurd (ground arith)
text_leb_total (c ∷ s) [] h = refl
text_leb_total (c ∷ s) (d ∷ t) h = ground (arith, text_leb_total s t)

text_leb_trans : (s t u : Text) → text_leb s t ≡ true → text_leb t u ≡ true → text_leb s u ≡ true
unfolding text_leb
text_leb_trans [] t u h k = refl
text_leb_trans (c ∷ s) [] u h k = absurd (ground arith)
text_leb_trans (c ∷ s) (d ∷ t) [] h k = absurd (ground arith)
text_leb_trans (c ∷ s) (d ∷ t) (e ∷ u) h k = ground (arith, text_leb_trans s t u)

module _ {Score : Type 0} (place : Option Score → ℕ) where
  -- Each item ranks before all that follow it.
  abbrev pub IsRanked : List (SearchItem Score) → Type 0
  IsRanked [] = Unit
  IsRanked (a ∷ rest) = All (λ b. ranks_before place a b ≡ true) rest × IsRanked rest

  ranks_before_total :
      (a b : SearchItem Score) → ranks_before place a b ≡ false → ranks_before place b a ≡ true
  unfolding ranks_before
  ranks_before_total a b h =
      ground (arith, text_leb_total (or_blank a.value.natural_key) (or_blank b.value.natural_key))

  ranks_before_trans :
      (a b c : SearchItem Score)
      → ranks_before place a b ≡ true
      → ranks_before place b c ≡ true
      → ranks_before place a c ≡ true
  unfolding ranks_before
  ranks_before_trans a b c h k = ground (
    arith,
    text_leb_trans (or_blank a.value.natural_key) (or_blank b.value.natural_key)
        (or_blank c.value.natural_key),
  )

  All-ranks_before_trans :
      (a b : SearchItem Score) (xs : List (SearchItem Score))
      → ranks_before place a b ≡ true
      → All (λ c. ranks_before place b c ≡ true) xs
      → All (λ c. ranks_before place a c ≡ true) xs
  All-ranks_before_trans a b [] h k = tt
  All-ranks_before_trans a b (c ∷ xs) h (k, ks) =
      (ranks_before_trans a b c h k, All-ranks_before_trans a b xs h ks)

  All-insert_item :
      (P : SearchItem Score → Type 0) (a : SearchItem Score) (xs : List (SearchItem Score))
      → P a
      → All P xs
      → All P (insert_item place a xs)
  unfolding insert_item
  All-insert_item P a [] p h = (p, tt)
  All-insert_item P a (b ∷ xs) p (q, h) = elim (Bool-cases (ranks_before place a b)) [
    | inl first ↦ rw first (p, (q, h))
    | inr later ↦ rw later (q, All-insert_item P a xs p h)
  ]

  IsRanked-insert_item :
      (a : SearchItem Score) (xs : List (SearchItem Score))
      → IsRanked xs
      → IsRanked (insert_item place a xs)
  unfolding insert_item
  IsRanked-insert_item a [] h = (tt, tt)
  IsRanked-insert_item a (b ∷ xs) (h, hs) = elim (Bool-cases (ranks_before place a b)) [
    | inl first ↦ rw first ((first, All-ranks_before_trans a b xs first h), (h, hs))
    | inr later ↦ rw later (
      All-insert_item (λ c. ranks_before place b c ≡ true) a xs (ranks_before_total a b later) h,
      IsRanked-insert_item a xs hs,
    )
  ]

  pub sort_items-IsRanked : (xs : List (SearchItem Score)) → IsRanked (sort_items place xs)
  unfolding sort_items
  sort_items-IsRanked [] = tt
  sort_items-IsRanked (x ∷ xs) =
      IsRanked-insert_item x (sort_items place xs) (sort_items-IsRanked xs)

  pub All-sort_items :
      (P : SearchItem Score → Type 0) (xs : List (SearchItem Score))
      → All P xs
      → All P (sort_items place xs)
  unfolding sort_items
  All-sort_items P [] h = tt
  All-sort_items P (x ∷ xs) (p, h) =
      All-insert_item P x (sort_items place xs) p (All-sort_items P xs h)

  abbrev keys : List (SearchItem Score) → List Text
  keys xs = map (λ (i : SearchItem Score). i.key) xs

  text_mem-insert_item :
      (k : Text) (a : SearchItem Score) (xs : List (SearchItem Score))
      → text_mem k (keys (insert_item place a xs)) ≡ (text_eq a.key k || text_mem k (keys xs))
  unfolding insert_item
  text_mem-insert_item k a [] = refl
  text_mem-insert_item k a (b ∷ xs) = ground (arith, text_mem-insert_item k a xs)

  Distinct-insert_item :
      (a : SearchItem Score) (xs : List (SearchItem Score))
      → text_mem a.key (keys xs) ≡ false
      → Distinct (keys xs)
      → Distinct (keys (insert_item place a xs))
  unfolding insert_item
  Distinct-insert_item a [] new h = (refl, tt)
  Distinct-insert_item a (b ∷ xs) new (fresh, h) = elim (Bool-cases (ranks_before place a b)) [
    | inl first ↦ rw first (new, (fresh, h))
    | inr later ↦ rw later (
      ground (
        arith,
        text_mem-insert_item b.key a xs,
        text_eq_iff a.key b.key,
        text_eq_iff b.key a.key,
      ),
      Distinct-insert_item a xs (ground arith) h,
    )
  ]

  text_mem-sort_items :
      (k : Text) (xs : List (SearchItem Score))
      → text_mem k (keys (sort_items place xs)) ≡ text_mem k (keys xs)
  unfolding sort_items
  text_mem-sort_items k [] = refl
  text_mem-sort_items k (x ∷ xs) =
      ground (arith, text_mem-insert_item k x (sort_items place xs), text_mem-sort_items k xs)

  pub Distinct-sort_items :
      (xs : List (SearchItem Score)) → Distinct (keys xs) → Distinct (keys (sort_items place xs))
  unfolding sort_items
  Distinct-sort_items [] h = tt
  Distinct-sort_items (x ∷ xs) (fresh, h) =
      Distinct-insert_item x (sort_items place xs) (ground (arith, text_mem-sort_items x.key xs))
        (Distinct-sort_items xs h)

  pub IsRanked-take : (n : ℕ) (xs : List (SearchItem Score)) → IsRanked xs → IsRanked (take n xs)
  IsRanked-take zero xs h = tt
  IsRanked-take (suc n) [] h = tt
  IsRanked-take (suc n) (x ∷ xs) (h, hs) = (All-take _ n xs h, IsRanked-take n xs hs)

text_mem-take :
    {Score : Type 0} (k : Text) (n : ℕ) (xs : List (SearchItem Score))
    → text_mem k (map (λ (i : SearchItem Score). i.key) xs) ≡ false
    → text_mem k (map (λ (i : SearchItem Score). i.key) (take n xs)) ≡ false
text_mem-take k zero xs h = refl
text_mem-take k (suc n) [] h = refl
text_mem-take k (suc n) (x ∷ xs) h = ground (arith, text_mem-take k n xs)

pub Distinct-take :
    {Score : Type 0} (n : ℕ) (xs : List (SearchItem Score))
    → Distinct (map (λ (i : SearchItem Score). i.key) xs)
    → Distinct (map (λ (i : SearchItem Score). i.key) (take n xs))
Distinct-take zero xs h = tt
Distinct-take (suc n) [] h = tt
Distinct-take (suc n) (x ∷ xs) (fresh, h) = (text_mem-take x.key n xs fresh, Distinct-take n xs h)
