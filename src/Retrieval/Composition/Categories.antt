-- ===== src/Retrieval/Composition/Categories.antt =====
-- What a composition keeps of the two categories.
use fleet_memory.Prelude.{
  ℕ, zero, suc, ◌+◌, ◌≤◌, ◌≡◌, refl, sym, ap, Bool, true, false, not, List, [], ◌∷◌, Text, length,
  take, filter, All, All-take, All-filter, Bool-cases, inl, inr, arith, codes, take_all,
}
use mathlib.Core.Path.{subst}
use fleet_memory.Errors.{ok, >>=-eq-ok}
use fleet_memory.Retrieval.Item.{SearchItem}
use fleet_memory.Retrieval.Composition.{
  Floats, Weights, ComplexityBand, type_mix_weights, parse_band, is_pattern_or_warning, slots,
  select, interleave, interleave_selected, apply_weighted_composition, compose_by_complexity,
}

filter_kept :
    {A : Type 0} (p : A → Bool) (xs : List A) → All (λ x. p x ≡ true) xs → filter p xs ≡ xs
filter_kept p [] h = refl
filter_kept p (x ∷ xs) (good, h) = rw good (ap (λ l. x ∷ l) (filter_kept p xs h))

positive_slots :
    (f : Floats) (total : ℕ) (w tw : f.Float) (available : ℕ) → 1 ≤ slots f total w tw available
unfolding slots
positive_slots f total w tw available = omega arith

module _ {Score : Type 0} (f : Floats) where
  abbrev others_of : List (SearchItem Score) → List (SearchItem Score)
  others_of items = filter (λ i. not (is_pattern_or_warning i)) items

  interleave_lem :
      (fuel : ℕ) (pr or pb ob : f.Float) (pws others : List (SearchItem Score))
      → length pws + length others ≤ fuel
      → All (λ i. is_pattern_or_warning i ≡ true) pws
      → All (λ i. not (is_pattern_or_warning i) ≡ true) others
      → (filter is_pattern_or_warning (interleave f fuel pr or pb ob pws others) ≡ pws)
        × (others_of (interleave f fuel pr or pb ob pws others) ≡ others)
  unfolding interleave
  interleave_lem zero pr or pb ob [] [] h a b = (refl, refl)
  interleave_lem zero pr or pb ob [] (o ∷ os) h a b = absurd (omega arith)
  interleave_lem zero pr or pb ob (p ∷ ps) os h a b = absurd (omega arith)
  interleave_lem (suc fuel) pr or pb ob [] [] h a b = (refl, refl)
  interleave_lem (suc fuel) pr or pb ob (p ∷ ps) [] h (a, more_a) b =
      let (x, y) = interleave_lem fuel pr or _ _ ps [] (omega arith) more_a b in
      (rw a (ap (λ l. p ∷ l) x), rw a y)
  interleave_lem (suc fuel) pr or pb ob [] (o ∷ os) h a (b, more_b) =
      let plain : is_pattern_or_warning o ≡ false = ground arith in
      let (x, y) = interleave_lem fuel pr or _ _ [] os (omega arith) a more_b in
      (rw plain x, rw plain (ap (λ l. o ∷ l) y))
  interleave_lem (suc fuel) pr or pb ob (p ∷ ps) (o ∷ os) h (a, more_a) (b, more_b) =
      let plain : is_pattern_or_warning o ≡ false = ground arith in
      elim (Bool-cases (f.geb (f.add pb pr) (f.add ob or))) [
        | inl first ↦
            let (x, y) =
              interleave_lem fuel pr or _ _ ps (o ∷ os) (omega arith) more_a (b, more_b) in
            (rw (first, a) (ap (λ l. p ∷ l) x), rw (first, a) y)
        | inr second ↦
            let (x, y) =
              interleave_lem fuel pr or _ _ (p ∷ ps) os (omega arith) (a, more_a) more_b in
            (rw (second, plain) x, rw (second, plain) (ap (λ l. o ∷ l) y))
      ]

  -- The first `n` of the one category and the first `m` of the other.
  pub record KeepsFirst (ranked result : List (SearchItem Score)) : Type 0 where
    pub favoured : ℕ
    pub others : ℕ
    pub some_favoured : 1 ≤ favoured
    pub some_others : 1 ≤ others
    pub first_favoured :
        filter is_pattern_or_warning result ≡ take favoured (filter is_pattern_or_warning ranked)
    pub first_others : others_of result ≡ take others (others_of ranked)

  select_lem :
      (total : ℕ) (w : Weights f.Float) (tw : f.Float) (pws others : List (SearchItem Score))
      → (n : ℕ) × (m : ℕ) × (1 ≤ n)
        × (1 ≤ m)
        × (select f total w tw pws others ≡ (take n pws, take m others))
  unfolding select
  select_lem total w tw [] os = (
    1,
    suc (length os),
    omega arith,
    omega arith,
    ap (λ l. ([], l)) (sym (take_all (suc (length os)) os (omega arith))),
  )
  select_lem total w tw (p ∷ ps) [] = (
    suc (length (p ∷ ps)),
    1,
    omega arith,
    omega arith,
    ap (λ l. (l, [])) (sym (take_all (suc (length (p ∷ ps))) (p ∷ ps) (omega arith))),
  )
  select_lem total w tw (p ∷ ps) (o ∷ os) =
      (_, _, positive_slots f _ _ _ _, positive_slots f _ _ _ _, refl)

  interleave_selected-KeepsFirst :
      (items : List (SearchItem Score)) (pr or : f.Float) (n m : ℕ)
      → 1 ≤ n
      → 1 ≤ m
      → KeepsFirst items (
          interleave_selected f pr or
            (take n (filter is_pattern_or_warning items), take m (others_of items)))
  unfolding interleave_selected
  interleave_selected-KeepsFirst items pr or n m hn hm =
      let (x, y) =
        interleave_lem _ pr or _ _ (take n (filter is_pattern_or_warning items))
          (take m (others_of items)) (omega arith)
          (All-take _ n _ (All-filter is_pattern_or_warning items))
          (All-take _ m _ (All-filter (λ i. not (is_pattern_or_warning i)) items)) in
      record {
        favoured = n;
        others = m;
        some_favoured = hn;
        some_others = hm;
        first_favoured = x;
        first_others = y;
      }

  apply-KeepsFirst :
      (items : List (SearchItem Score)) (w : Weights f.Float)
      → f.gtb (f.add w.pattern_warning w.other) (f.literal (codes "0")) ≡ true
      → KeepsFirst items (apply_weighted_composition f items w)
  unfolding apply_weighted_composition
  apply-KeepsFirst items w positive =
      let total = f.add w.pattern_warning w.other in
      let (n, m, hn, hm, selected) =
        select_lem (length items) w total (filter is_pattern_or_warning items) (others_of items) in
      rw (positive, selected)
        (interleave_selected-KeepsFirst items (f.div w.pattern_warning total) (f.div w.other total)
          n m hn hm)

  -- Whatever the floats do, if only the weights of each band sum to more than zero: a composition
  -- keeps the patterns and warnings in their ranked order up to some number of them, not zero, and
  -- the other items likewise.
  pub compose_by_complexity-KeepsFirst :
      ((b : ComplexityBand)
        → f.gtb
            (f.add (type_mix_weights f b).pattern_warning (type_mix_weights f b).other)
            (f.literal (codes "0"))
          ≡ true)
      → (ranked : List (SearchItem Score)) (band : Text) (result : List (SearchItem Score))
      → compose_by_complexity f ranked band ≡ ok result
      → KeepsFirst ranked result
  unfolding compose_by_complexity
  compose_by_complexity-KeepsFirst positive [] band result h =
      let e : [] ≡ result = cc in
      subst (KeepsFirst []) e (record {
        favoured = 1;
        others = 1;
        some_favoured = omega arith;
        some_others = omega arith;
        first_favoured = refl;
        first_others = refl;
      })
  compose_by_complexity-KeepsFirst positive (item ∷ rest) band result h =
      let (b, parsed, composed) = >>=-eq-ok (parse_band band) _ h in
      let e : apply_weighted_composition f (item ∷ rest) (type_mix_weights f b) ≡ result = cc in
      subst (KeepsFirst (item ∷ rest)) e
        (apply-KeepsFirst (item ∷ rest) (type_mix_weights f b) (positive b))
