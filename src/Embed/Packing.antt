-- ===== src/Embed/Packing.antt =====
-- The batches hold the texts in order, and each is within the budget.
use fleet_memory.Prelude.{
  ℕ, ◌+◌, ◌*◌, ◌≤◌, ◌<◌, ◌≡◌, refl, sym, ap, ◌∙◌, Bool, true, false, ◌&&◌, not, List, [], ◌∷◌, ◌++◌,
  Text, length-take, map, is_empty, ltb, All, Bool-cases, inl, inr, arith, append-nil, append_assoc,
  &&-eq-true, not-eq-true,
}
use fleet_memory.Embed.{estimate_tokens, fit, pack_from, pack_batches}

abbrev pub total_tokens : List Text → ℕ
total_tokens [] = 0
total_tokens (t ∷ ts) = estimate_tokens t + total_tokens ts

abbrev pub concat : List (List Text) → List Text
concat [] = []
concat (b ∷ bs) = b ++ concat bs

-- A batch that is no empty list and costs no more than the budget.
abbrev pub Fits : ℕ → List Text → Type 0
Fits budget batch = (is_empty batch ≡ false) × (total_tokens batch ≤ budget)

-- The batches hold these texts, each fitted, in order.
pub record Packed (budget : ℕ) (texts : List Text) (batches : List (List Text)) : Type 0 where
  pub contents : concat batches ≡ texts
  pub within : All (Fits budget) batches

fit-le : (budget : ℕ) (t : Text) → 0 < budget → estimate_tokens (fit budget t) ≤ budget
unfolding fit estimate_tokens
fit-le budget t h = elim (Bool-cases (ltb budget (estimate_tokens t))) [
  | inl over ↦ rw over (ground (arith, length-take (budget * 4) t))
  | inr under ↦ rw under (ground (arith, under))
]

total-append : (xs ys : List Text) → total_tokens (xs ++ ys) ≡ total_tokens xs + total_tokens ys
total-append [] ys = omega arith
total-append (x ∷ xs) ys = omega (arith, total-append xs ys)

append_not_empty : (xs : List Text) (t : Text) → is_empty (xs ++ (t ∷ [])) ≡ false
append_not_empty [] t = refl
append_not_empty (x ∷ xs) t = refl

empty-nil : (xs : List Text) → is_empty xs ≡ true → xs ≡ []
empty-nil [] h = refl
empty-nil (x ∷ xs) h = absurd cc

empty-total : (xs : List Text) (n : ℕ) → n ≡ total_tokens xs → is_empty xs ≡ true → n ≡ 0
empty-total [] n e h = e
empty-total (x ∷ xs) n e h = absurd cc

-- What is not flushed has room.
joined_within :
    (empty : Bool) (n estimate budget : ℕ)
    → (not empty && ltb budget (n + estimate)) ≡ false
    → (empty ≡ true → n ≡ 0)
    → estimate ≤ budget
    → n + estimate ≤ budget
joined_within true n estimate budget keep zero_if small = omega (arith, zero_if refl, small)
joined_within false n estimate budget keep zero_if small = ground (arith, keep)

total_single : (t : Text) → total_tokens (t ∷ []) ≡ estimate_tokens t
total_single t = omega arith

module _ (budget : ℕ) (positive : 0 < budget) where
  pack_from-Packed :
      (texts current : List Text) (n : ℕ)
      → n ≡ total_tokens current
      → n ≤ budget
      → Packed budget (current ++ map (fit budget) texts) (pack_from budget texts current n)
  unfolding pack_from
  pack_from-Packed [] current n e h = elim (Bool-cases (is_empty current)) [
    | inl empty ↦
        rw empty
          (record { contents = sym (append-nil current ∙ empty-nil current empty); within = tt })
    | inr full ↦ rw full (record { contents = refl; within = ((full, omega (arith, e, h)), tt) })
  ]
  pack_from-Packed (t ∷ texts) current n e h =
      let fitted = fit budget t in
      let estimate = estimate_tokens fitted in
      let small = fit-le budget t positive in
      elim (Bool-cases (not (is_empty current) && ltb budget (n + estimate))) [
        | inl flush ↦
            let (full, over) =
              &&-eq-true (not (is_empty current)) (ltb budget (n + estimate)) flush in
            let rest =
              pack_from-Packed texts (fitted ∷ []) estimate (sym (total_single fitted)) small in
            rw flush (record {
              contents = ap (λ x. current ++ x) rest.contents;
              within = ((not-eq-true (is_empty current) full, omega (arith, e, h)), rest.within);
            })
        | inr keep ↦
            let rest =
              pack_from-Packed texts (current ++ (fitted ∷ [])) (n + estimate)
                (omega (arith, e, total-append current (fitted ∷ [])))
                (joined_within (is_empty current) n estimate budget keep (empty-total current n e)
                  small) in
            rw keep (record {
              contents =
                  rest.contents ∙ append_assoc current (fitted ∷ []) (map (fit budget) texts);
              within = rest.within;
            })
      ]

  -- The batches of a list of texts hold these texts in order, each cut to the budget if it alone
  -- exceeds it, and no batch is empty or estimated above the budget, which is positive.
  pub pack_batches-Packed :
      (texts : List Text) → Packed budget (map (fit budget) texts) (pack_batches texts budget)
  unfolding pack_batches
  pack_batches-Packed texts = pack_from-Packed texts [] 0 refl (omega (arith, positive))
