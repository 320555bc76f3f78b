-- ===== src/Payloads/Base/Collapse.antt =====
-- The collapsing of repeated references in `supersedes`.
use fleet_memory.Prelude.{
  ◌≡◌, refl, false, ◌||◌, List, [], ◌∷◌, ◌++◌, arith, Text, text_eq, text_mem, text_eq_iff,
  Bool-cases, inl, inr,
}
use fleet_memory.Payloads.Base.{collapse}

-- No text stands twice in the list.
abbrev pub Distinct : List Text → Type 0
Distinct [] = Unit
Distinct (t ∷ ts) = (text_mem t ts ≡ false) × Distinct ts

pub text_mem-concat :
    (t r : Text) (xs : List Text) → text_mem t (xs ++ (r ∷ [])) ≡ (text_mem t xs || text_eq r t)
text_mem-concat t r [] = ground arith
text_mem-concat t r (x ∷ xs) = ground (arith, text_mem-concat t r xs)

text_eq_comm : (s t : Text) → text_eq s t ≡ false → text_eq t s ≡ false
text_eq_comm s t h = ground (arith, text_eq_iff s t, text_eq_iff t s)

Distinct-concat :
    (r : Text) (xs : List Text) → Distinct xs → text_mem r xs ≡ false → Distinct (xs ++ (r ∷ []))
Distinct-concat r [] d h = (refl, tt)
Distinct-concat r (x ∷ xs) (fresh, d) h = (
  ground (arith, text_mem-concat x r xs, text_eq_comm x r),
  Distinct-concat r xs d (ground arith),
)

-- Collapsing leaves each reference once.
pub collapse-Distinct : (unique xs : List Text) → Distinct unique → Distinct (collapse unique xs)
unfolding collapse
collapse-Distinct unique [] d = d
collapse-Distinct unique (r ∷ xs) d = elim (Bool-cases (text_mem r unique)) [
  | inl known ↦ rw known (collapse-Distinct unique xs d)
  | inr new ↦ rw new (collapse-Distinct (unique ++ (r ∷ [])) xs (Distinct-concat r unique d new))
]

-- Collapsing keeps the references that stand in the list, and adds none.
text_mem-collapse :
    (t : Text) (unique xs : List Text)
    → text_mem t (collapse unique xs) ≡ (text_mem t unique || text_mem t xs)
unfolding collapse
text_mem-collapse t unique [] = ground arith
text_mem-collapse t unique (r ∷ xs) = elim (Bool-cases (text_mem r unique)) [
  | inl known ↦ rw known (ground (arith, text_mem-collapse t unique xs, text_eq_iff r t))
  | inr new ↦
      rw new
        (ground (arith, text_mem-collapse t (unique ++ (r ∷ [])) xs, text_mem-concat t r unique))
]
