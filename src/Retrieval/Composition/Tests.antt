-- ===== src/Retrieval/Composition/Tests.antt =====
-- A run of the composition's theorem, with numbers in tenths for the floats.
use fleet_memory.Retrieval.Tests.{low}
use fleet_memory.Prelude.{
  ◌+◌, true, if◌then◌else◌, ltb, leb, ◌*◌, ◌/◌, ℕ, ◌-◌, ◌≡◌, refl, [], ◌∷◌, Text, codes, text_eq,
}
use fleet_memory.Errors.{ok}
use fleet_memory.Retrieval.Item.{extract_payload_type}
use fleet_memory.Retrieval.Composition.{
  Floats, ComplexityBand, simple, standard, complex, type_mix_weights, parse_band,
  is_pattern_or_warning, slots, select, interleave, interleave_selected, apply_weighted_composition,
  compose_by_complexity,
}
use fleet_memory.Retrieval.Composition.Categories.{KeepsFirst, compose_by_complexity-KeepsFirst}

tenths_of : Text → ℕ
unfolding text_eq
tenths_of t =
    if text_eq t (codes "0.3")
    then 3
    else if text_eq t (codes "0.6")
    then 6
    else if text_eq t (codes "1.0")
    then 10
    else if text_eq t (codes "2.0")
    then 20
    else if text_eq t (codes "0.5")
    then 5
    else 0

tenths : Floats
unfolding tenths_of
tenths = record {
  Float = ℕ;
  literal = tenths_of;
  of_nat = λ n. n * 10;
  to_int = λ n. n / 10;
  add = λ m n. m + n;
  sub = λ m n. m - n;
  mul = λ m n. m * n / 10;
  div = λ m n. m * 10 / n;
  gtb = λ m n. ltb n m;
  geb = λ m n. leb n m;
}

positive_tenths :
    (b : ComplexityBand)
    → tenths.gtb
        (tenths.add (type_mix_weights tenths b).pattern_warning (type_mix_weights tenths b).other)
        (tenths.literal (codes "0"))
      ≡ true
unfolding tenths
positive_tenths simple = refl
positive_tenths standard = refl
positive_tenths complex = refl

composed : compose_by_complexity tenths (low ∷ []) (codes "simple") ≡ ok (low ∷ [])
unfolding compose_by_complexity tenths apply_weighted_composition select interleave_selected
    interleave parse_band is_pattern_or_warning slots extract_payload_type text_eq
composed = refl

compose_by_complexity-KeepsFirst_example : KeepsFirst tenths (low ∷ []) (low ∷ [])
compose_by_complexity-KeepsFirst_example =
    compose_by_complexity-KeepsFirst tenths positive_tenths (low ∷ []) (codes "simple") (low ∷ [])
      composed
