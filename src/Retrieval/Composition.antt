-- ===== src/Retrieval/Composition.antt =====
-- retrieval/composition.py: the mix of types for a complexity band. The arithmetic of floats is a
-- parameter; a literal is named by its text.
pub mod Categories
mod Tests
use fleet_memory.Prelude.{
  ℕ, zero, suc, ◌+◌, min, Bool, false, not, List, [], ◌∷◌, Option, none, some, Text, text_mem,
  text_eq, codes, if◌then◌else◌, length, take, filter,
}
use Prim.Native.Nat.{max}
use fleet_memory.Errors.{Result, ok, err, ◌>>=◌, value_error}
use fleet_memory.Retrieval.Item.{SearchItem, or_blank, extract_payload_type}

pub record Floats : Type 1 where
  pub Float : Type 0
  pub literal : Text → Float
  pub of_nat : ℕ → Float
  -- `int(x)` of a float that is not negative
  pub to_int : Float → ℕ
  pub add : Float → Float → Float
  pub sub : Float → Float → Float
  pub mul : Float → Float → Float
  pub div : Float → Float → Float
  pub gtb : Float → Float → Bool
  pub geb : Float → Float → Bool

pub data ComplexityBand : Type 0 where
  simple standard complex : ComplexityBand

-- `ComplexityBand(complexity_band)`
pub parse_band : Text → Result ComplexityBand
unfolding text_eq
parse_band band =
    if text_eq band (codes "simple")
    then ok simple
    else if text_eq band (codes "standard")
    then ok standard
    else if text_eq band (codes "complex")
    then ok complex
    else err value_error

pub record Weights (Float : Type 0) : Type 0 where
  pub pattern_warning : Float
  pub other : Float

module _ (f : Floats) where
  abbrev pub type_mix_weights : ComplexityBand → Weights f.Float
  type_mix_weights simple = record {
    pattern_warning = f.literal (codes "0.3");
    other = f.literal (codes "1.0");
  }
  type_mix_weights standard = record {
    pattern_warning = f.literal (codes "1.0");
    other = f.literal (codes "1.0");
  }
  type_mix_weights complex = record {
    pattern_warning = f.literal (codes "2.0");
    other = f.literal (codes "0.6");
  }

module _ (f : Floats) where
  -- `max(1, min(int(total_items * (weight / total_weight) + 0.5), available))`
  pub slots : ℕ → f.Float → f.Float → ℕ → ℕ
  slots total_items weight total_weight available = max 1 (
      min
        (f.to_int (
          f.add (f.mul (f.of_nat total_items) (f.div weight total_weight))
            (f.literal (codes "0.5"))))
        available)

is_favoured : Option Text → Bool
is_favoured none = false
is_favoured (some payload_type) = text_mem payload_type (codes "pattern" ∷ codes "warning" ∷ [])

module _ {Score : Type 0} where
  unfoldable pub is_pattern_or_warning : SearchItem Score → Bool
  unfolding is_favoured
  is_pattern_or_warning item = is_favoured (extract_payload_type (or_blank item.value.natural_key))

  module _ (f : Floats) where
    -- The items that are selected of both categories, for a positive total weight.
    pub select :
        ℕ
        → Weights f.Float
        → f.Float
        → List (SearchItem Score)
        → List (SearchItem Score)
        → List (SearchItem Score) × List (SearchItem Score)
    unfolding slots
    select total_items w total_weight [] other_items = ([], other_items)
    select total_items w total_weight (p ∷ pattern_warning_items) [] =
        (p ∷ pattern_warning_items, [])
    select total_items w total_weight (p ∷ pattern_warning_items) (o ∷ other_items) = (
      take (slots f total_items w.pattern_warning total_weight (length (p ∷ pattern_warning_items)))
          (p ∷ pattern_warning_items),
      take (slots f total_items w.other total_weight (length (o ∷ other_items))) (o ∷ other_items),
    )

    -- The `while` loop, on the balances and the items that are left. Each round takes one item.
    pub interleave :
        ℕ
        → f.Float
        → f.Float
        → f.Float
        → f.Float
        → List (SearchItem Score)
        → List (SearchItem Score)
        → List (SearchItem Score)
    interleave zero pw_ratio other_ratio pw_balance other_balance pws others = []
    interleave (suc fuel) pw_ratio other_ratio pw_balance other_balance [] [] = []
    interleave (suc fuel) pw_ratio other_ratio pw_balance other_balance (p ∷ pws) [] =
        p
        ∷ interleave fuel pw_ratio other_ratio
            (f.sub (f.add pw_balance pw_ratio) (f.literal (codes "1.0")))
            (f.add other_balance other_ratio) pws []
    interleave (suc fuel) pw_ratio other_ratio pw_balance other_balance [] (o ∷ others) =
        o
        ∷ interleave fuel pw_ratio other_ratio (f.add pw_balance pw_ratio)
            (f.sub (f.add other_balance other_ratio) (f.literal (codes "1.0"))) [] others
    interleave (suc fuel) pw_ratio other_ratio pw_balance other_balance (p ∷ pws) (o ∷ others) =
        let favoured =
          interleave fuel pw_ratio other_ratio
            (f.sub (f.add pw_balance pw_ratio) (f.literal (codes "1.0")))
            (f.add other_balance other_ratio) pws (o ∷ others) in
        let rest =
          interleave fuel pw_ratio other_ratio (f.add pw_balance pw_ratio)
            (f.sub (f.add other_balance other_ratio) (f.literal (codes "1.0"))) (p ∷ pws) others in
        if f.geb (f.add pw_balance pw_ratio) (f.add other_balance other_ratio)
        then p ∷ favoured
        else o ∷ rest

    pub interleave_selected :
        f.Float
        → f.Float
        → List (SearchItem Score) × List (SearchItem Score)
        → List (SearchItem Score)
    unfolding interleave
    interleave_selected pw_ratio other_ratio (pws, others) =
        interleave (length pws + length others) pw_ratio other_ratio (f.literal (codes "0.0"))
          (f.literal (codes "0.0")) pws others

    pub apply_weighted_composition :
        List (SearchItem Score) → Weights f.Float → List (SearchItem Score)
    unfolding select interleave_selected
    apply_weighted_composition items w =
        let total_weight = f.add w.pattern_warning w.other in
        if f.gtb total_weight (f.literal (codes "0"))
        then interleave_selected (f.div w.pattern_warning total_weight) (f.div w.other total_weight)
            (select (length items) w total_weight (filter is_pattern_or_warning items)
              (filter (λ item. not (is_pattern_or_warning item)) items))
        else interleave_selected (f.literal (codes "0.5")) (f.literal (codes "0.5")) ([], [])

    pub compose_by_complexity : List (SearchItem Score) → Text → Result (List (SearchItem Score))
    unfolding parse_band apply_weighted_composition
    compose_by_complexity [] complexity_band = ok []
    compose_by_complexity (item ∷ rest) complexity_band = do
      band ← parse_band complexity_band
      ok (apply_weighted_composition (item ∷ rest) (type_mix_weights f band))
