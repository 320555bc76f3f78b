-- ===== src/Retrieval/Search/Order.antt =====
-- retrieval/core.py: the deterministic order of results, and the sorted set of payload types.
use fleet_memory.Prelude.{
  ℕ, Bool, ◌||◌, ◌&&◌, List, [], ◌∷◌, Option, Text, ltb, ◌==◌, if◌then◌else◌, text_mem,
}
use fleet_memory.Json.{text_leb}
use fleet_memory.Retrieval.Item.{SearchItem, or_blank}

unfoldable pub insert_text : Text → List Text → List Text
insert_text t [] = t ∷ []
insert_text t (u ∷ us) = if text_leb t u then t ∷ u ∷ us else u ∷ insert_text t us

-- `sorted(set(ts))`
unfoldable pub sorted_set : List Text → List Text
unfolding insert_text
sorted_set [] = []
sorted_set (t ∷ ts) =
    let rest = sorted_set ts in if text_mem t rest then rest else insert_text t rest

-- `place` counts the floats in front of `-(score or 0.0)`: it compares as the negated scores do.
module _ {Score : Type 0} (place : Option Score → ℕ) where
  -- `_sort_key(a) <= _sort_key(b)`
  unfoldable pub ranks_before : SearchItem Score → SearchItem Score → Bool
  ranks_before a b =
      ltb (place a.score) (place b.score)
      || (place a.score == place b.score
          && text_leb (or_blank a.value.natural_key) (or_blank b.value.natural_key))

  unfoldable pub insert_item : SearchItem Score → List (SearchItem Score) → List (SearchItem Score)
  unfolding ranks_before
  insert_item a [] = a ∷ []
  insert_item a (b ∷ rest) = if ranks_before a b then a ∷ b ∷ rest else b ∷ insert_item a rest

  -- `sorted(items, key=_sort_key)`, which is stable
  unfoldable pub sort_items : List (SearchItem Score) → List (SearchItem Score)
  unfolding insert_item
  sort_items [] = []
  sort_items (a ∷ rest) = insert_item a (sort_items rest)
