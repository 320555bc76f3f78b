-- ===== src/Retrieval/Item.antt =====
-- The items that a search returns, and what retrieval/*.py reads of them. The scores are floats,
-- a parameter.
use fleet_memory.Prelude.{List, [], ◌∷◌, Option, none, some, Text, split}
use fleet_memory.Payloads.Base.{colon}
use fleet_memory.Store.Value.{Value}

-- langgraph's `SearchItem`
pub record SearchItem (Score : Type 0) : Type 0 where
  pub namespace : List Text
  pub key : Text
  pub score : Option Score
  pub value : Value

-- `d.get(key, "")`
abbrev pub or_blank : Option Text → Text
or_blank none = []
or_blank (some t) = t

first_part : List Text → Option Text
first_part [] = none
first_part (part ∷ parts) = some part

unfoldable pub extract_payload_type : Text → Option Text
unfolding first_part
extract_payload_type natural_key = first_part (split colon natural_key)
