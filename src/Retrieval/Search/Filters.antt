-- ===== src/Retrieval/Search/Filters.antt =====
-- retrieval/core.py: the tests on one item.
use fleet_memory.Prelude.{
  Bool, true, false, ◌||◌, not, List, [], ◌∷◌, Option, none, some, Text, text_eq, text_mem, codes,
  if◌then◌else◌, all, is_space, any, is_empty,
}
use fleet_memory.Payloads.BackwardEdge.{is_some}
use fleet_memory.Json.{Json, str, arr, obj, Items, nil, cons, Fields, end, field}
use fleet_memory.Retrieval.Item.{SearchItem, or_blank, extract_payload_type}

second_is : List Text → Text → Bool
second_is (first ∷ second ∷ rest) project = text_eq second project
second_is _ project = false

abbrev opt_mem : Option Text → List Text → Bool
opt_mem none ts = false
opt_mem (some t) ts = text_mem t ts

-- `parsed.get(key)`
get_field : Text → Fields → Option Json
get_field key end = none
get_field key (field k x fs) = if text_eq k key then some x else get_field key fs

-- The texts of a list; no other item is equal to a tag.
texts_of : Items → List Text
texts_of nil = []
texts_of (cons (str t) xs) = t ∷ texts_of xs
texts_of (cons x xs) = texts_of xs

nested_tags : Option Json → List Text
unfolding texts_of
nested_tags (some (arr xs)) = texts_of xs
nested_tags _ = []

parsed_tags : Option Json → List Text
unfolding nested_tags get_field
parsed_tags (some (obj fs)) = nested_tags (get_field (codes "domain_tags") fs)
parsed_tags _ = []

-- `isinstance(value, str) and bool(value.strip())`
is_usable : Option Json → Bool
is_usable (some (str t)) = not (all is_space t)
is_usable _ = false

has_usable_fields : Text → Option Json → Bool
unfolding is_usable get_field
has_usable_fields payload_type (some (obj fs)) =
    if text_eq payload_type (codes "build_outcome")
    then is_usable (get_field (codes "approach") fs) || is_usable (get_field (codes "lessons") fs)
    else if text_eq payload_type (codes "document")
    then is_usable (get_field (codes "content") fs)
    else false
has_usable_fields payload_type _ = false

-- `item.value.get("payload_type") or _extract_payload_type(...)`
abbrev type_or : Option Text → Option Text → Text
type_or (some (c ∷ t)) extracted = c ∷ t
type_or _ extracted = or_blank extracted

module _ (json_loads : Text → Option Json) where
  abbrev content_tags : Option Text → List Text
  content_tags none = []
  content_tags (some content) = parsed_tags (json_loads content)

  abbrev tags_or : Option (List Text) → Option Text → List Text
  tags_or (some tags) content = tags
  tags_or none content = content_tags content

  abbrev content_is_usable : Text → Option Text → Bool
  content_is_usable payload_type none = false
  content_is_usable payload_type (some content) =
      has_usable_fields payload_type (json_loads content)

module _ {Score : Type 0} where
  unfoldable pub matches_project : SearchItem Score → Text → Bool
  unfolding second_is
  matches_project item project = second_is item.namespace project

  unfoldable pub matches_payload_types : SearchItem Score → List Text → Bool
  matches_payload_types item payload_types =
      if is_empty payload_types
      then true
      else opt_mem (extract_payload_type (or_blank item.value.natural_key)) payload_types

  unfoldable pub is_superseded : SearchItem Score → Bool
  is_superseded item = is_some item.value.superseded_by

  module _ (json_loads : Text → Option Json) where
    item_domain_tags : SearchItem Score → List Text
    unfolding parsed_tags
    item_domain_tags item = tags_or json_loads item.value.domain_tags item.value.content

    unfoldable pub matches_domain_tags : SearchItem Score → List Text → Bool
    unfolding item_domain_tags
    matches_domain_tags item domain_tags =
        if is_empty domain_tags
        then true
        else any (λ tag. text_mem tag (item_domain_tags item)) domain_tags

    unfoldable pub has_substantive_content : SearchItem Score → Bool
    unfolding has_usable_fields
    has_substantive_content item =
        content_is_usable json_loads
          (type_or item.value.payload_type (extract_payload_type (or_blank item.value.natural_key)))
          item.value.content
