-- ===== src/Chronicler/Episode.antt =====
-- chronicler/harvest.py: an episode, its story, its confidentiality. Python's truth and `str` of
-- values that are no texts are computed where that is plain, and parameters for floats and
-- composite values.
use fleet_memory.Prelude.{
  Bool, true, false, not, List, [], ◌∷◌, Option, none, some, Text, codes, text_mem, is_empty, take,
  ◌==◌, if◌then◌else◌, pos, negsuc,
}
use fleet_memory.Json.{
  Json, null, bool, num, float, str, datetime, arr, obj, nil, cons, Fields, end, field,
}
use fleet_memory.Fence.Files.{get}
use fleet_memory.Payloads.Norm.{norm}

pub record HarvestedEpisode : Type 0 where
  pub project : Text
  pub payload_type : Text
  pub natural_key : Text
  pub identifier : Text
  pub payload : Fields
  pub source_ref : Option Text
  pub occurred_at : Option Text
  pub name : Option Text
  pub source : Option Text

-- Which floats are not zero, and `str` of a value that is no text.
pub record PyValues : Type 0 where
  pub float_is_true : Text → Bool
  pub shown : Json → Text

module _ (py : PyValues) where
  -- `bool(value)`
  unfoldable pub is_true : Json → Bool
  is_true null = false
  is_true (bool b) = b
  is_true (num (pos n)) = not (n == 0)
  is_true (num (negsuc n)) = true
  is_true (float s) = py.float_is_true s
  is_true (str s) = not (is_empty s)
  is_true (datetime s) = true
  is_true (arr nil) = false
  is_true (arr (cons x xs)) = true
  is_true (obj end) = false
  is_true (obj (field k x fs)) = true

  -- `str(value)`
  abbrev pub shown_value : Json → Text
  shown_value (str s) = s
  shown_value j = py.shown j

  -- The value of a key, if it is true.
  abbrev pub true_value : Option Json → Option Json
  true_value none = none
  true_value (some j) = if is_true j then some j else none

  abbrev first_shown : Option Json → Text → Text
  first_shown none rest = rest
  first_shown (some j) rest = shown_value j

  abbrev story_from : List Text → Fields → Text → Text
  story_from [] payload otherwise = otherwise
  story_from (key ∷ keys) payload otherwise =
      first_shown (true_value (get key payload)) (story_from keys payload otherwise)

  abbrev story_key_fields : List Text
  story_key_fields =
      codes "correlation_id" ∷ codes "feat_id" ∷ codes "spec_id" ∷ codes "task_id" ∷ []

  -- `HarvestedEpisode.story_key`
  unfoldable pub story_key : HarvestedEpisode → Text
  unfolding is_true get
  story_key ep =
      story_from story_key_fields ep.payload
        (if is_empty ep.natural_key then ep.identifier else ep.natural_key)

abbrev pub confidential : Text
confidential = codes "confidential"

abbrev pub public : Text
public = codes "public"

-- `_confidentiality`
abbrev pub confidentiality : Text → List Text → Text
confidentiality project public_projects =
    if text_mem project public_projects then public else confidential

abbrev or_unkeyed : Text → Text
or_unkeyed slug = if is_empty slug then codes "unkeyed" else slug

-- `_slug`
unfoldable pub slug : Text → Text
unfolding norm
slug value = or_unkeyed (take 120 (norm value))
