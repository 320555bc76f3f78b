-- ===== src/Reindex/Classify.antt =====
-- reindex/classify.py and the documents of reindex/walker.py: which documents of a corpus are
-- published, and why the others are not. pathlib's paths and yaml.safe_load are parameters.
use fleet_memory.Prelude.{
  or_else, ℕ, Bool, true, false, ◌&&◌, not, List, [], ◌∷◌, Option, none, some, Text, text_eq,
  text_mem, codes, ◌==◌, if◌then◌else◌, all, strip, is_space,
}
use fleet_memory.Errors.{Error, Result, ok, err, value_error}
use fleet_memory.Json.{Json, null, obj, Fields}
use fleet_memory.Fence.Files.{get}
use fleet_memory.Payloads.Norm.{lower}
use fleet_memory.Payloads.BackwardEdge.{is_some, strip_prefix}
use fleet_memory.Chronicler.Episode.{PyValues, is_true, shown_value}
use fleet_memory.Reindex.Manifest.{CorpusManifest, resolve_kind, forward_slashes}

-- A document that the walker yields: `str(path)`, `str(path.resolve().relative_to(root.resolve()))`
-- where that is no ValueError, and the text.
pub record CorpusDocument : Type 0 where
  pub path : Text
  pub relative : Option Text
  pub text : Text

-- The reasons of `skipped`, each with what its f-string shows.
pub data SkipReason : Type 0 where
  outside_manifest bad_yaml no_front_matter without_id agent_definition : SkipReason
  harvest_owned : Text → SkipReason
  non_terminal : Text → SkipReason
  -- the sorted paths of distinct tasks with one id
  id_collision : List Text → SkipReason
  shadowed_by : Text → SkipReason
  -- what the publisher returned
  publisher_refused : Text → SkipReason

pub record Classification : Type 0 where
  pub document_path : Text
  pub kind : Option Text
  pub frontmatter : Option Fields
  pub skip_reason : Option SkipReason

abbrev pub publishable : Classification → Bool
publishable c = not (is_some c.skip_reason)

-- `yaml.safe_load`: a value, a `YAMLError`, or another exception, as a date out of range raises.
pub data Loaded : Type 0 where
  loaded : Json → Loaded
  yaml_error : Loaded
  raised : Error → Loaded

abbrev pub newline : ℕ
newline = 0x0a

-- `\s*\n` matches at the head.
has_break : Text → Bool
unfolding is_space
has_break [] = false
has_break (c ∷ s) = if c == newline then true else is_space c && has_break s

closes : Option Text → Bool
unfolding has_break
closes none = false
closes (some rest) = has_break rest

with_head : ℕ → Option Text → Option Text
with_head c none = none
with_head c (some s) = some (c ∷ s)

-- `(.*?)\n---\s*\n`
body_until : Text → Option Text
unfolding closes with_head
body_until [] = none
body_until (c ∷ s) =
    let later = with_head c (body_until s) in
    if closes (strip_prefix (codes "\n---") (c ∷ s)) then some [] else later

-- `\s*\n` and the body: the last line feed of the white space is tried first.
open_body : Text → Option Text
unfolding body_until is_space
open_body [] = none
open_body (c ∷ s) =
    let later = open_body s in
    let here = if c == newline then body_until s else none in
    if is_space c then or_else later here else none

open_after : Option Text → Option Text
unfolding open_body
open_after none = none
open_after (some rest) = open_body rest

-- `match.group(1)`
unfoldable pub frontmatter_block : Text → Option Text
unfolding open_after
frontmatter_block text = open_after (strip_prefix (codes "---") text)

module _ (safe_load : Text → Loaded) where
  -- `extract_frontmatter`; `None` is `null`.
  unfoldable pub extract_frontmatter : Text → Loaded
  unfolding frontmatter_block
  extract_frontmatter text = load_block (frontmatter_block text)
    where
      load_block : Option Text → Loaded
      load_block none = loaded null
      load_block (some block) = safe_load block

abbrev pub terminal_statuses : List Text
terminal_statuses =
    codes "completed" ∷ codes "review_complete" ∷ codes "closed" ∷ codes "superseded" ∷ []

abbrev pub has_key : Fields → Text → Bool
has_key fields key = is_some (get key fields)

-- `AGENT_DEFINITION_KEYS.issubset(frontmatter.keys())`
abbrev pub is_agent_definition : Fields → Bool
is_agent_definition fields =
    all (has_key fields) (codes "name" ∷ codes "model" ∷ codes "tools" ∷ [])

-- No character but the ASCII capitals becomes a letter of these words in lower case.
unfoldable pub is_terminal : Text → Bool
unfolding lower
is_terminal status = text_mem (lower status) terminal_statuses

abbrev skip : Text → Option Fields → SkipReason → Classification
skip path frontmatter reason = record {
  document_path = path;
  kind = none;
  frontmatter = frontmatter;
  skip_reason = some reason;
}

module _ (py : PyValues) where
  abbrev pub is_true_key : Option Json → Bool
  is_true_key none = false
  is_true_key (some j) = is_true py j

  abbrev pub shown_or_blank : Option Json → Text
  shown_or_blank none = []
  shown_or_blank (some j) = shown_value py j

  -- `str(frontmatter.get("status", "")).strip()`
  unfoldable pub status_of : Fields → Text
  unfolding get
  status_of fields = strip (shown_or_blank (get (codes "status") fields))

  unfoldable pub classify_fields : Text → Text → Fields → Classification
  unfolding status_of is_terminal is_true get
  classify_fields path kind fields =
      if is_agent_definition fields
      then skip path (some fields) agent_definition
      else if not (is_true_key (get (codes "id") fields))
      then skip path (some fields) without_id
      else if not (is_terminal (status_of fields))
      then skip path (some fields) (non_terminal (status_of fields))
      else record {
        document_path = path;
        kind = some kind;
        frontmatter = some fields;
        skip_reason = none;
      }

module _ (py : PyValues) (safe_load : Text → Loaded) (manifest : CorpusManifest) where
  abbrev classify_loaded : Text → Text → Loaded → Result Classification
  classify_loaded path kind yaml_error = ok (skip path none bad_yaml)
  classify_loaded path kind (raised e) = err e
  classify_loaded path kind (loaded null) = ok (skip path none no_front_matter)
  classify_loaded path kind (loaded (obj fields)) = ok (classify_fields py path kind fields)
  classify_loaded path kind (loaded _) = ok (skip path none without_id)

  abbrev classify_owned : CorpusDocument → Option (Text × Text) → Result Classification
  classify_owned doc none = ok (skip doc.path none outside_manifest)
  classify_owned doc (some (kind, owner)) =
      if text_eq owner (codes "reindex")
      then classify_loaded doc.path kind (extract_frontmatter safe_load doc.text)
      else ok (skip doc.path none (harvest_owned kind))

  abbrev classify_path : CorpusDocument → Option Text → Result Classification
  classify_path doc none = err value_error
  classify_path doc (some relative) =
      classify_owned doc (resolve_kind manifest (forward_slashes relative))

  unfoldable pub classify_document : CorpusDocument → Result Classification
  unfolding classify_fields extract_frontmatter resolve_kind
  classify_document doc = classify_path doc doc.relative
