-- ===== src/Reindex/Parsers.antt =====
-- reindex/parsers.py: the payload of a completed task.
use fleet_memory.Prelude.{
  ℕ, Bool, false, not, List, [], ◌∷◌, ◌++◌, Option, none, some, Text, codes, ◌==◌, if◌then◌else◌,
  is_empty, strip, pos,
}
use mathlib.Core.List.{reverse}
use fleet_memory.Errors.{Error, Result, ok, err, identifier_validation}
use fleet_memory.Json.{Json, obj, str, arr, Items, nil, cons, Fields}
use fleet_memory.Fence.Files.{get}
use fleet_memory.Payloads.Norm.{is_identifier_char}
use fleet_memory.Payloads.Models.{build_outcome, build_outcome_payload}
use fleet_memory.Payloads.Base.{PayloadData, Payload, construct}
use fleet_memory.Chronicler.Episode.{PyValues, is_true, shown_value}
use fleet_memory.Reindex.Manifest.{forward_slashes}
use fleet_memory.Reindex.Lessons.{extract_lessons}
use fleet_memory.Reindex.Classify.{
  CorpusDocument, Loaded, loaded, yaml_error, raised, extract_frontmatter, status_of, is_terminal,
  is_true_key, shown_or_blank,
}

abbrev pub underscore : ℕ
underscore = b'_'

abbrev pub or_unknown : Text → Text
or_unknown s = if is_empty s then codes "unknown" else s

-- `re.sub(r"[^A-Za-z0-9_]+", "_", value)`; `in_run` says that the character before is replaced.
unfoldable pub sub_runs : Bool → Text → Text
unfolding is_identifier_char
sub_runs in_run [] = []
sub_runs in_run (c ∷ s) =
    let rest = sub_runs (not (is_identifier_char c)) s in
    if is_identifier_char c then c ∷ rest else if in_run then rest else underscore ∷ rest

unfoldable pub strip_underscores : Text → Text
strip_underscores [] = []
strip_underscores (c ∷ s) = if c == underscore then strip_underscores s else c ∷ s

unfoldable pub sanitize_identifier : Text → Text
unfolding sub_runs strip_underscores
sanitize_identifier value =
    or_unknown (reverse (strip_underscores (reverse (strip_underscores (sub_runs false value)))))

-- The result of the parser, without the path.
pub data UnparseableReason : Type 0 where
  bad_front_matter no_front_matter missing_id : UnparseableReason
  non_terminal_status : Text → UnparseableReason
  escapes_root : UnparseableReason
  bad_identifier : UnparseableReason
  -- the pipeline's own: the parser raised
  parser_error : Error → UnparseableReason

pub data ParseResult : Type 0 where
  parsed : Payload → ParseResult
  unparseable : UnparseableReason → ParseResult

-- `except IdentifierValidationError`
abbrev pub parse_payload : Result Payload → Result ParseResult
parse_payload (ok payload) = ok (parsed payload)
parse_payload (err (identifier_validation field value)) = ok (unparseable bad_identifier)
parse_payload (err e) = err e

module _ (py : PyValues) (safe_load : Text → Loaded) where
  shown_items : Items → List Text
  shown_items nil = []
  shown_items (cons j rest) = shown_value py j ∷ shown_items rest

  unfoldable pub normalize_tags : Option Json → List Text
  unfolding shown_items
  normalize_tags (some (arr tags)) = shown_items tags
  normalize_tags (some (str tag)) = if is_empty (strip tag) then [] else strip tag ∷ []
  normalize_tags _ = []

  abbrev pub task_id_of : Fields → Text
  task_id_of fields = sanitize_identifier (shown_or_blank py (get (codes "id") fields))

  abbrev pub task_data : Fields → Text → Text → PayloadData
  task_data fields source_ref text = record {
    project = some (codes "guardkit");
    identifier = some (task_id_of fields);
    domain_tags = some (
        normalize_tags (get (codes "tags") fields)
        ++ (codes "task" ∷ (codes "fm-status:" ++ status_of py fields) ∷ []));
    source_ref = some source_ref;
    version = none;
    supersedes = none;
    body = some (
        build_outcome (codes "success") (pos 0) (some (task_id_of fields)) (extract_lessons text)
          none);
  }

  abbrev pub parse_at : CorpusDocument → Fields → Option Text → Result ParseResult
  parse_at doc fields none = ok (unparseable escapes_root)
  parse_at doc fields (some relative) =
      parse_payload
        (construct build_outcome_payload (task_data fields (forward_slashes relative) doc.text))

  unfoldable pub parse_fields : CorpusDocument → Fields → Result ParseResult
  unfolding get is_true status_of is_terminal normalize_tags sanitize_identifier extract_lessons
  parse_fields doc fields =
      if not (is_true_key py (get (codes "id") fields))
      then ok (unparseable missing_id)
      else if not (is_terminal (status_of py fields))
      then ok (unparseable (non_terminal_status (status_of py fields)))
      else parse_at doc fields doc.relative

  abbrev pub parse_loaded : CorpusDocument → Loaded → Result ParseResult
  parse_loaded doc yaml_error = ok (unparseable bad_front_matter)
  parse_loaded doc (raised e) = err e
  parse_loaded doc (loaded (obj fields)) = parse_fields doc fields
  parse_loaded doc (loaded _) = ok (unparseable no_front_matter)

  unfoldable pub parse_completed_task : CorpusDocument → Option Fields → Result ParseResult
  unfolding parse_fields extract_frontmatter
  parse_completed_task doc none = parse_loaded doc (extract_frontmatter safe_load doc.text)
  parse_completed_task doc (some fields) = parse_fields doc fields
