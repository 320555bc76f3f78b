-- ===== src/Reindex/Tests.antt =====
-- Runs of the reindexing on a few documents.
use fleet_memory.Prelude.{
  ◌+◌, ◌≡◌, refl, true, List, [], ◌∷◌, none, some, Text, text_eq, codes, is_space, lstrip, strip,
  if◌then◌else◌, pos, Option, length,
}
use fleet_memory.Errors.{Error, Result, ok, err, value_error}
use fleet_memory.Exec.{Exec}
use fleet_memory.Json.{obj, str, field, end, Fields, text_leb}
use fleet_memory.Fence.Files.{get}
use fleet_memory.Chronicler.Episode.{PyValues, is_true}
use fleet_memory.Payloads.Norm.{lower, is_identifier, is_identifier_char}
use fleet_memory.Payloads.Models.{kind_eq, kind_of, payload_type}
use fleet_memory.Payloads.BackwardEdge.{run_validators}
use fleet_memory.Payloads.Base.{
  Payload, natural_key, construct, validate_present, validate_identifier, normalize_supersedes,
  check_shapes, collapse, build,
}
use fleet_memory.Payloads.Base.Collapse.{Distinct}
use fleet_memory.Writer.Identity.{Digests}
use fleet_memory.Reindex.Manifest.{
  CorpusManifest, covers, match_directories, match_entries, resolve_kind,
}
use fleet_memory.Reindex.Classify.{
  CorpusDocument, Loaded, loaded, raised, no_front_matter, shadowed_by, classify_document,
  classify_fields, extract_frontmatter, frontmatter_block, status_of, is_terminal,
}
use fleet_memory.Reindex.Lessons.{extract_lessons}
use fleet_memory.Reindex.Parsers.{
  parse_completed_task, parse_fields, normalize_tags, sanitize_identifier, sub_runs,
  strip_underscores,
}
use fleet_memory.Reindex.Collisions.{
  resolve_collisions, resolve_groups, resolve_group, by_identifier, add_to_group, titles_differ,
  deepest, is_deeper, depth,
}
use fleet_memory.Reindex.Walk.{walk, walk_document, add_parsed}
use fleet_memory.Reindex.Pipeline.{
  RunReport, reindex_corpus, publish_all, preserve_existing_lessons, add_published, count_kind,
}
use fleet_memory.Reindex.Pipeline.Accounting.{reindex_corpus-accounts}
use fleet_memory.Reindex.Pipeline.Unique.{reindex_corpus-Distinct}
use fleet_memory.Reindex.Pipeline.Raises.{LoaderRaises, reindex_corpus-raises}

abbrev py : PyValues
py = record { float_is_true = λ s. true; shown = λ j. codes "?" }

abbrev task : Text → Fields
task title =
    field (codes "id") (str (codes "T-1"))
      (field (codes "status") (str (codes "Completed")) (field (codes "title") (str title) end))

-- A loader for the blocks of the documents below.
abbrev load : Text → Loaded
load block =
    if text_eq block (codes "one")
    then loaded (obj (task (codes "one")))
    else if text_eq block (codes "two")
    then loaded (obj (task (codes "two")))
    else raised value_error

abbrev manifest : CorpusManifest
manifest = record {
  schema_version = pos 1;
  project = codes "guardkit";
  entries =
      record {
        kind = codes "build_outcome";
        episode_type = codes "task";
        directories = codes "done" ∷ [];
        owner = codes "reindex";
        content_format = codes "json";
      }
      ∷ [];
}

abbrev document_at : Text → Text → CorpusDocument
document_at relative text = record { path = relative; relative = some relative; text = text }

abbrev shallow : CorpusDocument
shallow = document_at (codes "done/a.md") (codes "---\none\n---\n")

abbrev deep : CorpusDocument
deep = document_at (codes "done/2025/a.md") (codes "---\none\n---\n## Lessons\nread\n# End")

abbrev plain : CorpusDocument
plain = document_at (codes "done/b.md") (codes "no block")

abbrev Sent : Type 0
Sent = List Text

abbrev send : Payload → Exec Sent (Option Text)
send p s = (ok none, natural_key p ∷ s)

abbrev digests : Digests
digests = record { sha256_hex = λ t. t; uuid5 = λ t. t }

abbrev run : List CorpusDocument → Result RunReport × Sent
run docs = reindex_corpus (λ t. none) digests py load manifest docs none (some send) []

abbrev key : Text
key = codes "build_outcome:guardkit:T_1"

abbrev three : List CorpusDocument
three = shallow ∷ deep ∷ plain ∷ []

abbrev three_report : RunReport
three_report = record {
  walked_count = 3;
  published_count = 1;
  skipped_count = 2;
  unparseable_count = 0;
  per_kind_counts = (codes "build_outcome", 1) ∷ [];
  published_natural_keys = key ∷ [];
  skipped =
      record { path = codes "done/b.md"; reason = no_front_matter }
      ∷ record { path = codes "done/a.md"; reason = shadowed_by (codes "done/2025/a.md") }
      ∷ [];
  unparsed = [];
}

-- The deeper of the two copies is published.
three_done : run three ≡ (ok three_report, key ∷ [])
unfolding reindex_corpus walk walk_document classify_document classify_fields resolve_kind
    match_entries match_directories covers extract_frontmatter frontmatter_block status_of
    is_terminal lower is_true get text_eq is_space lstrip strip parse_completed_task parse_fields
    normalize_tags sanitize_identifier sub_runs strip_underscores extract_lessons construct
    validate_present validate_identifier is_identifier is_identifier_char normalize_supersedes
    check_shapes collapse build run_validators kind_eq kind_of payload_type natural_key add_parsed
    resolve_collisions resolve_groups resolve_group by_identifier add_to_group titles_differ deepest
    is_deeper depth text_leb publish_all preserve_existing_lessons add_published count_kind
three_done = refl

reindex_corpus-accounts_example :
    (three_report.walked_count ≡ length three)
    × (three_report.walked_count
        ≡ three_report.published_count + three_report.skipped_count
          + three_report.unparseable_count)
reindex_corpus-accounts_example =
    reindex_corpus-accounts (λ t. none) digests py load manifest three none (some send) three_report
      [] (key ∷ []) three_done

reindex_corpus-Distinct_example : Distinct (key ∷ [])
reindex_corpus-Distinct_example =
    reindex_corpus-Distinct (λ t. none) digests py load manifest three none (some send) three_report
      [] (key ∷ []) three_done

-- A document whose front-matter holds a date out of range.
abbrev bad_date : CorpusDocument
bad_date = document_at (codes "done/c.md") (codes "---\ndue\n---\n")

bad_date_raises : LoaderRaises py load manifest bad_date value_error
unfolding extract_frontmatter frontmatter_block resolve_kind match_entries match_directories covers
    text_eq is_space
bad_date_raises = record {
  relative = codes "done/c.md";
  kind = codes "build_outcome";
  inside = refl;
  owned = refl;
  raises = refl;
}

reindex_corpus-raises_example :
    (e : Error) × (reindex_corpus
        (λ t. none)
        digests
        py
        load
        manifest
        (shallow ∷ bad_date ∷ deep ∷ [])
        none
        (some send)
        []
      ≡ (err e, []))
reindex_corpus-raises_example =
    reindex_corpus-raises py load manifest (λ t. none) digests (shallow ∷ []) (deep ∷ []) bad_date
      value_error none (some send) [] bad_date_raises
