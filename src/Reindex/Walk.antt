-- ===== src/Reindex/Walk.antt =====
-- reindex/pipeline.py: the walk, from the documents that the walker yields.
use fleet_memory.Prelude.{List, [], ◌∷◌, ◌++◌, Option, none, some, Text, codes}
use fleet_memory.Errors.{Result, ok, err, ◌>>=◌}
use fleet_memory.Json.{Json, null, Fields}
use fleet_memory.Fence.Files.{get}
use fleet_memory.Chronicler.Episode.{PyValues, shown_value}
use fleet_memory.Reindex.Manifest.{CorpusManifest, forward_slashes}
use fleet_memory.Reindex.Classify.{
  CorpusDocument, Loaded, SkipReason, Classification, classify_document,
}
use fleet_memory.Reindex.Parsers.{
  UnparseableReason, parser_error, ParseResult, parsed, unparseable, parse_completed_task,
}
use fleet_memory.Reindex.Collisions.{Candidate, Skipped}

-- An entry of `unparseable`.
pub record Unparsed : Type 0 where
  pub path : Text
  pub reason : UnparseableReason

-- The lists that the walk fills.
pub record Walk : Type 0 where
  pub skipped : List Skipped
  pub unparsed : List Unparsed
  pub candidates : List Candidate

abbrev relative_or : Text → Option Text → Text
relative_or path none = path
relative_or path (some relative) = forward_slashes relative

abbrev pub nothing_walked : Walk
nothing_walked = record { skipped = []; unparsed = []; candidates = [] }

-- `_relative_path`
abbrev pub relative_path_of : CorpusDocument → Text
relative_path_of doc = relative_or doc.path doc.relative

abbrev or_build_outcome : Option Text → Text
or_build_outcome none = codes "build_outcome"
or_build_outcome (some []) = codes "build_outcome"
or_build_outcome (some (c ∷ s)) = c ∷ s

abbrev add_skipped : CorpusDocument → SkipReason → Walk → Walk
add_skipped doc reason w = record w {
  skipped = w.skipped ++ (record { path = relative_path_of doc; reason = reason } ∷ []);
}

abbrev add_unparsed : CorpusDocument → UnparseableReason → Walk → Walk
add_unparsed doc reason w = record w {
  unparsed = w.unparsed ++ (record { path = relative_path_of doc; reason = reason } ∷ []);
}

module _ (py : PyValues) (safe_load : Text → Loaded) (manifest : CorpusManifest) where
  abbrev shown_title : Option Json → Option Text
  shown_title none = none
  shown_title (some null) = none
  shown_title (some j) = some (shown_value py j)

  abbrev title_of : Option Fields → Option Text
  title_of none = none
  title_of (some fields) = shown_title (get (codes "title") fields)

  -- The loop's body behind the parser, whose exceptions are caught.
  unfoldable pub add_parsed : CorpusDocument → Classification → Result ParseResult → Walk → Walk
  unfolding get
  add_parsed doc c (err e) w = add_unparsed doc (parser_error e) w
  add_parsed doc c (ok (unparseable reason)) w = add_unparsed doc reason w
  add_parsed doc c (ok (parsed payload)) w = record w {
    candidates =
        w.candidates
        ++ (record {
          relative_path = relative_path_of doc;
          title = title_of c.frontmatter;
          payload = payload;
          kind = or_build_outcome c.kind;
        }
            ∷ []);
  }

  abbrev pub add_classified : CorpusDocument → Classification → Option SkipReason → Walk → Walk
  add_classified doc c (some reason) w = add_skipped doc reason w
  add_classified doc c none w =
      add_parsed doc c (parse_completed_task py safe_load doc c.frontmatter) w

  -- One document of the walk.
  unfoldable pub walk_document : CorpusDocument → Walk → Result Walk
  unfolding classify_document parse_completed_task add_parsed
  walk_document doc w = do
    c ← classify_document py safe_load manifest doc
    ok (add_classified doc c c.skip_reason w)

  unfoldable pub walk : List CorpusDocument → Walk → Result Walk
  unfolding walk_document
  walk [] w = ok w
  walk (doc ∷ docs) w = do w' ← walk_document doc w; walk docs w'
