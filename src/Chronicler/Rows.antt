-- ===== src/Chronicler/Rows.antt =====
-- chronicler/harvest.py: the extractors of dataset rows. A row keeps what differs between rows: the
-- two texts, and the metadata. What Python raises on values of another shape is `other`.
use fleet_memory.Prelude.{
  Bool, List, [], ◌∷◌, ◌++◌, Option, none, some, Text, codes, text_eq, text_mem, if◌then◌else◌,
}
use fleet_memory.Errors.{Result, ok, err, ◌>>=◌, other}
use fleet_memory.Json.{Json, null, str, arr, obj, Items, nil, cons, Fields, end}
use fleet_memory.Fence.Files.{get}
use fleet_memory.Chronicler.Episode.{
  HarvestedEpisode, PyValues, is_true, shown_value, true_value, confidentiality,
}

-- The `flywheel` block of a row's metadata.
pub record Flywheel : Type 0 where
  pub episode_type : Text
  pub natural_key : Text
  pub project : Text
  pub source_ref : Option Text
  pub occurred_at : Option Text
  pub confidentiality : Text

pub record DatasetRow : Type 0 where
  pub user : Text
  pub assistant : Json
  pub flywheel : Flywheel
  pub dimension : Text
  pub disposition : Option Text

-- `_row`, with `_flywheel_metadata`
abbrev pub row : HarvestedEpisode → Text → Json → List Text → Text → Option Text → DatasetRow
row ep user assistant public_projects dimension disposition = record {
  user = user;
  assistant = assistant;
  flywheel = record {
    episode_type = ep.payload_type;
    natural_key = ep.natural_key;
    project = ep.project;
    source_ref = ep.source_ref;
    occurred_at = ep.occurred_at;
    confidentiality = confidentiality ep.project public_projects;
  };
  dimension = dimension;
  disposition = disposition;
}

module _ (py : PyValues) (public_projects : List Text) where
  abbrev present : Fields → Text → Option Json
  present payload key = true_value py (get key payload)

  abbrev shown_or : Option Json → Text → Text
  shown_or none otherwise = otherwise
  shown_or (some j) otherwise = shown_value py j

  -- ` in {duration}s` unless the duration is `None`
  abbrev in_duration : Option Json → Text
  in_duration none = []
  in_duration (some null) = []
  in_duration (some j) = codes " in " ++ (shown_value py j ++ codes "s")

  -- `"\n\n".join(parts)`
  abbrev lesson_parts : Option Json → Option Json → Text
  lesson_parts none none = []
  lesson_parts (some lessons) none = codes "Lessons: " ++ shown_value py lessons
  lesson_parts none (some approach) = codes "Approach: " ++ shown_value py approach
  lesson_parts (some lessons) (some approach) =
      codes "Lessons: "
      ++ (shown_value py lessons ++ (10 ∷ 10 ∷ (codes "Approach: " ++ shown_value py approach)))

  build_user : HarvestedEpisode → Text
  unfolding get
  build_user ep =
      codes "A build for '"
      ++ (shown_or (present ep.payload (codes "task_id")) ep.identifier
          ++ (codes "' finished with status '"
              ++ (shown_or (get (codes "status") ep.payload) (codes "unknown")
                  ++ (codes "'"
                      ++ (in_duration (get (codes "duration_seconds") ep.payload)
                          ++ codes
                              ". What are the lessons and the approach worth carrying forward?")))))

  abbrev build_rows : HarvestedEpisode → Option Json → Option Json → List DatasetRow
  build_rows ep none none = []
  build_rows ep lessons approach =
      row ep (build_user ep) (str (lesson_parts lessons approach)) public_projects
        (codes "build-retro") none
      ∷ []

  -- `_extract_build_outcome`
  unfoldable pub extract_build_outcome : HarvestedEpisode → List DatasetRow
  unfolding build_user is_true get
  extract_build_outcome ep =
      build_rows ep (present ep.payload (codes "lessons")) (present ep.payload (codes "approach"))

  abbrev refining : Text → Bool
  refining disposition =
      text_mem disposition (codes "modified" ∷ codes "rejected" ∷ codes "deferred" ∷ [])

  -- `assumption.get("text") or assumption.get("assumption_id", "an assumption")`
  abbrev assumption_text : Option Json → Option Json → Json
  assumption_text (some text) id = text
  assumption_text none none = str (codes "an assumption")
  assumption_text none (some id) = id

  abbrev refinement : HarvestedEpisode → Text → Option Json → Json → List DatasetRow
  refinement ep disposition (some delta) text =
      row ep (codes "Refine this planning assumption: " ++ shown_value py text) delta
        public_projects (codes "assumption-refinement") (some disposition)
      ∷ []
  refinement ep disposition none text =
      if is_true py text
      then row ep (codes "Refine this planning assumption: " ++ shown_value py text)
          (str (codes "Disposition: " ++ (disposition ++ codes " (see trace for the full edit).")))
          public_projects (codes "assumption-refinement") (some disposition)
        ∷ []
      else []

  abbrev rows_of_disposition : HarvestedEpisode → Fields → Option Json → Result (List DatasetRow)
  rows_of_disposition ep assumption (some (str disposition)) =
      if refining disposition
      then ok (
          refinement ep disposition (present assumption (codes "edit_delta")) (
            assumption_text (present assumption (codes "text"))
              (get (codes "assumption_id") assumption)))
      else ok []
  -- a list or a dictionary has no hash, so it cannot be looked for in the set
  rows_of_disposition ep assumption (some (arr xs)) = err other
  rows_of_disposition ep assumption (some (obj fs)) = err other
  rows_of_disposition ep assumption _ = ok []

  -- The loop over the assumptions.
  unfoldable pub assumption_rows : HarvestedEpisode → Items → Result (List DatasetRow)
  unfolding is_true get
  assumption_rows ep nil = ok []
  assumption_rows ep (cons (obj assumption) rest) = do
    rows ← rows_of_disposition ep assumption (get (codes "disposition") assumption)
    more ← assumption_rows ep rest
    ok (rows ++ more)
  assumption_rows ep (cons _ rest) = err other

  -- What iterating over the value of `assumptions` comes to.
  abbrev rows_of_assumptions : HarvestedEpisode → Option Json → Result (List DatasetRow)
  rows_of_assumptions ep none = ok []
  rows_of_assumptions ep (some (arr assumptions)) = assumption_rows ep assumptions
  rows_of_assumptions ep (some (str [])) = ok []
  rows_of_assumptions ep (some (obj end)) = ok []
  rows_of_assumptions ep (some _) = err other

  -- `_extract_planning_outcome`
  unfoldable pub extract_planning_outcome : HarvestedEpisode → Result (List DatasetRow)
  unfolding assumption_rows get
  extract_planning_outcome ep = rows_of_assumptions ep (get (codes "assumptions") ep.payload)

  -- `DATASET_EXTRACTORS`
  unfoldable pub extract : HarvestedEpisode → Result (List DatasetRow)
  unfolding extract_build_outcome extract_planning_outcome
  extract ep =
      if text_eq ep.payload_type (codes "build_outcome")
      then ok (extract_build_outcome ep)
      else if text_eq ep.payload_type (codes "planning_outcome")
      then extract_planning_outcome ep
      else ok []
