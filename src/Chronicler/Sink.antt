-- ===== src/Chronicler/Sink.antt =====
-- chronicler/sink.py, and the story card as it is written (`render_markdown` of
-- chronicler/harvest.py). A directory is an association list of file names and texts; the JSON text
-- of a row is a parameter.
pub mod Overwrites
use fleet_memory.Prelude.{
  Bool, false, List, [], ◌∷◌, ◌++◌, Option, none, some, Text, codes, text_eq, map, length, is_empty,
  join, if◌then◌else◌,
}
use fleet_memory.Json.{decimal, text_leb, Fields}
use fleet_memory.Fence.Files.{get}
use fleet_memory.Chronicler.Episode.{HarvestedEpisode, PyValues, true_value, shown_value}
use fleet_memory.Chronicler.Rows.{DatasetRow}
use fleet_memory.Chronicler.Harvest.{StoryCard}

abbrev pub Directory : Type 0
Directory = List (Text × Text)

unfoldable pub put_file : Text → Text → Directory → Directory
put_file name text [] = (name, text) ∷ []
put_file name text ((other, old) ∷ rest) =
    if text_eq other name then (name, text) ∷ rest else (other, old) ∷ put_file name text rest

unfoldable pub read_file : Text → Directory → Option Text
read_file name [] = none
read_file name ((other, text) ∷ rest) =
    if text_eq other name then some text else read_file name rest

abbrev text_or : Option Text → Text → Text
text_or none otherwise = otherwise
text_or (some s) otherwise = if is_empty s then otherwise else s

-- `(e.occurred_at or "", e.natural_key)`, in order
abbrev sorts_before : HarvestedEpisode → HarvestedEpisode → Bool
sorts_before d e =
    let x = text_or d.occurred_at [] in
    let y = text_or e.occurred_at [] in
    if text_eq x y then text_leb d.natural_key e.natural_key else text_leb x y

insert_episode : HarvestedEpisode → List HarvestedEpisode → List HarvestedEpisode
unfolding text_leb
insert_episode e [] = e ∷ []
insert_episode e (d ∷ rest) = if sorts_before e d then e ∷ d ∷ rest else d ∷ insert_episode e rest

sort_episodes : List HarvestedEpisode → List HarvestedEpisode
unfolding insert_episode
sort_episodes [] = []
sort_episodes (e ∷ rest) = insert_episode e (sort_episodes rest)

abbrev pub card_file : StoryCard → Text
card_file card = card.slug ++ codes ".md"

module _ (py : PyValues) where
  abbrev summary_from : List (Text × Text) → Fields → Text → Text
  summary_from [] payload otherwise = otherwise
  summary_from ((key, spoken) ∷ keys) payload otherwise =
      let rest = summary_from keys payload otherwise in
      elim (true_value py (get key payload)) [
        | none ↦ rest
        | some j ↦ spoken ++ (codes ": " ++ shown_value py j)
      ]

  -- The keys, each with `key_field.replace("_", " ")`.
  abbrev summary_keys : List (Text × Text)
  summary_keys =
      (codes "survival_state", codes "survival state")
      ∷ (codes "terminal_state", codes "terminal state")
      ∷ (codes "decision", codes "decision")
      ∷ (codes "verdict", codes "verdict")
      ∷ (codes "status", codes "status")
      ∷ []

  -- `_episode_summary`
  unfoldable pub episode_summary : HarvestedEpisode → Text
  unfolding get
  episode_summary ep =
      summary_from summary_keys ep.payload
        (if is_empty ep.identifier then ep.natural_key else ep.identifier)

  abbrev timeline_line : HarvestedEpisode → Text
  timeline_line ep =
      codes "- "
      ++ (text_or ep.occurred_at (codes "(undated)")
          ++ (codes " · **" ++ (ep.payload_type ++ (codes "** — " ++ episode_summary ep))))

  unfoldable pub render_markdown : StoryCard → Text
  unfolding episode_summary sort_episodes
  render_markdown card = join 10 (
      (codes "---"
        ∷ (codes "story_key: " ++ card.story_key)
        ∷ (codes "project: " ++ card.project)
        ∷ (codes "confidentiality: " ++ card.confidentiality)
        ∷ codes "published: false  # human gate (DF-008): nothing publishes unattended"
        ∷ codes "source: flywheel"
        ∷ (codes "episode_count: " ++ decimal (length card.episodes))
        ∷ codes "---"
        ∷ []
        ∷ (codes "# Story: " ++ card.story_key)
        ∷ []
        ∷ (codes "_Draft story card — pending human review (DF-008 human gate). Confidentiality: **"
            ++ (card.confidentiality ++ codes "**._"))
        ∷ []
        ∷ codes "## Timeline"
        ∷ []
        ∷ [])
      ++ (map timeline_line (sort_episodes card.episodes) ++ ([] ∷ [])))

  -- `write_story_cards`: the directory, and the paths that are written.
  unfoldable pub write_story_cards : List StoryCard → Directory → Directory × List Text
  unfolding put_file render_markdown
  write_story_cards [] d = (d, [])
  write_story_cards (card ∷ cards) d =
      let rest = write_story_cards cards (put_file (card_file card) (render_markdown card) d) in
      (rest.0, card_file card ∷ rest.1)

module _ (dumped : DatasetRow → Text) where
  abbrev row_lines : List DatasetRow → Text
  row_lines [] = []
  row_lines (row ∷ rows) = dumped row ++ (10 ∷ row_lines rows)

  -- `write_dataset_rows`: the directory, and the path if there are rows.
  unfoldable pub write_dataset_rows : List DatasetRow → Text → Directory → Directory × Option Text
  unfolding put_file
  write_dataset_rows [] run_id d = (d, none)
  write_dataset_rows (row ∷ rows) run_id d =
      let name = codes "flywheel-" ++ (run_id ++ codes ".jsonl") in
      (put_file name (row_lines (row ∷ rows)) d, some name)
