-- ===== src/Chronicler/Tests.antt =====
-- A harvest of two stories whose keys have one slug.
use fleet_memory.Prelude.{
  ◌≡◌, refl, true, List, [], ◌∷◌, none, Text, codes, length, or_else, text_eq,
}
use fleet_memory.Errors.{ok}
use fleet_memory.Json.{str, field, end}
use fleet_memory.Chronicler.Episode.{HarvestedEpisode, PyValues, confidential, public}
use fleet_memory.Chronicler.Harvest.{StoryCard, HarvestResult, harvest}
use fleet_memory.Chronicler.Harvest.Grouping.{Grouped, Distinct, harvest-Grouped}
use fleet_memory.Chronicler.Sink.{read_file, write_story_cards}
use fleet_memory.Chronicler.Sink.Overwrites.{last_named, read_file-write_story_cards}

abbrev py : PyValues
py = record { float_is_true = λ s. true; shown = λ j. [] }

abbrev episode : Text → Text → HarvestedEpisode
episode project task = record {
  project = project;
  payload_type = codes "adr";
  natural_key = codes "adr:x";
  identifier = codes "x";
  payload = field (codes "task_id") (str task) end;
  source_ref = none;
  occurred_at = none;
  name = none;
  source = none;
}

abbrev episodes : List HarvestedEpisode
episodes =
    episode (codes "open") (codes "T-1")
    ∷ episode (codes "open") (codes "T_1")
    ∷ episode (codes "shut") (codes "T-1")
    ∷ []

abbrev card : Text → Text → List HarvestedEpisode → StoryCard
card key mark eps = record {
  story_key = key;
  slug = codes "T_1";
  project = codes "open";
  confidentiality = mark;
  episodes = eps;
}

abbrev harvested : HarvestResult
harvested = record {
  dataset_rows = [];
  story_cards =
      card (codes "T-1") confidential
        (episode (codes "open") (codes "T-1") ∷ episode (codes "shut") (codes "T-1") ∷ [])
      ∷ card (codes "T_1") public (episode (codes "open") (codes "T_1") ∷ [])
      ∷ [];
}

harvest_run : harvest py (codes "open" ∷ []) episodes ≡ ok harvested
unfolding harvest text_eq
harvest_run = refl

harvest-Grouped_example :
    Grouped py (codes "open" ∷ []) episodes harvested.story_cards × Distinct harvested.story_cards
harvest-Grouped_example = harvest-Grouped py (codes "open" ∷ []) episodes harvested harvest_run

read_file-write_story_cards_example :
    (read_file (codes "T_1.md") (write_story_cards py harvested.story_cards []).0
      ≡ or_else
          (last_named py (codes "T_1.md") harvested.story_cards)
          (read_file (codes "T_1.md") []))
    × (length (write_story_cards py harvested.story_cards []).1 ≡ length harvested.story_cards)
read_file-write_story_cards_example =
    read_file-write_story_cards py harvested.story_cards [] (codes "T_1.md")
