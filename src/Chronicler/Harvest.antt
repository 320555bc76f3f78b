-- ===== src/Chronicler/Harvest.antt =====
-- chronicler/harvest.py: `harvest`.
pub mod Grouping
use fleet_memory.Prelude.{List, [], ◌∷◌, ◌++◌, Text, text_eq, text_mem, if◌then◌else◌}
use fleet_memory.Errors.{Result, ok, ◌>>=◌}
use fleet_memory.Chronicler.Episode.{
  HarvestedEpisode, PyValues, story_key, confidentiality, confidential, slug,
}
use fleet_memory.Chronicler.Rows.{DatasetRow, extract}

pub record StoryCard : Type 0 where
  pub story_key : Text
  pub slug : Text
  pub project : Text
  pub confidentiality : Text
  pub episodes : List HarvestedEpisode

pub record HarvestResult : Type 0 where
  pub dataset_rows : List DatasetRow
  pub story_cards : List StoryCard

module _ (py : PyValues) (public_projects : List Text) where
  abbrev new_card : HarvestedEpisode → StoryCard
  new_card ep = record {
    story_key = story_key py ep;
    slug = slug (story_key py ep);
    project = ep.project;
    confidentiality = confidentiality ep.project public_projects;
    episodes = [];
  }

  -- The episode on its card; one of a project that is not public makes the card confidential.
  abbrev put_on : HarvestedEpisode → StoryCard → StoryCard
  put_on ep card = record card {
    episodes = card.episodes ++ (ep ∷ []);
    confidentiality =
        if text_mem ep.project public_projects then card.confidentiality else confidential;
  }

  -- The card of the story, or a new one behind the others.
  unfoldable pub add_episode : HarvestedEpisode → List StoryCard → List StoryCard
  unfolding story_key slug
  add_episode ep [] = put_on ep (new_card ep) ∷ []
  add_episode ep (card ∷ cards) =
      if text_eq card.story_key (story_key py ep)
      then put_on ep card ∷ cards
      else card ∷ add_episode ep cards

  -- The loop over the episodes, from the result so far.
  unfoldable pub harvest_from : List HarvestedEpisode → HarvestResult → Result HarvestResult
  unfolding extract add_episode
  harvest_from [] result = ok result
  harvest_from (ep ∷ episodes) result = do
    rows ← extract py public_projects ep
    harvest_from episodes (record {
      dataset_rows = result.dataset_rows ++ rows;
      story_cards = add_episode ep result.story_cards;
    })

  unfoldable pub harvest : List HarvestedEpisode → Result HarvestResult
  unfolding harvest_from
  harvest episodes = harvest_from episodes (record { dataset_rows = []; story_cards = [] })
