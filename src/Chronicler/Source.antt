-- ===== src/Chronicler/Source.antt =====
-- chronicler/store_source.py and chronicler/run.py: the episodes of the store, and one run. The
-- namespaces with their items, and the reading of a content as an object, are parameters; the content
-- of a typed record is an object.
use fleet_memory.Prelude.{
  ℕ, Bool, false, ◌&&◌, not, List, [], ◌∷◌, ◌++◌, Option, none, some, Text, length, leb, is_empty,
  if◌then◌else◌, filter, map, split, strip, ◌==◌,
}
use fleet_memory.Errors.{Result, ok, ◌>>=◌}
use fleet_memory.Json.{Fields, end, text_leb}
use fleet_memory.Store.Value.{Value, EpisodeMeta}
use fleet_memory.Chronicler.Episode.{HarvestedEpisode, PyValues}
use fleet_memory.Chronicler.Rows.{DatasetRow}
use fleet_memory.Chronicler.Harvest.{harvest}
use fleet_memory.Chronicler.Sink.{Directory, write_dataset_rows, write_story_cards}

-- An item of the store, and the time at which the store made it.
pub record StoredItem : Type 0 where
  pub value : Value
  pub created_at : Option Text

abbrev or_empty : Option Text → Text
or_empty none = []
or_empty (some s) = s

-- `a or b`
abbrev or_text : Option Text → Option Text → Option Text
or_text none o = o
or_text (some []) o = o
or_text (some (c ∷ s)) o = some (c ∷ s)

abbrev second_part : List Text → Text
second_part (root ∷ project ∷ rest) = project
second_part _ = []

abbrev meta_text : (EpisodeMeta → Option Text) → Option EpisodeMeta → Option Text
meta_text part none = none
meta_text part (some meta) = part meta

abbrev flat : Option (Option Text) → Option Text
flat none = none
flat (some o) = o

module _ (loads : Text → Option Fields) where
  abbrev object_or_empty : Option Fields → Fields
  object_or_empty none = end
  object_or_empty (some fields) = fields

  abbrev payload_of : Option Text → Fields
  payload_of none = end
  payload_of (some []) = end
  payload_of (some (c ∷ s)) = object_or_empty (loads (c ∷ s))

  abbrev rehydrate_typed : List Text → Value → Option Text → Option HarvestedEpisode
  rehydrate_typed namespace value none = none
  rehydrate_typed namespace value (some payload_type) = some (record {
    project = or_empty (or_text value.project (some (second_part namespace)));
    payload_type = payload_type;
    natural_key = or_empty value.natural_key;
    identifier = or_empty value.identifier;
    payload = payload_of value.content;
    source_ref =
        or_text (meta_text (λ (m : EpisodeMeta). m.source_ref) value.episode_meta)
          (flat value.source_ref);
    occurred_at = meta_text (λ (m : EpisodeMeta). m.occurred_at) value.episode_meta;
    name = meta_text (λ (m : EpisodeMeta). m.name) value.episode_meta;
    source = meta_text (λ (m : EpisodeMeta). m.source) value.episode_meta;
  })

  -- `_rehydrate`
  unfoldable pub rehydrate : List Text → Value → Option HarvestedEpisode
  rehydrate namespace value = rehydrate_typed namespace value (or_text value.payload_type none)

  -- `bound and bound < since`
  abbrev is_before : Option Text → Text → Bool
  is_before none since = false
  is_before (some bound) since = not (is_empty bound) && not (text_leb since bound)

  abbrev skips : Option Text → HarvestedEpisode → StoredItem → Bool
  skips none episode item = false
  skips (some since) episode item =
      not (is_empty since) && is_before (or_text episode.occurred_at item.created_at) since

  abbrev kept : Option Text → StoredItem → Option HarvestedEpisode → List HarvestedEpisode
  kept since item none = []
  kept since item (some episode) = if skips since episode item then [] else episode ∷ []

  unfoldable pub read_items : Option Text → List Text → List StoredItem → List HarvestedEpisode
  unfolding rehydrate text_leb
  read_items since namespace [] = []
  read_items since namespace (item ∷ items) =
      kept since item (rehydrate namespace item.value) ++ read_items since namespace items

  -- `read_episodes`, from the namespaces and the items of each
  unfoldable pub read_episodes :
      Option Text → List (List Text × List StoredItem) → List HarvestedEpisode
  unfolding read_items
  read_episodes since [] = []
  read_episodes since ((namespace, items) ∷ rest) =
      (if length namespace == 3 then read_items since namespace items else [])
      ++ read_episodes since rest

-- `_parse_public_projects`
unfoldable pub parse_public_projects : Text → List Text
unfolding strip
parse_public_projects raw = filter (λ part. not (is_empty part)) (map strip (split b',' raw))

pub record ChroniclerRunResult : Type 0 where
  pub run_id : Text
  pub episode_count : ℕ
  pub dataset_row_count : ℕ
  pub story_card_count : ℕ
  pub dataset_path : Option Text
  pub story_card_paths : List Text

-- `meets_acceptance`
abbrev pub meets_acceptance : ChroniclerRunResult → Bool
meets_acceptance r = leb 1 r.dataset_row_count && leb 1 r.story_card_count

-- The intake directory and the review queue.
pub record Outputs : Type 0 where
  pub intake : Directory
  pub queue : Directory

module _ (py : PyValues) (dumped : DatasetRow → Text) where
  -- `run_chronicler`, once the episodes are read
  unfoldable pub run_chronicler :
      List HarvestedEpisode → Text → Text → Outputs → Result (ChroniclerRunResult × Outputs)
  unfolding harvest write_dataset_rows write_story_cards parse_public_projects
  run_chronicler episodes public_projects run_id out = do
    result ← harvest py (parse_public_projects public_projects) episodes
    let rows = write_dataset_rows dumped result.dataset_rows run_id out.intake
    let cards = write_story_cards py result.story_cards out.queue
    ok (
      record {
        run_id = run_id;
        episode_count = length episodes;
        dataset_row_count = length result.dataset_rows;
        story_card_count = length result.story_cards;
        dataset_path = rows.1;
        story_card_paths = cards.1;
      },
      record { intake = rows.0; queue = cards.0 },
    )
