-- ===== src/Chronicler/Sink/Overwrites.antt =====
-- Which card a file holds.
use fleet_memory.Prelude.{
  ◌≡◌, refl, ap, ◌∙◌, Bool, true, false, List, [], ◌∷◌, Option, none, some, Text, text_eq,
  text_eq_iff, if◌then◌else◌, arith, length, or_else,
}
use fleet_memory.Chronicler.Episode.{PyValues}
use fleet_memory.Chronicler.Harvest.{StoryCard}
use fleet_memory.Chronicler.Sink.{
  Directory, put_file, read_file, render_markdown, card_file, write_story_cards,
}

read_file-put_file :
    (name text : Text) (d : Directory) (n : Text)
    → read_file n (put_file name text d) ≡ (if text_eq name n then some text else read_file n d)
unfolding read_file put_file
read_file-put_file name text [] n = refl
read_file-put_file name text ((other, old) ∷ d) n = ground (
  arith,
  text_eq_iff name n,
  text_eq_iff other name,
  text_eq_iff other n,
  read_file-put_file name text d n,
)

joined :
    (later : Option Text) (b : Bool) (text : Text) (before : Option Text)
    → or_else later (if b then some text else before)
      ≡ or_else (or_else later (if b then some text else none)) before
joined none true text before = refl
joined none false text before = refl
joined (some l) b text before = refl

module _ (py : PyValues) where
  -- The text of the last card with this file name.
  abbrev pub last_named : Text → List StoryCard → Option Text
  last_named n [] = none
  last_named n (card ∷ cards) =
      or_else (last_named n cards)
        (if text_eq (card_file card) n then some (render_markdown py card) else none)

  -- After the cards are written, a file holds the last card whose slug is its name, and a file that
  -- no card has for its name is as it was: of two stories with one slug, the card of the first is
  -- lost, though its path is counted as written.
  pub read_file-write_story_cards :
      (cards : List StoryCard) (d : Directory) (n : Text)
      → (read_file n (write_story_cards py cards d).0
          ≡ or_else (last_named n cards) (read_file n d))
        × (length (write_story_cards py cards d).1 ≡ length cards)
  unfolding write_story_cards
  read_file-write_story_cards [] d n = (refl, refl)
  read_file-write_story_cards (card ∷ cards) d n =
      let put = put_file (card_file card) (render_markdown py card) d in
      let (ih, counted) = read_file-write_story_cards cards put n in
      (
        ih
            ∙ ap (or_else (last_named n cards))
                (read_file-put_file (card_file card) (render_markdown py card) d n)
            ∙ joined (last_named n cards) (text_eq (card_file card) n) (render_markdown py card)
                (read_file n d),
        omega (arith, counted),
      )
