-- ===== src/Chronicler/Harvest/Grouping.antt =====
-- One card for each story, with its episodes in order, public only if they all are.
use fleet_memory.Prelude.{
  ◌≡◌, refl, sym, ap, ◌∙◌, inl, inr, Bool, true, false, ◌&&◌, List, [], ◌∷◌, ◌++◌, Option, none,
  some, Text, text_eq, text_eq→eq, text_eq_refl, text_eq_ne, text_mem, filter, all, map,
  if◌then◌else◌, Bool-cases, arith, append_assoc, append-nil,
}
use mathlib.Core.Bool.{false≢true}
use mathlib.Core.Path.{subst}
use fleet_memory.Errors.{ok, >>=-eq-ok}
use fleet_memory.Chronicler.Episode.{
  HarvestedEpisode, PyValues, story_key, confidential, public, slug,
}
use fleet_memory.Chronicler.Rows.{extract}
use fleet_memory.Chronicler.Harvest.{
  StoryCard, HarvestResult, new_card, put_on, add_episode, harvest_from, harvest,
}

abbrev pub find : Text → List StoryCard → Option StoryCard
find k [] = none
find k (card ∷ cards) = if text_eq card.story_key k then some card else find k cards

abbrev pub keys : List StoryCard → List Text
keys cards = map (λ (c : StoryCard). c.story_key) cards

-- No two cards are of one story.
abbrev pub Distinct : List StoryCard → Type 0
Distinct [] = Unit {0}
Distinct (card ∷ cards) = (text_mem card.story_key (keys cards) ≡ false) × Distinct cards

all-append {ℓ} :
    {A : Type ℓ} (p : A → Bool) (xs ys : List A) → all p (xs ++ ys) ≡ (all p xs && all p ys)
all-append p [] ys = refl
all-append p (x ∷ xs) ys = ground (arith, all-append p xs ys)

filter-append {ℓ} :
    {A : Type ℓ} (p : A → Bool) (xs ys : List A) → filter p (xs ++ ys) ≡ filter p xs ++ filter p ys
filter-append p [] ys = refl
filter-append p (x ∷ xs) ys = ground (arith, filter-append p xs ys)

joined_flags :
    (b c : Bool)
    → (if b && (c && true) then public else confidential)
      ≡ (if c then (if b then public else confidential) else confidential)
joined_flags true true = refl
joined_flags true false = refl
joined_flags false true = refl
joined_flags false false = refl

text_eq-false_sym : (s t : Text) → text_eq s t ≡ false → text_eq t s ≡ false
text_eq-false_sym s t h =
    text_eq_ne t s (λ e. false≢true (sym h ∙ (ap (λ x. text_eq x t) (sym e) ∙ text_eq_refl t)))

module _ (py : PyValues) (public_projects : List Text) where
  abbrev is_public : HarvestedEpisode → Bool
  is_public e = text_mem e.project public_projects

  -- The card of a story with these episodes.
  abbrev pub card_for : Text → List HarvestedEpisode → Option StoryCard
  card_for k [] = none
  card_for k (e ∷ es) = some (record {
    story_key = k;
    slug = slug k;
    project = e.project;
    confidentiality = if all is_public (e ∷ es) then public else confidential;
    episodes = e ∷ es;
  })

  abbrev pub of_story : Text → List HarvestedEpisode → List HarvestedEpisode
  of_story k episodes = filter (λ e. text_eq (story_key py e) k) episodes

  abbrev or_new : HarvestedEpisode → Option StoryCard → StoryCard
  or_new ep none = new_card py public_projects ep
  or_new ep (some card) = card

  find-add_episode :
      (ep : HarvestedEpisode) (cards : List StoryCard) (k : Text)
      → find k (add_episode py public_projects ep cards) ≡ (
          if text_eq (story_key py ep) k
          then some (put_on py public_projects ep (or_new ep (find k cards)))
          else find k cards)
  unfolding add_episode
  find-add_episode ep [] k = refl
  find-add_episode ep (card ∷ cards) k =
      elim (Bool-cases (text_eq card.story_key (story_key py ep))) [
        | inl same ↦
            ground (
              arith,
              same,
              ap (λ x. text_eq x k) (text_eq→eq card.story_key (story_key py ep) same),
            )
        | inr other ↦ elim (Bool-cases (text_eq card.story_key k)) [
          | inl hit ↦ ground (
            arith,
            other,
            hit,
            text_eq_ne (story_key py ep) k (λ e. false≢true (
                sym other
                ∙ (ap (λ x. text_eq card.story_key x) (e ∙ sym (text_eq→eq card.story_key k hit))
                    ∙ text_eq_refl card.story_key))),
          )
          | inr miss ↦ ground (arith, other, miss, find-add_episode ep cards k)
        ]
      ]

  card_for-snoc :
      (ep : HarvestedEpisode) (xs : List HarvestedEpisode)
      → card_for (story_key py ep) (xs ++ (ep ∷ []))
        ≡ some (put_on py public_projects ep (or_new ep (card_for (story_key py ep) xs)))
  card_for-snoc ep [] = elim (Bool-cases (is_public ep)) [
    | inl open_project ↦ rw open_project refl
    | inr closed ↦ rw closed refl
  ]
  card_for-snoc ep (x ∷ xs) =
      let with_flag : Text → Option StoryCard = λ t. some (record {
        story_key = story_key py ep;
        slug = slug (story_key py ep);
        project = x.project;
        confidentiality = t;
        episodes = x ∷ (xs ++ (ep ∷ []));
      }) in
      ap with_flag (
        ap (λ b. if b then public else confidential) (all-append is_public (x ∷ xs) (ep ∷ []))
        ∙ joined_flags (all is_public (x ∷ xs)) (is_public ep))

  -- The cards are those of the stories of these episodes.
  abbrev pub Grouped : List HarvestedEpisode → List StoryCard → Type 0
  Grouped seen cards = (k : Text) → find k cards ≡ card_for k (of_story k seen)

  card_for-snoc_at :
      (ep : HarvestedEpisode) (xs : List HarvestedEpisode) (k : Text)
      → story_key py ep ≡ k
      → card_for k (xs ++ (ep ∷ []))
        ≡ some (put_on py public_projects ep (or_new ep (card_for k xs)))
  card_for-snoc_at ep xs k e =
      subst
        (λ j.
          card_for j (xs ++ (ep ∷ []))
          ≡ some (put_on py public_projects ep (or_new ep (card_for j xs))))
        e (card_for-snoc ep xs)

  of_story-mine :
      (ep : HarvestedEpisode) (seen : List HarvestedEpisode) (k : Text)
      → text_eq (story_key py ep) k ≡ true
      → of_story k (seen ++ (ep ∷ [])) ≡ of_story k seen ++ (ep ∷ [])
  of_story-mine ep seen k h =
      filter-append (λ e. text_eq (story_key py e) k) seen (ep ∷ [])
      ∙ ap (λ b. of_story k seen ++ (if b then ep ∷ [] else [])) h

  of_story-other :
      (ep : HarvestedEpisode) (seen : List HarvestedEpisode) (k : Text)
      → text_eq (story_key py ep) k ≡ false
      → of_story k (seen ++ (ep ∷ [])) ≡ of_story k seen
  of_story-other ep seen k h =
      filter-append (λ e. text_eq (story_key py e) k) seen (ep ∷ [])
      ∙ ap (λ b. of_story k seen ++ (if b then ep ∷ [] else [])) h
      ∙ append-nil (of_story k seen)

  add_episode-Grouped :
      (ep : HarvestedEpisode) (seen : List HarvestedEpisode) (cards : List StoryCard)
      → Grouped seen cards
      → Grouped (seen ++ (ep ∷ [])) (add_episode py public_projects ep cards)
  add_episode-Grouped ep seen cards g k =
      find-add_episode ep cards k ∙ elim (Bool-cases (text_eq (story_key py ep) k)) [
        | inl mine ↦ rw mine (
            ap (λ o. some (put_on py public_projects ep (or_new ep o))) (g k)
            ∙ sym (card_for-snoc_at ep (of_story k seen) k (text_eq→eq (story_key py ep) k mine))
            ∙ sym (ap (card_for k) (of_story-mine ep seen k mine)))
        | inr not_mine ↦
            rw not_mine (g k ∙ sym (ap (card_for k) (of_story-other ep seen k not_mine)))
      ]

  mem-add_episode :
      (ep : HarvestedEpisode) (cards : List StoryCard) (k : Text)
      → text_mem k (keys cards) ≡ false
      → text_eq (story_key py ep) k ≡ false
      → text_mem k (keys (add_episode py public_projects ep cards)) ≡ false
  unfolding add_episode
  mem-add_episode ep [] k h n = rw n refl
  mem-add_episode ep (card ∷ cards) k h n = ground (arith, h, n, mem-add_episode ep cards k)

  add_episode-Distinct :
      (ep : HarvestedEpisode) (cards : List StoryCard)
      → Distinct cards
      → Distinct (add_episode py public_projects ep cards)
  unfolding add_episode
  add_episode-Distinct ep [] d = (refl, tt)
  add_episode-Distinct ep (card ∷ cards) (fresh, d) =
      elim (Bool-cases (text_eq card.story_key (story_key py ep))) [
        | inl same ↦ rw same (fresh, d)
        | inr other ↦ rw other (
          mem-add_episode ep cards card.story_key fresh
              (text_eq-false_sym card.story_key (story_key py ep) other),
          add_episode-Distinct ep cards d,
        )
      ]

  harvest_from-Grouped :
      (eps seen : List HarvestedEpisode) (start r : HarvestResult)
      → harvest_from py public_projects eps start ≡ ok r
      → Grouped seen start.story_cards
      → Distinct start.story_cards
      → Grouped (seen ++ eps) r.story_cards × Distinct r.story_cards
  unfolding harvest_from
  harvest_from-Grouped [] seen start r h g d =
      let e : start ≡ r = cc in rw (append-nil seen) (rw (sym e) (g, d))
  harvest_from-Grouped (ep ∷ eps) seen start r h g d =
      let (rows, _, h1) = >>=-eq-ok (extract py public_projects ep) _ h in
      rw (sym (append_assoc seen (ep ∷ []) eps)) (
        harvest_from-Grouped eps (seen ++ (ep ∷ [])) _ r h1
          (add_episode-Grouped ep seen start.story_cards g)
          (add_episode-Distinct ep start.story_cards d))

  -- A harvest has one card for each story that has an episode, and no other card: with the story's
  -- episodes in their order, the project of the first, and the mark public exactly if the project of
  -- each of them is public, confidential otherwise.
  pub harvest-Grouped :
      (episodes : List HarvestedEpisode) (r : HarvestResult)
      → harvest py public_projects episodes ≡ ok r
      → Grouped episodes r.story_cards × Distinct r.story_cards
  unfolding harvest
  harvest-Grouped episodes r h = harvest_from-Grouped episodes [] _ r h (λ k. refl) tt
