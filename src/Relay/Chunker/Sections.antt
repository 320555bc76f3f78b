-- ===== src/Relay/Chunker/Sections.antt =====
-- The sections of a text are the text, cut at its headings.
use fleet_memory.Prelude.{
  ◌≡◌, ◌≢◌, refl, sym, ap, ◌∙◌, Bool, true, false, List, [], ◌∷◌, ◌++◌, Text, ◌==◌, if◌then◌else◌,
  join, split, extend_head, is_empty, append-nil, append_assoc, Bool-cases, inl, inr, ==_iff, ℕ,
}
use fleet_memory.Relay.Chunker.{line_feed, is_heading, sections_from, split_into_sections}

abbrev pub flatten : List Text → Text
flatten [] = []
flatten (section ∷ rest) = section ++ flatten rest

join-extend_head : (sep c : ℕ) (ps : List Text) → join sep (extend_head c ps) ≡ c ∷ join sep ps
join-extend_head sep c [] = refl
join-extend_head sep c (p ∷ []) = refl
join-extend_head sep c (p ∷ q ∷ ps) = refl

split_nonempty : (sep : ℕ) (s : Text) → split sep s ≢ []
split_nonempty sep [] = λ e. cc
split_nonempty sep (c ∷ s) = extended (c == sep) (split sep s)
  where
    extended : (b : Bool) (ps : List Text) → (if b then [] ∷ ps else extend_head c ps) ≢ []
    extended true ps = λ e. cc
    extended false [] = λ e. cc
    extended false (p ∷ ps) = λ e. cc

join-cons : (sep : ℕ) (ps : List Text) → ps ≢ [] → join sep ([] ∷ ps) ≡ sep ∷ join sep ps
join-cons sep [] ne = absurd (ne refl)
join-cons sep (p ∷ ps) ne = refl

join-split : (sep : ℕ) (s : Text) → join sep (split sep s) ≡ s
join-split sep [] = refl
join-split sep (c ∷ s) = elim (Bool-cases (c == sep)) [
  | inl same ↦ rw same (
      join-cons sep (split sep s) (split_nonempty sep s)
      ∙ ap (λ l. sep ∷ l) (join-split sep s)
      ∙ ap (λ d. d ∷ s) (sym ((==_iff c sep).0 same)))
  | inr other ↦ rw other (join-extend_head sep c (split sep s) ∙ ap (λ l. c ∷ l) (join-split sep s))
]

join-append :
    (sep : ℕ) (xs : List Text) (y : Text) (ys : List Text)
    → xs ≢ []
    → join sep (xs ++ (y ∷ ys)) ≡ join sep xs ++ (sep ∷ join sep (y ∷ ys))
join-append sep [] y ys ne = absurd (ne refl)
join-append sep (x ∷ []) y ys ne = refl
join-append sep (x ∷ z ∷ xs) y ys ne =
    ap (λ l. x ++ (sep ∷ l)) (join-append sep (z ∷ xs) y ys (λ e. cc))
    ∙ sym (append_assoc x (sep ∷ join sep (z ∷ xs)) (sep ∷ join sep (y ∷ ys)))

flatten-sections_from :
    (current lines : List Text)
    → flatten (sections_from current lines) ≡ join line_feed (current ++ lines)
unfolding sections_from
flatten-sections_from [] [] = refl
flatten-sections_from (c ∷ cs) [] =
    append-nil (join line_feed (c ∷ cs)) ∙ ap (join line_feed) (sym (append-nil (c ∷ cs)))
flatten-sections_from [] (line ∷ rest) = elim (Bool-cases (is_heading line)) [
  | inl heading ↦ rw heading (flatten-sections_from (line ∷ []) rest)
  | inr plain ↦ rw plain (flatten-sections_from (line ∷ []) rest)
]
flatten-sections_from (c ∷ cs) (line ∷ rest) = elim (Bool-cases (is_heading line)) [
  | inl heading ↦ rw heading (
      append_assoc (join line_feed (c ∷ cs)) (line_feed ∷ [])
        (flatten (sections_from (line ∷ []) rest))
      ∙ ap (λ l. join line_feed (c ∷ cs) ++ (line_feed ∷ l))
          (flatten-sections_from (line ∷ []) rest)
      ∙ sym (join-append line_feed (c ∷ cs) line rest (λ e. cc)))
  | inr plain ↦ rw plain (
      flatten-sections_from ((c ∷ cs) ++ (line ∷ [])) rest
      ∙ ap (join line_feed) (append_assoc (c ∷ cs) (line ∷ []) rest))
]

flatten-or_whole :
    (sections : List Text) (text : Text)
    → flatten sections ≡ text
    → flatten (if is_empty sections then text ∷ [] else sections) ≡ text
flatten-or_whole [] text e = append-nil text
flatten-or_whole (s ∷ ss) text e = e

-- The sections of a text, put together in their order, are the text: a split loses no character
-- and repeats none.
pub flatten-split_into_sections : (text : Text) → flatten (split_into_sections text) ≡ text
unfolding split_into_sections
flatten-split_into_sections text =
    flatten-or_whole (sections_from [] (split line_feed text)) text
      (flatten-sections_from [] (split line_feed text) ∙ join-split line_feed text)
