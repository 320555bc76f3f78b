-- ===== src/Relay/Chunker/Numbering.antt =====
-- The chunks of a text: always produced, and numbered from 0 on.
use fleet_memory.Prelude.{
  ℕ, suc, ◌+◌, ◌⊎◌, Bool, true, false, ◌<◌, ◌≡◌, refl, ◌∙◌, List, [], ◌∷◌, ◌++◌, Option, Text, ltb,
  leb, length, map, is_empty, strip, Bool-cases, inl, inr, arith,
}
use fleet_memory.Errors.{Error, Result, ok, err, ◌>>=◌, Result-cases}
use fleet_memory.Relay.Schema.{Chunk}
use fleet_memory.Relay.Chunker.{
  split_large_section, append_chunk, append_chunks, finalize, next_chunk_text, exceeds,
  extract_tail_tokens, chunk_sections, chunk_prose, split_into_sections,
}
use fleet_memory.Relay.Chunker.Windows.{windows-Covers}

-- The chunks carry the episode's source and project, and the numbers from `n` on.
abbrev pub IsNumbered : Option Text → Text → ℕ → List Chunk → Type 0
IsNumbered source_ref project n [] = Unit
IsNumbered source_ref project n (c ∷ cs) =
    (c.index ≡ n)
    × (c.source_ref ≡ source_ref)
    × (c.project ≡ project)
    × IsNumbered source_ref project (suc n) cs

module _ (encode : Text → Result (List ℕ)) (decode : List ℕ → Text)
    (target_tokens overlap_tokens : ℕ) (source_ref : Option Text) (project : Text)
    (less : overlap_tokens < target_tokens) where
  abbrev Numbered : List Chunk → Type 0
  Numbered cs = IsNumbered source_ref project 0 cs

  snoc-IsNumbered :
      (n : ℕ) (cs : List Chunk) (c : Chunk)
      → IsNumbered source_ref project n cs
      → c.index ≡ n + length cs
      → c.source_ref ≡ source_ref
      → c.project ≡ project
      → IsNumbered source_ref project n (cs ++ (c ∷ []))
  snoc-IsNumbered n [] c h i r p = (i ∙ omega arith, r, p, tt)
  snoc-IsNumbered n (d ∷ cs) c (a, b, e, h) i r p =
      (a, b, e, snoc-IsNumbered (suc n) cs c h (i ∙ omega arith) r p)

  append_chunk-Numbered :
      (cs : List Chunk) (text : Text)
      → Numbered cs
      → Numbered
          (append_chunk encode decode target_tokens overlap_tokens source_ref project cs text)
  append_chunk-Numbered cs text h = snoc-IsNumbered 0 cs _ h (omega arith) refl refl

  append_chunks-Numbered :
      (texts : List Text) (cs : List Chunk)
      → Numbered cs
      → Numbered
          (append_chunks encode decode target_tokens overlap_tokens source_ref project cs texts)
  unfolding append_chunks
  append_chunks-Numbered [] cs h = h
  append_chunks-Numbered (t ∷ ts) cs h = append_chunks-Numbered ts _ (append_chunk-Numbered cs t h)

  finalize-Numbered :
      (cs : List Chunk) (text : Text)
      → Numbered cs
      → Numbered (finalize encode decode target_tokens overlap_tokens source_ref project cs text)
  unfolding finalize
  finalize-Numbered cs text h = elim (Bool-cases (is_empty (strip text))) [
    | inl blank ↦ rw blank h
    | inr full ↦ rw full (append_chunk-Numbered cs text h)
  ]

  -- What the tokenizer raises on some text.
  abbrev pub EncodeRaises : Error → Type 0
  EncodeRaises e = (text : Text) × (encode text ≡ err e)

  -- A result, or what the tokenizer raises.
  abbrev Encodes : {A : Type 0} → Result A → Type 0
  Encodes {A} r = ((a : A) × (r ≡ ok a)) ⊎ ((e : Error) × (r ≡ err e) × EncodeRaises e)

  encode-Encodes : (text : Text) → Encodes (encode text)
  encode-Encodes text = elim (Result-cases (encode text)) [
    | inl (e, raised) ↦ inr (e, raised, (text, raised))
    | inr (tokens, encoded) ↦ inl (tokens, encoded)
  ]

  >>=-Encodes :
      {A B : Type 0} (first : Result A) (next : A → Result B)
      → Encodes first
      → ((a : A) → first ≡ ok a → Encodes (next a))
      → Encodes (first >>= next)
  >>=-Encodes (ok a) next h later = later a refl
  >>=-Encodes (err e) next (inl (a, same)) later = absurd cc
  >>=-Encodes (err e) next (inr (e', same, raises)) later = inr (e', cc same, raises)

  split_large_section-Encodes :
      (section : Text)
      → Encodes (split_large_section encode decode target_tokens overlap_tokens section)
  unfolding split_large_section
  split_large_section-Encodes section =
      >>=-Encodes (encode section) _ (encode-Encodes section) (λ tokens encoded.
        let (ws, run, _, _) = windows-Covers target_tokens overlap_tokens tokens less in
        elim (Bool-cases (leb (length tokens) target_tokens)) [
          | inl small ↦ inl (section ∷ [], rw small refl)
          | inr large ↦ inl (map decode ws, rw (large, run) refl)
        ])

  next_chunk_text-Encodes :
      (current section : Text)
      → Encodes (
          next_chunk_text encode decode target_tokens overlap_tokens source_ref project current
            section)
  unfolding extract_tail_tokens
  next_chunk_text-Encodes current section = elim (Bool-cases (ltb 0 overlap_tokens)) [
    | inl some_overlap ↦ rw some_overlap (
        >>=-Encodes (extract_tail_tokens encode decode current overlap_tokens) _
          (>>=-Encodes (encode current) _ (encode-Encodes current)
            (λ tokens encoded. inl (_, refl)))
          (λ overlap h. inl (_, refl)))
    | inr no_overlap ↦ rw no_overlap (inl (section, refl))
  ]

  exceeds-Encodes :
      (current section : Text)
      → Encodes
          (exceeds encode decode target_tokens overlap_tokens source_ref project current section)
  exceeds-Encodes current section = elim (Bool-cases (is_empty current)) [
    | inl blank ↦ rw blank (inl (false, refl))
    | inr full ↦ rw full (
        >>=-Encodes (encode (current ++ section)) _ (encode-Encodes (current ++ section))
          (λ tokens encoded. inl (_, refl)))
  ]

  -- Numbered chunks, or what the tokenizer raises.
  abbrev Chunked : Result (List Chunk) → Type 0
  Chunked r =
      ((chunks : List Chunk) × (r ≡ ok chunks) × Numbered chunks)
      ⊎ ((e : Error) × (r ≡ err e) × EncodeRaises e)

  >>=-Chunked :
      {A : Type 0} (first : Result A) (next : A → Result (List Chunk))
      → Encodes first
      → ((a : A) → first ≡ ok a → Chunked (next a))
      → Chunked (first >>= next)
  >>=-Chunked (ok a) next h later = later a refl
  >>=-Chunked (err e) next (inl (a, same)) later = absurd cc
  >>=-Chunked (err e) next (inr (e', same, raises)) later = inr (e', cc same, raises)

  Chunked-elim :
      (over : Bool) (started joined : Result (List Chunk))
      → Chunked started
      → Chunked joined
      → Chunked (elim over [ Bool.true ↦ started | Bool.false ↦ joined ])
  Chunked-elim true started joined h k = h
  Chunked-elim false started joined h k = k

  chunk_sections-Chunked :
      (sections : List Text) (cs : List Chunk) (current : Text)
      → Numbered cs
      → Chunked (
          chunk_sections encode decode target_tokens overlap_tokens source_ref project cs current
            sections)
  unfolding chunk_sections
  chunk_sections-Chunked [] cs current h = inl (_, refl, finalize-Numbered cs current h)
  chunk_sections-Chunked (section ∷ rest) cs current h =
      >>=-Chunked (encode section) _ (encode-Encodes section) (λ tokens encoded.
        elim (Bool-cases (ltb target_tokens (length tokens))) [
          | inl large ↦ rw large (
              >>=-Chunked (split_large_section encode decode target_tokens overlap_tokens section) _
                (split_large_section-Encodes section)
                (λ texts split.
                  chunk_sections-Chunked rest _ _
                    (append_chunks-Numbered texts _ (finalize-Numbered cs current h))))
          | inr small ↦ rw small (
              >>=-Chunked
                (exceeds encode decode target_tokens overlap_tokens source_ref project current
                  section)
                _ (exceeds-Encodes current section)
                (λ over found.
                  Chunked-elim over _ _
                    (>>=-Chunked
                      (next_chunk_text encode decode target_tokens overlap_tokens source_ref project
                        current section)
                      _ (next_chunk_text-Encodes current section)
                      (λ started h'.
                        chunk_sections-Chunked rest _ started (append_chunk-Numbered cs current h)))
                    (chunk_sections-Chunked rest cs (current ++ section) h)))
        ])

  -- Where the overlap is below the target, the chunking of a text ends: either with chunks that have
  -- the numbers from 0 on, in their order, with the given source and project, or with an exception
  -- that the tokenizer raises on some text.
  pub chunk_prose-IsNumbered :
      (body : Text)
      → ((chunks : List Chunk) × (chunk_prose encode decode target_tokens overlap_tokens source_ref
              project body
            ≡ ok chunks)
          × IsNumbered source_ref project 0 chunks)
        ⊎ ((e : Error) × (chunk_prose encode decode target_tokens overlap_tokens source_ref project
                body
              ≡ err e)
            × ((text : Text) × (encode text ≡ err e)))
  unfolding chunk_prose
  chunk_prose-IsNumbered body = elim (Bool-cases (is_empty (strip body))) [
    | inl blank ↦ rw blank (inl ([], refl, tt))
    | inr full ↦ rw full (chunk_sections-Chunked (split_into_sections body) [] [] tt)
  ]
