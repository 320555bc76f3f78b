-- ===== src/Relay/Chunker.antt =====
-- relay/chunker.py: the split of prose into chunks. The tokenizer is a parameter: `encode` raises a
-- ValueError on a text that holds a special token, as `<|endoftext|>`. A parameter is also
-- `int(target_tokens * overlap_ratio)`, a product of a float; a documented ratio, between 0 and 1,
-- keeps it from being above `target_tokens`, so that no index is negative.
pub mod Sections
pub mod Windows
pub mod Numbering
use fleet_memory.Prelude.{
  ℕ, zero, suc, ◌+◌, ◌-◌, min, Bool, false, ◌&&◌, not, List, [], ◌∷◌, ◌++◌, Option, none, some,
  Text, ltb, leb, ◌==◌, if◌then◌else◌, length, take, drop, is_empty, join, split, is_space, strip,
  map,
}
use fleet_memory.Errors.{Result, ok, err, ◌>>=◌, endless}
use fleet_memory.Relay.Schema.{Chunk}

abbrev pub line_feed : ℕ
line_feed = 10

-- `#{1,6}\s`, behind `seen` number signs.
unfoldable pub heading_from : ℕ → Text → Bool
heading_from seen [] = false
heading_from seen (c ∷ rest) =
    let more = heading_from (suc seen) rest in
    if c == b'#' then more else leb 1 seen && leb seen 6 && is_space c

abbrev pub is_heading : Text → Bool
is_heading line = heading_from 0 line

-- The loop over the lines; the final section has no line feed behind it.
pub sections_from : List Text → List Text → List Text
sections_from current_section [] =
    if is_empty current_section then [] else join line_feed current_section ∷ []
sections_from current_section (line ∷ rest) =
    let started = sections_from (line ∷ []) rest in
    let continued = sections_from (current_section ++ (line ∷ [])) rest in
    if is_heading line && not (is_empty current_section)
    then (join line_feed current_section ++ (line_feed ∷ [])) ∷ started
    else continued

pub split_into_sections : Text → List Text
unfolding sections_from
split_into_sections text =
    let sections = sections_from [] (split line_feed text) in
    if is_empty sections then text ∷ [] else sections

-- The `while` loop over the tokens of a section; `none` where the fuel ran out.
pub windows : ℕ → ℕ → ℕ → List ℕ → ℕ → Option (List (List ℕ))
windows zero target_tokens overlap_tokens tokens start = none
windows (suc fuel) target_tokens overlap_tokens tokens start =
    let end = min (start + target_tokens) (length tokens) in
    let window = take (end - start) (drop start tokens) in
    elim (ltb start (length tokens)) [
      | Bool.false ↦ some []
      | Bool.true ↦ elim (leb (length tokens) end) [
        | Bool.true ↦ some (window ∷ [])
        | Bool.false ↦
            elim (windows fuel target_tokens overlap_tokens tokens
              (if ltb 0 overlap_tokens then end - overlap_tokens else end)) [
                | none ↦ none
                | some later ↦ some (window ∷ later)
              ]
      ]
    ]

-- The decoded windows, or a loop that does not end.
abbrev pub windows_or_endless {ℓ κ} : {A : Type ℓ} {B : Type κ} → (A → B) → Option A → Result B
windows_or_endless f none = err endless
windows_or_endless f (some a) = ok (f a)

module _ (encode : Text → Result (List ℕ)) (decode : List ℕ → Text) where
  -- Each round but the last moves the start by one token at least, if the overlap is below the
  -- target.
  pub split_large_section : ℕ → ℕ → Text → Result (List Text)
  unfolding windows
  split_large_section target_tokens overlap_tokens section = do
    tokens ← encode section
    let split_tokens = windows (suc (length tokens)) target_tokens overlap_tokens tokens 0
    if leb (length tokens) target_tokens
        then ok (section ∷ [])
        else windows_or_endless (map decode) split_tokens

  -- `tokens[-num_tokens:]`, for a positive number
  unfoldable pub extract_tail_tokens : Text → ℕ → Result Text
  extract_tail_tokens text num_tokens = do
    tokens ← encode text
    ok (
        if leb (length tokens) num_tokens
        then text
        else decode (drop (length tokens - num_tokens) tokens) ++ (b' ' ∷ []))

  module _ (target_tokens overlap_tokens : ℕ) (source_ref : Option Text) (project : Text) where
    -- `chunks.append(Chunk(index=len(chunks), ...))`
    abbrev pub append_chunk : List Chunk → Text → List Chunk
    append_chunk chunks text =
        chunks
        ++ (record {
          index = length chunks;
          text = strip text;
          source_ref = source_ref;
          project = project;
        }
            ∷ [])

    pub append_chunks : List Chunk → List Text → List Chunk
    append_chunks chunks [] = chunks
    append_chunks chunks (text ∷ rest) = append_chunks (append_chunk chunks text) rest

    -- `if current_chunk_text.strip(): ...`
    pub finalize : List Chunk → Text → List Chunk
    finalize chunks current_chunk_text =
        if is_empty (strip current_chunk_text)
        then chunks
        else append_chunk chunks current_chunk_text

    -- The text that a section above the target leaves; blank text is kept.
    abbrev pub left_behind : Text → Text
    left_behind current_chunk_text =
        if is_empty (strip current_chunk_text) then current_chunk_text else []

    abbrev pub next_chunk_text : Text → Text → Result Text
    next_chunk_text current_chunk_text section =
        if ltb 0 overlap_tokens
        then (extract_tail_tokens current_chunk_text overlap_tokens >>= λ overlap.
            ok (overlap ++ section))
        else ok section

    -- Whether the section goes into the next chunk; only a text that is there is encoded with it.
    abbrev pub exceeds : Text → Text → Result Bool
    exceeds current_chunk_text section =
        if is_empty current_chunk_text
        then ok false
        else (encode (current_chunk_text ++ section) >>= λ combined_tokens.
            ok (ltb target_tokens (length combined_tokens)))

    -- The loop over the sections, then the last chunk.
    pub chunk_sections : List Chunk → Text → List Text → Result (List Chunk)
    unfolding finalize append_chunks extract_tail_tokens split_large_section
    chunk_sections chunks current_chunk_text [] = ok (finalize chunks current_chunk_text)
    chunk_sections chunks current_chunk_text (section ∷ rest) = encode section >>= λ section_tokens.
        elim (ltb target_tokens (length section_tokens)) [
          | Bool.true ↦
              split_large_section target_tokens overlap_tokens section >>= λ section_chunks.
              chunk_sections (append_chunks (finalize chunks current_chunk_text) section_chunks)
                (left_behind current_chunk_text) rest
          | Bool.false ↦ exceeds current_chunk_text section >>= λ over. elim over [
            | Bool.true ↦ next_chunk_text current_chunk_text section >>= λ started.
                chunk_sections (append_chunk chunks current_chunk_text) started rest
            | Bool.false ↦ chunk_sections chunks (current_chunk_text ++ section) rest
          ]
        ]

    pub chunk_prose : Text → Result (List Chunk)
    unfolding chunk_sections split_into_sections
    chunk_prose body =
        if is_empty (strip body) then ok [] else chunk_sections [] [] (split_into_sections body)
