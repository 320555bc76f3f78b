-- ===== src/Relay/Chunker/Windows.antt =====
-- The windows over the tokens of a large section.
use fleet_memory.Prelude.{
  ℕ, zero, suc, ◌+◌, ◌-◌, ◌<◌, ◌≤◌, min, ◌≡◌, refl, sym, ap, ◌∙◌, true, false, List, [], ◌∷◌, ◌++◌,
  none, some, ltb, leb, if◌then◌else◌, length, take, drop, All, Bool-cases, inl, inr, arith,
  length-take, length-drop, take_all, drop-drop, take-append-drop, append-nil, drop_nil,
}
use fleet_memory.Relay.Chunker.{windows}

-- The windows behind the first, less what each shares with the one before it.
abbrev stitch_rest : ℕ → List (List ℕ) → List ℕ
stitch_rest overlap_tokens [] = []
stitch_rest overlap_tokens (w ∷ ws) = drop overlap_tokens w ++ stitch_rest overlap_tokens ws

abbrev pub stitch : ℕ → List (List ℕ) → List ℕ
stitch overlap_tokens [] = []
stitch overlap_tokens (w ∷ ws) = w ++ stitch_rest overlap_tokens ws

drop_all : (n : ℕ) (xs : List ℕ) → length xs ≤ n → drop n xs ≡ []
drop_all zero [] h = refl
drop_all zero (x ∷ xs) h = absurd (omega arith)
drop_all (suc n) [] h = refl
drop_all (suc n) (x ∷ xs) h = drop_all n xs (omega arith)

drop-append : (n : ℕ) (xs ys : List ℕ) → n ≤ length xs → drop n (xs ++ ys) ≡ drop n xs ++ ys
drop-append zero xs ys h = refl
drop-append (suc n) [] ys h = absurd (omega arith)
drop-append (suc n) (x ∷ xs) ys h = drop-append n xs ys (omega arith)

module _ (target_tokens overlap_tokens : ℕ) (tokens : List ℕ)
    (less : overlap_tokens < target_tokens) where
  -- The windows from a start hold all tokens from there, none above the target.
  record Covers (start : ℕ) (ws : List (List ℕ)) : Type 0 where
    pub within : All (λ w. length w ≤ target_tokens) ws
    pub whole : stitch overlap_tokens ws ≡ drop start tokens
    pub rest : stitch_rest overlap_tokens ws ≡ drop overlap_tokens (drop start tokens)

  windows_more :
      (fuel start : ℕ) (ws : List (List ℕ))
      → start + target_tokens < length tokens
      → windows fuel target_tokens overlap_tokens tokens (start + (target_tokens - overlap_tokens))
        ≡ some ws
      → windows (suc fuel) target_tokens overlap_tokens tokens start
        ≡ some (take target_tokens (drop start tokens) ∷ ws)
  unfolding windows
  windows_more fuel start ws reach run =
      let inside : ltb start (length tokens) ≡ true = ground arith in
      let more : leb (length tokens) (min (start + target_tokens) (length tokens)) ≡ false =
        ground arith in
      let size : min (start + target_tokens) (length tokens) - start ≡ target_tokens =
        omega arith in
      let moved : (if ltb 0 overlap_tokens
            then min (start + target_tokens) (length tokens) - overlap_tokens
            else min (start + target_tokens) (length tokens))
          ≡ start + (target_tokens - overlap_tokens) =
        ground arith in
      rw (inside, more, moved, run, size, windows) refl

  windows_lem :
      (fuel start : ℕ)
      → length tokens - start < fuel
      → (ws : List (List ℕ)) × (windows fuel target_tokens overlap_tokens tokens start ≡ some ws)
        × Covers start ws
  unfolding windows
  windows_lem zero start h = absurd (omega arith)
  windows_lem (suc fuel) start h = elim (Bool-cases (ltb start (length tokens))) [
    | inr past ↦
        let empty : drop start tokens ≡ [] = drop_all start tokens (ground arith) in
        (
          [],
          rw (past, windows) refl,
          record {
            within = tt;
            whole = sym empty;
            rest = rw empty (sym (drop_nil overlap_tokens));
          },
        )
    | inl inside ↦
        elim (Bool-cases (leb (length tokens) (min (start + target_tokens) (length tokens)))) [
          | inl final ↦
              let size : min (start + target_tokens) (length tokens) - start
                  ≡ length tokens - start =
                ground arith in
              let short : length (drop start tokens) ≤ target_tokens =
                ground (arith, length-drop start tokens) in
              let all : take (length tokens - start) (drop start tokens) ≡ drop start tokens =
                take_all (length tokens - start) (drop start tokens)
                  (omega (arith, length-drop start tokens)) in
              (
                drop start tokens ∷ [],
                rw (inside, final, size, all, windows) refl,
                record {
                  within = (short, tt);
                  whole = append-nil (drop start tokens);
                  rest = append-nil (drop overlap_tokens (drop start tokens));
                },
              )
          | inr more ↦
              let reach : start + target_tokens < length tokens = ground arith in
              let next = start + (target_tokens - overlap_tokens) in
              let (ws, run, later) = windows_lem fuel next (omega (arith, reach)) in
              let section = drop start tokens in
              let window = take target_tokens section in
              let wide : length window ≡ target_tokens =
                omega (arith, length-take target_tokens section, length-drop start tokens, reach) in
              let back : drop overlap_tokens (drop next tokens) ≡ drop target_tokens section =
                drop-drop overlap_tokens next tokens
                ∙ ap (λ n. drop n tokens) (omega arith)
                ∙ sym (drop-drop target_tokens start tokens) in
              (
                window ∷ ws,
                windows_more fuel start ws reach run,
                record {
                  within = (omega (arith, wide), later.within);
                  whole =
                      ap (λ l. window ++ l) (later.rest ∙ back)
                      ∙ take-append-drop target_tokens section;
                  rest =
                      ap (λ l. drop overlap_tokens window ++ l) (later.rest ∙ back)
                      ∙ sym (
                          drop-append overlap_tokens window (drop target_tokens section)
                            (omega (arith, wide)))
                      ∙ ap (drop overlap_tokens) (take-append-drop target_tokens section);
                },
              )
        ]
  ]

  -- Where the overlap is below the target, the loop ends; its windows are within the target, and
  -- the first with the others, each less the tokens it shares with the one before, is the section.
  pub windows-Covers :
      (ws : List (List ℕ)) × (windows (suc (length tokens)) target_tokens overlap_tokens tokens 0
        ≡ some ws)
      × All (λ w. length w ≤ target_tokens) ws
      × (stitch overlap_tokens ws ≡ tokens)
  windows-Covers =
      let (ws, run, covers) = windows_lem (suc (length tokens)) 0 (omega arith) in
      (ws, run, covers.within, covers.whole)

-- Where the overlap is the whole target, as for the ratio 1, the loop over a section above the
-- target never ends: no number of rounds is enough.
pub windows_diverge :
    (target_tokens : ℕ) (tokens : List ℕ)
    → 0 < target_tokens
    → target_tokens < length tokens
    → (fuel : ℕ) → windows fuel target_tokens target_tokens tokens 0 ≡ none
unfolding windows
windows_diverge target_tokens tokens positive large zero = refl
windows_diverge target_tokens tokens positive large (suc fuel) =
    let inside : ltb 0 (length tokens) ≡ true = ground arith in
    let more : leb (length tokens) (min (0 + target_tokens) (length tokens)) ≡ false =
      ground arith in
    let moved : (if ltb 0 target_tokens
          then min (0 + target_tokens) (length tokens) - target_tokens
          else min (0 + target_tokens) (length tokens))
        ≡ 0 =
      ground arith in
    rw (inside, more, moved, windows_diverge target_tokens tokens positive large fuel, windows) refl
