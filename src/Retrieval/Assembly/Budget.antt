-- ===== src/Retrieval/Assembly/Budget.antt =====
-- The assembled block: within the budget, made of the items in their order, and not stopped by an item that is too large.
use fleet_memory.Prelude.{
  zero, suc, ℕ, ◌≤◌, ◌≡◌, refl, sym, ap, ◌∙◌, true, false, List, [], ◌∷◌, ◌++◌, Text, is_empty, ℤ,
  pos, arith, append-nil, append_assoc, Bool-cases, inl, inr, leb, leb→le, ◌==◌,
}
use fleet_memory.Retrieval.Item.{SearchItem}
use fleet_memory.Retrieval.Assembly.{
  AssemblyResult, content_of, extend_block, pack, finish, assemble_context, measure,
  contributing_types, empty_result,
}

-- The list is another one less some of its items.
pub data Sublist {A : Type 0} : List A → List A → Type 0 where
  nothing : Sublist [] []
  keep : {x : A} {xs ys : List A} → Sublist xs ys → Sublist (x ∷ xs) (x ∷ ys)
  leave : {y : A} {xs ys : List A} → Sublist xs ys → Sublist xs (y ∷ ys)

module _ {Score : Type 0} where
  -- The block that some items extend a block to.
  abbrev block_of : Text → List (SearchItem Score) → Text
  block_of block [] = block
  block_of block (item ∷ rest) = block_of (extend_block block (content_of item)) rest

fitting_measure :
    (tokens : Text → ℕ) (block : Text) (budget : ℕ)
    → leb (tokens block) budget ≡ true
    → measure tokens block ≤ budget
fitting_measure tokens [] budget h = omega arith
fitting_measure tokens (c ∷ block) budget h = leb→le _ _ h

suc_is_not_zero : (n : ℕ) → (suc n == 0) ≡ false
suc_is_not_zero n = ground arith

module _ {Score : Type 0} (tokens : Text → ℕ) where
  -- What the loop adds to a block: some of the items, in their order, as far as the budget allows.
  record Packed (budget : ℕ) (block : Text) (included results : List (SearchItem Score))
      (packed : Text × List (SearchItem Score)) : Type 0 where
    pub chosen : List (SearchItem Score)
    pub in_order : Sublist chosen results
    pub items : packed.1 ≡ included ++ chosen
    pub text : packed.0 ≡ block_of block chosen
    pub fits : measure tokens block ≤ budget → measure tokens packed.0 ≤ budget

  left_out :
      (budget : ℕ) (block : Text) (included : List (SearchItem Score)) (item : SearchItem Score)
      (rest : List (SearchItem Score)) (packed : Text × List (SearchItem Score))
      → Packed budget block included rest packed
      → Packed budget block included (item ∷ rest) packed
  left_out budget block included item rest packed later = record {
    chosen = later.chosen;
    in_order = leave later.in_order;
    items = later.items;
    text = later.text;
    fits = later.fits;
  }

  pack-Packed :
      (budget : ℕ) (block : Text) (included results : List (SearchItem Score))
      → Packed budget block included results (pack tokens (pos budget) block included results)
  unfolding pack
  pack-Packed budget block included [] = record {
    chosen = [];
    in_order = nothing;
    items = sym (append-nil included);
    text = refl;
    fits = λ h. h;
  }
  pack-Packed budget block included (item ∷ rest) =
      let candidate = extend_block block (content_of item) in
      let skipped =
        left_out budget block included item rest _ (pack-Packed budget block included rest) in
      elim (Bool-cases (is_empty (content_of item))) [
        | inl blank ↦ rw blank skipped
        | inr content ↦ elim (Bool-cases (leb (tokens candidate) budget)) [
          | inl fitting ↦
              let later = pack-Packed budget candidate (included ++ (item ∷ [])) rest in
              rw (content, fitting)
                (record {
                  chosen = item ∷ later.chosen;
                  in_order = keep later.in_order;
                  items = later.items ∙ append_assoc included (item ∷ []) later.chosen;
                  text = later.text;
                  fits = λ h. later.fits (fitting_measure tokens candidate budget fitting);
                })
          | inr too_large ↦ rw (content, too_large) skipped
        ]
      ]

  -- The item fits behind no block.
  abbrev pub IsOversized : ℕ → SearchItem Score → Type 0
  IsOversized budget item =
      (block : Text) → leb (tokens (extend_block block (content_of item))) budget ≡ false

  pack_oversized :
      (budget : ℕ) (item : SearchItem Score)
      → IsOversized budget item
      → (block : Text) (included xs ys : List (SearchItem Score))
      → pack tokens (pos budget) block included (xs ++ (item ∷ ys))
        ≡ pack tokens (pos budget) block included (xs ++ ys)
  unfolding pack
  pack_oversized budget item large block included [] ys = rw (large block) (ground arith)
  pack_oversized budget item large block included (x ∷ xs) ys =
      rw
        (
          pack_oversized budget item large block included xs ys,
          pack_oversized budget item large (extend_block block (content_of x))
              (included ++ (x ∷ [])) xs ys,
        )
        refl

module _ {Score : Type 0} (zero_score : Score) (divide : ℕ → ℤ → Score) (tokens : Text → ℕ) where
  -- The result is made of some of the ranked items, and respects the budget.
  pub record IsAssembled (budget : ℕ) (results : List (SearchItem Score)) (r : AssemblyResult Score)
      : Type 0 where
    pub chosen : List (SearchItem Score)
    pub in_order : Sublist chosen results
    pub block : r.context_block ≡ block_of [] chosen
    pub types : r.contributing_types ≡ contributing_types [] chosen
    pub counted : r.tokens_used ≡ measure tokens r.context_block
    pub within : r.tokens_used ≤ budget

  nothing_of : (results : List (SearchItem Score)) → Sublist [] results
  nothing_of [] = nothing
  nothing_of (x ∷ xs) = leave (nothing_of xs)

  nothing-IsAssembled :
      (budget : ℕ) (results : List (SearchItem Score))
      → IsAssembled budget results (empty_result zero_score divide tokens)
  unfolding contributing_types
  nothing-IsAssembled budget results = record {
    chosen = [];
    in_order = nothing_of results;
    block = refl;
    types = refl;
    counted = refl;
    within = omega arith;
  }

  finish-IsAssembled :
      (budget : ℕ) (results : List (SearchItem Score)) (packed : Text × List (SearchItem Score))
      → Packed tokens budget [] [] results packed
      → IsAssembled budget results (finish zero_score divide tokens (pos budget) packed)
  unfolding finish
  finish-IsAssembled budget results packed p = record {
    chosen = p.chosen;
    in_order = p.in_order;
    block = p.text;
    types = ap (contributing_types []) p.items;
    counted = refl;
    within = p.fits (omega arith);
  }

  -- The assembled block is made of some of the ranked items in their order, its types are theirs,
  -- and its token count, which is the one of the whole block, is within the budget.
  pub assemble_context-IsAssembled :
      (results : List (SearchItem Score)) (budget : ℕ)
      → IsAssembled budget results (assemble_context zero_score divide tokens results (pos budget))
  unfolding assemble_context
  assemble_context-IsAssembled [] budget = ground (arith, nothing-IsAssembled budget [])
  assemble_context-IsAssembled (x ∷ xs) zero = nothing-IsAssembled 0 (x ∷ xs)
  assemble_context-IsAssembled (x ∷ xs) (suc n) =
      rw (suc_is_not_zero n)
        (finish-IsAssembled (suc n) (x ∷ xs) _ (pack-Packed tokens (suc n) [] [] (x ∷ xs)))

  block_of_assembly :
      (n : ℕ) (results : List (SearchItem Score))
      → (assemble_context zero_score divide tokens results (pos (suc n))).context_block
        ≡ (pack tokens (pos (suc n)) [] [] results).0
  unfolding assemble_context finish pack
  block_of_assembly n [] = rw (suc_is_not_zero n) refl
  block_of_assembly n (x ∷ xs) = rw (suc_is_not_zero n) refl

  -- An item that fits behind no block, wherever it is ranked, changes nothing in the block.
  pub assemble_context_oversized :
      (budget : ℕ) (item : SearchItem Score) (xs ys : List (SearchItem Score))
      → IsOversized tokens budget item
      → (assemble_context zero_score divide tokens (xs ++ (item ∷ ys)) (pos budget)).context_block
        ≡ (assemble_context zero_score divide tokens (xs ++ ys) (pos budget)).context_block
  unfolding assemble_context
  assemble_context_oversized zero item xs ys large = refl
  assemble_context_oversized (suc n) item xs ys large =
      block_of_assembly n (xs ++ (item ∷ ys))
      ∙ ap (λ p. p.0) (pack_oversized tokens (suc n) item large [] [] xs ys)
      ∙ sym (block_of_assembly n (xs ++ ys))
