-- ===== src/Retrieval/Assembly.antt =====
-- retrieval/assembly.py: `assemble_context`. The token counter (tiktoken's encoding) and the
-- division of floats are parameters.
pub mod Budget
use fleet_memory.Prelude.{
  ℕ, Bool, List, [], ◌∷◌, ◌++◌, Option, none, some, Text, text_mem, if◌then◌else◌, is_empty, ℤ, pos,
  negsuc, nat_leb_int, leb, ◌==◌,
}
use fleet_memory.Retrieval.Item.{SearchItem, or_blank, extract_payload_type}

pub record AssemblyResult (Score : Type 0) : Type 0 where
  pub context_block : Text
  pub coverage_score : Score
  pub contributing_types : List Text
  pub tokens_used : ℕ

-- `set.add`, on a list without repetition
abbrev set_add : Text → List Text → List Text
set_add t ts = if text_mem t ts then ts else ts ++ (t ∷ [])

-- `if payload_type: contributing_types.add(payload_type)`
abbrev add_if_some : Option Text → List Text → List Text
add_if_some none ts = ts
add_if_some (some t) ts = if is_empty t then ts else set_add t ts

-- `token_budget == 0` and `token_budget > 0`
abbrev is_zero : ℤ → Bool
is_zero (pos n) = n == 0
is_zero (negsuc n) = Bool.false

abbrev is_positive : ℤ → Bool
is_positive (pos n) = leb 1 n
is_positive (negsuc n) = Bool.false

abbrev pub extend_block : Text → Text → Text
extend_block current_block content =
    if is_empty current_block then content else current_block ++ (10 ∷ 10 ∷ content)

module _ {Score : Type 0} where
  abbrev pub content_of : SearchItem Score → Text
  content_of item = or_blank item.value.content

  pub contributing_types : List Text → List (SearchItem Score) → List Text
  contributing_types types [] = types
  contributing_types types (item ∷ rest) =
      contributing_types
        (add_if_some (extract_payload_type (or_blank item.value.natural_key)) types) rest

module _ {Score : Type 0} (tokens : Text → ℕ) where
  -- The loop over the items: the block and the items that are in it.
  pub pack :
      ℤ → Text → List (SearchItem Score) → List (SearchItem Score) → Text × List (SearchItem Score)
  pack token_budget current_block included [] = (current_block, included)
  pack token_budget current_block included (item ∷ rest) =
      let skipped = pack token_budget current_block included rest in
      let candidate_block = extend_block current_block (content_of item) in
      let accepted = pack token_budget candidate_block (included ++ (item ∷ [])) rest in
      if is_empty (content_of item)
      then skipped
      else if nat_leb_int (tokens candidate_block) token_budget
      then accepted
      else skipped

abbrev pub measure : (Text → ℕ) → Text → ℕ
measure tokens current_block = if is_empty current_block then 0 else tokens current_block

module _ {Score : Type 0} (zero_score : Score) (divide : ℕ → ℤ → Score) (tokens : Text → ℕ) where
  abbrev pub empty_result : AssemblyResult Score
  empty_result = record {
    context_block = [];
    coverage_score = zero_score;
    contributing_types = [];
    tokens_used = 0;
  }

  pub finish : ℤ → Text × List (SearchItem Score) → AssemblyResult Score
  unfolding contributing_types
  finish token_budget (current_block, included) = record {
    context_block = current_block;
    coverage_score =
        if is_positive token_budget
        then divide (measure tokens current_block) token_budget
        else zero_score;
    contributing_types = contributing_types [] included;
    tokens_used = measure tokens current_block;
  }

  pub assemble_context : List (SearchItem Score) → ℤ → AssemblyResult Score
  unfolding pack finish
  assemble_context ranked_results token_budget =
      if is_zero token_budget
      then empty_result
      else if is_empty ranked_results
      then empty_result
      else finish token_budget (pack tokens token_budget [] [] ranked_results)
