-- ===== src/Fence/StoreAge.antt =====
-- fence/store_age.py: the freshness of the store, read in one session. The connection is a parameter,
-- as its answers: a query gives a row or raises.
pub mod Like
use fleet_memory.Prelude.{
  ℕ, Bool, true, false, List, [], ◌∷◌, ◌++◌, Option, none, some, Text, codes, ◌==◌, if◌then◌else◌,
}
use fleet_memory.Errors.{Error, Result, ok, err, ◌>>=◌}
use fleet_memory.Fence.Time.{Instant}
use fleet_memory.Fence.Verdict.{Problem, cannot_reach_store, store_not_queried}

pub record ProjectFacts : Type 0 where
  pub project : Text
  pub newest_updated_at : Option Instant
  pub newest_created_at : Option Instant
  pub row_count : ℕ

pub record StoreFacts : Type 0 where
  pub target : Text
  pub reachable : Bool
  pub newest_updated_at : Option Instant
  pub newest_created_at : Option Instant
  pub row_count : ℕ
  pub per_project : List ProjectFacts
  pub problem : Option Problem

abbrev pub backslash : ℕ
backslash = b'\\'

-- `s.replace(c, "\\" + c)`
unfoldable pub replace_char : ℕ → Text → Text
replace_char c [] = []
replace_char c (d ∷ s) = if d == c then backslash ∷ d ∷ replace_char c s else d ∷ replace_char c s

abbrev pub exact_prefix : Text → Text
exact_prefix project = codes "fleet_memory." ++ project

-- `project_patterns`
unfoldable pub project_patterns : Text → Text × Text
unfolding replace_char
project_patterns project =
    let exact = exact_prefix project in
    let escaped = replace_char b'%' (replace_char b'_' (replace_char backslash exact)) in
    (exact, escaped ++ codes ".%")

-- A row of the aggregate queries: two timestamps and a count.
pub record AgeRow : Type 0 where
  pub updated : Option Instant
  pub created : Option Instant
  pub rows : ℕ

-- An open connection: whether a statement of the session is accepted, and the rows of the queries.
pub record Connection : Type 0 where
  pub execute : Text → Result (Unit {0})
  pub store_age : Result (Option AgeRow)
  pub project_age : Text × Text → Result (Option AgeRow)

abbrev read_only_session_sql : List Text
read_only_session_sql =
    codes "SET TRANSACTION READ ONLY"
    ∷ codes "SET default_transaction_read_only = on"
    ∷ codes "SET TIME ZONE 'UTC'"
    ∷ []

abbrev execute_all : (Text → Result (Unit {0})) → List Text → Result (Unit {0})
execute_all execute [] = ok tt
execute_all execute (statement ∷ rest) = execute statement >>= λ _. execute_all execute rest

abbrev row_or_empty : Option AgeRow → AgeRow
row_or_empty none = record { updated = none; created = none; rows = 0 }
row_or_empty (some row) = row

abbrev read_projects : Connection → List Text → Result (List ProjectFacts)
read_projects c [] = ok []
read_projects c (project ∷ rest) = do
  prow ← c.project_age (project_patterns project)
  let row = row_or_empty prow
  facts ← read_projects c rest
  ok (
      record {
        project = project;
        newest_updated_at = row.updated;
        newest_created_at = row.created;
        row_count = row.rows;
      }
      ∷ facts)

-- The body of the `try`.
query_store : Text → List Text → Connection → Result StoreFacts
unfolding project_patterns
query_store target projects c = do
  done ← execute_all c.execute read_only_session_sql
  found ← c.store_age
  let row = row_or_empty found
  per_project ← read_projects c projects
  ok (record {
    target = target;
    reachable = true;
    newest_updated_at = row.updated;
    newest_created_at = row.created;
    row_count = row.rows;
    per_project = per_project;
    problem = none;
  })

abbrev unreached : Text → Problem → StoreFacts
unreached target problem = record {
  target = target;
  reachable = false;
  newest_updated_at = none;
  newest_created_at = none;
  row_count = 0;
  per_project = [];
  problem = some problem;
}

-- `scrub` gives the scrubbed text of an exception, or the name of its class.
module _ (scrub : Error → Text) (target : Text) (projects : List Text) where
  abbrev caught : Result StoreFacts → StoreFacts
  caught (ok facts) = facts
  caught (err e) = unreached target (store_not_queried (scrub e))

  unfoldable pub read_store_facts : Result Connection → StoreFacts
  unfolding query_store
  read_store_facts (err e) = unreached target (cannot_reach_store (scrub e))
  read_store_facts (ok c) = caught (query_store target projects c)
