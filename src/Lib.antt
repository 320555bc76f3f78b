-- ===== src/Lib.antt =====
-- fleet-memory: a model of the memory service (src/fleet_memory) and the theorems about it.
--
-- The program stores typed payloads and prose chunks in a vector store and finds them again. A
-- producer publishes an episode on a message stream. The relay's handler gives it to the relay's
-- service, which either reads it as a typed payload and hands that to the deterministic writer, or
-- cuts it into chunks and hands those to the chunk writer; both writers put records in the store.
-- A reindexing run publishes the completed tasks of a corpus as such episodes, and its audit finds
-- each of them in the store or on the dead-letter queue.
-- A reader builds a search request, searches the store, and assembles the ranked items into a
-- context block within a token budget.
--
-- Files, and the code they model:
--   Payloads        src/fleet_memory/payloads: Norm (norm.py), Models and BackwardEdge (models.py,
--                   backward_edge.py: the fields of every class and the validators), Base (base.py:
--                   `construct` is `BasePayload.__init__`, `natural_key` the computed field),
--                   Registry (registry.py)
--   Errors, Json    errors.py, the exceptions as constructors and the results of code that may
--                   raise; `json.dumps` with sorted keys
--   Store           store.py: `validate_namespace`; the records that are stored (Value); the store
--                   (langgraph's AsyncPostgresStore) as a parameter: StoreApi has its operations,
--                   StoreLaws what is documented of them, Memory a store that has these laws
--   Exec            methods that read and write the store and may raise: a function from a state
--                   to a result and a state, which keeps what was written before a raise
--   Writer          src/fleet_memory/writer: Identity (identity.py), Supersession
--                   (supersession.py), Core (core.py: `write`, `write_batch`, `upsert` for steps 5
--                   and 6 of `write`, `write_record` for `_write_record`)
--   Retrieval       src/fleet_memory/retrieval: Request (search_request.py), RoleScope
--                   (role_scope.py), Search with its Filters and Order (core.py), Assembly
--                   (assembly.py), Composition (composition.py)
--   Relay           src/fleet_memory/relay: Schema, Chunker, ChunkWriter, Service, Handler (the
--                   files of the same names)
--   Reindex         src/fleet_memory/reindex: Manifest (manifest.py), Classify, Parsers with its
--                   Lessons, Audit and Publisher (the files of these names), Walk, Collisions and
--                   Pipeline (pipeline.py)
--   Fence           src/fleet_memory/fence: Verdict (__init__.py), Ack, Marker, Builds, StoreAge (the
--                   files of these names), Report and Check (check.py), Run (report.py and
--                   `main`), Time and Files (what reads of instants and files can come to)
--   Embed           src/fleet_memory/embed.py: Response reads one answer, the root packs and retries
--   Chronicler      src/fleet_memory/chronicler: Episode, Rows and Harvest (harvest.py), Sink
--                   (sink.py), Source (store_source.py and run.py)
-- The modules below a component prove what their names say; Tests modules hold runs on concrete
-- inputs. Prelude has the shared names: tests on numbers, lists with native lengths, texts.
--
-- Texts are lists of code points. Python's floats and timestamps are kept as the texts of the wire
-- where the code only stores them; the float operations that the code computes with (a coverage
-- ratio, an overlap, the order of scores) are parameters.
--
-- Parameters, code that is not in the repository: SHA-256 and UUIDv5 (Digests), the store and its
-- search, `json.loads`, `yaml.safe_load`, pydantic's reading of keyword arguments, the tokenizer, the broker's
-- `publish` and the delivery count of a message. A theorem that relies on what is documented of one
-- has it as a hypothesis. The tokenizer and the reading of a directory's stamp may raise.
--
-- A loop of the model that is out of rounds has the outcome `endless`, which no handler catches.
-- Fuel: `scan_pages` (the forward search for a successor) has one round more than the namespace has
-- records, each round but the last reads a page of 100
-- (`forward_supersession_total`: it is never out of rounds in a store of the documented behaviour);
-- `scan` (the filtered search) has one round
-- more than the bound of 1024 items, each round but the last reads one item at least; `windows` has
-- one round more than the section has tokens, each round but the last moves by one token at least
-- if the overlap is below the target, and if it is not, the loop of the code does not end either.
-- `decimal` has one round more than the number, which has fewer digits.
--
-- Not modelled: retrieval/probe_harness.py, the file walk, the connection of the publisher,
-- parity report, backfill and command line of reindex, the packages fixture and mcp, settings.py and
-- app.py (wiring), logging, the time limit of the search except as an error of the store, and scripts.
mod Prelude
pub mod Errors
pub mod Json
pub mod Exec
pub mod Store
pub mod Payloads
pub mod Writer
pub mod Retrieval
pub mod Relay
pub mod Reindex
pub mod Fence
pub mod Embed
pub mod Chronicler
