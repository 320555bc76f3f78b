-- ===== src/Store.antt =====
-- store.py: namespaces and their validation; the records that are stored, and what the code uses of
-- the store (langgraph's `AsyncPostgresStore`), which is a parameter.
pub mod Value
pub mod Api
pub mod Memory
use fleet_memory.Prelude.{not, List, Text, filter, is_empty, if◌then◌else◌}
use fleet_memory.Errors.{Result, ok, err, namespace_validation}
use fleet_memory.Payloads.Norm.{is_namespace_part}

abbrev Namespace : Type 0
Namespace = List Text

unfoldable pub validate_namespace : Namespace → Result (Unit {0})
validate_namespace namespace =
    let invalid_parts = filter (λ part. not (is_namespace_part part)) namespace in
    if is_empty invalid_parts then ok tt else err (namespace_validation invalid_parts)
