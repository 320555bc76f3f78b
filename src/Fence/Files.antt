-- ===== src/Fence/Files.antt =====
-- What reading a JSON file of the fence can come to.
use fleet_memory.Prelude.{Option, none, some, Text, text_eq, if◌then◌else◌}
use fleet_memory.Json.{Json, Fields, end, field}

-- `path.read_text(encoding="utf-8")`, and `json.loads` of the text
pub data FileRead : Type 0 where
  -- `FileNotFoundError`
  not_found : FileRead
  -- another `OSError`, by the name of its class
  os_error : Text → FileRead
  -- `UnicodeDecodeError`, which is a `ValueError` and no `OSError`
  undecodable : FileRead
  -- the value of the text, `none` where `json.loads` raises a `ValueError`
  contents : Option Json → FileRead

-- `data.get(key)`
unfoldable pub get : Text → Fields → Option Json
get key end = none
get key (field name value rest) = if text_eq name key then some value else get key rest
