-- ===== src/Fence/Time.antt =====
-- The instants of the fence, its ages in words (`humanise_age` and `_limit_phrase` of
-- fence/check.py), and the timestamps of the marker (`_parse_iso` of fence/marker.py).
use fleet_memory.Prelude.{
  ℕ, ◌-◌, ◌*◌, ◌/◌, ◌%◌, Option, none, some, Text, codes, ltb, leb, ◌==◌, ◌&&◌, ◌++◌, [], ◌∷◌,
  if◌then◌else◌,
}
use fleet_memory.Json.{Json, str, decimal}
use fleet_memory.Errors.{Result, ok, err, other}

-- Microseconds since the first instant that `datetime` has, in UTC.
abbrev pub Instant : Type 0
Instant = ℕ

abbrev pub second : ℕ
second = 1000000

abbrev pub minute : ℕ
minute = 60 * second

abbrev pub hour : ℕ
hour = 60 * minute

-- A length of time in words, from its seconds. Ages below zero show as zero.
unfoldable pub humanise_seconds : ℕ → Text
humanise_seconds seconds =
    let minutes = seconds / 60 in
    let hours = minutes / 60 in
    if ltb seconds 90
    then codes "less than 2 minutes"
    else if ltb minutes 90
    then decimal minutes ++ codes " minutes"
    else if ltb hours 48
    then decimal hours ++ codes " hours"
    else decimal (hours / 24) ++ codes " days"

-- The age of an instant, `humanise_age(now - t)`.
unfoldable pub humanise_age : Instant → Instant → Text
unfolding humanise_seconds
humanise_age now t = humanise_seconds ((now - t) / second)

unfoldable pub limit_phrase : ℕ → Text
limit_phrase hours =
    if hours % 24 == 0 && leb 24 hours
    then (if hours / 24 == 1
        then decimal (hours / 24) ++ codes " day"
        else decimal (hours / 24) ++ codes " days")
    else if hours == 1
    then decimal hours ++ codes " hour"
    else decimal hours ++ codes " hours"

unfoldable pub window_phrase : ℕ → Text
window_phrase hours =
    if hours % 24 == 0
    then decimal (hours / 24) ++ codes " days"
    else decimal hours ++ codes " hours"

-- What `datetime.fromisoformat` and the conversion to UTC make of a text.
pub data IsoRead : Type 0 where
  not_iso : IsoRead
  -- a timestamp that has no instant in UTC: an OverflowError
  out_of_range : IsoRead
  instant : Instant → IsoRead

-- `datetime`'s reading of a timestamp, and the text that `strftime` makes of an instant, without
-- the "Z".
pub record Iso : Type 0 where
  pub from_iso : Text → IsoRead
  pub show : Instant → Text

-- `value.replace("Z", "+00:00")`
unfoldable pub replace_z : Text → Text
replace_z [] = []
replace_z (c ∷ s) = if c == b'Z' then codes "+00:00" ++ replace_z s else c ∷ replace_z s

module _ (iso : Iso) where
  -- `_iso_or_none` of an instant, and `_now_iso` of the present
  abbrev pub shown_iso : Instant → Text
  shown_iso t = iso.show t ++ codes "Z"

  abbrev pub from_read : IsoRead → Result (Option Instant)
  from_read not_iso = ok none
  from_read out_of_range = err other
  from_read (instant t) = ok (some t)

  unfoldable pub parse_iso : Option Json → Result (Option Instant)
  unfolding replace_z
  parse_iso (some (str [])) = ok none
  parse_iso (some (str (c ∷ s))) = from_read (iso.from_iso (replace_z (c ∷ s)))
  parse_iso _ = ok none
