-- ===== src/Json.antt =====
-- `json.dumps(value, sort_keys=True, separators=(",", ":"))` of Python's json module, on the values
-- that payloads hold. A `datetime` object is no JSON value: `dumps` raises a TypeError on it.
pub mod Plain
use fleet_memory.Prelude.{
  ◌≡◌, refl, ℕ, zero, suc, ◌+◌, ◌-◌, ◌/◌, ◌%◌, Bool, true, false, ◌&&◌, ◌||◌, List, [], ◌∷◌, ◌++◌,
  Text, codes, ltb, leb, ◌==◌, if◌then◌else◌, join, ℤ, pos, negsuc,
}
use fleet_memory.Errors.{Result, ok, err, ◌>>=◌, type_error}

mutual
  pub data Json : Type 0 where
    null : Json
    bool : Bool → Json
    num : ℤ → Json
    -- a float, by its `repr`
    float : Text → Json
    str : Text → Json
    datetime : Text → Json
    arr : Items → Json
    obj : Fields → Json

  pub data Items : Type 0 where
    nil : Items
    cons : Json → Items → Items

  pub data Fields : Type 0 where
    end : Fields
    field : Text → Json → Fields → Fields

-- Decimal digits; the fuel is above the number of digits.
digits_from : ℕ → ℕ → Text → Text
digits_from zero n out = out
digits_from (suc fuel) n out =
    let digit = (b'0' + n % 10) in
    let rest = digits_from fuel (n / 10) (digit ∷ out) in if ltb n 10 then digit ∷ out else rest

pub decimal : ℕ → Text
unfolding digits_from
decimal n = digits_from (suc n) n []

hex_digit : ℕ → ℕ
hex_digit d = if ltb d 10 then b'0' + d else b'a' + (d - 10)

-- `\uXXXX`
unicode_escape : ℕ → Text
unfolding hex_digit
unicode_escape c =
    b'\\'
    ∷ b'u'
    ∷ hex_digit (c / 4096 % 16)
    ∷ hex_digit (c / 256 % 16)
    ∷ hex_digit (c / 16 % 16)
    ∷ hex_digit (c % 16)
    ∷ []

-- One character in a string literal, with `ensure_ascii`.
escape_char : ℕ → Text
unfolding unicode_escape
escape_char c =
    if c == b'"'
    then b'\\' ∷ b'"' ∷ []
    else if c == b'\\'
    then b'\\' ∷ b'\\' ∷ []
    else if c == 10
    then b'\\' ∷ b'n' ∷ []
    else if c == 13
    then b'\\' ∷ b'r' ∷ []
    else if c == 9
    then b'\\' ∷ b't' ∷ []
    else if c == 12
    then b'\\' ∷ b'f' ∷ []
    else if c == 8
    then b'\\' ∷ b'b' ∷ []
    else if leb 0x20 c && leb c 0x7e
    then c ∷ []
    else if ltb c 0x10000
    then unicode_escape c
    else unicode_escape (0xd800 + (c - 0x10000) / 1024)
      ++ unicode_escape (0xdc00 + (c - 0x10000) % 1024)

escape_chars : Text → Text
unfolding escape_char
escape_chars [] = []
escape_chars (c ∷ s) = escape_char c ++ escape_chars s

quote : Text → Text
unfolding escape_chars
quote s = b'"' ∷ (escape_chars s ++ (b'"' ∷ []))

-- `s <= t`, by code points
unfoldable pub text_leb : Text → Text → Bool
text_leb [] t = true
text_leb (c ∷ s) [] = false
text_leb (c ∷ s) (d ∷ t) = ltb c d || (c == d && text_leb s t)

insert_entry : Text × Text → List (Text × Text) → List (Text × Text)
unfolding text_leb
insert_entry e [] = e ∷ []
insert_entry e (f ∷ rest) = if text_leb e.0 f.0 then e ∷ f ∷ rest else f ∷ insert_entry e rest

sort_entries : List (Text × Text) → List (Text × Text)
unfolding insert_entry
sort_entries [] = []
sort_entries (e ∷ rest) = insert_entry e (sort_entries rest)

entry_texts : List (Text × Text) → List Text
unfolding quote
entry_texts [] = []
entry_texts ((key, value) ∷ rest) = (quote key ++ (b':' ∷ value)) ∷ entry_texts rest

abbrev bracketed : ℕ → List Text → ℕ → Text
bracketed open_mark parts close_mark = open_mark ∷ (join b',' parts ++ (close_mark ∷ []))

unfoldable mutual
  unfolding decimal quote sort_entries entry_texts

  pub dumps : Json → Result Text
  dumps null = ok (codes "null")
  dumps (bool true) = ok (codes "true")
  dumps (bool false) = ok (codes "false")
  dumps (num (pos n)) = ok (decimal n)
  dumps (num (negsuc n)) = ok (b'-' ∷ decimal (suc n))
  dumps (float shown) = ok shown
  dumps (str s) = ok (quote s)
  dumps (datetime shown) = err type_error
  dumps (arr xs) = do parts ← dumps_items xs; ok (bracketed b'[' parts b']')
  dumps (obj fs) = do
    entries ← dumps_fields fs
    ok (bracketed b'{' (entry_texts (sort_entries entries)) b'}')

  pub dumps_items : Items → Result (List Text)
  dumps_items nil = ok []
  dumps_items (cons x xs) = do shown ← dumps x; rest ← dumps_items xs; ok (shown ∷ rest)

  pub dumps_fields : Fields → Result (List (Text × Text))
  dumps_fields end = ok []
  dumps_fields (field key x fs) = do
    shown ← dumps x
    rest ← dumps_fields fs
    ok ((key, shown) ∷ rest)

-- A test by evaluation: keys are sorted, and characters outside ASCII escaped.
dumps_sorted :
    dumps
      (obj (field (codes "b") (num (negsuc 11)) (field (codes "a") (str (0x1f600 ∷ 10 ∷ [])) end)))
    ≡ ok (codes "{\"a\":\"\\ud83d\\ude00\\n\",\"b\":-12}")
unfolding dumps
dumps_sorted = refl
