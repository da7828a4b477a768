-- ===== src/Memory/Uri.antt =====
-- `encodeURIComponent` and `decodeURIComponent`, as memory/memory-reference.js uses them. `none` is a
-- URIError.
use tavern_mnemosyne.Prelude.{
  ℕ, zero, suc, ◌+◌, ◌-◌, ◌*◌, ◌/◌, ◌%◌, Bool, true, false, ◌&&◌, ◌||◌, List, [], ◌∷◌, ◌++◌, ltb,
  leb, nat_eq, if◌then◌else◌, Text, codes, any, Option, none, some,
}
use tavern_mnemosyne.Prelude.Options.{◌>>=◌}
use tavern_mnemosyne.Contracts.Json.{is_high_surrogate, is_low_surrogate}

unfoldable pub is_unreserved : ℕ → Bool
unfolding any
is_unreserved c =
    (leb b'A' c && leb c b'Z')
    || ((leb b'a' c && leb c b'z')
        || ((leb b'0' c && leb c b'9') || any (nat_eq c) (codes "-_.!~*'()")))

hex_upper : ℕ → ℕ
hex_upper n = if ltb n 10 then n + 48 else n + 55

percent : ℕ → Text
unfolding hex_upper
percent byte = b'%' ∷ hex_upper (byte / 16) ∷ hex_upper (byte % 16) ∷ []

-- The bytes of a code point in UTF-8.
unfoldable pub utf8_bytes : ℕ → List ℕ
utf8_bytes c =
    if ltb c 0x80
    then c ∷ []
    else if ltb c 0x800
    then (0xc0 + c / 64) ∷ (0x80 + c % 64) ∷ []
    else if ltb c 0x10000
    then (0xe0 + c / 4096) ∷ (0x80 + c / 64 % 64) ∷ (0x80 + c % 64) ∷ []
    else (0xf0 + c / 262144) ∷ (0x80 + c / 4096 % 64) ∷ (0x80 + c / 64 % 64) ∷ (0x80 + c % 64) ∷ []

percent_all : List ℕ → Text
unfolding percent
percent_all [] = []
percent_all (byte ∷ bytes) = percent byte ++ percent_all bytes

-- `high` is the first half of a pair that waits for its second.
encode_units : Option ℕ → Text → Option Text
unfolding percent_all utf8_bytes
encode_units none [] = some []
encode_units (some high) [] = none
encode_units (some high) (c ∷ s) = do
  rest ← encode_units none s
  if is_low_surrogate c
      then some (percent_all (utf8_bytes (0x10000 + (high - 0xd800) * 1024 + (c - 0xdc00))) ++ rest)
      else none
encode_units none (c ∷ s) = do
  rest ← encode_units (if is_high_surrogate c then some c else none) s
  if is_high_surrogate c
      then some rest
      else if is_low_surrogate c
      then none
      else some ((if is_unreserved c then c ∷ [] else percent_all (utf8_bytes c)) ++ rest)

unfoldable pub encode_uri_component : Text → Option Text
unfolding encode_units
encode_uri_component s = encode_units none s

-- A unit that stands for itself, or a byte that `%XX` writes.
pub data Token : Type 0 where
  plain : ℕ → Token
  byte : ℕ → Token

hex_value : ℕ → Option ℕ
hex_value c =
    if leb b'0' c && leb c b'9'
    then some (c - 48)
    else if leb b'A' c && leb c b'F'
    then some (c - 55)
    else if leb b'a' c && leb c b'f'
    then some (c - 87)
    else none

-- What has been read of an escape.
pub data Escape : Type 0 where
  outside after_percent : Escape
  after_digit : ℕ → Escape

tokens : Escape → Text → Option (List Token)
unfolding hex_value
tokens outside [] = some []
tokens after_percent [] = none
tokens (after_digit high) [] = none
tokens outside (c ∷ s) = do
  rest ← tokens (if nat_eq c b'%' then after_percent else outside) s
  if nat_eq c b'%' then some rest else some (plain c ∷ rest)
tokens after_percent (c ∷ s) = do high ← hex_value c; tokens (after_digit high) s
tokens (after_digit high) (c ∷ s) = do
  low ← hex_value c
  rest ← tokens outside s
  some (byte (high * 16 + low) ∷ rest)

-- A code point as one unit or as a pair.
abbrev utf16 : ℕ → Text
utf16 c =
    if ltb c 0x10000
    then c ∷ []
    else (0xd800 + (c - 0x10000) / 1024) ∷ (0xdc00 + (c - 0x10000) % 1024) ∷ []

abbrev is_scalar : ℕ → Bool
is_scalar c = ltb c 0xd800 || (leb 0xe000 c && leb c 0x10ffff)

-- What a first byte begins: the bytes still due, the bits that it gives, the least code point that needs
-- so many bytes.
first_byte : ℕ → Option (ℕ × ℕ × ℕ)
first_byte b =
    if leb 0xc0 b && ltb b 0xe0
    then some (1, b - 0xc0, 0x80)
    else if leb 0xe0 b && ltb b 0xf0
    then some (2, b - 0xe0, 0x800)
    else if leb 0xf0 b && ltb b 0xf8
    then some (3, b - 0xf0, 0x10000)
    else none

-- After a byte of a sequence: `text` is what follows, and at the end of the sequence the code point.
decoded_byte : (due : ℕ) → (continues valid : Bool) → ℕ → Text → Option Text
decoded_byte due false valid c text = none
decoded_byte (suc due) true valid c text = some text
decoded_byte zero true false c text = none
decoded_byte zero true true c text = some (utf16 c ++ text)

-- `due` bytes still belong to the code point whose first bits are `bits`.
decode_tokens : (due bits least : ℕ) → List Token → Option Text
unfolding first_byte decoded_byte
decode_tokens zero bits least [] = some []
decode_tokens (suc due) bits least [] = none
decode_tokens zero bits least (plain c ∷ rest) = do text ← decode_tokens 0 0 0 rest; some (c ∷ text)
decode_tokens zero bits least (byte b ∷ rest) =
    (if ltb b 0x80 then some (0, 0, 0) else first_byte b) >>= λ start.
    decode_tokens start.0 start.1 start.2 rest >>= λ text.
    some (if ltb b 0x80 then b ∷ text else text)
decode_tokens (suc due) bits least (plain c ∷ rest) = none
decode_tokens (suc due) bits least (byte b ∷ rest) = do
  let c = bits * 64 + (b - 0x80)
  text ← decode_tokens due c least rest
  decoded_byte due (leb 0x80 b && ltb b 0xc0) (is_scalar c && leb least c) c text

unfoldable pub decode_uri_component : Text → Option Text
unfolding tokens decode_tokens
decode_uri_component s = do read ← tokens outside s; decode_tokens 0 0 0 read
