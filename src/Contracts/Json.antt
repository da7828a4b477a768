-- ===== src/Contracts/Json.antt =====
-- contracts/hash.js: JSON values, `canonicalize` and `canonicalJson`. Numbers are integers; an
-- object's keys are texts that are no array indices, so it keeps the order of insertion.
pub mod Order
use tavern_mnemosyne.Prelude.{
  ℕ, zero, suc, ◌+◌, ◌/◌, ◌%◌, Bool, true, false, not, ◌&&◌, ◌||◌, [], ◌∷◌, ◌++◌, ltb, leb, nat_eq,
  if◌then◌else◌, Text, codes, text_eq, ℤ, pos, negsuc, Option, none, some, List, any,
}

mutual
  pub data Json : Type 0 where
    null : Json
    bool : Bool → Json
    num : ℤ → Json
    str : Text → Json
    arr : Items → Json
    obj : Fields → Json

  pub data Items : Type 0 where
    nil : Items
    cons : Json → Items → Items

  pub data Fields : Type 0 where
    end : Fields
    field : Text → Json → Fields → Fields

-- The order of `Array.prototype.sort` on strings: by code units.
unfoldable pub text_leb : Text → Text → Bool
text_leb [] t = true
text_leb (x ∷ s) [] = false
text_leb (x ∷ s) (y ∷ t) = if ltb x y then true else nat_eq x y && text_leb s t

-- Puts a field before the first that has a greater key.
unfoldable pub insert_field : Text → Json → Fields → Fields
insert_field k v end = field k v end
insert_field k v (field j w fs) =
    if text_leb k j then field k v (field j w fs) else field j w (insert_field k v fs)

-- Objects with their keys in order, all the way down.
unfoldable mutual
  pub canonicalize : Json → Json
  canonicalize null = null
  canonicalize (bool b) = bool b
  canonicalize (num n) = num n
  canonicalize (str s) = str s
  canonicalize (arr xs) = arr (canonicalize_items xs)
  canonicalize (obj fs) = obj (canonicalize_fields fs)

  pub canonicalize_items : Items → Items
  canonicalize_items nil = nil
  canonicalize_items (cons x xs) = cons (canonicalize x) (canonicalize_items xs)

  pub canonicalize_fields : Fields → Fields
  canonicalize_fields end = end
  canonicalize_fields (field k v fs) = insert_field k (canonicalize v) (canonicalize_fields fs)

-- Decimal digits; a number has fewer digits than its value plus one.
digits : ℕ → ℕ → Text
digits zero n = []
digits (suc f) n =
    let rest = digits f (n / 10) in if ltb n 10 then (n + 48) ∷ [] else rest ++ (n % 10 + 48) ∷ []

unfoldable pub decimal : ℕ → Text
unfolding digits
decimal n = digits (suc n) n

hex_digit : ℕ → ℕ
hex_digit n = if ltb n 10 then n + 48 else n + 87

unicode_escape : ℕ → Text
unfolding hex_digit
unicode_escape c =
    codes "\\u"
    ++ hex_digit (c / 4096)
      ∷ hex_digit (c / 256 % 16)
      ∷ hex_digit (c / 16 % 16)
      ∷ hex_digit (c % 16)
      ∷ []

-- One code unit of a string literal that is not a lone surrogate.
escape_unit : ℕ → Text
unfolding unicode_escape
escape_unit c =
    if nat_eq c 34
    then codes "\\\""
    else if nat_eq c 92
    then codes "\\\\"
    else if nat_eq c 8
    then codes "\\b"
    else if nat_eq c 9
    then codes "\\t"
    else if nat_eq c 10
    then codes "\\n"
    else if nat_eq c 12
    then codes "\\f"
    else if nat_eq c 13
    then codes "\\r"
    else if ltb c 32
    then unicode_escape c
    else c ∷ []

abbrev pub is_high_surrogate : ℕ → Bool
is_high_surrogate c = leb 0xd800 c && leb c 0xdbff

abbrev pub is_low_surrogate : ℕ → Bool
is_low_surrogate c = leb 0xdc00 c && leb c 0xdfff

abbrev starts_low : Text → Bool
starts_low [] = false
starts_low (c ∷ s) = is_low_surrogate c

-- `paired` says that the unit before is the first half of a pair; lone halves are escaped.
escape_units : Bool → Text → Text
unfolding escape_unit
escape_units paired [] = []
escape_units paired (c ∷ s) =
    let starts = is_high_surrogate c && starts_low s in
    (if (is_high_surrogate c && not starts) || (is_low_surrogate c && not paired)
      then unicode_escape c
      else escape_unit c)
    ++ escape_units starts s

unfoldable pub quote : Text → Text
unfolding escape_units
quote s = codes "\"" ++ (escape_units false s ++ codes "\"")

abbrev print_int : ℤ → Text
print_int (pos n) = decimal n
print_int (negsuc n) = codes "-" ++ decimal (suc n)

-- `JSON.stringify` with no spaces; `first` says that no separator is due.
unfoldable mutual
  unfolding quote decimal

  pub stringify : Json → Text
  stringify null = codes "null"
  stringify (bool true) = codes "true"
  stringify (bool false) = codes "false"
  stringify (num n) = print_int n
  stringify (str s) = quote s
  stringify (arr xs) = codes "[" ++ (stringify_items true xs ++ codes "]")
  stringify (obj fs) = codes "{" ++ (stringify_fields true fs ++ codes "}")

  pub stringify_items : Bool → Items → Text
  stringify_items first nil = []
  stringify_items first (cons x xs) =
      (if first then [] else codes ",") ++ (stringify x ++ stringify_items false xs)

  pub stringify_fields : Bool → Fields → Text
  stringify_fields first end = []
  stringify_fields first (field k v fs) =
      (if first then [] else codes ",")
      ++ (quote k ++ (codes ":" ++ (stringify v ++ stringify_fields false fs)))

unfoldable pub canonical_json : Json → Text
unfolding canonicalize stringify insert_field text_leb
canonical_json v = stringify (canonicalize v)

-- `{ ...value, key: v }`: the field keeps its place, or comes last.
unfoldable pub set_field : Text → Json → Fields → Fields
set_field k v end = field k v end
set_field k v (field j w fs) = if text_eq j k then field k v fs else field j w (set_field k v fs)

-- `value[k]`, `none` for `undefined`.
unfoldable pub get_field : Text → Fields → Option Json
get_field k end = none
get_field k (field j v fs) = if text_eq j k then some v else get_field k fs

-- `Object.keys(value).length`
unfoldable pub count_fields : Fields → ℕ
count_fields end = 0
count_fields (field k v fs) = suc (count_fields fs)

-- Whether every key is in the list.
unfoldable pub keys_within : List Text → Fields → Bool
unfolding any
keys_within keys end = true
keys_within keys (field k v fs) = any (λ j. text_eq j k) keys && keys_within keys fs

abbrev pub max_safe_integer : ℕ
max_safe_integer = 9_007_199_254_740_991

-- `Number.isSafeInteger(v) && v > 0`
unfoldable pub safe_positive : Option Json → Option ℕ
safe_positive (some (num (pos n))) = if ltb 0 n && leb n max_safe_integer then some n else none
safe_positive _ = none

-- `typeof v === 'string' && v`
unfoldable pub non_empty_text : Option Json → Option Text
non_empty_text (some (str (c ∷ s))) = some (c ∷ s)
non_empty_text _ = none
