-- ===== src/Memory/Pages.antt =====
-- memory/bounded-memory-read.js: the result of a reading and its pages. The measure of a serialized result in tokens
-- is a parameter; `none` is an answer that is not a safe non-negative integer.
use tavern_mnemosyne.Prelude.{
  ℕ, zero, suc, ◌-◌, Bool, true, false, ◌&&◌, List, [], ◌∷◌, ◌++◌, ltb, nat_eq, if◌then◌else◌, Text,
  codes, length, take, drop, contains, text_has_eq, Option, none, some, Result, ok, err, ◌>>=◌,
}
use tavern_mnemosyne.Contracts.Json.{
  Json, null, str, arr, Items, nil, cons, obj, get_field, stringify, is_high_surrogate,
  is_low_surrogate,
}
use tavern_mnemosyne.Memory.Cursor.{
  MemoryReadError, CursorContext, Selector, Platform, encode_cursor,
  memory_read_budget_measure_invalid, memory_read_budget_measure_unstable,
}

-- What reading one reference gave.
pub record ReadResult : Type 0 where
  pub schema : Text
  pub status : Text
  pub ref : Text
  pub memory : Json

-- A page of a memory: the memory's fields, with these put over them. A code point is its code units.
pub record Entry : Type 0 where
  pub memory : Json
  pub content : Text
  pub memory_hash : Text
  pub start_codepoint : ℕ
  pub end_codepoint : ℕ
  pub total_codepoints : ℕ
  pub truncated : Bool
  pub continuation_cursor : Option Text

pub record Omission : Type 0 where
  pub ref : Text
  pub reason_code : Text

pub record ContextPack : Type 0 where
  pub entries : List Entry
  pub missing_refs : List Text
  pub omissions : List Omission
  pub continuation_cursors : List Text
  pub requested_tokens : ℕ
  pub used_tokens : ℕ

-- A ready selector with its memory.
pub record Descriptor : Type 0 where
  pub selector : Selector
  pub memory : Json
  pub memory_hash : Text
  pub codepoints : List Text

-- `String(value)` in an array and outside one, where it differs for null.
unfoldable mutual
  unfolding stringify

  pub to_text : Json → Text
  to_text (str s) = s
  to_text (arr items) = joined items
  to_text (obj fields) = codes "[object Object]"
  to_text value = stringify value

  pub joined : Items → Text
  joined nil = []
  joined (cons null nil) = []
  joined (cons null (cons v rest)) = codes "," ++ joined (cons v rest)
  joined (cons value nil) = to_text value
  joined (cons value (cons v rest)) = to_text value ++ (codes "," ++ joined (cons v rest))

-- `String(memory?.content ?? '')`
unfoldable pub content_of : Json → Text
unfolding to_text
content_of (obj fields) = elim (get_field (codes "content") fields) [
  | none ↦ []
  | some null ↦ []
  | some value ↦ to_text value
]
content_of value = []

-- Puts a unit before elements; it makes a pair with the unit after it, or is an element.
unfoldable pub put_unit : ℕ → List Text → List Text
put_unit c [] = (c ∷ []) ∷ []
put_unit c ([] ∷ rest) = (c ∷ []) ∷ rest
put_unit c ((d ∷ more) ∷ rest) =
    if is_high_surrogate c && (is_low_surrogate d && nat_eq (length more) 0)
    then (c ∷ d ∷ []) ∷ rest
    else (c ∷ []) ∷ (d ∷ more) ∷ rest

-- `Array.from(content)`: a pair of surrogates is one element.
unfoldable pub split_codepoints : Text → List Text
unfolding put_unit
split_codepoints [] = []
split_codepoints (c ∷ s) = put_unit c (split_codepoints s)

-- `join('')`
abbrev pub concat : List Text → Text
concat [] = []
concat (s ∷ rest) = s ++ concat rest

-- `codepoints.slice(start, end).join('')`
unfoldable pub slice_text : List Text → (start end_offset : ℕ) → Text
slice_text codepoints start end_offset = concat (take (end_offset - start) (drop start codepoints))

-- `[...new Set(refs)]`; `seen` are the refs before.
unfoldable pub distinct : (seen refs : List Text) → List Text
unfolding contains
distinct seen [] = []
distinct seen (ref ∷ refs) =
    let rest = distinct (ref ∷ seen) refs in if contains seen ref then rest else ref ∷ rest

-- contextPack
unfoldable pub context_pack : ℕ → List Text → ContextPack
unfolding distinct
context_pack max_tokens missing_refs = record {
  entries = [];
  missing_refs = distinct [] missing_refs;
  omissions = [];
  continuation_cursors = [];
  requested_tokens = max_tokens;
  used_tokens = 0;
}

abbrev pub append_option : List Text → Option Text → List Text
append_option cursors none = cursors
append_option cursors (some cursor) = cursors ++ (cursor ∷ [])

-- `candidate` in the search.
unfoldable pub with_entry : ContextPack → Entry → ContextPack
with_entry pack entry = record pack {
  entries = pack.entries ++ (entry ∷ []);
  continuation_cursors = append_option pack.continuation_cursors entry.continuation_cursor;
}

abbrev pub exhausted : (ref : Text) → Omission
exhausted ref = record { ref = ref; reason_code = codes "memory_read_budget_exhausted" }

unfoldable pub with_omission : ContextPack → Text → ContextPack
with_omission pack ref = record pack { omissions = pack.omissions ++ (exhausted ref ∷ []) }

module _ (measure_serialized_result_tokens : ContextPack → Option ℕ) where
  -- The attempts of measuredResult, from a guess of the tokens.
  unfoldable pub measure_attempts :
      (attempts : ℕ) → ContextPack → ℕ → Result MemoryReadError ContextPack
  measure_attempts zero pack used = err memory_read_budget_measure_unstable
  measure_attempts (suc attempts) pack used =
      let measured = record pack { used_tokens = used } in
      elim (measure_serialized_result_tokens measured) [
        | none ↦ err memory_read_budget_measure_invalid
        | some next ↦ if nat_eq next used then ok measured else measure_attempts attempts pack next
      ]

  -- measuredResult: its `usedTokens` are those of the pack that it answers.
  unfoldable pub measured_result : ContextPack → Result MemoryReadError ContextPack
  unfolding measure_attempts
  measured_result pack = measure_attempts 128 pack 0

module _ (platform : Platform) (context : CursorContext) where
  -- `nextCursor`
  unfoldable pub page_cursor :
      Descriptor → ℕ → (truncated : Bool) → Result MemoryReadError (Option Text)
  page_cursor descriptor end_offset false = ok none
  page_cursor descriptor end_offset true = do
    cursor ←
        encode_cursor platform context descriptor.selector.ref end_offset descriptor.memory_hash
    ok (some cursor)

  -- pagedEntry
  unfoldable pub paged_entry : Descriptor → ℕ → Result MemoryReadError Entry
  unfolding slice_text page_cursor
  paged_entry descriptor end_offset = do
    let total = length descriptor.codepoints
    let start = descriptor.selector.start_codepoint_offset
    let truncated = ltb end_offset total
    next_cursor ← page_cursor descriptor end_offset truncated
    ok (record {
      memory = descriptor.memory;
      content = slice_text descriptor.codepoints start end_offset;
      memory_hash = descriptor.memory_hash;
      start_codepoint = start;
      end_codepoint = end_offset;
      total_codepoints = total;
      truncated = truncated;
      continuation_cursor = next_cursor;
    })
