-- ===== src/Memory/Selector.antt =====
-- memory/bounded-memory-read.js: parseMemoryReadSelector. A field that is no text is not coerced to one.
pub mod Parsed
pub mod RoundTrip
use tavern_mnemosyne.Prelude.{
  ℕ, Bool, true, false, not, ◌&&◌, List, [], ◌∷◌, ◌++◌, leb, nat_eq, text_eq, if◌then◌else◌, Text,
  codes, length, ℤ, pos, negsuc, Option, none, some, Result, ok, err, ◌>>=◌, ◌>>◌, guard,
}
use tavern_mnemosyne.Contracts.Identity.{is_hash}
use tavern_mnemosyne.Contracts.Json.{
  Json, str, num, obj, Fields, end, field, get_field, count_fields, keys_within, canonical_json,
  max_safe_integer,
}
use tavern_mnemosyne.Memory.Reference.{after_prefix, parse_memory_reference}
use tavern_mnemosyne.Memory.Cursor.{
  MemoryReadError, CursorScope, CursorContext, Selector, Platform, cursor_prefix, cursor_schema,
  max_selector_length, is_non_empty, cursor_scope, cursor_signature, memory_ref_invalid,
  memory_read_cursor_invalid,
}

abbrev pub payload_keys : List Text
payload_keys =
    codes "memory_hash"
    ∷ codes "next_codepoint_offset"
    ∷ codes "ref"
    ∷ codes "retrieval_contract_version"
    ∷ codes "schema"
    ∷ codes "scope"
    ∷ []

abbrev pub is_text : Text → Option Json → Bool
is_text s (some (str t)) = text_eq t s
is_text s _ = false

-- The fields of a parsed cursor; `none` when one is missing, of another type or out of range.
unfoldable pub cursor_fields : Fields → Option (Text × ℕ × Text)
cursor_fields parsed = elim (get_field (codes "ref") parsed) [
  | some (str ref) ↦ elim (get_field (codes "next_codepoint_offset") parsed) [
    | some (num (pos next)) ↦ elim (get_field (codes "memory_hash") parsed) [
      | some (str memory_hash) ↦
          if leb next max_safe_integer && is_hash memory_hash
          then some (ref, next, memory_hash)
          else none
      | _ ↦ none
    ]
    | _ ↦ none
  ]
  | _ ↦ none
]

unfoldable pub is_reference : Text → Bool
is_reference ref = elim (parse_memory_reference ref) [ none ↦ false | some _ ↦ true ]

unfoldable pub same_version : Option Text → Option Json → Bool
same_version none value = false
same_version (some version) value = is_text version value

-- A signature that is a text of the form of a hash.
unfoldable pub read_signature : Option Json → Option Text
read_signature (some (str signature)) = if is_hash signature then some signature else none
read_signature _ = none

abbrev pub has_scope : Json → Option Json → Bool
has_scope scope none = false
has_scope scope (some value) = text_eq (canonical_json value) (canonical_json scope)

-- `envelope.payload` and `envelope.signature`, when the envelope has no other key.
unfoldable pub envelope_parts : Option Json → Option (Fields × Option Json)
envelope_parts (some (obj fields)) = elim (get_field (codes "payload") fields) [
  | some (obj payload) ↦
      if nat_eq (count_fields fields) 2
        && keys_within (codes "payload" ∷ codes "signature" ∷ []) fields
      then some (payload, get_field (codes "signature") fields)
      else none
  | _ ↦ none
]
envelope_parts _ = none

module _ (platform : Platform) where
  -- The comparison of the signatures, and the selector.
  unfoldable pub signed_cursor :
      CursorContext → Text → Fields → Text × ℕ × Text → Text → Result MemoryReadError Selector
  unfolding cursor_signature
  signed_cursor context selector parsed fields signature = do
    expected ← cursor_signature platform context (obj parsed)
    guard (text_eq signature expected) memory_read_cursor_invalid
    ok (record {
      selector = selector;
      ref = fields.0;
      start_codepoint_offset = fields.1;
      expected_memory_hash = some fields.2;
    })

  -- The checks on a cursor after its envelope is read. The run's scope is required only once the form,
  -- the schema and the version are right.
  unfoldable pub read_cursor :
      CursorContext → Text → Fields → Option Json → Result MemoryReadError Selector
  unfolding cursor_scope signed_cursor cursor_fields is_reference same_version read_signature
  read_cursor context selector parsed signature = do
    guard
        ((nat_eq (count_fields parsed) 6 && keys_within payload_keys parsed)
          && (is_text cursor_schema (get_field (codes "schema") parsed)
              && same_version context.retrieval_contract_version
                  (get_field (codes "retrieval_contract_version") parsed)))
        memory_read_cursor_invalid
    scope ← cursor_scope platform context.scope
    guard (has_scope scope (get_field (codes "scope") parsed)) memory_read_cursor_invalid
    elim (cursor_fields parsed) [
      | none ↦ err memory_read_cursor_invalid
      | some fields ↦ elim (read_signature signature) [
        | none ↦ err memory_read_cursor_invalid
        | some written ↦ do
          guard (is_reference fields.0) memory_read_cursor_invalid
          signed_cursor context selector parsed fields written
      ]
    ]

  -- parseMemoryReadSelector
  unfoldable pub parse_memory_read_selector : CursorContext → Text → Result MemoryReadError Selector
  unfolding read_cursor envelope_parts is_reference
  parse_memory_read_selector context selector =
      if not (is_non_empty selector && leb (length selector) max_selector_length)
      then err memory_ref_invalid
      else elim (after_prefix cursor_prefix selector) [
        | none ↦
            if is_reference selector
            then ok (record {
              selector = selector;
              ref = selector;
              start_codepoint_offset = 0;
              expected_memory_hash = none;
            })
            else err memory_ref_invalid
        | some encoded ↦ do
          let decoded = platform.from_base64url encoded
          guard (text_eq (platform.to_base64url decoded) encoded) memory_read_cursor_invalid
          elim (envelope_parts (platform.parse_json decoded)) [
            | none ↦ err memory_read_cursor_invalid
            | some parts ↦ read_cursor context selector parts.0 parts.1
          ]
      ]
