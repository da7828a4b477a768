-- ===== src/Memory/Selector/Parsed.antt =====
-- What parseMemoryReadSelector does with the parsed fields of a cursor, in canonical order.
use tavern_mnemosyne.Prelude.{
  ℕ, ◌≡◌, ◌≤◌, refl, true, ◌&&◌, [], ◌∷◌, ◌++◌, Text, codes, nat_eq, text_eq, text_eq_refl, arith,
  some, ok, pos,
}
use tavern_mnemosyne.Contracts.Identity.{is_hash}
use tavern_mnemosyne.Contracts.Json.{
  Json, str, num, obj, Fields, end, field, canonicalize, insert_field, text_leb, canonical_json,
  max_safe_integer, get_field, count_fields, keys_within,
}
use tavern_mnemosyne.Memory.Reference.{MemoryReference, after_prefix, parse_memory_reference}
use tavern_mnemosyne.Memory.Cursor.{
  CursorScope, CursorContext, Platform, cursor_schema, cursor_scope, cursor_signature, scope_json,
  payload_json, envelope,
}
use tavern_mnemosyne.Memory.Selector.{
  read_cursor, signed_cursor, cursor_fields, read_signature, envelope_parts, same_version,
  has_scope, is_text, is_reference, payload_keys,
}

-- A prefix comes off what it was put before.
pub after_prefix-append : (prefix s : Text) → after_prefix prefix (prefix ++ s) ≡ some s
unfolding after_prefix
after_prefix-append [] s = refl
after_prefix-append (c ∷ prefix) s = ground (arith, after_prefix-append prefix s)

is_reference-parsed :
    (ref : Text) (reference : MemoryReference)
    → parse_memory_reference ref ≡ some reference
    → is_reference ref ≡ true
unfolding is_reference parse_memory_reference
is_reference-parsed ref reference e = rw e refl

pub scope_json-canonicalize :
    (chat_id_hash : Text) (scope : CursorScope)
    → canonicalize (canonicalize (scope_json chat_id_hash scope))
      ≡ canonicalize (scope_json chat_id_hash scope)
unfolding canonicalize insert_field text_leb
scope_json-canonicalize chat_id_hash scope = refl

-- The fields of a payload in canonical order.
abbrev pub canonical_payload : (version : Text) → Json → Text → ℕ → Text → Fields
canonical_payload version scope ref next memory_hash =
    field (codes "memory_hash") (str memory_hash) (
      field (codes "next_codepoint_offset") (num (pos next)) (
        field (codes "ref") (str ref) (
          field (codes "retrieval_contract_version") (str version) (
            field (codes "schema") (str cursor_schema)
              (field (codes "scope") (canonicalize scope) end)))))

pub canonicalize-envelope :
    (version : Text) (scope : Json) (ref : Text) (next : ℕ) (memory_hash signature : Text)
    → canonicalize (envelope (payload_json version scope ref next memory_hash) signature)
      ≡ obj (
          field
            (codes "payload")
            (obj (canonical_payload version scope ref next memory_hash))
            (field (codes "signature") (str signature) end))
unfolding canonicalize insert_field text_leb
canonicalize-envelope version scope ref next memory_hash signature = refl

pub envelope_parts-canonical :
    (fields : Fields) (signature : Text)
    → envelope_parts (
        some (
          obj
            (field (codes "payload") (obj fields) (field (codes "signature") (str signature) end))))
      ≡ some (fields, some (str signature))
unfolding envelope_parts get_field count_fields keys_within text_eq
envelope_parts-canonical fields signature = refl

module _ (scope : Json) (idempotent : canonicalize (canonicalize scope) ≡ canonicalize scope)
    (version ref : Text) (next : ℕ) (memory_hash : Text) where
  abbrev pub payload : Json
  payload = payload_json version scope ref next memory_hash

  abbrev pub parsed : Fields
  parsed = canonical_payload version scope ref next memory_hash

  canonical_json-parsed : canonical_json (obj parsed) ≡ canonical_json payload
  unfolding canonical_json canonicalize insert_field text_leb
  canonical_json-parsed = rw idempotent refl

  has_scope-parsed : has_scope scope (get_field (codes "scope") parsed) ≡ true
  unfolding get_field text_eq canonical_json
  has_scope-parsed = rw idempotent (text_eq_refl (canonical_json scope))

  parsed-IsFormed :
      (nat_eq (count_fields parsed) 6 && keys_within payload_keys parsed)
        && (is_text cursor_schema (get_field (codes "schema") parsed)
            && same_version (some version) (get_field (codes "retrieval_contract_version") parsed))
      ≡ true
  unfolding get_field text_eq count_fields keys_within same_version
  parsed-IsFormed = text_eq_refl version

  cursor_fields-parsed :
      next ≤ max_safe_integer
      → is_hash memory_hash ≡ true
      → cursor_fields parsed ≡ some (ref, next, memory_hash)
  unfolding get_field text_eq cursor_fields
  cursor_fields-parsed small hash = ground (arith, small, hash)

  module _ (platform : Platform) (context : CursorContext) where
    cursor_signature-parsed :
        cursor_signature platform context (obj parsed) ≡ cursor_signature platform context payload
    unfolding cursor_signature
    cursor_signature-parsed = rw canonical_json-parsed refl

    pub read_cursor-parsed :
        (selector signature : Text) (reference : MemoryReference)
        → context.retrieval_contract_version ≡ some version
        → cursor_scope platform context.scope ≡ ok scope
        → cursor_signature platform context payload ≡ ok signature
        → next ≤ max_safe_integer
        → is_hash memory_hash ≡ true
        → is_hash signature ≡ true
        → parse_memory_reference ref ≡ some reference
        → read_cursor platform context selector parsed (some (str signature))
          ≡ ok (record {
            selector = selector;
            ref = ref;
            start_codepoint_offset = next;
            expected_memory_hash = some memory_hash;
          })
    unfolding read_cursor signed_cursor read_signature
    read_cursor-parsed selector signature reference v s sig small hash hex r =
        rw
          (
            v,
            parsed-IsFormed,
            s,
            has_scope-parsed,
            cursor_fields-parsed small hash,
            hex,
            is_reference-parsed ref reference r,
            cursor_signature-parsed,
            sig,
            text_eq_refl signature,
          )
          refl
