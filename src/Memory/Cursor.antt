-- ===== src/Memory/Cursor.antt =====
-- memory/bounded-memory-read.js: the signed cursors that continue the reading of a memory. sha256, the
-- HMAC in hex, base64url on UTF-8 and JSON.parse are parameters; a secret is the bytes of a Buffer.
use tavern_mnemosyne.Prelude.{
  ℕ, Bool, true, false, ◌&&◌, List, [], ◌∷◌, ◌++◌, leb, if◌then◌else◌, Text, codes, length, ℤ, pos,
  negsuc, Option, none, some, Result, ok, err, ◌>>=◌, ◌>>◌, guard,
}
use tavern_mnemosyne.Contracts.Json.{
  Json, str, num, obj, end, field, canonical_json, max_safe_integer,
}

pub data MemoryReadError : Type 0 where
  memory_ref_invalid memory_read_cursor_invalid memory_read_cursor_stale : MemoryReadError
  memory_read_cursor_scope_invalid memory_read_cursor_secret_invalid : MemoryReadError
  memory_read_cursor_contract_invalid memory_read_result_invalid : MemoryReadError
  memory_read_budget_invalid memory_read_budget_measure_invalid : MemoryReadError
  memory_read_budget_measure_unstable memory_read_budget_too_small : MemoryReadError

pub record CursorScope : Type 0 where
  pub chat_id : Text
  pub run_id : Text
  pub branch_id : Text
  pub branch_epoch : ℤ
  pub turn_index : ℤ

-- The options that every call for one run is given; `none` is null.
pub record CursorContext : Type 0 where
  pub cursor_secret : Option (List ℕ)
  pub scope : Option CursorScope
  pub retrieval_contract_version : Option Text

-- What parseMemoryReadSelector answers.
pub record Selector : Type 0 where
  pub selector : Text
  pub ref : Text
  pub start_codepoint_offset : ℕ
  pub expected_memory_hash : Option Text

-- What the code takes from the platform.
pub record Platform : Type 0 where
  pub sha256 : Text → Text
  pub hmac_sha256 : List ℕ → Text → Text
  pub to_base64url : Text → Text
  pub from_base64url : Text → Text
  pub parse_json : Text → Option Json

abbrev pub cursor_prefix : Text
cursor_prefix = codes "memory://continuation/"

abbrev pub cursor_schema : Text
cursor_schema = codes "mnemosyne.memory-read-cursor.v2"

abbrev pub max_selector_length : ℕ
max_selector_length = 4096

abbrev pub is_non_empty : Text → Bool
is_non_empty [] = false
is_non_empty (c ∷ s) = true

-- `Number.isSafeInteger(n) && n >= 0`
abbrev pub is_safe_natural : ℤ → Bool
is_safe_natural (pos n) = leb n max_safe_integer
is_safe_natural (negsuc n) = false

abbrev pub scope_json : (chat_id_hash : Text) → CursorScope → Json
scope_json chat_id_hash scope = obj (
    field (codes "chat_id_hash") (str chat_id_hash) (
      field (codes "run_id") (str scope.run_id) (
        field (codes "branch_id") (str scope.branch_id) (
          field (codes "branch_epoch") (num scope.branch_epoch)
            (field (codes "turn_index") (num scope.turn_index) end)))))

abbrev pub payload_json :
    (version : Text) → (scope : Json) → (ref : Text) → (next : ℕ) → (memory_hash : Text) → Json
payload_json version scope ref next memory_hash = obj (
    field (codes "schema") (str cursor_schema) (
      field (codes "retrieval_contract_version") (str version) (
        field (codes "scope") scope (
          field (codes "ref") (str ref) (
            field (codes "next_codepoint_offset") (num (pos next))
              (field (codes "memory_hash") (str memory_hash) end))))))

abbrev pub envelope : (payload : Json) → (signature : Text) → Json
envelope payload signature =
    obj (field (codes "payload") payload (field (codes "signature") (str signature) end))

-- cursorSecretBytes
abbrev pub cursor_secret_bytes : Option (List ℕ) → Result MemoryReadError (List ℕ)
cursor_secret_bytes none = err memory_read_cursor_secret_invalid
cursor_secret_bytes (some secret) =
    if leb 32 (length secret) then ok secret else err memory_read_cursor_secret_invalid

abbrev pub required_version : Option Text → Result MemoryReadError Text
required_version (some (c ∷ version)) = ok (c ∷ version)
required_version _ = err memory_read_cursor_contract_invalid

module _ (platform : Platform) where
  -- cursorScope
  unfoldable pub cursor_scope : Option CursorScope → Result MemoryReadError Json
  cursor_scope none = err memory_read_cursor_scope_invalid
  cursor_scope (some scope) = do
    guard
        (is_non_empty scope.chat_id
          && (is_non_empty scope.run_id
              && (is_non_empty scope.branch_id
                  && (is_safe_natural scope.branch_epoch && is_safe_natural scope.turn_index))))
        memory_read_cursor_scope_invalid
    ok (scope_json (platform.sha256 scope.chat_id) scope)

  -- cursorPayload
  unfoldable pub cursor_payload : CursorContext → Text → ℕ → Text → Result MemoryReadError Json
  unfolding cursor_scope
  cursor_payload context ref next memory_hash = do
    version ← required_version context.retrieval_contract_version
    scope ← cursor_scope context.scope
    ok (payload_json version scope ref next memory_hash)

  -- cursorSignature
  unfoldable pub cursor_signature : CursorContext → Json → Result MemoryReadError Text
  cursor_signature context payload = do
    secret ← cursor_secret_bytes context.cursor_secret
    ok (platform.hmac_sha256 secret (canonical_json payload))

  -- The text of a cursor, before its encoding.
  unfoldable pub signed_envelope : CursorContext → Text → ℕ → Text → Result MemoryReadError Json
  unfolding cursor_payload cursor_signature
  signed_envelope context ref next memory_hash = do
    payload ← cursor_payload context ref next memory_hash
    signature ← cursor_signature context payload
    ok (envelope payload signature)

  -- encodeCursor
  unfoldable pub encode_cursor : CursorContext → Text → ℕ → Text → Result MemoryReadError Text
  encode_cursor context ref next memory_hash = do
    signed ← signed_envelope context ref next memory_hash
    ok (cursor_prefix ++ platform.to_base64url (canonical_json signed))
