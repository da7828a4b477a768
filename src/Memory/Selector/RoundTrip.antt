-- ===== src/Memory/Selector/RoundTrip.antt =====
-- What parseMemoryReadSelector reads from the cursors of encodeCursor.
use tavern_mnemosyne.Prelude.{
  ℕ, ◌≡◌, ◌≤◌, refl, sym, ap, ◌∙◌, subst, true, List, [], ◌∷◌, ◌++◌, Text, length, leb,
  text_eq_refl, arith, Option, none, some, ok, Result-cases, Option-cases, inl, inr,
}
use tavern_mnemosyne.Contracts.Identity.{is_hash}
use tavern_mnemosyne.Contracts.Json.{Json, canonicalize, canonical_json, max_safe_integer}
use tavern_mnemosyne.Memory.Reference.{MemoryReference, parse_memory_reference}
use tavern_mnemosyne.Memory.Cursor.{
  CursorContext, Platform, cursor_prefix, max_selector_length, cursor_scope, cursor_payload,
  cursor_signature, scope_json, payload_json, signed_envelope, envelope, encode_cursor,
  required_version, cursor_secret_bytes,
}
use tavern_mnemosyne.Memory.Selector.{parse_memory_read_selector}
use tavern_mnemosyne.Memory.Selector.Parsed.{
  after_prefix-append, scope_json-canonicalize, canonicalize-envelope, envelope_parts-canonical,
  read_cursor-parsed,
}

le→leb : (a b : ℕ) → a ≤ b → leb a b ≡ true
le→leb a b h = ground arith

module _ (platform : Platform) (context : CursorContext) where
  cursor_scope-idempotent :
      (scope : Json)
      → cursor_scope platform context.scope ≡ ok scope
      → canonicalize (canonicalize scope) ≡ canonicalize scope
  unfolding cursor_scope
  cursor_scope-idempotent scope e = elim (Option-cases context.scope) [
    | inl missing ↦ ground (arith, e, missing)
    | inr (run, given) ↦
        let same : scope_json (platform.sha256 run.chat_id) run ≡ scope =
          ground (arith, e, given) in
        rw (sym same) (scope_json-canonicalize (platform.sha256 run.chat_id) run)
  ]

  -- What an envelope was made of.
  record Signed (ref : Text) (next : ℕ) (memory_hash : Text) (signed : Json) : Type 0 where
    version : Text
    scope : Json
    signature : Text
    has_version : context.retrieval_contract_version ≡ some version
    run_scope : cursor_scope platform context.scope ≡ ok scope
    has_signature :
        cursor_signature platform context (payload_json version scope ref next memory_hash)
        ≡ ok signature
    same : signed ≡ envelope (payload_json version scope ref next memory_hash) signature

  required_version-cases :
      (found : Option Text) (version : Text)
      → required_version found ≡ ok version
      → found ≡ some version
  required_version-cases none version e = ground (arith, e)
  required_version-cases (some []) version e = ground (arith, e)
  required_version-cases (some (c ∷ s)) version e = ground (arith, e)

  signed_envelope-Signed :
      (ref : Text) (next : ℕ) (memory_hash : Text) (signed : Json)
      → signed_envelope platform context ref next memory_hash ≡ ok signed
      → Signed ref next memory_hash signed
  unfolding signed_envelope cursor_payload
  signed_envelope-Signed ref next memory_hash signed e =
      elim (Result-cases (required_version context.retrieval_contract_version)) [
        | inr (refused, v) ↦ ground (arith, e, v)
        | inl (version, v) ↦ elim (Result-cases (cursor_scope platform context.scope)) [
          | inr (refused, s) ↦ ground (arith, e, v, s)
          | inl (scope, s) ↦
              elim (Result-cases (
                cursor_signature platform context
                  (payload_json version scope ref next memory_hash))) [
                    | inr (refused, g) ↦ ground (arith, e, v, s, g)
                    | inl (signature, g) ↦ record {
                      version = version;
                      scope = scope;
                      signature = signature;
                      has_version =
                          required_version-cases context.retrieval_contract_version version v;
                      run_scope = s;
                      has_signature = g;
                      same = ground (arith, e, v, s, g);
                    }
                  ]
        ]
      ]

  Signed-IsHash :
      (ref : Text) (next : ℕ) (memory_hash : Text) (signed : Json)
      → ((secret : List ℕ) (text : Text) → is_hash (platform.hmac_sha256 secret text) ≡ true)
      → (made : Signed ref next memory_hash signed) → is_hash made.signature ≡ true
  unfolding cursor_signature
  Signed-IsHash ref next memory_hash signed hmac made =
      let text = canonical_json (payload_json made.version made.scope ref next memory_hash) in
      elim (Result-cases (cursor_secret_bytes context.cursor_secret)) [
        | inr (refused, e) ↦ ground (arith, made.has_signature, e)
        | inl (secret, e) ↦
            let same : platform.hmac_sha256 secret text ≡ made.signature =
              ground (arith, made.has_signature, e) in
            rw (sym same) (hmac secret text)
      ]

  parse-Signed :
      (ref : Text) (next : ℕ) (memory_hash : Text) (signed : Json) (reference : MemoryReference)
      → platform.from_base64url (platform.to_base64url (canonical_json signed))
        ≡ canonical_json signed
      → platform.parse_json (canonical_json signed) ≡ some (canonicalize signed)
      → ((secret : List ℕ) (text : Text) → is_hash (platform.hmac_sha256 secret text) ≡ true)
      → next ≤ max_safe_integer
      → is_hash memory_hash ≡ true
      → parse_memory_reference ref ≡ some reference
      → Signed ref next memory_hash signed
      → let cursor = cursor_prefix ++ platform.to_base64url (canonical_json signed) in
        length cursor ≤ max_selector_length
        → parse_memory_read_selector platform context cursor
          ≡ ok (record {
            selector = cursor;
            ref = ref;
            start_codepoint_offset = next;
            expected_memory_hash = some memory_hash;
          })
  unfolding parse_memory_read_selector
  parse-Signed ref next memory_hash signed reference base64 json hmac small hash r made fits =
      let text = canonical_json signed in
      let cursor = cursor_prefix ++ platform.to_base64url text in
      let short : leb (length cursor) max_selector_length ≡ true = le→leb _ _ fits in
      let canonical =
        ap canonicalize made.same
        ∙ canonicalize-envelope made.version made.scope ref next memory_hash made.signature in
      let read =
        read_cursor-parsed made.scope (cursor_scope-idempotent made.scope made.run_scope)
          made.version ref next memory_hash platform context cursor made.signature reference
          made.has_version made.run_scope made.has_signature small hash
          (Signed-IsHash ref next memory_hash signed hmac made) r in
      rw
        (
          short,
          after_prefix-append cursor_prefix (platform.to_base64url text),
          base64,
          text_eq_refl (platform.to_base64url text),
          json,
          canonical,
          envelope_parts-canonical,
          read,
        )
        refl

  -- A cursor of encodeCursor is read back, by the run that has its scope, secret and version: the selector that
  -- comes out starts at the cursor's offset in the cursor's memory and expects its hash. The offset is a
  -- safe integer, the hash has the form of one, the reference is a supported one and the cursor is no
  -- longer than a selector may be; base64url and JSON.parse undo what wrote the cursor's text, and the HMAC
  -- in hex has the form of a hash.
  pub parse-encode_cursor :
      (ref : Text) (next : ℕ) (memory_hash cursor : Text) (reference : MemoryReference)
      → ((signed : Json)
          → signed_envelope platform context ref next memory_hash ≡ ok signed
          → platform.from_base64url (platform.to_base64url (canonical_json signed))
            ≡ canonical_json signed)
      → ((signed : Json)
          → signed_envelope platform context ref next memory_hash ≡ ok signed
          → platform.parse_json (canonical_json signed) ≡ some (canonicalize signed))
      → ((secret : List ℕ) (text : Text) → is_hash (platform.hmac_sha256 secret text) ≡ true)
      → next ≤ max_safe_integer
      → is_hash memory_hash ≡ true
      → parse_memory_reference ref ≡ some reference
      → encode_cursor platform context ref next memory_hash ≡ ok cursor
      → length cursor ≤ max_selector_length
      → parse_memory_read_selector platform context cursor
        ≡ ok (record {
          selector = cursor;
          ref = ref;
          start_codepoint_offset = next;
          expected_memory_hash = some memory_hash;
        })
  unfolding encode_cursor
  parse-encode_cursor ref next memory_hash cursor reference base64 json hmac small hash r e fits =
      elim (Result-cases (signed_envelope platform context ref next memory_hash)) [
        | inr (refused, e') ↦ ground (arith, e, e')
        | inl (signed, e') ↦
            let same : cursor_prefix ++ platform.to_base64url (canonical_json signed) ≡ cursor =
              ground (arith, e, e') in
            subst
              (λ c.
                parse_memory_read_selector platform context c
                ≡ ok (record {
                  selector = c;
                  ref = ref;
                  start_codepoint_offset = next;
                  expected_memory_hash = some memory_hash;
                }))
              same
              (parse-Signed ref next memory_hash signed reference (base64 signed e')
                (json signed e') hmac small hash r
                (signed_envelope-Signed ref next memory_hash signed e')
                (subst (λ c. length c ≤ max_selector_length) (sym same) fits))
      ]
