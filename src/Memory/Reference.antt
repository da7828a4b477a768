-- ===== src/Memory/Reference.antt =====
-- memory/memory-reference.js: the references to a memory and to a scope, as texts.
use tavern_mnemosyne.Prelude.{
  ◌&&◌, List, [], ◌∷◌, ◌++◌, nat_eq, text_eq, if◌then◌else◌, Text, codes, Option, none, some,
}
use tavern_mnemosyne.Prelude.Options.{◌>>=◌}
use tavern_mnemosyne.Contracts.Identity.{is_safe_id}
use tavern_mnemosyne.Memory.Uri.{encode_uri_component, decode_uri_component}

pub data MemoryReference : Type 0 where
  turn_record : (record_id : Text) → MemoryReference
  current_state : (entity_id state_domain state_key : Text) → MemoryReference
  okf_entity : (entity_id : Text) → MemoryReference

-- `^prefix(.*)$`: what comes after the prefix.
unfoldable pub after_prefix : Text → Text → Option Text
after_prefix [] s = some s
after_prefix (c ∷ prefix) [] = none
after_prefix (c ∷ prefix) (d ∷ s) = if nat_eq c d then after_prefix prefix s else none

-- `split('/')`
segments : Text → List Text
segments [] = [] ∷ []
segments (c ∷ s) = elim (segments s) [
  | [] ↦ (c ∷ []) ∷ []
  | segment ∷ rest ↦ if nat_eq c b'/' then [] ∷ segment ∷ rest else (c ∷ segment) ∷ rest
]

-- What was decoded, if it is not empty and encodes to the value.
canonical_of : (value decoded : Text) → Option Text
canonical_of value [] = none
canonical_of value (c ∷ decoded) = do
  encoded ← encode_uri_component (c ∷ decoded)
  if text_eq encoded value then some (c ∷ decoded) else none

-- decodeCanonicalSegment
decode_canonical_segment : Text → Option Text
unfolding canonical_of
decode_canonical_segment value = decode_uri_component value >>= canonical_of value

-- CURRENT_STATE_REF_PATTERN, from the entity's id on.
state_coordinate : List Text → Option (Text × Text × Text)
state_coordinate (entity ∷ word ∷ (d ∷ domain) ∷ (k ∷ key) ∷ []) =
    if is_safe_id entity && text_eq word (codes "state")
    then some (entity, d ∷ domain, k ∷ key)
    else none
state_coordinate _ = none

abbrev entity_prefix : Text
entity_prefix = codes "okf://entity/"

abbrev turn_record_prefix : Text
turn_record_prefix = codes "memory://turn-record/"

-- The id of `^prefix([A-Za-z0-9][A-Za-z0-9._-]*)$`.
id_after : Text → Text → Option Text
unfolding after_prefix
id_after prefix ref = do id ← after_prefix prefix ref; if is_safe_id id then some id else none

-- A reference that has the form of a state's but whose segments do not decode is none.
unfoldable pub parse_memory_reference : Text → Option MemoryReference
unfolding id_after segments state_coordinate decode_canonical_segment after_prefix
parse_memory_reference ref = elim (id_after turn_record_prefix ref) [
  | some id ↦ some (turn_record id)
  | none ↦ elim (after_prefix entity_prefix ref >>= λ rest. state_coordinate (segments rest)) [
    | some coordinate ↦ do
      domain ← decode_canonical_segment coordinate.1
      key ← decode_canonical_segment coordinate.2
      some (current_state coordinate.0 domain key)
    | none ↦ do id ← id_after entity_prefix ref; some (okf_entity id)
  ]
]

-- formatCurrentStateMemoryRef; `none` is the TypeError, or the URIError of a lone surrogate.
unfoldable pub format_current_state_memory_ref :
    (entity_ref state_domain state_key : Text) → Option Text
unfolding id_after
format_current_state_memory_ref entity_ref [] state_key = none
format_current_state_memory_ref entity_ref (d ∷ domain) [] = none
format_current_state_memory_ref entity_ref (d ∷ domain) (k ∷ key) = do
  id ← id_after entity_prefix entity_ref
  encoded_domain ← encode_uri_component (d ∷ domain)
  encoded_key ← encode_uri_component (k ∷ key)
  some
      (entity_prefix ++ (id ++ (codes "/state/" ++ (encoded_domain ++ (codes "/" ++ encoded_key)))))

pub data MemoryScopeReference : Type 0 where
  memory_reference : MemoryReference → MemoryScopeReference
  active_scene_scope : (chat_id : Text) → MemoryScopeReference

-- The chat's segment of ACTIVE_SCENE_SCOPE_PATTERN, after its prefix.
active_scene_chat : List Text → Option Text
active_scene_chat ((c ∷ chat) ∷ word ∷ []) =
    if text_eq word (codes "active-scene") then some (c ∷ chat) else none
active_scene_chat _ = none

unfoldable pub parse_memory_scope_reference : Text → Option MemoryScopeReference
unfolding active_scene_chat segments decode_canonical_segment after_prefix
parse_memory_scope_reference ref = elim (parse_memory_reference ref) [
  | some reference ↦ some (memory_reference reference)
  | none ↦ do
    rest ← after_prefix (codes "mnemosyne://chat/") ref
    segment ← active_scene_chat (segments rest)
    chat ← decode_canonical_segment segment
    some (active_scene_scope chat)
]
