-- ===== src/Tests/Memory.antt =====
-- A memory of two code points, read in two pages.
use tavern_mnemosyne.Prelude.{
  ℕ, ◌≡◌, ◌⊎◌, ◌≤◌, ◌<◌, refl, ap, sym, subst, List, [], ◌∷◌, ◌++◌, Text, codes, length, text_eq,
  text_eq_refl, if◌then◌else◌, arith, Option, none, some, ok, pos, true, false, inl, inr, ◌+◌,
}
use tavern_mnemosyne.Contracts.Identity.{is_hash, is_safe_id}
use tavern_mnemosyne.Contracts.Json.{
  Json, get_field, count_fields, keys_within, str, obj, field, end, canonicalize, canonical_json,
}
use tavern_mnemosyne.Memory.Uri.{encode_uri_component, decode_uri_component, is_unreserved}
use tavern_mnemosyne.Memory.Reference.{
  after_prefix, turn_record, current_state, parse_memory_reference, parse_memory_scope_reference,
  active_scene_scope, format_current_state_memory_ref,
}
use tavern_mnemosyne.Memory.Cursor.{
  CursorContext, CursorScope, Platform, Selector, scope_json, payload_json, envelope, cursor_prefix,
  signed_envelope, encode_cursor,
}
use tavern_mnemosyne.Memory.Selector.{parse_memory_read_selector}
use tavern_mnemosyne.Memory.Selector.RoundTrip.{parse-encode_cursor}
use tavern_mnemosyne.Memory.Pages.{
  ContextPack, Entry, Descriptor, ReadResult, content_of, split_codepoints, measured_result,
  context_pack, paged_entry, slice_text,
}
use tavern_mnemosyne.Memory.BoundedRead.{
  create_bounded_memory_read_result, best_page, collect, seal_each, seal, search, candidate,
  first_end,
}
use tavern_mnemosyne.Memory.BoundedRead.Shape.{IsPage}
use tavern_mnemosyne.Memory.BoundedRead.Search.{Fits, IsTooLarge, best_page-IsMaximal}
use tavern_mnemosyne.Memory.BoundedRead.Answer.{create_fits}
use tavern_mnemosyne.Memory.BoundedRead.Reading.{
  Reading, described, last_page, next_page, Reading-whole,
}

abbrev hash_text : Text
hash_text = codes "aaaaaaaaaaaaaaaaaaaaaaaaaaaaaaaaaaaaaaaaaaaaaaaaaaaaaaaaaaaaaaaa"

abbrev run_scope : CursorScope
run_scope = record {
  chat_id = codes "chat";
  run_id = codes "run";
  branch_id = codes "main";
  branch_epoch = pos 0;
  turn_index = pos 4;
}

abbrev reading_context : CursorContext
reading_context = record {
  cursor_secret = some (codes "0123456789abcdef0123456789abcdef");
  scope = some run_scope;
  retrieval_contract_version = some (codes "v2");
}

abbrev record_ref : Text
record_ref = codes "memory://turn-record/r1"

abbrev signed_at : ℕ → Json
signed_at next =
    envelope (payload_json (codes "v2") (scope_json hash_text run_scope) record_ref next hash_text)
      hash_text

-- A platform on which only one cursor can be parsed.
abbrev small_platform : Platform
small_platform = record {
  sha256 = λ text. hash_text;
  hmac_sha256 = λ secret text. hash_text;
  to_base64url = λ text. text;
  from_base64url = λ text. text;
  parse_json = λ text.
      if text_eq text (canonical_json (signed_at 1))
      then some (canonicalize (signed_at 1))
      else none;
}

abbrev cursor_at : ℕ → Text
cursor_at next = cursor_prefix ++ canonical_json (signed_at next)

encode_at :
    (next : ℕ)
    → encode_cursor small_platform reading_context record_ref next hash_text ≡ ok (cursor_at next)
unfolding encode_cursor signed_envelope
encode_at next = refl

abbrev memory : Json
memory = obj (field (codes "content") (str (codes "ab")) end)

abbrev selector_at : (selector : Text) → ℕ → Option Text → Selector
selector_at selector start expected = record {
  selector = selector;
  ref = record_ref;
  start_codepoint_offset = start;
  expected_memory_hash = expected;
}

abbrev from_start : Selector
from_start = selector_at record_ref 0 none

abbrev from_cursor : Selector
from_cursor = selector_at (cursor_at 1) 1 (some hash_text)

abbrev page_one : Entry
page_one = record {
  memory = memory;
  content = codes "a";
  memory_hash = hash_text;
  start_codepoint = 0;
  end_codepoint = 1;
  total_codepoints = 2;
  truncated = true;
  continuation_cursor = some (cursor_at 1);
}

abbrev page_two : Entry
page_two = record {
  memory = memory;
  content = codes "b";
  memory_hash = hash_text;
  start_codepoint = 1;
  end_codepoint = 2;
  total_codepoints = 2;
  truncated = false;
  continuation_cursor = none;
}

-- Ten tokens for each page and one for each unit of its text.
abbrev measure_of : List Entry → ℕ
measure_of [] = 0
measure_of (entry ∷ entries) = 10 + length entry.content + measure_of entries

abbrev measure : ContextPack → Option ℕ
measure pack = some (measure_of pack.entries)

abbrev first_answer : ContextPack
first_answer = record {
  entries = page_one ∷ [];
  missing_refs = [];
  omissions = [];
  continuation_cursors = cursor_at 1 ∷ [];
  requested_tokens = 11;
  used_tokens = 11;
}

abbrev ready_result : ReadResult
ready_result = record {
  schema = codes "mnemosyne.memory-read-result.v2";
  status = codes "ready";
  ref = record_ref;
  memory = memory;
}

create_first :
    create_bounded_memory_read_result small_platform reading_context measure
      (from_start ∷ [])
      (ready_result ∷ [])
      11
      8192
    ≡ ok first_answer
unfolding create_bounded_memory_read_result collect text_eq split_codepoints content_of get_field
    measured_result context_pack seal_each seal best_page search candidate paged_entry encode_cursor
    signed_envelope
create_first = refl

create_fits_example :
    (measure first_answer ≡ some 11) × (11 ≤ 11) × (first_answer.requested_tokens ≡ 11)
create_fits_example =
    create_fits small_platform reading_context measure (from_start ∷ []) (ready_result ∷ []) 11 8192
      first_answer create_first

is_reference : parse_memory_reference record_ref ≡ some (turn_record (codes "r1"))
unfolding parse_memory_reference is_safe_id
is_reference = refl

hash_text-IsHash : is_hash hash_text ≡ true
unfolding is_hash
hash_text-IsHash = refl

parse_first :
    (signed : Json)
    → signed_envelope small_platform reading_context record_ref 1 hash_text ≡ ok signed
    → small_platform.parse_json (canonical_json signed) ≡ some (canonicalize signed)
unfolding signed_envelope
parse_first signed e =
    let same : signed_at 1 ≡ signed = ground (arith, e) in
    rw (sym same, text_eq_refl (canonical_json (signed_at 1))) refl

cursor_short : length (cursor_at 1) ≤ 4096
unfolding canonical_json
cursor_short = omega arith

parse-encode_cursor_example :
    parse_memory_read_selector small_platform reading_context (cursor_at 1) ≡ ok from_cursor
parse-encode_cursor_example =
    parse-encode_cursor small_platform reading_context record_ref 1 hash_text (cursor_at 1)
      (turn_record (codes "r1")) (λ signed e. refl) parse_first (λ secret text. hash_text-IsHash)
      (omega arith) hash_text-IsHash is_reference (encode_at 1) cursor_short

abbrev empty_pack : ContextPack
empty_pack = record {
  entries = [];
  missing_refs = [];
  omissions = [];
  continuation_cursors = [];
  requested_tokens = 11;
  used_tokens = 0;
}

abbrev descriptor : Descriptor
descriptor = record {
  selector = from_start;
  memory = memory;
  memory_hash = hash_text;
  codepoints = codes "a" ∷ codes "b" ∷ [];
}

best_first :
    best_page small_platform reading_context measure 11 empty_pack descriptor
    ≡ ok (some first_answer)
unfolding best_page search candidate paged_entry encode_cursor signed_envelope measured_result
best_first = refl

best_page-IsMaximal_example :
    ((some first_answer ≡ none)
      × IsTooLarge small_platform reading_context measure 11 empty_pack descriptor 1)
    ⊎ ((end_offset : ℕ) × (1 ≤ end_offset)
        × (end_offset ≤ 2)
        × ((measured : ContextPack) × (some first_answer ≡ some measured)
            × Fits small_platform reading_context measure 11 empty_pack descriptor end_offset
                measured)
        × ((end_offset ≡ 2)
            ⊎ IsTooLarge small_platform reading_context measure 11 empty_pack descriptor
                (end_offset + 1)))
unfolding first_end
best_page-IsMaximal_example =
    best_page-IsMaximal small_platform reading_context measure 11 empty_pack descriptor
      (some first_answer) (omega arith) best_first

whole_codepoints : split_codepoints (content_of memory) ≡ codes "a" ∷ codes "b" ∷ []
unfolding split_codepoints content_of get_field text_eq
whole_codepoints = refl

page_one-IsPage :
    IsPage small_platform reading_context
      (described small_platform reading_context memory from_start)
      page_one
unfolding split_codepoints content_of slice_text get_field text_eq
page_one-IsPage = record {
  of_memory = refl;
  hash = refl;
  starts = refl;
  forward = omega arith;
  ends = omega arith;
  advances = inl (omega arith);
  text = refl;
  total = refl;
  continues = inr (omega arith, (cursor_at 1, refl, encode_at 1));
}

page_two-IsPage :
    IsPage small_platform reading_context
      (described small_platform reading_context memory from_cursor)
      page_two
unfolding split_codepoints content_of slice_text get_field text_eq
page_two-IsPage = record {
  of_memory = refl;
  hash = refl;
  starts = refl;
  forward = omega arith;
  ends = omega arith;
  advances = inl (omega arith);
  text = refl;
  total = refl;
  continues = inl (refl, refl);
}

parse_cursor :
    parse_memory_read_selector small_platform reading_context (cursor_at 1) ≡ ok from_cursor
unfolding parse_memory_read_selector canonical_json after_prefix text_eq get_field count_fields
    keys_within is_hash parse_memory_reference is_safe_id
parse_cursor = refl

two_pages : Reading small_platform reading_context memory from_start (page_one ∷ page_two ∷ [])
two_pages =
    next_page from_start from_cursor page_one (cursor_at 1) page_one-IsPage refl parse_cursor
      (last_page from_cursor page_two page_two-IsPage refl)

-- The only cursor into the memory is the one at its second code point.
parse_any :
    (next : ℕ) (signed : Json)
    → 1 ≤ next
    → next < length (split_codepoints (content_of memory))
    → signed_envelope small_platform reading_context record_ref next hash_text ≡ ok signed
    → small_platform.parse_json (canonical_json signed) ≡ some (canonicalize signed)
parse_any next signed from upto e =
    let only : next ≡ 1 = omega (arith, from, upto, ap length whole_codepoints) in
    parse_first signed (
      subst (λ n. signed_envelope small_platform reading_context record_ref n hash_text ≡ ok signed)
        only e)

short_memory : length (split_codepoints (content_of memory)) ≤ 9_007_199_254_740_991
short_memory = rw whole_codepoints (omega arith)

Reading-whole_example :
    (codes "ab" ≡ content_of memory) × (2 ≤ length (split_codepoints (content_of memory)) + 1)
Reading-whole_example =
    Reading-whole small_platform reading_context memory record_ref (turn_record (codes "r1"))
      is_reference (λ next signed positive inside e. refl) parse_any
      (λ secret text. hash_text-IsHash) hash_text-IsHash short_memory from_start
      (page_one ∷ page_two ∷ []) refl refl two_pages

-- A state's reference is written and read back; an id with a slash is none.
state_reference :
    format_current_state_memory_ref (codes "okf://entity/e1") (codes "mood") (codes "a b")
    ≡ some (codes "okf://entity/e1/state/mood/a%20b")
unfolding format_current_state_memory_ref is_safe_id encode_uri_component is_unreserved
state_reference = refl

state_reference_read :
    parse_memory_reference (codes "okf://entity/e1/state/mood/a%20b")
    ≡ some (current_state (codes "e1") (codes "mood") (codes "a b"))
unfolding parse_memory_reference is_safe_id text_eq decode_uri_component encode_uri_component
    is_unreserved
state_reference_read = refl

accented_reference :
    parse_memory_reference (codes "okf://entity/e1/state/mood/%C3%A9")
    ≡ some (current_state (codes "e1") (codes "mood") (0xe9 ∷ []))
unfolding parse_memory_reference is_safe_id text_eq decode_uri_component encode_uri_component
    is_unreserved
accented_reference = refl

overlong_reference : parse_memory_reference (codes "okf://entity/e1/state/mood/%C1%81") ≡ none
unfolding parse_memory_reference is_safe_id text_eq decode_uri_component encode_uri_component
    is_unreserved
overlong_reference = refl

scene_read :
    parse_memory_scope_reference (codes "mnemosyne://chat/c%2F1/active-scene")
    ≡ some (active_scene_scope (codes "c/1"))
unfolding parse_memory_scope_reference parse_memory_reference is_safe_id text_eq
    decode_uri_component encode_uri_component is_unreserved
scene_read = refl
