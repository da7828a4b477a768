-- ===== src/Memory/BoundedRead.antt =====
-- memory/bounded-memory-read.js: createBoundedMemoryReadResult, over the pages of Memory.Pages.
pub mod Search
pub mod Shape
pub mod Growth
pub mod Collected
pub mod Served
pub mod Answer
pub mod Reading
use tavern_mnemosyne.Prelude.{
  ℕ, zero, suc, ◌+◌, ◌-◌, ◌/◌, Bool, true, false, not, ◌&&◌, ◌||◌, List, [], ◌∷◌, ltb, leb, nat_eq,
  text_eq, if◌then◌else◌, Text, codes, length, Option, none, some, Result, ok, err, ◌>>=◌, ◌>>◌,
  guard,
}
use tavern_mnemosyne.Contracts.Json.{canonical_json, max_safe_integer}
use tavern_mnemosyne.Memory.Cursor.{
  MemoryReadError, CursorContext, Selector, Platform, memory_read_cursor_stale,
  memory_read_cursor_invalid, memory_read_budget_invalid, memory_read_result_invalid,
  memory_read_budget_too_small,
}
use tavern_mnemosyne.Memory.Pages.{
  ReadResult, ContextPack, Descriptor, content_of, split_codepoints, context_pack, with_entry,
  with_omission, measured_result, paged_entry,
}

abbrev is_ready : ReadResult → Bool
is_ready result = text_eq result.status (codes "ready")

-- The form of a result, for its selector.
answers : Selector → ReadResult → Bool
answers selector result =
    text_eq result.schema (codes "mnemosyne.memory-read-result.v2")
    && ((is_ready result || text_eq result.status (codes "unavailable"))
        && text_eq result.ref selector.ref)

is_stale : Option Text → Text → Bool
is_stale none memory_hash = false
is_stale (some expected) memory_hash = not (text_eq expected memory_hash)

-- A ready result as a descriptor.
describe : Platform → Selector → ReadResult → Result MemoryReadError Descriptor
unfolding is_stale
describe platform selector result = do
  let memory_hash = platform.sha256 (canonical_json result.memory)
  let codepoints = split_codepoints (content_of result.memory)
  guard (not (is_stale selector.expected_memory_hash memory_hash)) memory_read_cursor_stale
  guard (leb selector.start_codepoint_offset (length codepoints)) memory_read_cursor_invalid
  ok (record {
    selector = selector;
    memory = result.memory;
    memory_hash = memory_hash;
    codepoints = codepoints;
  })

describe_ready :
    Platform → (ready : Bool) → Selector → ReadResult → Result MemoryReadError (Option Descriptor)
unfolding describe
describe_ready platform false selector result = ok none
describe_ready platform true selector result = do
  descriptor ← describe platform selector result
  ok (some descriptor)

add_described : Option Descriptor → Text → List Descriptor × List Text → List Descriptor × List Text
add_described none ref (descriptors, missing_refs) = (descriptors, ref ∷ missing_refs)
add_described (some descriptor) ref (descriptors, missing_refs) =
    (descriptor ∷ descriptors, missing_refs)

-- `descriptors` and `missingRefs`; the lists are of one length.
unfoldable pub collect :
    Platform
    → List Selector
    → List ReadResult
    → Result MemoryReadError (List Descriptor × List Text)
unfolding answers describe_ready add_described
collect platform (selector ∷ selectors) (result ∷ results) = do
  guard (answers selector result) memory_read_result_invalid
  described ← describe_ready platform (is_ready result) selector result
  rest ← collect platform selectors results
  ok (add_described described selector.ref rest)
collect platform _ _ = ok ([], [])

-- `low` at the start of the search.
unfoldable pub first_end : Descriptor → ℕ
first_end descriptor =
    let start = descriptor.selector.start_codepoint_offset in
    if nat_eq (length descriptor.codepoints) start then start else start + 1

-- The checks on the arguments; a number that is no integer is refused as well.
abbrev pub is_valid_budget : (selectors : List Selector) → List ReadResult → ℕ → ℕ → Bool
is_valid_budget selectors results max_tokens max_allowed_tokens =
    ltb 0 (length selectors)
    && (nat_eq (length selectors) (length results)
        && (ltb 0 max_tokens
            && (ltb 0 max_allowed_tokens
                && (leb max_allowed_tokens max_safe_integer && leb max_tokens max_allowed_tokens))))

module _ (platform : Platform) (context : CursorContext)
    (measure_serialized_result_tokens : ContextPack → Option ℕ) where
  -- The pack with the page of a memory that ends at an offset, measured.
  unfoldable pub candidate : ContextPack → Descriptor → ℕ → Result MemoryReadError ContextPack
  unfolding with_entry
  candidate sealed descriptor end_offset = do
    entry ← paged_entry platform context descriptor end_offset
    measured_result measure_serialized_result_tokens (with_entry sealed entry)

  -- The binary search for the end of the page, between `low` and the end before `past_high`.
  unfoldable pub search :
      (fuel max_tokens : ℕ)
      → ContextPack
      → Descriptor
      → (low past_high : ℕ) → Option ContextPack
      → Result MemoryReadError (Option ContextPack)
  search zero max_tokens sealed descriptor low past_high best = ok best
  search (suc fuel) max_tokens sealed descriptor low past_high best =
      if not (ltb low past_high)
      then ok best
      else candidate sealed descriptor ((low + (past_high - 1)) / 2) >>= λ measured.
          search fuel max_tokens sealed descriptor
            (if leb measured.used_tokens max_tokens then (low + (past_high - 1)) / 2 + 1 else low)
            (if leb measured.used_tokens max_tokens then past_high else (low + (past_high - 1)) / 2)
            (if leb measured.used_tokens max_tokens then some measured else best)

  unfoldable pub best_page :
      ℕ → ContextPack → Descriptor → Result MemoryReadError (Option ContextPack)
  unfolding first_end
  best_page max_tokens sealed descriptor =
      let total = length descriptor.codepoints in
      search (total + 1) max_tokens sealed descriptor (first_end descriptor) (total + 1) none

  -- What the loop does with a descriptor for which no page fits.
  unfoldable pub omit : ℕ → ContextPack → Descriptor → Result MemoryReadError ContextPack
  unfolding with_omission
  omit max_tokens sealed descriptor =
      if nat_eq (length sealed.entries) 0
      then err memory_read_budget_too_small
      else measured_result measure_serialized_result_tokens
          (with_omission sealed descriptor.selector.ref)
        >>= λ measured. ok (if leb measured.used_tokens max_tokens then measured else sealed)

  unfoldable pub seal : ℕ → ContextPack → Descriptor → Result MemoryReadError ContextPack
  seal max_tokens sealed descriptor = best_page max_tokens sealed descriptor >>= λ best. elim best [
    | none ↦ omit max_tokens sealed descriptor
    | some measured ↦ ok measured
  ]

  unfoldable pub seal_each : ℕ → ContextPack → List Descriptor → Result MemoryReadError ContextPack
  seal_each max_tokens sealed [] = ok sealed
  seal_each max_tokens sealed (descriptor ∷ rest) =
      seal max_tokens sealed descriptor >>= λ next. seal_each max_tokens next rest

  -- createBoundedMemoryReadResult
  unfoldable pub create_bounded_memory_read_result :
      List Selector
      → List ReadResult
      → (max_tokens max_allowed_tokens : ℕ) → Result MemoryReadError ContextPack
  create_bounded_memory_read_result selectors results max_tokens max_allowed_tokens = do
    guard (is_valid_budget selectors results max_tokens max_allowed_tokens)
        memory_read_budget_invalid
    collected ← collect platform selectors results
    sealed ← measured_result measure_serialized_result_tokens (context_pack max_tokens collected.1)
    guard (leb sealed.used_tokens max_tokens) memory_read_budget_too_small
    seal_each max_tokens sealed collected.0
