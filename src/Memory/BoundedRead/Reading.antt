-- ===== src/Memory/BoundedRead/Reading.antt =====
-- A memory that is read page after page, each from the cursor of the page before.
use mathlib.Core.List.{append-nil}
use tavern_mnemosyne.Prelude.{
  ℕ, suc, ◌+◌, ◌-◌, ◌≡◌, ◌≤◌, ◌<◌, inl, inr, refl, sym, ap, ◌∙◌, true, List, [], ◌∷◌, map, Text,
  length, arith, none, some, ok, leb, leb→le, Bool-cases,
}
use tavern_mnemosyne.Contracts.Identity.{is_hash}
use tavern_mnemosyne.Contracts.Json.{Json, canonicalize, canonical_json, max_safe_integer}
use tavern_mnemosyne.Memory.Reference.{MemoryReference, parse_memory_reference}
use tavern_mnemosyne.Memory.Cursor.{
  CursorContext, Platform, Selector, signed_envelope, encode_cursor, max_selector_length,
}
use tavern_mnemosyne.Memory.Selector.{parse_memory_read_selector}
use tavern_mnemosyne.Memory.Selector.RoundTrip.{parse-encode_cursor}
use tavern_mnemosyne.Memory.Pages.{
  Descriptor, Entry, concat, slice_text, split_codepoints, content_of,
}
use tavern_mnemosyne.Memory.Slices.{take_all, slice_text-append, concat-split_codepoints}
use tavern_mnemosyne.Memory.BoundedRead.Shape.{IsPage}

-- Only a text that is no longer than a selector may be is read.
parse-short :
    (platform : Platform) (context : CursorContext) (cursor : Text) (selector : Selector)
    → parse_memory_read_selector platform context cursor ≡ ok selector
    → length cursor ≤ max_selector_length
unfolding parse_memory_read_selector
parse-short platform context [] selector e = omega arith
parse-short platform context (c ∷ s) selector e =
    elim (Bool-cases (leb (suc (length s)) max_selector_length)) [
      | inl short ↦ leb→le _ _ short
      | inr long ↦ ground (arith, e, long)
    ]

module _ (platform : Platform) (context : CursorContext) (memory : Json) where
  abbrev pub memory_hash : Text
  memory_hash = platform.sha256 (canonical_json memory)

  abbrev pub codepoints : List Text
  codepoints = split_codepoints (content_of memory)

  -- The memory under a selector.
  abbrev pub described : Selector → Descriptor
  described selector = record {
    selector = selector;
    memory = memory;
    memory_hash = memory_hash;
    codepoints = codepoints;
  }

  -- The pages that a reader gets who follows the cursors until a page has none.
  pub data Reading : Selector → List Entry → Type 0 where
    last_page :
        (selector : Selector) (entry : Entry)
        → IsPage platform context (described selector) entry
        → entry.continuation_cursor ≡ none
        → Reading selector (entry ∷ [])
    next_page :
        {entries : List Entry} (selector next : Selector) (entry : Entry) (cursor : Text)
        → IsPage platform context (described selector) entry
        → entry.continuation_cursor ≡ some cursor
        → parse_memory_read_selector platform context cursor ≡ ok next
        → Reading next entries
        → Reading selector (entry ∷ entries)

  last-ends :
      (selector : Selector) (entry : Entry)
      → IsPage platform context (described selector) entry
      → entry.continuation_cursor ≡ none
      → entry.end_codepoint ≡ length codepoints
  last-ends selector entry page nothing = elim page.continues [
    | inl (whole, _) ↦ whole
    | inr (left, (text, is_text, encoded)) ↦ ground (arith, nothing, is_text)
  ]

  slice_of :
      {end_offset : ℕ} (selector : Selector) (entry : Entry)
      → IsPage platform context (described selector) entry
      → entry.end_codepoint ≡ end_offset
      → entry.content ≡ slice_text codepoints selector.start_codepoint_offset end_offset
  slice_of selector entry page e = rw (page.text, page.starts, e) refl

  module _ (ref : Text) (reference : MemoryReference)
      (r : parse_memory_reference ref ≡ some reference)
      (base64 : (next : ℕ) (signed : Json)
        → 1 ≤ next
        → next < length codepoints
        → signed_envelope platform context ref next memory_hash ≡ ok signed
        → platform.from_base64url (platform.to_base64url (canonical_json signed))
          ≡ canonical_json signed)
      (json : (next : ℕ) (signed : Json)
        → 1 ≤ next
        → next < length codepoints
        → signed_envelope platform context ref next memory_hash ≡ ok signed
        → platform.parse_json (canonical_json signed) ≡ some (canonicalize signed))
      (hmac : (secret : List ℕ) (text : Text) → is_hash (platform.hmac_sha256 secret text) ≡ true)
      (hash : is_hash memory_hash ≡ true) (small : length codepoints ≤ max_safe_integer) where
    -- The next page is of the same reference and starts where the page ended.
    next-starts :
        (selector next : Selector) (entry : Entry) (cursor : Text)
        → selector.ref ≡ ref
        → IsPage platform context (described selector) entry
        → entry.continuation_cursor ≡ some cursor
        → parse_memory_read_selector platform context cursor ≡ ok next
        → (next.ref ≡ ref)
          × (next.start_codepoint_offset ≡ entry.end_codepoint)
          × (selector.start_codepoint_offset < entry.end_codepoint)
          × (entry.end_codepoint < length codepoints)
    next-starts selector next entry cursor of_ref page has e = elim page.continues [
      | inl (whole, nothing) ↦ ground (arith, has, nothing)
      | inr (left, (text, is_text, encoded)) ↦
          let same : text ≡ cursor = ground (arith, has, is_text) in
          let moved : selector.start_codepoint_offset < entry.end_codepoint =
            ground (arith, page.advances, page.ends, page.starts, page.forward, left) in
          let made : encode_cursor platform context ref entry.end_codepoint memory_hash
              ≡ ok cursor =
            rw (sym of_ref, sym same) encoded in
          let read =
            parse-encode_cursor platform context ref entry.end_codepoint memory_hash cursor
              reference (λ signed. base64 entry.end_codepoint signed (omega (arith, moved)) left)
              (λ signed. json entry.end_codepoint signed (omega (arith, moved)) left) hmac
              (omega (arith, left, small)) hash r made
              (parse-short platform context cursor next e) in
          (ground (arith, read, e), ground (arith, read, e), moved, left)
    ]

    Reading-content :
        (selector : Selector) (entries : List Entry)
        → selector.ref ≡ ref
        → Reading selector entries
        → (concat (map (λ entry. entry.content) entries)
            ≡ slice_text codepoints selector.start_codepoint_offset (length codepoints))
          × (length entries ≤ length codepoints - selector.start_codepoint_offset + 1)
    Reading-content selector _ of_ref (last_page _ entry page nothing) =
        let whole = last-ends selector entry page nothing in
        (append-nil entry.content ∙ slice_of selector entry page whole, omega arith)
    Reading-content selector _ of_ref (next_page {entries} _ next entry cursor page has e rest) =
        let step = next-starts selector next entry cursor of_ref page has e in
        let later = Reading-content next entries step.0 rest in
        let text = slice_of selector entry page refl in
        let start : selector.start_codepoint_offset ≤ entry.end_codepoint = omega (arith, step.2) in
        (
          rw (text, later.0, step.1)
              (slice_text-append codepoints selector.start_codepoint_offset entry.end_codepoint
                (length codepoints) start page.ends),
          omega (arith, later.1, step.1, step.2, step.3),
        )

    -- A reader who follows the cursors of a memory from its start gets all of its text, in order, in at most one
    -- page more than it has code points. The reference is a supported one; the memory's hash has the
    -- form of a hash and its length is a safe integer; for the cursors into the memory base64url and
    -- JSON.parse undo what wrote them, and the HMAC in hex has the form of a hash.
    pub Reading-whole :
        (selector : Selector) (entries : List Entry)
        → selector.ref ≡ ref
        → selector.start_codepoint_offset ≡ 0
        → Reading selector entries
        → (concat (map (λ entry. entry.content) entries) ≡ content_of memory)
          × (length entries ≤ length codepoints + 1)
    unfolding slice_text
    Reading-whole selector entries of_ref start reading =
        let all = Reading-content selector entries of_ref reading in
        let whole : slice_text codepoints 0 (length codepoints) ≡ concat codepoints =
          ap concat (take_all (length codepoints - 0) codepoints (omega arith)) in
        (
          all.0 ∙ (rw start whole ∙ concat-split_codepoints (content_of memory)),
          omega (arith, all.1, start),
        )
