-- ===== src/Memory/BoundedRead/Shape.antt =====
-- What measuredResult and pagedEntry of memory/bounded-memory-read.js answer.
use tavern_mnemosyne.Prelude.{
  ℕ, zero, suc, ◌≡◌, ◌≤◌, ◌<◌, ◌⊎◌, inl, inr, refl, Bool, true, false, Text, length, nat_eq, ltb,
  arith, Option, none, some, ok, Result-cases, Bool-cases, Option-cases,
}
use tavern_mnemosyne.Memory.Cursor.{CursorContext, Platform, encode_cursor}
use tavern_mnemosyne.Memory.Pages.{
  ContextPack, Descriptor, Entry, slice_text, measure_attempts, measured_result, paged_entry,
  page_cursor,
}
use tavern_mnemosyne.Memory.BoundedRead.{first_end}

module _ (measure : ContextPack → Option ℕ) where
  -- A pack whose tokens are what the measure answers for it.
  abbrev pub IsMeasured : ContextPack → Type 0
  IsMeasured pack = measure pack ≡ some pack.used_tokens

  measure_attempts-IsMeasured :
      (attempts : ℕ) (pack measured : ContextPack) (used : ℕ)
      → measure_attempts measure attempts pack used ≡ ok measured
      → IsMeasured measured × (measured ≡ record pack { used_tokens = measured.used_tokens })
  unfolding measure_attempts
  measure_attempts-IsMeasured zero pack measured used e = ground (arith, e)
  measure_attempts-IsMeasured (suc attempts) pack measured used e =
      elim (Option-cases (measure (record pack { used_tokens = used }))) [
        | inl refused ↦ ground (arith, e, refused)
        | inr (next, answer) ↦ elim (Bool-cases (nat_eq next used)) [
          | inl stable ↦
              let same : measured ≡ record pack { used_tokens = used } =
                ground (arith, e, answer, stable) in
              (ground (arith, same, answer, stable), ground (arith, same))
          | inr moved ↦
              measure_attempts-IsMeasured attempts pack measured next
                (ground (arith, e, answer, moved))
        ]
      ]

  pub measured_result-IsMeasured :
      (pack measured : ContextPack)
      → measured_result measure pack ≡ ok measured
      → IsMeasured measured × (measured ≡ record pack { used_tokens = measured.used_tokens })
  unfolding measured_result
  measured_result-IsMeasured pack measured e = measure_attempts-IsMeasured 128 pack measured 0 e

module _ (platform : Platform) (context : CursorContext) where
  -- The cursor of a page: one that continues at its end, or none when nothing is left.
  abbrev pub HasCursor : Descriptor → Entry → Type 0
  HasCursor descriptor entry =
      ((entry.end_codepoint ≡ length descriptor.codepoints) × (entry.continuation_cursor ≡ none))
      ⊎ ((entry.end_codepoint < length descriptor.codepoints)
          × ((cursor : Text) × (entry.continuation_cursor ≡ some cursor)
              × (encode_cursor platform context descriptor.selector.ref entry.end_codepoint
                    descriptor.memory_hash
                  ≡ ok cursor)))

  -- A page of a memory from where its selector starts, which has a code point if there is one left.
  pub record IsPage (descriptor : Descriptor) (entry : Entry) : Type 0 where
    pub of_memory : entry.memory ≡ descriptor.memory
    pub hash : entry.memory_hash ≡ descriptor.memory_hash
    pub starts : entry.start_codepoint ≡ descriptor.selector.start_codepoint_offset
    pub forward : entry.start_codepoint ≤ entry.end_codepoint
    pub ends : entry.end_codepoint ≤ length descriptor.codepoints
    pub advances :
        (descriptor.selector.start_codepoint_offset < entry.end_codepoint)
        ⊎ (descriptor.selector.start_codepoint_offset ≡ length descriptor.codepoints)
    pub text :
        entry.content ≡ slice_text descriptor.codepoints entry.start_codepoint entry.end_codepoint
    pub total : entry.total_codepoints ≡ length descriptor.codepoints
    pub continues : HasCursor descriptor entry

  page_cursor-cases :
      (descriptor : Descriptor) (end_offset : ℕ) (truncated : Bool) (cursor : Option Text)
      → page_cursor platform context descriptor end_offset truncated ≡ ok cursor
      → ((truncated ≡ false) × (cursor ≡ none))
        ⊎ ((truncated ≡ true)
            × ((text : Text) × (cursor ≡ some text)
                × (encode_cursor platform context descriptor.selector.ref end_offset
                      descriptor.memory_hash
                    ≡ ok text)))
  unfolding page_cursor
  page_cursor-cases descriptor end_offset false cursor e = inl (refl, ground (arith, e))
  page_cursor-cases descriptor end_offset true cursor e =
      elim (Result-cases (
        encode_cursor platform context descriptor.selector.ref end_offset descriptor.memory_hash)) [
          | inr (refused, e') ↦ ground (arith, e, e')
          | inl (text, e') ↦ inr (refl, (text, ground (arith, e, e'), e'))
        ]

  pub paged_entry-IsPage :
      (descriptor : Descriptor) (end_offset : ℕ) (entry : Entry)
      → first_end descriptor ≤ end_offset
      → end_offset ≤ length descriptor.codepoints
      → paged_entry platform context descriptor end_offset ≡ ok entry
      → IsPage descriptor entry
  unfolding paged_entry first_end
  paged_entry-IsPage descriptor end_offset entry from upto e =
      let total = length descriptor.codepoints in
      elim (Result-cases
        (page_cursor platform context descriptor end_offset (ltb end_offset total))) [
          | inr (refused, e') ↦ ground (arith, e, e')
          | inl (cursor, e') ↦ record {
            of_memory = ground (arith, e, e');
            hash = ground (arith, e, e');
            starts = ground (arith, e, e');
            forward = ground (arith, e, e', from);
            ends = ground (arith, e, e', upto);
            advances = ground (arith, e, e', from);
            text = ground (arith, e, e');
            total = ground (arith, e, e');
            continues =
                elim (page_cursor-cases descriptor end_offset (ltb end_offset total) cursor e') [
                  | inl (whole, nothing) ↦
                      inl (ground (arith, e, e', upto, whole), ground (arith, e, e', nothing))
                  | inr (rest, (text, page, encoded)) ↦
                      let last : entry.end_codepoint ≡ end_offset = ground (arith, e, e') in
                      inr (
                        ground (arith, e, e', rest),
                        (text, ground (arith, e, e', page), rw last encoded),
                      )
                ];
          }
        ]
