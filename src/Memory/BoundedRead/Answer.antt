-- ===== src/Memory/BoundedRead/Answer.antt =====
-- What createBoundedMemoryReadResult answers.
use tavern_mnemosyne.Prelude.{
  ℕ, ◌≡◌, ◌≤◌, List, [], Text, length, leb, leb→le, arith, Option, some, ok, Result-cases,
  Bool-cases, inl, inr, All, contains, text_has_eq,
}
use tavern_mnemosyne.Memory.Cursor.{Selector, CursorContext, Platform}
use tavern_mnemosyne.Memory.Pages.{
  ContextPack, Descriptor, ReadResult, context_pack, measured_result, distinct,
}
use tavern_mnemosyne.Memory.BoundedRead.{
  collect, is_valid_budget, create_bounded_memory_read_result,
}
use tavern_mnemosyne.Memory.BoundedRead.Collected.{
  Collected, collected_all, described, unavailable, collect-Collected, Unique, contains-distinct,
  distinct-Unique,
}
use tavern_mnemosyne.Memory.BoundedRead.Shape.{IsMeasured, measured_result-IsMeasured}
use tavern_mnemosyne.Memory.BoundedRead.Served.{Served, seal_each-Served}
use tavern_mnemosyne.Memory.BoundedRead.Growth.{cursors_of}

-- The selector starts inside its memory.
abbrev StartsInside : Descriptor → Type 0
StartsInside descriptor = descriptor.selector.start_codepoint_offset ≤ length descriptor.codepoints

Collected-StartsInside :
    (platform : Platform) (selectors : List Selector) (results : List ReadResult)
    (descriptors : List Descriptor) (missing : List Text)
    → Collected platform selectors results descriptors missing
    → All StartsInside descriptors
Collected-StartsInside platform _ _ _ _ collected_all = tt
Collected-StartsInside platform _ _ _ _
      (described {descriptors = rest} selector result descriptor is later) =
    (rw (is.of_selector, is.of_text) is.inside, Collected-StartsInside platform _ _ rest _ later)
Collected-StartsInside platform _ _ descriptors _ (unavailable selector result status asked later) =
    Collected-StartsInside platform _ _ descriptors _ later

module _ (platform : Platform) (context : CursorContext) (measure : ContextPack → Option ℕ) where
  -- What an answer is made of: the descriptors of the results, the pack that it starts from, and what became of
  -- each descriptor after that.
  pub record Answered (selectors : List Selector) (results : List ReadResult) (max_tokens : ℕ)
      (result : ContextPack) : Type 0 where
    pub descriptors : List Descriptor
    pub missing : List Text
    pub collected : Collected platform selectors results descriptors missing
    pub opened : ContextPack
    pub opened_empty : (opened.entries ≡ []) × (opened.omissions ≡ [])
    pub served :
        Served platform context measure max_tokens opened descriptors result.entries
          result.omissions
    pub cursors : result.continuation_cursors ≡ cursors_of result.entries
    pub missing_once : Unique result.missing_refs
    pub missing_refs : (ref : Text) → contains result.missing_refs ref ≡ contains missing ref

  create-Answered :
      (selectors : List Selector) (results : List ReadResult) (max_tokens max_allowed_tokens : ℕ)
      (result : ContextPack)
      → create_bounded_memory_read_result platform context measure selectors results max_tokens
          max_allowed_tokens
        ≡ ok result
      → (IsMeasured measure result
          × (result.used_tokens ≤ max_tokens)
          × (result.requested_tokens ≡ max_tokens))
        × Answered selectors results max_tokens result
  unfolding create_bounded_memory_read_result context_pack
  create-Answered selectors results max_tokens max_allowed_tokens result e =
      elim (Bool-cases (is_valid_budget selectors results max_tokens max_allowed_tokens)) [
        | inr invalid ↦ ground (arith, e, invalid)
        | inl valid ↦ elim (Result-cases (collect platform selectors results)) [
          | inr (refused, e') ↦ ground (arith, e, valid, e')
          | inl (collected, e') ↦
              elim (Result-cases (measured_result measure (context_pack max_tokens collected.1))) [
                | inr (refused, e'') ↦ ground (arith, e, valid, e', e'')
                | inl (sealed, e'') ↦ elim (Bool-cases (leb sealed.used_tokens max_tokens)) [
                  | inr large ↦ ground (arith, e, valid, e', e'', large)
                  | inl fits ↦
                      let all_of =
                        collect-Collected platform selectors results collected
                          (ground (arith, valid)) e' in
                      let first =
                        measured_result-IsMeasured measure (context_pack max_tokens collected.1)
                          sealed e'' in
                      let all =
                        seal_each-Served platform context measure max_tokens collected.0 sealed
                          result (first.0, leb→le _ _ fits)
                          (Collected-StartsInside platform selectors results collected.0 collected.1
                            all_of)
                          (ground (arith, e, valid, e', e'', fits)) in
                      let grown = all.1.3 in
                      let same_entries : result.entries ≡ all.1.0 =
                        ground (arith, grown.more_entries, first.1) in
                      let same_omissions : result.omissions ≡ all.1.1 =
                        ground (arith, grown.more_omissions, first.1) in
                      let same_missing : result.missing_refs ≡ distinct [] collected.1 =
                        ground (arith, grown.same_missing, first.1) in
                      (
                        (all.0.0, all.0.1, ground (arith, grown.same_request, first.1)),
                        record {
                          descriptors = collected.0;
                          missing = collected.1;
                          collected = all_of;
                          opened = sealed;
                          opened_empty = (ground (arith, first.1), ground (arith, first.1));
                          served = rw (same_entries, same_omissions) all.1.2;
                          cursors = rw same_entries (ground (arith, grown.more_cursors, first.1));
                          missing_once = rw same_missing (distinct-Unique [] collected.1);
                          missing_refs = λ ref. rw same_missing (
                              unfold contains in
                              ground (arith, contains-distinct [] collected.1 ref));
                        },
                      )
                ]
              ]
        ]
      ]

  -- A result that is answered is measured: the tokens it reports are those that the measure counts on the result
  -- itself, that number included, and they are within the requested budget, which it reports too.
  pub create_fits :
      (selectors : List Selector) (results : List ReadResult) (max_tokens max_allowed_tokens : ℕ)
      (result : ContextPack)
      → create_bounded_memory_read_result platform context measure selectors results max_tokens
          max_allowed_tokens
        ≡ ok result
      → (measure result ≡ some result.used_tokens)
        × (result.used_tokens ≤ max_tokens)
        × (result.requested_tokens ≡ max_tokens)
  create_fits selectors results max_tokens max_allowed_tokens result e =
      (create-Answered selectors results max_tokens max_allowed_tokens result e).0
