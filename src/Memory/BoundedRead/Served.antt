-- ===== src/Memory/BoundedRead/Served.antt =====
-- What the result of a reading contains: its pages, its omissions and its tokens.
use tavern_mnemosyne.Prelude.{
  ℕ, ◌≡◌, ◌≤◌, ◌<◌, sym, ◌⊎◌, inl, inr, subst, List, [], ◌∷◌, length, nat_eq, leb, leb→le, arith,
  Option, ok, Result-cases, Bool-cases, All,
}
use tavern_mnemosyne.Memory.Cursor.{CursorContext, Platform}
use tavern_mnemosyne.Memory.Pages.{
  ContextPack, Descriptor, Entry, Omission, exhausted, measured_result, paged_entry, with_entry,
  with_omission,
}
use tavern_mnemosyne.Memory.BoundedRead.{candidate, first_end, best_page, omit, seal, seal_each}
use tavern_mnemosyne.Memory.BoundedRead.Search.{Fits, IsTooLarge, best_page-IsMaximal}
use tavern_mnemosyne.Memory.BoundedRead.Shape.{
  IsMeasured, measured_result-IsMeasured, IsPage, paged_entry-IsPage,
}
use tavern_mnemosyne.Memory.BoundedRead.Growth.{
  Grown, Grown-refl, Grown-trans, with_entry-Grown, with_omission-Grown,
}

module _ (platform : Platform) (context : CursorContext) (measure : ContextPack → Option ℕ)
    (max_tokens : ℕ) where
  -- The pack is too large even with the least page of a memory, and it has an entry.
  abbrev pub NoPageFits : ContextPack → Descriptor → Type 0
  NoPageFits sealed descriptor =
      IsTooLarge platform context measure max_tokens sealed descriptor (first_end descriptor)
      × (0 < length sealed.entries)

  -- The record of a memory that is left out makes the pack too large.
  abbrev pub NoOmissionFits : ContextPack → Descriptor → Type 0
  NoOmissionFits sealed descriptor =
      (measured : ContextPack) × (measured_result measure
          (with_omission sealed descriptor.selector.ref)
        ≡ ok measured)
      × (max_tokens < measured.used_tokens)

  -- What became of each descriptor from a pack on, in order: a page, an omission where no page fits, or nothing
  -- where the omission does not fit either.
  pub data Served : ContextPack → List Descriptor → List Entry → List Omission → Type 0 where
    nothing_left : (sealed : ContextPack) → Served sealed [] [] []
    page :
        {descriptors : List Descriptor} {entries : List Entry} {omissions : List Omission}
        (sealed next : ContextPack) (descriptor : Descriptor) (entry : Entry)
        → IsPage platform context descriptor entry
        → Grown sealed next (entry ∷ []) []
        → Served next descriptors entries omissions
        → Served sealed (descriptor ∷ descriptors) (entry ∷ entries) omissions
    omission :
        {descriptors : List Descriptor} {entries : List Entry} {omissions : List Omission}
        (sealed next : ContextPack) (descriptor : Descriptor)
        → NoPageFits sealed descriptor
        → Grown sealed next [] (exhausted descriptor.selector.ref ∷ [])
        → Served next descriptors entries omissions
        → Served sealed
            (descriptor ∷ descriptors)
            entries
            (exhausted descriptor.selector.ref ∷ omissions)
    dropped :
        {descriptors : List Descriptor} {entries : List Entry} {omissions : List Omission}
        (sealed : ContextPack) (descriptor : Descriptor)
        → NoPageFits sealed descriptor
        → NoOmissionFits sealed descriptor
        → Served sealed descriptors entries omissions
        → Served sealed (descriptor ∷ descriptors) entries omissions

  -- A measured pack within the budget.
  abbrev pub IsWithin : ContextPack → Type 0
  IsWithin pack = IsMeasured measure pack × (pack.used_tokens ≤ max_tokens)

  -- What one descriptor adds to the pack.
  abbrev Added : ContextPack → Descriptor → ContextPack → Type 0
  Added sealed descriptor next =
      ((entry : Entry) × IsPage platform context descriptor entry
        × Grown sealed next (entry ∷ []) [])
      ⊎ (NoPageFits sealed descriptor
          × (Grown sealed next [] (exhausted descriptor.selector.ref ∷ [])
              ⊎ (NoOmissionFits sealed descriptor × (sealed ≡ next))))

  candidate-Added :
      (sealed next : ContextPack) (descriptor : Descriptor) (measured : ContextPack)
      (end_offset : ℕ)
      → first_end descriptor ≤ end_offset
      → end_offset ≤ length descriptor.codepoints
      → measured ≡ next
      → Fits platform context measure max_tokens sealed descriptor end_offset measured
      → IsWithin next × Added sealed descriptor next
  unfolding candidate with_entry
  candidate-Added sealed next descriptor measured end_offset from upto same (e, fits) =
      elim (Result-cases (paged_entry platform context descriptor end_offset)) [
        | inr (refused, e') ↦ ground (arith, e, e')
        | inl (entry, e') ↦
            let final =
              measured_result-IsMeasured measure (with_entry sealed entry) measured
                (ground (arith, e, e')) in
            (
              subst IsWithin same (final.0, fits),
              inl (
                entry,
                paged_entry-IsPage platform context descriptor end_offset entry from upto e',
                subst (λ pack. Grown sealed pack (entry ∷ []) []) same
                    (with_entry-Grown sealed entry measured final.1),
              ),
            )
      ]

  omit-Added :
      (sealed next : ContextPack) (descriptor : Descriptor)
      → IsWithin sealed
      → IsTooLarge platform context measure max_tokens sealed descriptor (first_end descriptor)
      → omit platform context measure max_tokens sealed descriptor ≡ ok next
      → IsWithin next × Added sealed descriptor next
  unfolding omit with_omission
  omit-Added sealed next descriptor fits large e =
      elim (Bool-cases (nat_eq (length sealed.entries) 0)) [
        | inl nothing ↦ ground (arith, e, nothing)
        | inr several ↦
            elim (Result-cases
              (measured_result measure (with_omission sealed descriptor.selector.ref))) [
                | inr (refused, e') ↦ ground (arith, e, e', several)
                | inl (measured, e') ↦ elim (Bool-cases (leb measured.used_tokens max_tokens)) [
                  | inl less ↦
                      let final =
                        measured_result-IsMeasured measure
                          (with_omission sealed descriptor.selector.ref) measured e' in
                      let same : measured ≡ next = ground (arith, e, e', several, less) in
                      (
                        subst IsWithin same (final.0, leb→le _ _ less),
                        inr (
                          (large, ground (arith, several)),
                          inl (
                              subst
                                (λ pack.
                                  Grown sealed pack [] (exhausted descriptor.selector.ref ∷ []))
                                same
                                (with_omission-Grown sealed descriptor.selector.ref measured
                                  final.1)),
                        ),
                      )
                  | inr more ↦
                      let same : sealed ≡ next = ground (arith, e, e', several, more) in
                      (
                        subst IsWithin same fits,
                        inr (
                          (large, ground (arith, several)),
                          inr ((measured, e', ground (arith, more)), same),
                        ),
                      )
                ]
              ]
      ]

  seal-Added :
      (sealed next : ContextPack) (descriptor : Descriptor)
      → IsWithin sealed
      → descriptor.selector.start_codepoint_offset ≤ length descriptor.codepoints
      → seal platform context measure max_tokens sealed descriptor ≡ ok next
      → IsWithin next × Added sealed descriptor next
  unfolding seal
  seal-Added sealed next descriptor fits inside e =
      elim (Result-cases (best_page platform context measure max_tokens sealed descriptor)) [
        | inr (refused, e') ↦ ground (arith, e, e')
        | inl (found, e') ↦
            elim (best_page-IsMaximal platform context measure max_tokens sealed descriptor found
              inside e') [
                | inl (nothing, large) ↦
                    omit-Added sealed next descriptor fits large (ground (arith, e, e', nothing))
                | inr (end_offset, from, upto, (measured, same, fit), rest) ↦
                    candidate-Added sealed next descriptor measured end_offset from upto
                      (ground (arith, e, e', same)) fit
              ]
      ]

  pub seal_each-Served :
      (descriptors : List Descriptor) (sealed result : ContextPack)
      → IsWithin sealed
      → All
          (λ descriptor. descriptor.selector.start_codepoint_offset ≤ length descriptor.codepoints)
          descriptors
      → seal_each platform context measure max_tokens sealed descriptors ≡ ok result
      → IsWithin result
        × ((entries : List Entry) × (omissions : List Omission) × Served sealed descriptors entries
              omissions
            × Grown sealed result entries omissions)
  unfolding seal_each
  seal_each-Served [] sealed result within inside e =
      let same : sealed ≡ result = ground (arith, e) in
      (
        subst IsWithin same within,
        (
          [],
          [],
          nothing_left sealed,
          subst (λ pack. Grown sealed pack [] []) same (Grown-refl sealed),
        ),
      )
  seal_each-Served (descriptor ∷ rest) sealed result within inside e =
      elim (Result-cases (seal platform context measure max_tokens sealed descriptor)) [
        | inr (refused, e') ↦ ground (arith, e, e')
        | inl (next, e') ↦
            let added = seal-Added sealed next descriptor within inside.0 e' in
            let later =
              seal_each-Served rest next result added.0 inside.1 (ground (arith, e, e')) in
            (
              later.0,
              elim added.1 [
                | inl (entry, is_page, grown) ↦ (
                  entry ∷ later.1.0,
                  later.1.1,
                  page sealed next descriptor entry is_page grown later.1.2,
                  Grown-trans _ _ _ _ _ _ _ grown later.1.3,
                )
                | inr (large, inl grown) ↦ (
                  later.1.0,
                  _ ∷ later.1.1,
                  omission sealed next descriptor large grown later.1.2,
                  Grown-trans _ _ _ _ _ _ _ grown later.1.3,
                )
                | inr (large, inr (unrecorded, same)) ↦ (
                  later.1.0,
                  later.1.1,
                  dropped sealed descriptor large unrecorded
                      (subst (λ pack. Served pack rest later.1.0 later.1.1) (sym same) later.1.2),
                  subst (λ pack. Grown pack result later.1.0 later.1.1) (sym same) later.1.3,
                )
              ],
            )
      ]
