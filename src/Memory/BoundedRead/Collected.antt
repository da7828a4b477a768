-- ===== src/Memory/BoundedRead/Collected.antt =====
-- What createBoundedMemoryReadResult collects of the results: a descriptor of each ready one, and the
-- references of the others.
use tavern_mnemosyne.Prelude.{
  ◌≡◌, refl, ◌≤◌, ◌⊎◌, inl, inr, true, false, not, ◌&&◌, List, [], ◌∷◌, Text, codes, length, leb,
  leb→le, text_eq_iff, contains, text_has_eq, arith, Option, none, some, ok, Result-cases,
  Bool-cases, subst,
}
use tavern_mnemosyne.Contracts.Json.{canonical_json}
use tavern_mnemosyne.Memory.Cursor.{Selector, Platform}
use tavern_mnemosyne.Memory.Pages.{Descriptor, ReadResult, content_of, split_codepoints, distinct}
use tavern_mnemosyne.Memory.BoundedRead.{
  answers, is_stale, describe, describe_ready, add_described, is_ready, collect,
}

-- A descriptor is of a selector and its ready result, which it starts inside of.
pub record IsDescribed (platform : Platform) (selector : Selector) (result : ReadResult)
    (descriptor : Descriptor) : Type 0 where
  pub ready : result.status ≡ codes "ready"
  pub asked : result.ref ≡ selector.ref
  pub of_selector : descriptor.selector ≡ selector
  pub of_memory : descriptor.memory ≡ result.memory
  pub of_hash : descriptor.memory_hash ≡ platform.sha256 (canonical_json result.memory)
  pub of_text : descriptor.codepoints ≡ split_codepoints (content_of result.memory)
  pub fresh :
      (selector.expected_memory_hash ≡ none)
      ⊎ (selector.expected_memory_hash ≡ some descriptor.memory_hash)
  pub inside :
      selector.start_codepoint_offset ≤ length (split_codepoints (content_of result.memory))

-- Each result is described, or unavailable and its reference missing, in order.
pub data Collected (platform : Platform)
    : List Selector → List ReadResult → List Descriptor → List Text → Type 0 where
  collected_all : Collected platform [] [] [] []
  described :
      {selectors : List Selector} {results : List ReadResult} {descriptors : List Descriptor}
      {missing : List Text} (selector : Selector) (result : ReadResult) (descriptor : Descriptor)
      → IsDescribed platform selector result descriptor
      → Collected platform selectors results descriptors missing
      → Collected platform
          (selector ∷ selectors)
          (result ∷ results)
          (descriptor ∷ descriptors)
          missing
  unavailable :
      {selectors : List Selector} {results : List ReadResult} {descriptors : List Descriptor}
      {missing : List Text} (selector : Selector) (result : ReadResult)
      → result.status ≡ codes "unavailable"
      → result.ref ≡ selector.ref
      → Collected platform selectors results descriptors missing
      → Collected platform
          (selector ∷ selectors)
          (result ∷ results)
          descriptors
          (selector.ref ∷ missing)

is_stale-fresh :
    (expected : Option Text) (memory_hash : Text)
    → is_stale expected memory_hash ≡ false
    → (expected ≡ none) ⊎ (expected ≡ some memory_hash)
unfolding is_stale
is_stale-fresh none memory_hash h = inl refl
is_stale-fresh (some text) memory_hash h = inr (ground (arith, h, text_eq_iff text memory_hash))

answers-ready :
    (selector : Selector) (result : ReadResult)
    → answers selector result ≡ true
    → (result.ref ≡ selector.ref) × (is_ready result ≡ false → result.status ≡ codes "unavailable")
unfolding answers
answers-ready selector result h = (
  (text_eq_iff result.ref selector.ref).0 (ground (arith, h)),
  λ other. (text_eq_iff result.status (codes "unavailable")).0 (ground (arith, h, other)),
)

describe-IsDescribed :
    (platform : Platform) (selector : Selector) (result : ReadResult) (descriptor : Descriptor)
    → is_ready result ≡ true
    → result.ref ≡ selector.ref
    → describe platform selector result ≡ ok descriptor
    → IsDescribed platform selector result descriptor
unfolding describe
describe-IsDescribed platform selector result descriptor ready asked e =
    let codepoints = split_codepoints (content_of result.memory) in
    let hash = platform.sha256 (canonical_json result.memory) in
    elim (Bool-cases (is_stale selector.expected_memory_hash hash)) [
      | inl stale ↦ ground (arith, e, stale)
      | inr fresh ↦ elim (Bool-cases (leb selector.start_codepoint_offset (length codepoints))) [
        | inr outside ↦ ground (arith, e, fresh, outside)
        | inl inside ↦
            let made : Descriptor = record {
              selector = selector;
              memory = result.memory;
              memory_hash = hash;
              codepoints = codepoints;
            } in
            let same : made ≡ descriptor = ground (arith, e, fresh, inside) in
            subst (IsDescribed platform selector result) same (record {
              ready = (text_eq_iff result.status (codes "ready")).0 ready;
              asked = asked;
              of_selector = refl;
              of_memory = refl;
              of_hash = refl;
              of_text = refl;
              fresh = is_stale-fresh selector.expected_memory_hash hash fresh;
              inside = leb→le _ _ inside;
            })
      ]
    ]

pub collect-Collected :
    (platform : Platform) (selectors : List Selector) (results : List ReadResult)
    (collected : List Descriptor × List Text)
    → length selectors ≡ length results
    → collect platform selectors results ≡ ok collected
    → Collected platform selectors results collected.0 collected.1
unfolding collect describe_ready add_described
collect-Collected platform [] [] collected same e =
    let nothing : ([], []) ≡ collected = ground (arith, e) in
    subst (λ c. Collected platform [] [] c.0 c.1) nothing collected_all
collect-Collected platform [] (result ∷ results) collected same e = ground (arith, same)
collect-Collected platform (selector ∷ selectors) [] collected same e = ground (arith, same)
collect-Collected platform (selector ∷ selectors) (result ∷ results) collected same e =
    elim (Bool-cases (answers selector result)) [
      | inr other ↦ ground (arith, e, other)
      | inl form ↦ elim (Result-cases (collect platform selectors results)) [
        | inr (refused, e'') ↦
            elim (Result-cases (describe_ready platform (is_ready result) selector result)) [
              | inr (refused', e') ↦ ground (arith, e, form, e')
              | inl (found, e') ↦ ground (arith, e, form, e', e'')
            ]
        | inl (rest, e'') ↦
            let asked = answers-ready selector result form in
            let later =
              collect-Collected platform selectors results rest (omega (arith, same)) e'' in
            elim (Bool-cases (is_ready result)) [
              | inr other ↦
                  let made : (rest.0, selector.ref ∷ rest.1) ≡ collected =
                    ground (arith, e, form, e'', other) in
                  subst (λ c. Collected platform (selector ∷ selectors) (result ∷ results) c.0 c.1)
                    made (unavailable selector result (asked.1 other) asked.0 later)
              | inl ready ↦ elim (Result-cases (describe platform selector result)) [
                | inr (refused, e') ↦ ground (arith, e, form, e', ready)
                | inl (descriptor, e') ↦
                    let made : (descriptor ∷ rest.0, rest.1) ≡ collected =
                      ground (arith, e, form, e', e'', ready) in
                    subst
                      (λ c. Collected platform (selector ∷ selectors) (result ∷ results) c.0 c.1)
                      made
                      (described selector result descriptor
                        (describe-IsDescribed platform selector result descriptor ready asked.0 e')
                        later)
              ]
            ]
      ]
    ]

-- No text stands twice.
abbrev pub Unique : List Text → Type 0
Unique [] = Unit
Unique (ref ∷ refs) = (contains refs ref ≡ false) × Unique refs

pub contains-distinct :
    (seen refs : List Text) (ref : Text)
    → contains (distinct seen refs) ref ≡ contains refs ref && not (contains seen ref)
unfolding distinct contains
contains-distinct seen [] ref = refl
contains-distinct seen (other ∷ refs) ref =
    ground (
      arith,
      contains-distinct (other ∷ seen) refs ref,
      text_eq_iff ref other,
      text_eq_iff other ref,
    )

pub distinct-Unique : (seen refs : List Text) → Unique (distinct seen refs)
unfolding distinct contains
distinct-Unique seen [] = tt
distinct-Unique seen (other ∷ refs) = elim (Bool-cases (contains seen other)) [
  | inl before ↦ rw before (distinct-Unique (other ∷ seen) refs)
  | inr new ↦ rw new (
    ground (arith, contains-distinct (other ∷ seen) refs other, text_eq_iff other other),
    distinct-Unique (other ∷ seen) refs,
  )
]
