-- ===== src/Memory/BoundedRead/Search.antt =====
-- What the binary search for a page's end finds, for any measure.
use tavern_mnemosyne.Prelude.{
  ℕ, zero, suc, ◌+◌, ◌-◌, ◌/◌, ◌≡◌, ◌≤◌, ◌<◌, ◌⊎◌, inl, inr, refl, sym, length, leb, ltb, ltb→lt,
  leb→le, arith, Option, none, some, ok, Result-cases, Bool-cases,
}
use tavern_mnemosyne.Memory.Cursor.{CursorContext, Platform}
use tavern_mnemosyne.Memory.Pages.{ContextPack, Descriptor}
use tavern_mnemosyne.Memory.BoundedRead.{candidate, search, first_end, best_page}

module _ (platform : Platform) (context : CursorContext) (measure : ContextPack → Option ℕ)
    (max_tokens : ℕ) (sealed : ContextPack) (descriptor : Descriptor) where
  -- With the page that ends at an offset, the result fits.
  abbrev pub Fits : ℕ → ContextPack → Type 0
  Fits end_offset measured =
      (candidate platform context measure sealed descriptor end_offset ≡ ok measured)
      × (measured.used_tokens ≤ max_tokens)

  -- With the page that ends at an offset, it does not.
  abbrev pub IsTooLarge : ℕ → Type 0
  IsTooLarge end_offset =
      (measured : ContextPack) × (candidate platform context measure sealed descriptor end_offset
        ≡ ok measured)
      × (max_tokens < measured.used_tokens)

  -- `stop` is where `low` and `past_high` meet.
  record Outcome (low past_high : ℕ) (best found : Option ContextPack) : Type 0 where
    stop : ℕ
    from : low ≤ stop
    upto : stop ≤ past_high
    chosen :
        ((stop ≡ low) × (found ≡ best))
        ⊎ ((low < stop)
            × ((measured : ContextPack) × (found ≡ some measured) × Fits (stop - 1) measured))
    blocked : (stop ≡ past_high) ⊎ IsTooLarge stop

  abbrev middle : (low past_high : ℕ) → ℕ
  middle low past_high = (low + (past_high - 1)) / 2

  Outcome-right :
      (low past_high : ℕ) (best found : Option ContextPack) (measured : ContextPack)
      → low < past_high
      → candidate platform context measure sealed descriptor (middle low past_high) ≡ ok measured
      → measured.used_tokens ≤ max_tokens
      → Outcome (middle low past_high + 1) past_high (some measured) found
      → Outcome low past_high best found
  Outcome-right low past_high best found measured apart e fits rest = record {
    stop = rest.stop;
    from = omega (arith, rest.from, apart);
    upto = rest.upto;
    chosen = elim rest.chosen [
      | inl (at, same) ↦
          let last : rest.stop - 1 ≡ middle low past_high = omega (arith, at) in
          inr (omega (arith, at, apart), (measured, same, (rw last e, fits)))
      | inr (later, found) ↦ inr (omega (arith, later, apart), found)
    ];
    blocked = rest.blocked;
  }

  Outcome-left :
      (low past_high : ℕ) (best found : Option ContextPack) (measured : ContextPack)
      → low < past_high
      → candidate platform context measure sealed descriptor (middle low past_high) ≡ ok measured
      → max_tokens < measured.used_tokens
      → Outcome low (middle low past_high) best found
      → Outcome low past_high best found
  Outcome-left low past_high best found measured apart e large rest = record {
    stop = rest.stop;
    from = rest.from;
    upto = omega (arith, rest.upto, apart);
    chosen = rest.chosen;
    blocked = elim rest.blocked [
      | inl at ↦ inr (measured, rw at e, large)
      | inr too_large ↦ inr too_large
    ];
  }

  search-Outcome :
      (fuel low past_high : ℕ) (best found : Option ContextPack)
      → low ≤ past_high
      → past_high - low ≤ fuel
      → search platform context measure fuel max_tokens sealed descriptor low past_high best
        ≡ ok found
      → Outcome low past_high best found
  unfolding search
  search-Outcome zero low past_high best found le enough e = record {
    stop = low;
    from = omega arith;
    upto = le;
    chosen = inl (refl, ground (arith, e));
    blocked = inl (omega (arith, le, enough));
  }
  search-Outcome (suc fuel) low past_high best found le enough e =
      elim (Bool-cases (ltb low past_high)) [
        | inr met ↦ record {
          stop = low;
          from = omega arith;
          upto = le;
          chosen = inl (refl, ground (arith, e, met));
          blocked = inl (ground (arith, met, le));
        }
        | inl apart ↦
            let before = ltb→lt low past_high apart in
            elim (Result-cases
              (candidate platform context measure sealed descriptor (middle low past_high))) [
                | inr (refused, e') ↦ absurd (ground (arith, e, e', apart))
                | inl (measured, e') ↦ elim (Bool-cases (leb measured.used_tokens max_tokens)) [
                  | inl fits ↦
                      Outcome-right low past_high best found measured before e' (leb→le _ _ fits) (
                        search-Outcome fuel (middle low past_high + 1) past_high (some measured)
                          found (omega (arith, before)) (omega (arith, before, enough))
                          (ground (arith, e, e', apart, fits)))
                  | inr large ↦
                      Outcome-left low past_high best found measured before e'
                        (ground (arith, large))
                        (search-Outcome fuel low (middle low past_high) best found
                          (omega (arith, before)) (omega (arith, before, enough))
                          (ground (arith, e, e', apart, large)))
                ]
              ]
      ]

  -- When the search for a page that starts inside its memory answers: it found nothing, and then the result is
  -- too large even with the least page (one code point, or none at the end of the memory); or it found
  -- the result with a page that has a code point when there is one left, which fits, and with one more
  -- code point the result is too large, unless the page reaches the end of the memory.
  pub best_page-IsMaximal :
      (found : Option ContextPack)
      → descriptor.selector.start_codepoint_offset ≤ length descriptor.codepoints
      → best_page platform context measure max_tokens sealed descriptor ≡ ok found
      → ((found ≡ none) × IsTooLarge (first_end descriptor))
        ⊎ ((end_offset : ℕ) × (first_end descriptor ≤ end_offset)
            × (end_offset ≤ length descriptor.codepoints)
            × ((measured : ContextPack) × (found ≡ some measured) × Fits end_offset measured)
            × ((end_offset ≡ length descriptor.codepoints) ⊎ IsTooLarge (end_offset + 1)))
  unfolding best_page first_end
  best_page-IsMaximal found inside e =
      let total = length descriptor.codepoints in
      let outcome =
        search-Outcome (total + 1) (first_end descriptor) (total + 1) none found
          (ground (arith, inside)) (omega arith) e in
      elim outcome.chosen [
        | inl (at, nothing) ↦ inl (
          nothing,
          elim outcome.blocked [
            | inl met ↦ absurd (ground (arith, at, met, inside))
            | inr large ↦ rw (sym at) large
          ],
        )
        | inr (later, page) ↦ inr (
          outcome.stop - 1,
          omega (arith, later),
          omega (arith, outcome.upto),
          page,
          elim outcome.blocked [
            | inl met ↦ inl (omega (arith, met))
            | inr large ↦
                let next : outcome.stop - 1 + 1 ≡ outcome.stop = omega (arith, later) in
                inr (rw next large)
          ],
        )
      ]
