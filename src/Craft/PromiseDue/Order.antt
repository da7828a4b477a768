-- ===== src/Craft/PromiseDue/Order.antt =====
-- The order of the due ledger, and the bound on what is selected of it.
use tavern_mnemosyne.Prelude.{
  ℕ, zero, suc, min, refl, ap, ◌∷◌, ◌++◌, ◌≡◌, ◌≤◌, Bool, true, false, List, [], Text, arith, All,
  length, take, drop, length-take, ok,
}
use tavern_mnemosyne.History.Records.{MemoryRow}
use tavern_mnemosyne.History.Sorting.{Descending, take_above_drop, sort-Descending}
use tavern_mnemosyne.Craft.PromiseDue.{
  DuePromise, promise_leb, read_threads, due_promises, collect_promise_due_ledger,
  select_due_promise_rows,
}

-- None of the list is more overdue than a bound.
abbrev pub AtMost : ℕ → List DuePromise → Type 0
AtMost turns promises = All (λ d. d.overdue_turns ≤ turns) promises

take-drop : (n : ℕ) (promises : List DuePromise) → promises ≡ take n promises ++ drop n promises
take-drop zero promises = refl
take-drop (suc n) [] = refl
take-drop (suc n) (d ∷ promises) = ap (λ rest. d ∷ rest) (take-drop n promises)

module _ (locale_leb : Text → Text → Bool) where
  promise_leb-le :
      (a b : DuePromise) → promise_leb locale_leb a b ≡ true → b.overdue_turns ≤ a.overdue_turns
  unfolding promise_leb
  promise_leb-le a b h = ground arith

  promise_leb-ge :
      (a b : DuePromise) → promise_leb locale_leb a b ≡ false → a.overdue_turns ≤ b.overdue_turns
  unfolding promise_leb
  promise_leb-ge a b h = ground arith

  collect-Descending :
      (rows : List MemoryRow) (visible : ℕ)
      → Descending (λ d. d.overdue_turns) (collect_promise_due_ledger locale_leb rows visible)
  unfolding collect_promise_due_ledger
  collect-Descending rows visible =
      let threads = read_threads rows (record { latest = []; first_seen_turn = [] }) in
      sort-Descending (λ d. d.overdue_turns) (promise_leb locale_leb) promise_leb-le promise_leb-ge
        (due_promises visible threads.first_seen_turn threads.latest)

  -- For a positive bound the selection succeeds, and the ledger is what is selected and then the rest: as many
  -- promises are selected as the bound and the ledger allow, and none of the rest is more overdue than one
  -- that is selected.
  pub select_most_overdue :
      (rows : List MemoryRow) (visible top_k : ℕ)
      → 1 ≤ top_k
      → let ledger = collect_promise_due_ledger locale_leb rows visible in
        (selected rest : List DuePromise) × (select_due_promise_rows locale_leb rows visible top_k
          ≡ ok selected)
        × (ledger ≡ selected ++ rest)
        × (length selected ≡ min top_k (length ledger))
        × All (λ d. AtMost d.overdue_turns rest) selected
  unfolding select_due_promise_rows
  select_most_overdue rows visible top_k positive =
      let promises = collect_promise_due_ledger locale_leb rows visible in
      (
        take top_k promises,
        drop top_k promises,
        ground (arith, positive),
        take-drop top_k promises,
        length-take top_k promises,
        take_above_drop (λ d. d.overdue_turns) top_k promises (collect-Descending rows visible),
      )
