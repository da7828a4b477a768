-- ===== src/History/Branches/Invariant.antt =====
-- The ancestry of a branch: what every command on branches keeps.
use tavern_mnemosyne.Prelude.{
  ℕ, ◌+◌, ◌≡◌, ◌≤◌, ◌<◌, ◌≢◌, true, false, List, [], ◌∷◌, ◌++◌, none, some, nat_eq, arith,
  Option-cases, inl, inr,
}
use tavern_mnemosyne.History.Tables.{
  BranchEpoch, Scope, in_scope, at_epoch, is_active, select_branch_epoch, active_branch_epoch,
  mark_historical, has_branch,
}
use tavern_mnemosyne.History.Branches.Selects.{
  select-append, select-replace, active-select, active-append, active-append_le, has_branch_select,
}

-- A parent is an earlier epoch that exists; no epoch is above the active one; only that is active.
pub record IsWellFormed (s : Scope) (rows : List BranchEpoch) : Type 0 where
  pub ancestry :
      (e p : ℕ) (r : BranchEpoch)
      → select_branch_epoch s e rows ≡ some r
      → r.parent_branch_epoch ≡ some p
      → (p < e) × (select_branch_epoch s p rows ≢ none)
  pub top :
      (a e : ℕ) (r : BranchEpoch)
      → active_branch_epoch s rows ≡ some a
      → select_branch_epoch s e rows ≡ some r
      → e ≤ a
  pub single :
      (e : ℕ) (r : BranchEpoch)
      → select_branch_epoch s e rows ≡ some r
      → is_active r.status ≡ true
      → active_branch_epoch s rows ≡ some e

module _ (s : Scope) (rows : List BranchEpoch) (row : BranchEpoch) (a p : ℕ)
    (w : IsWellFormed s rows) (current : active_branch_epoch s rows ≡ some a)
    (here : in_scope s row ≡ true) (next : row.branch_epoch ≡ a + 1)
    (live : is_active row.status ≡ true) (born : row.parent_branch_epoch ≡ some p)
    (found : select_branch_epoch s p rows ≢ none) where
  abbrev replaced : List BranchEpoch
  replaced = mark_historical s a rows ++ row ∷ []

  at_new : (e : ℕ) → at_epoch s e row ≡ nat_eq (a + 1) e
  unfolding at_epoch
  at_new e = ground arith

  parent_le : p ≤ a
  parent_le = elim (Option-cases (select_branch_epoch s p rows)) [
    | inl none_there ↦ absurd (found none_there)
    | inr (q, e) ↦ w.top a p q current e
  ]

  old_top : (e : ℕ) → select_branch_epoch s e rows ≢ none → e ≤ a
  old_top e h = elim (Option-cases (select_branch_epoch s e rows)) [
    | inl none_there ↦ absurd (h none_there)
    | inr (q, k) ↦ w.top a e q current k
  ]

  replaced_found :
      (e : ℕ) → select_branch_epoch s e rows ≢ none → select_branch_epoch s e replaced ≢ none
  replaced_found e h = ground (arith, select-replace s a e rows row)

  replaced_ancestry :
      (e p' : ℕ) (r : BranchEpoch)
      → select_branch_epoch s e replaced ≡ some r
      → r.parent_branch_epoch ≡ some p'
      → (p' < e) × (select_branch_epoch s p' replaced ≢ none)
  replaced_ancestry e p' r h k = elim (Option-cases (select_branch_epoch s e rows)) [
    | inl absent ↦
        ground (arith, select-replace s a e rows row, at_new e, parent_le, replaced_found p found)
    | inr (q, old) ↦
        ground (arith, select-replace s a e rows row, w.ancestry e p' q old, replaced_found p')
  ]

  replaced_le : (e : ℕ) → select_branch_epoch s e replaced ≢ none → e ≤ a + 1
  replaced_le e h = elim (Option-cases (select_branch_epoch s e rows)) [
    | inl absent ↦ ground (arith, select-replace s a e rows row, at_new e)
    | inr (q, old) ↦ ground (arith, w.top a e q current old)
  ]

  replaced_active : active_branch_epoch s replaced ≡ some (a + 1)
  replaced_active = elim (Option-cases (active_branch_epoch s replaced)) [
    | inl empty ↦ absurd (active-append s (mark_historical s a rows) row here live empty)
    | inr (b, e) ↦ ground (
      arith,
      e,
      active-append_le s (mark_historical s a rows) row b here live e,
      replaced_le b (active-select s b replaced e),
    )
  ]

  replaced_single :
      (e : ℕ) (r : BranchEpoch)
      → select_branch_epoch s e replaced ≡ some r
      → is_active r.status ≡ true
      → active_branch_epoch s replaced ≡ some e
  replaced_single e r h k = elim (Option-cases (select_branch_epoch s e rows)) [
    | inl absent ↦ ground (arith, select-replace s a e rows row, at_new e, replaced_active)
    | inr (q, old) ↦ ground (arith, select-replace s a e rows row, w.single e q old)
  ]

  pub replaced-IsWellFormed : IsWellFormed s replaced
  replaced-IsWellFormed = record {
    ancestry = replaced_ancestry;
    top = λ b e r h k. ground (arith, replaced_active, replaced_le e);
    single = replaced_single;
  }

-- A branch with no row is well formed, and so it is with its root alone.
pub root-IsWellFormed :
    (s : Scope) (rows : List BranchEpoch) (row : BranchEpoch)
    → has_branch s rows ≡ false
    → in_scope s row ≡ true
    → row.branch_epoch ≡ 0
    → is_active row.status ≡ true
    → row.parent_branch_epoch ≡ none
    → (active_branch_epoch s (rows ++ row ∷ []) ≡ some 0) × IsWellFormed s (rows ++ row ∷ [])
root-IsWellFormed s rows row empty here zeroth live rootless = (
  is_zero,
  record {
    ancestry = λ e p r h k. absurd (ground (arith, found e r h));
    top = λ a e r h k. ground (arith, found e r k);
    single = λ e r h k. ground (arith, is_zero, found e r h);
  },
)
  where
    found :
        (e : ℕ) (r : BranchEpoch)
        → select_branch_epoch s e (rows ++ row ∷ []) ≡ some r
        → (e ≡ 0) × (r ≡ row)
    found e r h =
        unfold at_epoch in
        ground (arith, select-append s e rows row, has_branch_select s e rows empty)

    is_zero : active_branch_epoch s (rows ++ row ∷ []) ≡ some 0
    is_zero = elim (Option-cases (active_branch_epoch s (rows ++ row ∷ []))) [
      | inl none_there ↦ absurd (active-append s rows row here live none_there)
      | inr (b, e) ↦ elim (Option-cases (select_branch_epoch s b (rows ++ row ∷ []))) [
        | inl absent ↦ absurd (active-select s b (rows ++ row ∷ []) e absent)
        | inr (r, k) ↦ ground (arith, e, found b r k)
      ]
    ]

-- A row of another branch changes nothing.
pub other-IsWellFormed :
    (t : Scope) (rows rows' : List BranchEpoch)
    → ((e : ℕ) → select_branch_epoch t e rows' ≡ select_branch_epoch t e rows)
    → active_branch_epoch t rows' ≡ active_branch_epoch t rows
    → IsWellFormed t rows
    → IsWellFormed t rows'
other-IsWellFormed t rows rows' same live w = record {
  ancestry = λ e p r h k. ground (arith, same e, same p, w.ancestry e p r);
  top = λ a e r h k. ground (arith, same e, live, w.top a e r);
  single = λ e r h k. ground (arith, same e, live, w.single e r);
}
