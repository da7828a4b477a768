-- ===== src/History/Branches/Preserve.antt =====
-- Truncation and restoration keep the ancestry of every branch well formed.
use native.Mathlib.Decide.{ℕ_discrete}
use tavern_mnemosyne.Prelude.{
  ℕ, ◌+◌, ◌≡◌, refl, ◌∙◌, ◌≢◌, ◌⊎◌, inl, inr, true, false, List, [], ◌∷◌, ◌++◌, Option, none, some,
  Text, arith, ok, Result-cases, Option-cases, text_eq_refl, subst,
}
use tavern_mnemosyne.Contracts.Json.{Json}
use tavern_mnemosyne.History.Tables.{
  BranchEpoch, Scope, in_scope, is_active, mark_historical, find_event, select_branch_epoch,
  active_branch_epoch, has_branch, at_epoch,
}
use tavern_mnemosyne.History.Branches.{truncate_branch, restore_branch}
use tavern_mnemosyne.History.BranchRows.{
  BranchLedger, TruncateCommand, RestoreCommand, current_or_root, truncated_epoch, restored_epoch,
  restorable, root_epoch,
}
use tavern_mnemosyne.History.Branches.Selects.{
  select-append, select-mark_other, active-mark_other, active-append_other, in_scope_other,
  active-select,
}
use tavern_mnemosyne.History.Branches.Invariant.{
  IsWellFormed, replaced-IsWellFormed, root-IsWellFormed, other-IsWellFormed,
}
use tavern_mnemosyne.History.Branches.Outcome.{
  truncate_scope, restore_scope, truncate_refused, restore_refused, truncate_done, restore_done,
  truncate_replayed, restore_replayed, stamp,
}

Scope-discrete : Discrete Scope
Scope-discrete = hlevel ℕ_discrete

pub row_in_scope :
    (s : Scope) (r : BranchEpoch)
    → r.chat_id ≡ s.chat_id
    → r.branch_id ≡ s.branch_id
    → in_scope s r ≡ true
unfolding in_scope
row_in_scope s r h k = ground (arith, h, k, text_eq_refl s.chat_id, text_eq_refl s.branch_id)

-- The rows of branch `t` when branch `s` gains a row.
append_other :
    (s t : Scope) (rows : List BranchEpoch) (row : BranchEpoch)
    → s ≢ t
    → in_scope s row ≡ true
    → IsWellFormed t rows
    → IsWellFormed t (rows ++ row ∷ [])
append_other s t rows row ne here =
    other-IsWellFormed t rows (rows ++ row ∷ [])
      (λ e.
        unfold at_epoch in
        ground (arith, select-append t e rows row, in_scope_other s t row ne here))
      (active-append_other t rows row (in_scope_other s t row ne here))

replace_other :
    (s t : Scope) (x : ℕ) (rows : List BranchEpoch) (row : BranchEpoch)
    → s ≢ t
    → in_scope s row ≡ true
    → IsWellFormed t rows
    → IsWellFormed t (mark_historical s x rows ++ row ∷ [])
replace_other s t x rows row ne here w = append_other s t (mark_historical s x rows) row ne here (
    other-IsWellFormed t rows (mark_historical s x rows) (λ e. select-mark_other s t x e rows ne)
      (active-mark_other s t x rows ne) w)

-- Either the table stays, or a branch with no row has got its root.
current_or_root_cases :
    (s : Scope) (e : ℕ) (at : Text) (rows : List BranchEpoch)
    → (current_or_root s e at rows ≡ (active_branch_epoch s rows, rows))
      ⊎ ((current_or_root s e at rows ≡ (some 0, rows ++ root_epoch s at ∷ []))
          × (has_branch s rows ≡ false))
unfolding current_or_root
current_or_root_cases s e at rows = ground arith

root_in_scope : (s : Scope) (at : Text) → in_scope s (root_epoch s at) ≡ true
unfolding root_epoch
root_in_scope s at = row_in_scope s (root_epoch s at) refl refl

pub current_or_root-IsWellFormed :
    (s : Scope) (e : ℕ) (at : Text) (rows : List BranchEpoch)
    → (current_or_root s e at rows).0 ≡ some e
    → IsWellFormed s rows
    → (active_branch_epoch s (current_or_root s e at rows).1 ≡ some e)
      × IsWellFormed s (current_or_root s e at rows).1
unfolding root_epoch
current_or_root-IsWellFormed s e at rows h w = elim (current_or_root_cases s e at rows) [
  | inl same ↦ rw same (rw same at h, w)
  | inr (rooted, empty) ↦
      let (is_zero, w') =
        root-IsWellFormed s rows (root_epoch s at) empty (root_in_scope s at) refl refl refl in
      rw rooted (is_zero ∙ rw rooted at h, w')
]

current_or_root_other :
    (s t : Scope) (e : ℕ) (at : Text) (rows : List BranchEpoch)
    → s ≢ t
    → IsWellFormed t rows
    → IsWellFormed t (current_or_root s e at rows).1
current_or_root_other s t e at rows ne w = elim (current_or_root_cases s e at rows) [
  | inl same ↦ rw same w
  | inr (rooted, _) ↦ rw rooted (append_other s t rows (root_epoch s at) ne (root_in_scope s at) w)
]

pub restorable_found :
    (through : ℕ) (o : Option BranchEpoch) → restorable through o ≡ true → o ≢ none
unfolding restorable
restorable_found through o h = ground arith

-- Retiring the active epoch for a new one above it keeps every branch well formed.
replace-IsWellFormed :
    (s t : Scope) (rows : List BranchEpoch) (row : BranchEpoch) (a p : ℕ)
    → IsWellFormed s rows
    → IsWellFormed t rows
    → active_branch_epoch s rows ≡ some a
    → in_scope s row ≡ true
    → row.branch_epoch ≡ a + 1
    → is_active row.status ≡ true
    → row.parent_branch_epoch ≡ some p
    → select_branch_epoch s p rows ≢ none
    → IsWellFormed t (mark_historical s a rows ++ row ∷ [])
replace-IsWellFormed s t rows row a p w w' current here next live born found =
    elim (Scope-discrete s t) [
      | yes same ↦
          subst (λ u. IsWellFormed u (mark_historical s a rows ++ row ∷ [])) same
            (replaced-IsWellFormed s rows row a p w current here next live born found)
      | no ne ↦ replace_other s t a rows row ne here w'
    ]

module _ (sha256 : Text → Text) (now : Text) where
  truncate_done-IsWellFormed :
      (c : TruncateCommand) (db : BranchLedger) (j : Json) (t : Scope)
      → ((t : Scope) → IsWellFormed t db.branch_epochs)
      → find_event c.command_id db.history_events ≡ none
      → (truncate_branch sha256 now c db).0 ≡ ok j
      → IsWellFormed t (truncate_branch sha256 now c db).1.branch_epochs
  unfolding truncated_epoch
  truncate_done-IsWellFormed c db j t w fresh done =
      let s = truncate_scope c in
      let e = c.expected_branch_epoch in
      let at = stamp c.created_at now in
      let (_, cur, rows', _) = truncate_done sha256 now c db j fresh done in
      let (live, w') = current_or_root-IsWellFormed s e at db.branch_epochs cur (w s) in
      let rows = (current_or_root s e at db.branch_epochs).1 in
      rw rows' (
        replace-IsWellFormed s t rows _ e e w' (other w t) live (row_in_scope s _ refl refl) refl
          refl refl (active-select s e rows live))
    where
      other :
          ((t : Scope) → IsWellFormed t db.branch_epochs)
          → (t : Scope)
          → IsWellFormed t
              (current_or_root
                (truncate_scope c)
                c.expected_branch_epoch
                (stamp c.created_at now)
                db.branch_epochs).1
      other w t = elim (Scope-discrete (truncate_scope c) t) [
        | yes same ↦
            subst
              (λ u.
                IsWellFormed u
                  (current_or_root (truncate_scope c) c.expected_branch_epoch
                    (stamp c.created_at now) db.branch_epochs).1)
              same
              (current_or_root-IsWellFormed (truncate_scope c) c.expected_branch_epoch
                (stamp c.created_at now) db.branch_epochs
                (truncate_done sha256 now c db j fresh done).1 (w (truncate_scope c))).1
        | no ne ↦
            current_or_root_other (truncate_scope c) t c.expected_branch_epoch _ db.branch_epochs ne
              (w t)
      ]

  restore_done-IsWellFormed :
      (c : RestoreCommand) (db : BranchLedger) (j : Json) (t : Scope)
      → ((t : Scope) → IsWellFormed t db.branch_epochs)
      → find_event c.command_id db.history_events ≡ none
      → (restore_branch sha256 now c db).0 ≡ ok j
      → IsWellFormed t (restore_branch sha256 now c db).1.branch_epochs
  unfolding restored_epoch
  restore_done-IsWellFormed c db j t w fresh done =
      let s = restore_scope c in
      let (_, live, source, rows', _) = restore_done sha256 now c db j fresh done in
      rw rows' (
        replace-IsWellFormed s t db.branch_epochs _ c.expected_branch_epoch c.source_branch_epoch
          (w s) (w t) live (row_in_scope s _ refl refl) refl refl refl
          (restorable_found c.through_turn_index _ source))

  -- When every branch is well formed, every branch still is after a truncation, whatever it answers.
  pub truncate-IsWellFormed :
      (c : TruncateCommand) (db : BranchLedger)
      → ((t : Scope) → IsWellFormed t db.branch_epochs)
      → (t : Scope) → IsWellFormed t (truncate_branch sha256 now c db).1.branch_epochs
  truncate-IsWellFormed c db w t = elim (Option-cases (find_event c.command_id db.history_events)) [
    | inr (event, taken) ↦ rw (truncate_replayed sha256 now c db (ground arith)) (w t)
    | inl fresh ↦ elim (Result-cases (truncate_branch sha256 now c db).0) [
      | inr (e, refused) ↦ rw (truncate_refused sha256 now c db e refused) (w t)
      | inl (j, done) ↦ truncate_done-IsWellFormed c db j t w fresh done
    ]
  ]

  -- When every branch is well formed, every branch still is after a restoration, whatever it answers.
  pub restore-IsWellFormed :
      (c : RestoreCommand) (db : BranchLedger)
      → ((t : Scope) → IsWellFormed t db.branch_epochs)
      → (t : Scope) → IsWellFormed t (restore_branch sha256 now c db).1.branch_epochs
  restore-IsWellFormed c db w t = elim (Option-cases (find_event c.command_id db.history_events)) [
    | inr (event, taken) ↦ rw (restore_replayed sha256 now c db (ground arith)) (w t)
    | inl fresh ↦ elim (Result-cases (restore_branch sha256 now c db).0) [
      | inr (e, refused) ↦ rw (restore_refused sha256 now c db e refused) (w t)
      | inl (j, done) ↦ restore_done-IsWellFormed c db j t w fresh done
    ]
  ]
