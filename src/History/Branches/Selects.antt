-- ===== src/History/Branches/Selects.antt =====
-- How the queries on branch_epochs see the two writes: a status update and an insertion.
use tavern_mnemosyne.Prelude.{
  ℕ, ◌≡◌, refl, ◌≤◌, ◌≢◌, true, false, List, [], ◌∷◌, ◌++◌, Option, none, some, if◌then◌else◌,
  nat_eq, arith, text_eq_iff, Option-cases, inl, inr,
}
use tavern_mnemosyne.History.Tables.{
  BranchEpoch, historical, Scope, in_scope, at_epoch, is_active, select_branch_epoch,
  active_branch_epoch, mark_historical, has_branch,
}

abbrev pub retire : ℕ → ℕ → BranchEpoch → BranchEpoch
retire x e r = if nat_eq e x then record r { status = historical } else r

abbrev pub retired : ℕ → ℕ → Option BranchEpoch → Option BranchEpoch
retired x e none = none
retired x e (some r) = some (retire x e r)

abbrev pub or_else : Option BranchEpoch → Option BranchEpoch → Option BranchEpoch
or_else none o = o
or_else (some r) o = some r

pub select-mark :
    (s : Scope) (x e : ℕ) (rows : List BranchEpoch)
    → select_branch_epoch s e (mark_historical s x rows)
      ≡ retired x e (select_branch_epoch s e rows)
unfolding select_branch_epoch mark_historical at_epoch
select-mark s x e [] = refl
select-mark s x e (r ∷ rows) = ground (arith, select-mark s x e rows)

pub select-append :
    (s : Scope) (e : ℕ) (rows : List BranchEpoch) (r : BranchEpoch)
    → select_branch_epoch s e (rows ++ r ∷ [])
      ≡ or_else (select_branch_epoch s e rows) (if at_epoch s e r then some r else none)
unfolding select_branch_epoch
select-append s e [] r = refl
select-append s e (q ∷ rows) r = ground (arith, select-append s e rows r)

-- The table after a command: one epoch is retired and a row is added.
pub select-replace :
    (s : Scope) (x e : ℕ) (rows : List BranchEpoch) (r : BranchEpoch)
    → select_branch_epoch s e (mark_historical s x rows ++ r ∷ [])
      ≡ or_else
          (retired x e (select_branch_epoch s e rows))
          (if at_epoch s e r then some r else none)
select-replace s x e rows r =
    ground (arith, select-append s e (mark_historical s x rows) r, select-mark s x e rows)

-- Another branch's rows are not touched.
pub in_scope_other :
    (s t : Scope) (r : BranchEpoch) → s ≢ t → in_scope s r ≡ true → in_scope t r ≡ false
unfolding in_scope
in_scope_other s t r ne h = ground (
  arith,
  text_eq_iff r.chat_id s.chat_id,
  text_eq_iff r.chat_id t.chat_id,
  text_eq_iff r.branch_id s.branch_id,
  text_eq_iff r.branch_id t.branch_id,
)

pub select-mark_other :
    (s t : Scope) (x e : ℕ) (rows : List BranchEpoch)
    → s ≢ t
    → select_branch_epoch t e (mark_historical s x rows) ≡ select_branch_epoch t e rows
unfolding select_branch_epoch mark_historical at_epoch
select-mark_other s t x e [] ne = refl
select-mark_other s t x e (r ∷ rows) ne =
    ground (arith, in_scope_other s t r ne, select-mark_other s t x e rows ne)

pub active-mark_other :
    (s t : Scope) (x : ℕ) (rows : List BranchEpoch)
    → s ≢ t
    → active_branch_epoch t (mark_historical s x rows) ≡ active_branch_epoch t rows
unfolding active_branch_epoch mark_historical at_epoch
active-mark_other s t x [] ne = refl
active-mark_other s t x (r ∷ rows) ne =
    ground (arith, in_scope_other s t r ne, active-mark_other s t x rows ne)

pub active-append_other :
    (t : Scope) (rows : List BranchEpoch) (r : BranchEpoch)
    → in_scope t r ≡ false
    → active_branch_epoch t (rows ++ r ∷ []) ≡ active_branch_epoch t rows
unfolding active_branch_epoch
active-append_other t [] r h = ground arith
active-append_other t (q ∷ rows) r h = ground (arith, active-append_other t rows r h)

-- The active epoch has a row.
pub active-select :
    (s : Scope) (a : ℕ) (rows : List BranchEpoch)
    → active_branch_epoch s rows ≡ some a
    → select_branch_epoch s a rows ≢ none
unfolding active_branch_epoch select_branch_epoch at_epoch
active-select s a [] h = ground arith
active-select s a (r ∷ rows) h = ground (arith, active-select s a rows)

-- An active row is not above the active epoch.
pub active-append :
    (s : Scope) (rows : List BranchEpoch) (r : BranchEpoch)
    → in_scope s r ≡ true
    → is_active r.status ≡ true
    → active_branch_epoch s (rows ++ r ∷ []) ≢ none
unfolding active_branch_epoch
active-append s [] r h k = ground arith
active-append s (q ∷ rows) r h k = ground (arith, active-append s rows r h k)

pub active-append_le :
    (s : Scope) (rows : List BranchEpoch) (r : BranchEpoch) (a : ℕ)
    → in_scope s r ≡ true
    → is_active r.status ≡ true
    → active_branch_epoch s (rows ++ r ∷ []) ≡ some a
    → r.branch_epoch ≤ a
unfolding active_branch_epoch
active-append_le s [] r a h k e = ground arith
active-append_le s (q ∷ rows) r a h k e =
    elim (Option-cases (active_branch_epoch s (rows ++ r ∷ []))) [
      | inl empty ↦ absurd (active-append s rows r h k empty)
      | inr (b, later) ↦ ground (arith, active-append_le s rows r b h k later)
    ]

pub has_branch_select :
    (s : Scope) (e : ℕ) (rows : List BranchEpoch)
    → has_branch s rows ≡ false
    → select_branch_epoch s e rows ≡ none
unfolding has_branch select_branch_epoch at_epoch
has_branch_select s e [] h = refl
has_branch_select s e (r ∷ rows) h = ground (arith, has_branch_select s e rows)

pub has_branch_active :
    (s : Scope) (rows : List BranchEpoch)
    → has_branch s rows ≡ false
    → active_branch_epoch s rows ≡ none
unfolding has_branch active_branch_epoch
has_branch_active s [] h = refl
has_branch_active s (r ∷ rows) h = ground (arith, has_branch_active s rows)
