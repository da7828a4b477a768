-- ===== src/Tests/History.antt =====
-- history/state-history.js and history/active-history-resolver.js, on a branch that was truncated once.
use tavern_mnemosyne.Prelude.{
  ◌≡◌, refl, ◌≢◌, true, false, List, [], ◌∷◌, none, some, Text, codes, arith, pos, ◌↔◌, ◌≤ℤ◌, min_ℤ,
  sub_ℕ, ◌>>=◌, ◌++◌, ok, err, contains, text_eq,
}
use tavern_mnemosyne.Contracts.Identity.{is_opaque_host_id, is_safe_id}
use tavern_mnemosyne.History.Tables.{
  BranchEpoch, active, historical, Scope, select_branch_epoch, active_branch_epoch, at_epoch,
  in_scope, find_event, has_event_id, mark_historical,
}
use tavern_mnemosyne.History.Resolver.{Segment, fuel_exhausted, visit, resolve_branch_segments}
use tavern_mnemosyne.History.Visibility.{covers, Inherits, resolve-Inherits}
use tavern_mnemosyne.History.Lineage.{resolve_ends, resolve_ok}
use tavern_mnemosyne.History.Branches.{truncate_branch, restore_branch}
use tavern_mnemosyne.History.BranchRows.{
  BranchLedger, TruncateCommand, RestoreCommand, truncate_result, restore_result, identities_valid,
  resolve_committed_at, as_existing, branch_epoch_conflict, branch_restore_source_invalid,
}
use tavern_mnemosyne.History.Branches.Invariant.{IsWellFormed}
use tavern_mnemosyne.History.Branches.Preserve.{truncate-IsWellFormed, restore-IsWellFormed}
use tavern_mnemosyne.History.Branches.Commands.{
  truncate-resolve, restore-resolve, truncate_accepts, truncate_twice, truncate_other_branch,
}

abbrev hash : Text → Text
hash t = codes "0123456789abcdef0123456789abcdef0123456789abcdef0123456789abcdef"

abbrev noon : Text
noon = codes "2026-01-01T12:00:00.000Z"

abbrev main : Scope
main = record { chat_id = codes "c"; branch_id = codes "b" }

abbrev root : BranchEpoch
root = record {
  chat_id = codes "c";
  branch_id = codes "b";
  branch_epoch = 0;
  parent_branch_epoch = none;
  parent_cutoff_turn_index_exclusive = none;
  status = historical;
  head_turn_index = some 5;
  created_by_event_id = none;
  created_at = noon;
}

abbrev child : BranchEpoch
child = record {
  chat_id = codes "c";
  branch_id = codes "b";
  branch_epoch = 1;
  parent_branch_epoch = some 0;
  parent_cutoff_turn_index_exclusive = some 3;
  status = active;
  head_turn_index = some 2;
  created_by_event_id = some (codes "e");
  created_at = noon;
}

abbrev ledger : BranchLedger
ledger = record { branch_epochs = root ∷ child ∷ []; history_events = [] }

abbrev truncation : TruncateCommand
truncation = record {
  command_id = codes "t1";
  chat_id = codes "c";
  branch_id = codes "b";
  expected_branch_epoch = 1;
  cutoff_turn_index = 2;
  reason_code = codes "edit";
  created_at = none;
}

abbrev restoration : RestoreCommand
restoration = record {
  command_id = codes "r1";
  chat_id = codes "c";
  branch_id = codes "b";
  expected_branch_epoch = 1;
  source_branch_epoch = 0;
  through_turn_index = 4;
  reason_code = codes "undo";
  created_at = none;
}

ledger-IsWellFormed : (t : Scope) → IsWellFormed t ledger.branch_epochs
unfolding select_branch_epoch active_branch_epoch at_epoch in_scope
ledger-IsWellFormed t = record {
  ancestry = λ e p r found born. ground arith;
  top = λ a e r current found. ground arith;
  single = λ e r found live. ground arith;
}

-- Turn 4 of epoch 0 was cut away; turn 2 is still seen from epoch 1.
resolve_run :
    resolve_branch_segments main ledger.branch_epochs 1 (pos 9)
    ≡ ok (
        record { branch_epoch = 0; through_turn_index = pos 2 }
        ∷ record { branch_epoch = 1; through_turn_index = pos 9 }
        ∷ [])
unfolding resolve_branch_segments visit contains select_branch_epoch at_epoch text_eq
resolve_run = refl

truncation_done : (truncate_branch hash noon truncation ledger).0 ≡ ok (truncate_result truncation)
unfolding truncate_branch is_opaque_host_id is_safe_id find_event active_branch_epoch in_scope
    text_eq select_branch_epoch mark_historical at_epoch has_event_id
truncation_done = refl

restoration_done : (restore_branch hash noon restoration ledger).0 ≡ ok (restore_result restoration)
unfolding restore_branch is_opaque_host_id is_safe_id find_event active_branch_epoch in_scope
    text_eq select_branch_epoch mark_historical at_epoch has_event_id
restoration_done = refl

resolve-Inherits_example :
    (covers
        (record { branch_epoch = 0; through_turn_index = pos 2 }
          ∷ record { branch_epoch = 1; through_turn_index = pos 9 }
          ∷ [])
        0
        2
      ≡ true)
    ↔ ((pos 2 ≤ℤ pos 9) × Inherits main ledger.branch_epochs 0 2 1)
resolve-Inherits_example = resolve-Inherits main ledger.branch_epochs 0 2 1 (pos 9) _ resolve_run

child_found : select_branch_epoch main 1 ledger.branch_epochs ≢ none
unfolding select_branch_epoch at_epoch in_scope text_eq
child_found = ground arith

resolve_ends_example :
    resolve_branch_segments main ledger.branch_epochs 1 (pos 9) ≢ err fuel_exhausted
resolve_ends_example = resolve_ends main ledger.branch_epochs 1 (pos 9)

resolve_ok_example :
    (segments : List Segment) × (resolve_branch_segments main ledger.branch_epochs 1 (pos 9)
      ≡ ok segments)
resolve_ok_example =
    resolve_ok main ledger.branch_epochs (ledger-IsWellFormed main) 1 (pos 9) child_found

truncate-IsWellFormed_example :
    IsWellFormed main (truncate_branch hash noon truncation ledger).1.branch_epochs
truncate-IsWellFormed_example =
    truncate-IsWellFormed hash noon truncation ledger ledger-IsWellFormed main

restore-IsWellFormed_example :
    IsWellFormed main (restore_branch hash noon restoration ledger).1.branch_epochs
restore-IsWellFormed_example =
    restore-IsWellFormed hash noon restoration ledger ledger-IsWellFormed main

child_active : active_branch_epoch main ledger.branch_epochs ≡ some 1
unfolding active_branch_epoch in_scope text_eq
child_active = refl

no_event : (id : Text) → find_event id ledger.history_events ≡ none
unfolding find_event
no_event id = refl

truncate-resolve_example :
    resolve_branch_segments main
      (truncate_branch hash noon truncation ledger).1.branch_epochs
      2
      (pos 9)
    ≡ (resolve_branch_segments main ledger.branch_epochs 1 (min_ℤ (pos 9) (sub_ℕ 2 1))
        >>= λ segments.
            ok (segments ++ record { branch_epoch = 2; through_turn_index = pos 9 } ∷ []))
truncate-resolve_example =
    truncate-resolve hash noon truncation ledger (truncate_result truncation) (pos 9)
      (ledger-IsWellFormed main) child_active (no_event (codes "t1")) truncation_done

restore-resolve_example :
    resolve_branch_segments main
      (restore_branch hash noon restoration ledger).1.branch_epochs
      2
      (pos 9)
    ≡ (resolve_branch_segments main ledger.branch_epochs 0 (min_ℤ (pos 9) (pos 4)) >>= λ segments.
        ok (segments ++ record { branch_epoch = 2; through_turn_index = pos 9 } ∷ []))
restore-resolve_example =
    restore-resolve hash noon restoration ledger (restore_result restoration) (pos 9)
      (ledger-IsWellFormed main) (no_event (codes "r1")) restoration_done

truncation_valid : identities_valid (codes "c") (codes "t1") (codes "b") (codes "edit") ≡ true
unfolding identities_valid is_opaque_host_id is_safe_id
truncation_valid = refl

truncation_stamped : resolve_committed_at none noon ≡ ok noon
unfolding resolve_committed_at
truncation_stamped = refl

no_event_id : (id : Text) → has_event_id id ledger.history_events ≡ false
unfolding has_event_id
no_event_id id = refl

truncate_accepts_example :
    (truncate_branch hash noon truncation ledger).0 ≡ ok (truncate_result truncation)
truncate_accepts_example =
    truncate_accepts hash noon truncation ledger noon (ledger-IsWellFormed main) truncation_valid
      truncation_stamped child_active (no_event (codes "t1")) (no_event_id _)

truncate_twice_example :
    truncate_branch hash (codes "later") truncation (truncate_branch hash noon truncation ledger).1
    ≡ (
      ok (as_existing (truncate_result truncation)),
      (truncate_branch hash noon truncation ledger).1,
    )
truncate_twice_example =
    truncate_twice hash noon truncation ledger (truncate_result truncation) (codes "later")
      (no_event (codes "t1")) truncation_done

other_safe : is_safe_id (codes "b2") ≡ true
unfolding is_safe_id
other_safe = refl

truncate_other_branch_example :
    truncate_branch hash
      (codes "later")
      (record truncation { branch_id = codes "b2" })
      (truncate_branch hash noon truncation ledger).1
    ≡ (
      ok (as_existing (truncate_result truncation)),
      (truncate_branch hash noon truncation ledger).1,
    )
truncate_other_branch_example =
    truncate_other_branch hash noon truncation ledger (truncate_result truncation) (codes "later")
      (codes "b2") (no_event (codes "t1")) truncation_done other_safe

abbrev stale : TruncateCommand
stale = record truncation { expected_branch_epoch = 0 }

stale_refused : (truncate_branch hash noon stale ledger).0 ≡ err branch_epoch_conflict
unfolding truncate_branch is_opaque_host_id is_safe_id find_event active_branch_epoch in_scope
    text_eq select_branch_epoch mark_historical at_epoch has_event_id
stale_refused = refl

abbrev too_far : RestoreCommand
too_far = record restoration { through_turn_index = 6 }

too_far_refused : (restore_branch hash noon too_far ledger).0 ≡ err branch_restore_source_invalid
unfolding restore_branch is_opaque_host_id is_safe_id find_event active_branch_epoch in_scope
    text_eq select_branch_epoch mark_historical at_epoch has_event_id
too_far_refused = refl
