-- ===== src/History/Branches/Outcome.antt =====
-- What a truncation and a restoration do to the tables, on every branch of the code.
use tavern_mnemosyne.Prelude.{
  ◌≡◌, ◌≢◌, true, [], ◌∷◌, ◌++◌, Option, none, some, Text, arith, ok, err,
}
use tavern_mnemosyne.Contracts.Json.{Json}
use tavern_mnemosyne.History.Tables.{
  Scope, mark_historical, find_event, select_branch_epoch, active_branch_epoch,
}
use tavern_mnemosyne.History.Branches.{
  truncate_branch, restore_branch, truncate_event_row, restore_event_row,
}
use tavern_mnemosyne.History.BranchRows.{
  BranchLedger, BranchError, TruncateCommand, RestoreCommand, current_or_root, truncated_epoch,
  restored_epoch, restorable, truncate_result, restore_result,
}

abbrev pub stamp : Option Text → Text → Text
stamp none now = now
stamp (some t) now = t

abbrev pub truncate_scope : TruncateCommand → Scope
truncate_scope c = record { chat_id = c.chat_id; branch_id = c.branch_id }

abbrev pub restore_scope : RestoreCommand → Scope
restore_scope c = record { chat_id = c.chat_id; branch_id = c.branch_id }

module _ (sha256 : Text → Text) (now : Text) where
  -- A truncation that is refused changes no table.
  pub truncate_refused :
      (c : TruncateCommand) (db : BranchLedger) (e : BranchError)
      → (truncate_branch sha256 now c db).0 ≡ err e
      → (truncate_branch sha256 now c db).1 ≡ db
  unfolding truncate_branch
  truncate_refused c db e h = ground arith

  -- A restoration that is refused changes no table.
  pub restore_refused :
      (c : RestoreCommand) (db : BranchLedger) (e : BranchError)
      → (restore_branch sha256 now c db).0 ≡ err e
      → (restore_branch sha256 now c db).1 ≡ db
  unfolding restore_branch
  restore_refused c db e h = ground arith

  pub truncate_done :
      (c : TruncateCommand) (db : BranchLedger) (j : Json)
      → find_event c.command_id db.history_events ≡ none
      → (truncate_branch sha256 now c db).0 ≡ ok j
      → let at = stamp c.created_at now in
        let current =
          current_or_root (truncate_scope c) c.expected_branch_epoch at db.branch_epochs in
        let event = truncate_event_row sha256 c at in
        (j ≡ truncate_result c)
        × (current.0 ≡ some c.expected_branch_epoch)
        × ((truncate_branch sha256 now c db).1.branch_epochs
            ≡ mark_historical (truncate_scope c) c.expected_branch_epoch current.1
              ++ truncated_epoch c event.event_id at ∷ [])
        × ((truncate_branch sha256 now c db).1.history_events ≡ db.history_events ++ event ∷ [])
  unfolding truncate_branch
  truncate_done c db j fresh h = ground arith

  pub restore_done :
      (c : RestoreCommand) (db : BranchLedger) (j : Json)
      → find_event c.command_id db.history_events ≡ none
      → (restore_branch sha256 now c db).0 ≡ ok j
      → let at = stamp c.created_at now in
        let event = restore_event_row sha256 c at in
        (j ≡ restore_result c)
        × (active_branch_epoch (restore_scope c) db.branch_epochs ≡ some c.expected_branch_epoch)
        × (restorable c.through_turn_index
              (select_branch_epoch (restore_scope c) c.source_branch_epoch db.branch_epochs)
            ≡ true)
        × ((restore_branch sha256 now c db).1.branch_epochs
            ≡ mark_historical (restore_scope c) c.expected_branch_epoch db.branch_epochs
              ++ restored_epoch c event.event_id at ∷ [])
        × ((restore_branch sha256 now c db).1.history_events ≡ db.history_events ++ event ∷ [])
  unfolding restore_branch
  restore_done c db j fresh h = ground arith

  -- A command id that is taken changes no table.
  pub truncate_replayed :
      (c : TruncateCommand) (db : BranchLedger)
      → find_event c.command_id db.history_events ≢ none
      → (truncate_branch sha256 now c db).1 ≡ db
  unfolding truncate_branch
  truncate_replayed c db taken = ground arith

  pub restore_replayed :
      (c : RestoreCommand) (db : BranchLedger)
      → find_event c.command_id db.history_events ≢ none
      → (restore_branch sha256 now c db).1 ≡ db
  unfolding restore_branch
  restore_replayed c db taken = ground arith
