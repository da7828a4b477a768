-- ===== src/History/Branches.antt =====
-- truncateBranch and restoreBranch of history/state-history.js. A command that throws inside its
-- transaction leaves the ledger as it was (BEGIN IMMEDIATE … ROLLBACK).
pub mod Invariant
pub mod Selects
pub mod Outcome
pub mod Preserve
pub mod Inherit
pub mod Commands
use tavern_mnemosyne.Prelude.{
  ℕ, ◌+◌, Bool, true, false, not, ◌&&◌, ◌||◌, List, [], ◌∷◌, ◌++◌, Option, none, some, leb, nat_eq,
  text_eq, Text, codes, if◌then◌else◌, take, pos, sub_ℕ, Result, ok, err, ◌>>=◌, ◌>>◌, guard,
}
use tavern_mnemosyne.Contracts.Json.{Json, str, num, obj, end, field, canonical_json, set_field}
use tavern_mnemosyne.Contracts.Identity.{is_safe_id, is_opaque_host_id, is_canonical_iso_timestamp}
use tavern_mnemosyne.History.Tables.{
  BranchEpoch, active, historical, HistoryEvent, EventType, truncate_branch as truncate_event,
  restore_branch as restore_event, Scope, BranchStatus, is_active, select_branch_epoch,
  active_branch_epoch, has_branch, mark_historical, find_event, has_event_id,
}
use tavern_mnemosyne.History.BranchRows.{
  BranchError, BranchLedger, RestoreCommand, TruncateCommand, branch_epoch_conflict,
  branch_restore_source_invalid, current_or_root, identities_valid, insert_branch_epoch,
  insert_event, is_expected, replay_event, resolve_committed_at, restorable, restore_payload,
  restore_result, restored_epoch, transact, truncate_payload, truncate_result, truncated_epoch,
  turn_identity_invalid,
}

-- `sha256` is node:crypto's.
module _ (sha256 : Text → Text) where
  unfoldable pub event_id : Text → Text → Text → Json → Text
  event_id command_id chat_id branch_id payload =
      codes "event_"
      ++ take 24 (
          sha256 (
            canonical_json (
              obj (
                field (codes "command_id") (str command_id) (
                  field (codes "chat_id") (str chat_id) (
                    field (codes "branch_id") (str branch_id)
                      (field (codes "payload") payload end)))))))

  -- Retires the expected epoch, adds the new one and records the event.
  unfoldable pub replace_epoch :
      Scope → ℕ → BranchEpoch → HistoryEvent → BranchLedger → Result BranchError BranchLedger
  unfolding insert_branch_epoch insert_event
  replace_epoch s expected row event db = do
    rows ← insert_branch_epoch row (mark_historical s expected db.branch_epochs)
    events ← insert_event event db.history_events
    ok (record { branch_epochs = rows; history_events = events })

  unfoldable pub truncate_event_row : TruncateCommand → Text → HistoryEvent
  unfolding event_id truncate_payload truncate_result
  truncate_event_row c created_at = record {
    event_id = event_id c.command_id c.chat_id c.branch_id (truncate_payload c);
    command_id = c.command_id;
    chat_id = c.chat_id;
    branch_id = c.branch_id;
    branch_epoch = c.expected_branch_epoch;
    event_type = truncate_event;
    payload_json = canonical_json (truncate_payload c);
    result_json = truncate_result c;
    created_at = created_at;
  }

  unfoldable pub restore_event_row : RestoreCommand → Text → HistoryEvent
  unfolding event_id restore_payload restore_result
  restore_event_row c created_at = record {
    event_id = event_id c.command_id c.chat_id c.branch_id (restore_payload c);
    command_id = c.command_id;
    chat_id = c.chat_id;
    branch_id = c.branch_id;
    branch_epoch = c.expected_branch_epoch;
    event_type = restore_event;
    payload_json = canonical_json (restore_payload c);
    result_json = restore_result c;
    created_at = created_at;
  }

  truncate_transaction :
      TruncateCommand → Text → BranchLedger → Result BranchError (Json × BranchLedger)
  unfolding replay_event current_or_root truncated_epoch truncate_event_row replace_epoch
  truncate_transaction c created_at db = elim (find_event c.command_id db.history_events) [
    | some event ↦ replay_event (truncate_payload c) event db
    | none ↦ do
      let s = scope
      let current = current_or_root s c.expected_branch_epoch created_at db.branch_epochs
      guard (is_expected c.expected_branch_epoch current.0) branch_epoch_conflict
      let event = truncate_event_row c created_at
      db' ←
          replace_epoch s c.expected_branch_epoch (truncated_epoch c event.event_id created_at)
            event (record db { branch_epochs = current.1 })
      ok (truncate_result c, db')
  ]
    where
      scope : Scope
      scope = record { chat_id = c.chat_id; branch_id = c.branch_id }

  restore_transaction :
      RestoreCommand → Text → BranchLedger → Result BranchError (Json × BranchLedger)
  unfolding replay_event restorable restored_epoch restore_event_row replace_epoch
  restore_transaction c created_at db = elim (find_event c.command_id db.history_events) [
    | some event ↦ replay_event (restore_payload c) event db
    | none ↦ do
      let s = scope
      guard (is_expected c.expected_branch_epoch (active_branch_epoch s db.branch_epochs))
          branch_epoch_conflict
      guard
          (restorable c.through_turn_index
            (select_branch_epoch s c.source_branch_epoch db.branch_epochs))
          branch_restore_source_invalid
      let event = restore_event_row c created_at
      db' ←
          replace_epoch s c.expected_branch_epoch (restored_epoch c event.event_id created_at) event
            db
      ok (restore_result c, db')
  ]
    where
      scope : Scope
      scope = record { chat_id = c.chat_id; branch_id = c.branch_id }

  -- `now` is the clock's reading in ISO form.
  unfoldable pub truncate_branch :
      Text → TruncateCommand → BranchLedger → Result BranchError Json × BranchLedger
  unfolding identities_valid resolve_committed_at transact truncate_transaction
  truncate_branch now c db =
      if not (identities_valid c.chat_id c.command_id c.branch_id c.reason_code)
      then (err turn_identity_invalid, db)
      else elim (resolve_committed_at c.created_at now) [
        | err e ↦ (err e, db)
        | ok created_at ↦ transact (truncate_transaction c created_at) db
      ]

  unfoldable pub restore_branch :
      Text → RestoreCommand → BranchLedger → Result BranchError Json × BranchLedger
  unfolding identities_valid resolve_committed_at transact restore_transaction
  restore_branch now c db =
      if not (identities_valid c.chat_id c.command_id c.branch_id c.reason_code)
      then (err turn_identity_invalid, db)
      else if nat_eq c.source_branch_epoch c.expected_branch_epoch
      then (err branch_restore_source_invalid, db)
      else elim (resolve_committed_at c.created_at now) [
        | err e ↦ (err e, db)
        | ok created_at ↦ transact (restore_transaction c created_at) db
      ]
