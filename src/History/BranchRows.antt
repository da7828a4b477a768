-- ===== src/History/BranchRows.antt =====
-- history/state-history.js: the commands on branches, their checks, payloads and results, and the rows that
-- they write.
use tavern_mnemosyne.Prelude.{
  ℕ, ◌+◌, Bool, false, not, ◌&&◌, List, [], ◌∷◌, ◌++◌, Option, none, some, leb, nat_eq, text_eq,
  Text, codes, if◌then◌else◌, pos, sub_ℕ, Result, ok, err,
}
use tavern_mnemosyne.Contracts.Json.{Json, str, num, obj, end, field, canonical_json, set_field}
use tavern_mnemosyne.Contracts.Identity.{is_safe_id, is_opaque_host_id, is_canonical_iso_timestamp}
use tavern_mnemosyne.History.Tables.{
  BranchEpoch, active, HistoryEvent, Scope, is_active, select_branch_epoch, active_branch_epoch,
  has_branch, find_event, has_event_id,
}

-- The two tables that the commands on branches read and write.
pub record BranchLedger : Type 0 where
  pub branch_epochs : List BranchEpoch
  pub history_events : List HistoryEvent

-- The reason codes; `constraint_failed` is the engine's refusal of a second row under one key.
pub data BranchError : Type 0 where
  turn_identity_invalid turn_committed_at_invalid history_command_conflict : BranchError
  branch_epoch_conflict branch_restore_source_invalid constraint_failed : BranchError

pub record TruncateCommand : Type 0 where
  pub command_id : Text
  pub chat_id : Text
  pub branch_id : Text
  pub expected_branch_epoch : ℕ
  pub cutoff_turn_index : ℕ
  pub reason_code : Text
  pub created_at : Option Text

pub record RestoreCommand : Type 0 where
  pub command_id : Text
  pub chat_id : Text
  pub branch_id : Text
  pub expected_branch_epoch : ℕ
  pub source_branch_epoch : ℕ
  pub through_turn_index : ℕ
  pub reason_code : Text
  pub created_at : Option Text

-- The checks on identities that both commands begin with.
unfoldable pub identities_valid : Text → Text → Text → Text → Bool
identities_valid chat_id command_id branch_id reason_code =
    is_opaque_host_id chat_id
    && (is_safe_id command_id && (is_safe_id branch_id && is_safe_id reason_code))

unfoldable pub resolve_committed_at : Option Text → Text → Result BranchError Text
resolve_committed_at none now = ok now
resolve_committed_at (some t) now =
    if is_canonical_iso_timestamp t then ok t else err turn_committed_at_invalid

-- Runs a transaction: a thrown error rolls it back.
unfoldable pub transact :
    (BranchLedger → Result BranchError (Json × BranchLedger))
    → BranchLedger
    → Result BranchError Json × BranchLedger
transact body db = elim (body db) [ ok (result, db') ↦ (ok result, db') | err e ↦ (err e, db) ]

unfoldable pub insert_branch_epoch :
    BranchEpoch → List BranchEpoch → Result BranchError (List BranchEpoch)
insert_branch_epoch r rows =
    elim (select_branch_epoch (record { chat_id = r.chat_id; branch_id = r.branch_id })
      r.branch_epoch rows) [ some _ ↦ err constraint_failed | none ↦ ok (rows ++ r ∷ []) ]

unfoldable pub insert_event :
    HistoryEvent → List HistoryEvent → Result BranchError (List HistoryEvent)
insert_event v events = elim (find_event v.command_id events) [
  | some _ ↦ err constraint_failed
  | none ↦ if has_event_id v.event_id events then err constraint_failed else ok (events ++ v ∷ [])
]

-- `{ ...existingResult, status: 'existing' }`
unfoldable pub as_existing : Json → Json
as_existing (obj fields) = obj (set_field (codes "status") (str (codes "existing")) fields)
as_existing other = other

-- What a command answers when its id is already in the journal of events.
unfoldable pub replay_event :
    Json → HistoryEvent → BranchLedger → Result BranchError (Json × BranchLedger)
unfolding as_existing
replay_event payload event db =
    if text_eq event.payload_json (canonical_json payload)
    then ok (as_existing event.result_json, db)
    else err history_command_conflict

unfoldable pub root_epoch : Scope → Text → BranchEpoch
root_epoch s created_at = record {
  chat_id = s.chat_id;
  branch_id = s.branch_id;
  branch_epoch = 0;
  parent_branch_epoch = none;
  parent_cutoff_turn_index_exclusive = none;
  status = active;
  head_turn_index = none;
  created_by_event_id = none;
  created_at = created_at;
}

-- The active epoch, and the table in which an empty branch was given its root at epoch 0.
unfoldable pub current_or_root : Scope → ℕ → Text → List BranchEpoch → Option ℕ × List BranchEpoch
unfolding root_epoch
current_or_root s expected created_at rows = elim (active_branch_epoch s rows) [
  | some current ↦ (some current, rows)
  | none ↦
      if nat_eq expected 0 && not (has_branch s rows)
      then (some 0, rows ++ root_epoch s created_at ∷ [])
      else (none, rows)
]

abbrev pub is_expected : ℕ → Option ℕ → Bool
is_expected expected none = false
is_expected expected (some current) = nat_eq current expected

unfoldable pub truncate_payload : TruncateCommand → Json
truncate_payload c = obj (
    field (codes "expected_branch_epoch") (num (pos c.expected_branch_epoch)) (
      field (codes "cutoff_turn_index") (num (pos c.cutoff_turn_index))
        (field (codes "reason_code") (str c.reason_code) end)))

unfoldable pub restore_payload : RestoreCommand → Json
restore_payload c = obj (
    field (codes "expected_branch_epoch") (num (pos c.expected_branch_epoch)) (
      field (codes "source_branch_epoch") (num (pos c.source_branch_epoch)) (
        field (codes "through_turn_index") (num (pos c.through_turn_index))
          (field (codes "reason_code") (str c.reason_code) end))))

unfoldable pub truncate_result : TruncateCommand → Json
truncate_result c = obj (
    field (codes "schema") (str (codes "mnemosyne.branch-truncation-result.v1")) (
      field (codes "status") (str (codes "truncated")) (
        field (codes "branch_id") (str c.branch_id) (
          field (codes "previous_branch_epoch") (num (pos c.expected_branch_epoch)) (
            field (codes "new_branch_epoch") (num (pos (c.expected_branch_epoch + 1))) (
              field (codes "inherited_through_turn_index") (num (sub_ℕ c.cutoff_turn_index 1))
                end))))))

unfoldable pub restore_result : RestoreCommand → Json
restore_result c = obj (
    field (codes "schema") (str (codes "mnemosyne.branch-restoration-result.v1")) (
      field (codes "status") (str (codes "restored")) (
        field (codes "branch_id") (str c.branch_id) (
          field (codes "previous_branch_epoch") (num (pos c.expected_branch_epoch)) (
            field (codes "source_branch_epoch") (num (pos c.source_branch_epoch)) (
              field (codes "new_branch_epoch") (num (pos (c.expected_branch_epoch + 1))) (
                field (codes "inherited_through_turn_index") (num (pos c.through_turn_index))
                  end)))))))

-- The row that a truncation adds: `cutoffTurnIndex === 0 ? null : cutoffTurnIndex - 1`.
unfoldable pub truncated_epoch : TruncateCommand → Text → Text → BranchEpoch
truncated_epoch c event_id created_at = record {
  chat_id = c.chat_id;
  branch_id = c.branch_id;
  branch_epoch = c.expected_branch_epoch + 1;
  parent_branch_epoch = some c.expected_branch_epoch;
  parent_cutoff_turn_index_exclusive = some c.cutoff_turn_index;
  status = active;
  head_turn_index = elim c.cutoff_turn_index [ ℕ.zero ↦ none | ℕ.suc n ↦ some n ];
  created_by_event_id = some event_id;
  created_at = created_at;
}

unfoldable pub restored_epoch : RestoreCommand → Text → Text → BranchEpoch
restored_epoch c event_id created_at = record {
  chat_id = c.chat_id;
  branch_id = c.branch_id;
  branch_epoch = c.expected_branch_epoch + 1;
  parent_branch_epoch = some c.source_branch_epoch;
  parent_cutoff_turn_index_exclusive = some (c.through_turn_index + 1);
  status = active;
  head_turn_index = some c.through_turn_index;
  created_by_event_id = some event_id;
  created_at = created_at;
}

-- `source.status === 'historical'`, with a head that is not before the turn to restore through.
unfoldable pub restorable : ℕ → Option BranchEpoch → Bool
restorable through none = false
restorable through (some source) = elim source.head_turn_index [
  | none ↦ false
  | some head ↦ not (is_active source.status) && leb through head
]
