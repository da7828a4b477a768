-- ===== src/History/Tables.antt =====
-- The tables that history/state-history.js and history/active-history-resolver.js read and write
-- (their columns as storage/chat-save-store.js creates them), and the single-table queries.
-- A table is the list of its rows in the order of insertion.
use tavern_mnemosyne.Prelude.{
  ℕ, Bool, true, false, ◌&&◌, List, [], ◌∷◌, Option, none, some, max, nat_eq, text_eq, Text,
  if◌then◌else◌, find?,
}
use tavern_mnemosyne.Contracts.Json.{Json}

pub data BranchStatus : Type 0 where
  active historical : BranchStatus

pub record BranchEpoch : Type 0 where
  pub chat_id : Text
  pub branch_id : Text
  pub branch_epoch : ℕ
  pub parent_branch_epoch : Option ℕ
  pub parent_cutoff_turn_index_exclusive : Option ℕ
  pub status : BranchStatus
  pub head_turn_index : Option ℕ
  pub created_by_event_id : Option Text
  pub created_at : Text

pub data EventType : Type 0 where
  truncate_branch restore_branch commit_candidate delete_candidate : EventType

-- `result_json` is kept as the value that its text stands for.
pub record HistoryEvent : Type 0 where
  pub event_id : Text
  pub command_id : Text
  pub chat_id : Text
  pub branch_id : Text
  pub branch_epoch : ℕ
  pub event_type : EventType
  pub payload_json : Text
  pub result_json : Json
  pub created_at : Text

-- `chat_id = ? AND branch_id = ?`
pub record Scope : Type 0 where
  pub chat_id : Text
  pub branch_id : Text

unfoldable pub in_scope : Scope → BranchEpoch → Bool
in_scope s r = text_eq r.chat_id s.chat_id && text_eq r.branch_id s.branch_id

abbrev pub is_active : BranchStatus → Bool
is_active active = true
is_active historical = false

unfoldable pub at_epoch : Scope → ℕ → BranchEpoch → Bool
unfolding in_scope
at_epoch s e r = in_scope s r && nat_eq r.branch_epoch e

-- `WHERE chat_id = ? AND branch_id = ? AND branch_epoch = ?`
unfoldable pub select_branch_epoch : Scope → ℕ → List BranchEpoch → Option BranchEpoch
unfolding find?
select_branch_epoch s e rows = find? (at_epoch s e) rows

abbrev later : ℕ → Option ℕ → ℕ
later e none = e
later e (some f) = max e f

-- `WHERE … AND status = 'active' ORDER BY branch_epoch DESC LIMIT 1`
unfoldable pub active_branch_epoch : Scope → List BranchEpoch → Option ℕ
active_branch_epoch s [] = none
active_branch_epoch s (r ∷ rows) =
    let rest = active_branch_epoch s rows in
    if in_scope s r && is_active r.status then some (later r.branch_epoch rest) else rest

-- `SELECT COUNT(*) … = 0`
unfoldable pub has_branch : Scope → List BranchEpoch → Bool
has_branch s [] = false
has_branch s (r ∷ rows) = if in_scope s r then true else has_branch s rows

-- `UPDATE branch_epochs SET status = 'historical' WHERE …`
unfoldable pub mark_historical : Scope → ℕ → List BranchEpoch → List BranchEpoch
mark_historical s e [] = []
mark_historical s e (r ∷ rows) =
    (if at_epoch s e r then record r { status = historical } else r) ∷ mark_historical s e rows

unfoldable pub find_event : Text → List HistoryEvent → Option HistoryEvent
find_event command_id [] = none
find_event command_id (v ∷ events) =
    if text_eq v.command_id command_id then some v else find_event command_id events

unfoldable pub has_event_id : Text → List HistoryEvent → Bool
has_event_id event_id [] = false
has_event_id event_id (v ∷ events) =
    if text_eq v.event_id event_id then true else has_event_id event_id events
