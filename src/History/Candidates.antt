-- ===== src/History/Candidates.antt =====
-- history/state-history.js: activateCandidate, in a chat that is open, and what deleteCandidate shares with it. An
-- operation that throws is rolled back, so an error leaves the tables as they were.
pub mod Deletion
pub mod Activation
pub mod OneActive
pub mod Deleted
pub mod Replaced
use tavern_mnemosyne.Prelude.{
  ℕ, Bool, true, false, not, ◌&&◌, ◌||◌, List, [], ◌∷◌, ◌++◌, map, find?, Option, none, some, leb,
  ltb, nat_eq, text_eq, any, Text, codes, if◌then◌else◌, length, Result, ok, err, ◌>>=◌, ◌>>◌,
  guard,
}
use tavern_mnemosyne.Contracts.Json.{Json, null, str, obj, end, field, canonical_json}
use tavern_mnemosyne.Contracts.Identity.{is_safe_id, is_opaque_host_id}
use tavern_mnemosyne.History.Tables.{
  BranchEpoch, HistoryEvent, EventType, delete_candidate, Scope, select_branch_epoch,
  active_branch_epoch, find_event,
}
use tavern_mnemosyne.History.Tables as Tables
use tavern_mnemosyne.History.BranchRows.{as_existing}
use tavern_mnemosyne.History.Records.{
  Turn, TurnCandidate, CandidateStatus, active, inactive, deleted, Patch, applied, rolled_back,
  MemoryRecord, inactive_record, MemoryTables, is_active,
}

-- The tables that the two operations read and write.
pub record CandidateLedger : Type 0 where
  pub branch_epochs : List BranchEpoch
  pub history_events : List HistoryEvent
  pub memory : MemoryTables

pub data CandidateError : Type 0 where
  turn_identity_invalid turn_candidate_unavailable turn_active_candidate_conflict : CandidateError
  branch_epoch_stale : (requested : ℕ) → (active_epoch : Option ℕ) → CandidateError
  candidate_delete_fallback_invalid candidate_delete_fallback_required : CandidateError
  history_command_conflict constraint_failed : CandidateError

-- A candidate with its turn and the row of the turn's epoch.
pub record Target : Type 0 where
  pub turn : Turn
  pub candidate : TurnCandidate
  pub epoch : BranchEpoch

abbrev pub is_turn : (chat_id turn_id : Text) → Turn → Bool
is_turn chat_id turn_id turn = text_eq turn.chat_id chat_id && text_eq turn.turn_id turn_id

abbrev pub is_candidate : (turn_id candidate_id : Text) → TurnCandidate → Bool
is_candidate turn_id candidate_id candidate =
    text_eq candidate.candidate_id candidate_id && text_eq candidate.turn_id turn_id

abbrev pub both : Option Turn → Option TurnCandidate → Option (Turn × TurnCandidate)
both (some turn) (some candidate) = some (turn, candidate)
both _ _ = none

-- The JOIN of a candidate with its turn.
unfoldable pub find_candidate :
    (chat_id turn_id candidate_id : Text) → MemoryTables → Option (Turn × TurnCandidate)
unfolding find?
find_candidate chat_id turn_id candidate_id db =
    both (find? (is_turn chat_id turn_id) db.turns)
      (find? (is_candidate turn_id candidate_id) db.turn_candidates)

abbrev pub scope_of : Turn → Scope
scope_of turn = record { chat_id = turn.chat_id; branch_id = turn.branch_id }

abbrev with_epoch : Turn → TurnCandidate → Option BranchEpoch → Option Target
with_epoch turn candidate none = none
with_epoch turn candidate (some epoch) =
    some (record { turn = turn; candidate = candidate; epoch = epoch })

abbrev pub in_epoch : List BranchEpoch → Option (Turn × TurnCandidate) → Option Target
in_epoch rows none = none
in_epoch rows (some (turn, candidate)) =
    with_epoch turn candidate (select_branch_epoch (scope_of turn) turn.branch_epoch rows)

unfoldable pub find_target : (chat_id turn_id candidate_id : Text) → CandidateLedger → Option Target
unfolding find_candidate
find_target chat_id turn_id candidate_id db =
    in_epoch db.branch_epochs (find_candidate chat_id turn_id candidate_id db.memory)

abbrev pub is_deleted : CandidateStatus → Bool
is_deleted deleted = true
is_deleted _ = false

-- The checks with which both operations begin on their target.
unfoldable pub available : List BranchEpoch → Option Target → Result CandidateError Target
available rows none = err turn_candidate_unavailable
available rows (some target) =
    if is_deleted target.candidate.status
    then err turn_candidate_unavailable
    else if Tables.is_active target.epoch.status
    then ok target
    else err (
        branch_epoch_stale target.turn.branch_epoch
          (active_branch_epoch (scope_of target.turn) rows))

-- UPDATE turn_candidates: the active candidates of a turn become inactive.
unfoldable pub deactivate : (turn_id : Text) → List TurnCandidate → List TurnCandidate
deactivate turn_id [] = []
deactivate turn_id (c ∷ candidates) =
    (if text_eq c.turn_id turn_id && is_active c.status then record c { status = inactive } else c)
    ∷ deactivate turn_id candidates

-- UPDATE turn_candidates … WHERE candidate_id = ?
unfoldable pub update_candidate :
    (TurnCandidate → TurnCandidate)
    → (candidate_id : Text) → List TurnCandidate
    → List TurnCandidate
update_candidate change candidate_id [] = []
update_candidate change candidate_id (c ∷ candidates) =
    (if text_eq c.candidate_id candidate_id then change c else c)
    ∷ update_candidate change candidate_id candidates

abbrev pub make_active : (at : Text) → TurnCandidate → TurnCandidate
make_active at c = record c { status = active; activated_at = some at }

abbrev pub make_deleted : TurnCandidate → TurnCandidate
make_deleted c = record c { status = deleted }

abbrev pub is_patch : Option Text → Patch → Bool
is_patch none patch = false
is_patch (some patch_id) patch = text_eq patch.patch_id patch_id

abbrev pub roll_back : (at : Text) → Patch → Patch
roll_back at patch = record patch { status = rolled_back; rolled_back_at = some at }

abbrev pub apply_again : (at : Text) → Patch → Patch
apply_again at patch = record patch {
  status = applied;
  applied_at = some at;
  rolled_back_at = none;
}

unfoldable pub update_patches : (Patch → Bool) → (Patch → Patch) → List Patch → List Patch
update_patches selected change [] = []
update_patches selected change (patch ∷ patches) =
    (if selected patch then change patch else patch) ∷ update_patches selected change patches

-- Whether a patch is that of an active candidate of a turn.
unfoldable pub of_active : (turn_id : Text) → List TurnCandidate → Patch → Bool
unfolding any
of_active turn_id candidates patch =
    any (λ c. (text_eq c.turn_id turn_id && is_active c.status) && is_patch c.patch_id patch)
      candidates

abbrev pub activation_result : (status candidate_id : Text) → Json
activation_result status candidate_id = obj (
    field (codes "schema") (str (codes "mnemosyne.candidate-activation-result.v1"))
      (field (codes "status") (str status) (field (codes "candidate_id") (str candidate_id) end)))

-- The four updates of activateCandidate.
unfoldable pub activated_tables : (turn_id at : Text) → TurnCandidate → MemoryTables → MemoryTables
unfolding deactivate update_candidate update_patches of_active
activated_tables turn_id at target db = record db {
  patches =
      update_patches (is_patch target.patch_id) (apply_again at)
        (update_patches (of_active turn_id db.turn_candidates) (roll_back at) db.patches);
  turn_candidates =
      update_candidate (make_active at) target.candidate_id (deactivate turn_id db.turn_candidates);
}

-- activateCandidate, in an open chat.
unfoldable pub activate_candidate :
    (chat_id turn_id candidate_id at : Text)
    → CandidateLedger
    → Result CandidateError (Json × CandidateLedger)
unfolding find_target available activated_tables
activate_candidate chat_id turn_id candidate_id at db = do
  guard (is_opaque_host_id chat_id && (is_safe_id turn_id && is_safe_id candidate_id))
      turn_identity_invalid
  target ← available db.branch_epochs (find_target chat_id turn_id candidate_id db)
  if is_active target.candidate.status
      then ok (activation_result (codes "existing") candidate_id, db)
      else ok (
        activation_result (codes "activated") candidate_id,
        record db { memory = activated_tables turn_id at target.candidate db.memory },
      )
