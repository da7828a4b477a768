-- ===== src/History/Candidates/Deletion.antt =====
-- history/state-history.js: deleteCandidate, in a chat that is open.
use tavern_mnemosyne.Prelude.{
  Bool, true, false, ◌&&◌, ◌||◌, List, [], ◌∷◌, ◌++◌, take, Option, none, some, text_eq, Text,
  codes, if◌then◌else◌, Result, ok, err, ◌>>=◌, ◌>>◌, guard,
}
use tavern_mnemosyne.Contracts.Json.{Json, null, str, obj, end, field, canonical_json}
use tavern_mnemosyne.Contracts.Identity.{is_safe_id, is_opaque_host_id}
use tavern_mnemosyne.History.Tables.{
  HistoryEvent, EventType, delete_candidate as delete_event, find_event, has_event_id,
}
use tavern_mnemosyne.History.BranchRows.{as_existing}
use tavern_mnemosyne.History.Records.{
  Turn, TurnCandidate, MemoryRecord, inactive_record, MemoryTables, is_active, is_some,
}
use tavern_mnemosyne.History.Candidates.{
  CandidateLedger, CandidateError, Target, turn_identity_invalid, turn_active_candidate_conflict,
  candidate_delete_fallback_invalid, candidate_delete_fallback_required, history_command_conflict,
  constraint_failed, find_candidate, find_target, is_deleted, available, update_candidate,
  make_active, make_deleted, is_patch, roll_back, apply_again, update_patches,
}

pub record DeleteCommand : Type 0 where
  pub command_id : Text
  pub chat_id : Text
  pub turn_id : Text
  pub candidate_id : Text
  pub fallback_candidate_id : Option Text

abbrev text_or_null : Option Text → Json
text_or_null none = null
text_or_null (some s) = str s

abbrev pub delete_payload : DeleteCommand → Json
delete_payload c = obj (
    field (codes "turn_id") (str c.turn_id) (
      field (codes "candidate_id") (str c.candidate_id)
        (field (codes "fallback_candidate_id") (text_or_null c.fallback_candidate_id) end)))

-- The ids of the active candidates of a turn.
unfoldable pub active_candidates : (turn_id : Text) → List TurnCandidate → List Text
active_candidates turn_id [] = []
active_candidates turn_id (c ∷ candidates) =
    let rest = active_candidates turn_id candidates in
    if text_eq c.turn_id turn_id && is_active c.status then c.candidate_id ∷ rest else rest

-- `currentActiveCandidateId`; two are a conflict.
unfoldable pub current_active : List Text → Result CandidateError (Option Text)
current_active [] = ok none
current_active (id ∷ []) = ok (some id)
current_active (id ∷ other ∷ more) = err turn_active_candidate_conflict

-- The fallback that was found, when it may stand for the candidate.
unfoldable pub usable_fallback :
    (candidate_id : Text)
    → Option (Turn × TurnCandidate)
    → Result CandidateError (Option TurnCandidate)
usable_fallback candidate_id none = err candidate_delete_fallback_invalid
usable_fallback candidate_id (some (turn, fallback)) =
    if is_deleted fallback.status || text_eq fallback.candidate_id candidate_id
    then err candidate_delete_fallback_invalid
    else ok (some fallback)

unfoldable pub find_fallback :
    DeleteCommand → Option Text → MemoryTables → Result CandidateError (Option TurnCandidate)
unfolding usable_fallback
find_fallback c none db = ok none
find_fallback c (some id) db =
    usable_fallback c.candidate_id (find_candidate c.chat_id c.turn_id id db)

abbrev is_current : Option Text → TurnCandidate → Bool
is_current none candidate = false
is_current (some id) candidate = text_eq candidate.candidate_id id

-- The last checks: an active candidate needs a fallback, another must not name one that is not active.
unfoldable pub check_fallback :
    (target_active : Bool)
    → Option TurnCandidate
    → (current : Option Text) → Result CandidateError (Unit {0})
check_fallback true none current = err candidate_delete_fallback_required
check_fallback true (some fallback) current = ok tt
check_fallback false none current = ok tt
check_fallback false (some fallback) current =
    if is_current current fallback then ok tt else err candidate_delete_fallback_invalid

-- UPDATE turn_memory_records SET status = 'inactive' WHERE candidate_id = ?
unfoldable pub retire_records : (candidate_id : Text) → List MemoryRecord → List MemoryRecord
retire_records candidate_id [] = []
retire_records candidate_id (r ∷ records) =
    (if text_eq r.candidate_id candidate_id then record r { status = inactive_record } else r)
    ∷ retire_records candidate_id records

unfoldable pub deleted_tables : (at : Text) → TurnCandidate → MemoryTables → MemoryTables
unfolding update_patches update_candidate retire_records
deleted_tables at target db = record db {
  patches = update_patches (is_patch target.patch_id) (roll_back at) db.patches;
  turn_memory_records = retire_records target.candidate_id db.turn_memory_records;
  turn_candidates = update_candidate make_deleted target.candidate_id db.turn_candidates;
}

-- The fallback of an active candidate is made active.
unfoldable pub fallback_tables :
    (target_active : Bool) → (at : Text) → Option TurnCandidate → MemoryTables → MemoryTables
unfolding update_patches update_candidate
fallback_tables true at (some fallback) db = record db {
  patches = update_patches (is_patch fallback.patch_id) (apply_again at) db.patches;
  turn_candidates = update_candidate (make_active at) fallback.candidate_id db.turn_candidates;
}
fallback_tables _ at _ db = db

-- `activeCandidateId` in the result.
abbrev pub active_after :
    (target_active : Bool) → Option TurnCandidate → (current : Option Text) → Option Text
active_after true (some fallback) current = some fallback.candidate_id
active_after _ _ current = current

abbrev is_delete : EventType → Bool
is_delete delete_event = true
is_delete _ = false

abbrev pub is_valid_fallback : Option Text → Bool
is_valid_fallback none = true
is_valid_fallback (some id) = is_safe_id id

-- A command that is already in the journal of events.
unfoldable pub replay_deletion :
    DeleteCommand → HistoryEvent → CandidateLedger → Result CandidateError (Json × CandidateLedger)
replay_deletion c event db =
    if is_delete event.event_type
      && (text_eq event.chat_id c.chat_id
          && text_eq event.payload_json (canonical_json (delete_payload c)))
    then ok (as_existing event.result_json, db)
    else err history_command_conflict

abbrev pub insert_event : HistoryEvent → CandidateLedger → Result CandidateError CandidateLedger
insert_event event db =
    if is_some (find_event event.command_id db.history_events)
      || has_event_id event.event_id db.history_events
    then err constraint_failed
    else ok (record db { history_events = db.history_events ++ (event ∷ []) })

unfoldable pub has_valid_ids : DeleteCommand → Bool
has_valid_ids c =
    is_opaque_host_id c.chat_id
    && (is_safe_id c.command_id
        && (is_safe_id c.turn_id
            && (is_safe_id c.candidate_id && is_valid_fallback c.fallback_candidate_id)))

module _ (sha256 : Text → Text) where
  unfoldable pub deletion_event_id : DeleteCommand → Text
  deletion_event_id c =
      codes "event_"
      ++ take 24 (
          sha256 (
            canonical_json (
              obj (
                field (codes "command_id") (str c.command_id) (
                  field (codes "chat_id") (str c.chat_id)
                    (field (codes "payload") (delete_payload c) end))))))

  unfoldable pub deletion_result : DeleteCommand → Option Text → Json
  unfolding deletion_event_id
  deletion_result c active_id = obj (
      field (codes "schema") (str (codes "mnemosyne.candidate-deletion-result.v1")) (
        field (codes "status") (str (codes "deleted")) (
          field (codes "event_id") (str (deletion_event_id c)) (
            field (codes "turn_id") (str c.turn_id) (
              field (codes "deleted_candidate_id") (str c.candidate_id)
                (field (codes "active_candidate_id") (text_or_null active_id) end))))))

  -- The row of the event.
  unfoldable pub deletion_event : DeleteCommand → Target → (at : Text) → Json → HistoryEvent
  unfolding deletion_event_id
  deletion_event c target at result = record {
    event_id = deletion_event_id c;
    command_id = c.command_id;
    chat_id = c.chat_id;
    branch_id = target.turn.branch_id;
    branch_epoch = target.turn.branch_epoch;
    event_type = delete_event;
    payload_json = canonical_json (delete_payload c);
    result_json = result;
    created_at = at;
  }

  -- The tables after the deletion, and its event.
  unfoldable pub record_deletion :
      DeleteCommand
      → (at : Text) → Target
      → (active_id : Option Text) → MemoryTables
      → CandidateLedger
      → Result CandidateError (Json × CandidateLedger)
  unfolding deletion_result deletion_event
  record_deletion c at target active_id memory db = do
    let result = deletion_result c active_id
    inserted ← insert_event (deletion_event c target at result) (record db { memory = memory })
    ok (result, inserted)

  -- The deletion of a target that is available.
  unfoldable pub delete_target :
      DeleteCommand
      → (at : Text) → Target
      → CandidateLedger
      → Result CandidateError (Json × CandidateLedger)
  delete_target c at target db = do
    let target_active = is_active target.candidate.status
    current ← current_active (active_candidates c.turn_id db.memory.turn_candidates)
    fallback ← find_fallback c c.fallback_candidate_id db.memory
    check_fallback target_active fallback current
    record_deletion c at target (active_after target_active fallback current)
        (fallback_tables target_active at fallback (deleted_tables at target.candidate db.memory))
        db

  -- deleteCandidate, at a time that is already resolved.
  unfoldable pub delete_candidate :
      DeleteCommand → (at : Text) → CandidateLedger → Result CandidateError (Json × CandidateLedger)
  delete_candidate c at db =
      guard (has_valid_ids c) turn_identity_invalid
      >> elim (find_event c.command_id db.history_events) [
        | some event ↦ replay_deletion c event db
        | none ↦
            available db.branch_epochs (find_target c.chat_id c.turn_id c.candidate_id db)
            >>= λ target. delete_target c at target db
      ]
