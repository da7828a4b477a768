-- ===== src/Tests/Candidates.antt =====
-- A turn with two candidates.
use tavern_mnemosyne.Prelude.{
  ◌≡◌, refl, List, [], ◌∷◌, Text, codes, text_eq, arith, Option, none, some, ok, err, Bool-cases,
  inl, inr,
}
use tavern_mnemosyne.Contracts.Json.{Json}
use tavern_mnemosyne.Contracts.Identity.{is_opaque_host_id, is_safe_id}
use tavern_mnemosyne.History.Tables as Tables
use tavern_mnemosyne.History.Records.{
  committed, TurnCandidate, CandidateStatus, active, inactive, deleted, Patch, PatchStatus,
  prepared, applied, rolled_back,
}
use tavern_mnemosyne.History.Candidates.{
  CandidateLedger, turn_candidate_unavailable, Target, available, find_target, activate_candidate,
  activation_result,
}
use tavern_mnemosyne.History.Candidates.Deletion.{
  DeleteCommand, current_active, find_fallback, check_fallback, fallback_tables, deleted_tables,
  active_candidates, delete_candidate, deletion_result, deletion_event, has_valid_ids,
  delete_target, record_deletion,
}
use tavern_mnemosyne.History.Candidates.Activation.{HasUniqueIds, HasOneActive}
use tavern_mnemosyne.History.Candidates.OneActive.{candidates_of, activate-active}
use tavern_mnemosyne.History.Candidates.Replaced.{delete-active}

abbrev candidate : (candidate_id patch_id : Text) → CandidateStatus → Option Text → TurnCandidate
candidate candidate_id patch_id status activated_at = record {
  candidate_id = candidate_id;
  turn_id = codes "t1";
  patch_id = some patch_id;
  status = status;
  activated_at = activated_at;
}

abbrev patch : (patch_id : Text) → PatchStatus → (applied_at rolled_back_at : Option Text) → Patch
patch patch_id status applied_at rolled_back_at = record {
  patch_id = patch_id;
  status = status;
  applied_at = applied_at;
  rolled_back_at = rolled_back_at;
}

abbrev ledger_of : List TurnCandidate → List Patch → CandidateLedger
ledger_of candidates patches = record {
  branch_epochs =
      record {
        chat_id = codes "chat";
        branch_id = codes "main";
        branch_epoch = 0;
        parent_branch_epoch = none;
        parent_cutoff_turn_index_exclusive = none;
        status = Tables.active;
        head_turn_index = some 0;
        created_by_event_id = none;
        created_at = codes "now";
      }
      ∷ [];
  history_events = [];
  memory = record {
    turns =
        record {
          turn_id = codes "t1";
          chat_id = codes "chat";
          turn_index = 0;
          branch_id = codes "main";
          branch_epoch = 0;
          status = committed;
        }
        ∷ [];
    turn_candidates = candidates;
    patches = patches;
    turn_memory_records = [];
  };
}

abbrev now : Text
now = codes "later"

abbrev before : CandidateLedger
before =
    ledger_of
      (candidate (codes "a") (codes "pa") active (some (codes "now"))
        ∷ candidate (codes "b") (codes "pb") inactive none
        ∷ [])
      (patch (codes "pa") applied (some (codes "now")) none
        ∷ patch (codes "pb") prepared none none
        ∷ [])

abbrev after : CandidateLedger
after =
    ledger_of
      (candidate (codes "a") (codes "pa") inactive (some (codes "now"))
        ∷ candidate (codes "b") (codes "pb") active (some now)
        ∷ [])
      (patch (codes "pa") rolled_back (some (codes "now")) (some now)
        ∷ patch (codes "pb") applied (some now) none
        ∷ [])

-- The second candidate takes the first one's place, and so do their patches.
activate_b :
    activate_candidate (codes "chat") (codes "t1") (codes "b") now before
    ≡ ok (activation_result (codes "activated") (codes "b"), after)
unfolding activate_candidate is_opaque_host_id is_safe_id text_eq Tables.select_branch_epoch
    Tables.at_epoch
activate_b = refl

unique_ids : HasUniqueIds (candidates_of before)
unfolding text_eq
unique_ids = (refl, (refl, tt))

one_active : HasOneActive (candidates_of before)
unfolding active_candidates
one_active turn_id = elim (Bool-cases (text_eq (codes "t1") turn_id)) [
  | inl same ↦ rw same (omega arith)
  | inr other ↦ rw other (omega arith)
]

activate-active_example :
    (active_candidates (codes "t1") (candidates_of after) ≡ codes "b" ∷ [])
    × HasUniqueIds (candidates_of after)
unfolding text_eq
activate-active_example =
    activate-active (codes "chat") (codes "t1") (codes "b") now (codes "t1") before after
      (activation_result (codes "activated") (codes "b")) unique_ids one_active activate_b

abbrev sha256 : Text → Text
sha256 text = codes "0123456789abcdef0123456789abcdef0123456789abcdef0123456789abcdef"

abbrev delete_a : DeleteCommand
delete_a = record {
  command_id = codes "c1";
  chat_id = codes "chat";
  turn_id = codes "t1";
  candidate_id = codes "a";
  fallback_candidate_id = some (codes "b");
}

abbrev target_a : Target
target_a = record {
  turn = record {
    turn_id = codes "t1";
    chat_id = codes "chat";
    turn_index = 0;
    branch_id = codes "main";
    branch_epoch = 0;
    status = committed;
  };
  candidate = candidate (codes "a") (codes "pa") active (some (codes "now"));
  epoch = record {
    chat_id = codes "chat";
    branch_id = codes "main";
    branch_epoch = 0;
    parent_branch_epoch = none;
    parent_cutoff_turn_index_exclusive = none;
    status = Tables.active;
    head_turn_index = some 0;
    created_by_event_id = none;
    created_at = codes "now";
  };
}

abbrev deletion : Json
deletion = deletion_result sha256 delete_a (some (codes "b"))

abbrev after_deletion : CandidateLedger
after_deletion =
    record (ledger_of
      (candidate (codes "a") (codes "pa") deleted (some (codes "now"))
        ∷ candidate (codes "b") (codes "pb") active (some now)
        ∷ [])
      (patch (codes "pa") rolled_back (some (codes "now")) (some now)
        ∷ patch (codes "pb") applied (some now) none
        ∷ [])) { history_events = deletion_event sha256 delete_a target_a now deletion ∷ [] }

-- The active candidate is deleted and the fallback takes its place.
delete_a_to_b : delete_candidate sha256 delete_a now before ≡ ok (deletion, after_deletion)
unfolding delete_candidate has_valid_ids is_opaque_host_id is_safe_id Tables.find_event available
    find_target text_eq Tables.select_branch_epoch Tables.at_epoch delete_target current_active
    active_candidates find_fallback check_fallback record_deletion Tables.has_event_id
    fallback_tables deleted_tables
delete_a_to_b = refl

-- A deleted candidate is not available.
delete_again :
    activate_candidate (codes "chat") (codes "t1") (codes "a") now after_deletion
    ≡ err turn_candidate_unavailable
unfolding activate_candidate is_opaque_host_id is_safe_id text_eq Tables.select_branch_epoch
    Tables.at_epoch
delete_again = refl

no_events : Tables.find_event (codes "c1") before.history_events ≡ none
unfolding Tables.find_event
no_events = refl

delete-active_example :
    (active_candidates (codes "t1") (candidates_of after_deletion) ≡ codes "b" ∷ [])
    × HasUniqueIds (candidates_of after_deletion)
unfolding text_eq active_candidates
delete-active_example =
    delete-active sha256 delete_a (codes "t1") now before after_deletion deletion unique_ids
      one_active no_events delete_a_to_b
