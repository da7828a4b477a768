-- ===== src/Tests/State.antt =====
-- history/state-history.js's `currentState`, on a key that is set twice and one that is unset.
use tavern_mnemosyne.Prelude.{◌≡◌, List, [], ◌∷◌, none, some, Text, codes, ℕ}
use tavern_mnemosyne.Contracts.Json.{Json, str}
use tavern_mnemosyne.History.Records.{
  committed, CandidateStatus, applied, active_record, StateOperation, set_state, unset_state,
  MemoryRow,
}
use tavern_mnemosyne.History.StateAt.{map_get, state_key, fold_rows}
use tavern_mnemosyne.History.StateAt.Latest.{latest, or_before, map_get-fold_rows}

abbrev pub row : Text → ℕ → StateOperation → Json → MemoryRow
row key turn operation value = record {
  turn = record {
    turn_id = codes "t";
    chat_id = codes "c";
    turn_index = turn;
    branch_id = codes "b";
    branch_epoch = 0;
    status = committed;
  };
  candidate = record {
    candidate_id = codes "k";
    turn_id = codes "t";
    patch_id = some (codes "p");
    status = CandidateStatus.active;
    activated_at = none;
  };
  patch = record {
    patch_id = codes "p";
    status = applied;
    applied_at = none;
    rolled_back_at = none;
  };
  entry = record {
    record_id = codes "r";
    patch_id = codes "p";
    candidate_id = codes "k";
    sequence_index = 0;
    record_kind = codes "state";
    entity_ref = codes "hero";
    state_domain = some (codes "place");
    state_key = some key;
    state_value_json = some value;
    state_operation = operation;
    record_payload_json = none;
    source_ref = codes "s";
    support_strength = codes "direct";
    status = active_record;
  };
}

abbrev rows : List MemoryRow
rows =
    row (codes "room") 0 set_state (str (codes "hall"))
    ∷ row (codes "mood") 1 set_state (str (codes "calm"))
    ∷ row (codes "room") 2 set_state (str (codes "attic"))
    ∷ row (codes "mood") 3 unset_state (str (codes "calm"))
    ∷ []

abbrev room : Text
room = state_key (row (codes "room") 0 set_state (str (codes "hall")))

map_get-fold_rows_example :
    map_get room (fold_rows [] rows) ≡ or_before (map_get room []) (latest room rows)
map_get-fold_rows_example = map_get-fold_rows room [] rows tt
