-- ===== src/Craft/PromiseDue.antt =====
-- craft/promise-due-ledger.js. A row's payload is the value that its JSON column parses to; a payload's
-- salience is an integer or null, as the schema of a plot thread has it.
pub mod Listed
pub mod Order
pub mod Entries
use tavern_mnemosyne.Prelude.{
  ℕ, suc, ◌+◌, ◌-◌, Bool, true, false, ◌&&◌, List, [], ◌∷◌, Option, none, some, Text, codes,
  text_eq, ltb, leb, nat_eq, take, if◌then◌else◌, ℤ, pos, negsuc, leb_ℤ, Result, ok, err,
}
use tavern_mnemosyne.Contracts.Json.{Json, str, num, obj, Fields, get_field}
use tavern_mnemosyne.History.Records.{MemoryRow, sort_by}
use tavern_mnemosyne.History.StateAt.{map_set, map_get}

pub record DuePromise : Type 0 where
  pub thread_ref : Text
  pub thread_kind : Option Json
  pub status : Option Json
  pub due_by_turn : ℤ
  pub overdue_turns : ℕ
  pub salience : Option ℤ
  pub setup_turn_index : Option ℕ
  pub record_entity_ref : Text
  pub source_ref : Text

pub data DueLedgerError : Type 0 where
  promise_due_ledger_input_invalid : DueLedgerError

-- The thread and the payload of a row that declares a plot thread.
unfoldable pub declaration : MemoryRow → Option (Text × Fields)
declaration row =
    if text_eq row.entry.record_kind (codes "plot_thread")
    then elim row.entry.record_payload_json [
      | some (obj payload) ↦ elim (get_field (codes "thread_ref") payload) [
        | some (str thread) ↦ some (thread, payload)
        | _ ↦ none
      ]
      | _ ↦ none
    ]
    else none

-- The two maps of the first loop, `latest` and `firstSeenTurn`.
pub record Threads : Type 0 where
  pub latest : List (Text × (MemoryRow × Fields))
  pub first_seen_turn : List (Text × ℕ)

unfoldable pub first_seen : Text → ℕ → List (Text × ℕ) → List (Text × ℕ)
unfolding map_set map_get
first_seen thread turn seen = elim (map_get thread seen) [
  | some _ ↦ seen
  | none ↦ map_set thread turn seen
]

unfoldable pub declare : MemoryRow → Threads → Threads
declare row threads = elim (declaration row) [
  | none ↦ threads
  | some (thread, payload) ↦ record {
    latest = map_set thread (row, payload) threads.latest;
    first_seen_turn = first_seen thread row.turn.turn_index threads.first_seen_turn;
  }
]

unfoldable pub read_threads : List MemoryRow → Threads → Threads
unfolding declare
read_threads [] threads = threads
read_threads (row ∷ rows) threads = read_threads rows (declare row threads)

-- OPEN_STATUS_SET
unfoldable pub is_open_status : Option Json → Bool
is_open_status (some (str status)) =
    if text_eq status (codes "open")
    then true
    else if text_eq status (codes "blocked")
    then true
    else text_eq status (codes "progressing")
is_open_status _ = false

-- `visibleTurnIndex - dueBy`, none before the turn that is due.
unfoldable pub overdue : ℕ → ℤ → Option ℕ
overdue visible (pos due) = if ltb visible due then none else some (visible - due)
overdue visible (negsuc n) = some (visible + suc n)

abbrev salience_of : Option Json → Option ℤ
salience_of (some (num n)) = some n
salience_of _ = none

abbrev salience_or_zero : Option ℤ → ℤ
salience_or_zero (some n) = n
salience_or_zero none = pos 0

-- What the second loop pushes for one thread, if anything.
unfoldable pub due_promise : ℕ → List (Text × ℕ) → Text → MemoryRow × Fields → Option DuePromise
unfolding map_get
due_promise visible seen thread (row, payload) =
    if is_open_status (get_field (codes "status") payload)
    then elim (get_field (codes "due_by") payload) [
      | some (num due) ↦ elim (overdue visible due) [
        | none ↦ none
        | some turns ↦ some (record {
          thread_ref = thread;
          thread_kind = get_field (codes "thread_kind") payload;
          status = get_field (codes "status") payload;
          due_by_turn = due;
          overdue_turns = turns;
          salience = salience_of (get_field (codes "salience") payload);
          setup_turn_index = map_get thread seen;
          record_entity_ref = row.entry.entity_ref;
          source_ref = row.entry.source_ref;
        })
      ]
      | _ ↦ none
    ]
    else none

unfoldable pub push_due : Option DuePromise → List DuePromise → List DuePromise
push_due none rest = rest
push_due (some promise) rest = promise ∷ rest

unfoldable pub due_promises :
    ℕ → List (Text × ℕ) → List (Text × (MemoryRow × Fields)) → List DuePromise
unfolding push_due
due_promises visible seen [] = []
due_promises visible seen ((thread, found) ∷ latest) =
    push_due (due_promise visible seen thread found) (due_promises visible seen latest)

-- `localeCompare`, as "not after", is the host's.
module _ (locale_leb : Text → Text → Bool) where
  -- More overdue first, then more salient, then by name.
  unfoldable pub promise_leb : DuePromise → DuePromise → Bool
  promise_leb a b =
      if ltb b.overdue_turns a.overdue_turns
      then true
      else if ltb a.overdue_turns b.overdue_turns
      then false
      else let x = salience_or_zero a.salience in
        let y = salience_or_zero b.salience in
        if leb_ℤ y x
        then (if leb_ℤ x y then locale_leb a.thread_ref b.thread_ref else true)
        else false

  unfoldable pub collect_promise_due_ledger : List MemoryRow → ℕ → List DuePromise
  unfolding sort_by due_promises read_threads
  collect_promise_due_ledger rows visible =
      let threads = read_threads rows (record { latest = []; first_seen_turn = [] }) in
      sort_by promise_leb (due_promises visible threads.first_seen_turn threads.latest)

  unfoldable pub select_due_promise_rows :
      List MemoryRow → ℕ → ℕ → Result DueLedgerError (List DuePromise)
  select_due_promise_rows rows visible top_k =
      if ltb top_k 1
      then err promise_due_ledger_input_invalid
      else ok (take top_k (collect_promise_due_ledger rows visible))
