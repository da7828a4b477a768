-- ===== src/Craft/PromiseDue/Listed.antt =====
-- Which threads the due ledger lists.
use tavern_mnemosyne.Prelude.{
  ℕ, ◌≡◌, refl, sym, subst, ◌∙◌, Bool, false, ◌&&◌, ◌||◌, List, [], ◌∷◌, Option, none, some, Text,
  codes, text_eq, text_eq_iff, if◌then◌else◌, arith, any, pos, leb_ℤ, Bool-cases, inl, inr,
}
use tavern_mnemosyne.Contracts.Json.{num, Fields, get_field}
use tavern_mnemosyne.History.Records.{MemoryRow}
use tavern_mnemosyne.History.Sorting.{any-sort_by}
use tavern_mnemosyne.History.StateAt.{map_set, map_get}
use tavern_mnemosyne.History.StateAt.Latest.{UniqueKeys, map_get-set, map_set-UniqueKeys}
use tavern_mnemosyne.Craft.PromiseDue.{
  DuePromise, declaration, Threads, declare, read_threads, is_open_status, overdue, due_promise,
  push_due, due_promises, promise_leb, collect_promise_due_ledger,
}

-- The last row that declares a thread, with its payload.
unfoldable pub last_declared : Text → List MemoryRow → Option (MemoryRow × Fields)
last_declared thread [] = none
last_declared thread (row ∷ rows) = elim (last_declared thread rows) [
  | some later ↦ some later
  | none ↦ elim (declaration row) [
    | none ↦ none
    | some (declared, payload) ↦ if text_eq declared thread then some (row, payload) else none
  ]
]

-- A payload that is open, with a due turn that is not past the visible one.
unfoldable pub is_due : ℕ → Fields → Bool
is_due visible payload =
    is_open_status (get_field (codes "status") payload)
    && elim (get_field (codes "due_by") payload) [
      | some (num due) ↦ leb_ℤ due (pos visible)
      | _ ↦ false
    ]

abbrev pub is_due_now : ℕ → Option (MemoryRow × Fields) → Bool
is_due_now visible none = false
is_due_now visible (some (row, payload)) = is_due visible payload

abbrev or_before :
    Option (MemoryRow × Fields) → Option (MemoryRow × Fields) → Option (MemoryRow × Fields)
or_before before none = before
or_before before (some found) = some found

abbrev latest_after :
    MemoryRow
    → Option (Text × Fields)
    → List (Text × (MemoryRow × Fields))
    → List (Text × (MemoryRow × Fields))
latest_after row none latest = latest
latest_after row (some (declared, payload)) latest = map_set declared (row, payload) latest

latest-declare :
    (row : MemoryRow) (threads : Threads)
    → (declare row threads).latest ≡ latest_after row (declaration row) threads.latest
unfolding declare
latest-declare row threads = ground arith

map_get-latest_after :
    (thread : Text) (row : MemoryRow) (declared : Option (Text × Fields))
    (latest : List (Text × (MemoryRow × Fields)))
    → map_get thread (latest_after row declared latest) ≡ elim declared [
      | none ↦ map_get thread latest
      | some (name, payload) ↦
          if text_eq name thread then some (row, payload) else map_get thread latest
    ]
map_get-latest_after thread row none latest = refl
map_get-latest_after thread row (some (name, payload)) latest =
    map_get-set name thread (row, payload) latest

latest_after-UniqueKeys :
    (row : MemoryRow) (declared : Option (Text × Fields))
    (latest : List (Text × (MemoryRow × Fields)))
    → UniqueKeys latest
    → UniqueKeys (latest_after row declared latest)
latest_after-UniqueKeys row none latest unique = unique
latest_after-UniqueKeys row (some (name, payload)) latest unique =
    map_set-UniqueKeys name (row, payload) latest unique

map_get-read_threads :
    (thread : Text) (rows : List MemoryRow) (threads : Threads)
    → map_get thread (read_threads rows threads).latest
      ≡ or_before (map_get thread threads.latest) (last_declared thread rows)
unfolding read_threads last_declared
map_get-read_threads thread [] threads = refl
map_get-read_threads thread (row ∷ rows) threads = ground (
  arith,
  map_get-read_threads thread rows (declare row threads),
  latest-declare row threads,
  map_get-latest_after thread row (declaration row) threads.latest,
)

read_threads-UniqueKeys :
    (rows : List MemoryRow) (threads : Threads)
    → UniqueKeys threads.latest
    → UniqueKeys (read_threads rows threads).latest
unfolding read_threads
read_threads-UniqueKeys [] threads unique = unique
read_threads-UniqueKeys (row ∷ rows) threads unique =
    read_threads-UniqueKeys rows (declare row threads) (
      subst UniqueKeys (sym (latest-declare row threads))
        (latest_after-UniqueKeys row (declaration row) threads.latest unique))

-- What is pushed for a thread is about it, and is pushed when its payload is due.
any-push_due :
    (thread wanted : Text) (visible : ℕ) (seen : List (Text × ℕ)) (found : MemoryRow × Fields)
    (rest : List DuePromise)
    → any (λ d. text_eq d.thread_ref wanted) (push_due (due_promise visible seen thread found) rest)
      ≡ (text_eq thread wanted && is_due visible found.1)
        || any (λ d. text_eq d.thread_ref wanted) rest
unfolding push_due due_promise is_due overdue any
any-push_due thread wanted visible seen found rest = ground arith

any-due_promises :
    (wanted : Text) (visible : ℕ) (seen : List (Text × ℕ))
    (latest : List (Text × (MemoryRow × Fields)))
    → UniqueKeys latest
    → any (λ d. text_eq d.thread_ref wanted) (due_promises visible seen latest)
      ≡ is_due_now visible (map_get wanted latest)
unfolding due_promises map_get any
any-due_promises wanted visible seen [] unique = refl
any-due_promises wanted visible seen ((thread, found) ∷ latest) unique =
    any-push_due thread wanted visible seen found (due_promises visible seen latest)
    ∙ elim (Bool-cases (text_eq thread wanted)) [
      | inr other ↦ rw other (any-due_promises wanted visible seen latest unique.1)
      | inl same ↦ ground (
        arith,
        same,
        text_eq_iff thread wanted,
        any-due_promises wanted visible seen latest unique.1,
        unique.0,
      )
    ]

-- The ledger lists a thread exactly when the last row that declares it is open and due at or before the
-- visible turn.
pub due_listed :
    (locale_leb : Text → Text → Bool) (rows : List MemoryRow) (visible : ℕ) (thread : Text)
    → any (λ d. text_eq d.thread_ref thread) (collect_promise_due_ledger locale_leb rows visible)
      ≡ is_due_now visible (last_declared thread rows)
unfolding collect_promise_due_ledger map_get
due_listed locale_leb rows visible thread =
    let start : Threads = record { latest = []; first_seen_turn = [] } in
    let threads = read_threads rows start in
    any-sort_by (λ d. text_eq d.thread_ref thread) (promise_leb locale_leb)
      (due_promises visible threads.first_seen_turn threads.latest)
    ∙ any-due_promises thread visible threads.first_seen_turn threads.latest
        (read_threads-UniqueKeys rows start tt)
    ∙ ground (arith, map_get-read_threads thread rows start)
