-- ===== src/Craft/PromiseDue/Entries.antt =====
-- What an entry of the due ledger says.
use tavern_mnemosyne.Prelude.{
  ℕ, ◌+◌, ◌≡◌, ◌∙◌, List, [], ◌∷◌, Option, none, some, Text, text_eq, text_eq_iff, if◌then◌else◌,
  arith, All, pos_part, neg_part, Option-cases, Bool, inl, inr,
}
use tavern_mnemosyne.Contracts.Json.{Fields}
use tavern_mnemosyne.History.Records.{MemoryRow}
use tavern_mnemosyne.History.Sorting.{All-sort_by}
use tavern_mnemosyne.History.StateAt.{map_get}
use tavern_mnemosyne.History.StateAt.Latest.{map_get-set}
use tavern_mnemosyne.Craft.PromiseDue.{
  DuePromise, declaration, Threads, first_seen, declare, read_threads, overdue, due_promise,
  push_due, due_promises, promise_leb, collect_promise_due_ledger,
}

-- The turn of the first row that declares a thread.
unfoldable pub first_declared : Text → List MemoryRow → Option ℕ
first_declared thread [] = none
first_declared thread (row ∷ rows) =
    let rest = first_declared thread rows in
    elim (declaration row) [
      | none ↦ rest
      | some (declared, payload) ↦
          if text_eq declared thread then some row.turn.turn_index else rest
    ]

abbrev or_first : Option ℕ → Option ℕ → Option ℕ
or_first none turn = turn
or_first (some before) turn = some before

map_get-first_seen :
    (thread name : Text) (turn : ℕ) (seen : List (Text × ℕ))
    → map_get thread (first_seen name turn seen)
      ≡ or_first (map_get thread seen) (if text_eq name thread then some turn else none)
unfolding first_seen
map_get-first_seen thread name turn seen =
    ground (arith, map_get-set name thread turn seen, text_eq_iff name thread)

map_get-declare :
    (thread : Text) (row : MemoryRow) (rows : List MemoryRow) (threads : Threads)
    → or_first (map_get thread (declare row threads).first_seen_turn) (first_declared thread rows)
      ≡ or_first (map_get thread threads.first_seen_turn) (first_declared thread (row ∷ rows))
unfolding declare first_declared
map_get-declare thread row rows threads = elim (Option-cases (declaration row)) [
  | inl other ↦ ground (arith, other)
  | inr (found, declared) ↦ ground (
    arith,
    declared,
    map_get-first_seen thread found.0 row.turn.turn_index threads.first_seen_turn,
  )
]

map_get-read_turn :
    (thread : Text) (rows : List MemoryRow) (threads : Threads)
    → map_get thread (read_threads rows threads).first_seen_turn
      ≡ or_first (map_get thread threads.first_seen_turn) (first_declared thread rows)
unfolding read_threads
map_get-read_turn thread [] threads = unfold first_declared in ground arith
map_get-read_turn thread (row ∷ rows) threads =
    map_get-read_turn thread rows (declare row threads) ∙ map_get-declare thread row rows threads

-- Where the turns are read from, and how the due turn, the overdue turns and the visible turn fit.
abbrev Sound : ℕ → List (Text × ℕ) → DuePromise → Type 0
Sound visible seen d =
    (d.setup_turn_index ≡ map_get d.thread_ref seen)
    × (pos_part d.due_by_turn + d.overdue_turns ≡ visible + neg_part d.due_by_turn)

due_promise-Sound :
    (visible : ℕ) (seen : List (Text × ℕ)) (thread : Text) (found : MemoryRow × Fields)
    (d : DuePromise)
    → due_promise visible seen thread found ≡ some d
    → Sound visible seen d
unfolding due_promise overdue
due_promise-Sound visible seen thread found d h = ground arith

due_promises-Sound :
    (visible : ℕ) (seen : List (Text × ℕ)) (latest : List (Text × (MemoryRow × Fields)))
    → All (Sound visible seen) (due_promises visible seen latest)
unfolding due_promises push_due
due_promises-Sound visible seen [] = tt
due_promises-Sound visible seen ((thread, found) ∷ latest) =
    elim (Option-cases (due_promise visible seen thread found)) [
      | inl absent ↦ rw absent (due_promises-Sound visible seen latest)
      | inr (d, listed) ↦ rw listed (
        due_promise-Sound visible seen thread found d listed,
        due_promises-Sound visible seen latest,
      )
    ]

All-map {ℓ κ μ} :
    {A : Type ℓ} {P : A → Type κ} {Q : A → Type μ} (f : (a : A) → P a → Q a) (xs : List A)
    → All P xs
    → All Q xs
All-map f [] all = tt
All-map f (x ∷ xs) all = (f x all.0, All-map f xs all.1)

-- Each promise of the ledger has as its setup the turn of the first row that declares its thread, and its
-- overdue turns are the visible turn less its due turn.
pub due_entries :
    (locale_leb : Text → Text → Bool) (rows : List MemoryRow) (visible : ℕ)
    → All
        (λ d.
          (d.setup_turn_index ≡ first_declared d.thread_ref rows)
          × (pos_part d.due_by_turn + d.overdue_turns ≡ visible + neg_part d.due_by_turn))
        (collect_promise_due_ledger locale_leb rows visible)
unfolding collect_promise_due_ledger map_get
due_entries locale_leb rows visible =
    let start : Threads = record { latest = []; first_seen_turn = [] } in
    let threads = read_threads rows start in
    let sound = due_promises-Sound visible threads.first_seen_turn threads.latest in
    All-sort_by _ (promise_leb locale_leb)
      (due_promises visible threads.first_seen_turn threads.latest)
      (All-map (λ d s. (s.0 ∙ map_get-read_turn d.thread_ref rows start, s.1)) _ sound)
