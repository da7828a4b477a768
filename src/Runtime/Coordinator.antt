-- ===== src/Runtime/Coordinator.antt =====
-- runtime/chat-write-coordinator.js. A call of `run` is a ticket, numbered in the order of the calls;
-- its `tail` is the promise that the next call for the chat waits for.
pub mod Exclusion
use tavern_mnemosyne.Prelude.{
  ℕ, suc, zero, ◌<◌, ◌≡◌, ◌≢◌, Bool, true, false, Option, none, some, Text, text_eq, nat_eq,
  if◌then◌else◌, List, [], ◌∷◌,
}

pub data Phase : Type 0 where
  waiting running released : Phase

-- `previous` is the ticket whose tail a call read from `tails`, none for `Promise.resolve()`.
pub record Coordinator : Type 0 where
  pub next : ℕ
  pub chat_of : ℕ → Text
  pub previous : ℕ → Option ℕ
  pub phase : ℕ → Phase
  pub tails : Text → Option ℕ

abbrev pub put {ℓ} : {A : Type ℓ} → ℕ → A → (ℕ → A) → ℕ → A
put n a f m = if nat_eq n m then a else f m

abbrev pub put_tail : Text → Option ℕ → (Text → Option ℕ) → Text → Option ℕ
put_tail chat tail tails k = if text_eq chat k then tail else tails k

-- `createChatWriteCoordinator`
abbrev pub create : Coordinator
create = record {
  next = 0;
  chat_of = λ n. [];
  previous = λ n. none;
  phase = λ n. waiting;
  tails = λ k. none;
}

-- `run` up to `await previous`.
unfoldable pub run : Text → Coordinator → Coordinator
run chat c = record {
  next = suc c.next;
  chat_of = put c.next chat c.chat_of;
  previous = put c.next (c.tails chat) c.previous;
  phase = put c.next waiting c.phase;
  tails = put_tail chat (some c.next) c.tails;
}

-- The operation's call, after `await previous`.
unfoldable pub start : ℕ → Coordinator → Coordinator
start n c = record c { phase = put n running c.phase }

abbrev is_tail : ℕ → Option ℕ → Bool
is_tail n none = false
is_tail n (some m) = nat_eq n m

-- The `finally` block, whether the operation returned or threw.
unfoldable pub release : ℕ → Coordinator → Coordinator
release n c = record c {
  phase = put n released c.phase;
  tails =
      if is_tail n (c.tails (c.chat_of n)) then put_tail (c.chat_of n) none c.tails else c.tails;
}

-- `previous.then(() => gate)` has resolved.
pub data Resolved (c : Coordinator) : ℕ → Type 0 where
  resolved :
      {n : ℕ}
      → c.phase n ≡ released
      → ((p : ℕ) → c.previous n ≡ some p → Resolved c p)
      → Resolved c n

-- What the event loop may do; `run` refuses an empty chat ID before it changes anything.
pub data Step : Coordinator → Coordinator → Type 0 where
  called : {c : Coordinator} (chat : Text) → chat ≢ [] → Step c (run chat c)
  started :
      {c : Coordinator} (n : ℕ)
      → n < c.next
      → c.phase n ≡ waiting
      → ((p : ℕ) → c.previous n ≡ some p → Resolved c p)
      → Step c (start n c)
  ended : {c : Coordinator} (n : ℕ) → n < c.next → c.phase n ≡ running → Step c (release n c)

pub data Reachable : Coordinator → Type 0 where
  fresh : Reachable create
  step : {c d : Coordinator} → Reachable c → Step c d → Reachable d
