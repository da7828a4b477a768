-- ===== src/Tests/Runtime.antt =====
-- runtime/chat-write-coordinator.js, on two calls for a chat.
use tavern_mnemosyne.Prelude.{ℕ, ◌≡◌, refl, ◌≢◌, ◌<◌, [], none, Text, codes, arith, text_eq}
use tavern_mnemosyne.Runtime.Coordinator.{
  Coordinator, waiting, released, create, run, start, release, Step, called, started, ended,
  Reachable, fresh, step,
}
use tavern_mnemosyne.Runtime.Coordinator.Exclusion.{begun_in_order, waiting_starts, idle_forgotten}

abbrev chat : Text
chat = codes "c"

-- Two calls, of which the first has begun.
abbrev queued : Coordinator
queued = start 0 (run chat (run chat create))

-- The first has ended, and the second has begun.
abbrev handed_over : Coordinator
handed_over = start 1 (release 0 queued)

abbrev finished : Coordinator
finished = release 1 handed_over

chat_named : chat ≢ []
chat_named h = absurd (ground arith)

queued-Reachable : Reachable queued
unfolding run
queued-Reachable =
    step (step (step fresh (called chat chat_named)) (called chat chat_named))
      (started 0 (omega arith) refl (λ p before. absurd (ground arith)))

released-Reachable : Reachable (release 0 queued)
unfolding run start
released-Reachable = step queued-Reachable (ended 0 (omega arith) refl)

waiting_next : (release 0 queued).phase 1 ≡ waiting
unfolding run start release
waiting_next = refl

in_range : 1 < (release 0 queued).next
unfolding run start release
in_range = omega arith

earlier_ended :
    (u : ℕ)
    → u < 1
    → (release 0 queued).chat_of u ≡ (release 0 queued).chat_of 1
    → (release 0 queued).phase u ≡ released
unfolding run start release text_eq
earlier_ended u below same = ground arith

waiting_starts_example : Step (release 0 queued) handed_over
waiting_starts_example =
    waiting_starts (release 0 queued) 1 released-Reachable in_range waiting_next earlier_ended

handed_over-Reachable : Reachable handed_over
handed_over-Reachable =
    step released-Reachable
      (waiting_starts (release 0 queued) 1 released-Reachable in_range waiting_next earlier_ended)

handed_over_range : 1 < handed_over.next
unfolding run start release
handed_over_range = omega arith

second_begun : handed_over.phase 1 ≢ waiting
unfolding run start release
second_begun = λ h. absurd (ground (arith, h))

begun_in_order_example : handed_over.phase 0 ≡ released
unfolding run start release
begun_in_order_example =
    begun_in_order handed_over 1 0 handed_over-Reachable handed_over_range second_begun
      (omega arith) refl

finished-Reachable : Reachable finished
unfolding run start release
finished-Reachable = step handed_over-Reachable (ended 1 (omega arith) refl)

all_ended : (u : ℕ) → u < finished.next → finished.chat_of u ≡ chat → finished.phase u ≡ released
unfolding run start release
all_ended u below same = ground arith

idle_forgotten_example : finished.tails chat ≡ none
idle_forgotten_example = idle_forgotten finished chat finished-Reachable all_ended
