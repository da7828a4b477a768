-- ===== src/Runs/RunJournal/Spec.antt =====
-- What a run journal promises: a run is bound once to the hash of its request. Its evidence is compared when
-- it is begun again, but a checkpoint may replace it, and checkpoints that overlap lose events. A store of
-- runs is a function from a chat and a run; the files are forgotten.
use tavern_mnemosyne.Prelude.{
  ℕ, zero, suc, List, [], ◌∷◌, Bool, ◌&&◌, Text, text_eq, if◌then◌else◌, Option, none, some, Result,
  ok, err,
}
use tavern_mnemosyne.Contracts.Json.{Json, Items, nil, canonical_json}
use tavern_mnemosyne.Runs.RunJournal.{
  JournalError, BeginCommand, CheckpointCommand, BeginStatus, created, existing, append_item,
  run_id_reused, run_journal_not_found, Stamp, begin_folder, checkpoint_folder,
}
use tavern_mnemosyne.Runs.RunJournal.Keys.{patched}

pub record Run : Type 0 where
  pub request_hash : Text
  pub evidence : Json
  pub events : Items

abbrev pub Runs : Type 0
Runs = (chat_id run_id : Text) → Option Run

-- The store with another value for one run.
abbrev pub put_run : (chat_id run_id : Text) → Option Run → Runs → Runs
put_run chat_id run_id run runs c r =
    if text_eq c chat_id && text_eq r run_id then run else runs c r

abbrev pub is_bound : BeginCommand → Run → Bool
is_bound command run =
    text_eq run.request_hash command.request_hash
    && text_eq (canonical_json run.evidence) (canonical_json command.run_evidence)

abbrev pub first_run : BeginCommand → Run
first_run command = record {
  request_hash = command.request_hash;
  evidence = command.run_evidence;
  events = nil;
}

abbrev pub Outcome : Type 0 → Type 0
Outcome S = Result JournalError (S × Run) × Option Run

-- The answer for a run that is there.
abbrev pub answer_bound : BeginCommand → Run → Result JournalError (BeginStatus × Run)
answer_bound command run = if is_bound command run then ok (existing, run) else err run_id_reused

-- Begins a run that is not there now, and otherwise answers with the run that it saw, or with the one that
-- is there now when it saw none.
unfoldable pub spec_begin : BeginCommand → (seen now : Option Run) → Outcome BeginStatus
spec_begin command (some run) now = (answer_bound command run, now)
spec_begin command none (some run) = (answer_bound command run, some run)
spec_begin command none none = (ok (created, first_run command), some (first_run command))

abbrev pub add_event : Items → Option Json → Items
add_event events none = events
add_event events (some event) = append_item events event

-- The patch can replace the evidence; the hash of the request stays.
abbrev pub next_run : CheckpointCommand → Run → Run
next_run command run = record {
  request_hash = run.request_hash;
  evidence = patched run.evidence command.patch;
  events = add_event run.events command.event;
}

-- Puts the run that it saw, with the event and the patch, in place of the one that is there now.
unfoldable pub spec_checkpoint : CheckpointCommand → (seen now : Option Run) → Outcome (Unit {0})
unfolding patched append_item
spec_checkpoint command none now = (err run_journal_not_found, now)
spec_checkpoint command (some run) now =
    if text_eq run.request_hash command.request_hash
    then (ok (tt, next_run command run), some (next_run command run))
    else (err run_id_reused, now)

-- A call of the journal, which read the files when the last `lag` calls had not written theirs.
pub data Call : Type 0 where
  begin_call : BeginCommand → Stamp → (lag : ℕ) → Call
  checkpoint_call : CheckpointCommand → Stamp → (lag : ℕ) → Call

-- What was there some calls ago, the latest first, or at the start.
unfoldable pub ago {ℓ} : {A : Type ℓ} → (start : A) → ℕ → List A → A
ago start lag [] = start
ago start zero (now ∷ past) = now
ago start (suc lag) (now ∷ past) = ago start lag past

-- The answer of any call: the status of a begin, and the run.
abbrev pub SpecAnswer : Type 0
SpecAnswer = Result JournalError (Option BeginStatus × Run)

abbrev pub with_status :
    {S R : Type 0}
    → (S → Option BeginStatus)
    → Result JournalError (S × R)
    → Result JournalError (Option BeginStatus × R)
with_status f (ok (status, run)) = ok (f status, run)
with_status f (err e) = err e

-- A call that is refused before its files are read changes nothing.
abbrev pub if_open : {S : Type 0} → Result JournalError Text → Option Run → Outcome S → Outcome S
if_open (err e) now step = (err e, now)
if_open (ok folder) now step = step

abbrev pub no_runs : Runs
no_runs c r = none

module _ (folder_of : Text → Option Text) where
  -- A call on the store, of which the past is kept.
  unfoldable pub spec_call : Call → (now : Runs) → (past : List Runs) → SpecAnswer × Runs
  unfolding spec_begin spec_checkpoint ago
  spec_call (begin_call command stamp lag) now past =
      let seen = ago no_runs lag (now ∷ past) command.chat_id command.run_id in
      let run = now command.chat_id command.run_id in
      let step = if_open (begin_folder folder_of command) run (spec_begin command seen run) in
      (with_status some step.0, put_run command.chat_id command.run_id step.1 now)
  spec_call (checkpoint_call command stamp lag) now past =
      let seen = ago no_runs lag (now ∷ past) command.chat_id command.run_id in
      let run = now command.chat_id command.run_id in
      let step =
        if_open (checkpoint_folder folder_of command) run (spec_checkpoint command seen run) in
      (with_status (λ s. none) step.0, put_run command.chat_id command.run_id step.1 now)

  unfoldable pub spec_all : List Call → (now : Runs) → (past : List Runs) → List SpecAnswer × Runs
  spec_all [] now past = ([], now)
  spec_all (call ∷ calls) now past =
      let step = spec_call call now past in
      let rest = spec_all calls step.1 (now ∷ past) in (step.0 ∷ rest.0, rest.1)
