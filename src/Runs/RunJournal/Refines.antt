-- ===== src/Runs/RunJournal/Refines.antt =====
-- The steps of begin and checkpoint on the files refine those on the store of runs.
use tavern_mnemosyne.Prelude.{
  ◌≡◌, refl, inl, inr, false, ◌&&◌, List, Text, text_eq, Option, some, Result, ok, err, ◌>>=◌,
  Bool-cases,
}
use tavern_mnemosyne.Contracts.Json.{obj, Fields}
use tavern_mnemosyne.Runs.RunJournal.{
  JournalError, Content, JournalFile, Stamp, BeginCommand, CheckpointCommand, created, find_journal,
  file_of, read_optional, new_journal, run_id_reused, run_journal_not_found, checkpointed, raced,
  create_journal, begin_in, write_checkpoint,
}
use tavern_mnemosyne.Runs.RunJournal.Keys.{find-write_self, find-write_other}
use tavern_mnemosyne.Runs.RunJournal.Spec.{
  Run, Outcome, spec_begin, first_run, next_run, spec_checkpoint,
}
use tavern_mnemosyne.Runs.RunJournal.Represents.{
  Represents, Agrees, agree, refused, bound-Agrees, Stored, absent, present, Represents-new,
  journal_of-Represents, checkpointed-Represents,
}

-- A step on one run: its answer, what is stored for the run after, and that the other files stay.
abbrev pub Step :
    {S : Type 0}
    → (chat_id run_id folder : Text) → (answer : Result JournalError (S × Fields))
    → (spec : Outcome S) → (files after : List JournalFile) → Type 0
Step chat_id run_id folder answer spec files after =
    Agrees chat_id run_id answer spec.0
    × Stored chat_id run_id (find_journal folder run_id after) spec.1
    × ((f r : Text)
        → text_eq folder f && text_eq run_id r ≡ false
        → find_journal f r after ≡ find_journal f r files)

pub begin_in-Step :
    (folder : Text) (command : BeginCommand) (stamp : Stamp) (read there : Option Content)
    (seen now : Option Run) (files : List JournalFile)
    → Stored command.chat_id command.run_id read seen
    → Stored command.chat_id command.run_id there now
    → find_journal folder command.run_id files ≡ there
    → let after = begin_in folder command stamp (read_optional read) files in
      Step command.chat_id command.run_id folder after.0 (spec_begin command seen now) files after.1
unfolding spec_begin begin_in create_journal read_optional raced
begin_in-Step folder command stamp _ _ _ now files (present fields run is) stored e =
    (bound-Agrees command fields run is, rw e stored, λ f r other. refl)
begin_in-Step folder command stamp _ _ _ _ files absent absent e =
    let journal = new_journal command stamp.iso in
    let file = file_of folder command.run_id journal stamp in
    let is = Represents-new command stamp.iso in
    rw e (
      agree created journal (first_run command) is,
      rw (find-write_self file files) (present journal (first_run command) is),
      λ f r other. find-write_other f r file files other,
    )
begin_in-Step folder command stamp _ _ _ _ files absent (present fields run is) e =
    rw e (bound-Agrees command fields run is, rw e (present fields run is), λ f r other. refl)

-- A checkpoint answers with the journal that it wrote.
abbrev pub as_answer : Result JournalError Fields → Result JournalError (Unit {0} × Fields)
as_answer (ok journal) = ok (tt, journal)
as_answer (err e) = err e

-- A checkpoint, from what it read.
abbrev pub written_checkpoint :
    (folder : Text)
    → CheckpointCommand
    → Stamp
    → (read : Option Content) → List JournalFile
    → Result JournalError Fields × List JournalFile
written_checkpoint folder command stamp read files =
    write_checkpoint folder command.run_id stamp
      (read_optional read >>= checkpointed command stamp.iso) files

checkpoint_reused :
    (command : CheckpointCommand) (timestamp : Text) (fields : Fields) (run : Run)
    → Represents command.chat_id command.run_id fields run
    → text_eq run.request_hash command.request_hash ≡ false
    → checkpointed command timestamp (some (obj fields)) ≡ err run_id_reused
unfolding checkpointed
checkpoint_reused command timestamp fields run is other =
    rw (journal_of-Represents command.chat_id command.run_id fields run is, is.request, other) refl

pub checkpoint_in-Step :
    (folder : Text) (command : CheckpointCommand) (stamp : Stamp) (read there : Option Content)
    (seen now : Option Run) (files : List JournalFile)
    → Stored command.chat_id command.run_id read seen
    → Stored command.chat_id command.run_id there now
    → find_journal folder command.run_id files ≡ there
    → let after = written_checkpoint folder command stamp read files in
      Step command.chat_id command.run_id folder
        (as_answer after.0)
        (spec_checkpoint command seen now)
        files
        after.1
unfolding spec_checkpoint write_checkpoint read_optional
checkpoint_in-Step folder command stamp _ there _ now files absent stored e =
    unfold checkpointed in (refused run_journal_not_found, rw e stored, λ f r other. refl)
checkpoint_in-Step folder command stamp _ there _ now files (present fields run is) stored e =
    elim (Bool-cases (text_eq run.request_hash command.request_hash)) [
      | inr other ↦
          rw (checkpoint_reused command stamp.iso fields run is other, other)
            (refused run_id_reused, rw e stored, λ f r other'. refl)
      | inl same ↦
          let made = checkpointed-Represents command stamp.iso fields run is same in
          let file = file_of folder command.run_id made.0 stamp in
          rw (made.1, same)
            (
              agree tt made.0 (next_run command run) made.2,
              rw (find-write_self file files) (present made.0 (next_run command run) made.2),
              λ f r other. find-write_other f r file files other,
            )
    ]
