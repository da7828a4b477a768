-- ===== src/Runs/RunJournal/Represents.antt =====
-- The journals of harness/run-journal.js that stand for a run, and what begin and checkpoint make of them.
use tavern_mnemosyne.Prelude.{
  ◌≡◌, refl, sym, ap, Bool, true, false, ◌&&◌, Text, text_eq, text_eq_refl, Result, Bool-cases, inl,
  inr, Option, none, some, ok, err, ◌>>◌, guard, codes, if◌then◌else◌,
}
use tavern_mnemosyne.Contracts.Json.{
  Json, str, arr, obj, Fields, get_field, set_field, Items, canonical_json,
}
use tavern_mnemosyne.Runs.RunJournal.{
  JournalError, Content, value, BeginCommand, CheckpointCommand, existing, journal_schema,
  journal_of, evidence_of, bound, new_journal, run_id_reused, spread, with_event, next_journal,
  checkpointed, existing_answer, put_field,
}
use tavern_mnemosyne.Runs.RunJournal.Keys.{
  get-set_field, get-set_other, patched, evidence_of-spread, evidence_of-set_field,
}
use tavern_mnemosyne.Runs.RunJournal.Spec.{
  Run, is_bound, answer_bound, first_run, next_run, add_event,
}

-- A journal stands for a run.
pub record Represents (chat_id run_id : Text) (fields : Fields) (run : Run) : Type 0 where
  pub schema : get_field (codes "schema") fields ≡ some (str journal_schema)
  pub chat : get_field (codes "chat_id") fields ≡ some (str chat_id)
  pub id : get_field (codes "run_id") fields ≡ some (str run_id)
  pub request : get_field (codes "request_hash") fields ≡ some (str run.request_hash)
  pub evidence : evidence_of fields ≡ run.evidence
  pub events : get_field (codes "events") fields ≡ some (arr run.events)

-- What is stored for a run.
pub data Stored (chat_id run_id : Text) : Option Content → Option Run → Type 0 where
  absent : Stored chat_id run_id none none
  present :
      (fields : Fields) (run : Run)
      → Represents chat_id run_id fields run
      → Stored chat_id run_id (some (value (obj fields))) (some run)

pub Represents-new :
    (command : BeginCommand) (timestamp : Text)
    → Represents command.chat_id command.run_id (new_journal command timestamp) (first_run command)
unfolding new_journal get_field text_eq evidence_of
Represents-new command timestamp = record {
  schema = refl;
  chat = refl;
  id = refl;
  request = refl;
  evidence = refl;
  events = refl;
}

-- The identity of a journal that stands for a run is the run's.
pub journal_of-Represents :
    (chat_id run_id : Text) (fields : Fields) (run : Run)
    → Represents chat_id run_id fields run
    → journal_of chat_id run_id (obj fields) ≡ ok fields
unfolding journal_of
journal_of-Represents chat_id run_id fields run is =
    rw
      (
        is.schema,
        is.chat,
        is.id,
        text_eq_refl journal_schema,
        text_eq_refl chat_id,
        text_eq_refl run_id,
      )
      refl

guards :
    (a b : Bool) (fields : Fields)
    → existing_answer (guard a run_id_reused >> (guard b run_id_reused >> ok fields))
      ≡ (if a && b then ok (existing, fields) else err run_id_reused)
unfolding existing_answer
guards true true fields = refl
guards true false fields = refl
guards false b fields = refl

-- An answer of the code stands for one of the store: the same status with a journal of the run, or the same
-- error.
pub data Agrees {S : Type 0} (chat_id run_id : Text)
    : Result JournalError (S × Fields) → Result JournalError (S × Run) → Type 0 where
  agree :
      (status : S) (fields : Fields) (run : Run)
      → Represents chat_id run_id fields run
      → Agrees chat_id run_id (ok (status, fields)) (ok (status, run))
  refused : (e : JournalError) → Agrees chat_id run_id (err e) (err e)

-- begin answers for such a journal what the run answers.
pub bound-Represents :
    (command : BeginCommand) (fields : Fields) (run : Run)
    → Represents command.chat_id command.run_id fields run
    → existing_answer (bound command (obj fields))
      ≡ (if is_bound command run then ok (existing, fields) else err run_id_reused)
unfolding existing_answer bound
bound-Represents command fields run is =
    rw (journal_of-Represents command.chat_id command.run_id fields run is, is.request, is.evidence)
      (guards (text_eq run.request_hash command.request_hash)
        (text_eq (canonical_json run.evidence) (canonical_json command.run_evidence)) fields)

pub bound-Agrees :
    (command : BeginCommand) (fields : Fields) (run : Run)
    → Represents command.chat_id command.run_id fields run
    → Agrees command.chat_id command.run_id
        (existing_answer (bound command (obj fields)))
        (answer_bound command run)
bound-Agrees command fields run is = elim (Bool-cases (is_bound command run)) [
  | inl same ↦ rw (bound-Represents command fields run is, same) (agree existing fields run is)
  | inr other ↦ rw (bound-Represents command fields run is, other) (refused run_id_reused)
]

-- The fields that a checkpoint puts over the patched ones.
abbrev over : Fields → (chat_id run_id timestamp : Text) → Run → Items → Fields
over patched_fields chat_id run_id timestamp run events =
    set_field (codes "updated_at") (str timestamp) (
      set_field (codes "events") (arr events) (
        set_field (codes "request_hash") (str run.request_hash) (
          set_field (codes "run_id") (str run_id) (
            set_field (codes "chat_id") (str chat_id)
              (set_field (codes "schema") (str journal_schema) patched_fields)))))

over-Represents :
    (fields : Fields) (chat_id run_id timestamp : Text) (run : Run) (events : Items)
    → Represents chat_id run_id
        (over fields chat_id run_id timestamp run events)
        (record { request_hash = run.request_hash; evidence = evidence_of fields; events = events })
unfolding text_eq
over-Represents fields chat_id run_id timestamp run events = record {
  schema = simp (get-set_other, get-set_field);
  chat = simp (get-set_other, get-set_field);
  id = simp (get-set_other, get-set_field);
  request = simp (get-set_other, get-set_field);
  evidence = simp evidence_of-set_field;
  events = simp (get-set_other, get-set_field);
}

-- What `with_event` makes of a list of events.
with_event-arr :
    (events : Items) (event : Option Json)
    → with_event (some (arr events)) event ≡ ok (some (arr (add_event events event)))
unfolding with_event
with_event-arr events none = refl
with_event-arr events (some event) = refl

next-Represents :
    (command : CheckpointCommand) (timestamp : Text) (fields : Fields) (run : Run)
    → Represents command.chat_id command.run_id fields run
    → next_journal command timestamp fields
      ≡ ok (
          over
            (spread fields command.patch)
            command.chat_id
            command.run_id
            timestamp
            run
            (add_event run.events command.event))
unfolding next_journal put_field
next-Represents command timestamp fields run is =
    rw (is.events, with_event-arr run.events command.event, is.request, is.id, is.chat, is.schema)
      refl

-- The journal that a checkpoint writes stands for the run with the event and the patch's evidence.
pub checkpointed-Represents :
    (command : CheckpointCommand) (timestamp : Text) (fields : Fields) (run : Run)
    → Represents command.chat_id command.run_id fields run
    → text_eq run.request_hash command.request_hash ≡ true
    → (next : Fields) × (checkpointed command timestamp (some (obj fields)) ≡ ok next)
      × Represents command.chat_id command.run_id next (next_run command run)
unfolding checkpointed
checkpointed-Represents command timestamp fields run is same =
    let events = add_event run.events command.event in
    let fields' = spread fields command.patch in
    (
      over fields' command.chat_id command.run_id timestamp run events,
      rw (journal_of-Represents command.chat_id command.run_id fields run is, is.request, same)
          (next-Represents command timestamp fields run is),
      rw
          (
            sym (ap (λ evidence. patched evidence command.patch) is.evidence),
            sym (evidence_of-spread fields command.patch),
          )
          (over-Represents fields' command.chat_id command.run_id timestamp run events),
    )
