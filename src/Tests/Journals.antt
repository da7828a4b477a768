-- ===== src/Tests/Journals.antt =====
-- Two calls for one run, the second with another request.
use tavern_mnemosyne.Prelude.{
  ◌≡◌, refl, Bool, ℕ, get_elem?, true, List, [], ◌∷◌, length, min, take, drop, any, filter, map,
  nat_eq, All, ◌>>=◌, Text, codes, text_eq, arith, Option, none, some, ok, err,
}
use tavern_mnemosyne.Contracts.Identity.{is_safe_id, is_opaque_host_id}
use tavern_mnemosyne.Contracts.Json.{
  canonical_json, obj, Items, nil, cons, Json, null, str, end, field, Fields, get_field,
}
use tavern_mnemosyne.Runs.RunJournal.{
  BeginCommand, CheckpointCommand, Stamp, begin_folder, checkpoint_folder, find_journal,
  run_id_reused, created, existing, JournalFile, value, file_of, new_journal, has_text, journal_of,
  read_optional, begin, begin_at, begin_in, write_journal, bound, evidence_of, existing_answer,
  raced, create_journal,
}
use tavern_mnemosyne.Runs.RunJournal.Spec.{
  Run, Call, begin_call, checkpoint_call, no_runs, ago, spec_call, spec_all,
}
use tavern_mnemosyne.History.Sorting.{AtMost}
use tavern_mnemosyne.Runs.RunJournal.Bound.{accepted_bound}
use tavern_mnemosyne.Runs.RunJournal.Listing.{candidates_in, newest_first, list, list_in}
use tavern_mnemosyne.Runs.RunJournal.Listing.Newest.{holds, list_newest}
use tavern_mnemosyne.Runs.RunJournal.Simulation.{call_on, call_all, HasOwnFolders}

-- A chat's folder is its id.
abbrev folder_of : Text → Option Text
folder_of chat_id = some chat_id

abbrev first_begin : BeginCommand
first_begin = record {
  chat_id = codes "chat";
  run_id = codes "r1";
  request_hash = codes "h1";
  prompt_spine_hash = codes "p";
  retrieval_contract_version = codes "v2";
  run_scope = null;
  run_evidence = null;
}

abbrev an_event : CheckpointCommand
an_event = record {
  chat_id = codes "chat";
  run_id = codes "r1";
  request_hash = codes "h1";
  patch = field (codes "state") (str (codes "done")) end;
  event = some (str (codes "stopped"));
}

abbrev stamp : Stamp
stamp = record { iso = codes "2026-01-01T00:00:00.000Z"; modified_at = 1 }

-- The second checkpoint reads before the first one writes, so the event of the first is lost.
abbrev calls : List Call
calls =
    begin_call first_begin stamp 0
    ∷ begin_call first_begin stamp 1
    ∷ checkpoint_call an_event stamp 0
    ∷ checkpoint_call (record an_event { event = some (str (codes "resumed")) }) stamp 1
    ∷ begin_call (record first_begin { request_hash = codes "h2" }) stamp 0
    ∷ []

own_folders : HasOwnFolders folder_of
own_folders chat_id other folder e e' = ground (arith, e, e')

abbrev run_with : Items → Run
run_with events = record { request_hash = codes "h1"; evidence = null; events = events }

answers :
    (spec_all folder_of calls no_runs []).0
    ≡ ok (some created, run_with nil)
      ∷ ok (some existing, run_with nil)
      ∷ ok (none, run_with (cons (str (codes "stopped")) nil))
      ∷ ok (none, run_with (cons (str (codes "resumed")) nil))
      ∷ err run_id_reused
      ∷ []
unfolding spec_all spec_call begin_folder checkpoint_folder is_opaque_host_id is_safe_id text_eq
    canonical_json
answers = refl

-- The second begin, which finds the journal of the first.
abbrev second_begin : Call
second_begin = begin_call first_begin stamp 1

second_accepted :
    get_elem? (call_all folder_of calls [] []).0 1
    ≡ some (ok (some existing, new_journal first_begin stamp.iso))
unfolding call_all call_on begin begin_at begin_folder is_opaque_host_id is_safe_id text_eq begin_in
    read_optional find_journal write_journal bound journal_of get_field new_journal canonical_json
    evidence_of existing_answer raced create_journal ago
second_accepted = refl

accepted_bound_example :
    (fields : Fields) × (find_journal (codes "chat") (codes "r1") (call_all folder_of calls [] []).1
      ≡ some (value (obj fields)))
    × (get_field (codes "request_hash") fields ≡ some (str (codes "h1")))
accepted_bound_example =
    accepted_bound folder_of calls 1 second_begin (some existing, new_journal first_begin stamp.iso)
      (codes "chat") own_folders refl refl second_accepted

-- Three files of the chat and one of another; the clock of the first is the latest.
abbrev file_for : (folder run_id : Text) → ℕ → JournalFile
file_for folder run_id modified_at =
    file_of folder run_id
      (new_journal (record first_begin { chat_id = folder; run_id = run_id }) stamp.iso)
      (record stamp { modified_at = modified_at })

abbrev stored_files : List JournalFile
stored_files =
    file_for (codes "chat") (codes "r1") 9
    ∷ file_for (codes "other") (codes "r4") 8
    ∷ file_for (codes "chat") (codes "r2") 3
    ∷ file_for (codes "chat") (codes "r3") 5
    ∷ []

-- Every two texts are equal in this order.
abbrev any_order : Text → Text → Bool
any_order left right = true

abbrev string_of : Json → Text
string_of v = []

-- Whether a journal is the run's.
abbrev of_run : Text → Fields → Bool
of_run run_id journal = has_text (codes "run_id") run_id journal

listed_runs :
    list string_of any_order folder_of (codes "chat") 2 stored_files
      >>= (λ journals. ok (map (λ j. get_field (codes "run_id") j) journals))
    ≡ ok (some (str (codes "r1")) ∷ some (str (codes "r3")) ∷ [])
unfolding list list_in new_journal is_opaque_host_id text_eq get_field journal_of is_safe_id
    read_optional
listed_runs = refl

list_newest_example :
    let newest = newest_first any_order (codes "chat") stored_files in
    (journals : List Fields) × (list string_of any_order folder_of (codes "chat") 2 stored_files
      ≡ ok journals)
    × (length journals ≡ min 2 (length (candidates_in (codes "chat") stored_files)))
    × (any (of_run (codes "r2")) journals
        ≡ any (λ file. holds (of_run (codes "r2")) file.content) (take 2 newest))
    × All (λ file. AtMost (λ f. f.modified_at) file.modified_at (drop 2 newest)) (take 2 newest)
    × (any (λ file. nat_eq file.modified_at 3) newest
        ≡ any (λ file. nat_eq file.modified_at 3) (candidates_in (codes "chat") stored_files))
unfolding candidates_in new_journal is_opaque_host_id is_safe_id text_eq journal_of get_field filter
list_newest_example =
    list_newest any_order string_of folder_of (codes "chat") (codes "chat") 2 stored_files
      (of_run (codes "r2")) (λ file. nat_eq file.modified_at 3) refl (omega arith) (omega arith)
      refl ((_, refl, refl), ((_, refl, refl), ((_, refl, refl), tt)))
