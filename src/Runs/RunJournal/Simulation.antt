-- ===== src/Runs/RunJournal/Simulation.antt =====
-- Every history of calls of harness/run-journal.js against the store of runs.
use tavern_mnemosyne.Prelude.{
  ℕ, zero, suc, ◌≡◌, refl, sym, ap, subst, inl, inr, true, false, ◌&&◌, List, [], ◌∷◌, Text,
  text_eq, text_eq_iff, arith, Option, none, some, text_eq_refl, ◌∙◌, Result, ok, err, ◌>>◌,
  Bool-cases, Result-cases, Option-cases,
}
use tavern_mnemosyne.Contracts.Json.{Fields}
use tavern_mnemosyne.Runs.RunJournal.{
  JournalError, JournalFile, BeginStatus, find_journal, open_chat, begin, checkpoint, begin_at,
  checkpoint_at, begin_folder, checkpoint_folder,
}
use tavern_mnemosyne.Runs.RunJournal.Spec.{
  Run, Runs, Outcome, put_run, spec_begin, spec_checkpoint, Call, begin_call, checkpoint_call,
  SpecAnswer, with_status, ago, no_runs, spec_call, spec_all,
}
use tavern_mnemosyne.Runs.RunJournal.Represents.{Agrees, agree, refused, Stored, absent}
use tavern_mnemosyne.Runs.RunJournal.Refines.{Step, as_answer, begin_in-Step, checkpoint_in-Step}

pub both_equal : (a b c d : Text) → text_eq a b && text_eq c d ≡ true → (a ≡ b) × (c ≡ d)
both_equal a b c d e = ground (arith, e, text_eq_iff a b, text_eq_iff c d)

both_refl : (a b : Text) → text_eq a a && text_eq b b ≡ true
both_refl a b = ground (arith, text_eq_refl a, text_eq_refl b)

put_same :
    (chat_id run_id c r : Text) (run : Option Run) (runs : Runs)
    → text_eq c chat_id && text_eq r run_id ≡ true
    → put_run chat_id run_id run runs c r ≡ run
put_same chat_id run_id c r run runs e = rw e refl

put_other :
    (chat_id run_id c r : Text) (run : Option Run) (runs : Runs)
    → text_eq c chat_id && text_eq r run_id ≡ false
    → put_run chat_id run_id run runs c r ≡ runs c r
put_other chat_id run_id c r run runs e = rw e refl

after_checks :
    (checks : Result JournalError (Unit {0})) (opened : Result JournalError Text) (folder : Text)
    → (checks >> opened) ≡ ok folder
    → opened ≡ ok folder
after_checks (ok tt) opened folder e = e
after_checks (err e') opened folder e = ground (arith, e)

-- The answer of any call: the status of a begin, and the journal.
abbrev pub Answer : Type 0
Answer = Result JournalError (Option BeginStatus × Fields)

with_status-Agrees :
    {S : Type 0} (chat_id run_id : Text) (f : S → Option BeginStatus)
    (answer : Result JournalError (S × Fields)) (spec : Result JournalError (S × Run))
    → Agrees chat_id run_id answer spec
    → Agrees chat_id run_id (with_status f answer) (with_status f spec)
with_status-Agrees chat_id run_id f _ _ (agree status fields run is) =
    agree (f status) fields run is
with_status-Agrees chat_id run_id f _ _ (refused e) = refused e

-- The chat and the run that a call names.
abbrev pub named_by : Call → Text × Text
named_by (begin_call command stamp lag) = (command.chat_id, command.run_id)
named_by (checkpoint_call command stamp lag) = (command.chat_id, command.run_id)

-- The answers of the calls stand for those of the store, one by one.
pub data AllAgree : List Call → List Answer → List SpecAnswer → Type 0 where
  no_calls : AllAgree [] [] []
  one_call :
      {calls : List Call} {answers : List Answer} {specs : List SpecAnswer} (call : Call)
      (answer : Answer) (spec : SpecAnswer)
      → Agrees (named_by call).0 (named_by call).1 answer spec
      → AllAgree calls answers specs
      → AllAgree (call ∷ calls) (answer ∷ answers) (spec ∷ specs)

module _ (folder_of : Text → Option Text) where
  -- A call on the files: it reads those of `lag` calls ago.
  unfoldable pub call_on :
      Call → (now : List JournalFile) → (past : List (List JournalFile)) → Answer × List JournalFile
  unfolding ago
  call_on (begin_call command stamp lag) now past =
      let step = begin folder_of command stamp (ago [] lag (now ∷ past)) now in
      (with_status some step.0, step.1)
  call_on (checkpoint_call command stamp lag) now past =
      let step = checkpoint folder_of command stamp (ago [] lag (now ∷ past)) now in
      (with_status (λ s. none) (as_answer step.0), step.1)

  unfoldable pub call_all :
      List Call
      → (now : List JournalFile) → (past : List (List JournalFile)) → List Answer × List JournalFile
  call_all [] now past = ([], now)
  call_all (call ∷ calls) now past =
      let step = call_on call now past in
      let rest = call_all calls step.1 (now ∷ past) in (step.0 ∷ rest.0, rest.1)

  -- Each file of a chat's folder stands for the run of its name.
  abbrev pub Abstracts : List JournalFile → Runs → Type 0
  Abstracts files runs =
      (chat_id run_id folder : Text)
      → folder_of chat_id ≡ some folder
      → Stored chat_id run_id (find_journal folder run_id files) (runs chat_id run_id)

  -- Each chat has a folder of its own.
  abbrev pub HasOwnFolders : Type 0
  HasOwnFolders =
      (chat_id other folder : Text)
      → folder_of chat_id ≡ some folder
      → folder_of other ≡ some folder
      → chat_id ≡ other

  open_chat-some :
      (chat_id folder : Text)
      → open_chat folder_of chat_id ≡ ok folder
      → folder_of chat_id ≡ some folder
  open_chat-some chat_id folder e = elim (Option-cases (folder_of chat_id)) [
    | inl missing ↦ ground (arith, e, missing)
    | inr (found, there) ↦ ground (arith, e, there)
  ]

  module _ (own : HasOwnFolders) where
    -- A step on one run is one on the store.
    Step-Abstracts :
        {S : Type 0} (chat_id run_id folder : Text) (answer : Result JournalError (S × Fields))
        (spec : Outcome S) (files after : List JournalFile) (runs : Runs)
        → folder_of chat_id ≡ some folder
        → Abstracts files runs
        → Step chat_id run_id folder answer spec files after
        → Abstracts after (put_run chat_id run_id spec.1 runs)
    Step-Abstracts chat_id run_id folder answer spec files after runs is all step c r f named =
        elim (Bool-cases (text_eq c chat_id && text_eq r run_id)) [
          | inl same ↦
              let names = both_equal c chat_id r run_id same in
              let place : f ≡ folder = ground (arith, ap folder_of names.0, named, is) in
              subst (λ kept. Stored c r (find_journal f r after) kept)
                (sym (put_same chat_id run_id c r spec.1 runs same))
                (rw (names.0, names.1, place) step.1)
          | inr other ↦
              let apart : text_eq folder f && text_eq run_id r ≡ false =
                elim (Bool-cases (text_eq folder f && text_eq run_id r)) [
                  | inr differs ↦ differs
                  | inl same ↦
                      let places = both_equal folder f run_id r same in
                      let chat : c ≡ chat_id = own c chat_id f named (is ∙ ap some places.0) in
                      let both : text_eq c chat_id && text_eq r run_id ≡ true =
                        rw (chat, sym places.1) (both_refl chat_id run_id) in
                      absurd (ground (arith, other, both))
                ] in
              subst (λ kept. Stored c r (find_journal f r after) kept)
                (sym (put_other chat_id run_id c r spec.1 runs other))
                (rw (step.2 f r apart) (all c r f named))
        ]

    put_same-Abstracts :
        (chat_id run_id : Text) (files : List JournalFile) (runs : Runs)
        → Abstracts files runs
        → Abstracts files (put_run chat_id run_id (runs chat_id run_id) runs)
    put_same-Abstracts chat_id run_id files runs all c r f named =
        elim (Bool-cases (text_eq c chat_id && text_eq r run_id)) [
          | inl same ↦
              let names = both_equal c chat_id r run_id same in
              subst (λ kept. Stored c r (find_journal f r files) kept)
                (sym (put_same chat_id run_id c r (runs chat_id run_id) runs same))
                (subst (λ kept. Stored c r (find_journal f r files) kept)
                  (ap (λ k. runs k r) names.0 ∙ ap (λ k. runs chat_id k) names.1) (all c r f named))
          | inr other ↦ rw other (all c r f named)
        ]

    -- The past of the files stands for that of the store.
    data PastAbstracts : List (List JournalFile) → List Runs → Type 0 where
      start : PastAbstracts [] []
      before :
          {past : List (List JournalFile)} {past_runs : List Runs} (files : List JournalFile)
          (runs : Runs)
          → Abstracts files runs
          → PastAbstracts past past_runs
          → PastAbstracts (files ∷ past) (runs ∷ past_runs)

    nothing-Abstracts : Abstracts [] no_runs
    unfolding find_journal
    nothing-Abstracts chat_id run_id folder named = absent

    ago-Abstracts :
        (lag : ℕ) (past : List (List JournalFile)) (past_runs : List Runs)
        → PastAbstracts past past_runs
        → Abstracts (ago [] lag past) (ago no_runs lag past_runs)
    unfolding ago
    ago-Abstracts lag _ _ start = nothing-Abstracts
    ago-Abstracts zero _ _ (before files runs all past) = all
    ago-Abstracts (suc lag) _ _ (before {past} {past_runs} files runs all rest) =
        ago-Abstracts lag past past_runs rest

    call_on-Abstracts :
        (call : Call) (now : List JournalFile) (runs : Runs) (past : List (List JournalFile))
        (past_runs : List Runs)
        → Abstracts now runs
        → PastAbstracts past past_runs
        → Agrees
            (named_by call).0
            (named_by call).1
            (call_on call now past).0
            (spec_call folder_of call runs past_runs).0
          × Abstracts (call_on call now past).1 (spec_call folder_of call runs past_runs).1
    unfolding call_on spec_call begin checkpoint begin_at checkpoint_at begin_folder
        checkpoint_folder
    call_on-Abstracts (begin_call command stamp lag) now runs past past_runs all rest =
        elim (Result-cases (begin_folder folder_of command)) [
          | inr (e, is_refused) ↦
              rw is_refused
                (refused e, put_same-Abstracts command.chat_id command.run_id now runs all)
          | inl (folder, e) ↦
              let run = runs command.chat_id command.run_id in
              let seen = ago no_runs lag (runs ∷ past_runs) in
              let named = open_chat-some command.chat_id folder (after_checks _ _ _ e) in
              let step =
                begin_in-Step folder command stamp
                  (find_journal folder command.run_id (ago [] lag (now ∷ past)))
                  (find_journal folder command.run_id now) (seen command.chat_id command.run_id) run
                  now
                  (ago-Abstracts lag (now ∷ past) (runs ∷ past_runs) (before now runs all rest)
                    command.chat_id command.run_id folder named)
                  (all command.chat_id command.run_id folder named) refl in
              rw e (
                with_status-Agrees command.chat_id command.run_id some _ _ step.0,
                Step-Abstracts command.chat_id command.run_id folder _
                    (spec_begin command (seen command.chat_id command.run_id) run) now _ runs named
                    all step,
              )
        ]
    call_on-Abstracts (checkpoint_call command stamp lag) now runs past past_runs all rest =
        elim (Result-cases (checkpoint_folder folder_of command)) [
          | inr (e, is_refused) ↦
              rw is_refused
                (refused e, put_same-Abstracts command.chat_id command.run_id now runs all)
          | inl (folder, e) ↦
              let run = runs command.chat_id command.run_id in
              let seen = ago no_runs lag (runs ∷ past_runs) in
              let named = open_chat-some command.chat_id folder (after_checks _ _ _ e) in
              let step =
                checkpoint_in-Step folder command stamp
                  (find_journal folder command.run_id (ago [] lag (now ∷ past)))
                  (find_journal folder command.run_id now) (seen command.chat_id command.run_id) run
                  now
                  (ago-Abstracts lag (now ∷ past) (runs ∷ past_runs) (before now runs all rest)
                    command.chat_id command.run_id folder named)
                  (all command.chat_id command.run_id folder named) refl in
              rw e (
                with_status-Agrees command.chat_id command.run_id (λ s. none) _ _ step.0,
                Step-Abstracts command.chat_id command.run_id folder _
                    (spec_checkpoint command (seen command.chat_id command.run_id) run) now _ runs
                    named all step,
              )
        ]

    call_all-Abstracts :
        (calls : List Call) (now : List JournalFile) (runs : Runs) (past : List (List JournalFile))
        (past_runs : List Runs)
        → Abstracts now runs
        → PastAbstracts past past_runs
        → AllAgree calls (call_all calls now past).0 (spec_all folder_of calls runs past_runs).0
          × Abstracts (call_all calls now past).1 (spec_all folder_of calls runs past_runs).1
    unfolding call_all spec_all
    call_all-Abstracts [] now runs past past_runs all rest = (no_calls, all)
    call_all-Abstracts (call ∷ calls) now runs past past_runs all rest =
        let step = call_on-Abstracts call now runs past past_runs all rest in
        let later =
          call_all-Abstracts calls (call_on call now past).1
            (spec_call folder_of call runs past_runs).1 (now ∷ past) (runs ∷ past_runs) step.1
            (before now runs all rest) in
        (one_call call _ _ step.0 later.0, later.1)

  pub call_all-refines :
      (calls : List Call) (chat_id run_id folder : Text)
      → HasOwnFolders
      → folder_of chat_id ≡ some folder
      → AllAgree calls (call_all calls [] []).0 (spec_all folder_of calls no_runs []).0
        × Stored chat_id run_id
            (find_journal folder run_id (call_all calls [] []).1)
            ((spec_all folder_of calls no_runs []).1 chat_id run_id)
  call_all-refines calls chat_id run_id folder own named =
      let all = call_all-Abstracts own calls [] no_runs [] [] (nothing-Abstracts own) start in
      (all.0, all.1 chat_id run_id folder named)
