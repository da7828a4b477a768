-- ===== src/Runs/RunJournal/Bound/Steady.antt =====
-- The store of runs keeps the hash of a run's request, also when calls overlap.
use tavern_mnemosyne.Prelude.{
  ℕ, zero, suc, ◌≡◌, refl, sym, ap, ◌∙◌, ◌⊎◌, inl, inr, ◌&&◌, List, [], ◌∷◌, Text, text_eq,
  text_eq_iff, arith, All, Option, none, some, get_elem?, ok, Bool-cases, Result-cases,
}
use tavern_mnemosyne.Runs.RunJournal.{
  BeginStatus, BeginCommand, CheckpointCommand, begin_folder, checkpoint_folder,
}
use tavern_mnemosyne.Runs.RunJournal.Spec.{
  Run, Runs, Outcome, put_run, answer_bound, spec_begin, spec_checkpoint, Call, begin_call,
  checkpoint_call, SpecAnswer, with_status, ago, no_runs, spec_call, spec_all,
}
use tavern_mnemosyne.Runs.RunJournal.Simulation.{both_equal, named_by}

-- The hash of a call's request.
abbrev pub request_of : Call → Text
request_of (begin_call command stamp lag) = command.request_hash
request_of (checkpoint_call command stamp lag) = command.request_hash

abbrev pub hash_of : Option Run → Option Text
hash_of none = none
hash_of (some run) = some run.request_hash

-- What is there is bound as before, if it was.
abbrev Keeps : (before after : Option Run) → Type 0
Keeps before after = (hash_of before ≡ none) ⊎ (hash_of after ≡ hash_of before)

bound_request :
    (command : BeginCommand) (run : Run) (answer : BeginStatus × Run)
    → answer_bound command run ≡ ok answer
    → run.request_hash ≡ command.request_hash
bound_request command run answer e =
    (text_eq_iff run.request_hash command.request_hash).0
      (elim (Bool-cases (text_eq run.request_hash command.request_hash)) [
        | inl same ↦ same
        | inr other ↦ absurd (ground (arith, e, other))
      ])

begin-Keeps :
    (command : BeginCommand) (seen now : Option Run)
    → Keeps seen now
    → Keeps now (spec_begin command seen now).1
      × ((answer : BeginStatus × Run)
          → (spec_begin command seen now).0 ≡ ok answer
          → hash_of (spec_begin command seen now).1 ≡ some command.request_hash)
unfolding spec_begin
begin-Keeps command (some run) now (inl missing) = absurd (ground (arith, missing))
begin-Keeps command (some run) now (inr same) =
    (inr refl, λ answer e. same ∙ ap some (bound_request command run answer e))
begin-Keeps command none (some run) same =
    (inr refl, λ answer e. ap some (bound_request command run answer e))
begin-Keeps command none none same = (inl refl, λ answer e. refl)

checkpoint-Keeps :
    (command : CheckpointCommand) (seen now : Option Run)
    → Keeps seen now
    → Keeps now (spec_checkpoint command seen now).1
      × ((answer : Unit {0} × Run)
          → (spec_checkpoint command seen now).0 ≡ ok answer
          → hash_of (spec_checkpoint command seen now).1 ≡ some command.request_hash)
unfolding spec_checkpoint
checkpoint-Keeps command none now same = (inr refl, λ answer e. ground (arith, e))
checkpoint-Keeps command (some run) now (inl missing) = absurd (ground (arith, missing))
checkpoint-Keeps command (some run) now (inr same) =
    elim (Bool-cases (text_eq run.request_hash command.request_hash)) [
      | inr other ↦ rw other (inr refl, λ answer e. absurd (ground (arith, e)))
      | inl equal ↦ rw equal (
        inr (sym same),
        λ answer e. ap some ((text_eq_iff run.request_hash command.request_hash).0 equal),
      )
    ]

module _ (chat_id run_id : Text) where
  -- Every store of a history has nothing for the run or is bound as the store is now.
  abbrev IsSteady : Runs → List Runs → Type 0
  IsSteady now past = All (λ runs. Keeps (runs chat_id run_id) (now chat_id run_id)) past

  ago-Keeps :
      (lag : ℕ) (now : Runs) (past : List Runs)
      → IsSteady now past
      → Keeps (ago no_runs lag past chat_id run_id) (now chat_id run_id)
  unfolding ago
  ago-Keeps lag now [] steady = inl refl
  ago-Keeps zero now (runs ∷ past) steady = steady.0
  ago-Keeps (suc lag) now (runs ∷ past) steady = ago-Keeps lag now past steady.1

  Keeps-trans :
      (first second third : Option Run)
      → Keeps first second
      → Keeps second third
      → Keeps first third
  Keeps-trans first second third (inl missing) later = inl missing
  Keeps-trans first second third (inr same) (inl missing) = inl (sym same ∙ missing)
  Keeps-trans first second third (inr same) (inr same') = inr (same' ∙ same)

  IsSteady-next :
      (now next : Runs) (past : List Runs)
      → Keeps (now chat_id run_id) (next chat_id run_id)
      → IsSteady now past
      → IsSteady next past
  IsSteady-next now next [] keeps steady = tt
  IsSteady-next now next (runs ∷ past) keeps steady = (
    Keeps-trans (runs chat_id run_id) (now chat_id run_id) (next chat_id run_id) steady.0 keeps,
    IsSteady-next now next past keeps steady.1,
  )

  module _ (folder_of : Text → Option Text) where
    -- What a call does to the run, when it is the one that the call names.
    abbrev CallKeeps : Call → (now : Runs) → (past : List Runs) → Type 0
    CallKeeps call now past =
        let step = spec_call folder_of call now past in
        Keeps (now chat_id run_id) (step.1 chat_id run_id)
        × ((answer : Option BeginStatus × Run)
            → (named_by call).0 ≡ chat_id
            → (named_by call).1 ≡ run_id
            → step.0 ≡ ok answer
            → hash_of (step.1 chat_id run_id) ≡ some (request_of call))

    put-Keeps :
        {S : Type 0} (call_chat call_run : Text) (f : S → Option BeginStatus) (request : Text)
        (now : Runs) (step : Outcome S)
        → (call_chat ≡ chat_id
            → call_run ≡ run_id
            → Keeps (now call_chat call_run) step.1
              × ((answer : S × Run) → step.0 ≡ ok answer → hash_of step.1 ≡ some request))
        → Keeps (now chat_id run_id) (put_run call_chat call_run step.1 now chat_id run_id)
          × ((answer : Option BeginStatus × Run)
              → call_chat ≡ chat_id
              → call_run ≡ run_id
              → with_status f step.0 ≡ ok answer
              → hash_of (put_run call_chat call_run step.1 now chat_id run_id) ≡ some request)
    put-Keeps call_chat call_run f request now step kept =
        elim (Bool-cases (text_eq chat_id call_chat && text_eq run_id call_run)) [
          | inl same ↦
              let names = both_equal chat_id call_chat run_id call_run same in
              let here : now chat_id run_id ≡ now call_chat call_run =
                ap (λ c. now c run_id) names.0 ∙ ap (λ r. now call_chat r) names.1 in
              let k = kept (sym names.0) (sym names.1) in
              rw (same, here)
                (
                  k.0,
                  λ answer chat run e. elim (Result-cases step.0) [
                    | inl (a, e') ↦ k.1 a e'
                    | inr (refusal, e') ↦ absurd (ground (arith, e, e'))
                  ],
                )
          | inr other ↦ rw other (
            inr refl,
            λ answer chat run e. absurd (
                ground (
                  arith,
                  other,
                  text_eq_iff chat_id call_chat,
                  text_eq_iff run_id call_run,
                  chat,
                  run,
                )),
          )
        ]

    spec_call-Keeps :
        (call : Call) (now : Runs) (past : List Runs)
        → IsSteady now (now ∷ past)
        → CallKeeps call now past
    unfolding spec_call
    spec_call-Keeps (begin_call command stamp lag) now past steady =
        put-Keeps command.chat_id command.run_id some command.request_hash now _ (λ chat run.
          let seen = ago no_runs lag (now ∷ past) in
          let keeps : Keeps (seen command.chat_id command.run_id)
              (now command.chat_id command.run_id) =
            rw (chat, run) (ago-Keeps lag now (now ∷ past) steady) in
          elim (Result-cases (begin_folder folder_of command)) [
            | inr (e, closed) ↦ rw closed (inr refl, λ answer e'. absurd (ground (arith, e')))
            | inl (folder, opened) ↦ rw opened (
                begin-Keeps command (seen command.chat_id command.run_id)
                  (now command.chat_id command.run_id) keeps)
          ])
    spec_call-Keeps (checkpoint_call command stamp lag) now past steady =
        put-Keeps command.chat_id command.run_id (λ s. none) command.request_hash now _
          (λ chat run.
            let seen = ago no_runs lag (now ∷ past) in
            let keeps : Keeps (seen command.chat_id command.run_id)
                (now command.chat_id command.run_id) =
              rw (chat, run) (ago-Keeps lag now (now ∷ past) steady) in
            elim (Result-cases (checkpoint_folder folder_of command)) [
              | inr (e, closed) ↦ rw closed (inr refl, λ answer e'. absurd (ground (arith, e')))
              | inl (folder, opened) ↦ rw opened (
                  checkpoint-Keeps command (seen command.chat_id command.run_id)
                    (now command.chat_id command.run_id) keeps)
            ])

    -- The answers to calls for the run, when it is bound to one hash at the end.
    abbrev Accepted : List Call → List SpecAnswer → (final : Option Run) → Type 0
    Accepted calls specs final =
        (k : ℕ) (call : Call) (answer : Option BeginStatus × Run)
        → get_elem? calls k ≡ some call
        → (named_by call).0 ≡ chat_id
        → (named_by call).1 ≡ run_id
        → get_elem? specs k ≡ some (ok answer)
        → hash_of final ≡ some (request_of call)

    Accepted-cons :
        (first : Call) (now : Runs) (past : List Runs) (calls : List Call) (specs : List SpecAnswer)
        (final : Option Run)
        → CallKeeps first now past
        → Keeps ((spec_call folder_of first now past).1 chat_id run_id) final
        → Accepted calls specs final
        → Accepted (first ∷ calls) ((spec_call folder_of first now past).0 ∷ specs) final
    Accepted-cons first now past calls specs final step keeps later zero call answer at chat run e =
        let same : first ≡ call = ground (arith, at) in
        let bound =
          step.1 answer (ap (λ c. (named_by c).0) same ∙ chat) (ap (λ c. (named_by c).1) same ∙ run)
            (ground (arith, e)) in
        elim keeps [
          | inl missing ↦ absurd (ground (arith, bound, missing))
          | inr kept ↦ kept ∙ (bound ∙ ap (λ c. some (request_of c)) same)
        ]
    Accepted-cons first now past calls specs final step keeps later (suc k) call answer at chat run
          e =
        later k call answer at chat run e

    pub spec_all-Keeps :
        (calls : List Call) (now : Runs) (past : List Runs)
        → IsSteady now (now ∷ past)
        → Keeps (now chat_id run_id) ((spec_all folder_of calls now past).1 chat_id run_id)
          × Accepted calls
              (spec_all folder_of calls now past).0
              ((spec_all folder_of calls now past).1 chat_id run_id)
    unfolding spec_all
    spec_all-Keeps [] now past steady = (inr refl, λ k call answer e. absurd (ground (arith, e)))
    spec_all-Keeps (first ∷ calls) now past steady =
        let step = spec_call-Keeps first now past steady in
        let next = (spec_call folder_of first now past).1 in
        let final = (spec_all folder_of calls next (now ∷ past)).1 in
        let later =
          spec_all-Keeps calls next (now ∷ past)
            (inr refl, IsSteady-next now next (now ∷ past) step.0 steady) in
        (
          Keeps-trans (now chat_id run_id) (next chat_id run_id) (final chat_id run_id) step.0
              later.0,
          Accepted-cons first now past calls (spec_all folder_of calls next (now ∷ past)).0
              (final chat_id run_id) step later.0 later.1,
        )
