-- ===== src/History/Candidates/Replaced.antt =====
-- history/state-history.js: which candidate of a turn is active after deleteCandidate.
use tavern_mnemosyne.Prelude.{
  ◌≡◌, ◌≤◌, ◌⊎◌, refl, sym, ap, subst, ◌∙◌, Bool, true, false, ◌&&◌, ◌||◌, List, [], ◌∷◌, Text,
  length, text_eq, text_eq_iff, text_eq_refl, find?, text_has_eq, arith, Option, none, some, ok,
  Bool-cases, Option-cases, Result-cases, inl, inr, if◌then◌else◌,
}
use tavern_mnemosyne.Contracts.Json.{Json}
use tavern_mnemosyne.History.Tables.{find_event, has_event_id}
use tavern_mnemosyne.History.Records.{Turn, TurnCandidate, is_active, is_some, MemoryTables}
use tavern_mnemosyne.History.Candidates.{
  CandidateLedger, Target, is_candidate, find_candidate, find_target, available, is_deleted,
  update_candidate, make_active, make_deleted,
}
use tavern_mnemosyne.History.Candidates.Deletion.{
  DeleteCommand, active_candidates, current_active, find_fallback, usable_fallback, check_fallback,
  deleted_tables, fallback_tables, delete_target, delete_candidate, record_deletion, deletion_event,
  deletion_result, has_valid_ids, active_after,
}
use tavern_mnemosyne.History.Candidates.Activation.{
  HasUniqueIds, HasOneActive, active-found, active-make_active, active-make_active_other, find-id,
  HasUniqueIds-update_candidate,
}
use tavern_mnemosyne.History.Candidates.OneActive.{candidates_of, both-some, find_target-found}
use tavern_mnemosyne.History.Candidates.Deleted.{
  active-make_deleted_other, active-make_deleted, find-make_deleted, kept_active, not_active-head,
}

-- The candidates after a deletion.
abbrev after_deletion :
    (target_active : Bool)
    → (candidate_id at : Text) → Option TurnCandidate
    → List TurnCandidate
    → List TurnCandidate
after_deletion true candidate_id at (some fallback) candidates =
    update_candidate (make_active at) fallback.candidate_id
      (update_candidate make_deleted candidate_id candidates)
after_deletion _ candidate_id at _ candidates =
    update_candidate make_deleted candidate_id candidates

candidates-after :
    (target_active : Bool) (at : Text) (fallback : Option TurnCandidate) (target : TurnCandidate)
    (db : MemoryTables)
    → (fallback_tables target_active at fallback (deleted_tables at target db)).turn_candidates
      ≡ after_deletion target_active target.candidate_id at fallback db.turn_candidates
unfolding fallback_tables deleted_tables
candidates-after true at none target db = refl
candidates-after true at (some fallback) target db = refl
candidates-after false at none target db = refl
candidates-after false at (some fallback) target db = refl

candidate-found :
    (chat_id turn_id id : Text) (db : MemoryTables) (pair : Turn × TurnCandidate)
    → find_candidate chat_id turn_id id db ≡ some pair
    → find? (is_candidate turn_id id) db.turn_candidates ≡ some pair.1
unfolding find_candidate
candidate-found chat_id turn_id id db pair e = both-some _ _ pair e

-- What was found for a fallback.
fallback-found :
    (c : DeleteCommand) (id : Option Text) (db : MemoryTables) (fallback : TurnCandidate)
    → find_fallback c id db ≡ ok (some fallback)
    → (find? (is_candidate c.turn_id fallback.candidate_id) db.turn_candidates ≡ some fallback)
      × (id ≡ some fallback.candidate_id)
unfolding find_fallback usable_fallback
fallback-found c none db fallback e = ground (arith, e)
fallback-found c (some id) db fallback e =
    elim (Option-cases (find_candidate c.chat_id c.turn_id id db)) [
      | inl missing ↦ ground (arith, e, missing)
      | inr (pair, there) ↦
          elim (Bool-cases
            (is_deleted pair.1.status || text_eq pair.1.candidate_id c.candidate_id)) [
              | inl bad ↦ ground (arith, e, there, bad)
              | inr usable ↦
                  let same : pair.1 ≡ fallback = ground (arith, e, there, usable) in
                  let found =
                    subst (λ x. find? (is_candidate c.turn_id id) db.turn_candidates ≡ some x) same
                      (candidate-found c.chat_id c.turn_id id db pair there) in
                  let equal = find-id c.turn_id id db.turn_candidates fallback found in
                  (
                    subst (λ k. find? (is_candidate c.turn_id k) db.turn_candidates ≡ some fallback)
                        (sym equal) found,
                    ap some (sym equal),
                  )
            ]
    ]

kept_inactive :
    (turn_id candidate_id : Text) (fallback_id : Option Text) (ids : List Text)
    (candidates : List TurnCandidate) (c : TurnCandidate)
    → HasUniqueIds candidates
    → find? (is_candidate turn_id candidate_id) candidates ≡ some c
    → is_active c.status ≡ false
    → active_candidates turn_id candidates ≡ ids
    → kept_active candidate_id fallback_id ids ≡ ids
kept_inactive turn_id candidate_id fallback_id [] candidates c unique e off a = refl
kept_inactive turn_id candidate_id none (id ∷ ids) candidates c unique e off a = refl
kept_inactive turn_id candidate_id (some fallback) (id ∷ ids) candidates c unique e off a =
    rw (not_active-head turn_id candidate_id id ids candidates c unique e off a) refl

inactive-after :
    (turn_id other candidate_id at : Text) (fallback : Option TurnCandidate)
    (fallback_id : Option Text) (candidates : List TurnCandidate) (c : TurnCandidate)
    → HasUniqueIds candidates
    → find? (is_candidate turn_id candidate_id) candidates ≡ some c
    → is_active c.status ≡ false
    → (active_candidates other (after_deletion false candidate_id at fallback candidates) ≡ (
        if text_eq turn_id other
        then kept_active candidate_id fallback_id (active_candidates turn_id candidates)
        else active_candidates other candidates))
      × HasUniqueIds (after_deletion false candidate_id at fallback candidates)
inactive-after turn_id other candidate_id at fallback fallback_id candidates c unique e off =
    let gone : text_eq turn_id other && is_active c.status ≡ false = ground (arith, off) in
    let same = active-make_deleted_other turn_id other candidate_id candidates c unique gone e in
    let kept =
      kept_inactive turn_id candidate_id fallback_id (active_candidates turn_id candidates)
        candidates c unique e off refl in
    (
      elim (Bool-cases (text_eq turn_id other)) [
        | inl turn ↦ rw (turn, same, kept, (text_eq_iff turn_id other).0 turn) refl
        | inr apart ↦ rw (apart, same) refl
      ],
      HasUniqueIds-update_candidate make_deleted candidate_id candidates (λ d. refl) unique,
    )

active-after :
    (turn_id other candidate_id at : Text) (fallback : TurnCandidate)
    (candidates : List TurnCandidate) (c : TurnCandidate)
    → HasUniqueIds candidates
    → length (active_candidates turn_id candidates) ≤ 1
    → find? (is_candidate turn_id candidate_id) candidates ≡ some c
    → is_active c.status ≡ true
    → find? (is_candidate turn_id fallback.candidate_id) candidates ≡ some fallback
    → (active_candidates other (after_deletion true candidate_id at (some fallback) candidates) ≡ (
        if text_eq turn_id other
        then kept_active candidate_id
            (some fallback.candidate_id)
            (active_candidates turn_id candidates)
        else active_candidates other candidates))
      × HasUniqueIds (after_deletion true candidate_id at (some fallback) candidates)
active-after turn_id other candidate_id at fallback candidates c unique one e on found =
    let deleted_ones = update_candidate make_deleted candidate_id candidates in
    let unique' =
      HasUniqueIds-update_candidate make_deleted candidate_id candidates (λ d. refl) unique in
    let only = active-found turn_id candidate_id candidates c e on one in
    let none_left = active-make_deleted turn_id candidate_id candidates unique only in
    let found' =
      find-make_deleted turn_id fallback.candidate_id candidate_id candidates fallback found in
    (
      elim (Bool-cases (text_eq turn_id other)) [
        | inl turn ↦
            rw (turn, only, text_eq_refl candidate_id, sym ((text_eq_iff turn_id other).0 turn))
              (active-make_active turn_id fallback.candidate_id at deleted_ones found'.0 unique'
                none_left found'.1)
        | inr apart ↦ rw apart (
            active-make_active_other turn_id other fallback.candidate_id at deleted_ones found'.0
              unique' apart found'.1
            ∙ active-make_deleted_other turn_id other candidate_id candidates c unique
                (ground (arith, apart)) e)
      ],
      HasUniqueIds-update_candidate (make_active at) fallback.candidate_id deleted_ones (λ d. refl)
          unique',
    )

-- What is known when the checks on the fallback have passed.
checked-cases :
    (target_active : Bool) (fallback : Option TurnCandidate) (current : Option Text)
    → check_fallback target_active fallback current ≡ ok tt
    → (target_active ≡ false)
      ⊎ ((target_active ≡ true) × ((f : TurnCandidate) × (fallback ≡ some f)))
unfolding check_fallback
checked-cases true none current e = ground (arith, e)
checked-cases true (some fallback) current e = inr (refl, (fallback, refl))
checked-cases false fallback current e = inl refl

-- What a deletion promises of the candidates after it.
abbrev Replaced : DeleteCommand → (other : Text) → (before after : List TurnCandidate) → Type 0
Replaced c other before after =
    (active_candidates other after ≡ (
      if text_eq c.turn_id other
      then kept_active c.candidate_id c.fallback_candidate_id (active_candidates c.turn_id before)
      else active_candidates other before))
    × HasUniqueIds after

after_deletion-Replaced :
    (c : DeleteCommand) (other at : Text) (db : MemoryTables) (target : TurnCandidate)
    (fallback : Option TurnCandidate) (current : Option Text)
    → HasUniqueIds db.turn_candidates
    → length (active_candidates c.turn_id db.turn_candidates) ≤ 1
    → find? (is_candidate c.turn_id c.candidate_id) db.turn_candidates ≡ some target
    → find_fallback c c.fallback_candidate_id db ≡ ok fallback
    → check_fallback (is_active target.status) fallback current ≡ ok tt
    → Replaced c other db.turn_candidates
        (after_deletion (is_active target.status) c.candidate_id at fallback db.turn_candidates)
after_deletion-Replaced c other at db target fallback current unique one e f check =
    elim (checked-cases (is_active target.status) fallback current check) [
      | inl off ↦ rw off (
          inactive-after c.turn_id other c.candidate_id at fallback c.fallback_candidate_id
            db.turn_candidates target unique e off)
      | inr (on, (found, is)) ↦
          let known =
            fallback-found c c.fallback_candidate_id db found
              (subst (λ x. find_fallback c c.fallback_candidate_id db ≡ ok x) is f) in
          rw (on, is, known.1)
            (active-after c.turn_id other c.candidate_id at found db.turn_candidates target unique
              one e on known.0)
    ]

module _ (sha256 : Text → Text) where
  record_deletion-memory :
      (c : DeleteCommand) (at : Text) (target : Target) (active_id : Option Text)
      (memory : MemoryTables) (db db' : CandidateLedger) (result : Json)
      → record_deletion sha256 c at target active_id memory db ≡ ok (result, db')
      → memory ≡ db'.memory
  unfolding record_deletion
  record_deletion-memory c at target active_id memory db db' result e =
      let event = deletion_event sha256 c target at (deletion_result sha256 c active_id) in
      elim (Bool-cases (
        is_some (find_event event.command_id db.history_events)
        || has_event_id event.event_id db.history_events)) [
          | inl there ↦ ground (arith, e, there)
          | inr fresh ↦ ground (arith, e, fresh)
        ]

  delete_target-Replaced :
      (c : DeleteCommand) (other at : Text) (target : Target) (db db' : CandidateLedger)
      (result : Json)
      → HasUniqueIds (candidates_of db)
      → length (active_candidates c.turn_id (candidates_of db)) ≤ 1
      → find? (is_candidate c.turn_id c.candidate_id) (candidates_of db) ≡ some target.candidate
      → delete_target sha256 c at target db ≡ ok (result, db')
      → Replaced c other (candidates_of db) (candidates_of db')
  unfolding delete_target
  delete_target-Replaced c other at target db db' result unique one e d =
      elim (Result-cases (current_active (active_candidates c.turn_id (candidates_of db)))) [
        | inr (refused, e1) ↦ ground (arith, d, e1)
        | inl (current, e1) ↦
            elim (Result-cases (find_fallback c c.fallback_candidate_id db.memory)) [
              | inr (refused, e2) ↦ ground (arith, d, e1, e2)
              | inl (fallback, e2) ↦
                  elim (Result-cases
                    (check_fallback (is_active target.candidate.status) fallback current)) [
                      | inr (refused, e3) ↦ ground (arith, d, e1, e2, e3)
                      | inl (passed, e3) ↦
                          let passes : check_fallback (is_active target.candidate.status) fallback
                                current
                              ≡ ok tt =
                            e3 in
                          let memory =
                            fallback_tables (is_active target.candidate.status) at fallback
                              (deleted_tables at target.candidate db.memory) in
                          let same =
                            record_deletion-memory c at target
                              (active_after (is_active target.candidate.status) fallback current)
                              memory db db' result (ground (arith, d, e1, e2, e3)) in
                          let id =
                            find-id c.turn_id c.candidate_id (candidates_of db) target.candidate
                              e in
                          subst (λ after. Replaced c other (candidates_of db) after)
                            (ap
                                (λ k.
                                  after_deletion (is_active target.candidate.status) k at fallback
                                    (candidates_of db))
                                (sym id)
                              ∙ (sym (
                                    candidates-after (is_active target.candidate.status) at fallback
                                      target.candidate db.memory)
                                  ∙ ap (λ m. m.turn_candidates) same))
                            (after_deletion-Replaced c other at db.memory target.candidate fallback
                              current unique one e e2 passes)
                    ]
            ]
      ]

  -- After deleteCandidate succeeds under a command id that is not in the journal of events, where the ids of
  -- candidates are unique and no turn had two active candidates: the turn's active candidate is the one
  -- it was, or the fallback where the deleted candidate was it; every other turn has the active
  -- candidates that it had, and the ids are unique.
  pub delete-active :
      (c : DeleteCommand) (other at : Text) (db db' : CandidateLedger) (result : Json)
      → HasUniqueIds (candidates_of db)
      → HasOneActive (candidates_of db)
      → find_event c.command_id db.history_events ≡ none
      → delete_candidate sha256 c at db ≡ ok (result, db')
      → (active_candidates other (candidates_of db') ≡ (
          if text_eq c.turn_id other
          then kept_active c.candidate_id c.fallback_candidate_id
              (active_candidates c.turn_id (candidates_of db))
          else active_candidates other (candidates_of db)))
        × HasUniqueIds (candidates_of db')
  unfolding delete_candidate
  delete-active c other at db db' result unique one fresh e = elim (Bool-cases (has_valid_ids c)) [
    | inr invalid ↦ ground (arith, e, invalid)
    | inl valid ↦
        elim (Result-cases
          (available db.branch_epochs (find_target c.chat_id c.turn_id c.candidate_id db))) [
            | inr (refused, e') ↦ ground (arith, e, valid, fresh, e')
            | inl (target, e') ↦
                delete_target-Replaced c other at target db db' result unique (one c.turn_id)
                  (find_target-found c.chat_id c.turn_id c.candidate_id db target e')
                  (ground (arith, e, valid, fresh, e'))
          ]
  ]
