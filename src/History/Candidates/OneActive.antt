-- ===== src/History/Candidates/OneActive.antt =====
-- history/state-history.js: which candidate of a turn is active after activateCandidate and deleteCandidate.
use tavern_mnemosyne.Prelude.{
  ◌≡◌, ◌≤◌, refl, sym, subst, true, ◌&&◌, List, [], ◌∷◌, Text, length, text_eq, text_eq_iff, find?,
  text_has_eq, arith, Option, none, some, ok, Bool-cases, Option-cases, Result-cases, inl, inr,
  if◌then◌else◌,
}
use tavern_mnemosyne.Contracts.Json.{Json}
use tavern_mnemosyne.Contracts.Identity.{is_safe_id, is_opaque_host_id}
use tavern_mnemosyne.History.Tables.{BranchEpoch, find_event}
use tavern_mnemosyne.History.Tables as Tables
use tavern_mnemosyne.History.Records.{Turn, TurnCandidate, is_active}
use tavern_mnemosyne.History.Candidates.{
  CandidateLedger, Target, both, in_epoch, scope_of, is_candidate, find_candidate, find_target,
  available, is_deleted, deactivate, make_active, activated_tables, activate_candidate,
}
use tavern_mnemosyne.History.Candidates.Deletion.{active_candidates}
use tavern_mnemosyne.History.Candidates.Activation.{
  HasUniqueIds, HasOneActive, active-activated, active-found, find-id,
  HasUniqueIds-update_candidate, HasUniqueIds-deactivate,
}

-- The candidates of a ledger.
abbrev pub candidates_of : CandidateLedger → List TurnCandidate
candidates_of db = db.memory.turn_candidates

pub both-some :
    (t : Option Turn) (c : Option TurnCandidate) (pair : Turn × TurnCandidate)
    → both t c ≡ some pair
    → c ≡ some pair.1
both-some (some t) (some c) pair e = ground (arith, e)
both-some (some t) none pair e = ground (arith, e)
both-some none c pair e = ground (arith, e)

in_epoch-candidate :
    (rows : List BranchEpoch) (found : Option (Turn × TurnCandidate)) (target : Target)
    → in_epoch rows found ≡ some target
    → found ≡ some (target.turn, target.candidate)
in_epoch-candidate rows none target e = ground (arith, e)
in_epoch-candidate rows (some (turn, candidate)) target e =
    elim (Option-cases (Tables.select_branch_epoch (scope_of turn) turn.branch_epoch rows)) [
      | inl missing ↦ ground (arith, e, missing)
      | inr (row, there) ↦ ground (arith, e, there)
    ]

find-target :
    (turn_id chat_id candidate_id : Text) (db : CandidateLedger) (target : Target)
    → find_target chat_id turn_id candidate_id db ≡ some target
    → find? (is_candidate turn_id candidate_id) (candidates_of db) ≡ some target.candidate
unfolding find_target find_candidate
find-target turn_id chat_id candidate_id db target e =
    both-some _ _ (target.turn, target.candidate) (in_epoch-candidate db.branch_epochs _ target e)

-- What was found for a target.
pub find_target-found :
    (chat_id turn_id candidate_id : Text) (db : CandidateLedger) (target : Target)
    → available db.branch_epochs (find_target chat_id turn_id candidate_id db) ≡ ok target
    → find? (is_candidate turn_id candidate_id) (candidates_of db) ≡ some target.candidate
unfolding available
find_target-found chat_id turn_id candidate_id db target e =
    elim (Option-cases (find_target chat_id turn_id candidate_id db)) [
      | inl missing ↦ ground (arith, e, missing)
      | inr (found, there) ↦
          let same : found ≡ target = elim (Bool-cases (is_deleted found.candidate.status)) [
            | inl gone ↦ ground (arith, e, there, gone)
            | inr kept ↦ elim (Bool-cases (Tables.is_active found.epoch.status)) [
              | inl on ↦ ground (arith, e, there, kept, on)
              | inr off ↦ ground (arith, e, there, kept, off)
            ]
          ] in
          find-target turn_id chat_id candidate_id db target
            (subst (λ t. find_target chat_id turn_id candidate_id db ≡ some t) same there)
    ]

existing-active :
    (turn_id other candidate_id : Text) (candidates : List TurnCandidate) (c : TurnCandidate)
    → find? (is_candidate turn_id candidate_id) candidates ≡ some c
    → is_active c.status ≡ true
    → length (active_candidates turn_id candidates) ≤ 1
    → active_candidates other candidates
      ≡ (if text_eq turn_id other then candidate_id ∷ [] else active_candidates other candidates)
existing-active turn_id other candidate_id candidates c found on one =
    elim (Bool-cases (text_eq turn_id other)) [
      | inl same ↦
          rw (same, sym ((text_eq_iff turn_id other).0 same))
            (active-found turn_id candidate_id candidates c found on one)
      | inr apart ↦ rw apart refl
    ]

activated-result :
    (turn_id other candidate_id at : Text) (db : CandidateLedger) (c : TurnCandidate)
    → HasUniqueIds (candidates_of db)
    → find? (is_candidate turn_id candidate_id) (candidates_of db) ≡ some c
    → let after = (activated_tables turn_id at c db.memory).turn_candidates in
      (active_candidates other after ≡ (
        if text_eq turn_id other
        then candidate_id ∷ []
        else active_candidates other (candidates_of db)))
      × HasUniqueIds after
unfolding activated_tables
activated-result turn_id other candidate_id at db c unique found =
    let id = find-id turn_id candidate_id (candidates_of db) c found in
    rw id (
      active-activated turn_id other candidate_id at (candidates_of db) c unique found,
      HasUniqueIds-update_candidate (make_active at) candidate_id
          (deactivate turn_id (candidates_of db)) (λ d. refl)
          (HasUniqueIds-deactivate turn_id (candidates_of db) unique),
    )

-- After activateCandidate succeeds, where the ids of candidates are unique and no turn had two active candidates: the
-- requested candidate is the only active one of its turn, every other turn has the active candidates
-- that it had, and the ids are unique.
pub activate-active :
    (chat_id turn_id candidate_id at other : Text) (db db' : CandidateLedger) (result : Json)
    → HasUniqueIds (candidates_of db)
    → HasOneActive (candidates_of db)
    → activate_candidate chat_id turn_id candidate_id at db ≡ ok (result, db')
    → (active_candidates other (candidates_of db') ≡ (
        if text_eq turn_id other
        then candidate_id ∷ []
        else active_candidates other (candidates_of db)))
      × HasUniqueIds (candidates_of db')
unfolding activate_candidate
activate-active chat_id turn_id candidate_id at other db db' result unique one e =
    elim (Bool-cases
      (is_opaque_host_id chat_id && (is_safe_id turn_id && is_safe_id candidate_id))) [
        | inr invalid ↦ ground (arith, e, invalid)
        | inl valid ↦
            elim (Result-cases
              (available db.branch_epochs (find_target chat_id turn_id candidate_id db))) [
                | inr (refused, e') ↦ ground (arith, e, valid, e')
                | inl (target, e') ↦
                    let found = find_target-found chat_id turn_id candidate_id db target e' in
                    elim (Bool-cases (is_active target.candidate.status)) [
                      | inl on ↦
                          let same : db ≡ db' = ground (arith, e, valid, e', on) in
                          subst
                            (λ after.
                              (active_candidates other (candidates_of after) ≡ (
                                if text_eq turn_id other
                                then candidate_id ∷ []
                                else active_candidates other (candidates_of db)))
                              × HasUniqueIds (candidates_of after))
                            same
                            (
                              existing-active turn_id other candidate_id (candidates_of db)
                                  target.candidate found on (one turn_id),
                              unique,
                            )
                      | inr off ↦
                          let same : record db {
                            memory = activated_tables turn_id at target.candidate db.memory;
                          }
                              ≡ db' =
                            ground (arith, e, valid, e', off) in
                          subst
                            (λ after.
                              (active_candidates other (candidates_of after) ≡ (
                                if text_eq turn_id other
                                then candidate_id ∷ []
                                else active_candidates other (candidates_of db)))
                              × HasUniqueIds (candidates_of after))
                            same
                            (activated-result turn_id other candidate_id at db target.candidate
                              unique found)
                    ]
              ]
      ]
