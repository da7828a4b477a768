-- ===== src/History/Candidates/Deleted.antt =====
-- history/state-history.js: what the updates of deleteCandidate make of the active candidates.
use tavern_mnemosyne.Prelude.{
  ◌≡◌, refl, sym, subst, false, ◌&&◌, List, [], ◌∷◌, Text, text_eq, text_eq_iff, find?, text_has_eq,
  arith, Option, none, some, Bool-cases, inl, inr, if◌then◌else◌,
}
use tavern_mnemosyne.History.Records.{TurnCandidate, is_active}
use tavern_mnemosyne.History.Candidates.{is_candidate, update_candidate, make_deleted}
use tavern_mnemosyne.History.Candidates.Deletion.{active_candidates}
use tavern_mnemosyne.History.Candidates.Activation.{
  HasUniqueIds, has_id, has_id-find, update_candidate-absent,
}

-- Deleting a candidate changes the active ones only of its turn, and only if it is active.
pub active-make_deleted_other :
    (turn_id other candidate_id : Text) (candidates : List TurnCandidate) (c : TurnCandidate)
    → HasUniqueIds candidates
    → text_eq turn_id other && is_active c.status ≡ false
    → find? (is_candidate turn_id candidate_id) candidates ≡ some c
    → active_candidates other (update_candidate make_deleted candidate_id candidates)
      ≡ active_candidates other candidates
unfolding find? active_candidates update_candidate
active-make_deleted_other turn_id other candidate_id [] c unique apart e = refl
active-make_deleted_other turn_id other candidate_id (d ∷ candidates) c unique apart e =
    elim (Bool-cases (text_eq d.candidate_id candidate_id)) [
      | inl same ↦
          let id = (text_eq_iff d.candidate_id candidate_id).0 same in
          let absent : has_id candidate_id candidates ≡ false =
            subst (λ k. has_id k candidates ≡ false) id unique.0 in
          elim (Bool-cases (text_eq d.turn_id turn_id)) [
            | inr elsewhere ↦
                ground
                  (arith, e, same, elsewhere, absent, has_id-find turn_id candidate_id candidates c)
            | inl here ↦
                let turn = (text_eq_iff d.turn_id turn_id).0 here in
                let found : d ≡ c = ground (arith, e, same, here) in
                let shut : text_eq d.turn_id other && is_active d.status ≡ false =
                  rw (turn, found) apart in
                ground (
                  arith,
                  same,
                  shut,
                  update_candidate-absent make_deleted candidate_id candidates absent,
                )
          ]
      | inr differs ↦ ground (
        arith,
        differs,
        e,
        active-make_deleted_other turn_id other candidate_id candidates c unique.1 apart,
      )
    ]

-- The only active candidate of a turn is deleted.
pub active-make_deleted :
    (turn_id candidate_id : Text) (candidates : List TurnCandidate)
    → HasUniqueIds candidates
    → active_candidates turn_id candidates ≡ candidate_id ∷ []
    → active_candidates turn_id (update_candidate make_deleted candidate_id candidates) ≡ []
unfolding active_candidates update_candidate
active-make_deleted turn_id candidate_id [] unique e = ground (arith, e)
active-make_deleted turn_id candidate_id (d ∷ candidates) unique e =
    elim (Bool-cases (text_eq d.turn_id turn_id && is_active d.status)) [
      | inl on ↦
          let id : d.candidate_id ≡ candidate_id = ground (arith, e, on) in
          let same = (text_eq_iff d.candidate_id candidate_id).1 id in
          let absent : has_id candidate_id candidates ≡ false =
            subst (λ k. has_id k candidates ≡ false) id unique.0 in
          ground (
            arith,
            e,
            on,
            same,
            update_candidate-absent make_deleted candidate_id candidates absent,
          )
      | inr off ↦ elim (Bool-cases (text_eq d.candidate_id candidate_id)) [
        | inl same ↦
            ground
              (arith, e, off, same, active-make_deleted turn_id candidate_id candidates unique.1)
        | inr differs ↦
            ground
              (arith, e, off, differs, active-make_deleted turn_id candidate_id candidates unique.1)
      ]
    ]

pub find-make_deleted :
    (turn_id wanted candidate_id : Text) (candidates : List TurnCandidate) (c : TurnCandidate)
    → find? (is_candidate turn_id wanted) candidates ≡ some c
    → (d : TurnCandidate) × (find?
          (is_candidate turn_id wanted)
          (update_candidate make_deleted candidate_id candidates)
        ≡ some d)
unfolding find? update_candidate
find-make_deleted turn_id wanted candidate_id [] c e = ground (arith, e)
find-make_deleted turn_id wanted candidate_id (d ∷ candidates) c e =
    let kept = if text_eq d.candidate_id candidate_id then make_deleted d else d in
    elim (Bool-cases (is_candidate turn_id wanted d)) [
      | inl found ↦ (kept, ground (arith, found))
      | inr other ↦
          let later =
            find-make_deleted turn_id wanted candidate_id candidates c (ground (arith, e, other)) in
          (later.0, ground (arith, other, later.1))
    ]

-- What a deletion leaves of the active candidates of its turn.
abbrev pub kept_active : (candidate_id : Text) → (fallback_id : Option Text) → List Text → List Text
kept_active candidate_id fallback_id [] = []
kept_active candidate_id none (id ∷ ids) = id ∷ ids
kept_active candidate_id (some fallback) (id ∷ ids) =
    if text_eq id candidate_id then fallback ∷ ids else id ∷ ids

active-absent :
    (turn_id candidate_id id : Text) (ids : List Text) (candidates : List TurnCandidate)
    → has_id candidate_id candidates ≡ false
    → active_candidates turn_id candidates ≡ id ∷ ids
    → text_eq id candidate_id ≡ false
unfolding active_candidates
active-absent turn_id candidate_id id ids [] e a = ground (arith, a)
active-absent turn_id candidate_id id ids (d ∷ candidates) e a =
    elim (Bool-cases (text_eq d.turn_id turn_id && is_active d.status)) [
      | inl on ↦
          let same : d.candidate_id ≡ id = ground (arith, a, on) in
          rw (sym same) (ground (arith, e))
      | inr off ↦
          active-absent turn_id candidate_id id ids candidates (ground (arith, e))
            (ground (arith, a, off))
    ]

-- A candidate that is not active is not among the active ones.
pub not_active-head :
    (turn_id candidate_id id : Text) (ids : List Text) (candidates : List TurnCandidate)
    (c : TurnCandidate)
    → HasUniqueIds candidates
    → find? (is_candidate turn_id candidate_id) candidates ≡ some c
    → is_active c.status ≡ false
    → active_candidates turn_id candidates ≡ id ∷ ids
    → text_eq id candidate_id ≡ false
unfolding find? active_candidates
not_active-head turn_id candidate_id id ids [] c unique e off a = ground (arith, e)
not_active-head turn_id candidate_id id ids (d ∷ candidates) c unique e off a =
    elim (Bool-cases (is_candidate turn_id candidate_id d)) [
      | inl found ↦
          let same : d ≡ c = ground (arith, e, found) in
          let off' : is_active d.status ≡ false = rw same off in
          let equal : d.candidate_id ≡ candidate_id =
            ground (arith, found, text_eq_iff d.candidate_id candidate_id) in
          active-absent turn_id candidate_id id ids candidates
            (subst (λ k. has_id k candidates ≡ false) equal unique.0) (ground (arith, a, off'))
      | inr other ↦ elim (Bool-cases (text_eq d.turn_id turn_id && is_active d.status)) [
        | inl on ↦
            let same : d.candidate_id ≡ id = ground (arith, a, on) in
            rw (sym same) (ground (arith, other, on))
        | inr skipped ↦
            not_active-head turn_id candidate_id id ids candidates c unique.1
              (ground (arith, e, other)) off (ground (arith, a, skipped))
      ]
    ]
