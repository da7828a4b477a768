-- ===== src/History/Candidates/Activation.antt =====
-- What activateCandidate of history/state-history.js leaves of the candidates.
use tavern_mnemosyne.Prelude.{
  ◌≡◌, ◌≤◌, refl, sym, subst, ◌∙◌, Bool, true, false, ◌&&◌, ◌||◌, List, [], ◌∷◌, Text, length,
  text_eq, text_eq_iff, find?, arith, some, Bool-cases, inl, inr, if◌then◌else◌,
}
use tavern_mnemosyne.History.Records.{TurnCandidate, inactive, is_active}
use tavern_mnemosyne.History.Candidates.{is_candidate, deactivate, update_candidate, make_active}
use tavern_mnemosyne.History.Candidates.Deletion.{active_candidates}

abbrev pub has_id : Text → List TurnCandidate → Bool
has_id candidate_id [] = false
has_id candidate_id (c ∷ candidates) =
    text_eq c.candidate_id candidate_id || has_id candidate_id candidates

-- The primary key.
abbrev pub HasUniqueIds : List TurnCandidate → Type 0
HasUniqueIds [] = Unit
HasUniqueIds (c ∷ candidates) = (has_id c.candidate_id candidates ≡ false) × HasUniqueIds candidates

pub update_candidate-absent :
    (change : TurnCandidate → TurnCandidate) (candidate_id : Text) (candidates : List TurnCandidate)
    → has_id candidate_id candidates ≡ false
    → update_candidate change candidate_id candidates ≡ candidates
unfolding update_candidate
update_candidate-absent change candidate_id [] e = refl
update_candidate-absent change candidate_id (c ∷ candidates) e =
    ground (arith, e, update_candidate-absent change candidate_id candidates)

has_id-deactivate :
    (candidate_id turn_id : Text) (candidates : List TurnCandidate)
    → has_id candidate_id (deactivate turn_id candidates) ≡ has_id candidate_id candidates
unfolding deactivate
has_id-deactivate candidate_id turn_id [] = refl
has_id-deactivate candidate_id turn_id (c ∷ candidates) =
    ground (arith, has_id-deactivate candidate_id turn_id candidates)

active-deactivate :
    (turn_id : Text) (candidates : List TurnCandidate)
    → active_candidates turn_id (deactivate turn_id candidates) ≡ []
unfolding deactivate active_candidates
active-deactivate turn_id [] = refl
active-deactivate turn_id (c ∷ candidates) = ground (arith, active-deactivate turn_id candidates)

active-deactivate_other :
    (turn_id other : Text) (candidates : List TurnCandidate)
    → text_eq turn_id other ≡ false
    → active_candidates other (deactivate turn_id candidates) ≡ active_candidates other candidates
unfolding deactivate active_candidates
active-deactivate_other turn_id other [] e = refl
active-deactivate_other turn_id other (c ∷ candidates) e = ground (
  arith,
  e,
  text_eq_iff c.turn_id turn_id,
  text_eq_iff c.turn_id other,
  text_eq_iff turn_id other,
  active-deactivate_other turn_id other candidates,
)

pub has_id-find :
    (turn_id candidate_id : Text) (candidates : List TurnCandidate) (c : TurnCandidate)
    → find? (is_candidate turn_id candidate_id) candidates ≡ some c
    → has_id candidate_id candidates ≡ true
unfolding find?
has_id-find turn_id candidate_id [] c e = ground (arith, e)
has_id-find turn_id candidate_id (d ∷ candidates) c e =
    ground (arith, e, has_id-find turn_id candidate_id candidates c)

-- Making a candidate of a turn active adds it to the active ones of its turn, when none was.
pub active-make_active :
    (turn_id candidate_id at : Text) (candidates : List TurnCandidate) (c : TurnCandidate)
    → HasUniqueIds candidates
    → active_candidates turn_id candidates ≡ []
    → find? (is_candidate turn_id candidate_id) candidates ≡ some c
    → active_candidates turn_id (update_candidate (make_active at) candidate_id candidates)
      ≡ candidate_id ∷ []
unfolding find? active_candidates update_candidate
active-make_active turn_id candidate_id at [] c unique none_active e = ground (arith, e)
active-make_active turn_id candidate_id at (d ∷ candidates) c unique none_active e =
    elim (Bool-cases (text_eq d.candidate_id candidate_id)) [
      | inl same ↦
          let id = (text_eq_iff d.candidate_id candidate_id).0 same in
          let absent : has_id candidate_id candidates ≡ false =
            subst (λ k. has_id k candidates ≡ false) id unique.0 in
          elim (Bool-cases (text_eq d.turn_id turn_id)) [
            | inr elsewhere ↦
                ground
                  (arith, e, same, elsewhere, absent, has_id-find turn_id candidate_id candidates c)
            | inl here ↦ ground (
              arith,
              same,
              here,
              id,
              none_active,
              update_candidate-absent (make_active at) candidate_id candidates absent,
            )
          ]
      | inr differs ↦ ground (
        arith,
        differs,
        e,
        none_active,
        active-make_active turn_id candidate_id at candidates c unique.1,
      )
    ]

-- It changes no other turn.
pub active-make_active_other :
    (turn_id other candidate_id at : Text) (candidates : List TurnCandidate) (c : TurnCandidate)
    → HasUniqueIds candidates
    → text_eq turn_id other ≡ false
    → find? (is_candidate turn_id candidate_id) candidates ≡ some c
    → active_candidates other (update_candidate (make_active at) candidate_id candidates)
      ≡ active_candidates other candidates
unfolding find? active_candidates update_candidate
active-make_active_other turn_id other candidate_id at [] c unique apart e = refl
active-make_active_other turn_id other candidate_id at (d ∷ candidates) c unique apart e =
    elim (Bool-cases (text_eq d.candidate_id candidate_id)) [
      | inl same ↦
          let id = (text_eq_iff d.candidate_id candidate_id).0 same in
          let absent : has_id candidate_id candidates ≡ false =
            subst (λ k. has_id k candidates ≡ false) id unique.0 in
          elim (Bool-cases (text_eq d.turn_id turn_id)) [
            | inr elsewhere ↦
                ground
                  (arith, e, same, elsewhere, absent, has_id-find turn_id candidate_id candidates c)
            | inl here ↦ ground (
              arith,
              same,
              here,
              id,
              apart,
              text_eq_iff d.turn_id turn_id,
              text_eq_iff d.turn_id other,
              update_candidate-absent (make_active at) candidate_id candidates absent,
            )
          ]
      | inr differs ↦ ground (
        arith,
        differs,
        e,
        active-make_active_other turn_id other candidate_id at candidates c unique.1 apart,
      )
    ]

-- A turn has at most one active candidate.
abbrev pub HasOneActive : List TurnCandidate → Type 0
HasOneActive candidates = (turn_id : Text) → length (active_candidates turn_id candidates) ≤ 1

pub HasUniqueIds-deactivate :
    (turn_id : Text) (candidates : List TurnCandidate)
    → HasUniqueIds candidates
    → HasUniqueIds (deactivate turn_id candidates)
unfolding deactivate
HasUniqueIds-deactivate turn_id [] unique = tt
HasUniqueIds-deactivate turn_id (c ∷ candidates) unique = (
  ground (arith, unique.0, has_id-deactivate c.candidate_id turn_id candidates),
  HasUniqueIds-deactivate turn_id candidates unique.1,
)

has_id-update_candidate :
    (change : TurnCandidate → TurnCandidate) (candidate_id id : Text)
    (candidates : List TurnCandidate)
    → ((c : TurnCandidate) → (change c).candidate_id ≡ c.candidate_id)
    → has_id id (update_candidate change candidate_id candidates) ≡ has_id id candidates
unfolding update_candidate
has_id-update_candidate change candidate_id id [] keeps = refl
has_id-update_candidate change candidate_id id (c ∷ candidates) keeps =
    ground (arith, keeps c, has_id-update_candidate change candidate_id id candidates keeps)

pub HasUniqueIds-update_candidate :
    (change : TurnCandidate → TurnCandidate) (candidate_id : Text) (candidates : List TurnCandidate)
    → ((c : TurnCandidate) → (change c).candidate_id ≡ c.candidate_id)
    → HasUniqueIds candidates
    → HasUniqueIds (update_candidate change candidate_id candidates)
unfolding update_candidate
HasUniqueIds-update_candidate change candidate_id [] keeps unique = tt
HasUniqueIds-update_candidate change candidate_id (c ∷ candidates) keeps unique = (
  ground (
    arith,
    unique.0,
    keeps c,
    has_id-update_candidate change candidate_id c.candidate_id candidates keeps,
  ),
  HasUniqueIds-update_candidate change candidate_id candidates keeps unique.1,
)

find-deactivate :
    (turn_id candidate_id : Text) (candidates : List TurnCandidate) (c : TurnCandidate)
    → find? (is_candidate turn_id candidate_id) candidates ≡ some c
    → (d : TurnCandidate) × (find?
          (is_candidate turn_id candidate_id)
          (deactivate turn_id candidates)
        ≡ some d)
unfolding find? deactivate
find-deactivate turn_id candidate_id [] c e = ground (arith, e)
find-deactivate turn_id candidate_id (d ∷ candidates) c e =
    let kept =
      if text_eq d.turn_id turn_id && is_active d.status
      then record d { status = inactive }
      else d in
    elim (Bool-cases (is_candidate turn_id candidate_id d)) [
      | inl found ↦ (kept, ground (arith, found))
      | inr other ↦
          let later =
            find-deactivate turn_id candidate_id candidates c (ground (arith, e, other)) in
          (later.0, ground (arith, other, later.1))
    ]

-- What is found has the ids that were asked for.
pub find-id :
    (turn_id candidate_id : Text) (candidates : List TurnCandidate) (c : TurnCandidate)
    → find? (is_candidate turn_id candidate_id) candidates ≡ some c
    → c.candidate_id ≡ candidate_id
unfolding find?
find-id turn_id candidate_id [] c e = ground (arith, e)
find-id turn_id candidate_id (d ∷ candidates) c e =
    ground
      (arith, e, text_eq_iff d.candidate_id candidate_id, find-id turn_id candidate_id candidates c)

pub nothing_left : (ids : List Text) → length ids ≤ 0 → ids ≡ []
nothing_left [] h = refl
nothing_left (id ∷ ids) h = absurd (omega (arith, h))

-- The only active candidate of a turn is the one that is found active.
pub active-found :
    (turn_id candidate_id : Text) (candidates : List TurnCandidate) (c : TurnCandidate)
    → find? (is_candidate turn_id candidate_id) candidates ≡ some c
    → is_active c.status ≡ true
    → length (active_candidates turn_id candidates) ≤ 1
    → active_candidates turn_id candidates ≡ candidate_id ∷ []
unfolding find? active_candidates
active-found turn_id candidate_id [] c e on one = ground (arith, e)
active-found turn_id candidate_id (d ∷ candidates) c e on one =
    elim (Bool-cases (is_candidate turn_id candidate_id d)) [
      | inl found ↦
          let same : d ≡ c = ground (arith, e, found) in
          let on' : is_active d.status ≡ true = rw same on in
          ground (
            arith,
            found,
            on',
            text_eq_iff d.candidate_id candidate_id,
            one,
            nothing_left (active_candidates turn_id candidates),
          )
      | inr other ↦
          let rest = active-found turn_id candidate_id candidates c (ground (arith, e, other)) on in
          elim (Bool-cases (text_eq d.turn_id turn_id && is_active d.status)) [
            | inl counted ↦ absurd (ground (arith, one, counted, rest))
            | inr skipped ↦ ground (arith, one, skipped, rest)
          ]
    ]

-- The tables after an activation: the turn's active candidate is the one, the other turns' are what they were.
pub active-activated :
    (turn_id other candidate_id at : Text) (candidates : List TurnCandidate) (c : TurnCandidate)
    → HasUniqueIds candidates
    → find? (is_candidate turn_id candidate_id) candidates ≡ some c
    → active_candidates other
        (update_candidate (make_active at) candidate_id (deactivate turn_id candidates))
      ≡ (if text_eq turn_id other then candidate_id ∷ [] else active_candidates other candidates)
active-activated turn_id other candidate_id at candidates c unique e =
    let unique' = HasUniqueIds-deactivate turn_id candidates unique in
    let found = find-deactivate turn_id candidate_id candidates c e in
    elim (Bool-cases (text_eq turn_id other)) [
      | inl same ↦
          let turn = (text_eq_iff turn_id other).0 same in
          rw (same, sym turn)
            (active-make_active turn_id candidate_id at (deactivate turn_id candidates) found.0
              unique' (active-deactivate turn_id candidates) found.1)
      | inr apart ↦ rw apart (
          active-make_active_other turn_id other candidate_id at (deactivate turn_id candidates)
            found.0 unique' apart found.1
          ∙ active-deactivate_other turn_id other candidates apart)
    ]
