-- ===== src/History/Visibility.antt =====
-- Which turns the resolved segments cover: those inherited through the cutoffs.
use tavern_mnemosyne.Prelude.{
  ℕ, zero, suc, ◌+◌, ◌≡◌, refl, ◌≢◌, inl, inr, true, false, List, [], ◌∷◌, ◌++◌, none, some, arith,
  nat_has_eq, length, ℤ, ◌≤ℤ◌, leb_ℤ, min_ℤ, ok, Option-cases, Bool, Bool-cases, Result-cases,
  nat_eq, pos, ◌&&◌, ◌||◌, ◌↔◌,
}
use tavern_mnemosyne.History.Tables.{BranchEpoch, Scope, select_branch_epoch}
use tavern_mnemosyne.History.Resolver.{Segment, cutoff_minus_one, visit, resolve_branch_segments}

-- Turn `index` of epoch `origin` is inherited by an epoch through parents, before every cutoff.
pub data Inherits (s : Scope) (rows : List BranchEpoch) (origin index : ℕ) : ℕ → Type 0 where
  own : {e : ℕ} → e ≡ origin → Inherits s rows origin index e
  inherited :
      {e : ℕ} (p : ℕ) (r : BranchEpoch)
      → select_branch_epoch s e rows ≡ some r
      → r.parent_branch_epoch ≡ some p
      → pos index ≤ℤ cutoff_minus_one r.parent_cutoff_turn_index_exclusive
      → Inherits s rows origin index p
      → Inherits s rows origin index e

-- `turns.branch_epoch = ? AND turns.turn_index <= ?` for some segment.
unfoldable pub covers : List Segment → ℕ → ℕ → Bool
covers [] origin index = false
covers (g ∷ segments) origin index =
    (nat_eq g.branch_epoch origin && leb_ℤ (pos index) g.through_turn_index)
    || covers segments origin index

covers-append :
    (xs ys : List Segment) (origin index : ℕ)
    → covers (xs ++ ys) origin index ≡ covers xs origin index || covers ys origin index
unfolding covers
covers-append [] ys origin index = refl
covers-append (g ∷ xs) ys origin index = ground (arith, covers-append xs ys origin index)

-- What `visit` makes of one epoch with a parent.
visit_parent :
    (fuel : ℕ) (s : Scope) (rows : List BranchEpoch) (visited : List ℕ) (e p : ℕ) (through : ℤ)
    (r : BranchEpoch) (segments : List Segment)
    → select_branch_epoch s e rows ≡ some r
    → r.parent_branch_epoch ≡ some p
    → visit (suc fuel) s rows visited e through ≡ ok segments
    → (before : List Segment) × (visit fuel s rows
          (e ∷ visited)
          p
          (min_ℤ through (cutoff_minus_one r.parent_cutoff_turn_index_exclusive))
        ≡ ok before)
      × (segments ≡ before ++ record { branch_epoch = e; through_turn_index = through } ∷ [])
unfolding visit
visit_parent fuel s rows visited e p through r segments found born h =
    elim (Result-cases (
      visit fuel s rows (e ∷ visited) p
        (min_ℤ through (cutoff_minus_one r.parent_cutoff_turn_index_exclusive)))) [
          | inl (before, seen) ↦ (before, seen, ground (arith, seen))
          | inr (x, failed) ↦ absurd (ground (arith, failed))
        ]

visit_root :
    (fuel : ℕ) (s : Scope) (rows : List BranchEpoch) (visited : List ℕ) (e : ℕ) (through : ℤ)
    (r : BranchEpoch) (segments : List Segment)
    → select_branch_epoch s e rows ≡ some r
    → r.parent_branch_epoch ≡ none
    → visit (suc fuel) s rows visited e through ≡ ok segments
    → segments ≡ record { branch_epoch = e; through_turn_index = through } ∷ []
unfolding visit
visit_root fuel s rows visited e through r segments found root h = ground arith

visit_found :
    (fuel : ℕ) (s : Scope) (rows : List BranchEpoch) (visited : List ℕ) (e : ℕ) (through : ℤ)
    (segments : List Segment)
    → visit fuel s rows visited e through ≡ ok segments
    → select_branch_epoch s e rows ≢ none
unfolding visit
visit_found zero s rows visited e through segments h = absurd (ground arith)
visit_found (suc fuel) s rows visited e through segments h = ground arith

min_ℤ_bounds : (x a b : ℤ) → x ≤ℤ min_ℤ a b → (x ≤ℤ a) × (x ≤ℤ b)
min_ℤ_bounds x a b h = ground arith

min_ℤ_greatest : (x a b : ℤ) → x ≤ℤ a → x ≤ℤ b → x ≤ℤ min_ℤ a b
min_ℤ_greatest x a b h k = ground arith

module _ (s : Scope) (rows : List BranchEpoch) (origin index : ℕ) where
  covers_sound :
      (fuel : ℕ) (visited : List ℕ) (e : ℕ) (through : ℤ) (segments : List Segment)
      → visit fuel s rows visited e through ≡ ok segments
      → covers segments origin index ≡ true
      → (pos index ≤ℤ through) × Inherits s rows origin index e
  unfolding covers
  covers_sound zero visited e through segments h c = absurd (unfold visit in ground arith)
  covers_sound (suc fuel) visited e through segments h c =
      elim (Option-cases (select_branch_epoch s e rows)) [
        | inl absent ↦ absurd (visit_found (suc fuel) s rows visited e through segments h absent)
        | inr (r, found) ↦ elim (Option-cases r.parent_branch_epoch) [
          | inl root ↦
              let only = visit_root fuel s rows visited e through r segments found root h in
              (ground (arith, only), own (ground (arith, only)))
          | inr (p, born) ↦
              let cutoff = cutoff_minus_one r.parent_cutoff_turn_index_exclusive in
              let (before, seen, parts) =
                visit_parent fuel s rows visited e p through r segments found born h in
              elim (Bool-cases (covers before origin index)) [
                | inl there ↦
                    let (below, up) =
                      covers_sound fuel (e ∷ visited) p (min_ℤ through cutoff) before seen there in
                    let (le, le') = min_ℤ_bounds (pos index) through cutoff below in
                    (le, inherited p r found born le' up)
                | inr not_there ↦
                    let last =
                      covers-append before
                        (record { branch_epoch = e; through_turn_index = through } ∷ []) origin
                        index in
                    (ground (arith, parts, last), own (ground (arith, parts, last)))
              ]
        ]
      ]

  covers_last :
      (fuel : ℕ) (visited : List ℕ) (e : ℕ) (through : ℤ) (segments : List Segment)
      → visit fuel s rows visited e through ≡ ok segments
      → e ≡ origin
      → pos index ≤ℤ through
      → covers segments origin index ≡ true
  unfolding covers
  covers_last zero visited e through segments h o le = absurd (unfold visit in ground arith)
  covers_last (suc fuel) visited e through segments h o le =
      elim (Option-cases (select_branch_epoch s e rows)) [
        | inl absent ↦ absurd (visit_found (suc fuel) s rows visited e through segments h absent)
        | inr (r, found) ↦ elim (Option-cases r.parent_branch_epoch) [
          | inl root ↦
              ground (arith, visit_root fuel s rows visited e through r segments found root h)
          | inr (p, born) ↦
              let (before, seen, parts) =
                visit_parent fuel s rows visited e p through r segments found born h in
              ground (
                arith,
                parts,
                covers-append before
                    (record { branch_epoch = e; through_turn_index = through } ∷ []) origin index,
              )
        ]
      ]

  covers_complete :
      (fuel : ℕ) (visited : List ℕ) (e : ℕ) (through : ℤ) (segments : List Segment)
      → visit fuel s rows visited e through ≡ ok segments
      → Inherits s rows origin index e
      → pos index ≤ℤ through
      → covers segments origin index ≡ true
  covers_complete zero visited e through segments h i le = absurd (unfold visit in ground arith)
  covers_complete (suc fuel) visited e through segments h (own o) le =
      covers_last (suc fuel) visited e through segments h o le
  covers_complete (suc fuel) visited e through segments h (inherited p r found born below i) le =
      let cutoff = cutoff_minus_one r.parent_cutoff_turn_index_exclusive in
      let (before, seen, parts) =
        visit_parent fuel s rows visited e p through r segments found born h in
      let there =
        covers_complete fuel (e ∷ visited) p (min_ℤ through cutoff) before seen i
          (min_ℤ_greatest (pos index) through cutoff le below) in
      ground (
        arith,
        parts,
        there,
        covers-append before (record { branch_epoch = e; through_turn_index = through } ∷ []) origin
            index,
      )

  -- When an epoch resolves, a turn is in one of its segments exactly when it is not past the requested
  -- turn and is inherited through every cutoff on the way.
  pub resolve-Inherits :
      (e : ℕ) (turn_index : ℤ) (segments : List Segment)
      → resolve_branch_segments s rows e turn_index ≡ ok segments
      → (covers segments origin index ≡ true)
        ↔ ((pos index ≤ℤ turn_index) × Inherits s rows origin index e)
  unfolding resolve_branch_segments
  resolve-Inherits e turn_index segments h = (
    covers_sound (length rows + 2) [] e turn_index segments h,
    λ i. covers_complete (length rows + 2) [] e turn_index segments h i.1 i.0,
  )
