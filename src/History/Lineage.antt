-- ===== src/History/Lineage.antt =====
-- The resolver ends on every table, and finds the lineage of every epoch of a well-formed branch.
use tavern_mnemosyne.Prelude.{
  ℕ, zero, suc, ◌+◌, ◌≡◌, refl, ◌≤◌, ◌<◌, ◌≢◌, inl, inr, true, false, List, [], ◌∷◌, ◌++◌, none,
  if◌then◌else◌, arith, contains, nat_has_eq, length, ℤ, min_ℤ, ok, err, Option-cases,
}
use tavern_mnemosyne.History.Tables.{BranchEpoch, Scope, select_branch_epoch, at_epoch}
use tavern_mnemosyne.History.Resolver.{
  Segment, fuel_exhausted, cutoff_minus_one, visit, resolve_branch_segments,
}
use tavern_mnemosyne.History.Branches.Invariant.{IsWellFormed}

-- How many rows hold an epoch that was not visited.
unvisited : List ℕ → List BranchEpoch → ℕ
unvisited visited [] = 0
unvisited visited (r ∷ rows) =
    (if contains visited r.branch_epoch then 0 else 1) + unvisited visited rows

unvisited-le : (visited : List ℕ) (rows : List BranchEpoch) → unvisited visited rows ≤ length rows
unfolding unvisited
unvisited-le visited [] = omega arith
unvisited-le visited (r ∷ rows) = ground (arith, unvisited-le visited rows)

unvisited_mono :
    (e : ℕ) (visited : List ℕ) (rows : List BranchEpoch)
    → unvisited (e ∷ visited) rows ≤ unvisited visited rows
unfolding unvisited contains
unvisited_mono e visited [] = omega arith
unvisited_mono e visited (r ∷ rows) = ground (arith, unvisited_mono e visited rows)

-- A visit uses up the row that it finds.
unvisited-lt :
    (s : Scope) (e : ℕ) (visited : List ℕ) (rows : List BranchEpoch)
    → contains visited e ≡ false
    → select_branch_epoch s e rows ≢ none
    → unvisited (e ∷ visited) rows < unvisited visited rows
unfolding unvisited contains select_branch_epoch at_epoch
unvisited-lt s e visited [] new found = absurd (found refl)
unvisited-lt s e visited (r ∷ rows) new found =
    ground (arith, unvisited_mono e visited rows, unvisited-lt s e visited rows new)

visit_ends :
    (fuel : ℕ) (s : Scope) (rows : List BranchEpoch) (visited : List ℕ) (e : ℕ) (through : ℤ)
    → unvisited visited rows < fuel
    → visit fuel s rows visited e through ≢ err fuel_exhausted
unfolding visit
visit_ends zero s rows visited e through enough = absurd (omega arith)
visit_ends (suc fuel) s rows visited e through enough =
    elim (Option-cases (select_branch_epoch s e rows)) [
      | inl absent ↦ ground arith
      | inr (r, found) ↦ elim (Option-cases r.parent_branch_epoch) [
        | inl root ↦ ground arith
        | inr (p, born) ↦ ground (
          arith,
          unvisited-lt s e visited rows,
          visit_ends fuel s rows (e ∷ visited) p
              (min_ℤ through (cutoff_minus_one r.parent_cutoff_turn_index_exclusive)),
        )
      ]
    ]

-- On every table the search ends: with a lineage, or with one of the two refusals of the code.
pub resolve_ends :
    (s : Scope) (rows : List BranchEpoch) (e : ℕ) (turn_index : ℤ)
    → resolve_branch_segments s rows e turn_index ≢ err fuel_exhausted
unfolding resolve_branch_segments
resolve_ends s rows e turn_index =
    visit_ends (length rows + 2) s rows [] e turn_index (omega (arith, unvisited-le [] rows))

module _ (s : Scope) (rows : List BranchEpoch) (w : IsWellFormed s rows) where
  visit_ok :
      (fuel : ℕ) (visited : List ℕ) (e : ℕ) (through : ℤ)
      → unvisited visited rows < fuel
      → select_branch_epoch s e rows ≢ none
      → ((x : ℕ) → contains visited x ≡ true → e < x)
      → (segments : List Segment) × (visit fuel s rows visited e through ≡ ok segments)
  unfolding visit
  visit_ok zero visited e through enough there above = absurd (omega arith)
  visit_ok (suc fuel) visited e through enough there above =
      elim (Option-cases (select_branch_epoch s e rows)) [
        | inl absent ↦ absurd (there absent)
        | inr (r, found) ↦ elim (Option-cases r.parent_branch_epoch) [
          | inl root ↦ (
            record { branch_epoch = e; through_turn_index = through } ∷ [],
            ground (arith, above e),
          )
          | inr (p, born) ↦
              let (before, there') = w.ancestry e p r found born in
              let (segments, seen) =
                visit_ok fuel (e ∷ visited) p
                  (min_ℤ through (cutoff_minus_one r.parent_cutoff_turn_index_exclusive))
                  (ground (arith, unvisited-lt s e visited rows, above e)) there'
                  (λ x h. unfold contains in ground (arith, above x)) in
              (
                segments ++ record { branch_epoch = e; through_turn_index = through } ∷ [],
                ground (arith, above e, seen),
              )
        ]
      ]

  -- In a well-formed branch every epoch with a row has a lineage: no cycle, and no missing parent.
  pub resolve_ok :
      (e : ℕ) (turn_index : ℤ)
      → select_branch_epoch s e rows ≢ none
      → (segments : List Segment) × (resolve_branch_segments s rows e turn_index ≡ ok segments)
  unfolding resolve_branch_segments
  resolve_ok e turn_index there =
      visit_ok (length rows + 2) [] e turn_index (omega (arith, unvisited-le [] rows)) there
        (λ x h. unfold contains in absurd (ground arith))
