-- ===== src/History/Branches/Inherit.antt =====
-- What a new epoch sees: the lineage of the epoch that it was made from, up to the cutoff.
use tavern_mnemosyne.Prelude.{
  ℕ, zero, suc, ◌+◌, ◌≡◌, refl, ◌≤◌, inl, inr, true, List, [], ◌∷◌, ◌++◌, none, some, nat_eq, arith,
  contains, nat_has_eq, length, length-append, ℤ, min_ℤ, ok, ◌>>=◌, Option-cases, Bool-cases,
}
use tavern_mnemosyne.History.Tables.{
  BranchEpoch, Scope, in_scope, at_epoch, historical, mark_historical, select_branch_epoch,
}
use tavern_mnemosyne.History.Resolver.{cutoff_minus_one, visit, resolve_branch_segments}
use tavern_mnemosyne.History.Branches.Selects.{select-replace}
use tavern_mnemosyne.History.Branches.Invariant.{IsWellFormed}

length-mark :
    (s : Scope) (x : ℕ) (rows : List BranchEpoch) → length (mark_historical s x rows) ≡ length rows
unfolding mark_historical
length-mark s x [] = refl
length-mark s x (r ∷ rows) = omega (arith, length-mark s x rows)

module _ (s : Scope) (rows : List BranchEpoch) (row : BranchEpoch) (a : ℕ) (w : IsWellFormed s rows)
    (here : in_scope s row ≡ true) (next : row.branch_epoch ≡ a + 1) where
  abbrev replaced : List BranchEpoch
  replaced = mark_historical s a rows ++ row ∷ []

  -- At and below the retired epoch the links are as before.
  links_below :
      (e : ℕ) (r : BranchEpoch)
      → e ≤ a
      → select_branch_epoch s e rows ≡ some r
      → (q : BranchEpoch) × (select_branch_epoch s e replaced ≡ some q)
        × (q.parent_branch_epoch ≡ r.parent_branch_epoch)
        × (q.parent_cutoff_turn_index_exclusive ≡ r.parent_cutoff_turn_index_exclusive)
  links_below e r le found = elim (Bool-cases (nat_eq e a)) [
    | inl at_a ↦ (
      record r { status = historical },
      ground (arith, select-replace s a e rows row),
      refl,
      refl,
    )
    | inr below ↦ (r, ground (arith, select-replace s a e rows row), refl, refl)
  ]

  none_below :
      (e : ℕ)
      → e ≤ a
      → select_branch_epoch s e rows ≡ none
      → select_branch_epoch s e replaced ≡ none
  unfolding at_epoch
  none_below e le absent = ground (arith, select-replace s a e rows row)

  visit-replaced :
      (fuel : ℕ) (visited visited' : List ℕ) (e : ℕ) (through : ℤ)
      → e ≤ a
      → ((x : ℕ) → x ≤ a → contains visited' x ≡ contains visited x)
      → visit fuel s replaced visited' e through ≡ visit fuel s rows visited e through
  unfolding visit
  visit-replaced zero visited visited' e through le agree = refl
  visit-replaced (suc fuel) visited visited' e through le agree =
      elim (Option-cases (select_branch_epoch s e rows)) [
        | inl absent ↦ ground (arith, agree e le, none_below e le absent)
        | inr (r, found) ↦
            let (q, found', parent, cutoff) = links_below e r le found in
            elim (Option-cases r.parent_branch_epoch) [
              | inl root ↦ ground (arith, agree e le, found', parent)
              | inr (p, born) ↦
                  let (before, _) = w.ancestry e p r found born in
                  let same =
                    visit-replaced fuel (e ∷ visited) (e ∷ visited') p
                      (min_ℤ through (cutoff_minus_one r.parent_cutoff_turn_index_exclusive))
                      (omega arith) (λ x h. unfold contains in ground (arith, agree x h)) in
                  ground (arith, agree e le, found', parent, cutoff, same)
            ]
      ]

  new_found :
      select_branch_epoch s (a + 1) rows ≡ none → select_branch_epoch s (a + 1) replaced ≡ some row
  unfolding at_epoch
  new_found absent = ground (arith, select-replace s a (a + 1) rows row)

  pub resolve_replaced :
      (p : ℕ) (turn_index cut : ℤ)
      → p ≤ a
      → row.parent_branch_epoch ≡ some p
      → cutoff_minus_one row.parent_cutoff_turn_index_exclusive ≡ cut
      → select_branch_epoch s (a + 1) rows ≡ none
      → resolve_branch_segments s replaced (a + 1) turn_index ≡ (
          resolve_branch_segments s rows p (min_ℤ turn_index cut) >>= λ segments.
          ok (segments ++ record { branch_epoch = a + 1; through_turn_index = turn_index } ∷ []))
  unfolding resolve_branch_segments
  resolve_replaced p turn_index cut le born cuts absent = rw (← cuts) (
      ground (
        arith,
        fuel_replaced,
        visit_new,
        new_found absent,
        visit-replaced (length rows + 2) [] ((a + 1) ∷ []) p
            (min_ℤ turn_index (cutoff_minus_one row.parent_cutoff_turn_index_exclusive)) le
            (λ x h. unfold contains in ground arith),
      ))
    where
      fuel_replaced : length replaced + 2 ≡ suc (length rows + 2)
      fuel_replaced =
          omega (arith, length-append (mark_historical s a rows) (row ∷ []), length-mark s a rows)

      visit_new : visit (suc (length rows + 2)) s replaced [] (a + 1) turn_index ≡ (
          visit
            (length rows + 2)
            s
            replaced
            ((a + 1) ∷ [])
            p
            (min_ℤ turn_index (cutoff_minus_one row.parent_cutoff_turn_index_exclusive))
          >>= λ segments.
              ok
                (segments ++ record { branch_epoch = a + 1; through_turn_index = turn_index } ∷ []))
      visit_new = unfold visit contains in ground (arith, new_found absent)
