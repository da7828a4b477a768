-- ===== src/History/Resolver.antt =====
-- resolveBranchSegments of history/active-history-resolver.js.
use tavern_mnemosyne.Prelude.{
  ℕ, zero, suc, ◌+◌, true, false, List, [], ◌∷◌, ◌++◌, Option, none, some, contains, nat_has_eq,
  length, ℤ, negsuc, sub_ℕ, min_ℤ, Result, ok, err, ◌>>=◌,
}
use tavern_mnemosyne.History.Tables.{BranchEpoch, Scope, select_branch_epoch}

pub record Segment : Type 0 where
  pub branch_epoch : ℕ
  pub through_turn_index : ℤ

-- The reason codes of the resolver; `fuel_exhausted` is the model's own, and is never returned.
pub data ResolveError : Type 0 where
  branch_epoch_cycle branch_epoch_not_found fuel_exhausted : ResolveError

-- `parent_cutoff_turn_index_exclusive - 1`, where a null counts as 0.
abbrev pub cutoff_minus_one : Option ℕ → ℤ
cutoff_minus_one none = negsuc 0
cutoff_minus_one (some c) = sub_ℕ c 1

-- `visit`: the segments of the ancestors come first.
unfoldable pub visit :
    ℕ → Scope → List BranchEpoch → List ℕ → ℕ → ℤ → Result ResolveError (List Segment)
visit zero s rows visited epoch through = err fuel_exhausted
visit (suc fuel) s rows visited epoch through = elim (contains visited epoch) [
  | true ↦ err branch_epoch_cycle
  | false ↦ elim (select_branch_epoch s epoch rows) [
    | none ↦ err branch_epoch_not_found
    | some row ↦ elim row.parent_branch_epoch [
      | none ↦ ok (record { branch_epoch = epoch; through_turn_index = through } ∷ [])
      | some parent ↦
          visit fuel s rows (epoch ∷ visited) parent
            (min_ℤ through (cutoff_minus_one row.parent_cutoff_turn_index_exclusive))
          >>= λ segments.
              ok (segments ++ record { branch_epoch = epoch; through_turn_index = through } ∷ [])
    ]
  ]
]

unfoldable pub resolve_branch_segments :
    Scope → List BranchEpoch → ℕ → ℤ → Result ResolveError (List Segment)
unfolding visit
resolve_branch_segments s rows epoch turn_index = visit (length rows + 2) s rows [] epoch turn_index
