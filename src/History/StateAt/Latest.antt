-- ===== src/History/StateAt/Latest.antt =====
-- The fold keeps, for each key, what the latest operation on it says.
use tavern_mnemosyne.Prelude.{
  ◌≡◌, refl, List, [], ◌∷◌, Option, none, some, if◌then◌else◌, Text, text_eq, text_eq_iff, arith,
  Bool-cases, inl, inr,
}
use tavern_mnemosyne.History.Records.{MemoryRow, set_state, unset_state}
use tavern_mnemosyne.History.StateAt.{
  StateEntry, map_set, map_delete, map_get, state_key, entry_of, apply_row, fold_rows,
}

module _ {ℓ} {V : Type ℓ} where
  pub map_get-set :
      (k j : Text) (v : V) (m : List (Text × V))
      → map_get j (map_set k v m) ≡ (if text_eq k j then some v else map_get j m)
  unfolding map_get map_set
  map_get-set k j v [] = refl
  map_get-set k j v ((i, w) ∷ m) =
      ground (arith, text_eq_iff k j, text_eq_iff i k, text_eq_iff i j, map_get-set k j v m)

  -- No key has two entries.
  abbrev pub UniqueKeys : List (Text × V) → Type ℓ
  UniqueKeys [] = Unit
  UniqueKeys ((j, w) ∷ m) = (map_get j m ≡ none) × UniqueKeys m

  map_get-delete :
      (k j : Text) (m : List (Text × V))
      → UniqueKeys m
      → map_get j (map_delete k m) ≡ (if text_eq k j then none else map_get j m)
  unfolding map_get map_delete
  map_get-delete k j [] u = ground arith
  map_get-delete k j ((i, w) ∷ m) u =
      ground (arith, text_eq_iff k j, text_eq_iff i k, text_eq_iff i j, map_get-delete k j m u.1)

  pub map_set-UniqueKeys :
      (k : Text) (v : V) (m : List (Text × V)) → UniqueKeys m → UniqueKeys (map_set k v m)
  unfolding map_get map_set
  map_set-UniqueKeys k v [] u = (refl, tt)
  map_set-UniqueKeys k v ((i, w) ∷ m) u = elim (Bool-cases (text_eq i k)) [
    | inl same ↦ rw same (u.0, u.1)
    | inr other ↦ rw other (
      ground (arith, text_eq_iff i k, text_eq_iff k i, map_get-set k i v m),
      map_set-UniqueKeys k v m u.1,
    )
  ]

  map_delete-UniqueKeys :
      (k : Text) (m : List (Text × V)) → UniqueKeys m → UniqueKeys (map_delete k m)
  unfolding map_get map_delete
  map_delete-UniqueKeys k [] u = tt
  map_delete-UniqueKeys k ((i, w) ∷ m) u = elim (Bool-cases (text_eq i k)) [
    | inl same ↦ rw same u.1
    | inr other ↦ rw other (
      ground (arith, text_eq_iff i k, text_eq_iff k i, map_get-delete k i m u.1),
      map_delete-UniqueKeys k m u.1,
    )
  ]

apply_row-UniqueKeys :
    (state : List (Text × StateEntry)) (row : MemoryRow)
    → UniqueKeys state
    → UniqueKeys (apply_row state row)
unfolding apply_row
apply_row-UniqueKeys state row u =
    elim row.entry.state_operation
      as (λ o. UniqueKeys (elim o [
        | unset_state ↦ map_delete (state_key row) state
        | set_state ↦ map_set (state_key row) (entry_of row) state
      ])) [
        | set_state ↦ map_set-UniqueKeys (state_key row) (entry_of row) state u
        | unset_state ↦ map_delete-UniqueKeys (state_key row) state u
      ]

-- The last row on a key.
unfoldable pub latest : Text → List MemoryRow → Option MemoryRow
latest k [] = none
latest k (row ∷ rows) = elim (latest k rows) [
  | some later ↦ some later
  | none ↦ if text_eq (state_key row) k then some row else none
]

-- What an operation leaves under its key.
unfoldable pub left_by : MemoryRow → Option StateEntry
left_by row = elim row.entry.state_operation [
  | unset_state ↦ none
  | set_state ↦ some (entry_of row)
]

map_get-apply :
    (k : Text) (state : List (Text × StateEntry)) (row : MemoryRow)
    → UniqueKeys state
    → map_get k (apply_row state row)
      ≡ (if text_eq (state_key row) k then left_by row else map_get k state)
unfolding apply_row left_by
map_get-apply k state row u = ground (
  arith,
  map_get-set (state_key row) k (entry_of row) state,
  map_get-delete (state_key row) k state u,
)

abbrev pub or_before : Option StateEntry → Option MemoryRow → Option StateEntry
or_before before none = before
or_before before (some row) = left_by row

-- From a state with one entry for a key, after any rows a key holds what its latest row leaves, and
-- without one what it held before.
pub map_get-fold_rows :
    (k : Text) (state : List (Text × StateEntry)) (rows : List MemoryRow)
    → UniqueKeys state
    → map_get k (fold_rows state rows) ≡ or_before (map_get k state) (latest k rows)
unfolding fold_rows latest
map_get-fold_rows k state [] u = refl
map_get-fold_rows k state (row ∷ rows) u = ground (
  arith,
  map_get-fold_rows k (apply_row state row) rows (apply_row-UniqueKeys state row u),
  map_get-apply k state row u,
)
