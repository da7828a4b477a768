-- ===== src/History/StateAt.antt =====
-- The fold of stateAt in history/state-history.js: the state that a sequence of rows leaves.
-- A Map is its entries in the order of insertion.
pub mod Latest
use tavern_mnemosyne.Prelude.{
  ℕ, ◌≡◌, refl, Bool, true, false, ◌&&◌, ◌||◌, List, [], ◌∷◌, ◌++◌, Option, none, some,
  if◌then◌else◌, Text, text_eq, text_eq_iff, arith, map, Bool-cases, inl, inr,
}
use tavern_mnemosyne.Contracts.Json.{Json, null, str, arr, nil, cons, canonical_json}
use tavern_mnemosyne.History.Records.{MemoryRow, set_state, unset_state, sort_by}

pub record StateEntry : Type 0 where
  pub entity_ref : Text
  pub state_domain : Option Text
  pub state_key : Option Text
  pub current_value : Json
  pub source_refs : List Text
  pub certainty : Text
  pub valid_from_turn : ℕ

module _ {ℓ} {V : Type ℓ} where
  -- `map.set(k, v)`: a present key keeps its place.
  unfoldable pub map_set : Text → V → List (Text × V) → List (Text × V)
  map_set k v [] = (k, v) ∷ []
  map_set k v ((j, w) ∷ m) = if text_eq j k then (j, v) ∷ m else (j, w) ∷ map_set k v m

  -- `map.delete(k)`
  unfoldable pub map_delete : Text → List (Text × V) → List (Text × V)
  map_delete k [] = []
  map_delete k ((j, w) ∷ m) = if text_eq j k then m else (j, w) ∷ map_delete k m

  -- `map.get(k)`
  unfoldable pub map_get : Text → List (Text × V) → Option V
  map_get k [] = none
  map_get k ((j, w) ∷ m) = if text_eq j k then some w else map_get k m

abbrev text_or_null : Option Text → Json
text_or_null none = null
text_or_null (some s) = str s

unfoldable pub state_key : MemoryRow → Text
state_key row = canonical_json (
    arr (
      cons (str row.entry.entity_ref)
        (cons (text_or_null row.entry.state_domain) (cons (text_or_null row.entry.state_key) nil))))

abbrev parsed_value : Option Json → Json
parsed_value none = null
parsed_value (some v) = v

unfoldable pub entry_of : MemoryRow → StateEntry
entry_of row = record {
  entity_ref = row.entry.entity_ref;
  state_domain = row.entry.state_domain;
  state_key = row.entry.state_key;
  current_value = parsed_value row.entry.state_value_json;
  source_refs = row.entry.source_ref ∷ [];
  certainty = row.entry.support_strength;
  valid_from_turn = row.turn.turn_index;
}

-- One round of the loop over the rows.
unfoldable pub apply_row : List (Text × StateEntry) → MemoryRow → List (Text × StateEntry)
unfolding entry_of
apply_row state row = elim row.entry.state_operation [
  | unset_state ↦ map_delete (state_key row) state
  | set_state ↦ map_set (state_key row) (entry_of row) state
]

unfoldable pub fold_rows : List (Text × StateEntry) → List MemoryRow → List (Text × StateEntry)
fold_rows state [] = state
fold_rows state (row ∷ rows) = fold_rows (apply_row state row) rows

abbrev option_text : Option Text → Text
option_text none = []
option_text (some s) = s

-- `localeCompare`, as "not after", is the host's.
module _ (locale_leb : Text → Text → Bool) where
  unfoldable pub entry_leb : StateEntry → StateEntry → Bool
  entry_leb a b =
      let ties = λ (x y : Text) (rest : Bool).
        if locale_leb x y then (if locale_leb y x then rest else true) else false in
      ties a.entity_ref b.entity_ref (
        ties (option_text a.state_domain) (option_text b.state_domain)
          (locale_leb (option_text a.state_key) (option_text b.state_key)))

  unfoldable pub current_state : List MemoryRow → List StateEntry
  unfolding fold_rows sort_by entry_leb
  current_state rows = sort_by entry_leb (map (λ entry. entry.1) (fold_rows [] rows))
