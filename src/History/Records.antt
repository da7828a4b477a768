-- ===== src/History/Records.antt =====
-- selectActiveTurnMemoryRows of history/active-history-resolver.js. The joins follow the foreign
-- keys, so each record meets at most one patch, one candidate and one turn.
use tavern_mnemosyne.Prelude.{
  ℕ, Bool, true, false, ◌&&◌, ◌||◌, List, [], ◌∷◌, ◌++◌, Option, none, some, if◌then◌else◌, Text,
  text_eq, nat_eq, ltb, find?, pos, leb_ℤ,
}
use tavern_mnemosyne.Contracts.Json.{Json, text_leb}
use tavern_mnemosyne.History.Tables.{Scope}
use tavern_mnemosyne.History.Resolver.{Segment}

-- `other_status` is any text but 'committed'.
pub data TurnStatus : Type 0 where
  committed other_status : TurnStatus

pub data CandidateStatus : Type 0 where
  active inactive deleted : CandidateStatus

pub data PatchStatus : Type 0 where
  prepared applied rolled_back : PatchStatus

pub data RecordStatus : Type 0 where
  active_record inactive_record : RecordStatus

pub data StateOperation : Type 0 where
  set_state unset_state : StateOperation

pub record Turn : Type 0 where
  pub turn_id : Text
  pub chat_id : Text
  pub turn_index : ℕ
  pub branch_id : Text
  pub branch_epoch : ℕ
  pub status : TurnStatus

pub record TurnCandidate : Type 0 where
  pub candidate_id : Text
  pub turn_id : Text
  pub patch_id : Option Text
  pub status : CandidateStatus
  pub activated_at : Option Text

pub record Patch : Type 0 where
  pub patch_id : Text
  pub status : PatchStatus
  pub applied_at : Option Text
  pub rolled_back_at : Option Text

-- `state_value_json` and `record_payload_json` are kept as the values that their texts stand for.
pub record MemoryRecord : Type 0 where
  pub record_id : Text
  pub patch_id : Text
  pub candidate_id : Text
  pub sequence_index : ℕ
  pub record_kind : Text
  pub entity_ref : Text
  pub state_domain : Option Text
  pub state_key : Option Text
  pub state_value_json : Option Json
  pub state_operation : StateOperation
  pub record_payload_json : Option Json
  pub source_ref : Text
  pub support_strength : Text
  pub status : RecordStatus

pub record MemoryTables : Type 0 where
  pub turns : List Turn
  pub turn_candidates : List TurnCandidate
  pub patches : List Patch
  pub turn_memory_records : List MemoryRecord

-- A row of the query: a record with its turn, its candidate and its patch.
pub record MemoryRow : Type 0 where
  pub turn : Turn
  pub candidate : TurnCandidate
  pub patch : Patch
  pub entry : MemoryRecord

pub data RowOrder : Type 0 where
  ascending descending : RowOrder

abbrev pub is_some {ℓ} : {A : Type ℓ} → Option A → Bool
is_some none = false
is_some (some a) = true

abbrev is_committed : TurnStatus → Bool
is_committed committed = true
is_committed other_status = false

abbrev pub is_active : CandidateStatus → Bool
is_active active = true
is_active _ = false

abbrev is_applied : PatchStatus → Bool
is_applied applied = true
is_applied _ = false

abbrev is_active_record : RecordStatus → Bool
is_active_record active_record = true
is_active_record inactive_record = false

-- The JOIN of one record.
unfoldable pub join_record : MemoryTables → MemoryRecord → Option MemoryRow
unfolding find?
join_record db r = elim (find? (λ p. text_eq p.patch_id r.patch_id) db.patches) [
  | none ↦ none
  | some p ↦ elim (find? (λ c. text_eq c.candidate_id r.candidate_id) db.turn_candidates) [
    | none ↦ none
    | some c ↦ elim (find? (λ t. text_eq t.turn_id c.turn_id) db.turns) [
      | none ↦ none
      | some t ↦ some (record { turn = t; candidate = c; patch = p; entry = r })
    ]
  ]
]

abbrev matches_record_id : Option Text → Text → Bool
matches_record_id none id = true
matches_record_id (some wanted) id = text_eq id wanted

-- The WHERE clause for one segment.
unfoldable pub row_selected : Scope → Segment → Option Text → Bool → MemoryRow → Bool
row_selected s g record_id state_only row =
    text_eq row.turn.chat_id s.chat_id
    && (text_eq row.turn.branch_id s.branch_id
        && (nat_eq row.turn.branch_epoch g.branch_epoch
            && (leb_ℤ (pos row.turn.turn_index) g.through_turn_index
                && (is_committed row.turn.status
                    && (is_active row.candidate.status
                        && (is_applied row.patch.status
                            && (is_active_record row.entry.status
                                && (matches_record_id record_id row.entry.record_id
                                    && (if state_only
                                        then is_some row.entry.state_domain
                                          && is_some row.entry.state_key
                                        else true)))))))))

unfoldable pub select_rows : MemoryTables → (MemoryRow → Bool) → List MemoryRecord → List MemoryRow
unfolding join_record
select_rows db test [] = []
select_rows db test (r ∷ records) = elim (join_record db r) [
  | none ↦ select_rows db test records
  | some row ↦ (if test row then row ∷ [] else []) ++ select_rows db test records
]

-- `ORDER BY turn_index …, sequence_index ASC, record_id ASC`
unfoldable pub row_leb : RowOrder → MemoryRow → MemoryRow → Bool
unfolding text_leb
row_leb order a b =
    let within =
      ltb a.entry.sequence_index b.entry.sequence_index
      || (nat_eq a.entry.sequence_index b.entry.sequence_index
          && text_leb a.entry.record_id b.entry.record_id) in
    elim order [
      | ascending ↦
          ltb a.turn.turn_index b.turn.turn_index
          || (nat_eq a.turn.turn_index b.turn.turn_index && within)
      | descending ↦
          ltb b.turn.turn_index a.turn.turn_index
          || (nat_eq a.turn.turn_index b.turn.turn_index && within)
    ]

unfoldable pub insert_by {ℓ} : {A : Type ℓ} → (A → A → Bool) → A → List A → List A
insert_by leb x [] = x ∷ []
insert_by leb x (y ∷ ys) = if leb x y then x ∷ y ∷ ys else y ∷ insert_by leb x ys

-- A stable sort.
unfoldable pub sort_by {ℓ} : {A : Type ℓ} → (A → A → Bool) → List A → List A
unfolding insert_by
sort_by leb [] = []
sort_by leb (x ∷ xs) = insert_by leb x (sort_by leb xs)

unfoldable pub select_active_turn_memory_rows :
    MemoryTables → Scope → List Segment → Option Text → Bool → RowOrder → List MemoryRow
unfolding row_selected select_rows row_leb sort_by
select_active_turn_memory_rows db s [] record_id state_only order = []
select_active_turn_memory_rows db s (g ∷ segments) record_id state_only order =
    sort_by (row_leb order)
      (select_rows db (row_selected s g record_id state_only) db.turn_memory_records)
    ++ select_active_turn_memory_rows db s segments record_id state_only order
