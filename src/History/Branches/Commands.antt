-- ===== src/History/Branches/Commands.antt =====
-- The commands on branches as a whole: when they succeed, what the new epoch sees, and retries.
use tavern_mnemosyne.Prelude.{
  ℕ, ◌+◌, ◌≡◌, refl, ◌≢◌, inl, inr, true, false, List, [], ◌∷◌, ◌++◌, none, some, Text, arith, pos,
  ℤ, min_ℤ, sub_ℕ, ok, ◌>>=◌, Option-cases, text_eq_refl, ◌≤◌,
}
use tavern_mnemosyne.Contracts.Json.{Json, canonical_json}
use tavern_mnemosyne.Contracts.Identity.{is_safe_id}
use tavern_mnemosyne.History.Tables.{
  BranchEpoch, HistoryEvent, Scope, find_event, has_event_id, select_branch_epoch,
  active_branch_epoch,
}
use tavern_mnemosyne.History.Resolver.{cutoff_minus_one, resolve_branch_segments}
use tavern_mnemosyne.History.Branches.{
  truncate_branch, restore_branch, truncate_event_row, event_id,
}
use tavern_mnemosyne.History.BranchRows.{
  BranchLedger, TruncateCommand, RestoreCommand, current_or_root, truncated_epoch, restored_epoch,
  truncate_payload, truncate_result, identities_valid, resolve_committed_at, as_existing,
}
use tavern_mnemosyne.History.Branches.Selects.{select-mark}
use tavern_mnemosyne.History.Branches.Invariant.{IsWellFormed}
use tavern_mnemosyne.History.Branches.Outcome.{
  stamp, truncate_scope, restore_scope, truncate_done, restore_done,
}
use tavern_mnemosyne.History.Branches.Preserve.{row_in_scope, restorable_found}
use tavern_mnemosyne.History.Branches.Inherit.{resolve_replaced}

-- Above the active epoch there is no row.
above_active :
    (s : Scope) (rows : List BranchEpoch) (a : ℕ)
    → IsWellFormed s rows
    → active_branch_epoch s rows ≡ some a
    → select_branch_epoch s (a + 1) rows ≡ none
above_active s rows a w live = elim (Option-cases (select_branch_epoch s (a + 1) rows)) [
  | inl absent ↦ absent
  | inr (r, there) ↦ absurd (omega (arith, w.top a (a + 1) r live there))
]

current_kept :
    (s : Scope) (e : ℕ) (at : Text) (rows : List BranchEpoch)
    → active_branch_epoch s rows ≡ some e
    → current_or_root s e at rows ≡ (some e, rows)
unfolding current_or_root
current_kept s e at rows live = ground arith

find_event-append :
    (id : Text) (events : List HistoryEvent) (v : HistoryEvent)
    → find_event id events ≡ none
    → v.command_id ≡ id
    → find_event id (events ++ v ∷ []) ≡ some v
unfolding find_event
find_event-append id [] v absent same = ground (arith, text_eq_refl id)
find_event-append id (u ∷ events) v absent same = ground (arith, find_event-append id events v)

below_active :
    (s : Scope) (rows : List BranchEpoch) (a : ℕ)
    → IsWellFormed s rows
    → active_branch_epoch s rows ≡ some a
    → (e : ℕ) → select_branch_epoch s e rows ≢ none
    → e ≤ a
below_active s rows a w live e there = elim (Option-cases (select_branch_epoch s e rows)) [
  | inl absent ↦ absurd (there absent)
  | inr (r, found) ↦ w.top a e r live found
]

identities_valid_other :
    (chat_id command_id branch_id other reason_code : Text)
    → identities_valid chat_id command_id branch_id reason_code ≡ true
    → is_safe_id other ≡ true
    → identities_valid chat_id command_id other reason_code ≡ true
unfolding identities_valid
identities_valid_other chat_id command_id branch_id other reason_code h k = ground arith

cutoff_above : (n : ℕ) → cutoff_minus_one (some (n + 1)) ≡ pos n
cutoff_above n = ground arith

module _ (sha256 : Text → Text) (now : Text) where
  -- A command whose event is recorded with its own payload is answered from the record.
  truncate_replay :
      (c : TruncateCommand) (db : BranchLedger) (event : HistoryEvent) (at : Text)
      → find_event c.command_id db.history_events ≡ some event
      → identities_valid c.chat_id c.command_id c.branch_id c.reason_code ≡ true
      → resolve_committed_at c.created_at now ≡ ok at
      → event.payload_json ≡ canonical_json (truncate_payload c)
      → truncate_branch sha256 now c db ≡ (ok (as_existing event.result_json), db)
  unfolding truncate_branch
  truncate_replay c db event at there valid stamped same =
      ground (arith, text_eq_refl (canonical_json (truncate_payload c)))

  -- A command that was done has valid identities, and a time stamp at any later clock.
  truncate_valid :
      (c : TruncateCommand) (db : BranchLedger) (j : Json) (later : Text)
      → (truncate_branch sha256 now c db).0 ≡ ok j
      → (identities_valid c.chat_id c.command_id c.branch_id c.reason_code ≡ true)
        × (resolve_committed_at c.created_at later ≡ ok (stamp c.created_at later))
  unfolding truncate_branch
  truncate_valid c db j later done = ground arith

module _ (sha256 : Text → Text) (now : Text) where
  -- After a truncation of a well-formed branch's active epoch, under a fresh command id, the new epoch
  -- resolves to the segments of the retired epoch up to the turn before the cutoff, then its own.
  pub truncate-resolve :
      (c : TruncateCommand) (db : BranchLedger) (j : Json) (turn_index : ℤ)
      → IsWellFormed (truncate_scope c) db.branch_epochs
      → active_branch_epoch (truncate_scope c) db.branch_epochs ≡ some c.expected_branch_epoch
      → find_event c.command_id db.history_events ≡ none
      → (truncate_branch sha256 now c db).0 ≡ ok j
      → resolve_branch_segments
          (truncate_scope c)
          (truncate_branch sha256 now c db).1.branch_epochs
          (c.expected_branch_epoch + 1)
          turn_index
        ≡ (resolve_branch_segments
              (truncate_scope c)
              db.branch_epochs
              c.expected_branch_epoch
              (min_ℤ turn_index (sub_ℕ c.cutoff_turn_index 1))
            >>= λ segments. ok (
                segments
                ++ record {
                  branch_epoch = c.expected_branch_epoch + 1;
                  through_turn_index = turn_index;
                }
                  ∷ []))
  unfolding truncated_epoch
  truncate-resolve c db j turn_index w live fresh done =
      let s = truncate_scope c in
      let e = c.expected_branch_epoch in
      let (_, _, rows', _) = truncate_done sha256 now c db j fresh done in
      let kept = current_kept s e (stamp c.created_at now) db.branch_epochs live in
      rw (rows', kept)
        (resolve_replaced s db.branch_epochs _ e w (row_in_scope s _ refl refl) refl e turn_index _
          (omega arith) refl refl (above_active s db.branch_epochs e w live))

  -- After a restoration in a well-formed branch, under a fresh command id, the new epoch resolves to the
  -- segments of the source epoch through the requested turn, then its own.
  pub restore-resolve :
      (c : RestoreCommand) (db : BranchLedger) (j : Json) (turn_index : ℤ)
      → IsWellFormed (restore_scope c) db.branch_epochs
      → find_event c.command_id db.history_events ≡ none
      → (restore_branch sha256 now c db).0 ≡ ok j
      → resolve_branch_segments
          (restore_scope c)
          (restore_branch sha256 now c db).1.branch_epochs
          (c.expected_branch_epoch + 1)
          turn_index
        ≡ (resolve_branch_segments
              (restore_scope c)
              db.branch_epochs
              c.source_branch_epoch
              (min_ℤ turn_index (pos c.through_turn_index))
            >>= λ segments. ok (
                segments
                ++ record {
                  branch_epoch = c.expected_branch_epoch + 1;
                  through_turn_index = turn_index;
                }
                  ∷ []))
  unfolding restored_epoch
  restore-resolve c db j turn_index w fresh done =
      let s = restore_scope c in
      let e = c.expected_branch_epoch in
      let (_, live, source, rows', _) = restore_done sha256 now c db j fresh done in
      let there = restorable_found c.through_turn_index _ source in
      rw rows' (
        resolve_replaced s db.branch_epochs _ e w (row_in_scope s _ refl refl) refl
          c.source_branch_epoch turn_index _ (below_active s db.branch_epochs e w live _ there) refl
          (cutoff_above c.through_turn_index) (above_active s db.branch_epochs e w live))

  -- In a well-formed branch a truncation with valid identities and time, the expected epoch active, and
  -- the command id and the event id unused succeeds with its result.
  pub truncate_accepts :
      (c : TruncateCommand) (db : BranchLedger) (at : Text)
      → IsWellFormed (truncate_scope c) db.branch_epochs
      → identities_valid c.chat_id c.command_id c.branch_id c.reason_code ≡ true
      → resolve_committed_at c.created_at now ≡ ok at
      → active_branch_epoch (truncate_scope c) db.branch_epochs ≡ some c.expected_branch_epoch
      → find_event c.command_id db.history_events ≡ none
      → has_event_id
          (event_id sha256 c.command_id c.chat_id c.branch_id (truncate_payload c))
          db.history_events
        ≡ false
      → (truncate_branch sha256 now c db).0 ≡ ok (truncate_result c)
  unfolding truncate_branch
  truncate_accepts c db at w valid stamped live fresh unused = ground (
    arith,
    select-mark (truncate_scope c) c.expected_branch_epoch (c.expected_branch_epoch + 1)
        db.branch_epochs,
    above_active (truncate_scope c) db.branch_epochs c.expected_branch_epoch w live,
  )

  -- A truncation that was done under a fresh command id and is sent again, at any later time, is
  -- answered with its result as `existing` and changes nothing.
  pub truncate_twice :
      (c : TruncateCommand) (db : BranchLedger) (j : Json) (later : Text)
      → find_event c.command_id db.history_events ≡ none
      → (truncate_branch sha256 now c db).0 ≡ ok j
      → truncate_branch sha256 later c (truncate_branch sha256 now c db).1
        ≡ (ok (as_existing j), (truncate_branch sha256 now c db).1)
  unfolding truncate_event_row
  truncate_twice c db j later fresh done =
      let at = stamp c.created_at now in
      let event = truncate_event_row sha256 c at in
      let (result, _, _, events') = truncate_done sha256 now c db j fresh done in
      let (valid, stamped) = truncate_valid sha256 now c db j later done in
      let there : find_event c.command_id (truncate_branch sha256 now c db).1.history_events
          ≡ some event =
        rw events' (find_event-append c.command_id db.history_events event fresh refl) in
      rw result (
        truncate_replay sha256 later c (truncate_branch sha256 now c db).1 event _ there valid
          stamped refl)

  -- A truncation that was done under a fresh command id and is sent again for another branch with a
  -- safe id is answered with the first branch's result as `existing` and changes nothing.
  pub truncate_other_branch :
      (c : TruncateCommand) (db : BranchLedger) (j : Json) (later other : Text)
      → find_event c.command_id db.history_events ≡ none
      → (truncate_branch sha256 now c db).0 ≡ ok j
      → is_safe_id other ≡ true
      → truncate_branch sha256 later
          (record c { branch_id = other })
          (truncate_branch sha256 now c db).1
        ≡ (ok (as_existing j), (truncate_branch sha256 now c db).1)
  unfolding truncate_event_row truncate_payload
  truncate_other_branch c db j later other fresh done safe =
      let at = stamp c.created_at now in
      let event = truncate_event_row sha256 c at in
      let (result, _, _, events') = truncate_done sha256 now c db j fresh done in
      let (valid, stamped) = truncate_valid sha256 now c db j later done in
      let there : find_event c.command_id (truncate_branch sha256 now c db).1.history_events
          ≡ some event =
        rw events' (find_event-append c.command_id db.history_events event fresh refl) in
      rw result (
        truncate_replay sha256 later (record c { branch_id = other })
          (truncate_branch sha256 now c db).1 event _ there
          (identities_valid_other c.chat_id c.command_id c.branch_id other c.reason_code valid safe)
          stamped refl)
