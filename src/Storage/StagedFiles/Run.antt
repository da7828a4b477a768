-- ===== src/Storage/StagedFiles/Run.antt =====
-- runStagedFileTransaction from end to end: every path of the plan, or none.
use mathlib.Core.Path.{fun_ext}
use tavern_mnemosyne.Prelude.{
  ◌≡◌, refl, sym, ap, subst, ◌∙◌, ◌≢◌, ◌⊎◌, inl, inr, Bool, true, false, List, [], ◌∷◌, Option,
  none, some, Text, text_eq, text_eq_iff, text_eq_refl, arith, All, codes, map, contains,
  text_has_eq, Bool-cases, Result, ok, err, if◌then◌else◌,
}
use tavern_mnemosyne.Storage.StagedFiles.{
  Plan, Io, plan_paths, journal_file, recover_journal, mark_journal, project, compensate,
  run_transaction, continue, caught,
}
use tavern_mnemosyne.Storage.Disk.{
  Files, files_written, ledger_committed, Journal, World, StageError, is_transaction_id,
  option_text_eq, is_relative_path, cleanup_journal, validation_failed,
}
use tavern_mnemosyne.Storage.StagedFiles.Recovery.{
  Staged, on_paths, over, settled, verify_staging_ok, roll_back_ok, roll_forward_ok,
}
use tavern_mnemosyne.Storage.StagedFiles.Stage.{
  wanted, staged_world, staged_journal, stage_journal_ok, stage_journal-Staged,
}

-- The files that a plan asks for: its contents on its paths, the old files elsewhere.
unfoldable pub planned_files : Plan → Files → Files
planned_files plan old p = if contains (plan_paths plan) p then wanted plan p else old p

module _ (sha256 : Text → Text) (validate : Files → Bool) (old target : Files) where
  compensate_completes :
      (j : Journal) (e : StageError) (w : World)
      → Staged sha256 validate old target j.files w
      → option_text_eq w.active (some j.target_snapshot_id) ≡ true
      → validate (over j.files target old) ≡ true
      → compensate sha256 validate true j e w
        ≡ (ok tt, settled sha256 validate old target (over j.files target old) w)
  unfolding compensate cleanup_journal
  compensate_completes j e w s at_target valid =
      ground (arith, roll_forward_ok sha256 validate old target j w s)

  compensate_undoes :
      (j : Journal) (e : StageError) (w : World)
      → Staged sha256 validate old target j.files w
      → option_text_eq w.active (some j.target_snapshot_id) ≡ false
      → option_text_eq w.active j.previous_snapshot_id ≡ true
      → validate old ≡ true
      → compensate sha256 validate true j e w ≡ (err e, settled sha256 validate old target old w)
  unfolding compensate cleanup_journal
  compensate_undoes j e w s not_target previous valid =
      ground (arith, roll_back_ok sha256 validate old target j w s)

  -- Where the snapshot cannot be read, a transaction without a previous one is undone.
  compensate_unread :
      (j : Journal) (e : StageError) (w : World)
      → Staged sha256 validate old target j.files w
      → j.previous_snapshot_id ≡ none
      → validate old ≡ true
      → compensate sha256 validate false j e w ≡ (err e, settled sha256 validate old target old w)
  unfolding compensate cleanup_journal option_text_eq
  compensate_unread j e w s first valid =
      ground (arith, first, roll_back_ok sha256 validate old target j w s)

  -- The disk when the caller's commit runs.
  abbrev written : Journal → World → World
  written j w = record w {
    live = over j.files target old;
    journal = some (record j { state = files_written });
  }

  project_invalid :
      (commit : Io (Unit {0})) (j : Journal) (w : World)
      → Staged sha256 validate old target j.files w
      → w.journal ≡ some j
      → validate (over j.files target old) ≡ false
      → project sha256 validate commit j w ≡ (err validation_failed, written j w)
  unfolding project
  project_invalid commit j w s there invalid = ground (
    arith,
    verify_staging_ok sha256 validate old target j.files w s.entries,
    roll_forward_ok sha256 validate old target j w s,
  )

  project_valid :
      (commit : Io (Unit {0})) (j : Journal) (w : World)
      → Staged sha256 validate old target j.files w
      → w.journal ≡ some j
      → validate (over j.files target old) ≡ true
      → project sha256 validate commit j w
        ≡ continue
            (commit (written j w)).0
            (commit (written j w)).1
            (λ _ v. (ok tt, cleanup_journal (mark_journal sha256 validate ledger_committed v)))
  unfolding project
  project_valid commit j w s there valid = ground (
    arith,
    verify_staging_ok sha256 validate old target j.files w s.entries,
    roll_forward_ok sha256 validate old target j w s,
  )

  written-Staged :
      (j : Journal) (w : World) (active : Option Text)
      → Staged sha256 validate old target j.files w
      → Staged sha256 validate old target j.files (record (written j w) { active = active })
  written-Staged j w active s = record {
    entries = s.entries;
    outside = λ p off. unfold over in ground (arith, off);
  }

  -- What a commit's result comes to, when it has moved the active snapshot to `active`.
  caught_lem :
      (j : Journal) (w : World) (r : Result StageError (Unit {0})) (active : Option Text)
      → Staged sha256 validate old target j.files w
      → validate old ≡ true
      → validate (over j.files target old) ≡ true
      → option_text_eq w.active (some j.target_snapshot_id) ≡ false
      → option_text_eq w.active j.previous_snapshot_id ≡ true
      → ((active ≡ some j.target_snapshot_id) ⊎ ((active ≡ w.active) × (r ≢ ok tt)))
      → let v = record (written j w) { active = active } in
        let result =
          continue r v
            (λ _ v'. (ok tt, cleanup_journal (mark_journal sha256 validate ledger_committed v'))) in
        let end = caught sha256 validate true j result.0 result.1 in
        (end ≡ (
          ok tt,
          settled sha256 validate old target
              (over j.files target old)
              (record w { active = some j.target_snapshot_id }),
        ))
        ⊎ ((e : StageError) × (end ≡ (err e, settled sha256 validate old target old w)))
  unfolding cleanup_journal option_text_eq
  caught_lem j w (ok u) active s valid_old valid_new not_target previous (inl at_target) =
      inl (ground (arith, at_target))
  caught_lem j w (ok u) active s valid_old valid_new not_target previous (inr (_, fails)) =
      absurd (fails refl)
  caught_lem j w (err e) active s valid_old valid_new not_target previous (inl at_target) = inl (
      rw
        (compensate_completes j e (record (written j w) { active = active })
          (written-Staged j w active s)
          (ground (arith, at_target, text_eq_refl j.target_snapshot_id)) valid_new)
        (ground (arith, at_target)))
  caught_lem j w (err e) active s valid_old valid_new not_target previous (inr (stays, fails)) =
      inr (
        e,
        rw
            (compensate_undoes j e (record (written j w) { active = active })
              (written-Staged j w active s) (ground (arith, stays)) (ground (arith, stays))
              valid_old)
            (ground (arith, stays)),
      )

  project_lem :
      (commit : Io (Unit {0})) (j : Journal) (w : World)
      → Staged sha256 validate old target j.files w
      → w.journal ≡ some j
      → validate old ≡ true
      → option_text_eq w.active (some j.target_snapshot_id) ≡ false
      → option_text_eq w.active j.previous_snapshot_id ≡ true
      → ((v : World) → (commit v).1 ≡ record v { active = (commit v).1.active })
      → ((v : World)
          → ((commit v).1.active ≡ some j.target_snapshot_id)
            ⊎ (((commit v).1.active ≡ v.active) × ((commit v).0 ≢ ok tt)))
      → let result = project sha256 validate commit j w in
        let end = caught sha256 validate true j result.0 result.1 in
        (end ≡ (
          ok tt,
          settled sha256 validate old target
              (over j.files target old)
              (record w { active = some j.target_snapshot_id }),
        ))
        ⊎ ((e : StageError) × (end ≡ (err e, settled sha256 validate old target old w)))
  project_lem commit j w s there valid not_target previous local sides =
      elim (Bool-cases (validate (over j.files target old))) [
        | inl valid_new ↦ rw (project_valid commit j w s there valid_new) (
            rw (local (written j w)) (
              caught_lem j w (commit (written j w)).0 (commit (written j w)).1.active s valid
                valid_new not_target previous (sides (written j w))))
        | inr invalid ↦ inr (
          validation_failed,
          rw (project_invalid commit j w s there invalid) (
              compensate_undoes j validation_failed (written j w) (written-Staged j w w.active s)
                not_target previous valid),
        )
      ]

module _ (sha256 : Text → Text) (validate : Files → Bool) where
  on_paths-map :
      (plan : Plan) (live : Files) (paths : List Text) (p : Text)
      → on_paths p (map (journal_file sha256 validate plan live) paths) ≡ contains paths p
  unfolding on_paths contains journal_file
  on_paths-map plan live [] p = refl
  on_paths-map plan live (q ∷ paths) p =
      ground (arith, on_paths-map plan live paths p, text_eq_iff p q, text_eq_iff q p)

  over_planned :
      (plan : Plan) (w : World)
      → over (staged_journal sha256 validate plan w).files (wanted plan) w.live
        ≡ planned_files plan w.live
  unfolding over planned_files
  over_planned plan w = fun_ext (λ p. rw (on_paths-map plan w.live (plan_paths plan) p) refl)

  option_text_eq_refl : (o : Option Text) → option_text_eq o o ≡ true
  unfolding option_text_eq
  option_text_eq_refl none = refl
  option_text_eq_refl (some t) = text_eq_refl t

  option_text_eq_differs :
      (o : Option Text) (t : Text) → o ≢ some t → option_text_eq o (some t) ≡ false
  unfolding option_text_eq
  option_text_eq_differs none t differs = refl
  option_text_eq_differs (some s) t differs = elim (Bool-cases (text_eq s t)) [
    | inl same ↦ absurd (differs (ap some ((text_eq_iff s t).0 same)))
    | inr other ↦ other
  ]

  -- A run that gets past its checks is the `try` on a complete stage.
  run_staged :
      (readable : Bool) (commit : Io (Unit {0})) (plan : Plan) (w : World)
      → is_transaction_id plan.transaction_id ≡ true
      → text_eq plan.transaction_id (codes "..") ≡ false
      → All (λ p. is_relative_path p ≡ true) (plan_paths plan)
      → w.journal ≡ none
      → w.active ≡ plan.previous_snapshot_id
      → let j = staged_journal sha256 validate plan w in
        let result = project sha256 validate commit j (staged_world sha256 validate plan w) in
        run_transaction sha256 validate true readable commit plan w
        ≡ caught sha256 validate readable j result.0 result.1
  unfolding run_transaction
  run_staged readable commit plan w named own safe clean previous =
      let same : option_text_eq w.active plan.previous_snapshot_id ≡ true =
        rw previous (option_text_eq_refl plan.previous_snapshot_id) in
      let recovered : recover_journal sha256 validate w ≡ (ok tt, w) =
        unfold recover_journal in ground (arith, clean) in
      rw (named, recovered, same, stage_journal_ok sha256 validate plan w own safe) refl

  -- On a disk without a journal, with valid old files, a plan with a valid id other than `..` and safe paths
  -- from the active snapshot to another, and a commit that changes the active snapshot only, to the target or
  -- not at all and then throws: where the snapshot can be read after a failure, a run returns with all the
  -- planned files and the target snapshot active, or throws with every file as it was; no journal or
  -- stage is left.
  pub run_atomic :
      (commit : Io (Unit {0})) (plan : Plan) (w : World)
      → is_transaction_id plan.transaction_id ≡ true
      → text_eq plan.transaction_id (codes "..") ≡ false
      → All (λ p. is_relative_path p ≡ true) (plan_paths plan)
      → w.journal ≡ none
      → w.active ≡ plan.previous_snapshot_id
      → plan.previous_snapshot_id ≢ some plan.target_snapshot_id
      → validate w.live ≡ true
      → ((v : World) → (commit v).1 ≡ record v { active = (commit v).1.active })
      → ((v : World)
          → ((commit v).1.active ≡ some plan.target_snapshot_id)
            ⊎ (((commit v).1.active ≡ v.active) × ((commit v).0 ≢ ok tt)))
      → (run_transaction sha256 validate true true commit plan w ≡ (
        ok tt,
        settled sha256 validate w.live
            (wanted plan)
            (planned_files plan w.live)
            (record w { active = some plan.target_snapshot_id }),
      ))
        ⊎ ((e : StageError) × (run_transaction sha256 validate true true commit plan w
              ≡ (err e, settled sha256 validate w.live (wanted plan) w.live w)))
  run_atomic commit plan w named own safe clean previous differs valid local sides =
      rw (run_staged true commit plan w named own safe clean previous) (
        rw (sym (over_planned plan w)) (
          project_lem sha256 validate w.live (wanted plan) commit
            (staged_journal sha256 validate plan w) (staged_world sha256 validate plan w)
            (stage_journal-Staged sha256 validate plan w) refl valid
            (rw previous
              (option_text_eq_differs plan.previous_snapshot_id plan.target_snapshot_id differs))
            (rw previous (option_text_eq_refl plan.previous_snapshot_id)) local sides))

  -- On a disk without a journal and a ledger without a snapshot, a plan with a valid id other than `..`, safe
  -- paths, no previous snapshot, and valid old and planned files: when the commit moves the active snapshot
  -- to the target and then throws, and the snapshot cannot be read after that, the run throws with every
  -- file as it was, while the target snapshot is active, and with no journal or stage to recover from.
  pub run_unread :
      (plan : Plan) (w : World) (e : StageError)
      → is_transaction_id plan.transaction_id ≡ true
      → text_eq plan.transaction_id (codes "..") ≡ false
      → All (λ p. is_relative_path p ≡ true) (plan_paths plan)
      → w.journal ≡ none
      → w.active ≡ none
      → plan.previous_snapshot_id ≡ none
      → validate w.live ≡ true
      → validate (planned_files plan w.live) ≡ true
      → let at_target = λ (v : World). record v { active = some plan.target_snapshot_id } in
        run_transaction sha256 validate true false (λ v. (err e, at_target v)) plan w
        ≡ (err e, settled sha256 validate w.live (wanted plan) w.live (at_target w))
  unfolding option_text_eq
  run_unread plan w e named own safe clean active previous valid planned =
      let commit : Io (Unit {0}) =
        λ v. (err e, record v { active = some plan.target_snapshot_id }) in
      let j = staged_journal sha256 validate plan w in
      let v = staged_world sha256 validate plan w in
      let staged = stage_journal-Staged sha256 validate plan w in
      let at_commit = (commit (written sha256 validate w.live (wanted plan) j v)).1 in
      let valid_new = subst (λ files. validate files ≡ true) (sym (over_planned plan w)) planned in
      rw (run_staged false commit plan w named own safe clean (active ∙ sym previous)) (
        rw (project_valid sha256 validate w.live (wanted plan) commit j v staged refl valid_new) (
          compensate_unread sha256 validate w.live (wanted plan) j e at_commit
            (written-Staged sha256 validate w.live (wanted plan) j v (some plan.target_snapshot_id)
              staged)
            previous valid))
