-- ===== src/Storage/StagedFiles/Stage.antt =====
-- stageJournal leaves a complete stage for the plan.
use tavern_mnemosyne.Prelude.{
  ◌≡◌, refl, ap, ◌∙◌, inl, inr, Bool, true, false, codes, List, [], ◌∷◌, some, Text, text_eq,
  text_eq_iff, text_eq_refl, arith, All, map, contains, text_has_eq, Bool-cases, Option-cases, ok,
  if◌then◌else◌,
}
use tavern_mnemosyne.Storage.StagedFiles.{
  Plan, planned_content, plan_paths, journal_file, stage_file, stage_files, stage_journal,
  journal_of,
}
use tavern_mnemosyne.Storage.Disk.{
  Files, Journal, World, is_none, is_relative_path, remove_stage, clear_stage,
}
use tavern_mnemosyne.Storage.StagedFiles.Recovery.{EntryStaged, Staged}

-- What the plan wants at a path.
abbrev pub wanted : Plan → Files
wanted plan p = planned_content p plan.writes

module _ (sha256 : Text → Text) (validate : Files → Bool) where
  pub stage_all : Plan → List Text → World → World
  stage_all plan [] w = w
  stage_all plan (p ∷ paths) w = stage_all plan paths (stage_file sha256 validate plan p w)

  pub stage_all_keeps :
      (plan : Plan) (paths : List Text) (w : World)
      → stage_all plan paths w ≡ record w {
        backups = (stage_all plan paths w).backups;
        writes = (stage_all plan paths w).writes;
      }
  unfolding stage_all stage_file
  stage_all_keeps plan [] w = refl
  stage_all_keeps plan (p ∷ paths) w =
      ground (arith, stage_all_keeps plan paths (stage_file sha256 validate plan p w))

  stage_files_lem :
      (plan : Plan) (paths : List Text) (w : World)
      → All (λ p. is_relative_path p ≡ true) paths
      → stage_files sha256 validate plan paths w
        ≡ (ok (map (journal_file sha256 validate plan w.live) paths), stage_all plan paths w)
  unfolding stage_files stage_all
  stage_files_lem plan [] w safe = refl
  stage_files_lem plan (p ∷ paths) w safe = rw safe.0 (
      rw (stage_files_lem plan paths (stage_file sha256 validate plan p w) safe.1)
        (unfold stage_file in refl))

  stage_file_backups :
      (plan : Plan) (q : Text) (w : World) (p : Text)
      → ((stage_file sha256 validate plan q w).live p ≡ w.live p)
        × ((stage_file sha256 validate plan q w).backups p ≡ (
            if text_eq q p
            then (if is_none (w.live p) then w.backups p else w.live p)
            else w.backups p))
        × ((stage_file sha256 validate plan q w).writes p ≡ (
            if text_eq q p
            then (if is_none (wanted plan p) then w.writes p else wanted plan p)
            else w.writes p))
  unfolding stage_file
  stage_file_backups plan q w p = elim (Bool-cases (text_eq q p)) [
    | inr other ↦ ground (arith, other)
    | inl same ↦ rw ((text_eq_iff q p).0 same) (ground (arith, text_eq_refl p))
  ]

  stage_all_at :
      (plan : Plan) (paths : List Text) (w : World) (p : Text)
      → ((stage_all plan paths w).backups p ≡ (
          if contains paths p
          then (if is_none (w.live p) then w.backups p else w.live p)
          else w.backups p))
        × ((stage_all plan paths w).writes p ≡ (
            if contains paths p
            then (if is_none (wanted plan p) then w.writes p else wanted plan p)
            else w.writes p))
  unfolding stage_all contains
  stage_all_at plan [] w p = (refl, refl)
  stage_all_at plan (q ∷ paths) w p = ground (
    arith,
    stage_file_backups plan q w p,
    stage_all_at plan paths (stage_file sha256 validate plan q w) p,
    text_eq_iff q p,
    text_eq_iff p q,
  )

  -- The stage that a plan's loop leaves, with its journal.
  abbrev pub staged_world : Plan → World → World
  staged_world plan w = record w {
    backups = (stage_all plan (plan_paths plan) (remove_stage w)).backups;
    writes = (stage_all plan (plan_paths plan) (remove_stage w)).writes;
    journal = some (
        journal_of sha256 validate plan
          (map (journal_file sha256 validate plan w.live) (plan_paths plan)));
  }

  abbrev pub staged_journal : Plan → World → Journal
  staged_journal plan w =
      journal_of sha256 validate plan
        (map (journal_file sha256 validate plan w.live) (plan_paths plan))

  pub stage_journal_ok :
      (plan : Plan) (w : World)
      → text_eq plan.transaction_id (codes "..") ≡ false
      → All (λ p. is_relative_path p ≡ true) (plan_paths plan)
      → stage_journal sha256 validate plan w ≡ (ok (staged_journal plan w), staged_world plan w)
  unfolding stage_journal clear_stage
  stage_journal_ok plan w own safe =
      rw (own, stage_files_lem plan (plan_paths plan) (remove_stage w) safe)
        (ap (λ v. (ok (staged_journal plan w), record v { journal = some (staged_journal plan w) }))
            (stage_all_keeps plan (plan_paths plan) (remove_stage w))
          ∙ (unfold remove_stage in refl))

  entry_staged :
      (plan : Plan) (w : World) (p : Text)
      → contains (plan_paths plan) p ≡ true
      → EntryStaged sha256 validate w.live
          (wanted plan)
          (staged_world plan w).backups
          (staged_world plan w).writes
          (journal_file sha256 validate plan w.live p)
  unfolding journal_file remove_stage
  entry_staged plan w p planned =
      let at = stage_all_at plan (plan_paths plan) (remove_stage w) p in
      elim (Option-cases (w.live p)) [
        | inl missing ↦ ground (arith, at, missing, planned)
        | inr (content, there) ↦ ground (arith, at, there, planned)
      ]

  entries_staged :
      (plan : Plan) (w : World) (paths : List Text)
      → ((p : Text) → contains paths p ≡ true → contains (plan_paths plan) p ≡ true)
      → All
          (EntryStaged sha256 validate w.live
            (wanted plan)
            (staged_world plan w).backups
            (staged_world plan w).writes)
          (map (journal_file sha256 validate plan w.live) paths)
  unfolding contains
  entries_staged plan w [] planned = tt
  entries_staged plan w (p ∷ paths) planned = (
    entry_staged plan w p (planned p (ground (arith, text_eq_refl p))),
    entries_staged plan w paths (λ q within. planned q (ground (arith, within))),
  )

  -- The journal and the stage that `stageJournal` leaves are complete for the plan.
  pub stage_journal-Staged :
      (plan : Plan) (w : World)
      → Staged sha256 validate w.live
          (wanted plan)
          (staged_journal plan w).files
          (staged_world plan w)
  stage_journal-Staged plan w = record {
    entries = entries_staged plan w (plan_paths plan) (λ p within. within);
    outside = λ p off. refl;
  }
