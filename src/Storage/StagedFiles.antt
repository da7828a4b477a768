-- ===== src/Storage/StagedFiles.antt =====
-- storage/staged-file-transaction.js: staging, verification, recovery and the run, with the writer lock
-- held.
pub mod Recovery
pub mod Crash
pub mod Stage
pub mod Run
use tavern_mnemosyne.Prelude.{
  ℕ, suc, Bool, true, false, not, ◌&&◌, ◌||◌, List, [], ◌∷◌, ◌++◌, Option, none, some, text_eq,
  nat_eq, leb, Text, codes, if◌then◌else◌, any, contains, text_has_eq, Result, ok, err, guard,
}
use tavern_mnemosyne.Storage.Disk.{
  Files, Journal, JournalFile, JournalState, StageError, World, after_mismatch, apply_projection,
  backup_mismatch, cleanup_journal, files_staged, files_written, has_hash, hash_of, is_none,
  is_relative_path, is_transaction_id, ledger_committed, ledger_unexpected, option_text_eq,
  prepare_failed, recovery_incomplete, remove, clear_stage, restore_projection, rollback_mismatch,
  set_file, snapshot_changed, staged_mismatch, transaction_id_invalid, unsafe_path,
  validation_failed, write,
}

-- A step that may throw; the files stay as they are at that point.
abbrev pub Io : Type 0 → Type 0
Io A = World → Result StageError A × World

abbrev pub continue :
    {A B : Type 0} → Result StageError A → World → (A → Io B) → Result StageError B × World
continue (ok a) w f = f a w
continue (err e) w f = (err e, w)

infixl 5 ◌>>=◌ ◌>>◌
abbrev pub ◌>>=◌ : {A B : Type 0} → Io A → (A → Io B) → Io B
◌>>=◌ m f w = continue (m w).0 (m w).1 f

abbrev pub ◌>>◌ : {B : Type 0} → Io (Unit {0}) → Io B → Io B
m >> k = m >>= λ _. k

abbrev pub update : (World → World) → Io (Unit {0})
update f w = (ok tt, f w)

abbrev pub check : (World → Result StageError (Unit {0})) → Io (Unit {0})
check f w = (f w, w)

abbrev pub require : Bool → StageError → Result StageError (Unit {0}) → Result StageError (Unit {0})
require true e rest = rest
require false e rest = err e

-- What a transaction is asked to do; `writes` and `removals` hold a path once.
pub record Plan : Type 0 where
  pub transaction_id : Text
  pub target_snapshot_id : Text
  pub previous_snapshot_id : Option Text
  pub writes : List (Text × Text)
  pub removals : List Text

unfoldable pub planned_content : Text → List (Text × Text) → Option Text
planned_content p [] = none
planned_content p ((path, content) ∷ writes) =
    if text_eq path p then some content else planned_content p writes

paths_of : List (Text × Text) → List Text
paths_of [] = []
paths_of ((path, content) ∷ writes) = path ∷ paths_of writes

-- The removals that are not also writes.
new_paths : List Text → List Text → List Text
new_paths known [] = []
new_paths known (p ∷ removals) =
    if contains known p then new_paths known removals else p ∷ new_paths known removals

-- `new Set([...writes.keys(), ...removals])`
unfoldable pub plan_paths : Plan → List Text
unfolding paths_of new_paths contains
plan_paths plan = paths_of plan.writes ++ new_paths (paths_of plan.writes) plan.removals

-- `sha256` is node:crypto's; `validate` is the caller's check of the files.
module _ (sha256 : Text → Text) (validate : Files → Bool) where
  -- The journal's entry for one path.
  unfoldable pub journal_file : Plan → Files → Text → JournalFile
  journal_file plan live p = record {
    relative_path = p;
    operation = elim (planned_content p plan.writes) [ some _ ↦ write | none ↦ remove ];
    existed_before = not (is_none (live p));
    before_hash = hash_of sha256 (live p);
    after_hash = hash_of sha256 (planned_content p plan.writes);
  }

  -- One round of the loop of `stageJournal`: a backup and a staged copy.
  unfoldable pub stage_file : Plan → Text → World → World
  unfolding set_file
  stage_file plan p w = record w {
    backups = if is_none (w.live p) then w.backups else set_file p (w.live p) w.backups;
    writes = elim (planned_content p plan.writes) [
      | some content ↦ set_file p (some content) w.writes
      | none ↦ w.writes
    ];
  }

  unfoldable pub stage_files : Plan → List Text → Io (List JournalFile)
  unfolding stage_file journal_file
  stage_files plan [] = λ w. (ok [], w)
  stage_files plan (p ∷ paths) =
      let rest = stage_files plan paths in
      check (λ w. guard (is_relative_path p) unsafe_path) >> (λ w.
        continue (rest (stage_file plan p w)).0 (rest (stage_file plan p w)).1
          (λ files w'. (ok (journal_file plan w.live p ∷ files), w')))

  abbrev journal_of : Plan → List JournalFile → Journal
  journal_of plan files = record {
    transaction_id = plan.transaction_id;
    state = files_staged;
    target_snapshot_id = plan.target_snapshot_id;
    previous_snapshot_id = plan.previous_snapshot_id;
    files = files;
  }

  unfoldable pub stage_journal : Plan → Io Journal
  unfolding stage_files clear_stage plan_paths
  stage_journal plan = do
    update (clear_stage plan.transaction_id)
    files ← stage_files plan (plan_paths plan)
    update (λ w. record w { journal = some (journal_of plan files) })
    λ w. (ok (journal_of plan files), w)

  unfoldable pub verify_staging : List JournalFile → World → Result StageError (Unit {0})
  unfolding has_hash
  verify_staging [] w = ok tt
  verify_staging (e ∷ files) w =
      require (not e.existed_before || has_hash sha256 (w.backups e.relative_path) e.before_hash)
        backup_mismatch
        (require
          (elim e.operation [
            | remove ↦ true
            | write ↦ has_hash sha256 (w.writes e.relative_path) e.after_hash
          ])
          staged_mismatch (verify_staging files w))

  unfoldable pub verify_after : List JournalFile → World → Result StageError (Unit {0})
  unfolding has_hash
  verify_after [] w = ok tt
  verify_after (e ∷ files) w =
      require
        (elim e.operation [
          | remove ↦ is_none (w.live e.relative_path)
          | write ↦ has_hash sha256 (w.live e.relative_path) e.after_hash
        ])
        after_mismatch (verify_after files w)

  unfoldable pub verify_before : List JournalFile → World → Result StageError (Unit {0})
  unfolding has_hash
  verify_before [] w = ok tt
  verify_before (e ∷ files) w =
      require
        (if e.existed_before
          then has_hash sha256 (w.live e.relative_path) e.before_hash
          else is_none (w.live e.relative_path))
        rollback_mismatch (verify_before files w)

  -- Applies the journal and checks every file.
  unfoldable pub roll_forward : Journal → Io (Unit {0})
  roll_forward j = update (apply_projection j.files) >> check (verify_after j.files)

  unfoldable pub roll_back : Journal → Io (Unit {0})
  roll_back j = update (restore_projection j.files) >> check (verify_before j.files)

  abbrev pub validate_files : Io (Unit {0})
  validate_files = check (λ w. guard (validate w.live) validation_failed)

  -- The branch on the ledger's active snapshot.
  unfoldable pub settle : Journal → Io (Unit {0})
  settle j w =
      if option_text_eq w.active (some j.target_snapshot_id)
      then roll_forward j w
      else if option_text_eq w.active j.previous_snapshot_id
      then roll_back j w
      else (err ledger_unexpected, w)

  -- `recoverJournal`, with a journal whose fields have their forms.
  unfoldable pub recover_with : Journal → Io (Unit {0})
  recover_with j = do
    check (verify_staging j.files)
    settle j
    validate_files
    update cleanup_journal

  unfoldable pub recover_journal : Io (Unit {0})
  recover_journal w = elim w.journal [ none ↦ (ok tt, w) | some j ↦ recover_with j w ]

  abbrev pub mark_journal : JournalState → World → World
  mark_journal state w = elim w.journal [
    | none ↦ w
    | some j ↦ record w { journal = some (record j { state = state }) }
  ]

  -- The `try` body after `stageJournal`; `commit` is the caller's `commitLedger`.
  unfoldable pub project : Io (Unit {0}) → Journal → Io (Unit {0})
  project commit j = do
    check (verify_staging j.files)
    roll_forward j
    update (mark_journal files_written)
    validate_files
    commit
    update (mark_journal ledger_committed)
    update cleanup_journal

  -- A failure inside the `catch` block is thrown with the first error, as an AggregateError.
  abbrev aggregate : Io (Unit {0}) → Result StageError (Unit {0}) → Io (Unit {0})
  aggregate m result w = elim (m w).0 [
    | ok _ ↦ (result, (m w).1)
    | err _ ↦ (err recovery_incomplete, (m w).1)
  ]

  abbrev complete : Journal → Io (Unit {0})
  complete j = do roll_forward j; validate_files; update cleanup_journal

  abbrev undo : Journal → Io (Unit {0})
  undo j = do roll_back j; validate_files; update cleanup_journal

  -- The `catch` block: a committed transaction is completed, any other is undone.
  -- `readable` says whether the caller's `getActiveSnapshotId` answers there; where it throws, the code goes on
  -- with null.
  unfoldable pub compensate : (readable : Bool) → Journal → StageError → Io (Unit {0})
  compensate readable j error w =
      let active = if readable then w.active else none in
      if option_text_eq active (some j.target_snapshot_id)
      then aggregate (complete j) (ok tt) w
      else if option_text_eq active j.previous_snapshot_id
      then aggregate (undo j) (err error) w
      else (err recovery_incomplete, w)

  abbrev pub caught :
      (readable : Bool)
      → Journal
      → Result StageError (Unit {0})
      → World
      → Result StageError (Unit {0}) × World
  caught readable j (ok _) w = (ok tt, w)
  caught readable j (err e) w = compensate readable j e w

  -- `prepared` says whether the caller's `prepareLedger` passes; the reads of the snapshot before it answer.
  unfoldable pub run_transaction : (prepared readable : Bool) → Io (Unit {0}) → Plan → Io (Unit {0})
  run_transaction prepared readable commit plan = do
    check (λ w. guard (is_transaction_id plan.transaction_id) transaction_id_invalid)
    recover_journal
    check (λ w. guard (option_text_eq w.active plan.previous_snapshot_id) snapshot_changed)
    check (λ w. guard prepared prepare_failed)
    j ← stage_journal plan
    λ w. caught readable j (project commit j w).0 (project commit j w).1
