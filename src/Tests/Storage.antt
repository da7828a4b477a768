-- ===== src/Tests/Storage.antt =====
-- storage/staged-file-transaction.js, on a plan that writes one file and removes another.
use tavern_mnemosyne.Prelude.{
  ◌≡◌, refl, ◌≢◌, ◌⊎◌, inl, Bool, true, false, [], ◌∷◌, none, some, Text, codes, arith, text_eq,
  if◌then◌else◌, ok, err, any, contains, All, get_elem?,
}
use tavern_mnemosyne.Storage.StagedFiles.{
  Plan, Io, plan_paths, run_transaction, recover_journal, journal_file, planned_content,
}
use tavern_mnemosyne.Storage.Disk.{
  Files, Journal, JournalFile, World, StageError, is_transaction_id, is_relative_path, apply_entry,
  option_text_eq, remove_stage, commit_failed,
}
use tavern_mnemosyne.Storage.StagedFiles.Recovery.{over, settled}
use tavern_mnemosyne.Storage.StagedFiles.Stage.{
  wanted, staged_world, staged_journal, stage_journal-Staged,
}
use tavern_mnemosyne.Storage.StagedFiles.Crash.{
  Reaches, staged, applied, crash_recovers, needs_stage, cleanup_crash_stuck,
}
use tavern_mnemosyne.Storage.StagedFiles.Run.{planned_files, run_atomic, run_unread}

abbrev digest : Text → Text
digest t = t

abbrev accept : Files → Bool
accept files = true

abbrev plan : Plan
plan = record {
  transaction_id = codes "tx-1";
  target_snapshot_id = codes "s2";
  previous_snapshot_id = some (codes "s1");
  writes = (codes "a.md", codes "new") ∷ [];
  removals = codes "b.md" ∷ [];
}

abbrev disk : World
disk = record {
  live = λ p. if text_eq p (codes "b.md") then some (codes "old") else none;
  backups = λ p. none;
  writes = λ p. none;
  journal = none;
  active = some (codes "s1");
}

abbrev commit : Io (Unit {0})
commit w = (ok tt, record w { active = some (codes "s2") })

plan_named : is_transaction_id plan.transaction_id ≡ true
unfolding is_transaction_id
plan_named = refl

plan_safe : All (λ p. is_relative_path p ≡ true) (plan_paths plan)
unfolding is_relative_path plan_paths text_eq contains any
plan_safe = (refl, (refl, tt))

snapshots_differ : some (codes "s1") ≢ some (codes "s2")
snapshots_differ h = absurd (ground arith)

at_previous : option_text_eq (some (codes "s1")) (some (codes "s1")) ≡ true
unfolding option_text_eq text_eq
at_previous = refl

run_atomic_example :
    (run_transaction digest accept true true commit plan disk ≡ (
      ok tt,
      settled digest accept disk.live
          (wanted plan)
          (planned_files plan disk.live)
          (record disk { active = some (codes "s2") }),
    ))
    ⊎ ((e : StageError) × (run_transaction digest accept true true commit plan disk
          ≡ (err e, settled digest accept disk.live (wanted plan) disk.live disk)))
unfolding text_eq
run_atomic_example =
    run_atomic digest accept commit plan disk plan_named refl plan_safe refl refl snapshots_differ
      refl (λ v. refl) (λ v. inl refl)

-- The first snapshot of a chat.
abbrev first_plan : Plan
first_plan = record plan { previous_snapshot_id = none }

abbrev first_disk : World
first_disk = record disk { active = none }

run_unread_example :
    let at_target = λ (v : World). record v { active = some (codes "s2") } in
    run_transaction digest accept true false
      (λ v. (err commit_failed, at_target v))
      first_plan
      first_disk
    ≡ (
      err commit_failed,
      settled digest accept disk.live (wanted first_plan) disk.live (at_target first_disk),
    )
unfolding text_eq plan_paths
run_unread_example =
    run_unread digest accept first_plan first_disk commit_failed plan_named refl plan_safe refl refl
      refl refl refl

abbrev journal : Journal
journal = staged_journal digest accept plan disk

abbrev on_disk : World
on_disk = staged_world digest accept plan disk

abbrev first_file : JournalFile
first_file = journal_file digest accept plan disk.live (codes "a.md")

first_entry : get_elem? journal.files 0 ≡ some first_file
unfolding plan_paths text_eq contains
first_entry = refl

half_applied :
    Reaches digest accept disk.live (wanted plan) journal on_disk (apply_entry first_file on_disk)
half_applied = applied 0 first_file first_entry staged

crash_recovers_example : recover_journal digest accept (apply_entry first_file on_disk) ≡ (
  ok tt,
  settled digest accept disk.live
      (wanted plan)
      (if option_text_eq (apply_entry first_file on_disk).active (some (codes "s2"))
        then over journal.files (wanted plan) disk.live
        else disk.live)
      (apply_entry first_file on_disk),
)
crash_recovers_example =
    crash_recovers digest accept disk.live (wanted plan) journal on_disk
      (apply_entry first_file on_disk) refl (stage_journal-Staged digest accept plan disk)
      at_previous refl refl half_applied

stage_needed : needs_stage digest accept disk.live (wanted plan) journal.files ≡ true
unfolding needs_stage plan_paths journal_file text_eq contains planned_content
stage_needed = refl

cleanup_crash_stuck_example :
    ((recover_journal digest accept (remove_stage on_disk)).0 ≢ ok tt)
    × ((recover_journal digest accept (remove_stage on_disk)).1 ≡ remove_stage on_disk)
cleanup_crash_stuck_example =
    cleanup_crash_stuck digest accept disk.live (wanted plan) journal on_disk refl stage_needed
