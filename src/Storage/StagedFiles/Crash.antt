-- ===== src/Storage/StagedFiles/Crash.antt =====
-- Crashes between the journal's write and the cleanup, and the one inside the cleanup.
use tavern_mnemosyne.Prelude.{
  ℕ, zero, suc, ◌≡◌, refl, ◌≢◌, ◌⊎◌, inl, inr, Bool, true, false, ◌||◌, List, [], ◌∷◌, Option, some,
  Text, text_eq_iff, text_eq_refl, arith, get_elem?, Bool-cases, Result-cases, ok, if◌then◌else◌,
}
use tavern_mnemosyne.Storage.StagedFiles.{
  verify_staging, recover_with, recover_journal, mark_journal,
}
use tavern_mnemosyne.Storage.Disk.{
  Files, set_file, write, remove, JournalFile, JournalState, Journal, World, option_text_eq,
  has_hash, apply_entry, restore_entry, remove_stage,
}
use tavern_mnemosyne.Storage.StagedFiles.Recovery.{
  on_paths, over, live-apply_entry, live-restore_entry, Staged, settled, recover_undoes,
  recover_completes,
}

module _ (sha256 : Text → Text) (validate : Files → Bool) (old target : Files) where
  -- The durable states that a run passes through after `w₀`, in any order of its effects.
  pub data Reaches (j : Journal) (w₀ : World) : World → Type 0 where
    staged : Reaches j w₀ w₀
    applied :
        {w : World} (k : ℕ) (e : JournalFile)
        → get_elem? j.files k ≡ some e
        → Reaches j w₀ w
        → Reaches j w₀ (apply_entry e w)
    restored :
        {w : World} (k : ℕ) (e : JournalFile)
        → get_elem? j.files k ≡ some e
        → Reaches j w₀ w
        → Reaches j w₀ (restore_entry e w)
    marked :
        {w : World} (state : JournalState)
        → Reaches j w₀ w
        → Reaches j w₀ (mark_journal sha256 validate state w)
    committed :
        {w : World}
        → Reaches j w₀ w
        → Reaches j w₀ (record w { active = some j.target_snapshot_id })

  -- What all of them share.
  record Recoverable (j : Journal) (w : World) : Type 0 where
    state : JournalState
    there : w.journal ≡ some (record j { state = state })
    stage : Staged sha256 validate old target j.files w
    sides :
        (option_text_eq w.active (some j.target_snapshot_id) ≡ true)
        ⊎ (option_text_eq w.active j.previous_snapshot_id ≡ true)

  on_paths-get_elem? :
      (files : List JournalFile) (k : ℕ) (e : JournalFile)
      → get_elem? files k ≡ some e
      → on_paths e.relative_path files ≡ true
  unfolding on_paths
  on_paths-get_elem? [] k e h = absurd (ground arith)
  on_paths-get_elem? (f ∷ files) zero e h = ground (arith, text_eq_refl e.relative_path)
  on_paths-get_elem? (f ∷ files) (suc k) e h = ground (arith, on_paths-get_elem? files k e h)

  -- A write to a path of the journal.
  touch-Recoverable :
      (j : Journal) (w : World) (e : JournalFile) (k : ℕ) (content : Option Text)
      → get_elem? j.files k ≡ some e
      → Recoverable j w
      → Recoverable j (record w { live = set_file e.relative_path content w.live })
  unfolding set_file
  touch-Recoverable j w e k content at q = record {
    state = q.state;
    there = q.there;
    stage = record {
      entries = q.stage.entries;
      outside = λ p off. ground (
        arith,
        text_eq_iff e.relative_path p,
        on_paths-get_elem? j.files k e at,
        q.stage.outside p off,
      );
    };
    sides = q.sides;
  }

  mark_lem :
      (state : JournalState) (w : World) (j : Journal)
      → w.journal ≡ some j
      → mark_journal sha256 validate state w
        ≡ record w { journal = some (record j { state = state }) }
  mark_lem state w j there = ground arith

  commit-Recoverable :
      (j : Journal) (w : World)
      → Recoverable j w
      → Recoverable j (record w { active = some j.target_snapshot_id })
  unfolding option_text_eq
  commit-Recoverable j w q = record {
    state = q.state;
    there = q.there;
    stage = record { entries = q.stage.entries; outside = q.stage.outside };
    sides = inl (text_eq_refl j.target_snapshot_id);
  }

  mark-Recoverable :
      (j : Journal) (w : World) (state : JournalState)
      → Recoverable j w
      → Recoverable j (mark_journal sha256 validate state w)
  mark-Recoverable j w state q = rw (mark_lem state w _ q.there) (record {
    state = state;
    there = refl;
    stage = record { entries = q.stage.entries; outside = q.stage.outside };
    sides = q.sides;
  })

  Reaches-Recoverable :
      (j : Journal) (w₀ : World) {w : World} → Recoverable j w₀ → Reaches j w₀ w → Recoverable j w
  Reaches-Recoverable j w₀ r staged = r
  Reaches-Recoverable j w₀ r (applied {w = w} k e at h) =
      rw (live-apply_entry e w) (touch-Recoverable j w e k _ at (Reaches-Recoverable j w₀ r h))
  Reaches-Recoverable j w₀ r (restored {w = w} k e at h) =
      rw (live-restore_entry e w) (touch-Recoverable j w e k _ at (Reaches-Recoverable j w₀ r h))
  Reaches-Recoverable j w₀ r (marked {w = w} state h) =
      mark-Recoverable j w state (Reaches-Recoverable j w₀ r h)
  Reaches-Recoverable j w₀ r (committed {w = w} h) =
      commit-Recoverable j w (Reaches-Recoverable j w₀ r h)

  -- From a complete stage with its journal and the previous snapshot active, where the old and the new
  -- files are valid: wherever a run stops before its cleanup, recovery ends with all the new files if the
  -- target snapshot is active, with all the old files if not, and with no journal.
  pub crash_recovers :
      (j : Journal) (w₀ w : World)
      → w₀.journal ≡ some j
      → Staged sha256 validate old target j.files w₀
      → option_text_eq w₀.active j.previous_snapshot_id ≡ true
      → validate old ≡ true
      → validate (over j.files target old) ≡ true
      → Reaches j w₀ w
      → recover_journal sha256 validate w ≡ (
        ok tt,
        settled sha256 validate old target
            (if option_text_eq w.active (some j.target_snapshot_id)
              then over j.files target old
              else old)
            w,
      )
  crash_recovers j w₀ w there stage previous valid_old valid_new reached =
      let start : Recoverable j w₀ = record {
        state = j.state;
        there = there;
        stage = stage;
        sides = inr previous;
      } in
      let q = Reaches-Recoverable j w₀ start reached in
      elim (Bool-cases (option_text_eq w.active (some j.target_snapshot_id))) [
        | inl at_target ↦ rw at_target (
            recover_completes sha256 validate old target (record j { state = q.state }) w q.stage
              q.there at_target valid_new)
        | inr not_target ↦ rw not_target (
            recover_undoes sha256 validate old target (record j { state = q.state }) w q.stage
              q.there not_target (ground (arith, q.sides)) valid_old)
      ]

  -- Whether recovery needs the stage for some entry.
  unfoldable pub needs_stage : List JournalFile → Bool
  needs_stage [] = false
  needs_stage (e ∷ files) =
      (e.existed_before || elim e.operation [ write ↦ true | remove ↦ false ]) || needs_stage files

  verify_staging_empty :
      (files : List JournalFile) (w : World)
      → needs_stage files ≡ true
      → verify_staging sha256 validate files (remove_stage w) ≢ ok tt
  unfolding verify_staging needs_stage remove_stage has_hash
  verify_staging_empty [] w needed = ground arith
  verify_staging_empty (e ∷ files) w needed = ground (arith, verify_staging_empty files w)

  -- Where some file of the journal needs the stage, recovery after a crash between the two removals of
  -- the cleanup throws and changes nothing.
  pub cleanup_crash_stuck :
      (j : Journal) (w : World)
      → w.journal ≡ some j
      → needs_stage j.files ≡ true
      → ((recover_journal sha256 validate (remove_stage w)).0 ≢ ok tt)
        × ((recover_journal sha256 validate (remove_stage w)).1 ≡ remove_stage w)
  unfolding recover_journal recover_with remove_stage
  cleanup_crash_stuck j w there needed =
      elim (Result-cases (verify_staging sha256 validate j.files (remove_stage w))) [
        | inl (u, passes) ↦ absurd (verify_staging_empty j.files w needed (ground (arith, passes)))
        | inr (e, fails) ↦ (ground (arith, fails), ground (arith, fails))
      ]
