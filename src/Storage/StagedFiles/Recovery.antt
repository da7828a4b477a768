-- ===== src/Storage/StagedFiles/Recovery.antt =====
-- After a crash at any point between the journal and the cleanup, recovery restores the old files or
-- completes the new ones, as the ledger says.
use mathlib.Core.Path.{fun_ext}
use tavern_mnemosyne.Prelude.{
  ◌≡◌, refl, ap, ◌∙◌, ◌≢◌, Bool, true, false, not, ◌||◌, List, [], ◌∷◌, Option, none, some, text_eq,
  text_eq_iff, text_eq_refl, Text, if◌then◌else◌, arith, All, ok,
}
use tavern_mnemosyne.Storage.StagedFiles.{
  verify_staging, verify_after, verify_before, roll_forward, roll_back, settle, recover_with,
  recover_journal,
}
use tavern_mnemosyne.Storage.Disk.{
  Files, set_file, Operation, write, remove, JournalFile, Journal, World, option_text_eq, has_hash,
  is_none, apply_entry, apply_projection, restore_entry, restore_projection, cleanup_journal,
  hash_of,
}

-- Whether the journal names a path.
unfoldable pub on_paths : Text → List JournalFile → Bool
on_paths p [] = false
on_paths p (e ∷ files) = text_eq e.relative_path p || on_paths p files

abbrev pub is_remove : Operation → Bool
is_remove remove = true
is_remove write = false

-- What an entry puts back, and what it installs.
abbrev pub restored : JournalFile → Files → Option Text
restored e backups = if e.existed_before then backups e.relative_path else none

abbrev pub installed : JournalFile → Files → Option Text
installed e writes = elim e.operation [ remove ↦ none | write ↦ writes e.relative_path ]

-- The files after a transaction: the target on the journal's paths, the old content elsewhere.
unfoldable pub over : List JournalFile → Files → Files → Files
over files target old p = if on_paths p files then target p else old p

pub live-apply_entry :
    (e : JournalFile) (w : World)
    → apply_entry e w ≡ record w { live = set_file e.relative_path (installed e w.writes) w.live }
unfolding apply_entry
live-apply_entry e w = ground arith

pub live-restore_entry :
    (e : JournalFile) (w : World)
    → restore_entry e w ≡ record w { live = set_file e.relative_path (restored e w.backups) w.live }
unfolding restore_entry
live-restore_entry e w = ground arith

module _ (sha256 : Text → Text) (validate : Files → Bool) (old target : Files) where
  -- An entry describes the old and the new content of its path, and the stage holds both.
  abbrev pub EntryStaged : Files → Files → JournalFile → Type 0
  EntryStaged backups writes e =
      (e.existed_before ≡ not (is_none (old e.relative_path)))
      × (restored e backups ≡ old e.relative_path)
      × (e.before_hash ≡ hash_of sha256 (old e.relative_path))
      × (is_remove e.operation ≡ is_none (target e.relative_path))
      × (installed e writes ≡ target e.relative_path)
      × (e.after_hash ≡ hash_of sha256 (target e.relative_path))

  -- The stage is complete, and off the journal's paths the files are the old ones.
  pub record Staged (files : List JournalFile) (w : World) : Type 0 where
    pub entries : All (EntryStaged w.backups w.writes) files
    pub outside : (p : Text) → on_paths p files ≡ false → w.live p ≡ old p

  apply_at :
      (files : List JournalFile) (w : World) (p : Text)
      → All (EntryStaged w.backups w.writes) files
      → (apply_projection files w).live p ≡ over files target w.live p
  unfolding apply_projection over on_paths set_file
  apply_at [] w p all = refl
  apply_at (e ∷ files) w p all =
      rw (live-apply_entry e w, apply_projection)
        (ground (
          arith,
          text_eq_iff e.relative_path p,
          apply_at files
              (record w { live = set_file e.relative_path (installed e w.writes) w.live }) p all.1,
          all.0.4,
        ))

  restore_at :
      (files : List JournalFile) (w : World) (p : Text)
      → All (EntryStaged w.backups w.writes) files
      → (restore_projection files w).live p ≡ over files old w.live p
  unfolding restore_projection over on_paths set_file
  restore_at [] w p all = refl
  restore_at (e ∷ files) w p all =
      rw (live-restore_entry e w, restore_projection)
        (ground (
          arith,
          text_eq_iff e.relative_path p,
          restore_at files
              (record w { live = set_file e.relative_path (restored e w.backups) w.live }) p all.1,
          all.0.1,
        ))

  -- A projection touches the live files only.
  apply_keeps :
      (files : List JournalFile) (w : World)
      → apply_projection files w ≡ record w { live = (apply_projection files w).live }
  unfolding apply_projection apply_entry
  apply_keeps [] w = refl
  apply_keeps (e ∷ files) w = ground (arith, apply_keeps files (apply_entry e w))

  restore_keeps :
      (files : List JournalFile) (w : World)
      → restore_projection files w ≡ record w { live = (restore_projection files w).live }
  unfolding restore_projection restore_entry
  restore_keeps [] w = refl
  restore_keeps (e ∷ files) w = ground (arith, restore_keeps files (restore_entry e w))

  has_hash_own : (o : Option Text) → o ≢ none → has_hash sha256 o (hash_of sha256 o) ≡ true
  unfolding has_hash option_text_eq
  has_hash_own none h = absurd (h refl)
  has_hash_own (some content) h = text_eq_refl (sha256 content)

  pub verify_staging_ok :
      (files : List JournalFile) (w : World)
      → All (EntryStaged w.backups w.writes) files
      → verify_staging sha256 validate files w ≡ ok tt
  unfolding verify_staging
  verify_staging_ok [] w all = refl
  verify_staging_ok (e ∷ files) w all = ground (
    arith,
    has_hash_own (old e.relative_path),
    has_hash_own (target e.relative_path),
    verify_staging_ok files w all.1,
    all.0.0,
    all.0.1,
    all.0.2,
    all.0.3,
    all.0.4,
    all.0.5,
  )

  verify_after_ok :
      (files : List JournalFile) (w : World)
      → All (EntryStaged w.backups w.writes) files
      → ((p : Text) → on_paths p files ≡ true → w.live p ≡ target p)
      → verify_after sha256 validate files w ≡ ok tt
  unfolding verify_after on_paths
  verify_after_ok [] w all h = refl
  verify_after_ok (e ∷ files) w all h = ground (
    arith,
    h e.relative_path,
    text_eq_refl e.relative_path,
    has_hash_own (target e.relative_path),
    verify_after_ok files w all.1 (λ p k. h p (ground (arith, k))),
    all.0.3,
    all.0.5,
  )

  verify_before_ok :
      (files : List JournalFile) (w : World)
      → All (EntryStaged w.backups w.writes) files
      → ((p : Text) → on_paths p files ≡ true → w.live p ≡ old p)
      → verify_before sha256 validate files w ≡ ok tt
  unfolding verify_before on_paths
  verify_before_ok [] w all h = refl
  verify_before_ok (e ∷ files) w all h = ground (
    arith,
    h e.relative_path,
    text_eq_refl e.relative_path,
    has_hash_own (old e.relative_path),
    verify_before_ok files w all.1 (λ p k. h p (ground (arith, k))),
    all.0.0,
    all.0.2,
  )

  restored_live :
      (files : List JournalFile) (w : World)
      → Staged files w
      → (restore_projection files w).live ≡ old
  restored_live files w s =
      fun_ext (λ p. unfold over in ground (arith, restore_at files w p s.entries, s.outside p))

  applied_live :
      (files : List JournalFile) (w : World)
      → Staged files w
      → (apply_projection files w).live ≡ over files target old
  applied_live files w s =
      fun_ext (λ p. unfold over in ground (arith, apply_at files w p s.entries, s.outside p))

  -- The disk once a transaction has come to an end.
  abbrev pub settled : Files → World → World
  settled live w = record {
    live = live;
    backups = λ p. none;
    writes = λ p. none;
    journal = none;
    active = w.active;
  }

  pub roll_back_ok :
      (j : Journal) (w : World)
      → Staged j.files w
      → roll_back sha256 validate j w ≡ (ok tt, record w { live = old })
  unfolding roll_back
  roll_back_ok j w s =
      let back = restored_live j.files w s in
      let kept = restore_keeps j.files w in
      let same : restore_projection j.files w ≡ record w { live = old } =
        kept ∙ ap (λ l. record w { live = l }) back in
      rw same (rw (verify_before_ok j.files (record w { live = old }) s.entries (λ p _. refl)) refl)

  pub roll_forward_ok :
      (j : Journal) (w : World)
      → Staged j.files w
      → roll_forward sha256 validate j w ≡ (ok tt, record w { live = over j.files target old })
  unfolding roll_forward
  roll_forward_ok j w s =
      let forth = applied_live j.files w s in
      let kept = apply_keeps j.files w in
      let same : apply_projection j.files w ≡ record w { live = over j.files target old } =
        kept ∙ ap (λ l. record w { live = l }) forth in
      rw same (
        rw
          (verify_after_ok j.files (record w { live = over j.files target old }) s.entries
            (λ p on. unfold over in ground (arith, on)))
          refl)

  -- With the old snapshot still active, recovery puts every file back and clears the journal.
  pub recover_undoes :
      (j : Journal) (w : World)
      → Staged j.files w
      → w.journal ≡ some j
      → option_text_eq w.active (some j.target_snapshot_id) ≡ false
      → option_text_eq w.active j.previous_snapshot_id ≡ true
      → validate old ≡ true
      → recover_journal sha256 validate w ≡ (ok tt, settled old w)
  unfolding recover_journal recover_with settle cleanup_journal
  recover_undoes j w s there not_target previous valid =
      ground (arith, verify_staging_ok j.files w s.entries, roll_back_ok j w s)

  -- With the new snapshot active, recovery installs every file and clears the journal.
  pub recover_completes :
      (j : Journal) (w : World)
      → Staged j.files w
      → w.journal ≡ some j
      → option_text_eq w.active (some j.target_snapshot_id) ≡ true
      → validate (over j.files target old) ≡ true
      → recover_journal sha256 validate w ≡ (ok tt, settled (over j.files target old) w)
  unfolding recover_journal recover_with settle cleanup_journal
  recover_completes j w s there at_target valid =
      ground (arith, verify_staging_ok j.files w s.entries, roll_forward_ok j w s)
