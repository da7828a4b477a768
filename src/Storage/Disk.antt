-- ===== src/Storage/Disk.antt =====
-- storage/staged-file-transaction.js: the chat's files as a map from relative paths to contents, the two
-- areas of the transaction's stage, the journal, and the single effects on them.
use tavern_mnemosyne.Prelude.{
  ℕ, Bool, true, false, not, ◌&&◌, ◌||◌, List, [], ◌∷◌, Option, none, some, text_eq, nat_eq, leb,
  Text, codes, if◌then◌else◌, any, text_has_eq,
}

abbrev pub Files : Type 0
Files = Text → Option Text

unfoldable pub set_file : Text → Option Text → Files → Files
set_file path content files p = if text_eq path p then content else files p

pub data Operation : Type 0 where
  write remove : Operation

pub record JournalFile : Type 0 where
  pub relative_path : Text
  pub operation : Operation
  pub existed_before : Bool
  pub before_hash : Option Text
  pub after_hash : Option Text

pub data JournalState : Type 0 where
  files_staged files_written ledger_committed : JournalState

pub record Journal : Type 0 where
  pub transaction_id : Text
  pub state : JournalState
  pub target_snapshot_id : Text
  pub previous_snapshot_id : Option Text
  pub files : List JournalFile

-- `backups` and `writes` are the two folders of the stage; `active` is the ledger's snapshot.
pub record World : Type 0 where
  pub live : Files
  pub backups : Files
  pub writes : Files
  pub journal : Option Journal
  pub active : Option Text

pub data StageError : Type 0 where
  transaction_id_invalid unsafe_path snapshot_changed backup_mismatch : StageError
  staged_mismatch after_mismatch rollback_mismatch ledger_unexpected : StageError
  validation_failed prepare_failed commit_failed recovery_incomplete : StageError

unfoldable pub option_text_eq : Option Text → Option Text → Bool
option_text_eq none none = true
option_text_eq (some s) (some t) = text_eq s t
option_text_eq _ _ = false

-- `split(/[\\/]/)`, the part before the first separator first.
split_path : Text → List Text
split_path [] = [] ∷ []
split_path (c ∷ s) =
    if nat_eq c b'/' || nat_eq c 92
    then [] ∷ split_path s
    else elim (split_path s) [ [] ↦ (c ∷ []) ∷ [] | part ∷ parts ↦ (c ∷ part) ∷ parts ]

begins_with : Text → Text → Bool
begins_with [] s = true
begins_with (c ∷ prefix) [] = false
begins_with (c ∷ prefix) (d ∷ s) = nat_eq c d && begins_with prefix s

-- `assertRelativePath`, with POSIX absolute paths.
unfoldable pub is_relative_path : Text → Bool
unfolding split_path any
is_relative_path [] = false
is_relative_path (c ∷ s) =
    not (nat_eq c b'/') && not (any (λ part. text_eq part (codes "..")) (split_path (c ∷ s)))

abbrev is_transaction_unit : ℕ → Bool
is_transaction_unit c =
    (leb b'A' c && leb c b'Z')
    || ((leb b'a' c && leb c b'z')
        || ((leb b'0' c && leb c b'9') || (nat_eq c b'_' || (nat_eq c b'.' || nat_eq c b'-'))))

-- `/^[A-Za-z0-9_.-]+$/`
unfoldable pub is_transaction_id : Text → Bool
unfolding any
is_transaction_id [] = false
is_transaction_id (c ∷ s) = not (any (λ d. not (is_transaction_unit d)) (c ∷ s))

-- Whether a file is there with the hash that the journal recorded.
unfoldable pub has_hash : (Text → Text) → Option Text → Option Text → Bool
has_hash sha256 none hash = false
has_hash sha256 (some content) hash = option_text_eq (some (sha256 content)) hash

abbrev pub hash_of : (Text → Text) → Option Text → Option Text
hash_of sha256 none = none
hash_of sha256 (some content) = some (sha256 content)

abbrev pub is_none : Option Text → Bool
is_none none = true
is_none (some _) = false

-- `applyJournalProjection`, one entry.
unfoldable pub apply_entry : JournalFile → World → World
unfolding set_file
apply_entry e w = elim e.operation [
  | remove ↦ record w { live = set_file e.relative_path none w.live }
  | write ↦ record w { live = set_file e.relative_path (w.writes e.relative_path) w.live }
]

unfoldable pub apply_projection : List JournalFile → World → World
apply_projection [] w = w
apply_projection (e ∷ files) w = apply_projection files (apply_entry e w)

-- `restoreJournalProjection`, one entry.
unfoldable pub restore_entry : JournalFile → World → World
unfolding set_file
restore_entry e w =
    if e.existed_before
    then record w { live = set_file e.relative_path (w.backups e.relative_path) w.live }
    else record w { live = set_file e.relative_path none w.live }

unfoldable pub restore_projection : List JournalFile → World → World
restore_projection [] w = w
restore_projection (e ∷ files) w = restore_projection files (restore_entry e w)

-- `rm(stage)` and `rm(journal)`, the two steps of `cleanupJournal`, for a stage that is a folder of its own.
unfoldable pub remove_stage : World → World
remove_stage w = record w { backups = λ p. none; writes = λ p. none }

-- Whether a relative path is in the folder `derived`.
in_derived : Text → Bool
unfolding begins_with
in_derived path = begins_with (codes "derived/") path

-- `rm` of the stage of a transaction before it is staged. The id `..` is admitted, and its stage is the
-- folder `derived` itself, with the journal in it.
unfoldable pub clear_stage : (transaction_id : Text) → World → World
unfolding remove_stage in_derived
clear_stage transaction_id w =
    if text_eq transaction_id (codes "..")
    then record (remove_stage w) {
      live = λ p. if in_derived p then none else w.live p;
      journal = none;
    }
    else remove_stage w

unfoldable pub remove_journal : World → World
remove_journal w = record w { journal = none }

unfoldable pub cleanup_journal : World → World
unfolding remove_stage remove_journal
cleanup_journal w = remove_journal (remove_stage w)
