-- ===== src/Runs/RunJournal.antt =====
-- harness/run-journal.js: begin, checkpoint and read; Listing has list. Files has the files.
-- The folder of a chat is what the store answers for it, a parameter; a call
-- reads the files at one time and writes them at a later one, and other calls may come between.
mod Files
unfoldable pub use Files.*
pub mod Keys
pub mod Spec
pub mod Represents
pub mod Refines
pub mod Simulation
pub mod Bound
pub mod Listing
use tavern_mnemosyne.Prelude.{
  ℕ, Bool, true, false, not, ◌&&◌, ◌||◌, List, [], ◌∷◌, ◌++◌, ltb, leb, nat_eq, text_eq,
  if◌then◌else◌, Text, codes, take, map, pos, negsuc, Option, none, some, Result, ok, err, ◌>>=◌,
  ◌>>◌, guard,
}
use tavern_mnemosyne.Contracts.Identity.{is_safe_id, is_opaque_host_id}
use tavern_mnemosyne.Contracts.Json.{
  Json, null, bool, num, str, arr, obj, Items, nil, cons, Fields, end, field, get_field, set_field,
  canonical_json,
}

-- The clock of the process and that of the file system.
pub record Stamp : Type 0 where
  pub iso : Text
  pub modified_at : ℕ

pub record BeginCommand : Type 0 where
  pub chat_id : Text
  pub run_id : Text
  pub request_hash : Text
  pub prompt_spine_hash : Text
  pub retrieval_contract_version : Text
  pub run_scope : Json
  pub run_evidence : Json

pub record CheckpointCommand : Type 0 where
  pub chat_id : Text
  pub run_id : Text
  pub request_hash : Text
  pub patch : Fields
  pub event : Option Json

pub data BeginStatus : Type 0 where
  created existing : BeginStatus

-- The checks of begin on a journal that is there.
unfoldable pub bound : BeginCommand → Json → Result JournalError Fields
bound command found = do
  journal ← journal_of command.chat_id command.run_id found
  guard (has_text (codes "request_hash") command.request_hash journal) run_id_reused
  guard (text_eq (canonical_json (evidence_of journal)) (canonical_json command.run_evidence))
      run_id_reused
  ok journal

unfoldable pub new_journal : BeginCommand → (timestamp : Text) → Fields
new_journal command timestamp = field (codes "schema") (str journal_schema) (
    field (codes "chat_id") (str command.chat_id) (
      field (codes "run_id") (str command.run_id) (
        field (codes "request_hash") (str command.request_hash) (
          field (codes "prompt_spine_hash") (str command.prompt_spine_hash) (
            field (codes "retrieval_contract_version") (str command.retrieval_contract_version) (
              field (codes "run_scope") command.run_scope (
                field (codes "run_evidence") command.run_evidence (
                  field (codes "state") (str (codes "running")) (
                    field (codes "committed") null (
                      field (codes "pending_writeback") null (
                        field (codes "model") null (
                          field (codes "aggregate_usage")
                            (obj (
                              field (codes "prompt_tokens") (num (pos 0))
                                (field (codes "completion_tokens") (num (pos 0)) end)))
                            (field (codes "transcript") (arr nil) (
                              field (codes "result") null (
                                field (codes "events") (arr nil) (
                                  field (codes "created_at") (str timestamp)
                                    (field (codes "updated_at") (str timestamp) end)))))))))))))))))

abbrev pub is_valid_begin : BeginCommand → Result JournalError (Unit {0})
is_valid_begin command = do
  guard (is_opaque_host_id command.chat_id && is_safe_id command.run_id)
      run_journal_identity_invalid
  guard (not (text_eq command.retrieval_contract_version [])) run_journal_retrieval_contract_invalid

-- A field that is undefined is not written.
without : Text → Fields → Fields
without key end = end
without key (field j v fields) =
    let rest = without key fields in if text_eq j key then rest else field j v rest

unfoldable pub put_field : Text → Option Json → Fields → Fields
unfolding without
put_field key none fields = without key fields
put_field key (some v) fields = set_field key v fields

-- `{ ...fields, ...patch }`
unfoldable pub spread : Fields → Fields → Fields
unfolding set_field
spread fields end = fields
spread fields (field key v patch) = spread (set_field key v fields) patch

unfoldable pub append_item : Items → Json → Items
append_item nil v = cons v nil
append_item (cons x items) v = cons x (append_item items v)

-- `event === null ? current.events : [...current.events, event]`; only a list is spread.
unfoldable pub with_event : Option Json → Option Json → Result JournalError (Option Json)
unfolding append_item
with_event events none = ok events
with_event (some (arr items)) (some event) = ok (some (arr (append_item items event)))
with_event _ (some event) = err type_error

-- `next`
unfoldable pub next_journal :
    CheckpointCommand → (timestamp : Text) → Fields → Result JournalError Fields
unfolding put_field
next_journal command timestamp current = do
  events ← with_event (get_field (codes "events") current) command.event
  ok (
      set_field (codes "updated_at") (str timestamp) (
        put_field (codes "events") events (
          put_field (codes "request_hash") (get_field (codes "request_hash") current) (
            put_field (codes "run_id") (get_field (codes "run_id") current) (
              put_field (codes "chat_id") (get_field (codes "chat_id") current) (
                put_field (codes "schema") (get_field (codes "schema") current)
                  (spread current command.patch)))))))

-- The checks of checkpoint on what it read, and the journal that it writes.
unfoldable pub checkpointed :
    CheckpointCommand → (timestamp : Text) → Option Json → Result JournalError Fields
checkpointed command timestamp none = err run_journal_not_found
checkpointed command timestamp (some found) = do
  current ← journal_of command.chat_id command.run_id found
  guard (has_text (codes "request_hash") command.request_hash current) run_id_reused
  next_journal command timestamp current

abbrev pub file_of : (folder run_id : Text) → Fields → Stamp → JournalFile
file_of folder run_id journal stamp = record {
  folder = folder;
  run_id = run_id;
  content = value (obj journal);
  modified_at = stamp.modified_at;
}

-- What begin answers for a journal that is there.
unfoldable pub existing_answer :
    Result JournalError Fields → Result JournalError (BeginStatus × Fields)
existing_answer answer = answer >>= λ journal. ok (existing, journal)

-- After EEXIST.
unfoldable pub raced : BeginCommand → Result JournalError (Option Json) → Result JournalError Fields
raced command (err e) = err e
raced command (ok none) = err run_journal_identity_mismatch
raced command (ok (some found)) = bound command found

-- writeFile with flag wx.
unfoldable pub create_journal :
    (folder : Text)
    → BeginCommand
    → Stamp
    → (there : Option Content) → List JournalFile
    → Result JournalError (BeginStatus × Fields) × List JournalFile
unfolding raced existing_answer
create_journal folder command stamp none files =
    let journal = new_journal command stamp.iso in
    (ok (created, journal), write_journal (file_of folder command.run_id journal stamp) files)
create_journal folder command stamp (some content) files =
    (existing_answer (raced command (read_optional (some content))), files)

-- After the first read: `read` is what it gave.
unfoldable pub begin_in :
    (folder : Text)
    → BeginCommand
    → Stamp
    → (read : Result JournalError (Option Json)) → List JournalFile
    → Result JournalError (BeginStatus × Fields) × List JournalFile
unfolding create_journal existing_answer
begin_in folder command stamp (err e) files = (err e, files)
begin_in folder command stamp (ok (some found)) files =
    (existing_answer (bound command found), files)
begin_in folder command stamp (ok none) files =
    create_journal folder command stamp (find_journal folder command.run_id files) files

unfoldable pub write_checkpoint :
    (folder run_id : Text)
    → Stamp
    → Result JournalError Fields
    → List JournalFile
    → Result JournalError Fields × List JournalFile
write_checkpoint folder run_id stamp (err e) files = (err e, files)
write_checkpoint folder run_id stamp (ok next) files =
    (ok next, write_journal (file_of folder run_id next stamp) files)

unfoldable pub begin_at :
    Result JournalError Text
    → BeginCommand
    → Stamp
    → (before files : List JournalFile)
    → Result JournalError (BeginStatus × Fields) × List JournalFile
begin_at (err e) command stamp before files = (err e, files)
begin_at (ok folder) command stamp before files =
    begin_in folder command stamp (read_optional (find_journal folder command.run_id before)) files

unfoldable pub checkpoint_at :
    Result JournalError Text
    → CheckpointCommand
    → Stamp
    → (before files : List JournalFile) → Result JournalError Fields × List JournalFile
checkpoint_at (err e) command stamp before files = (err e, files)
checkpoint_at (ok folder) command stamp before files =
    write_checkpoint folder command.run_id stamp
      (read_optional (find_journal folder command.run_id before) >>= checkpointed command stamp.iso)
      files

module _ (folder_of : Text → Option Text) where
  abbrev pub open_chat : Text → Result JournalError Text
  open_chat chat_id = elim (folder_of chat_id) [
    | none ↦ err chat_unavailable
    | some folder ↦ ok folder
  ]

  -- The folder of a call's run, or what the call is refused with.
  unfoldable pub begin_folder : BeginCommand → Result JournalError Text
  begin_folder command = is_valid_begin command >> open_chat command.chat_id

  unfoldable pub checkpoint_folder : CheckpointCommand → Result JournalError Text
  checkpoint_folder command =
      guard (is_opaque_host_id command.chat_id && is_safe_id command.run_id)
        run_journal_identity_invalid
      >> open_chat command.chat_id

  -- begin; `before` are the files when it reads, `files` when it writes.
  unfoldable pub begin :
      BeginCommand
      → Stamp
      → (before files : List JournalFile)
      → Result JournalError (BeginStatus × Fields) × List JournalFile
  begin command stamp before files = begin_at (begin_folder command) command stamp before files

  -- checkpoint; `before` are the files when it reads, `files` when it replaces the journal. What was written
  -- between the two is lost.
  unfoldable pub checkpoint :
      CheckpointCommand
      → Stamp
      → (before files : List JournalFile) → Result JournalError Fields × List JournalFile
  checkpoint command stamp before files =
      checkpoint_at (checkpoint_folder command) command stamp before files

  -- read
  unfoldable pub read : (chat_id run_id : Text) → List JournalFile → Result JournalError Fields
  read chat_id run_id files = do
    guard (is_opaque_host_id chat_id && is_safe_id run_id) run_journal_identity_invalid
    folder ← open_chat chat_id
    found ← read_optional (find_journal folder run_id files)
    elim found [ none ↦ err run_journal_not_found | some v ↦ journal_of chat_id run_id v ]
