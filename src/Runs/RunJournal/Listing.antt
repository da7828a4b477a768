-- ===== src/Runs/RunJournal/Listing.antt =====
-- list of harness/run-journal.js. The files of a chat's folder are those whose names end in .json; the
-- locale's order and String of a value that is no text are parameters.
pub mod Newest
use tavern_mnemosyne.Prelude.{
  ℕ, Bool, true, false, ◌&&◌, List, [], ◌∷◌, ltb, leb, nat_eq, text_eq, if◌then◌else◌, Text, take,
  filter, Option, none, some, Result, ok, err, ◌>>=◌, ◌>>◌, guard,
}
use tavern_mnemosyne.Contracts.Identity.{is_safe_id, is_opaque_host_id}
use tavern_mnemosyne.Contracts.Json.{Json, null, str, Fields, get_field}
use tavern_mnemosyne.History.Records.{sort_by}
use tavern_mnemosyne.Prelude.{codes}
use tavern_mnemosyne.Runs.RunJournal.{
  JournalError, JournalFile, journal_of, read_optional, open_chat, run_journal_identity_invalid,
  run_journal_list_limit_invalid,
}

-- The files that may hold a journal of the folder.
unfoldable pub candidates_in : (folder : Text) → List JournalFile → List JournalFile
unfolding filter
candidates_in folder files =
    filter (λ file. text_eq file.folder folder && is_safe_id file.run_id) files

-- The journal that a candidate's file holds; a file that is empty by now is passed over.
unfoldable pub read_journal :
    (chat_id run_id : Text) → Option Json → Result JournalError (Option Fields)
read_journal chat_id run_id none = ok none
read_journal chat_id run_id (some v) = journal_of chat_id run_id v >>= λ journal. ok (some journal)

abbrev add_read : Option Fields → List Fields → List Fields
add_read none journals = journals
add_read (some journal) journals = journal ∷ journals

-- The loop over the candidates: the first that is not a journal of its run fails the call.
unfoldable pub read_journals :
    (chat_id : Text) → List JournalFile → Result JournalError (List Fields)
unfolding read_journal
read_journals chat_id [] = ok []
read_journals chat_id (file ∷ files) = do
  found ← read_optional (some file.content)
  journal ← read_journal chat_id file.run_id found
  journals ← read_journals chat_id files
  ok (add_read journal journals)

-- `journal.run_id` of a journal that was checked.
abbrev text_of : Option Json → Text
text_of (some (str s)) = s
text_of _ = []

module _ (locale_leb : Text → Text → Bool) where
  -- Whether the first comparison lets `left` stand before `right`.
  unfoldable pub newer : (left right : JournalFile) → Bool
  newer left right =
      if nat_eq left.modified_at right.modified_at
      then locale_leb right.run_id left.run_id
      else ltb right.modified_at left.modified_at

  -- `candidates`, sorted.
  unfoldable pub newest_first : (folder : Text) → List JournalFile → List JournalFile
  unfolding sort_by candidates_in newer
  newest_first folder files = sort_by newer (candidates_in folder files)

module _ (string_of : Json → Text) (locale_leb : Text → Text → Bool) where
  -- `String(value ?? '')`
  abbrev shown : Option Json → Text
  shown none = []
  shown (some null) = []
  shown (some (str s)) = s
  shown (some v) = string_of v

  -- Whether the second comparison lets `left` stand before `right`.
  unfoldable pub updated_later : (left right : Fields) → Bool
  updated_later left right =
      let l = shown (get_field (codes "updated_at") left) in
      let r = shown (get_field (codes "updated_at") right) in
      if locale_leb r l && locale_leb l r
      then locale_leb (text_of (get_field (codes "run_id") right))
          (text_of (get_field (codes "run_id") left))
      else locale_leb r l

  unfoldable pub list_in :
      (chat_id folder : Text) → (limit : ℕ) → List JournalFile → Result JournalError (List Fields)
  unfolding newest_first read_journals sort_by updated_later
  list_in chat_id folder limit files =
      read_journals chat_id (take limit (newest_first locale_leb folder files)) >>= λ journals.
      ok (take limit (sort_by updated_later journals))

  -- list; a limit that is no natural number is refused as 0 is. A folder that is not there has no files.
  unfoldable pub list :
      (folder_of : Text → Option Text)
      → (chat_id : Text) → (limit : ℕ) → List JournalFile
      → Result JournalError (List Fields)
  unfolding list_in
  list folder_of chat_id limit files = do
    guard (is_opaque_host_id chat_id) run_journal_identity_invalid
    guard (leb 1 limit && leb limit 50) run_journal_list_limit_invalid
    folder ← open_chat folder_of chat_id
    list_in chat_id folder limit files
