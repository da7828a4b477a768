-- ===== src/Runs/RunJournal/Files.antt =====
-- harness/run-journal.js: the files of the journals, readOptionalJson, replaceJsonAtomic and
-- assertJournalIdentity.
use tavern_mnemosyne.Prelude.{
  ℕ, Bool, true, false, not, ◌&&◌, List, [], ◌∷◌, nat_eq, text_eq, if◌then◌else◌, Text, codes, pos,
  negsuc, Option, none, some, Result, ok, err,
}
use tavern_mnemosyne.Contracts.Json.{Json, null, bool, num, str, obj, Fields, get_field}

pub data JournalError : Type 0 where
  run_journal_identity_invalid run_journal_retrieval_contract_invalid : JournalError
  run_journal_invalid run_journal_identity_mismatch run_id_reused : JournalError
  run_journal_not_found run_journal_list_limit_invalid : JournalError
  chat_unavailable type_error : JournalError

-- What a file holds: a value, or a text that JSON.parse refuses.
pub data Content : Type 0 where
  value : Json → Content
  unparsable : Content

pub record JournalFile : Type 0 where
  pub folder : Text
  pub run_id : Text
  pub content : Content
  pub modified_at : ℕ

abbrev pub journal_schema : Text
journal_schema = codes "mnemosyne.run-journal.v1"

abbrev pub is_file : (folder run_id : Text) → JournalFile → Bool
is_file folder run_id file = text_eq file.folder folder && text_eq file.run_id run_id

-- readFile, `none` when there is no such file.
unfoldable pub find_journal : (folder run_id : Text) → List JournalFile → Option Content
find_journal folder run_id [] = none
find_journal folder run_id (file ∷ files) =
    if is_file folder run_id file then some file.content else find_journal folder run_id files

-- replaceJsonAtomic, and writeFile where there is no such file.
unfoldable pub write_journal : JournalFile → List JournalFile → List JournalFile
write_journal file [] = file ∷ []
write_journal file (other ∷ files) =
    if is_file file.folder file.run_id other then file ∷ files else other ∷ write_journal file files

-- Whether an `if` on the value passes.
abbrev pub is_truthy : Json → Bool
is_truthy null = false
is_truthy (bool b) = b
is_truthy (num n) = elim n [ pos k ↦ not (nat_eq k 0) | negsuc k ↦ true ]
is_truthy (str []) = false
is_truthy _ = true

-- readOptionalJson, with what is falsy taken for a file that is not there.
unfoldable pub read_optional : Option Content → Result JournalError (Option Json)
read_optional none = ok none
read_optional (some unparsable) = err run_journal_invalid
read_optional (some (value v)) = ok (if is_truthy v then some v else none)

abbrev pub is_text : Text → Option Json → Bool
is_text expected (some (str s)) = text_eq s expected
is_text expected _ = false

abbrev pub has_text : Text → Text → Fields → Bool
has_text key expected fields = is_text expected (get_field key fields)

-- assertJournalIdentity: the fields of the journal, when they are those of the run.
unfoldable pub journal_of : (chat_id run_id : Text) → Json → Result JournalError Fields
journal_of chat_id run_id (obj fields) =
    if has_text (codes "schema") journal_schema fields
      && (has_text (codes "chat_id") chat_id fields && has_text (codes "run_id") run_id fields)
    then ok fields
    else err run_journal_identity_mismatch
journal_of chat_id run_id _ = err run_journal_identity_mismatch

-- `value ?? null`
abbrev pub or_null : Option Json → Json
or_null none = null
or_null (some v) = v

-- `journal.run_evidence ?? null`
unfoldable pub evidence_of : Fields → Json
evidence_of fields = or_null (get_field (codes "run_evidence") fields)
