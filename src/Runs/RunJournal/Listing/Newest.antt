-- ===== src/Runs/RunJournal/Listing/Newest.antt =====
-- Which journals a list holds.
use tavern_mnemosyne.Prelude.{
  ℕ, suc, ◌≡◌, refl, ◌∙◌, ap, ◌≤◌, Bool, true, false, List, [], ◌∷◌, Text, arith, All, length, take,
  drop, min, any, length-take, Option, some, ok,
}
use tavern_mnemosyne.Contracts.Identity.{is_opaque_host_id}
use tavern_mnemosyne.Contracts.Json.{Json, obj, Fields}
use tavern_mnemosyne.History.Records.{sort_by}
use tavern_mnemosyne.History.Sorting.{
  AtMost, take_all, All-take, any-sort_by, length-sort_by, All-sort_by, take_above_drop,
  sort-Descending,
}
use tavern_mnemosyne.Runs.RunJournal.{JournalFile, Content, value, journal_of, read_optional}
use tavern_mnemosyne.Runs.RunJournal.Listing.{
  candidates_in, read_journal, read_journals, newer, newest_first, updated_later, list_in, list,
}

-- Whether a file holds an object that passes a test.
abbrev pub holds : (Fields → Bool) → Content → Bool
holds p (value (obj journal)) = p journal
holds p _ = false

-- The file's content is a journal of the chat and of the run that the file is named for.
abbrev HasJournal : (chat_id : Text) → JournalFile → Type 0
HasJournal chat_id file =
    (journal : Fields) × (file.content ≡ value (obj journal))
    × (journal_of chat_id file.run_id (obj journal) ≡ ok journal)

read_candidates :
    (chat_id : Text) (files : List JournalFile)
    → All (HasJournal chat_id) files
    → (journals : List Fields) × (read_journals chat_id files ≡ ok journals)
      × (length journals ≡ length files)
      × ((p : Fields → Bool) → any p journals ≡ any (λ file. holds p file.content) files)
unfolding any read_journals read_journal read_optional
read_candidates chat_id [] all = ([], refl, refl, λ p. refl)
read_candidates chat_id (file ∷ files) ((journal, content, checked), all) =
    let rest = read_candidates chat_id files all in
    (
      journal ∷ rest.0,
      ground (arith, content, checked, rest.1),
      ap suc rest.2,
      λ p. ground (arith, content, rest.3 p),
    )

module _ (locale_leb : Text → Text → Bool) where
  newer-le : (a b : JournalFile) → newer locale_leb a b ≡ true → b.modified_at ≤ a.modified_at
  unfolding newer
  newer-le a b h = ground arith

  newer-ge : (a b : JournalFile) → newer locale_leb a b ≡ false → a.modified_at ≤ b.modified_at
  unfolding newer
  newer-ge a b h = ground arith

  newest_above :
      (folder : Text) (limit : ℕ) (files : List JournalFile)
      → All
          (λ file.
            AtMost
              (λ f. f.modified_at)
              file.modified_at
              (drop limit (newest_first locale_leb folder files)))
          (take limit (newest_first locale_leb folder files))
  unfolding newest_first
  newest_above folder limit files =
      take_above_drop (λ f. f.modified_at) limit (newest_first locale_leb folder files)
        (sort-Descending (λ f. f.modified_at) (newer locale_leb) newer-le newer-ge
          (candidates_in folder files))

  module _ (string_of : Json → Text) where
    list_in_newest :
        (chat_id folder : Text) (limit : ℕ) (files : List JournalFile)
        → All (HasJournal chat_id) (candidates_in folder files)
        → let newest = newest_first locale_leb folder files in
          (journals : List Fields) × (list_in string_of locale_leb chat_id folder limit files
            ≡ ok journals)
          × (length journals ≡ min limit (length (candidates_in folder files)))
          × ((p : Fields → Bool)
              → any p journals ≡ any (λ file. holds p file.content) (take limit newest))
    unfolding list_in newest_first
    list_in_newest chat_id folder limit files all =
        let newest = newest_first locale_leb folder files in
        let sorted =
          All-sort_by (HasJournal chat_id) (newer locale_leb) (candidates_in folder files) all in
        let read =
          read_candidates chat_id (take limit newest)
            (All-take (HasJournal chat_id) limit newest sorted) in
        let count : length newest ≡ length (candidates_in folder files) =
          length-sort_by (newer locale_leb) (candidates_in folder files) in
        let by = updated_later string_of locale_leb in
        let same : take limit (sort_by by read.0) ≡ sort_by by read.0 =
          take_all limit (sort_by by read.0)
            (omega (arith, length-sort_by by read.0, read.2, length-take limit newest)) in
        (
          sort_by by read.0,
          ground (arith, read.1, same),
          omega (arith, length-sort_by by read.0, read.2, length-take limit newest, count),
          λ p. any-sort_by p by read.0 ∙ read.3 p,
        )

    -- For a limit from 1 to 50 and a chat with a folder whose candidates hold journals of the chat and of the
    -- runs that they are named for, the list succeeds with the smaller of the limit and the number of
    -- candidates. A test finds a journal in it exactly when it finds one in the first files, up to the
    -- limit, of the candidates sorted by time; none of the files after those was modified later than
    -- one of them, and the sorted files are the candidates.
    pub list_newest :
        (folder_of : Text → Option Text) (chat_id folder : Text) (limit : ℕ)
        → (files : List JournalFile) (p : Fields → Bool) (q : JournalFile → Bool)
        → is_opaque_host_id chat_id ≡ true
        → 1 ≤ limit
        → limit ≤ 50
        → folder_of chat_id ≡ some folder
        → All (HasJournal chat_id) (candidates_in folder files)
        → let newest = newest_first locale_leb folder files in
          (journals : List Fields) × (list string_of locale_leb folder_of chat_id limit files
            ≡ ok journals)
          × (length journals ≡ min limit (length (candidates_in folder files)))
          × (any p journals ≡ any (λ file. holds p file.content) (take limit newest))
          × All
              (λ file. AtMost (λ f. f.modified_at) file.modified_at (drop limit newest))
              (take limit newest)
          × (any q newest ≡ any q (candidates_in folder files))
    unfolding list newest_first
    list_newest folder_of chat_id folder limit files p q opaque least most is_folder all =
        let listed = list_in_newest chat_id folder limit files all in
        (
          listed.0,
          ground (arith, opaque, least, most, is_folder, listed.1),
          listed.2,
          listed.3 p,
          newest_above folder limit files,
          any-sort_by q (newer locale_leb) (candidates_in folder files),
        )
