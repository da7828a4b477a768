-- ===== src/Runs/RunJournal/Keys.antt =====
-- Reading the fields and the files that harness/run-journal.js writes.
use tavern_mnemosyne.Prelude.{
  ◌≡◌, refl, ◌∙◌, ap, true, false, List, [], ◌∷◌, Text, text_eq, text_eq_iff, text_eq_refl, arith,
  some, Bool-cases, inl, inr, if◌then◌else◌, codes,
}
use tavern_mnemosyne.Contracts.Json.{Json, Fields, end, field, get_field, set_field}
use tavern_mnemosyne.Runs.RunJournal.{
  JournalFile, is_file, find_journal, write_journal, spread, evidence_of,
}

pub get-set_field :
    (key : Text) (v : Json) (fields : Fields) → get_field key (set_field key v fields) ≡ some v
unfolding get_field set_field
get-set_field key v end = rw (text_eq_refl key) refl
get-set_field key v (field j w fields) = elim (Bool-cases (text_eq j key)) [
  | inl same ↦ rw (same, text_eq_refl key) refl
  | inr other ↦ rw (other, other) (get-set_field key v fields)
]

pub get-set_other :
    (key other : Text) (v : Json) (fields : Fields)
    → text_eq other key ≡ false
    → get_field key (set_field other v fields) ≡ get_field key fields
unfolding get_field set_field
get-set_other key other v end different = rw different refl
get-set_other key other v (field j w fields) different = elim (Bool-cases (text_eq j other)) [
  | inl same ↦
      let equal : j ≡ other = (text_eq_iff j other).0 same in
      rw (same, different, equal, different) refl
  | inr differs ↦ rw differs (
      ap (λ rest. if text_eq j key then some w else rest)
        (get-set_other key other v fields different))
]

is_file_iff :
    (folder run_id : Text) (file : JournalFile)
    → is_file folder run_id file ≡ true
    → (file.folder ≡ folder) × (file.run_id ≡ run_id)
is_file_iff folder run_id file e =
    ground (arith, e, text_eq_iff file.folder folder, text_eq_iff file.run_id run_id)

pub find-write_self :
    (file : JournalFile) (files : List JournalFile)
    → find_journal file.folder file.run_id (write_journal file files) ≡ some file.content
unfolding find_journal write_journal
find-write_self file [] = rw (text_eq_refl file.folder, text_eq_refl file.run_id) refl
find-write_self file (other ∷ files) = elim (Bool-cases (is_file file.folder file.run_id other)) [
  | inl same ↦ rw (same, text_eq_refl file.folder, text_eq_refl file.run_id) refl
  | inr differs ↦ rw (differs, differs) (find-write_self file files)
]

pub find-write_other :
    (folder run_id : Text) (file : JournalFile) (files : List JournalFile)
    → is_file folder run_id file ≡ false
    → find_journal folder run_id (write_journal file files) ≡ find_journal folder run_id files
unfolding find_journal write_journal
find-write_other folder run_id file [] different = rw different refl
find-write_other folder run_id file (other ∷ files) different =
    elim (Bool-cases (is_file file.folder file.run_id other)) [
      | inl same ↦
          let names = is_file_iff file.folder file.run_id other same in
          let shut : is_file folder run_id other ≡ false = rw (names.0, names.1) different in
          rw (same, different, shut) refl
      | inr differs ↦ rw differs (
          ap (λ rest. if is_file folder run_id other then some other.content else rest)
            (find-write_other folder run_id file files different))
    ]

-- What `run_evidence` is after the fields of a patch are put over those of a journal.
unfoldable pub patched : Json → Fields → Json
patched evidence end = evidence
patched evidence (field key v patch) =
    patched (if text_eq key (codes "run_evidence") then v else evidence) patch

pub evidence_of-set_field :
    (key : Text) (v : Json) (fields : Fields)
    → evidence_of (set_field key v fields)
      ≡ (if text_eq key (codes "run_evidence") then v else evidence_of fields)
unfolding evidence_of
evidence_of-set_field key v fields = elim (Bool-cases (text_eq key (codes "run_evidence"))) [
  | inl same ↦
      let equal : key ≡ codes "run_evidence" = (text_eq_iff key (codes "run_evidence")).0 same in
      rw (same, equal, get-set_field (codes "run_evidence") v fields) refl
  | inr other ↦ rw (other, get-set_other (codes "run_evidence") key v fields other) refl
]

pub evidence_of-spread :
    (fields patch : Fields) → evidence_of (spread fields patch) ≡ patched (evidence_of fields) patch
unfolding spread patched
evidence_of-spread fields end = refl
evidence_of-spread fields (field key v patch) =
    evidence_of-spread (set_field key v fields) patch
    ∙ ap (λ evidence. patched evidence patch) (evidence_of-set_field key v fields)
