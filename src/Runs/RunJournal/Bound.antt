-- ===== src/Runs/RunJournal/Bound.antt =====
-- A run of harness/run-journal.js is bound to the hash of one request.
pub mod Steady
use tavern_mnemosyne.Prelude.{
  ℕ, zero, suc, ◌≡◌, refl, sym, ap, ◌∙◌, ◌⊎◌, inl, inr, ◌&&◌, List, [], ◌∷◌, Text, codes, text_eq,
  text_eq_iff, arith, All, Option, none, some, get_elem?, ok, Bool-cases, Result-cases,
}
use tavern_mnemosyne.Contracts.Json.{Fields, get_field, obj, str}
use tavern_mnemosyne.Runs.RunJournal.{
  Content, value, BeginStatus, BeginCommand, CheckpointCommand, find_journal, begin_folder,
  checkpoint_folder,
}
use tavern_mnemosyne.Runs.RunJournal.Spec.{
  Run, Runs, Outcome, put_run, answer_bound, spec_begin, spec_checkpoint, Call, begin_call,
  checkpoint_call, SpecAnswer, with_status, ago, no_runs, spec_call, spec_all,
}
use tavern_mnemosyne.Runs.RunJournal.Represents.{agree, refused, Stored, absent, present}
use tavern_mnemosyne.Runs.RunJournal.Simulation.{
  both_equal, Answer, named_by, AllAgree, no_calls, one_call, call_all, HasOwnFolders,
  call_all-refines,
}
use tavern_mnemosyne.Runs.RunJournal.Bound.Steady.{request_of, hash_of, spec_all-Keeps}

AllAgree-ok :
    (calls : List Call) (answers : List Answer) (specs : List SpecAnswer) (k : ℕ)
    (answer : Option BeginStatus × Fields)
    → AllAgree calls answers specs
    → get_elem? answers k ≡ some (ok answer)
    → (spec : Option BeginStatus × Run) × (get_elem? specs k ≡ some (ok spec))
AllAgree-ok _ _ _ k answer no_calls e = absurd (ground (arith, e))
AllAgree-ok _ _ _ zero answer (one_call call _ _ (agree status fields run is) rest) e =
    ((status, run), refl)
AllAgree-ok _ _ _ zero answer (one_call call _ _ (refused failure) rest) e =
    absurd (ground (arith, e))
AllAgree-ok _ _ _ (suc k) answer (one_call {calls} {answers} {specs} call _ _ agrees rest) e =
    AllAgree-ok calls answers specs k answer rest e

Stored-request :
    (chat_id run_id request : Text) (content : Option Content) (run : Option Run)
    → Stored chat_id run_id content run
    → hash_of run ≡ some request
    → (fields : Fields) × (content ≡ some (value (obj fields)))
      × (get_field (codes "request_hash") fields ≡ some (str request))
Stored-request chat_id run_id request _ _ absent e = absurd (ground (arith, e))
Stored-request chat_id run_id request _ _ (present fields run is) e =
    (fields, refl, is.request ∙ ap (λ t. some (str t)) (ground (arith, e)))

module _ (folder_of : Text → Option Text) where
  -- When each chat has a folder of its own: in every history of calls of begin and checkpoint from no files, each of
  -- which reads the files of any number of calls before, the journal that is there at the end for the run
  -- of an accepted call has the hash of that call's request.
  pub accepted_bound :
      (calls : List Call) (k : ℕ) (call : Call) (answer : Option BeginStatus × Fields)
      → (folder : Text) → HasOwnFolders folder_of
      → folder_of (named_by call).0 ≡ some folder
      → get_elem? calls k ≡ some call
      → get_elem? (call_all folder_of calls [] []).0 k ≡ some (ok answer)
      → (fields : Fields) × (find_journal folder
            (named_by call).1
            (call_all folder_of calls [] []).1
          ≡ some (value (obj fields)))
        × (get_field (codes "request_hash") fields ≡ some (str (request_of call)))
  accepted_bound calls k call answer folder own named at e =
      let chat_id = (named_by call).0 in
      let run_id = (named_by call).1 in
      let refines = call_all-refines folder_of calls chat_id run_id folder own named in
      let spec = AllAgree-ok calls _ _ k answer refines.0 e in
      let kept = spec_all-Keeps chat_id run_id folder_of calls no_runs [] (inl refl, tt) in
      Stored-request chat_id run_id (request_of call) _ _ refines.1
        (kept.1 k call spec.0 at refl refl spec.1)
