-- ===== src/Tests/Craft.antt =====
-- craft/promise-due-ledger.js and craft/beat-rhythm-ledger.js, on a few threads and scenes.
use tavern_mnemosyne.Prelude.{
  ◌↔◌, ◌++◌, ◌-◌, min, ltb, filter, ◌≡◌, refl, ◌≤◌, ◌+◌, pos_part, neg_part, ℕ, Bool, true, List,
  [], ◌∷◌, some, Text, codes, arith, pos, any, text_eq, All, length, drop, ok,
}
use tavern_mnemosyne.Contracts.Json.{Json, str, num, obj, end, field, get_field}
use tavern_mnemosyne.History.Records.{MemoryRow, set_state}
use tavern_mnemosyne.History.StateAt.{map_set}
use tavern_mnemosyne.Craft.BeatRhythm.{
  RhythmBounds, BeatRhythm, SceneSample, is_labeled, read_scenes, collect_scene_samples,
  compute_beat_rhythm,
}
use tavern_mnemosyne.Craft.BeatRhythm.Runs.{ends_positive, positive_ending_window}
use tavern_mnemosyne.History.Sorting.{Ascending}
use tavern_mnemosyne.Craft.PromiseDue.{
  DuePromise, promise_leb, collect_promise_due_ledger, select_due_promise_rows, declaration,
  is_open_status, due_promise, overdue,
}
use tavern_mnemosyne.Craft.PromiseDue.Listed.{last_declared, is_due_now, due_listed}
use tavern_mnemosyne.Craft.PromiseDue.Entries.{first_declared, due_entries}
use tavern_mnemosyne.Craft.PromiseDue.Order.{AtMost, select_most_overdue}
use tavern_mnemosyne.Tests.State.{row}

abbrev by_length : Text → Text → Bool
by_length s t = true

abbrev thread : Text → ℕ → Text → ℕ → MemoryRow
thread name turn status due =
    let r = row name turn set_state Json.null in
    record r {
      entry = record r.entry {
        record_kind = codes "plot_thread";
        record_payload_json = some (
            obj (
              field (codes "thread_ref") (str name) (
                field (codes "status") (str status) (field (codes "due_by") (num (pos due)) end))));
      };
    }

abbrev threads : List MemoryRow
threads =
    thread (codes "debt") 0 (codes "open") 4
    ∷ thread (codes "oath") 1 (codes "open") 2
    ∷ thread (codes "map") 2 (codes "open") 1
    ∷ thread (codes "map") 3 (codes "resolved") 1
    ∷ []

due_listed_example :
    any (λ d. text_eq d.thread_ref (codes "map")) (collect_promise_due_ledger by_length threads 5)
    ≡ is_due_now 5 (last_declared (codes "map") threads)
due_listed_example = due_listed by_length threads 5 (codes "map")

select_most_overdue_example :
    let ledger = collect_promise_due_ledger by_length threads 5 in
    (selected rest : List DuePromise) × (select_due_promise_rows by_length threads 5 1
      ≡ ok selected)
    × (ledger ≡ selected ++ rest)
    × (length selected ≡ min 1 (length ledger))
    × All (λ d. AtMost d.overdue_turns rest) selected
select_most_overdue_example = select_most_overdue by_length threads 5 1 (omega arith)

two_listed : length (collect_promise_due_ledger by_length threads 5) ≡ 2
unfolding collect_promise_due_ledger declaration text_eq get_field map_set due_promise
    is_open_status overdue promise_leb
two_listed = refl

due_entries_example :
    All
      (λ d.
        (d.setup_turn_index ≡ first_declared d.thread_ref threads)
        × (pos_part d.due_by_turn + d.overdue_turns ≡ 5 + neg_part d.due_by_turn))
      (collect_promise_due_ledger by_length threads 5)
due_entries_example = due_entries by_length threads 5

abbrev scene : Text → ℕ → Text → MemoryRow
scene name turn polarity =
    let r = row name turn set_state Json.null in
    record r {
      entry = record r.entry {
        record_kind = codes "scene_event";
        record_payload_json = some (
            obj (
              field (codes "beat_type") (str (codes "gain")) (
                field (codes "scene_turn") (obj (field (codes "polarity") (str polarity) end))
                  end)));
      };
    }

abbrev scenes : List MemoryRow
scenes = scene (codes "a") 0 (codes "negative") ∷ scene (codes "b") 1 (codes "positive") ∷ []

abbrev bounds : RhythmBounds
bounds = record {
  window_scenes = 5;
  sequence_length = 3;
  trigger_same_type_run = 2;
  trigger_positive_run = 1;
}

-- Whether a scene is of a later turn than the first.
abbrev is_later : SceneSample → Bool
is_later sample = ltb 0 sample.turn_index

positive_ending_window_example :
    let samples = (collect_scene_samples scenes).0 in
    (rhythm : BeatRhythm) × (compute_beat_rhythm scenes bounds ≡ ok rhythm)
    × Ascending (λ sample. sample.turn_index) samples
    × (any is_later samples ≡ any is_later (filter is_labeled (read_scenes scenes [])))
    × ((rhythm.positive_ending ≡ true) ↔ (
        (bounds.trigger_positive_run ≤ bounds.window_scenes)
        × (bounds.trigger_positive_run ≤ length samples)
        × All
            (λ sample. ends_positive sample ≡ true)
            (drop (length samples - bounds.trigger_positive_run) samples)))
positive_ending_window_example =
    positive_ending_window scenes bounds is_later (omega arith) (omega arith) (omega arith)
      (omega arith)
