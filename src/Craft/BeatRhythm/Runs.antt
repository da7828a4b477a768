-- ===== src/Craft/BeatRhythm/Runs.antt =====
-- What a run at the end of the window says.
use tavern_mnemosyne.Prelude.{
  ℕ, ◌-◌, ◌≡◌, sym, subst, ◌≤◌, ◌↔◌, Bool, true, false, List, [], map, codes, arith, All, length,
  drop, any, filter, ok, leb,
}
use tavern_mnemosyne.History.Records.{MemoryRow}
use tavern_mnemosyne.History.Sorting.{Ascending, sort-Ascending, any-sort_by}
use tavern_mnemosyne.Craft.BeatRhythm.{
  RhythmBounds, BeatRhythm, SceneSample, tail_run, polarity_of, is_text, last_of, read_scenes,
  is_labeled, collect_scene_samples, rhythm_of, compute_beat_rhythm,
}
use tavern_mnemosyne.Craft.BeatRhythm.TailRun.{
  last_of_last, last_of-length, tail_run-map, tail_run-le, run_matches, matches_run,
}

-- Whether a scene ends positively.
abbrev pub ends_positive : SceneSample → Bool
ends_positive sample = is_text (codes "positive") (polarity_of sample.scene_turn)

turn_leb-le : (a b : ℕ) → leb a b ≡ true → a ≤ b
turn_leb-le a b h = ground arith

turn_leb-ge : (a b : ℕ) → leb a b ≡ false → b ≤ a
turn_leb-ge a b h = ground arith

collect-Ascending :
    (rows : List MemoryRow) → Ascending (λ sample. sample.turn_index) (collect_scene_samples rows).0
unfolding collect_scene_samples
collect-Ascending rows =
    sort-Ascending (λ sample. sample.turn_index) (λ a b. leb a.turn_index b.turn_index)
      (λ a b. turn_leb-le a.turn_index b.turn_index) (λ a b. turn_leb-ge a.turn_index b.turn_index)
      (filter is_labeled (read_scenes rows []))

collect-any :
    (rows : List MemoryRow) (p : SceneSample → Bool)
    → any p (collect_scene_samples rows).0 ≡ any p (filter is_labeled (read_scenes rows []))
unfolding collect_scene_samples
collect-any rows p =
    any-sort_by p (λ a b. leb a.turn_index b.turn_index) (filter is_labeled (read_scenes rows []))

-- What the run over the window is compared with.
window_run :
    (w n : ℕ) (scenes : List SceneSample)
    → (n
        ≤ tail_run
            (is_text (codes "positive"))
            (map (λ sample. polarity_of sample.scene_turn) (last_of w scenes)))
      ↔ ((n ≤ w)
          × (n ≤ length scenes)
          × All (λ sample. ends_positive sample ≡ true) (drop (length scenes - n) scenes))
window_run w n scenes =
    let window = last_of w scenes in
    let same =
      tail_run-map (λ sample. polarity_of sample.scene_turn) (is_text (codes "positive")) window in
    let count = last_of-length w scenes in
    (
      (λ long.
          let run : n ≤ tail_run ends_positive window = omega (arith, long, same) in
          let few : n ≤ length window = omega (arith, run, tail_run-le ends_positive window) in
          let within : n ≤ w = omega (arith, few, count) in
          let there : n ≤ length scenes = omega (arith, few, count) in
          (
            within,
            there,
            subst (All (λ sample. ends_positive sample ≡ true))
                (last_of_last w n scenes within there) (run_matches ends_positive n window run),
          )),
      (λ h.
          let run = matches_run ends_positive n window (omega (arith, h.0, h.1, count)) (
            subst (All (λ sample. ends_positive sample ≡ true))
              (sym (last_of_last w n scenes h.0 h.1)) h.2) in
          omega (arith, run, same)),
    )

-- With positive bounds the rhythm is computed. The scenes that it goes over are the labelled ones in the order of
-- their turns, and it reports a positive ending exactly when the bound is within the window and the
-- scenes and that many last scenes all end positively.
pub positive_ending_window :
    (rows : List MemoryRow) (bounds : RhythmBounds) (p : SceneSample → Bool)
    → 1 ≤ bounds.window_scenes
    → 1 ≤ bounds.sequence_length
    → 1 ≤ bounds.trigger_same_type_run
    → 1 ≤ bounds.trigger_positive_run
    → let scenes = (collect_scene_samples rows).0 in
      (rhythm : BeatRhythm) × (compute_beat_rhythm rows bounds ≡ ok rhythm)
      × Ascending (λ sample. sample.turn_index) scenes
      × (any p scenes ≡ any p (filter is_labeled (read_scenes rows [])))
      × ((rhythm.positive_ending ≡ true) ↔ (
          (bounds.trigger_positive_run ≤ bounds.window_scenes)
          × (bounds.trigger_positive_run ≤ length scenes)
          × All
              (λ sample. ends_positive sample ≡ true)
              (drop (length scenes - bounds.trigger_positive_run) scenes)))
unfolding compute_beat_rhythm rhythm_of
positive_ending_window rows bounds p window sequence same positive =
    let scenes = (collect_scene_samples rows).0 in
    let run = window_run bounds.window_scenes bounds.trigger_positive_run scenes in
    (
      rhythm_of bounds (last_of bounds.window_scenes scenes) (collect_scene_samples rows).1,
      ground (arith, window, sequence, same, positive),
      collect-Ascending rows,
      collect-any rows p,
      ((λ h. run.0 (ground (arith, h))), (λ h. ground (arith, run.1 h))),
    )
