-- ===== src/Craft/BeatRhythm.antt =====
-- craft/beat-rhythm-ledger.js. A beat is a text, and a row's payload is the value that its JSON column
-- parses to; a payload that is no object labels nothing.
pub mod TailRun
pub mod Runs
use tavern_mnemosyne.Prelude.{
  ℕ, zero, suc, ◌-◌, Bool, true, false, ◌||◌, List, [], ◌∷◌, ◌++◌, map, Option, none, some, Text,
  codes, text_eq, nat_eq, ltb, leb, drop, length, filter, contains, nat_has_eq, if◌then◌else◌,
  Result, ok, err, ℤ, pos,
}
use tavern_mnemosyne.Contracts.Json.{Json, null, str, obj, Fields, get_field}
use tavern_mnemosyne.History.Records.{MemoryRow, sort_by}

pub record SceneSample : Type 0 where
  pub turn_index : ℕ
  pub beat_type : Option Text
  pub scene_turn : Option Json

pub record RhythmBounds : Type 0 where
  pub window_scenes : ℕ
  pub sequence_length : ℕ
  pub trigger_same_type_run : ℕ
  pub trigger_positive_run : ℕ

pub record BeatRhythm : Type 0 where
  pub window_scenes : ℕ
  pub unlabeled_scene_turns : ℕ
  pub beat_sequence : List Text
  pub same_type_run : ℕ
  pub same_type_beat : Option Text
  pub positive_ending_run : ℕ
  pub null_scene_run : ℕ
  pub turns_since_setback : Option ℕ
  pub same_type : Bool
  pub positive_ending : Bool
  pub triggered : Bool

pub data BeatRhythmError : Type 0 where
  beat_rhythm_input_invalid : BeatRhythmError

-- SCENE_KINDS
unfoldable pub is_scene : MemoryRow → Bool
is_scene row =
    text_eq row.entry.record_kind (codes "scene_event")
    || text_eq row.entry.record_kind (codes "scene_state")

abbrev beat_label : Option Json → Option Text → Option Text
beat_label (some (str beat)) before = some beat
beat_label _ before = before

abbrev turn_label : Option Json → Option Json → Option Json
turn_label none before = before
turn_label (some null) before = before
turn_label (some turn) before = some turn

unfoldable pub label_sample : Fields → SceneSample → SceneSample
label_sample payload sample = record sample {
  beat_type = beat_label (get_field (codes "beat_type") payload) sample.beat_type;
  scene_turn = turn_label (get_field (codes "scene_turn") payload) sample.scene_turn;
}

-- `byTurn.set`, where a turn that is not there begins without labels.
unfoldable pub label_turn : ℕ → Fields → List SceneSample → List SceneSample
unfolding label_sample
label_turn turn payload [] =
    label_sample payload (record { turn_index = turn; beat_type = none; scene_turn = none }) ∷ []
label_turn turn payload (sample ∷ samples) =
    if nat_eq sample.turn_index turn
    then label_sample payload sample ∷ samples
    else sample ∷ label_turn turn payload samples

unfoldable pub read_scenes : List MemoryRow → List SceneSample → List SceneSample
unfolding label_turn is_scene
read_scenes [] samples = samples
read_scenes (row ∷ rows) samples = read_scenes rows (
    if is_scene row
    then elim row.entry.record_payload_json [
      | some (obj payload) ↦ label_turn row.turn.turn_index payload samples
      | _ ↦ samples
    ]
    else samples)

-- `sceneTurns`
unfoldable pub scene_turns : List MemoryRow → List ℕ → List ℕ
unfolding is_scene contains
scene_turns [] turns = turns
scene_turns (row ∷ rows) turns = scene_turns rows (
    if is_scene row
    then (if contains turns row.turn.turn_index then turns else turns ++ row.turn.turn_index ∷ [])
    else turns)

unfoldable pub is_labeled : SceneSample → Bool
is_labeled sample = elim sample.beat_type [
  | some _ ↦ true
  | none ↦ elim sample.scene_turn [ some _ ↦ true | none ↦ false ]
]

-- Every sample is of a scene's turn, so the subtraction is exact.
unfoldable pub collect_scene_samples : List MemoryRow → List SceneSample × ℕ
unfolding read_scenes filter sort_by scene_turns is_labeled
collect_scene_samples rows =
    let samples =
      sort_by (λ a b. leb a.turn_index b.turn_index) (filter is_labeled (read_scenes rows [])) in
    (samples, length (scene_turns rows []) - length samples)

-- A list from its end.
unfoldable pub backwards {ℓ} : {A : Type ℓ} → List A → List A
backwards [] = []
backwards (x ∷ xs) = backwards xs ++ x ∷ []

unfoldable pub leading_run {ℓ} : {A : Type ℓ} → (A → Bool) → List A → ℕ
leading_run matches [] = 0
leading_run matches (x ∷ xs) =
    let rest = leading_run matches xs in if matches x then suc rest else 0

-- `tailRun`
unfoldable pub tail_run {ℓ} : {A : Type ℓ} → (A → Bool) → List A → ℕ
unfolding leading_run backwards
tail_run matches values = leading_run matches (backwards values)

unfoldable pub polarity_of : Option Json → Option Text
polarity_of (some (str turn)) = if text_eq turn (codes "null_scene") then some turn else none
polarity_of (some (obj turn)) = elim (get_field (codes "polarity") turn) [
  | some (str polarity) ↦ some polarity
  | _ ↦ none
]
polarity_of _ = none

abbrev pub is_text : Text → Option Text → Bool
is_text t none = false
is_text t (some s) = text_eq s t

abbrev first_of : List (Option Text) → Option Text
first_of [] = none
first_of (x ∷ xs) = x

-- `slice(-count)` for a positive count.
abbrev pub last_of {ℓ} : {A : Type ℓ} → ℕ → List A → List A
last_of count xs = drop (length xs - count) xs

abbrev beat_or_unlabeled : Option Text → Text
beat_or_unlabeled none = codes "unlabeled"
beat_or_unlabeled (some beat) = beat

-- The turns since the last setback, counted from the end of the window.
unfoldable pub since_setback : ℕ → List (Option Text) → Option ℕ
since_setback n [] = none
since_setback n (beat ∷ beats) =
    if is_text (codes "setback") beat then some n else since_setback (suc n) beats

-- The scenes at the end that share the last beat, none without a last beat.
unfoldable pub same_run_of : Option Text → List (Option Text) → ℕ
unfolding tail_run
same_run_of none beats = 0
same_run_of (some beat) beats = tail_run (is_text beat) beats

unfoldable pub rhythm_of : RhythmBounds → List SceneSample → ℕ → BeatRhythm
unfolding tail_run backwards since_setback polarity_of same_run_of
rhythm_of bounds window unlabeled =
    let beats = map (λ sample. sample.beat_type) window in
    let polarities = map (λ sample. polarity_of sample.scene_turn) window in
    let last_beat = first_of (backwards beats) in
    let same_run = same_run_of last_beat beats in
    let positive_run = tail_run (is_text (codes "positive")) polarities in
    record {
      window_scenes = length window;
      unlabeled_scene_turns = unlabeled;
      beat_sequence = map beat_or_unlabeled (last_of bounds.sequence_length beats);
      same_type_run = same_run;
      same_type_beat = if ltb 0 same_run then last_beat else none;
      positive_ending_run = positive_run;
      null_scene_run = tail_run (is_text (codes "null_scene")) polarities;
      turns_since_setback = since_setback 0 (backwards beats);
      same_type = leb bounds.trigger_same_type_run same_run;
      positive_ending = leb bounds.trigger_positive_run positive_run;
      triggered =
          leb bounds.trigger_same_type_run same_run || leb bounds.trigger_positive_run positive_run;
    }

unfoldable pub compute_beat_rhythm :
    List MemoryRow → RhythmBounds → Result BeatRhythmError BeatRhythm
unfolding collect_scene_samples
compute_beat_rhythm rows bounds =
    let collected = collect_scene_samples rows in
    if (ltb bounds.window_scenes 1 || ltb bounds.sequence_length 1)
      || (ltb bounds.trigger_same_type_run 1 || ltb bounds.trigger_positive_run 1)
    then err beat_rhythm_input_invalid
    else ok (rhythm_of bounds (last_of bounds.window_scenes collected.0) collected.1)
