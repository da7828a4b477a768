-- ===== src/Craft/BeatRhythm/TailRun.antt =====
-- tailRun of craft/beat-rhythm-ledger.js: how long the run at the end of a list is.
use tavern_mnemosyne.Prelude.{
  ℕ, zero, suc, min, ◌+◌, ◌-◌, ◌≡◌, refl, sym, ap, ◌∙◌, subst, ◌≤◌, ◌<◌, Bool, true, List, [], ◌∷◌,
  ◌++◌, map, arith, All, length, length-append, drop, length-drop, Bool-cases, inl, inr, ◌⊎◌,
  if◌then◌else◌,
}
use tavern_mnemosyne.Craft.BeatRhythm.{backwards, leading_run, tail_run, last_of}

le_or_lt : (m n : ℕ) → (m ≤ n) ⊎ (n < m)
le_or_lt m n = omega arith

module _ {ℓ} {A : Type ℓ} where
  drop_nil : (n : ℕ) → drop {A = A} n [] ≡ []
  drop_nil zero = refl
  drop_nil (suc n) = refl

  leading_run-le : (matches : A → Bool) (xs : List A) → leading_run matches xs ≤ length xs
  unfolding leading_run
  leading_run-le matches [] = omega arith
  leading_run-le matches (x ∷ xs) = elim (Bool-cases (matches x)) [
    | inl same ↦ rw same (omega (arith, leading_run-le matches xs))
    | inr other ↦ rw other (omega arith)
  ]

  -- The run of a list that gets one element at its end.
  run_whole-append :
      (matches : A → Bool) (xs : List A) (y : A)
      → leading_run matches xs ≡ length xs
      → leading_run matches (xs ++ y ∷ []) ≡ (if matches y then suc (length xs) else length xs)
  unfolding leading_run
  run_whole-append matches [] y whole = refl
  run_whole-append matches (x ∷ xs) y whole = elim (Bool-cases (matches x)) [
    | inr other ↦ absurd (ground (arith, other, whole))
    | inl same ↦
        let rest = run_whole-append matches xs y (ground (arith, same, whole)) in
        elim (Bool-cases (matches y)) [
          | inl last ↦ ground (arith, same, last, rest)
          | inr last ↦ ground (arith, same, last, rest)
        ]
  ]

  run_part-append :
      (matches : A → Bool) (xs : List A) (y : A)
      → leading_run matches xs < length xs
      → leading_run matches (xs ++ y ∷ []) ≡ leading_run matches xs
  unfolding leading_run
  run_part-append matches [] y part = absurd (omega (arith, part))
  run_part-append matches (x ∷ xs) y part = elim (Bool-cases (matches x)) [
    | inr other ↦ rw other refl
    | inl same ↦ rw same (ap suc (run_part-append matches xs y (ground (arith, same, part))))
  ]

  length-backwards : (xs : List A) → length (backwards xs) ≡ length xs
  unfolding backwards
  length-backwards [] = refl
  length-backwards (x ∷ xs) =
      omega (arith, length-append (backwards xs) (x ∷ []), length-backwards xs)

  pub tail_run-le : (matches : A → Bool) (xs : List A) → tail_run matches xs ≤ length xs
  unfolding tail_run
  tail_run-le matches xs = omega (arith, leading_run-le matches (backwards xs), length-backwards xs)

  tail_run-whole :
      (matches : A → Bool) (x : A) (xs : List A)
      → tail_run matches xs ≡ length xs
      → tail_run matches (x ∷ xs) ≡ (if matches x then suc (length xs) else length xs)
  unfolding tail_run backwards
  tail_run-whole matches x xs whole =
      run_whole-append matches (backwards xs) x (whole ∙ sym (length-backwards xs))
      ∙ rw (length-backwards xs) refl

  tail_run-part :
      (matches : A → Bool) (x : A) (xs : List A)
      → tail_run matches xs < length xs
      → tail_run matches (x ∷ xs) ≡ tail_run matches xs
  unfolding tail_run backwards
  tail_run-part matches x xs part =
      run_part-append matches (backwards xs) x (omega (arith, part, length-backwards xs))

  abbrev AllLast : (A → Bool) → ℕ → List A → Type 0
  AllLast matches n xs = All (λ x. matches x ≡ true) (drop (length xs - n) xs)

  AllLast-cons :
      (matches : A → Bool) (n : ℕ) (x : A) (xs : List A)
      → n ≤ length xs
      → drop (length (x ∷ xs) - n) (x ∷ xs) ≡ drop (length xs - n) xs
  AllLast-cons matches n x xs le =
      let one_less : suc (length xs) - n ≡ suc (length xs - n) = omega (arith, le) in
      rw one_less refl

  -- A run is as long as n exactly when the last n elements are there and match.
  pub run_matches :
      (matches : A → Bool) (n : ℕ) (xs : List A) → n ≤ tail_run matches xs → AllLast matches n xs
  run_matches matches n [] le = subst (All (λ x. matches x ≡ true)) (sym (drop_nil (0 - n))) tt
  run_matches matches n (x ∷ xs) le = elim (le_or_lt n (length xs)) [
    | inl short ↦
        let here : n ≤ tail_run matches xs = elim (le_or_lt (length xs) (tail_run matches xs)) [
          | inl whole ↦ omega (arith, short, whole)
          | inr part ↦ omega (arith, le, tail_run-part matches x xs part)
        ] in
        subst (All (λ x. matches x ≡ true)) (sym (AllLast-cons matches n x xs short))
          (run_matches matches n xs here)
    | inr long ↦ elim (le_or_lt (length xs) (tail_run matches xs)) [
      | inr part ↦ absurd (omega (arith, le, long, part, tail_run-part matches x xs part))
      | inl whole ↦
          let run = tail_run-whole matches x xs (omega (arith, whole, tail_run-le matches xs)) in
          let rest = run_matches matches (length xs) xs whole in
          let none_left : length (x ∷ xs) - n ≡ 0 = omega (arith, long) in
          let none_before : length xs - length xs ≡ 0 = omega arith in
          elim (Bool-cases (matches x)) [
            | inr other ↦ absurd (ground (arith, other, run, le, long))
            | inl same ↦
                subst (λ k. All (λ x. matches x ≡ true) (drop k (x ∷ xs))) (sym none_left)
                  (same, subst (λ k. All (λ x. matches x ≡ true) (drop k xs)) none_before rest)
          ]
    ]
  ]

  pub matches_run :
      (matches : A → Bool) (n : ℕ) (xs : List A)
      → n ≤ length xs
      → AllLast matches n xs
      → n ≤ tail_run matches xs
  matches_run matches n [] le all = omega (arith, le)
  matches_run matches n (x ∷ xs) le all = elim (le_or_lt n (length xs)) [
    | inl short ↦
        let here =
          matches_run matches n xs short
            (subst (All (λ x. matches x ≡ true)) (AllLast-cons matches n x xs short) all) in
        elim (le_or_lt (length xs) (tail_run matches xs)) [
          | inr part ↦ omega (arith, here, tail_run-part matches x xs part)
          | inl whole ↦
              let run =
                tail_run-whole matches x xs (omega (arith, whole, tail_run-le matches xs)) in
              elim (Bool-cases (matches x)) [
                | inl same ↦ ground (arith, run, same, short)
                | inr other ↦ ground (arith, run, other, short)
              ]
        ]
    | inr long ↦
        let none_left : length (x ∷ xs) - n ≡ 0 = omega (arith, long) in
        let none_before : 0 ≡ length xs - length xs = omega arith in
        let whole = subst (λ k. All (λ x. matches x ≡ true) (drop k (x ∷ xs))) none_left all in
        let here =
          matches_run matches (length xs) xs (omega arith)
            (subst (λ k. All (λ x. matches x ≡ true) (drop k xs)) none_before whole.1) in
        let run = tail_run-whole matches x xs (omega (arith, here, tail_run-le matches xs)) in
        ground (arith, run, whole.0, le)
  ]

  drop-drop : (m n : ℕ) (xs : List A) → drop m (drop n xs) ≡ drop (n + m) xs
  drop-drop m zero xs = let same : m ≡ 0 + m = omega arith in ap (λ k. drop k xs) same
  drop-drop m (suc n) [] = drop_nil m ∙ sym (drop_nil (suc n + m))
  drop-drop m (suc n) (x ∷ xs) =
      let one_more : suc (n + m) ≡ suc n + m = omega arith in
      drop-drop m n xs ∙ ap (λ k. drop k (x ∷ xs)) one_more

  -- The last n of the last w.
  pub last_of_last :
      (w n : ℕ) (xs : List A)
      → n ≤ w
      → n ≤ length xs
      → drop (length (last_of w xs) - n) (last_of w xs) ≡ drop (length xs - n) xs
  last_of_last w n xs le few =
      let count : length xs - w + (length (last_of w xs) - n) ≡ length xs - n =
        omega (arith, length-drop (length xs - w) xs, le, few) in
      drop-drop (length (last_of w xs) - n) (length xs - w) xs ∙ ap (λ k. drop k xs) count

  pub last_of-length : (w : ℕ) (xs : List A) → length (last_of w xs) ≡ min w (length xs)
  last_of-length w xs = omega (arith, length-drop (length xs - w) xs)

module _ {ℓ κ} {A : Type ℓ} {B : Type κ} (f : A → B) where
  map_end : (xs : List A) (y : A) → map f (xs ++ y ∷ []) ≡ map f xs ++ f y ∷ []
  map_end [] y = refl
  map_end (x ∷ xs) y = ap (λ rest. f x ∷ rest) (map_end xs y)

  backwards-map : (xs : List A) → backwards (map f xs) ≡ map f (backwards xs)
  unfolding backwards
  backwards-map [] = refl
  backwards-map (x ∷ xs) = rw (backwards-map xs) (sym (map_end (backwards xs) x))

  leading_run-map :
      (matches : B → Bool) (xs : List A)
      → leading_run matches (map f xs) ≡ leading_run (λ x. matches (f x)) xs
  unfolding leading_run
  leading_run-map matches [] = refl
  leading_run-map matches (x ∷ xs) = rw (leading_run-map matches xs) refl

  pub tail_run-map :
      (matches : B → Bool) (xs : List A)
      → tail_run matches (map f xs) ≡ tail_run (λ x. matches (f x)) xs
  unfolding tail_run
  tail_run-map matches xs = rw (backwards-map xs) (leading_run-map matches (backwards xs))
