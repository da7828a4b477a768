-- ===== src/History/Sorting.antt =====
-- What sort_by keeps, and the order it makes: lemmas on the sorts of the ledgers and of the run journals.
use tavern_mnemosyne.Prelude.{
  ℕ, zero, suc, ◌≡◌, refl, ◌∙◌, ap, ◌≤◌, Bool, true, false, ◌||◌, List, [], ◌∷◌, arith, All, length,
  take, drop, any, Bool-cases, inl, inr,
}
use tavern_mnemosyne.History.Records.{insert_by, sort_by}

module _ {ℓ} {A : Type ℓ} where
  pub take_all : (n : ℕ) (xs : List A) → length xs ≤ n → take n xs ≡ xs
  take_all zero [] le = refl
  take_all zero (x ∷ xs) le = ground (arith, le)
  take_all (suc n) [] le = refl
  take_all (suc n) (x ∷ xs) le = ap (λ ys. x ∷ ys) (take_all n xs (omega (arith, le)))

  any-insert_by :
      (p : A → Bool) (leb : A → A → Bool) (x : A) (xs : List A)
      → any p (insert_by leb x xs) ≡ p x || any p xs
  unfolding any insert_by
  any-insert_by p leb x [] = refl
  any-insert_by p leb x (y ∷ ys) = ground (arith, any-insert_by p leb x ys)

  pub any-sort_by :
      (p : A → Bool) (leb : A → A → Bool) (xs : List A) → any p (sort_by leb xs) ≡ any p xs
  unfolding any sort_by
  any-sort_by p leb [] = refl
  any-sort_by p leb (x ∷ xs) =
      ground (arith, any-insert_by p leb x (sort_by leb xs), any-sort_by p leb xs)

  length-insert_by :
      (leb : A → A → Bool) (x : A) (xs : List A) → length (insert_by leb x xs) ≡ suc (length xs)
  unfolding insert_by
  length-insert_by leb x [] = refl
  length-insert_by leb x (y ∷ ys) = ground (arith, length-insert_by leb x ys)

  pub length-sort_by : (leb : A → A → Bool) (xs : List A) → length (sort_by leb xs) ≡ length xs
  unfolding sort_by
  length-sort_by leb [] = refl
  length-sort_by leb (x ∷ xs) =
      length-insert_by leb x (sort_by leb xs) ∙ ap suc (length-sort_by leb xs)

module _ {ℓ κ} {A : Type ℓ} (P : A → Type κ) (leb : A → A → Bool) where
  All-insert_by : (x : A) (xs : List A) → P x → All P xs → All P (insert_by leb x xs)
  unfolding insert_by
  All-insert_by x [] px all = (px, tt)
  All-insert_by x (y ∷ ys) px all = elim (Bool-cases (leb x y)) [
    | inl before ↦ rw before (px, all)
    | inr after ↦ rw after (all.0, All-insert_by x ys px all.1)
  ]

  pub All-sort_by : (xs : List A) → All P xs → All P (sort_by leb xs)
  unfolding sort_by
  All-sort_by [] all = tt
  All-sort_by (x ∷ xs) all = All-insert_by x (sort_by leb xs) all.0 (All-sort_by xs all.1)

module _ {ℓ κ} {A : Type ℓ} (P : A → Type κ) where
  pub All-take : (n : ℕ) (xs : List A) → All P xs → All P (take n xs)
  All-take zero xs all = tt
  All-take (suc n) [] all = tt
  All-take (suc n) (x ∷ xs) all = (all.0, All-take n xs all.1)

-- Sorting by a measure, the least first.
module _ {ℓ} {A : Type ℓ} (measure : A → ℕ) where
  abbrev pub Ascending : List A → Type 0
  Ascending [] = Unit
  Ascending (x ∷ xs) = All (λ y. measure x ≤ measure y) xs × Ascending xs

  All-from :
      (a b : ℕ) (xs : List A) → a ≤ b → All (λ y. b ≤ measure y) xs → All (λ y. a ≤ measure y) xs
  All-from a b [] le all = tt
  All-from a b (x ∷ xs) le all = (omega (arith, all.0), All-from a b xs le all.1)

  module _ (leb : A → A → Bool) (before_le : (a b : A) → leb a b ≡ true → measure a ≤ measure b)
      (after_le : (a b : A) → leb a b ≡ false → measure b ≤ measure a) where
    insert-Ascending : (x : A) (xs : List A) → Ascending xs → Ascending (insert_by leb x xs)
    unfolding insert_by
    insert-Ascending x [] up = (tt, tt)
    insert-Ascending x (y ∷ xs) up = elim (Bool-cases (leb x y)) [
      | inl before ↦
          let le = before_le x y before in
          rw before ((le, All-from (measure x) (measure y) xs le up.0), up)
      | inr after ↦ rw after (
        All-insert_by (λ z. measure y ≤ measure z) leb x xs (after_le x y after) up.0,
        insert-Ascending x xs up.1,
      )
    ]

    pub sort-Ascending : (xs : List A) → Ascending (sort_by leb xs)
    unfolding sort_by
    sort-Ascending [] = tt
    sort-Ascending (x ∷ xs) = insert-Ascending x (sort_by leb xs) (sort-Ascending xs)

-- Sorting by a measure, the greatest first.
module _ {ℓ} {A : Type ℓ} (measure : A → ℕ) where
  -- None of the list measures more than a bound.
  abbrev pub AtMost : ℕ → List A → Type 0
  AtMost bound xs = All (λ x. measure x ≤ bound) xs

  abbrev pub Descending : List A → Type 0
  Descending [] = Unit
  Descending (x ∷ xs) = AtMost (measure x) xs × Descending xs

  AtMost-le : (a b : ℕ) (xs : List A) → a ≤ b → AtMost a xs → AtMost b xs
  AtMost-le a b [] le bound = tt
  AtMost-le a b (x ∷ xs) le bound = (omega (arith, bound.0), AtMost-le a b xs le bound.1)

  AtMost-drop : (bound k : ℕ) (xs : List A) → AtMost bound xs → AtMost bound (drop k xs)
  AtMost-drop bound zero xs all = all
  AtMost-drop bound (suc k) [] all = tt
  AtMost-drop bound (suc k) (x ∷ xs) all = AtMost-drop bound k xs all.1

  -- What is taken measures at least what is left.
  pub take_above_drop :
      (k : ℕ) (xs : List A) → Descending xs → All (λ x. AtMost (measure x) (drop k xs)) (take k xs)
  take_above_drop zero xs down = tt
  take_above_drop (suc k) [] down = tt
  take_above_drop (suc k) (x ∷ xs) down =
      (AtMost-drop (measure x) k xs down.0, take_above_drop k xs down.1)

  module _ (leb : A → A → Bool) (before_le : (a b : A) → leb a b ≡ true → measure b ≤ measure a)
      (after_le : (a b : A) → leb a b ≡ false → measure a ≤ measure b) where
    insert-Descending : (x : A) (xs : List A) → Descending xs → Descending (insert_by leb x xs)
    unfolding insert_by
    insert-Descending x [] down = (tt, tt)
    insert-Descending x (y ∷ xs) down = elim (Bool-cases (leb x y)) [
      | inl before ↦
          let le = before_le x y before in
          rw before ((le, AtMost-le (measure y) (measure x) xs le down.0), down)
      | inr after ↦ rw after (
        All-insert_by (λ z. measure z ≤ measure y) leb x xs (after_le x y after) down.0,
        insert-Descending x xs down.1,
      )
    ]

    pub sort-Descending : (xs : List A) → Descending (sort_by leb xs)
    unfolding sort_by
    sort-Descending [] = tt
    sort-Descending (x ∷ xs) = insert-Descending x (sort_by leb xs) (sort-Descending xs)
