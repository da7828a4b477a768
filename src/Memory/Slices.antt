-- ===== src/Memory/Slices.antt =====
-- The slices of a text's code points in memory/bounded-memory-read.js.
use mathlib.Core.List.{append_assoc}
use tavern_mnemosyne.Prelude.{
  ℕ, zero, suc, ◌+◌, ◌-◌, ◌≡◌, ◌≤◌, inl, inr, refl, sym, ap, ◌∙◌, ◌&&◌, List, [], ◌∷◌, ◌++◌, Text,
  length, take, drop, arith, Bool-cases, nat_eq,
}
use tavern_mnemosyne.Contracts.Json.{is_high_surrogate, is_low_surrogate}
use tavern_mnemosyne.Memory.Pages.{concat, slice_text, put_unit, split_codepoints}

zero_add : (n : ℕ) → 0 + n ≡ n
zero_add n = omega arith

suc_add : (m n : ℕ) → suc m + n ≡ suc (m + n)
suc_add m n = omega arith

module _ {ℓ} {A : Type ℓ} where
  take_add : (m n : ℕ) (xs : List A) → take (m + n) xs ≡ take m xs ++ take n (drop m xs)
  take_add zero n xs = rw (zero_add n) refl
  take_add (suc m) zero [] = rw (suc_add m zero) refl
  take_add (suc m) (suc n) [] = rw (suc_add m (suc n)) refl
  take_add (suc m) n (x ∷ xs) = rw (suc_add m n) (ap (λ rest. x ∷ rest) (take_add m n xs))

  drop-drop : (m n : ℕ) (xs : List A) → drop n (drop m xs) ≡ drop (m + n) xs
  drop-drop zero n xs = rw (zero_add n) refl
  drop-drop (suc m) zero [] = rw (suc_add m zero) refl
  drop-drop (suc m) (suc n) [] = rw (suc_add m (suc n)) refl
  drop-drop (suc m) n (x ∷ xs) = rw (suc_add m n) (drop-drop m n xs)

  pub take_all : (n : ℕ) (xs : List A) → length xs ≤ n → take n xs ≡ xs
  take_all zero [] h = refl
  take_all (suc n) [] h = refl
  take_all zero (x ∷ xs) h = absurd (omega (arith, h))
  take_all (suc n) (x ∷ xs) h = ap (λ rest. x ∷ rest) (take_all n xs (omega (arith, h)))

concat-append : (xs ys : List Text) → concat (xs ++ ys) ≡ concat xs ++ concat ys
concat-append [] ys = refl
concat-append (s ∷ xs) ys = rw (concat-append xs ys) (sym (append_assoc s (concat xs) (concat ys)))

-- Two slices that meet are one.
pub slice_text-append :
    (codepoints : List Text) (start middle end_offset : ℕ)
    → start ≤ middle
    → middle ≤ end_offset
    → slice_text codepoints start middle ++ slice_text codepoints middle end_offset
      ≡ slice_text codepoints start end_offset
unfolding slice_text
slice_text-append codepoints start middle end_offset before after =
    let rest = drop start codepoints in
    let widths : middle - start + (end_offset - middle) ≡ end_offset - start =
      omega (arith, before, after) in
    let offsets : start + (middle - start) ≡ middle = omega (arith, before) in
    let later : drop (middle - start) rest ≡ drop middle codepoints =
      drop-drop start (middle - start) codepoints ∙ ap (λ n. drop n codepoints) offsets in
    rw (sym widths, take_add (middle - start) (end_offset - middle) rest, later)
      (sym (
        concat-append (take (middle - start) rest)
          (take (end_offset - middle) (drop middle codepoints))))

concat-put_unit : (c : ℕ) (parts : List Text) → concat (put_unit c parts) ≡ c ∷ concat parts
unfolding put_unit
concat-put_unit c [] = refl
concat-put_unit c ([] ∷ rest) = refl
concat-put_unit c ((d ∷ []) ∷ rest) =
    elim (Bool-cases (is_high_surrogate c && (is_low_surrogate d && nat_eq 0 0))) [
      | inl pair ↦ rw pair refl
      | inr single ↦ rw single refl
    ]
concat-put_unit c ((d ∷ e ∷ more) ∷ rest) =
    elim (Bool-cases
      (is_high_surrogate c && (is_low_surrogate d && nat_eq (suc (length more)) 0))) [
        | inl pair ↦ absurd (ground (arith, pair))
        | inr single ↦ rw single refl
      ]

-- The code points of a text are the whole of it.
pub concat-split_codepoints : (s : Text) → concat (split_codepoints s) ≡ s
unfolding split_codepoints
concat-split_codepoints [] = refl
concat-split_codepoints (c ∷ s) =
    concat-put_unit c (split_codepoints s) ∙ ap (λ rest. c ∷ rest) (concat-split_codepoints s)
