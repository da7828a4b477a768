-- ===== src/Proxy/StepBudget/FieldForms.antt =====
-- The forms of a budget's fields in an untyped value of proxy/provider-step-budget.js.
use tavern_mnemosyne.Prelude.{
  ℕ, true, ◌≡◌, ◌≤◌, ◌<◌, inl, inr, none, some, Text, codes, text_eq_iff, arith, pos, Option,
  Option-cases,
}
use tavern_mnemosyne.Contracts.Json.{
  Json, null, bool, num, str, arr, obj, Fields, get_field, safe_positive, non_empty_text,
  max_safe_integer,
}
use tavern_mnemosyne.Proxy.Budget.{ProviderBudget, equals_number, equals_hash, budget_fields_valid}

pub safe_positive_bounds :
    (v : Option Json) (n : ℕ)
    → safe_positive v ≡ some n
    → (0 < n) × (n ≤ max_safe_integer) × (v ≡ some (num (pos n)))
unfolding safe_positive
safe_positive_bounds v n h = ground arith

pub non_empty_text-str : (v : Option Json) (t : Text) → non_empty_text v ≡ some t → v ≡ some (str t)
unfolding non_empty_text
non_empty_text-str v t h = ground arith

pub equals_number-num :
    (n : ℕ) (v : Option Json) → equals_number n v ≡ true → v ≡ some (num (pos n))
equals_number-num n v h = ground arith

pub equals_hash-str : (t : Text) (v : Option Json) → equals_hash t v ≡ true → v ≡ some (str t)
equals_hash-str t none h = ground arith
equals_hash-str t (some null) h = ground arith
equals_hash-str t (some (bool b)) h = ground arith
equals_hash-str t (some (num n)) h = ground arith
equals_hash-str t (some (arr items)) h = ground arith
equals_hash-str t (some (obj fields)) h = ground arith
equals_hash-str t (some (str s)) h = ground (arith, text_eq_iff s t)

pub fields_valid-num :
    (context reserve : Option Json) (c r : ℕ)
    → budget_fields_valid context reserve ≡ some (c, r)
    → (context ≡ some (num (pos c))) × (reserve ≡ some (num (pos r)))
unfolding budget_fields_valid
fields_valid-num context reserve c r h = elim (Option-cases (safe_positive context)) [
  | inl no_context ↦ absurd (ground (arith, no_context))
  | inr (c', hc) ↦ elim (Option-cases (safe_positive reserve)) [
    | inl no_reserve ↦ absurd (ground (arith, hc, no_reserve))
    | inr (r', hr) ↦
        ground
          (arith, hc, hr, safe_positive_bounds context c' hc, safe_positive_bounds reserve r' hr)
  ]
]

-- The fields of a value are those of a budget, each as it is.
pub record Carries (fields : Fields) (b : ProviderBudget) : Type 0 where
  pub of_run : get_field (codes "run_id") fields ≡ some (str b.run_id)
  pub context :
      get_field (codes "configured_context_tokens") fields
      ≡ some (num (pos b.configured_context_tokens))
  pub reserve :
      get_field (codes "output_reserve_tokens") fields ≡ some (num (pos b.output_reserve_tokens))
  pub input :
      get_field (codes "provider_input_tokens") fields ≡ some (num (pos b.provider_input_tokens))
  pub hash : get_field (codes "binding_hash") fields ≡ some (str b.binding_hash)

pub fields_valid_bounds :
    (context reserve : Option Json) (c r : ℕ)
    → budget_fields_valid context reserve ≡ some (c, r)
    → (0 < r) × (r < c) × (c ≤ max_safe_integer)
unfolding budget_fields_valid
fields_valid_bounds context reserve c r h = elim (Option-cases (safe_positive context)) [
  | inl no_context ↦ absurd (ground (arith, no_context))
  | inr (c', hc) ↦ elim (Option-cases (safe_positive reserve)) [
    | inl no_reserve ↦ absurd (ground (arith, hc, no_reserve))
    | inr (r', hr) ↦
        ground
          (arith, hc, hr, safe_positive_bounds context c' hc, safe_positive_bounds reserve r' hr)
  ]
]
