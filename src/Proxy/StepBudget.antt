-- ===== src/Proxy/StepBudget.antt =====
-- proxy/provider-step-budget.js. A caller's untyped value is a `Json`, or `none` for `undefined`.
pub mod FieldForms
pub mod Sealed
pub mod Limits
use tavern_mnemosyne.Prelude.{
  ℕ, suc, ◌+◌, ◌-◌, Bool, true, false, not, ◌&&◌, ◌||◌, List, [], ◌∷◌, Option, none, some, ltb, leb,
  nat_eq, text_eq, Text, codes, if◌then◌else◌, length, ℤ, pos, negsuc, Result, ok, err, ◌>>=◌, ◌>>◌,
  guard,
}
use tavern_mnemosyne.Contracts.Identity.{is_hash}
use tavern_mnemosyne.Contracts.Json.{
  Json, str, num, obj, Fields, end, field, canonical_json, stringify, get_field, count_fields,
  keys_within, safe_positive, non_empty_text, max_safe_integer,
}
use tavern_mnemosyne.Proxy.Budget.{
  BudgetError, Estimate, Evidence, ProviderBudget, ProviderPolicy, budget_fields_valid, budget_keys,
  budget_payload, constrain_body, equals_hash, equals_number, equals_text, fields_invalid,
  policy_fields_invalid, policy_keys, policy_payload, policy_schema,
  provider_budget_binding_invalid, provider_budget_policy_invalid, provider_budget_policy_mismatch,
  provider_budget_policy_unavailable, provider_step_budget_exceeded, request_safety_tokens,
  run_identity_mismatch, seal_mismatch, shape_invalid, step_index_of, tokenizer_profile,
  validate_output_limit,
}

-- A `catch` that throws its own error.
abbrev rethrow {ℓ} : {A : Type ℓ} → BudgetError → Result BudgetError A → Result BudgetError A
rethrow e (ok a) = ok a
rethrow e (err _) = err e

abbrev is_nullish : Option Json → Bool
is_nullish none = true
is_nullish (some Json.null) = true
is_nullish (some _) = false

-- `sha256` is node:crypto's, `encoded_length` the length of tiktoken's encoding.
module _ (sha256 : Text → Text) (encoded_length : Text → ℕ) where
  unfoldable pub create_provider_budget_binding :
      Option Json → Option Json → Option Json → Result BudgetError ProviderBudget
  unfolding budget_payload budget_fields_valid
  create_provider_budget_binding run_id context reserve = elim (non_empty_text run_id) [
    | none ↦ err (provider_budget_binding_invalid fields_invalid)
    | some id ↦ elim (budget_fields_valid context reserve) [
      | none ↦ err (provider_budget_binding_invalid fields_invalid)
      | some (c, r) ↦ ok (record {
        run_id = id;
        configured_context_tokens = c;
        output_reserve_tokens = r;
        provider_input_tokens = c - r;
        binding_hash = sha256 (canonical_json (budget_payload id c r));
      })
    ]
  ]

  unfoldable pub create_provider_budget_policy :
      Option Json → Option Json → Result BudgetError ProviderPolicy
  unfolding policy_payload budget_fields_valid
  create_provider_budget_policy context reserve = elim (budget_fields_valid context reserve) [
    | none ↦ err (provider_budget_binding_invalid policy_fields_invalid)
    | some (c, r) ↦ ok (record {
      configured_context_tokens = c;
      output_reserve_tokens = r;
      provider_input_tokens = c - r;
      policy_hash = sha256 (canonical_json (policy_payload c r));
    })
  ]

  unfoldable pub normalize_fields : Fields → Option Json → Result BudgetError ProviderBudget
  normalize_fields fields run_id = do
    expected ← rethrow (provider_budget_binding_invalid fields_invalid) (
        create_provider_budget_binding (get_field (codes "run_id") fields)
          (get_field (codes "configured_context_tokens") fields)
          (get_field (codes "output_reserve_tokens") fields))
    guard (elim (non_empty_text run_id) [ none ↦ false | some id ↦ text_eq expected.run_id id ])
        (provider_budget_binding_invalid run_identity_mismatch)
    guard
        (equals_number expected.provider_input_tokens
            (get_field (codes "provider_input_tokens") fields)
          && equals_hash expected.binding_hash (get_field (codes "binding_hash") fields))
        (provider_budget_binding_invalid seal_mismatch)
    ok expected

  unfoldable pub normalize_provider_budget_binding :
      Option Json → Option Json → Result BudgetError ProviderBudget
  normalize_provider_budget_binding (some (obj fields)) run_id =
      guard (nat_eq (count_fields fields) 6 && keys_within budget_keys fields)
        (provider_budget_binding_invalid shape_invalid)
      >> normalize_fields fields run_id
  normalize_provider_budget_binding _ run_id = err (provider_budget_binding_invalid shape_invalid)

  unfoldable pub normalize_policy_fields : Fields → Result BudgetError ProviderPolicy
  normalize_policy_fields fields = do
    expected ← rethrow (provider_budget_policy_invalid fields_invalid) (
        create_provider_budget_policy (get_field (codes "configured_context_tokens") fields)
          (get_field (codes "output_reserve_tokens") fields))
    guard
        (equals_text policy_schema (get_field (codes "schema") fields)
          && (equals_number expected.provider_input_tokens
                (get_field (codes "provider_input_tokens") fields)
              && (equals_text tokenizer_profile (get_field (codes "tokenizer_profile") fields)
                  && (equals_number request_safety_tokens
                        (get_field (codes "request_safety_tokens") fields)
                      && equals_hash expected.policy_hash
                          (get_field (codes "policy_hash") fields)))))
        (provider_budget_policy_invalid seal_mismatch)
    ok expected

  unfoldable pub normalize_provider_budget_policy : Option Json → Result BudgetError ProviderPolicy
  normalize_provider_budget_policy (some (obj fields)) =
      guard (nat_eq (count_fields fields) 7 && keys_within policy_keys fields)
        (provider_budget_policy_invalid shape_invalid)
      >> normalize_policy_fields fields
  normalize_provider_budget_policy _ = err (provider_budget_policy_invalid shape_invalid)

  unfoldable pub assert_provider_budget_matches_policy :
      Option Json → Option Json → Option Json → Result BudgetError ProviderBudget
  assert_provider_budget_matches_policy budget policy run_id = do
    guard (not (is_nullish policy)) provider_budget_policy_unavailable
    p ← normalize_provider_budget_policy policy
    b ← normalize_provider_budget_binding budget run_id
    guard
        (nat_eq b.configured_context_tokens p.configured_context_tokens
          && (nat_eq b.output_reserve_tokens p.output_reserve_tokens
              && nat_eq b.provider_input_tokens p.provider_input_tokens))
        provider_budget_policy_mismatch
    ok b

  -- `estimateOpenAiRequestTokens`
  unfoldable pub estimate_request_tokens : Json → Estimate
  estimate_request_tokens body = record {
    encoded_request_tokens = encoded_length (stringify body);
    measured_input_tokens = encoded_length (stringify body) + request_safety_tokens;
    request_hash = sha256 (stringify body);
  }

  unfoldable pub constrain_provider_request_output :
      Json → Option Json → Option Json → Result BudgetError Json
  constrain_provider_request_output body budget run_id = do
    b ← normalize_provider_budget_binding budget run_id
    constrain_body body b

  unfoldable pub assert_provider_step_within_budget :
      Json → Option Json → Option Json → Option Json → Result BudgetError Evidence
  assert_provider_step_within_budget body budget run_id step_index = do
    b ← normalize_provider_budget_binding budget run_id
    _ ← validate_output_limit body b
    let estimate = estimate_request_tokens body
    guard (leb estimate.measured_input_tokens b.provider_input_tokens) provider_step_budget_exceeded
    ok (record {
      run_id = b.run_id;
      budget_binding_hash = b.binding_hash;
      step_index = step_index_of step_index;
      measured_input_tokens = estimate.measured_input_tokens;
      provider_input_tokens = b.provider_input_tokens;
      request_hash = estimate.request_hash;
    })
