-- ===== src/Proxy/Budget.antt =====
-- proxy/provider-step-budget.js: its data, the forms of a budget and a policy, and the checks that need
-- neither a hash nor the tokenizer. A caller's untyped value is a `Json`, or `none` for `undefined`.
use tavern_mnemosyne.Prelude.{
  ℕ, ◌-◌, Bool, true, false, ◌&&◌, List, [], ◌∷◌, Option, none, some, ltb, leb, nat_eq, text_eq,
  Text, codes, if◌then◌else◌, pos, Result, ok, err, ◌>>=◌, ◌>>◌,
}
use tavern_mnemosyne.Contracts.Identity.{is_hash}
use tavern_mnemosyne.Contracts.Json.{
  Json, str, num, obj, Fields, end, field, get_field, safe_positive, max_safe_integer,
}

abbrev pub request_safety_tokens : ℕ
request_safety_tokens = 64

-- The `failure` of a `provider_budget_binding_invalid`.
pub data BindingFailure : Type 0 where
  fields_invalid policy_fields_invalid shape_invalid run_identity_mismatch : BindingFailure
  seal_mismatch : BindingFailure

pub data OutputFailure : Type 0 where
  request_body_invalid output_limit_missing output_limit_ambiguous : OutputFailure
  output_limit_invalid : OutputFailure

pub data BudgetError : Type 0 where
  provider_budget_binding_invalid : BindingFailure → BudgetError
  provider_budget_policy_invalid : BindingFailure → BudgetError
  provider_budget_policy_unavailable provider_budget_policy_mismatch : BudgetError
  provider_output_budget_invalid : OutputFailure → BudgetError
  provider_output_budget_exceeded provider_step_budget_exceeded : BudgetError

pub record ProviderBudget : Type 0 where
  pub run_id : Text
  pub configured_context_tokens : ℕ
  pub output_reserve_tokens : ℕ
  pub provider_input_tokens : ℕ
  pub binding_hash : Text

pub record ProviderPolicy : Type 0 where
  pub configured_context_tokens : ℕ
  pub output_reserve_tokens : ℕ
  pub provider_input_tokens : ℕ
  pub policy_hash : Text

pub record Estimate : Type 0 where
  pub encoded_request_tokens : ℕ
  pub measured_input_tokens : ℕ
  pub request_hash : Text

pub record Evidence : Type 0 where
  pub run_id : Text
  pub budget_binding_hash : Text
  pub step_index : Option ℕ
  pub measured_input_tokens : ℕ
  pub provider_input_tokens : ℕ
  pub request_hash : Text

abbrev pub budget_schema : Text
budget_schema = codes "mnemosyne.provider-budget.v1"

abbrev pub policy_schema : Text
policy_schema = codes "mnemosyne.provider-budget-policy.v1"

abbrev pub tokenizer_profile : Text
tokenizer_profile = codes "openai:o200k_base.v1"

-- PROVIDER_BUDGET_KEYS
abbrev pub budget_keys : List Text
budget_keys =
    codes "schema"
    ∷ codes "run_id"
    ∷ codes "configured_context_tokens"
    ∷ codes "output_reserve_tokens"
    ∷ codes "provider_input_tokens"
    ∷ codes "binding_hash"
    ∷ []

-- PROVIDER_BUDGET_POLICY_KEYS
abbrev pub policy_keys : List Text
policy_keys =
    codes "schema"
    ∷ codes "configured_context_tokens"
    ∷ codes "output_reserve_tokens"
    ∷ codes "provider_input_tokens"
    ∷ codes "tokenizer_profile"
    ∷ codes "request_safety_tokens"
    ∷ codes "policy_hash"
    ∷ []

-- The payload that a binding seals, before `tail`.
unfoldable pub budget_fields : Json → Text → ℕ → ℕ → ℕ → Fields → Fields
budget_fields schema run_id context reserve input tail = field (codes "schema") schema (
    field (codes "run_id") (str run_id) (
      field (codes "configured_context_tokens") (num (pos context)) (
        field (codes "output_reserve_tokens") (num (pos reserve))
          (field (codes "provider_input_tokens") (num (pos input)) tail))))

-- `providerBudgetPayload`
unfoldable pub budget_payload : Text → ℕ → ℕ → Json
unfolding budget_fields
budget_payload run_id context reserve =
    obj (budget_fields (str budget_schema) run_id context reserve (context - reserve) end)

unfoldable pub policy_payload : ℕ → ℕ → Json
policy_payload context reserve = obj (
    field (codes "schema") (str policy_schema) (
      field (codes "configured_context_tokens") (num (pos context)) (
        field (codes "output_reserve_tokens") (num (pos reserve)) (
          field (codes "provider_input_tokens") (num (pos (context - reserve))) (
            field (codes "tokenizer_profile") (str tokenizer_profile)
              (field (codes "request_safety_tokens") (num (pos request_safety_tokens)) end))))))

-- `providerBudgetFieldsValid`: the two numbers, when they are valid.
unfoldable pub budget_fields_valid : Option Json → Option Json → Option (ℕ × ℕ)
budget_fields_valid context reserve = elim (safe_positive context) [
  | none ↦ none
  | some c ↦ elim (safe_positive reserve) [
    | none ↦ none
    | some r ↦ if ltb r c then some (c, r) else none
  ]
]

abbrev pub equals_number : ℕ → Option Json → Bool
equals_number n (some (num (pos m))) = nat_eq m n
equals_number n _ = false

abbrev pub equals_text : Text → Option Json → Bool
equals_text t (some (str s)) = text_eq s t
equals_text t _ = false

-- The pattern of a hash and the comparison with the expected one.
abbrev pub equals_hash : Text → Option Json → Bool
equals_hash t (some (str s)) = is_hash s && text_eq s t
equals_hash t _ = false

unfoldable pub step_index_of : Option Json → Option ℕ
step_index_of (some (num (pos n))) = if leb n max_safe_integer then some n else none
step_index_of _ = none

-- The single output limit of a request: `max_tokens` or `max_completion_tokens`, not both.
unfoldable pub output_limit : Fields → Result BudgetError Json
output_limit fields = elim (get_field (codes "max_tokens") fields) [
  | none ↦ elim (get_field (codes "max_completion_tokens") fields) [
    | none ↦ err (provider_output_budget_invalid output_limit_missing)
    | some limit ↦ ok limit
  ]
  | some limit ↦ elim (get_field (codes "max_completion_tokens") fields) [
    | none ↦ ok limit
    | some _ ↦ err (provider_output_budget_invalid output_limit_ambiguous)
  ]
]

unfoldable pub check_output_limit : Json → ℕ → Result BudgetError (Unit {0})
check_output_limit limit reserve = elim (safe_positive (some limit)) [
  | none ↦ err (provider_output_budget_invalid output_limit_invalid)
  | some n ↦ if ltb reserve n then err provider_output_budget_exceeded else ok tt
]

unfoldable pub validate_output_limit : Json → ProviderBudget → Result BudgetError (Unit {0})
validate_output_limit (obj fields) budget = do
  limit ← output_limit fields
  check_output_limit limit budget.output_reserve_tokens
validate_output_limit _ budget = err (provider_output_budget_invalid request_body_invalid)

-- `constrained.max_tokens = …`, where neither limit is given.
unfoldable pub with_default_limit : ℕ → Fields → Fields
with_default_limit reserve end = field (codes "max_tokens") (num (pos reserve)) end
with_default_limit reserve (field k v fields) = field k v (with_default_limit reserve fields)

abbrev has_limit : Fields → Bool
has_limit fields = elim (get_field (codes "max_tokens") fields) [
  | some _ ↦ true
  | none ↦ elim (get_field (codes "max_completion_tokens") fields) [ some _ ↦ true | none ↦ false ]
]

unfoldable pub default_limit : ℕ → Fields → Fields
unfolding with_default_limit
default_limit reserve fields =
    if has_limit fields then fields else with_default_limit reserve fields

unfoldable pub constrain_body : Json → ProviderBudget → Result BudgetError Json
constrain_body (obj fields) budget =
    let constrained = obj (default_limit budget.output_reserve_tokens fields) in
    validate_output_limit constrained budget >> ok constrained
constrain_body _ budget = err (provider_output_budget_invalid request_body_invalid)
