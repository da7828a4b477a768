-- ===== src/Tests/Proxy.antt =====
-- proxy/provider-step-budget.js, on a sealed budget of a thousand tokens.
use tavern_mnemosyne.Prelude.{
  ◌≡◌, refl, ◌+◌, ◌≤◌, ℕ, [], Option, none, some, Text, codes, arith, pos, ok, length, true,
  text_eq,
}
use tavern_mnemosyne.Contracts.Json.{
  Json, str, num, obj, Fields, end, field, stringify, quote, get_field, non_empty_text,
  safe_positive,
}
use tavern_mnemosyne.Contracts.Identity.{is_hash}
use tavern_mnemosyne.Proxy.StepBudget.{
  create_provider_budget_binding, normalize_provider_budget_binding,
  assert_provider_step_within_budget, estimate_request_tokens,
}
use tavern_mnemosyne.Proxy.Budget.{
  ProviderBudget, Evidence, budget_schema, with_default_limit, constrain_body,
  validate_output_limit, output_limit, check_output_limit, step_index_of,
}
use tavern_mnemosyne.Proxy.StepBudget.Limits.{Limited, step_fits}
use tavern_mnemosyne.Proxy.StepBudget.Sealed.{sealed_value, create-normalize, constrain_default}

abbrev hash : Text → Text
hash t = codes "0123456789abcdef0123456789abcdef0123456789abcdef0123456789abcdef"

abbrev budget : ProviderBudget
budget = record {
  run_id = codes "r";
  configured_context_tokens = 1000;
  output_reserve_tokens = 100;
  provider_input_tokens = 900;
  binding_hash = hash [];
}

abbrev schema : Json
schema = str budget_schema

abbrev run_id : Option Json
run_id = some (str (codes "r"))

budget_made :
    create_provider_budget_binding hash length run_id (some (num (pos 1000))) (some (num (pos 100)))
    ≡ ok budget
unfolding create_provider_budget_binding non_empty_text safe_positive
budget_made = refl

hash_is : (t : Text) → is_hash (hash t) ≡ true
unfolding is_hash
hash_is t = refl

create-normalize_example :
    normalize_provider_budget_binding hash length (some (sealed_value schema budget)) run_id
    ≡ ok budget
create-normalize_example =
    create-normalize hash length hash_is (codes "r") (some (num (pos 1000))) (some (num (pos 100)))
      budget schema budget_made

normalized :
    normalize_provider_budget_binding hash length (some (sealed_value schema budget)) run_id
    ≡ ok budget
normalized =
    create-normalize hash length hash_is (codes "r") (some (num (pos 1000))) (some (num (pos 100)))
      budget schema budget_made

abbrev body : Json
body = obj (field (codes "max_tokens") (num (pos 10)) end)

abbrev evidence : Evidence
evidence = record {
  run_id = codes "r";
  budget_binding_hash = hash [];
  step_index = none;
  measured_input_tokens = length (stringify body) + 64;
  provider_input_tokens = 900;
  request_hash = hash [];
}

step_accepted :
    assert_provider_step_within_budget hash length body
      (some (sealed_value schema budget))
      run_id
      none
    ≡ ok evidence
unfolding assert_provider_step_within_budget validate_output_limit output_limit check_output_limit
    safe_positive get_field text_eq estimate_request_tokens stringify quote step_index_of
step_accepted = rw normalized refl

step_fits_example :
    (b : ProviderBudget) × (n : ℕ) × (normalize_provider_budget_binding hash length
        (some (sealed_value schema budget))
        run_id
      ≡ ok b)
    × Limited hash length body b n
    × (evidence.measured_input_tokens ≡ length (stringify body) + 64)
    × (evidence.measured_input_tokens + n ≤ b.configured_context_tokens)
step_fits_example =
    step_fits hash length body (some (sealed_value schema budget)) run_id none evidence
      step_accepted

abbrev request : Fields
request = field (codes "model") (str (codes "m")) end

no_max : get_field (codes "max_tokens") request ≡ none
unfolding get_field text_eq
no_max = refl

no_max_completion : get_field (codes "max_completion_tokens") request ≡ none
unfolding get_field text_eq
no_max_completion = refl

constrain_default_example :
    (constrain_body (obj request) budget ≡ ok (obj (with_default_limit 100 request)))
    × (get_field (codes "max_tokens") (with_default_limit 100 request) ≡ some (num (pos 100)))
    × ((k : Text) (v : Json)
        → get_field k request ≡ some v
        → get_field k (with_default_limit 100 request) ≡ some v)
constrain_default_example =
    constrain_default request budget no_max no_max_completion (omega arith) (omega arith)
