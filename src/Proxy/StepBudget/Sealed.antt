-- ===== src/Proxy/StepBudget/Sealed.antt =====
-- Sealing and checking a budget: the round trip, and the default output limit.
use tavern_mnemosyne.Prelude.{
  ℕ, ◌≡◌, refl, ◌≤◌, ◌<◌, inl, inr, true, false, none, some, Option, if◌then◌else◌, Text, codes,
  text_eq, arith, pos, ok, Option-cases, text_eq_refl, [], ◌∷◌, any,
}
use tavern_mnemosyne.Contracts.Identity.{is_hash}
use tavern_mnemosyne.Contracts.Json.{
  Json, num, str, obj, Fields, end, field, canonical_json, get_field, count_fields, keys_within,
  safe_positive, non_empty_text, max_safe_integer,
}
use tavern_mnemosyne.Proxy.StepBudget.{
  create_provider_budget_binding, normalize_fields, normalize_provider_budget_binding,
}
use tavern_mnemosyne.Proxy.Budget.{
  ProviderBudget, budget_fields, budget_keys, budget_payload, budget_fields_valid, output_limit,
  validate_output_limit, check_output_limit, with_default_limit, default_limit, constrain_body,
}
use tavern_mnemosyne.Proxy.StepBudget.FieldForms.{safe_positive_bounds}

-- The object that a caller sends back: the sealed payload under `schema`, with its hash.
abbrev sealed_fields : Json → ProviderBudget → Fields
sealed_fields schema b =
    budget_fields schema b.run_id b.configured_context_tokens b.output_reserve_tokens
      b.provider_input_tokens (field (codes "binding_hash") (str b.binding_hash) end)

unfoldable pub sealed_value : Json → ProviderBudget → Json
unfolding budget_fields
sealed_value schema b = obj (sealed_fields schema b)

sealed_shape :
    (schema : Json) (run_id hash : Text) (context reserve input : ℕ)
    → let fields =
        budget_fields schema run_id context reserve input
          (field (codes "binding_hash") (str hash) end) in
      (count_fields fields ≡ 6)
      × (keys_within budget_keys fields ≡ true)
      × (get_field (codes "run_id") fields ≡ some (str run_id))
      × (get_field (codes "configured_context_tokens") fields ≡ some (num (pos context)))
      × (get_field (codes "output_reserve_tokens") fields ≡ some (num (pos reserve)))
      × (get_field (codes "provider_input_tokens") fields ≡ some (num (pos input)))
      × (get_field (codes "binding_hash") fields ≡ some (str hash))
unfolding budget_fields count_fields keys_within get_field text_eq any
sealed_shape schema run_id hash context reserve input = (refl, refl, refl, refl, refl, refl, refl)

non_empty_text_same : (s id : Text) → non_empty_text (some (str s)) ≡ some id → id ≡ s
unfolding non_empty_text
non_empty_text_same [] id h = absurd (ground arith)
non_empty_text_same (c ∷ s) id h = ground arith

-- The two numbers, read back from what is sent, are valid again.
valid_again :
    (context reserve : Option Json) (c r : ℕ)
    → budget_fields_valid context reserve ≡ some (c, r)
    → budget_fields_valid (some (num (pos c))) (some (num (pos r))) ≡ some (c, r)
unfolding budget_fields_valid
valid_again context reserve c r h = elim (Option-cases (safe_positive context)) [
  | inl no_context ↦ absurd (ground (arith, no_context))
  | inr (c', hc) ↦ elim (Option-cases (safe_positive reserve)) [
    | inl no_reserve ↦ absurd (ground (arith, hc, no_reserve))
    | inr (r', hr) ↦ ground (
      arith,
      hc,
      hr,
      (safe_positive_bounds context c' hc).2,
      (safe_positive_bounds reserve r' hr).2,
    )
  ]
]

module _ (sha256 : Text → Text) (encoded_length : Text → ℕ)
    (hashes : (t : Text) → is_hash (sha256 t) ≡ true) where
  create_again :
      (run_id : Text) (context reserve : Option Json) (b : ProviderBudget)
      → create_provider_budget_binding sha256 encoded_length (some (str run_id)) context reserve
        ≡ ok b
      → (b.run_id ≡ run_id)
        × (non_empty_text (some (str run_id)) ≡ some run_id)
        × (is_hash b.binding_hash ≡ true)
        × (create_provider_budget_binding sha256 encoded_length
              (some (str b.run_id))
              (some (num (pos b.configured_context_tokens)))
              (some (num (pos b.output_reserve_tokens)))
            ≡ ok b)
  unfolding create_provider_budget_binding
  create_again run_id context reserve b h =
      elim (Option-cases (non_empty_text (some (str run_id)))) [
        | inl no_run ↦ absurd (ground (arith, no_run))
        | inr (id, hid) ↦ elim (Option-cases (budget_fields_valid context reserve)) [
          | inl bad ↦ absurd (ground (arith, hid, bad))
          | inr (cr, hcr) ↦
              let same = non_empty_text_same run_id id hid in
              let again = valid_again context reserve cr.0 cr.1 hcr in
              let hash = hashes (canonical_json (budget_payload id cr.0 cr.1)) in
              (
                ground (arith, hid, hcr, same),
                ground (arith, hid, same),
                ground (arith, hid, hcr, hash),
                ground (arith, hid, hcr, same, again),
              )
        ]
      ]

  normalize_sealed :
      (fields : Fields) (b : ProviderBudget) (run_id : Text)
      → create_provider_budget_binding sha256 encoded_length
          (some (str b.run_id))
          (some (num (pos b.configured_context_tokens)))
          (some (num (pos b.output_reserve_tokens)))
        ≡ ok b
      → b.run_id ≡ run_id
      → non_empty_text (some (str run_id)) ≡ some run_id
      → is_hash b.binding_hash ≡ true
      → get_field (codes "run_id") fields ≡ some (str b.run_id)
      → get_field (codes "configured_context_tokens") fields
        ≡ some (num (pos b.configured_context_tokens))
      → get_field (codes "output_reserve_tokens") fields ≡ some (num (pos b.output_reserve_tokens))
      → get_field (codes "provider_input_tokens") fields ≡ some (num (pos b.provider_input_tokens))
      → get_field (codes "binding_hash") fields ≡ some (str b.binding_hash)
      → normalize_fields sha256 encoded_length fields (some (str run_id)) ≡ ok b
  unfolding normalize_fields
  normalize_sealed fields b run_id again run valid hash at_run at_context at_reserve at_input
        at_hash =
      ground (arith, text_eq_refl b.run_id, text_eq_refl b.binding_hash)

  -- Where sha256 gives 64 hexadecimal digits, a binding made for a run is accepted for that run, whatever
  -- its `schema` field says.
  pub create-normalize :
      (run_id : Text) (context reserve : Option Json) (b : ProviderBudget) (schema : Json)
      → create_provider_budget_binding sha256 encoded_length (some (str run_id)) context reserve
        ≡ ok b
      → normalize_provider_budget_binding sha256 encoded_length
          (some (sealed_value schema b))
          (some (str run_id))
        ≡ ok b
  unfolding normalize_provider_budget_binding sealed_value
  create-normalize run_id context reserve b schema h =
      let (run, valid, hash, again) = create_again run_id context reserve b h in
      let (size, within, at_run, at_context, at_reserve, at_input, at_hash) =
        sealed_shape schema b.run_id b.binding_hash b.configured_context_tokens
          b.output_reserve_tokens b.provider_input_tokens in
      ground (
        arith,
        size,
        within,
        normalize_sealed (sealed_fields schema b) b run_id again run valid hash at_run at_context
            at_reserve at_input at_hash,
      )

get_field-with_default :
    (k : Text) (reserve : ℕ) (fields : Fields)
    → get_field k fields ≡ none
    → get_field k (with_default_limit reserve fields)
      ≡ (if text_eq (codes "max_tokens") k then some (num (pos reserve)) else none)
unfolding get_field with_default_limit
get_field-with_default k reserve end absent = refl
get_field-with_default k reserve (field j v fields) absent =
    ground (arith, get_field-with_default k reserve fields)

get_field-with_default_kept :
    (k : Text) (v : Json) (reserve : ℕ) (fields : Fields)
    → get_field k fields ≡ some v
    → get_field k (with_default_limit reserve fields) ≡ some v
unfolding get_field with_default_limit
get_field-with_default_kept k v reserve end found = absurd (ground arith)
get_field-with_default_kept k v reserve (field j w fields) found =
    ground (arith, get_field-with_default_kept k v reserve fields)

abbrev max_tokens : Text
max_tokens = codes "max_tokens"

abbrev max_completion_tokens : Text
max_completion_tokens = codes "max_completion_tokens"

max_completion_other : text_eq max_tokens max_completion_tokens ≡ false
unfolding text_eq
max_completion_other = refl

-- With a positive safe reserve, a request with no limit is accepted with the whole reserve as its
-- `max_tokens`, and keeps its fields.
pub constrain_default :
    (fields : Fields) (b : ProviderBudget)
    → get_field max_tokens fields ≡ none
    → get_field max_completion_tokens fields ≡ none
    → 0 < b.output_reserve_tokens
    → b.output_reserve_tokens ≤ max_safe_integer
    → let constrained = with_default_limit b.output_reserve_tokens fields in
      (constrain_body (obj fields) b ≡ ok (obj constrained))
      × (get_field max_tokens constrained ≡ some (num (pos b.output_reserve_tokens)))
      × ((k : Text) (v : Json) → get_field k fields ≡ some v → get_field k constrained ≡ some v)
unfolding constrain_body default_limit validate_output_limit output_limit check_output_limit
    safe_positive
constrain_default fields b no_limit no_completion positive safe =
    let given =
      rw (text_eq_refl max_tokens) at
        (get_field-with_default max_tokens b.output_reserve_tokens fields no_limit) in
    let completion =
      rw max_completion_other at (
        get_field-with_default max_completion_tokens b.output_reserve_tokens fields
          no_completion) in
    (
      ground (arith, given, completion),
      given,
      λ k v found. get_field-with_default_kept k v b.output_reserve_tokens fields found,
    )
