-- ===== src/Proxy/StepBudget/Limits.antt =====
-- What an accepted step may use: the sealed context bounds its input and its output together.
use tavern_mnemosyne.Prelude.{
  ℕ, ◌+◌, ◌≡◌, refl, ◌≤◌, ◌<◌, inl, inr, some, Text, codes, text_eq_iff, arith, pos, ok, Option,
  Option-cases, Result-cases,
}
use tavern_mnemosyne.Contracts.Json.{
  Json, num, str, obj, Fields, canonical_json, stringify, get_field, safe_positive, non_empty_text,
  max_safe_integer,
}
use tavern_mnemosyne.Proxy.StepBudget.{
  create_provider_budget_binding, normalize_fields, normalize_provider_budget_binding,
  estimate_request_tokens, assert_provider_step_within_budget,
}
use tavern_mnemosyne.Proxy.Budget.{
  ProviderBudget, Evidence, budget_payload, budget_fields_valid, output_limit, check_output_limit,
  validate_output_limit,
}
use tavern_mnemosyne.Proxy.StepBudget.FieldForms.{
  safe_positive_bounds, non_empty_text-str, equals_number-num, equals_hash-str, fields_valid-num,
  fields_valid_bounds, Carries,
}

module _ (sha256 : Text → Text) (encoded_length : Text → ℕ) where
  -- A sealed budget: its numbers are consistent, and its hash is that of its own payload.
  pub record IsSealed (b : ProviderBudget) : Type 0 where
    pub reserve_pos : 0 < b.output_reserve_tokens
    pub reserve_lt : b.output_reserve_tokens < b.configured_context_tokens
    pub context_safe : b.configured_context_tokens ≤ max_safe_integer
    pub input_eq : b.provider_input_tokens + b.output_reserve_tokens ≡ b.configured_context_tokens
    pub hash_eq :
        b.binding_hash
        ≡ sha256 (
            canonical_json
              (budget_payload b.run_id b.configured_context_tokens b.output_reserve_tokens))

  create-IsSealed :
      (run_id context reserve : Option Json) (b : ProviderBudget)
      → create_provider_budget_binding sha256 encoded_length run_id context reserve ≡ ok b
      → IsSealed b
  unfolding create_provider_budget_binding
  create-IsSealed run_id context reserve b h = elim (Option-cases (non_empty_text run_id)) [
    | inl no_run ↦ absurd (ground (arith, no_run))
    | inr (id, hid) ↦ elim (Option-cases (budget_fields_valid context reserve)) [
      | inl bad ↦ absurd (ground (arith, hid, bad))
      | inr (cr, hcr) ↦ ground (arith, hid, hcr, fields_valid_bounds context reserve cr.0 cr.1 hcr)
    ]
  ]

  create-carried :
      (run_id context reserve : Option Json) (b : ProviderBudget)
      → create_provider_budget_binding sha256 encoded_length run_id context reserve ≡ ok b
      → (run_id ≡ some (str b.run_id))
        × (context ≡ some (num (pos b.configured_context_tokens)))
        × (reserve ≡ some (num (pos b.output_reserve_tokens)))
  unfolding create_provider_budget_binding
  create-carried run_id context reserve b h = elim (Option-cases (non_empty_text run_id)) [
    | inl no_run ↦ absurd (ground (arith, no_run))
    | inr (id, hid) ↦ elim (Option-cases (budget_fields_valid context reserve)) [
      | inl bad ↦ absurd (ground (arith, hid, bad))
      | inr (cr, hcr) ↦ ground (
        arith,
        hid,
        hcr,
        non_empty_text-str run_id id hid,
        fields_valid-num context reserve cr.0 cr.1 hcr,
      )
    ]
  ]

  -- What the comparison with the seal of the value leaves.
  normalize_fields-Carries :
      (fields : Fields) (run_id : Option Json) (b : ProviderBudget)
      → normalize_fields sha256 encoded_length fields run_id ≡ ok b
      → Carries fields b
  unfolding normalize_fields
  normalize_fields-Carries fields run_id b h =
      let made_of =
        create_provider_budget_binding sha256 encoded_length (get_field (codes "run_id") fields)
          (get_field (codes "configured_context_tokens") fields)
          (get_field (codes "output_reserve_tokens") fields) in
      elim (Result-cases made_of) [
        | inr (e, refused) ↦ absurd (ground (arith, refused))
        | inl (expected, made) ↦ elim (Option-cases (non_empty_text run_id)) [
          | inl no_run ↦ absurd (ground (arith, made, no_run))
          | inr (id, hid) ↦
              let same : b ≡ expected = ground (arith, made, hid) in
              let carried = create-carried _ _ _ expected made in
              rw same (record {
                of_run = carried.0;
                context = carried.1;
                reserve = carried.2;
                input = equals_number-num _ _ (ground (arith, made, hid));
                hash = equals_hash-str _ _ (ground (arith, made, hid));
              })
        ]
      ]

  normalize_fields_ok :
      (fields : Fields) (run_id : Option Json) (b : ProviderBudget)
      → normalize_fields sha256 encoded_length fields run_id ≡ ok b
      → IsSealed b × (non_empty_text run_id ≡ some b.run_id)
  unfolding normalize_fields
  normalize_fields_ok fields run_id b h =
      elim (Result-cases (
        create_provider_budget_binding sha256 encoded_length (get_field (codes "run_id") fields)
          (get_field (codes "configured_context_tokens") fields)
          (get_field (codes "output_reserve_tokens") fields))) [
            | inr (e, refused) ↦ absurd (ground (arith, refused))
            | inl (expected, made) ↦ elim (Option-cases (non_empty_text run_id)) [
              | inl no_run ↦ absurd (ground (arith, made, no_run))
              | inr (id, hid) ↦
                  let same : b ≡ expected = ground (arith, made, hid) in
                  rw same (
                    create-IsSealed _ _ _ expected made,
                    ground (arith, made, hid, text_eq_iff expected.run_id id),
                  )
            ]
          ]

  pub normalize_ok :
      (value run_id : Option Json) (b : ProviderBudget)
      → normalize_provider_budget_binding sha256 encoded_length value run_id ≡ ok b
      → IsSealed b
        × (non_empty_text run_id ≡ some b.run_id)
        × ((fields : Fields) × (value ≡ some (obj fields)) × Carries fields b)
  unfolding normalize_provider_budget_binding
  normalize_ok (some (obj fields)) run_id b h =
      let normalized : normalize_fields sha256 encoded_length fields run_id ≡ ok b = ground arith in
      let accepted = normalize_fields_ok fields run_id b normalized in
      (accepted.0, accepted.1, (fields, refl, normalize_fields-Carries fields run_id b normalized))
  normalize_ok value run_id b h = absurd (ground arith)

  -- A body passes when it is an object with one output limit, at most the reserve.
  abbrev pub Limited : Json → ProviderBudget → ℕ → Type 0
  Limited body b n =
      (fields : Fields) × (body ≡ obj fields)
      × (output_limit fields ≡ ok (num (pos n)))
      × (0 < n)
      × (n ≤ b.output_reserve_tokens)

  check_ok :
      (limit : Json) (reserve : ℕ)
      → check_output_limit limit reserve ≡ ok tt
      → (n : ℕ) × (limit ≡ num (pos n)) × (0 < n) × (n ≤ reserve)
  unfolding check_output_limit
  check_ok limit reserve h = elim (Option-cases (safe_positive (some limit))) [
    | inl bad ↦ absurd (ground (arith, bad))
    | inr (n, hn) ↦ (
      n,
      ground (arith, safe_positive_bounds (some limit) n hn),
      ground (arith, safe_positive_bounds (some limit) n hn),
      ground (arith, hn),
    )
  ]

  validate_ok :
      (body : Json) (b : ProviderBudget)
      → validate_output_limit body b ≡ ok tt
      → (n : ℕ) × Limited body b n
  unfolding validate_output_limit
  validate_ok (obj fields) b h = elim (Result-cases (output_limit fields)) [
    | inr (e, refused) ↦ absurd (ground (arith, refused))
    | inl (limit, found) ↦
        let (n, is_num, positive, within) =
          check_ok limit b.output_reserve_tokens (ground (arith, found)) in
        (n, (fields, refl, ground (arith, found, is_num), positive, within))
  ]
  validate_ok body b h = absurd (ground arith)

  -- An accepted step has a budget that is accepted for its run, and a body with one positive output limit
  -- within the reserve; the measured input is the encoded length and 64, and with that limit it fits the
  -- configured context.
  pub step_fits :
      (body : Json) (budget run_id step_index : Option Json) (evidence : Evidence)
      → assert_provider_step_within_budget sha256 encoded_length body budget run_id step_index
        ≡ ok evidence
      → (b : ProviderBudget) × (n : ℕ) × (normalize_provider_budget_binding sha256 encoded_length
            budget run_id
          ≡ ok b)
        × Limited body b n
        × (evidence.measured_input_tokens ≡ encoded_length (stringify body) + 64)
        × (evidence.measured_input_tokens + n ≤ b.configured_context_tokens)
  unfolding assert_provider_step_within_budget estimate_request_tokens
  step_fits body budget run_id step_index evidence h =
      elim (Result-cases (normalize_provider_budget_binding sha256 encoded_length budget run_id)) [
        | inr (e, refused) ↦ absurd (ground (arith, refused))
        | inl (b, sealed) ↦ elim (Result-cases (validate_output_limit body b)) [
          | inr (e, refused) ↦ absurd (ground (arith, sealed, refused))
          | inl (u, valid) ↦
              let (n, limited) = validate_ok body b valid in
              (
                b,
                n,
                sealed,
                limited,
                ground (arith, sealed, valid),
                ground (
                  arith,
                  sealed,
                  valid,
                  limited.4,
                  (normalize_ok budget run_id b sealed).0.input_eq,
                ),
              )
        ]
      ]
