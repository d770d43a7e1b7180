-- ===== src/Compensation/Refused.antt =====
-- A rule that payment-rules.service.ts of backend/src/modules/compensation accepts, and that
-- payments.service.ts cannot calculate with.
use logistics_center.Base.{
  ℕ, ◌≡◌, refl, sym, ap, subst, ◌∙◌, ◌⊎◌, inl, inr, true, false, none, some, List, [], ◌∷◌, Elem,
  Result-cases, ok, err, Error, bad_request,
}
use logistics_center.Base.Text.{Text, codes, is_blank}
use logistics_center.Values.{Value, Fields, str, num, obj, field, end, get}
use logistics_center.Values.Json.{to_input_json_value, to_input_json_fields}
use logistics_center.Values.JsonLaws.{get-json_text}
use logistics_center.Compensation.Ecma.{Ecma}
use logistics_center.Compensation.Effective.{PaymentRuleType, bonus, penalty, PaymentRule}
use logistics_center.Compensation.RuleConfig.{
  PaymentRuleConfigPayload, validate_conditions, validate_payment_rule_config, read_string,
  read_config_number, build_payment_rule_config, parse_payment_rule_config,
  parse-build_payment_rule_config,
}
use logistics_center.Compensation.Metrics.{PaymentMetrics, metric_of_text}
use logistics_center.Compensation.Components.{
  component_of_type, build_rule_component, build_bonus_component, build_penalty_component,
  read_metric,
}
use logistics_center.Compensation.Breakdown.{
  Tally, empty_tally, add_rule, add_rules, build_payment_breakdown,
}

module _ (js : Ecma) where
  open js use {N, of_ℕ}

  abbrev pub IsBonusOrPenalty : PaymentRuleType → Type 0
  IsBonusOrPenalty rule_type = (rule_type ≡ bonus) ⊎ (rule_type ≡ penalty)

  -- The stored configuration of a value and conditions.
  abbrev pub stored_config : N → Fields N → Value N
  stored_config value conditions = obj (
      field (codes "value") (num value)
        (field (codes "conditions") (to_input_json_value js.to_iso_string (obj conditions)) end))

  read_string_text : (t : Text) → is_blank t ≡ false → read_string js (str t) ≡ some t
  unfolding read_string
  read_string_text t h = rw h

  -- The conditions pass, as they name some metric and a threshold.
  conditions_pass :
      (rule_type : PaymentRuleType) (conditions : Fields N) (metric : Text) (threshold : N)
      → IsBonusOrPenalty rule_type
      → read_string js (get (codes "metric") conditions) ≡ some metric
      → read_config_number js (get (codes "threshold") conditions) ≡ some threshold
      → validate_conditions js rule_type (some conditions) ≡ ok tt
  unfolding validate_conditions
  conditions_pass rule_type conditions metric threshold (inl e) known t =
      ap (λ r. validate_conditions js r (some conditions)) e ∙ rw (known, t) refl
  conditions_pass rule_type conditions metric threshold (inr e) known t =
      ap (λ r. validate_conditions js r (some conditions)) e ∙ rw (known, t) refl

  config_accepted :
      (rule_type : PaymentRuleType) (value : N) (conditions : Fields N)
      → js.is_finite value ≡ true
      → js.lt value (of_ℕ 0) ≡ false
      → validate_conditions js rule_type (some conditions) ≡ ok tt
      → build_payment_rule_config js rule_type value (obj conditions)
        ≡ ok (stored_config value conditions)
  unfolding build_payment_rule_config validate_payment_rule_config to_input_json_value
  config_accepted rule_type value conditions f p v = rw f (rw p (rw v refl))

  component_refused :
      (rule_type : PaymentRuleType) (rule : PaymentRule N) (value : N) (conditions : Fields N)
      (metrics : PaymentMetrics N) (first last : ℕ) (running : N) (metric : Text)
      → IsBonusOrPenalty rule_type
      → get (codes "metric") conditions ≡ str metric
      → metric_of_text metric ≡ none
      → component_of_type js rule_type rule value (some conditions) metrics first last running
        ≡ err bad_request
  unfolding build_bonus_component build_penalty_component read_metric
  component_refused rule_type rule value conditions metrics first last running metric (inl e) m u =
      ap (λ r. component_of_type js r rule value (some conditions) metrics first last running) e
      ∙ rw m (rw u refl)
  component_refused rule_type rule value conditions metrics first last running metric (inr e) m u =
      ap (λ r. component_of_type js r rule value (some conditions) metrics first last running) e
      ∙ rw m (rw u refl)

  add_rule_refused :
      (metrics : PaymentMetrics N) (first last : ℕ) (rule : PaymentRule N) (t : Tally N)
      (payload : PaymentRuleConfigPayload N)
      → parse_payment_rule_config js rule.config ≡ ok payload
      → component_of_type js rule.rule_type rule payload.value payload.conditions metrics first last
          t.running_subtotal
        ≡ err bad_request
      → add_rule js metrics first last rule t ≡ err bad_request
  unfolding add_rule build_rule_component
  add_rule_refused metrics first last rule t payload parsed refused = rw parsed (rw refused refl)

  -- One rule that is refused stops the loop over the rules.
  add_rules_refused :
      (metrics : PaymentMetrics N) (first last : ℕ) (rule : PaymentRule N)
      (rules : List (PaymentRule N)) (t : Tally N)
      → ((u : Tally N) → add_rule js metrics first last rule u ≡ err bad_request)
      → Elem rule rules
      → (e : Error) × (add_rules js metrics first last rules t ≡ err e)
  unfolding add_rules
  add_rules_refused metrics first last rule [] t refused m = absurd m
  add_rules_refused metrics first last rule (r ∷ rs) t refused m =
      elim (Result-cases (add_rule js metrics first last r t)) [
        | inl (e, failed) ↦ (e, rw failed refl)
        | inr (u, built) ↦ elim m [
          | inl same ↦
              let stopped : add_rule js metrics first last r t ≡ err bad_request =
                subst (λ x. add_rule js metrics first last x t ≡ err bad_request) same
                  (refused t) in
              absurd (differ u (sym built ∙ stopped))
          | inr later ↦
              let (e, failed) = add_rules_refused metrics first last rule rs u refused later in
              (e, rw built failed)
        ]
      ]
    where
      differ : (u : Tally N) → ok u ≡ err bad_request → ⊥
      differ u h = cc

  -- A bonus or penalty whose value is a finite number that is not negative, with a threshold and a metric
  -- that is neither blank nor one that the calculation knows, is accepted as a configuration; every
  -- calculation over rules that include it then throws, whatever the other rules, the metrics and the
  -- period are.
  pub unknown_metric_refused_late :
      (rule : PaymentRule N) (value : N) (conditions : Fields N) (metric : Text) (threshold : N)
      (rules : List (PaymentRule N)) (metrics : PaymentMetrics N) (first last : ℕ) (currency : Text)
      → IsBonusOrPenalty rule.rule_type
      → js.is_finite value ≡ true
      → js.lt value (of_ℕ 0) ≡ false
      → get (codes "metric") conditions ≡ str metric
      → is_blank metric ≡ false
      → metric_of_text metric ≡ none
      → read_config_number js (get (codes "threshold") conditions) ≡ some threshold
      → rule.config ≡ stored_config value conditions
      → Elem rule rules
      → (build_payment_rule_config js rule.rule_type value (obj conditions) ≡ ok rule.config)
        × ((e : Error) × (build_payment_breakdown js rules metrics first last currency ≡ err e))
  unfolding build_payment_breakdown add_rule build_rule_component to_input_json_value
  unknown_metric_refused_late rule value conditions metric threshold rules metrics first last
        currency kind f p m b u t config among =
      let known : read_string js (get (codes "metric") conditions) ≡ some metric =
        ap (read_string js) m ∙ read_string_text metric b in
      let passed = conditions_pass rule.rule_type conditions metric threshold kind known t in
      let accepted = config_accepted rule.rule_type value conditions f p passed in
      let parsed =
        parse-build_payment_rule_config js rule.rule_type value (obj conditions)
          (stored_config value conditions) accepted in
      let json = to_input_json_fields js.to_iso_string conditions in
      let refused : (w : Tally N) → add_rule js metrics first last rule w ≡ err bad_request = λ w.
        add_rule_refused metrics first last rule w _
          (ap (parse_payment_rule_config js) config ∙ parsed)
          (component_refused rule.rule_type rule value json metrics first last w.running_subtotal
            metric kind (get-json_text js.to_iso_string (codes "metric") metric conditions m) u) in
      let (e, failed) =
        add_rules_refused metrics first last rule rules (empty_tally js) refused among in
      (accepted ∙ ap ok (sym config), (e, rw failed refl))
