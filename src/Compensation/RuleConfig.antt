-- ===== src/Compensation/RuleConfig.antt =====
-- backend/src/modules/compensation/payment-rule-config.ts, and the readers of JSON values in
-- payments.service.ts beside it.
use logistics_center.Base.{
  ◌≡◌, true, not, ◌||◌, Option, none, some, if◌then◌else◌, Result, ok, err, bad_request, ◌>>◌,
  throw_if, is_some, bind_returns, arith,
}
use logistics_center.Base.Text.{Text, codes, text_eq, is_blank}
use logistics_center.Values.{
  Value, Fields, undefined, null, num, str, obj, end, field, get, plain_object,
}
use logistics_center.Values.Json.{to_input_json_value}
use logistics_center.Compensation.Ecma.{Ecma}
use logistics_center.Compensation.Effective.{
  PaymentRuleType, zone_rate, per_km, per_order, bonus, penalty, minimum_guarantee,
}

pub data GuaranteePeriod : Type 0 where
  daily weekly monthly : GuaranteePeriod

-- `value === 'daily' || value === 'weekly' || value === 'monthly'`
unfoldable pub period_of_text : Text → Option GuaranteePeriod
period_of_text t =
    if text_eq t (codes "daily")
    then some daily
    else if text_eq t (codes "weekly")
    then some weekly
    else if text_eq t (codes "monthly")
    then some monthly
    else none

pub record PaymentRuleConfigPayload (N : Type 0) : Type 0 where
  pub value : N
  pub conditions : Option (Fields N)

-- `conditions?.[key]`
abbrev pub condition : {N : Type 0} → Text → Option (Fields N) → Value N
condition key none = undefined
condition key (some fs) = get key fs

module _ (js : Ecma) where
  open js use {N}

  -- `readNumber` of payment-rule-config.ts
  unfoldable pub read_config_number : Value N → Option N
  read_config_number (num n) = if js.is_finite n then some n else none
  read_config_number _ = none

  -- `readNumber` of payments.service.ts, which reads texts too
  unfoldable pub read_number : Value N → Option N
  read_number (num n) = if js.is_finite n then some n else none
  read_number (str s) = if js.is_finite (js.parse s) then some (js.parse s) else none
  read_number _ = none

  -- `readString`
  unfoldable pub read_string : Value N → Option Text
  read_string (str s) = if is_blank s then none else some s
  read_string _ = none

  abbrev pub period_condition : Option Text → Option GuaranteePeriod
  period_condition none = none
  period_condition (some t) = period_of_text t

  -- The `switch` of `validatePaymentRuleConfig`.
  unfoldable pub validate_conditions : PaymentRuleType → Option (Fields N) → Result (Unit {0})
  validate_conditions zone_rate conditions =
      throw_if (not (is_some (read_string (condition (codes "zoneId") conditions)))) bad_request
  validate_conditions per_km conditions = ok tt
  validate_conditions per_order conditions = ok tt
  validate_conditions bonus conditions =
      throw_if
        (not (is_some (read_string (condition (codes "metric") conditions)))
          || not (is_some (read_config_number (condition (codes "threshold") conditions))))
        bad_request
  validate_conditions penalty conditions =
      throw_if
        (not (is_some (read_string (condition (codes "metric") conditions)))
          || not (is_some (read_config_number (condition (codes "threshold") conditions))))
        bad_request
  validate_conditions minimum_guarantee conditions =
      throw_if
        (not (is_some (period_condition (read_string (condition (codes "period") conditions)))))
        bad_request

  unfoldable pub validate_payment_rule_config :
      PaymentRuleType → N → Option (Fields N) → Result (Unit {0})
  validate_payment_rule_config rule_type value conditions = do
    throw_if (not (js.is_finite value) || js.lt value (js.of_ℕ 0)) bad_request
    validate_conditions rule_type conditions

  -- `normalizeConditions`, with `null` for what is no object.
  unfoldable pub normalize_conditions : Value N → Option (Fields N)
  normalize_conditions value = plain_object value

  abbrev pub conditions_json : Option (Fields N) → Value N
  conditions_json none = null
  conditions_json (some fs) = to_input_json_value js.to_iso_string (obj fs)

  unfoldable pub build_payment_rule_config : PaymentRuleType → N → Value N → Result (Value N)
  unfolding normalize_conditions
  build_payment_rule_config rule_type value conditions = do
    let normalized_conditions = normalize_conditions conditions
    validate_payment_rule_config rule_type value normalized_conditions
    ok (
        obj (
          field (codes "value") (num value)
            (field (codes "conditions") (conditions_json normalized_conditions) end)))

  abbrev pub payload_of_value : Option N → Fields N → Result (PaymentRuleConfigPayload N)
  payload_of_value none config = err bad_request
  payload_of_value (some value) config =
      ok (record { value = value; conditions = plain_object (get (codes "conditions") config) })

  unfoldable pub payload_of : Option (Fields N) → Result (PaymentRuleConfigPayload N)
  payload_of none = err bad_request
  payload_of (some config) =
      payload_of_value (read_config_number (get (codes "value") config)) config

  unfoldable pub parse_payment_rule_config : Value N → Result (PaymentRuleConfigPayload N)
  unfolding payload_of
  parse_payment_rule_config config = payload_of (plain_object config)

  -- A configuration that the service builds is read back as it was given: the value, and the conditions
  -- as JSON.
  pub parse-build_payment_rule_config :
      (rule_type : PaymentRuleType) (value : N) (conditions config : Value N)
      → build_payment_rule_config rule_type value conditions ≡ ok config
      → parse_payment_rule_config config
        ≡ ok (record {
          value = value;
          conditions = plain_object (conditions_json (plain_object conditions));
        })
  unfolding build_payment_rule_config parse_payment_rule_config validate_payment_rule_config
      read_config_number
  parse-build_payment_rule_config rule_type value conditions config h =
      let (u, finite, rest) =
        bind_returns (validate_payment_rule_config rule_type value (plain_object conditions)) _ h in
      let finite' : js.is_finite value ≡ true = ground (arith, finite) in
      let same : obj (
            field (codes "value") (num value)
              (field (codes "conditions") (conditions_json (plain_object conditions)) end))
          ≡ config =
        cc in
      rw (← same) (rw finite')
