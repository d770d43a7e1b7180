-- ===== src/Compensation/Tests.antt =====
-- Runs of backend/src/modules/compensation on sample rules, whose amounts are natural numbers of cents.
use logistics_center.Base.{
  Error, ℕ, ◌+◌, ◌*◌, ◌≡◌, ◌≤◌, refl, inl, Bool, true, false, not, ◌&&◌, none, some, List, [], ◌∷◌,
  ltb, ok, err, arith, Elem, When,
}
use logistics_center.Base.Text.{Text, codes, is_blank}
use logistics_center.Values.{Value, Fields, num, str, bool, obj, end, field, plain_object}
use logistics_center.Values.Json.{to_input_json_value}
use logistics_center.Compensation.Ecma.{IsEcma}
use logistics_center.Compensation.Naturals.{naturals}
use logistics_center.Compensation.Effective.{
  PaymentRule, per_order, bonus, active_rules, latest_rules_only, collect_latest, sort_by,
  insert_by, is_rule_effective_now, is_rule_effective_for_period,
}
use logistics_center.Compensation.RuleConfig.{
  GuaranteePeriod, period_of_text, parse-build_payment_rule_config, build_payment_rule_config,
  parse_payment_rule_config, validate_payment_rule_config, validate_conditions,
  normalize_conditions, conditions_json, read_config_number, condition, payload_of,
}
use logistics_center.Compensation.Metrics.{PaymentMetrics, round_money, metric_of_text}
use logistics_center.Compensation.Periods.{
  get_utc_full_year, get_utc_month, get_utc_date, is_same_utc_day, matches_guarantee_period,
}
use logistics_center.Compensation.Components.{
  PaymentBreakdownComponent, component, guarantee_applied, build_rule_component,
  build_per_order_component, build_minimum_guarantee_component, read_guarantee_period,
  guarantee_amount,
}
use logistics_center.Compensation.Breakdown.{
  PaymentBreakdown, breakdown_of_tally, add_rules, add_rule, add_component, build_payment_breakdown,
}
use logistics_center.Compensation.Totals.{IsBalanced, build_payment_breakdown-IsBalanced}
use logistics_center.Compensation.Guarantee.{minimum_guarantee_lem}
use logistics_center.Compensation.Refused.{stored_config, unknown_metric_refused_late}
use logistics_center.Compensation.ActiveRules.{is_rule_effective_for_period-eq, active_rules_latest}

naturals-IsEcma : IsEcma naturals
naturals-IsEcma = record {
  lt_asym = λ a b h. ground arith;
  max_nonneg = λ a. ground arith;
  to_fixed2_nonneg = λ a h. h;
  sub_nonneg = λ a b h. ground arith;
  zero_nonneg = refl;
  mul_nonneg = λ a b h k. ground arith;
  of_ℕ_nonneg = λ n. ground arith;
  to_fixed2_idem = λ a. refl;
}

-- Midnight of 1970-01-01, and 2024-02-29: 19,782 days later.
epoch :
    (get_utc_full_year 8_640_000_000_000_000 ≡ 272_000 + 1970)
    × (get_utc_month 8_640_000_000_000_000 ≡ 0)
    × (get_utc_date 8_640_000_000_000_000 ≡ 1)
unfolding get_utc_full_year get_utc_month get_utc_date
epoch = (refl, refl, refl)

leap_day :
    let t : ℕ = (100_000_000 + 19_782) * 86_400_000 in
    (get_utc_full_year t ≡ 272_000 + 2024) × (get_utc_month t ≡ 1) × (get_utc_date t ≡ 29)
unfolding get_utc_full_year get_utc_month get_utc_date
leap_day = (refl, refl, refl)

abbrev plain_config : ℕ → Value ℕ
plain_config value =
    obj (field (codes "value") (num value) (field (codes "conditions") (obj end) end))

abbrev rule_of : Text → ℕ → ℕ → PaymentRule ℕ
rule_of id version value = record {
  id = id;
  company_id = 7;
  rule_key = codes "orders";
  name = codes "Per order";
  rule_type = per_order;
  version = version;
  config = plain_config value;
  changed_by_user_id = some 1;
  change_reason = none;
  is_active = true;
  effective_from = none;
  effective_to = some 50;
}

abbrev rules : List (PaymentRule ℕ)
rules = rule_of (codes "r1") 1 30 ∷ rule_of (codes "r2") 2 40 ∷ []

abbrev sample_metrics : PaymentMetrics ℕ
sample_metrics = record {
  completed_routes_count = 1;
  delivered_orders_count = 3;
  total_distance_meters = 2000;
  total_distance_km = 2;
  delivered_orders = [];
  routes = [];
}

-- Periods of validity.
is_rule_effective_for_period-eq_example :
    is_rule_effective_for_period (some 12) (some 15) 10 20
    ≡ is_rule_effective_now (some 12) (some 15) 20
is_rule_effective_for_period-eq_example =
    is_rule_effective_for_period-eq (some 12) (some 15) 10 20 (omega arith)

abbrev pub by_length : Text → Text → Bool
by_length left right = false

active_rules_latest_example :
    Elem (rule_of (codes "r2") 2 40) rules
    × (true ≡ true)
    × (is_rule_effective_now none (some 50) 20 ≡ true)
    × (1 ≤ 2)
unfolding active_rules latest_rules_only collect_latest sort_by insert_by
    is_rule_effective_for_period is_rule_effective_now
active_rules_latest_example =
    active_rules_latest by_length 10 20 rules (rule_of (codes "r2") 2 40)
      (rule_of (codes "r1") 1 30) (inl refl) (inl refl) refl

-- Configurations.
parse-build_payment_rule_config_example :
    parse_payment_rule_config naturals (plain_config 30)
    ≡ ok (record {
      value = 30;
      conditions = plain_object (conditions_json naturals (plain_object (obj end)));
    })
unfolding build_payment_rule_config validate_payment_rule_config validate_conditions
    normalize_conditions to_input_json_value
parse-build_payment_rule_config_example =
    parse-build_payment_rule_config naturals per_order 30 (obj end) (plain_config 30) refl

abbrev typo : Fields ℕ
typo = field (codes "metric") (str (codes "orders")) (field (codes "threshold") (num 5) end)

abbrev typo_rule : PaymentRule ℕ
typo_rule = record (rule_of (codes "r9") 1 1) {
  rule_type = bonus;
  config = stored_config naturals 7 typo;
}

unknown_metric_refused_late_example :
    (build_payment_rule_config naturals bonus 7 (obj typo) ≡ ok (stored_config naturals 7 typo))
    × ((e : Error) × (build_payment_breakdown naturals
            (typo_rule ∷ [])
            sample_metrics
            10
            20
            (codes "RUB")
          ≡ err e))
unfolding metric_of_text read_config_number is_blank
unknown_metric_refused_late_example =
    unknown_metric_refused_late naturals typo_rule 7 typo (codes "orders") 5 (typo_rule ∷ [])
      sample_metrics 10 20 (codes "RUB") (inl refl) refl refl refl refl refl refl refl (inl refl)

-- Components and their sum.
abbrev order_component : ℕ → PaymentBreakdownComponent ℕ
order_component value =
    build_per_order_component naturals (rule_of (codes "r1") 1 value) value sample_metrics

abbrev sample_breakdown : PaymentBreakdown ℕ
sample_breakdown = breakdown_of_tally naturals sample_metrics 10 20 (codes "RUB") (record {
  components = order_component 30 ∷ [];
  running_subtotal = 90;
  subtotal_before_guarantee = 90;
  minimum_guarantee_top_up = 0;
})

build_payment_breakdown-IsBalanced_example :
    IsBalanced naturals (rule_of (codes "r1") 1 30 ∷ []) sample_breakdown
unfolding build_payment_breakdown breakdown_of_tally add_rules add_rule add_component
    build_rule_component build_per_order_component parse_payment_rule_config payload_of
    read_config_number round_money
build_payment_breakdown-IsBalanced_example =
    build_payment_breakdown-IsBalanced naturals naturals-IsEcma (rule_of (codes "r1") 1 30 ∷ [])
      sample_metrics 10 20 (codes "RUB") sample_breakdown refl

abbrev daily_config : Fields ℕ
daily_config = field (codes "period") (str (codes "daily")) end

abbrev topped_up : PaymentBreakdownComponent ℕ
topped_up = component (rule_of (codes "r1") 1 500) true 410 guarantee_applied (
    field (codes "period") (str (codes "daily")) (
      field (codes "runningSubtotal") (num 90) (
        field (codes "guaranteedAmount") (num 500)
          (field (codes "matchesPeriod") (bool true) end))))

minimum_guarantee_lem_example :
    (period : GuaranteePeriod) × (read_guarantee_period
        (condition (codes "period") (some daily_config))
      ≡ ok period)
    × (ltb 410 0 ≡ false)
    × (true ≡ ltb 0 410)
    × When (not (matches_guarantee_period period 10 20 && ltb 90 500)) (true ≡ false)
unfolding build_minimum_guarantee_component read_guarantee_period period_of_text guarantee_amount
    matches_guarantee_period is_same_utc_day get_utc_full_year get_utc_month get_utc_date
    round_money
minimum_guarantee_lem_example =
    minimum_guarantee_lem naturals naturals-IsEcma (rule_of (codes "r1") 1 500) 500
      (some daily_config) 10 20 90 topped_up refl
