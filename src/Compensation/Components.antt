-- ===== src/Compensation/Components.antt =====
-- The components of a payment, one for each rule: `buildRuleComponent` of
-- backend/src/modules/compensation/payments.service.ts and the six functions that it calls.
use logistics_center.Base.{
  ℕ, Bool, true, false, ◌&&◌, Option, none, some, List, [], ◌∷◌, map, filter, get_or, length,
  Result, ok, err, bad_request, ◌>>=◌, or_throw, if◌then◌else◌, ltb,
}
use logistics_center.Base.Text.{Text, codes, text_eq}
use logistics_center.Values.{Value, Items, Fields, null, bool, num, str, arr, nil, cons, end, field}
use logistics_center.Compensation.Ecma.{Ecma}
use logistics_center.Compensation.Effective.{
  PaymentRuleType, zone_rate, per_km, per_order, bonus, penalty, minimum_guarantee, PaymentRule,
}
use logistics_center.Compensation.RuleConfig.{
  GuaranteePeriod, daily, weekly, monthly, period_of_text, condition, read_number, read_string,
}
use logistics_center.Compensation.Metrics.{
  PaymentMetrics, DeliveredOrderMetric, SupportedMetric, completed_orders, completed_routes,
  distance_km, metric_of_text, read_metric_value, round_money,
}
use logistics_center.Compensation.Periods.{matches_guarantee_period}

-- The texts of `reason`.
pub data Reason : Type 0 where
  zone_applied no_zone_orders per_km_applied no_distance per_order_applied no_orders : Reason
  bonus_reached bonus_not_reached penalty_breached penalty_not_breached : Reason
  guarantee_applied guarantee_satisfied period_does_not_match : Reason

pub record PaymentBreakdownComponent (N : Type 0) : Type 0 where
  pub rule_id : Text
  pub rule_key : Text
  pub version : ℕ
  pub rule_type : PaymentRuleType
  pub name : Text
  pub applied : Bool
  pub amount : N
  pub reason : Reason
  pub details : Fields N

-- `left === right`, where both may be null.
abbrev pub same_zone : Option Text → Option Text → Bool
same_zone none none = true
same_zone none (some z) = false
same_zone (some y) none = false
same_zone (some y) (some z) = text_eq y z

abbrev pub metric_name : SupportedMetric → Text
metric_name completed_orders = codes "completed_orders"
metric_name completed_routes = codes "completed_routes"
metric_name distance_km = codes "distance_km"

abbrev pub period_name : GuaranteePeriod → Text
period_name daily = codes "daily"
period_name weekly = codes "weekly"
period_name monthly = codes "monthly"

module _ {N : Type 0} where
  abbrev pub nullable_text : Option Text → Value N
  nullable_text none = null
  nullable_text (some t) = str t

  abbrev pub texts : List Text → Items N
  texts [] = nil
  texts (t ∷ ts) = cons (str t) (texts ts)

  abbrev pub component : PaymentRule N → Bool → N → Reason → Fields N → PaymentBreakdownComponent N
  component rule applied amount reason details = record {
    rule_id = rule.id;
    rule_key = rule.rule_key;
    version = rule.version;
    rule_type = rule.rule_type;
    name = rule.name;
    applied = applied;
    amount = amount;
    reason = reason;
    details = details;
  }

  abbrev pub order_ids : List DeliveredOrderMetric → Value N
  order_ids orders = arr (texts (map (λ order. order.order_id) orders))

  -- `readMetric` and `readGuaranteePeriod`
  unfoldable pub read_metric : Value N → Result SupportedMetric
  read_metric (str t) = or_throw (metric_of_text t) bad_request
  read_metric _ = err bad_request

  unfoldable pub read_guarantee_period : Value N → Result GuaranteePeriod
  unfolding period_of_text
  read_guarantee_period (str t) = or_throw (period_of_text t) bad_request
  read_guarantee_period _ = err bad_request

module _ (js : Ecma) where
  open js use {N, of_ℕ}

  unfoldable pub build_zone_rate_component :
      PaymentRule N → N → Option (Fields N) → PaymentMetrics N → PaymentBreakdownComponent N
  build_zone_rate_component rule value conditions metrics =
      let zone_id = read_string js (condition (codes "zoneId") conditions) in
      let matched = filter (λ order. same_zone order.zone_id zone_id) metrics.delivered_orders in
      component rule (ltb 0 (length matched))
        (round_money js (js.mul value (of_ℕ (length matched))))
        (if ltb 0 (length matched) then zone_applied else no_zone_orders)
        (field (codes "zoneId") (nullable_text zone_id) (
          field (codes "unitValue") (num value) (
            field (codes "matchedOrderCount") (num (of_ℕ (length matched)))
              (field (codes "orderIds") (order_ids matched) end))))

  unfoldable pub build_per_km_component :
      PaymentRule N → N → PaymentMetrics N → PaymentBreakdownComponent N
  build_per_km_component rule value metrics =
      let applied = js.lt (of_ℕ 0) metrics.total_distance_km in
      component rule applied (round_money js (js.mul value metrics.total_distance_km))
        (if applied then per_km_applied else no_distance)
        (field (codes "totalDistanceKm") (num metrics.total_distance_km)
          (field (codes "ratePerKm") (num value) end))

  unfoldable pub build_per_order_component :
      PaymentRule N → N → PaymentMetrics N → PaymentBreakdownComponent N
  build_per_order_component rule value metrics =
      let applied = ltb 0 metrics.delivered_orders_count in
      component rule applied (round_money js (js.mul value (of_ℕ metrics.delivered_orders_count)))
        (if applied then per_order_applied else no_orders)
        (field (codes "deliveredOrdersCount") (num (of_ℕ metrics.delivered_orders_count)) (
          field (codes "ratePerOrder") (num value)
            (field (codes "orderIds") (order_ids metrics.delivered_orders) end)))

  abbrev pub threshold_details : SupportedMetric → N → N → Text → N → Fields N
  threshold_details metric metric_value threshold value_key value =
      field (codes "metric") (str (metric_name metric)) (
        field (codes "metricValue") (num metric_value)
          (field (codes "threshold") (num threshold) (field value_key (num value) end)))

  unfoldable pub build_bonus_component :
      PaymentRule N
      → N
      → Option (Fields N)
      → PaymentMetrics N
      → Result (PaymentBreakdownComponent N)
  build_bonus_component rule value conditions metrics = do
    metric ← read_metric (condition (codes "metric") conditions)
    let threshold = get_or (read_number js (condition (codes "threshold") conditions)) (of_ℕ 0)
    let metric_value = read_metric_value js metric metrics
    let applied = js.ge metric_value threshold
    ok (
        component rule applied (if applied then round_money js value else of_ℕ 0)
          (if applied then bonus_reached else bonus_not_reached)
          (threshold_details metric metric_value threshold (codes "bonusValue") value))

  unfoldable pub build_penalty_component :
      PaymentRule N
      → N
      → Option (Fields N)
      → PaymentMetrics N
      → Result (PaymentBreakdownComponent N)
  build_penalty_component rule value conditions metrics = do
    metric ← read_metric (condition (codes "metric") conditions)
    let threshold = get_or (read_number js (condition (codes "threshold") conditions)) (of_ℕ 0)
    let metric_value = read_metric_value js metric metrics
    let applied = js.lt metric_value threshold
    ok (
        component rule applied (if applied then round_money js (js.neg value) else of_ℕ 0)
          (if applied then penalty_breached else penalty_not_breached)
          (threshold_details metric metric_value threshold (codes "penaltyValue") value))

  -- `matchesPeriod && runningSubtotal < value ? roundMoney(value - runningSubtotal) : 0`
  unfoldable pub guarantee_amount : Bool → N → N → N
  guarantee_amount matches_period running_subtotal value =
      if matches_period && js.lt running_subtotal value
      then round_money js (js.sub value running_subtotal)
      else of_ℕ 0

  unfoldable pub build_minimum_guarantee_component :
      PaymentRule N → N → Option (Fields N) → ℕ → ℕ → N → Result (PaymentBreakdownComponent N)
  unfolding guarantee_amount
  build_minimum_guarantee_component rule value conditions period_start period_end running_subtotal =
      do
        period ← read_guarantee_period (condition (codes "period") conditions)
        let matches_period = matches_guarantee_period period period_start period_end
        let amount = guarantee_amount matches_period running_subtotal value
        let applied = js.lt (of_ℕ 0) amount
        ok (
            component rule applied amount
              (if applied
                then guarantee_applied
                else if matches_period
                then guarantee_satisfied
                else period_does_not_match)
              (field (codes "period") (str (period_name period)) (
                field (codes "runningSubtotal") (num (round_money js running_subtotal)) (
                  field (codes "guaranteedAmount") (num value)
                    (field (codes "matchesPeriod") (bool matches_period) end)))))

  -- The `switch` of `buildRuleComponent`; the type has no further value for its `default`.
  abbrev pub component_of_type :
      PaymentRuleType
      → PaymentRule N
      → N
      → Option (Fields N)
      → PaymentMetrics N
      → ℕ
      → ℕ
      → N
      → Result (PaymentBreakdownComponent N)
  component_of_type zone_rate rule value conditions metrics first last running =
      ok (build_zone_rate_component rule value conditions metrics)
  component_of_type per_km rule value conditions metrics first last running =
      ok (build_per_km_component rule value metrics)
  component_of_type per_order rule value conditions metrics first last running =
      ok (build_per_order_component rule value metrics)
  component_of_type bonus rule value conditions metrics first last running =
      build_bonus_component rule value conditions metrics
  component_of_type penalty rule value conditions metrics first last running =
      build_penalty_component rule value conditions metrics
  component_of_type minimum_guarantee rule value conditions metrics first last running =
      build_minimum_guarantee_component rule value conditions first last running

  unfoldable pub build_rule_component :
      PaymentRule N
      → N
      → Option (Fields N)
      → PaymentMetrics N
      → ℕ
      → ℕ
      → N
      → Result (PaymentBreakdownComponent N)
  build_rule_component rule value conditions metrics period_start period_end running_subtotal =
      component_of_type rule.rule_type rule value conditions metrics period_start period_end
        running_subtotal
