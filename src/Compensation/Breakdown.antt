-- ===== src/Compensation/Breakdown.antt =====
-- `buildPaymentBreakdown` of backend/src/modules/compensation/payments.service.ts. The metrics of the
-- result stand in one field, with their routes and orders; dates are kept as dates.
use logistics_center.Base.{
  ℕ, Bool, true, false, ◌&&◌, List, [], ◌∷◌, ◌++◌, map, filter, length, Result, ok, ◌>>=◌,
  if◌then◌else◌,
}
use logistics_center.Base.Text.{Text}
use logistics_center.Compensation.Ecma.{Ecma}
use logistics_center.Compensation.Effective.{PaymentRuleType, minimum_guarantee, PaymentRule}
use logistics_center.Compensation.RuleConfig.{parse_payment_rule_config}
use logistics_center.Compensation.Metrics.{PaymentMetrics, round_money}
use logistics_center.Compensation.Components.{PaymentBreakdownComponent, build_rule_component}

pub record PaymentBreakdownSummary (N : Type 0) : Type 0 where
  pub completed_routes_count : ℕ
  pub delivered_orders_count : ℕ
  pub total_distance_km : N
  pub subtotal_before_guarantee : N
  pub minimum_guarantee_top_up : N
  pub total_amount : N
  pub applied_rule_count : ℕ
  pub component_count : ℕ

pub record PaymentBreakdown (N : Type 0) : Type 0 where
  pub currency : Text
  pub period_start : ℕ
  pub period_end : ℕ
  pub summary : PaymentBreakdownSummary N
  pub metrics : PaymentMetrics N
  pub components : List (PaymentBreakdownComponent N)
  pub applied_rule_version_ids : List Text

-- The variables of the loop over the rules.
pub record Tally (N : Type 0) : Type 0 where
  pub components : List (PaymentBreakdownComponent N)
  pub running_subtotal : N
  pub subtotal_before_guarantee : N
  pub minimum_guarantee_top_up : N

abbrev pub is_guarantee : PaymentRuleType → Bool
is_guarantee minimum_guarantee = true
is_guarantee _ = false

module _ (js : Ecma) where
  open js use {N, of_ℕ}

  -- The body of the loop, after the component is built.
  unfoldable pub add_component : PaymentRule N → PaymentBreakdownComponent N → Tally N → Tally N
  add_component rule component t =
      let running = round_money js (js.add t.running_subtotal component.amount) in
      let guarantee = is_guarantee rule.rule_type in
      record {
        components = t.components ++ (component ∷ []);
        running_subtotal = running;
        subtotal_before_guarantee = if guarantee then t.subtotal_before_guarantee else running;
        minimum_guarantee_top_up =
            if guarantee
            then round_money js (js.add t.minimum_guarantee_top_up component.amount)
            else t.minimum_guarantee_top_up;
      }

  unfoldable pub add_rule : PaymentMetrics N → ℕ → ℕ → PaymentRule N → Tally N → Result (Tally N)
  unfolding add_component
  add_rule metrics period_start period_end rule t = do
    config ← parse_payment_rule_config js rule.config
    component ←
        build_rule_component js rule config.value config.conditions metrics period_start period_end
          t.running_subtotal
    ok (add_component rule component t)

  unfoldable pub add_rules :
      PaymentMetrics N → ℕ → ℕ → List (PaymentRule N) → Tally N → Result (Tally N)
  add_rules metrics period_start period_end [] t = ok t
  add_rules metrics period_start period_end (rule ∷ rules) t =
      add_rule metrics period_start period_end rule t >>= λ t'.
      add_rules metrics period_start period_end rules t'

  abbrev pub is_applied_component : PaymentBreakdownComponent N → Bool
  is_applied_component component = component.applied && js.ne component.amount (of_ℕ 0)

  abbrev pub empty_tally : Tally N
  empty_tally = record {
    components = [];
    running_subtotal = of_ℕ 0;
    subtotal_before_guarantee = of_ℕ 0;
    minimum_guarantee_top_up = of_ℕ 0;
  }

  -- What is returned after the loop.
  unfoldable pub breakdown_of_tally : PaymentMetrics N → ℕ → ℕ → Text → Tally N → PaymentBreakdown N
  breakdown_of_tally metrics period_start period_end currency t =
      let applied_components = filter is_applied_component t.components in
      record {
        currency = currency;
        period_start = period_start;
        period_end = period_end;
        summary = record {
          completed_routes_count = metrics.completed_routes_count;
          delivered_orders_count = metrics.delivered_orders_count;
          total_distance_km = metrics.total_distance_km;
          subtotal_before_guarantee = round_money js t.subtotal_before_guarantee;
          minimum_guarantee_top_up = t.minimum_guarantee_top_up;
          total_amount = round_money js (js.max (of_ℕ 0) t.running_subtotal);
          applied_rule_count = length applied_components;
          component_count = length t.components;
        };
        metrics = metrics;
        components = t.components;
        applied_rule_version_ids = map (λ component. component.rule_id) applied_components;
      }

  unfoldable pub build_payment_breakdown :
      List (PaymentRule N) → PaymentMetrics N → ℕ → ℕ → Text → Result (PaymentBreakdown N)
  unfolding breakdown_of_tally
  build_payment_breakdown rules metrics period_start period_end currency = do
    t ← add_rules metrics period_start period_end rules empty_tally
    ok (breakdown_of_tally metrics period_start period_end currency t)
