-- ===== src/Compensation/LedgerTests.antt =====
-- Runs of backend/src/modules/compensation/payments.service.ts on a payment that is calculated and then
-- approved.
use logistics_center.Base.{ℕ, ◌≡◌, refl, inl, inr, none, some, [], ◌∷◌, ok, sym, ◌∙◌, subst, Elem}
use logistics_center.Base.Text.{codes}
use logistics_center.Database.ListTable.{list_table}
use logistics_center.Compensation.StateMachine.{
  draft, calculated, approved, can_transition_payment, allowed_payment_transitions,
}
use logistics_center.Compensation.Effective.{
  validate_effective_window, active_rules, latest_rules_only, collect_latest, sort_by,
}
use logistics_center.Compensation.Metrics.{
  PaymentMetrics, build_payment_metrics, add_routes, round_metric,
}
use logistics_center.Compensation.Breakdown.{breakdown_of_tally, add_rules, build_payment_breakdown}
use logistics_center.Compensation.Payments.{
  Payment, CalculatePaymentDto, UpdatePaymentStatusDto, PaymentSources, PaymentsDb,
  payment_calculated, payment_approved, new_payment, save_payment, calculate_payment_internal,
  set_payment_status, update_payment_status,
}
use logistics_center.Compensation.Ledger.{
  IsPayment, calculate_payment_internal_keeps, update_payment_status_keeps,
}
use logistics_center.Compensation.Naturals.{naturals}
use logistics_center.Compensation.Tests.{by_length}

-- A payment is calculated without a rule, and then approved.
abbrev sources : PaymentSources ℕ
sources = record {
  find_courier = λ company courier. some courier;
  find_rule_versions = λ company. [];
  find_completed_routes = λ company courier first last. [];
}

abbrev period_dto : CalculatePaymentDto
period_dto = record { courier_id = 4; period_start = 10; period_end = 20; currency = none }

abbrev no_metrics : PaymentMetrics ℕ
no_metrics = record {
  completed_routes_count = 0;
  delivered_orders_count = 0;
  total_distance_meters = 0;
  total_distance_km = 0;
  delivered_orders = [];
  routes = [];
}

abbrev first_payment : Payment ℕ
first_payment =
    new_payment naturals 7 (codes "u1") period_dto
      (breakdown_of_tally naturals no_metrics 10 20 (codes "RUB") (record {
        components = [];
        running_subtotal = 0;
        subtotal_before_guarantee = 0;
        minimum_guarantee_top_up = 0;
      }))
      100 1

abbrev approval : UpdatePaymentStatusDto ℕ
approval = record { status = approved; reason = none; metadata = none }

abbrev empty_db : PaymentsDb naturals list_table
unfolding list_table
empty_db = record { rows = []; events = [] }

abbrev one_payment : PaymentsDb naturals list_table
unfolding list_table
one_payment = record {
  rows = first_payment ∷ [];
  events = payment_calculated 1 7 draft calculated ∷ [];
}

abbrev approved_payment : PaymentsDb naturals list_table
unfolding list_table
approved_payment = record {
  rows = set_payment_status naturals (codes "u2") 200 approval first_payment first_payment ∷ [];
  events = payment_calculated 1 7 draft calculated ∷ payment_approved 1 7 calculated approved ∷ [];
}

calculate_payment_internal_run :
    calculate_payment_internal naturals list_table by_length sources 100 7
      (codes "u1")
      period_dto
      empty_db
    ≡ ok (first_payment, one_payment)
unfolding calculate_payment_internal list_table save_payment new_payment validate_effective_window
    active_rules latest_rules_only collect_latest sort_by build_payment_metrics add_routes
    build_payment_breakdown add_rules breakdown_of_tally round_metric
calculate_payment_internal_run = refl

calculate_payment_internal_keeps_example : IsPayment naturals first_payment
unfolding list_table
calculate_payment_internal_keeps_example =
    calculate_payment_internal_keeps naturals list_table by_length sources 100 7 (codes "u1")
      period_dto empty_db one_payment first_payment first_payment (λ q m. absurd m)
      calculate_payment_internal_run (inl refl)

update_payment_status_run :
    update_payment_status naturals list_table 200 7 (codes "u2") 1 approval one_payment
    ≡ ok (
      set_payment_status naturals (codes "u2") 200 approval first_payment first_payment,
      approved_payment,
    )
unfolding update_payment_status list_table new_payment can_transition_payment
    allowed_payment_transitions
update_payment_status_run = refl

one_payment-IsPayment : (q : Payment ℕ) → Elem q (first_payment ∷ []) → IsPayment naturals q
unfolding list_table
one_payment-IsPayment q (inl e) = subst (IsPayment naturals) (sym e) (
    calculate_payment_internal_keeps naturals list_table by_length sources 100 7 (codes "u1")
      period_dto empty_db one_payment first_payment first_payment (λ r m. absurd m)
      calculate_payment_internal_run (inl refl))
one_payment-IsPayment q (inr m) = absurd m

one_key : (q r : Payment ℕ) → Elem q (first_payment ∷ []) → Elem r (first_payment ∷ []) → q ≡ r
one_key q r (inl e) (inl f) = e ∙ sym f
one_key q r (inl e) (inr m) = absurd m
one_key q r (inr m) f = absurd m

update_payment_status_keeps_example :
    IsPayment naturals
      (set_payment_status naturals (codes "u2") 200 approval first_payment first_payment)
unfolding list_table
update_payment_status_keeps_example =
    update_payment_status_keeps naturals list_table 200 7 (codes "u2") 1 approval one_payment
      approved_payment
      (set_payment_status naturals (codes "u2") 200 approval first_payment first_payment)
      (set_payment_status naturals (codes "u2") 200 approval first_payment first_payment)
      (λ q r m n e. one_key q r m n) one_payment-IsPayment update_payment_status_run (inl refl)
