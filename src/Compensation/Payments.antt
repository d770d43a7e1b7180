-- ===== src/Compensation/Payments.antt =====
-- The payments of backend/src/modules/compensation/payments.service.ts: how they are calculated, and
-- how their status changes. The actor is known by the text that the metadata store.
use logistics_center.Base.{
  ℕ, Bool, not, ◌&&◌, Option, none, some, List, [], ◌∷◌, ◌++◌, ◌==◌, get_or, if◌then◌else◌, Result,
  ok, not_found, invalid_state_transition, ◌>>=◌, ◌>>◌, throw_if, or_throw,
}
use logistics_center.Base.Text.{Text, codes}
use logistics_center.Values.{Value, Fields, obj}
use logistics_center.Values.Json.{to_input_json_value}
use logistics_center.Database.{Table}
use logistics_center.Compensation.Ecma.{Ecma}
use logistics_center.Compensation.StateMachine.{
  PaymentStatus, draft, calculated, approved, paid, can_transition_payment, payment_status_eq,
}
use logistics_center.Compensation.Effective.{PaymentRule, validate_effective_window, active_rules}
use logistics_center.Compensation.Metrics.{CompletedRoute, build_payment_metrics, round_money}
use logistics_center.Compensation.Breakdown.{PaymentBreakdown, build_payment_breakdown}
use logistics_center.Compensation.Transitions.{
  build_payment_calculation_metadata, append_payment_status_transition,
}

-- The columns that the service reads or writes.
pub record Payment (N : Type 0) : Type 0 where
  pub id : ℕ
  pub company_id : ℕ
  pub courier_id : ℕ
  pub status : PaymentStatus
  pub period_start : ℕ
  pub period_end : ℕ
  pub currency : Text
  pub amount : N
  pub breakdown : PaymentBreakdown N
  pub approved_by_user_id : Option Text
  pub approved_at : Option ℕ
  pub paid_at : Option ℕ
  pub metadata : Value N

pub record CalculatePaymentDto : Type 0 where
  pub courier_id : ℕ
  pub period_start : ℕ
  pub period_end : ℕ
  pub currency : Option Text

pub record UpdatePaymentStatusDto (N : Type 0) : Type 0 where
  pub status : PaymentStatus
  pub reason : Option Text
  pub metadata : Option (Fields N)

-- The events that are handed to the emitter. Its failures are caught, so an emission never fails a call.
pub data PaymentEvent : Type 0 where
  payment_calculated payment_approved : ℕ → ℕ → PaymentStatus → PaymentStatus → PaymentEvent

-- What the other tables answer: whether the company has the courier, its rule versions in the order
-- of the query, and the courier's completed routes in the period.
pub record PaymentSources (N : Type 0) : Type 0 where
  pub find_courier : ℕ → ℕ → Option ℕ
  pub find_rule_versions : ℕ → List (PaymentRule N)
  pub find_completed_routes : ℕ → ℕ → ℕ → ℕ → List (CompletedRoute N)

module _ (js : Ecma) where
  open js use {N}

  -- `data` of `payment.create`, completed by the identifier.
  unfoldable pub new_payment :
      ℕ → Text → CalculatePaymentDto → PaymentBreakdown N → ℕ → ℕ → Payment N
  new_payment company_id actor_user_id dto breakdown now id = record {
    id = id;
    company_id = company_id;
    courier_id = dto.courier_id;
    status = calculated;
    period_start = dto.period_start;
    period_end = dto.period_end;
    currency = get_or dto.currency (codes "RUB");
    amount = round_money js breakdown.summary.total_amount;
    breakdown = breakdown;
    approved_by_user_id = none;
    approved_at = none;
    paid_at = none;
    metadata =
        build_payment_calculation_metadata js actor_user_id breakdown.summary.applied_rule_count
          now;
  }

  -- `data` of `payment.update`
  unfoldable pub set_payment_status :
      Text → ℕ → UpdatePaymentStatusDto N → Payment N → Payment N → Payment N
  set_payment_status actor_user_id now dto current p =
      let approving = payment_status_eq dto.status approved in
      record p {
        status = dto.status;
        approved_by_user_id = if approving then some actor_user_id else p.approved_by_user_id;
        approved_at = if approving then some now else p.approved_at;
        paid_at = if payment_status_eq dto.status paid then some now else p.paid_at;
        metadata = to_input_json_value js.to_iso_string (
            obj (
              append_payment_status_transition js current.metadata (record {
                from_status = current.status;
                to_status = dto.status;
                actor_user_id = actor_user_id;
                transitioned_at = now;
                reason = dto.reason;
                metadata = dto.metadata;
              })));
      }

abbrev pub status_events : ℕ → ℕ → PaymentStatus → PaymentStatus → List PaymentEvent
status_events payment_id company_id from_status calculated =
    payment_calculated payment_id company_id from_status calculated ∷ []
status_events payment_id company_id from_status approved =
    payment_approved payment_id company_id from_status approved ∷ []
status_events payment_id company_id from_status _ = []

module _ (js : Ecma) (payments : Table (Payment js.N)) where
  open js use {N}
  open payments use {State, find_first, create, update}

  pub record PaymentsDb : Type 0 where
    pub rows : State
    pub events : List PaymentEvent

  -- `where: { id }`, with the company that the tenant context adds.
  abbrev pub is_payment : ℕ → ℕ → Payment N → Bool
  is_payment company_id payment_id p = p.company_id == company_id && p.id == payment_id

  unfoldable pub get_payment : ℕ → ℕ → PaymentsDb → Result (Payment N)
  get_payment company_id payment_id db =
      or_throw (find_first (is_payment company_id payment_id) db.rows) not_found

  unfoldable pub save_payment : (ℕ → Payment N) → PaymentsDb → Payment N × PaymentsDb
  save_payment row db =
      let (p, rows') = create row db.rows in
      (
        p,
        record {
          rows = rows';
          events = db.events ++ (payment_calculated p.id p.company_id draft calculated ∷ []);
        },
      )

  -- `calculatePaymentInternal`; `greater` compares names and `now` is the current time.
  unfoldable pub calculate_payment_internal :
      (Text → Text → Bool)
      → PaymentSources N
      → ℕ
      → ℕ
      → Text
      → CalculatePaymentDto
      → PaymentsDb
      → Result (Payment N × PaymentsDb)
  calculate_payment_internal greater sources now company_id actor_user_id dto db = do
    validate_effective_window (some dto.period_start) (some dto.period_end)
    courier ← or_throw (sources.find_courier company_id dto.courier_id) not_found
    let rules =
        active_rules greater dto.period_start dto.period_end (sources.find_rule_versions company_id)
    let metrics =
        build_payment_metrics js
          (sources.find_completed_routes company_id dto.courier_id dto.period_start dto.period_end)
    breakdown ←
        build_payment_breakdown js rules metrics dto.period_start dto.period_end
          (get_or dto.currency (codes "RUB"))
    ok (save_payment (new_payment js company_id actor_user_id dto breakdown now) db)

  unfoldable pub update_payment_status :
      ℕ → ℕ → Text → ℕ → UpdatePaymentStatusDto N → PaymentsDb → Result (Payment N × PaymentsDb)
  update_payment_status now company_id actor_user_id payment_id dto db = do
    current ← or_throw (find_first (is_payment company_id payment_id) db.rows) not_found
    throw_if (not (can_transition_payment current.status dto.status)) invalid_state_transition
    (p, rows') ←
        or_throw
          (update (is_payment company_id payment_id)
            (set_payment_status js actor_user_id now dto current) db.rows)
          not_found
    ok (
      p,
      record {
        rows = rows';
        events = db.events ++ status_events payment_id company_id current.status dto.status;
      },
    )
