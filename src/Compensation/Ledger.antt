-- ===== src/Compensation/Ledger.antt =====
-- What holds of every payment of a company, whatever calculations and status changes
-- backend/src/modules/compensation/payments.service.ts makes.
use logistics_center.Base.{
  ℕ, ◌≡◌, refl, inl, inr, Bool, true, false, not, some, get_or, ok, not_found,
  invalid_state_transition, throw_if, or_throw, bind_returns, ok_injective, or_throw-some, arith,
  sym, ap, subst, ◌∙◌, is_some,
}
use logistics_center.Base.Text.{Text, codes}
use logistics_center.Database.{Table}
use logistics_center.Database.Keyed.{IsKey, update_current}
use logistics_center.Compensation.Ecma.{Ecma}
use logistics_center.Compensation.StateMachine.{
  PaymentStatus, draft, calculated, approved, paid, disputed, can_transition_payment,
}
use logistics_center.Compensation.Effective.{validate_effective_window, active_rules}
use logistics_center.Compensation.Metrics.{build_payment_metrics}
use logistics_center.Compensation.Breakdown.{PaymentBreakdown, build_payment_breakdown}
use logistics_center.Compensation.Transitions.{StatusTransition}
use logistics_center.Compensation.History.{
  Records, build_payment_calculation_metadata-Records, append_payment_status_transition-Records,
}
use logistics_center.Compensation.Payments.{
  Payment, CalculatePaymentDto, UpdatePaymentStatusDto, PaymentSources, PaymentsDb, is_payment,
  new_payment, save_payment, calculate_payment_internal, set_payment_status, update_payment_status,
}

abbrev pub is_settled : PaymentStatus → Bool
is_settled draft = false
is_settled calculated = false
is_settled approved = true
is_settled paid = true
is_settled disputed = true

abbrev pub is_paid_out : PaymentStatus → Bool
is_paid_out paid = true
is_paid_out disputed = true
is_paid_out _ = false

module _ (js : Ecma) where
  open js use {N}

  -- The metadata record how the payment came to its status. An approver and a time of approval are
  -- there exactly from the approval on, and a time of payment from the payment on.
  pub record IsPayment (p : Payment N) : Type 0 where
    pub recorded : Records js p.metadata p.status
    pub approver : is_some p.approved_by_user_id ≡ is_settled p.status
    pub approval : is_some p.approved_at ≡ is_settled p.status
    pub payment : is_some p.paid_at ≡ is_paid_out p.status

  new_payment-IsPayment :
      (company_id : ℕ) (actor : Text) (dto : CalculatePaymentDto) (b : PaymentBreakdown N)
      (now id : ℕ)
      → IsPayment (new_payment js company_id actor dto b now id)
  unfolding new_payment
  new_payment-IsPayment company_id actor dto b now id = record {
    recorded = build_payment_calculation_metadata-Records js actor _ now;
    approver = refl;
    approval = refl;
    payment = refl;
  }

  abbrev transition_of : Text → ℕ → UpdatePaymentStatusDto N → Payment N → StatusTransition N
  transition_of actor now dto p = record {
    from_status = p.status;
    to_status = dto.status;
    actor_user_id = actor;
    transitioned_at = now;
    reason = dto.reason;
    metadata = dto.metadata;
  }

  settled_times :
      (actor : Text) (now : ℕ) (dto : UpdatePaymentStatusDto N) (p : Payment N)
      → can_transition_payment p.status dto.status ≡ true
      → IsPayment p
      → let q = set_payment_status js actor now dto p p in
        (is_some q.approved_by_user_id ≡ is_settled dto.status)
        × (is_some q.approved_at ≡ is_settled dto.status)
        × (is_some q.paid_at ≡ is_paid_out dto.status)
  unfolding set_payment_status can_transition_payment
  settled_times actor now dto p c h = ground (arith, h.approver, h.approval, h.payment)

  -- A change from the status that the payment has.
  set_payment_status-IsPayment :
      (actor : Text) (now : ℕ) (dto : UpdatePaymentStatusDto N) (p : Payment N)
      → can_transition_payment p.status dto.status ≡ true
      → IsPayment p
      → IsPayment (set_payment_status js actor now dto p p)
  unfolding set_payment_status
  set_payment_status-IsPayment actor now dto p c h =
      let (approver, approval, payment) = settled_times actor now dto p c h in
      record {
        recorded =
            append_payment_status_transition-Records js p.metadata (transition_of actor now dto p)
              h.recorded c;
        approver = approver;
        approval = approval;
        payment = payment;
      }

module _ (js : Ecma) (payments : Table (Payment js.N)) where
  open js use {N}
  open payments use {State, Has, find_first, update}

  save_payment_keeps :
      (company_id : ℕ) (actor : Text) (dto : CalculatePaymentDto) (b : PaymentBreakdown N) (now : ℕ)
      (db : PaymentsDb js payments) (r : Payment N)
      → ((q : Payment N) → Has db.rows q → IsPayment js q)
      → Has (save_payment js payments (new_payment js company_id actor dto b now) db).1.rows r
      → IsPayment js r
  unfolding save_payment
  save_payment_keeps company_id actor dto b now db r inv m =
      let row = new_payment js company_id actor dto b now in
      let (id, same) = payments.create_row row db.rows in
      elim (payments.create_has row db.rows r m) [
        | inl e ↦
            subst (IsPayment js) (sym (e ∙ same))
              (new_payment-IsPayment js company_id actor dto b now id)
        | inr old ↦ inv r old
      ]

  -- Where every payment is sound, a calculation that returns leaves every payment sound, and so
  -- is the new one.
  pub calculate_payment_internal_keeps :
      (greater : Text → Text → Bool) (sources : PaymentSources N) (now company_id : ℕ)
      (actor : Text) (dto : CalculatePaymentDto) (db db' : PaymentsDb js payments) (p r : Payment N)
      → ((q : Payment N) → Has db.rows q → IsPayment js q)
      → calculate_payment_internal js payments greater sources now company_id actor dto db
        ≡ ok (p, db')
      → Has db'.rows r
      → IsPayment js r
  unfolding calculate_payment_internal
  calculate_payment_internal_keeps greater sources now company_id actor dto db db' p r inv h m =
      let (_, _, h1) =
        bind_returns (validate_effective_window (some dto.period_start) (some dto.period_end)) _
          h in
      let (_, _, h2) =
        bind_returns (or_throw (sources.find_courier company_id dto.courier_id) not_found) _ h1 in
      let rules =
        active_rules greater dto.period_start dto.period_end
          (sources.find_rule_versions company_id) in
      let metrics =
        build_payment_metrics js (
          sources.find_completed_routes company_id dto.courier_id dto.period_start
            dto.period_end) in
      let (b, _, h3) =
        bind_returns
          (build_payment_breakdown js rules metrics dto.period_start dto.period_end
            (get_or dto.currency (codes "RUB")))
          _ h2 in
      let saved = save_payment js payments (new_payment js company_id actor dto b now) db in
      let same : saved ≡ (p, db') = ok_injective saved (p, db') h3 in
      save_payment_keeps company_id actor dto b now db r inv
        (subst (λ out. Has out.1.rows r) (sym same) m)

  is_payment_iff :
      (company_id payment_id : ℕ) (p : Payment N)
      → is_payment js payments company_id payment_id p ≡ true
      → p.id ≡ payment_id
  is_payment_iff company_id payment_id p h = ground arith

  -- Where identifiers are a key and every payment is sound (its metadata record a chain of
  -- allowed changes from draft to its status; its approver and its times are there exactly from
  -- the status that sets them), a status change that returns leaves every payment sound.
  pub update_payment_status_keeps :
      (now company_id : ℕ) (actor : Text) (payment_id : ℕ) (dto : UpdatePaymentStatusDto N)
      (db db' : PaymentsDb js payments) (p r : Payment N)
      → ((q q' : Payment N) → Has db.rows q → Has db.rows q' → q.id ≡ q'.id → q ≡ q')
      → ((q : Payment N) → Has db.rows q → IsPayment js q)
      → update_payment_status js payments now company_id actor payment_id dto db ≡ ok (p, db')
      → Has db'.rows r
      → IsPayment js r
  unfolding update_payment_status
  update_payment_status_keeps now company_id actor payment_id dto db db' p r key inv h m =
      let test = is_payment js payments company_id payment_id in
      let (current, found, h1) = bind_returns (or_throw (find_first test db.rows) not_found) _ h in
      let (_, allowed, h2) =
        bind_returns
          (throw_if (not (can_transition_payment current.status dto.status))
            invalid_state_transition)
          _ h1 in
      let set = set_payment_status js actor now dto current in
      let ((q, rows'), updated, h3) =
        bind_returns (or_throw (update test set db.rows) not_found) _ h2 in
      let can : can_transition_payment current.status dto.status ≡ true = ground (arith, allowed) in
      let (has, meets) =
        payments.find_first_some test db.rows current (or_throw-some _ not_found current found) in
      let written = or_throw-some _ not_found (q, rows') updated in
      let rows_same : rows' ≡ db'.rows = ap (λ out. out.1.rows) (ok_injective _ (p, db') h3) in
      elim (update_current payments test set db.rows rows' current q r unique
        (or_throw-some _ not_found current found) written
        (subst (λ s. Has s r) (sym rows_same) m)) [
          | inl e ↦
              subst (IsPayment js) (sym e)
                (set_payment_status-IsPayment js actor now dto current can (inv current has))
          | inr (old, other) ↦ inv r old
        ]
    where
      unique : IsKey payments (is_payment js payments company_id payment_id) db.rows
      unique x y hx hy px py = key x y hx hy (
          is_payment_iff company_id payment_id x px
          ∙ sym (is_payment_iff company_id payment_id y py))
