-- ===== src/Compensation/Guarantee.antt =====
-- The minimum guarantee in backend/src/modules/compensation.
use logistics_center.Base.{
  ℕ, ◌≡◌, inl, inr, Bool, false, not, ◌&&◌, Option, ok, bind_returns, ok_injective, arith, sym, ap,
  subst, ◌∙◌, Bool-cases, When, When_intro,
}
use logistics_center.Base.Text.{codes}
use logistics_center.Values.{Fields}
use logistics_center.Compensation.Ecma.{Ecma, IsEcma}
use logistics_center.Compensation.Effective.{PaymentRule}
use logistics_center.Compensation.RuleConfig.{GuaranteePeriod, condition}
use logistics_center.Compensation.Metrics.{round_money}
use logistics_center.Compensation.Periods.{matches_guarantee_period}
use logistics_center.Compensation.Components.{
  PaymentBreakdownComponent, build_minimum_guarantee_component, guarantee_amount,
  read_guarantee_period,
}

module _ (js : Ecma) where
  open js use {N, of_ℕ}

  guarantee_amount_nonneg :
      (laws : IsEcma js) (matches : Bool) (running value : N)
      → js.lt (guarantee_amount js matches running value) (of_ℕ 0) ≡ false
  unfolding guarantee_amount round_money
  guarantee_amount_nonneg laws matches running value =
      elim (Bool-cases (matches && js.lt running value)) [
        | inl e ↦ rw e (laws.to_fixed2_nonneg _ (laws.sub_nonneg running value (ground (arith, e))))
        | inr e ↦ rw e laws.zero_nonneg
      ]

  guarantee_amount_idle :
      (matches : Bool) (running value : N)
      → (matches && js.lt running value) ≡ false
      → guarantee_amount js matches running value ≡ of_ℕ 0
  unfolding guarantee_amount
  guarantee_amount_idle matches running value h = rw h

  -- The top-up of a minimum guarantee is never negative, and counts as applied exactly if it is
  -- positive. It is not applied where the requested period is not that of the guarantee, or where the
  -- subtotal so far is not below the guaranteed amount.
  pub minimum_guarantee_lem :
      (laws : IsEcma js) (rule : PaymentRule N) (value : N) (conditions : Option (Fields N))
      (first last : ℕ) (running : N) (c : PaymentBreakdownComponent N)
      → build_minimum_guarantee_component js rule value conditions first last running ≡ ok c
      → (period : GuaranteePeriod) × (read_guarantee_period (condition (codes "period") conditions)
          ≡ ok period)
        × (js.lt c.amount (of_ℕ 0) ≡ false)
        × (c.applied ≡ js.lt (of_ℕ 0) c.amount)
        × When
            (not (matches_guarantee_period period first last && js.lt running value))
            (c.applied ≡ false)
  unfolding build_minimum_guarantee_component
  minimum_guarantee_lem laws rule value conditions first last running c h =
      let (period, e, f) =
        bind_returns (read_guarantee_period (condition (codes "period") conditions)) _ h in
      let matches = matches_guarantee_period period first last in
      let amount = guarantee_amount js matches running value in
      let paid : amount ≡ c.amount = ap (λ x. x.amount) (ok_injective _ c f) in
      let flag : js.lt (of_ℕ 0) amount ≡ c.applied = ap (λ x. x.applied) (ok_injective _ c f) in
      (
        period,
        e,
        subst (λ a. js.lt a (of_ℕ 0) ≡ false) paid
            (guarantee_amount_nonneg laws matches running value),
        sym flag ∙ ap (js.lt (of_ℕ 0)) paid,
        When_intro (not (matches && js.lt running value)) λ idle.
            sym flag
            ∙ ap (js.lt (of_ℕ 0))
                (guarantee_amount_idle matches running value (ground (arith, idle)))
            ∙ laws.zero_nonneg,
      )
