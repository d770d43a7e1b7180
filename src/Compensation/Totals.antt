-- ===== src/Compensation/Totals.antt =====
-- What the breakdown of a payment adds up to, in
-- backend/src/modules/compensation/payments.service.ts.
use logistics_center.Base.{
  ℕ, ◌≡◌, refl, true, false, inl, inr, Bool-cases, &&_iff, arith, filter, Option, List, [], ◌∷◌,
  ◌++◌, map, length, ok, bind_returns, sym, ap, subst, ◌∙◌, append_assoc, append-nil, length-map,
}
use logistics_center.Base.Text.{Text, codes}
use logistics_center.Values.{Fields}
use logistics_center.Compensation.Ecma.{Ecma, IsEcma}
use logistics_center.Compensation.Effective.{
  PaymentRuleType, zone_rate, per_km, per_order, bonus, penalty, minimum_guarantee, PaymentRule,
}
use logistics_center.Compensation.RuleConfig.{parse_payment_rule_config, condition}
use logistics_center.Compensation.Metrics.{PaymentMetrics, round_money}
use logistics_center.Compensation.Components.{
  PaymentBreakdownComponent, component_of_type, build_rule_component, build_zone_rate_component,
  build_per_km_component, build_per_order_component, build_bonus_component, build_penalty_component,
  build_minimum_guarantee_component, read_metric, read_guarantee_period,
}
use logistics_center.Compensation.Breakdown.{
  PaymentBreakdown, Tally, add_component, add_rule, add_rules, empty_tally, breakdown_of_tally,
  build_payment_breakdown, is_applied_component,
}

module _ (js : Ecma) where
  open js use {N, of_ℕ}

  -- The sum of the amounts, rounded to cents after each.
  pub running_total : N → List (PaymentBreakdownComponent N) → N
  running_total acc [] = acc
  running_total acc (c ∷ cs) = running_total (round_money js (js.add acc c.amount)) cs

  running_total-append :
      (acc : N) (cs : List (PaymentBreakdownComponent N)) (c : PaymentBreakdownComponent N)
      → running_total acc (cs ++ c ∷ []) ≡ round_money js (js.add (running_total acc cs) c.amount)
  unfolding running_total
  running_total-append acc [] c = refl
  running_total-append acc (d ∷ cs) c =
      running_total-append (round_money js (js.add acc d.amount)) cs c

  -- A component names the rule that it comes from.
  abbrev NamesRule : PaymentRule N → PaymentBreakdownComponent N → Type 0
  NamesRule rule c = c.rule_id ≡ rule.id

  names_rule :
      (rule : PaymentRule N) (built c : PaymentBreakdownComponent N)
      → NamesRule rule built
      → ok built ≡ ok c
      → NamesRule rule c
  names_rule rule built c n h = let same : built ≡ c = cc in subst (NamesRule rule) same n

  component_of_type_rule :
      (t : PaymentRuleType) (rule : PaymentRule N) (value : N) (conditions : Option (Fields N))
      (metrics : PaymentMetrics N) (first last : ℕ) (running : N) (c : PaymentBreakdownComponent N)
      → component_of_type js t rule value conditions metrics first last running ≡ ok c
      → NamesRule rule c
  unfolding build_zone_rate_component build_per_km_component build_per_order_component
      build_bonus_component build_penalty_component build_minimum_guarantee_component
  component_of_type_rule zone_rate rule value conditions metrics first last running c h =
      names_rule rule (build_zone_rate_component js rule value conditions metrics) c refl h
  component_of_type_rule per_km rule value conditions metrics first last running c h =
      names_rule rule (build_per_km_component js rule value metrics) c refl h
  component_of_type_rule per_order rule value conditions metrics first last running c h =
      names_rule rule (build_per_order_component js rule value metrics) c refl h
  component_of_type_rule bonus rule value conditions metrics first last running c h =
      let (metric, e, f) = bind_returns (read_metric (condition (codes "metric") conditions)) _ h in
      names_rule rule _ c refl f
  component_of_type_rule penalty rule value conditions metrics first last running c h =
      let (metric, e, f) = bind_returns (read_metric (condition (codes "metric") conditions)) _ h in
      names_rule rule _ c refl f
  component_of_type_rule minimum_guarantee rule value conditions metrics first last running c h =
      let (period, e, f) =
        bind_returns (read_guarantee_period (condition (codes "period") conditions)) _ h in
      names_rule rule _ c refl f

  -- What holds of the variables of the loop, after the rules with these identifiers.
  record IsTally (ids : List Text) (t : Tally N) : Type 0 where
    sum : t.running_subtotal ≡ running_total (of_ℕ 0) t.components
    listed : map (λ c. c.rule_id) t.components ≡ ids

  map-append_one :
      (cs : List (PaymentBreakdownComponent N)) (c : PaymentBreakdownComponent N)
      → map (λ d. d.rule_id) (cs ++ c ∷ []) ≡ map (λ d. d.rule_id) cs ++ c.rule_id ∷ []
  map-append_one [] c = refl
  map-append_one (d ∷ cs) c = ap (λ r. d.rule_id ∷ r) (map-append_one cs c)

  add_component-IsTally :
      (ids : List Text) (rule : PaymentRule N) (c : PaymentBreakdownComponent N) (t : Tally N)
      → NamesRule rule c
      → IsTally ids t
      → IsTally (ids ++ rule.id ∷ []) (add_component js rule c t)
  unfolding add_component
  add_component-IsTally ids rule c t n h = record {
    sum =
        ap (λ a. round_money js (js.add a c.amount)) h.sum
        ∙ sym (running_total-append (of_ℕ 0) t.components c);
    listed =
        map-append_one t.components c
        ∙ ap (λ r. r ++ c.rule_id ∷ []) h.listed
        ∙ ap (λ i. ids ++ i ∷ []) n;
  }

  add_rules-IsTally :
      (metrics : PaymentMetrics N) (first last : ℕ) (ids : List Text) (rules : List (PaymentRule N))
      (t t' : Tally N)
      → IsTally ids t
      → add_rules js metrics first last rules t ≡ ok t'
      → IsTally (ids ++ map (λ r. r.id) rules) t'
  unfolding add_rules add_rule build_rule_component
  add_rules-IsTally metrics first last ids [] t t' h e =
      let same : t ≡ t' = cc in
      subst (λ i. IsTally i t') (sym (append-nil ids)) (subst (IsTally ids) same h)
  add_rules-IsTally metrics first last ids (rule ∷ rules) t t' h e =
      let (u, e1, f) = bind_returns (add_rule js metrics first last rule t) _ e in
      let (config, e2, f2) = bind_returns (parse_payment_rule_config js rule.config) _ e1 in
      let (c, e3, f3) =
        bind_returns
          (build_rule_component js rule config.value config.conditions metrics first last
            t.running_subtotal)
          _ f2 in
      let named =
        component_of_type_rule rule.rule_type rule config.value config.conditions metrics first last
          t.running_subtotal c e3 in
      let same : add_component js rule c t ≡ u = cc in
      let kept =
        subst (IsTally (ids ++ rule.id ∷ [])) same (add_component-IsTally ids rule c t named h) in
      subst (λ i. IsTally i t') (append_assoc ids (rule.id ∷ []) (map (λ r. r.id) rules))
        (add_rules-IsTally metrics first last (ids ++ rule.id ∷ []) rules u t' kept f)

  -- The identifiers are those of the rules whose component is applied and has an amount other than zero.
  pub data AreApplied : List (PaymentBreakdownComponent N) → List Text → Type 0 where
    none_left : AreApplied [] []
    counted :
        (c : PaymentBreakdownComponent N) (cs : List (PaymentBreakdownComponent N))
        (ids : List Text)
        → c.applied ≡ true
        → js.ne c.amount (of_ℕ 0) ≡ true
        → AreApplied cs ids
        → AreApplied (c ∷ cs) (c.rule_id ∷ ids)
    not_applied :
        (c : PaymentBreakdownComponent N) (cs : List (PaymentBreakdownComponent N))
        (ids : List Text)
        → c.applied ≡ false
        → AreApplied cs ids
        → AreApplied (c ∷ cs) ids
    zero_amount :
        (c : PaymentBreakdownComponent N) (cs : List (PaymentBreakdownComponent N))
        (ids : List Text)
        → js.ne c.amount (of_ℕ 0) ≡ false
        → AreApplied cs ids
        → AreApplied (c ∷ cs) ids

  applied-AreApplied :
      (cs : List (PaymentBreakdownComponent N))
      → AreApplied cs (map (λ c. c.rule_id) (filter (is_applied_component js) cs))
  applied-AreApplied [] = none_left
  applied-AreApplied (c ∷ cs) =
      let rest = applied-AreApplied cs in
      let named = λ (ds : List (PaymentBreakdownComponent N)). map (λ d. d.rule_id) ds in
      let kept = filter (is_applied_component js) cs in
      elim (Bool-cases (is_applied_component js c)) [
        | inl t ↦
            let same : c ∷ kept ≡ filter (is_applied_component js) (c ∷ cs) = rw t refl in
            let (flag, amount) = (&&_iff c.applied (js.ne c.amount (of_ℕ 0))).0 t in
            subst (λ ds. AreApplied (c ∷ cs) (named ds)) same
              (counted c cs (named kept) flag amount rest)
        | inr f ↦
            let same : kept ≡ filter (is_applied_component js) (c ∷ cs) = rw f refl in
            subst (λ ds. AreApplied (c ∷ cs) (named ds)) same (idle c cs (named kept) f rest)
      ]
    where
      idle :
          (c : PaymentBreakdownComponent N) (cs : List (PaymentBreakdownComponent N))
          (ids : List Text)
          → is_applied_component js c ≡ false
          → AreApplied cs ids
          → AreApplied (c ∷ cs) ids
      idle c cs ids f rest = elim (Bool-cases c.applied) [
        | inr n ↦ not_applied c cs ids n rest
        | inl t ↦
            let z : js.ne c.amount (of_ℕ 0) ≡ false = ground (arith, f, t) in
            zero_amount c cs ids z rest
      ]

  pub record IsBalanced (rules : List (PaymentRule N)) (b : PaymentBreakdown N) : Type 0 where
    pub listed : map (λ c. c.rule_id) b.components ≡ map (λ r. r.id) rules
    pub total :
        b.summary.total_amount
        ≡ round_money js (js.max (of_ℕ 0) (running_total (of_ℕ 0) b.components))
    pub total_nonneg : js.lt b.summary.total_amount (of_ℕ 0) ≡ false
    pub counted : b.summary.component_count ≡ length rules
    pub applied : AreApplied b.components b.applied_rule_version_ids
    pub applied_counted : b.summary.applied_rule_count ≡ length b.applied_rule_version_ids

  breakdown_of_tally-IsBalanced :
      (laws : IsEcma js) (rules : List (PaymentRule N)) (metrics : PaymentMetrics N)
      (first last : ℕ) (currency : Text) (t : Tally N)
      → IsTally (map (λ r. r.id) rules) t
      → IsBalanced rules (breakdown_of_tally js metrics first last currency t)
  unfolding breakdown_of_tally round_money
  breakdown_of_tally-IsBalanced laws rules metrics first last currency t h = record {
    listed = h.listed;
    total = ap (λ a. round_money js (js.max (of_ℕ 0) a)) h.sum;
    total_nonneg = laws.to_fixed2_nonneg _ (laws.max_nonneg t.running_subtotal);
    counted =
        sym (length-map (λ c. c.rule_id) t.components)
        ∙ ap length h.listed
        ∙ length-map (λ r. r.id) rules;
    applied = applied-AreApplied t.components;
    applied_counted = sym (length-map (λ c. c.rule_id) _);
  }

  -- A breakdown that is built has a component for each rule, in the order of the rules. Its total is the
  -- sum of the components' amounts, rounded to cents after each, but at least zero; so it is not
  -- negative, whatever the penalties. It counts its components, and names and counts the rules whose
  -- component is applied with an amount other than zero.
  pub build_payment_breakdown-IsBalanced :
      (laws : IsEcma js) (rules : List (PaymentRule N)) (metrics : PaymentMetrics N)
      (first last : ℕ) (currency : Text) (b : PaymentBreakdown N)
      → build_payment_breakdown js rules metrics first last currency ≡ ok b
      → IsBalanced rules b
  unfolding build_payment_breakdown
  build_payment_breakdown-IsBalanced laws rules metrics first last currency b h =
      let (t, e, f) = bind_returns (add_rules js metrics first last rules (empty_tally js)) _ h in
      let tally = add_rules-IsTally metrics first last [] rules (empty_tally js) t start e in
      let same : breakdown_of_tally js metrics first last currency t ≡ b = cc in
      subst (IsBalanced rules) same
        (breakdown_of_tally-IsBalanced laws rules metrics first last currency t tally)
    where
      start : IsTally [] (empty_tally js)
      start = unfold running_total in record { sum = refl; listed = refl }
