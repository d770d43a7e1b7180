-- ===== src/Compensation/ActiveRules.antt =====
-- The rules from which a payment is calculated, in
-- backend/src/modules/compensation/payments.service.ts.
use logistics_center.Base.{
  ℕ, ◌≤◌, ◌≡◌, refl, ◌⊎◌, inl, inr, Bool, true, Option, none, some, List, [], ◌∷◌, arith, Elem,
  Option-cases, subst, sym, ◌∙◌,
}
use logistics_center.Base.Text.{Text, text_eq, text_eq_refl}
use logistics_center.Database.ListTable.{filter_sound}
use logistics_center.Compensation.Effective.{
  PaymentRule, find_rule, collect_latest, insert_by, sort_by, latest_rules_only, active_rules,
  is_rule_effective_for_period, is_rule_effective_now,
}
use logistics_center.Compensation.Latest.{
  find_rule_sound, find_rule_self, find_rule_key, find_rule-collect_latest, collect_latest-Distinct,
  best_of, best_of_reaches, best_of_from, AtLeast,
}

-- Where the period does not end before it starts, a rule counts for it exactly if it is effective at
-- its end: the two other tests decide nothing, and a rule that expires within the period is left out
-- of the whole period.
pub is_rule_effective_for_period-eq :
    (effective_from effective_to : Option ℕ) (period_start period_end : ℕ)
    → period_start ≤ period_end
    → is_rule_effective_for_period effective_from effective_to period_start period_end
      ≡ is_rule_effective_now effective_from effective_to period_end
unfolding is_rule_effective_for_period
is_rule_effective_for_period-eq none none period_start period_end h = refl
is_rule_effective_for_period-eq none (some t) period_start period_end h = ground arith
is_rule_effective_for_period-eq (some f) none period_start period_end h = ground arith
is_rule_effective_for_period-eq (some f) (some t) period_start period_end h = ground arith

module _ {N : Type 0} (greater : PaymentRule N → PaymentRule N → Bool) where
  Elem-insert_by :
      (x q : PaymentRule N) (ys : List (PaymentRule N))
      → Elem q (insert_by greater x ys)
      → (q ≡ x) ⊎ Elem q ys
  unfolding insert_by
  Elem-insert_by x q [] m = m
  Elem-insert_by x q (y ∷ ys) m = ground (arith, Elem-insert_by x q ys)

  insert_by-Elem :
      (x q : PaymentRule N) (ys : List (PaymentRule N))
      → (q ≡ x) ⊎ Elem q ys
      → Elem q (insert_by greater x ys)
  unfolding insert_by
  insert_by-Elem x q [] m = m
  insert_by-Elem x q (y ∷ ys) m = ground (arith, insert_by-Elem x q ys)

  -- Sorting keeps the rules.
  pub Elem-sort_by :
      (q : PaymentRule N) (xs : List (PaymentRule N)) → Elem q (sort_by greater xs) → Elem q xs
  unfolding sort_by
  Elem-sort_by q [] m = m
  Elem-sort_by q (x ∷ xs) m = elim (Elem-insert_by x q (sort_by greater xs) m) [
    | inl e ↦ inl e
    | inr k ↦ inr (Elem-sort_by q xs k)
  ]

  pub sort_by-Elem :
      (q : PaymentRule N) (xs : List (PaymentRule N)) → Elem q xs → Elem q (sort_by greater xs)
  unfolding sort_by
  sort_by-Elem q [] m = m
  sort_by-Elem q (x ∷ xs) (inl e) = insert_by-Elem x q (sort_by greater xs) (inl e)
  sort_by-Elem q (x ∷ xs) (inr m) =
      insert_by-Elem x q (sort_by greater xs) (inr (sort_by-Elem q xs m))

module _ {N : Type 0} where
  -- The entry of the map under a key that has a rule.
  collected :
      (rules : List (PaymentRule N)) (r : PaymentRule N)
      → Elem r rules
      → (q : PaymentRule N) × (find_rule r.rule_key (collect_latest [] rules) ≡ some q)
        × Elem q rules
        × (r.version ≤ q.version)
  collected rules r m =
      let entry = find_rule-collect_latest r.rule_key [] rules in
      let reached = best_of_reaches r.rule_key none rules r m (text_eq_refl r.rule_key) in
      elim (Option-cases (best_of r.rule_key none rules)) [
        | inl n ↦ absurd (subst (λ b. AtLeast b r.version) n reached)
        | inr (q, e) ↦ (
          q,
          entry ∙ e,
          elim (best_of_from r.rule_key none rules q e) [
            | inl missing ↦ absurd (ground arith)
            | inr k ↦ k
          ],
          subst (λ b. AtLeast b r.version) e reached,
        )
      ]

  -- Every rule is represented among the latest ones by a rule of the list with its key, whose version is
  -- at least its own.
  pub latest_rules_only_covers :
      (greater : Text → Text → Bool) (rules : List (PaymentRule N)) (r : PaymentRule N)
      → Elem r rules
      → (q : PaymentRule N) × Elem q (latest_rules_only greater rules)
        × Elem q rules
        × (text_eq q.rule_key r.rule_key ≡ true)
        × (r.version ≤ q.version)
  unfolding latest_rules_only
  latest_rules_only_covers greater rules r m =
      let (q, e, k, v) = collected rules r m in
      let (listed, key) = find_rule_sound r.rule_key (collect_latest [] rules) q e in
      (q, sort_by-Elem _ q (collect_latest [] rules) listed, k, key, v)

  collect_latest_max :
      (rules : List (PaymentRule N)) (q r : PaymentRule N)
      → Elem q (collect_latest [] rules)
      → Elem r rules
      → text_eq r.rule_key q.rule_key ≡ true
      → Elem q rules × (r.version ≤ q.version)
  collect_latest_max rules q r mq mr key =
      let self =
        find_rule_self q (collect_latest [] rules) (collect_latest-Distinct [] rules tt) mq in
      let (p, e, k, v) = collected rules r mr in
      let same : p ≡ q =
        ground
          (arith, self, e, find_rule_key (collect_latest [] rules) r.rule_key q.rule_key key) in
      (subst (λ x. Elem x rules) same k, subst (λ x. r.version ≤ x.version) same v)

  pub latest_rules_only_sub :
      (greater : Text → Text → Bool) (rules : List (PaymentRule N)) (q : PaymentRule N)
      → Elem q (latest_rules_only greater rules)
      → Elem q rules
  unfolding latest_rules_only
  latest_rules_only_sub greater rules q m =
      let listed = Elem-sort_by _ q (collect_latest [] rules) m in
      let self =
        find_rule_self q (collect_latest [] rules) (collect_latest-Distinct [] rules tt) listed in
      let entry = find_rule-collect_latest q.rule_key [] rules in
      elim (best_of_from q.rule_key none rules q (sym entry ∙ self)) [
        | inl missing ↦ absurd (ground arith)
        | inr k ↦ k
      ]

  pub latest_rules_only_newest :
      (greater : Text → Text → Bool) (rules : List (PaymentRule N)) (q r : PaymentRule N)
      → Elem q (latest_rules_only greater rules)
      → Elem r rules
      → text_eq r.rule_key q.rule_key ≡ true
      → Elem q rules × (r.version ≤ q.version)
  unfolding latest_rules_only
  latest_rules_only_newest greater rules q r mq mr key =
      collect_latest_max rules q r (Elem-sort_by _ q (collect_latest [] rules) mq) mr key

  -- A rule from which a payment is calculated is one of the company's, is active and effective at the
  -- end of the period, and no rule with its key has a greater version: a deactivated or expired latest
  -- version is never replaced by an older one.
  pub active_rules_latest :
      (greater : Text → Text → Bool) (period_start period_end : ℕ) (rules : List (PaymentRule N))
      (q r : PaymentRule N)
      → Elem q (active_rules greater period_start period_end rules)
      → Elem r rules
      → text_eq r.rule_key q.rule_key ≡ true
      → Elem q rules
        × (q.is_active ≡ true)
        × (is_rule_effective_now q.effective_from q.effective_to period_end ≡ true)
        × (r.version ≤ q.version)
  unfolding active_rules is_rule_effective_for_period
  active_rules_latest greater period_start period_end rules q r mq mr key =
      let (kept, passed) = filter_sound _ (latest_rules_only greater rules) q mq in
      let (member, newest) = latest_rules_only_newest greater rules q r kept mr key in
      (member, ground arith, ground arith, newest)
