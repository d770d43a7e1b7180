-- ===== src/Compensation/Listing.antt =====
-- What listPaymentRules of backend/src/modules/compensation/payment-rules.service.ts shows.
use logistics_center.Base.{
  ℕ, ◌≡◌, refl, sym, ap, subst, ◌∙◌, inl, inr, Bool, true, false, ◌&&◌, none, List, ◌∷◌, ==_iff,
  ==_refl, Elem, ok, arith, List-cases, When, not, ◌↔◌,
}
use logistics_center.Base.Text.{Text, text_eq-eq, text_eq_refl}
use logistics_center.Database.{Table}
use logistics_center.Database.ListTable.{filter_sound, filter_complete}
use logistics_center.Compensation.Ecma.{Ecma}
use logistics_center.Compensation.Effective.{
  PaymentRule, PaymentRuleType, is_rule_effective_now, latest_rules_only,
}
use logistics_center.Compensation.ActiveRules.{
  latest_rules_only_sub, latest_rules_only_covers, latest_rules_only_newest,
}
use logistics_center.Compensation.PaymentRules.{
  ListPaymentRulesQueryDto, PaymentRuleResponse, map_payment_rules, rules_where, filtered_rules,
  list_payment_rules,
}
use logistics_center.Compensation.RuleHistory.{Histories, IsHistory, IsHistory-newest, Refines}

module _ (js : Ecma) (uuid : ℕ → Text) (table : Table (PaymentRule js.N)) where
  open js use {N}
  open table use {State, Has, find_many}

  -- The query that asks for nothing but, it may be, the inactive rules.
  abbrev pub current_query : Bool → ListPaymentRulesQueryDto
  current_query include_inactive = record {
    rule_type = none;
    rule_key = none;
    name = none;
    include_history = false;
    include_inactive = include_inactive;
  }

  -- `rule.is_active && isRuleEffectiveNow(…, now)`
  abbrev pub is_in_force : ℕ → PaymentRule N → Bool
  is_in_force now rule =
      rule.is_active && is_rule_effective_now rule.effective_from rule.effective_to now

  -- The rule heads the history of its key.
  abbrev pub IsHead : ℕ → Histories N → PaymentRule N → Type 0
  IsHead company_id h r = (older : List (PaymentRule N)) × (h company_id r.rule_key ≡ r ∷ older)

  filtered_rules-Elem :
      (greater : Text → Text → Bool) (now : ℕ) (include_inactive : Bool)
      (rules : List (PaymentRule N)) (r : PaymentRule N)
      → Elem r (filtered_rules js uuid table greater now (current_query include_inactive) rules) ↔ (
          Elem r (latest_rules_only greater rules)
          × When (not include_inactive) (is_in_force now r ≡ true))
  unfolding filtered_rules
  filtered_rules-Elem greater now true rules r = (λ m. (m, tt), λ h. h.0)
  filtered_rules-Elem greater now false rules r = (
    filter_sound (is_in_force now) (latest_rules_only greater rules) r,
    λ h. filter_complete (is_in_force now) (latest_rules_only greater rules) r h.0 h.1,
  )

  module _ (same_type : PaymentRuleType → PaymentRuleType → Bool)
      (contains greater : Text → Text → Bool) (company_id now : ℕ) (s : State) (h : Histories N)
      (include_inactive : Bool) (inv : Refines table s h) where
    rows : List (PaymentRule N)
    rows =
        find_many
          (rules_where js uuid table same_type contains company_id (current_query include_inactive))
          s

    -- Of two rows of a key, of which the first heads its history, the second is no newer.
    rows-Elem : (r : PaymentRule N) → Elem r rows → Elem r (h company_id r.rule_key)
    unfolding rows rules_where
    rows-Elem r m =
        let (has, meets) = table.find_many_sound _ s r m in
        let own : r.company_id ≡ company_id =
          (==_iff r.company_id company_id).0 (ground (arith, meets)) in
        subst (λ c. Elem r (h c r.rule_key)) own (inv.recorded r has)

    Elem-rows : (key : Text) (r : PaymentRule N) → Elem r (h company_id key) → Elem r rows
    unfolding rows rules_where
    Elem-rows key r m =
        let (has, own, under) = inv.stored company_id key r m in
        table.find_many_complete _ s r has (rw own (rw (==_refl company_id)))

    latest-IsHead :
        (r : PaymentRule N) → Elem r (latest_rules_only greater rows) → IsHead company_id h r
    latest-IsHead r m =
        let member = rows-Elem r (latest_rules_only_sub greater rows r m) in
        elim (List-cases (h company_id r.rule_key)) [
          | inl e ↦ absurd (subst (Elem r) e member)
          | inr (head, older, e) ↦
              let top = subst (Elem head) (sym e) (inl refl) in
              let (has, own, under) = inv.stored company_id r.rule_key head top in
              let (_, newer) =
                latest_rules_only_newest greater rows r head m (Elem-rows r.rule_key head top)
                  (rw under (text_eq_refl r.rule_key)) in
              let same =
                IsHistory-newest head r older
                  (subst IsHistory e (inv.numbered company_id r.rule_key)) (subst (Elem r) e member)
                  newer in
              (older, e ∙ ap (λ x. x ∷ older) (sym same))
        ]

    IsHead-latest :
        (r : PaymentRule N) → IsHead company_id h r → Elem r (latest_rules_only greater rows)
    IsHead-latest r (older, e) =
        let top : Elem r (h company_id r.rule_key) = subst (Elem r) (sym e) (inl refl) in
        let (q, listed, kept, key, newer) =
          latest_rules_only_covers greater rows r (Elem-rows r.rule_key r top) in
        let under = text_eq-eq q.rule_key r.rule_key key in
        let member = subst (λ k. Elem q (h company_id k)) under (rows-Elem q kept) in
        let same =
          IsHistory-newest r q older (subst IsHistory e (inv.numbered company_id r.rule_key))
            (subst (Elem q) e member) newer in
        subst (λ x. Elem x (latest_rules_only greater rows)) same listed

    -- A list without further conditions shows the heads of the company's histories, and of them
    -- only those in force now unless the inactive ones are asked for.
    pub list_payment_rules-IsHead :
        (responses : List (PaymentRuleResponse N))
        → list_payment_rules js uuid table same_type contains greater now company_id
            (current_query include_inactive)
            s
          ≡ ok responses
        → (rules : List (PaymentRule N)) × (map_payment_rules js rules ≡ ok responses)
          × ((r : PaymentRule N)
              → Elem r rules
                ↔ (IsHead company_id h r × When (not include_inactive) (is_in_force now r ≡ true)))
    unfolding list_payment_rules rows
    list_payment_rules-IsHead responses returned = (
      filtered_rules js uuid table greater now (current_query include_inactive) rows,
      returned,
      λ r.
          let (there, back) = filtered_rules-Elem greater now include_inactive rows r in
          (
            λ m. let (listed, force) = there m in (latest-IsHead r listed, force),
            λ k. back (IsHead-latest r k.0, k.1),
          ),
    )
