-- ===== src/Compensation/Effective.antt =====
-- The versions of payment rules, which of them count, and when: `latestRulesOnly` and
-- `isRuleEffectiveForPeriod` of backend/src/modules/compensation/payments.service.ts, and
-- `isRuleEffectiveNow` and `validateEffectiveWindow` of payment-rule-config.ts beside it.
use logistics_center.Base.{
  ℕ, Bool, true, false, ◌&&◌, Option, none, some, List, [], ◌∷◌, ltb, if◌then◌else◌, Result, ok,
  err, bad_request, filter,
}
use logistics_center.Base.Text.{Text, text_eq}
use logistics_center.Values.{Value}

pub data PaymentRuleType : Type 0 where
  zone_rate per_km per_order bonus penalty minimum_guarantee : PaymentRuleType

-- `PaymentRuleRecord`, without the times at which the database wrote the row.
pub record PaymentRule (N : Type 0) : Type 0 where
  pub id : Text
  pub company_id : ℕ
  pub rule_key : Text
  pub name : Text
  pub rule_type : PaymentRuleType
  pub version : ℕ
  pub config : Value N
  pub changed_by_user_id : Option ℕ
  pub change_reason : Option ℕ
  pub is_active : Bool
  pub effective_from : Option ℕ
  pub effective_to : Option ℕ

-- `date && date > bound`
abbrev pub is_after : Option ℕ → ℕ → Bool
is_after none bound = false
is_after (some t) bound = ltb bound t

abbrev pub is_before : Option ℕ → ℕ → Bool
is_before none bound = false
is_before (some t) bound = ltb t bound

unfoldable pub is_rule_effective_now : Option ℕ → Option ℕ → ℕ → Bool
is_rule_effective_now effective_from effective_to now =
    if is_after effective_from now
    then false
    else if is_before effective_to now
    then false
    else true

unfoldable pub is_rule_effective_for_period : Option ℕ → Option ℕ → ℕ → ℕ → Bool
unfolding is_rule_effective_now
is_rule_effective_for_period effective_from effective_to period_start period_end =
    if is_after effective_from period_end
    then false
    else if is_before effective_to period_start
    then false
    else is_rule_effective_now effective_from effective_to period_end

unfoldable pub validate_effective_window : Option ℕ → Option ℕ → Result (Unit {0})
validate_effective_window (some effective_from) (some effective_to) =
    if ltb effective_to effective_from then err bad_request else ok tt
validate_effective_window _ _ = ok tt

module _ {N : Type 0} where
  -- `latestByRuleKey.get(key)`, on the map as a list in order of first insertion.
  abbrev pub find_rule : Text → List (PaymentRule N) → Option (PaymentRule N)
  find_rule key [] = none
  find_rule key (r ∷ rs) =
      let rest = find_rule key rs in if text_eq r.rule_key key then some r else rest

  -- `latestByRuleKey.set(rule.rule_key, rule)` keeps the place of the key.
  abbrev pub set_rule : PaymentRule N → List (PaymentRule N) → List (PaymentRule N)
  set_rule rule [] = rule ∷ []
  set_rule rule (r ∷ rs) =
      let rest = set_rule rule rs in
      if text_eq r.rule_key rule.rule_key then rule ∷ rs else r ∷ rest

  abbrev pub supersedes : PaymentRule N → Option (PaymentRule N) → Bool
  supersedes rule none = true
  supersedes rule (some existing) = ltb existing.version rule.version

  -- The body of the loop.
  abbrev pub keep_latest : List (PaymentRule N) → PaymentRule N → List (PaymentRule N)
  keep_latest latest rule =
      if supersedes rule (find_rule rule.rule_key latest) then set_rule rule latest else latest

  unfoldable pub collect_latest : List (PaymentRule N) → List (PaymentRule N) → List (PaymentRule N)
  collect_latest latest [] = latest
  collect_latest latest (rule ∷ rules) = collect_latest (keep_latest latest rule) rules

  -- `sort` is stable: an entry goes before the first one that is greater.
  unfoldable pub insert_by :
      (PaymentRule N → PaymentRule N → Bool)
      → PaymentRule N
      → List (PaymentRule N)
      → List (PaymentRule N)
  insert_by greater x [] = x ∷ []
  insert_by greater x (y ∷ ys) =
      let rest = insert_by greater x ys in if greater x y then y ∷ rest else x ∷ y ∷ ys

  unfoldable pub sort_by :
      (PaymentRule N → PaymentRule N → Bool) → List (PaymentRule N) → List (PaymentRule N)
  unfolding insert_by
  sort_by greater [] = []
  sort_by greater (x ∷ xs) = insert_by greater x (sort_by greater xs)

  -- `greater left right` is `left.name.localeCompare(right.name) > 0`, which depends on the locale.
  unfoldable pub latest_rules_only :
      (Text → Text → Bool) → List (PaymentRule N) → List (PaymentRule N)
  unfolding collect_latest sort_by
  latest_rules_only greater rules =
      sort_by (λ left right. greater left.name right.name) (collect_latest [] rules)

  -- `activeRules`
  unfoldable pub active_rules :
      (Text → Text → Bool) → ℕ → ℕ → List (PaymentRule N) → List (PaymentRule N)
  unfolding latest_rules_only is_rule_effective_for_period
  active_rules greater period_start period_end rules =
      filter
        (λ rule.
          rule.is_active
          && is_rule_effective_for_period rule.effective_from rule.effective_to period_start
              period_end)
        (latest_rules_only greater rules)
