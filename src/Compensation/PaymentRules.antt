-- ===== src/Compensation/PaymentRules.antt =====
-- The operations of backend/src/modules/compensation/payment-rules.service.ts. A rule's key is what
-- `randomUUID` gives, an argument; the identifier that the database gives is printed by `uuid`.
use logistics_center.Base.{
  ℕ, Bool, true, false, not, ◌&&◌, ◌||◌, ◌+◌, Option, none, some, List, [], ◌∷◌, ◌==◌, get_or,
  is_some, ltb, if◌then◌else◌, Result, ok, not_found, bad_request, ◌>>=◌, ◌>>◌, throw_if, or_throw,
  filter,
}
use logistics_center.Base.Text.{Text, text_eq, is_empty}
use logistics_center.Values.{Value, Fields, undefined, null, obj}
use logistics_center.Database.{Table}
use logistics_center.Compensation.Ecma.{Ecma}
use logistics_center.Compensation.Effective.{
  PaymentRuleType, PaymentRule, validate_effective_window, is_rule_effective_now, latest_rules_only,
}
use logistics_center.Compensation.RuleConfig.{build_payment_rule_config, parse_payment_rule_config}

-- In the DTOs `none` is a field left out; where `null` is allowed too, it is `some none`, and
-- `conditions` has both as values of its own.
pub record CreatePaymentRuleDto (N : Type 0) : Type 0 where
  pub name : Text
  pub rule_type : PaymentRuleType
  pub value : N
  pub conditions : Value N
  pub is_active : Option Bool
  pub change_reason : Option (Option ℕ)
  pub effective_from : Option (Option ℕ)
  pub effective_to : Option (Option ℕ)

pub record UpdatePaymentRuleDto (N : Type 0) : Type 0 where
  pub name : Option Text
  pub rule_type : Option PaymentRuleType
  pub value : Option N
  pub conditions : Value N
  pub is_active : Option Bool
  pub change_reason : Option (Option ℕ)
  pub effective_from : Option (Option ℕ)
  pub effective_to : Option (Option ℕ)

pub record ListPaymentRulesQueryDto : Type 0 where
  pub rule_type : Option PaymentRuleType
  pub rule_key : Option Text
  pub name : Option Text
  pub include_history : Bool
  pub include_inactive : Bool

pub record PaymentRuleResponse (N : Type 0) : Type 0 where
  pub id : Text
  pub company_id : ℕ
  pub rule_key : Text
  pub name : Text
  pub rule_type : PaymentRuleType
  pub version : ℕ
  pub value : N
  pub conditions : Option (Fields N)
  pub is_active : Bool
  pub effective_from : Option ℕ
  pub effective_to : Option ℕ
  pub changed_by_user_id : Option ℕ
  pub change_reason : Option ℕ

module _ {N : Type 0} where
  -- `conditions !== undefined`
  abbrev pub is_defined : Value N → Bool
  is_defined undefined = false
  is_defined _ = true

  unfoldable pub has_any_updates : UpdatePaymentRuleDto N → Bool
  has_any_updates dto =
      is_some dto.name
      || is_some dto.rule_type
      || is_some dto.value
      || is_defined dto.conditions
      || is_some dto.is_active
      || is_some dto.change_reason
      || is_some dto.effective_from
      || is_some dto.effective_to

  abbrev pub conditions_value : Option (Fields N) → Value N
  conditions_value none = null
  conditions_value (some fs) = obj fs

  -- `findFirst({ orderBy: { version: 'desc' } })`, on the rows that meet the condition
  abbrev pub newer : PaymentRule N → Option (PaymentRule N) → PaymentRule N
  newer r none = r
  newer r (some q) = if ltb r.version q.version then q else r

  unfoldable pub newest : List (PaymentRule N) → Option (PaymentRule N)
  newest [] = none
  newest (r ∷ rs) = some (newer r (newest rs))

module _ (js : Ecma) where
  open js use {N}

  -- `mapPaymentRule`
  unfoldable pub map_payment_rule : PaymentRule N → Result (PaymentRuleResponse N)
  map_payment_rule rule = do
    config ← parse_payment_rule_config js rule.config
    ok (record {
      id = rule.id;
      company_id = rule.company_id;
      rule_key = rule.rule_key;
      name = rule.name;
      rule_type = rule.rule_type;
      version = rule.version;
      value = config.value;
      conditions = config.conditions;
      is_active = rule.is_active;
      effective_from = rule.effective_from;
      effective_to = rule.effective_to;
      changed_by_user_id = rule.changed_by_user_id;
      change_reason = rule.change_reason;
    })

  unfoldable pub map_payment_rules : List (PaymentRule N) → Result (List (PaymentRuleResponse N))
  map_payment_rules [] = ok []
  map_payment_rules (rule ∷ rules) = do
    response ← map_payment_rule rule
    responses ← map_payment_rules rules
    ok (response ∷ responses)

  module _ (uuid : ℕ → Text) (table : Table (PaymentRule N)) where
    open table use {State, find_first, find_many, create}

    unfoldable pub first_version :
        ℕ → ℕ → Text → CreatePaymentRuleDto N → Value N → ℕ → PaymentRule N
    first_version company_id changed_by_user_id rule_key dto config id = record {
      id = uuid id;
      company_id = company_id;
      rule_key = rule_key;
      name = dto.name;
      rule_type = dto.rule_type;
      version = 1;
      config = config;
      changed_by_user_id = some changed_by_user_id;
      change_reason = get_or dto.change_reason none;
      is_active = get_or dto.is_active true;
      effective_from = get_or dto.effective_from none;
      effective_to = get_or dto.effective_to none;
    }

    abbrev pub respond : PaymentRule N × State → Result (PaymentRuleResponse N × State)
    respond (rule, s) = do response ← map_payment_rule rule; ok (response, s)

    unfoldable pub create_payment_rule :
        ℕ → ℕ → Text → CreatePaymentRuleDto N → State → Result (PaymentRuleResponse N × State)
    create_payment_rule company_id changed_by_user_id random_uuid dto s = do
      validate_effective_window (get_or dto.effective_from none) (get_or dto.effective_to none)
      config ← build_payment_rule_config js dto.rule_type dto.value dto.conditions
      respond (create (first_version company_id changed_by_user_id random_uuid dto config) s)

    unfoldable pub next_version :
        ℕ → ℕ → UpdatePaymentRuleDto N → PaymentRule N → Value N → ℕ → PaymentRule N
    next_version company_id changed_by_user_id dto current config id = record {
      id = uuid id;
      company_id = company_id;
      rule_key = current.rule_key;
      name = get_or dto.name current.name;
      rule_type = get_or dto.rule_type current.rule_type;
      version = current.version + 1;
      config = config;
      changed_by_user_id = some changed_by_user_id;
      change_reason = get_or dto.change_reason current.change_reason;
      is_active = get_or dto.is_active current.is_active;
      effective_from = get_or dto.effective_from current.effective_from;
      effective_to = get_or dto.effective_to current.effective_to;
    }

    -- `where: { id }`, and `where: { rule_key }`
    abbrev pub has_id : ℕ → Text → PaymentRule N → Bool
    has_id company_id id r = r.company_id == company_id && text_eq r.id id

    abbrev pub has_rule_key : ℕ → Text → PaymentRule N → Bool
    has_rule_key company_id key r = r.company_id == company_id && text_eq r.rule_key key

    -- `latestRule && latestRule.id === currentRule.id`
    abbrev pub is_latest : Option (PaymentRule N) → PaymentRule N → Bool
    is_latest none current = false
    is_latest (some latest) current = text_eq latest.id current.id

    unfoldable pub update_payment_rule :
        ℕ → ℕ → Text → UpdatePaymentRuleDto N → State → Result (PaymentRuleResponse N × State)
    update_payment_rule company_id changed_by_user_id rule_version_id dto s = do
      validate_effective_window (get_or dto.effective_from none) (get_or dto.effective_to none)
      current ← or_throw (find_first (has_id company_id rule_version_id) s) not_found
      let latest = newest (find_many (has_rule_key company_id current.rule_key) s)
      throw_if (not (is_latest latest current)) bad_request
      throw_if (not (has_any_updates dto)) bad_request
      current_config ← parse_payment_rule_config js current.config
      config ←
          build_payment_rule_config js (get_or dto.rule_type current.rule_type)
            (get_or dto.value current_config.value)
            (if is_defined dto.conditions
              then dto.conditions
              else conditions_value current_config.conditions)
      respond (create (next_version company_id changed_by_user_id dto current config) s)

    -- The database's tests: `same_type` is equality, and `contains` ignores the case of letters.
    abbrev pub meets {ℓ} : {A : Type ℓ} → (A → Bool) → Option A → Bool
    meets test none = true
    meets test (some a) = test a

    -- `if (text)`: an empty text is no condition.
    abbrev pub non_empty : Option Text → Option Text
    non_empty none = none
    non_empty (some t) = if is_empty t then none else some t

    unfoldable pub rules_where :
        (PaymentRuleType → PaymentRuleType → Bool)
        → (Text → Text → Bool)
        → ℕ
        → ListPaymentRulesQueryDto
        → PaymentRule N
        → Bool
    rules_where same_type contains company_id query r =
        r.company_id == company_id
        && meets (λ t. same_type r.rule_type t) query.rule_type
        && meets (λ key. text_eq r.rule_key key) (non_empty query.rule_key)
        && meets (λ part. contains r.name part) (non_empty query.name)

    -- What `listPaymentRules` shows, before `mapPaymentRule`.
    unfoldable pub filtered_rules :
        (Text → Text → Bool)
        → ℕ
        → ListPaymentRulesQueryDto
        → List (PaymentRule N)
        → List (PaymentRule N)
    filtered_rules greater now query rules =
        let current_rules =
          if query.include_history then rules else latest_rules_only greater rules in
        if query.include_inactive
        then current_rules
        else filter
            (λ rule.
              rule.is_active && is_rule_effective_now rule.effective_from rule.effective_to now)
            current_rules

    unfoldable pub list_payment_rules :
        (PaymentRuleType → PaymentRuleType → Bool)
        → (Text → Text → Bool)
        → (Text → Text → Bool)
        → ℕ
        → ℕ
        → ListPaymentRulesQueryDto
        → State
        → Result (List (PaymentRuleResponse N))
    list_payment_rules same_type contains greater now company_id query s = map_payment_rules (
        filtered_rules greater now query
          (find_many (rules_where same_type contains company_id query) s))
