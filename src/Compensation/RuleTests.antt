-- ===== src/Compensation/RuleTests.antt =====
-- Runs of backend/src/modules/compensation/payment-rules.service.ts on sample rules.
use logistics_center.Base.{
  ℕ, suc, ◌≡◌, refl, sym, ◌∙◌, inl, inr, Bool, true, false, Option, none, some, List, [], ◌∷◌, ok,
  err, bad_request, Elem, ◌↔◌,
}
use logistics_center.Base.Text.{Text, codes, text_eq, text_eq_euclid, text_eq_refl}
use logistics_center.Values.{Value, num, obj, field, end, undefined, null}
use logistics_center.Database.ListTable.{list_table}
use logistics_center.Compensation.Effective.{
  PaymentRule, PaymentRuleType, per_order, validate_effective_window, latest_rules_only,
  collect_latest, sort_by, insert_by, is_rule_effective_now,
}
use logistics_center.Compensation.RuleConfig.{
  build_payment_rule_config, parse_payment_rule_config, validate_payment_rule_config,
  validate_conditions, normalize_conditions, read_config_number, payload_of,
}
use logistics_center.Compensation.PaymentRules.{
  CreatePaymentRuleDto, UpdatePaymentRuleDto, PaymentRuleResponse, map_payment_rule,
  map_payment_rules, first_version, create_payment_rule, next_version, update_payment_rule,
  has_any_updates, newest, list_payment_rules, filtered_rules, rules_where,
}
use logistics_center.Compensation.RuleHistory.{Histories, publish, Refines, create-Refines}
use logistics_center.Compensation.Versioning.{
  create_payment_rule-Refines, update_payment_rule-Refines, update_payment_rule-superseded,
  AreDistinct,
}
use logistics_center.Compensation.Listing.{
  list_payment_rules-IsHead, current_query, IsHead, is_in_force,
}
use logistics_center.Compensation.Naturals.{naturals}

abbrev uuid : ℕ → Text
uuid id = id ∷ []

abbrev key : Text
key = codes "k"

abbrev created : CreatePaymentRuleDto ℕ
created = record {
  name = codes "Per order";
  rule_type = per_order;
  value = 30;
  conditions = undefined;
  is_active = none;
  change_reason = none;
  effective_from = none;
  effective_to = none;
}

abbrev raise : UpdatePaymentRuleDto ℕ
raise = record {
  name = none;
  rule_type = none;
  value = some 40;
  conditions = undefined;
  is_active = none;
  change_reason = some (some 9);
  effective_from = none;
  effective_to = none;
}

abbrev config_of : ℕ → Value ℕ
config_of value = obj (field (codes "value") (num value) (field (codes "conditions") null end))

abbrev row1 : PaymentRule ℕ
row1 = first_version naturals uuid list_table 7 1 key created (config_of 30) 1

abbrev row2 : PaymentRule ℕ
row2 = next_version naturals uuid list_table 7 1 raise row1 (config_of 40) 2

abbrev response : ℕ → ℕ → Option ℕ → PaymentRuleResponse ℕ
response version value reason = record {
  id = uuid version;
  company_id = 7;
  rule_key = key;
  name = codes "Per order";
  rule_type = per_order;
  version = version;
  value = value;
  conditions = none;
  is_active = true;
  effective_from = none;
  effective_to = none;
  changed_by_user_id = some 1;
  change_reason = reason;
}

abbrev rows0 : (list_table {Row = PaymentRule ℕ}).State
unfolding list_table
rows0 = []

abbrev rows1 : (list_table {Row = PaymentRule ℕ}).State
unfolding list_table
rows1 = row1 ∷ []

abbrev rows2 : (list_table {Row = PaymentRule ℕ}).State
unfolding list_table
rows2 = row2 ∷ row1 ∷ []

created_run :
    create_payment_rule naturals uuid list_table 7 1 key created rows0
    ≡ ok (response 1 30 none, rows1)
unfolding create_payment_rule list_table first_version validate_effective_window
    build_payment_rule_config validate_payment_rule_config validate_conditions normalize_conditions
    map_payment_rule parse_payment_rule_config payload_of read_config_number
created_run = refl

raised_run :
    update_payment_rule naturals uuid list_table 7 1 (uuid 1) raise rows1
    ≡ ok (response 2 40 (some 9), rows2)
unfolding update_payment_rule list_table first_version next_version validate_effective_window
    build_payment_rule_config validate_payment_rule_config validate_conditions normalize_conditions
    map_payment_rule parse_payment_rule_config payload_of read_config_number newest has_any_updates
raised_run = refl

abbrev none_yet : Histories ℕ
none_yet company_id k = []

empty-Refines : Refines list_table rows0 none_yet
unfolding list_table
empty-Refines = record {
  recorded = λ r m. absurd m;
  stored = λ company_id k r m. absurd m;
  numbered = λ company_id k. tt;
}

create_payment_rule-Refines_example :
    (row : PaymentRule ℕ) × (map_payment_rule naturals row ≡ ok (response 1 30 none))
    × (row.version ≡ 1)
    × (row.rule_key ≡ key)
    × (row.company_id ≡ 7)
    × Refines list_table rows1 (publish row none_yet)
create_payment_rule-Refines_example =
    create_payment_rule-Refines naturals uuid list_table 7 1 key created rows0 rows1 none_yet
      (response 1 30 none) empty-Refines refl created_run

one_rule : Refines list_table rows1 (publish row1 none_yet)
unfolding list_table first_version
one_rule = create-Refines list_table (λ i. row1) row1 rows0 none_yet refl refl empty-Refines

one-AreDistinct : AreDistinct naturals uuid list_table 7 rows1
unfolding list_table
one-AreDistinct = λ x y hx hy cx cy same. elim hx [
  | inl e ↦ elim hy [ inl f ↦ e ∙ sym f | inr n ↦ absurd n ]
  | inr n ↦ absurd n
]

update_payment_rule-Refines_example :
    (row current : PaymentRule ℕ) × (older : List (PaymentRule ℕ)) × (map_payment_rule naturals row
      ≡ ok (response 2 40 (some 9)))
    × (publish row1 none_yet 7 row.rule_key ≡ current ∷ older)
    × (text_eq current.id (uuid 1) ≡ true)
    × (row.version ≡ suc current.version)
    × (row.company_id ≡ 7)
    × Refines list_table rows2 (publish row (publish row1 none_yet))
update_payment_rule-Refines_example =
    update_payment_rule-Refines naturals uuid list_table 7 1 (uuid 1) raise rows1 rows2
      (publish row1 none_yet) (response 2 40 (some 9)) one_rule one-AreDistinct raised_run

two_rules : Refines list_table rows2 (publish row2 (publish row1 none_yet))
unfolding list_table first_version next_version
two_rules =
    create-Refines list_table (λ i. row2) row2 rows1 (publish row1 none_yet) refl refl one_rule

differ : {x y : PaymentRule ℕ} → x ≡ row2 → y ≡ row1 → text_eq x.id y.id ≡ false
unfolding first_version next_version
differ e f = rw (e, f) refl

two-AreDistinct : AreDistinct naturals uuid list_table 7 rows2
unfolding list_table
two-AreDistinct = λ x y hx hy cx cy same. elim hx [
  | inl e ↦ elim hy [
    | inl f ↦ e ∙ sym f
    | inr m ↦ elim m [ inl f ↦ absurd (true≢false (sym same ∙ differ e f)) | inr n ↦ absurd n ]
  ]
  | inr k ↦ elim k [
    | inl e ↦ elim hy [
      | inl f ↦
          absurd
            (true≢false (sym (text_eq_euclid y.id y.id x.id (text_eq_refl y.id) same) ∙ differ f e))
      | inr m ↦ elim m [ inl f ↦ e ∙ sym f | inr n ↦ absurd n ]
    ]
    | inr n ↦ absurd n
  ]
]
  where
    true≢false : true ≡ false → ⊥
    true≢false h = cc

update_payment_rule-superseded_example :
    update_payment_rule naturals uuid list_table 7 1 (uuid 1) raise rows2 ≡ err bad_request
unfolding first_version next_version
update_payment_rule-superseded_example =
    update_payment_rule-superseded naturals uuid list_table 7 1 raise rows2
      (publish row2 (publish row1 none_yet)) row1 row2 (row1 ∷ []) two_rules two-AreDistinct refl
      (inl refl)

abbrev any_type : PaymentRuleType → PaymentRuleType → Bool
any_type a b = true

abbrev any_text : Text → Text → Bool
any_text a b = true

listed_run :
    list_payment_rules naturals uuid list_table any_type any_text any_text 50 7
      (current_query naturals uuid list_table false)
      rows2
    ≡ ok (response 2 40 (some 9) ∷ [])
unfolding list_payment_rules filtered_rules rules_where latest_rules_only collect_latest sort_by
    insert_by is_rule_effective_now list_table first_version next_version map_payment_rules
    map_payment_rule parse_payment_rule_config payload_of read_config_number
listed_run = refl

list_payment_rules-IsHead_example :
    (rules : List (PaymentRule ℕ)) × (map_payment_rules naturals rules
      ≡ ok (response 2 40 (some 9) ∷ []))
    × ((r : PaymentRule ℕ)
        → Elem r rules ↔ (
            IsHead naturals uuid list_table 7 (publish row2 (publish row1 none_yet)) r
            × (is_in_force naturals uuid list_table 50 r ≡ true)))
list_payment_rules-IsHead_example =
    list_payment_rules-IsHead naturals uuid list_table any_type any_text any_text 7 50 rows2
      (publish row2 (publish row1 none_yet)) false two_rules (response 2 40 (some 9) ∷ [])
      listed_run
