-- ===== src/Tenancy/Isolation.antt =====
-- backend/src/prisma/tenant-prisma.helper.ts. The text of a model, action, key or company is a list of
-- code units; `args` and what stands in them are JavaScript values.
use logistics_center.Base.{
  Bool, true, false, not, ◌&&◌, ◌||◌, Option, none, some, List, [], ◌∷◌, if◌then◌else◌, Result, ok,
  err, missing_tenant_context, tenant_write_violation, ◌>>=◌, get_or,
}
use logistics_center.Base.Text.{Text, codes, text_eq}
use logistics_center.Values.{
  Value, Items, Fields, undefined, null, bool, num, str, date, arr, obj, nil, cons, end, get,
  has_own, put, plain_object,
}

abbrev pub includes_text : List Text → Text → Bool
includes_text [] t = false
includes_text (x ∷ xs) t = text_eq x t || includes_text xs t

unfoldable pub tenant_scoped_models : List Text
tenant_scoped_models =
    codes "User"
    ∷ codes "Courier"
    ∷ codes "Dispatcher"
    ∷ codes "Zone"
    ∷ codes "Order"
    ∷ codes "OrderStatusHistory"
    ∷ codes "Route"
    ∷ codes "RoutePoint"
    ∷ codes "PaymentRuleVersion"
    ∷ codes "Payment"
    ∷ codes "PaymentRecalculation"
    ∷ codes "AuditLog"
    ∷ codes "Integration"
    ∷ codes "IntegrationEvent"
    ∷ codes "CompanyFeature"
    ∷ []

unfoldable pub read_actions : List Text
read_actions =
    codes "findUnique"
    ∷ codes "findUniqueOrThrow"
    ∷ codes "findFirst"
    ∷ codes "findFirstOrThrow"
    ∷ codes "findMany"
    ∷ codes "count"
    ∷ codes "aggregate"
    ∷ codes "groupBy"
    ∷ codes "update"
    ∷ codes "updateMany"
    ∷ codes "delete"
    ∷ codes "deleteMany"
    ∷ codes "upsert"
    ∷ []

unfoldable pub create_actions : List Text
create_actions = codes "create" ∷ codes "createMany" ∷ codes "createManyAndReturn" ∷ []

unfoldable pub update_actions : List Text
update_actions = codes "update" ∷ codes "updateMany" ∷ codes "upsert" ∷ []

unfoldable pub is_tenant_scoped_model : Option Text → Bool
unfolding tenant_scoped_models
is_tenant_scoped_model none = false
is_tenant_scoped_model (some model) = includes_text tenant_scoped_models model

abbrev pub company_key : Text
company_key = codes "company_id"

pub record TenantIsolationInput (N : Type 0) : Type 0 where
  pub action : Text
  pub args : Option (Fields N)
  pub bypass_tenant : Bool
  pub company_id : Option Text
  pub model : Option Text

module _ {N : Type 0} where
  unfoldable pub merge_tenant_where : Value N → Text → Value N
  merge_tenant_where where_value company_id =
      obj (put company_key (str company_id) (get_or (plain_object where_value) end))

  -- `value !== undefined && value !== companyId`
  abbrev pub is_foreign : Value N → Text → Bool
  is_foreign undefined company_id = false
  is_foreign (str s) company_id = not (text_eq s company_id)
  is_foreign _ company_id = true

  abbrev pub names_foreign_company : Fields N → Text → Bool
  names_foreign_company fs company_id =
      has_own company_key fs && is_foreign (get company_key fs) company_id

  unfoldable pub inject_tenant_into_object : Fields N → Text → Result (Value N)
  inject_tenant_into_object fs company_id =
      if names_foreign_company fs company_id
      then err tenant_write_violation
      else ok (obj (put company_key (str company_id) fs))

  unfoldable mutual
    unfolding inject_tenant_into_object

    pub inject_tenant_into_create_data : Value N → Text → Result (Value N)
    inject_tenant_into_create_data undefined company_id = ok undefined
    inject_tenant_into_create_data null company_id = ok null
    inject_tenant_into_create_data (bool b) company_id = ok (bool b)
    inject_tenant_into_create_data (num n) company_id = ok (num n)
    inject_tenant_into_create_data (str s) company_id = ok (str s)
    inject_tenant_into_create_data (date t) company_id = inject_tenant_into_object end company_id
    inject_tenant_into_create_data (arr xs) company_id =
        inject_tenant_into_entries xs company_id >>= λ ys. ok (arr ys)
    inject_tenant_into_create_data (obj fs) company_id = inject_tenant_into_object fs company_id

    -- `data.map(…)`
    pub inject_tenant_into_entries : Items N → Text → Result (Items N)
    inject_tenant_into_entries nil company_id = ok nil
    inject_tenant_into_entries (cons x xs) company_id =
        inject_tenant_into_create_data x company_id >>= λ y.
        inject_tenant_into_entries xs company_id >>= λ ys. ok (cons y ys)

  abbrev validate_object : Value N → Option (Fields N) → Text → Result (Value N)
  validate_object data_value none company_id = ok data_value
  validate_object data_value (some fs) company_id =
      if names_foreign_company fs company_id then err tenant_write_violation else ok data_value

  unfoldable pub validate_tenant_update_data : Value N → Text → Result (Value N)
  validate_tenant_update_data data_value company_id =
      validate_object data_value (plain_object data_value) company_id

  -- The three steps on `nextArgs`.
  unfoldable pub scope_read : Text → Text → Fields N → Fields N
  unfolding merge_tenant_where
  scope_read action company_id args =
      if includes_text read_actions action
      then put (codes "where") (merge_tenant_where (get (codes "where") args) company_id) args
      else args

  -- `injectTenantIntoCreateData` and `validateTenantUpdateData` on one key of the arguments.
  unfoldable pub inject_key : Text → Text → Fields N → Result (Fields N)
  inject_key key company_id args = do
    rows ← inject_tenant_into_create_data (get key args) company_id
    ok (put key rows args)

  unfoldable pub validate_key : Text → Text → Fields N → Result (Fields N)
  validate_key key company_id args = do
    changed ← validate_tenant_update_data (get key args) company_id
    ok (put key changed args)

  unfoldable pub scope_create : Text → Text → Fields N → Result (Fields N)
  scope_create action company_id args =
      if includes_text create_actions action
      then inject_key (codes "data") company_id args
      else ok args

  unfoldable pub scope_upsert : Text → Fields N → Result (Fields N)
  scope_upsert company_id args =
      inject_key (codes "create") company_id args >>= validate_key (codes "update") company_id

  unfoldable pub scope_update : Text → Text → Fields N → Result (Fields N)
  scope_update action company_id args =
      if text_eq action (codes "upsert")
      then scope_upsert company_id args
      else if includes_text update_actions action
      then validate_key (codes "data") company_id args
      else ok args

  abbrev pub scope_args : Text → Option Text → Fields N → Result (Option (Fields N))
  scope_args action none args = err missing_tenant_context
  scope_args action (some []) args = err missing_tenant_context
  scope_args action (some (c ∷ company)) args = do
    created ← scope_create action (c ∷ company) (scope_read action (c ∷ company) args)
    updated ← scope_update action (c ∷ company) created
    ok (some updated)

  unfoldable pub apply_tenant_isolation : TenantIsolationInput N → Result (Option (Fields N))
  apply_tenant_isolation i =
      if not (is_tenant_scoped_model i.model) || i.bypass_tenant
      then ok i.args
      else scope_args i.action i.company_id (get_or i.args end)
