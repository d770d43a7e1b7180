-- ===== src/Tenancy/Actions.antt =====
-- The actions of the client of Prisma on a model, as its documentation lists them, with what each of them
-- takes; and the models of backend/prisma/schema.prisma whose rows belong to a company. They are written
-- apart from the lists of backend/src/prisma/tenant-prisma.helper.ts.
use logistics_center.Base.{◌≡◌, refl, Bool, true, false, not, ◌&&◌, some}
use logistics_center.Base.Text.{Text, codes, text_eq}
use logistics_center.Tenancy.Isolation.{
  includes_text, read_actions, create_actions, update_actions, is_tenant_scoped_model,
}

pub data PrismaAction : Type 0 where
  find_unique find_unique_or_throw find_first find_first_or_throw find_many count aggregate
        group_by :
      PrismaAction
  create create_many create_many_and_return update update_many : PrismaAction
  update_many_and_return delete delete_many upsert : PrismaAction

abbrev pub action_text : PrismaAction → Text
action_text find_unique = codes "findUnique"
action_text find_unique_or_throw = codes "findUniqueOrThrow"
action_text find_first = codes "findFirst"
action_text find_first_or_throw = codes "findFirstOrThrow"
action_text find_many = codes "findMany"
action_text count = codes "count"
action_text aggregate = codes "aggregate"
action_text group_by = codes "groupBy"
action_text create = codes "create"
action_text create_many = codes "createMany"
action_text create_many_and_return = codes "createManyAndReturn"
action_text update = codes "update"
action_text update_many = codes "updateMany"
action_text update_many_and_return = codes "updateManyAndReturn"
action_text delete = codes "delete"
action_text delete_many = codes "deleteMany"
action_text upsert = codes "upsert"

-- The action takes `where`: all but the creations.
abbrev pub takes_where : PrismaAction → Bool
takes_where create = false
takes_where create_many = false
takes_where create_many_and_return = false
takes_where _ = true

-- It takes rows as its `data`.
abbrev pub takes_rows : PrismaAction → Bool
takes_rows create = true
takes_rows create_many = true
takes_rows create_many_and_return = true
takes_rows _ = false

-- It takes the columns to change as its `data`.
abbrev pub takes_changes : PrismaAction → Bool
takes_changes update = true
takes_changes update_many = true
takes_changes update_many_and_return = true
takes_changes _ = false

abbrev pub is_upsert : PrismaAction → Bool
is_upsert upsert = true
is_upsert _ = false

-- All but one: the helper has no rule for `updateManyAndReturn`.
abbrev pub is_covered : PrismaAction → Bool
is_covered update_many_and_return = false
is_covered _ = true

-- The lists of the helper have each covered action where it belongs.
pub record IsListed (a : PrismaAction) : Type 0 where
  pub reads : includes_text read_actions (action_text a) ≡ takes_where a
  pub creates : includes_text create_actions (action_text a) ≡ takes_rows a
  pub upserts : text_eq (action_text a) (codes "upsert") ≡ is_upsert a
  pub changes :
      (not (text_eq (action_text a) (codes "upsert"))
        && includes_text update_actions (action_text a))
      ≡ takes_changes a

pub covered-IsListed : (a : PrismaAction) → is_covered a ≡ true → IsListed a
unfolding read_actions create_actions update_actions
covered-IsListed find_unique h = record {
  reads = refl;
  creates = refl;
  upserts = refl;
  changes = refl;
}
covered-IsListed find_unique_or_throw h = record {
  reads = refl;
  creates = refl;
  upserts = refl;
  changes = refl;
}
covered-IsListed find_first h = record {
  reads = refl;
  creates = refl;
  upserts = refl;
  changes = refl;
}
covered-IsListed find_first_or_throw h = record {
  reads = refl;
  creates = refl;
  upserts = refl;
  changes = refl;
}
covered-IsListed find_many h = record {
  reads = refl;
  creates = refl;
  upserts = refl;
  changes = refl;
}
covered-IsListed count h = record { reads = refl; creates = refl; upserts = refl; changes = refl }
covered-IsListed aggregate h = record {
  reads = refl;
  creates = refl;
  upserts = refl;
  changes = refl;
}
covered-IsListed group_by h = record {
  reads = refl;
  creates = refl;
  upserts = refl;
  changes = refl;
}
covered-IsListed create h = record { reads = refl; creates = refl; upserts = refl; changes = refl }
covered-IsListed create_many h = record {
  reads = refl;
  creates = refl;
  upserts = refl;
  changes = refl;
}
covered-IsListed create_many_and_return h = record {
  reads = refl;
  creates = refl;
  upserts = refl;
  changes = refl;
}
covered-IsListed update h = record { reads = refl; creates = refl; upserts = refl; changes = refl }
covered-IsListed update_many h = record {
  reads = refl;
  creates = refl;
  upserts = refl;
  changes = refl;
}
covered-IsListed update_many_and_return h = absurd cc
covered-IsListed delete h = record { reads = refl; creates = refl; upserts = refl; changes = refl }
covered-IsListed delete_many h = record {
  reads = refl;
  creates = refl;
  upserts = refl;
  changes = refl;
}
covered-IsListed upsert h = record { reads = refl; creates = refl; upserts = refl; changes = refl }

pub data TenantModel : Type 0 where
  user_model courier_model dispatcher_model zone_model order_model order_status_history_model :
      TenantModel
  route_model route_point_model payment_rule_version_model payment_model
        payment_recalculation_model :
      TenantModel
  audit_log_model integration_model integration_event_model company_feature_model : TenantModel

abbrev pub model_text : TenantModel → Text
model_text user_model = codes "User"
model_text courier_model = codes "Courier"
model_text dispatcher_model = codes "Dispatcher"
model_text zone_model = codes "Zone"
model_text order_model = codes "Order"
model_text order_status_history_model = codes "OrderStatusHistory"
model_text route_model = codes "Route"
model_text route_point_model = codes "RoutePoint"
model_text payment_rule_version_model = codes "PaymentRuleVersion"
model_text payment_model = codes "Payment"
model_text payment_recalculation_model = codes "PaymentRecalculation"
model_text audit_log_model = codes "AuditLog"
model_text integration_model = codes "Integration"
model_text integration_event_model = codes "IntegrationEvent"
model_text company_feature_model = codes "CompanyFeature"

pub TenantModel-scoped : (m : TenantModel) → is_tenant_scoped_model (some (model_text m)) ≡ true
unfolding is_tenant_scoped_model
TenantModel-scoped user_model = refl
TenantModel-scoped courier_model = refl
TenantModel-scoped dispatcher_model = refl
TenantModel-scoped zone_model = refl
TenantModel-scoped order_model = refl
TenantModel-scoped order_status_history_model = refl
TenantModel-scoped route_model = refl
TenantModel-scoped route_point_model = refl
TenantModel-scoped payment_rule_version_model = refl
TenantModel-scoped payment_model = refl
TenantModel-scoped payment_recalculation_model = refl
TenantModel-scoped audit_log_model = refl
TenantModel-scoped integration_model = refl
TenantModel-scoped integration_event_model = refl
TenantModel-scoped company_feature_model = refl
