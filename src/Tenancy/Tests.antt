-- ===== src/Tenancy/Tests.antt =====
-- Runs of backend/src/prisma on sample calls.
use logistics_center.Base.{true, ℕ, ◌≡◌, refl, false, some, ok, err, tenant_write_violation}
use logistics_center.Base.Text.{Text, codes}
use logistics_center.Values.{Fields, str, obj, arr, cons, nil, end, field}
use logistics_center.Tenancy.Isolation.{
  is_tenant_scoped_model, TenantIsolationInput, apply_tenant_isolation, scope_read, scope_create,
  scope_update, inject_key, inject_tenant_into_create_data, read_actions, create_actions,
  update_actions,
}
use logistics_center.Tenancy.Context.{
  TenantContextState, Query, run, Program, done, call, scoped, set_request_id, empty_context,
}

abbrev find_order : TenantIsolationInput ℕ
find_order = record {
  action = codes "findMany";
  args = some (field (codes "where") (obj (field (codes "id") (str (codes "o1")) end)) end);
  bypass_tenant = false;
  company_id = some (codes "acme");
  model = some (codes "Order");
}

abbrev found_args : Fields ℕ
found_args =
    field (codes "where")
      (obj (
        field (codes "id") (str (codes "o1"))
          (field (codes "company_id") (str (codes "acme")) end)))
      end

foreign_row_refused :
    apply_tenant_isolation (record find_order {
      action = codes "createMany";
      args = some (
          field
            (codes "data")
            (arr (cons (obj (field (codes "company_id") (str (codes "other")) end)) nil))
            end);
    })
    ≡ err tenant_write_violation
unfolding apply_tenant_isolation is_tenant_scoped_model scope_read scope_create scope_update
    inject_key inject_tenant_into_create_data read_actions create_actions update_actions
foreign_row_refused = refl

-- Where a company is set, updateManyAndReturn reaches the database with no filter.
unfiltered_run :
    apply_tenant_isolation
      (record find_order { action = codes "updateManyAndReturn"; args = some end })
    ≡ ok (some end)
unfolding apply_tenant_isolation is_tenant_scoped_model scope_read scope_create scope_update
    read_actions create_actions update_actions
unfiltered_run = refl

-- A service that reads an order in its company, in the context of another one.
abbrev find_query : Query ℕ
find_query = record { action = find_order.action; args = find_order.args; model = find_order.model }

abbrev service : Program ℕ
service = set_request_id (codes "r1") (scoped run (call find_query done) (call find_query done))

abbrev foreign_context : TenantContextState
foreign_context = record empty_context {
  bypass_tenant = some true;
  company_id = some (codes "other");
}
