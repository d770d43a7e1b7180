-- ===== src/Tenancy/Context.antt =====
-- backend/src/prisma/tenant-context.service.ts, and the database calls that prisma.service.ts beside it
-- makes in a context. A program is what a request does with the context, in order; the storage of Node
-- gives a callback its own context and restores the one around it.
use logistics_center.Base.{
  Bool, true, false, Option, none, some, List, [], ◌∷◌, ◌++◌, get_or, Result,
}
use logistics_center.Base.Text.{Text}
use logistics_center.Values.{Fields}
use logistics_center.Tenancy.Isolation.{apply_tenant_isolation}

pub record TenantContextState : Type 0 where
  pub bypass_tenant : Option Bool
  pub company_id : Option Text
  pub request_id : Option Text

-- A call of a model's operation.
pub record Query (N : Type 0) : Type 0 where
  pub action : Text
  pub args : Option (Fields N)
  pub model : Option Text

-- `run`, `runAsync` without a state, `runWithTenant` and `runWithoutTenant` have a callback.
pub data Scope : Type 0 where
  run run_without_tenant : Scope
  run_with_tenant : Text → Scope

pub data Program (N : Type 0) : Type 0 where
  done : Program N
  call : Query N → Program N → Program N
  scoped : Scope → Program N → Program N → Program N
  set_company_id : Text → Program N → Program N
  clear_company_id : Program N → Program N
  bypass_tenant_isolation : Program N → Program N
  set_request_id : Text → Program N → Program N
  clear_request_id : Program N → Program N

abbrev pub empty_context : TenantContextState
empty_context = record { bypass_tenant = none; company_id = none; request_id = none }

-- `{ ...this.getStore(), ...state }`
unfoldable pub enter_scope : Scope → TenantContextState → TenantContextState
enter_scope run store = store
enter_scope run_without_tenant store = record store { bypass_tenant = some true; company_id = none }
enter_scope (run_with_tenant company_id) store = record store {
  bypass_tenant = some false;
  company_id = some company_id;
}

-- `this.getStore().bypassTenant === true`
abbrev pub is_bypassing_tenant : TenantContextState → Bool
is_bypassing_tenant store = get_or store.bypass_tenant false

module _ {N : Type 0} where
  -- `$allOperations`, up to the query itself.
  unfoldable pub scoped_args : Query N → TenantContextState → Result (Option (Fields N))
  scoped_args q store = apply_tenant_isolation (record {
    action = q.action;
    args = q.args;
    bypass_tenant = is_bypassing_tenant store;
    company_id = store.company_id;
    model = q.model;
  })

  -- The calls of a program, each with the arguments that reach the database.
  unfoldable pub execute :
      Program N → TenantContextState → List (Query N × Result (Option (Fields N)))
  execute done store = []
  execute (call q rest) store = (q, scoped_args q store) ∷ execute rest store
  execute (scoped scope callback rest) store =
      execute callback (enter_scope scope store) ++ execute rest store
  execute (set_company_id company_id rest) store =
      execute rest (record store { bypass_tenant = some false; company_id = some company_id })
  execute (clear_company_id rest) store =
      execute rest (record store { bypass_tenant = some false; company_id = none })
  execute (bypass_tenant_isolation rest) store =
      execute rest (record store { bypass_tenant = some true })
  execute (set_request_id request_id rest) store =
      execute rest (record store { request_id = some request_id })
  execute (clear_request_id rest) store = execute rest (record store { request_id = none })
