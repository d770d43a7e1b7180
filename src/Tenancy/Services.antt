-- ===== src/Tenancy/Services.antt =====
-- What a service does in `runWithTenant` of backend/src/prisma stays in its company.
use logistics_center.Base.{◌≡◌, Bool, true, false, ◌&&◌, Option, some, get_or}
use logistics_center.Base.Text.{Text}
use logistics_center.Values.{Fields, end}
use logistics_center.Tenancy.Actions.{PrismaAction}
use logistics_center.Tenancy.Scoping.{Confined}
use logistics_center.Tenancy.Context.{
  Query, run, Program, done, call, scoped, set_company_id, clear_company_id,
  bypass_tenant_isolation, set_request_id, clear_request_id,
}

-- The program neither changes the company nor bypasses the isolation.
abbrev pub keeps_tenant : {N : Type 0} → Program N → Bool
keeps_tenant done = true
keeps_tenant (call q rest) = keeps_tenant rest
keeps_tenant (scoped run callback rest) = keeps_tenant callback && keeps_tenant rest
keeps_tenant (scoped _ callback rest) = false
keeps_tenant (set_company_id company_id rest) = false
keeps_tenant (clear_company_id rest) = false
keeps_tenant (bypass_tenant_isolation rest) = false
keeps_tenant (set_request_id request_id rest) = keeps_tenant rest
keeps_tenant (clear_request_id rest) = keeps_tenant rest

module _ {N : Type 0} where
  -- A call with these arguments stays in the company.
  abbrev pub StaysIn : PrismaAction → Text → Query N → Option (Fields N) → Type 0
  StaysIn a company q out =
      (args : Fields N) × (out ≡ some args) × Confined a company (get_or q.args end) args
