-- ===== src/Access/Tests.antt =====
-- Runs of the guards of backend/src/modules/auth/guards on sample calls.
use logistics_center.Base.{
  ◌≡◌, refl, true, false, none, some, [], ◌∷◌, Bool, Result, ok, err, forbidden,
}
use logistics_center.Base.Text.{Text, codes, is_blank}
use logistics_center.Access.Permissions.{UserRole, admin, dispatcher, edit_routes, has_permission}
use logistics_center.Access.Paths.{
  route_segments, normalize_guard_path, should_bypass_access_guards,
}
use logistics_center.Access.Guards.{
  tenant, Call, PassportOutcome, user_found, is_exempt, jwt_auth_guard, tenant_guard, roles_guard,
  permissions_guard, app_throttler_guard, global_guards,
}
use logistics_center.Access.Authorization.{IsAuthorized, global_guards_authorize}
use logistics_center.Access.Documentation.{begins_with_docs, should_bypass-eq-begins_with_docs}

-- `POST /api/v1/routes`, which asks for `edit:routes`.
abbrev edit_route : Call
edit_route = record {
  is_http = true;
  path = codes "/api/v1/routes";
  url = codes "/api/v1/routes?x=1";
  user = none;
  is_public = false;
  is_platform_route = false;
  required_roles = some (admin ∷ dispatcher ∷ []);
  required_permissions = some (edit_routes ∷ []);
}

abbrev as_dispatcher : Call → PassportOutcome
as_dispatcher c = user_found (some (tenant 7 8 dispatcher (codes "acme")))

abbrev dispatched : Call
dispatched = record edit_route { user = some (tenant 7 8 dispatcher (codes "acme")) }

docs_path : normalize_guard_path (codes "/api/V2/docs/assets/?q") [] ≡ codes "/docs/assets"
unfolding normalize_guard_path
docs_path = refl

-- A throttler that stops no one.
abbrev unthrottled : Call → Result Bool
unthrottled c = ok true

dispatcher_passes : global_guards unthrottled as_dispatcher edit_route ≡ ok dispatched
unfolding global_guards app_throttler_guard jwt_auth_guard tenant_guard roles_guard
    permissions_guard is_exempt should_bypass_access_guards is_blank has_permission
dispatcher_passes = refl

blank_company_refused :
    tenant_guard (record dispatched { user = some (tenant 7 8 dispatcher (codes "  ")) })
    ≡ err forbidden
unfolding tenant_guard is_exempt should_bypass_access_guards is_blank
blank_company_refused = refl

should_bypass-eq-begins_with_docs_example :
    should_bypass_access_guards (codes "/api/docs/x") []
    ≡ begins_with_docs (route_segments (codes "/api/docs/x") [])
should_bypass-eq-begins_with_docs_example =
    should_bypass-eq-begins_with_docs (codes "/api/docs/x") []

global_guards_authorize_example :
    (role : UserRole) × (company_id : Text) × IsAuthorized dispatched role company_id
    × (as_dispatcher edit_route ≡ user_found dispatched.user)
    × (dispatched ≡ record edit_route { user = dispatched.user })
unfolding is_exempt should_bypass_access_guards
global_guards_authorize_example =
    global_guards_authorize unthrottled as_dispatcher edit_route dispatched refl dispatcher_passes
