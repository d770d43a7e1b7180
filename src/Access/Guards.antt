-- ===== src/Access/Guards.antt =====
-- backend/src/modules/auth/auth-request.types.ts and the guards of backend/src/modules/auth/guards,
-- in the order in which backend/src/app.module.ts registers them.
use logistics_center.Base.{
  ℕ, Bool, true, false, not, ◌||◌, Option, none, some, List, [], ◌∷◌, all, Result, ok, err, Error,
  forbidden, unauthorized, ◌>>=◌, ◌>>◌, if◌then◌else◌,
}
use logistics_center.Base.Text.{Text, is_blank}
use logistics_center.Access.Permissions.{UserRole, PermissionName, has_permission, includes_role}
use logistics_center.Access.Paths.{should_bypass_access_guards}

pub data PlatformAdminStatus : Type 0 where
  active suspended : PlatformAdminStatus

pub data AuthenticatedUser : Type 0 where
  -- id, email, role, companyId
  tenant : ℕ → ℕ → UserRole → Text → AuthenticatedUser
  -- and platformAdminId, platformAdminEmail, impersonationSessionId
  impersonation : ℕ → ℕ → UserRole → Text → ℕ → ℕ → ℕ → AuthenticatedUser
  -- id, email, status
  platform : ℕ → ℕ → PlatformAdminStatus → AuthenticatedUser

-- `isTenantAuthenticatedUser`, with the role and company that it lets the caller read.
abbrev pub tenant_of_company : UserRole → Text → Option (UserRole × Text)
tenant_of_company role [] = none
tenant_of_company role (c ∷ s) = some (role, c ∷ s)

unfoldable pub tenant_authenticated_user : Option AuthenticatedUser → Option (UserRole × Text)
tenant_authenticated_user none = none
tenant_authenticated_user (some (platform _ _ _)) = none
tenant_authenticated_user (some (tenant _ _ role company_id)) = tenant_of_company role company_id
tenant_authenticated_user (some (impersonation _ _ role company_id _ _ _)) =
    tenant_of_company role company_id

unfoldable pub is_platform_admin_user : Option AuthenticatedUser → Bool
is_platform_admin_user (some (platform _ _ _)) = true
is_platform_admin_user _ = false

-- A request, and the metadata that the reflector finds for its handler: the decorators of the method,
-- or else of the class (`undefined` is `none`).
pub record Call : Type 0 where
  pub is_http : Bool
  pub path : Text
  pub url : Text
  pub user : Option AuthenticatedUser
  pub is_public : Bool
  pub is_platform_route : Bool
  pub required_roles : Option (List UserRole)
  pub required_permissions : Option (List PermissionName)

-- The first tests of TenantGuard, RolesGuard and PermissionsGuard.
unfoldable pub is_exempt : Call → Bool
is_exempt c =
    not c.is_http
    || (c.is_public || (c.is_platform_route || should_bypass_access_guards c.path c.url))

-- What passport hands to `handleRequest`: an exception, another truthy value, or a user if any.
pub data PassportOutcome : Type 0 where
  failed : Error → PassportOutcome
  rejected : PassportOutcome
  user_found : Option AuthenticatedUser → PassportOutcome

unfoldable pub handle_request : PassportOutcome → Result AuthenticatedUser
handle_request (failed e) = err e
handle_request rejected = err unauthorized
handle_request (user_found none) = err unauthorized
handle_request (user_found (some user)) = ok user

-- The user that passport authenticates is stored in the request.
unfoldable pub jwt_auth_guard : (Call → PassportOutcome) → Call → Result Call
unfolding handle_request
jwt_auth_guard passport c =
    if not c.is_http || (c.is_public || should_bypass_access_guards c.path c.url)
    then ok c
    else do user ← handle_request (passport c); ok (record c { user = some user })

abbrev pub tenant_company : Option (UserRole × Text) → Result Bool
tenant_company none = err forbidden
tenant_company (some (role, company_id)) = if is_blank company_id then err forbidden else ok true

unfoldable pub tenant_guard : Call → Result Bool
unfolding tenant_authenticated_user
tenant_guard c = if is_exempt c then ok true else tenant_company (tenant_authenticated_user c.user)

-- `!list?.length`
abbrev pub required {ℓ} : {A : Type ℓ} → Option (List A) → Option (List A)
required none = none
required (some []) = none
required (some (x ∷ xs)) = some (x ∷ xs)

abbrev pub check_role : List UserRole → Option (UserRole × Text) → Result Bool
check_role roles none = err forbidden
check_role roles (some (role, _)) = if includes_role roles role then ok true else err forbidden

abbrev pub check_roles : Option (List UserRole) → Option (UserRole × Text) → Result Bool
check_roles none user = ok true
check_roles (some roles) user = check_role roles user

unfoldable pub roles_guard : Call → Result Bool
unfolding tenant_authenticated_user
roles_guard c =
    if is_exempt c
    then ok true
    else check_roles (required c.required_roles) (tenant_authenticated_user c.user)

abbrev pub check_permission : List PermissionName → Option (UserRole × Text) → Result Bool
check_permission permissions none = err forbidden
check_permission permissions (some (role, _)) =
    if all (has_permission role) permissions then ok true else err forbidden

abbrev pub check_permissions : Option (List PermissionName) → Option (UserRole × Text) → Result Bool
check_permissions none user = ok true
check_permissions (some permissions) user = check_permission permissions user

unfoldable pub permissions_guard : Call → Result Bool
unfolding tenant_authenticated_user
permissions_guard c =
    if is_exempt c
    then ok true
    else check_permissions (required c.required_permissions) (tenant_authenticated_user c.user)

-- backend/src/modules/platform/guards/platform.guard.ts
unfoldable pub platform_guard : Call → Result Bool
unfolding is_platform_admin_user
platform_guard c =
    if c.is_http
    then (if is_platform_admin_user c.user then ok true else err forbidden)
    else ok true

-- AppThrottlerGuard of backend/src/common/guards/app-throttler.guard.ts, before any user is known.
-- `throttle` is the guard of @nestjs/throttler that it calls, which answers or throws. The request
-- identifier that it takes down is left out.
unfoldable pub app_throttler_guard : (Call → Result Bool) → Call → Result Bool
app_throttler_guard throttle c = if c.is_http then throttle c else ok true

-- What Nest does with the answer of a guard; the other guards never answer with false.
abbrev pub activated : Bool → Result Bool
activated true = ok true
activated false = err forbidden

-- The global guards, one after the other: AppThrottlerGuard, JwtAuthGuard, TenantGuard, RolesGuard,
-- PermissionsGuard.
unfoldable pub global_guards : (Call → Result Bool) → (Call → PassportOutcome) → Call → Result Call
global_guards throttle passport c = do
  passed ← app_throttler_guard throttle c
  activated passed
  c' ← jwt_auth_guard passport c
  tenant_guard c'
  roles_guard c'
  permissions_guard c'
  ok c'
