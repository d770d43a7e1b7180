-- ===== src/Access/Authorization.antt =====
-- What a call that the global guards of backend/src/modules/auth/guards let through has shown.
use logistics_center.Base.{
  ◌≡◌, refl, inl, inr, Bool, true, false, Option, none, some, List, all, Result, ok, err, forbidden,
  Option-cases, arith, bind_returns, ap, ◌∙◌, sym,
}
use logistics_center.Base.Text.{Text, is_blank}
use logistics_center.Access.Permissions.{UserRole, PermissionName, has_permission, includes_role}
use logistics_center.Access.Guards.{
  AuthenticatedUser, Call, PassportOutcome, user_found, is_exempt, tenant_authenticated_user,
  required, jwt_auth_guard, tenant_guard, roles_guard, permissions_guard, platform_guard, activated,
  app_throttler_guard, global_guards,
}

-- The role is one of the required ones, where any are required.
abbrev pub HasRole : Option (List UserRole) → UserRole → Type 0
HasRole none role = Unit
HasRole (some roles) role = includes_role roles role ≡ true

abbrev pub HasPermissions : Option (List PermissionName) → UserRole → Type 0
HasPermissions none role = Unit
HasPermissions (some permissions) role = all (has_permission role) permissions ≡ true

-- The user of the call belongs to a company and may do what the handler's decorators ask for.
pub record IsAuthorized (c : Call) (role : UserRole) (company_id : Text) : Type 0 where
  pub member : tenant_authenticated_user c.user ≡ some (role, company_id)
  pub company : is_blank company_id ≡ false
  pub role_held : HasRole (required c.required_roles) role
  pub permissions_held : HasPermissions (required c.required_permissions) role

tenant_guard_sound :
    (c : Call)
    → is_exempt c ≡ false
    → (b : Bool) → tenant_guard c ≡ ok b
    → (role : UserRole) × (company_id : Text) × (tenant_authenticated_user c.user
        ≡ some (role, company_id))
      × (is_blank company_id ≡ false)
unfolding tenant_guard
tenant_guard_sound c e b h = elim (Option-cases (tenant_authenticated_user c.user)) [
  | inl n ↦ absurd (ground arith)
  | inr (u, s) ↦ (u.0, u.1, s, ground (arith, s))
]

roles_guard_sound :
    (c : Call) (role : UserRole) (company_id : Text)
    → is_exempt c ≡ false
    → tenant_authenticated_user c.user ≡ some (role, company_id)
    → (b : Bool) → roles_guard c ≡ ok b
    → HasRole (required c.required_roles) role
unfolding roles_guard
roles_guard_sound c role company_id e u b h = elim (Option-cases (required c.required_roles)) [
  | inl n ↦ rw n tt
  | inr (rs, s) ↦ rw s (ground (arith, s))
]

permissions_guard_sound :
    (c : Call) (role : UserRole) (company_id : Text)
    → is_exempt c ≡ false
    → tenant_authenticated_user c.user ≡ some (role, company_id)
    → (b : Bool) → permissions_guard c ≡ ok b
    → HasPermissions (required c.required_permissions) role
unfolding permissions_guard
permissions_guard_sound c role company_id e u b h =
    elim (Option-cases (required c.required_permissions)) [
      | inl n ↦ rw n tt
      | inr (ps, s) ↦ rw s (ground (arith, s))
    ]

-- Passport has found the user that the guarded request carries on.
jwt_auth_guard_sound :
    (passport : Call → PassportOutcome) (c c' : Call)
    → is_exempt c ≡ false
    → jwt_auth_guard passport c ≡ ok c'
    → (passport c ≡ user_found c'.user) × (c' ≡ record c { user = c'.user })
unfolding jwt_auth_guard is_exempt
jwt_auth_guard_sound passport c c' e h = ground (arith, e)

global_guards_parts :
    (throttle : Call → Result Bool) (passport : Call → PassportOutcome) (c c' : Call)
    → global_guards throttle passport c ≡ ok c'
    → (jwt_auth_guard passport c ≡ ok c')
      × ((b : Bool) × (tenant_guard c' ≡ ok b))
      × ((b : Bool) × (roles_guard c' ≡ ok b))
      × ((b : Bool) × (permissions_guard c' ≡ ok b))
unfolding global_guards
global_guards_parts throttle passport c c' h =
    let (passed, tp, ht) = bind_returns (app_throttler_guard throttle c) _ h in
    let (u, tu, h0) = bind_returns (activated passed) _ ht in
    let (d, jd, h1) = bind_returns (jwt_auth_guard passport c) _ h0 in
    let (t, jt, h2) = bind_returns (tenant_guard d) _ h1 in
    let (r, jr, h3) = bind_returns (roles_guard d) _ h2 in
    let (p, jp, h4) = bind_returns (permissions_guard d) _ h3 in
    let same : d ≡ c' = cc in
    (
      jd ∙ ap ok same,
      (t, ap tenant_guard (sym same) ∙ jt),
      (r, ap roles_guard (sym same) ∙ jr),
      (p, ap permissions_guard (sym same) ∙ jp),
    )

is_exempt_user :
    (c : Call) (u : Option AuthenticatedUser) → is_exempt (record c { user = u }) ≡ is_exempt c
unfolding is_exempt
is_exempt_user c u = refl

-- A call that the global guards let through, and that no exemption covers (another transport than
-- http, a public or platform handler, the documentation), carries the user that passport found. This
-- user belongs to a company with a name that is not blank, holds one of the roles that the handler
-- requires, if it requires any, and holds every permission that it requires. The guards change nothing
-- of the call but its user.
pub global_guards_authorize :
    (throttle : Call → Result Bool) (passport : Call → PassportOutcome) (c c' : Call)
    → is_exempt c ≡ false
    → global_guards throttle passport c ≡ ok c'
    → (role : UserRole) × (company_id : Text) × IsAuthorized c' role company_id
      × (passport c ≡ user_found c'.user)
      × (c' ≡ record c { user = c'.user })
global_guards_authorize throttle passport c c' e h =
    let (j, (t, ht), (r, hr), (p, hp)) = global_guards_parts throttle passport c c' h in
    let (found, same) = jwt_auth_guard_sound passport c c' e j in
    let e' : is_exempt c' ≡ false = ap is_exempt same ∙ is_exempt_user c c'.user ∙ e in
    let (role, company_id, member, company) = tenant_guard_sound c' e' t ht in
    let authorized : IsAuthorized c' role company_id = record {
      member = member;
      company = company;
      role_held = roles_guard_sound c' role company_id e' member r hr;
      permissions_held = permissions_guard_sound c' role company_id e' member p hp;
    } in
    (role, company_id, authorized, found, same)

-- No user passes both the tenant guard, on a handler that it covers, and the platform guard over http:
-- the two kinds of accounts are kept apart.
pub tenant-platform_disjoint :
    (c d : Call)
    → is_exempt c ≡ false
    → d.is_http ≡ true
    → c.user ≡ d.user
    → tenant_guard c ≡ ok true
    → platform_guard d ≡ err forbidden
unfolding tenant_guard platform_guard
tenant-platform_disjoint c d e http same h = ground (arith, e)
