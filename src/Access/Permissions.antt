-- ===== src/Access/Permissions.antt =====
-- backend/src/modules/auth/permissions/permission-matrix.ts
use logistics_center.Base.{Bool, true, false, ◌||◌, List, [], ◌∷◌}

pub data UserRole : Type 0 where
  admin dispatcher courier : UserRole

pub data PermissionName : Type 0 where
  view_orders edit_orders edit_routes edit_zones edit_payment_rules : PermissionName
  approve_motivation_rules view_financial_analytics view_operational_analytics : PermissionName
  view_own_earnings manage_couriers manage_shifts connect_integrations manage_users : PermissionName

pub PermissionName-discrete : Discrete PermissionName
PermissionName-discrete = hlevel

abbrev pub role_eq : UserRole → UserRole → Bool
role_eq admin admin = true
role_eq dispatcher dispatcher = true
role_eq courier courier = true
role_eq _ _ = false

abbrev pub includes_role : List UserRole → UserRole → Bool
includes_role [] r = false
includes_role (x ∷ xs) r = role_eq x r || includes_role xs r

abbrev pub permission_eq : PermissionName → PermissionName → Bool
permission_eq view_orders view_orders = true
permission_eq edit_orders edit_orders = true
permission_eq edit_routes edit_routes = true
permission_eq edit_zones edit_zones = true
permission_eq edit_payment_rules edit_payment_rules = true
permission_eq approve_motivation_rules approve_motivation_rules = true
permission_eq view_financial_analytics view_financial_analytics = true
permission_eq view_operational_analytics view_operational_analytics = true
permission_eq view_own_earnings view_own_earnings = true
permission_eq manage_couriers manage_couriers = true
permission_eq manage_shifts manage_shifts = true
permission_eq connect_integrations connect_integrations = true
permission_eq manage_users manage_users = true
permission_eq _ _ = false

abbrev pub includes_permission : List PermissionName → PermissionName → Bool
includes_permission [] p = false
includes_permission (x ∷ xs) p = permission_eq x p || includes_permission xs p

abbrev pub all_permission_names : List PermissionName
all_permission_names =
    view_orders ∷ edit_orders ∷ edit_routes ∷ edit_zones ∷ edit_payment_rules
    ∷ approve_motivation_rules ∷ view_financial_analytics ∷ view_operational_analytics
    ∷ view_own_earnings ∷ manage_couriers ∷ manage_shifts ∷ connect_integrations ∷ manage_users ∷ []

abbrev pub dispatcher_permissions : List PermissionName
dispatcher_permissions =
    view_orders ∷ edit_orders ∷ edit_routes ∷ view_operational_analytics ∷ manage_couriers
    ∷ manage_shifts ∷ []

abbrev pub courier_permissions : List PermissionName
courier_permissions = view_orders ∷ view_own_earnings ∷ []

-- `ROLE_PERMISSION_MATRIX`
unfoldable pub role_permission_matrix : UserRole → List PermissionName
role_permission_matrix admin = all_permission_names
role_permission_matrix dispatcher = dispatcher_permissions
role_permission_matrix courier = courier_permissions

-- Every role has a row in the matrix, so the `?? []` is never taken.
unfoldable pub get_permissions_for_role : UserRole → List PermissionName
unfolding role_permission_matrix
get_permissions_for_role role = role_permission_matrix role

unfoldable pub has_permission : UserRole → PermissionName → Bool
unfolding get_permissions_for_role
has_permission role permission = includes_permission (get_permissions_for_role role) permission
