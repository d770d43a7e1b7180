-- ===== src/Platform/Rows.antt =====
-- The rows of backend/src/modules/platform/platform.service.ts beside companies, and the payload of the
-- tokens of backend/src/modules/auth/auth.service.ts.
use logistics_center.Base.{
  ℕ, Bool, true, false, Option, none, some, List, [], ◌∷◌, leb, if◌then◌else◌,
}
use logistics_center.Access.Permissions.{UserRole}
use logistics_center.Access.Guards.{PlatformAdminStatus, active, suspended}
use logistics_center.Platform.Companies.{CompanyStatus, UpdatePlatformCompanyDto}

abbrev pub is_active_admin : PlatformAdminStatus → Bool
is_active_admin active = true
is_active_admin suspended = false

pub record PlatformSuperAdmin : Type 0 where
  pub id : ℕ
  pub email : ℕ
  pub password_hash : ℕ
  pub status : PlatformAdminStatus

pub record PlatformImpersonationSession : Type 0 where
  pub id : ℕ
  pub super_admin_id : ℕ
  pub target_company_id : ℕ
  pub started_at : ℕ
  pub ended_at : Option ℕ
  pub reason : Option ℕ

-- A user of a company.
pub record User : Type 0 where
  pub id : ℕ
  pub company_id : ℕ
  pub role : UserRole
  pub email : ℕ
  pub phone : Option ℕ
  pub first_name : ℕ
  pub last_name : Option ℕ
  pub password_hash : Option ℕ
  pub is_active : Bool
  pub created_at : ℕ

-- `action`, which fixes `target_type`, with the `metadata`.
pub data PlatformAction : Type 0 where
  company_updated : UpdatePlatformCompanyDto → PlatformAction
  company_status_changed : CompanyStatus → PlatformAction
  admin_created : PlatformAction
  admin_status_changed : PlatformAdminStatus → PlatformAction
  -- sessionId, reason
  impersonation_started : ℕ → Option ℕ → PlatformAction
  -- sessionId, originalAdminId
  impersonation_ended : ℕ → ℕ → PlatformAction
  -- ownerUserId, slug
  tenant_provisioned : ℕ → ℕ → PlatformAction
  tenant_owner_seeded : PlatformAction

pub record PlatformAuditEvent : Type 0 where
  pub actor_id : ℕ
  pub action : PlatformAction
  pub target_id : ℕ
  pub company_id : Option ℕ

-- `type` of a payload.
pub data TokenType : Type 0 where
  platform_token impersonation_token : TokenType

-- A token is its payload: signatures and expiry are checked by passport.
pub record JwtPayload : Type 0 where
  pub sub : ℕ
  pub company_id : Option ℕ
  pub role : Option UserRole
  pub email : Option ℕ
  pub session_id : Option ℕ
  pub token_type : Option TokenType

-- `orderBy: { created_at: 'asc' }` of `findFirst`.
unfoldable pub oldest : List User → Option User
oldest [] = none
oldest (u ∷ us) = elim (oldest us) [
  | none ↦ some u
  | some v ↦ if leb u.created_at v.created_at then some u else some v
]
