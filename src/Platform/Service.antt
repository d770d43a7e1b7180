-- ===== src/Platform/Service.antt =====
-- Companies and administrators in backend/src/modules/platform/platform.service.ts. `hash` is the hash of a
-- password. An email or slug that exists makes the database refuse a row.
use logistics_center.Base.{
  ℕ, Bool, true, not, ◌&&◌, Option, none, some, List, ◌∷◌, ◌==◌, length, is_some, Result, ok,
  not_found, bad_request, conflict, ◌>>=◌, ◌>>◌, throw_if, or_throw,
}
use logistics_center.Database.{Table}
use logistics_center.Access.Guards.{PlatformAdminStatus, active, suspended}
use logistics_center.Platform.Companies.{
  CompanyStatus, archived, Company, CompanyFeature, UpdatePlatformCompanyDto, edit_company,
}
use logistics_center.Platform.Rows.{
  is_active_admin, PlatformSuperAdmin, PlatformImpersonationSession, User, PlatformAction,
  company_updated, company_status_changed, admin_created, admin_status_changed, PlatformAuditEvent,
}

pub record Tables : Type 1 where
  pub companies : Table Company
  pub admins : Table PlatformSuperAdmin
  pub sessions : Table PlatformImpersonationSession
  pub users : Table User

pub record CreatePlatformAdminDto : Type 0 where
  pub email : ℕ
  pub password : ℕ

module _ (t : Tables) where
  open t use {companies, admins, sessions, users}

  pub record Db : Type 0 where
    pub company_rows : companies.State
    pub admin_rows : admins.State
    pub session_rows : sessions.State
    pub user_rows : users.State
    pub features : List CompanyFeature
    pub audit : List PlatformAuditEvent

  unfoldable pub append_platform_audit : ℕ → PlatformAction → ℕ → Option ℕ → Db → Db
  append_platform_audit actor_id action target_id company_id db = record db {
    audit =
        record {
          actor_id = actor_id;
          action = action;
          target_id = target_id;
          company_id = company_id;
        }
        ∷ db.audit;
  }

  abbrev pub is_company : ℕ → Company → Bool
  is_company id c = c.id == id

  abbrev pub is_admin : ℕ → PlatformSuperAdmin → Bool
  is_admin id a = a.id == id

  unfoldable pub list_companies : Db → List Company
  list_companies db = companies.find_many (λ c. true) db.company_rows

  unfoldable pub get_company : ℕ → Db → Result Company
  get_company company_id db =
      or_throw (companies.find_first (is_company company_id) db.company_rows) not_found

  -- `ensureCompanyExists`
  abbrev pub ensure_company_exists : ℕ → Db → Result Company
  ensure_company_exists company_id db =
      or_throw (companies.find_first (is_company company_id) db.company_rows) not_found

  -- `update({ where: { id } })` of a company, with its audit event.
  abbrev pub write_company :
      ℕ → ℕ → (Company → Company) → PlatformAction → Db → Result (Company × Db)
  write_company actor_admin_id company_id f action db = do
    (company, rows') ←
        or_throw (companies.update (is_company company_id) f db.company_rows) not_found
    ok (
      company,
      append_platform_audit actor_admin_id action company_id (some company_id)
          (record db { company_rows = rows' }),
    )

  unfoldable pub update_company : ℕ → UpdatePlatformCompanyDto → ℕ → Db → Result (Company × Db)
  unfolding append_platform_audit
  update_company company_id dto actor_admin_id db = do
    ensure_company_exists company_id db
    write_company actor_admin_id company_id (edit_company dto) (company_updated dto) db

  unfoldable pub change_company_status : ℕ → CompanyStatus → ℕ → Db → Result (Company × Db)
  unfolding append_platform_audit
  change_company_status company_id status actor_admin_id db = do
    ensure_company_exists company_id db
    write_company actor_admin_id company_id (λ c. record c { status = status })
        (company_status_changed status) db

  unfoldable pub archive_company : ℕ → ℕ → Db → Result (Company × Db)
  unfolding change_company_status
  archive_company company_id actor_admin_id db =
      change_company_status company_id archived actor_admin_id db

  unfoldable pub list_tenant_users : ℕ → Db → Result (List User)
  list_tenant_users company_id db = do
    ensure_company_exists company_id db
    ok (users.find_many (λ u. u.company_id == company_id) db.user_rows)

  unfoldable pub list_admins : Db → List PlatformSuperAdmin
  list_admins db = admins.find_many (λ a. true) db.admin_rows

  unfoldable pub new_admin : (ℕ → ℕ) → CreatePlatformAdminDto → ℕ → PlatformSuperAdmin
  new_admin hash dto id = record {
    id = id;
    email = dto.email;
    password_hash = hash dto.password;
    status = active;
  }

  unfoldable pub create_admin :
      (ℕ → ℕ) → CreatePlatformAdminDto → ℕ → Db → Result (PlatformSuperAdmin × Db)
  unfolding new_admin append_platform_audit
  create_admin hash dto actor_admin_id db = do
    throw_if (is_some (admins.find_first (λ a. a.email == dto.email) db.admin_rows)) conflict
    let (admin, rows') = admins.create (new_admin hash dto) db.admin_rows
    ok (
      admin,
      append_platform_audit actor_admin_id admin_created admin.id none
          (record db { admin_rows = rows' }),
    )

  unfoldable pub get_admin : ℕ → Db → Result PlatformSuperAdmin
  get_admin admin_id db = or_throw (admins.find_first (is_admin admin_id) db.admin_rows) not_found

  abbrev pub other_active_admins : ℕ → Db → List PlatformSuperAdmin
  other_active_admins admin_id db =
      admins.find_many (λ a. not (a.id == admin_id) && is_active_admin a.status) db.admin_rows

  -- `if (dto.status === PlatformAdminStatus.suspended)`
  abbrev pub check_status : PlatformAdminStatus → ℕ → ℕ → Db → Result (Unit {0})
  check_status active admin_id actor_admin_id db = ok tt
  check_status suspended admin_id actor_admin_id db = do
    throw_if (admin_id == actor_admin_id) bad_request
    throw_if (length (other_active_admins admin_id db) == 0) bad_request

  unfoldable pub update_admin : ℕ → PlatformAdminStatus → ℕ → Db → Result (PlatformSuperAdmin × Db)
  unfolding append_platform_audit
  update_admin admin_id status actor_admin_id db = do
    or_throw (admins.find_first (is_admin admin_id) db.admin_rows) not_found
    check_status status admin_id actor_admin_id db
    (admin, rows') ←
        or_throw
          (admins.update (is_admin admin_id) (λ a. record a { status = status }) db.admin_rows)
          not_found
    ok (
      admin,
      append_platform_audit actor_admin_id (admin_status_changed status) admin_id none
          (record db { admin_rows = rows' }),
    )
