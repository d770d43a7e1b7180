-- ===== src/Platform/Steps.antt =====
-- The calls of backend/src/modules/platform/platform.service.ts that write, as steps, and what each of them
-- leaves as it was. A call that throws writes nothing.
use logistics_center.Base.{
  ℕ, ◌≡◌, refl, sym, ap, subst, ◌&&◌, Option, ◌==◌, ltb, length, is_some, ok, not_found, conflict,
  throw_if, or_throw, bind_returns, ok_injective,
}
use logistics_center.Base.Text.{Text}
use logistics_center.Access.Guards.{PlatformAdminStatus}
use logistics_center.Platform.Companies.{
  CompanyStatus, Company, UpdatePlatformCompanyDto, ProvisionTenantOwnerInput, ProvisionTenantInput,
  edit_company, new_company,
}
use logistics_center.Platform.Rows.{
  PlatformSuperAdmin, User, PlatformAction, company_updated, company_status_changed,
}
use logistics_center.Platform.Service.{
  Tables, CreatePlatformAdminDto, Db, append_platform_audit, is_company, ensure_company_exists,
  write_company, update_company, change_company_status, create_admin, update_admin, archive_company,
  is_admin, check_status,
}
use logistics_center.Platform.Provisioning.{has_email, create_owner, provision_company, seed_owner}
use logistics_center.Platform.Impersonation.{
  StartImpersonationResponse, start_impersonation, end_impersonation,
}

module _ (t : Tables) (hash : ℕ → ℕ) (company_text : ℕ → Text) where
  open t use {companies, admins, users}

  pub data PlatformStep : Db t → Db t → Type 0 where
    edited :
        (company_id : ℕ) (dto : UpdatePlatformCompanyDto) (actor_admin_id : ℕ) (db db' : Db t)
        (c : Company)
        → update_company t company_id dto actor_admin_id db ≡ ok (c, db')
        → PlatformStep db db'
    status_set :
        (company_id : ℕ) (status : CompanyStatus) (actor_admin_id : ℕ) (db db' : Db t) (c : Company)
        → change_company_status t company_id status actor_admin_id db ≡ ok (c, db')
        → PlatformStep db db'
    closed :
        (company_id actor_admin_id : ℕ) (db db' : Db t) (c : Company)
        → archive_company t company_id actor_admin_id db ≡ ok (c, db')
        → PlatformStep db db'
    provisioned :
        (now : ℕ) (input : ProvisionTenantInput) (actor_admin_id : ℕ) (db db' : Db t) (c : Company)
        (owner : User)
        → provision_company t hash now input actor_admin_id db ≡ ok (c, owner, db')
        → PlatformStep db db'
    owner_seeded :
        (now company_id : ℕ) (owner : ProvisionTenantOwnerInput) (actor_admin_id : ℕ)
        (db db' : Db t) (u : User)
        → seed_owner t hash now company_id owner actor_admin_id db ≡ ok (u, db')
        → PlatformStep db db'
    admin_added :
        (dto : CreatePlatformAdminDto) (actor_admin_id : ℕ) (db db' : Db t) (a : PlatformSuperAdmin)
        → create_admin t hash dto actor_admin_id db ≡ ok (a, db')
        → PlatformStep db db'
    admin_updated :
        (admin_id : ℕ) (status : PlatformAdminStatus) (actor_admin_id : ℕ) (db db' : Db t)
        (a : PlatformSuperAdmin)
        → update_admin t admin_id status actor_admin_id db ≡ ok (a, db')
        → PlatformStep db db'
    session_started :
        (now company_id : ℕ) (reason : Option ℕ) (actor_admin_id : ℕ) (db db' : Db t)
        (response : StartImpersonationResponse)
        → start_impersonation t company_text now company_id reason actor_admin_id db
          ≡ ok (response, db')
        → PlatformStep db db'
    session_ended :
        (now session_id actor_admin_id : ℕ) (db db' : Db t)
        → end_impersonation t company_text now session_id actor_admin_id db ≡ ok db'
        → PlatformStep db db'

  pub data Reaches (first : Db t) : Db t → Type 0 where
    here : Reaches first first
    next : {db db' : Db t} → Reaches first db → PlatformStep db db' → Reaches first db'

  -- Neither administrators nor sessions are written.
  pub record SameAccounts (db db' : Db t) : Type 0 where
    pub admins_same : db'.admin_rows ≡ db.admin_rows
    pub sessions_same : db'.session_rows ≡ db.session_rows

  write_company-SameAccounts :
      (actor_admin_id company_id : ℕ) (f : Company → Company) (action : PlatformAction)
      (db db' : Db t) (c : Company)
      → write_company t actor_admin_id company_id f action db ≡ ok (c, db')
      → SameAccounts db db'
  unfolding append_platform_audit
  write_company-SameAccounts actor_admin_id company_id f action db db' c h =
      let (_, _, h1) =
        bind_returns
          (or_throw (companies.update (is_company t company_id) f db.company_rows) not_found) _ h in
      subst (λ out. SameAccounts db out.1) (ok_injective _ (c, db') h1)
        (record { admins_same = refl; sessions_same = refl })

  pub update_company-SameAccounts :
      (company_id : ℕ) (dto : UpdatePlatformCompanyDto) (actor_admin_id : ℕ) (db db' : Db t)
      (c : Company)
      → update_company t company_id dto actor_admin_id db ≡ ok (c, db')
      → SameAccounts db db'
  unfolding update_company
  update_company-SameAccounts company_id dto actor_admin_id db db' c h =
      let (_, _, h1) = bind_returns (ensure_company_exists t company_id db) _ h in
      write_company-SameAccounts actor_admin_id company_id (edit_company dto) (company_updated dto)
        db db' c h1

  pub change_company_status-SameAccounts :
      (company_id : ℕ) (status : CompanyStatus) (actor_admin_id : ℕ) (db db' : Db t) (c : Company)
      → change_company_status t company_id status actor_admin_id db ≡ ok (c, db')
      → SameAccounts db db'
  unfolding change_company_status
  change_company_status-SameAccounts company_id status actor_admin_id db db' c h =
      let (_, _, h1) = bind_returns (ensure_company_exists t company_id db) _ h in
      write_company-SameAccounts actor_admin_id company_id (λ c. record c { status = status })
        (company_status_changed status) db db' c h1

  create_owner-SameAccounts :
      (now company_id : ℕ) (owner : ProvisionTenantOwnerInput) (db db' : Db t) (u : User)
      → create_owner t hash now company_id owner db ≡ ok (u, db')
      → SameAccounts db db'
  unfolding create_owner
  create_owner-SameAccounts now company_id owner db db' u h =
      let (_, _, h1) =
        bind_returns
          (throw_if
            (is_some (users.find_first (has_email t hash now company_id owner.email) db.user_rows))
            conflict)
          _ h in
      subst (λ out. SameAccounts db out.1) (ok_injective _ (u, db') h1)
        (record { admins_same = refl; sessions_same = refl })

  pub provision_company-SameAccounts :
      (now : ℕ) (input : ProvisionTenantInput) (actor_admin_id : ℕ) (db db' : Db t) (c : Company)
      (owner : User)
      → provision_company t hash now input actor_admin_id db ≡ ok (c, owner, db')
      → SameAccounts db db'
  unfolding provision_company append_platform_audit
  provision_company-SameAccounts now input actor_admin_id db db' c owner h =
      let (_, _, h1) =
        bind_returns
          (throw_if (is_some (companies.find_first (λ c. c.slug == input.slug) db.company_rows))
            conflict)
          _ h in
      let created = companies.create (new_company input) db.company_rows in
      let ((u, db1), called, h2) =
        bind_returns
          (create_owner t hash now created.0.id input.owner
            (record db { company_rows = created.1 }))
          _ h1 in
      let kept =
        create_owner-SameAccounts now created.0.id input.owner
          (record db { company_rows = created.1 }) db1 u called in
      subst (λ out. SameAccounts db out.2) (ok_injective _ (c, owner, db') h2)
        (record { admins_same = kept.admins_same; sessions_same = kept.sessions_same })

  pub seed_owner-SameAccounts :
      (now company_id : ℕ) (owner : ProvisionTenantOwnerInput) (actor_admin_id : ℕ) (db db' : Db t)
      (u : User)
      → seed_owner t hash now company_id owner actor_admin_id db ≡ ok (u, db')
      → SameAccounts db db'
  unfolding seed_owner append_platform_audit
  seed_owner-SameAccounts now company_id owner actor_admin_id db db' u h =
      let (_, _, h1) =
        bind_returns
          (or_throw (companies.find_first (is_company t company_id) db.company_rows) not_found) _
          h in
      let active_users =
        length (users.find_many (λ u. u.company_id == company_id && u.is_active) db.user_rows) in
      let (_, _, h2) = bind_returns (throw_if (ltb 0 active_users) conflict) _ h1 in
      let ((v, db1), called, h3) =
        bind_returns (create_owner t hash now company_id owner db) _ h2 in
      let kept = create_owner-SameAccounts now company_id owner db db1 v called in
      subst (λ out. SameAccounts db out.1) (ok_injective _ (u, db') h3)
        (record { admins_same = kept.admins_same; sessions_same = kept.sessions_same })

  pub create_admin-sessions_same :
      (dto : CreatePlatformAdminDto) (actor_admin_id : ℕ) (db db' : Db t) (a : PlatformSuperAdmin)
      → create_admin t hash dto actor_admin_id db ≡ ok (a, db')
      → db'.session_rows ≡ db.session_rows
  unfolding create_admin append_platform_audit
  create_admin-sessions_same dto actor_admin_id db db' a h =
      let (_, _, h1) =
        bind_returns
          (throw_if (is_some (admins.find_first (λ a. a.email == dto.email) db.admin_rows))
            conflict)
          _ h in
      sym (ap (λ out. out.1.session_rows) (ok_injective _ (a, db') h1))

  pub update_admin-sessions_same :
      (admin_id : ℕ) (status : PlatformAdminStatus) (actor_admin_id : ℕ) (db db' : Db t)
      (a : PlatformSuperAdmin)
      → update_admin t admin_id status actor_admin_id db ≡ ok (a, db')
      → db'.session_rows ≡ db.session_rows
  unfolding update_admin append_platform_audit
  update_admin-sessions_same admin_id status actor_admin_id db db' a h =
      let (_, _, h1) =
        bind_returns (or_throw (admins.find_first (is_admin t admin_id) db.admin_rows) not_found) _
          h in
      let (_, _, h2) = bind_returns (check_status t status admin_id actor_admin_id db) _ h1 in
      let (_, _, h3) =
        bind_returns
          (or_throw
            (admins.update (is_admin t admin_id) (λ a. record a { status = status }) db.admin_rows)
            not_found)
          _ h2 in
      sym (ap (λ out. out.1.session_rows) (ok_injective _ (a, db') h3))
