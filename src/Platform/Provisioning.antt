-- ===== src/Platform/Provisioning.antt =====
-- backend/src/modules/tenant-provisioning/tenant-provisioning.service.ts: a company or its first user, in one
-- transaction. `hash` is the hash of a password, `now` the time.
use logistics_center.Base.{
  ℕ, Bool, true, ◌&&◌, some, ◌==◌, ltb, length, is_some, Result, ok, not_found, conflict, ◌>>=◌,
  ◌>>◌, throw_if, or_throw,
}
use logistics_center.Access.Permissions.{admin}
use logistics_center.Platform.Companies.{
  Company, ProvisionTenantOwnerInput, ProvisionTenantInput, new_company, default_feature_flags,
  seed_features,
}
use logistics_center.Platform.Rows.{User, tenant_provisioned, tenant_owner_seeded}
use logistics_center.Platform.Service.{Tables, Db, append_platform_audit, is_company}

-- The data of `createOwner`.
unfoldable pub new_owner : (ℕ → ℕ) → ℕ → ℕ → ProvisionTenantOwnerInput → ℕ → User
new_owner hash now company_id owner id = record {
  id = id;
  company_id = company_id;
  role = admin;
  email = owner.email;
  phone = owner.phone;
  first_name = owner.first_name;
  last_name = owner.last_name;
  password_hash = some (hash owner.password);
  is_active = true;
  created_at = now;
}

module _ (t : Tables) (hash : ℕ → ℕ) (now : ℕ) where
  open t use {companies, users}

  abbrev pub has_email : ℕ → ℕ → User → Bool
  has_email company_id email u = u.company_id == company_id && u.email == email

  unfoldable pub create_owner : ℕ → ProvisionTenantOwnerInput → Db t → Result (User × Db t)
  create_owner company_id owner db = do
    throw_if (is_some (users.find_first (has_email company_id owner.email) db.user_rows)) conflict
    let (u, rows') = users.create (new_owner hash now company_id owner) db.user_rows
    ok (u, record db { user_rows = rows' })

  abbrev pub seed_default_features : ℕ → Db t → Db t
  seed_default_features company_id db = record db {
    features = seed_features now company_id default_feature_flags db.features;
  }

  unfoldable pub provision_company :
      ProvisionTenantInput → ℕ → Db t → Result (Company × User × Db t)
  unfolding create_owner append_platform_audit
  provision_company input actor_admin_id db = do
    throw_if (is_some (companies.find_first (λ c. c.slug == input.slug) db.company_rows)) conflict
    let (company, rows') = companies.create (new_company input) db.company_rows
    (owner, db1) ← create_owner company.id input.owner (record db { company_rows = rows' })
    ok (
      company,
      owner,
      append_platform_audit t actor_admin_id (tenant_provisioned owner.id company.slug) company.id
          (some company.id) (seed_default_features company.id db1),
    )

  unfoldable pub seed_owner : ℕ → ProvisionTenantOwnerInput → ℕ → Db t → Result (User × Db t)
  unfolding create_owner append_platform_audit
  seed_owner company_id owner actor_admin_id db = do
    or_throw (companies.find_first (is_company t company_id) db.company_rows) not_found
    let active_users =
        length (users.find_many (λ u. u.company_id == company_id && u.is_active) db.user_rows)
    throw_if (ltb 0 active_users) conflict
    (created_owner, db1) ← create_owner company_id owner db
    ok (
      created_owner,
      append_platform_audit t actor_admin_id tenant_owner_seeded created_owner.id (some company_id)
          (seed_default_features company_id db1),
    )
