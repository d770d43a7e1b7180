-- ===== src/Tenancy/Scoping.antt =====
-- `applyTenantIsolation` of backend/src/prisma/tenant-prisma.helper.ts as a whole.
use logistics_center.Base.{ℕ, ◌≡◌, refl, true, false, not, ◌&&◌, some, ◌∷◌, ok, get_or, When, arith}
use logistics_center.Base.Text.{Text, codes, text_eq, text_eq-eq}
use logistics_center.Values.{Fields, str, obj, end, get, plain_object}
use logistics_center.Tenancy.Isolation.{
  includes_text, read_actions, create_actions, update_actions, is_tenant_scoped_model, company_key,
  scope_read, scope_create, scope_update, TenantIsolationInput, apply_tenant_isolation,
}
use logistics_center.Tenancy.Actions.{
  PrismaAction, update_many_and_return, action_text, takes_where, takes_rows, takes_changes,
  is_upsert,
}
use logistics_center.Tenancy.Confinement.{Owned, Unforeign}

upsert_not_create :
    (action : Text)
    → text_eq action (codes "upsert") ≡ true
    → includes_text create_actions action ≡ false
unfolding create_actions
upsert_not_create action h = ground (arith, text_eq-eq action (codes "upsert"))

module _ {N : Type 0} where
  -- The arguments filter by the company, and otherwise as the caller's `where` does.
  abbrev pub WhereConfined : Text → Fields N → Fields N → Type 0
  WhereConfined company args args' =
      (w : Fields N) × (get (codes "where") args' ≡ obj w)
      × (get company_key w ≡ str company)
      × ((j : Text)
          → text_eq company_key j ≡ false
          → get j w ≡ get j (get_or (plain_object (get (codes "where") args)) end))

  -- What the lists of the helper give for an action.
  record Scoped (action company : Text) (args args' : Fields N) : Type 0 where
    where_confined : When (includes_text read_actions action) (WhereConfined company args args')
    rows_owned :
        When (includes_text create_actions action) (Owned (get (codes "data") args') company)
    upsert_confined : When (text_eq action (codes "upsert")) (
        Owned (get (codes "create") args') company
        × Unforeign (plain_object (get (codes "update") args')) company)
    data_unforeign :
        When
          (not (text_eq action (codes "upsert")) && includes_text update_actions action)
          (Unforeign (plain_object (get (codes "data") args')) company)

  -- What holds of the arguments that reach the database, for each action of Prisma.
  pub record Confined (a : PrismaAction) (company : Text) (args args' : Fields N) : Type 0 where
    pub where_confined : When (takes_where a) (WhereConfined company args args')
    pub rows_owned : When (takes_rows a) (Owned (get (codes "data") args') company)
    pub upsert_confined : When (is_upsert a) (
        Owned (get (codes "create") args') company
        × Unforeign (plain_object (get (codes "update") args')) company)
    pub changes_unforeign :
        When (takes_changes a) (Unforeign (plain_object (get (codes "data") args')) company)

  -- A call of updateManyAndReturn in a company reaches the database as it was made.
  pub update_many_and_return_passes :
      (i : TenantIsolationInput N) (c : ℕ) (company : Text)
      → i.action ≡ action_text update_many_and_return
      → i.company_id ≡ some (c ∷ company)
      → is_tenant_scoped_model i.model ≡ true
      → i.bypass_tenant ≡ false
      → apply_tenant_isolation i ≡ ok (some (get_or i.args end))
  unfolding apply_tenant_isolation scope_read scope_create scope_update read_actions create_actions
      update_actions
  update_many_and_return_passes i c company named context scoped bypass =
      rw (apply_tenant_isolation, scoped) (rw bypass (rw context (rw named refl)))
