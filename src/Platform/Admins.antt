-- ===== src/Platform/Admins.antt =====
-- The administrators of the platform under all calls of
-- backend/src/modules/platform/platform.service.ts.
use logistics_center.Base.{
  ℕ, ◌≡◌, refl, sym, ap, subst, inl, Bool, true, false, not, &&_iff, some, List, [], ◌∷◌, ◌==◌,
  Elem, length, is_some, ok, not_found, bad_request, conflict, throw_if, throw_if_passed, or_throw,
  or_throw-some, bind_returns, ok_injective,
}
use logistics_center.Base.Text.{Text}
use logistics_center.Access.Guards.{PlatformAdminStatus, active, suspended}
use logistics_center.Platform.Rows.{is_active_admin, PlatformSuperAdmin}
use logistics_center.Platform.Service.{
  Tables, CreatePlatformAdminDto, Db, append_platform_audit, is_admin, new_admin,
  other_active_admins, check_status, create_admin, update_admin, archive_company,
}
use logistics_center.Platform.Steps.{
  PlatformStep, edited, status_set, closed, provisioned, owner_seeded, admin_added, admin_updated,
  session_started, session_ended, Reaches, here, next, update_company-SameAccounts,
  change_company_status-SameAccounts, provision_company-SameAccounts, seed_owner-SameAccounts,
}
use logistics_center.Platform.SessionTables.{start_impersonation-Started, end_impersonation-Ended}

nonempty : {A : Type 0} (xs : List A) → (length xs == 0) ≡ false → (x : A) × Elem x xs
nonempty [] h = cc
nonempty (x ∷ xs) h = (x, inl refl)

module _ (t : Tables) (hash : ℕ → ℕ) (company_text : ℕ → Text) where
  open t use {admins}

  abbrev pub HasActiveAdmin : Db t → Type 0
  HasActiveAdmin db =
      (a : PlatformSuperAdmin) × admins.Has db.admin_rows a × (is_active_admin a.status ≡ true)

  same-HasActiveAdmin :
      (db db' : Db t) → db'.admin_rows ≡ db.admin_rows → HasActiveAdmin db → HasActiveAdmin db'
  same-HasActiveAdmin db db' same (a, has, is) = (a, subst (λ s. admins.Has s a) (sym same) has, is)

  create_admin-HasActiveAdmin :
      (dto : CreatePlatformAdminDto) (actor_admin_id : ℕ) (db db' : Db t) (a : PlatformSuperAdmin)
      → create_admin t hash dto actor_admin_id db ≡ ok (a, db')
      → HasActiveAdmin db
      → HasActiveAdmin db'
  unfolding create_admin append_platform_audit
  create_admin-HasActiveAdmin dto actor_admin_id db db' a h (old, has, is) =
      let (_, _, h1) =
        bind_returns
          (throw_if (is_some (admins.find_first (λ a. a.email == dto.email) db.admin_rows))
            conflict)
          _ h in
      subst (λ out. HasActiveAdmin out.1) (ok_injective _ (a, db') h1)
        (old, admins.create_kept (new_admin t hash dto) db.admin_rows old has, is)

  -- The administrator that is active after an update: the one updated, or another one.
  remaining :
      (status : PlatformAdminStatus) (admin_id actor_admin_id : ℕ) (db : Db t)
      (q : PlatformSuperAdmin) (rows' : admins.State)
      → check_status t status admin_id actor_admin_id db ≡ ok tt
      → admins.update (is_admin t admin_id) (λ a. record a { status = status }) db.admin_rows
        ≡ some (q, rows')
      → (a : PlatformSuperAdmin) × admins.Has rows' a × (is_active_admin a.status ≡ true)
  remaining active admin_id actor_admin_id db q rows' checked written =
      let (r, _, _, e) = admins.update_row _ _ db.admin_rows q rows' written in
      (q, admins.update_in _ _ db.admin_rows q rows' written, ap (λ a. is_active_admin a.status) e)
  remaining suspended admin_id actor_admin_id db q rows' checked written =
      let (_, _, h1) = bind_returns (throw_if (admin_id == actor_admin_id) bad_request) _ checked in
      let others = other_active_admins t admin_id db in
      let (a, found) = nonempty others (throw_if_passed (length others == 0) bad_request tt h1) in
      let (has, meets) = admins.find_many_sound _ db.admin_rows a found in
      let (differs, is) = (&&_iff (not (a.id == admin_id)) (is_active_admin a.status)).0 meets in
      (a, admins.update_kept _ _ db.admin_rows q rows' a written has (not_true _ differs), is)
    where
      not_true : (b : Bool) → not b ≡ true → b ≡ false
      not_true true h = cc
      not_true false h = refl

  update_admin-HasActiveAdmin :
      (admin_id : ℕ) (status : PlatformAdminStatus) (actor_admin_id : ℕ) (db db' : Db t)
      (a : PlatformSuperAdmin)
      → update_admin t admin_id status actor_admin_id db ≡ ok (a, db')
      → HasActiveAdmin db'
  unfolding update_admin append_platform_audit
  update_admin-HasActiveAdmin admin_id status actor_admin_id db db' a h =
      let (_, _, h1) =
        bind_returns (or_throw (admins.find_first (is_admin t admin_id) db.admin_rows) not_found) _
          h in
      let (_, checked, h2) = bind_returns (check_status t status admin_id actor_admin_id db) _ h1 in
      let ((q, rows'), written, h3) =
        bind_returns
          (or_throw
            (admins.update (is_admin t admin_id) (λ a. record a { status = status }) db.admin_rows)
            not_found)
          _ h2 in
      subst (λ out. HasActiveAdmin out.1) (ok_injective _ (a, db') h3)
        (remaining status admin_id actor_admin_id db q rows' checked
          (or_throw-some _ not_found (q, rows') written))

  PlatformStep-HasActiveAdmin :
      {db db' : Db t}
      → PlatformStep t hash company_text db db'
      → HasActiveAdmin db
      → HasActiveAdmin db'
  unfolding archive_company
  PlatformStep-HasActiveAdmin (edited company_id dto actor db db' c h) =
      same-HasActiveAdmin db db'
        (update_company-SameAccounts t hash company_text company_id dto actor db db' c
          h).admins_same
  PlatformStep-HasActiveAdmin (status_set company_id status actor db db' c h) =
      same-HasActiveAdmin db db'
        (change_company_status-SameAccounts t hash company_text company_id status actor db db' c
          h).admins_same
  PlatformStep-HasActiveAdmin (closed company_id actor db db' c h) =
      same-HasActiveAdmin db db'
        (change_company_status-SameAccounts t hash company_text company_id _ actor db db' c
          h).admins_same
  PlatformStep-HasActiveAdmin (provisioned now input actor db db' c owner h) =
      same-HasActiveAdmin db db'
        (provision_company-SameAccounts t hash company_text now input actor db db' c owner
          h).admins_same
  PlatformStep-HasActiveAdmin (owner_seeded now company_id owner actor db db' u h) =
      same-HasActiveAdmin db db'
        (seed_owner-SameAccounts t hash company_text now company_id owner actor db db' u
          h).admins_same
  PlatformStep-HasActiveAdmin (admin_added dto actor db db' a h) =
      create_admin-HasActiveAdmin dto actor db db' a h
  PlatformStep-HasActiveAdmin (admin_updated admin_id status actor db db' a h) =
      λ inv. update_admin-HasActiveAdmin admin_id status actor db db' a h
  PlatformStep-HasActiveAdmin (session_started now company_id reason actor db db' response h) =
      same-HasActiveAdmin db db'
        (start_impersonation-Started t company_text now company_id reason actor db db' response
          h).admins_same
  PlatformStep-HasActiveAdmin (session_ended now session_id actor db db' h) =
      same-HasActiveAdmin db db'
        (end_impersonation-Ended t company_text now session_id actor db db' h).admins_same

  -- After any sequence of calls there is an active administrator, where there was one.
  pub Reaches-HasActiveAdmin :
      (first db : Db t)
      → HasActiveAdmin first
      → Reaches t hash company_text first db
      → HasActiveAdmin db
  Reaches-HasActiveAdmin first db inv here = inv
  Reaches-HasActiveAdmin first db inv (next {db = db0} before step) =
      PlatformStep-HasActiveAdmin step (Reaches-HasActiveAdmin first db0 inv before)
