-- ===== src/Platform/SessionTables.antt =====
-- What startImpersonation and endImpersonation of backend/src/modules/platform/platform.service.ts write.
use logistics_center.Base.{
  ℕ, ◌≡◌, refl, subst, Bool, true, false, not, Option, some, is_some, ok, not_found, bad_request,
  conflict, throw_if, throw_if_passed, or_throw, or_throw-some, bind_returns, ok_injective,
}
use logistics_center.Base.Text.{Text}
use logistics_center.Platform.Companies.{is_active, Company}
use logistics_center.Platform.Rows.{PlatformImpersonationSession}
use logistics_center.Platform.Service.{Tables, Db, append_platform_audit, is_company}
use logistics_center.Platform.Impersonation.{
  impersonation_payload, StartImpersonationResponse, new_session, is_open_for, is_session,
  end_session, start_impersonation, end_impersonation,
}

module _ (t : Tables) (company_text : ℕ → Text) (now : ℕ) where
  open t use {companies, sessions}

  -- A session is started.
  pub record Started (company_id : ℕ) (reason : Option ℕ) (actor_admin_id : ℕ) (db db' : Db t)
      (response : StartImpersonationResponse) : Type 0 where
    pub company : Company
    pub company_found :
        companies.find_first (is_company t company_id) db.company_rows ≡ some company
    pub company_active : is_active company.status ≡ true
    pub none_open :
        is_some (sessions.find_first (is_open_for actor_admin_id company_id) db.session_rows)
        ≡ false
    pub admins_same : db'.admin_rows ≡ db.admin_rows
    pub companies_same : db'.company_rows ≡ db.company_rows
    pub users_same : db'.user_rows ≡ db.user_rows
    pub sessions_after :
        db'.session_rows
        ≡ (sessions.create (new_session now actor_admin_id company_id reason) db.session_rows).1
    pub session_named :
        response.session_id
        ≡ (sessions.create (new_session now actor_admin_id company_id reason) db.session_rows).0.id
    pub token :
        response.access_token
        ≡ impersonation_payload actor_admin_id company_id
            (sessions.create
              (new_session now actor_admin_id company_id reason)
              db.session_rows).0.id

  holds : (b : Bool) → not b ≡ false → b ≡ true
  holds true h = refl
  holds false h = cc

  pub start_impersonation-Started :
      (company_id : ℕ) (reason : Option ℕ) (actor_admin_id : ℕ) (db db' : Db t)
      (response : StartImpersonationResponse)
      → start_impersonation t company_text now company_id reason actor_admin_id db
        ≡ ok (response, db')
      → Started company_id reason actor_admin_id db db' response
  unfolding start_impersonation append_platform_audit
  start_impersonation-Started company_id reason actor_admin_id db db' response h =
      let (c, found, h1) =
        bind_returns
          (or_throw (companies.find_first (is_company t company_id) db.company_rows) not_found) _
          h in
      let (_, active, h2) = bind_returns (throw_if (not (is_active c.status)) bad_request) _ h1 in
      let open_session =
        sessions.find_first (is_open_for actor_admin_id company_id) db.session_rows in
      let (_, single, h3) = bind_returns (throw_if (is_some open_session) conflict) _ h2 in
      subst (λ out. Started company_id reason actor_admin_id db out.1 out.0)
        (ok_injective _ (response, db') h3)
        (record {
          company = c;
          company_found = or_throw-some _ not_found c found;
          company_active = holds _ (throw_if_passed _ bad_request tt active);
          none_open = throw_if_passed _ conflict tt single;
          admins_same = refl;
          companies_same = refl;
          users_same = refl;
          sessions_after = refl;
          session_named = refl;
          token = refl;
        })

  -- A session is ended.
  pub record Ended (session_id : ℕ) (db db' : Db t) : Type 0 where
    pub session : PlatformImpersonationSession
    pub written :
        sessions.update (is_session session_id) (end_session t company_text now) db.session_rows
        ≡ some (session, db'.session_rows)
    pub admins_same : db'.admin_rows ≡ db.admin_rows

  pub end_impersonation-Ended :
      (session_id actor_admin_id : ℕ) (db db' : Db t)
      → end_impersonation t company_text now session_id actor_admin_id db ≡ ok db'
      → Ended session_id db db'
  unfolding end_impersonation append_platform_audit
  end_impersonation-Ended session_id actor_admin_id db db' h =
      let (s, _, h1) =
        bind_returns
          (or_throw (sessions.find_first (is_session session_id) db.session_rows) not_found) _ h in
      let (_, _, h2) = bind_returns (throw_if (is_some s.ended_at) conflict) _ h1 in
      let ((q, rows'), written, h3) =
        bind_returns
          (or_throw
            (sessions.update (is_session session_id) (end_session t company_text now)
              db.session_rows)
            not_found)
          _ h2 in
      subst (Ended session_id db) (ok_injective _ db' h3) (record {
        session = q;
        written = or_throw-some _ not_found (q, rows') written;
        admins_same = refl;
      })
