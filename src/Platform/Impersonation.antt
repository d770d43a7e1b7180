-- ===== src/Platform/Impersonation.antt =====
-- Sessions of administrators in companies, in backend/src/modules/platform/platform.service.ts, and how
-- backend/src/modules/auth/strategies/jwt.strategy.ts answers a token, with the calls of
-- backend/src/modules/auth/auth.service.ts that it makes. `company_text` is the text of an identifier.
use logistics_center.Base.{
  ℕ, Bool, true, not, ◌&&◌, ◌+◌, Option, none, some, List, ◌==◌, ◌==?◌, is_some, truthy, get_or,
  if◌then◌else◌, Result, ok, not_found, bad_request, conflict, unauthorized, ◌>>=◌, ◌>>◌, throw_if,
  or_throw,
}
use logistics_center.Base.Text.{Text}
use logistics_center.Access.Permissions.{admin, role_eq}
use logistics_center.Access.Guards.{AuthenticatedUser, tenant, impersonation, platform}
use logistics_center.Platform.Companies.{Company, is_active}
use logistics_center.Platform.Rows.{
  is_active_admin, PlatformSuperAdmin, PlatformImpersonationSession, User, impersonation_started,
  impersonation_ended, JwtPayload, TokenType, platform_token, impersonation_token, oldest,
}
use logistics_center.Platform.Service.{Tables, Db, append_platform_audit, is_company, is_admin}

abbrev pub impersonation_access_token_max_age_ms : ℕ
impersonation_access_token_max_age_ms = 3600000

unfoldable pub impersonation_payload : ℕ → ℕ → ℕ → JwtPayload
impersonation_payload admin_id company_id session_id = record {
  sub = admin_id;
  company_id = some company_id;
  role = none;
  email = none;
  session_id = some session_id;
  token_type = some impersonation_token;
}

pub record StartImpersonationResponse : Type 0 where
  pub access_token : JwtPayload
  pub session_id : ℕ
  pub company_id : ℕ
  pub expires_at : ℕ

unfoldable pub new_session : ℕ → ℕ → ℕ → Option ℕ → ℕ → PlatformImpersonationSession
new_session now admin_id company_id reason id = record {
  id = id;
  super_admin_id = admin_id;
  target_company_id = company_id;
  started_at = now;
  ended_at = none;
  reason = reason;
}

-- An open session of the administrator in the company.
abbrev pub is_open_for : ℕ → ℕ → PlatformImpersonationSession → Bool
is_open_for admin_id company_id s =
    s.super_admin_id == admin_id && (s.target_company_id == company_id && not (is_some s.ended_at))

abbrev pub is_session : ℕ → PlatformImpersonationSession → Bool
is_session id s = s.id == id

module _ (t : Tables) (company_text : ℕ → Text) (now : ℕ) where
  open t use {companies, admins, sessions, users}

  unfoldable pub start_impersonation :
      ℕ → Option ℕ → ℕ → Db t → Result (StartImpersonationResponse × Db t)
  unfolding append_platform_audit
  start_impersonation company_id reason actor_admin_id db = do
    company ← or_throw (companies.find_first (is_company t company_id) db.company_rows) not_found
    throw_if (not (is_active company.status)) bad_request
    throw_if (is_some (sessions.find_first (is_open_for actor_admin_id company_id) db.session_rows))
        conflict
    let (session, rows') =
        sessions.create (new_session now actor_admin_id company_id reason) db.session_rows
    let response : StartImpersonationResponse = record {
      access_token = impersonation_payload actor_admin_id company_id session.id;
      session_id = session.id;
      company_id = company_id;
      expires_at = now + impersonation_access_token_max_age_ms;
    }
    ok (
      response,
      append_platform_audit t actor_admin_id (impersonation_started session.id reason) company_id
          (some company_id) (record db { session_rows = rows' }),
    )

  abbrev pub end_session : PlatformImpersonationSession → PlatformImpersonationSession
  end_session s = record s { ended_at = some now }

  unfoldable pub end_impersonation : ℕ → ℕ → Db t → Result (Db t)
  unfolding append_platform_audit
  end_impersonation session_id actor_admin_id db = do
    session ← or_throw (sessions.find_first (is_session session_id) db.session_rows) not_found
    throw_if (is_some session.ended_at) conflict
    (_, rows') ←
        or_throw (sessions.update (is_session session_id) end_session db.session_rows) not_found
    ok (
        append_platform_audit t actor_admin_id
          (impersonation_ended session_id session.super_admin_id) session.target_company_id
          (some session.target_company_id) (record db { session_rows = rows' }))

  unfoldable pub list_impersonation_sessions : Option ℕ → Db t → List PlatformImpersonationSession
  list_impersonation_sessions company_id db =
      sessions.find_many
        (λ s. if truthy company_id then company_id ==? some s.target_company_id else true)
        db.session_rows

  -- `validateUser`
  unfoldable pub validate_user : ℕ → ℕ → Db t → Option AuthenticatedUser
  validate_user user_id company_id db =
      elim (users.find_first (λ u. u.company_id == company_id && (u.id == user_id && u.is_active))
        db.user_rows) [
          | none ↦ none
          | some u ↦ some (tenant u.id u.email u.role (company_text u.company_id))
        ]

  abbrev pub active_admin : ℕ → PlatformSuperAdmin → Bool
  active_admin id a = a.id == id && is_active_admin a.status

  unfoldable pub validate_platform_admin : ℕ → Db t → Option AuthenticatedUser
  validate_platform_admin admin_id db =
      elim (admins.find_first (active_admin admin_id) db.admin_rows) [
        | none ↦ none
        | some a ↦ some (platform a.id a.email a.status)
      ]

  abbrev pub active_company : ℕ → Company → Bool
  active_company id c = c.id == id && is_active c.status

  -- `where` of the session, with those of `super_admin` and `company`.
  abbrev pub is_valid_session : ℕ → ℕ → ℕ → Db t → PlatformImpersonationSession → Bool
  is_valid_session admin_id session_id company_id db s =
      s.id == session_id
      && (s.super_admin_id == admin_id
          && (s.target_company_id == company_id
              && (not (is_some s.ended_at)
                  && (is_some (admins.find_first (active_admin s.super_admin_id) db.admin_rows)
                      && is_some (
                          companies.find_first (active_company s.target_company_id)
                            db.company_rows)))))

  abbrev pub is_tenant_admin : ℕ → User → Bool
  is_tenant_admin company_id u = u.company_id == company_id && (role_eq u.role admin && u.is_active)

  abbrev pub impersonated : Option PlatformSuperAdmin → Option User → ℕ → Option AuthenticatedUser
  impersonated none _ session_id = none
  impersonated (some a) none session_id = none
  impersonated (some a) (some u) session_id =
      some (impersonation u.id u.email admin (company_text u.company_id) a.id a.email session_id)

  unfoldable pub validate_impersonation_session : ℕ → ℕ → ℕ → Db t → Option AuthenticatedUser
  unfolding oldest
  validate_impersonation_session admin_id session_id company_id db =
      elim (sessions.find_first (is_valid_session admin_id session_id company_id db)
        db.session_rows) [
          | none ↦ none
          | some s ↦
              impersonated (admins.find_first (is_admin t s.super_admin_id) db.admin_rows)
                (oldest (users.find_many (is_tenant_admin company_id) db.user_rows)) s.id
        ]

  abbrev pub validate_typed : Option TokenType → JwtPayload → Db t → Result AuthenticatedUser
  validate_typed (some platform_token) payload db =
      or_throw (validate_platform_admin payload.sub db) unauthorized
  validate_typed (some impersonation_token) payload db = do
    throw_if (not (truthy payload.company_id && truthy payload.session_id)) unauthorized
    or_throw
        (validate_impersonation_session payload.sub (get_or payload.session_id 0)
          (get_or payload.company_id 0) db)
        unauthorized
  validate_typed none payload db = do
    throw_if (not (truthy payload.company_id)) unauthorized
    or_throw (validate_user payload.sub (get_or payload.company_id 0) db) unauthorized

  -- `JwtStrategy.validate`
  unfoldable pub validate : JwtPayload → Db t → Result AuthenticatedUser
  unfolding validate_user validate_platform_admin validate_impersonation_session
  validate payload db = validate_typed payload.token_type payload db
