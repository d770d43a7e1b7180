-- ===== src/Platform/Accepted.antt =====
-- The token that startImpersonation of backend/src/modules/platform/platform.service.ts returns, with
-- backend/src/modules/auth/strategies/jwt.strategy.ts.
use logistics_center.Base.{
  ℕ, ◌≡◌, refl, sym, ap, subst, ◌∙◌, inl, inr, Bool, true, &&_iff, ==_iff, ==_refl, Option, none,
  some, Option-cases, List, [], ◌∷◌, Elem, ◌==◌, leb, truthy, ok, Bool-cases,
}
use logistics_center.Base.Text.{Text}
use logistics_center.Database.{Table}
use logistics_center.Database.PrimaryKey.{AreKeyed}
use logistics_center.Access.Permissions.{UserRole, admin, dispatcher, courier, role_eq}
use logistics_center.Access.Guards.{impersonation}
use logistics_center.Platform.Rows.{PlatformSuperAdmin, PlatformImpersonationSession, User, oldest}
use logistics_center.Platform.Service.{Tables, Db, is_admin}
use logistics_center.Platform.Impersonation.{
  StartImpersonationResponse, impersonation_payload, new_session, active_admin, active_company,
  is_valid_session, is_tenant_admin, start_impersonation, validate_impersonation_session, validate,
}
use logistics_center.Platform.SessionTables.{Started, start_impersonation-Started}

-- The oldest of some users is one of them.
oldest-Elem : (us : List User) (v : User) → oldest us ≡ some v → Elem v us
unfolding oldest
oldest-Elem [] v h = cc
oldest-Elem (x ∷ xs) v h = elim (Option-cases (oldest xs)) [
  | inl missing ↦ let same = rw missing at h in inl cc
  | inr (w, found) ↦
      let chosen = rw found at h in
      elim (Bool-cases (leb x.created_at w.created_at)) [
        | inl first ↦ let same = rw first at chosen in inl cc
        | inr later ↦ let same = rw later at chosen in inr (oldest-Elem xs v (found ∙ same))
      ]
]

oldest_missing : (us : List User) (u : User) → Elem u us → oldest us ≡ none → ⊥
unfolding oldest
oldest_missing [] u m h = m
oldest_missing (x ∷ xs) u m h = elim (Option-cases (oldest xs)) [
  | inl missing ↦ let same = rw missing at h in cc
  | inr (w, found) ↦
      let chosen = rw found at h in
      elim (Bool-cases (leb x.created_at w.created_at)) [
        | inl first ↦ let same = rw first at chosen in cc
        | inr later ↦ let same = rw later at chosen in cc
      ]
]

oldest_of_any :
    (us : List User) (u : User) → Elem u us → (v : User) × (oldest us ≡ some v) × Elem v us
oldest_of_any us u m = elim (Option-cases (oldest us)) [
  | inl missing ↦ absurd (oldest_missing us u m missing)
  | inr (v, found) ↦ (v, found, oldest-Elem us v found)
]

found_some :
    {Row : Type 0} (table : Table Row) (p : Row → Bool) (rows : table.State) (r : Row)
    → table.Has rows r
    → p r ≡ true
    → (s : Row) × (table.find_first p rows ≡ some s) × table.Has rows s × (p s ≡ true)
found_some table p rows r has meets = elim (Option-cases (table.find_first p rows)) [
  | inl missing ↦ let fails = table.find_first_none p rows r missing has in cc
  | inr (s, found) ↦
      let (has_s, meets_s) = table.find_first_some p rows s found in (s, found, has_s, meets_s)
]

role_is_admin : (r : UserRole) → role_eq r admin ≡ true → r ≡ admin
role_is_admin admin h = refl
role_is_admin dispatcher h = cc
role_is_admin courier h = cc

module _ (t : Tables) (company_text : ℕ → Text) (now : ℕ) where
  open t use {companies, admins, sessions, users}

  -- The new session meets the condition of validateImpersonationSession.
  valid_session :
      (company_id : ℕ) (reason : Option ℕ) (actor : ℕ) (db db' : Db t)
      (response : StartImpersonationResponse) (a : PlatformSuperAdmin)
      → Started t company_text now company_id reason actor db db' response
      → admins.Has db.admin_rows a
      → active_admin t company_text now actor a ≡ true
      → let row = (sessions.create (new_session now actor company_id reason) db.session_rows).0 in
        is_valid_session t company_text now actor row.id company_id db' row ≡ true
  unfolding new_session
  valid_session company_id reason actor db db' response a done has_a is_a =
      let (i, e) = sessions.create_row (new_session now actor company_id reason) db.session_rows in
      let (has_c, meets_c) =
        companies.find_first_some _ db.company_rows done.company done.company_found in
      let (_, admin_found, _, _) =
        found_some admins (active_admin t company_text now actor) db.admin_rows a has_a is_a in
      let (_, company_found, _, _) =
        found_some companies (active_company t company_text now company_id) db.company_rows
          done.company has_c (rw meets_c done.company_active) in
      rw e (
        rw (==_refl i) (
          rw (==_refl actor) (
            rw (==_refl company_id) (
              rw done.admins_same
                (rw done.companies_same (rw admin_found (rw company_found refl)))))))

  accepted_session :
      (company_id actor id : ℕ) (db : Db t) (s : PlatformImpersonationSession)
      (a : PlatformSuperAdmin) (u : User)
      → sessions.Has db.session_rows s
      → is_valid_session t company_text now actor id company_id db s ≡ true
      → AreKeyed admins (λ a. a.id) db.admin_rows
      → admins.Has db.admin_rows a
      → a.id ≡ actor
      → users.Has db.user_rows u
      → is_tenant_admin t company_text now company_id u ≡ true
      → (who : User) × users.Has db.user_rows who
        × (is_tenant_admin t company_text now company_id who ≡ true)
        × (validate_impersonation_session t company_text now actor id company_id db
            ≡ some (
                impersonation who.id who.email admin
                  (company_text who.company_id)
                  actor
                  a.email
                  id))
  unfolding validate_impersonation_session
  accepted_session company_id actor id db s a u has_s valid keyed has_a named has_u is_u =
      let wanted = is_valid_session t company_text now actor id company_id db in
      let (r, found, _, meets) = found_some sessions wanted db.session_rows s has_s valid in
      let (id_is, rest) = (&&_iff (r.id == id) _).0 meets in
      let (by_is, _) = (&&_iff (r.super_admin_id == actor) _).0 rest in
      let r_id = (==_iff r.id id).0 id_is in
      let by = (==_iff r.super_admin_id actor).0 by_is in
      let (b, admin_found, has_b, is_b) =
        found_some admins (is_admin t r.super_admin_id) db.admin_rows a has_a
          ((==_iff a.id r.super_admin_id).1 (named ∙ sym by)) in
      let b_id = (==_iff b.id r.super_admin_id).0 is_b ∙ by in
      let same = keyed b a has_b has_a (b_id ∙ sym named) in
      let admins_of =
        users.find_many (is_tenant_admin t company_text now company_id) db.user_rows in
      let (who, first, among) =
        oldest_of_any admins_of u (users.find_many_complete _ db.user_rows u has_u is_u) in
      let (has_who, is_who) = users.find_many_sound _ db.user_rows who among in
      (
        who,
        has_who,
        is_who,
        rw (validate_impersonation_session, found)
            (rw admin_found (rw first (rw r_id (rw b_id (rw (ap (λ x. x.email) same) refl))))),
      )

  -- The token of a session that startImpersonation returns is accepted in the state that it leaves: the
  -- caller acts as an active administrator of the company, with the identifiers of the actor and of the
  -- session. The actor is to be active, the company to have an active administrator, identifiers of
  -- the platform's administrators to be a key, and those of the company and the session not empty.
  pub start_impersonation-accepted :
      (company_id : ℕ) (reason : Option ℕ) (actor : ℕ) (db db' : Db t)
      (response : StartImpersonationResponse) (a : PlatformSuperAdmin) (u : User)
      → start_impersonation t company_text now company_id reason actor db ≡ ok (response, db')
      → AreKeyed admins (λ a. a.id) db.admin_rows
      → admins.Has db.admin_rows a
      → active_admin t company_text now actor a ≡ true
      → users.Has db.user_rows u
      → is_tenant_admin t company_text now company_id u ≡ true
      → truthy (some company_id) ≡ true
      → truthy (some response.session_id) ≡ true
      → (who : User) × users.Has db'.user_rows who
        × (is_tenant_admin t company_text now company_id who ≡ true)
        × (validate t company_text now response.access_token db'
            ≡ ok (
                impersonation who.id who.email admin
                  (company_text who.company_id)
                  actor
                  a.email
                  response.session_id))
  unfolding validate impersonation_payload
  start_impersonation-accepted company_id reason actor db db' response a u h keyed has_a is_a has_u
        is_u named_c named_s =
      let done =
        start_impersonation-Started t company_text now company_id reason actor db db' response h in
      let f = new_session now actor company_id reason in
      let row = (sessions.create f db.session_rows).0 in
      let has_row =
        subst (λ rows. sessions.Has rows row) (sym done.sessions_after)
          (sessions.create_in f db.session_rows) in
      let valid = valid_session company_id reason actor db db' response a done has_a is_a in
      let (who, has_who, is_who, accepted) =
        accepted_session company_id actor row.id db' row a u has_row valid
          (subst (AreKeyed admins (λ a. a.id)) (sym done.admins_same) keyed)
          (subst (λ rows. admins.Has rows a) (sym done.admins_same) has_a)
          ((==_iff a.id actor).0 ((&&_iff (a.id == actor) _).0 is_a).0)
          (subst (λ rows. users.Has rows u) (sym done.users_same) has_u) is_u in
      (
        who,
        has_who,
        is_who,
        rw done.token (
            rw (sym done.session_named) (
              rw named_c (
                rw named_s (
                  rw
                    (subst
                      (λ id.
                        validate_impersonation_session t company_text now actor id company_id db'
                        ≡ some (
                            impersonation who.id who.email admin (company_text who.company_id) actor
                              a.email id))
                      (sym done.session_named) accepted)
                    refl)))),
      )
