-- ===== src/Platform/Ended.antt =====
-- A session that endImpersonation of backend/src/modules/platform/platform.service.ts has ended, and the
-- answer of backend/src/modules/auth/strategies/jwt.strategy.ts to its tokens.
use logistics_center.Base.{
  ℕ, ◌≡◌, refl, sym, ap, subst, ◌∙◌, inl, inr, Bool, true, false, not, ◌&&◌, ==_iff, Option, none,
  some, Option-cases, ◌==◌, is_some, truthy, get_or, ok, err, unauthorized, ◌>>◌, throw_if,
  or_throw, arith,
}
use logistics_center.Base.Text.{Text}
use logistics_center.Database.PrimaryKey.{IsPrimaryKey, Exists, create-Exists, update-Exists}
use logistics_center.Platform.Rows.{PlatformImpersonationSession, JwtPayload, impersonation_token}
use logistics_center.Platform.Service.{Tables, Db}
use logistics_center.Platform.Impersonation.{
  new_session, is_session, end_session, end_impersonation, is_valid_session,
  validate_impersonation_session, validate,
}
use logistics_center.Platform.Steps.{Reaches, here, next}
use logistics_center.Platform.Sessions.{
  session_id_of, SessionChange, kept, opened, ended, step_change,
}
use logistics_center.Platform.SessionTables.{end_impersonation-Ended}

module _ (t : Tables) (hash : ℕ → ℕ) (company_text : ℕ → Text) where
  open t use {sessions}

  -- The session exists, and all rows with its identifier are ended.
  record IsEnded (id : ℕ) (rows : sessions.State) : Type 0 where
    there : Exists sessions session_id_of rows id
    over :
        (s : PlatformImpersonationSession)
        → sessions.Has rows s
        → s.id ≡ id
        → is_some s.ended_at ≡ true

  SessionChange-IsEnded :
      {rows rows' : sessions.State} (id : ℕ)
      → IsPrimaryKey sessions session_id_of
      → SessionChange t hash company_text rows rows'
      → IsEnded id rows
      → IsEnded id rows'
  unfolding new_session
  SessionChange-IsEnded id fresh (kept rows' same) inv = subst (IsEnded id) (sym same) inv
  SessionChange-IsEnded {rows = rows} id fresh
        (opened now admin_id company_id reason rows' absent same) inv =
      let f = new_session now admin_id company_id reason in
      let (old, has_old, named) = inv.there in
      subst (IsEnded id) (sym same) (record {
        there = create-Exists sessions session_id_of f rows id inv.there;
        over = λ s has e. elim (sessions.create_has f rows s has) [
          | inl new_s ↦
              absurd (fresh f rows old (λ i. refl) has_old (named ∙ sym e ∙ ap (λ x. x.id) new_s))
          | inr before ↦ inv.over s before e
        ];
      })
  SessionChange-IsEnded {rows = rows} id fresh (ended now id' q rows' written) inv = record {
    there =
        update-Exists sessions session_id_of (is_session id') (end_session t company_text now) id'
          rows rows' q (λ r. (==_iff r.id id').0) (λ r. refl) written id inv.there;
    over = λ s has e. elim (sessions.update_has _ _ rows q rows' s written has) [
      | inl (s0, _, _, same) ↦ ap (λ x. is_some x.ended_at) same
      | inr (before, _) ↦ inv.over s before e
    ];
  }

  end_impersonation-IsEnded :
      (now id actor_admin_id : ℕ) (db db' : Db t)
      → end_impersonation t company_text now id actor_admin_id db ≡ ok db'
      → IsEnded id db'.session_rows
  end_impersonation-IsEnded now id actor_admin_id db db' h =
      let done = end_impersonation-Ended t company_text now id actor_admin_id db db' h in
      let update = end_session t company_text now in
      let (r, has, meets, e) =
        sessions.update_row (is_session id) update db.session_rows done.session db'.session_rows
          done.written in
      record {
        there = (
          done.session,
          sessions.update_in (is_session id) update db.session_rows done.session db'.session_rows
              done.written,
          ap (λ x. x.id) e ∙ (==_iff r.id id).0 meets,
        );
        over = λ s has_s named.
            elim (sessions.update_has (is_session id) update db.session_rows done.session
              db'.session_rows s done.written has_s) [
                | inl (s0, _, _, same) ↦ ap (λ x. is_some x.ended_at) same
                | inr (_, fails) ↦ let is : (s.id == id) ≡ true = (==_iff s.id id).1 named in cc
              ];
      }

  Reaches-IsEnded :
      (id : ℕ) (first db : Db t)
      → IsPrimaryKey sessions session_id_of
      → IsEnded id first.session_rows
      → Reaches t hash company_text first db
      → IsEnded id db.session_rows
  Reaches-IsEnded id first db fresh inv here = inv
  Reaches-IsEnded id first db fresh inv (next {db = db0} before step) =
      SessionChange-IsEnded id fresh (step_change t hash company_text step)
        (Reaches-IsEnded id first db0 fresh inv before)

  rejected :
      (now id : ℕ) (sub company_id : ℕ) (db : Db t)
      → IsEnded id db.session_rows
      → validate_impersonation_session t company_text now sub id company_id db ≡ none
  unfolding validate_impersonation_session
  rejected now id sub company_id db inv =
      let valid = is_valid_session t company_text now sub id company_id db in
      elim (Option-cases (sessions.find_first valid db.session_rows)) [
        | inl missing ↦ rw (validate_impersonation_session, missing) refl
        | inr (s, found) ↦
            let (has, meets) = sessions.find_first_some valid db.session_rows s found in
            let over : (s.id == id) ≡ true → is_some s.ended_at ≡ true =
              λ named. inv.over s has ((==_iff s.id id).0 named) in
            absurd (ground (arith, over, meets))
      ]

  -- After a session is ended, and after any sequence of calls that follows, a token of the session is
  -- refused as unauthorized, whatever company and administrator it names, where new sessions get new
  -- identifiers.
  pub end_impersonation-rejected :
      (now later id actor_admin_id : ℕ) (db ended_db db' : Db t) (payload : JwtPayload)
      → IsPrimaryKey sessions session_id_of
      → end_impersonation t company_text now id actor_admin_id db ≡ ok ended_db
      → Reaches t hash company_text ended_db db'
      → payload.token_type ≡ some impersonation_token
      → payload.session_id ≡ some id
      → validate t company_text later payload db' ≡ err unauthorized
  unfolding validate
  end_impersonation-rejected now later id actor_admin_id db ended_db db' payload fresh h after typed
        named =
      let inv =
        Reaches-IsEnded id ended_db db' fresh
          (end_impersonation-IsEnded now id actor_admin_id db ended_db h) after in
      let refused = rejected later id payload.sub (get_or payload.company_id 0) db' inv in
      rw typed (rw named (checked (truthy payload.company_id && truthy (some id)) refused))
    where
      checked :
          {A : Type 0} (b : Bool) {found : Option A}
          → found ≡ none
          → (throw_if (not b) unauthorized >> or_throw found unauthorized) ≡ err unauthorized
      checked true e = rw e refl
      checked false e = refl
