-- ===== src/Platform/Sessions.antt =====
-- The sessions of administrators in companies under all calls of
-- backend/src/modules/platform/platform.service.ts, and the answers of
-- backend/src/modules/auth/strategies/jwt.strategy.ts to their tokens.
use logistics_center.Base.{
  ℕ, ◌≡◌, refl, sym, ap, subst, ◌∙◌, inl, inr, true, false, ==_refl, Option, none, some,
  Option-cases, is_some,
}
use logistics_center.Base.Text.{Text}
use logistics_center.Platform.Rows.{PlatformImpersonationSession}
use logistics_center.Platform.Service.{Tables, Db, archive_company}
use logistics_center.Platform.Impersonation.{new_session, is_open_for, is_session, end_session}
use logistics_center.Platform.Steps.{
  PlatformStep, edited, status_set, closed, provisioned, owner_seeded, admin_added, admin_updated,
  session_started, session_ended, Reaches, here, next, update_company-SameAccounts,
  change_company_status-SameAccounts, provision_company-SameAccounts, seed_owner-SameAccounts,
  create_admin-sessions_same, update_admin-sessions_same,
}
use logistics_center.Platform.SessionTables.{start_impersonation-Started, end_impersonation-Ended}

abbrev pub session_id_of : PlatformImpersonationSession → ℕ
session_id_of s = s.id

module _ (t : Tables) (hash : ℕ → ℕ) (company_text : ℕ → Text) where
  open t use {sessions}

  -- What a call does to the table of sessions.
  pub data SessionChange (rows : sessions.State) : sessions.State → Type 0 where
    kept : (rows' : sessions.State) → rows' ≡ rows → SessionChange rows rows'
    opened :
        (now admin_id company_id : ℕ) (reason : Option ℕ) (rows' : sessions.State)
        → is_some (sessions.find_first (is_open_for admin_id company_id) rows) ≡ false
        → rows' ≡ (sessions.create (new_session now admin_id company_id reason) rows).1
        → SessionChange rows rows'
    ended :
        (now id : ℕ) (s : PlatformImpersonationSession) (rows' : sessions.State)
        → sessions.update (is_session id) (end_session t company_text now) rows ≡ some (s, rows')
        → SessionChange rows rows'

  pub step_change :
      {db db' : Db t}
      → PlatformStep t hash company_text db db'
      → SessionChange db.session_rows db'.session_rows
  unfolding archive_company
  step_change (edited company_id dto actor db db' c h) =
      kept db'.session_rows
        (update_company-SameAccounts t hash company_text company_id dto actor db db' c
          h).sessions_same
  step_change (status_set company_id status actor db db' c h) =
      kept db'.session_rows
        (change_company_status-SameAccounts t hash company_text company_id status actor db db' c
          h).sessions_same
  step_change (closed company_id actor db db' c h) =
      kept db'.session_rows
        (change_company_status-SameAccounts t hash company_text company_id _ actor db db' c
          h).sessions_same
  step_change (provisioned now input actor db db' c owner h) =
      kept db'.session_rows
        (provision_company-SameAccounts t hash company_text now input actor db db' c owner
          h).sessions_same
  step_change (owner_seeded now company_id owner actor db db' u h) =
      kept db'.session_rows
        (seed_owner-SameAccounts t hash company_text now company_id owner actor db db' u
          h).sessions_same
  step_change (admin_added dto actor db db' a h) =
      kept db'.session_rows (create_admin-sessions_same t hash company_text dto actor db db' a h)
  step_change (admin_updated admin_id status actor db db' a h) =
      kept db'.session_rows
        (update_admin-sessions_same t hash company_text admin_id status actor db db' a h)
  step_change (session_started now company_id reason actor db db' response h) =
      let done =
        start_impersonation-Started t company_text now company_id reason actor db db' response h in
      opened now actor company_id reason db'.session_rows done.none_open done.sessions_after
  step_change (session_ended now session_id actor db db' h) =
      let done = end_impersonation-Ended t company_text now session_id actor db db' h in
      ended now session_id done.session db'.session_rows done.written

  -- An administrator has at most one open session in a company.
  pub record AreSingle (rows : sessions.State) : Type 0 where
    pub single :
        (r s : PlatformImpersonationSession)
        → sessions.Has rows r
        → sessions.Has rows s
        → r.ended_at ≡ none
        → s.ended_at ≡ none
        → r.super_admin_id ≡ s.super_admin_id
        → r.target_company_id ≡ s.target_company_id
        → r ≡ s

  -- No row is open for an administrator and a company.
  not_open :
      (admin_id company_id : ℕ) (rows : sessions.State) (s : PlatformImpersonationSession)
      → is_some (sessions.find_first (is_open_for admin_id company_id) rows) ≡ false
      → sessions.Has rows s
      → s.ended_at ≡ none
      → s.super_admin_id ≡ admin_id
      → s.target_company_id ≡ company_id
      → ⊥
  not_open admin_id company_id rows s absent has open_row by at =
      elim (Option-cases (sessions.find_first (is_open_for admin_id company_id) rows)) [
        | inl missing ↦
            let fails = sessions.find_first_none _ rows s missing has in
            let meets : is_open_for admin_id company_id s ≡ true =
              rw by (rw at (rw open_row (rw (==_refl admin_id) (rw (==_refl company_id) refl)))) in
            cc
        | inr (r, found) ↦ let some_row = rw found at absent in cc
      ]

  created_is :
      (now admin_id company_id : ℕ) (reason : Option ℕ) (rows : sessions.State)
      → let row = (sessions.create (new_session now admin_id company_id reason) rows).0 in
        (row.super_admin_id ≡ admin_id)
        × (row.target_company_id ≡ company_id)
        × (row.ended_at ≡ none)
  unfolding new_session
  created_is now admin_id company_id reason rows =
      let (i, e) = sessions.create_row (new_session now admin_id company_id reason) rows in
      (ap (λ s. s.super_admin_id) e, ap (λ s. s.target_company_id) e, ap (λ s. s.ended_at) e)

  opened-AreSingle :
      (now admin_id company_id : ℕ) (reason : Option ℕ) (rows : sessions.State)
      → is_some (sessions.find_first (is_open_for admin_id company_id) rows) ≡ false
      → AreSingle rows
      → AreSingle (sessions.create (new_session now admin_id company_id reason) rows).1
  opened-AreSingle now admin_id company_id reason rows absent inv = record {
    single = λ r s hr hs er es by at.
        let (by_row, at_row, _) = created_is now admin_id company_id reason rows in
        elim (sessions.create_has _ rows r hr) [
          | inl new_r ↦ elim (sessions.create_has _ rows s hs) [
            | inl new_s ↦ new_r ∙ sym new_s
            | inr old ↦ absurd (
                not_open admin_id company_id rows s absent old es
                  (sym by ∙ ap (λ x. x.super_admin_id) new_r ∙ by_row)
                  (sym at ∙ ap (λ x. x.target_company_id) new_r ∙ at_row))
          ]
          | inr old ↦ elim (sessions.create_has _ rows s hs) [
            | inl new_s ↦ absurd (
                not_open admin_id company_id rows r absent old er
                  (by ∙ ap (λ x. x.super_admin_id) new_s ∙ by_row)
                  (at ∙ ap (λ x. x.target_company_id) new_s ∙ at_row))
            | inr old' ↦ inv.single r s old old' er es by at
          ]
        ];
  }

  -- An open row after a session is ended was there before.
  open_before :
      (now id : ℕ) (q : PlatformImpersonationSession) (rows rows' : sessions.State)
      (r : PlatformImpersonationSession)
      → sessions.update (is_session id) (end_session t company_text now) rows ≡ some (q, rows')
      → sessions.Has rows' r
      → r.ended_at ≡ none
      → sessions.Has rows r
  open_before now id q rows rows' r written has open_row =
      elim (sessions.update_has _ _ rows q rows' r written has) [
        | inl (r0, _, _, e) ↦
            let closed_row : some now ≡ none = sym (ap (λ x. x.ended_at) e) ∙ open_row in cc
        | inr (old, _) ↦ old
      ]

  SessionChange-AreSingle :
      {rows rows' : sessions.State} → SessionChange rows rows' → AreSingle rows → AreSingle rows'
  SessionChange-AreSingle (kept rows' same) single = subst AreSingle (sym same) single
  SessionChange-AreSingle {rows = rows} (opened now admin_id company_id reason rows' absent same)
        single =
      subst AreSingle (sym same)
        (opened-AreSingle now admin_id company_id reason rows absent single)
  SessionChange-AreSingle {rows = rows} (ended now id q rows' written) inv = record {
    single = λ r s hr hs er es.
        inv.single r s (open_before now id q rows rows' r written hr er)
          (open_before now id q rows rows' s written hs es) er es;
  }

  -- After any sequence of calls an administrator has at most one open session in a company, where this
  -- held at first.
  pub Reaches-AreSingle :
      (first db : Db t)
      → AreSingle first.session_rows
      → Reaches t hash company_text first db
      → AreSingle db.session_rows
  Reaches-AreSingle first db single here = single
  Reaches-AreSingle first db single (next {db = db0} before step) =
      SessionChange-AreSingle (step_change step) (Reaches-AreSingle first db0 single before)
