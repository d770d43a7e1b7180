-- ===== src/Routing/Updated.antt =====
-- What `updateRoute` of backend/src/modules/routing/routing.service.ts returns.
use logistics_center.Base.{
  ℕ, ◌+◌, ◌≡◌, sym, ap, subst, ◌∙◌, inl, inr, Bool, true, false, not, ◌&&◌, Option, ◌++◌, Result,
  ok, err, not_found, bad_request, invalid_state_transition, get_or, bind_returns, ok_injective,
  or_throw, or_throw-some, throw_if, if◌then◌else◌, When, When_intro, arith,
}
use logistics_center.Base.Text.{Text}
use logistics_center.Database.{Table}
use logistics_center.Database.PrimaryKey.{AreKeyed}
use logistics_center.Database.Keyed.{IsKey, update_row_of, returned_row_of}
use logistics_center.Compensation.Ecma.{Ecma}
use logistics_center.Orders.Columns.{Order}
use logistics_center.Routing.StateMachine.{is_route_editable_status}
use logistics_center.Routing.Provider.{RouteOptions, UpdateRouteDto}
use logistics_center.Routing.Points.{build_route_point_create_data}
use logistics_center.Routing.Rows.{Route, RouteRecord, RoutingProvider, is_route, is_kept}
use logistics_center.Routing.Service.{
  Caller, Db, PlannedRoute, sync_couriers, saved_route, is_refused_transition,
  route_has_plan_changes, committed,
}
use logistics_center.Routing.Update.{
  check_update, replan_route, patch_route, other_points, store_replanned_route, store_patched_route,
}
use logistics_center.Routing.Exclusive.{route_id_of}
use logistics_center.Routing.Replacing.{sync_couriers-keeps}
use logistics_center.Routing.Updating.{is_route_id}

-- The parts of the check that passed.
pub check_update_lem :
    {N : Type 0} (dto : UpdateRouteDto N) (r : Route N)
    → check_update dto r ≡ ok tt
    → (is_refused_transition r.status dto.status ≡ false)
      × When (route_has_plan_changes dto r) (
          (is_route_editable_status r.status ≡ true)
          × (is_route_editable_status (get_or dto.status r.status) ≡ true))
unfolding check_update
check_update_lem dto r h =
    let changes = route_has_plan_changes dto r in
    let (_, first, h1) =
      bind_returns (throw_if (changes && not (is_route_editable_status r.status)) bad_request) _
        h in
    let (_, passed, last) =
      bind_returns (throw_if (is_refused_transition r.status dto.status) invalid_state_transition) _
        h1 in
    (
      ground (arith, passed),
      When_intro changes λ t. (
        editable changes (is_route_editable_status r.status) t first,
        editable changes (is_route_editable_status (get_or dto.status r.status)) t last,
      ),
    )
  where
    editable : (c e : Bool) → c ≡ true → throw_if (c && not e) bad_request ≡ ok tt → e ≡ true
    editable c e t h = ground (arith, t, h)

module _ (js : Ecma) {Decimal : Type 0} (decimal : js.N → Decimal) (text_of : ℕ → Text)
    (parse_date : Text → Option ℕ) (assigned_reason : ℕ) (provider : RoutingProvider js.N Decimal)
    (orders : Table (Order js.N Decimal)) (routes : Table (Route js.N)) where
  open js use {N}

  abbrev DbOf : Type 0
  DbOf = Db js decimal text_of parse_date assigned_reason provider orders routes

  -- What is written of a route: its status and version.
  pub record IsWritten (dto : UpdateRouteDto N) (current : Route N) (version : ℕ) (db' : DbOf)
      (saved : RouteRecord N) : Type 0 where
    pub stored : routes.Has db'.routes_rows saved.route
    pub status : saved.route.status ≡ get_or dto.status current.status
    pub next_version : saved.route.version ≡ version

  pub record IsUpdated (company_id route_id : ℕ) (dto : UpdateRouteDto N) (current : Route N)
      (db db' : DbOf) (saved : RouteRecord N) : Type 0 where
    pub found : routes.Has db.routes_rows current
    pub named : is_route company_id route_id current ≡ true
    pub kept : is_kept current ≡ true
    pub allowed : is_refused_transition current.status dto.status ≡ false
    pub editable : When (route_has_plan_changes dto current) (
        (is_route_editable_status current.status ≡ true)
        × (is_route_editable_status saved.route.status ≡ true))
    pub written :
        IsWritten dto current
          (if route_has_plan_changes dto current then current.version + 1 else current.version)
          db'
          saved

  is_route-IsKey :
      (company_id route_id : ℕ) (s : routes.State)
      → AreKeyed routes route_id_of s
      → IsKey routes (is_route company_id route_id) s
  is_route-IsKey company_id route_id s key x y hx hy px py =
      key x y hx hy
        (is_route_id company_id route_id x px ∙ sym (is_route_id company_id route_id y py))

  pub committed_lem :
      (before : DbOf) (stored : Result (RouteRecord N × DbOf)) (saved : RouteRecord N)
      → (committed js decimal text_of parse_date assigned_reason provider orders routes before
          stored).1
        ≡ ok saved
      → stored
        ≡ ok (
          saved,
          (committed js decimal text_of parse_date assigned_reason provider orders routes before
              stored).0,
        )
  committed_lem before (err thrown) saved h = absurd (ground arith)
  committed_lem before (ok (r, after)) saved h = ap (λ x. ok (x, after)) (ok_injective r saved h)

  pub store_patched_route-IsWritten :
      (by : Caller) (route_id : ℕ) (dto : UpdateRouteDto N) (current : Route N) (db db' : DbOf)
      (saved : RouteRecord N)
      → AreKeyed routes route_id_of db.routes_rows
      → routes.Has db.routes_rows current
      → is_route by.company_id route_id current ≡ true
      → store_patched_route js decimal text_of parse_date assigned_reason provider orders routes by
          route_id dto db
        ≡ ok (saved, db')
      → IsWritten dto current current.version db' saved
  unfolding store_patched_route patch_route
  store_patched_route-IsWritten by route_id dto current db db' saved key has named h =
      let test = is_route by.company_id route_id in
      let ((r, rows'), e, h1) =
        bind_returns (or_throw (routes.update test (patch_route dto) db.routes_rows) not_found) _
          h in
      let written = or_throw-some _ not_found (r, rows') e in
      let same =
        returned_row_of routes test (patch_route dto) db.routes_rows rows' current r
          (is_route-IsKey by.company_id route_id db.routes_rows key) has named written in
      let out = ok_injective _ (saved, db') h1 in
      subst (λ o. IsWritten dto current current.version o.1 o.0) out
        (record {
          stored = routes.update_in test (patch_route dto) db.routes_rows r rows' written;
          status = ap (λ x. x.status) same;
          next_version = ap (λ x. x.version) same;
        })

  pub store_replanned_route-IsWritten :
      (by : Caller) (route_id : ℕ) (dto : UpdateRouteDto N) (current : Route N)
      (courier_id : Option ℕ) (options : RouteOptions)
      (made : PlannedRoute js decimal text_of parse_date assigned_reason provider orders routes)
      (db db' : DbOf) (saved : RouteRecord N)
      → AreKeyed routes route_id_of db.routes_rows
      → routes.Has db.routes_rows current
      → is_route by.company_id route_id current ≡ true
      → store_replanned_route js decimal text_of parse_date assigned_reason provider orders routes
          by route_id dto current courier_id options made db
        ≡ ok (saved, db')
      → IsWritten dto current (current.version + 1) db' saved
  unfolding store_replanned_route replan_route
  store_replanned_route-IsWritten by route_id dto current courier_id options made db db' saved key
        has named h =
      let test = is_route by.company_id route_id in
      let f =
        replan_route js decimal text_of parse_date assigned_reason provider orders routes dto
          current courier_id options made in
      let ((q, rows'), e0, h0) =
        bind_returns (or_throw (routes.update test f db.routes_rows) not_found) _ h in
      let written = or_throw-some _ not_found (q, rows') e0 in
      let (points, e1, h1) =
        bind_returns
          (build_route_point_create_data by.company_id route_id made.plan.orders made.result) _
          h0 in
      let stored : DbOf = record db {
        routes_rows = rows';
        points = other_points by.company_id route_id db.points ++ points;
      } in
      let (synced, e2, h2) =
        bind_returns
          (sync_couriers js decimal text_of parse_date assigned_reason provider orders routes by
            route_id courier_id made.plan.orders stored)
          _ h1 in
      let (same_rows, _) =
        sync_couriers-keeps js decimal text_of parse_date assigned_reason provider orders routes by
          route_id courier_id made.plan.orders stored synced e2 in
      let (read, e3, h3) =
        bind_returns
          (saved_route js decimal text_of parse_date assigned_reason provider orders routes
            by.company_id route_id synced)
          _ h2 in
      let (x, looked, shown) =
        bind_returns (or_throw (routes.find_first test synced.routes_rows) not_found) _ e3 in
      let (has_x, meets) =
        routes.find_first_some test synced.routes_rows x (or_throw-some _ not_found x looked) in
      let same : x ≡ f current =
        elim (update_row_of routes test f db.routes_rows rows' current q x
          (is_route-IsKey by.company_id route_id db.routes_rows key) has named written
          (subst (λ s. routes.Has s x) same_rows has_x)) [
            | inl e ↦ e
            | inr (_, fails) ↦ absurd (true≢false (sym meets ∙ fails))
          ] in
      let route : x ≡ read.route = ap (λ r. r.route) (ok_injective _ read shown) in
      subst (λ o. IsWritten dto current (current.version + 1) o.1 o.0)
        (ok_injective _ (saved, db') h3)
        (record {
          stored = subst (routes.Has synced.routes_rows) route has_x;
          status = ap (λ r. r.status) (sym route ∙ same);
          next_version = ap (λ r. r.version) (sym route ∙ same);
        })
    where
      true≢false : true ≡ false → ⊥
      true≢false h = cc
