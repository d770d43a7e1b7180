-- ===== src/Routing/Maintaining.antt =====
-- Every operation of backend/src/modules/routing/routing.service.ts that writes keeps the tables of
-- routes sound, so the tables are sound after any sequence of them.
use logistics_center.Base.{
  ℕ, ◌≡◌, refl, sym, ap, ◌∙◌, true, false, not, ◌&&◌, Option, some, ◌++◌, map, length, Result, ok,
  not_found, bad_request, invalid_state_transition, bind_returns, ok_injective, or_throw,
  or_throw-some, throw_if, arith, &&_iff,
}
use logistics_center.Base.Text.{Text}
use logistics_center.Database.{Table}
use logistics_center.Compensation.Ecma.{Ecma}
use logistics_center.Orders.Columns.{Order}
use logistics_center.Routing.StateMachine.{is_route_editable_status}
use logistics_center.Routing.Provider.{RouteOptions, UpdateRouteDto}
use logistics_center.Routing.Points.{build_route_point_create_data}
use logistics_center.Routing.Rows.{
  Route, RouteRecord, RoutingProvider, is_route, is_kept, find_conflicting_route_points,
}
use logistics_center.Routing.Service.{
  Caller, Db, PlannedRoute, sync_couriers, saved_route, find_route, is_refused_transition,
  route_has_plan_changes,
}
use logistics_center.Routing.Update.{
  check_update, replan_route, patch_route, other_points, store_replanned_route, store_patched_route,
  announce_update,
}
use logistics_center.Routing.Exclusive.{IsSound}
use logistics_center.Routing.Replacing.{rows_of_plan, sync_couriers-keeps}
use logistics_center.Routing.Building.{IsSound-same}
use logistics_center.Routing.Updating.{
  is_route_id, patched_active, patched-IsSound, replanned-IsSound,
}

not_refused :
    {N : Type 0} (dto : UpdateRouteDto N) (r : Route N)
    → check_update dto r ≡ ok tt
    → is_refused_transition r.status dto.status ≡ false
unfolding check_update
not_refused dto r h =
    let (_, _, h1) =
      bind_returns
        (throw_if (route_has_plan_changes dto r && not (is_route_editable_status r.status))
          bad_request)
        _ h in
    let (_, passed, _) =
      bind_returns (throw_if (is_refused_transition r.status dto.status) invalid_state_transition) _
        h1 in
    ground (arith, passed)

module _ (js : Ecma) {Decimal : Type 0} (decimal : js.N → Decimal) (text_of : ℕ → Text)
    (parse_date : Text → Option ℕ) (assigned_reason : ℕ) (provider : RoutingProvider js.N Decimal)
    (orders : Table (Order js.N Decimal)) (routes : Table (Route js.N)) where
  open js use {N}

  abbrev DbOf : Type 0
  DbOf = Db js decimal text_of parse_date assigned_reason provider orders routes

  -- What the search for a route finds.
  pub found_route :
      (company_id route_id : ℕ) (db : DbOf) (current : Route N)
      → or_throw
          (find_route js decimal text_of parse_date assigned_reason provider orders routes
            company_id route_id db)
          not_found
        ≡ ok current
      → routes.Has db.routes_rows current
        × (is_route company_id route_id current ≡ true)
        × (is_kept current ≡ true)
  found_route company_id route_id db current h =
      let found = or_throw-some _ not_found current h in
      let (has, meets) = routes.find_first_some _ db.routes_rows current found in
      let (named, kept) =
        (&&_iff (is_route company_id route_id current) (is_kept current)).0 meets in
      (has, named, kept)

  pub announced :
      (by : Caller) (current : Route N) (stored : Result (RouteRecord N × DbOf))
      (saved : RouteRecord N) (db' : DbOf)
      → announce_update js decimal text_of parse_date assigned_reason provider orders routes by
          current stored
        ≡ ok (saved, db')
      → (db0 : DbOf) × (stored ≡ ok (saved, db0))
        × (db'.routes_rows ≡ db0.routes_rows)
        × (db'.points ≡ db0.points)
  announced by current stored saved db' h =
      let ((saved0, db0), e, h1) = bind_returns stored _ h in
      let out = ok_injective _ (saved, db') h1 in
      (
        db0,
        e ∙ ap (λ r. ok (r, db0)) (ap (λ o. o.0) out),
        sym (ap (λ o. o.1.routes_rows) out),
        sym (ap (λ o. o.1.points) out),
      )

  pub store_patched_route-IsSound :
      (by : Caller) (route_id : ℕ) (dto : UpdateRouteDto N) (current : Route N) (db : DbOf)
      (saved : RouteRecord N) (db' : DbOf)
      → routes.Has db.routes_rows current
      → is_route by.company_id route_id current ≡ true
      → check_update dto current ≡ ok tt
      → store_patched_route js decimal text_of parse_date assigned_reason provider orders routes by
          route_id dto db
        ≡ ok (saved, db')
      → IsSound decimal orders routes by.company_id db
      → IsSound decimal orders routes by.company_id db'
  unfolding store_patched_route patch_route
  store_patched_route-IsSound by route_id dto current db saved db' has named checked h inv =
      let ((r, rows'), e, h1) =
        bind_returns
          (or_throw
            (routes.update (is_route by.company_id route_id) (patch_route dto) db.routes_rows)
            not_found)
          _ h in
      let out = ok_injective _ (saved, db') h1 in
      let written = or_throw-some _ not_found (r, rows') e in
      let updated : DbOf = record db { routes_rows = rows' } in
      IsSound-same js decimal text_of parse_date assigned_reason provider orders routes
        by.company_id updated db' (sym (ap (λ o. o.1.routes_rows) out))
        (sym (ap (λ o. o.1.points) out))
        (patched-IsSound js decimal text_of parse_date assigned_reason provider orders routes
          by.company_id route_id (patch_route dto) db updated r (λ x. refl)
          (λ x m meets on.
            let same : current ≡ x = inv.keyed current x has m (
              is_route_id by.company_id route_id current named
              ∙ sym (is_route_id by.company_id route_id x meets)) in
            patched_active dto x
              (ap (λ y. is_refused_transition y.status dto.status) (sym same)
                ∙ not_refused dto current checked)
              on)
          written refl inv)

  pub store_replanned_route-IsSound :
      (by : Caller) (route_id : ℕ) (dto : UpdateRouteDto N) (current : Route N)
      (courier_id : Option ℕ) (options : RouteOptions)
      (made : PlannedRoute js decimal text_of parse_date assigned_reason provider orders routes)
      (db : DbOf) (saved : RouteRecord N) (db' : DbOf)
      → length (
          find_conflicting_route_points decimal orders routes by.company_id db
            (map (λ o. o.id) made.plan.orders)
            (some route_id))
        ≡ 0
      → store_replanned_route js decimal text_of parse_date assigned_reason provider orders routes
          by route_id dto current courier_id options made db
        ≡ ok (saved, db')
      → IsSound decimal orders routes by.company_id db
      → IsSound decimal orders routes by.company_id db'
  unfolding store_replanned_route replan_route
  store_replanned_route-IsSound by route_id dto current courier_id options made db saved db' free h
        inv =
      let f =
        replan_route js decimal text_of parse_date assigned_reason provider orders routes dto
          current courier_id options made in
      let ((q, rows'), e0, h0) =
        bind_returns
          (or_throw (routes.update (is_route by.company_id route_id) f db.routes_rows) not_found) _
          h in
      let written = or_throw-some _ not_found (q, rows') e0 in
      let (points, e1, h1) =
        bind_returns
          (build_route_point_create_data by.company_id route_id made.plan.orders made.result) _
          h0 in
      let stored : DbOf = record db {
        routes_rows = rows';
        points = other_points by.company_id route_id db.points ++ points;
      } in
      let (synced, e2, h2) =
        bind_returns
          (sync_couriers js decimal text_of parse_date assigned_reason provider orders routes by
            route_id courier_id made.plan.orders stored)
          _ h1 in
      let (read, _, h3) =
        bind_returns
          (saved_route js decimal text_of parse_date assigned_reason provider orders routes
            by.company_id route_id synced)
          _ h2 in
      let (same_rows, same_points) =
        sync_couriers-keeps js decimal text_of parse_date assigned_reason provider orders routes by
          route_id courier_id made.plan.orders stored synced e2 in
      let out = ok_injective _ (saved, db') h3 in
      IsSound-same js decimal text_of parse_date assigned_reason provider orders routes
        by.company_id stored db' (sym (ap (λ o. o.1.routes_rows) out) ∙ same_rows)
        (sym (ap (λ o. o.1.points) out) ∙ same_points)
        (replanned-IsSound js decimal text_of parse_date assigned_reason provider orders routes
          by.company_id route_id f (map (λ o. o.id) made.plan.orders) db stored q points (λ x. refl)
          written refl free
          (λ p m. rows_of_plan by.company_id route_id made.plan.orders made.result points p e1 m)
          inv)
