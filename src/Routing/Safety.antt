-- ===== src/Routing/Safety.antt =====
-- The tables of routes after any sequence of calls of backend/src/modules/routing/routing.service.ts.
use logistics_center.Base.{
  ℕ, ◌≡◌, refl, sym, ap, subst, inl, inr, true, not, Option, some, length, Result, Result-cases, ok,
  not_found, invalid_state_transition, bind_returns, ok_injective, or_throw, or_throw-some,
  throw_if, ◌>>=◌, Bool-cases, arith,
}
use logistics_center.Base.Text.{Text}
use logistics_center.Database.{Table}
use logistics_center.Compensation.Ecma.{Ecma}
use logistics_center.Orders.Columns.{Order}
use logistics_center.Routing.StateMachine.{route_cancelled, can_transition_route}
use logistics_center.Routing.Provider.{UpdateRouteDto}
use logistics_center.Routing.Rows.{
  Route, RouteRecord, RoutingProvider, is_route, is_active_route, find_conflicting_route_points,
  on_active_route, with_coordinates,
}
use logistics_center.Routing.Service.{
  Caller, Db, PlannedRoute, plan_route, find_route, route_has_plan_changes, ensure_route_editable,
}
use logistics_center.Routing.Update.{
  check_update, store_replanned_route, store_patched_route, announce_update, next_order_ids,
  next_courier_id, next_options, update_plan, apply_update, checked_update, update_route, delete_at,
  delete_route,
}
use logistics_center.Routing.Exclusive.{IsSound}
use logistics_center.Routing.Replacing.{plan_route_lem}
use logistics_center.Routing.Building.{IsSound-same, committed-IsSound}
use logistics_center.Routing.Updating.{patched-IsSound}
use logistics_center.Routing.Maintaining.{
  found_route, announced, store_patched_route-IsSound, store_replanned_route-IsSound,
}

module _ (js : Ecma) {Decimal : Type 0} (decimal : js.N → Decimal) (text_of : ℕ → Text)
    (parse_date : Text → Option ℕ) (assigned_reason : ℕ) (provider : RoutingProvider js.N Decimal)
    (orders : Table (Order js.N Decimal)) (routes : Table (Route js.N)) where
  open js use {N}

  abbrev DbOf : Type 0
  DbOf = Db js decimal text_of parse_date assigned_reason provider orders routes

  update_plan-IsSound :
      (by : Caller) (route_id : ℕ) (dto : UpdateRouteDto N) (current : Route N) (db : DbOf)
      → IsSound decimal orders routes by.company_id db
      → IsSound decimal orders routes by.company_id
          (update_plan js decimal text_of parse_date assigned_reason provider orders routes by
            route_id dto current db).0
  unfolding update_plan find_conflicting_route_points on_active_route
  update_plan-IsSound by route_id dto current db inv =
      let ids =
        next_order_ids js decimal text_of parse_date assigned_reason provider orders routes dto by
          current db in
      let courier =
        next_courier_id js decimal text_of parse_date assigned_reason provider orders routes dto
          current in
      let options =
        next_options js decimal text_of parse_date assigned_reason provider orders routes dto
          current in
      let (saved, made) =
        plan_route js decimal text_of parse_date assigned_reason provider orders routes
          by.company_id ids courier options (some route_id) db in
      let before = with_coordinates decimal orders routes by.company_id saved db in
      let kept =
        IsSound-same js decimal text_of parse_date assigned_reason provider orders routes
          by.company_id db before refl refl inv in
      let store : PlannedRoute js decimal text_of parse_date assigned_reason provider orders routes
          → Result (RouteRecord N × DbOf) =
        λ m.
          announce_update js decimal text_of parse_date assigned_reason provider orders routes by
            current
            (store_replanned_route js decimal text_of parse_date assigned_reason provider orders
              routes by route_id dto current courier options m before) in
      committed-IsSound js decimal text_of parse_date assigned_reason provider orders routes
        by.company_id before (made >>= store) kept
        λ response db' h.
          let (m, e, h1) = bind_returns made store h in
          let (same_ids, free) =
            plan_route_lem js decimal text_of parse_date assigned_reason provider orders routes
              by.company_id ids courier options (some route_id) db m e in
          let (db0, stored, rows, points) =
            announced js decimal text_of parse_date assigned_reason provider orders routes by
              current
              (store_replanned_route js decimal text_of parse_date assigned_reason provider orders
                routes by route_id dto current courier options m before)
              response db' h1 in
          IsSound-same js decimal text_of parse_date assigned_reason provider orders routes
            by.company_id db0 db' rows points
            (store_replanned_route-IsSound js decimal text_of parse_date assigned_reason provider
              orders routes by route_id dto current courier options m before response db0
              (subst
                (λ is.
                  length (
                    find_conflicting_route_points decimal orders routes by.company_id before is
                      (some route_id))
                  ≡ 0)
                (sym same_ids) free)
              stored kept)

  apply_update-IsSound :
      (by : Caller) (route_id : ℕ) (dto : UpdateRouteDto N) (current : Route N) (db : DbOf)
      → routes.Has db.routes_rows current
      → is_route by.company_id route_id current ≡ true
      → check_update dto current ≡ ok tt
      → IsSound decimal orders routes by.company_id db
      → IsSound decimal orders routes by.company_id
          (apply_update js decimal text_of parse_date assigned_reason provider orders routes by
            route_id dto current db).0
  apply_update-IsSound by route_id dto current db has named checked inv =
      let stored =
        store_patched_route js decimal text_of parse_date assigned_reason provider orders routes by
          route_id dto db in
      elim (Bool-cases (route_has_plan_changes dto current)) [
        | inl t ↦ rw t (update_plan-IsSound by route_id dto current db inv)
        | inr f ↦ rw f (
            committed-IsSound js decimal text_of parse_date assigned_reason provider orders routes
              by.company_id db
              (announce_update js decimal text_of parse_date assigned_reason provider orders routes
                by current stored)
              inv
              λ response db' h.
                let (db0, e, rows, points) =
                  announced js decimal text_of parse_date assigned_reason provider orders routes by
                    current stored response db' h in
                IsSound-same js decimal text_of parse_date assigned_reason provider orders routes
                  by.company_id db0 db' rows points
                  (store_patched_route-IsSound js decimal text_of parse_date assigned_reason
                    provider orders routes by route_id dto current db response db0 has named checked
                    e inv))
      ]

  -- Updating a route, whether it returns or throws, keeps the tables of routes sound.
  pub update_route-IsSound :
      (by : Caller) (route_id : ℕ) (dto : UpdateRouteDto N) (db : DbOf)
      → IsSound decimal orders routes by.company_id db
      → IsSound decimal orders routes by.company_id
          (update_route js decimal text_of parse_date assigned_reason provider orders routes by
            route_id dto db).0
  unfolding update_route
  update_route-IsSound by route_id dto db inv =
      elim (Result-cases (
        checked_update js decimal text_of parse_date assigned_reason provider orders routes by
          route_id dto db)) [
            | inl (thrown, e) ↦ rw e inv
            | inr (current, e) ↦
                let (found, looked, e1) =
                  bind_returns
                    (or_throw
                      (find_route js decimal text_of parse_date assigned_reason provider orders
                        routes by.company_id route_id db)
                      not_found)
                    _ e in
                let (_, checked, e2) = bind_returns (check_update dto found) _ e1 in
                let same : found ≡ current = ok_injective found current e2 in
                let (has, named, _) =
                  found_route js decimal text_of parse_date assigned_reason provider orders routes
                    by.company_id route_id db found looked in
                rw e (
                  rw (← same) (apply_update-IsSound by route_id dto found db has named checked inv))
          ]

  -- Deleting a route keeps the tables of routes sound.
  pub delete_route-IsSound :
      (by : Caller) (now route_id : ℕ) (db : DbOf) (saved : RouteRecord N) (db' : DbOf)
      → delete_route js decimal text_of parse_date assigned_reason provider orders routes by now
          route_id db
        ≡ ok (saved, db')
      → IsSound decimal orders routes by.company_id db
      → IsSound decimal orders routes by.company_id db'
  unfolding delete_route is_active_route
  delete_route-IsSound by now route_id db saved db' h inv =
      let (current, _, h1) =
        bind_returns
          (or_throw
            (find_route js decimal text_of parse_date assigned_reason provider orders routes
              by.company_id route_id db)
            not_found)
          _ h in
      let (_, _, h2) = bind_returns (ensure_route_editable current.status) _ h1 in
      let (_, _, h3) =
        bind_returns
          (throw_if (not (can_transition_route current.status route_cancelled))
            invalid_state_transition)
          _ h2 in
      let ((r, rows'), e, h4) =
        bind_returns
          (or_throw (routes.update (is_route by.company_id route_id) (delete_at now) db.routes_rows)
            not_found)
          _ h3 in
      let out = ok_injective _ (saved, db') h4 in
      let updated : DbOf = record db { routes_rows = rows' } in
      IsSound-same js decimal text_of parse_date assigned_reason provider orders routes
        by.company_id updated db' (sym (ap (λ o. o.1.routes_rows) out))
        (sym (ap (λ o. o.1.points) out))
        (patched-IsSound js decimal text_of parse_date assigned_reason provider orders routes
          by.company_id route_id (delete_at now) db updated r (λ x. refl)
          (λ x m meets on. absurd (ground (arith, on))) (or_throw-some _ not_found (r, rows') e)
          refl inv)
