-- ===== src/Routing/Updates.antt =====
-- What `updateRoute` of backend/src/modules/routing/routing.service.ts promises of the route that it
-- returns.
use logistics_center.Base.{
  ℕ, ◌+◌, ◌≡◌, sym, ap, subst, ◌∙◌, inl, inr, true, Option, some, Result, Result-cases, ok, err,
  not_found, bind_returns, ok_injective, or_throw, ◌>>=◌, Bool-cases, if◌then◌else◌, When,
}
use logistics_center.Base.Text.{Text}
use logistics_center.Database.{Table}
use logistics_center.Database.PrimaryKey.{AreKeyed}
use logistics_center.Compensation.Ecma.{Ecma}
use logistics_center.Orders.Columns.{Order}
use logistics_center.Routing.StateMachine.{is_route_editable_status}
use logistics_center.Routing.Provider.{UpdateRouteDto}
use logistics_center.Routing.Rows.{Route, RouteRecord, RoutingProvider, is_route, with_coordinates}
use logistics_center.Routing.Service.{
  Caller, Db, PlannedRoute, plan_route, find_route, route_has_plan_changes, committed,
}
use logistics_center.Routing.Update.{
  check_update, store_replanned_route, store_patched_route, announce_update, next_order_ids,
  next_courier_id, next_options, update_plan, apply_update, checked_update, update_route,
}
use logistics_center.Routing.Exclusive.{route_id_of}
use logistics_center.Routing.Maintaining.{found_route, announced}
use logistics_center.Routing.Updated.{
  IsWritten, IsUpdated, check_update_lem, committed_lem, store_patched_route-IsWritten,
  store_replanned_route-IsWritten,
}

module _ (js : Ecma) {Decimal : Type 0} (decimal : js.N → Decimal) (text_of : ℕ → Text)
    (parse_date : Text → Option ℕ) (assigned_reason : ℕ) (provider : RoutingProvider js.N Decimal)
    (orders : Table (Order js.N Decimal)) (routes : Table (Route js.N)) where
  open js use {N}

  abbrev DbOf : Type 0
  DbOf = Db js decimal text_of parse_date assigned_reason provider orders routes

  -- What is written does not depend on the events.
  IsWritten-same :
      (dto : UpdateRouteDto N) (current : Route N) (version : ℕ) (db db' : DbOf)
      (saved : RouteRecord N)
      → db'.routes_rows ≡ db.routes_rows
      → IsWritten js decimal text_of parse_date assigned_reason provider orders routes dto current
          version db saved
      → IsWritten js decimal text_of parse_date assigned_reason provider orders routes dto current
          version db' saved
  IsWritten-same dto current version db db' saved rows w = record {
    stored = subst (λ s. routes.Has s saved.route) (sym rows) w.stored;
    status = w.status;
    next_version = w.next_version;
  }

  update_plan-IsWritten :
      (by : Caller) (route_id : ℕ) (dto : UpdateRouteDto N) (current : Route N) (db : DbOf)
      (saved : RouteRecord N)
      → AreKeyed routes route_id_of db.routes_rows
      → routes.Has db.routes_rows current
      → is_route by.company_id route_id current ≡ true
      → (update_plan js decimal text_of parse_date assigned_reason provider orders routes by
          route_id dto current db).1
        ≡ ok saved
      → IsWritten js decimal text_of parse_date assigned_reason provider orders routes dto current
          (current.version + 1)
          (update_plan js decimal text_of parse_date assigned_reason provider orders routes by
            route_id dto current db).0
          saved
  unfolding update_plan
  update_plan-IsWritten by route_id dto current db saved key has named h =
      let ids =
        next_order_ids js decimal text_of parse_date assigned_reason provider orders routes dto by
          current db in
      let courier =
        next_courier_id js decimal text_of parse_date assigned_reason provider orders routes dto
          current in
      let options =
        next_options js decimal text_of parse_date assigned_reason provider orders routes dto
          current in
      let (coordinates, made) =
        plan_route js decimal text_of parse_date assigned_reason provider orders routes
          by.company_id ids courier options (some route_id) db in
      let before = with_coordinates decimal orders routes by.company_id coordinates db in
      let store : PlannedRoute js decimal text_of parse_date assigned_reason provider orders routes
          → Result (RouteRecord N × DbOf) =
        λ m.
          announce_update js decimal text_of parse_date assigned_reason provider orders routes by
            current
            (store_replanned_route js decimal text_of parse_date assigned_reason provider orders
              routes by route_id dto current courier options m before) in
      let done =
        committed_lem js decimal text_of parse_date assigned_reason provider orders routes before
          (made >>= store) saved h in
      let (m, e, h1) = bind_returns made store done in
      let after =
        (committed js decimal text_of parse_date assigned_reason provider orders routes before
          (made >>= store)).0 in
      let (db0, stored, rows, _) =
        announced js decimal text_of parse_date assigned_reason provider orders routes by current
          (store_replanned_route js decimal text_of parse_date assigned_reason provider orders
            routes by route_id dto current courier options m before)
          saved after h1 in
      IsWritten-same dto current (current.version + 1) db0 after saved rows (
        store_replanned_route-IsWritten js decimal text_of parse_date assigned_reason provider
          orders routes by route_id dto current courier options m before db0 saved key has named
          stored)

  apply_update-IsWritten :
      (by : Caller) (route_id : ℕ) (dto : UpdateRouteDto N) (current : Route N) (db : DbOf)
      (saved : RouteRecord N)
      → AreKeyed routes route_id_of db.routes_rows
      → routes.Has db.routes_rows current
      → is_route by.company_id route_id current ≡ true
      → (apply_update js decimal text_of parse_date assigned_reason provider orders routes by
          route_id dto current db).1
        ≡ ok saved
      → IsWritten js decimal text_of parse_date assigned_reason provider orders routes dto current
          (if route_has_plan_changes dto current then current.version + 1 else current.version)
          (apply_update js decimal text_of parse_date assigned_reason provider orders routes by
            route_id dto current db).0
          saved
  apply_update-IsWritten by route_id dto current db saved key has named h =
      elim (Bool-cases (route_has_plan_changes dto current)) [
        | inl t ↦
            rw t (update_plan-IsWritten by route_id dto current db saved key has named (rw t at h))
        | inr f ↦
            let stored =
              announce_update js decimal text_of parse_date assigned_reason provider orders routes
                by current
                (store_patched_route js decimal text_of parse_date assigned_reason provider orders
                  routes by route_id dto db) in
            let after =
              (committed js decimal text_of parse_date assigned_reason provider orders routes db
                stored).0 in
            let done =
              committed_lem js decimal text_of parse_date assigned_reason provider orders routes db
                stored saved (rw f at h) in
            let (db0, written, rows, _) =
              announced js decimal text_of parse_date assigned_reason provider orders routes by
                current
                (store_patched_route js decimal text_of parse_date assigned_reason provider orders
                  routes by route_id dto db)
                saved after done in
            rw f (
              IsWritten-same dto current current.version db0 after saved rows (
                store_patched_route-IsWritten js decimal text_of parse_date assigned_reason provider
                  orders routes by route_id dto current db db0 saved key has named written))
      ]

  -- Where identifiers of routes are a key, a route that updateRoute returns is the stored one of a
  -- route of the company that is not deleted. Its status is the requested one, if any, which the state
  -- machine allows or which it had before. A new plan gives it the next version, and is accepted only
  -- where it was and stays draft or planned; without one the version stays.
  pub update_route-IsUpdated :
      (by : Caller) (route_id : ℕ) (dto : UpdateRouteDto N) (db : DbOf) (saved : RouteRecord N)
      → AreKeyed routes route_id_of db.routes_rows
      → (update_route js decimal text_of parse_date assigned_reason provider orders routes by
          route_id dto db).1
        ≡ ok saved
      → (current : Route N) × IsUpdated js decimal text_of parse_date assigned_reason provider
          orders routes by.company_id route_id dto current db
          (update_route js decimal text_of parse_date assigned_reason provider orders routes by
            route_id dto db).0
          saved
  unfolding update_route
  update_route-IsUpdated by route_id dto db saved key h =
      elim (Result-cases (
        checked_update js decimal text_of parse_date assigned_reason provider orders routes by
          route_id dto db)) [
            | inl (thrown, e) ↦
                let failed : err thrown ≡ ok saved = rw e at h in absurd (differ failed)
            | inr (current, e) ↦
                let (found, looked, e1) =
                  bind_returns
                    (or_throw
                      (find_route js decimal text_of parse_date assigned_reason provider orders
                        routes by.company_id route_id db)
                      not_found)
                    _ e in
                let (_, checked, e2) = bind_returns (check_update dto found) _ e1 in
                let same : found ≡ current = ok_injective found current e2 in
                let here = subst (λ c. check_update dto c ≡ ok tt) same checked in
                let (has, named, kept) =
                  found_route js decimal text_of parse_date assigned_reason provider orders routes
                    by.company_id route_id db current (looked ∙ ap ok same) in
                let (allowed, editable) = check_update_lem dto current here in
                let written =
                  apply_update-IsWritten by route_id dto current db saved key has named
                    (rw e at h) in
                (
                  current,
                  rw e (record {
                    found = has;
                    named = named;
                    kept = kept;
                    allowed = allowed;
                    editable =
                        subst
                          (λ s. When (route_has_plan_changes dto current) (
                            (is_route_editable_status current.status ≡ true)
                            × (is_route_editable_status s ≡ true)))
                          (sym written.status) editable;
                    written = written;
                  }),
                )
          ]
    where
      differ : {thrown : _} → err thrown ≡ ok saved → ⊥
      differ e = cc
