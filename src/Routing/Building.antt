-- ===== src/Routing/Building.antt =====
-- `buildRoute` of backend/src/modules/routing/routing.service.ts keeps the tables of routes sound.
use logistics_center.Base.{
  ℕ, ◌≡◌, ◌≢◌, refl, sym, ap, subst, ◌∙◌, inl, inr, Option, none, List, ◌++◌, map, length, Elem,
  Result, ok, err, bind_returns, ok_injective, ◌>>=◌,
}
use logistics_center.Base.Text.{Text}
use logistics_center.Database.{Table}
use logistics_center.Database.PrimaryKey.{IsPrimaryKey, create-AreKeyed, create-Exists}
use logistics_center.Compensation.Ecma.{Ecma}
use logistics_center.Orders.Columns.{Order}
use logistics_center.Routing.Provider.{RouteOptions, BuildRouteDto, build_provider_options}
use logistics_center.Routing.Points.{RoutePointData, build_route_point_create_data}
use logistics_center.Routing.Rows.{
  Route, RouteRecord, RoutingProvider, find_conflicting_route_points, on_active_route,
  with_coordinates,
}
use logistics_center.Routing.Service.{
  Caller, Db, PlannedRoute, plan_route, sync_couriers, saved_route, new_route, store_new_route,
  build_route, committed,
}
use logistics_center.Routing.Exclusive.{
  route_id_of, IsSound, free_of_conflicts, IsExclusive-rewritten,
}
use logistics_center.Routing.Replacing.{
  Elem-append, rows_of_plan, plan_route_lem, sync_couriers-keeps,
}

module _ (js : Ecma) {Decimal : Type 0} (decimal : js.N → Decimal) (text_of : ℕ → Text)
    (parse_date : Text → Option ℕ) (assigned_reason : ℕ) (provider : RoutingProvider js.N Decimal)
    (orders : Table (Order js.N Decimal)) (routes : Table (Route js.N)) where
  open js use {N}

  abbrev DbOf : Type 0
  DbOf = Db js decimal text_of parse_date assigned_reason provider orders routes

  -- The same routes and points are as sound.
  pub IsSound-same :
      (company_id : ℕ) (db db' : DbOf)
      → db'.routes_rows ≡ db.routes_rows
      → db'.points ≡ db.points
      → IsSound decimal orders routes company_id db
      → IsSound decimal orders routes company_id db'
  IsSound-same company_id db db' rows points inv = record {
    keyed = λ x y hx hy same.
        inv.keyed x y (subst (λ s. routes.Has s x) rows hx) (subst (λ s. routes.Has s y) rows hy)
          same;
    referenced = λ p m.
        let (r, has, e) = inv.referenced p (subst (Elem p) points m) in
        (r, subst (λ s. routes.Has s r) (sym rows) has, e);
    exclusive = λ p q mp mq cp cq same (r, hr, er, tr) (t, ht, et, tt').
        inv.exclusive p q (subst (Elem p) points mp) (subst (Elem q) points mq) cp cq same
          (r, subst (λ s. routes.Has s r) rows hr, er, tr)
          (t, subst (λ s. routes.Has s t) rows ht, et, tt');
  }

  -- The routes and points of a new route, before its orders are assigned.
  new_route-IsSound :
      (company_id : ℕ) (f : ℕ → Route N) (order_ids : List ℕ) (db : DbOf)
      (points : List RoutePointData)
      → IsPrimaryKey routes route_id_of
      → ((i : ℕ) → (f i).id ≡ i)
      → length (find_conflicting_route_points decimal orders routes company_id db order_ids none)
        ≡ 0
      → ((p : RoutePointData)
          → Elem p points
          → (p.route_id ≡ (routes.create f db.routes_rows).0.id)
            × (p.company_id ≡ company_id)
            × Elem p.order_id order_ids)
      → IsSound decimal orders routes company_id db
      → IsSound decimal orders routes company_id (record db {
        routes_rows = (routes.create f db.routes_rows).1;
        points = db.points ++ points;
      })
  new_route-IsSound company_id f order_ids db points fresh named free of_plan inv =
      let rows' = (routes.create f db.routes_rows).1 in
      let new = (routes.create f db.routes_rows).0 in
      let not_new : (p : RoutePointData) → Elem p db.points → p.route_id ≢ new.id = λ p m same.
        let (r, has, e) = inv.referenced p m in fresh f db.routes_rows r named has (e ∙ same) in
      record {
        keyed = create-AreKeyed routes route_id_of f db.routes_rows fresh named inv.keyed;
        referenced = λ p m. elim (Elem-append p db.points points m) [
          | inl old ↦
              create-Exists routes route_id_of f db.routes_rows p.route_id (inv.referenced p old)
          | inr k ↦ let (route, _, _) = of_plan p k in (new, table_in f, sym route)
        ];
        exclusive =
            IsExclusive-rewritten decimal orders routes company_id new.id order_ids db
              (record db { routes_rows = rows'; points = db.points ++ points })
              (λ p m c. elim (Elem-append p db.points points m) [
                | inl old ↦ inr (old, not_new p old)
                | inr k ↦ let (route, _, order) = of_plan p k in inl (route, order)
              ])
              (λ k other (r, has, e, active). elim (routes.create_has f db.routes_rows r has) [
                | inl same ↦ absurd (other (sym e ∙ ap (λ x. x.id) same))
                | inr old ↦ (r, old, e, active)
              ])
              (λ p m c other order active.
                free_of_conflicts decimal orders routes company_id db order_ids none p free m c
                  order refl active)
              inv.exclusive;
      }
    where
      table_in :
          (f : ℕ → Route N)
          → routes.Has (routes.create f db.routes_rows).1 (routes.create f db.routes_rows).0
      table_in f = routes.create_in f db.routes_rows

  store_new_route-IsSound :
      (by : Caller) (dto : BuildRouteDto N) (options : RouteOptions)
      (made : PlannedRoute js decimal text_of parse_date assigned_reason provider orders routes)
      (db : DbOf) (saved : RouteRecord N) (db' : DbOf)
      → IsPrimaryKey routes route_id_of
      → length (
          find_conflicting_route_points decimal orders routes by.company_id db
            (map (λ o. o.id) made.plan.orders)
            none)
        ≡ 0
      → store_new_route js decimal text_of parse_date assigned_reason provider orders routes by dto
          options made db
        ≡ ok (saved, db')
      → IsSound decimal orders routes by.company_id db
      → IsSound decimal orders routes by.company_id db'
  unfolding store_new_route new_route
  store_new_route-IsSound by dto options made db saved db' fresh free h inv =
      let f =
        new_route js decimal text_of parse_date assigned_reason provider orders routes by dto
          options made.result in
      let (r, rows') = routes.create f db.routes_rows in
      let (points, e1, h1) =
        bind_returns (build_route_point_create_data by.company_id r.id made.plan.orders made.result)
          _ h in
      let stored : DbOf = record db { routes_rows = rows'; points = db.points ++ points } in
      let (synced, e2, h2) =
        bind_returns
          (sync_couriers js decimal text_of parse_date assigned_reason provider orders routes by
            r.id dto.courier_id made.plan.orders stored)
          _ h1 in
      let (read, _, h3) =
        bind_returns
          (saved_route js decimal text_of parse_date assigned_reason provider orders routes
            by.company_id r.id synced)
          _ h2 in
      let (same_rows, same_points) =
        sync_couriers-keeps js decimal text_of parse_date assigned_reason provider orders routes by
          r.id dto.courier_id made.plan.orders stored synced e2 in
      let out = ok_injective _ (saved, db') h3 in
      IsSound-same by.company_id stored db' (sym (ap (λ o. o.1.routes_rows) out) ∙ same_rows)
        (sym (ap (λ o. o.1.points) out) ∙ same_points)
        (new_route-IsSound by.company_id f (map (λ o. o.id) made.plan.orders) db points fresh
          (λ i. refl) free
          (λ p m. rows_of_plan by.company_id r.id made.plan.orders made.result points p e1 m) inv)

  -- What is committed is as sound as what was there before, where the transaction keeps soundness.
  pub committed-IsSound :
      (company_id : ℕ) (before : DbOf) (stored : Result (RouteRecord N × DbOf))
      → IsSound decimal orders routes company_id before
      → ((saved : RouteRecord N) (db' : DbOf)
          → stored ≡ ok (saved, db')
          → IsSound decimal orders routes company_id db')
      → IsSound decimal orders routes company_id
          (committed js decimal text_of parse_date assigned_reason provider orders routes before
            stored).0
  committed-IsSound company_id before (err thrown) inv keeps = inv
  committed-IsSound company_id before (ok (saved, db')) inv keeps = keeps saved db' refl

  -- Building a route, whether it returns or throws, keeps the tables of routes sound.
  pub build_route-IsSound :
      (by : Caller) (dto : BuildRouteDto N) (db : DbOf)
      → IsPrimaryKey routes route_id_of
      → IsSound decimal orders routes by.company_id db
      → IsSound decimal orders routes by.company_id
          (build_route js decimal text_of parse_date assigned_reason provider orders routes by dto
            db).0
  unfolding build_route find_conflicting_route_points on_active_route
  build_route-IsSound by dto db fresh inv =
      let options = build_provider_options dto in
      let (saved, made) =
        plan_route js decimal text_of parse_date assigned_reason provider orders routes
          by.company_id dto.order_ids dto.courier_id options none db in
      let before = with_coordinates decimal orders routes by.company_id saved db in
      let kept = IsSound-same by.company_id db before refl refl inv in
      let store : PlannedRoute js decimal text_of parse_date assigned_reason provider orders routes
          → Result (RouteRecord N × DbOf) =
        λ m.
          store_new_route js decimal text_of parse_date assigned_reason provider orders routes by
            dto options m before in
      committed-IsSound by.company_id before (made >>= store) kept λ response db' h.
        let (m, e, h1) = bind_returns made store h in
        let (ids, free) =
          plan_route_lem js decimal text_of parse_date assigned_reason provider orders routes
            by.company_id dto.order_ids dto.courier_id options none db m e in
        store_new_route-IsSound by dto options m before response db' fresh
          (subst
            (λ is.
              length
                (find_conflicting_route_points decimal orders routes by.company_id before is none)
              ≡ 0)
            (sym ids) free)
          h1 kept
