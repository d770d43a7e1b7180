-- ===== src/Routing/Replacing.antt =====
-- What the transactions of backend/src/modules/routing/routing.service.ts rest on: the plan of a route,
-- the rows of its points, and the assignment of its orders to a courier.
use logistics_center.Base.{
  ℕ, ◌≡◌, sym, ap, subst, ◌∙◌, ◌⊎◌, inl, inr, Option, List, [], ◌∷◌, ◌++◌, map, length, truthy,
  get_or, Elem, Bool-cases, ok, bind_returns, ok_injective,
}
use logistics_center.Base.Text.{Text}
use logistics_center.Database.{Table}
use logistics_center.Compensation.Ecma.{Ecma}
use logistics_center.Orders.Columns.{Order}
use logistics_center.Routing.Provider.{RouteOptions, RouteResult}
use logistics_center.Routing.Plan.{RouteOrder, resolve_route_plan}
use logistics_center.Routing.Points.{RoutePointData, build_route_point_create_data}
use logistics_center.Routing.Sequence.{build_route_point_create_data-IsSequence}
use logistics_center.Routing.Planning.{resolve_route_plan-IsResolved}
use logistics_center.Routing.Assignment.{sync_route_orders_with_courier}
use logistics_center.Routing.Rows.{
  Route, RoutingProvider, plan_sources, find_conflicting_route_points,
}
use logistics_center.Routing.Service.{
  Caller, Db, PlannedRoute, plan_route, sync_couriers, assignment_by,
}

pub Elem-append : {A : Type 0} (a : A) (xs ys : List A) → Elem a (xs ++ ys) → Elem a xs ⊎ Elem a ys
Elem-append a [] ys m = inr m
Elem-append a (x ∷ xs) ys (inl e) = inl (inl e)
Elem-append a (x ∷ xs) ys (inr m) = elim (Elem-append a xs ys m) [
  | inl k ↦ inl (inr k)
  | inr k ↦ inr k
]

Elem-order_id :
    (r : RoutePointData) (rows : List RoutePointData)
    → Elem r rows
    → Elem r.order_id (map (λ x. x.order_id) rows)
Elem-order_id r [] m = absurd m
Elem-order_id r (x ∷ xs) (inl e) = inl (ap (λ y. y.order_id) e)
Elem-order_id r (x ∷ xs) (inr m) = inr (Elem-order_id r xs m)

-- Each row is of the route, and for an order of the plan.
pub rows_of_plan :
    {N Decimal : Type 0} (company_id route_id : ℕ) (os : List (RouteOrder Decimal))
    (result : RouteResult N) (rows : List RoutePointData) (r : RoutePointData)
    → build_route_point_create_data company_id route_id os result ≡ ok rows
    → Elem r rows
    → (r.route_id ≡ route_id) × (r.company_id ≡ company_id) × Elem r.order_id (map (λ o. o.id) os)
rows_of_plan company_id route_id os result rows r h m =
    let (sequence, _) =
      build_route_point_create_data-IsSequence company_id route_id os result rows h in
    let (company, route) = sequence.owned r m in
    let visited = subst (Elem r.order_id) sequence.visited (Elem-order_id r rows m) in
    (route, company, sequence.known r.order_id visited)

module _ (js : Ecma) {Decimal : Type 0} (decimal : js.N → Decimal) (text_of : ℕ → Text)
    (parse_date : Text → Option ℕ) (assigned_reason : ℕ) (provider : RoutingProvider js.N Decimal)
    (orders : Table (Order js.N Decimal)) (routes : Table (Route js.N)) where
  open js use {N}

  abbrev DbOf : Type 0
  DbOf = Db js decimal text_of parse_date assigned_reason provider orders routes

  -- A plan is for the orders that it is made for, and nothing conflicts with it.
  pub plan_route_lem :
      (company_id : ℕ) (order_ids : List ℕ) (courier_id : Option ℕ) (options : RouteOptions)
      (exclude : Option ℕ) (db : DbOf)
      (made : PlannedRoute js decimal text_of parse_date assigned_reason provider orders routes)
      → (plan_route js decimal text_of parse_date assigned_reason provider orders routes company_id
          order_ids courier_id options exclude db).1
        ≡ ok made
      → (map (λ o. o.id) made.plan.orders ≡ order_ids)
        × (length
              (find_conflicting_route_points decimal orders routes company_id db order_ids exclude)
            ≡ 0)
  unfolding plan_route plan_sources
  plan_route_lem company_id order_ids courier_id options exclude db made h =
      let sources = plan_sources decimal orders routes provider company_id db in
      let resolved =
        (resolve_route_plan sources company_id order_ids courier_id options exclude).1 in
      let (plan, e, h1) = bind_returns resolved _ h in
      let (result, _, h2) = bind_returns (provider.build_route plan.provider_points options) _ h1 in
      let is =
        resolve_route_plan-IsResolved sources company_id order_ids courier_id options exclude plan
          e in
      let same = ok_injective (record { plan = plan; result = result }) made h2 in
      (ap (λ m. map (λ o. o.id) m.plan.orders) (sym same) ∙ is.planned, is.free)

  -- The assignment of orders leaves the routes and their points.
  pub sync_couriers-keeps :
      (by : Caller) (route_id : ℕ) (courier_id : Option ℕ) (os : List (RouteOrder Decimal))
      (db db' : DbOf)
      → sync_couriers js decimal text_of parse_date assigned_reason provider orders routes by
          route_id courier_id os db
        ≡ ok db'
      → (db'.routes_rows ≡ db.routes_rows) × (db'.points ≡ db.points)
  unfolding sync_couriers
  sync_couriers-keeps by route_id courier_id os db db' h = elim (Bool-cases (truthy courier_id)) [
    | inl t ↦
        let loop = rw t at h in
        let (s, _, e) =
          bind_returns
            (sync_route_orders_with_courier decimal orders text_of assigned_reason
              (assignment_by by route_id (get_or courier_id 0)) os
              (record {
                orders_db = db.orders_db;
                assignment_audit = db.assignment_audit;
                status_changed_events = db.orders_db.events;
              }))
            _ loop in
        let same = ok_injective _ db' e in
        (sym (ap (λ d. d.routes_rows) same), sym (ap (λ d. d.points) same))
    | inr f ↦
        let stays = rw f at h in
        let same = ok_injective db db' stays in
        (sym (ap (λ d. d.routes_rows) same), sym (ap (λ d. d.points) same))
  ]
