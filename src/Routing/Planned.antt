-- ===== src/Routing/Planned.antt =====
-- The plans that backend/src/modules/routing/routing.service.ts makes from its tables.
use logistics_center.Base.{
  ℕ, ◌≤◌, ◌≡◌, refl, sym, ap, subst, ◌∙◌, inl, inr, true, false, ◌&&◌, &&_iff, ==_iff, Option, none,
  some, List, [], ◌∷◌, ◌==◌, map, length, contains, Elem, Distinct, When, Bool-cases, ok,
  bind_returns, ok_injective, arith,
}
use logistics_center.Base.Text.{Text}
use logistics_center.Database.{Table}
use logistics_center.Compensation.Ecma.{Ecma}
use logistics_center.Orders.StateMachine.{
  OrderStatus, new, confirmed, assigned, handed_over, in_transit, delivered, undelivered, returned,
  cancelled,
}
use logistics_center.Orders.Columns.{Order}
use logistics_center.Routing.StateMachine.{
  RouteStatus, draft, planned, in_progress, completed, route_cancelled, is_terminal_order_status,
}
use logistics_center.Routing.Provider.{RouteOptions}
use logistics_center.Routing.Plan.{
  RouteOrder, ResolvedRoutePlan, starts_with_courier, resolve_route_plan,
}
use logistics_center.Routing.Points.{RoutePointData, ordered_order_ids}
use logistics_center.Routing.Resolved.{IsResolved}
use logistics_center.Routing.Planning.{resolve_route_plan-IsResolved}
use logistics_center.Routing.Rows.{
  Route, RoutingProvider, RoutingDb, is_active_route, not_of_route, route_order, plan_sources,
}
use logistics_center.Routing.Exclusive.{free_of_conflicts}
use logistics_center.Routing.Service.{Db, PlannedRoute, plan_route}

-- The order is still to be delivered.
abbrev pub IsOpen : OrderStatus → Type 0
IsOpen new = Unit
IsOpen confirmed = Unit
IsOpen assigned = Unit
IsOpen handed_over = Unit
IsOpen in_transit = Unit
IsOpen delivered = ⊥
IsOpen undelivered = ⊥
IsOpen returned = ⊥
IsOpen cancelled = ⊥

-- The route is neither completed nor cancelled.
abbrev pub IsRunning : RouteStatus → Type 0
IsRunning draft = Unit
IsRunning planned = Unit
IsRunning in_progress = Unit
IsRunning completed = ⊥
IsRunning route_cancelled = ⊥

not_terminal-IsOpen : (s : OrderStatus) → is_terminal_order_status s ≡ false → IsOpen s
unfolding is_terminal_order_status
not_terminal-IsOpen new h = tt
not_terminal-IsOpen confirmed h = tt
not_terminal-IsOpen assigned h = tt
not_terminal-IsOpen handed_over h = tt
not_terminal-IsOpen in_transit h = tt
not_terminal-IsOpen delivered h = cc
not_terminal-IsOpen undelivered h = cc
not_terminal-IsOpen returned h = cc
not_terminal-IsOpen cancelled h = cc

running_active :
    {N : Type 0} (r : Route N) (s : RouteStatus)
    → r.status ≡ s
    → r.deleted_at ≡ none
    → IsRunning s
    → is_active_route r ≡ true
unfolding is_active_route
running_active r draft e d h = rw d (rw e refl)
running_active r planned e d h = rw d (rw e refl)
running_active r in_progress e d h = rw d (rw e refl)
running_active r completed e d h = absurd h
running_active r route_cancelled e d h = absurd h

Elem-map_from :
    {A B : Type 0} (f : A → B) (xs : List A) (b : B)
    → Elem b (map f xs)
    → (a : A) × Elem a xs × (b ≡ f a)
Elem-map_from f [] b m = absurd m
Elem-map_from f (x ∷ xs) b (inl e) = (x, inl refl, e)
Elem-map_from f (x ∷ xs) b (inr m) = let (a, has, e) = Elem-map_from f xs b m in (a, inr has, e)

module _ {N Decimal : Type 0} (decimal : N → Decimal) (orders : Table (Order N Decimal))
    (routes : Table (Route N)) where
  -- What is promised of a plan that is made from the tables.
  pub record IsPlanned (company_id : ℕ) (order_ids : List ℕ) (exclude : Option ℕ)
      (options : RouteOptions) (db : RoutingDb decimal orders routes)
      (plan : ResolvedRoutePlan N Decimal) : Type 0 where
    pub planned_ids : map (λ o. o.id) plan.orders ≡ order_ids
    pub distinct : Distinct order_ids
    pub stored :
        (o : RouteOrder Decimal)
        → Elem o plan.orders
        → (row : Order N Decimal) × orders.Has db.orders_db.rows row
          × (row.company_id ≡ company_id)
          × (row.id ≡ o.id)
          × IsOpen row.status
    pub free :
        (p : RoutePointData) (r : Route N)
        → Elem p db.points
        → p.company_id ≡ company_id
        → Elem p.order_id order_ids
        → routes.Has db.routes_rows r
        → r.id ≡ p.route_id
        → r.deleted_at ≡ none
        → IsRunning r.status
        → exclude ≡ some p.route_id
    pub visited : ordered_order_ids plan.provider_points ≡ order_ids
    pub enough : 2 ≤ length plan.provider_points
    pub start : When options.return_to_start (starts_with_courier plan.provider_points ≡ true)

  excluded :
      (exclude : Option ℕ) (p : RoutePointData)
      → not_of_route decimal orders routes exclude p ≡ false
      → exclude ≡ some p.route_id
  excluded none p h = cc
  excluded (some k) p h =
      let same : (p.route_id == k) ≡ true = ground (arith, h) in
      ap some (sym ((==_iff p.route_id k).0 same))

  resolved-IsPlanned :
      (provider : RoutingProvider N Decimal) (company_id : ℕ) (order_ids : List ℕ)
      (exclude : Option ℕ) (options : RouteOptions) (db : RoutingDb decimal orders routes)
      (plan : ResolvedRoutePlan N Decimal)
      → IsResolved
          (plan_sources decimal orders routes provider company_id db)
          order_ids
          exclude
          options
          plan
      → IsPlanned company_id order_ids exclude options db plan
  unfolding plan_sources
  resolved-IsPlanned provider company_id order_ids exclude options db plan is = record {
    planned_ids = is.planned;
    distinct = is.distinct;
    stored = λ o m.
        let (x, among, same_id, same_status) = is.sourced o m in
        let rows =
          orders.find_many (λ r. r.company_id == company_id && contains r.id order_ids)
            db.orders_db.rows in
        let (row, found, e) = Elem-map_from (route_order decimal orders routes) rows x among in
        let (has, meets) = orders.find_many_sound _ db.orders_db.rows row found in
        let (own, _) = (&&_iff (row.company_id == company_id) _).0 meets in
        let status : o.status ≡ row.status = same_status ∙ ap (λ y. y.status) e in
        (
          row,
          has,
          (==_iff row.company_id company_id).0 own,
          sym (same_id ∙ ap (λ y. y.id) e),
          subst IsOpen status (not_terminal-IsOpen o.status (is.open_orders o m)),
        );
    free = λ p r m own named has id kept running.
        elim (Bool-cases (not_of_route decimal orders routes exclude p)) [
          | inl other ↦ absurd (
              free_of_conflicts decimal orders routes company_id db order_ids exclude p is.free m
                own named other (r, has, id, running_active r r.status refl kept running))
          | inr same ↦ excluded exclude p same
        ];
    visited = is.visited;
    enough = is.enough;
    start = is.start;
  }

module _ (js : Ecma) {Decimal : Type 0} (decimal : js.N → Decimal) (text_of : ℕ → Text)
    (parse_date : Text → Option ℕ) (assigned_reason : ℕ) (provider : RoutingProvider js.N Decimal)
    (orders : Table (Order js.N Decimal)) (routes : Table (Route js.N)) where
  -- A plan that is made for a company has exactly the requested orders, in the requested order and without
  -- repetition. Each is a stored order of the company that is not delivered, undelivered, returned or
  -- cancelled; and a point of the company for one of them, on a route that is not deleted and is a
  -- draft, planned or in progress, can only be of the route that is being updated. The provider is
  -- given each order once, in that order, and at least two points, which start at the courier where the
  -- route is to return to its start.
  pub plan_route-IsPlanned :
      (company_id : ℕ) (order_ids : List ℕ) (courier_id : Option ℕ) (options : RouteOptions)
      (exclude : Option ℕ)
      (db : Db js decimal text_of parse_date assigned_reason provider orders routes)
      (made : PlannedRoute js decimal text_of parse_date assigned_reason provider orders routes)
      → (plan_route js decimal text_of parse_date assigned_reason provider orders routes company_id
          order_ids courier_id options exclude db).1
        ≡ ok made
      → IsPlanned decimal orders routes company_id order_ids exclude options db made.plan
  unfolding plan_route
  plan_route-IsPlanned company_id order_ids courier_id options exclude db made h =
      let sources = plan_sources decimal orders routes provider company_id db in
      let resolved =
        (resolve_route_plan sources company_id order_ids courier_id options exclude).1 in
      let (plan, e, h1) = bind_returns resolved _ h in
      let (result, _, h2) = bind_returns (provider.build_route plan.provider_points options) _ h1 in
      let is =
        resolve_route_plan-IsResolved sources company_id order_ids courier_id options exclude plan
          e in
      subst (λ m. IsPlanned decimal orders routes company_id order_ids exclude options db m.plan)
        (ok_injective (record { plan = plan; result = result }) made h2)
        (resolved-IsPlanned decimal orders routes provider company_id order_ids exclude options db
          plan is)
