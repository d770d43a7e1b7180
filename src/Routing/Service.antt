-- ===== src/Routing/Service.antt =====
-- The operations of backend/src/modules/routing/routing.service.ts. Coordinates that are looked up for a
-- plan are stored before the transaction that stores the route, so an operation returns the tables also
-- where it throws.
use logistics_center.Base.{
  ℕ, ◌+◌, Bool, true, false, not, ◌&&◌, ◌||◌, Option, none, some, List, [], ◌∷◌, ◌++◌, ◌==◌, ◌==?◌,
  ltb, leb, map, is_some, truthy, get_or, if◌then◌else◌, Result, ok, err, bad_request, not_found,
  ◌>>=◌, throw_if, or_throw,
}
use logistics_center.Base.Text.{Text}
use logistics_center.Values.{null}
use logistics_center.Database.{Table}
use logistics_center.Compensation.Ecma.{Ecma}
use logistics_center.Orders.Columns.{Order}
use logistics_center.Routing.StateMachine.{
  RouteStatus, draft, route_status_eq, can_transition_route, is_route_editable_status,
}
use logistics_center.Routing.Provider.{
  RouteOptions, RouteResult, BuildRouteDto, UpdateRouteDto, build_provider_options,
}
use logistics_center.Routing.Plan.{
  RouteOrder, SavedCoordinates, ResolvedRoutePlan, resolve_route_plan,
}
use logistics_center.Routing.Points.{build_route_point_create_data}
use logistics_center.Routing.Stored.{serialize_optimization_data}
use logistics_center.Routing.Assignment.{RouteAssignment, sync_route_orders_with_courier}
use logistics_center.Routing.Rows.{
  Route, RouteRecord, RouteEvent, route_built, RoutingProvider, RoutingDb, is_route, is_kept,
  plan_sources, with_coordinates, route_record,
}

-- Who calls: the actor and its role, and the request of the tenant context.
pub record Caller : Type 0 where
  pub request_id : Option ℕ
  pub company_id : ℕ
  pub actor_user_id : ℕ
  pub actor_role : ℕ

abbrev pub assignment_by : Caller → ℕ → ℕ → RouteAssignment
assignment_by by route_id courier_id = record {
  request_id = by.request_id;
  company_id = by.company_id;
  actor_user_id = by.actor_user_id;
  actor_role = by.actor_role;
  route_id = route_id;
  courier_id = courier_id;
}

-- `isRouteEditableStatus` decides both `ensureRouteEditable` and `ensureRouteDeletable`.
abbrev pub ensure_route_editable : RouteStatus → Result (Unit {0})
ensure_route_editable status = throw_if (not (is_route_editable_status status)) bad_request

-- `dto.status !== undefined && dto.status !== current && !canTransitionRoute(current, dto.status)`
abbrev pub is_refused_transition : RouteStatus → Option RouteStatus → Bool
is_refused_transition current none = false
is_refused_transition current (some status) =
    not (route_status_eq status current) && not (can_transition_route current status)

module _ {N : Type 0} where
  unfoldable pub route_has_plan_changes : UpdateRouteDto N → Route N → Bool
  route_has_plan_changes dto current_route =
      is_some dto.order_ids
      || is_some dto.route_date
      || is_some dto.mode
      || is_some dto.optimize_waypoints
      || is_some dto.return_to_start
      || is_some dto.locale
      || (is_some dto.courier_id && not (get_or dto.courier_id none ==? current_route.courier_id))

module _ (js : Ecma) {Decimal : Type 0} (decimal : js.N → Decimal) (text_of : ℕ → Text)
    (parse_date : Text → Option ℕ) (assigned_reason : ℕ) (provider : RoutingProvider js.N Decimal)
    (orders : Table (Order js.N Decimal)) (routes : Table (Route js.N)) where
  open js use {N}

  abbrev pub Db : Type 0
  Db = RoutingDb decimal orders routes

  -- An operation that may throw after it has written.
  abbrev pub Outcome : Type 0
  Outcome = Db × Result (RouteRecord N)

  abbrev pub committed : Db → Result (RouteRecord N × Db) → Outcome
  committed before (ok (r, after)) = (after, ok r)
  committed before (err thrown) = (before, err thrown)

  -- The plan of a route, and the answer of the provider to it.
  pub record PlannedRoute : Type 0 where
    pub plan : ResolvedRoutePlan N Decimal
    pub result : RouteResult N

  unfoldable pub plan_route :
      ℕ
      → List ℕ
      → Option ℕ
      → RouteOptions
      → Option ℕ
      → Db
      → List (SavedCoordinates Decimal) × Result PlannedRoute
  unfolding plan_sources
  plan_route company_id order_ids courier_id options exclude_route_id db =
      let (saved, resolved) =
        resolve_route_plan (plan_sources decimal orders routes provider company_id db) company_id
          order_ids courier_id options exclude_route_id in
      (
        saved,
        resolved >>= λ plan. provider.build_route plan.provider_points options >>= λ result.
            ok (record { plan = plan; result = result }),
      )

  -- `syncRouteOrdersWithCourier` in the transaction, on the tables of the orders. Its events are kept
  -- with the orders', apart from those of routes.
  unfoldable pub sync_couriers : Caller → ℕ → Option ℕ → List (RouteOrder Decimal) → Db → Result Db
  sync_couriers by route_id courier_id plan_orders db =
      if truthy courier_id
      then (sync_route_orders_with_courier decimal orders text_of assigned_reason
            (assignment_by by route_id (get_or courier_id 0)) plan_orders
            (record {
              orders_db = db.orders_db;
              assignment_audit = db.assignment_audit;
              status_changed_events = db.orders_db.events;
            })
          >>= λ s. ok (record db {
            orders_db = record s.orders_db { events = s.status_changed_events };
            assignment_audit = s.assignment_audit;
          }))
      else ok db

  abbrev pub find_route : ℕ → ℕ → Db → Option (Route N)
  find_route company_id route_id db =
      routes.find_first (λ r. is_route company_id route_id r && is_kept r) db.routes_rows

  -- The read at the end of a transaction.
  abbrev pub saved_route : ℕ → ℕ → Db → Result (RouteRecord N)
  saved_route company_id route_id db =
      or_throw (routes.find_first (is_route company_id route_id) db.routes_rows) not_found >>= λ r.
      ok (route_record decimal orders routes company_id db r)

  unfoldable pub new_route : Caller → BuildRouteDto N → RouteOptions → RouteResult N → ℕ → Route N
  new_route by dto options result id = record {
    id = id;
    company_id = by.company_id;
    courier_id = dto.courier_id;
    status = draft;
    version = 1;
    route_date = dto.route_date;
    created_by_user_id = by.actor_user_id;
    optimization_data = serialize_optimization_data js text_of result options;
    metadata = get_or dto.metadata null;
    deleted_at = none;
  }

  abbrev pub emit : RouteEvent N → Db → Db
  emit event db = record db { route_events = db.route_events ++ (event ∷ []) }

  -- The transaction of `buildRoute`, and the event after it.
  unfoldable pub store_new_route :
      Caller → BuildRouteDto N → RouteOptions → PlannedRoute → Db → Result (RouteRecord N × Db)
  store_new_route by dto options made db = do
    let (r, rows') = routes.create (new_route by dto options made.result) db.routes_rows
    points ← build_route_point_create_data by.company_id r.id made.plan.orders made.result
    db' ←
        sync_couriers by r.id dto.courier_id made.plan.orders
          (record db { routes_rows = rows'; points = db.points ++ points })
    saved ← saved_route by.company_id r.id db'
    ok (saved, emit (route_built by.request_id by.actor_user_id saved) db')

  unfoldable pub build_route : Caller → BuildRouteDto N → Db → Outcome
  build_route by dto db =
      let options = build_provider_options dto in
      let (saved, made) = plan_route by.company_id dto.order_ids dto.courier_id options none db in
      let before = with_coordinates decimal orders routes by.company_id saved db in
      committed before (made >>= λ m. store_new_route by dto options m before)

  unfoldable pub preview_route : ℕ → BuildRouteDto N → Db → Db × Result (RouteResult N)
  preview_route company_id dto db =
      let (saved, made) =
        plan_route company_id dto.order_ids dto.courier_id (build_provider_options dto) none db in
      (with_coordinates decimal orders routes company_id saved db, made >>= λ m. ok m.result)

  unfoldable pub get_route : ℕ → ℕ → Db → Result (RouteRecord N)
  get_route company_id route_id db = or_throw (find_route company_id route_id db) not_found >>= λ r.
      ok (route_record decimal orders routes company_id db r)

  -- `where` of `listRoutes`: the date is the start of a day, in milliseconds. A missing condition is
  -- `none`; an identifier that is empty is none either.
  abbrev pub on_date : Option ℕ → Route N → Bool
  on_date none r = true
  on_date (some start) r = leb start r.route_date && ltb r.route_date (start + 86_400_000)

  abbrev pub of_status : Option RouteStatus → Route N → Bool
  of_status none r = true
  of_status (some status) r = route_status_eq r.status status

  abbrev pub of_courier : Option ℕ → Route N → Bool
  of_courier courier_id r = if truthy courier_id then r.courier_id ==? courier_id else true

  unfoldable pub list_routes :
      ℕ → Option RouteStatus → Option ℕ → Option ℕ → Db → List (RouteRecord N)
  list_routes company_id status courier_id date db =
      map (route_record decimal orders routes company_id db) (
        routes.find_many
          (λ r.
            r.company_id == company_id
            && (is_kept r && (of_status status r && (of_courier courier_id r && on_date date r))))
          db.routes_rows)
