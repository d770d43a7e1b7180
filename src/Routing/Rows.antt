-- ===== src/Routing/Rows.antt =====
-- The tables that backend/src/modules/routing/routing.service.ts reads and writes: routes and their
-- points, and the orders with what is recorded of them. Each query has the company that the tenant
-- context adds to it.
use logistics_center.Base.{
  ℕ, Bool, true, not, ◌&&◌, Option, none, some, List, [], ◌∷◌, ◌==◌, contains, leb, map, filter,
  is_some, truthy, get_or, if◌then◌else◌, Result,
}
use logistics_center.Values.{Value}
use logistics_center.Database.{Table}
use logistics_center.Orders.Columns.{Order}
use logistics_center.Orders.Service.{OrdersDb, is_order}
use logistics_center.Routing.StateMachine.{
  RouteStatus, draft, planned, in_progress, includes_route_status,
}
use logistics_center.Routing.Provider.{Coordinates, RoutePoint, RouteOptions, RouteResult}
use logistics_center.Routing.Plan.{RouteOrder, RouteCourier, SavedCoordinates, PlanSources}
use logistics_center.Routing.Points.{RoutePointData}
use logistics_center.Routing.Assignment.{AssignmentAudit}

-- `routeSelect`, and the time of deletion.
pub record Route (N : Type 0) : Type 0 where
  pub id : ℕ
  pub company_id : ℕ
  pub courier_id : Option ℕ
  pub status : RouteStatus
  pub version : ℕ
  pub route_date : ℕ
  pub created_by_user_id : ℕ
  pub optimization_data : Value N
  pub metadata : Value N
  pub deleted_at : Option ℕ

-- A route with its points, which is returned before `mapRoute` renames the columns.
pub record RouteRecord (N : Type 0) : Type 0 where
  pub route : Route N
  pub route_points : List RoutePointData

pub data RouteEvent (N : Type 0) : Type 0 where
  route_built : Option ℕ → ℕ → RouteRecord N → RouteEvent N
  route_updated : Option ℕ → ℕ → RouteStatus → RouteRecord N → RouteEvent N
  route_cancelled_event : Option ℕ → ℕ → RouteStatus → RouteRecord N → RouteEvent N

-- `ACTIVE_ROUTE_STATUSES`
abbrev pub active_route_statuses : List RouteStatus
active_route_statuses = draft ∷ planned ∷ in_progress ∷ []

-- The provider, `Prisma.Decimal` and the table of couriers.
pub record RoutingProvider (N Decimal : Type 0) : Type 0 where
  pub build_route : List (RoutePoint N) → RouteOptions → Result (RouteResult N)
  pub geocode : ℕ → Result (Coordinates N)
  pub to_number : Decimal → N
  pub find_courier : ℕ → ℕ → Option (RouteCourier Decimal)

module _ {N : Type 0} where
  -- `deleted_at: null`
  abbrev pub is_kept : Route N → Bool
  is_kept r = not (is_some r.deleted_at)

  unfoldable pub is_active_route : Route N → Bool
  is_active_route r = is_kept r && includes_route_status active_route_statuses r.status

  abbrev pub is_route : ℕ → ℕ → Route N → Bool
  is_route company_id route_id r = r.company_id == company_id && r.id == route_id

-- `orderBy: { sequence: 'asc' }`
unfoldable pub insert_point : RoutePointData → List RoutePointData → List RoutePointData
insert_point p [] = p ∷ []
insert_point p (q ∷ qs) =
    let rest = insert_point p qs in if leb p.sequence q.sequence then p ∷ q ∷ qs else q ∷ rest

unfoldable pub sort_points : List RoutePointData → List RoutePointData
unfolding insert_point
sort_points [] = []
sort_points (p ∷ ps) = insert_point p (sort_points ps)

-- The points that a route is read with.
unfoldable pub points_of : ℕ → ℕ → List RoutePointData → List RoutePointData
unfolding sort_points
points_of company_id route_id points =
    sort_points (filter (λ p. p.company_id == company_id && p.route_id == route_id) points)

module _ {N Decimal : Type 0} (decimal : N → Decimal) (orders : Table (Order N Decimal))
    (routes : Table (Route N)) where
  pub record RoutingDb : Type 0 where
    pub routes_rows : routes.State
    pub points : List RoutePointData
    pub orders_db : OrdersDb decimal orders
    pub assignment_audit : List (AssignmentAudit N)
    pub route_events : List (RouteEvent N)

  -- `route: { deleted_at: null, status: { in: [...ACTIVE_ROUTE_STATUSES] } }` of a point
  unfoldable pub on_active_route : RoutingDb → RoutePointData → Bool
  on_active_route db p =
      is_some (routes.find_first (λ r. r.id == p.route_id && is_active_route r) db.routes_rows)

  abbrev pub not_of_route : Option ℕ → RoutePointData → Bool
  not_of_route exclude_route_id p =
      if truthy exclude_route_id then not (p.route_id == get_or exclude_route_id 0) else true

  -- The query of `ensureOrdersNotAssignedToActiveRoutes`, with the filter by company that
  -- applyTenantIsolation adds
  unfoldable pub find_conflicting_route_points : ℕ → RoutingDb → List ℕ → Option ℕ → List (ℕ × ℕ)
  find_conflicting_route_points company_id db order_ids exclude_route_id =
      map (λ p. (p.order_id, p.route_id))
        (filter
          (λ p.
            p.company_id == company_id
            && (contains p.order_id order_ids
                && (not_of_route exclude_route_id p && on_active_route db p)))
          db.points)

  -- `orderForRouteSelect`
  abbrev pub route_order : Order N Decimal → RouteOrder Decimal
  route_order o = record {
    id = o.id;
    company_id = o.company_id;
    status = o.status;
    delivery_address = o.delivery_address;
    delivery_latitude = o.delivery_latitude;
    delivery_longitude = o.delivery_longitude;
    assigned_courier_id = o.assigned_courier_id;
  }

  unfoldable pub plan_sources : RoutingProvider N Decimal → ℕ → RoutingDb → PlanSources N Decimal
  plan_sources provider company_id db = record {
    find_orders = λ ids.
        map route_order (
          orders.find_many (λ o. o.company_id == company_id && contains o.id ids)
            db.orders_db.rows);
    find_conflicting_route_points = find_conflicting_route_points company_id db;
    find_courier = provider.find_courier company_id;
    decimal = decimal;
    to_number = provider.to_number;
    geocode = provider.geocode;
  }

  -- `order.update` of `resolveOrderCoordinates`
  abbrev pub place_order : SavedCoordinates Decimal → Order N Decimal → Order N Decimal
  place_order saved o = record o {
    delivery_latitude = some saved.latitude;
    delivery_longitude = some saved.longitude;
  }

  abbrev pub written : {A B : Type 0} → Option (A × B) → B → B
  written none b = b
  written (some out) b = out.1

  unfoldable pub save_coordinates :
      ℕ → List (SavedCoordinates Decimal) → orders.State → orders.State
  save_coordinates company_id [] rows = rows
  save_coordinates company_id (saved ∷ more) rows = save_coordinates company_id more (
      written
        (orders.update (is_order decimal orders company_id saved.order_id) (place_order saved) rows)
        rows)

  abbrev pub with_coordinates : ℕ → List (SavedCoordinates Decimal) → RoutingDb → RoutingDb
  with_coordinates company_id saved db = record db {
    orders_db = record db.orders_db { rows = save_coordinates company_id saved db.orders_db.rows };
  }

  abbrev pub route_record : ℕ → RoutingDb → Route N → RouteRecord N
  route_record company_id db r = record {
    route = r;
    route_points = points_of company_id r.id db.points;
  }
