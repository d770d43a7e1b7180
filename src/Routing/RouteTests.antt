-- ===== src/Routing/RouteTests.antt =====
-- Runs of the operations of backend/src/modules/routing/routing.service.ts on two sample orders.
use logistics_center.Base.{
  ℕ, ◌≡◌, refl, sym, ◌∙◌, inl, inr, true, false, none, some, List, [], ◌∷◌, ok, Option, Returns,
}
use logistics_center.Base.Text.{Text, codes}
use logistics_center.Values.{null}
use logistics_center.Database.{Table}
use logistics_center.Database.ListTable.{list_table}
use logistics_center.Database.PrimaryKey.{AreKeyed, keyed_table, keyed_table-IsPrimaryKey}
use logistics_center.Compensation.Ecma.{Ecma}
use logistics_center.Compensation.Naturals.{naturals}
use logistics_center.Orders.StateMachine.{confirmed}
use logistics_center.Orders.Columns.{Order}
use logistics_center.Routing.StateMachine.{
  draft, planned, is_terminal_order_status, is_route_editable_status, can_transition_route,
  allowed_route_transitions,
}
use logistics_center.Routing.Provider.{
  RouteOptions, RoutePoint, point, dropoff, build_updated_route_options, RouteResult, BuildRouteDto,
  UpdateRouteDto, driving, build_provider_options,
}
use logistics_center.Routing.Points.{
  RoutePointData, build_route_point_create_data, ordered_order_ids, point_rows, eta_by_point_id,
}
use logistics_center.Routing.Plan.{
  RouteOrder, resolve_route_plan, plan_orders, unique_ids, ordered_orders,
  resolve_order_coordinates, build_provider_points, order_points, decimal_to_required_number,
}
use logistics_center.Routing.Stored.{
  serialize_optimization_data, extract_stored_route_options, route_totals,
}
use logistics_center.Routing.StoredLaws.{
  extract-serialize_optimization_data, route_totals-serialize_optimization_data,
}
use logistics_center.Routing.Rows.{
  Route, RouteRecord, RoutingProvider, RoutingDb, find_conflicting_route_points, insert_point,
  is_active_route, on_active_route, plan_sources, points_of, save_coordinates, sort_points,
}
use logistics_center.Routing.Service.{
  Caller, PlannedRoute, build_route, plan_route, sync_couriers, store_new_route, new_route,
  route_has_plan_changes,
}
use logistics_center.Routing.Update.{
  update_route, update_plan, check_update, store_replanned_route, replan_route,
}
use logistics_center.Routing.Planned.{IsPlanned, plan_route-IsPlanned}
use logistics_center.Routing.Exclusive.{route_id_of, IsSound}
use logistics_center.Routing.Reachable.{here, next, built, updated, Reaches-IsSound}
use logistics_center.Routing.Updated.{IsUpdated}
use logistics_center.Routing.Updates.{update_route-IsUpdated}

abbrev decimal : ℕ → ℕ
decimal value = value

abbrev text_of : ℕ → Text
text_of id = id ∷ []

abbrev parse_date : Text → Option ℕ
parse_date t = some 0

-- The provider visits the points as they are given.
abbrev provider : RoutingProvider ℕ ℕ
provider = record {
  build_route = λ points options. ok (record {
    distance_meters = 1500;
    duration_seconds = 300;
    polyline = [];
    ordered_points = points;
    stops = [];
    legs = [];
    provider = codes "test";
    metadata = none;
  });
  geocode = λ address. ok (record { latitude = 60; longitude = 30 });
  to_number = λ d. d;
  find_courier = λ company_id id. none;
}

abbrev order_of : ℕ → Order ℕ ℕ
order_of id = record {
  id = id;
  company_id = 7;
  status = confirmed;
  external_id = none;
  order_number = none;
  customer_name = none;
  customer_phone = none;
  delivery_address = id;
  delivery_latitude = some 50;
  delivery_longitude = some 40;
  comment = none;
  scheduled_date = none;
  time_window_from = none;
  time_window_to = none;
  zone_id = none;
  assigned_courier_id = none;
  created_by_user_id = none;
  assigned_by_user_id = none;
  metadata = null;
}

abbrev routes : Table (Route ℕ)
routes = keyed_table route_id_of

abbrev caller : Caller
caller = record { request_id = none; company_id = 7; actor_user_id = 2; actor_role = 1 }

abbrev no_routes : RoutingDb decimal list_table routes
unfolding list_table keyed_table
no_routes = record {
  routes_rows = [];
  points = [];
  orders_db = record {
    rows = order_of 11 ∷ order_of 12 ∷ [];
    history = [];
    audit = [];
    events = [];
  };
  assignment_audit = [];
  route_events = [];
}

abbrev build_dto : BuildRouteDto ℕ
build_dto = record {
  courier_id = none;
  order_ids = 11 ∷ 12 ∷ [];
  route_date = 100;
  mode = none;
  optimize_waypoints = none;
  return_to_start = none;
  locale = none;
  metadata = none;
}

-- A new order of the points, and the status `planned`.
abbrev update_dto : UpdateRouteDto ℕ
update_dto = record {
  status = some planned;
  courier_id = none;
  order_ids = some (12 ∷ 11 ∷ []);
  route_date = none;
  mode = none;
  optimize_waypoints = none;
  return_to_start = none;
  locale = none;
  metadata = none;
}

empty-IsSound : IsSound decimal list_table routes 7 no_routes
unfolding list_table keyed_table
empty-IsSound = record {
  keyed = λ x y hx hy e. absurd hx;
  referenced = λ p m. absurd m;
  exclusive = λ p q mp mq. absurd mp;
}

Reaches-IsSound_example :
    IsSound decimal list_table routes 7
      (update_route naturals decimal text_of parse_date 0 provider list_table routes caller 1
        update_dto
        (build_route naturals decimal text_of parse_date 0 provider list_table routes caller
          build_dto no_routes).0).0
Reaches-IsSound_example =
    Reaches-IsSound naturals decimal text_of parse_date 0 provider list_table routes 7 no_routes
      (update_route naturals decimal text_of parse_date 0 provider list_table routes caller 1
        update_dto
        (build_route naturals decimal text_of parse_date 0 provider list_table routes caller
          build_dto no_routes).0).0
      (keyed_table-IsPrimaryKey route_id_of) empty-IsSound
      (next (next here (built caller build_dto no_routes refl)) (
        updated caller 1 update_dto
          (build_route naturals decimal text_of parse_date 0 provider list_table routes caller
            build_dto no_routes).0
          refl))

abbrev options : RouteOptions
options = record {
  mode = driving;
  optimize_waypoints = true;
  avoid_tolls = false;
  avoid_unpaved = false;
  departure_time = some 100;
  return_to_start = false;
  locale = none;
}

abbrev route_of : ℕ → Route ℕ
route_of version = record {
  id = 1;
  company_id = 7;
  courier_id = none;
  status = draft;
  version = version;
  route_date = 100;
  created_by_user_id = 2;
  optimization_data = null;
  metadata = null;
  deleted_at = none;
}

abbrev point_of : ℕ → ℕ → RoutePointData
point_of order_id sequence = record {
  company_id = 7;
  route_id = 1;
  order_id = order_id;
  sequence = sequence;
  planned_eta = none;
  actual_eta = none;
}

abbrev one_route : RoutingDb decimal list_table routes
unfolding list_table keyed_table
one_route = record no_routes {
  routes_rows = route_of 1 ∷ [];
  points = point_of 11 1 ∷ point_of 12 2 ∷ [];
}

build_route-Returns :
    Returns
      (build_route naturals decimal text_of parse_date 0 provider list_table routes caller build_dto
        no_routes).1
unfolding build_route list_table keyed_table store_new_route new_route plan_route resolve_route_plan
    plan_orders unique_ids ordered_orders is_terminal_order_status find_conflicting_route_points
    resolve_order_coordinates build_provider_points order_points decimal_to_required_number
    build_provider_options build_route_point_create_data ordered_order_ids point_rows
    eta_by_point_id sync_couriers insert_point is_active_route on_active_route plan_sources
    points_of save_coordinates sort_points
build_route-Returns = tt

-- The options that are read from a route without stored data, with a new order of its points.
abbrev updated_options : RouteOptions
updated_options = record options { optimize_waypoints = false; departure_time = some 100 }

abbrev dropoff_of : ℕ → RoutePoint ℕ
dropoff_of order_id = record {
  id = point order_id;
  order_id = some order_id;
  address = some order_id;
  coordinates = record { latitude = 50; longitude = 40 };
  point_type = dropoff;
}

abbrev result_of : List (RoutePoint ℕ) → RouteResult ℕ
result_of points = record {
  distance_meters = 1500;
  duration_seconds = 300;
  polyline = [];
  ordered_points = points;
  stops = [];
  legs = [];
  provider = codes "test";
  metadata = none;
}

abbrev updated_route : RouteRecord ℕ
updated_route = record {
  route = record (route_of 2) {
    status = planned;
    optimization_data =
        serialize_optimization_data naturals text_of
          (result_of (dropoff_of 12 ∷ dropoff_of 11 ∷ [])) updated_options;
  };
  route_points = point_of 12 1 ∷ point_of 11 2 ∷ [];
}

update_route_run :
    (update_route naturals decimal text_of parse_date 0 provider list_table routes caller 1
      update_dto one_route).1
    ≡ ok updated_route
unfolding update_route update_plan check_update route_has_plan_changes is_route_editable_status
    can_transition_route allowed_route_transitions store_replanned_route replan_route
    extract_stored_route_options build_updated_route_options list_table keyed_table plan_route
    resolve_route_plan plan_orders unique_ids ordered_orders is_terminal_order_status
    find_conflicting_route_points resolve_order_coordinates build_provider_points order_points
    decimal_to_required_number build_provider_options build_route_point_create_data
    ordered_order_ids point_rows eta_by_point_id sync_couriers insert_point is_active_route
    on_active_route plan_sources points_of save_coordinates sort_points
update_route_run = refl

one-AreKeyed : AreKeyed routes route_id_of one_route.routes_rows
unfolding list_table keyed_table
one-AreKeyed = λ x y hx hy same. elim hx [
  | inl e ↦ elim hy [ inl f ↦ e ∙ sym f | inr n ↦ absurd n ]
  | inr n ↦ absurd n
]

update_route-IsUpdated_example :
    (current : Route ℕ) × IsUpdated naturals decimal text_of parse_date 0 provider list_table routes
      7 1 update_dto current one_route
      (update_route naturals decimal text_of parse_date 0 provider list_table routes caller 1
        update_dto one_route).0
      updated_route
update_route-IsUpdated_example =
    update_route-IsUpdated naturals decimal text_of parse_date 0 provider list_table routes caller 1
      update_dto one_route updated_route one-AreKeyed update_route_run

-- Dates whose text is one character.
abbrev dated : Ecma
dated = record naturals { to_iso_string = λ t. t ∷ [] }

abbrev read_first : Text → Option ℕ
read_first [] = none
read_first (t ∷ ts) = some t

extract-serialize_optimization_data_example :
    extract_stored_route_options dated text_of read_first
      (serialize_optimization_data dated text_of (result_of []) options)
      8
    ≡ record options { departure_time = some 100 }
extract-serialize_optimization_data_example =
    extract-serialize_optimization_data dated text_of read_first (result_of []) options 8
      (λ d. refl)

stored_totals_run :
    route_totals naturals text_of
      (serialize_optimization_data naturals text_of (result_of []) options)
    ≡ record {
      total_distance_meters = some 1500;
      total_duration_seconds = some 300;
      provider = some (codes "test");
      polyline = [];
    }
stored_totals_run =
    route_totals-serialize_optimization_data naturals text_of (result_of []) options refl refl refl

-- A plan for the stored orders.
abbrev planned_point : ℕ → RoutePoint ℕ
planned_point id = record {
  id = point id;
  order_id = some id;
  address = some id;
  coordinates = record { latitude = 50; longitude = 40 };
  point_type = dropoff;
}

abbrev planned_order : ℕ → RouteOrder ℕ
planned_order id = record {
  id = id;
  company_id = 7;
  status = confirmed;
  delivery_address = id;
  delivery_latitude = some 50;
  delivery_longitude = some 40;
  assigned_courier_id = none;
}

abbrev made_plan : PlannedRoute naturals decimal text_of parse_date 0 provider list_table routes
made_plan = record {
  plan = record {
    orders = planned_order 11 ∷ planned_order 12 ∷ [];
    provider_points = planned_point 11 ∷ planned_point 12 ∷ [];
    courier_of_plan = none;
  };
  result = record {
    distance_meters = 1500;
    duration_seconds = 300;
    polyline = [];
    ordered_points = planned_point 11 ∷ planned_point 12 ∷ [];
    stops = [];
    legs = [];
    provider = codes "test";
    metadata = none;
  };
}

plan_route_run :
    (plan_route naturals decimal text_of parse_date 0 provider list_table routes 7
      (11 ∷ 12 ∷ [])
      none
      options
      none
      no_routes).1
    ≡ ok made_plan
unfolding plan_route plan_sources resolve_route_plan plan_orders unique_ids ordered_orders
    resolve_order_coordinates order_points decimal_to_required_number build_provider_points
    is_terminal_order_status find_conflicting_route_points on_active_route is_active_route
    list_table keyed_table no_routes
plan_route_run = refl

plan_route-IsPlanned_example :
    IsPlanned decimal list_table routes 7 (11 ∷ 12 ∷ []) none options no_routes made_plan.plan
plan_route-IsPlanned_example =
    plan_route-IsPlanned naturals decimal text_of parse_date 0 provider list_table routes 7
      (11 ∷ 12 ∷ []) none options none no_routes made_plan plan_route_run
