-- ===== src/Routing/Provider.antt =====
-- backend/src/modules/routing/providers/routing-provider.interface.ts, and the options that
-- routing.service.ts hands to a provider. `N` are JavaScript's numbers.
use logistics_center.Base.{
  ℕ, Bool, true, false, Option, none, some, List, get_or, if◌then◌else◌, is_some,
}
use logistics_center.Base.Text.{Text}
use logistics_center.Values.{Value, Fields}
use logistics_center.Routing.StateMachine.{RouteStatus}

pub data RouteTransportMode : Type 0 where
  driving walking cycling : RouteTransportMode

pub data RoutePointType : Type 0 where
  courier pickup dropoff waypoint : RoutePointType

-- The texts `courier:<id>`, and other identifiers.
pub data PointId : Type 0 where
  courier_point : ℕ → PointId
  point : ℕ → PointId

pub record Coordinates (N : Type 0) : Type 0 where
  pub latitude : N
  pub longitude : N

-- Without `metadata`, which the service only hands to the provider.
pub record RoutePoint (N : Type 0) : Type 0 where
  pub id : PointId
  pub order_id : Option ℕ
  pub address : Option ℕ
  pub coordinates : Coordinates N
  pub point_type : RoutePointType

pub record RouteOptions : Type 0 where
  pub mode : RouteTransportMode
  pub optimize_waypoints : Bool
  pub avoid_tolls : Bool
  pub avoid_unpaved : Bool
  pub departure_time : Option ℕ
  pub return_to_start : Bool
  pub locale : Option Text

pub record RouteStop : Type 0 where
  pub point_id : PointId
  pub sequence : ℕ
  pub eta : Option ℕ

pub record RouteLeg (N : Type 0) : Type 0 where
  pub from_point_id : PointId
  pub to_point_id : PointId
  pub distance_meters : N
  pub duration_seconds : N
  pub geometry : List (Coordinates N)

pub record RouteResult (N : Type 0) : Type 0 where
  pub distance_meters : N
  pub duration_seconds : N
  pub polyline : List (Coordinates N)
  pub ordered_points : List (RoutePoint N)
  pub stops : List RouteStop
  pub legs : List (RouteLeg N)
  pub provider : Text
  pub metadata : Option (Fields N)

-- Metadata that is undefined or null is `none`, since both are stored as null.
pub record BuildRouteDto (N : Type 0) : Type 0 where
  pub courier_id : Option ℕ
  pub order_ids : List ℕ
  pub route_date : ℕ
  pub mode : Option RouteTransportMode
  pub optimize_waypoints : Option Bool
  pub return_to_start : Option Bool
  pub locale : Option Text
  pub metadata : Option (Value N)

-- `courier_id` is `some none` where the request sets it to null, as `locale`; `metadata` is the value.
pub record UpdateRouteDto (N : Type 0) : Type 0 where
  pub status : Option RouteStatus
  pub courier_id : Option (Option ℕ)
  pub order_ids : Option (List ℕ)
  pub route_date : Option ℕ
  pub mode : Option RouteTransportMode
  pub optimize_waypoints : Option Bool
  pub return_to_start : Option Bool
  pub locale : Option (Option Text)
  pub metadata : Option (Value N)

unfoldable pub build_provider_options : {N : Type 0} → BuildRouteDto N → RouteOptions
build_provider_options dto = record {
  mode = get_or dto.mode driving;
  optimize_waypoints = get_or dto.optimize_waypoints true;
  avoid_tolls = false;
  avoid_unpaved = false;
  departure_time = some dto.route_date;
  return_to_start = get_or dto.return_to_start false;
  locale = dto.locale;
}

-- `left ?? right`, where both may be null.
abbrev pub or_else : {A : Type 0} → Option A → Option A → Option A
or_else none right = right
or_else (some left) right = some left

unfoldable pub build_updated_route_options :
    {N : Type 0} → RouteOptions → UpdateRouteDto N → RouteOptions
build_updated_route_options current_options dto = record {
  mode = get_or dto.mode current_options.mode;
  optimize_waypoints =
      get_or dto.optimize_waypoints
        (if is_some dto.order_ids then false else current_options.optimize_waypoints);
  avoid_tolls = current_options.avoid_tolls;
  avoid_unpaved = current_options.avoid_unpaved;
  departure_time = or_else dto.route_date current_options.departure_time;
  return_to_start = get_or dto.return_to_start current_options.return_to_start;
  locale = or_else (get_or dto.locale none) current_options.locale;
}
