-- ===== src/Routing/Tests.antt =====
-- Runs of backend/src/modules/routing/routing.service.ts on two sample orders.
use logistics_center.Base.{
  ℕ, ◌≡◌, refl, inl, inr, true, false, Option, none, some, List, [], ◌∷◌, length, Elem, Distinct,
  ok, arith,
}
use logistics_center.Base.Text.{codes}
use logistics_center.Orders.StateMachine.{new}
use logistics_center.Routing.StateMachine.{is_terminal_order_status}
use logistics_center.Routing.Provider.{
  RouteOptions, RouteResult, driving, courier, dropoff, courier_point, point,
}
use logistics_center.Routing.Plan.{
  RouteOrder, ResolvedRoutePlan, PlanSources, unique_ids, ordered_orders, resolve_order_coordinates,
  order_points, decimal_to_required_number, build_provider_points, get_courier_or_throw,
  plan_orders, resolve_route_plan,
}
use logistics_center.Routing.Points.{
  RoutePointData, point_rows, eta_by_point_id, ordered_order_ids, build_route_point_create_data,
}
use logistics_center.Routing.Sequence.{
  IsSequence, build_route_point_create_data-IsSequence, build_route_point_create_data_covers,
}

abbrev order_of : ℕ → Option ℕ → RouteOrder ℕ
order_of id place = record {
  id = id;
  company_id = 7;
  status = new;
  delivery_address = id;
  delivery_latitude = place;
  delivery_longitude = place;
  assigned_courier_id = none;
}

abbrev sources : PlanSources ℕ ℕ
sources = record {
  find_orders = λ ids. order_of 12 none ∷ order_of 11 (some 50) ∷ [];
  find_conflicting_route_points = λ ids exclude. [];
  find_courier =
      λ id. some (record { id = id; company_id = 7; latitude = some 55; longitude = some 37 });
  decimal = λ n. n;
  to_number = λ n. n;
  geocode = λ address. ok (record { latitude = 60; longitude = 30 });
}

abbrev options : RouteOptions
options = record {
  mode = driving;
  optimize_waypoints = true;
  avoid_tolls = false;
  avoid_unpaved = false;
  departure_time = some 100;
  return_to_start = true;
  locale = none;
}

abbrev located_orders : List (RouteOrder ℕ)
located_orders =
    order_of 11 (some 50)
    ∷ record (order_of 12 none) { delivery_latitude = some 60; delivery_longitude = some 30 }
    ∷ []

abbrev plan : ResolvedRoutePlan ℕ ℕ
plan = record {
  orders = located_orders;
  provider_points =
      record {
        id = courier_point 4;
        order_id = none;
        address = none;
        coordinates = record { latitude = 55; longitude = 37 };
        point_type = courier;
      }
      ∷ record {
        id = point 11;
        order_id = some 11;
        address = some 11;
        coordinates = record { latitude = 50; longitude = 50 };
        point_type = dropoff;
      }
      ∷ record {
        id = point 12;
        order_id = some 12;
        address = some 12;
        coordinates = record { latitude = 60; longitude = 30 };
        point_type = dropoff;
      }
      ∷ [];
  courier_of_plan =
      some (record { id = 4; company_id = 7; latitude = some 55; longitude = some 37 });
}

-- The order without coordinates is located.
resolve_route_plan_run :
    (resolve_route_plan sources 7 (11 ∷ 12 ∷ []) (some 4) options none).1 ≡ ok plan
unfolding resolve_route_plan plan_orders unique_ids ordered_orders resolve_order_coordinates
    order_points decimal_to_required_number build_provider_points get_courier_or_throw
    is_terminal_order_status
resolve_route_plan_run = refl

-- The provider visits the second order first.
abbrev answer : RouteResult ℕ
answer = record {
  distance_meters = 1500;
  duration_seconds = 300;
  polyline =
      record { latitude = 55; longitude = 37 } ∷ record { latitude = 50; longitude = 50 } ∷ [];
  ordered_points =
      record {
        id = courier_point 4;
        order_id = none;
        address = none;
        coordinates = record { latitude = 55; longitude = 37 };
        point_type = courier;
      }
      ∷ record {
        id = point 12;
        order_id = some 12;
        address = some 12;
        coordinates = record { latitude = 60; longitude = 30 };
        point_type = dropoff;
      }
      ∷ record {
        id = point 11;
        order_id = some 11;
        address = some 11;
        coordinates = record { latitude = 50; longitude = 50 };
        point_type = dropoff;
      }
      ∷ [];
  stops = record { point_id = point 12; sequence = 1; eta = some 500 } ∷ [];
  legs = [];
  provider = codes "test";
  metadata = none;
}

abbrev row_of : ℕ → ℕ → Option ℕ → RoutePointData
row_of order_id sequence eta = record {
  company_id = 7;
  route_id = 9;
  order_id = order_id;
  sequence = sequence;
  planned_eta = eta;
  actual_eta = none;
}

abbrev rows : List RoutePointData
rows = row_of 12 1 (some 500) ∷ row_of 11 2 none ∷ []

build_route_point_create_data_run :
    build_route_point_create_data 7 9 located_orders answer ≡ ok rows
unfolding build_route_point_create_data point_rows eta_by_point_id ordered_order_ids
build_route_point_create_data_run = refl

build_route_point_create_data-IsSequence_example :
    IsSequence 7 9 located_orders (12 ∷ 11 ∷ []) 0 rows × (length rows ≡ length located_orders)
unfolding ordered_order_ids
build_route_point_create_data-IsSequence_example =
    build_route_point_create_data-IsSequence 7 9 located_orders answer rows
      build_route_point_create_data_run

unrepeated : Distinct (12 ∷ 11 ∷ [])
unrepeated = (λ m. elim m [ inl e ↦ omega arith | inr n ↦ absurd n ], ((λ m. absurd m), tt))

build_route_point_create_data_covers_example : Elem {A = ℕ} 11 (12 ∷ 11 ∷ [])
unfolding ordered_order_ids
build_route_point_create_data_covers_example =
    build_route_point_create_data_covers 7 9 located_orders answer rows 11
      build_route_point_create_data_run unrepeated (inl refl)
