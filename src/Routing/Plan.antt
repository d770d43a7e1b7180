-- ===== src/Routing/Plan.antt =====
-- `resolveRoutePlan` of backend/src/modules/routing/routing.service.ts: from the identifiers of orders
-- to the points that the provider is given. Coordinates that are looked up are stored at once, so a call
-- returns what it has stored also where it fails.
use logistics_center.Base.{
  ℕ, Bool, true, false, not, ◌&&◌, Option, none, some, List, [], ◌∷◌, ◌++◌, ◌==◌, ltb, length,
  filter, find, truthy, get_or, is_some, if◌then◌else◌, Result, ok, err, bad_request, not_found,
  conflict, ◌>>=◌, ◌>>◌, throw_if, or_throw,
}
use logistics_center.Orders.StateMachine.{OrderStatus}
use logistics_center.Routing.StateMachine.{is_terminal_order_status}
use logistics_center.Routing.Provider.{
  Coordinates, RoutePoint, RouteOptions, courier, dropoff, courier_point, point,
}

-- `orderForRouteSelect`, without the columns that only pass through.
pub record RouteOrder (Decimal : Type 0) : Type 0 where
  pub id : ℕ
  pub company_id : ℕ
  pub status : OrderStatus
  pub delivery_address : ℕ
  pub delivery_latitude : Option Decimal
  pub delivery_longitude : Option Decimal
  pub assigned_courier_id : Option ℕ

pub record RouteCourier (Decimal : Type 0) : Type 0 where
  pub id : ℕ
  pub company_id : ℕ
  pub latitude : Option Decimal
  pub longitude : Option Decimal

-- A write of coordinates to an order.
pub record SavedCoordinates (Decimal : Type 0) : Type 0 where
  pub order_id : ℕ
  pub latitude : Decimal
  pub longitude : Decimal

pub record ResolvedRoutePlan (N Decimal : Type 0) : Type 0 where
  pub orders : List (RouteOrder Decimal)
  pub provider_points : List (RoutePoint N)
  pub courier_of_plan : Option (RouteCourier Decimal)

-- What the plan asks of the database, of `Prisma.Decimal` and of the provider.
pub record PlanSources (N Decimal : Type 0) : Type 0 where
  pub find_orders : List ℕ → List (RouteOrder Decimal)
  pub find_conflicting_route_points : List ℕ → Option ℕ → List (ℕ × ℕ)
  pub find_courier : ℕ → Option (RouteCourier Decimal)
  pub decimal : N → Decimal
  pub to_number : Decimal → N
  pub geocode : ℕ → Result (Coordinates N)

-- `[...new Set(ids)]`
unfoldable pub unique_ids : List ℕ → List ℕ
unique_ids [] = []
unique_ids (x ∷ xs) = x ∷ filter (λ y. not (y == x)) (unique_ids xs)

abbrev pub any_terminal : {Decimal : Type 0} → List (RouteOrder Decimal) → Bool
any_terminal [] = false
any_terminal (o ∷ os) =
    let rest = any_terminal os in if is_terminal_order_status o.status then true else rest

-- `orders.find((item) => item.id === orderId)` for each identifier
unfoldable pub ordered_orders :
    {Decimal : Type 0} → List (RouteOrder Decimal) → List ℕ → Result (List (RouteOrder Decimal))
ordered_orders orders [] = ok []
ordered_orders orders (order_id ∷ ids) = do
  o ← or_throw (find (λ item. item.id == order_id) orders) not_found
  rest ← ordered_orders orders ids
  ok (o ∷ rest)

abbrev pub starts_with_courier : {N : Type 0} → List (RoutePoint N) → Bool
starts_with_courier [] = false
starts_with_courier (p ∷ ps) = elim p.point_type [ courier ↦ true | _ ↦ false ]

module _ {N Decimal : Type 0} (sources : PlanSources N Decimal) where
  -- An order that lacks a coordinate.
  abbrev pub has_coordinates : RouteOrder Decimal → Bool
  has_coordinates o = is_some o.delivery_latitude && is_some o.delivery_longitude

  abbrev pub locate : RouteOrder Decimal → Coordinates N → RouteOrder Decimal
  locate o coordinates = record o {
    delivery_latitude = some (sources.decimal coordinates.latitude);
    delivery_longitude = some (sources.decimal coordinates.longitude);
  }

  abbrev pub saved_coordinates : RouteOrder Decimal → Coordinates N → SavedCoordinates Decimal
  saved_coordinates o coordinates = record {
    order_id = o.id;
    latitude = sources.decimal coordinates.latitude;
    longitude = sources.decimal coordinates.longitude;
  }

  abbrev pub prepend :
      RouteOrder Decimal
      → List (SavedCoordinates Decimal)
      → List (SavedCoordinates Decimal) × Result (List (RouteOrder Decimal))
      → List (SavedCoordinates Decimal) × Result (List (RouteOrder Decimal))
  prepend o saved (more, resolved) = (saved ++ more, resolved >>= λ os. ok (o ∷ os))

  -- `resolveOrderCoordinates`, with what it stores.
  unfoldable pub resolve_order_coordinates :
      List (RouteOrder Decimal)
      → List (SavedCoordinates Decimal) × Result (List (RouteOrder Decimal))
  resolve_order_coordinates [] = ([], ok [])
  resolve_order_coordinates (o ∷ os) =
      let rest = resolve_order_coordinates os in
      if has_coordinates o then prepend o [] rest else elim (sources.geocode o.delivery_address) [
        | ok coordinates ↦
            prepend (locate o coordinates) (saved_coordinates o coordinates ∷ []) rest
        | err thrown ↦ ([], err thrown)
      ]

  unfoldable pub decimal_to_required_number : Option Decimal → Result N
  decimal_to_required_number none = err bad_request
  decimal_to_required_number (some value) = ok (sources.to_number value)

  abbrev pub courier_points : Option (RouteCourier Decimal) → List (RoutePoint N)
  courier_points none = []
  courier_points (some c) = elim c.latitude [
    | none ↦ []
    | some latitude ↦ elim c.longitude [
      | none ↦ []
      | some longitude ↦
          record {
            id = courier_point c.id;
            order_id = none;
            address = none;
            coordinates = record {
              latitude = sources.to_number latitude;
              longitude = sources.to_number longitude;
            };
            point_type = courier;
          }
          ∷ []
    ]
  ]

  unfoldable pub order_points : List (RouteOrder Decimal) → Result (List (RoutePoint N))
  order_points [] = ok []
  order_points (o ∷ os) = do
    latitude ← decimal_to_required_number o.delivery_latitude
    longitude ← decimal_to_required_number o.delivery_longitude
    rest ← order_points os
    ok (
        record {
          id = point o.id;
          order_id = some o.id;
          address = some o.delivery_address;
          coordinates = record { latitude = latitude; longitude = longitude };
          point_type = dropoff;
        }
        ∷ rest)

  unfoldable pub build_provider_points :
      List (RouteOrder Decimal)
      → Option (RouteCourier Decimal)
      → RouteOptions
      → Result (List (RoutePoint N))
  build_provider_points orders route_courier options = do
    dropoffs ← order_points orders
    throw_if (ltb (length (courier_points route_courier ++ dropoffs)) 2) bad_request
    throw_if
        (options.return_to_start
          && not (starts_with_courier (courier_points route_courier ++ dropoffs)))
        bad_request
    ok (courier_points route_courier ++ dropoffs)

  -- `getCourierOrThrow`
  unfoldable pub get_courier_or_throw : ℕ → ℕ → Result (RouteCourier Decimal)
  get_courier_or_throw company_id courier_id = do
    c ← or_throw (sources.find_courier courier_id) not_found
    throw_if (not (c.company_id == company_id)) not_found
    ok c

  abbrev pub courier_of_route : ℕ → Option ℕ → Result (Option (RouteCourier Decimal))
  courier_of_route company_id courier_id =
      if truthy courier_id
      then (get_courier_or_throw company_id (get_or courier_id 0) >>= λ c. ok (some c))
      else ok none

  -- Up to the orders, before anything is stored.
  unfoldable pub plan_orders : List ℕ → Option ℕ → Result (List (RouteOrder Decimal))
  plan_orders order_ids exclude_route_id = do
    let unique_order_ids = unique_ids order_ids
    throw_if (not (length unique_order_ids == length order_ids)) bad_request
    let orders = sources.find_orders unique_order_ids
    throw_if (not (length orders == length unique_order_ids)) not_found
    found ← ordered_orders orders unique_order_ids
    throw_if (any_terminal found) bad_request
    throw_if
        (ltb 0 (length (sources.find_conflicting_route_points unique_order_ids exclude_route_id)))
        conflict
    ok found

  abbrev pub finish_plan :
      ℕ → Option ℕ → RouteOptions → List (RouteOrder Decimal) → Result (ResolvedRoutePlan N Decimal)
  finish_plan company_id courier_id options orders = do
    c ← courier_of_route company_id courier_id
    points ← build_provider_points orders c options
    ok (record { orders = orders; provider_points = points; courier_of_plan = c })

  abbrev pub resolve_plan_of :
      ℕ
      → Option ℕ
      → RouteOptions
      → Result (List (RouteOrder Decimal))
      → List (SavedCoordinates Decimal) × Result (ResolvedRoutePlan N Decimal)
  resolve_plan_of company_id courier_id options (err thrown) = ([], err thrown)
  resolve_plan_of company_id courier_id options (ok found) =
      let (saved, resolved) = resolve_order_coordinates found in
      (saved, resolved >>= λ orders. finish_plan company_id courier_id options orders)

  unfoldable pub resolve_route_plan :
      ℕ
      → List ℕ
      → Option ℕ
      → RouteOptions
      → Option ℕ
      → List (SavedCoordinates Decimal) × Result (ResolvedRoutePlan N Decimal)
  resolve_route_plan company_id order_ids courier_id options exclude_route_id =
      resolve_plan_of company_id courier_id options (plan_orders order_ids exclude_route_id)
