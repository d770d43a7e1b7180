-- ===== src/Routing/Points.antt =====
-- `buildRoutePointCreateData` of backend/src/modules/routing/routing.service.ts.
use logistics_center.Base.{
  ℕ, ◌+◌, Bool, false, not, Option, none, some, List, [], ◌∷◌, ◌==◌, length, if◌then◌else◌, is_some,
  Result, ok, bad_request, ◌>>=◌, ◌>>◌, throw_if, or_throw,
}
use logistics_center.Routing.Provider.{RoutePoint, RouteStop, RouteResult, courier_point, point}
use logistics_center.Routing.Plan.{RouteOrder}

pub record RoutePointData : Type 0 where
  pub company_id : ℕ
  pub route_id : ℕ
  pub order_id : ℕ
  pub sequence : ℕ
  pub planned_eta : Option ℕ
  pub actual_eta : Option ℕ

abbrev pub names_point : ℕ → RouteStop → Bool
names_point order_id stop = elim stop.point_id [ courier_point c ↦ false | point p ↦ p == order_id ]

-- The entry of a map under a key is the last one that was put there.
abbrev pub find_last : {A : Type 0} → (A → Bool) → List A → Option A
find_last test [] = none
find_last test (x ∷ xs) =
    let later = find_last test xs in
    if is_some later then later else if test x then some x else none

-- `etaByPointId.get(orderId) ?? null`
unfoldable pub eta_by_point_id : List RouteStop → ℕ → Option ℕ
eta_by_point_id stops order_id = elim (find_last (names_point order_id) stops) [
  | none ↦ none
  | some stop ↦ stop.eta
]

-- `routeResult.orderedPoints.filter(…).map(…)`
unfoldable pub ordered_order_ids : {N : Type 0} → List (RoutePoint N) → List ℕ
ordered_order_ids [] = []
ordered_order_ids (p ∷ ps) =
    let rest = ordered_order_ids ps in
    elim p.order_id [ none ↦ rest | some order_id ↦ order_id ∷ rest ]

module _ {Decimal : Type 0} (company_id route_id : ℕ) (orders : List (RouteOrder Decimal))
    (stops : List RouteStop) where
  abbrev pub point_data : ℕ → ℕ → RouteOrder Decimal → RoutePointData
  point_data index order_id o = record {
    company_id = company_id;
    route_id = route_id;
    order_id = o.id;
    sequence = index + 1;
    planned_eta = eta_by_point_id stops order_id;
    actual_eta = none;
  }

  -- The rows from an index on.
  unfoldable pub point_rows : ℕ → List ℕ → Result (List RoutePointData)
  point_rows index [] = ok []
  point_rows index (order_id ∷ ids) = do
    o ← or_throw (find_last (λ item. item.id == order_id) orders) bad_request
    rest ← point_rows (index + 1) ids
    ok (point_data index order_id o ∷ rest)

unfoldable pub build_route_point_create_data :
    {N Decimal : Type 0}
    → ℕ
    → ℕ
    → List (RouteOrder Decimal)
    → RouteResult N
    → Result (List RoutePointData)
build_route_point_create_data company_id route_id orders route_result = do
  let ids = ordered_order_ids route_result.ordered_points
  throw_if (not (length ids == length orders)) bad_request
  point_rows company_id route_id orders route_result.stops 0 ids
