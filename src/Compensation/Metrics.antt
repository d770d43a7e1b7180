-- ===== src/Compensation/Metrics.antt =====
-- `buildPaymentMetrics` of backend/src/modules/compensation/payments.service.ts: what a courier's
-- completed routes add up to.
use logistics_center.Base.{
  ℕ, Bool, Option, none, some, List, [], ◌∷◌, ◌++◌, map, get_or, length, filter, if◌then◌else◌,
}
use logistics_center.Base.Text.{Text, codes, text_eq}
use logistics_center.Values.{Value, Fields, get, plain_object}
use logistics_center.Orders.StateMachine.{OrderStatus, delivered, status_eq}
use logistics_center.Compensation.Ecma.{Ecma}
use logistics_center.Compensation.RuleConfig.{read_number}

pub record CompletedRoutePoint : Type 0 where
  pub order_id : Text
  pub sequence : ℕ
  pub order_status : OrderStatus
  pub zone_id : Option Text
  pub delivery_address : Text

pub record CompletedRoute (N : Type 0) : Type 0 where
  pub id : Text
  pub route_date : ℕ
  pub optimization_data : Value N
  pub route_points : List CompletedRoutePoint

pub record DeliveredOrderMetric : Type 0 where
  pub route_id : Text
  pub route_date : ℕ
  pub order_id : Text
  pub sequence : ℕ
  pub zone_id : Option Text
  pub delivery_address : Text

pub record RouteMetric (N : Type 0) : Type 0 where
  pub route_id : Text
  pub route_date : ℕ
  pub distance_meters : N
  pub distance_km : N
  pub delivered_orders_count : ℕ

pub record PaymentMetrics (N : Type 0) : Type 0 where
  pub completed_routes_count : ℕ
  pub delivered_orders_count : ℕ
  pub total_distance_meters : N
  pub total_distance_km : N
  pub delivered_orders : List DeliveredOrderMetric
  pub routes : List (RouteMetric N)

-- The two local lists and the sum of the loop.
pub record Totals (N : Type 0) : Type 0 where
  pub delivered_orders : List DeliveredOrderMetric
  pub route_metrics : List (RouteMetric N)
  pub total_distance_meters : N

abbrev pub is_delivered : CompletedRoutePoint → Bool
is_delivered point = status_eq point.order_status delivered

pub data SupportedMetric : Type 0 where
  completed_orders completed_routes distance_km : SupportedMetric

-- `readMetric`, on the texts that it compares with.
unfoldable pub metric_of_text : Text → Option SupportedMetric
metric_of_text t =
    if text_eq t (codes "completed_orders")
    then some completed_orders
    else if text_eq t (codes "completed_routes")
    then some completed_routes
    else if text_eq t (codes "distance_km")
    then some distance_km
    else none

module _ {N : Type 0} where
  abbrev pub delivered_order : CompletedRoute N → CompletedRoutePoint → DeliveredOrderMetric
  delivered_order route point = record {
    route_id = route.id;
    route_date = route.route_date;
    order_id = point.order_id;
    sequence = point.sequence;
    zone_id = point.zone_id;
    delivery_address = point.delivery_address;
  }

  unfoldable pub route_delivered_orders : CompletedRoute N → List DeliveredOrderMetric
  route_delivered_orders route =
      map (delivered_order route) (filter is_delivered route.route_points)

module _ (js : Ecma) where
  open js use {N}

  unfoldable pub round_metric : N → N
  round_metric value = js.to_fixed3 value

  unfoldable pub round_money : N → N
  round_money value = js.to_fixed2 value

  abbrev distance_of : Option (Fields N) → N
  distance_of none = js.of_ℕ 0
  distance_of (some fs) = get_or (read_number js (get (codes "distanceMeters") fs)) (js.of_ℕ 0)

  unfoldable pub read_route_distance_meters : Value N → N
  read_route_distance_meters optimization_data = distance_of (plain_object optimization_data)

  abbrev pub add_route : Totals N → CompletedRoute N → Totals N
  add_route t route =
      let distance_meters = read_route_distance_meters route.optimization_data in
      let orders = route_delivered_orders route in
      record {
        delivered_orders = t.delivered_orders ++ orders;
        route_metrics =
            t.route_metrics
            ++ (record {
              route_id = route.id;
              route_date = route.route_date;
              distance_meters = distance_meters;
              distance_km = round_metric (js.thousandth distance_meters);
              delivered_orders_count = length orders;
            }
                ∷ []);
        total_distance_meters = js.add t.total_distance_meters distance_meters;
      }

  unfoldable pub add_routes : Totals N → List (CompletedRoute N) → Totals N
  add_routes t [] = t
  add_routes t (route ∷ routes) = add_routes (add_route t route) routes

  unfoldable pub build_payment_metrics : List (CompletedRoute N) → PaymentMetrics N
  unfolding add_routes round_metric
  build_payment_metrics routes =
      let t =
        add_routes
          (record { delivered_orders = []; route_metrics = []; total_distance_meters = js.of_ℕ 0 })
          routes in
      record {
        completed_routes_count = length routes;
        delivered_orders_count = length t.delivered_orders;
        total_distance_meters = round_metric t.total_distance_meters;
        total_distance_km = round_metric (js.thousandth t.total_distance_meters);
        delivered_orders = t.delivered_orders;
        routes = t.route_metrics;
      }

  unfoldable pub read_metric_value : SupportedMetric → PaymentMetrics N → N
  read_metric_value completed_orders metrics = js.of_ℕ metrics.delivered_orders_count
  read_metric_value completed_routes metrics = js.of_ℕ metrics.completed_routes_count
  read_metric_value distance_km metrics = metrics.total_distance_km
