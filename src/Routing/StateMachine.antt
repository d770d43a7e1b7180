-- ===== src/Routing/StateMachine.antt =====
-- backend/src/modules/routing/route-state-machine.ts, and the sets of statuses in routing.service.ts
-- beside it.
use logistics_center.Base.{Bool, true, false, ◌||◌, List, [], ◌∷◌}
use logistics_center.Orders.StateMachine.{
  OrderStatus, delivered, undelivered, returned, cancelled, includes,
}

pub data RouteStatus : Type 0 where
  draft planned in_progress completed route_cancelled : RouteStatus

abbrev pub route_status_eq : RouteStatus → RouteStatus → Bool
route_status_eq draft draft = true
route_status_eq planned planned = true
route_status_eq in_progress in_progress = true
route_status_eq completed completed = true
route_status_eq route_cancelled route_cancelled = true
route_status_eq _ _ = false

abbrev pub includes_route_status : List RouteStatus → RouteStatus → Bool
includes_route_status [] s = false
includes_route_status (x ∷ xs) s = route_status_eq x s || includes_route_status xs s

-- `ALLOWED_ROUTE_TRANSITIONS`
unfoldable pub allowed_route_transitions : RouteStatus → List RouteStatus
allowed_route_transitions draft = planned ∷ route_cancelled ∷ []
allowed_route_transitions planned = in_progress ∷ route_cancelled ∷ []
allowed_route_transitions in_progress = completed ∷ route_cancelled ∷ []
allowed_route_transitions completed = []
allowed_route_transitions route_cancelled = []

unfoldable pub can_transition_route : RouteStatus → RouteStatus → Bool
unfolding allowed_route_transitions
can_transition_route current_status next_status =
    includes_route_status (allowed_route_transitions current_status) next_status

unfoldable pub is_route_editable_status : RouteStatus → Bool
is_route_editable_status status = route_status_eq status draft || route_status_eq status planned

-- `TERMINAL_ORDER_STATUSES`
abbrev pub terminal_order_statuses : List OrderStatus
terminal_order_statuses = delivered ∷ undelivered ∷ returned ∷ cancelled ∷ []

unfoldable pub is_terminal_order_status : OrderStatus → Bool
is_terminal_order_status status = includes terminal_order_statuses status
