-- ===== src/Orders/StateMachine.antt =====
-- backend/src/modules/orders/order-state-machine.ts
use logistics_center.Base.{◌≡◌, Bool, true, false, ◌||◌, List, [], ◌∷◌, arith}

pub data OrderStatus : Type 0 where
  new confirmed assigned handed_over in_transit delivered undelivered returned cancelled :
      OrderStatus

pub OrderStatus-discrete : Discrete OrderStatus
OrderStatus-discrete = hlevel

abbrev pub status_eq : OrderStatus → OrderStatus → Bool
status_eq new new = true
status_eq confirmed confirmed = true
status_eq assigned assigned = true
status_eq handed_over handed_over = true
status_eq in_transit in_transit = true
status_eq delivered delivered = true
status_eq undelivered undelivered = true
status_eq returned returned = true
status_eq cancelled cancelled = true
status_eq _ _ = false

pub status_eq-eq : (s t : OrderStatus) → status_eq s t ≡ true → s ≡ t
status_eq-eq s t h = ground arith

abbrev pub includes : List OrderStatus → OrderStatus → Bool
includes [] s = false
includes (x ∷ xs) s = status_eq x s || includes xs s

-- `ORDER_STATUS_TRANSITIONS`
unfoldable pub order_status_transitions : OrderStatus → List OrderStatus
order_status_transitions new = confirmed ∷ []
order_status_transitions confirmed = assigned ∷ []
order_status_transitions assigned = handed_over ∷ []
order_status_transitions handed_over = in_transit ∷ []
order_status_transitions in_transit = delivered ∷ undelivered ∷ returned ∷ cancelled ∷ []
order_status_transitions delivered = []
order_status_transitions undelivered = []
order_status_transitions returned = []
order_status_transitions cancelled = []

unfoldable pub can_transition : OrderStatus → OrderStatus → Bool
unfolding order_status_transitions
can_transition from_status to_status = includes (order_status_transitions from_status) to_status

unfoldable pub get_allowed_order_transitions : OrderStatus → List OrderStatus
unfolding order_status_transitions
get_allowed_order_transitions from_status = order_status_transitions from_status
