-- ===== src/Routing/Assignment.antt =====
-- `syncRouteOrdersWithCourier` of backend/src/modules/routing/routing.service.ts: the orders of a route
-- get its courier, in the transaction that stores the route. `text_of` is the text of an identifier, and
-- `assigned_reason` the text `Assigned to route courier`.
use logistics_center.Base.{
  ℕ, Bool, not, ◌&&◌, Option, some, List, [], ◌∷◌, ◌++◌, ◌==◌, truthy, if◌then◌else◌, Result, ok,
  not_found, ◌>>=◌, ◌>>◌, throw_if, or_throw,
}
use logistics_center.Base.Text.{Text, codes}
use logistics_center.Values.{Value, str, obj, end, field}
use logistics_center.Database.{Table}
use logistics_center.Orders.StateMachine.{OrderStatus, assigned, status_eq, can_transition}
use logistics_center.Orders.Columns.{Order, OrderStatusHistory, OrderEvent, order_status_changed}
use logistics_center.Orders.Service.{OrdersDb, is_order}
use logistics_center.Routing.StateMachine.{is_terminal_order_status}
use logistics_center.Routing.Plan.{RouteOrder}

-- The row of `auditLog` for an order that becomes assigned: `before` and `after` have the courier too.
pub record AssignmentAudit (Num : Type 0) : Type 0 where
  pub company_id : ℕ
  pub actor_id : ℕ
  pub actor_role : ℕ
  pub entity_id : ℕ
  pub request_id : Option ℕ
  pub before : OrderStatus × Option ℕ
  pub after : OrderStatus × ℕ
  pub reason : ℕ
  pub metadata : Value Num

-- Who assigns, and to which route and courier.
pub record RouteAssignment : Type 0 where
  pub request_id : Option ℕ
  pub company_id : ℕ
  pub actor_user_id : ℕ
  pub actor_role : ℕ
  pub route_id : ℕ
  pub courier_id : ℕ

-- `order.status !== assigned && canTransition(order.status, assigned)`
unfoldable pub should_transition_to_assigned : OrderStatus → Bool
should_transition_to_assigned status =
    not (status_eq status assigned) && can_transition status assigned

module _ {Num Decimal : Type 0} (decimal : Num → Decimal) (orders : Table (Order Num Decimal))
    (text_of : ℕ → Text) (assigned_reason : ℕ) (by : RouteAssignment) where
  open orders use {State, update}

  -- The state of the loop: the tables, and the events that are emitted after the transaction.
  pub record AssignmentDb : Type 0 where
    pub orders_db : OrdersDb decimal orders
    pub assignment_audit : List (AssignmentAudit Num)
    pub status_changed_events : List (OrderEvent Num Decimal)

  abbrev pub assignment_metadata : Value Num
  assignment_metadata = obj (
      field (codes "source") (str (codes "route.assignment")) (
        field (codes "routeId") (str (text_of by.route_id))
          (field (codes "courierId") (str (text_of by.courier_id)) end)))

  -- `data` of `tx.order.update`
  unfoldable pub assign_order : OrderStatus → Order Num Decimal → Order Num Decimal
  assign_order status p = record p {
    status = if should_transition_to_assigned status then assigned else p.status;
    assigned_courier_id = some by.courier_id;
    assigned_by_user_id = some by.actor_user_id;
  }

  abbrev pub assignment_history : RouteOrder Decimal → OrderStatusHistory Num
  assignment_history o = record {
    company_id = by.company_id;
    order_id = o.id;
    from_status = o.status;
    to_status = assigned;
    changed_by_user_id = by.actor_user_id;
    reason = some assigned_reason;
    metadata = assignment_metadata;
  }

  abbrev pub audit_of_assignment : RouteOrder Decimal → AssignmentAudit Num
  audit_of_assignment o = record {
    company_id = by.company_id;
    actor_id = by.actor_user_id;
    actor_role = by.actor_role;
    entity_id = o.id;
    request_id = by.request_id;
    before = (o.status, o.assigned_courier_id);
    after = (assigned, by.courier_id);
    reason = assigned_reason;
    metadata = assignment_metadata;
  }

  -- What follows the update of an order.
  unfoldable pub record_assignment :
      RouteOrder Decimal → Order Num Decimal → State → AssignmentDb → AssignmentDb
  record_assignment o updated rows' s =
      let db = s.orders_db in
      if should_transition_to_assigned o.status
      then record {
        orders_db = record db { rows = rows'; history = db.history ++ (assignment_history o ∷ []) };
        assignment_audit = s.assignment_audit ++ (audit_of_assignment o ∷ []);
        status_changed_events =
            s.status_changed_events
            ++ (order_status_changed by.actor_user_id by.actor_role o.status assigned
                  (some assigned_reason) by.request_id updated
                ∷ []);
      }
      else record s { orders_db = record db { rows = rows' } }

  -- The body of the loop for an order that is not in a terminal status.
  unfoldable pub assign_open_order : RouteOrder Decimal → AssignmentDb → Result AssignmentDb
  assign_open_order o s = do
    (updated, rows') ←
        or_throw
          (update (is_order decimal orders by.company_id o.id) (assign_order o.status)
            s.orders_db.rows)
          not_found
    ok (record_assignment o updated rows' s)

  unfoldable pub sync_order : RouteOrder Decimal → AssignmentDb → Result AssignmentDb
  sync_order o s = do
    throw_if (not (o.company_id == by.company_id)) not_found
    if is_terminal_order_status o.status then ok s else assign_open_order o s

  unfoldable pub sync_orders : List (RouteOrder Decimal) → AssignmentDb → Result AssignmentDb
  sync_orders [] s = ok s
  sync_orders (o ∷ os) s = sync_order o s >>= λ s'. sync_orders os s'

  -- `syncRouteOrdersWithCourier`; a route without courier changes nothing.
  unfoldable pub sync_route_orders_with_courier :
      List (RouteOrder Decimal) → AssignmentDb → Result AssignmentDb
  sync_route_orders_with_courier os s =
      if truthy (some by.courier_id) then sync_orders os s else ok s
