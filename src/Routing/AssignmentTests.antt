-- ===== src/Routing/AssignmentTests.antt =====
-- A run of `syncRouteOrdersWithCourier` of backend/src/modules/routing/routing.service.ts on a confirmed
-- order.
use logistics_center.Base.{
  ℕ, ◌≡◌, refl, sym, ap, subst, ◌∙◌, inl, inr, none, some, [], ◌∷◌, Elem, ok,
}
use logistics_center.Base.Text.{Text}
use logistics_center.Values.{null}
use logistics_center.Database.ListTable.{list_table}
use logistics_center.Orders.StateMachine.{
  new, confirmed, assigned, can_transition, order_status_transitions,
}
use logistics_center.Orders.Columns.{Order, OrderStatusHistory, order_status_changed}
use logistics_center.Orders.Replay.{Replays, history_of}
use logistics_center.Orders.Tracking.{IsTracked}
use logistics_center.Routing.StateMachine.{is_terminal_order_status}
use logistics_center.Routing.Plan.{RouteOrder}
use logistics_center.Routing.Assignment.{
  RouteAssignment, AssignmentDb, should_transition_to_assigned, assign_order, assignment_history,
  audit_of_assignment, record_assignment, assign_open_order, sync_order, sync_orders,
  sync_route_orders_with_courier,
}
use logistics_center.Routing.AssignedOrder.{AreKeyed, IsStored}
use logistics_center.Routing.Assigned.{sync_route_orders_with_courier-IsTracked}

abbrev decimal : ℕ → ℕ
decimal value = value

abbrev text_of : ℕ → Text
text_of id = id ∷ []

abbrev stored_order : Order ℕ ℕ
stored_order = record {
  id = 11;
  company_id = 7;
  status = confirmed;
  external_id = none;
  order_number = none;
  customer_name = none;
  customer_phone = none;
  delivery_address = 5;
  delivery_latitude = none;
  delivery_longitude = none;
  comment = none;
  scheduled_date = none;
  time_window_from = none;
  time_window_to = none;
  zone_id = none;
  assigned_courier_id = none;
  created_by_user_id = none;
  assigned_by_user_id = none;
  metadata = null;
}

abbrev assigned_order : Order ℕ ℕ
assigned_order = record stored_order {
  status = assigned;
  assigned_courier_id = some 4;
  assigned_by_user_id = some 2;
}

abbrev confirmation : OrderStatusHistory ℕ
confirmation = record {
  company_id = 7;
  order_id = 11;
  from_status = new;
  to_status = confirmed;
  changed_by_user_id = 2;
  reason = none;
  metadata = null;
}

abbrev planned_order : RouteOrder ℕ
planned_order = record {
  id = 11;
  company_id = 7;
  status = confirmed;
  delivery_address = 5;
  delivery_latitude = some 60;
  delivery_longitude = some 30;
  assigned_courier_id = none;
}

abbrev by : RouteAssignment
by = record {
  request_id = none;
  company_id = 7;
  actor_user_id = 2;
  actor_role = 8;
  route_id = 9;
  courier_id = 4;
}

abbrev before_db : AssignmentDb decimal list_table text_of 77 by
unfolding list_table
before_db = record {
  orders_db = record {
    rows = stored_order ∷ [];
    history = confirmation ∷ [];
    audit = [];
    events = [];
  };
  assignment_audit = [];
  status_changed_events = [];
}

abbrev after_db : AssignmentDb decimal list_table text_of 77 by
unfolding list_table
after_db = record {
  orders_db = record {
    rows = assigned_order ∷ [];
    history = confirmation ∷ assignment_history decimal list_table text_of 77 by planned_order ∷ [];
    audit = [];
    events = [];
  };
  assignment_audit = audit_of_assignment decimal list_table text_of 77 by planned_order ∷ [];
  status_changed_events =
      order_status_changed 2 8 confirmed assigned (some 77) none assigned_order ∷ [];
}

sync_run :
    sync_route_orders_with_courier decimal list_table text_of 77 by (planned_order ∷ []) before_db
    ≡ ok after_db
unfolding sync_route_orders_with_courier sync_orders sync_order assign_open_order record_assignment
    assign_order should_transition_to_assigned can_transition order_status_transitions
    is_terminal_order_status list_table
sync_run = refl

before-IsTracked : IsTracked decimal list_table before_db.orders_db
unfolding list_table can_transition order_status_transitions
before-IsTracked = record {
  replays = λ o m. elim m [
    | inl e ↦
        subst (λ x. Replays new (history_of x.id (confirmation ∷ [])) x.status) (sym e)
          (refl, refl, refl)
    | inr n ↦ absurd n
  ];
  known = λ h m. elim m [
    | inl e ↦ (stored_order, inl refl, sym (ap (λ g. g.order_id) e))
    | inr n ↦ absurd n
  ];
}

before_key : (x y : Order ℕ ℕ) → Elem x (stored_order ∷ []) → Elem y (stored_order ∷ []) → x ≡ y
before_key x y (inl e) (inl f) = e ∙ sym f
before_key x y (inl e) (inr m) = absurd m
before_key x y (inr m) f = absurd m

before-IsStored :
    (o : RouteOrder ℕ)
    → Elem o (planned_order ∷ [])
    → IsStored decimal list_table text_of 77 by before_db.orders_db.rows o
unfolding list_table
before-IsStored o (inl e) =
    (stored_order, inl refl, sym (ap (λ x. x.id) e), refl, sym (ap (λ x. x.status) e))
before-IsStored o (inr m) = absurd m

sync_route_orders_with_courier-IsTracked_example :
    IsTracked decimal list_table after_db.orders_db
    × AreKeyed decimal list_table text_of 77 by after_db.orders_db.rows
unfolding list_table
sync_route_orders_with_courier-IsTracked_example =
    sync_route_orders_with_courier-IsTracked decimal list_table text_of 77 by (planned_order ∷ [])
      before_db after_db (λ x y m n e. before_key x y m n) before-IsStored ((λ m. absurd m), tt)
      before-IsTracked sync_run
