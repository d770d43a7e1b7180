-- ===== src/Orders/Tests.antt =====
-- Runs of backend/src/modules/orders/orders.service.ts on sample orders.
use logistics_center.Base.{
  ℕ, ◌≡◌, ◌≤◌, refl, sym, ◌∙◌, inl, inr, true, none, some, [], ◌∷◌, ok, Elem, length,
}
use logistics_center.Database.{Table}
use logistics_center.Database.ListTable.{list_table}
use logistics_center.Orders.StateMachine.{confirmed, can_transition, order_status_transitions}
use logistics_center.Orders.Columns.{
  Order, CreateOrderDto, UpdateOrderDto, UpdateOrderStatusDto, References, new_order, edit_order,
  order_created, order_status_changed, validate_time_window, ensure_references,
}
use logistics_center.Orders.Service.{
  OrdersDb, create_order, update_order, transition_order_status, store_order,
  ensure_unique_order_keys, status_history, status_audit,
}
use logistics_center.Orders.Replay.{history_of}
use logistics_center.Database.PrimaryKey.{keyed_table, keyed_table-IsPrimaryKey}
use logistics_center.Orders.Steps.{Reaches, here, next, created, moved}
use logistics_center.Orders.Reachable.{IsConsistent, Reaches-IsConsistent, Reaches-length}
use logistics_center.Orders.Tracking.{IsTracked, transition_order_status-IsTracked}
use logistics_center.Orders.Preservation.{create_order-IsTracked}
use logistics_center.Orders.Unique.{IsUnique}
use logistics_center.Orders.Creation.{create_order-IsUnique, create_order-IsCreated, IsCreated}
use logistics_center.Orders.Editing.{update_order-IsUnique}
use logistics_center.Orders.Transition.{IsTransition, transition_order_status-IsTransition}

abbrev decimal : ℕ → ℕ
decimal value = value

abbrev references : References
references = record { has_zone = λ company zone. true; has_courier = λ company courier. true }

abbrev dto : CreateOrderDto ℕ
dto = record {
  external_id = some 31;
  order_number = some 41;
  customer_name = none;
  customer_phone = none;
  delivery_address = 5;
  delivery_latitude = some 55;
  delivery_longitude = some 37;
  comment = none;
  scheduled_date = none;
  time_window_from = some 100;
  time_window_to = some 200;
  zone_id = some 3;
  assigned_courier_id = none;
  metadata = none;
}

abbrev first_order : Order ℕ ℕ
first_order = new_order decimal 7 (some 1) dto 1

abbrev empty_db : OrdersDb decimal list_table
unfolding list_table
empty_db = record { rows = []; history = []; audit = []; events = [] }

abbrev one_order : OrdersDb decimal list_table
unfolding list_table
one_order = record {
  rows = first_order ∷ [];
  history = [];
  audit = [];
  events = order_created (some 1) none first_order ∷ [];
}

create_order_run :
    create_order decimal list_table references none 7 (some 1) dto empty_db
    ≡ ok (first_order, one_order)
unfolding create_order list_table store_order new_order validate_time_window
    ensure_unique_order_keys ensure_references
create_order_run = refl

create_order-IsCreated_example :
    IsCreated decimal list_table references none 7 (some 1) empty_db one_order first_order
create_order-IsCreated_example =
    create_order-IsCreated decimal list_table references none 7 (some 1) dto empty_db one_order
      first_order create_order_run

empty-IsUnique : IsUnique decimal list_table empty_db
unfolding list_table
empty-IsUnique = record {
  external_ids = λ x y hx hy c e t. absurd hx;
  order_numbers = λ x y hx hy c e t. absurd hx;
}

empty-IsTracked : IsTracked decimal list_table empty_db
unfolding list_table
empty-IsTracked = record { replays = λ o m. absurd m; known = λ h m. absurd m }

one_order-IsUnique : IsUnique decimal list_table one_order
one_order-IsUnique =
    create_order-IsUnique decimal list_table references none 7 (some 1) dto empty_db one_order
      first_order empty-IsUnique create_order_run

one_order-IsTracked : IsTracked decimal list_table one_order
unfolding list_table
one_order-IsTracked =
    create_order-IsTracked decimal list_table references none 7 (some 1) dto empty_db one_order
      first_order (λ x m. absurd m) empty-IsTracked create_order_run

one_key : (x y : Order ℕ ℕ) → Elem x (first_order ∷ []) → Elem y (first_order ∷ []) → x ≡ y
one_key x y (inl e) (inl f) = e ∙ sym f
one_key x y (inl e) (inr m) = absurd m
one_key x y (inr m) f = absurd m

abbrev edit : UpdateOrderDto ℕ
edit = record {
  external_id = some (some 31);
  order_number = none;
  customer_name = some (some 9);
  customer_phone = none;
  delivery_address = none;
  delivery_latitude = none;
  delivery_longitude = none;
  comment = none;
  scheduled_date = none;
  time_window_from = none;
  time_window_to = none;
  zone_id = none;
  assigned_courier_id = some (some 4);
  metadata = none;
}

abbrev edited_order : Order ℕ ℕ
edited_order = edit_order decimal (some 2) edit first_order first_order

abbrev edited_db : OrdersDb decimal list_table
unfolding list_table
edited_db = record one_order { rows = edited_order ∷ [] }

update_order_run :
    update_order decimal list_table references 7 (some 2) 1 edit one_order
    ≡ ok (edited_order, edited_db)
unfolding update_order list_table new_order validate_time_window ensure_unique_order_keys
    ensure_references
update_order_run = refl

update_order-IsUnique_example : IsUnique decimal list_table edited_db
unfolding list_table
update_order-IsUnique_example =
    update_order-IsUnique decimal list_table 7 1 one_order (λ x y m n e. one_key x y m n) references
      (some 2) edit edited_db edited_order one_order-IsUnique update_order_run

abbrev confirm : UpdateOrderStatusDto ℕ
confirm = record { status = confirmed; reason = none; metadata = none }

abbrev confirmed_order : Order ℕ ℕ
confirmed_order = record first_order { status = confirmed }

abbrev confirmed_db : OrdersDb decimal list_table
unfolding list_table
confirmed_db = record {
  rows = confirmed_order ∷ [];
  history = status_history decimal list_table 7 2 1 confirm first_order ∷ [];
  audit = status_audit decimal list_table none 7 2 8 1 confirm first_order ∷ [];
  events =
      order_created (some 1) none first_order
      ∷ order_status_changed 2 8 first_order.status confirmed none none confirmed_order
      ∷ [];
}

transition_order_status_run :
    transition_order_status decimal list_table none 7 2 8 1 confirm one_order
    ≡ ok (confirmed_order, confirmed_db)
unfolding transition_order_status list_table new_order can_transition order_status_transitions
transition_order_status_run = refl

transition_order_status-IsTracked_example : IsTracked decimal list_table confirmed_db
unfolding list_table
transition_order_status-IsTracked_example =
    transition_order_status-IsTracked decimal list_table none 7 2 8 1 confirm one_order confirmed_db
      confirmed_order (λ x y m n e. one_key x y m n) one_order-IsTracked transition_order_status_run

transition_order_status-IsTransition_example :
    IsTransition decimal list_table none 7 2 8 1 confirm one_order confirmed_db confirmed_order
unfolding list_table
transition_order_status-IsTransition_example =
    transition_order_status-IsTransition decimal list_table none 7 2 8 1 confirm one_order
      confirmed_db confirmed_order (λ x y m n p q. one_key x y m n) transition_order_status_run

abbrev keyed_orders : Table (Order ℕ ℕ)
keyed_orders = keyed_table (λ o. o.id)

abbrev first_db : OrdersDb decimal keyed_orders
unfolding list_table keyed_table
first_db = record { rows = []; history = []; audit = []; events = [] }

abbrev created_db : OrdersDb decimal keyed_orders
unfolding list_table keyed_table
created_db = record {
  rows = first_order ∷ [];
  history = [];
  audit = [];
  events = order_created (some 1) none first_order ∷ [];
}

keyed_create_run :
    create_order decimal keyed_orders references none 7 (some 1) dto first_db
    ≡ ok (first_order, created_db)
unfolding create_order list_table keyed_table store_order new_order validate_time_window
    ensure_unique_order_keys ensure_references
keyed_create_run = refl

abbrev moved_db : OrdersDb decimal keyed_orders
unfolding list_table keyed_table
moved_db = record {
  rows = confirmed_order ∷ [];
  history = status_history decimal keyed_orders 7 2 1 confirm first_order ∷ [];
  audit = status_audit decimal keyed_orders none 7 2 8 1 confirm first_order ∷ [];
  events =
      order_created (some 1) none first_order
      ∷ order_status_changed 2 8 first_order.status confirmed none none confirmed_order
      ∷ [];
}

keyed_move_run :
    transition_order_status decimal keyed_orders none 7 2 8 1 confirm created_db
    ≡ ok (confirmed_order, moved_db)
unfolding transition_order_status list_table keyed_table new_order can_transition
    order_status_transitions
keyed_move_run = refl

first_db-IsConsistent : IsConsistent decimal keyed_orders first_db
unfolding list_table keyed_table
first_db-IsConsistent = record {
  keyed = λ x y hx. absurd hx;
  tracked = record { replays = λ o m. absurd m; known = λ h m. absurd m };
  unique = record {
    external_ids = λ x y hx hy c e t. absurd hx;
    order_numbers = λ x y hx hy c e t. absurd hx;
  };
}

abbrev two_steps : Reaches decimal keyed_orders references first_db moved_db
two_steps =
    next (next here (created none 7 (some 1) dto first_db created_db first_order keyed_create_run))
      (moved none 7 2 8 1 confirm created_db moved_db confirmed_order keyed_move_run)

Reaches-IsConsistent_example : IsConsistent decimal keyed_orders moved_db
Reaches-IsConsistent_example =
    Reaches-IsConsistent decimal keyed_orders references first_db moved_db
      (keyed_table-IsPrimaryKey (λ o. o.id)) first_db-IsConsistent two_steps

Reaches-length_example :
    (length (history_of {Num = ℕ} 1 moved_db.history) ≡ 1)
    × (length (history_of {Num = ℕ} 1 moved_db.history) ≤ 5)
unfolding list_table keyed_table moved_db new_order
Reaches-length_example =
    Reaches-length decimal keyed_orders references first_db moved_db confirmed_order
      (keyed_table-IsPrimaryKey (λ o. o.id)) first_db-IsConsistent two_steps (inl refl)
