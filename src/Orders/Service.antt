-- ===== src/Orders/Service.antt =====
-- The operations of backend/src/modules/orders/orders.service.ts. `company_id` is the company of the
-- tenant context, which the database adds to every condition.
use logistics_center.Base.{
  ℕ, Bool, true, not, ◌&&◌, Option, none, some, List, [], ◌∷◌, ◌++◌, ◌==◌, ◌==?◌, truthy, get_or,
  is_some, if◌then◌else◌, Result, ok, not_found, conflict, invalid_state_transition, ◌>>=◌, ◌>>◌,
  throw_if, or_throw,
}
use logistics_center.Values.{null}
use logistics_center.Database.{Table}
use logistics_center.Orders.StateMachine.{can_transition}
use logistics_center.Orders.Columns.{
  Order, CreateOrderDto, UpdateOrderDto, UpdateOrderStatusDto, OrderStatusHistory, StatusAudit,
  OrderEvent, order_created, order_status_changed, References, given, validate_time_window,
  ensure_references, new_order, edit_order,
}

module _ {Num Decimal : Type 0} (decimal : Num → Decimal) (orders : Table (Order Num Decimal)) where
  open orders use {State, find_first, create, update}

  pub record OrdersDb : Type 0 where
    pub rows : State
    pub history : List (OrderStatusHistory Num)
    pub audit : List (StatusAudit Num)
    pub events : List (OrderEvent Num Decimal)

  -- `where: { id }`
  abbrev pub is_order : ℕ → ℕ → Order Num Decimal → Bool
  is_order company_id order_id o = o.company_id == company_id && o.id == order_id

  -- `excludeOrderId ? { id: { not: excludeOrderId } } : {}`
  abbrev pub not_excluded : Option ℕ → Order Num Decimal → Bool
  not_excluded exclude_order_id o =
      if truthy exclude_order_id then not (some o.id ==? exclude_order_id) else true

  abbrev pub has_external_id : ℕ → Option ℕ → Option ℕ → Order Num Decimal → Bool
  has_external_id company_id external_id exclude o =
      o.company_id == company_id && (o.external_id ==? external_id && not_excluded exclude o)

  abbrev pub has_order_number : ℕ → Option ℕ → Option ℕ → Order Num Decimal → Bool
  has_order_number company_id order_number exclude o =
      o.company_id == company_id && (o.order_number ==? order_number && not_excluded exclude o)

  unfoldable pub ensure_unique_order_keys :
      ℕ → Option ℕ → Option ℕ → Option ℕ → OrdersDb → Result (Unit {0})
  ensure_unique_order_keys company_id external_id order_number exclude_order_id db = do
    throw_if
        (truthy external_id
          && is_some (find_first (has_external_id company_id external_id exclude_order_id) db.rows))
        conflict
    throw_if
        (truthy order_number
          && is_some
              (find_first (has_order_number company_id order_number exclude_order_id) db.rows))
        conflict

  unfoldable pub store_order :
      Option ℕ → Option ℕ → (ℕ → Order Num Decimal) → OrdersDb → Order Num Decimal × OrdersDb
  store_order actor_user_id request_id row db =
      let (o, rows') = create row db.rows in
      (
        o,
        record db {
          rows = rows';
          events = db.events ++ (order_created actor_user_id request_id o ∷ []);
        },
      )

  -- `createOrder`; `request_id` is that of the tenant context.
  unfoldable pub create_order :
      References
      → Option ℕ
      → ℕ
      → Option ℕ
      → CreateOrderDto Num
      → OrdersDb
      → Result (Order Num Decimal × OrdersDb)
  create_order references request_id company_id actor_user_id dto db = do
    validate_time_window dto.time_window_from dto.time_window_to
    ensure_unique_order_keys company_id dto.external_id dto.order_number none db
    ensure_references references company_id dto.zone_id dto.assigned_courier_id
    ok (store_order actor_user_id request_id (new_order decimal company_id actor_user_id dto) db)

  unfoldable pub get_order : ℕ → ℕ → OrdersDb → Result (Order Num Decimal)
  get_order company_id order_id db =
      or_throw (find_first (is_order company_id order_id) db.rows) not_found

  -- `updateOrder`
  unfoldable pub update_order :
      References
      → ℕ
      → Option ℕ
      → ℕ
      → UpdateOrderDto Num
      → OrdersDb
      → Result (Order Num Decimal × OrdersDb)
  update_order references company_id actor_user_id order_id dto db = do
    validate_time_window (given dto.time_window_from) (given dto.time_window_to)
    current ← or_throw (find_first (is_order company_id order_id) db.rows) not_found
    ensure_unique_order_keys company_id (given dto.external_id) (given dto.order_number)
        (some order_id) db
    ensure_references references company_id (given dto.zone_id) (given dto.assigned_courier_id)
    (o, rows') ←
        or_throw
          (update (is_order company_id order_id) (edit_order decimal actor_user_id dto current)
            db.rows)
          not_found
    ok (o, record db { rows = rows' })

  abbrev pub status_history :
      ℕ → ℕ → ℕ → UpdateOrderStatusDto Num → Order Num Decimal → OrderStatusHistory Num
  status_history company_id actor_user_id order_id dto current = record {
    company_id = company_id;
    order_id = order_id;
    from_status = current.status;
    to_status = dto.status;
    changed_by_user_id = actor_user_id;
    reason = dto.reason;
    metadata = get_or dto.metadata null;
  }

  abbrev pub status_audit :
      Option ℕ → ℕ → ℕ → ℕ → ℕ → UpdateOrderStatusDto Num → Order Num Decimal → StatusAudit Num
  status_audit request_id company_id actor_user_id actor_role order_id dto current = record {
    company_id = company_id;
    actor_id = actor_user_id;
    actor_role = actor_role;
    entity_id = order_id;
    request_id = request_id;
    before = current.status;
    after = dto.status;
    reason = dto.reason;
    metadata = get_or dto.metadata null;
  }

  -- `transitionOrderStatus`; its writes are one transaction, so an error leaves nothing.
  unfoldable pub transition_order_status :
      Option ℕ
      → ℕ
      → ℕ
      → ℕ
      → ℕ
      → UpdateOrderStatusDto Num
      → OrdersDb
      → Result (Order Num Decimal × OrdersDb)
  transition_order_status request_id company_id actor_user_id actor_role order_id dto db = do
    current ← or_throw (find_first (is_order company_id order_id) db.rows) not_found
    throw_if (not (can_transition current.status dto.status)) invalid_state_transition
    (o, rows') ←
        or_throw
          (update (is_order company_id order_id) (λ p. record p { status = dto.status }) db.rows)
          not_found
    ok (
      o,
      record {
        rows = rows';
        history = db.history ++ (status_history company_id actor_user_id order_id dto current ∷ []);
        audit =
            db.audit
            ++ (status_audit request_id company_id actor_user_id actor_role order_id dto current
                ∷ []);
        events =
            db.events
            ++ (order_status_changed actor_user_id actor_role current.status dto.status dto.reason
                  request_id o
                ∷ []);
      },
    )
