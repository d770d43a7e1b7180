-- ===== src/Orders/Columns.antt =====
-- What backend/src/modules/orders/orders.service.ts stores of an order, and the tests before it stores.
-- Identifiers and the texts of an order are numbers, with zero for the empty text. An order is
-- returned as its row, before `mapOrder` renames the columns; the times that the database sets are left
-- out.
use logistics_center.Base.{
  ℕ, Bool, false, not, ◌&&◌, Option, none, some, ltb, ◌==?◌, truthy, get_or, if◌then◌else◌, Result,
  ok, bad_request, not_found, ◌>>◌, throw_if,
}
use logistics_center.Values.{Value, null}
use logistics_center.Orders.StateMachine.{OrderStatus, new}

-- `orderSelect`
pub record Order (Num Decimal : Type 0) : Type 0 where
  pub id : ℕ
  pub company_id : ℕ
  pub status : OrderStatus
  pub external_id : Option ℕ
  pub order_number : Option ℕ
  pub customer_name : Option ℕ
  pub customer_phone : Option ℕ
  pub delivery_address : ℕ
  pub delivery_latitude : Option Decimal
  pub delivery_longitude : Option Decimal
  pub comment : Option ℕ
  pub scheduled_date : Option ℕ
  pub time_window_from : Option ℕ
  pub time_window_to : Option ℕ
  pub zone_id : Option ℕ
  pub assigned_courier_id : Option ℕ
  pub created_by_user_id : Option ℕ
  pub assigned_by_user_id : Option ℕ
  pub metadata : Value Num

-- A field that is undefined or null is `none`, since both are stored as null.
pub record CreateOrderDto (Num : Type 0) : Type 0 where
  pub external_id : Option ℕ
  pub order_number : Option ℕ
  pub customer_name : Option ℕ
  pub customer_phone : Option ℕ
  pub delivery_address : ℕ
  pub delivery_latitude : Option Num
  pub delivery_longitude : Option Num
  pub comment : Option ℕ
  pub scheduled_date : Option ℕ
  pub time_window_from : Option ℕ
  pub time_window_to : Option ℕ
  pub zone_id : Option ℕ
  pub assigned_courier_id : Option ℕ
  pub metadata : Option (Value Num)

-- A field that is undefined is `none`, and one that is null is `some none`.
pub record UpdateOrderDto (Num : Type 0) : Type 0 where
  pub external_id : Option (Option ℕ)
  pub order_number : Option (Option ℕ)
  pub customer_name : Option (Option ℕ)
  pub customer_phone : Option (Option ℕ)
  pub delivery_address : Option ℕ
  pub delivery_latitude : Option (Option Num)
  pub delivery_longitude : Option (Option Num)
  pub comment : Option (Option ℕ)
  pub scheduled_date : Option (Option ℕ)
  pub time_window_from : Option (Option ℕ)
  pub time_window_to : Option (Option ℕ)
  pub zone_id : Option (Option ℕ)
  pub assigned_courier_id : Option (Option ℕ)
  pub metadata : Option (Value Num)

pub record UpdateOrderStatusDto (Num : Type 0) : Type 0 where
  pub status : OrderStatus
  pub reason : Option ℕ
  pub metadata : Option (Value Num)

-- A row of `orderStatusHistory`.
pub record OrderStatusHistory (Num : Type 0) : Type 0 where
  pub company_id : ℕ
  pub order_id : ℕ
  pub from_status : OrderStatus
  pub to_status : OrderStatus
  pub changed_by_user_id : ℕ
  pub reason : Option ℕ
  pub metadata : Value Num

-- A row of `auditLog` with the action `order.status-changed`.
pub record StatusAudit (Num : Type 0) : Type 0 where
  pub company_id : ℕ
  pub actor_id : ℕ
  pub actor_role : ℕ
  pub entity_id : ℕ
  pub request_id : Option ℕ
  pub before : OrderStatus
  pub after : OrderStatus
  pub reason : Option ℕ
  pub metadata : Value Num

-- The events that are handed to the emitter. Its failures are caught, so an emission never fails a call.
pub data OrderEvent (Num Decimal : Type 0) : Type 0 where
  order_created : Option ℕ → Option ℕ → Order Num Decimal → OrderEvent Num Decimal
  order_status_changed :
      ℕ
      → ℕ
      → OrderStatus
      → OrderStatus
      → Option ℕ
      → Option ℕ
      → Order Num Decimal
      → OrderEvent Num Decimal

-- Whether the company has the zone, and the courier.
pub record References : Type 0 where
  pub has_zone : ℕ → ℕ → Bool
  pub has_courier : ℕ → ℕ → Bool

-- An undefined or null field of a DTO, for the tests that take both for false.
abbrev pub given : Option (Option ℕ) → Option ℕ
given field = get_or field none

unfoldable pub validate_time_window : Option ℕ → Option ℕ → Result (Unit {0})
validate_time_window (some time_window_from) (some time_window_to) =
    throw_if (ltb time_window_to time_window_from) bad_request
validate_time_window _ _ = ok tt

unfoldable pub ensure_references : References → ℕ → Option ℕ → Option ℕ → Result (Unit {0})
ensure_references references company_id zone_id assigned_courier_id = do
  throw_if (truthy zone_id && not (references.has_zone company_id (get_or zone_id 0))) not_found
  throw_if
      (truthy assigned_courier_id
        && not (references.has_courier company_id (get_or assigned_courier_id 0)))
      not_found

-- `toDecimal`, with `new Prisma.Decimal(value)` for `decimal`.
abbrev pub to_decimal : {Num Decimal : Type 0} → (Num → Decimal) → Option Num → Option Decimal
to_decimal decimal none = none
to_decimal decimal (some value) = some (decimal value)

abbrev pub update_decimal :
    {Num Decimal : Type 0} → (Num → Decimal) → Option (Option Num) → Option Decimal → Option Decimal
update_decimal decimal none old = old
update_decimal decimal (some value) old = to_decimal decimal value

-- `dto.assignedCourierId !== undefined && dto.assignedCourierId !== currentOrder.assigned_courier_id`
abbrev pub assignment_changed : Option (Option ℕ) → Option ℕ → Bool
assignment_changed none old = false
assignment_changed (some courier) old = not (courier ==? old)

module _ {Num Decimal : Type 0} (decimal : Num → Decimal) where
  -- `data` of `order.create`, completed by the identifier.
  unfoldable pub new_order : ℕ → Option ℕ → CreateOrderDto Num → ℕ → Order Num Decimal
  new_order company_id actor_user_id dto id = record {
    id = id;
    company_id = company_id;
    status = new;
    external_id = dto.external_id;
    order_number = dto.order_number;
    customer_name = dto.customer_name;
    customer_phone = dto.customer_phone;
    delivery_address = dto.delivery_address;
    delivery_latitude = to_decimal decimal dto.delivery_latitude;
    delivery_longitude = to_decimal decimal dto.delivery_longitude;
    comment = dto.comment;
    scheduled_date = dto.scheduled_date;
    time_window_from = dto.time_window_from;
    time_window_to = dto.time_window_to;
    zone_id = dto.zone_id;
    assigned_courier_id = dto.assigned_courier_id;
    created_by_user_id = actor_user_id;
    assigned_by_user_id = if truthy dto.assigned_courier_id then actor_user_id else none;
    metadata = get_or dto.metadata null;
  }

  -- `data` of `order.update`
  unfoldable pub edit_order :
      Option ℕ → UpdateOrderDto Num → Order Num Decimal → Order Num Decimal → Order Num Decimal
  edit_order actor_user_id dto current p = record p {
    external_id = get_or dto.external_id p.external_id;
    order_number = get_or dto.order_number p.order_number;
    customer_name = get_or dto.customer_name p.customer_name;
    customer_phone = get_or dto.customer_phone p.customer_phone;
    delivery_address = get_or dto.delivery_address p.delivery_address;
    delivery_latitude = update_decimal decimal dto.delivery_latitude p.delivery_latitude;
    delivery_longitude = update_decimal decimal dto.delivery_longitude p.delivery_longitude;
    comment = get_or dto.comment p.comment;
    scheduled_date = get_or dto.scheduled_date p.scheduled_date;
    time_window_from = get_or dto.time_window_from p.time_window_from;
    time_window_to = get_or dto.time_window_to p.time_window_to;
    zone_id = get_or dto.zone_id p.zone_id;
    assigned_courier_id = get_or dto.assigned_courier_id p.assigned_courier_id;
    assigned_by_user_id =
        if assignment_changed dto.assigned_courier_id current.assigned_courier_id
        then (if truthy (given dto.assigned_courier_id) then actor_user_id else none)
        else p.assigned_by_user_id;
    metadata = get_or dto.metadata p.metadata;
  }
