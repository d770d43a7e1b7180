-- ===== src/Integrations/Rows.antt =====
-- The rows that `importOrder` of backend/src/modules/integrations/integrations.service.ts reads and writes,
-- and the values that it makes of them. The text of an error is left out.
use logistics_center.Base.{
  ℕ, Bool, true, false, ◌&&◌, Option, none, some, ◌==◌, truthy, if◌then◌else◌, Result, ok, err,
  Error, bad_request, conflict,
}
use logistics_center.Base.Text.{Text, codes, text_eq, is_empty, trim}
use logistics_center.Values.{Value, null, date}
use logistics_center.Values.Json.{to_input_json_value}
use logistics_center.Orders.StateMachine.{OrderStatus}
use logistics_center.Orders.Columns.{Order, CreateOrderDto}
use logistics_center.Webhooks.Delivery.{IntegrationEventStatus, processing, succeeded}

pub data IntegrationDirection : Type 0 where
  inbound outbound : IntegrationDirection

pub data InboundImportResult : Type 0 where
  created existing : InboundImportResult

-- The columns by which an integration is found, and `integrationSelect`.
pub record InboundIntegration : Type 0 where
  pub id : ℕ
  pub company_id : ℕ
  pub name : Text
  pub inbound_secret : Option Text
  pub is_active : Bool

pub record ExternalIdMap : Type 0 where
  pub company_id : ℕ
  pub integration_id : ℕ
  pub entity_type : Text
  pub external_id : ℕ
  pub internal_id : ℕ

-- `externalId` is not empty.
pub record InboundIntegrationOrderDto (Num : Type 0) : Type 0 where
  pub external_id : ℕ
  pub order_number : Option ℕ
  pub customer_name : Option ℕ
  pub customer_phone : Option ℕ
  pub delivery_address : ℕ
  pub delivery_latitude : Option Num
  pub delivery_longitude : Option Num
  pub comment : Option ℕ
  pub scheduled_date : Option ℕ
  pub time_window_from : Option ℕ
  pub time_window_to : Option ℕ
  pub metadata : Option (Value Num)

-- `IntegrationOrderSnapshotDto`. A date column is `null` or a date; in a response that was stored as JSON it is
-- text. `createdAt` and `updatedAt`, which no row of the model has, are left out.
pub record IntegrationOrder (Num : Type 0) : Type 0 where
  pub external_id : ℕ
  pub order_number : Option ℕ
  pub status : OrderStatus
  pub delivery_address : ℕ
  pub customer_name : Option ℕ
  pub customer_phone : Option ℕ
  pub scheduled_date : Value Num
  pub time_window_from : Value Num
  pub time_window_to : Value Num

-- `IntegrationOrderImportResponseDto`
pub record ImportResponse (Num : Type 0) : Type 0 where
  pub idempotency_key : Text
  pub integration_name : Text
  pub import_result : InboundImportResult
  pub order : IntegrationOrder Num

pub data EventResponse (Num : Type 0) : Type 0 where
  imported : ImportResponse Num → EventResponse Num
  error_of : Error → EventResponse Num

pub record InboundEvent (Num : Type 0) : Type 0 where
  pub id : ℕ
  pub company_id : ℕ
  pub integration_id : ℕ
  pub direction : IntegrationDirection
  pub event_type : Text
  pub entity_id : Option ℕ
  pub idempotency_key : Option Text
  pub external_id : ℕ
  pub status : IntegrationEventStatus
  pub processed_at : Option ℕ
  pub response : Option (EventResponse Num)

-- What the `try` block does: it ends, or throws an error whose message has `externalId` in it or not.
pub data Attempt (Num : Type 0) : Type 0 where
  finished : ImportResponse Num → Attempt Num
  thrown : Error → Bool → Attempt Num

abbrev pub inbound_order_event_type : Text
inbound_order_event_type = codes "integration.order.inbound"

abbrev pub order_entity_type : Text
order_entity_type = codes "order"

unfoldable pub read_required_header : Option Text → Result Text
read_required_header none = err bad_request
read_required_header (some value) =
    if is_empty (trim value) then err bad_request else ok (trim value)

abbrev pub is_conflict : Error → Bool
is_conflict conflict = true
is_conflict _ = false

abbrev pub is_inbound : IntegrationDirection → Bool
is_inbound inbound = true
is_inbound outbound = false

abbrev pub has_text : Option Text → Text → Bool
has_text none t = false
has_text (some s) t = text_eq s t

-- `where` of `resolveIntegration`, in all companies
abbrev pub accepts : Text → Text → InboundIntegration → Bool
accepts name secret i = text_eq i.name name && (has_text i.inbound_secret secret && i.is_active)

abbrev pub maps_order : ℕ → ℕ → ExternalIdMap → Bool
maps_order company_id external_id m =
    m.company_id == company_id
    && (text_eq m.entity_type order_entity_type && m.external_id == external_id)

-- The DTO of `ordersService.createOrder`.
unfoldable pub order_dto : {Num : Type 0} → InboundIntegrationOrderDto Num → CreateOrderDto Num
order_dto dto = record {
  external_id = some dto.external_id;
  order_number = dto.order_number;
  customer_name = dto.customer_name;
  customer_phone = dto.customer_phone;
  delivery_address = dto.delivery_address;
  delivery_latitude = dto.delivery_latitude;
  delivery_longitude = dto.delivery_longitude;
  comment = dto.comment;
  scheduled_date = dto.scheduled_date;
  time_window_from = dto.time_window_from;
  time_window_to = dto.time_window_to;
  zone_id = none;
  assigned_courier_id = none;
  metadata = dto.metadata;
}

module _ {Num : Type 0} where
  -- The unique columns of an event.
  abbrev pub has_key : ℕ → Text → InboundEvent Num → Bool
  has_key company_id key e =
      e.company_id == company_id
      && (is_inbound e.direction
          && (text_eq e.event_type inbound_order_event_type && has_text e.idempotency_key key))

  unfoldable pub new_event :
      InboundIntegration → Text → InboundIntegrationOrderDto Num → ℕ → InboundEvent Num
  new_event integration key dto id = record {
    id = id;
    company_id = integration.company_id;
    integration_id = integration.id;
    direction = inbound;
    event_type = inbound_order_event_type;
    entity_id = none;
    idempotency_key = some key;
    external_id = dto.external_id;
    status = processing;
    processed_at = none;
    response = none;
  }

  -- `loadCachedInboundResponse`, on the event that is found
  abbrev pub succeeded_response : Option (EventResponse Num) → Result (ImportResponse Num)
  succeeded_response (some (imported response)) = ok response
  succeeded_response _ = err conflict

  abbrev pub cached_response :
      IntegrationEventStatus → Option (EventResponse Num) → Result (ImportResponse Num)
  cached_response succeeded response = succeeded_response response
  cached_response _ response = err conflict

  abbrev pub date_or_null : Option ℕ → Value Num
  date_or_null none = null
  date_or_null (some time) = date time

  -- `toInputJsonValue` of a response. Its fields that are no dates are texts and `null`, which
  -- `toInputJsonValue` keeps.
  abbrev pub to_input_json_response : (ℕ → Text) → ImportResponse Num → ImportResponse Num
  to_input_json_response iso r = record r {
    order = record r.order {
      scheduled_date = to_input_json_value iso r.order.scheduled_date;
      time_window_from = to_input_json_value iso r.order.time_window_from;
      time_window_to = to_input_json_value iso r.order.time_window_to;
    };
  }

-- `mapIntegrationOrderResponse`
abbrev pub with_external_id :
    {Num Decimal : Type 0}
    → Option ℕ
    → Text
    → Text
    → InboundImportResult
    → Order Num Decimal
    → Result (ImportResponse Num)
with_external_id none key integration_name import_result o = err conflict
with_external_id (some external_id) key integration_name import_result o =
    if truthy (some external_id)
    then ok (record {
      idempotency_key = key;
      integration_name = integration_name;
      import_result = import_result;
      order = record {
        external_id = external_id;
        order_number = o.order_number;
        status = o.status;
        delivery_address = o.delivery_address;
        customer_name = o.customer_name;
        customer_phone = o.customer_phone;
        scheduled_date = date_or_null o.scheduled_date;
        time_window_from = date_or_null o.time_window_from;
        time_window_to = date_or_null o.time_window_to;
      };
    })
    else err conflict

unfoldable pub map_integration_order_response :
    {Num Decimal : Type 0}
    → Text
    → Text
    → InboundImportResult
    → Order Num Decimal
    → Result (ImportResponse Num)
map_integration_order_response key integration_name import_result o =
    with_external_id o.external_id key integration_name import_result o
