-- ===== src/Integrations/Tests.antt =====
-- Runs of `importOrder` of backend/src/modules/integrations/integrations.service.ts on a sample order.
use logistics_center.Base.{ℕ, ◌≡◌, refl, true, none, some, List, [], ◌∷◌, Option, ok, filter}
use logistics_center.Base.Text.{Text, codes}
use logistics_center.Database.{Table}
use logistics_center.Database.ListTable.{list_table}
use logistics_center.Database.PrimaryKey.{keyed_table, keyed_table-IsPrimaryKey}
use logistics_center.Values.{null, str, date}
use logistics_center.Values.Json.{to_input_json_value}
use logistics_center.Orders.StateMachine.{new}
use logistics_center.Orders.Columns.{
  Order, References, new_order, validate_time_window, ensure_references,
}
use logistics_center.Orders.Service.{create_order, store_order, ensure_unique_order_keys}
use logistics_center.Integrations.Rows.{
  created, InboundIntegration, InboundIntegrationOrderDto, ImportResponse, InboundEvent,
  read_required_header, new_event, order_dto, map_integration_order_response,
}
use logistics_center.Integrations.Import.{
  ImportDb, read_headers, resolve_integration, find_external_id_map, resolve_existing_mapped_order,
  ensure_external_id_map, mark_event_succeeded, finish_import, attempt_import,
}
use logistics_center.Integrations.Processing.{
  import_order, import_for, process_event, after_attempt,
}
use logistics_center.Integrations.Repeating.{IsAnsweredAgain, import_order_repeated}
use logistics_center.Integrations.Linked.{IsLinked}
use logistics_center.Integrations.Preserving.{import_order-IsLinked}
use logistics_center.Integrations.Settings.{
  is_supported_event, read_webhook_event_types, build_webhook_settings,
}
use logistics_center.Integrations.SettingsLaws.{read-build_webhook_settings}

abbrev iso : ℕ → Text
iso time = codes "2026-11-26"

abbrev decimal : ℕ → ℕ
decimal value = value

abbrev references : References
references = record { has_zone = λ company zone. true; has_courier = λ company courier. true }

abbrev orders : Table (Order ℕ ℕ)
orders = list_table

abbrev events : Table (InboundEvent ℕ)
events = keyed_table (λ e. e.id)

abbrev crm : InboundIntegration
crm = record {
  id = 3;
  company_id = 7;
  name = codes "crm";
  inbound_secret = some (codes "secret");
  is_active = true;
}

abbrev sample_db : ImportDb decimal orders events references none 50 iso
unfolding list_table keyed_table
sample_db = record {
  integrations = crm ∷ [];
  event_rows = [];
  maps = [];
  orders_db = record { rows = []; history = []; audit = []; events = [] };
}

abbrev dto_of : ℕ → InboundIntegrationOrderDto ℕ
dto_of address = record {
  external_id = 31;
  order_number = none;
  customer_name = none;
  customer_phone = none;
  delivery_address = address;
  delivery_latitude = none;
  delivery_longitude = none;
  comment = none;
  scheduled_date = some 9;
  time_window_from = none;
  time_window_to = none;
  metadata = none;
}

abbrev response : ImportResponse ℕ
response = record {
  idempotency_key = codes "k1";
  integration_name = codes "crm";
  import_result = created;
  order = record {
    external_id = 31;
    order_number = none;
    status = new;
    delivery_address = 5;
    customer_name = none;
    customer_phone = none;
    scheduled_date = date 9;
    time_window_from = null;
    time_window_to = null;
  };
}

abbrev name : Option Text
name = some (codes " crm ")

abbrev secret : Option Text
secret = some (codes "secret")

abbrev key : Option Text
key = some (codes "k1")

import_order_run :
    (import_order decimal orders events references none 50 iso name secret key
      (dto_of 5)
      sample_db).1
    ≡ ok response
unfolding import_order import_for process_event after_attempt read_headers read_required_header
    resolve_integration find_external_id_map resolve_existing_mapped_order ensure_external_id_map
    mark_event_succeeded finish_import attempt_import new_event order_dto
    map_integration_order_response create_order store_order ensure_unique_order_keys new_order
    validate_time_window ensure_references list_table keyed_table
import_order_run = refl

-- The second answer has the date as text.
import_order_again_run :
    (import_order decimal orders events references none 50 iso name secret key
      (dto_of 6)
      (import_order decimal orders events references none 50 iso name secret key
        (dto_of 5)
        sample_db).0).1
    ≡ ok (record response {
      order = record response.order { scheduled_date = str (codes "2026-11-26") };
    })
unfolding to_input_json_value import_order import_for process_event after_attempt read_headers
    read_required_header resolve_integration find_external_id_map resolve_existing_mapped_order
    ensure_external_id_map mark_event_succeeded finish_import attempt_import new_event order_dto
    map_integration_order_response create_order store_order ensure_unique_order_keys new_order
    validate_time_window ensure_references list_table keyed_table
import_order_again_run = refl

-- Sent again with another address, the request has the first answer, its date as text.
import_order_repeated_example :
    let after =
      (import_order decimal orders events references none 50 iso name secret key
        (dto_of 5)
        sample_db).0 in
    IsAnsweredAgain decimal orders events references none 50 iso response after
      (import_order decimal orders events references none 50 iso name secret key (dto_of 6) after)
import_order_repeated_example =
    import_order_repeated decimal orders events references none 50 iso name secret key (dto_of 5)
      (dto_of 6) sample_db response (keyed_table-IsPrimaryKey (λ e. e.id)) import_order_run

sample_db-IsLinked : IsLinked decimal orders events references none 50 iso sample_db
unfolding list_table keyed_table
sample_db-IsLinked = record {
  unique = record { external_ids = λ a b ha hb. absurd ha; order_numbers = λ a b ha hb. absurd ha };
  linked = λ m h. absurd h;
  mapped_once = λ m n h. absurd h;
}

import_order-IsLinked_example :
    IsLinked decimal orders events references none 50 iso
      (import_order decimal orders events references none 50 iso name secret key
        (dto_of 5)
        sample_db).0
import_order-IsLinked_example =
    import_order-IsLinked decimal orders events references none 50 iso name secret key (dto_of 5)
      sample_db sample_db-IsLinked

abbrev event_types : Option (List Text)
event_types = some (codes "route.built" ∷ codes "route.lost" ∷ [])

read-build_webhook_settings_example :
    read_webhook_event_types {N = ℕ} (build_webhook_settings iso event_types none)
    ≡ filter is_supported_event (codes "route.built" ∷ codes "route.lost" ∷ [])
read-build_webhook_settings_example = read-build_webhook_settings iso event_types none
