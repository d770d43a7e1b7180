-- ===== src/Integrations/Import.antt =====
-- `importOrder` of backend/src/modules/integrations/integrations.service.ts: an order that another
-- system sends, with a key under which it may send it again. Its writes are no transaction, so it
-- returns the tables also where it throws. `now` is the time, and
-- `iso` is `date.toISOString()`.
use logistics_center.Base.{
  ℕ, Bool, true, false, ◌&&◌, Option, none, some, List, ◌∷◌, ◌==◌, ◌==?◌, find, is_some, truthy,
  if◌then◌else◌, Result, ok, err, Error, unauthorized, conflict, not_found, internal, ◌>>=◌,
  or_throw,
}
use logistics_center.Base.Text.{Text}
use logistics_center.Database.{Table}
use logistics_center.Orders.Columns.{Order, References}
use logistics_center.Orders.Service.{OrdersDb, has_external_id, create_order, get_order}
use logistics_center.Webhooks.Delivery.{succeeded, failed}
use logistics_center.Integrations.Rows.{
  InboundImportResult, created, existing, InboundIntegration, ExternalIdMap,
  InboundIntegrationOrderDto, ImportResponse, imported, error_of, InboundEvent, Attempt, finished,
  thrown, order_entity_type, read_required_header, is_conflict, accepts, maps_order, order_dto,
  map_integration_order_response, to_input_json_response,
}

module _ {Num Decimal : Type 0} (decimal : Num → Decimal) (orders : Table (Order Num Decimal))
    (events : Table (InboundEvent Num)) (references : References) (request_id : Option ℕ) (now : ℕ)
    (iso : ℕ → Text) where
  pub record ImportDb : Type 0 where
    pub integrations : List InboundIntegration
    pub event_rows : events.State
    pub maps : List ExternalIdMap
    pub orders_db : OrdersDb decimal orders

  -- The three headers.
  unfoldable pub read_headers :
      Option Text → Option Text → Option Text → Result (Text × Text × Text)
  unfolding read_required_header
  read_headers integration_name integration_secret idempotency_key = do
    name ← read_required_header integration_name
    secret ← read_required_header integration_secret
    key ← read_required_header idempotency_key
    ok (name, secret, key)

  unfoldable pub resolve_integration : Text → Text → ImportDb → Result InboundIntegration
  resolve_integration name secret db =
      or_throw (find (accepts name secret) db.integrations) unauthorized

  unfoldable pub find_external_id_map : ℕ → ℕ → ImportDb → Option ExternalIdMap
  find_external_id_map company_id external_id db = find (maps_order company_id external_id) db.maps

  abbrev pub missing_is_conflict : Result (Order Num Decimal) → Result (Option (Order Num Decimal))
  missing_is_conflict (ok o) = ok (some o)
  missing_is_conflict (err not_found) = err conflict
  missing_is_conflict (err e) = err e

  abbrev pub mapped_order :
      ℕ → Option ExternalIdMap → ImportDb → Result (Option (Order Num Decimal))
  mapped_order company_id none db = ok none
  mapped_order company_id (some m) db =
      missing_is_conflict (get_order decimal orders company_id m.internal_id db.orders_db)

  unfoldable pub resolve_existing_mapped_order :
      ℕ → ℕ → ImportDb → Result (Option (Order Num Decimal))
  unfolding find_external_id_map
  resolve_existing_mapped_order company_id external_id db =
      mapped_order company_id (find_external_id_map company_id external_id db) db

  abbrev pub map_row : ℕ → ℕ → ℕ → ℕ → ExternalIdMap
  map_row company_id integration_id external_id internal_id = record {
    company_id = company_id;
    integration_id = integration_id;
    entity_type = order_entity_type;
    external_id = external_id;
    internal_id = internal_id;
  }

  abbrev pub ensured_map : Option ExternalIdMap → ExternalIdMap → ImportDb → Result ImportDb
  ensured_map none row db = ok (record db { maps = row ∷ db.maps })
  ensured_map (some m) row db = if m.internal_id == row.internal_id then ok db else err conflict

  unfoldable pub ensure_external_id_map : InboundIntegration → ℕ → ℕ → ImportDb → Result ImportDb
  unfolding find_external_id_map
  ensure_external_id_map integration external_id internal_id db =
      ensured_map (find_external_id_map integration.company_id external_id db)
        (map_row integration.company_id integration.id external_id internal_id) db

  abbrev pub is_event : ℕ → InboundEvent Num → Bool
  is_event id e = e.id == id

  abbrev pub succeed : ℕ → ℕ → ImportResponse Num → InboundEvent Num → InboundEvent Num
  succeed entity_id external_id response e = record e {
    entity_id = some entity_id;
    external_id = external_id;
    status = succeeded;
    processed_at = some now;
    response = some (imported (to_input_json_response iso response));
  }

  abbrev pub fail : ℕ → Error → InboundEvent Num → InboundEvent Num
  fail external_id error e = record e {
    external_id = external_id;
    status = failed;
    processed_at = some now;
    response = some (error_of error);
  }

  -- `update({ where: { id } })` throws where there is no such event.
  abbrev pub write_event : ℕ → (InboundEvent Num → InboundEvent Num) → ImportDb → Result ImportDb
  write_event id f db = or_throw (events.update (is_event id) f db.event_rows) internal >>= λ out.
      ok (record db { event_rows = out.1 })

  unfoldable pub mark_event_succeeded : ℕ → ℕ → ℕ → ImportResponse Num → ImportDb → Result ImportDb
  mark_event_succeeded id entity_id external_id response db =
      write_event id (succeed entity_id external_id response) db

  unfoldable pub mark_event_failed : ℕ → ℕ → Error → ImportDb → Result ImportDb
  mark_event_failed id external_id error db = write_event id (fail external_id error) db

  -- The end of the `try` block.
  abbrev pub store_response : ℕ → ℕ → ℕ → ImportResponse Num → ImportDb → ImportDb × Attempt Num
  store_response id entity_id external_id response db =
      elim (mark_event_succeeded id entity_id external_id response db) [
        | ok db' ↦ (db', finished response)
        | err e ↦ (db, thrown e false)
      ]

  unfoldable pub finish_import :
      InboundIntegration
      → Text
      → ℕ
      → ℕ
      → InboundImportResult
      → Order Num Decimal
      → ImportDb
      → ImportDb × Attempt Num
  unfolding mark_event_succeeded map_integration_order_response
  finish_import integration key external_id id import_result o db =
      elim (ensure_external_id_map integration external_id o.id db) [
        | ok db1 ↦ elim (map_integration_order_response key integration.name import_result o) [
          | ok response ↦ store_response id o.id external_id response db1
          | err e ↦ (db1, thrown e true)
        ]
        | err e ↦ (db, thrown e false)
      ]

  -- Whether the error of `createOrder` is the one whose message names `externalId`: its first conflict.
  abbrev pub names_external_id : ℕ → ℕ → ImportDb → Error → Bool
  names_external_id company_id external_id db error =
      is_conflict error
      && (truthy (some external_id)
          && is_some (
              orders.find_first (has_external_id decimal orders company_id (some external_id) none)
                db.orders_db.rows))

  abbrev pub import_new_order :
      InboundIntegration
      → Text
      → InboundIntegrationOrderDto Num
      → ℕ
      → ImportDb
      → ImportDb × Attempt Num
  import_new_order integration key dto id db =
      elim (create_order decimal orders references request_id integration.company_id none
        (order_dto dto) db.orders_db) [
          | ok (o, orders_db') ↦
              finish_import integration key dto.external_id id created o
                (record db { orders_db = orders_db' })
          | err e ↦ (db, thrown e (names_external_id integration.company_id dto.external_id db e))
        ]

  -- The `try` block.
  unfoldable pub attempt_import :
      InboundIntegration
      → Text
      → InboundIntegrationOrderDto Num
      → ℕ
      → ImportDb
      → ImportDb × Attempt Num
  attempt_import integration key dto id db =
      elim (resolve_existing_mapped_order integration.company_id dto.external_id db) [
        | err e ↦ (db, thrown e false)
        | ok found ↦ elim found [
          | some o ↦ finish_import integration key dto.external_id id existing o db
          | none ↦ import_new_order integration key dto id db
        ]
      ]

  -- `tryRecoverExistingOrder`
  unfoldable pub try_recover_existing_order :
      InboundIntegration
      → ℕ
      → Error
      → Bool
      → ImportDb
      → ImportDb × Result (Option (Order Num Decimal))
  try_recover_existing_order integration external_id error names db =
      if is_conflict error && names
      then elim (orders.find_first
          (λ o. o.company_id == integration.company_id && o.external_id ==? some external_id)
          db.orders_db.rows) [
            | none ↦ (db, ok none)
            | some o ↦ elim (ensure_external_id_map integration external_id o.id db) [
              | err e ↦ (db, err e)
              | ok db1 ↦ (
                db1,
                get_order decimal orders integration.company_id o.id db1.orders_db >>= λ found.
                    ok (some found),
              )
            ]
          ]
      else (db, ok none)
