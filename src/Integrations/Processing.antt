-- ===== src/Integrations/Processing.antt =====
-- `importOrder` of backend/src/modules/integrations/integrations.service.ts as a whole: the headers, the
-- event under its key, and what follows the `try` block.
use logistics_center.Base.{ℕ, Option, none, some, Result, ok, err, Error}
use logistics_center.Base.Text.{Text}
use logistics_center.Database.{Table}
use logistics_center.Orders.Columns.{Order, References}
use logistics_center.Integrations.Rows.{
  existing, InboundIntegration, InboundIntegrationOrderDto, ImportResponse, InboundEvent, Attempt,
  finished, thrown, has_key, new_event, cached_response, map_integration_order_response,
}
use logistics_center.Integrations.Import.{
  ImportDb, read_headers, resolve_integration, mark_event_succeeded, mark_event_failed,
  attempt_import, try_recover_existing_order,
}

module _ {Num Decimal : Type 0} (decimal : Num → Decimal) (orders : Table (Order Num Decimal))
    (events : Table (InboundEvent Num)) (references : References) (request_id : Option ℕ) (now : ℕ)
    (iso : ℕ → Text) where
  abbrev pub Db : Type 0
  Db = ImportDb decimal orders events references request_id now iso

  abbrev pub Outcome : Type 0
  Outcome = Db × Result (ImportResponse Num)

  abbrev pub store_recovered : ℕ → ℕ → ℕ → Db → Result (ImportResponse Num) → Outcome
  store_recovered id entity_id external_id db (err e) = (db, err e)
  store_recovered id entity_id external_id db (ok response) =
      elim (mark_event_succeeded decimal orders events references request_id now iso id entity_id
        external_id response db) [ ok db' ↦ (db', ok response) | err e ↦ (db, err e) ]

  abbrev pub store_failure : ℕ → ℕ → Error → Db → Outcome
  store_failure id external_id error db =
      elim (mark_event_failed decimal orders events references request_id now iso id external_id
        error db) [ ok db' ↦ (db', err error) | err e ↦ (db, err e) ]

  -- The `catch` block, after `tryRecoverExistingOrder`.
  abbrev pub recovered :
      InboundIntegration → Text → ℕ → ℕ → Error → Db × Result (Option (Order Num Decimal)) → Outcome
  recovered integration key external_id id error (db, err e) = (db, err e)
  recovered integration key external_id id error (db, ok none) =
      store_failure id external_id error db
  recovered integration key external_id id error (db, ok (some o)) =
      store_recovered id o.id external_id db
        (map_integration_order_response key integration.name existing o)

  unfoldable pub after_attempt : InboundIntegration → Text → ℕ → ℕ → Db × Attempt Num → Outcome
  unfolding mark_event_succeeded mark_event_failed map_integration_order_response
  after_attempt integration key external_id id (db, finished response) = (db, ok response)
  after_attempt integration key external_id id (db, thrown error names) =
      recovered integration key external_id id error (
        try_recover_existing_order decimal orders events references request_id now iso integration
          external_id error names db)

  -- After the event is created.
  unfoldable pub process_event :
      InboundIntegration → Text → InboundIntegrationOrderDto Num → InboundEvent Num → Db → Outcome
  process_event integration key dto e db = after_attempt integration key dto.external_id e.id (
      attempt_import decimal orders events references request_id now iso integration key dto e.id
        db)

  -- `createInboundEventOrGetCached`: an event with the same key makes the database refuse the new one.
  unfoldable pub import_for :
      InboundIntegration → Text → InboundIntegrationOrderDto Num → Db → Outcome
  import_for integration key dto db =
      elim (events.find_first (has_key integration.company_id key) db.event_rows) [
        | some e ↦ (db, cached_response e.status e.response)
        | none ↦
            let (e, rows') = events.create (new_event integration key dto) db.event_rows in
            process_event integration key dto e (record db { event_rows = rows' })
      ]

  unfoldable pub import_order :
      Option Text → Option Text → Option Text → InboundIntegrationOrderDto Num → Db → Outcome
  import_order integration_name integration_secret idempotency_key dto db =
      elim (read_headers decimal orders events references request_id now iso integration_name
        integration_secret idempotency_key) [
          | err e ↦ (db, err e)
          | ok headers ↦
              elim (resolve_integration decimal orders events references request_id now iso
                headers.0 headers.1 db) [
                  | err e ↦ (db, err e)
                  | ok integration ↦ import_for integration headers.2 dto db
                ]
        ]
