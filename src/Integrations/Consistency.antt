-- ===== src/Integrations/Consistency.antt =====
-- The steps of `importOrder` of backend/src/modules/integrations/integrations.service.ts keep the orders
-- and the map of external identifiers consistent.
use logistics_center.Base.{
  ℕ, ◌≡◌, refl, subst, inl, inr, true, false, Option, none, Result, Result-cases, ok, err, Error,
}
use logistics_center.Base.Text.{Text}
use logistics_center.Database.{Table}
use logistics_center.Orders.Columns.{Order, References}
use logistics_center.Orders.Service.{create_order}
use logistics_center.Orders.Creation.{create_order-IsUnique, create_order-IsCreated}
use logistics_center.Integrations.Rows.{
  created, InboundImportResult, InboundIntegration, InboundIntegrationOrderDto, ImportResponse,
  InboundEvent, finished, thrown, order_dto, map_integration_order_response,
}
use logistics_center.Integrations.Import.{
  ensure_external_id_map, mark_event_succeeded, mark_event_failed, succeed, fail, store_response,
  finish_import, names_external_id, import_new_order,
}
use logistics_center.Integrations.Processing.{Db, store_recovered, store_failure}
use logistics_center.Integrations.Linked.{
  HasOrder, IsLinked, write_event-IsLinked, ensure_external_id_map-IsLinked, create_order-keeps,
}

module _ {Num Decimal : Type 0} (decimal : Num → Decimal) (orders : Table (Order Num Decimal))
    (events : Table (InboundEvent Num)) (references : References) (request_id : Option ℕ) (now : ℕ)
    (iso : ℕ → Text) where
  abbrev DbOf : Type 0
  DbOf = Db decimal orders events references request_id now iso

  abbrev pub Linked : DbOf → Type 0
  Linked db = IsLinked decimal orders events references request_id now iso db

  -- The tables of an outcome, or of an attempt, are linked.
  abbrev pub LeavesLinked : {A : Type 0} → DbOf × A → Type 0
  LeavesLinked out = Linked out.0

  abbrev succeeded_write : ℕ → ℕ → ℕ → ImportResponse Num → DbOf → Result DbOf
  succeeded_write id entity_id external_id response db =
      mark_event_succeeded decimal orders events references request_id now iso id entity_id
        external_id response db

  mark_event_succeeded-IsLinked :
      (id entity_id external_id : ℕ) (response : ImportResponse Num) (db db' : DbOf)
      → succeeded_write id entity_id external_id response db ≡ ok db'
      → Linked db
      → Linked db'
  unfolding mark_event_succeeded
  mark_event_succeeded-IsLinked id entity_id external_id response db db' h inv =
      write_event-IsLinked decimal orders events references request_id now iso id
        (succeed decimal orders events references request_id now iso entity_id external_id response)
        db db' h inv

  store_response-LeavesLinked :
      (id entity_id external_id : ℕ) (response : ImportResponse Num) (db : DbOf)
      → Linked db
      → LeavesLinked (
          store_response decimal orders events references request_id now iso id entity_id
            external_id response db)
  store_response-LeavesLinked id entity_id external_id response db inv =
      elim (Result-cases (succeeded_write id entity_id external_id response db)) [
        | inl (e, h) ↦
            let same : (db, thrown e false)
                ≡ store_response decimal orders events references request_id now iso id entity_id
                    external_id response db =
              rw (store_response, h) in
            subst LeavesLinked same inv
        | inr (db', h) ↦
            let same : (db', finished response)
                ≡ store_response decimal orders events references request_id now iso id entity_id
                    external_id response db =
              rw (store_response, h) in
            subst LeavesLinked same
              (mark_event_succeeded-IsLinked id entity_id external_id response db db' h inv)
      ]

  pub store_recovered-LeavesLinked :
      (id entity_id external_id : ℕ) (db : DbOf) (made : Result (ImportResponse Num))
      → Linked db
      → LeavesLinked (
          store_recovered decimal orders events references request_id now iso id entity_id
            external_id db made)
  store_recovered-LeavesLinked id entity_id external_id db (err e) inv = inv
  store_recovered-LeavesLinked id entity_id external_id db (ok response) inv =
      elim (Result-cases (succeeded_write id entity_id external_id response db)) [
        | inl (e, h) ↦
            let same : (db, err e)
                ≡ store_recovered decimal orders events references request_id now iso id entity_id
                    external_id db (ok response) =
              rw (store_recovered, h) in
            subst LeavesLinked same inv
        | inr (db', h) ↦
            let same : (db', ok response)
                ≡ store_recovered decimal orders events references request_id now iso id entity_id
                    external_id db (ok response) =
              rw (store_recovered, h) in
            subst LeavesLinked same
              (mark_event_succeeded-IsLinked id entity_id external_id response db db' h inv)
      ]

  pub store_failure-LeavesLinked :
      (id external_id : ℕ) (e : Error) (db : DbOf)
      → Linked db
      → LeavesLinked
          (store_failure decimal orders events references request_id now iso id external_id e db)
  unfolding mark_event_failed
  store_failure-LeavesLinked id external_id e db inv =
      elim (Result-cases (
        mark_event_failed decimal orders events references request_id now iso id external_id e
          db)) [
            | inl (e', h) ↦
                let same : (db, err e')
                    ≡ store_failure decimal orders events references request_id now iso id
                        external_id e db =
                  rw (store_failure, h) in
                subst LeavesLinked same inv
            | inr (db', h) ↦
                let same : (db', err e)
                    ≡ store_failure decimal orders events references request_id now iso id
                        external_id e db =
                  rw (store_failure, h) in
                subst LeavesLinked same (
                  write_event-IsLinked decimal orders events references request_id now iso id
                    (fail decimal orders events references request_id now iso external_id e) db db'
                    h inv)
          ]

  module _ (integration : InboundIntegration) (key : Text) where
    pub finish_import-LeavesLinked :
        (external_id id : ℕ) (import_result : InboundImportResult) (o : Order Num Decimal)
        (db : DbOf)
        → HasOrder decimal orders events references request_id now iso db.orders_db
            integration.company_id o.id
        → Linked db
        → LeavesLinked (
            finish_import decimal orders events references request_id now iso integration key
              external_id id import_result o db)
    unfolding finish_import
    finish_import-LeavesLinked external_id id import_result o db has inv =
        elim (Result-cases (
          ensure_external_id_map decimal orders events references request_id now iso integration
            external_id o.id db)) [
              | inl (e, h) ↦
                  let same : (db, thrown e false)
                      ≡ finish_import decimal orders events references request_id now iso
                          integration key external_id id import_result o db =
                    rw (finish_import, h) in
                  subst LeavesLinked same inv
              | inr (db1, h) ↦
                  let (kept, _) =
                    ensure_external_id_map-IsLinked decimal orders events references request_id now
                      iso integration external_id o.id db db1 has h inv in
                  elim (Result-cases
                    (map_integration_order_response key integration.name import_result o)) [
                      | inl (e, k) ↦
                          let same : (db1, thrown e true)
                              ≡ finish_import decimal orders events references request_id now iso
                                  integration key external_id id import_result o db =
                            rw (finish_import, h) (rw k refl) in
                          subst LeavesLinked same kept
                      | inr (response, k) ↦
                          let same : store_response decimal orders events references request_id now
                                iso id o.id external_id response db1
                              ≡ finish_import decimal orders events references request_id now iso
                                  integration key external_id id import_result o db =
                            rw (finish_import, h) (rw k refl) in
                          subst LeavesLinked same
                            (store_response-LeavesLinked id o.id external_id response db1 kept)
                    ]
            ]

    pub import_new_order-LeavesLinked :
        (dto : InboundIntegrationOrderDto Num) (id : ℕ) (db : DbOf)
        → Linked db
        → LeavesLinked (
            import_new_order decimal orders events references request_id now iso integration key dto
              id db)
    import_new_order-LeavesLinked dto id db inv =
        let company = integration.company_id in
        elim (Result-cases (
          create_order decimal orders references request_id company none (order_dto dto)
            db.orders_db)) [
              | inl (e, h) ↦
                  let same : (
                    db,
                    thrown e (
                        names_external_id decimal orders events references request_id now iso
                          company dto.external_id db e),
                  )
                      ≡ import_new_order decimal orders events references request_id now iso
                          integration key dto id db =
                    rw (import_new_order, h) in
                  subst LeavesLinked same inv
              | inr ((o, orders_db'), h) ↦
                  let stored : DbOf = record db { orders_db = orders_db' } in
                  let same : finish_import decimal orders events references request_id now iso
                        integration key dto.external_id id created o stored
                      ≡ import_new_order decimal orders events references request_id now iso
                          integration key dto id db =
                    rw (import_new_order, h) in
                  let is =
                    create_order-IsCreated decimal orders references request_id company none
                      (order_dto dto) db.orders_db orders_db' o h in
                  subst LeavesLinked same (
                    finish_import-LeavesLinked dto.external_id id created o stored
                      (o, is.stored, is.company, refl)
                      (record {
                        unique =
                            create_order-IsUnique decimal orders references request_id company none
                              (order_dto dto) db.orders_db orders_db' o inv.unique h;
                        linked = λ m k.
                            let (r, has, own, named) = inv.linked m k in
                            (
                              r,
                              create_order-keeps decimal orders events references request_id now iso
                                  company (order_dto dto) db.orders_db orders_db' o r h has,
                              own,
                              named,
                            );
                        mapped_once = inv.mapped_once;
                      }))
            ]
