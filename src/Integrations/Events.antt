-- ===== src/Integrations/Events.antt =====
-- The row of the event while `importOrder` of
-- backend/src/modules/integrations/integrations.service.ts runs.
use logistics_center.Base.{
  ℕ, ◌≡◌, refl, sym, ap, subst, ◌∙◌, inl, inr, Bool, true, false, Option, none, some, ◌==◌,
  Result-cases, ok, err, internal, conflict, or_throw, or_throw-some, bind_returns, ok_injective,
  Option-cases, if◌then◌else◌, arith,
}
use logistics_center.Base.Text.{Text}
use logistics_center.Database.{Table}
use logistics_center.Orders.Columns.{Order, References}
use logistics_center.Orders.Service.{create_order}
use logistics_center.Integrations.Rows.{
  created, existing, InboundImportResult, InboundIntegration, InboundIntegrationOrderDto,
  ImportResponse, InboundEvent, Attempt, finished, thrown, order_dto,
  map_integration_order_response,
}
use logistics_center.Integrations.Import.{
  find_external_id_map, resolve_existing_mapped_order, ensure_external_id_map, is_event, succeed,
  mark_event_succeeded, store_response, finish_import, import_new_order, names_external_id,
  attempt_import,
}
use logistics_center.Integrations.Responses.{HasDates, map_integration_order_response-HasDates}
use logistics_center.Integrations.Processing.{Db}

module _ {Num Decimal : Type 0} (decimal : Num → Decimal) (orders : Table (Order Num Decimal))
    (events : Table (InboundEvent Num)) (references : References) (request_id : Option ℕ) (now : ℕ)
    (iso : ℕ → Text) where
  abbrev DbOf : Type 0
  DbOf = Db decimal orders events references request_id now iso

  -- The event has the response, and the integrations are as they were.
  pub record HasResponded (id : ℕ) (before after : DbOf) (response : ImportResponse Num)
      : Type 0 where
    pub entity_id : ℕ
    pub external_id : ℕ
    pub row : InboundEvent Num
    pub written :
        events.update
          (is_event decimal orders events references request_id now iso id)
          (succeed decimal orders events references request_id now iso entity_id external_id
            response)
          before.event_rows
        ≡ some (row, after.event_rows)
    pub integrations : after.integrations ≡ before.integrations
    pub dates : HasDates response

  -- The events and the integrations are as they were.
  abbrev pub Stays : DbOf → DbOf → Type 0
  Stays before db = (db.event_rows ≡ before.event_rows) × (db.integrations ≡ before.integrations)

  pub ensure_external_id_map-Stays :
      (integration : InboundIntegration) (external_id internal_id : ℕ) (before db db' : DbOf)
      → Stays before db
      → ensure_external_id_map decimal orders events references request_id now iso integration
          external_id internal_id db
        ≡ ok db'
      → Stays before db'
  unfolding ensure_external_id_map
  ensure_external_id_map-Stays integration external_id internal_id before db db' stays h =
      elim (Option-cases (
        find_external_id_map decimal orders events references request_id now iso
          integration.company_id external_id db)) [
            | inl n ↦
                let added = rw n at h in
                let same = ok_injective _ db' added in
                (
                  sym (ap (λ d. d.event_rows) same) ∙ stays.0,
                  sym (ap (λ d. d.integrations) same) ∙ stays.1,
                )
            | inr (m, e) ↦
                let found = rw e at h in
                let same : db ≡ db' = kept_if (m.internal_id == internal_id) db db' found in
                subst (Stays before) same stays
          ]
    where
      kept_if : (b : Bool) (d d' : DbOf) → (if b then ok d else err conflict) ≡ ok d' → d ≡ d'
      kept_if true d d' h = ok_injective d d' h
      kept_if false d d' h = absurd (ground arith)

  pub mark_event_succeeded-HasResponded :
      (id entity_id external_id : ℕ) (response : ImportResponse Num) (before db db' : DbOf)
      → db.event_rows ≡ before.event_rows
      → db.integrations ≡ before.integrations
      → HasDates response
      → mark_event_succeeded decimal orders events references request_id now iso id entity_id
          external_id response db
        ≡ ok db'
      → HasResponded id before db' response
  unfolding mark_event_succeeded
  mark_event_succeeded-HasResponded id entity_id external_id response before db db' rows same dates
        h =
      let f =
        succeed decimal orders events references request_id now iso entity_id external_id
          response in
      let test = is_event decimal orders events references request_id now iso id in
      let ((row, rows'), e, h1) =
        bind_returns (or_throw (events.update test f db.event_rows) internal) _ h in
      let written = or_throw-some _ internal (row, rows') e in
      let out = ok_injective (record db { event_rows = rows' }) db' h1 in
      record {
        entity_id = entity_id;
        external_id = external_id;
        row = row;
        written =
            subst (λ s. events.update test f s ≡ some (row, db'.event_rows)) rows
              (written ∙ ap (λ s. some (row, s)) (ap (λ d. d.event_rows) out));
        integrations = sym (ap (λ d. d.integrations) out) ∙ same;
        dates = dates;
      }

  -- Until an attempt ends, the events stay; where it ends, its event has the response.
  abbrev pub AttemptKeeps : ℕ → DbOf → DbOf × Attempt Num → Type 0
  AttemptKeeps id before (db, finished response) = HasResponded id before db response
  AttemptKeeps id before (db, thrown e names) = Stays before db

  store_response-AttemptKeeps :
      (id entity_id external_id : ℕ) (response : ImportResponse Num) (before db : DbOf)
      → Stays before db
      → HasDates response
      → AttemptKeeps id before (
          store_response decimal orders events references request_id now iso id entity_id
            external_id response db)
  store_response-AttemptKeeps id entity_id external_id response before db stays dates =
      elim (Result-cases (
        mark_event_succeeded decimal orders events references request_id now iso id entity_id
          external_id response db)) [
            | inl (e, h) ↦
                let same : (db, thrown e false)
                    ≡ store_response decimal orders events references request_id now iso id
                        entity_id external_id response db =
                  rw (store_response, h) in
                subst (AttemptKeeps id before) same stays
            | inr (db', h) ↦
                let same : (db', finished response)
                    ≡ store_response decimal orders events references request_id now iso id
                        entity_id external_id response db =
                  rw (store_response, h) in
                subst (AttemptKeeps id before) same (
                  mark_event_succeeded-HasResponded id entity_id external_id response before db db'
                    stays.0 stays.1 dates h)
          ]

  module _ (integration : InboundIntegration) (key : Text) where
    finish_import-AttemptKeeps :
        (external_id id : ℕ) (import_result : InboundImportResult) (o : Order Num Decimal)
        (before db : DbOf)
        → Stays before db
        → AttemptKeeps id before (
            finish_import decimal orders events references request_id now iso integration key
              external_id id import_result o db)
    unfolding finish_import
    finish_import-AttemptKeeps external_id id import_result o before db stays =
        elim (Result-cases (
          ensure_external_id_map decimal orders events references request_id now iso integration
            external_id o.id db)) [
              | inl (e, h) ↦
                  let same : (db, thrown e false)
                      ≡ finish_import decimal orders events references request_id now iso
                          integration key external_id id import_result o db =
                    rw (finish_import, h) in
                  subst (AttemptKeeps id before) same stays
              | inr (db1, h) ↦
                  let kept =
                    ensure_external_id_map-Stays integration external_id o.id before db db1 stays
                      h in
                  elim (Result-cases
                    (map_integration_order_response key integration.name import_result o)) [
                      | inl (e, k) ↦
                          let same : (db1, thrown e true)
                              ≡ finish_import decimal orders events references request_id now iso
                                  integration key external_id id import_result o db =
                            rw (finish_import, h) (rw k refl) in
                          subst (AttemptKeeps id before) same kept
                      | inr (response, k) ↦
                          let same : store_response decimal orders events references request_id now
                                iso id o.id external_id response db1
                              ≡ finish_import decimal orders events references request_id now iso
                                  integration key external_id id import_result o db =
                            rw (finish_import, h) (rw k refl) in
                          subst (AttemptKeeps id before) same (
                            store_response-AttemptKeeps id o.id external_id response before db1 kept
                              (map_integration_order_response-HasDates key integration.name
                                import_result o response k))
                    ]
            ]

    import_new_order-AttemptKeeps :
        (dto : InboundIntegrationOrderDto Num) (id : ℕ) (db : DbOf)
        → AttemptKeeps id db (
            import_new_order decimal orders events references request_id now iso integration key dto
              id db)
    import_new_order-AttemptKeeps dto id db =
        elim (Result-cases (
          create_order decimal orders references request_id integration.company_id none
            (order_dto dto) db.orders_db)) [
              | inl (e, h) ↦
                  let same : (
                    db,
                    thrown e (
                        names_external_id decimal orders events references request_id now iso
                          integration.company_id dto.external_id db e),
                  )
                      ≡ import_new_order decimal orders events references request_id now iso
                          integration key dto id db =
                    rw (import_new_order, h) in
                  subst (AttemptKeeps id db) same (refl, refl)
              | inr ((o, orders_db'), h) ↦
                  let same : finish_import decimal orders events references request_id now iso
                        integration key dto.external_id id created o
                        (record db { orders_db = orders_db' })
                      ≡ import_new_order decimal orders events references request_id now iso
                          integration key dto id db =
                    rw (import_new_order, h) in
                  subst (AttemptKeeps id db) same (
                    finish_import-AttemptKeeps dto.external_id id created o db
                      (record db { orders_db = orders_db' }) (refl, refl))
            ]

    pub attempt_import-AttemptKeeps :
        (dto : InboundIntegrationOrderDto Num) (id : ℕ) (db : DbOf)
        → AttemptKeeps id db (
            attempt_import decimal orders events references request_id now iso integration key dto
              id db)
    unfolding attempt_import
    attempt_import-AttemptKeeps dto id db =
        elim (Result-cases (
          resolve_existing_mapped_order decimal orders events references request_id now iso
            integration.company_id dto.external_id db)) [
              | inl (e, h) ↦
                  let same : (db, thrown e false)
                      ≡ attempt_import decimal orders events references request_id now iso
                          integration key dto id db =
                    rw (attempt_import, h) in
                  subst (AttemptKeeps id db) same (refl, refl)
              | inr (none, h) ↦
                  let same : import_new_order decimal orders events references request_id now iso
                        integration key dto id db
                      ≡ attempt_import decimal orders events references request_id now iso
                          integration key dto id db =
                    rw (attempt_import, h) in
                  subst (AttemptKeeps id db) same (import_new_order-AttemptKeeps dto id db)
              | inr (some o, h) ↦
                  let same : finish_import decimal orders events references request_id now iso
                        integration key dto.external_id id existing o db
                      ≡ attempt_import decimal orders events references request_id now iso
                          integration key dto id db =
                    rw (attempt_import, h) in
                  subst (AttemptKeeps id db) same
                    (finish_import-AttemptKeeps dto.external_id id existing o db db (refl, refl))
            ]
