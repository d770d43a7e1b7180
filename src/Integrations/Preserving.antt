-- ===== src/Integrations/Preserving.antt =====
-- `importOrder` of backend/src/modules/integrations/integrations.service.ts keeps the orders and the map
-- of external identifiers consistent, whether it returns or throws.
use logistics_center.Base.{
  ℕ, ◌≡◌, refl, ap, subst, inl, inr, Bool, false, ◌&&◌, Option, none, some, ◌==◌, ◌==?◌, ==_iff,
  &&_iff, Result, Result-cases, ok, err, Error, bad_request, not_found, conflict, forbidden,
  unauthorized, invalid_state_transition, internal, missing_tenant_context, tenant_write_violation,
  ok_injective, Option-cases, Bool-cases, arith, ◌>>=◌,
}
use logistics_center.Base.Text.{Text}
use logistics_center.Database.{Table}
use logistics_center.Orders.Columns.{Order, References}
use logistics_center.Orders.Service.{get_order}
use logistics_center.Integrations.Rows.{
  existing, InboundIntegration, InboundIntegrationOrderDto, InboundEvent, Attempt, finished, thrown,
  has_key, new_event, cached_response, map_integration_order_response, is_conflict,
}
use logistics_center.Integrations.Import.{
  read_headers, resolve_integration, find_external_id_map, missing_is_conflict,
  resolve_existing_mapped_order, ensure_external_id_map, finish_import, import_new_order,
  attempt_import, try_recover_existing_order,
}
use logistics_center.Integrations.Processing.{
  Db, recovered, after_attempt, process_event, import_for, import_order,
}
use logistics_center.Integrations.Linked.{
  HasOrder, IsLinked, ensure_external_id_map-IsLinked, get_order-HasOrder,
}
use logistics_center.Integrations.Consistency.{
  Linked, LeavesLinked, store_recovered-LeavesLinked, store_failure-LeavesLinked,
  finish_import-LeavesLinked, import_new_order-LeavesLinked,
}

some_injective : {A : Type 0} (x y : A) → some x ≡ some y → x ≡ y
some_injective x y h = cc

module _ {Num Decimal : Type 0} (decimal : Num → Decimal) (orders : Table (Order Num Decimal))
    (events : Table (InboundEvent Num)) (references : References) (request_id : Option ℕ) (now : ℕ)
    (iso : ℕ → Text) where
  abbrev DbOf : Type 0
  DbOf = Db decimal orders events references request_id now iso

  abbrev Keeps : {A : Type 0} → DbOf × A → Type 0
  Keeps out = LeavesLinked decimal orders events references request_id now iso out

  module _ (integration : InboundIntegration) (key : Text) where
    existing_order :
        (company_id external_id : ℕ) (db : DbOf) (o : Order Num Decimal)
        → resolve_existing_mapped_order decimal orders events references request_id now iso
            company_id external_id db
          ≡ ok (some o)
        → HasOrder decimal orders events references request_id now iso db.orders_db company_id o.id
    unfolding resolve_existing_mapped_order
    existing_order company_id external_id db o h =
        elim (Option-cases (
          find_external_id_map decimal orders events references request_id now iso company_id
            external_id db)) [
              | inl n ↦ let none_mapped : ok none ≡ ok (some o) = rw n at h in absurd (ground arith)
              | inr (m, e) ↦
                  let looked = rw e at h in
                  get_order-HasOrder decimal orders events references request_id now iso company_id
                    m.internal_id db.orders_db o
                    (found_order (get_order decimal orders company_id m.internal_id db.orders_db)
                      looked)
            ]
      where
        found_order :
            (r : Result (Order Num Decimal))
            → missing_is_conflict decimal orders events references request_id now iso r
              ≡ ok (some o)
            → r ≡ ok o
        found_order (ok x) k = ap ok (some_injective x o (ok_injective (some x) (some o) k))
        found_order (err bad_request) k = absurd (ground arith)
        found_order (err not_found) k = absurd (ground arith)
        found_order (err conflict) k = absurd (ground arith)
        found_order (err forbidden) k = absurd (ground arith)
        found_order (err unauthorized) k = absurd (ground arith)
        found_order (err invalid_state_transition) k = absurd (ground arith)
        found_order (err internal) k = absurd (ground arith)
        found_order (err missing_tenant_context) k = absurd (ground arith)
        found_order (err tenant_write_violation) k = absurd (ground arith)

    attempt_import-LeavesLinked :
        (dto : InboundIntegrationOrderDto Num) (id : ℕ) (db : DbOf)
        → Linked decimal orders events references request_id now iso db
        → Keeps (
            attempt_import decimal orders events references request_id now iso integration key dto
              id db)
    unfolding attempt_import
    attempt_import-LeavesLinked dto id db inv =
        elim (Result-cases (
          resolve_existing_mapped_order decimal orders events references request_id now iso
            integration.company_id dto.external_id db)) [
              | inl (e, h) ↦
                  let same : (db, thrown e false)
                      ≡ attempt_import decimal orders events references request_id now iso
                          integration key dto id db =
                    rw (attempt_import, h) in
                  subst Keeps same inv
              | inr (none, h) ↦
                  let same : import_new_order decimal orders events references request_id now iso
                        integration key dto id db
                      ≡ attempt_import decimal orders events references request_id now iso
                          integration key dto id db =
                    rw (attempt_import, h) in
                  subst Keeps same (
                    import_new_order-LeavesLinked decimal orders events references request_id now
                      iso integration key dto id db inv)
              | inr (some o, h) ↦
                  let same : finish_import decimal orders events references request_id now iso
                        integration key dto.external_id id existing o db
                      ≡ attempt_import decimal orders events references request_id now iso
                          integration key dto id db =
                    rw (attempt_import, h) in
                  subst Keeps same (
                    finish_import-LeavesLinked decimal orders events references request_id now iso
                      integration key dto.external_id id existing o db
                      (existing_order integration.company_id dto.external_id db o h) inv)
            ]

    try_recover_existing_order-LeavesLinked :
        (external_id : ℕ) (e : Error) (names : Bool) (db : DbOf)
        → Linked decimal orders events references request_id now iso db
        → Keeps (
            try_recover_existing_order decimal orders events references request_id now iso
              integration external_id e names db)
    unfolding try_recover_existing_order
    try_recover_existing_order-LeavesLinked external_id e names db inv =
        let test = λ (o : Order Num Decimal).
          o.company_id == integration.company_id && o.external_id ==? some external_id in
        elim (Bool-cases (is_conflict e && names)) [
          | inr f ↦
              let same : (db, ok none)
                  ≡ try_recover_existing_order decimal orders events references request_id now iso
                      integration external_id e names db =
                rw f refl in
              subst Keeps same inv
          | inl t ↦ elim (Option-cases (orders.find_first test db.orders_db.rows)) [
            | inl n ↦
                let same : (db, ok none)
                    ≡ try_recover_existing_order decimal orders events references request_id now iso
                        integration external_id e names db =
                  rw t (rw n refl) in
                subst Keeps same inv
            | inr (o, found) ↦
                let (has, meets) = orders.find_first_some test db.orders_db.rows o found in
                let (own, _) =
                  (&&_iff (o.company_id == integration.company_id)
                      (o.external_id ==? some external_id)).0
                    meets in
                let order : HasOrder decimal orders events references request_id now iso
                    db.orders_db integration.company_id o.id =
                  (o, has, (==_iff o.company_id integration.company_id).0 own, refl) in
                elim (Result-cases (
                  ensure_external_id_map decimal orders events references request_id now iso
                    integration external_id o.id db)) [
                      | inl (e', h) ↦
                          let same : (db, err e')
                              ≡ try_recover_existing_order decimal orders events references
                                  request_id now iso integration external_id e names db =
                            rw t (rw found (rw h refl)) in
                          subst Keeps same inv
                      | inr (db1, h) ↦
                          let same : (
                            db1,
                            get_order decimal orders integration.company_id o.id db1.orders_db
                                >>= λ x. ok (some x),
                          )
                              ≡ try_recover_existing_order decimal orders events references
                                  request_id now iso integration external_id e names db =
                            rw t (rw found (rw h refl)) in
                          subst Keeps same
                            (ensure_external_id_map-IsLinked decimal orders events references
                              request_id now iso integration external_id o.id db db1 order h inv).0
                    ]
          ]
        ]

    recovered-LeavesLinked :
        (external_id id : ℕ) (e : Error) (found : DbOf × Result (Option (Order Num Decimal)))
        → Linked decimal orders events references request_id now iso found.0
        → Keeps (
            recovered decimal orders events references request_id now iso integration key
              external_id id e found)
    recovered-LeavesLinked external_id id e (db, err e') inv = inv
    recovered-LeavesLinked external_id id e (db, ok none) inv =
        store_failure-LeavesLinked decimal orders events references request_id now iso id
          external_id e db inv
    recovered-LeavesLinked external_id id e (db, ok (some o)) inv =
        store_recovered-LeavesLinked decimal orders events references request_id now iso id o.id
          external_id db (map_integration_order_response key integration.name existing o) inv

    after_attempt-LeavesLinked :
        (external_id id : ℕ) (attempt : DbOf × Attempt Num)
        → Linked decimal orders events references request_id now iso attempt.0
        → Keeps (
            after_attempt decimal orders events references request_id now iso integration key
              external_id id attempt)
    unfolding after_attempt
    after_attempt-LeavesLinked external_id id (db, finished response) inv = inv
    after_attempt-LeavesLinked external_id id (db, thrown e names) inv =
        recovered-LeavesLinked external_id id e
          (try_recover_existing_order decimal orders events references request_id now iso
            integration external_id e names db)
          (try_recover_existing_order-LeavesLinked external_id e names db inv)

    import_for-LeavesLinked :
        (dto : InboundIntegrationOrderDto Num) (db : DbOf)
        → Linked decimal orders events references request_id now iso db
        → Keeps
            (import_for decimal orders events references request_id now iso integration key dto db)
    unfolding import_for process_event
    import_for-LeavesLinked dto db inv =
        let (e, rows') = events.create (new_event integration key dto) db.event_rows in
        let queued : DbOf = record db { event_rows = rows' } in
        elim (Option-cases (events.find_first (has_key integration.company_id key) db.event_rows)) [
          | inr (found, has) ↦
              let same : (db, cached_response found.status found.response)
                  ≡ import_for decimal orders events references request_id now iso integration key
                      dto db =
                rw (import_for, has) in
              subst Keeps same inv
          | inl missing ↦
              let same : process_event decimal orders events references request_id now iso
                    integration key dto e queued
                  ≡ import_for decimal orders events references request_id now iso integration key
                      dto db =
                rw (import_for, missing) in
              let kept : Linked decimal orders events references request_id now iso queued =
                record {
                  unique = inv.unique;
                  linked = inv.linked;
                  mapped_once = inv.mapped_once;
                } in
              subst Keeps same (
                after_attempt-LeavesLinked dto.external_id e.id
                  (attempt_import decimal orders events references request_id now iso integration
                    key dto e.id queued)
                  (attempt_import-LeavesLinked dto e.id queued kept))
        ]

  -- Whether a call of importOrder returns or throws, it leaves no two orders of a company with one
  -- external identifier or number, and each external identifier mapped to one order of its company
  -- that there is, where this held before.
  pub import_order-IsLinked :
      (name secret key : Option Text) (dto : InboundIntegrationOrderDto Num) (db : DbOf)
      → IsLinked decimal orders events references request_id now iso db
      → IsLinked decimal orders events references request_id now iso
          (import_order decimal orders events references request_id now iso name secret key dto
            db).0
  unfolding import_order
  import_order-IsLinked name secret key dto db inv =
      elim (Result-cases
        (read_headers decimal orders events references request_id now iso name secret key)) [
          | inl (e, h) ↦
              let same : (db, err e)
                  ≡ import_order decimal orders events references request_id now iso name secret key
                      dto db =
                rw (import_order, h) in
              subst Keeps same inv
          | inr ((n, s, k), h) ↦
              elim (Result-cases
                (resolve_integration decimal orders events references request_id now iso n s db)) [
                  | inl (e, r) ↦
                      let same : (db, err e)
                          ≡ import_order decimal orders events references request_id now iso name
                              secret key dto db =
                        rw (import_order, h) (rw r refl) in
                      subst Keeps same inv
                  | inr (integration, r) ↦
                      let same : import_for decimal orders events references request_id now iso
                            integration k dto db
                          ≡ import_order decimal orders events references request_id now iso name
                              secret key dto db =
                        rw (import_order, h) (rw r refl) in
                      subst Keeps same (import_for-LeavesLinked integration k dto db inv)
                ]
        ]
