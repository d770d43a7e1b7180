-- ===== src/Integrations/Linked.antt =====
-- The orders and the map of external identifiers in
-- backend/src/modules/integrations/integrations.service.ts.
use logistics_center.Base.{
  ℕ, ◌≡◌, refl, sym, ap, subst, ◌∙◌, inl, inr, Bool, true, false, Option, none, ◌==◌, ==_iff,
  ==_refl, Elem, find, find_complete, ok, err, conflict, not_found, bind_returns, ok_injective,
  or_throw, or_throw-some, Option-cases, if◌then◌else◌, arith, &&_iff,
}
use logistics_center.Base.Text.{Text, text_eq_refl}
use logistics_center.Database.{Table}
use logistics_center.Orders.Columns.{
  Order, CreateOrderDto, References, new_order, validate_time_window, ensure_references,
}
use logistics_center.Orders.Service.{
  OrdersDb, create_order, store_order, ensure_unique_order_keys, get_order,
}
use logistics_center.Orders.Unique.{IsUnique}
use logistics_center.Integrations.Rows.{
  InboundIntegration, ExternalIdMap, InboundEvent, order_entity_type, maps_order,
}
use logistics_center.Integrations.Import.{
  find_external_id_map, map_row, ensure_external_id_map, write_event,
}
use logistics_center.Integrations.Processing.{Db}

module _ {Num Decimal : Type 0} (decimal : Num → Decimal) (orders : Table (Order Num Decimal))
    (events : Table (InboundEvent Num)) (references : References) (request_id : Option ℕ) (now : ℕ)
    (iso : ℕ → Text) where
  abbrev DbOf : Type 0
  DbOf = Db decimal orders events references request_id now iso

  -- The company has an order with the identifier.
  abbrev pub HasOrder : OrdersDb decimal orders → ℕ → ℕ → Type 0
  HasOrder db company_id id =
      (o : Order Num Decimal) × orders.Has db.rows o × (o.company_id ≡ company_id) × (o.id ≡ id)

  -- No two orders of a company share an external identifier or a number, each external identifier is
  -- mapped to an order of its company that there is, and to one only.
  pub record IsLinked (db : DbOf) : Type 0 where
    pub unique : IsUnique decimal orders db.orders_db
    pub linked :
        (m : ExternalIdMap) → Elem m db.maps → HasOrder db.orders_db m.company_id m.internal_id
    pub mapped_once :
        (m n : ExternalIdMap)
        → Elem m db.maps
        → Elem n db.maps
        → m.company_id ≡ n.company_id
        → m.entity_type ≡ n.entity_type
        → m.external_id ≡ n.external_id
        → m.internal_id ≡ n.internal_id

  -- An event is written.
  pub write_event-IsLinked :
      (id : ℕ) (f : InboundEvent Num → InboundEvent Num) (db db' : DbOf)
      → write_event decimal orders events references request_id now iso id f db ≡ ok db'
      → IsLinked db
      → IsLinked db'
  write_event-IsLinked id f db db' h inv =
      let (out, _, h1) = bind_returns (or_throw (events.update _ f db.event_rows) _) _ h in
      subst IsLinked (ok_injective (record db { event_rows = out.1 }) db' h1)
        (record { unique = inv.unique; linked = inv.linked; mapped_once = inv.mapped_once })

  row_maps :
      (company_id external_id : ℕ) (n : ExternalIdMap)
      → n.company_id ≡ company_id
      → n.entity_type ≡ order_entity_type
      → n.external_id ≡ external_id
      → maps_order company_id external_id n ≡ true
  row_maps company_id external_id n c t e = rw c (
      rw t (
        rw e (rw (==_refl company_id) (rw (text_eq_refl order_entity_type) (==_refl external_id)))))

  pub ensure_external_id_map-IsLinked :
      (integration : InboundIntegration) (external_id internal_id : ℕ) (db db' : DbOf)
      → HasOrder db.orders_db integration.company_id internal_id
      → ensure_external_id_map decimal orders events references request_id now iso integration
          external_id internal_id db
        ≡ ok db'
      → IsLinked db
      → IsLinked db' × (db'.orders_db ≡ db.orders_db)
  unfolding ensure_external_id_map find_external_id_map
  ensure_external_id_map-IsLinked integration external_id internal_id db db' has h inv =
      let company = integration.company_id in
      let row =
        map_row decimal orders events references request_id now iso company integration.id
          external_id internal_id in
      elim (Option-cases (find (maps_order company external_id) db.maps)) [
        | inr (m, e) ↦
            let found = rw e at h in
            let same = kept_if (m.internal_id == internal_id) db db' found in
            (subst IsLinked same inv, sym (ap (λ d. d.orders_db) same))
        | inl missing ↦
            let added = rw missing at h in
            let same = ok_injective _ db' added in
            let other : (n : ExternalIdMap)
                → Elem n db.maps
                → n.company_id ≡ company
                → n.entity_type ≡ order_entity_type
                → n.external_id ≡ external_id
                → ⊥ =
              λ n m c t e. true≢false (
                sym (row_maps company external_id n c t e)
                ∙ find_complete (maps_order company external_id) db.maps n missing m) in
            (
              subst IsLinked same (record {
                unique = inv.unique;
                linked = λ m k. elim k [
                  | inl e ↦
                      subst (λ x. HasOrder db.orders_db x.company_id x.internal_id) (sym e) has
                  | inr old ↦ inv.linked m old
                ];
                mapped_once = λ m n km kn c t e. elim km [
                  | inl em ↦ elim kn [
                    | inl en ↦ ap (λ x. x.internal_id) (em ∙ sym en)
                    | inr old ↦ absurd (
                        other n old (sym c ∙ ap (λ x. x.company_id) em)
                          (sym t ∙ ap (λ x. x.entity_type) em) (sym e ∙ ap (λ x. x.external_id) em))
                  ]
                  | inr old ↦ elim kn [
                    | inl en ↦ absurd (
                        other m old (c ∙ ap (λ x. x.company_id) en) (t ∙ ap (λ x. x.entity_type) en)
                          (e ∙ ap (λ x. x.external_id) en))
                    | inr old' ↦ inv.mapped_once m n old old' c t e
                  ]
                ];
              }),
              sym (ap (λ d. d.orders_db) same),
            )
      ]
    where
      true≢false : true ≡ false → ⊥
      true≢false h = cc

      kept_if : (b : Bool) (d d' : DbOf) → (if b then ok d else err conflict) ≡ ok d' → d ≡ d'
      kept_if true d d' h = ok_injective d d' h
      kept_if false d d' h = absurd (ground arith)

  -- An order that is created leaves the others.
  pub create_order-keeps :
      (company_id : ℕ) (dto : CreateOrderDto Num) (db db' : OrdersDb decimal orders)
      (p r : Order Num Decimal)
      → create_order decimal orders references request_id company_id none dto db ≡ ok (p, db')
      → orders.Has db.rows r
      → orders.Has db'.rows r
  unfolding create_order store_order
  create_order-keeps company_id dto db db' p r h has =
      let (_, _, h1) =
        bind_returns (validate_time_window dto.time_window_from dto.time_window_to) _ h in
      let (_, _, h2) =
        bind_returns
          (ensure_unique_order_keys decimal orders company_id dto.external_id dto.order_number none
            db)
          _ h1 in
      let (_, _, h3) =
        bind_returns (ensure_references references company_id dto.zone_id dto.assigned_courier_id) _
          h2 in
      let row = new_order decimal company_id none dto in
      let same = ok_injective (store_order decimal orders none request_id row db) (p, db') h3 in
      subst (λ out. orders.Has out.1.rows r) same (orders.create_kept row db.rows r has)

  pub get_order-HasOrder :
      (company_id id : ℕ) (db : OrdersDb decimal orders) (o : Order Num Decimal)
      → get_order decimal orders company_id id db ≡ ok o
      → HasOrder db company_id o.id
  unfolding get_order
  get_order-HasOrder company_id id db o h =
      let (has, meets) = orders.find_first_some _ db.rows o (or_throw-some _ not_found o h) in
      let (own, _) = (&&_iff (o.company_id == company_id) (o.id == id)).0 meets in
      (o, has, (==_iff o.company_id company_id).0 own, refl)
