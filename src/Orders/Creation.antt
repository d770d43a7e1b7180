-- ===== src/Orders/Creation.antt =====
-- What `createOrder` of backend/src/modules/orders/orders.service.ts stores.
use logistics_center.Base.{
  ◌++◌, ◌∷◌, [], leb, When_intro, When, ℕ, ◌≡◌, refl, sym, ap, subst, ◌∙◌, Bool, true, false, not,
  ◌&&◌, Option, none, some, truthy, get_or, is_some, if◌then◌else◌, ok, conflict, not_found,
  bind_returns, ok_injective, throw_if, arith,
}
use logistics_center.Database.{Table}
use logistics_center.Orders.StateMachine.{new}
use logistics_center.Orders.Columns.{
  order_created, Order, CreateOrderDto, References, new_order, validate_time_window,
  ensure_references,
}
use logistics_center.Orders.Service.{
  OrdersDb, has_external_id, create_order, store_order, ensure_unique_order_keys,
}
use logistics_center.Orders.Unique.{
  AreUnique, IsUnique, Column, unique_with, check_passed, has_value,
}

module _ {Num Decimal : Type 0} (decimal : Num → Decimal) (orders : Table (Order Num Decimal)) where
  open orders use {State, Has, find_first, update}

  -- What a passed check of both columns says of the rows.
  pub keys_checked :
      (company_id : ℕ) (external_id order_number exclude : Option ℕ) (db : OrdersDb decimal orders)
      → ensure_unique_order_keys decimal orders company_id external_id order_number exclude db
        ≡ ok tt
      → (throw_if
            (truthy external_id
              && is_some (
                  find_first
                    (has_value decimal orders (λ o. o.external_id) company_id external_id exclude)
                    db.rows))
            conflict
          ≡ ok tt)
        × (throw_if
              (truthy order_number
                && is_some (
                    find_first
                      (has_value decimal orders
                        (λ o. o.order_number)
                        company_id
                        order_number
                        exclude)
                      db.rows))
              conflict
            ≡ ok tt)
  unfolding ensure_unique_order_keys
  keys_checked company_id external_id order_number exclude db h =
      let (_, first, h1) =
        bind_returns
          (throw_if
            (truthy external_id
              && is_some (
                  find_first (has_external_id decimal orders company_id external_id exclude)
                    db.rows))
            conflict)
          _ h in
      (first, h1)

  -- A new order, with nothing excluded from the check.
  AreUnique-create :
      (column : Column decimal orders) (row : ℕ → Order Num Decimal) (rows : State) (company_id : ℕ)
      (value : Option ℕ)
      → ((i : ℕ) → ((row i).company_id ≡ company_id) × (column (row i) ≡ value))
      → throw_if
          (truthy value
            && is_some (find_first (has_value decimal orders column company_id value none) rows))
          conflict
        ≡ ok tt
      → AreUnique decimal orders column rows
      → AreUnique decimal orders column (orders.create row rows).1
  AreUnique-create column row rows company_id value made passed inv =
      let (i, same) = orders.create_row row rows in
      unique_with decimal orders column rows (orders.create row rows).1 (orders.create row rows).0
        inv (λ y m. orders.create_has row rows y m)
        (λ y has c e t. absurd (
          true≢false (
            check_passed decimal orders column rows company_id value none passed y has
              (c ∙ ap (λ o. o.company_id) same ∙ (made i).0) (e ∙ ap column same ∙ (made i).1) t)))
    where
      true≢false : true ≡ false → ⊥
      true≢false h = cc

  -- Where no two orders of a company share an external identifier or an order number that is not
  -- empty, an order that is created leaves that so.
  pub create_order-IsUnique :
      (references : References) (request_id : Option ℕ) (company_id : ℕ) (actor : Option ℕ)
      (dto : CreateOrderDto Num) (db db' : OrdersDb decimal orders) (p : Order Num Decimal)
      → IsUnique decimal orders db
      → create_order decimal orders references request_id company_id actor dto db ≡ ok (p, db')
      → IsUnique decimal orders db'
  unfolding create_order store_order new_order
  create_order-IsUnique references request_id company_id actor dto db db' p inv h =
      let (_, _, h1) =
        bind_returns (validate_time_window dto.time_window_from dto.time_window_to) _ h in
      let (_, checked, h2) =
        bind_returns
          (ensure_unique_order_keys decimal orders company_id dto.external_id dto.order_number none
            db)
          _ h1 in
      let (_, _, h3) =
        bind_returns (ensure_references references company_id dto.zone_id dto.assigned_courier_id) _
          h2 in
      let (external, number) =
        keys_checked company_id dto.external_id dto.order_number none db checked in
      let row = new_order decimal company_id actor dto in
      let same = ok_injective (store_order decimal orders actor request_id row db) (p, db') h3 in
      subst (IsUnique decimal orders) (ap (λ out. out.1) same) (record {
        external_ids =
            AreUnique-create (λ o. o.external_id) row db.rows company_id dto.external_id
              (λ i. (refl, refl)) external inv.external_ids;
        order_numbers =
            AreUnique-create (λ o. o.order_number) row db.rows company_id dto.order_number
              (λ i. (refl, refl)) number inv.order_numbers;
      })

  -- Where both ends of the time window are given, it does not end before it starts.
  abbrev pub is_ordered : Option ℕ → Option ℕ → Bool
  is_ordered (some first) (some last) = leb first last
  is_ordered _ _ = true

  time_window_ordered :
      (first last : Option ℕ)
      → validate_time_window first last ≡ ok tt
      → is_ordered first last ≡ true
  unfolding validate_time_window
  time_window_ordered none none h = refl
  time_window_ordered none (some t) h = refl
  time_window_ordered (some f) none h = refl
  time_window_ordered (some f) (some t) h = ground arith

  references_exist :
      (references : References) (company_id : ℕ) (zone courier : Option ℕ)
      → ensure_references references company_id zone courier ≡ ok tt
      → When (truthy zone) (references.has_zone company_id (get_or zone 0) ≡ true)
        × When (truthy courier) (references.has_courier company_id (get_or courier 0) ≡ true)
  unfolding ensure_references
  references_exist references company_id zone courier h =
      let (_, first, second) =
        bind_returns
          (throw_if (truthy zone && not (references.has_zone company_id (get_or zone 0))) not_found)
          _ h in
      (
        When_intro (truthy zone) λ t. ground (arith, t, first),
        When_intro (truthy courier) λ t. ground (arith, t, second),
      )

  -- What a created order is.
  pub record IsCreated (references : References) (request_id : Option ℕ) (company_id : ℕ)
      (actor : Option ℕ) (db db' : OrdersDb decimal orders) (p : Order Num Decimal) : Type 0 where
    pub stored : Has db'.rows p
    pub status : p.status ≡ new
    pub company : p.company_id ≡ company_id
    pub window : is_ordered p.time_window_from p.time_window_to ≡ true
    pub zone : When (truthy p.zone_id) (references.has_zone company_id (get_or p.zone_id 0) ≡ true)
    pub courier :
        When
          (truthy p.assigned_courier_id)
          (references.has_courier company_id (get_or p.assigned_courier_id 0) ≡ true)
    pub assigner :
        p.assigned_by_user_id
        ≡ (if truthy p.assigned_courier_id then p.created_by_user_id else none)
    pub event : db'.events ≡ db.events ++ (order_created actor request_id p ∷ [])
    pub history : db'.history ≡ db.history

  -- An order that is created is stored as new, in the company, with a time window that is in order and
  -- with a zone and a courier of the company, if any; whoever assigned the courier is the creator. One
  -- event tells of it, and no status change is recorded.
  pub create_order-IsCreated :
      (references : References) (request_id : Option ℕ) (company_id : ℕ) (actor : Option ℕ)
      (dto : CreateOrderDto Num) (db db' : OrdersDb decimal orders) (p : Order Num Decimal)
      → create_order decimal orders references request_id company_id actor dto db ≡ ok (p, db')
      → IsCreated references request_id company_id actor db db' p
  unfolding create_order store_order new_order
  create_order-IsCreated references request_id company_id actor dto db db' p h =
      let (_, window, h1) =
        bind_returns (validate_time_window dto.time_window_from dto.time_window_to) _ h in
      let (_, checked, h2) =
        bind_returns
          (ensure_unique_order_keys decimal orders company_id dto.external_id dto.order_number none
            db)
          _ h1 in
      let (_, exist, h3) =
        bind_returns (ensure_references references company_id dto.zone_id dto.assigned_courier_id) _
          h2 in
      let row = new_order decimal company_id actor dto in
      let (zone, courier) =
        references_exist references company_id dto.zone_id dto.assigned_courier_id exist in
      let same = ok_injective (store_order decimal orders actor request_id row db) (p, db') h3 in
      let (i, made) = orders.create_row row db.rows in
      let out = store_order decimal orders actor request_id row db in
      subst (λ x. IsCreated references request_id company_id actor db x.1 x.0) same
        (record {
          stored = orders.create_in row db.rows;
          status = ap (λ o. o.status) made;
          company = ap (λ o. o.company_id) made;
          window =
              ap (λ o. is_ordered o.time_window_from o.time_window_to) made
              ∙ time_window_ordered dto.time_window_from dto.time_window_to window;
          zone =
              subst (λ z. When (truthy z) (references.has_zone company_id (get_or z 0) ≡ true))
                (sym (ap (λ o. o.zone_id) made)) zone;
          courier =
              subst (λ z. When (truthy z) (references.has_courier company_id (get_or z 0) ≡ true))
                (sym (ap (λ o. o.assigned_courier_id) made)) courier;
          assigner =
              subst
                (λ o.
                  o.assigned_by_user_id
                  ≡ (if truthy o.assigned_courier_id then o.created_by_user_id else none))
                (sym made) refl;
          event = refl;
          history = refl;
        })
