-- ===== src/Orders/Preservation.antt =====
-- Creating and editing orders in backend/src/modules/orders/orders.service.ts leave the status histories
-- complete.
use logistics_center.Base.{
  true, differs, ℕ, ◌≡◌, ◌≢◌, refl, sym, ap, subst, ◌∙◌, inl, inr, Bool, false, Option, none, some,
  ◌==◌, Elem, Bool-cases, ok, not_found, bind_returns, ok_injective, or_throw-some, or_throw,
}
use logistics_center.Database.{Table}
use logistics_center.Database.Keyed.{IsKey, update_row_of, returned_row_of}
use logistics_center.Orders.StateMachine.{new}
use logistics_center.Orders.Replay.{Replays, history_of, history_of-none}
use logistics_center.Orders.Columns.{
  Order, CreateOrderDto, UpdateOrderDto, OrderStatusHistory, References, given, new_order,
  edit_order, validate_time_window, ensure_references,
}
use logistics_center.Orders.Service.{
  OrdersDb, is_order, create_order, update_order, store_order, ensure_unique_order_keys,
}
use logistics_center.Orders.Tracking.{IsTracked, is_order_id}

module _ {Num Decimal : Type 0} (decimal : Num → Decimal) (orders : Table (Order Num Decimal)) where
  open orders use {State, Has, find_first, update}

  store_order-IsTracked :
      (request_id actor : Option ℕ) (company_id : ℕ) (dto : CreateOrderDto Num)
      (db : OrdersDb decimal orders)
      → let out =
          store_order decimal orders actor request_id (new_order decimal company_id actor dto) db in
        ((x : Order Num Decimal) → Has db.rows x → x.id ≢ out.0.id)
        → IsTracked decimal orders db
        → IsTracked decimal orders out.1
  unfolding store_order new_order
  store_order-IsTracked request_id actor company_id dto db fresh inv =
      let row = new_order decimal company_id actor dto in
      let p = (orders.create row db.rows).0 in
      let (id, made) = orders.create_row row db.rows in
      record {
        replays = λ o m. elim (orders.create_has row db.rows o m) [
          | inl e ↦
              subst (λ x. Replays new (history_of x.id db.history) x.status) (sym e)
                (subst (λ rows. Replays new rows p.status)
                  (sym (history_of-none p.id db.history foreign)) (sym (ap (λ x. x.status) made)))
          | inr old ↦ inv.replays o old
        ];
        known =
            λ h m. let (o, has, e) = inv.known h m in (o, orders.create_kept row db.rows o has, e);
      }
    where
      foreign :
          (h : OrderStatusHistory Num)
          → Elem h db.history
          → (h.order_id == (orders.create (new_order decimal company_id actor dto) db.rows).0.id)
            ≡ false
      foreign h m =
          let (o, has, e) = inv.known h m in differs h.order_id _ (λ same. fresh o has (e ∙ same))

  -- Where the histories are complete and the database gives a new order a new identifier, a
  -- creation leaves the histories complete: the new order has none yet.
  pub create_order-IsTracked :
      (references : References) (request_id : Option ℕ) (company_id : ℕ) (actor : Option ℕ)
      (dto : CreateOrderDto Num) (db db' : OrdersDb decimal orders) (p : Order Num Decimal)
      → ((x : Order Num Decimal) → Has db.rows x → x.id ≢ p.id)
      → IsTracked decimal orders db
      → create_order decimal orders references request_id company_id actor dto db ≡ ok (p, db')
      → IsTracked decimal orders db'
  unfolding create_order
  create_order-IsTracked references request_id company_id actor dto db db' p fresh inv h =
      let (_, _, h1) =
        bind_returns (validate_time_window dto.time_window_from dto.time_window_to) _ h in
      let (_, _, h2) =
        bind_returns
          (ensure_unique_order_keys decimal orders company_id dto.external_id dto.order_number none
            db)
          _ h1 in
      let (_, _, h3) =
        bind_returns (ensure_references references company_id dto.zone_id dto.assigned_courier_id) _
          h2 in
      let out =
        store_order decimal orders actor request_id (new_order decimal company_id actor dto) db in
      let same : out ≡ (p, db') = ok_injective out (p, db') h3 in
      subst (IsTracked decimal orders) (ap (λ x. x.1) same) (
        store_order-IsTracked request_id actor company_id dto db
          (λ x has e. fresh x has (e ∙ ap (λ y. y.0.id) same)) inv)

  -- An update that keeps identifiers and statuses.
  pub update-IsTracked :
      (test : Order Num Decimal → Bool) (f : Order Num Decimal → Order Num Decimal)
      (db : OrdersDb decimal orders) (current q : Order Num Decimal) (rows' : State)
      → ((x : Order Num Decimal) → ((f x).id ≡ x.id) × ((f x).status ≡ x.status))
      → IsKey orders test db.rows
      → Has db.rows current
      → test current ≡ true
      → update test f db.rows ≡ some (q, rows')
      → IsTracked decimal orders db
      → IsTracked decimal orders (record db { rows = rows' })
  update-IsTracked test f db current q rows' same key hc meets written inv = record {
    replays = λ o m.
        elim (update_row_of orders test f db.rows rows' current q o key hc meets written m) [
          | inl e ↦
              subst (λ x. Replays new (history_of x.id db.history) x.status) (sym e)
                (subst (λ s. Replays new (history_of (f current).id db.history) s)
                  (sym (same current).1)
                  (subst (λ i. Replays new (history_of i db.history) current.status)
                    (sym (same current).0) (inv.replays current hc)))
          | inr (old, fails) ↦ inv.replays o old
        ];
    known = λ h m.
        let (o, has, e) = inv.known h m in
        elim (Bool-cases (test o)) [
          | inl t ↦
              let returned =
                returned_row_of orders test f db.rows rows' current q key hc meets written in
              (
                q,
                orders.update_in test f db.rows q rows' written,
                ap (λ x. x.id) returned
                    ∙ (same current).0
                    ∙ ap (λ x. x.id) (key current o hc has meets t)
                    ∙ e,
              )
          | inr n ↦ (o, orders.update_kept test f db.rows q rows' o written has n, e)
        ];
  }

  -- Where identifiers are a key and the histories are complete, an edit that returns leaves them
  -- complete.
  pub update_order-IsTracked :
      (references : References) (company_id : ℕ) (actor : Option ℕ) (order_id : ℕ)
      (dto : UpdateOrderDto Num) (db db' : OrdersDb decimal orders) (p : Order Num Decimal)
      → ((x y : Order Num Decimal) → Has db.rows x → Has db.rows y → x.id ≡ y.id → x ≡ y)
      → IsTracked decimal orders db
      → update_order decimal orders references company_id actor order_id dto db ≡ ok (p, db')
      → IsTracked decimal orders db'
  unfolding update_order edit_order
  update_order-IsTracked references company_id actor order_id dto db db' p key inv h =
      let test = is_order decimal orders company_id order_id in
      let (_, _, h1) =
        bind_returns (validate_time_window (given dto.time_window_from) (given dto.time_window_to))
          _ h in
      let (current, found, h2) = bind_returns (or_throw (find_first test db.rows) not_found) _ h1 in
      let (_, _, h3) =
        bind_returns
          (ensure_unique_order_keys decimal orders company_id (given dto.external_id)
            (given dto.order_number) (some order_id) db)
          _ h2 in
      let (_, _, h4) =
        bind_returns
          (ensure_references references company_id (given dto.zone_id)
            (given dto.assigned_courier_id))
          _ h3 in
      let set = edit_order decimal actor dto current in
      let ((q, rows'), updated, h5) =
        bind_returns (or_throw (update test set db.rows) not_found) _ h4 in
      let (has, meets) =
        orders.find_first_some test db.rows current (or_throw-some _ not_found current found) in
      subst (IsTracked decimal orders) (ap (λ out. out.1) (ok_injective _ (p, db') h5)) (
        update-IsTracked test set db current q rows' (λ x. (refl, refl)) unique has meets
          (or_throw-some _ not_found (q, rows') updated) inv)
    where
      unique : IsKey orders (is_order decimal orders company_id order_id) db.rows
      unique x y hx hy px py = key x y hx hy (
          is_order_id decimal orders company_id order_id x px
          ∙ sym (is_order_id decimal orders company_id order_id y py))
