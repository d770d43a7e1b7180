-- ===== src/Orders/Steps.antt =====
-- Sequences of calls of backend/src/modules/orders/orders.service.ts for any companies, in any order. A call
-- that throws writes nothing.
use logistics_center.Base.{
  ℕ, ◌≡◌, refl, sym, ap, subst, ◌∙◌, inl, inr, Bool, true, not, Option, none, some, truthy, ok,
  not_found, invalid_state_transition, bind_returns, ok_injective, or_throw, or_throw-some,
  throw_if,
}
use logistics_center.Database.{Table}
use logistics_center.Orders.StateMachine.{can_transition}
use logistics_center.Orders.Columns.{
  Order, CreateOrderDto, UpdateOrderDto, UpdateOrderStatusDto, References, given, new_order,
  edit_order, validate_time_window, ensure_references,
}
use logistics_center.Orders.Service.{
  OrdersDb, is_order, create_order, update_order, transition_order_status, store_order,
  ensure_unique_order_keys,
}
use logistics_center.Orders.Unique.{Column, AreUnique}

module _ {Num Decimal : Type 0} (decimal : Num → Decimal) (orders : Table (Order Num Decimal)) where
  open orders use {State, Has, create, update}

  abbrev pub order_id_of : Order Num Decimal → ℕ
  order_id_of o = o.id

  pub data OrderStep (references : References)
      : OrdersDb decimal orders → OrdersDb decimal orders → Type 0 where
    created :
        (request_id : Option ℕ) (company_id : ℕ) (actor : Option ℕ) (dto : CreateOrderDto Num)
        (db db' : OrdersDb decimal orders) (p : Order Num Decimal)
        → create_order decimal orders references request_id company_id actor dto db ≡ ok (p, db')
        → OrderStep references db db'
    edited :
        (company_id : ℕ) (actor : Option ℕ) (order_id : ℕ) (dto : UpdateOrderDto Num)
        (db db' : OrdersDb decimal orders) (p : Order Num Decimal)
        → update_order decimal orders references company_id actor order_id dto db ≡ ok (p, db')
        → OrderStep references db db'
    moved :
        (request_id : Option ℕ) (company_id actor role order_id : ℕ)
        (dto : UpdateOrderStatusDto Num) (db db' : OrdersDb decimal orders) (p : Order Num Decimal)
        → transition_order_status decimal orders request_id company_id actor role order_id dto db
          ≡ ok (p, db')
        → OrderStep references db db'

  pub data Reaches (references : References) (first : OrdersDb decimal orders)
      : OrdersDb decimal orders → Type 0 where
    here : Reaches references first first
    next :
        {db db' : OrdersDb decimal orders}
        → Reaches references first db
        → OrderStep references db db'
        → Reaches references first db'

  pub create_order-rows :
      (references : References) (request_id : Option ℕ) (company_id : ℕ) (actor : Option ℕ)
      (dto : CreateOrderDto Num) (db db' : OrdersDb decimal orders) (p : Order Num Decimal)
      → create_order decimal orders references request_id company_id actor dto db ≡ ok (p, db')
      → create (new_order decimal company_id actor dto) db.rows ≡ (p, db'.rows)
  unfolding create_order store_order
  create_order-rows references request_id company_id actor dto db db' p h =
      let (_, _, h1) =
        bind_returns (validate_time_window dto.time_window_from dto.time_window_to) _ h in
      let (_, _, h2) =
        bind_returns
          (ensure_unique_order_keys decimal orders company_id dto.external_id dto.order_number none
            db)
          _ h1 in
      let (_, _, h3) =
        bind_returns (ensure_references references company_id dto.zone_id dto.assigned_courier_id) _
          h2 in
      let row = new_order decimal company_id actor dto in
      ap (λ out. (out.0, out.1.rows))
        (ok_injective (store_order decimal orders actor request_id row db) (p, db') h3)

  pub update_order-rows :
      (references : References) (company_id : ℕ) (actor : Option ℕ) (order_id : ℕ)
      (dto : UpdateOrderDto Num) (db db' : OrdersDb decimal orders) (p : Order Num Decimal)
      → update_order decimal orders references company_id actor order_id dto db ≡ ok (p, db')
      → (current : Order Num Decimal) × (update
            (is_order decimal orders company_id order_id)
            (edit_order decimal actor dto current)
            db.rows
          ≡ some (p, db'.rows))
  unfolding update_order
  update_order-rows references company_id actor order_id dto db db' p h =
      let test = is_order decimal orders company_id order_id in
      let (_, _, h1) =
        bind_returns (validate_time_window (given dto.time_window_from) (given dto.time_window_to))
          _ h in
      let (current, _, h2) =
        bind_returns (or_throw (orders.find_first test db.rows) not_found) _ h1 in
      let (_, _, h3) =
        bind_returns
          (ensure_unique_order_keys decimal orders company_id (given dto.external_id)
            (given dto.order_number) (some order_id) db)
          _ h2 in
      let (_, _, h4) =
        bind_returns
          (ensure_references references company_id (given dto.zone_id)
            (given dto.assigned_courier_id))
          _ h3 in
      let (out, updated, h5) =
        bind_returns
          (or_throw (update test (edit_order decimal actor dto current) db.rows) not_found) _ h4 in
      (
        current,
        or_throw-some _ not_found out updated
            ∙ ap (λ x. some (x.0, x.1.rows)) (ok_injective _ (p, db') h5),
      )

  abbrev pub with_status : UpdateOrderStatusDto Num → Order Num Decimal → Order Num Decimal
  with_status dto o = record o { status = dto.status }

  pub transition_order_status-rows :
      (request_id : Option ℕ) (company_id actor role order_id : ℕ) (dto : UpdateOrderStatusDto Num)
      (db db' : OrdersDb decimal orders) (p : Order Num Decimal)
      → transition_order_status decimal orders request_id company_id actor role order_id dto db
        ≡ ok (p, db')
      → update (is_order decimal orders company_id order_id) (with_status dto) db.rows
        ≡ some (p, db'.rows)
  unfolding transition_order_status
  transition_order_status-rows request_id company_id actor role order_id dto db db' p h =
      let test = is_order decimal orders company_id order_id in
      let (current, _, h1) =
        bind_returns (or_throw (orders.find_first test db.rows) not_found) _ h in
      let (_, _, h2) =
        bind_returns
          (throw_if (not (can_transition current.status dto.status)) invalid_state_transition) _
          h1 in
      let (out, updated, h3) =
        bind_returns (or_throw (update test (with_status dto) db.rows) not_found) _ h2 in
      or_throw-some _ not_found out updated
      ∙ ap (λ x. some (x.0, x.1.rows)) (ok_injective _ (p, db') h3)

  -- An update that keeps the company, the identifier and a column keeps the column unique.
  pub update-AreUnique :
      (column : Column decimal orders) (test : Order Num Decimal → Bool)
      (f : Order Num Decimal → Order Num Decimal) (rows rows' : State) (q : Order Num Decimal)
      → ((o : Order Num Decimal)
          → ((f o).company_id ≡ o.company_id) × ((f o).id ≡ o.id) × (column (f o) ≡ column o))
      → update test f rows ≡ some (q, rows')
      → AreUnique decimal orders column rows
      → AreUnique decimal orders column rows'
  update-AreUnique column test f rows rows' q keeps written inv x y hx hy c e filled =
      let (x0, has_x, cx, ix, ex) = origin x hx in
      let (y0, has_y, cy, iy, ey) = origin y hy in
      ix
      ∙ inv x0 y0 has_x has_y (sym cx ∙ c ∙ cy) (sym ex ∙ e ∙ ey)
          (subst (λ v. truthy v ≡ true) ex filled)
      ∙ sym iy
    where
      origin :
          (o : Order Num Decimal)
          → Has rows' o
          → (o0 : Order Num Decimal) × Has rows o0
            × (o.company_id ≡ o0.company_id)
            × (o.id ≡ o0.id)
            × (column o ≡ column o0)
      origin o has = elim (orders.update_has test f rows q rows' o written has) [
        | inl (o0, old, _, same) ↦
            let (c0, i0, e0) = keeps o0 in
            (
              o0,
              old,
              ap (λ x. x.company_id) same ∙ c0,
              ap (λ x. x.id) same ∙ i0,
              ap column same ∙ e0,
            )
        | inr (old, _) ↦ (o, old, refl, refl, refl)
      ]
