-- ===== src/Orders/Editing.antt =====
-- `updateOrder` of backend/src/modules/orders/orders.service.ts keeps external identifiers and order
-- numbers unique.
use logistics_center.Base.{
  ℕ, ◌≡◌, sym, ap, subst, ◌∙◌, ◌⊎◌, inl, inr, Bool, true, false, ◌&&◌, Option, none, some, truthy,
  get_or, is_some, ok, conflict, not_found, bind_returns, ok_injective, or_throw-some, throw_if,
  or_throw, arith,
}
use logistics_center.Database.{Table}
use logistics_center.Database.Keyed.{IsKey, update_current}
use logistics_center.Orders.Columns.{
  Order, UpdateOrderDto, References, given, edit_order, validate_time_window, ensure_references,
}
use logistics_center.Orders.Service.{
  OrdersDb, is_order, not_excluded, update_order, ensure_unique_order_keys,
}
use logistics_center.Orders.Tracking.{is_order_id}
use logistics_center.Orders.Unique.{
  AreUnique, IsUnique, Column, unique_with, check_passed, has_value,
}
use logistics_center.Orders.Creation.{keys_checked}

module _ {Num Decimal : Type 0} (decimal : Num → Decimal) (orders : Table (Order Num Decimal)) where
  open orders use {State, Has, find_first, update}

  is_company_of :
      (company_id order_id : ℕ) (o : Order Num Decimal)
      → is_order decimal orders company_id order_id o ≡ true
      → o.company_id ≡ company_id
  is_company_of company_id order_id o h = ground arith

  -- A row is replaced by one that keeps the identifier and the company.
  AreUnique-update :
      (column : Column decimal orders) (test : Order Num Decimal → Bool)
      (f : Order Num Decimal → Order Num Decimal) (rows rows' : State)
      (current q : Order Num Decimal)
      → IsKey orders test rows
      → find_first test rows ≡ some current
      → update test f rows ≡ some (q, rows')
      → ((y : Order Num Decimal)
          → Has rows y
          → y.company_id ≡ (f current).company_id
          → column y ≡ column (f current)
          → truthy (column y) ≡ true
          → y.id ≡ (f current).id)
      → AreUnique decimal orders column rows
      → AreUnique decimal orders column rows'
  AreUnique-update column test f rows rows' current q key found written alone inv =
      unique_with decimal orders column rows rows' (f current) inv split alone
    where
      split : (y : Order Num Decimal) → Has rows' y → (y ≡ f current) ⊎ Has rows y
      split y m = elim (update_current orders test f rows rows' current q y key found written m) [
        | inl e ↦ inl e
        | inr (old, fails) ↦ inr old
      ]

  only_excluded :
      (order_id : ℕ) (y : Order Num Decimal)
      → not_excluded decimal orders (some order_id) y ≡ false
      → y.id ≡ order_id
  only_excluded order_id y h = ground arith

  -- The value of a column after an update: what the DTO gives, or else the value before.
  edited_alone :
      (column : Column decimal orders) (field : Option (Option ℕ)) (rows : State)
      (company_id order_id : ℕ) (current y : Order Num Decimal)
      → Has rows current
      → is_order decimal orders company_id order_id current ≡ true
      → throw_if
          (truthy (given field)
            && is_some (
                find_first
                  (has_value decimal orders column company_id (given field) (some order_id))
                  rows))
          conflict
        ≡ ok tt
      → AreUnique decimal orders column rows
      → Has rows y
      → y.company_id ≡ current.company_id
      → column y ≡ get_or field (column current)
      → truthy (column y) ≡ true
      → y.id ≡ current.id
  edited_alone column none rows company_id order_id current y hc meets passed inv has c e t =
      inv y current has hc c e t
  edited_alone column (some value) rows company_id order_id current y hc meets passed inv has c e
        t =
      only_excluded order_id y (
        check_passed decimal orders column rows company_id value (some order_id) passed y has
          (c ∙ is_company_of company_id order_id current meets) e t)
      ∙ sym (is_order_id decimal orders company_id order_id current meets)

  module _ (company_id order_id : ℕ) (db : OrdersDb decimal orders)
      (key : (x y : Order Num Decimal) → Has db.rows x → Has db.rows y → x.id ≡ y.id → x ≡ y) where
    unique : IsKey orders (is_order decimal orders company_id order_id) db.rows
    unique x y hx hy px py = key x y hx hy (
        is_order_id decimal orders company_id order_id x px
        ∙ sym (is_order_id decimal orders company_id order_id y py))

    -- Where identifiers are a key, and no two orders of a company share an external identifier or
    -- an order number that is not empty, an edit that returns leaves that so: an order may keep
    -- its own, but takes none of another order.
    pub update_order-IsUnique :
        (references : References) (actor : Option ℕ) (dto : UpdateOrderDto Num)
        (db' : OrdersDb decimal orders) (p : Order Num Decimal)
        → IsUnique decimal orders db
        → update_order decimal orders references company_id actor order_id dto db ≡ ok (p, db')
        → IsUnique decimal orders db'
    unfolding update_order edit_order
    update_order-IsUnique references actor dto db' p inv h =
        let test = is_order decimal orders company_id order_id in
        let (_, _, h1) =
          bind_returns
            (validate_time_window (given dto.time_window_from) (given dto.time_window_to)) _ h in
        let (current, found, h2) =
          bind_returns (or_throw (find_first test db.rows) not_found) _ h1 in
        let (_, checked, h3) =
          bind_returns
            (ensure_unique_order_keys decimal orders company_id (given dto.external_id)
              (given dto.order_number) (some order_id) db)
            _ h2 in
        let (_, _, h4) =
          bind_returns
            (ensure_references references company_id (given dto.zone_id)
              (given dto.assigned_courier_id))
            _ h3 in
        let set = edit_order decimal actor dto current in
        let ((q, rows'), updated, h5) =
          bind_returns (or_throw (update test set db.rows) not_found) _ h4 in
        let found' = or_throw-some _ not_found current found in
        let written = or_throw-some _ not_found (q, rows') updated in
        let (hc, meets) = orders.find_first_some test db.rows current found' in
        let (external, number) =
          keys_checked decimal orders company_id (given dto.external_id) (given dto.order_number)
            (some order_id) db checked in
        subst (IsUnique decimal orders) (ap (λ out. out.1) (ok_injective _ (p, db') h5)) (record {
          external_ids =
              AreUnique-update (λ o. o.external_id) test set db.rows rows' current q unique found'
                written
                (λ y has.
                  edited_alone (λ o. o.external_id) dto.external_id db.rows company_id order_id
                    current y hc meets external inv.external_ids has)
                inv.external_ids;
          order_numbers =
              AreUnique-update (λ o. o.order_number) test set db.rows rows' current q unique found'
                written
                (λ y has.
                  edited_alone (λ o. o.order_number) dto.order_number db.rows company_id order_id
                    current y hc meets number inv.order_numbers has)
                inv.order_numbers;
        })
