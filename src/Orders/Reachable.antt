-- ===== src/Orders/Reachable.antt =====
-- The orders of backend/src/modules/orders/orders.service.ts after any sequence of its calls.
use logistics_center.Base.{length, ◌≤◌, ℕ, ◌≡◌, refl, sym, ap, subst, ◌∙◌, Option, ok}
use logistics_center.Database.{Table}
use logistics_center.Database.PrimaryKey.{IsPrimaryKey, AreKeyed, create-AreKeyed, update-AreKeyed}
use logistics_center.Orders.Columns.{
  Order, CreateOrderDto, UpdateOrderDto, UpdateOrderStatusDto, References, new_order, edit_order,
}
use logistics_center.Orders.Service.{
  OrdersDb, is_order, create_order, update_order, transition_order_status,
}
use logistics_center.Orders.Tracking.{
  IsTracked, is_order_id, transition_order_status-IsTracked, length-history_of,
}
use logistics_center.Orders.Replay.{step_of, history_of}
use logistics_center.Orders.Preservation.{create_order-IsTracked, update_order-IsTracked}
use logistics_center.Orders.Unique.{IsUnique}
use logistics_center.Orders.Creation.{create_order-IsUnique}
use logistics_center.Orders.Editing.{update_order-IsUnique}
use logistics_center.Orders.Steps.{
  order_id_of, OrderStep, created, edited, moved, Reaches, here, next, with_status,
  create_order-rows, update_order-rows, transition_order_status-rows, update-AreUnique,
}

module _ {Num Decimal : Type 0} (decimal : Num → Decimal) (orders : Table (Order Num Decimal)) where
  open orders use {Has}

  -- Identifiers are a key, the recorded history of every order leads from new to its status by
  -- allowed changes, and external identifiers and order numbers are unique in a company.
  pub record IsConsistent (db : OrdersDb decimal orders) : Type 0 where
    pub keyed : AreKeyed orders (order_id_of decimal orders) db.rows
    pub tracked : IsTracked decimal orders db
    pub unique : IsUnique decimal orders db

  create_order-IsConsistent :
      (references : References) (request_id : Option ℕ) (company_id : ℕ) (actor : Option ℕ)
      (dto : CreateOrderDto Num) (db db' : OrdersDb decimal orders) (p : Order Num Decimal)
      → IsPrimaryKey orders (order_id_of decimal orders)
      → create_order decimal orders references request_id company_id actor dto db ≡ ok (p, db')
      → IsConsistent db
      → IsConsistent db'
  unfolding new_order
  create_order-IsConsistent references request_id company_id actor dto db db' p fresh h inv =
      let row = new_order decimal company_id actor dto in
      let rows =
        create_order-rows decimal orders references request_id company_id actor dto db db' p h in
      record {
        keyed = subst (AreKeyed orders (order_id_of decimal orders)) (ap (λ out. out.1) rows) (
            create-AreKeyed orders (order_id_of decimal orders) row db.rows fresh (λ i. refl)
              inv.keyed);
        tracked =
            create_order-IsTracked decimal orders references request_id company_id actor dto db db'
              p
              (λ x has e. fresh row db.rows x (λ i. refl) has (e ∙ ap (λ out. out.0.id) (sym rows)))
              inv.tracked h;
        unique =
            create_order-IsUnique decimal orders references request_id company_id actor dto db db' p
              inv.unique h;
      }

  update_order-IsConsistent :
      (references : References) (company_id : ℕ) (actor : Option ℕ) (order_id : ℕ)
      (dto : UpdateOrderDto Num) (db db' : OrdersDb decimal orders) (p : Order Num Decimal)
      → update_order decimal orders references company_id actor order_id dto db ≡ ok (p, db')
      → IsConsistent db
      → IsConsistent db'
  unfolding edit_order
  update_order-IsConsistent references company_id actor order_id dto db db' p h inv =
      let test = is_order decimal orders company_id order_id in
      let (current, written) =
        update_order-rows decimal orders references company_id actor order_id dto db db' p h in
      record {
        keyed =
            update-AreKeyed orders (order_id_of decimal orders) test
              (edit_order decimal actor dto current) order_id db.rows db'.rows p
              (is_order_id decimal orders company_id order_id) (λ r. refl) written inv.keyed;
        tracked =
            update_order-IsTracked decimal orders references company_id actor order_id dto db db' p
              inv.keyed inv.tracked h;
        unique =
            update_order-IsUnique decimal orders company_id order_id db inv.keyed references actor
              dto db' p inv.unique h;
      }

  transition_order_status-IsConsistent :
      (request_id : Option ℕ) (company_id actor role order_id : ℕ) (dto : UpdateOrderStatusDto Num)
      (db db' : OrdersDb decimal orders) (p : Order Num Decimal)
      → transition_order_status decimal orders request_id company_id actor role order_id dto db
        ≡ ok (p, db')
      → IsConsistent db
      → IsConsistent db'
  transition_order_status-IsConsistent request_id company_id actor role order_id dto db db' p h
        inv =
      let test = is_order decimal orders company_id order_id in
      let set = with_status decimal orders dto in
      let written =
        transition_order_status-rows decimal orders request_id company_id actor role order_id dto db
          db' p h in
      record {
        keyed =
            update-AreKeyed orders (order_id_of decimal orders) test set order_id db.rows db'.rows p
              (is_order_id decimal orders company_id order_id) (λ r. refl) written inv.keyed;
        tracked =
            transition_order_status-IsTracked decimal orders request_id company_id actor role
              order_id dto db db' p inv.keyed inv.tracked h;
        unique = record {
          external_ids =
              update-AreUnique decimal orders (λ o. o.external_id) test set db.rows db'.rows p
                (λ o. (refl, refl, refl)) written inv.unique.external_ids;
          order_numbers =
              update-AreUnique decimal orders (λ o. o.order_number) test set db.rows db'.rows p
                (λ o. (refl, refl, refl)) written inv.unique.order_numbers;
        };
      }

  OrderStep-IsConsistent :
      {references : References} {db db' : OrdersDb decimal orders}
      → IsPrimaryKey orders (order_id_of decimal orders)
      → OrderStep decimal orders references db db'
      → IsConsistent db
      → IsConsistent db'
  OrderStep-IsConsistent fresh (created request_id company_id actor dto db db' p h) =
      create_order-IsConsistent _ request_id company_id actor dto db db' p fresh h
  OrderStep-IsConsistent fresh (edited company_id actor order_id dto db db' p h) =
      update_order-IsConsistent _ company_id actor order_id dto db db' p h
  OrderStep-IsConsistent fresh (moved request_id company_id actor role order_id dto db db' p h) =
      transition_order_status-IsConsistent request_id company_id actor role order_id dto db db' p h

  -- After any sequence of creations, edits and status changes that return, of any companies, identifiers
  -- of orders are a key, the recorded history of every order leads from new to its status by allowed
  -- changes, and no two orders of a company share an external identifier or a number, where this
  -- held at first and the database gives new identifiers.
  pub Reaches-IsConsistent :
      (references : References) (first db : OrdersDb decimal orders)
      → IsPrimaryKey orders (order_id_of decimal orders)
      → IsConsistent first
      → Reaches decimal orders references first db
      → IsConsistent db
  Reaches-IsConsistent references first db fresh inv here = inv
  Reaches-IsConsistent references first db fresh inv (next {db = db0} before step) =
      OrderStep-IsConsistent fresh step (Reaches-IsConsistent references first db0 fresh inv before)

  -- After any such sequence an order has as many history rows as its status is steps from new, and so
  -- at most five, where all was consistent at first and the database gives new identifiers.
  pub Reaches-length :
      (references : References) (first db : OrdersDb decimal orders) (o : Order Num Decimal)
      → IsPrimaryKey orders (order_id_of decimal orders)
      → IsConsistent first
      → Reaches decimal orders references first db
      → Has db.rows o
      → (length (history_of o.id db.history) ≡ step_of o.status)
        × (length (history_of o.id db.history) ≤ 5)
  Reaches-length references first db o fresh inv after has =
      length-history_of decimal orders db o
        (Reaches-IsConsistent references first db fresh inv after).tracked has
