-- ===== src/Routing/Assigned.antt =====
-- `syncRouteOrdersWithCourier` of backend/src/modules/routing/routing.service.ts leaves the histories of
-- orders complete.
use logistics_center.Base.{
  ℕ, ◌≡◌, ◌≢◌, refl, sym, ap, subst, ◌∙◌, inl, inr, not, some, List, [], ◌∷◌, ◌==◌, truthy, Elem,
  Distinct, map, Bool-cases, ok, not_found, bind_returns, ok_injective, or_throw-some, throw_if,
  or_throw,
}
use logistics_center.Base.Text.{Text}
use logistics_center.Database.{Table}
use logistics_center.Orders.Columns.{Order}
use logistics_center.Orders.Service.{is_order}
use logistics_center.Orders.Tracking.{IsTracked}
use logistics_center.Routing.StateMachine.{is_terminal_order_status}
use logistics_center.Routing.Plan.{RouteOrder}
use logistics_center.Routing.Assignment.{
  RouteAssignment, AssignmentDb, assign_order, assign_open_order, sync_order, sync_orders,
  sync_route_orders_with_courier,
}
use logistics_center.Routing.AssignedOrder.{
  AreKeyed, IsStored, AreKeyed-assigned, IsStored-assigned, rows_recorded,
  record_assignment-IsTracked,
}

module _ {Num Decimal : Type 0} (decimal : Num → Decimal) (orders : Table (Order Num Decimal))
    (text_of : ℕ → Text) (assigned_reason : ℕ) (by : RouteAssignment) where
  open orders use {State, Has, update}

  abbrev Db : Type 0
  Db = AssignmentDb decimal orders text_of assigned_reason by

  -- What the loop keeps, for the orders that it still has to visit.
  record Keeps (os : List (RouteOrder Decimal)) (s : Db) : Type 0 where
    keyed : AreKeyed decimal orders text_of assigned_reason by s.orders_db.rows
    tracked : IsTracked decimal orders s.orders_db
    stored :
        (o : RouteOrder Decimal)
        → Elem o os
        → IsStored decimal orders text_of assigned_reason by s.orders_db.rows o

  other_order :
      (o o' : RouteOrder Decimal) (os : List (RouteOrder Decimal))
      → (Elem o.id (map (λ x. x.id) os) → ⊥)
      → Elem o' os
      → o'.id ≢ o.id
  other_order o o' [] new m e = absurd m
  other_order o o' (x ∷ xs) new (inl same) e = new (inl (sym e ∙ ap (λ y. y.id) same))
  other_order o o' (x ∷ xs) new (inr m) e = other_order o o' xs (λ k. new (inr k)) m e

  assign_open_order-Keeps :
      (o : RouteOrder Decimal) (os : List (RouteOrder Decimal)) (s s' : Db)
      → Distinct (map (λ x. x.id) (o ∷ os))
      → Keeps (o ∷ os) s
      → assign_open_order decimal orders text_of assigned_reason by o s ≡ ok s'
      → Keeps os s'
  unfolding assign_open_order
  assign_open_order-Keeps o os s s' (new, d) k h =
      let ((q, rows'), updated, h1) =
        bind_returns
          (or_throw
            (update (is_order decimal orders by.company_id o.id)
              (assign_order decimal orders text_of assigned_reason by o.status) s.orders_db.rows)
            not_found)
          _ h in
      let written = or_throw-some _ not_found (q, rows') updated in
      let stored = k.stored o (inl refl) in
      let same_rows = sym (rows_recorded decimal orders text_of assigned_reason by o q rows' s) in
      subst (Keeps os) (ok_injective _ s' h1) (record {
        keyed = subst (AreKeyed decimal orders text_of assigned_reason by) same_rows (
            AreKeyed-assigned decimal orders text_of assigned_reason by o s.orders_db.rows rows' q
              k.keyed stored written);
        tracked =
            record_assignment-IsTracked decimal orders text_of assigned_reason by o q rows' s
              k.keyed stored written k.tracked;
        stored = λ o' m.
            subst (λ rows. IsStored decimal orders text_of assigned_reason by rows o') same_rows
              (IsStored-assigned decimal orders text_of assigned_reason by o s.orders_db.rows rows'
                q k.keyed stored written o' (other_order o o' os new m) (k.stored o' (inr m)));
      })

  sync_order-Keeps :
      (o : RouteOrder Decimal) (os : List (RouteOrder Decimal)) (s s' : Db)
      → Distinct (map (λ x. x.id) (o ∷ os))
      → Keeps (o ∷ os) s
      → sync_order decimal orders text_of assigned_reason by o s ≡ ok s'
      → Keeps os s'
  unfolding sync_order
  sync_order-Keeps o os s s' d k h =
      let (_, own, h1) =
        bind_returns (throw_if (not (o.company_id == by.company_id)) not_found) _ h in
      elim (Bool-cases (is_terminal_order_status o.status)) [
        | inl t ↦
            let same : ok s ≡ ok s' = rw t at h1 in
            subst (Keeps os) (ok_injective s s' same) (record {
              keyed = k.keyed;
              tracked = k.tracked;
              stored = λ o' m. k.stored o' (inr m);
            })
        | inr f ↦
            let assigned_now : assign_open_order decimal orders text_of assigned_reason by o s
                ≡ ok s' =
              rw f at h1 in
            assign_open_order-Keeps o os s s' d k assigned_now
      ]

  sync_orders-Keeps :
      (os : List (RouteOrder Decimal)) (s s' : Db)
      → Distinct (map (λ x. x.id) os)
      → Keeps os s
      → sync_orders decimal orders text_of assigned_reason by os s ≡ ok s'
      → Keeps [] s'
  unfolding sync_orders
  sync_orders-Keeps [] s s' d k h = subst (Keeps []) (ok_injective s s' h) k
  sync_orders-Keeps (o ∷ os) s s' (new, d) k h =
      let (t, first, rest) =
        bind_returns (sync_order decimal orders text_of assigned_reason by o s) _ h in
      sync_orders-Keeps os t s' d (sync_order-Keeps o os s t (new, d) k first) rest

  -- Assigning the orders of a route to its courier keeps the histories of all orders complete, and
  -- identifiers a key, where the plan names no order twice and the orders are stored with the statuses
  -- of the plan.
  pub sync_route_orders_with_courier-IsTracked :
      (os : List (RouteOrder Decimal))
      (s s' : AssignmentDb decimal orders text_of assigned_reason by)
      → ((x y : Order Num Decimal)
          → Has s.orders_db.rows x
          → Has s.orders_db.rows y
          → x.id ≡ y.id
          → x ≡ y)
      → ((o : RouteOrder Decimal)
          → Elem o os
          → IsStored decimal orders text_of assigned_reason by s.orders_db.rows o)
      → Distinct (map (λ o. o.id) os)
      → IsTracked decimal orders s.orders_db
      → sync_route_orders_with_courier decimal orders text_of assigned_reason by os s ≡ ok s'
      → IsTracked decimal orders s'.orders_db
        × AreKeyed decimal orders text_of assigned_reason by s'.orders_db.rows
  unfolding sync_route_orders_with_courier
  sync_route_orders_with_courier-IsTracked os s s' key stored d inv h =
      elim (Bool-cases (truthy (some by.courier_id))) [
        | inl t ↦
            let loop : sync_orders decimal orders text_of assigned_reason by os s ≡ ok s' =
              rw t at h in
            let k =
              sync_orders-Keeps os s s' d (record { keyed = key; tracked = inv; stored = stored })
                loop in
            (k.tracked, k.keyed)
        | inr f ↦
            let same : ok s ≡ ok s' = rw f at h in
            let e = ok_injective s s' same in
            (
              subst (λ x. IsTracked decimal orders x.orders_db) e inv,
              subst (λ x. AreKeyed decimal orders text_of assigned_reason by x.orders_db.rows) e
                  key,
            )
      ]
