-- ===== src/Routing/AssignedOrder.antt =====
-- What `syncRouteOrdersWithCourier` of backend/src/modules/routing/routing.service.ts does to one order.
use logistics_center.Base.{
  ℕ, ◌≡◌, ◌≢◌, refl, sym, ap, ◌∙◌, ◌⊎◌, inl, inr, Bool, true, false, some, Bool-cases, arith,
}
use logistics_center.Base.Text.{Text}
use logistics_center.Database.{Table}
use logistics_center.Database.Keyed.{IsKey, update_row_of}
use logistics_center.Orders.StateMachine.{OrderStatus, assigned, can_transition}
use logistics_center.Orders.Columns.{Order}
use logistics_center.Orders.Service.{is_order}
use logistics_center.Orders.Tracking.{IsTracked, is_order_id, push_history-IsTracked}
use logistics_center.Orders.Preservation.{update-IsTracked}
use logistics_center.Routing.Plan.{RouteOrder}
use logistics_center.Routing.Assignment.{
  RouteAssignment, AssignmentDb, should_transition_to_assigned, assign_order, assignment_history,
  record_assignment,
}

module _ {Num Decimal : Type 0} (decimal : Num → Decimal) (orders : Table (Order Num Decimal))
    (text_of : ℕ → Text) (assigned_reason : ℕ) (by : RouteAssignment) where
  open orders use {State, Has, update}

  abbrev Db : Type 0
  Db = AssignmentDb decimal orders text_of assigned_reason by

  -- Identifiers are a key, and each order of the plan is stored with the status of the plan.
  abbrev pub AreKeyed : State → Type 0
  AreKeyed rows = (x y : Order Num Decimal) → Has rows x → Has rows y → x.id ≡ y.id → x ≡ y

  abbrev pub IsStored : State → RouteOrder Decimal → Type 0
  IsStored rows o =
      (x : Order Num Decimal) × Has rows x
      × (x.id ≡ o.id)
      × (x.company_id ≡ by.company_id)
      × (x.status ≡ o.status)

  assign_order_id :
      (s : OrderStatus) (x : Order Num Decimal)
      → (assign_order decimal orders text_of assigned_reason by s x).id ≡ x.id
  unfolding assign_order
  assign_order_id s x = refl

  module _ (o : RouteOrder Decimal) (rows rows' : State) (q : Order Num Decimal)
      (key : AreKeyed rows) (stored : IsStored rows o)
      (written : update
          (is_order decimal orders by.company_id o.id)
          (assign_order decimal orders text_of assigned_reason by o.status)
          rows
        ≡ some (q, rows')) where
    abbrev target : Order Num Decimal → Bool
    target = is_order decimal orders by.company_id o.id

    target-IsKey : IsKey orders (is_order decimal orders by.company_id o.id) rows
    target-IsKey x y hx hy px py = key x y hx hy (
        is_order_id decimal orders by.company_id o.id x px
        ∙ sym (is_order_id decimal orders by.company_id o.id y py))

    meets : target stored.0 ≡ true
    meets = let (x, has, id, company, status) = stored in ground (arith, id, company)

    -- No other row has the identifier of the updated one.
    not_twice : (y : Order Num Decimal) → Has rows y → target y ≡ false → y.id ≢ stored.0.id
    not_twice y hy fails e =
        let (x, has, id, company, status) = stored in
        let t : target y ≡ true = ap target (key y x hy has e) ∙ meets in cc

    split :
        (r : Order Num Decimal)
        → Has rows' r
        → (r ≡ assign_order decimal orders text_of assigned_reason by o.status stored.0)
          ⊎ (Has rows r × (target r ≡ false))
    split r m =
        let (x, has, id, company, status) = stored in
        update_row_of orders target _ rows rows' x q r target-IsKey has meets written m

    -- Assigning an order keeps identifiers a key.
    pub AreKeyed-assigned : AreKeyed rows'
    AreKeyed-assigned x y hx hy e =
        let same = assign_order_id o.status stored.0 in
        elim (split x hx) [
          | inl ex ↦ elim (split y hy) [
            | inl ey ↦ ex ∙ sym ey
            | inr (oy, fails) ↦ absurd (not_twice y oy fails (sym e ∙ ap (λ z. z.id) ex ∙ same))
          ]
          | inr (ox, fails) ↦ elim (split y hy) [
            | inl ey ↦ absurd (not_twice x ox fails (e ∙ ap (λ z. z.id) ey ∙ same))
            | inr (oy, fails') ↦ key x y ox oy e
          ]
        ]

    -- It leaves the other orders of the plan stored.
    pub IsStored-assigned :
        (o' : RouteOrder Decimal) → o'.id ≢ o.id → IsStored rows o' → IsStored rows' o'
    IsStored-assigned o' n (x, has, id, company, status) =
        let other : target x ≡ false = elim (Bool-cases (target x)) [
          | inl t ↦ absurd (n (sym id ∙ is_order_id decimal orders by.company_id o.id x t))
          | inr f ↦ f
        ] in
        (x, orders.update_kept target _ rows q rows' x written has other, id, company, status)

  pub rows_recorded :
      (o : RouteOrder Decimal) (q : Order Num Decimal) (rows' : State) (s : Db)
      → (record_assignment decimal orders text_of assigned_reason by o q rows' s).orders_db.rows
        ≡ rows'
  unfolding record_assignment
  rows_recorded o q rows' s = elim (Bool-cases (should_transition_to_assigned o.status)) [
    | inl t ↦ rw t refl
    | inr f ↦ rw f refl
  ]

  may_transition :
      (s : OrderStatus) → should_transition_to_assigned s ≡ true → can_transition s assigned ≡ true
  unfolding should_transition_to_assigned
  may_transition s h = ground arith

  pub record_assignment-IsTracked :
      (o : RouteOrder Decimal) (q : Order Num Decimal) (rows' : State) (s : Db)
      → AreKeyed s.orders_db.rows
      → IsStored s.orders_db.rows o
      → update
          (is_order decimal orders by.company_id o.id)
          (assign_order decimal orders text_of assigned_reason by o.status)
          s.orders_db.rows
        ≡ some (q, rows')
      → IsTracked decimal orders s.orders_db
      → IsTracked decimal orders
          (record_assignment decimal orders text_of assigned_reason by o q rows' s).orders_db
  unfolding record_assignment assign_order
  record_assignment-IsTracked o q rows' s key stored written inv =
      let (x, has, id, company, status) = stored in
      let test = is_order decimal orders by.company_id o.id in
      let set = assign_order decimal orders text_of assigned_reason by o.status in
      let t = meets o s.orders_db.rows rows' q key stored written in
      elim (Bool-cases (should_transition_to_assigned o.status)) [
        | inl go ↦
            push_history-IsTracked decimal orders o.id test set
              (assignment_history decimal orders text_of assigned_reason by o) s.orders_db x key inv
              (is_order_id decimal orders by.company_id o.id) has t refl (sym status) (rw go refl)
              refl (ap (λ z. can_transition z assigned) status ∙ may_transition o.status go) rows' q
              _ written (rows_recorded o q rows' s) (rw go refl)
        | inr stay ↦ rw stay (
            update-IsTracked decimal orders test set s.orders_db x q rows'
              (λ z. (refl, rw stay refl))
              (target-IsKey o s.orders_db.rows rows' q key stored written) has t written inv)
      ]
