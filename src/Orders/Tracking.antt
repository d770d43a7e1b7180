-- ===== src/Orders/Tracking.antt =====
-- The status history that backend/src/modules/orders/orders.service.ts writes: what it tells of each
-- order.
use logistics_center.Base.{
  differs, ℕ, ◌≤◌, ◌≡◌, ◌≢◌, refl, sym, ap, subst, ◌∙◌, ◌⊎◌, inl, inr, Bool, true, false, not,
  Option, some, List, [], ◌∷◌, ◌++◌, length, Elem, ok, not_found, invalid_state_transition,
  bind_returns, ok_injective, or_throw-some, throw_if, or_throw, Bool-cases, arith,
}
use logistics_center.Database.{Table}
use logistics_center.Database.Keyed.{IsKey, update_row_of, returned_row_of}
use logistics_center.Orders.StateMachine.{OrderStatus, new, can_transition}
use logistics_center.Orders.Replay.{
  Replays, Replays-push, step_of, length_of_replay, history_of, history_of-append_same,
  history_of-append_other,
}
use logistics_center.Orders.Columns.{Order, UpdateOrderStatusDto, OrderStatusHistory}
use logistics_center.Orders.Service.{OrdersDb, is_order, status_history, transition_order_status}

module _ {Num Decimal : Type 0} (decimal : Num → Decimal) (orders : Table (Order Num Decimal)) where
  open orders use {State, Has, find_first, update}

  -- The history of every order leads from new to its status, and belongs to orders that there are.
  pub record IsTracked (db : OrdersDb decimal orders) : Type 0 where
    pub replays :
        (o : Order Num Decimal) → Has db.rows o → Replays new (history_of o.id db.history) o.status
    pub known :
        (h : OrderStatusHistory Num)
        → Elem h db.history
        → (o : Order Num Decimal) × Has db.rows o × (o.id ≡ h.order_id)

  pub is_order_id :
      (company_id order_id : ℕ) (o : Order Num Decimal)
      → is_order decimal orders company_id order_id o ≡ true
      → o.id ≡ order_id
  is_order_id company_id order_id o h = ground arith

  abbrev with_status : OrderStatus → Order Num Decimal → Order Num Decimal
  with_status s o = record o { status = s }

  Elem-push : {A : Type 0} (a b : A) (xs : List A) → Elem a (xs ++ (b ∷ [])) → Elem a xs ⊎ (a ≡ b)
  Elem-push a b [] (inl e) = inr e
  Elem-push a b [] (inr m) = absurd m
  Elem-push a b (x ∷ xs) (inl e) = inl (inl e)
  Elem-push a b (x ∷ xs) (inr m) = elim (Elem-push a b xs m) [ inl k ↦ inl (inr k) | inr e ↦ inr e ]

  -- A row of the history is written for the one row of an order that meets a condition and that is
  -- updated to the new status.
  module _ (order_id : ℕ) (test : Order Num Decimal → Bool)
      (f : Order Num Decimal → Order Num Decimal) (h : OrderStatusHistory Num)
      (db : OrdersDb decimal orders) (current : Order Num Decimal)
      (key : (x y : Order Num Decimal) → Has db.rows x → Has db.rows y → x.id ≡ y.id → x ≡ y)
      (inv : IsTracked db) (named : (x : Order Num Decimal) → test x ≡ true → x.id ≡ order_id)
      (has : Has db.rows current) (meets : test current ≡ true)
      (same_id : (f current).id ≡ current.id) (from : h.from_status ≡ current.status)
      (to : (f current).status ≡ h.to_status) (written_for : h.order_id ≡ order_id)
      (c : can_transition current.status h.to_status ≡ true) where
    unique : IsKey orders test db.rows
    unique x y hx hy px py = key x y hx hy (named x px ∙ sym (named y py))

    abbrev after : List (OrderStatusHistory Num)
    after = db.history ++ (h ∷ [])

    -- Any row but the one that is updated has another identifier.
    other_id : (o : Order Num Decimal) → Has db.rows o → test o ≡ false → o.id ≢ order_id
    other_id o ho fails e =
        let same : o ≡ current = key o current ho has (e ∙ sym (named current meets)) in
        let t : test o ≡ true = ap test same ∙ meets in cc

    Replays-current : Replays new (history_of (f current).id after) (f current).status
    Replays-current =
        let grown =
          Replays-push new current.status (history_of current.id db.history) h
            (inv.replays current has) from c in
        subst (λ i. Replays new (history_of i after) (f current).status) (sym same_id)
          (subst (λ s. Replays new (history_of current.id after) s) (sym to)
            (subst (λ rows. Replays new rows h.to_status)
              (sym (
                history_of-append_same current.id db.history h
                  (written_for ∙ sym (named current meets))))
              grown))

    Replays-beside :
        (o : Order Num Decimal)
        → Has db.rows o
        → o.id ≢ order_id
        → Replays new (history_of o.id after) o.status
    Replays-beside o ho n =
        let other = differs h.order_id o.id (λ e. n (sym (sym written_for ∙ e))) in
        subst (λ rows. Replays new rows o.status)
          (sym (history_of-append_other o.id db.history h other)) (inv.replays o ho)

    -- An identifier that has a row keeps one.
    known_old :
        (rows' : State) (q o : Order Num Decimal)
        → update test f db.rows ≡ some (q, rows')
        → Has db.rows o
        → (x : Order Num Decimal) × Has rows' x × (x.id ≡ o.id)
    known_old rows' q o written ho = elim (Bool-cases (test o)) [
      | inl t ↦
          let returned =
            returned_row_of orders test f db.rows rows' current q unique has meets written in
          (
            q,
            orders.update_in test f db.rows q rows' written,
            ap (λ x. x.id) returned ∙ same_id ∙ ap (λ x. x.id) (unique current o has ho meets t),
          )
      | inr n ↦ (o, orders.update_kept test f db.rows q rows' o written ho n, refl)
    ]

    known_all :
        (rows' : State) (q : Order Num Decimal) (g : OrderStatusHistory Num)
        → update test f db.rows ≡ some (q, rows')
        → Elem g after
        → (o : Order Num Decimal) × Has rows' o × (o.id ≡ g.order_id)
    known_all rows' q g written m = elim (Elem-push g h db.history m) [
      | inl old ↦
          let (o, ho, e) = inv.known g old in
          let (x, hx, same) = known_old rows' q o written ho in (x, hx, same ∙ e)
      | inr e ↦
          let (x, hx, same) = known_old rows' q current written has in
          (x, hx, same ∙ named current meets ∙ sym written_for ∙ sym (ap (λ x. x.order_id) e))
    ]

    pub push_history-IsTracked :
        (rows' : State) (q : Order Num Decimal) (db' : OrdersDb decimal orders)
        → update test f db.rows ≡ some (q, rows')
        → db'.rows ≡ rows'
        → db'.history ≡ after
        → IsTracked db'
    push_history-IsTracked rows' q db' written same_rows same_history = record {
      replays = λ o m.
          elim (update_row_of orders test f db.rows rows' current q o unique has meets written
            (subst (λ s. Has s o) same_rows m)) [
              | inl e ↦
                  subst (λ x. Replays new (history_of x.id db'.history) x.status) (sym e)
                    (subst (λ hs. Replays new (history_of (f current).id hs) (f current).status)
                      (sym same_history) Replays-current)
              | inr (old, fails) ↦
                  subst (λ hs. Replays new (history_of o.id hs) o.status) (sym same_history)
                    (Replays-beside o old (other_id o old fails))
            ];
      known = λ g m.
          let (o, ho, e) = known_all rows' q g written (subst (Elem g) same_history m) in
          (o, subst (λ s. Has s o) (sym same_rows) ho, e);
    }

  -- Where identifiers are a key and the history of every order leads from new to its status by
  -- allowed changes, a change of an order's status that returns leaves that so, also for the
  -- order that it changes; and every row of the history still belongs to an order.
  pub transition_order_status-IsTracked :
      (request_id : Option ℕ) (company_id actor role order_id : ℕ) (dto : UpdateOrderStatusDto Num)
      (db db' : OrdersDb decimal orders) (p : Order Num Decimal)
      → ((x y : Order Num Decimal) → Has db.rows x → Has db.rows y → x.id ≡ y.id → x ≡ y)
      → IsTracked db
      → transition_order_status decimal orders request_id company_id actor role order_id dto db
        ≡ ok (p, db')
      → IsTracked db'
  unfolding transition_order_status
  transition_order_status-IsTracked request_id company_id actor role order_id dto db db' p key inv
        h =
      let test = is_order decimal orders company_id order_id in
      let (current, found, h1) = bind_returns (or_throw (find_first test db.rows) not_found) _ h in
      let (_, allowed, h2) =
        bind_returns
          (throw_if (not (can_transition current.status dto.status)) invalid_state_transition) _
          h1 in
      let set = with_status dto.status in
      let ((q, rows'), updated, h3) =
        bind_returns (or_throw (update test set db.rows) not_found) _ h2 in
      let can : can_transition current.status dto.status ≡ true = ground (arith, allowed) in
      let (has, meets) =
        orders.find_first_some test db.rows current (or_throw-some _ not_found current found) in
      let out = ok_injective _ (p, db') h3 in
      push_history-IsTracked order_id test set
        (status_history decimal orders company_id actor order_id dto current) db current key inv
        (is_order_id company_id order_id) has meets refl refl refl refl can rows' q db'
        (or_throw-some _ not_found (q, rows') updated) (sym (ap (λ x. x.1.rows) out))
        (sym (ap (λ x. x.1.history) out))

  -- Where the histories are complete, an order has as many history rows as its status is steps
  -- from new, and so at most five.
  pub length-history_of :
      (db : OrdersDb decimal orders) (o : Order Num Decimal)
      → IsTracked db
      → Has db.rows o
      → (length (history_of o.id db.history) ≡ step_of o.status)
        × (length (history_of o.id db.history) ≤ 5)
  length-history_of db o inv has =
      let steps = length_of_replay new o.status (history_of o.id db.history) (inv.replays o has) in
      (
        omega (arith, steps),
        at_most o.status (length (history_of o.id db.history)) (omega (arith, steps)),
      )
    where
      at_most : (s : OrderStatus) (n : ℕ) → n ≡ step_of s → n ≤ 5
      at_most s n e = ground arith
