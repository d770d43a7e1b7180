-- ===== src/Orders/Transition.antt =====
-- What `transitionOrderStatus` of backend/src/modules/orders/orders.service.ts writes.
use logistics_center.Base.{
  ℕ, ◌≡◌, refl, subst, Bool, true, not, Option, some, [], ◌∷◌, ◌++◌, ok, not_found,
  invalid_state_transition, bind_returns, ok_injective, &&_iff, ==_iff, sym, ap, get_or, ◌==◌,
  or_throw-some, throw_if, or_throw, arith,
}
use logistics_center.Database.{Table}
use logistics_center.Database.Keyed.{IsKey, update_returned}
use logistics_center.Orders.StateMachine.{can_transition}
use logistics_center.Orders.Columns.{
  Order, UpdateOrderStatusDto, OrderStatusHistory, StatusAudit, order_status_changed,
}
use logistics_center.Values.{null}
use logistics_center.Orders.Service.{
  OrdersDb, is_order, status_history, status_audit, transition_order_status,
}

module _ {Num Decimal : Type 0} (decimal : Num → Decimal) (orders : Table (Order Num Decimal))
    (request_id : Option ℕ) (company_id actor role order_id : ℕ)
    (dto : UpdateOrderStatusDto Num) where
  open orders use {State, Has, find_first, update}

  abbrev is_target : Order Num Decimal → Bool
  is_target = is_order decimal orders company_id order_id

  abbrev moved : Order Num Decimal → Order Num Decimal
  moved o = record o { status = dto.status }

  -- The history row tells of the order, of both statuses, of the actor and of what the request gives.
  pub record IsHistoryOf (current p : Order Num Decimal) (h : OrderStatusHistory Num) : Type 0 where
    pub company : h.company_id ≡ current.company_id
    pub order : h.order_id ≡ current.id
    pub from : h.from_status ≡ current.status
    pub to : h.to_status ≡ p.status
    pub by : h.changed_by_user_id ≡ actor
    pub reason : h.reason ≡ dto.reason
    pub metadata : h.metadata ≡ get_or dto.metadata null

  -- So does the audit row, which has the role and the request too.
  pub record IsAuditOf (current p : Order Num Decimal) (a : StatusAudit Num) : Type 0 where
    pub company : a.company_id ≡ current.company_id
    pub order : a.entity_id ≡ current.id
    pub from : a.before ≡ current.status
    pub to : a.after ≡ p.status
    pub by : a.actor_id ≡ actor
    pub as_role : a.actor_role ≡ role
    pub in_request : a.request_id ≡ request_id
    pub reason : a.reason ≡ dto.reason
    pub metadata : a.metadata ≡ get_or dto.metadata null

  -- One change: the order that is found changes only its status, to one that the state machine allows,
  -- and a history row, an audit row and an event tell of the change.
  pub record IsTransition (db db' : OrdersDb decimal orders) (p : Order Num Decimal) : Type 0 where
    pub current : Order Num Decimal
    pub found : find_first is_target db.rows ≡ some current
    pub allowed : can_transition current.status dto.status ≡ true
    pub returned : p ≡ moved current
    pub stored : Has db'.rows p
    pub history_row : OrderStatusHistory Num
    pub history : db'.history ≡ db.history ++ (history_row ∷ [])
    pub tells_history : IsHistoryOf current p history_row
    pub audit_row : StatusAudit Num
    pub audit : db'.audit ≡ db.audit ++ (audit_row ∷ [])
    pub tells_audit : IsAuditOf current p audit_row
    pub events :
        db'.events
        ≡ db.events
          ++ (order_status_changed actor role current.status dto.status dto.reason request_id p
              ∷ [])

  -- A status change that returns is one allowed change of the order of the company: only its status
  -- changes, and a history row, an audit row and an event are added, which tell of the order, of the
  -- status before and after, of the actor and of the reason. (The condition on the identifier and the
  -- company is on a key.)
  pub transition_order_status-IsTransition :
      (db db' : OrdersDb decimal orders) (p : Order Num Decimal)
      → IsKey orders (is_order decimal orders company_id order_id) db.rows
      → transition_order_status decimal orders request_id company_id actor role order_id dto db
        ≡ ok (p, db')
      → IsTransition db db' p
  unfolding transition_order_status
  transition_order_status-IsTransition db db' p key h =
      let (current, found, h1) =
        bind_returns (or_throw (find_first is_target db.rows) not_found) _ h in
      let (_, allowed, h2) =
        bind_returns
          (throw_if (not (can_transition current.status dto.status)) invalid_state_transition) _
          h1 in
      let ((q, rows'), updated, h3) =
        bind_returns (or_throw (update is_target moved db.rows) not_found) _ h2 in
      let found' = or_throw-some _ not_found current found in
      let written = or_throw-some _ not_found (q, rows') updated in
      let (_, meets) = orders.find_first_some is_target db.rows current found' in
      let (own, named) = (&&_iff (current.company_id == company_id) _).0 meets in
      let of_company = (==_iff current.company_id company_id).0 own in
      let of_id = (==_iff current.id order_id).0 named in
      let changed : q ≡ moved current =
        update_returned orders is_target moved db.rows rows' current q key found' written in
      subst (λ x. IsTransition db x.1 x.0) (ok_injective _ (p, db') h3)
        (record {
          current = current;
          found = found';
          allowed = ground (arith, allowed);
          returned = changed;
          stored = orders.update_in is_target moved db.rows q rows' written;
          history_row = status_history decimal orders company_id actor order_id dto current;
          history = refl;
          tells_history = record {
            company = sym of_company;
            order = sym of_id;
            from = refl;
            to = sym (ap (λ x. x.status) changed);
            by = refl;
            reason = refl;
            metadata = refl;
          };
          audit_row =
              status_audit decimal orders request_id company_id actor role order_id dto current;
          audit = refl;
          tells_audit = record {
            company = sym of_company;
            order = sym of_id;
            from = refl;
            to = sym (ap (λ x. x.status) changed);
            by = refl;
            as_role = refl;
            in_request = refl;
            reason = refl;
            metadata = refl;
          };
          events = refl;
        })
