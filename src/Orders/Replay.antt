-- ===== src/Orders/Replay.antt =====
-- Sequences of status changes that backend/src/modules/orders/order-state-machine.ts allows, and the rows
-- of one order among those that orders.service.ts beside it writes.
use logistics_center.Base.{
  ℕ, suc, ◌+◌, ◌≡◌, refl, sym, ap, subst, ◌∙◌, inl, inr, true, false, List, [], ◌∷◌, ◌++◌, ◌==◌,
  filter, length, Elem, arith,
}
use logistics_center.Orders.StateMachine.{
  OrderStatus, new, confirmed, assigned, handed_over, in_transit, delivered, undelivered, returned,
  cancelled, can_transition, order_status_transitions,
}
use logistics_center.Orders.Columns.{OrderStatusHistory}

-- The rows lead from a status to another by changes that the state machine allows.
abbrev pub Replays :
    {Num : Type 0} → OrderStatus → List (OrderStatusHistory Num) → OrderStatus → Type 0
Replays first [] last = first ≡ last
Replays first (h ∷ hs) last =
    (h.from_status ≡ first)
    × (can_transition first h.to_status ≡ true)
    × Replays h.to_status hs last

-- How many changes lead to a status.
abbrev pub step_of : OrderStatus → ℕ
step_of new = 0
step_of confirmed = 1
step_of assigned = 2
step_of handed_over = 3
step_of in_transit = 4
step_of delivered = 5
step_of undelivered = 5
step_of returned = 5
step_of cancelled = 5

step_of_next : (s t : OrderStatus) → can_transition s t ≡ true → step_of t ≡ suc (step_of s)
unfolding can_transition order_status_transitions
step_of_next s t h = ground arith

module _ {Num : Type 0} where
  pub Replays-push :
      (first last : OrderStatus) (hs : List (OrderStatusHistory Num)) (h : OrderStatusHistory Num)
      → Replays first hs last
      → h.from_status ≡ last
      → can_transition last h.to_status ≡ true
      → Replays first (hs ++ (h ∷ [])) h.to_status
  Replays-push first last [] h e from c =
      (from ∙ sym e, subst (λ s. can_transition s h.to_status ≡ true) (sym e) c, refl)
  Replays-push first last (g ∷ gs) h (a, b, rest) from c =
      (a, b, Replays-push g.to_status last gs h rest from c)

  -- Each change is one step, so as many rows lead to a status as it is steps away.
  pub length_of_replay :
      (first last : OrderStatus) (hs : List (OrderStatusHistory Num))
      → Replays first hs last
      → length hs + step_of first ≡ step_of last
  length_of_replay first last [] e = let same = ap step_of e in omega arith
  length_of_replay first last (h ∷ hs) (a, b, rest) =
      let later = length_of_replay h.to_status last hs rest in
      let next = step_of_next first h.to_status b in omega arith

  -- The rows of an order.
  abbrev pub history_of : ℕ → List (OrderStatusHistory Num) → List (OrderStatusHistory Num)
  history_of order_id hs = filter (λ h. h.order_id == order_id) hs

  pub history_of-append_same :
      (order_id : ℕ) (hs : List (OrderStatusHistory Num)) (h : OrderStatusHistory Num)
      → h.order_id ≡ order_id
      → history_of order_id (hs ++ (h ∷ [])) ≡ history_of order_id hs ++ (h ∷ [])
  history_of-append_same order_id [] h e = ground (arith, e)
  history_of-append_same order_id (g ∷ gs) h e =
      grind (arith, history_of-append_same order_id gs h e)

  pub history_of-append_other :
      (order_id : ℕ) (hs : List (OrderStatusHistory Num)) (h : OrderStatusHistory Num)
      → (h.order_id == order_id) ≡ false
      → history_of order_id (hs ++ (h ∷ [])) ≡ history_of order_id hs
  history_of-append_other order_id [] h e = rw e
  history_of-append_other order_id (g ∷ gs) h e = rw (history_of-append_other order_id gs h e)

  pub history_of-none :
      (order_id : ℕ) (hs : List (OrderStatusHistory Num))
      → ((h : OrderStatusHistory Num) → Elem h hs → (h.order_id == order_id) ≡ false)
      → history_of order_id hs ≡ []
  history_of-none order_id [] f = refl
  history_of-none order_id (h ∷ hs) f =
      rw (f h (inl refl)) (history_of-none order_id hs λ g m. f g (inr m))
