-- ===== src/Compensation/StateMachine.antt =====
-- backend/src/modules/compensation/payment-state-machine.ts
use logistics_center.Base.{Bool, true, false, ◌||◌, List, [], ◌∷◌}

pub data PaymentStatus : Type 0 where
  draft calculated approved paid disputed : PaymentStatus

abbrev pub payment_status_eq : PaymentStatus → PaymentStatus → Bool
payment_status_eq draft draft = true
payment_status_eq calculated calculated = true
payment_status_eq approved approved = true
payment_status_eq paid paid = true
payment_status_eq disputed disputed = true
payment_status_eq _ _ = false

abbrev pub includes_payment_status : List PaymentStatus → PaymentStatus → Bool
includes_payment_status [] s = false
includes_payment_status (x ∷ xs) s = payment_status_eq x s || includes_payment_status xs s

-- `ALLOWED_PAYMENT_TRANSITIONS`
unfoldable pub allowed_payment_transitions : PaymentStatus → List PaymentStatus
allowed_payment_transitions draft = calculated ∷ []
allowed_payment_transitions calculated = approved ∷ []
allowed_payment_transitions approved = paid ∷ []
allowed_payment_transitions paid = disputed ∷ []
allowed_payment_transitions disputed = []

unfoldable pub can_transition_payment : PaymentStatus → PaymentStatus → Bool
unfolding allowed_payment_transitions
can_transition_payment current_status next_status =
    includes_payment_status (allowed_payment_transitions current_status) next_status
