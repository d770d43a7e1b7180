-- ===== src/Compensation/Transitions.antt =====
-- The record of status changes that a payment keeps in its metadata:
-- `buildPaymentCalculationMetadata` and `appendPaymentStatusTransition` of
-- backend/src/modules/compensation/payments.service.ts.
use logistics_center.Base.{ℕ, Option, none, some, [], ◌∷◌, get_or}
use logistics_center.Base.Text.{Text, codes}
use logistics_center.Values.{
  Value, Items, Fields, num, str, date, arr, obj, nil, cons, end, field, get, put, plain_object,
}
use logistics_center.Compensation.Ecma.{Ecma}
use logistics_center.Compensation.StateMachine.{
  PaymentStatus, draft, calculated, approved, paid, disputed,
}

abbrev pub status_name : PaymentStatus → Text
status_name draft = codes "draft"
status_name calculated = codes "calculated"
status_name approved = codes "approved"
status_name paid = codes "paid"
status_name disputed = codes "disputed"

module _ {N : Type 0} where
  -- `[...items, item]`
  abbrev pub push : Items N → Value N → Items N
  push nil v = cons v nil
  push (cons x xs) v = cons x (push xs v)

  abbrev pub keep_record : Value N → Items N → Items N
  keep_record (obj fs) xs = cons (obj fs) xs
  keep_record (date t) xs = cons (date t) xs
  keep_record _ xs = xs

  abbrev pub keep_records : Items N → Items N
  keep_records nil = nil
  keep_records (cons x xs) = keep_record x (keep_records xs)

  -- `toRecordArray`
  unfoldable pub to_record_array : Value N → Items N
  to_record_array (arr xs) = keep_records xs
  to_record_array _ = nil

  -- `if (transition.reason) …`
  abbrev pub put_reason : Option Text → Fields N → Fields N
  put_reason none fs = fs
  put_reason (some []) fs = fs
  put_reason (some (c ∷ t)) fs = put (codes "reason") (str (c ∷ t)) fs

  abbrev pub put_metadata : Option (Fields N) → Fields N → Fields N
  put_metadata none fs = fs
  put_metadata (some end) fs = fs
  put_metadata (some (field k v rest)) fs = put (codes "metadata") (obj (field k v rest)) fs

pub record StatusTransition (N : Type 0) : Type 0 where
  pub from_status : PaymentStatus
  pub to_status : PaymentStatus
  pub actor_user_id : Text
  pub transitioned_at : ℕ
  pub reason : Option Text
  pub metadata : Option (Fields N)

module _ (js : Ecma) where
  open js use {N, of_ℕ, to_iso_string}

  abbrev pub transition_fields : PaymentStatus → PaymentStatus → Text → ℕ → Fields N
  transition_fields from_status to_status actor_user_id transitioned_at =
      field (codes "fromStatus") (str (status_name from_status)) (
        field (codes "toStatus") (str (status_name to_status)) (
          field (codes "actorUserId") (str actor_user_id)
            (field (codes "transitionedAt") (str (to_iso_string transitioned_at)) end)))

  unfoldable pub build_payment_calculation_metadata : Text → ℕ → ℕ → Value N
  build_payment_calculation_metadata actor_user_id applied_rule_count transitioned_at =
      let transition = obj (transition_fields draft calculated actor_user_id transitioned_at) in
      obj (
        field (codes "calculatedByUserId") (str actor_user_id) (
          field (codes "appliedRuleCount") (num (of_ℕ applied_rule_count)) (
            field (codes "stateTransitions") (arr (cons transition nil))
              (field (codes "lastStatusTransition") transition end))))

  -- `nextTransition`
  unfoldable pub next_transition : StatusTransition N → Fields N
  next_transition t = put_metadata t.metadata (
      put_reason t.reason
        (transition_fields t.from_status t.to_status t.actor_user_id t.transitioned_at))

  unfoldable pub append_payment_status_transition : Value N → StatusTransition N → Fields N
  unfolding next_transition to_record_array
  append_payment_status_transition metadata t =
      let current_metadata = get_or (plain_object metadata) end in
      let transition = obj (next_transition t) in
      put (codes "lastStatusTransition") transition (
        put (codes "stateTransitions")
          (arr
            (push (to_record_array (get (codes "stateTransitions") current_metadata)) transition))
          current_metadata)
