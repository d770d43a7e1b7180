-- ===== src/Values/Json.antt =====
-- `toInputJsonValue`, which backend/src/modules/compensation/payments.service.ts,
-- payment-rule-config.ts and other services define alike.
use logistics_center.Base.{ℕ, []}
use logistics_center.Base.Text.{Text}
use logistics_center.Values.{
  Value, Items, Fields, undefined, null, bool, num, str, date, arr, obj, nil, cons, end, field,
}

-- `if (entry === undefined) continue;`
abbrev pub add_entry : {N : Type 0} → Text → Value N → Value N → Fields N → Fields N
add_entry key undefined converted rest = rest
add_entry key _ converted rest = field key converted rest

-- `iso` is `date.toISOString()`. Of the other values only `undefined` reaches `stringifyUnknown`, which
-- makes it the empty text.
module _ {N : Type 0} (iso : ℕ → Text) where
  unfoldable mutual
    pub to_input_json_value : Value N → Value N
    to_input_json_value undefined = str []
    to_input_json_value null = null
    to_input_json_value (bool b) = bool b
    to_input_json_value (num n) = num n
    to_input_json_value (str s) = str s
    to_input_json_value (date t) = str (iso t)
    to_input_json_value (arr xs) = arr (to_input_json_items xs)
    to_input_json_value (obj fs) = obj (to_input_json_fields fs)

    pub to_input_json_items : Items N → Items N
    to_input_json_items nil = nil
    to_input_json_items (cons x xs) = cons (to_input_json_value x) (to_input_json_items xs)

    pub to_input_json_fields : Fields N → Fields N
    to_input_json_fields end = end
    to_input_json_fields (field k v fs) =
        add_entry k v (to_input_json_value v) (to_input_json_fields fs)
