-- ===== src/Compensation/History.antt =====
-- The chain of status changes in the metadata of a payment of
-- backend/src/modules/compensation/payments.service.ts.
use logistics_center.Base.{
  ℕ, ◌≡◌, refl, inl, inr, Bool, true, false, Option, none, some, [], ◌∷◌, get_or, arith, sym, ap,
  subst, ◌∙◌, Bool-cases,
}
use logistics_center.Base.Text.{Text, codes, text_eq}
use logistics_center.Values.{
  Value, Items, Fields, undefined, null, bool, num, str, date, arr, obj, nil, cons, end, field, get,
  put, plain_object,
}
use logistics_center.Values.Laws.{get-put_self, get-put_other}
use logistics_center.Values.Json.{
  add_entry, to_input_json_value, to_input_json_items, to_input_json_fields,
}
use logistics_center.Compensation.Ecma.{Ecma}
use logistics_center.Compensation.StateMachine.{
  PaymentStatus, draft, calculated, can_transition_payment,
}
use logistics_center.Compensation.Transitions.{
  status_name, push, keep_records, to_record_array, put_reason, put_metadata, StatusTransition,
  transition_fields, build_payment_calculation_metadata, next_transition,
  append_payment_status_transition,
}

module _ {N : Type 0} where
  -- Each entry starts where the one before ended, and is a change that the state machine allows.
  abbrev pub Chain : PaymentStatus → Items N → PaymentStatus → Type 0
  Chain s nil t = s ≡ t
  Chain s (cons (obj fs) xs) t =
      (u : PaymentStatus) × (get (codes "fromStatus") fs ≡ str (status_name s))
      × (get (codes "toStatus") fs ≡ str (status_name u))
      × (can_transition_payment s u ≡ true)
      × Chain u xs t
  Chain s (cons _ xs) t = ⊥

  Chain-push :
      (s t u : PaymentStatus) (xs : Items N) (fs : Fields N)
      → Chain s xs t
      → get (codes "fromStatus") fs ≡ str (status_name t)
      → get (codes "toStatus") fs ≡ str (status_name u)
      → can_transition_payment t u ≡ true
      → Chain s (push xs (obj fs)) u
  Chain-push s t u nil fs h f g c = (
    u,
    subst (λ x. get (codes "fromStatus") fs ≡ str (status_name x)) (sym h) f,
    g,
    subst (λ x. can_transition_payment x u ≡ true) (sym h) c,
    refl,
  )
  Chain-push s t u (cons (obj gs) xs) fs (v, a, b, c, h) f g d =
      (v, a, b, c, Chain-push v t u xs fs h f g d)
  Chain-push s t u (cons undefined xs) fs h f g c = absurd h
  Chain-push s t u (cons null xs) fs h f g c = absurd h
  Chain-push s t u (cons (bool b) xs) fs h f g c = absurd h
  Chain-push s t u (cons (num n) xs) fs h f g c = absurd h
  Chain-push s t u (cons (str x) xs) fs h f g c = absurd h
  Chain-push s t u (cons (date x) xs) fs h f g c = absurd h
  Chain-push s t u (cons (arr x) xs) fs h f g c = absurd h

  keep_records-Chain : (s t : PaymentStatus) (xs : Items N) → Chain s xs t → keep_records xs ≡ xs
  keep_records-Chain s t nil h = refl
  keep_records-Chain s t (cons (obj fs) xs) (u, a, b, c, h) =
      ap (cons (obj fs)) (keep_records-Chain u t xs h)
  keep_records-Chain s t (cons undefined xs) h = absurd h
  keep_records-Chain s t (cons null xs) h = absurd h
  keep_records-Chain s t (cons (bool b) xs) h = absurd h
  keep_records-Chain s t (cons (num n) xs) h = absurd h
  keep_records-Chain s t (cons (str x) xs) h = absurd h
  keep_records-Chain s t (cons (date x) xs) h = absurd h
  keep_records-Chain s t (cons (arr x) xs) h = absurd h

module _ {N : Type 0} (iso : ℕ → Text) where
  abbrev is_defined : Value N → Bool
  is_defined undefined = false
  is_defined _ = true

  get-add_entry_other :
      (key k : Text) (v w : Value N) (fs : Fields N)
      → text_eq k key ≡ false
      → get key (add_entry k v w fs) ≡ get key fs
  get-add_entry_other key k undefined w fs e = refl
  get-add_entry_other key k null w fs e = rw e
  get-add_entry_other key k (bool b) w fs e = rw e
  get-add_entry_other key k (num n) w fs e = rw e
  get-add_entry_other key k (str x) w fs e = rw e
  get-add_entry_other key k (date x) w fs e = rw e
  get-add_entry_other key k (arr x) w fs e = rw e
  get-add_entry_other key k (obj x) w fs e = rw e

  get-add_entry_self :
      (key k : Text) (v w : Value N) (fs : Fields N)
      → text_eq k key ≡ true
      → is_defined v ≡ true
      → get key (add_entry k v w fs) ≡ w
  get-add_entry_self key k undefined w fs e d = cc
  get-add_entry_self key k null w fs e d = rw e
  get-add_entry_self key k (bool b) w fs e d = rw e
  get-add_entry_self key k (num n) w fs e d = rw e
  get-add_entry_self key k (str x) w fs e d = rw e
  get-add_entry_self key k (date x) w fs e d = rw e
  get-add_entry_self key k (arr x) w fs e d = rw e
  get-add_entry_self key k (obj x) w fs e d = rw e

  -- An entry of an object is converted in its place.
  get-to_input_json_fields :
      (key : Text) (fs : Fields N) (v : Value N)
      → get key fs ≡ v
      → is_defined v ≡ true
      → get key (to_input_json_fields iso fs) ≡ to_input_json_value iso v
  unfolding to_input_json_value
  get-to_input_json_fields key end v h d = absurd (ground (arith, h, d))
  get-to_input_json_fields key (field k w fs) v h d = elim (Bool-cases (text_eq k key)) [
    | inl e ↦
        let same : w ≡ v = rw e at h in
        get-add_entry_self key k w (to_input_json_value iso w) (to_input_json_fields iso fs) e
          (ap is_defined same ∙ d)
        ∙ ap (to_input_json_value iso) same
    | inr e ↦
        get-add_entry_other key k w (to_input_json_value iso w) (to_input_json_fields iso fs) e
        ∙ get-to_input_json_fields key fs v (rw e at h) d
  ]

  -- Conversion keeps a chain.
  Chain-to_input_json_items :
      (s t : PaymentStatus) (xs : Items N) → Chain s xs t → Chain s (to_input_json_items iso xs) t
  unfolding to_input_json_value
  Chain-to_input_json_items s t nil h = h
  Chain-to_input_json_items s t (cons (obj fs) xs) (u, a, b, c, h) = (
    u,
    get-to_input_json_fields (codes "fromStatus") fs (str (status_name s)) a refl,
    get-to_input_json_fields (codes "toStatus") fs (str (status_name u)) b refl,
    c,
    Chain-to_input_json_items u t xs h,
  )
  Chain-to_input_json_items s t (cons undefined xs) h = absurd h
  Chain-to_input_json_items s t (cons null xs) h = absurd h
  Chain-to_input_json_items s t (cons (bool b) xs) h = absurd h
  Chain-to_input_json_items s t (cons (num n) xs) h = absurd h
  Chain-to_input_json_items s t (cons (str x) xs) h = absurd h
  Chain-to_input_json_items s t (cons (date x) xs) h = absurd h
  Chain-to_input_json_items s t (cons (arr x) xs) h = absurd h

module _ (js : Ecma) where
  open js use {N, to_iso_string}

  -- The metadata record a chain of allowed changes from `draft` to the status.
  abbrev pub Records : Value N → PaymentStatus → Type 0
  Records metadata status =
      (fs : Fields N) × (xs : Items N) × (metadata ≡ obj fs)
      × (get (codes "stateTransitions") fs ≡ arr xs)
      × Chain draft xs status

  pub build_payment_calculation_metadata-Records :
      (actor : Text) (count now : ℕ)
      → Records (build_payment_calculation_metadata js actor count now) calculated
  unfolding build_payment_calculation_metadata can_transition_payment
  build_payment_calculation_metadata-Records actor count now =
      (_, _, refl, refl, (calculated, refl, refl, refl, refl))

  get-put_reason :
      (key : Text) (r : Option Text) (fs : Fields N)
      → text_eq (codes "reason") key ≡ false
      → get key (put_reason r fs) ≡ get key fs
  get-put_reason key none fs e = refl
  get-put_reason key (some []) fs e = refl
  get-put_reason key (some (c ∷ t)) fs e = get-put_other (codes "reason") key (str (c ∷ t)) fs e

  get-put_metadata :
      (key : Text) (m : Option (Fields N)) (fs : Fields N)
      → text_eq (codes "metadata") key ≡ false
      → get key (put_metadata m fs) ≡ get key fs
  get-put_metadata key none fs e = refl
  get-put_metadata key (some end) fs e = refl
  get-put_metadata key (some (field k v rest)) fs e =
      get-put_other (codes "metadata") key (obj (field k v rest)) fs e

  -- The optional entries of a transition leave its statuses.
  get-next_transition :
      (t : StatusTransition N) (key : Text)
      → text_eq (codes "metadata") key ≡ false
      → text_eq (codes "reason") key ≡ false
      → get key (next_transition js t)
        ≡ get key (transition_fields js t.from_status t.to_status t.actor_user_id t.transitioned_at)
  unfolding next_transition
  get-next_transition t key e f =
      get-put_metadata key t.metadata
        (put_reason t.reason
          (transition_fields js t.from_status t.to_status t.actor_user_id t.transitioned_at))
        e
      ∙ get-put_reason key t.reason
          (transition_fields js t.from_status t.to_status t.actor_user_id t.transitioned_at) f

  append_transition_get :
      (metadata : Value N) (t : StatusTransition N) (fs : Fields N) (xs : Items N)
      → metadata ≡ obj fs
      → get (codes "stateTransitions") fs ≡ arr xs
      → keep_records xs ≡ xs
      → get (codes "stateTransitions") (append_payment_status_transition js metadata t)
        ≡ arr (push xs (obj (next_transition js t)))
  unfolding append_payment_status_transition
  append_transition_get metadata t fs xs m g k =
      let transition = obj (next_transition js t) in
      let old : to_record_array
            (get (codes "stateTransitions") (get_or (plain_object metadata) end))
          ≡ xs =
        ap (λ x. to_record_array (get (codes "stateTransitions") (get_or (plain_object x) end))) m
        ∙ ap to_record_array g
        ∙ k in
      let current = get_or (plain_object metadata) end in
      let items =
        arr (push (to_record_array (get (codes "stateTransitions") current)) transition) in
      get-put_other (codes "lastStatusTransition") (codes "stateTransitions") transition
        (put (codes "stateTransitions") items current) refl
      ∙ get-put_self (codes "stateTransitions") items current
      ∙ ap (λ ys. arr (push ys transition)) old

  -- Appending a change that the state machine allows keeps the record.
  pub append_payment_status_transition-Records :
      (metadata : Value N) (t : StatusTransition N)
      → Records metadata t.from_status
      → can_transition_payment t.from_status t.to_status ≡ true
      → Records
          (to_input_json_value to_iso_string (obj (append_payment_status_transition js metadata t)))
          t.to_status
  unfolding to_input_json_value
  append_payment_status_transition-Records metadata t (fs, xs, m, g, chain) c =
      let ys = push xs (obj (next_transition js t)) in
      let longer : Chain draft ys t.to_status =
        Chain-push draft t.from_status t.to_status xs (next_transition js t) chain
          (get-next_transition t (codes "fromStatus") refl refl)
          (get-next_transition t (codes "toStatus") refl refl) c in
      (
        to_input_json_fields to_iso_string (append_payment_status_transition js metadata t),
        to_input_json_items to_iso_string ys,
        refl,
        get-to_input_json_fields to_iso_string (codes "stateTransitions")
            (append_payment_status_transition js metadata t) (arr ys)
            (append_transition_get metadata t fs xs m g
              (keep_records-Chain draft t.from_status xs chain))
            refl,
        Chain-to_input_json_items to_iso_string draft t.to_status ys longer,
      )
