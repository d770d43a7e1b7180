-- ===== src/Integrations/SettingsLaws.antt =====
-- The event types in the settings of a webhook, in
-- backend/src/modules/integrations/integrations.service.ts.
use logistics_center.Base.{
  ℕ, ◌≡◌, refl, ap, ◌∙◌, inl, inr, Option, List, [], ◌∷◌, filter, get_or, if◌then◌else◌, Bool-cases,
}
use logistics_center.Base.Text.{Text, text_eq, text_eq_refl}
use logistics_center.Values.{Items, Fields, str, arr, cons, end, field, get, put}
use logistics_center.Values.JsonLaws.{get-add_entry}
use logistics_center.Values.Json.{
  add_entry, to_input_json_value, to_input_json_items, to_input_json_fields,
}
use logistics_center.Integrations.Settings.{
  supported_outbound_webhook_events, is_supported_event, event_types_key, texts, supported_entries,
  read_webhook_event_types, build_webhook_settings,
}

supported-texts :
    (N : Type 0) (ts : List Text)
    → supported_entries {N = N} (texts ts) ≡ filter is_supported_event ts
unfolding supported_entries
supported-texts N [] = refl
supported-texts N (t ∷ ts) =
    ap (λ rest. if is_supported_event t then t ∷ rest else rest) (supported-texts N ts)

module _ {N : Type 0} (iso : ℕ → Text) where
  -- An array that is put under a key is there in the JSON.
  get-json-put :
      (key : Text) (xs : Items N) (fs : Fields N)
      → get key (to_input_json_fields iso (put key (arr xs) fs)) ≡ arr (to_input_json_items iso xs)
  unfolding to_input_json_fields
  get-json-put key xs end = rw (text_eq_refl key) refl
  get-json-put key xs (field k w fs) = elim (Bool-cases (text_eq k key)) [
    | inl t ↦ rw t (rw t refl)
    | inr f ↦
        let same : to_input_json_fields iso (put key (arr xs) (field k w fs))
            ≡ add_entry k w (to_input_json_value iso w)
                (to_input_json_fields iso (put key (arr xs) fs)) =
          rw f refl in
        ap (get key) same
        ∙ get-add_entry key k w (to_input_json_value iso w)
            (to_input_json_fields iso (put key (arr xs) fs)) f
        ∙ get-json-put key xs fs
  ]

  json-texts : (ts : List Text) → to_input_json_items iso (texts {N = N} ts) ≡ texts ts
  unfolding to_input_json_items
  json-texts [] = refl
  json-texts (t ∷ ts) = ap (cons (str t)) (json-texts ts)

  -- The event types that settings are built with are read back, without those that are not supported.
  pub read-build_webhook_settings :
      (event_types : Option (List Text)) (settings : Option (Fields N))
      → read_webhook_event_types (build_webhook_settings iso event_types settings)
        ≡ filter is_supported_event (get_or event_types supported_outbound_webhook_events)
  unfolding read_webhook_event_types build_webhook_settings to_input_json_value
  read-build_webhook_settings event_types settings =
      let types = get_or event_types supported_outbound_webhook_events in
      rw (get-json-put event_types_key (texts types) (get_or settings end))
        (rw (json-texts types) (supported-texts N types))
