-- ===== src/Integrations/Settings.antt =====
-- The registrations of webhooks in backend/src/modules/integrations/integrations.service.ts, with their
-- settings. `iso` is the text of a date. A name that a company has already makes the database refuse a
-- row, which the service turns into a conflict.
use logistics_center.Base.{
  ℕ, Bool, true, false, not, ◌&&◌, ◌||◌, Option, none, some, List, [], ◌∷◌, ◌==◌, map, is_some,
  get_or, if◌then◌else◌, Result, ok, not_found, conflict, ◌>>=◌, ◌>>◌, throw_if, or_throw,
}
use logistics_center.Base.Text.{Text, codes, text_eq, is_empty}
use logistics_center.Values.{
  Value, Items, Fields, undefined, str, arr, obj, nil, cons, end, field, get, put, plain_object,
}
use logistics_center.Values.Json.{to_input_json_value}
use logistics_center.Database.{Table}

-- `SUPPORTED_OUTBOUND_WEBHOOK_EVENTS`
abbrev pub supported_outbound_webhook_events : List Text
supported_outbound_webhook_events =
    codes "order.status-changed"
    ∷ codes "route.built"
    ∷ codes "route.updated"
    ∷ codes "route.cancelled"
    ∷ []

abbrev pub includes_event : List Text → Text → Bool
includes_event [] t = false
includes_event (x ∷ xs) t = text_eq x t || includes_event xs t

unfoldable pub is_supported_event : Text → Bool
is_supported_event t = includes_event supported_outbound_webhook_events t

abbrev pub event_types_key : Text
event_types_key = codes "eventTypes"

-- The row of an integration, `webhookRegistrationSelect`.
pub record WebhookRegistration (N : Type 0) : Type 0 where
  pub id : ℕ
  pub company_id : ℕ
  pub name : Text
  pub provider : Text
  pub is_active : Bool
  pub outbound_webhook_url : Option Text
  pub inbound_secret : Option Text
  pub webhook_secret : Option Text
  pub settings : Value N
  pub created_by_user_id : ℕ

pub record WebhookRegistrationResponse (N : Type 0) : Type 0 where
  pub id : ℕ
  pub company_id : ℕ
  pub name : Text
  pub provider : Text
  pub is_active : Bool
  pub outbound_webhook_url : Option Text
  pub has_webhook_secret : Bool
  pub has_inbound_secret : Bool
  pub event_types : List Text
  pub settings : Option (Fields N)
  pub created_by_user_id : ℕ

-- A field left out is `none`.
pub record CreateWebhookRegistrationDto (N : Type 0) : Type 0 where
  pub name : Text
  pub provider : Text
  pub is_active : Option Bool
  pub outbound_webhook_url : Text
  pub inbound_secret : Option Text
  pub webhook_secret : Text
  pub event_types : Option (List Text)
  pub settings : Option (Fields N)

pub record UpdateWebhookRegistrationDto (N : Type 0) : Type 0 where
  pub name : Option Text
  pub provider : Option Text
  pub is_active : Option Bool
  pub outbound_webhook_url : Option Text
  pub inbound_secret : Option Text
  pub webhook_secret : Option Text
  pub event_types : Option (List Text)
  pub settings : Option (Fields N)

-- `value !== undefined ? { column: value } : {}`
abbrev pub given_or : Option Text → Option Text → Option Text
given_or none column = column
given_or (some value) column = some value

-- `Boolean(value)`
abbrev pub has_secret : Option Text → Bool
has_secret none = false
has_secret (some value) = not (is_empty value)

module _ {N : Type 0} where
  abbrev pub texts : List Text → Items N
  texts [] = nil
  texts (t ∷ ts) = cons (str t) (texts ts)

  -- `rawEventTypes.filter(…)`
  abbrev pub keep_event : Value N → List Text → List Text
  keep_event (str s) rest = if is_supported_event s then s ∷ rest else rest
  keep_event _ rest = rest

  unfoldable pub supported_entries : Items N → List Text
  supported_entries nil = []
  supported_entries (cons entry rest) = keep_event entry (supported_entries rest)

  abbrev pub event_types_of : Value N → List Text
  event_types_of (arr raw_event_types) = supported_entries raw_event_types
  event_types_of _ = supported_outbound_webhook_events

  abbrev pub settings_value : Option (Fields N) → Value N
  settings_value none = undefined
  settings_value (some settings) = get event_types_key settings

  unfoldable pub read_webhook_event_types : Value N → List Text
  unfolding supported_entries
  read_webhook_event_types value = event_types_of (settings_value (plain_object value))

  unfoldable pub build_webhook_settings :
      (ℕ → Text) → Option (List Text) → Option (Fields N) → Value N
  build_webhook_settings iso event_types settings = to_input_json_value iso (
      obj (
        put event_types_key (arr (texts (get_or event_types supported_outbound_webhook_events)))
          (get_or settings end)))

  unfoldable pub map_webhook_registration : WebhookRegistration N → WebhookRegistrationResponse N
  map_webhook_registration integration = record {
    id = integration.id;
    company_id = integration.company_id;
    name = integration.name;
    provider = integration.provider;
    is_active = integration.is_active;
    outbound_webhook_url = integration.outbound_webhook_url;
    has_webhook_secret = has_secret integration.webhook_secret;
    has_inbound_secret = has_secret integration.inbound_secret;
    event_types = read_webhook_event_types integration.settings;
    settings = plain_object integration.settings;
    created_by_user_id = integration.created_by_user_id;
  }

  -- `{ ...current, ...next }`
  abbrev pub spread : Fields N → Fields N → Fields N
  spread current end = current
  spread current (field k v fs) = spread (put k v current) fs

  abbrev pub with_event_types : Option (List Text) → Fields N → Fields N
  with_event_types none merged = merged
  with_event_types (some types) merged = put event_types_key (arr (texts types)) merged

  unfoldable pub merge_settings : Value N → Option (Fields N) → Option (List Text) → Fields N
  merge_settings current_settings next_settings next_event_types =
      with_event_types next_event_types
        (spread (get_or (plain_object current_settings) end) (get_or next_settings end))

  unfoldable pub new_registration :
      (ℕ → Text) → ℕ → ℕ → CreateWebhookRegistrationDto N → ℕ → WebhookRegistration N
  new_registration iso company_id actor_user_id dto id = record {
    id = id;
    company_id = company_id;
    name = dto.name;
    provider = dto.provider;
    is_active = get_or dto.is_active true;
    outbound_webhook_url = some dto.outbound_webhook_url;
    inbound_secret = dto.inbound_secret;
    webhook_secret = some dto.webhook_secret;
    settings = build_webhook_settings iso dto.event_types dto.settings;
    created_by_user_id = actor_user_id;
  }

  unfoldable pub edit_registration :
      (ℕ → Text)
      → UpdateWebhookRegistrationDto N
      → WebhookRegistration N
      → WebhookRegistration N
      → WebhookRegistration N
  edit_registration iso dto current r = record r {
    name = get_or dto.name r.name;
    provider = get_or dto.provider r.provider;
    is_active = get_or dto.is_active r.is_active;
    outbound_webhook_url = given_or dto.outbound_webhook_url r.outbound_webhook_url;
    inbound_secret = given_or dto.inbound_secret r.inbound_secret;
    webhook_secret = given_or dto.webhook_secret r.webhook_secret;
    settings =
        if is_some dto.event_types || is_some dto.settings
        then build_webhook_settings iso
            (some (get_or dto.event_types (read_webhook_event_types current.settings)))
            (some (merge_settings current.settings dto.settings dto.event_types))
        else r.settings;
  }

module _ {N : Type 0} (iso : ℕ → Text) (registrations : Table (WebhookRegistration N)) where
  open registrations use {State, find_first, find_many, create, update}

  abbrev pub is_registration : ℕ → ℕ → WebhookRegistration N → Bool
  is_registration company_id id r = r.company_id == company_id && r.id == id

  -- The rows that make the database refuse a name: those of the company, but the one that is written.
  abbrev pub has_name : ℕ → Text → Option ℕ → WebhookRegistration N → Bool
  has_name company_id name except r =
      r.company_id == company_id
      && (text_eq r.name name && not (elim except [ none ↦ false | some id ↦ r.id == id ]))

  unfoldable pub register_webhook :
      ℕ
      → ℕ
      → CreateWebhookRegistrationDto N
      → State
      → Result (WebhookRegistrationResponse N × State)
  register_webhook company_id actor_user_id dto s = do
    throw_if (is_some (find_first (has_name company_id dto.name none) s)) conflict
    let (registration, s') = create (new_registration iso company_id actor_user_id dto) s
    ok (map_webhook_registration registration, s')

  unfoldable pub list_webhooks : ℕ → State → List (WebhookRegistrationResponse N)
  list_webhooks company_id s =
      map map_webhook_registration (find_many (λ r. r.company_id == company_id) s)

  unfoldable pub update_webhook :
      ℕ
      → ℕ
      → UpdateWebhookRegistrationDto N
      → State
      → Result (WebhookRegistrationResponse N × State)
  update_webhook company_id integration_id dto s = do
    current ← or_throw (find_first (is_registration company_id integration_id) s) not_found
    throw_if
        (is_some
          (find_first (has_name company_id (get_or dto.name current.name) (some integration_id)) s))
        conflict
    (registration, s') ←
        or_throw
          (update (is_registration company_id integration_id) (edit_registration iso dto current) s)
          not_found
    ok (map_webhook_registration registration, s')
