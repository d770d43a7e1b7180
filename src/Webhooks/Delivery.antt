-- ===== src/Webhooks/Delivery.antt =====
-- backend/src/modules/integrations/webhook-delivery.processor.ts: the delivery of one event. The queue
-- holds the delays of the event's jobs; the answer to a request, its signature and the time are
-- parameters, and so is the text of a date. The text of an error is kept where the code stores it.
use logistics_center.Base.{
  ℕ, zero, suc, ◌+◌, ◌-◌, Bool, true, false, Option, none, some, List, [], ◌∷◌, ◌++◌, if◌then◌else◌,
}
use logistics_center.Base.Text.{Text, codes, is_empty}
use logistics_center.Values.{Value, Fields, bool, num, str, obj, end, field, plain_object}
use logistics_center.Values.Json.{to_input_json_value}

pub data IntegrationEventStatus : Type 0 where
  pending processing succeeded failed retrying : IntegrationEventStatus

pub record Integration : Type 0 where
  pub is_active : Bool
  pub outbound_webhook_url : Option Text
  pub webhook_secret : Option Text

pub record IntegrationEvent : Type 0 where
  pub status : IntegrationEventStatus
  pub attempts : ℕ
  pub payload : Value ℕ
  pub integration : Option Integration
  pub signature : Option Text
  pub next_retry_at : Option ℕ
  pub processed_at : Option ℕ
  pub response : Option (Value ℕ)

-- An event, its queued jobs, the numbers of the requests that were sent, and the attempts that
-- `integration.webhook-failed` events tell of.
pub record DeliveryState : Type 0 where
  pub event : IntegrationEvent
  pub jobs : List ℕ
  pub sent : List ℕ
  pub failures : List ℕ

-- What `sendWebhookRequest` returns or throws.
pub data WebhookAnswer : Type 0 where
  answered : Bool → ℕ → Text → WebhookAnswer
  request_failed : Text → WebhookAnswer

-- `WEBHOOK_RETRY_DELAYS_MS`
abbrev pub webhook_retry_delays_ms : List ℕ
webhook_retry_delays_ms = 30_000 ∷ 120_000 ∷ 600_000 ∷ 1_800_000 ∷ 7_200_000 ∷ []

abbrev pub element_at : List ℕ → ℕ → Option ℕ
element_at [] index = none
element_at (x ∷ xs) zero = some x
element_at (x ∷ xs) (suc index) = element_at xs index

-- A text that is neither null nor empty.
abbrev pub given_text : Option Text → Option Text
given_text none = none
given_text (some t) = if is_empty t then none else some t

abbrev settings_of : Option Text → Option Text → Option (Text × Text)
settings_of none secret = none
settings_of (some url) none = none
settings_of (some url) (some secret) = some (url, secret)

-- The address and the secret, where the integration can be delivered to.
unfoldable pub delivery_settings : Option Integration → Option (Text × Text)
delivery_settings none = none
delivery_settings (some i) =
    if i.is_active
    then settings_of (given_text i.outbound_webhook_url) (given_text i.webhook_secret)
    else none

module _ (iso : ℕ → Text) (sign_payload : Text → Fields ℕ → Text)
    (send_webhook_request : Text → ℕ → Fields ℕ → Text → WebhookAnswer) where
  -- `attempts` is written too, and an event tells of the failure.
  unfoldable pub mark_failed : ℕ → ℕ → Value ℕ → DeliveryState → DeliveryState
  mark_failed now attempts response w = record w {
    event = record w.event {
      status = failed;
      processed_at = some now;
      next_retry_at = none;
      attempts = attempts;
      response = some (to_input_json_value iso response);
    };
    failures = w.failures ++ (attempts ∷ []);
  }

  abbrev error_response : Text → Value ℕ
  error_response message = obj (field (codes "error") (str message) end)

  abbrev schedule_retry : ℕ → Value ℕ → ℕ → DeliveryState → DeliveryState
  schedule_retry now response retry_delay_ms w = record w {
    event = record w.event {
      status = retrying;
      next_retry_at = some (now + retry_delay_ms);
      response = some (to_input_json_value iso response);
    };
    jobs = w.jobs ++ (retry_delay_ms ∷ []);
  }

  unfoldable pub handle_delivery_failure : ℕ → ℕ → Value ℕ → DeliveryState → DeliveryState
  handle_delivery_failure now attempts response w =
      elim (element_at webhook_retry_delays_ms (attempts - 1)) [
        | some retry_delay_ms ↦ schedule_retry now response retry_delay_ms w
        | none ↦ mark_failed now attempts response w
      ]

  abbrev mark_succeeded : ℕ → ℕ → Text → DeliveryState → DeliveryState
  mark_succeeded now status_code body w = record w {
    event = record w.event {
      status = succeeded;
      processed_at = some now;
      next_retry_at = none;
      response = some (
          to_input_json_value iso (
            obj (
              field (codes "ok") (bool true) (
                field (codes "statusCode") (num status_code)
                  (field (codes "body") (str body) end)))));
    };
  }

  unfoldable pub handle_answer : ℕ → ℕ → WebhookAnswer → DeliveryState → DeliveryState
  handle_answer now attempts (answered true status_code body) w =
      mark_succeeded now status_code body w
  handle_answer now attempts (answered false status_code body) w =
      handle_delivery_failure now attempts
        (obj (field (codes "statusCode") (num status_code) (field (codes "body") (str body) end))) w
  handle_answer now attempts (request_failed message) w =
      handle_delivery_failure now attempts (error_response message) w

  -- The event while a request is sent.
  unfoldable pub start_attempt : ℕ → Text → DeliveryState → DeliveryState
  start_attempt next_attempt signature w = record w {
    event = record w.event {
      status = processing;
      attempts = next_attempt;
      signature = some signature;
      next_retry_at = none;
    };
    sent = w.sent ++ (next_attempt ∷ []);
  }

  unfoldable pub deliver : ℕ → Text × Text → Fields ℕ → DeliveryState → DeliveryState
  deliver now (url, secret) payload w =
      let next_attempt = w.event.attempts + 1 in
      let signature = sign_payload secret payload in
      handle_answer now next_attempt (send_webhook_request url next_attempt payload signature)
        (start_attempt next_attempt signature w)

  abbrev deliver_payload : ℕ → Text × Text → Option (Fields ℕ) → DeliveryState → DeliveryState
  deliver_payload now settings none w =
      mark_failed now w.event.attempts (error_response (codes "Webhook payload is invalid")) w
  deliver_payload now settings (some payload) w = deliver now settings payload w

  -- `process`, on an event that is found.
  unfoldable pub process : ℕ → DeliveryState → DeliveryState
  process now w = elim (delivery_settings w.event.integration) [
    | none ↦
        mark_failed now w.event.attempts
          (error_response (codes "Webhook integration is inactive or missing delivery settings")) w
    | some settings ↦ deliver_payload now settings (plain_object w.event.payload) w
  ]

  -- The queue hands over one job after the other; `clock` has the time of each.
  unfoldable pub run_jobs : ℕ → (ℕ → ℕ) → DeliveryState → DeliveryState
  run_jobs zero clock w = w
  run_jobs (suc n) clock w = elim w.jobs [
    | [] ↦ w
    | _ ∷ jobs ↦ run_jobs n clock (process (clock n) (record w { jobs = jobs }))
  ]
