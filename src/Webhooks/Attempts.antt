-- ===== src/Webhooks/Attempts.antt =====
-- The attempts of a delivery in backend/src/modules/integrations/webhook-delivery.processor.ts: what a
-- single job does.
use logistics_center.Base.{
  ℕ, zero, suc, ◌+◌, ◌-◌, ◌≤◌, ◌≡◌, refl, sym, ap, subst, ◌∙◌, ◌⊎◌, inl, inr, Bool, true, false,
  some, List, [], ◌∷◌, ◌++◌, length, Option-cases, if◌then◌else◌, arith,
}
use logistics_center.Base.Text.{Text}
use logistics_center.Values.{Value, Fields, plain_object}
use logistics_center.Webhooks.Delivery.{
  IntegrationEventStatus, pending, processing, succeeded, failed, retrying, DeliveryState,
  WebhookAnswer, answered, request_failed, webhook_retry_delays_ms, element_at, delivery_settings,
  mark_failed, handle_delivery_failure, handle_answer, start_attempt, deliver, process,
}

-- Whether a job is to come.
abbrev pub is_open : IntegrationEventStatus → Bool
is_open pending = true
is_open processing = true
is_open succeeded = false
is_open failed = false
is_open retrying = true

-- The attempts that an event with the status may have had.
abbrev pub most_attempts : IntegrationEventStatus → ℕ
most_attempts pending = 0
most_attempts processing = 0
most_attempts succeeded = 6
most_attempts failed = 6
most_attempts retrying = 5

abbrev pub numbers_to : ℕ → List ℕ
numbers_to zero = []
numbers_to (suc n) = numbers_to n ++ (suc n ∷ [])

-- Between two jobs: an open event has one job queued, another one none; the requests that were sent are
-- numbered from one to the attempts, without gap or repetition, and there are at most six.
pub record IsSound (w : DeliveryState) : Type 0 where
  pub queued : length w.jobs ≡ (if is_open w.event.status then 1 else 0)
  pub bounded : w.event.attempts ≤ most_attempts w.event.status
  pub numbered : w.sent ≡ numbers_to w.event.attempts

retry_scheduled : (a delay : ℕ) → element_at webhook_retry_delays_ms a ≡ some delay → suc a ≤ 5
retry_scheduled zero delay h = omega arith
retry_scheduled (suc zero) delay h = omega arith
retry_scheduled (suc (suc zero)) delay h = omega arith
retry_scheduled (suc (suc (suc zero))) delay h = omega arith
retry_scheduled (suc (suc (suc (suc zero)))) delay h = omega arith
retry_scheduled (suc (suc (suc (suc (suc a))))) delay h = absurd (ground arith)

module _ (iso : ℕ → Text) (sign_payload : Text → Fields ℕ → Text)
    (send_webhook_request : Text → ℕ → Fields ℕ → Text → WebhookAnswer) where
  -- A job is over: either the event is closed, or one more request was sent.
  pub record Ends (before : ℕ) (w : DeliveryState) : Type 0 where
    pub sound : IsSound w
    pub progress : (is_open w.event.status ≡ false) ⊎ (w.event.attempts ≡ suc before)

  handle_delivery_failure-Ends :
      (now a : ℕ) (response : Value ℕ) (w : DeliveryState)
      → w.jobs ≡ []
      → a ≤ 5
      → w.event.attempts ≡ suc a
      → w.sent ≡ numbers_to (suc a)
      → Ends a
          (handle_delivery_failure iso sign_payload send_webhook_request now (suc a) response w)
  unfolding handle_delivery_failure mark_failed
  handle_delivery_failure-Ends now a response w jobs le attempts sent =
      let index : suc a - 1 ≡ a = omega arith in
      elim (Option-cases (element_at webhook_retry_delays_ms (suc a - 1))) [
        | inl n ↦
            rw (handle_delivery_failure, n)
              (record {
                sound = record {
                  queued = ap length jobs;
                  bounded = omega (arith, le);
                  numbered = sent;
                };
                progress = inl refl;
              })
        | inr (delay, e) ↦
            let scheduled =
              retry_scheduled a delay
                (subst (λ i. element_at webhook_retry_delays_ms i ≡ some delay) index e) in
            rw (handle_delivery_failure, e)
              (record {
                sound = record {
                  queued = ap (λ js. length (js ++ (delay ∷ []))) jobs;
                  bounded = omega (arith, attempts, scheduled);
                  numbered = sent ∙ ap numbers_to (sym attempts);
                };
                progress = inr attempts;
              })
      ]

  handle_answer-Ends :
      (now a : ℕ) (answer : WebhookAnswer) (w : DeliveryState)
      → w.jobs ≡ []
      → a ≤ 5
      → w.event.attempts ≡ suc a
      → w.sent ≡ numbers_to (suc a)
      → Ends a (handle_answer iso sign_payload send_webhook_request now (suc a) answer w)
  unfolding handle_answer
  handle_answer-Ends now a (answered true code body) w jobs le attempts sent = record {
    sound = record {
      queued = ap length jobs;
      bounded = omega (arith, attempts, le);
      numbered = sent ∙ ap numbers_to (sym attempts);
    };
    progress = inl refl;
  }
  handle_answer-Ends now a (answered false code body) w jobs le attempts sent =
      handle_delivery_failure-Ends now a _ w jobs le attempts sent
  handle_answer-Ends now a (request_failed message) w jobs le attempts sent =
      handle_delivery_failure-Ends now a _ w jobs le attempts sent

  mark_failed-Ends :
      (now : ℕ) (response : Value ℕ) (w : DeliveryState)
      → w.jobs ≡ []
      → w.event.attempts ≤ 5
      → w.sent ≡ numbers_to w.event.attempts
      → Ends w.event.attempts
          (mark_failed iso sign_payload send_webhook_request now w.event.attempts response w)
  unfolding mark_failed
  mark_failed-Ends now response w jobs le sent = record {
    sound = record { queued = ap length jobs; bounded = omega (arith, le); numbered = sent };
    progress = inl refl;
  }

  deliver-Ends :
      (now : ℕ) (settings : Text × Text) (payload : Fields ℕ) (w : DeliveryState)
      → w.jobs ≡ []
      → w.event.attempts ≤ 5
      → w.sent ≡ numbers_to w.event.attempts
      → Ends w.event.attempts (deliver iso sign_payload send_webhook_request now settings payload w)
  unfolding deliver start_attempt
  deliver-Ends now (url, secret) payload w jobs le sent =
      let next : w.event.attempts + 1 ≡ suc w.event.attempts = omega arith in
      let signature = sign_payload secret payload in
      subst
        (λ n. Ends w.event.attempts (
          handle_answer iso sign_payload send_webhook_request now n
            (send_webhook_request url n payload signature)
            (start_attempt iso sign_payload send_webhook_request n signature w)))
        (sym next)
        (handle_answer-Ends now w.event.attempts
          (send_webhook_request url (suc w.event.attempts) payload signature)
          (start_attempt iso sign_payload send_webhook_request (suc w.event.attempts) signature w)
          jobs le refl (ap (λ ns. ns ++ (suc w.event.attempts ∷ [])) sent))

  pub process-Ends :
      (now : ℕ) (w : DeliveryState)
      → w.jobs ≡ []
      → w.event.attempts ≤ 5
      → w.sent ≡ numbers_to w.event.attempts
      → Ends w.event.attempts (process iso sign_payload send_webhook_request now w)
  unfolding process
  process-Ends now w jobs le sent = elim (Option-cases (delivery_settings w.event.integration)) [
    | inl n ↦ rw (process, n) (mark_failed-Ends now _ w jobs le sent)
    | inr (settings, e) ↦ elim (Option-cases (plain_object w.event.payload)) [
      | inl n ↦ rw (process, e, n) (mark_failed-Ends now _ w jobs le sent)
      | inr (payload, f) ↦ rw (process, e, f) (deliver-Ends now settings payload w jobs le sent)
    ]
  ]
