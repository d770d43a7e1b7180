-- ===== src/Webhooks/Tests.antt =====
-- Runs of backend/src/modules/integrations/webhook-delivery.processor.ts against receivers that fail.
use logistics_center.Base.{
  ℕ, ◌≡◌, ◌≤◌, ◌⊎◌, refl, true, false, none, some, [], ◌∷◌, length, ltb, if◌then◌else◌, arith,
}
use logistics_center.Base.Text.{Text, codes}
use logistics_center.Values.{Fields, str, obj, end, field}
use logistics_center.Webhooks.Delivery.{
  pending, succeeded, failed, DeliveryState, WebhookAnswer, answered, request_failed,
  delivery_settings, mark_failed, handle_delivery_failure, handle_answer, start_attempt, deliver,
  process, run_jobs,
}
use logistics_center.Webhooks.Attempts.{IsSound}
use logistics_center.Webhooks.Retries.{run_jobs-IsSound, run_jobs_end}

abbrev iso : ℕ → Text
iso time = []

abbrev sign : Text → Fields ℕ → Text
sign secret payload = secret

-- It fails twice, then it accepts.
abbrev recovering : Text → ℕ → Fields ℕ → Text → WebhookAnswer
recovering url attempt payload signature =
    if ltb attempt 3 then answered false 503 [] else answered true 200 []

abbrev unreachable : Text → ℕ → Fields ℕ → Text → WebhookAnswer
unreachable url attempt payload signature = request_failed (codes "Webhook request failed")

abbrev queued_event : DeliveryState
queued_event = record {
  event = record {
    status = pending;
    attempts = 0;
    payload = obj (field (codes "event") (str (codes "route.built")) end);
    integration = some (record {
      is_active = true;
      outbound_webhook_url = some (codes "https://example.com");
      webhook_secret = some (codes "secret");
    });
    signature = none;
    next_retry_at = none;
    processed_at = none;
    response = none;
  };
  jobs = 0 ∷ [];
  sent = [];
  failures = [];
}

abbrev clock : ℕ → ℕ
clock n = 100

recovering_run :
    let w = run_jobs iso sign recovering 6 clock queued_event in
    (w.event.status ≡ succeeded) × (w.sent ≡ 1 ∷ 2 ∷ 3 ∷ []) × (w.failures ≡ [])
unfolding run_jobs process delivery_settings deliver start_attempt handle_answer
    handle_delivery_failure mark_failed
recovering_run = (refl, refl, refl)

unreachable_run :
    let w = run_jobs iso sign unreachable 6 clock queued_event in
    (w.event.status ≡ failed) × (w.sent ≡ 1 ∷ 2 ∷ 3 ∷ 4 ∷ 5 ∷ 6 ∷ []) × (w.failures ≡ 6 ∷ [])
unfolding run_jobs process delivery_settings deliver start_attempt handle_answer
    handle_delivery_failure mark_failed
unreachable_run = (refl, refl, refl)

queued_event-IsSound : IsSound queued_event
queued_event-IsSound = record { queued = refl; bounded = omega arith; numbered = refl }

run_jobs-IsSound_example : IsSound (run_jobs iso sign recovering 2 clock queued_event)
run_jobs-IsSound_example =
    run_jobs-IsSound iso sign recovering 2 clock queued_event queued_event-IsSound

run_jobs_end_example :
    let w = run_jobs iso sign unreachable 6 clock queued_event in
    ((w.event.status ≡ succeeded) ⊎ (w.event.status ≡ failed)) × (w.jobs ≡ []) × (length w.sent ≤ 6)
run_jobs_end_example = run_jobs_end iso sign unreachable clock queued_event queued_event-IsSound
