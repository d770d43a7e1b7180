-- ===== src/Webhooks/Retries.antt =====
-- The attempts of a delivery in backend/src/modules/integrations/webhook-delivery.processor.ts: how many
-- there are, and how they end.
use logistics_center.Base.{
  ℕ, zero, suc, ◌+◌, ◌≤◌, ◌≡◌, refl, sym, ap, ◌∙◌, ◌⊎◌, inl, inr, Bool, true, false, List, [], ◌∷◌,
  length, length-append, List-cases, if◌then◌else◌, arith,
}
use logistics_center.Base.Text.{Text}
use logistics_center.Values.{Fields}
use logistics_center.Webhooks.Delivery.{
  IntegrationEventStatus, succeeded, failed, DeliveryState, WebhookAnswer, process, run_jobs,
}
use logistics_center.Webhooks.Attempts.{
  is_open, most_attempts, numbers_to, IsSound, Ends, process-Ends,
}

module _ (iso : ℕ → Text) (sign_payload : Text → Fields ℕ → Text)
    (send_webhook_request : Text → ℕ → Fields ℕ → Text → WebhookAnswer) where
  -- A job that is taken was the only one, of an event that may still be tried.
  job_taken :
      (w : DeliveryState) (job : ℕ) (rest : List ℕ)
      → IsSound w
      → w.jobs ≡ job ∷ rest
      → (rest ≡ []) × (w.event.attempts ≤ 5)
  job_taken w job rest h e =
      let one : suc (length rest) ≡ (if is_open w.event.status then 1 else 0) =
        sym (ap length e) ∙ h.queued in
      (
        none_left (is_open w.event.status) rest one,
        still_tried w.event.status w.event.attempts (length rest) one h.bounded,
      )
    where
      none_left : (b : Bool) (rest : List ℕ) → suc (length rest) ≡ (if b then 1 else 0) → rest ≡ []
      none_left true [] k = refl
      none_left true (x ∷ xs) k = absurd (omega (arith, k))
      none_left false xs k = absurd (omega (arith, k))

      still_tried :
          (s : IntegrationEventStatus) (a n : ℕ)
          → suc n ≡ (if is_open s then 1 else 0)
          → a ≤ most_attempts s
          → a ≤ 5
      still_tried s a n k le = ground arith

  next_job-Ends :
      (now : ℕ) (w : DeliveryState) (job : ℕ) (rest : List ℕ)
      → IsSound w
      → w.jobs ≡ job ∷ rest
      → Ends iso sign_payload send_webhook_request w.event.attempts
          (process iso sign_payload send_webhook_request now (record w { jobs = rest }))
  next_job-Ends now w job rest h e =
      let (empty, le) = job_taken w job rest h e in
      process-Ends iso sign_payload send_webhook_request now (record w { jobs = rest }) empty le
        h.numbered

  -- Soundness is kept, however many jobs run: an open event has exactly one job queued and a
  -- closed one none, and its requests are numbered from one to its attempts, of which there are
  -- at most six.
  pub run_jobs-IsSound :
      (n : ℕ) (clock : ℕ → ℕ) (w : DeliveryState)
      → IsSound w
      → IsSound (run_jobs iso sign_payload send_webhook_request n clock w)
  unfolding run_jobs
  run_jobs-IsSound zero clock w h = h
  run_jobs-IsSound (suc n) clock w h = elim (List-cases w.jobs) [
    | inl e ↦ rw (run_jobs, e) h
    | inr (job, rest, e) ↦
        rw (run_jobs, e)
          (run_jobs-IsSound n clock
            (process iso sign_payload send_webhook_request (clock n) (record w { jobs = rest }))
            (next_job-Ends (clock n) w job rest h e).sound)
  ]

  closed_stays :
      (n : ℕ) (clock : ℕ → ℕ) (w : DeliveryState)
      → IsSound w
      → is_open w.event.status ≡ false
      → is_open (run_jobs iso sign_payload send_webhook_request n clock w).event.status ≡ false
  unfolding run_jobs
  closed_stays zero clock w h closed = closed
  closed_stays (suc n) clock w h closed = elim (List-cases w.jobs) [
    | inl e ↦ rw (run_jobs, e) closed
    | inr (job, rest, e) ↦
        let one : suc (length rest) ≡ (if is_open w.event.status then 1 else 0) =
          sym (ap length e) ∙ h.queued in
        absurd (ground (arith, one, closed))
  ]

  run_jobs_close :
      (n : ℕ) (clock : ℕ → ℕ) (w : DeliveryState)
      → IsSound w
      → 6 ≤ w.event.attempts + n
      → is_open (run_jobs iso sign_payload send_webhook_request n clock w).event.status ≡ false
  unfolding run_jobs
  run_jobs_close zero clock w h le = ground (arith, h.bounded, le)
  run_jobs_close (suc n) clock w h le = elim (List-cases w.jobs) [
    | inl e ↦
        let none_queued : 0 ≡ (if is_open w.event.status then 1 else 0) =
          sym (ap length e) ∙ h.queued in
        rw (run_jobs, e) (ground (arith, none_queued))
    | inr (job, rest, e) ↦
        let w' =
          process iso sign_payload send_webhook_request (clock n) (record w { jobs = rest }) in
        let ends = next_job-Ends (clock n) w job rest h e in
        rw (run_jobs, e)
          (elim ends.progress [
            | inl closed ↦ closed_stays n clock w' ends.sound closed
            | inr more ↦ run_jobs_close n clock w' ends.sound (omega (arith, more, le))
          ])
  ]

  -- Whatever the receiver answers, six jobs bring an event to an end that is sound, as a new one
  -- is: it has succeeded or failed, no job is left, and at most six requests were sent.
  pub run_jobs_end :
      (clock : ℕ → ℕ) (w : DeliveryState)
      → IsSound w
      → let w' = run_jobs iso sign_payload send_webhook_request 6 clock w in
        ((w'.event.status ≡ succeeded) ⊎ (w'.event.status ≡ failed))
        × (w'.jobs ≡ [])
        × (length w'.sent ≤ 6)
  run_jobs_end clock w h =
      let w' = run_jobs iso sign_payload send_webhook_request 6 clock w in
      let sound = run_jobs-IsSound 6 clock w h in
      let closed = run_jobs_close 6 clock w h (omega arith) in
      (
        closed_status w'.event.status closed,
        no_jobs w'.jobs (is_open w'.event.status) sound.queued closed,
        omega (
          arith,
          ap length sound.numbered,
          length-numbers_to w'.event.attempts,
          sound.bounded,
          at_most w'.event.status,
        ),
      )
    where
      closed_status :
          (s : IntegrationEventStatus) → is_open s ≡ false → (s ≡ succeeded) ⊎ (s ≡ failed)
      closed_status s k = ground arith

      no_jobs : (js : List ℕ) (b : Bool) → length js ≡ (if b then 1 else 0) → b ≡ false → js ≡ []
      no_jobs [] b e k = refl
      no_jobs (j ∷ js) b e k = absurd (ground (arith, e, k))

      length-numbers_to : (n : ℕ) → length (numbers_to n) ≡ n
      length-numbers_to zero = refl
      length-numbers_to (suc n) =
          length-append (numbers_to n) (suc n ∷ []) ∙ omega (arith, length-numbers_to n)

      at_most : (s : IntegrationEventStatus) → most_attempts s ≤ 6
      at_most s = ground arith
