-- ===== src/Routing/Again.antt =====
-- A job that comes again.
use kritvia_global_dashboard.Base.{
  Bool, Bool-cases, List, Option, String, [], any, arith, count, eq_iff, false, inl, inr, leb, none,
  refl, some, true, ℕ, ◌++◌, ◌-◌, ◌∷◌, ◌≡◌, ◌≢◌,
}
use kritvia_global_dashboard.Routing.{AlertChannel, Router, breaker_of}
use kritvia_global_dashboard.Routing.Channels.{Outside, Sent, not_sent, sent_with}
use kritvia_global_dashboard.Routing.Jobs.{
  DeliveryJob, attempt_delivery, guarded_delivery, is_blank, is_open, max_deliveries_per_hour,
  of_job, process_delivery_job, recent, record_attempt, row_of,
}
use kritvia_global_dashboard.Routing.Once.{process_delivery_job_cases}

any-append {ℓ} :
    {A : Type ℓ} (p : A → Bool) (xs : List A) (y : A) → p y ≡ true → any p (xs ++ y ∷ []) ≡ true
any-append p [] y h = rw h refl
any-append p (x ∷ xs) y h = ground (arith, any-append p xs y h)

of_job-row_of :
    (job : DeliveryJob) (success : Bool) (status_code : Option ℕ) (error : Option String)
    (duration_ms : Option ℕ) (now : ℕ)
    → of_job job (row_of job success status_code error duration_ms now) ≡ true
of_job-row_of job success status_code error duration_ms now =
    ground
      (arith, eq_iff job.alert_event_id job.alert_event_id, eq_iff job.channel_id job.channel_id)

module _ (o : Outside) (job : DeliveryJob) (now ended : ℕ) (s : Router) where
  record_attempt-row :
      (r : Sent) → any (of_job job) (record_attempt job now ended s r).0.alert_deliveries ≡ true
  unfolding record_attempt
  record_attempt-row (sent_with status) =
      any-append (of_job job) s.alert_deliveries _
        (of_job-row_of job true (some status) none (some (ended - now)) ended)
  record_attempt-row (not_sent message) =
      any-append (of_job job) s.alert_deliveries _
        (of_job-row_of job false none (some message) (some (ended - now)) ended)

  -- Whatever the guards decide, the job then has a row.
  guarded_delivery-row :
      (channel : AlertChannel)
      → any (of_job job) (guarded_delivery o channel job now ended s).0.alert_deliveries ≡ true
  unfolding guarded_delivery
  guarded_delivery-row channel =
      elim (Bool-cases
        (leb max_deliveries_per_hour (count (recent job.org_id now) s.alert_deliveries))) [
          | inl full ↦
              rw (guarded_delivery, full)
                (any-append (of_job job) s.alert_deliveries _
                  (of_job-row_of job false none (some "DELIVERY_RATE_LIMIT") none now))
          | inr room ↦ elim (Bool-cases (is_open (breaker_of job.channel_id s.breakers) now)) [
            | inl halted ↦
                rw (guarded_delivery, room, halted)
                  (any-append (of_job job) s.alert_deliveries _
                    (of_job-row_of job false none (some "CIRCUIT_OPEN") none now))
            | inr closed ↦
                rw (guarded_delivery, room, closed)
                  (record_attempt-row (attempt_delivery o channel job))
          ]
        ]

  -- After a job that changed anything, be it that the alert was delivered, failed or was refused,
  -- the same job does nothing and answers that it succeeded.
  pub process_delivery_job_again :
      (o2 : Outside) (now2 ended2 : ℕ)
      → (process_delivery_job o job now ended s).0 ≢ s
      → process_delivery_job o2 job now2 ended2 (process_delivery_job o job now ended s).0
        ≡ ((process_delivery_job o job now ended s).0, true)
  unfolding process_delivery_job
  process_delivery_job_again o2 now2 ended2 moved =
      elim (process_delivery_job_cases o job now ended s) [
        | inl e ↦ absurd (moved e)
        | inr (channel, e, new, filled) ↦
            let row : any (of_job job) (process_delivery_job o job now ended s).0.alert_deliveries
                ≡ true =
              rw e (guarded_delivery-row channel) in
            has_row o2 now2 ended2 (process_delivery_job o job now ended s).0 filled row
      ]
    where
      has_row :
          (o2 : Outside) (now2 ended2 : ℕ) (t : Router)
          → is_blank job ≡ false
          → any (of_job job) t.alert_deliveries ≡ true
          → process_delivery_job o2 job now2 ended2 t ≡ (t, true)
      has_row o2 now2 ended2 t filled row = rw (process_delivery_job, filled, row) refl
