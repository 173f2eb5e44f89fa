-- ===== src/Routing/Once.antt =====
-- What a job adds to the deliveries.
use kritvia_global_dashboard.Base.{
  All, Bool, Bool-cases, List, Option, Option-cases, Pairs, Pairs-concat, String, [], any, arith,
  count, false, find, inl, inr, leb, none, refl, some, true, ℕ, ◌&&◌, ◌++◌, ◌-◌, ◌===◌, ◌∷◌, ◌≡◌,
  ◌⊎◌,
}
use kritvia_global_dashboard.Routing.{
  AlertChannel, AlertDelivery, Router, breaker_of, is_severity_eligible,
}
use kritvia_global_dashboard.Routing.Channels.{Outside, Sent, not_sent, sent_with}
use kritvia_global_dashboard.Routing.Jobs.{
  DeliveryJob, Run, attempt_delivery, channel_of, event_of, guarded_delivery, is_blank, is_open,
  max_deliveries_per_hour, of_job, process_all, process_delivery_job, recent, record_attempt,
  row_of,
}

abbrev pub same_delivery : AlertDelivery → AlertDelivery → Bool
same_delivery a b = a.alert_event_id === b.alert_event_id && a.channel_id === b.channel_id

-- The deliveries after a job: as before, or with a row of the job, which has none yet.
pub data Added (job : DeliveryJob) (rows : List AlertDelivery) : List AlertDelivery → Type 0 where
  nothing_added : Added job rows rows
  one_added :
      (success : Bool) (status_code : Option ℕ) (error : Option String) (duration_ms : Option ℕ)
      (now : ℕ)
      → any (of_job job) rows ≡ false
      → Added job rows (rows ++ row_of job success status_code error duration_ms now ∷ [])

module _ (o : Outside) (job : DeliveryJob) (now ended : ℕ) (s : Router) where
  record_attempt-Added :
      (r : Sent)
      → any (of_job job) s.alert_deliveries ≡ false
      → Added job s.alert_deliveries (record_attempt job now ended s r).0.alert_deliveries
  unfolding record_attempt
  record_attempt-Added (sent_with status) new =
      one_added true (some status) none (some (ended - now)) ended new
  record_attempt-Added (not_sent message) new =
      one_added false none (some message) (some (ended - now)) ended new

  guarded_delivery-Added :
      (channel : AlertChannel)
      → any (of_job job) s.alert_deliveries ≡ false
      → Added job s.alert_deliveries (guarded_delivery o channel job now ended s).0.alert_deliveries
  unfolding guarded_delivery
  guarded_delivery-Added channel new =
      elim (Bool-cases
        (leb max_deliveries_per_hour (count (recent job.org_id now) s.alert_deliveries))) [
          | inl full ↦
              rw (guarded_delivery, full)
                (one_added false none (some "DELIVERY_RATE_LIMIT") none now new)
          | inr room ↦ elim (Bool-cases (is_open (breaker_of job.channel_id s.breakers) now)) [
            | inl halted ↦
                rw (guarded_delivery, room, halted)
                  (one_added false none (some "CIRCUIT_OPEN") none now new)
            | inr closed ↦
                rw (guarded_delivery, room, closed)
                  (record_attempt-Added (attempt_delivery o channel job) new)
          ]
        ]

  abbrev result : Router × Bool
  result = process_delivery_job o job now ended s

  -- A job changes nothing, or comes to the guards of a channel without a delivery of the event.
  pub process_delivery_job_cases :
      (result.0 ≡ s)
      ⊎ ((channel : AlertChannel) × (result ≡ guarded_delivery o channel job now ended s)
          × (any (of_job job) s.alert_deliveries ≡ false)
          × (is_blank job ≡ false))
  unfolding process_delivery_job
  process_delivery_job_cases = elim (Bool-cases (is_blank job)) [
    | inl blank ↦ inl (rw (process_delivery_job, blank) refl)
    | inr filled ↦ elim (Bool-cases (any (of_job job) s.alert_deliveries)) [
      | inl old ↦ inl (rw (process_delivery_job, filled, old) refl)
      | inr new ↦ elim (Option-cases (find (event_of job) s.events)) [
        | inl e ↦ inl (rw (process_delivery_job, filled, new, e) refl)
        | inr (event, e) ↦ elim (Option-cases (find (channel_of job) s.channels)) [
          | inl c ↦ inl (rw (process_delivery_job, filled, new, e, c) refl)
          | inr (channel, c) ↦
              elim (Bool-cases
                (channel.is_enabled && is_severity_eligible event.severity channel.min_severity)) [
                  | inl eligible ↦ inr (
                    channel,
                    rw (process_delivery_job, filled, new, e, c, eligible) refl,
                    new,
                    filled,
                  )
                  | inr other ↦ inl (rw (process_delivery_job, filled, new, e, c, other) refl)
                ]
        ]
      ]
    ]
  ]

  pub process_delivery_job-Added : Added job s.alert_deliveries result.0.alert_deliveries
  process_delivery_job-Added = elim process_delivery_job_cases [
    | inl e ↦ rw e nothing_added
    | inr (channel, e, new, filled) ↦ rw e (guarded_delivery-Added channel new)
  ]

-- Any two deliveries differ in the event or in the channel.
abbrev pub Once : List AlertDelivery → Type 0
Once = Pairs (λ a b. same_delivery a b ≡ false)

any-false-All :
    (job : DeliveryJob) (rows : List AlertDelivery)
    → any (of_job job) rows ≡ false
    → All (λ d. of_job job d ≡ false) rows
any-false-All job [] h = tt
any-false-All job (d ∷ rows) h = elim (Bool-cases (of_job job d)) [
  | inl e ↦ absurd (ground arith)
  | inr e ↦ (e, any-false-All job rows (rw e at h))
]

Added-Once :
    (job : DeliveryJob) (rows later : List AlertDelivery)
    → Added job rows later
    → Once rows
    → Once later
Added-Once job rows _ nothing_added h = h
Added-Once job rows _ (one_added success status_code error duration_ms now new) h =
    Pairs-concat (λ a b. same_delivery a b ≡ false) rows
      (row_of job success status_code error duration_ms now) h (any-false-All job rows new)

-- No jobs, however often they come, bring a second delivery of an event to a channel.
pub process_all-Once :
    (runs : List Run) (s : Router)
    → Once s.alert_deliveries
    → Once (process_all runs s).alert_deliveries
unfolding process_all
process_all-Once [] s h = h
process_all-Once (r ∷ later) s h =
    process_all-Once later (process_delivery_job r.outside r.job r.began_at r.ended_at s).0 (
      Added-Once r.job s.alert_deliveries _
        (process_delivery_job-Added r.outside r.job r.began_at r.ended_at s) h)
