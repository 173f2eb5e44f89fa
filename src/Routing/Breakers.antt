-- ===== src/Routing/Breakers.antt =====
-- The circuit breaker of a channel, and the deliveries in the database.
use kritvia_global_dashboard.Base.{
  Bool, Bool-cases, List, Option, String, [], arith, count, count-append, eq_iff, false,
  if◌then◌else◌, inl, inr, is_some, leb, none, refl, some, true, ℕ, ◌++◌, ◌+◌, ◌-◌, ◌<◌, ◌===◌, ◌∙◌,
  ◌∷◌, ◌≡◌, ◌≤◌,
}
use kritvia_global_dashboard.OnCall.Resolver.{current}
use kritvia_global_dashboard.Routing.{
  AlertChannel, AlertDelivery, Breaker, Router, breaker_of, set_breaker,
}
use kritvia_global_dashboard.Routing.Channels.{Outside, Sent, not_sent, sent_with}
use kritvia_global_dashboard.Routing.Jobs.{
  DeliveryJob, Run, attempt_delivery, failed_breaker, guarded_delivery, is_open,
  max_deliveries_per_hour, persist_delivery, process_all, process_delivery_job, recent,
  record_attempt, row_of,
}
use kritvia_global_dashboard.Routing.Once.{process_delivery_job_cases}

-- The failures of a channel since its last success, by the rows: a row with a duration is of an
-- attempt, the others were refused.
abbrev pub count_row : String → ℕ → AlertDelivery → ℕ
count_row channel_id n d =
    if d.channel_id === channel_id
    then if d.success then 0 else if is_some d.duration_ms then n + 1 else n
    else n

abbrev pub streak_from : String → ℕ → List AlertDelivery → ℕ
streak_from channel_id n [] = n
streak_from channel_id n (d ∷ rows) = streak_from channel_id (count_row channel_id n d) rows

abbrev pub streak : String → List AlertDelivery → ℕ
streak channel_id rows = streak_from channel_id 0 rows

streak_from-append :
    (channel_id : String) (n : ℕ) (rows : List AlertDelivery) (d : AlertDelivery)
    → streak_from channel_id n (rows ++ d ∷ [])
      ≡ count_row channel_id (streak_from channel_id n rows) d
streak_from-append channel_id n [] d = refl
streak_from-append channel_id n (c ∷ rows) d =
    streak_from-append channel_id (count_row channel_id n c) rows d

-- A breaker that counts the failures of its channel, and is open after the fifth.
abbrev pub Counts : Option Breaker → ℕ → Type 0
Counts none n = n ≡ 0
Counts (some b) n = (b.fail_count ≡ n) × (is_some b.open_until ≡ leb 5 n)

-- The breakers agree with the rows.
abbrev pub Agrees : Router → Type 0
Agrees s =
    (channel_id : String)
    → Counts (breaker_of channel_id s.breakers) (streak channel_id s.alert_deliveries)

breaker_of-set_breaker :
    (id k : String) (b : Breaker) (rows : List (String × Breaker))
    → breaker_of id (set_breaker k b rows) ≡ (if k === id then some b else breaker_of id rows)
breaker_of-set_breaker id k b [] = refl
breaker_of-set_breaker id k b ((l, c) ∷ rows) =
    ground (arith, breaker_of-set_breaker id k b rows, eq_iff l k, eq_iff l id, eq_iff k id)

failed_breaker-Counts :
    (current : Option Breaker) (now n : ℕ)
    → Counts current n
    → Counts (some (failed_breaker current now)) (n + 1)
failed_breaker-Counts none now n h = (ground arith, ground arith)
failed_breaker-Counts (some b) now n h = (ground arith, ground arith)

-- The count after a row of the channel, and of another.
Counts-row :
    (channel_id k : String) (current : Option Breaker) (next : Breaker) (n m : ℕ)
    → Counts current n
    → (k ≡ channel_id → Counts (some next) m)
    → Counts (if k === channel_id then some next else current) (if k === channel_id then m else n)
Counts-row channel_id k current next n m h same_one = elim (Bool-cases (k === channel_id)) [
  | inl e ↦ rw e (same_one ((eq_iff k channel_id).0 e))
  | inr e ↦ rw e h
]

if_same : (test : Bool) (n : ℕ) → (if test then n else n) ≡ n
if_same true n = refl
if_same false n = refl

module _ (o : Outside) (job : DeliveryJob) (now ended : ℕ) (s : Router) where
  failed_here :
      (channel_id : String)
      → Agrees s
      → job.channel_id ≡ channel_id
      → Counts
          (some (failed_breaker (breaker_of job.channel_id s.breakers) ended))
          (streak channel_id s.alert_deliveries + 1)
  failed_here channel_id agrees e = rw (← e) (
      failed_breaker-Counts (breaker_of job.channel_id s.breakers) ended
        (streak job.channel_id s.alert_deliveries) (agrees job.channel_id))

  record_attempt-Agrees : (r : Sent) → Agrees s → Agrees (record_attempt job now ended s r).0
  unfolding record_attempt
  record_attempt-Agrees (sent_with status) agrees channel_id =
      rw
        (
          breaker_of-set_breaker channel_id job.channel_id
              (record { fail_count = 0; open_until = none }) s.breakers,
          streak_from-append channel_id 0 s.alert_deliveries
              (row_of job true (some status) none (some (ended - now)) ended),
        )
        (Counts-row channel_id job.channel_id (breaker_of channel_id s.breakers)
          (record { fail_count = 0; open_until = none }) (streak channel_id s.alert_deliveries) 0
          (agrees channel_id) (λ e. (refl, refl)))
  record_attempt-Agrees (not_sent message) agrees channel_id =
      rw
        (
          breaker_of-set_breaker channel_id job.channel_id
              (failed_breaker (breaker_of job.channel_id s.breakers) ended) s.breakers,
          streak_from-append channel_id 0 s.alert_deliveries
              (row_of job false none (some message) (some (ended - now)) ended),
        )
        (Counts-row channel_id job.channel_id (breaker_of channel_id s.breakers)
          (failed_breaker (breaker_of job.channel_id s.breakers) ended)
          (streak channel_id s.alert_deliveries) (streak channel_id s.alert_deliveries + 1)
          (agrees channel_id) (failed_here channel_id agrees))

  -- A row that is refused does not count.
  refused-Agrees :
      (why : String)
      → Agrees s
      → Agrees (persist_delivery (row_of job false none (some why) none now) s)
  refused-Agrees why agrees channel_id =
      rw
        (
          streak_from-append channel_id 0 s.alert_deliveries
              (row_of job false none (some why) none now),
          if_same (job.channel_id === channel_id) (streak channel_id s.alert_deliveries),
        )
        (agrees channel_id)

  guarded_delivery-Agrees :
      (channel : AlertChannel) → Agrees s → Agrees (guarded_delivery o channel job now ended s).0
  unfolding guarded_delivery
  guarded_delivery-Agrees channel agrees =
      elim (Bool-cases
        (leb max_deliveries_per_hour (count (recent job.org_id now) s.alert_deliveries))) [
          | inl full ↦ rw (guarded_delivery, full) (refused-Agrees "DELIVERY_RATE_LIMIT" agrees)
          | inr room ↦ elim (Bool-cases (is_open (breaker_of job.channel_id s.breakers) now)) [
            | inl halted ↦
                rw (guarded_delivery, room, halted) (refused-Agrees "CIRCUIT_OPEN" agrees)
            | inr closed ↦
                rw (guarded_delivery, room, closed)
                  (record_attempt-Agrees (attempt_delivery o channel job) agrees)
          ]
        ]

  process_delivery_job-Agrees : Agrees s → Agrees (process_delivery_job o job now ended s).0
  process_delivery_job-Agrees agrees = elim (process_delivery_job_cases o job now ended s) [
    | inl e ↦ rw e agrees
    | inr (channel, e, new, filled) ↦ rw e (guarded_delivery-Agrees channel agrees)
  ]

-- After any jobs, the breaker of each channel counts the failed attempts since its last success,
-- as the rows of the deliveries show them, and has an end just from the fifth failure on; if this
-- was so before.
pub process_all-Agrees : (runs : List Run) (s : Router) → Agrees s → Agrees (process_all runs s)
unfolding process_all
process_all-Agrees [] s h = h
process_all-Agrees (r ∷ later) s h =
    process_all-Agrees later (process_delivery_job r.outside r.job r.began_at r.ended_at s).0
      (process_delivery_job-Agrees r.outside r.job r.began_at r.ended_at s h)

-- While the breaker of a channel is open, no job reaches the channel: whatever would answer, the
-- breaker stays as it is, and the job ends without success.
pub guarded_delivery-is_open :
    (o : Outside) (channel : AlertChannel) (job : DeliveryJob) (now ended until : ℕ) (s : Router)
    (b : Breaker)
    → breaker_of job.channel_id s.breakers ≡ some b
    → b.open_until ≡ some until
    → now < until
    → ((guarded_delivery o channel job now ended s).0.breakers ≡ s.breakers)
      × ((guarded_delivery o channel job now ended s).1 ≡ false)
unfolding guarded_delivery
guarded_delivery-is_open o channel job now ended until s b found finish early =
    let halted : is_open (breaker_of job.channel_id s.breakers) now ≡ true =
      rw (found, finish) (ground arith) in
    elim (Bool-cases
      (leb max_deliveries_per_hour (count (recent job.org_id now) s.alert_deliveries))) [
        | inl full ↦ rw (guarded_delivery, full) (refl, refl)
        | inr room ↦ rw (guarded_delivery, room, halted) (refl, refl)
      ]

-- Once an organisation has as many deliveries in the last hour as it may have, a job for a channel
-- is refused, and the row of the refusal counts as one more.
pub guarded_delivery_full :
    (o : Outside) (channel : AlertChannel) (job : DeliveryJob) (now ended : ℕ) (s : Router)
    → max_deliveries_per_hour ≤ count (recent job.org_id now) s.alert_deliveries
    → ((guarded_delivery o channel job now ended s).1 ≡ false)
      × (count
            (recent job.org_id now)
            (guarded_delivery o channel job now ended s).0.alert_deliveries
          ≡ count (recent job.org_id now) s.alert_deliveries + 1)
unfolding guarded_delivery
guarded_delivery_full o channel job now ended s h =
    let full : leb max_deliveries_per_hour (count (recent job.org_id now) s.alert_deliveries)
        ≡ true =
      ground arith in
    let own : recent job.org_id now (row_of job false none (some "DELIVERY_RATE_LIMIT") none now)
        ≡ true =
      ground (arith, eq_iff job.org_id job.org_id) in
    rw (guarded_delivery, full)
      (refl, count-append (recent job.org_id now) s.alert_deliveries _ ∙ rw own refl)
