-- ===== src/Routing/Examples.antt =====
-- The theorems on the routing of alerts at concrete tables.
use kritvia_global_dashboard.Base.{
  List, String, [], ap, arith, false, length, none, refl, some, suc, sym, trim, true, zero, ℕ, ◌∷◌,
  ◌≡◌, ◌≢◌,
}
use kritvia_global_dashboard.Routing.{
  AlertChannel, AlertDelivery, Router, is_severity_eligible, severity_weight,
}
use kritvia_global_dashboard.Routing.Again.{process_delivery_job_again}
use kritvia_global_dashboard.Routing.Breakers.{Agrees, process_all-Agrees}
use kritvia_global_dashboard.Routing.Channels.{Outside, error_reply, status_reply}
use kritvia_global_dashboard.Routing.Jobs.{
  DeliveryJob, Run, guarded_delivery, process_all, process_delivery_job, record_attempt, row_of,
}
use kritvia_global_dashboard.Routing.Once.{Once, process_all-Once}

abbrev paging : AlertChannel
paging = record {
  id = "c1";
  org_id = "o1";
  type = "WEBHOOK";
  is_enabled = true;
  min_severity = "HIGH";
  config_encrypted = some "x";
}

abbrev failing : Outside
failing = record {
  webhook = λ n. status_reply 500;
  mail = error_reply "down";
  slack = record { status = 500; accepted = false; error = none };
  slack_throws = none;
  resend_api_key = none;
  slack_connected = false;
  access_token = none;
  decrypt_app_config = λ t. some (record {
    url = some "https://example.org";
    secret = none;
    to = [];
    from_address = none;
    channel = none;
    channel_id = none;
  });
  digits = λ n. "500";
  decrypt_error = "bad key";
  token_error = "no token";
}

abbrev page_job : DeliveryJob
page_job = record {
  alert_event_id = "e1";
  channel_id = "c1";
  org_id = "o1";
  email_recipients_override = [];
}

abbrev idle_router : Router
idle_router = record {
  events =
      record { id = "e1"; org_id = "o1"; type = "DOWN"; severity = "CRITICAL"; title = "API down" }
      ∷ [];
  channels = paging ∷ [];
  alert_deliveries = [];
  breakers = [];
}

abbrev page_run : Run
page_run = record { outside = failing; job = page_job; began_at = 10; ended_at = 20 }

process_all-Once_example :
    Once (process_all (page_run ∷ page_run ∷ []) idle_router).alert_deliveries
process_all-Once_example = process_all-Once (page_run ∷ page_run ∷ []) idle_router tt

process_all-Agrees_example : Agrees (process_all (page_run ∷ page_run ∷ []) idle_router)
process_all-Agrees_example =
    process_all-Agrees (page_run ∷ page_run ∷ []) idle_router (λ channel_id. refl)

abbrev tripped : Router
tripped = record idle_router {
  breakers = ("c1", record { fail_count = 5; open_until = some 300020 }) ∷ [];
}

abbrev rows_at_ten : ℕ → List AlertDelivery
rows_at_ten zero = []
rows_at_ten (suc n) = row_of page_job true (some 200) none (some 1) 10 ∷ rows_at_ten n

abbrev busy_router : Router
busy_router = record idle_router { alert_deliveries = rows_at_ten 30 }

zero_one : (n : ℕ) → n ≡ 0 → n ≢ 1
zero_one n e h = absurd (omega arith)

abbrev same_text : String → String
same_text t = t

process_delivery_job_again_example :
    process_delivery_job failing page_job 900000 900010
      (process_delivery_job failing page_job 10 20 idle_router).0
    ≡ ((process_delivery_job failing page_job 10 20 idle_router).0, true)
unfolding process_delivery_job guarded_delivery record_attempt is_severity_eligible severity_weight
    trim
process_delivery_job_again_example =
    process_delivery_job_again failing page_job 10 20 idle_router failing 900000 900010
      (λ e. absurd (zero_one 0 refl (ap (λ (s : Router). length s.breakers) (sym e))))
