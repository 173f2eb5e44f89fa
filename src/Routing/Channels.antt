-- ===== src/Routing/Channels.antt =====
-- How alerts/alert-routing.service.ts delivers an alert: by webhook, by mail and by Slack. What the
-- requests end with, the environment, the access token and the errors of other services are
-- parameters; the texts of the messages are left out.
use Prim.Native.String as Str
use kritvia_global_dashboard.Base.{
  Bool, List, Option, String, false, if◌then◌else◌, is_empty, is_some, keep, leb, length, ltb, none,
  not, or_else, some, suc, trim, true, zero, ℕ, ◌&&◌, ◌+◌, ◌===◌,
}
use kritvia_global_dashboard.OnCall.Resolver.{present}
use kritvia_global_dashboard.Routing.{ChannelConfig}

pub data Sent : Type 0 where
  sent_with : ℕ → Sent
  not_sent : String → Sent

-- `fetch` at an attempt: a status, or an error with its message.
pub data Reply : Type 0 where
  status_reply : ℕ → Reply
  error_reply : String → Reply

-- The answer of Slack: its status, and `ok` and `error` of the body.
pub record SlackReply : Type 0 where
  pub status : ℕ
  pub accepted : Bool
  pub error : Option String

pub record Outside : Type 0 where
  pub webhook : ℕ → Reply
  pub mail : Reply
  pub slack : SlackReply
  pub slack_throws : Option String
  pub resend_api_key : Option String
  pub slack_connected : Bool
  pub access_token : Option String
  pub decrypt_app_config : String → Option ChannelConfig
  pub digits : ℕ → String
  pub decrypt_error : String
  pub token_error : String

abbrev pub reply_ok : Reply → Bool
reply_ok (status_reply status) = leb 200 status && leb status 299
reply_ok (error_reply message) = false

abbrev pub last_status : ℕ → Reply → ℕ
last_status before (status_reply status) = status
last_status before (error_reply message) = before

abbrev pub last_error : (ℕ → String) → Reply → String
last_error digits (status_reply status) = Str.◌++◌ "Webhook responded with status " (digits status)
last_error digits (error_reply message) = message

abbrev pub status_in : Reply → ℕ
status_in (status_reply status) = status
status_in (error_reply message) = 0

-- By characters, of which those beyond the basic plane count as one.
abbrev pub longer_than_three : String → Bool
longer_than_three (Str.◌∷◌ a (Str.◌∷◌ b (Str.◌∷◌ c (Str.◌∷◌ d s)))) = true
longer_than_three s = false

abbrev pub trimmed_text : Option String → String
trimmed_text text = trim (or_else text "")

module _ (o : Outside) where
  -- The loop from an attempt on, with the attempts that are left after it and the last status.
  unfoldable pub webhook_attempts : ℕ → ℕ → ℕ → Sent
  webhook_attempts zero attempt before =
      let status = last_status before (o.webhook attempt) in
      if reply_ok (o.webhook attempt)
      then sent_with (status_in (o.webhook attempt))
      else not_sent (
          if ltb 0 status
          then Str.◌++◌ "WEBHOOK_" (o.digits status)
          else last_error o.digits (o.webhook attempt))
  webhook_attempts (suc left) attempt before =
      let later = webhook_attempts left (attempt + 1) (last_status before (o.webhook attempt)) in
      if reply_ok (o.webhook attempt) then sent_with (status_in (o.webhook attempt)) else later

  unfoldable pub deliver_webhook : ChannelConfig → Sent
  unfolding webhook_attempts
  deliver_webhook config =
      if is_empty (trim (or_else config.url ""))
      then not_sent "Webhook channel missing url"
      else webhook_attempts 2 1 0

  abbrev pub recipients : ChannelConfig → List String → List String
  recipients config override =
      if ltb 0 (length override) then override else keep (λ t. longer_than_three (trim t)) config.to

  unfoldable pub deliver_email : ChannelConfig → List String → Sent
  deliver_email config override =
      if not (is_some (present o.resend_api_key))
      then not_sent "RESEND_NOT_CONFIGURED"
      else if leb (length (recipients config override)) 0
      then not_sent "EMAIL_RECIPIENTS_MISSING"
      else elim o.mail [
        | error_reply message ↦ not_sent message
        | status_reply status ↦
            if leb 200 status && leb status 299
            then sent_with status
            else not_sent (Str.◌++◌ "EMAIL_" (o.digits status))
      ]

  abbrev pub slack_channel : ChannelConfig → String
  slack_channel config =
      let first = trimmed_text config.channel_id in
      if is_empty first then trimmed_text config.channel else first

  abbrev pub slack_error : SlackReply → String
  slack_error r = Str.◌++◌ "SLACK_" (or_else (present r.error) (o.digits r.status))

  -- Without a token the service that refreshes it throws.
  unfoldable pub deliver_slack : ChannelConfig → Sent
  deliver_slack config =
      if is_empty (slack_channel config)
      then not_sent "SLACK_CHANNEL_MISSING"
      else if not o.slack_connected
      then not_sent "SLACK_NOT_CONNECTED"
      else if not (is_some o.access_token)
      then not_sent o.token_error
      else elim o.slack_throws [
        | some message ↦ not_sent message
        | none ↦
            if leb 200 o.slack.status && leb o.slack.status 299 && o.slack.accepted
            then sent_with o.slack.status
            else not_sent (slack_error o.slack)
      ]

  unfoldable pub deliver_by_channel_type : String → ChannelConfig → List String → Sent
  unfolding deliver_webhook deliver_email deliver_slack
  deliver_by_channel_type type config override =
      if type === "WEBHOOK"
      then deliver_webhook config
      else if type === "EMAIL"
      then deliver_email config override
      else if type === "SLACK"
      then deliver_slack config
      else not_sent "Unsupported alert channel type"
