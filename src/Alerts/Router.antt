-- ===== src/Alerts/Router.antt =====
-- `AlertWebhookRouterService` of src/observability/alert-webhook-router.service.ts and the routes of
-- src/observability/alert-webhook.config.ts. The reply to a request is an argument; times are
-- milliseconds, and a post carries its payload before it is printed as JSON.
use ranking.Prelude.{
  ℕ, ◌+◌, ◌-◌, ◌*◌, Bool, true, false, ◌&&◌, not, Option, none, some, List, [], ◌∷◌, ◌++◌, map, ltb,
  if◌then◌else◌, filter, any, or_else, length, take,
}
use ranking.Prelude.Dict.{Dict, get, set}
use ranking.Prelude.Texts.{Text, codes, text_key, trim, includes}
use ranking.Alerts.{Category, Level, AlertItem}

pub data Format : Type 0 where
  json slack pagerduty : Format

pub record Routes : Type 0 where
  pub default : Option Text
  pub critical : Option Text
  pub categories : Category → Option Text

pub record Config : Type 0 where
  pub disabled : Bool
  pub default_url : Option Text
  pub routes : Routes
  pub bearer_token : Option Text
  pub cooldown_seconds : ℕ
  pub format : Format
  pub runbook_base_url : Option Text
  pub pagerduty_routing_key : Option Text
  pub trend_override_url : Option Text

pub record Input : Type 0 where
  pub source : Text
  pub category : Category
  pub alerts : List AlertItem

-- `AlertWebhookEnvelopeV1`, less the names of the environment and the context, which are only printed.
pub record Envelope : Type 0 where
  pub source : Text
  pub category : Category
  pub generated_at : ℕ
  pub status : Level
  pub alert_count : ℕ
  pub alerts : List AlertItem

pub data Payload : Type 0 where
  plain : Envelope → Payload
  slack : Text → List Text → Envelope → Payload
  pagerduty : Text → Text → Envelope → Payload

pub record Post : Type 0 where
  pub url : Text
  pub authorization : Option Text
  pub body : Payload

pub data Reply : Type 0 where
  success : Reply
  status : ℕ → Reply
  exception : Text → Reply

pub data Error : Type 0 where
  http : ℕ → Error
  message : Text → Error

pub record Result : Type 0 where
  pub sent : ℕ
  pub skipped_cooldown : ℕ
  pub skipped_no_route : Bool
  pub errors : List Error

-- A text is falsy if it is missing or empty.
abbrev pub given : Option Text → Option Text
given none = none
given (some []) = none
given (some (c ∷ s)) = some (c ∷ s)

-- `if (x) return x;`, and then `y`.
abbrev pub first_given : Option Text → Option Text → Option Text
first_given x y = elim (given x) [ some url ↦ some url | none ↦ y ]

abbrev pub is_trends : Category → Bool
is_trends Category.trends = true
is_trends _ = false

abbrev pub is_critical : Level → Bool
is_critical Level.critical = true
is_critical _ = false

abbrev pub when : Bool → Option Text → Option Text
when b x = if b then x else none

unfoldable pub resolve_webhook_url : Config → Category → Level → Option Text
resolve_webhook_url cfg category worst =
    if cfg.disabled
    then none
    else first_given (cfg.routes.categories category) (
        first_given (when (is_trends category) cfg.trend_override_url) (
          first_given (when (is_critical worst) cfg.routes.critical)
            (elim cfg.routes.default [ some url ↦ some url | none ↦ cfg.default_url ])))

unfoldable pub worst_severity : List AlertItem → Level
worst_severity alerts =
    if any (λ a. is_critical a.severity) alerts then Level.critical else Level.warn

unfoldable pub resolve_payload_format : Config → Text → Level → Format
resolve_payload_format cfg url worst = elim cfg.format [
  | Format.slack ↦ Format.slack
  | Format.pagerduty ↦ Format.pagerduty
  | Format.json ↦
      if includes url (codes "events.pagerduty.com") && is_critical worst
      then Format.pagerduty
      else Format.json
]

abbrev pub severity_text : Level → Text
severity_text Level.ok = codes "ok"
severity_text Level.warn = codes "warn"
severity_text Level.critical = codes "critical"

abbrev pub category_text : Category → Text
category_text Category.outbox = codes "outbox"
category_text Category.crawl = codes "crawl"
category_text Category.trends = codes "trends"
category_text Category.ops = codes "ops"

-- The icon, and the lines of the first 20 alerts up to their messages.
unfoldable pub format_slack_payload : Envelope → Payload
format_slack_payload e =
    Payload.slack (if is_critical e.status then codes ":rotating_light:" else codes ":warning:")
      (map
        (λ a. codes "• `" ++ (a.code ++ (codes "` (" ++ (severity_text a.severity ++ codes "): "))))
        (take 20 e.alerts))
      e

-- None is the exception for a missing key.
unfoldable pub format_pager_duty_payload : Envelope → Option Text → Option Payload
format_pager_duty_payload e routing_key = elim (given (some (trim (or_else routing_key [])))) [
  | none ↦ none
  | some key ↦
      some (
        Payload.pagerduty key (if is_critical e.status then codes "critical" else codes "warning")
          e)
]

unfoldable pub build_payload : Config → Text → Envelope → Option Payload
unfolding resolve_payload_format format_slack_payload format_pager_duty_payload
build_payload cfg url e = elim (resolve_payload_format cfg url e.status) [
  | Format.slack ↦ some (format_slack_payload e)
  | Format.pagerduty ↦ format_pager_duty_payload e cfg.pagerduty_routing_key
  | Format.json ↦ some (Payload.plain e)
]

-- `${input.category}:${a.code}:${a.severity}`.
abbrev pub cooldown_key : Category → AlertItem → Text
cooldown_key category a =
    category_text category ++ (b':' ∷ (a.code ++ (b':' ∷ severity_text a.severity)))

-- The alert was not sent, or not within the cooldown. `now - last` may be negative in the source.
unfoldable pub is_due : Config → ℕ → Dict Text ℕ → Category → AlertItem → Bool
is_due cfg now last_sent_at category a = elim (get (cooldown_key category a) last_sent_at) [
  | none ↦ true
  | some last ↦ not (ltb now (last + cfg.cooldown_seconds * 1000))
]

-- `lastSentAt.set(key, now)` for each of the keys.
unfoldable pub mark_sent : ℕ → List Text → Dict Text ℕ → Dict Text ℕ
mark_sent now [] last_sent_at = last_sent_at
mark_sent now (k ∷ ks) last_sent_at = mark_sent now ks (set k now last_sent_at)

-- What a call leaves behind: the map, the result, and the post with the keys of its alerts.
pub record Dispatched : Type 0 where
  pub last_sent_at : Dict Text ℕ
  pub result : Result
  pub post : Option (Post × List Text)

abbrev pub authorization_of : Option Text → Option Text
authorization_of token = elim (given token) [ none ↦ none | some t ↦ some (codes "Bearer " ++ t) ]

module _ (now : ℕ) (last_sent_at : Dict Text ℕ) (skipped : ℕ) where
  abbrev pub result_with : ℕ → Bool → List Error → Result
  result_with sent no_route errors = record {
    sent = sent;
    skipped_cooldown = skipped;
    skipped_no_route = no_route;
    errors = errors;
  }

  abbrev pub posted : Post → List Text → Dict Text ℕ → ℕ → List Error → Dispatched
  posted post ks m sent errors = record {
    last_sent_at = m;
    result = result_with sent false errors;
    post = some (post, ks);
  }

  unfoldable pub after_reply : Post → List Text → Reply → Dispatched
  unfolding mark_sent
  after_reply post ks Reply.success = posted post ks (mark_sent now ks last_sent_at) 1 []
  after_reply post ks (Reply.status n) = posted post ks last_sent_at 0 (Error.http n ∷ [])
  after_reply post ks (Reply.exception msg) = posted post ks last_sent_at 0 (Error.message msg ∷ [])

  abbrev pub nothing_posted : Bool → List Error → Dispatched
  nothing_posted no_route errors = record {
    last_sent_at = last_sent_at;
    result = result_with 0 no_route errors;
    post = none;
  }

  module _ (cfg : Config) (fetch : Post → Reply) (input : Input) (due : List AlertItem) where
    -- The payload, none for the exception, is sent to the address.
    abbrev pub send : Text → Option Payload → Dispatched
    send url none =
        nothing_posted false
          (Error.message (codes "PAGERDUTY_ROUTING_KEY required for PagerDuty webhook format") ∷ [])
    send url (some body) =
        let post : Post = record {
          url = url;
          authorization = authorization_of cfg.bearer_token;
          body = body;
        } in
        after_reply post (map (cooldown_key input.category) due) (fetch post)

    abbrev pub envelope : Envelope
    envelope = record {
      source = input.source;
      category = input.category;
      generated_at = now;
      status = worst_severity due;
      alert_count = length due;
      alerts = due;
    }

    -- The alerts are due, and there is one.
    unfoldable pub dispatch_due : Dispatched
    unfolding after_reply resolve_webhook_url build_payload worst_severity
    dispatch_due = elim (given (resolve_webhook_url cfg input.category (worst_severity due))) [
      | none ↦ nothing_posted true []
      | some url ↦ send url (build_payload cfg url envelope)
    ]

  abbrev pub unless_none_due : Config → (Post → Reply) → Input → List AlertItem → Dispatched
  unless_none_due cfg fetch input [] = nothing_posted false []
  unless_none_due cfg fetch input (a ∷ due) = dispatch_due cfg fetch input (a ∷ due)

unfoldable pub dispatch : Config → (Post → Reply) → ℕ → Input → Dict Text ℕ → Dispatched
unfolding dispatch_due is_due
dispatch cfg fetch now input last_sent_at =
    let due = filter (is_due cfg now last_sent_at input.category) input.alerts in
    if cfg.disabled
    then nothing_posted now last_sent_at 0 false []
    else unless_none_due now last_sent_at (length input.alerts - length due) cfg fetch input due
