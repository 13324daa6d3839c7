-- ===== src/Alerts/Tests.antt =====
-- Examples for the alerts and their routing.
use ranking.Prelude.{
  ℕ, ◌≡◌, refl, ◌↔◌, ◌||◌, Bool, true, false, Option, none, some, List, [], ◌∷◌, any,
}
use ranking.Prelude.Texts.{Text, codes}
use ranking.Alerts.{
  Category, Level, Limits, Metrics, CrawlMetrics, Thresholds, AlertItem, evaluate_alerts,
  from_ops_alerts,
}
use ranking.Alerts.Levels.{is_critical, is_backlog_critical, is_noisy, evaluate_alerts_level}
use ranking.Alerts.Router.{Format, Config, Input, Post, Payload, Reply, dispatch, cooldown_key}
use ranking.Alerts.Cooldown.{Call, IsSpaced, run, run-IsSpaced, dispatch_retried}

abbrev limits : Limits
limits = record {
  pending_warn = 100;
  pending_critical = 1000;
  oldest_warn_sec = 300;
  oldest_critical_sec = 1800;
}

abbrev thresholds : Thresholds
thresholds = record {
  flusher = limits;
  kafka = limits;
  high_attempts_warn = 5;
  crawl_scheduler_stale_min = 10;
  crawl_failed_runs_1h_warn = 10;
}

abbrev metrics : ℕ → ℕ → Metrics
metrics pending age = record {
  flusher = record { pending_total = pending; oldest_pending_age_sec = some age };
  high_attempts_count = 1;
  with_last_error_count = 0;
  kafka = record { pending_total = 0; oldest_pending_age_sec = none };
}

abbrev crawler : CrawlMetrics
crawler = record { enabled = true; last_schedule_run_age_sec = some 700; failed_1h = 2 }

abbrev raised : List AlertItem
raised = from_ops_alerts (evaluate_alerts thresholds (metrics 120 2000) (some crawler))

levels :
    ranking.Prelude.map (λ a. a.severity) raised
    ≡ Level.warn ∷ Level.critical ∷ Level.warn ∷ Level.warn ∷ []
unfolding evaluate_alerts from_ops_alerts
levels = refl

evaluate_alerts_level_example :
    (any is_critical (evaluate_alerts thresholds (metrics 120 2000) none) ≡ (
      is_backlog_critical limits (metrics 120 2000).flusher
      || is_backlog_critical limits (metrics 120 2000).kafka))
    × ((from_ops_alerts (evaluate_alerts thresholds (metrics 120 2000) none) ≡ [])
        ↔ (is_noisy thresholds (metrics 120 2000) none ≡ false))
evaluate_alerts_level_example = evaluate_alerts_level thresholds (metrics 120 2000) none

abbrev config : Config
config = record {
  disabled = false;
  default_url = some (codes "https://example.org/alerts");
  routes = record { default = none; critical = none; categories = λ c. none };
  bearer_token = none;
  cooldown_seconds = 300;
  format = Format.json;
  runbook_base_url = none;
  pagerduty_routing_key = none;
  trend_override_url = none;
}

abbrev item : AlertItem
item = record {
  code = codes "outbox_last_error";
  severity = Level.warn;
  category = Category.outbox;
  value = some 3;
  threshold = none;
}

abbrev input : Input
input = record { source = codes "ops"; category = Category.ops; alerts = item ∷ [] }

abbrev call : ℕ → Reply → Call
call now reply = record { now = now; input = input; fetch = λ p. reply }

-- Refused at first, sent, skipped within the five minutes, and sent again; the last call stands first.
abbrev calls : List Call
calls =
    call 500_000 Reply.success
    ∷ call 290_000 Reply.success
    ∷ call 1000 Reply.success
    ∷ call 0 (Reply.status 503)
    ∷ []

times : ranking.Prelude.map (λ p. p.time) (run config calls).log ≡ 500_000 ∷ 1000 ∷ []
unfolding run dispatch ranking.Prelude.Dict.get ranking.Prelude.Dict.set
times = refl

run-IsSpaced_example : IsSpaced 300_000 (run config calls).log
run-IsSpaced_example = run-IsSpaced config calls

-- The post of the first call.
abbrev expected : Post × List Text
expected = (
  (record {
    url = codes "https://example.org/alerts";
    authorization = none;
    body = Payload.plain (record {
      source = codes "ops";
      category = Category.ops;
      generated_at = 0;
      status = Level.warn;
      alert_count = 1;
      alerts = item ∷ [];
    });
  }),
  cooldown_key Category.ops item ∷ [],
)

dispatch_retried_example :
    ((dispatch config
        (λ p. Reply.success)
        0
        input
        (dispatch config (λ p. Reply.status 503) 0 input []).last_sent_at).post
      ≡ some expected)
    × ((dispatch config
          (λ p. Reply.success)
          0
          input
          (dispatch config (λ p. Reply.status 503) 0 input []).last_sent_at).result.sent
        ≡ 1)
unfolding dispatch ranking.Prelude.Dict.get
dispatch_retried_example =
    dispatch_retried config 0 input [] (λ p. Reply.status 503) expected refl refl
