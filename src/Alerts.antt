-- ===== src/Alerts.antt =====
-- The alerts of the operations: src/observability/outbox-lag.service.ts (the evaluation), the items of
-- src/observability/alert-webhook.types.ts and `fromOpsAlerts` of
-- src/observability/alert-webhook-router.service.ts. The texts of the messages are left out.
pub mod Levels
pub mod Router
pub mod Outcome
pub mod Cooldown
mod Tests
use ranking.Prelude.{
  ℕ, ◌*◌, Bool, true, false, ◌&&◌, ◌||◌, not, Option, none, some, List, [], ◌∷◌, ◌++◌, map, String,
  ltb, leb, if◌then◌else◌, filter, or_else,
}
use ranking.Prelude.Keys.{◌==◌}
use ranking.Prelude.Texts.{Text, codes, text_key, starts_with}

pub data Category : Type 0 where
  outbox crawl trends ops : Category

pub data Level : Type 0 where
  ok warn critical : Level

pub record OpsAlert : Type 0 where
  pub code : Text
  pub severity : Level
  pub value : Option ℕ
  pub threshold : Option ℕ

-- A row of `flusher` or `kafka` of the metrics.
pub record Backlog : Type 0 where
  pub pending_total : ℕ
  pub oldest_pending_age_sec : Option ℕ

pub record Metrics : Type 0 where
  pub flusher : Backlog
  pub high_attempts_count : ℕ
  pub with_last_error_count : ℕ
  pub kafka : Backlog

-- The metrics of the crawler that `crawlAlerts` reads.
pub record CrawlMetrics : Type 0 where
  pub enabled : Bool
  pub last_schedule_run_age_sec : Option ℕ
  pub failed_1h : ℕ

-- The limits of a backlog, as they are named for the flusher and for Kafka.
pub record Limits : Type 0 where
  pub pending_warn : ℕ
  pub pending_critical : ℕ
  pub oldest_warn_sec : ℕ
  pub oldest_critical_sec : ℕ

pub record Thresholds : Type 0 where
  pub flusher : Limits
  pub kafka : Limits
  pub high_attempts_warn : ℕ
  pub crawl_scheduler_stale_min : ℕ
  pub crawl_failed_runs_1h_warn : ℕ

abbrev pub alert : String → Level → ℕ → ℕ → OpsAlert
alert code severity value threshold = record {
  code = codes code;
  severity = severity;
  value = some value;
  threshold = some threshold;
}

-- The two alerts on one backlog; the codes are those of the flusher or of Kafka.
pub record BacklogCodes : Type 0 where
  pub pending_warn : String
  pub pending_critical : String
  pub lag_warn : String
  pub lag_critical : String

abbrev pub flusher_codes : BacklogCodes
flusher_codes = record {
  pending_warn = "outbox_flusher_pending_warn";
  pending_critical = "outbox_flusher_pending_critical";
  lag_warn = "outbox_flusher_lag_warn";
  lag_critical = "outbox_flusher_lag_critical";
}

abbrev pub kafka_codes : BacklogCodes
kafka_codes = record {
  pending_warn = "outbox_kafka_pending_warn";
  pending_critical = "outbox_kafka_pending_critical";
  lag_warn = "outbox_kafka_lag_warn";
  lag_critical = "outbox_kafka_lag_critical";
}

unfoldable pub pending_alerts : BacklogCodes → Limits → Backlog → List OpsAlert
pending_alerts c t m =
    if leb t.pending_critical m.pending_total
    then alert c.pending_critical Level.critical m.pending_total t.pending_critical ∷ []
    else if leb t.pending_warn m.pending_total
    then alert c.pending_warn Level.warn m.pending_total t.pending_warn ∷ []
    else []

unfoldable pub lag_alerts : BacklogCodes → Limits → Backlog → List OpsAlert
lag_alerts c t m =
    let age = or_else m.oldest_pending_age_sec 0 in
    if ltb 0 m.pending_total && leb t.oldest_critical_sec age
    then alert c.lag_critical Level.critical age t.oldest_critical_sec ∷ []
    else if ltb 0 m.pending_total && leb t.oldest_warn_sec age
    then alert c.lag_warn Level.warn age t.oldest_warn_sec ∷ []
    else []

unfoldable pub row_alerts : Thresholds → Metrics → List OpsAlert
row_alerts t m =
    (if ltb 0 m.high_attempts_count
      then alert "outbox_high_attempts" Level.warn m.high_attempts_count t.high_attempts_warn ∷ []
      else [])
    ++ (if ltb 0 m.with_last_error_count
        then (record {
          code = codes "outbox_last_error";
          severity = Level.warn;
          value = some m.with_last_error_count;
          threshold = none;
        })
          ∷ []
        else [])

abbrev pub is_stale : Thresholds → CrawlMetrics → ℕ → Bool
is_stale t crawler age = crawler.enabled && ltb (t.crawl_scheduler_stale_min * 60) age

abbrev pub stale_alerts : Thresholds → CrawlMetrics → Option ℕ → List OpsAlert
stale_alerts t crawler none = []
stale_alerts t crawler (some age) =
    if is_stale t crawler age
    then alert "crawl_scheduler_stale" Level.warn age (t.crawl_scheduler_stale_min * 60) ∷ []
    else []

unfoldable pub crawl_alerts : Thresholds → CrawlMetrics → List OpsAlert
crawl_alerts t crawler =
    stale_alerts t crawler crawler.last_schedule_run_age_sec
    ++ (if leb t.crawl_failed_runs_1h_warn crawler.failed_1h
        then alert "crawl_schedule_failed_1h" Level.warn crawler.failed_1h
            t.crawl_failed_runs_1h_warn
          ∷ []
        else [])

abbrev pub optional_crawl_alerts : Thresholds → Option CrawlMetrics → List OpsAlert
optional_crawl_alerts t none = []
optional_crawl_alerts t (some crawler) = crawl_alerts t crawler

abbrev pub unless_quiet : List OpsAlert → List OpsAlert
unless_quiet [] =
    (record { code = codes "all_ok"; severity = Level.ok; value = none; threshold = none }) ∷ []
unless_quiet (a ∷ alerts) = a ∷ alerts

-- What is pushed before the list is looked at.
abbrev pub all_alerts : Thresholds → Metrics → Option CrawlMetrics → List OpsAlert
all_alerts t m crawler =
    pending_alerts flusher_codes t.flusher m.flusher
    ++ (lag_alerts flusher_codes t.flusher m.flusher
        ++ (pending_alerts kafka_codes t.kafka m.kafka
            ++ (lag_alerts kafka_codes t.kafka m.kafka
                ++ (row_alerts t m ++ optional_crawl_alerts t crawler))))

unfoldable pub evaluate_alerts : Thresholds → Metrics → Option CrawlMetrics → List OpsAlert
unfolding pending_alerts lag_alerts row_alerts crawl_alerts
evaluate_alerts t m crawler = unless_quiet (all_alerts t m crawler)

-- `alertCategoryFromCode` of src/observability/alert-webhook.config.ts.
unfoldable pub alert_category_from_code : Text → Category
alert_category_from_code code =
    if starts_with code (codes "outbox_")
    then Category.outbox
    else if starts_with code (codes "crawl_")
    then Category.crawl
    else if starts_with code (codes "entity_")
        || (starts_with code (codes "snapshot_") || code == codes "trend_digest")
    then Category.trends
    else Category.ops

-- `UnifiedAlertItem`, less the message and the optional fields that only the text of an alert shows.
pub record AlertItem : Type 0 where
  pub code : Text
  pub severity : Level
  pub category : Category
  pub value : Option ℕ
  pub threshold : Option ℕ

abbrev pub is_ok : Level → Bool
is_ok Level.ok = true
is_ok _ = false

unfoldable pub from_ops_alerts : List OpsAlert → List AlertItem
unfolding alert_category_from_code
from_ops_alerts alerts =
    map
      (λ a. record {
        code = a.code;
        severity = a.severity;
        category = alert_category_from_code a.code;
        value = a.value;
        threshold = a.threshold;
      })
      (filter (λ a. not (is_ok a.severity)) alerts)
