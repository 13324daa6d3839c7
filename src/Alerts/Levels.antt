-- ===== src/Alerts/Levels.antt =====
-- What the alerts of src/observability/outbox-lag.service.ts say of the metrics.
use ranking.Prelude.{
  ℕ, ◌≡◌, refl, ◌∙◌, ◌↔◌, Bool, true, false, ◌&&◌, ◌||◌, not, Option, none, some, List, [], ◌∷◌,
  ◌++◌, any, arith, leb, ltb, or_else,
}
use ranking.Alerts.{
  Level, OpsAlert, Backlog, Limits, Metrics, CrawlMetrics, Thresholds, BacklogCodes, flusher_codes,
  kafka_codes, pending_alerts, lag_alerts, row_alerts, is_stale, crawl_alerts,
  optional_crawl_alerts, unless_quiet, evaluate_alerts, all_alerts, is_ok, from_ops_alerts,
}

-- A backlog is at or above one pair of limits, by its size or, if it is not empty, by its age.
abbrev pub is_over : ℕ → ℕ → Backlog → Bool
is_over pending oldest m =
    leb pending m.pending_total
    || (ltb 0 m.pending_total && leb oldest (or_else m.oldest_pending_age_sec 0))

abbrev pub is_backlog_critical : Limits → Backlog → Bool
is_backlog_critical t m = is_over t.pending_critical t.oldest_critical_sec m

abbrev pub is_backlog_noisy : Limits → Backlog → Bool
is_backlog_noisy t m = is_backlog_critical t m || is_over t.pending_warn t.oldest_warn_sec m

abbrev pub is_crawl_noisy : Thresholds → Option CrawlMetrics → Bool
is_crawl_noisy t none = false
is_crawl_noisy t (some c) =
    is_age_stale c.last_schedule_run_age_sec || leb t.crawl_failed_runs_1h_warn c.failed_1h
  where
    is_age_stale : Option ℕ → Bool
    is_age_stale none = false
    is_age_stale (some age) = is_stale t c age

abbrev pub is_noisy : Thresholds → Metrics → Option CrawlMetrics → Bool
is_noisy t m c =
    is_backlog_noisy t.flusher m.flusher
    || (is_backlog_noisy t.kafka m.kafka
        || (ltb 0 m.high_attempts_count || (ltb 0 m.with_last_error_count || is_crawl_noisy t c)))

abbrev pub is_critical : OpsAlert → Bool
is_critical a = elim a.severity [ Level.critical ↦ true | _ ↦ false ]

abbrev pub is_alarm : OpsAlert → Bool
is_alarm a = not (is_ok a.severity)

any-append :
    (p : OpsAlert → Bool) (xs ys : List OpsAlert) → any p (xs ++ ys) ≡ (any p xs || any p ys)
any-append p [] ys = refl
any-append p (x ∷ xs) ys = ground (arith, any-append p xs ys)

backlog_critical :
    (c : BacklogCodes) (t : Limits) (m : Backlog)
    → (any is_critical (pending_alerts c t m) || any is_critical (lag_alerts c t m))
      ≡ is_backlog_critical t m
unfolding pending_alerts lag_alerts
backlog_critical c t m = ground arith

backlog_alarm :
    (c : BacklogCodes) (t : Limits) (m : Backlog)
    → (any is_alarm (pending_alerts c t m) || any is_alarm (lag_alerts c t m))
      ≡ is_backlog_noisy t m
unfolding pending_alerts lag_alerts
backlog_alarm c t m = ground arith

other_critical :
    (t : Thresholds) (m : Metrics) (c : Option CrawlMetrics)
    → any is_critical (row_alerts t m ++ optional_crawl_alerts t c) ≡ false
unfolding row_alerts crawl_alerts
other_critical t m c = ground arith

other_alarm :
    (t : Thresholds) (m : Metrics) (c : Option CrawlMetrics)
    → any is_alarm (row_alerts t m ++ optional_crawl_alerts t c)
      ≡ (ltb 0 m.high_attempts_count || (ltb 0 m.with_last_error_count || is_crawl_noisy t c))
unfolding row_alerts crawl_alerts
other_alarm t m c = ground arith

critical-unless_quiet :
    (xs : List OpsAlert) → any is_critical (unless_quiet xs) ≡ any is_critical xs
critical-unless_quiet [] = refl
critical-unless_quiet (x ∷ xs) = refl

alarm-unless_quiet : (xs : List OpsAlert) → any is_alarm (unless_quiet xs) ≡ any is_alarm xs
alarm-unless_quiet [] = refl
alarm-unless_quiet (x ∷ xs) = refl

-- A Boolean that says of a list that some element counts, over the five groups of alerts.
any-groups :
    (p : OpsAlert → Bool) (a b c d e : List OpsAlert) (x y z : Bool)
    → (any p a || any p b) ≡ x
    → (any p c || any p d) ≡ y
    → any p e ≡ z
    → any p (a ++ (b ++ (c ++ (d ++ e)))) ≡ (x || (y || z))
any-groups p a b c d e x y z i j k = ground (
  arith,
  any-append p a (b ++ (c ++ (d ++ e))),
  any-append p b (c ++ (d ++ e)),
  any-append p c (d ++ e),
  any-append p d e,
)

from_ops_alerts_empty : (xs : List OpsAlert) → (from_ops_alerts xs ≡ []) ↔ (any is_alarm xs ≡ false)
unfolding from_ops_alerts
from_ops_alerts_empty [] = ground arith
from_ops_alerts_empty (x ∷ xs) = ground (arith, from_ops_alerts_empty xs)

any-all_alerts :
    (p : OpsAlert → Bool) (t : Thresholds) (m : Metrics) (c : Option CrawlMetrics) (x y z : Bool)
    → (any p (pending_alerts flusher_codes t.flusher m.flusher)
        || any p (lag_alerts flusher_codes t.flusher m.flusher))
      ≡ x
    → (any p (pending_alerts kafka_codes t.kafka m.kafka)
        || any p (lag_alerts kafka_codes t.kafka m.kafka))
      ≡ y
    → any p (row_alerts t m ++ optional_crawl_alerts t c) ≡ z
    → any p (all_alerts t m c) ≡ (x || (y || z))
any-all_alerts p t m c =
    any-groups p (pending_alerts flusher_codes t.flusher m.flusher)
      (lag_alerts flusher_codes t.flusher m.flusher) (pending_alerts kafka_codes t.kafka m.kafka)
      (lag_alerts kafka_codes t.kafka m.kafka) (row_alerts t m ++ optional_crawl_alerts t c)

evaluate_critical :
    (t : Thresholds) (m : Metrics) (c : Option CrawlMetrics)
    → any is_critical (evaluate_alerts t m c)
      ≡ (is_backlog_critical t.flusher m.flusher || (is_backlog_critical t.kafka m.kafka || false))
unfolding evaluate_alerts
evaluate_critical t m c =
    critical-unless_quiet (all_alerts t m c)
    ∙ any-all_alerts is_critical t m c _ _ _ (backlog_critical flusher_codes t.flusher m.flusher)
        (backlog_critical kafka_codes t.kafka m.kafka) (other_critical t m c)

evaluate_alarm :
    (t : Thresholds) (m : Metrics) (c : Option CrawlMetrics)
    → any is_alarm (evaluate_alerts t m c) ≡ is_noisy t m c
unfolding evaluate_alerts
evaluate_alarm t m c =
    alarm-unless_quiet (all_alerts t m c)
    ∙ any-all_alerts is_alarm t m c _ _ _ (backlog_alarm flusher_codes t.flusher m.flusher)
        (backlog_alarm kafka_codes t.kafka m.kafka) (other_alarm t m c)

-- The evaluation has a critical alert exactly if the flusher's or Kafka's backlog has reached its critical
-- size or, while it is not empty, its critical age. And nothing is left to dispatch exactly if no backlog
-- has reached a limit for a warning or a critical alert, no row has many attempts or an error, and the
-- crawler is neither late nor failing.
pub evaluate_alerts_level :
    (t : Thresholds) (m : Metrics) (c : Option CrawlMetrics)
    → (any is_critical (evaluate_alerts t m c)
        ≡ (is_backlog_critical t.flusher m.flusher || is_backlog_critical t.kafka m.kafka))
      × ((from_ops_alerts (evaluate_alerts t m c) ≡ []) ↔ (is_noisy t m c ≡ false))
evaluate_alerts_level t m c = ground (
  arith,
  evaluate_critical t m c,
  evaluate_alarm t m c,
  from_ops_alerts_empty (evaluate_alerts t m c),
)
