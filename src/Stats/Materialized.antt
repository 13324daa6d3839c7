-- ===== src/Stats/Materialized.antt =====
-- The materialised statistics of an entity agree with those computed from its history.
use mathlib.Core.Option
use mathlib.Core.List.{append-nil, append_assoc}
use ranking.Prelude.{
  ℕ, ◌+◌, ◌≡◌, refl, sym, ap, ◌∙◌, Bool, true, List, [], ◌∷◌, ◌++◌, if◌then◌else◌, foldl, min, max,
  map, Option, none, some,
}
use ranking.Stats.{
  TopicStats, next_entity_topic_stats, improves, declines, end_streak, next_streak, least, greatest,
  ranking_history_summary, HistorySummary, SummaryScope,
}
use ranking.Stats.Streaks.{end_streak-snoc}

-- The statistics after a history of (rank, time) points, oldest first.
abbrev pub after_point : Option TopicStats → ℕ × ℕ → Option TopicStats
after_point prev (rank, as_of) = some (next_entity_topic_stats prev rank as_of)

unfoldable pub stats_after : List (ℕ × ℕ) → Option TopicStats
stats_after history = foldl after_point none history

record Agrees (r : ℕ) (rs : List ℕ) (st : TopicStats) : Type 0 where
  init : List ℕ
  last : ℕ
  split : r ∷ rs ≡ init ++ last ∷ []
  best : st.best_rank ≡ least r rs
  worst : st.worst_rank ≡ greatest r rs
  up : st.current_streak_up ≡ end_streak improves (r ∷ rs)
  down : st.current_streak_down ≡ end_streak declines (r ∷ rs)
  latest : st.last_rank ≡ some last

foldl-snoc :
    (f : ℕ → ℕ → ℕ) (r : ℕ) (rs : List ℕ) (x : ℕ) → foldl f r (rs ++ x ∷ []) ≡ f (foldl f r rs) x
foldl-snoc f r [] x = refl
foldl-snoc f r (y ∷ rs) x = foldl-snoc f (f r y) rs x

streak-Agrees :
    (better : ℕ → ℕ → Bool) (r : ℕ) (rs : List ℕ) (st : TopicStats) (x : ℕ)
    → Agrees r rs st
    → (streak : ℕ) → streak ≡ end_streak better (r ∷ rs)
    → next_streak better st.last_rank streak x ≡ end_streak better (r ∷ rs ++ x ∷ [])
streak-Agrees better r rs st x a streak e =
    ap (λ l. next_streak better l streak x) a.latest
    ∙ (ap (λ n. if better x a.last then n + 1 else 0) (e ∙ ap (end_streak better) a.split)
        ∙ (sym (end_streak-snoc better a.init a.last x)
            ∙ ap (λ l. end_streak better (l ++ x ∷ [])) (sym a.split)))

next-Agrees :
    (r : ℕ) (rs : List ℕ) (st : TopicStats) (x t : ℕ)
    → Agrees r rs st
    → Agrees r (rs ++ x ∷ []) (next_entity_topic_stats (some st) x t)
unfolding next_entity_topic_stats
next-Agrees r rs st x t a = record {
  init = r ∷ rs;
  last = x;
  split = refl;
  best = ap (λ b. min b x) a.best ∙ sym (foldl-snoc min r rs x);
  worst = ap (λ b. max b x) a.worst ∙ sym (foldl-snoc max r rs x);
  up = streak-Agrees improves r rs st x a st.current_streak_up a.up;
  down = streak-Agrees declines r rs st x a st.current_streak_down a.down;
  latest = refl;
}

foldl-Agrees :
    (r : ℕ) (rs : List ℕ) (st : TopicStats) (points : List (ℕ × ℕ))
    → Agrees r rs st
    → (st' : TopicStats) × (foldl after_point (some st) points ≡ some st')
      × Agrees r (rs ++ map (λ p. p.0) points) st'
foldl-Agrees r rs st [] a = (st, refl, rw append-nil a)
foldl-Agrees r rs st ((x, t) ∷ points) a =
    let (st', e, a') =
      foldl-Agrees r (rs ++ x ∷ []) (next_entity_topic_stats (some st) x t) points
        (next-Agrees r rs st x t a) in
    (st', e, rw (← append_assoc rs (x ∷ []) (map (λ p. p.0) points)) a')

first-Agrees : (r t : ℕ) → Agrees r [] (next_entity_topic_stats none r t)
unfolding next_entity_topic_stats end_streak
first-Agrees r t = record {
  init = [];
  last = r;
  split = refl;
  best = refl;
  worst = refl;
  up = refl;
  down = refl;
  latest = refl;
}

abbrev pub as_materialized : HistorySummary → HistorySummary
as_materialized s = record s {
  materialized = true;
  summary_scope = SummaryScope.materialized_history;
}

-- For every history, the summary read off the statistics that are updated point by point has the
-- best and worst rank, both end streaks and the point count of the summary computed from all the
-- points; they differ in `materialized` and in the scope of the summary alone.
pub ranking_history_summary_agrees :
    (history : List (ℕ × ℕ))
    → ranking_history_summary (map (λ p. p.0) history) (stats_after history)
      ≡ Option.map as_materialized (ranking_history_summary (map (λ p. p.0) history) none)
unfolding ranking_history_summary stats_after
ranking_history_summary_agrees [] = refl
ranking_history_summary_agrees ((r, t) ∷ history) =
    let (st, e, a) =
      foldl-Agrees r [] (next_entity_topic_stats none r t) history (first-Agrees r t) in
    rw e (cc (a.best, a.worst, a.up, a.down))
