-- ===== src/Realtime.antt =====
-- The sliding window of realtime rankings: src/domain/realtime-ranking-window.ts. Times are milliseconds
-- since 1970; the variable REALTIME_SLIDING_MINUTES is given by its whole part, none for no finite number.
mod Tests
use ranking.Prelude.{
  ℕ, ◌+◌, ◌-◌, ◌*◌, ◌%◌, ◌≤◌, ◌<◌, ◌≡◌, refl, ap, Option, none, some, arith, min, max,
}
use ranking.Window.{TimeWindow}

unfoldable pub read_sliding_minutes : Option ℕ → ℕ
read_sliding_minutes none = 15
read_sliding_minutes (some raw) = min 120 (max 5 raw)

pub record RankingWindow : Type 0 where
  pub time_window : TimeWindow
  pub window_start : ℕ
  pub window_end : ℕ
  pub as_of : ℕ
  pub sliding_minutes : ℕ

-- `opts.slidingMinutes ?? readSlidingMinutes()`.
abbrev pub minutes_of : Option ℕ → Option ℕ → ℕ
minutes_of none variable = read_sliding_minutes variable
minutes_of (some minutes) variable = minutes

-- `setUTCSeconds(0, 0)`.
abbrev pub minute_of : ℕ → ℕ
minute_of now = now - now % 60_000

unfoldable pub resolve_realtime_ranking_window : ℕ → Option ℕ → Option ℕ → RankingWindow
unfolding read_sliding_minutes
resolve_realtime_ranking_window now minutes variable = record {
  time_window = TimeWindow.realtime;
  window_start = minute_of now - minutes_of minutes variable * 60_000;
  window_end = minute_of now;
  as_of = minute_of now;
  sliding_minutes = minutes_of minutes variable;
}

minutes-bounds :
    (variable : Option ℕ)
    → (5 ≤ read_sliding_minutes variable) × (read_sliding_minutes variable ≤ 120)
unfolding read_sliding_minutes
minutes-bounds none = (omega arith, omega arith)
minutes-bounds (some raw) = (omega arith, omega arith)

same_minute :
    (now later : ℕ)
    → minute_of now ≤ later
    → later < minute_of now + 60_000
    → minute_of later ≡ minute_of now
same_minute now later h l = omega arith

-- Without an option, the window is 5 to 120 whole minutes long and ends at the start of the current
-- minute, which is less than a minute ago; and two calls in the same minute give the same window. The
-- time is two hours after 1970 or later.
pub resolve_realtime_ranking_window_lem :
    (now later : ℕ) (variable : Option ℕ)
    → 7_200_000 ≤ now
    → let w = resolve_realtime_ranking_window now none variable in
      (5 ≤ w.sliding_minutes)
      × (w.sliding_minutes ≤ 120)
      × (w.window_start + w.sliding_minutes * 60_000 ≡ w.window_end)
      × (w.window_end % 60_000 ≡ 0)
      × (w.window_end ≤ now)
      × (now < w.window_end + 60_000)
      × (w.window_end ≤ later
          → later < w.window_end + 60_000
          → resolve_realtime_ranking_window later none variable ≡ w)
unfolding resolve_realtime_ranking_window
resolve_realtime_ranking_window_lem now later variable h =
    let (least, most) = minutes-bounds variable in
    (least, most, omega (arith, h, most), omega arith, omega arith, omega arith, again)
  where
    again :
        minute_of now ≤ later
        → later < minute_of now + 60_000
        → resolve_realtime_ranking_window later none variable
          ≡ resolve_realtime_ranking_window now none variable
    again k l =
        let e = same_minute now later k l in
        ap
          (λ (m : ℕ). (record {
            time_window = TimeWindow.realtime;
            window_start = m - read_sliding_minutes variable * 60_000;
            window_end = m;
            as_of = m;
            sliding_minutes = read_sliding_minutes variable;
          }))
          e
