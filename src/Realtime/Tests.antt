-- ===== src/Realtime/Tests.antt =====
-- Examples for the realtime window.
use ranking.Prelude.{◌+◌, ◌*◌, ◌%◌, ◌≤◌, ◌<◌, ◌≡◌, refl, none, arith}
use ranking.Realtime.{resolve_realtime_ranking_window, resolve_realtime_ranking_window_lem}

half_past : (resolve_realtime_ranking_window 37_845_123 none none).window_start ≡ 36_900_000
unfolding resolve_realtime_ranking_window
half_past = refl

resolve_realtime_ranking_window_lem_example :
    let w = resolve_realtime_ranking_window 37_845_123 none none in
    (5 ≤ w.sliding_minutes)
    × (w.sliding_minutes ≤ 120)
    × (w.window_start + w.sliding_minutes * 60_000 ≡ w.window_end)
    × (w.window_end % 60_000 ≡ 0)
    × (w.window_end ≤ 37_845_123)
    × (37_845_123 < w.window_end + 60_000)
    × (w.window_end ≤ 37_859_999
        → 37_859_999 < w.window_end + 60_000
        → resolve_realtime_ranking_window 37_859_999 none none ≡ w)
resolve_realtime_ranking_window_lem_example =
    resolve_realtime_ranking_window_lem 37_845_123 37_859_999 none (omega arith)
