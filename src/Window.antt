-- ===== src/Window.antt =====
-- The enum `TimeWindow` of prisma/schema.prisma, as keys and filters compare it.
use ranking.Prelude.{ℕ, Bool, true, ◌≡◌, ◌↔◌, nat_beq, arith}
use ranking.Prelude.Keys.{Key}

pub data TimeWindow : Type 0 where
  realtime day week month year custom : TimeWindow

pub position : TimeWindow → ℕ
position realtime = 0
position day = 1
position week = 2
position month = 3
position year = 4
position custom = 5

unfoldable pub window_beq : TimeWindow → TimeWindow → Bool
unfolding position
window_beq a b = nat_beq (position a) (position b)

pub window_beq_iff : (a b : TimeWindow) → (window_beq a b ≡ true) ↔ (a ≡ b)
unfolding window_beq
window_beq_iff a b = ground arith

instance abbrev pub window_key : Key TimeWindow
window_key = record { same = window_beq; same_iff = window_beq_iff }
