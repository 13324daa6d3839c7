-- ===== src/Stats/Streaks.antt =====
-- The end streak of a history that one more rank is appended to.
use ranking.Prelude.{
  ℕ, zero, suc, ◌+◌, ◌-◌, ◌<◌, ◌≡◌, refl, sym, ap, ◌∙◌, Bool, false, List, [], ◌∷◌, ◌++◌, ltb,
  if◌then◌else◌, length, length-append, arith,
}
use ranking.Stats.{rank_at, streak_loop, end_streak}

rank_at-append : (xs ys : List ℕ) (i : ℕ) → i < length xs → rank_at (xs ++ ys) i ≡ rank_at xs i
rank_at-append [] ys i h = elim h [ ]
rank_at-append (x ∷ xs) ys zero h = refl
rank_at-append (x ∷ xs) ys (suc i) h = rank_at-append xs ys i (omega arith)

rank_at_last : (xs : List ℕ) (x : ℕ) → rank_at (xs ++ x ∷ []) (length xs) ≡ x
rank_at_last [] x = refl
rank_at_last (y ∷ xs) x = rank_at_last xs x

module _ (better : ℕ → ℕ → Bool) where
  streak_loop-acc : (h : List ℕ) (i s : ℕ) → streak_loop better h i s ≡ s + streak_loop better h i 0
  unfolding streak_loop
  streak_loop-acc h zero s = omega arith
  streak_loop-acc h (suc i) s =
      ground (arith, streak_loop-acc h i (s + 1), streak_loop-acc h i (0 + 1))

  streak_loop-append :
      (xs ys : List ℕ) (i s : ℕ)
      → i < length xs
      → streak_loop better (xs ++ ys) i s ≡ streak_loop better xs i s
  unfolding streak_loop
  streak_loop-append xs ys zero s h = refl
  streak_loop-append xs ys (suc i) s h = rw (
    streak_loop-append xs ys i (s + 1) (omega arith),
    rank_at-append xs ys (suc i) h,
    rank_at-append xs ys i (omega arith),
  )

  -- `history` ends in `last`, and `new` is appended.
  streak_loop-snoc :
      (history : List ℕ) (last new : ℕ)
      → streak_loop better ((history ++ last ∷ []) ++ new ∷ []) (suc (length history)) 0 ≡ (
          if better new last
          then streak_loop better (history ++ last ∷ []) (length history) 0 + 1
          else 0)
  unfolding streak_loop
  streak_loop-snoc history last new =
      let xs = history ++ last ∷ [] in
      let len : length xs ≡ suc (length history) =
        length-append history (last ∷ []) ∙ omega arith in
      let newest : rank_at (xs ++ new ∷ []) (suc (length history)) ≡ new =
        ap (rank_at (xs ++ new ∷ [])) (sym len) ∙ rank_at_last xs new in
      let newer : rank_at (xs ++ new ∷ []) (length history) ≡ last =
        rank_at-append xs (new ∷ []) (length history) (omega (arith, len))
        ∙ rank_at_last history last in
      let rest : streak_loop better (xs ++ new ∷ []) (length history) (0 + 1)
          ≡ streak_loop better xs (length history) 0 + 1 =
        streak_loop-append xs (new ∷ []) (length history) (0 + 1) (omega (arith, len))
        ∙ (streak_loop-acc xs (length history) (0 + 1) ∙ omega arith) in
      rw (newest, newer, rest)

  end_streak_last :
      (history : List ℕ) (last : ℕ)
      → end_streak better (history ++ last ∷ [])
        ≡ streak_loop better (history ++ last ∷ []) (length history) 0
  unfolding end_streak
  end_streak_last [] last = refl
  end_streak_last (r ∷ rs) last =
      let n : ℕ = length ((r ∷ rs) ++ last ∷ []) in
      let len : n ≡ suc (suc (length rs)) = length-append (r ∷ rs) (last ∷ []) ∙ omega arith in
      let long : ltb n 2 ≡ false = ground (arith, len) in
      let top : n - 1 ≡ suc (length rs) = omega (arith, len) in rw (long, top)

  -- A new rank continues the streak of a history that is not empty, or ends it.
  pub end_streak-snoc :
      (history : List ℕ) (last new : ℕ)
      → end_streak better ((history ++ last ∷ []) ++ new ∷ [])
        ≡ (if better new last then end_streak better (history ++ last ∷ []) + 1 else 0)
  end_streak-snoc history last new =
      end_streak_last (history ++ last ∷ []) new
      ∙ (ap (λ i. streak_loop better ((history ++ last ∷ []) ++ new ∷ []) i 0)
            (length-append history (last ∷ []) ∙ omega arith)
          ∙ (streak_loop-snoc history last new
              ∙ ap (λ n. if better new last then n + 1 else 0)
                  (sym (end_streak_last history last))))
