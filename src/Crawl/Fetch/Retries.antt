-- ===== src/Crawl/Fetch/Retries.antt =====
-- The retry loop of src/ingestion/crawl-fetch-retry.ts ends, and what it returns.
use ranking.Prelude.{
  ℕ, ◌⊎◌, zero, suc, ◌+◌, ◌-◌, ◌*◌, ◌^◌, ◌≤◌, ◌<◌, ◌≡◌, refl, ap, true, false, Option, none, some,
  [], Bool-cases, inl, inr, arith, sum_by,
}
use native.Mathlib.Nat.{two-pow-succ}
use ranking.Crawl.Fetch.{
  FetchResult, Fetched, is_retryable, retry_delay_ms, base_ms, fetch_from, fetch_crawl_with_retry,
  crawl_fetch_max_retries,
}

double : (b n : ℕ) → b * 2 ^ (n + 1) ≡ b * 2 ^ n + b * 2 ^ n
double b n =
    let one_more : n + 1 ≡ suc n = omega arith in
    let e : 2 ^ (n + 1) ≡ 2 ^ n + 2 ^ n = rw one_more (two-pow-succ n) in rw e (grind arith)

max_retries-le : (max_retries : Option ℕ) → crawl_fetch_max_retries max_retries ≤ 5
unfolding crawl_fetch_max_retries
max_retries-le none = omega arith
max_retries-le (some n) = ground arith

module _ (base : Option ℕ) (fetch_once : ℕ → FetchResult) where
  -- From `attempt` on with `left` retries, the result `r` is the answer of the last attempt, all
  -- attempts before it could be retried, and it could not be, unless no retry was left.
  abbrev pub IsFirstFinal : ℕ → ℕ → Fetched → Type 0
  IsFirstFinal left attempt r =
      (attempt < r.attempts)
      × (r.attempts ≤ attempt + left + 1)
      × (r.last ≡ fetch_once (r.attempts - 1))
      × ((i : ℕ) → attempt ≤ i → i + 1 < r.attempts → is_retryable (fetch_once i) ≡ true)
      × (r.attempts < attempt + left + 1 → is_retryable r.last ≡ false)

  IsFirstFinal-last :
      (left attempt : ℕ)
      → is_retryable (fetch_once attempt) ≡ false ⊎ (left ≡ 0)
      → IsFirstFinal left attempt
          (record { last = fetch_once attempt; attempts = attempt + 1; delays = [] })
  IsFirstFinal-last left attempt h = (
    omega arith,
    omega arith,
    ap fetch_once (omega arith),
    (λ i k l. absurd (omega (arith, k, l))),
    λ k. final h k,
  )
    where
      final :
          is_retryable (fetch_once attempt) ≡ false ⊎ (left ≡ 0)
          → attempt + 1 < attempt + left + 1
          → is_retryable (fetch_once attempt) ≡ false
      final (inl e) k = e
      final (inr e) k = absurd (omega (arith, e, k))

  fetch_from-IsFirstFinal :
      (left attempt : ℕ) → IsFirstFinal left attempt (fetch_from base fetch_once left attempt)
  unfolding fetch_from
  fetch_from-IsFirstFinal zero attempt = IsFirstFinal-last zero attempt (inr refl)
  fetch_from-IsFirstFinal (suc left) attempt =
      elim (Bool-cases (is_retryable (fetch_once attempt))) [
        | inl e ↦
            let (h1, h2, h3, h4, h5) = fetch_from-IsFirstFinal left (attempt + 1) in
            rw e (
              omega (arith, h1),
              omega (arith, h2),
              h3,
              (λ i k l. ground (arith, e, h4 i)),
              λ k. h5 (omega (arith, k)),
            )
        | inr e ↦ rw e (IsFirstFinal-last (suc left) attempt (inl e))
      ]

  no_delay : (attempt : ℕ) → 0 + base_ms base * 2 ^ attempt ≡ base_ms base * 2 ^ (attempt + 1 - 1)
  no_delay attempt = let e : attempt + 1 - 1 ≡ attempt = omega arith in rw e (omega arith)

  -- The pauses double from attempt to attempt.
  sum-delays :
      (left attempt : ℕ)
      → sum_by (λ d. d) (fetch_from base fetch_once left attempt).delays
          + base_ms base * 2 ^ attempt
        ≡ base_ms base * 2 ^ ((fetch_from base fetch_once left attempt).attempts - 1)
  unfolding fetch_from retry_delay_ms
  sum-delays zero attempt = no_delay attempt
  sum-delays (suc left) attempt = elim (Bool-cases (is_retryable (fetch_once attempt))) [
    | inl e ↦ rw e (omega (arith, sum-delays left (attempt + 1), double (base_ms base) attempt))
    | inr e ↦ rw e (no_delay attempt)
  ]

  -- `fetchCrawlWithRetry` always returns, after at most one attempt more than the retries that are set,
  -- so at most six: the result is the answer of the last attempt, every attempt before it failed in a way
  -- that may be retried, and the last one did not, unless no retry was left. Before its attempts it
  -- pauses for base * (2 ^ (attempts - 1) - 1) milliseconds in all.
  pub fetch_crawl_with_retry-IsFirstFinal :
      (max_retries : Option ℕ)
      → let r = fetch_crawl_with_retry base fetch_once max_retries in
        IsFirstFinal (crawl_fetch_max_retries max_retries) 0 r
        × (r.attempts ≤ 6)
        × (sum_by (λ d. d) r.delays + base_ms base ≡ base_ms base * 2 ^ (r.attempts - 1))
  unfolding fetch_crawl_with_retry
  fetch_crawl_with_retry-IsFirstFinal max_retries =
      let h = fetch_from-IsFirstFinal (crawl_fetch_max_retries max_retries) 0 in
      (
        h,
        omega (arith, h.1, max_retries-le max_retries),
        ground (arith, sum-delays (crawl_fetch_max_retries max_retries) 0),
      )
