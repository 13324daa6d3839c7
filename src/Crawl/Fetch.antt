-- ===== src/Crawl/Fetch.antt =====
-- Fetching with retries: src/ingestion/crawl-fetch-retry.ts, and the check of addresses of
-- src/ingestion/http-fetch.ts. What the network answers to each attempt is an argument.
pub mod Retries
pub mod Agents
use ranking.Prelude.{
  ℕ, zero, suc, ◌+◌, ◌-◌, ◌*◌, ◌%◌, ◌^◌, Bool, true, false, ◌&&◌, ◌||◌, not, Option, none, some,
  List, [], ◌∷◌, ◌++◌, String, leb, nat_beq, if◌then◌else◌, any, length, or_else, get_elem?,
  is_some,
}
use ranking.Prelude.Keys.{◌==◌}
use ranking.Prelude.Texts.{Text, codes, text_key, starts_with, to_lower, includes}

-- `FetchCrawlResult`, with the fields that the retries and the job read.
pub data FetchResult : Type 0 where
  fetched : ℕ → List Text → FetchResult
  failed : Option ℕ → Text → FetchResult

abbrev pub retryable_http : List ℕ
retryable_http = 408 ∷ 429 ∷ 500 ∷ 502 ∷ 503 ∷ 504 ∷ []

abbrev pub is_retryable_status : Option ℕ → Bool
is_retryable_status none = false
is_retryable_status (some n) = any (nat_beq n) retryable_http

unfoldable pub is_retryable : FetchResult → Bool
is_retryable (FetchResult.fetched n links) = false
is_retryable (FetchResult.failed status error) =
    let err = to_lower error in
    is_retryable_status status
    || (includes err (codes "timeout")
        || (includes err (codes "econnreset") || includes err (codes "socket")))

-- The variable CRAWL_FETCH_MAX_RETRIES, if it is a whole number.
unfoldable pub crawl_fetch_max_retries : Option ℕ → ℕ
crawl_fetch_max_retries none = 2
crawl_fetch_max_retries (some n) = if leb n 5 then n else 2

-- The variable CRAWL_FETCH_RETRY_BASE_MS, if it is a whole number.
abbrev pub base_ms : Option ℕ → ℕ
base_ms none = 800
base_ms (some base) = if leb 100 base then base else 800

unfoldable pub retry_delay_ms : Option ℕ → ℕ → ℕ
retry_delay_ms base attempt = base_ms base * 2 ^ attempt

-- What the loop returns: the last answer, the number of attempts, and the pauses between them.
pub record Fetched : Type 0 where
  pub last : FetchResult
  pub attempts : ℕ
  pub delays : List ℕ

module _ (base : Option ℕ) (fetch_once : ℕ → FetchResult) where
  -- The loop from an attempt on, with the number of retries that are left.
  unfoldable pub fetch_from : ℕ → ℕ → Fetched
  unfolding is_retryable retry_delay_ms
  fetch_from zero attempt = record {
    last = fetch_once attempt;
    attempts = attempt + 1;
    delays = [];
  }
  fetch_from (suc left) attempt =
      let rest = fetch_from left (attempt + 1) in
      if is_retryable (fetch_once attempt)
      then record rest { delays = retry_delay_ms base attempt ∷ rest.delays }
      else record { last = fetch_once attempt; attempts = attempt + 1; delays = [] }

  unfoldable pub fetch_crawl_with_retry : Option ℕ → Fetched
  unfolding fetch_from crawl_fetch_max_retries
  fetch_crawl_with_retry max_retries = fetch_from (crawl_fetch_max_retries max_retries) 0

-- `h = (h * 31 + seed.charCodeAt(i)) >>> 0`.
unfoldable pub hash_from : ℕ → Text → ℕ
hash_from h [] = h
hash_from h (c ∷ seed) = hash_from ((h * 31 + c) % 2 ^ 32) seed

-- The pool of CRAWL_USER_AGENT_POOL, already split, and CRAWL_USER_AGENT; the seed is not empty. None
-- would be undefined.
unfoldable pub pick_crawl_user_agent : List Text → Text → Text → Option Text
unfolding hash_from
pick_crawl_user_agent [] default seed = some default
pick_crawl_user_agent (p ∷ pool) default seed =
    get_elem? (p ∷ pool) (hash_from 0 seed % length (p ∷ pool))
