-- ===== src/Crawl/Job/Ends.antt =====
-- The loop of `processCrawlJob` in src/ingestion/ingestion.service.ts ends.
use ranking.Prelude.{
  ℕ, zero, suc, ◌+◌, ◌-◌, ◌*◌, ◌≤◌, ◌<◌, ◌≡◌, refl, Bool, true, false, some, List, [], ◌∷◌, length,
  max, arith, Bool-cases, inl, inr, length-append, length-map, ◌⊎◌,
}
use native.Mathlib.Nat.{mul-suc}
use ranking.Prelude.Texts.{Text}
use ranking.Prelude.{is_empty}
use ranking.Crawl.Robots.Cache.{RobotsCache}
use ranking.Crawl.Fetch.{FetchResult}
use ranking.Crawl.Job.{
  request_of, Job, QueueItem, Frontier, Loop, check_robots, push_if, push_link, push_links,
  after_fetch, fingerprint, fetch, process, process_if, visit, next, is_done, crawl, initial,
  with_cache,
}

is_empty-length : (queue : List QueueItem) → length queue ≡ 0 → is_empty queue ≡ true
is_empty-length [] e = refl
is_empty-length (q ∷ queue) e = absurd (omega arith)

length-seed_items : (seeds : List Text) → length (initial seeds).frontier.queue ≡ length seeds
length-seed_items seeds = length-map _ seeds

measure-nothing : (n q : ℕ) → q ≤ n → (n + 1) * (n - 0) + q ≤ (n + 1) * n + n
measure-nothing n q h = let e : n - 0 ≡ n = omega arith in rw e (omega (arith, h))

module _ (job : Job) where
  push_if-length :
      (depth : ℕ) (link : Text) (r : RobotsCache × Bool) (f : Frontier)
      → length (push_if job depth link r f).queue ≤ length f.queue + 1
  push_if-length depth link (cache, false) f = omega arith
  push_if-length depth link (cache, true) f =
      omega (arith, length-append f.queue ((record { url = link; depth = depth + 1 }) ∷ []))

  push_link-length :
      (visited : List Text) (depth : ℕ) (link : Text) (f : Frontier)
      → length (push_link job visited depth link f).queue ≤ length f.queue + 1
  unfolding push_link
  push_link-length visited depth link f =
      ground (arith, push_if-length depth link (check_robots job link f.robots_cache) f)

  -- Links do not fill the queue above the limit.
  push_links-length :
      (visited : List Text) (depth : ℕ) (links : List Text) (f : Frontier)
      → length visited + length (push_links job visited depth links f).queue
        ≤ max job.max_urls (length visited + length f.queue)
  unfolding push_links
  push_links-length visited depth [] f = omega arith
  push_links-length visited depth (link ∷ links) f = ground (
    arith,
    push_link-length visited depth link f,
    push_links-length visited depth links (push_link job visited depth link f),
  )

  -- The visited addresses stay, and the queue is within the limit.
  abbrev IsWithin : Loop → Loop → Type 0
  IsWithin s t =
      (length t.visited ≡ length s.visited)
      × (length s.visited + length t.frontier.queue
          ≤ max job.max_urls (length s.visited + length s.frontier.queue))

  after_fetch-IsWithin :
      (item : QueueItem) (r : FetchResult) (s : Loop) → IsWithin s (after_fetch job item r s)
  unfolding after_fetch
  after_fetch-IsWithin item (FetchResult.failed status error) s = (refl, omega arith)
  after_fetch-IsWithin item (FetchResult.fetched status links) s =
      ground (arith, push_links-length s.visited item.depth links s.frontier)

  process-IsWithin : (item : QueueItem) (s : Loop) → IsWithin s (process job item s)
  unfolding process
  process-IsWithin item s = ground (
    arith,
    after_fetch-IsWithin item (fetch job item.url).last (record s {
      processed = s.processed + 1;
      last_url = some item.url;
      requested = request_of job item (fetch job item.url) ∷ s.requested;
    }),
  )

  process_if-IsWithin :
      (item : QueueItem) (r : RobotsCache × Bool) (s : Loop) → IsWithin s (process_if job item r s)
  process_if-IsWithin item (cache, false) s = (refl, omega arith)
  process_if-IsWithin item (cache, true) s = process-IsWithin item (with_cache job cache s)

  -- An address is dropped, or it is a new one.
  abbrev IsStep : Loop → Loop → Type 0
  IsStep s t =
      ((length t.visited ≡ length s.visited) × (length t.frontier.queue ≡ length s.frontier.queue))
      ⊎ ((length t.visited ≡ suc (length s.visited))
          × (length t.visited + length t.frontier.queue
              ≤ max job.max_urls (suc (length s.visited) + length s.frontier.queue)))

  visit-IsStep : (item : QueueItem) (s : Loop) → IsStep s (visit job item s)
  unfolding visit
  visit-IsStep item s = ground (
    arith,
    process_if-IsWithin item (check_robots job item.url s.frontier.robots_cache)
        (record s { visited = fingerprint job item.url ∷ s.visited }),
  )

  module _ (most : ℕ) (limit : job.max_urls ≤ most) where
    -- Addresses that were visited or wait in the queue.
    abbrev known : Loop → ℕ
    known s = length s.visited + length s.frontier.queue

    -- What is left to do: rounds for the addresses that can still be visited, and the queue.
    abbrev measure : Loop → ℕ
    measure s = (most + 1) * (most - length s.visited) + length s.frontier.queue

    visited_more :
        (v w q : ℕ)
        → v + 1 ≤ most
        → w ≡ suc v
        → q ≤ most
        → (most + 1) * (most - w) + q < (most + 1) * (most - v)
    visited_more v w q h e l =
        let one_less : most - v ≡ suc (most - w) = omega arith in
        rw one_less (omega (arith, mul-suc (most + 1) (most - w), l))

    step-measure :
        (s t : Loop)
        → suc (known s) ≤ most
        → IsStep s t
        → (known t ≤ most) × (measure t < measure s + 1)
    step-measure s t k (inl (e, f)) = (omega arith, rw (e, f) (omega arith))
    step-measure s t k (inr (e, f)) = (
      omega arith,
      omega (
        arith,
        visited_more (length s.visited) (length t.visited) (length t.frontier.queue) (omega arith) e
            (omega arith),
      ),
    )

    next-measure :
        (s : Loop)
        → known s ≤ most
        → is_done job s ≡ false
        → (known (next job s s.frontier.queue) ≤ most)
          × (measure (next job s s.frontier.queue) < measure s)
    next-measure s k d = go s.frontier.queue k (ground arith)
      where
        go :
            (queue : List QueueItem)
            → length s.visited + length queue ≤ most
            → is_empty queue ≡ false
            → (known (next job s queue) ≤ most)
              × (measure (next job s queue) < (most + 1) * (most - length s.visited) + length queue)
        go [] h e = absurd (cc)
        go (item ∷ queue) h e =
            let t = record s { frontier = record s.frontier { queue = queue } } in
            let (l, m) = step-measure t (visit job item t) (omega arith) (visit-IsStep item t) in
            (l, omega (arith, m))

    crawl_done :
        (fuel : ℕ) (s : Loop)
        → known s ≤ most
        → measure s ≤ fuel
        → is_done job (crawl job fuel s) ≡ true
    unfolding crawl
    crawl_done zero s k m = ground (arith, is_empty-length s.frontier.queue (omega arith))
    crawl_done (suc fuel) s k m = elim (Bool-cases (is_done job s)) [
      | inl e ↦ rw e e
      | inr e ↦
          let (l, n) = next-measure s k e in
          rw e (crawl_done fuel (next job s s.frontier.queue) l (omega (arith, m, n)))
    ]

  -- The loop of a job ends: after (n + 1) * n + n rounds at most, where n is the number of the seeds or
  -- the limit for addresses, whichever is larger, the queue is empty or as many addresses as the limit
  -- allows are processed. The pages and their links are arbitrary.
  pub crawl-initial_done :
      (seeds : List Text)
      → let n = max job.max_urls (length seeds) in
        is_done job (crawl job ((n + 1) * n + n) (initial seeds)) ≡ true
  crawl-initial_done seeds =
      let n = max job.max_urls (length seeds) in
      crawl_done n (omega arith) ((n + 1) * n + n) (initial seeds)
        (omega (arith, length-seed_items seeds))
        (measure-nothing n (length (initial seeds).frontier.queue)
          (omega (arith, length-seed_items seeds)))
