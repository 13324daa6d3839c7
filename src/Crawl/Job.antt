-- ===== src/Crawl/Job.antt =====
-- The loop of `processCrawlJob` in src/ingestion/ingestion.service.ts: addresses are taken from a queue,
-- checked, fetched, and their links are put into the queue. What the loop writes is the list of the
-- addresses with the status of their row.
pub mod Ends
pub mod Bounds
use ranking.Prelude.{
  ℕ, zero, suc, ◌+◌, ◌-◌, ◌*◌, Bool, true, false, ◌&&◌, ◌||◌, not, Option, none, some, List, [],
  ◌∷◌, ◌++◌, map, ltb, leb, if◌then◌else◌, any, length, max, or_else, is_some,
}
use ranking.Prelude.Keys.{◌==◌}
use ranking.Prelude.Texts.{Text, codes, text_key, starts_with, to_lower}
use ranking.Prelude.{is_empty}
use ranking.Crawl.Robots.Cache.{RobotsCache, Web, is_crawl_url_allowed_by_robots}
use ranking.Crawl.Address.{url_fingerprint, crawl_url_violation, is_link_host_allowed}
use ranking.Crawl.Fetch.{FetchResult, Fetched, pick_crawl_user_agent, fetch_crawl_with_retry}

-- The settings of a job, and what it asks for: the digest and the canonical form of an address, the answer
-- to each attempt of a request with the addresses that it was redirected to, in their order
-- (`redirect: 'follow'`), and whether a page is found to be a copy of another.
pub record Job : Type 0 where
  pub use_http : Bool
  pub follow_links : Bool
  pub respect_robots : Bool
  pub max_urls : ℕ
  pub max_depth : ℕ
  pub allow_hosts : List Text
  pub agent_pool : List Text
  pub default_agent : Text
  pub max_retries : Option ℕ
  pub retry_base_ms : Option ℕ
  pub web : Web
  pub sha256 : Text → Text
  pub canonical : Text → Option Text
  pub answer : Text → ℕ → FetchResult
  pub redirects : Text → ℕ → List Text
  pub is_semantic_dup : Text → Bool

unfoldable pub fingerprint : Job → Text → Text
fingerprint job url = url_fingerprint job.sha256 job.canonical url

unfoldable pub user_agent : Job → Text → Text
user_agent job url = or_else (pick_crawl_user_agent job.agent_pool job.default_agent url) []

unfoldable pub is_host_allowed : Job → Text → Bool
is_host_allowed job url = is_link_host_allowed (job.web.parse_url url) job.allow_hosts

unfoldable pub is_violation : Job → Text → Bool
is_violation job url = is_some (crawl_url_violation (job.web.parse_url url))

-- The call of `fetchCrawlWithRetry`.
unfoldable pub fetch : Job → Text → Fetched
fetch job url = fetch_crawl_with_retry job.retry_base_ms (job.answer url) job.max_retries

-- The addresses that get a request in so many attempts from a given one on.
abbrev pub contacted : Job → Text → ℕ → ℕ → List Text
contacted job url attempt zero = []
contacted job url attempt (suc n) =
    url ∷ job.redirects url attempt ++ contacted job url (attempt + 1) n

pub record QueueItem : Type 0 where
  pub url : Text
  pub depth : ℕ

-- The requests for an item: the number of attempts, and the addresses they went to.
pub record FetchCall : Type 0 where
  pub item : QueueItem
  pub attempts : ℕ
  pub addresses : List Text

abbrev pub request_of : Job → QueueItem → Fetched → FetchCall
request_of job item answer = record {
  item = item;
  attempts = answer.attempts;
  addresses = contacted job item.url 0 answer.attempts;
}

-- The status of a row of `CrawledUrl`.
pub data UrlStatus : Type 0 where
  fetch_blocked robots_disallowed fetched_stub fetch_failed : UrlStatus
  fetched fetched_semantic_dup : UrlStatus

pub record Written : Type 0 where
  pub fp : Text
  pub item : QueueItem
  pub status : UrlStatus

-- The queue, the number of links put into it, and the rules of the hosts.
pub record Frontier : Type 0 where
  pub queue : List QueueItem
  pub links_enqueued : ℕ
  pub robots_cache : RobotsCache

-- The variables of the loop; `requested` has what each call of `fetchCrawlWithRetry` sent, the last first.
pub record Loop : Type 0 where
  pub frontier : Frontier
  pub visited : List Text
  pub processed : ℕ
  pub last_url : Option Text
  pub robots_blocked : ℕ
  pub depth_skipped : ℕ
  pub fetch_errors : ℕ
  pub written : List Written
  pub requested : List FetchCall

abbrev pub seen : Text → List Text → Bool
seen fp fps = any (λ f. f == fp) fps

module _ (job : Job) where
  abbrev pub is_queued : Text → List QueueItem → Bool
  is_queued fp queue = any (λ q. fingerprint job q.url == fp) queue

  abbrev pub write : QueueItem → UrlStatus → Loop → Loop
  write item status s = record s {
    written = (record { fp = fingerprint job item.url; item = item; status = status }) ∷ s.written;
  }

  abbrev pub write_failure : QueueItem → UrlStatus → Loop → Loop
  write_failure item status s = record (write item status s) { fetch_errors = s.fetch_errors + 1 }

  -- The check of the rules for robots, if they are to be respected.
  unfoldable pub check_robots : Text → RobotsCache → RobotsCache × Bool
  unfolding user_agent
  check_robots url cache =
      if job.respect_robots
      then is_crawl_url_allowed_by_robots job.web url cache (user_agent job url)
      else (cache, true)

  abbrev pub push_if : ℕ → Text → RobotsCache × Bool → Frontier → Frontier
  push_if depth link (cache, false) f = record f { robots_cache = cache }
  push_if depth link (cache, true) f = record {
    robots_cache = cache;
    queue = f.queue ++ (record { url = link; depth = depth + 1 }) ∷ [];
    links_enqueued = f.links_enqueued + 1;
  }

  -- One link of a page, while the limit is not reached.
  unfoldable pub push_link : List Text → ℕ → Text → Frontier → Frontier
  unfolding check_robots fingerprint is_host_allowed
  push_link visited depth link f =
      let lfp = fingerprint job link in
      if not (is_host_allowed job link) || (seen lfp visited || is_queued lfp f.queue)
      then f
      else push_if depth link (check_robots link f.robots_cache) f

  -- The loop over the links of a page.
  unfoldable pub push_links : List Text → ℕ → List Text → Frontier → Frontier
  unfolding push_link
  push_links visited depth [] f = f
  push_links visited depth (link ∷ links) f =
      let rest = push_links visited depth links (push_link visited depth link f) in
      if leb job.max_urls (length visited + length f.queue) then f else rest

  abbrev pub fetched_status : QueueItem → UrlStatus
  fetched_status item =
      if job.is_semantic_dup item.url then UrlStatus.fetched_semantic_dup else UrlStatus.fetched

  -- The answer to the request.
  unfoldable pub after_fetch : QueueItem → FetchResult → Loop → Loop
  unfolding push_links
  after_fetch item (FetchResult.failed status error) s = write_failure item UrlStatus.fetch_failed s
  after_fetch item (FetchResult.fetched status links) s =
      let s' = write item (fetched_status item) s in
      if job.follow_links && ltb item.depth job.max_depth
      then record s' { frontier = push_links s.visited item.depth links s.frontier }
      else s'

  -- An item that has passed the checks of the queue.
  unfoldable pub process : QueueItem → Loop → Loop
  unfolding after_fetch is_violation fetch
  process item s =
      let t = record s { processed = s.processed + 1; last_url = some item.url } in
      let answer = fetch job item.url in
      if not job.use_http
      then write item UrlStatus.fetched_stub t
      else if is_violation job item.url
      then write_failure item UrlStatus.fetch_blocked t
      else after_fetch item answer.last
          (record t { requested = request_of job item answer ∷ t.requested })

  abbrev pub with_cache : RobotsCache → Loop → Loop
  with_cache cache s = record s { frontier = record s.frontier { robots_cache = cache } }

  abbrev pub process_if : QueueItem → RobotsCache × Bool → Loop → Loop
  process_if item (cache, false) s =
      record (write item UrlStatus.robots_disallowed (with_cache cache s)) {
        robots_blocked = s.robots_blocked + 1;
      }
  process_if item (cache, true) s = process item (with_cache cache s)

  -- An item that is taken from the queue; `s` is the loop without it.
  unfoldable pub visit : QueueItem → Loop → Loop
  unfolding process check_robots fingerprint is_host_allowed
  visit item s =
      let fp = fingerprint job item.url in
      let t = record s { visited = fp ∷ s.visited } in
      if seen fp s.visited
      then s
      else if job.follow_links && ltb job.max_depth item.depth
      then record t { depth_skipped = s.depth_skipped + 1 }
      else if not (is_host_allowed job item.url)
      then write_failure item UrlStatus.fetch_blocked t
      else process_if item (check_robots item.url s.frontier.robots_cache) t

  abbrev pub next : Loop → List QueueItem → Loop
  next s [] = s
  next s (item ∷ queue) = visit item (record s { frontier = record s.frontier { queue = queue } })

  abbrev pub is_done : Loop → Bool
  is_done s = leb job.max_urls s.processed || is_empty s.frontier.queue

  -- `while (queue.length > 0 && processed < maxUrls)`.
  unfoldable pub crawl : ℕ → Loop → Loop
  unfolding visit
  crawl zero s = s
  crawl (suc fuel) s =
      let rest = crawl fuel (next s s.frontier.queue) in if is_done s then s else rest

abbrev pub initial : List Text → Loop
initial seeds = record {
  frontier = record {
    queue = map (λ url. record { url = url; depth = 0 }) seeds;
    links_enqueued = 0;
    robots_cache = [];
  };
  visited = [];
  processed = 0;
  last_url = none;
  robots_blocked = 0;
  depth_skipped = 0;
  fetch_errors = 0;
  written = [];
  requested = [];
}

-- `maxUrls` of a job with these seeds.
unfoldable pub max_urls_of : Bool → ℕ → List Text → ℕ
max_urls_of follow_links max_per_task seeds =
    if follow_links then max_per_task else max (length seeds) 1
