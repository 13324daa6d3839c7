-- ===== src/Crawl/Tests.antt =====
-- Examples for the crawler: one host with two pages that link to each other and to another host.
use ranking.Prelude.{
  ℕ, zero, suc, ◌+◌, ◌*◌, ◌^◌, ◌-◌, ◌≤◌, ◌≡◌, refl, ◌⊎◌, is_empty, Bool, true, false, Option, none,
  some, List, [], ◌∷◌, ◌++◌, map, String, if◌then◌else◌, max, length, sum_by,
}
use ranking.Prelude.Keys.{◌==◌}
use ranking.Prelude.Texts.{Text, codes, text_key, starts_with}
use ranking.Crawl.Address.{Address, Violation, crawl_url_violation}
use ranking.Crawl.Robots.Cache.{RobotsReply, Web}
use ranking.Crawl.Fetch.{
  FetchResult, crawl_fetch_max_retries, fetch_crawl_with_retry, pick_crawl_user_agent,
}
use mathlib.Core.List.{Memᴰ}
use ranking.Crawl.Fetch.Agents.{pick_crawl_user_agent-Mem}
use ranking.Crawl.Fetch.Retries.{IsFirstFinal, fetch_crawl_with_retry-IsFirstFinal}
use ranking.Crawl.Job.{Job, crawl, initial, is_done}
use ranking.Crawl.Job.Ends.{crawl-initial_done}

abbrev address : String → String → Address
address host path = record {
  protocol = codes "https:";
  hostname = codes host;
  pathname = codes path;
}

abbrev parse : Text → Option Address
parse url =
    if url == codes "https://a/"
    then some (address "a" "/")
    else if url == codes "https://a/x"
    then some (address "a" "/x")
    else if url == codes "https://b/"
    then some (address "b" "/")
    else none

abbrev web : Web
web = record {
  parse_url = parse;
  https = λ host. RobotsReply.body (codes "");
  http = λ host. RobotsReply.no_body;
}

abbrev links : List Text
links = codes "https://a/x" ∷ codes "https://b/" ∷ codes "https://a/" ∷ []

-- The first attempt fails with 503.
abbrev answer : Text → ℕ → FetchResult
answer url zero = FetchResult.failed (some 503) (codes "HTTP 503")
answer url (suc n) = FetchResult.fetched 200 links

abbrev job : Job
job = record {
  use_http = true;
  follow_links = true;
  respect_robots = false;
  max_urls = 5;
  max_depth = 2;
  allow_hosts = codes "a" ∷ [];
  agent_pool = [];
  default_agent = codes "bot";
  max_retries = none;
  retry_base_ms = none;
  web = web;
  sha256 = λ t. t;
  canonical = λ t. none;
  answer = answer;
  redirects = λ url attempt. [];
  is_semantic_dup = λ t. false;
}

abbrev seeds : List Text
seeds = codes "https://a/" ∷ []

two_pages :
    map {B = ℕ × ℕ} (λ r. (r.item.depth, r.attempts)) (crawl job 9 (initial seeds)).requested
    ≡ (1, 2) ∷ (0, 2) ∷ []
unfolding crawl ranking.Crawl.Address.is_link_host_allowed ranking.Crawl.Address.url_fingerprint
    ranking.Prelude.Texts.lower crawl_url_violation fetch_crawl_with_retry
two_pages = refl

local_network :
    crawl_url_violation (some (address "172.20.0.1" "/")) ≡ some Violation.blocked_private
unfolding crawl_url_violation ranking.Prelude.Texts.lower
local_network = refl

-- The host name of an address in brackets is not the one that is blocked.
brackets : crawl_url_violation (some (address "[::1]" "/")) ≡ none
unfolding crawl_url_violation ranking.Prelude.Texts.lower
brackets = refl

crawl-initial_done_example : is_done job (crawl job ((5 + 1) * 5 + 5) (initial seeds)) ≡ true
crawl-initial_done_example = crawl-initial_done job seeds

fetch_crawl_with_retry-IsFirstFinal_example :
    IsFirstFinal none (answer []) 2 0 (fetch_crawl_with_retry none (answer []) none)
    × ((fetch_crawl_with_retry none (answer []) none).attempts ≤ 6)
    × (sum_by (λ d. d) (fetch_crawl_with_retry none (answer []) none).delays + 800
        ≡ 800 * 2 ^ ((fetch_crawl_with_retry none (answer []) none).attempts - 1))
unfolding crawl_fetch_max_retries
fetch_crawl_with_retry-IsFirstFinal_example =
    fetch_crawl_with_retry-IsFirstFinal none (answer []) none

abbrev pool : List Text
pool = codes "bot/1" ∷ codes "bot/2" ∷ codes "bot/3" ∷ []

pick_crawl_user_agent-Mem_example :
    (a : Text) × (pick_crawl_user_agent pool (codes "bot") (codes "https://a/") ≡ some a)
    × ((is_empty pool ≡ true × a ≡ codes "bot") ⊎ (is_empty pool ≡ false × Memᴰ a pool))
pick_crawl_user_agent-Mem_example =
    pick_crawl_user_agent-Mem pool (codes "bot") (codes "https://a/")
