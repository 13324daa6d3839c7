-- ===== src/Crawl/Robots/Cache.antt =====
-- The rules of a host, fetched once: the second half of src/ingestion/crawl-robots.ts.
use ranking.Prelude.{Bool, true, false, Option, none, some}
use ranking.Prelude.Dict.{Dict, get, set}
use ranking.Prelude.Texts.{Text, text_key, to_lower}
use ranking.Crawl.Address.{Address}
use ranking.Crawl.Robots.{RobotsRules, parse_robots_txt, is_path_allowed_by_robots}

-- The body of an answer that is ok, or anything else.
pub data RobotsReply : Type 0 where
  body : Text → RobotsReply
  no_body : RobotsReply

-- None is null: no limits.
abbrev pub RobotsCache : Type 0
RobotsCache = Dict Text (Option RobotsRules)

-- `new URL`, and the answers of a host over HTTPS and HTTP.
pub record Web : Type 0 where
  pub parse_url : Text → Option Address
  pub https : Text → RobotsReply
  pub http : Text → RobotsReply

abbrev pub rules_of : Text → RobotsReply → Option RobotsRules
rules_of agent (RobotsReply.body text) = some (parse_robots_txt text agent)
rules_of agent RobotsReply.no_body = none

-- The first scheme with an answer.
unfoldable pub fetch_rules : Web → Text → Text → Option RobotsRules
fetch_rules web key agent = elim (web.https key) [
  | RobotsReply.body text ↦ some (parse_robots_txt text agent)
  | RobotsReply.no_body ↦ rules_of agent (web.http key)
]

unfoldable pub load_robots_rules_for_host :
    Web → Text → RobotsCache → Text → RobotsCache × Option RobotsRules
unfolding fetch_rules
load_robots_rules_for_host web host cache agent =
    let key = to_lower host in
    elim (get key cache) [
      | some rules ↦ (cache, rules)
      | none ↦ (set key (fetch_rules web key agent) cache, fetch_rules web key agent)
    ]

unfoldable pub is_url_allowed_by_robots : Web → Text → RobotsRules → Bool
is_url_allowed_by_robots web url rules = elim (web.parse_url url) [
  | none ↦ false
  | some a ↦ is_path_allowed_by_robots a.pathname rules
]

abbrev pub allowed_by : Web → Text → Option RobotsRules → Bool
allowed_by web url none = true
allowed_by web url (some rules) = is_url_allowed_by_robots web url rules

unfoldable pub is_crawl_url_allowed_by_robots : Web → Text → RobotsCache → Text → RobotsCache × Bool
unfolding load_robots_rules_for_host is_url_allowed_by_robots
is_crawl_url_allowed_by_robots web url cache agent = elim (web.parse_url url) [
  | none ↦ (cache, false)
  | some a ↦
      let (cache', rules) = load_robots_rules_for_host web (to_lower a.hostname) cache agent in
      (cache', allowed_by web url rules)
]
