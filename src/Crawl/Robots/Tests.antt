-- ===== src/Crawl/Robots/Tests.antt =====
-- Examples for robots.txt.
use ranking.Prelude.{ℕ, ◌≤◌, ◌≡◌, refl, ◌↔◌, Bool, true, false, List, [], ◌∷◌, none}
use mathlib.Core.List.{Memᴰ}
use ranking.Prelude.Texts.{Text, codes, to_lower}
use ranking.Crawl.Robots.{
  RobotsRules, Block, or_root, pick, parse_robots_txt, is_path_allowed_by_robots,
}
use ranking.Crawl.Robots.Longest.{is_match, IsOutweighed, is_path_allowed_iff}
use ranking.Crawl.Robots.Reading.{print_lines, lines_of_all}
use ranking.Crawl.Robots.RoundTrip.{parse-print}

abbrev rules : RobotsRules
rules = record { disallow = codes "/private" ∷ []; allow = codes "/private/open" ∷ [] }

abbrev blocks : List Block
blocks =
    (record { agents = codes "*" ∷ []; rules = rules })
    ∷ (record {
      agents = codes "bot" ∷ codes "other" ∷ [];
      rules = record { disallow = codes "/" ∷ []; allow = [] };
    })
    ∷ []

allowed : is_path_allowed_by_robots (codes "/private/open/1") rules ≡ true
unfolding is_path_allowed_by_robots
allowed = refl

forbidden : is_path_allowed_by_robots (codes "/private/1") rules ≡ false
unfolding is_path_allowed_by_robots
forbidden = refl

parse-print_example :
    parse_robots_txt (print_lines (lines_of_all blocks)) (codes "Bot")
    ≡ pick (to_lower (codes "Bot")) none blocks
unfolding ranking.Prelude.Texts.is_space ranking.Prelude.Texts.lower
parse-print_example = parse-print blocks (codes "Bot") refl

is_path_allowed_iff_example : (is_path_allowed_by_robots (codes "/private/1") rules ≡ true) ↔ (
    (p : Text)
    → Memᴰ p rules.disallow
    → is_match (or_root (codes "/private/1")) p ≡ true
    → IsOutweighed (or_root (codes "/private/1")) rules p)
is_path_allowed_iff_example = is_path_allowed_iff (codes "/private/1") rules
