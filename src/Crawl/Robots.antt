-- ===== src/Crawl/Robots.antt =====
-- The rules of robots.txt: src/ingestion/crawl-robots.ts. The WHATWG parser of addresses and the replies
-- to requests are arguments.
pub mod Longest
pub mod Cache
pub mod Reading
pub mod RoundTrip
mod Tests
use ranking.Prelude.{
  ℕ, suc, ◌+◌, Bool, true, false, ◌&&◌, ◌||◌, not, Option, none, some, List, [], ◌∷◌, ◌++◌, map,
  String, ltb, leb, nat_beq, if◌then◌else◌, any, or_else, is_empty, length, is_some,
}
use ranking.Prelude.Keys.{◌==◌}
use ranking.Prelude.Dict.{Dict, get, set}
use ranking.Prelude.Texts.{Text, codes, text_key, starts_with, trim, to_lower}

pub record RobotsRules : Type 0 where
  pub disallow : List Text
  pub allow : List Text

pub record Block : Type 0 where
  pub agents : List Text
  pub rules : RobotsRules

abbrev pub no_rules : RobotsRules
no_rules = record { disallow = []; allow = [] }

-- The text up to the first `c`, and what follows it if there is one.
unfoldable pub cut : ℕ → Text → Text × Option Text
cut c [] = ([], none)
cut c (d ∷ s) =
    let (before, after) = cut c s in if nat_beq d c then ([], some s) else (d ∷ before, after)

abbrev pub cons_first : ℕ → List Text → List Text
cons_first c [] = (c ∷ []) ∷ []
cons_first c (l ∷ ls) = (c ∷ l) ∷ ls

-- `text.split(/\r?\n/)`; a carriage return stays at the end of a line, where `trim` takes it off.
unfoldable pub lines : Text → List Text
lines [] = [] ∷ []
lines (c ∷ s) = if nat_beq c 10 then [] ∷ lines s else cons_first c (lines s)

-- What a line says; `other` is skipped.
pub data Line : Type 0 where
  user_agent disallow allow : Text → Line
  other : Line

abbrev pub rule : (Text → Line) → Text → Line
rule f [] = Line.other
rule f (c ∷ s) = f (c ∷ s)

unfoldable pub directive : Text → Text → Line
directive key val =
    if key == codes "user-agent"
    then Line.user_agent val
    else if key == codes "disallow"
    then rule Line.disallow val
    else if key == codes "allow"
    then rule Line.allow val
    else Line.other

-- The colon must not stand first.
abbrev pub split_directive : Text × Option Text → Line
split_directive (key, none) = Line.other
split_directive ([], some val) = Line.other
split_directive (c ∷ key, some val) = directive (to_lower (trim (c ∷ key))) (trim val)

unfoldable pub parse_line : Text → Line
unfolding cut directive
parse_line raw = split_directive (cut b':' (trim (cut b'#' raw).0))

pub record Parser : Type 0 where
  pub blocks : List Block
  pub current_agents : List Text
  pub current : RobotsRules

unfoldable pub flush : Parser → Parser
flush s = if is_empty s.current_agents then s else record {
  blocks = s.blocks ++ (record { agents = s.current_agents; rules = s.current }) ∷ [];
  current_agents = [];
  current = no_rules;
}

abbrev pub has_rules : RobotsRules → Bool
has_rules r = not (is_empty r.disallow && is_empty r.allow)

unfoldable pub read_line : Parser → Line → Parser
unfolding flush
read_line s (Line.user_agent val) =
    let t = if not (is_empty s.current_agents) && has_rules s.current then flush s else s in
    record t { current_agents = t.current_agents ++ to_lower val ∷ [] }
read_line s (Line.disallow val) = record s {
  current = record s.current { disallow = s.current.disallow ++ val ∷ [] };
}
read_line s (Line.allow val) = record s {
  current = record s.current { allow = s.current.allow ++ val ∷ [] };
}
read_line s Line.other = s

unfoldable pub read_lines : Parser → List Line → Parser
unfolding read_line
read_lines s [] = s
read_lines s (l ∷ ls) = read_lines (read_line s l) ls

abbrev pub start : Parser
start = record { blocks = []; current_agents = []; current = no_rules }

unfoldable pub blocks_of : List Line → List Block
unfolding read_lines
blocks_of ls = (flush (read_lines start ls)).blocks

-- The first block with the agent, else the last one with `*`.
unfoldable pub pick : Text → Option RobotsRules → List Block → RobotsRules
pick ua star [] = or_else star no_rules
pick ua star (b ∷ bs) =
    if any (λ a. a == ua) b.agents
    then b.rules
    else pick ua (if any (λ a. a == codes "*") b.agents then some b.rules else star) bs

unfoldable pub parse_robots_txt : Text → Text → RobotsRules
unfolding lines parse_line blocks_of pick
parse_robots_txt text agent = pick (to_lower agent) none (blocks_of (map parse_line (lines text)))

abbrev pub is_above : Option ℕ → ℕ → Bool
is_above none n = true
is_above (some b) n = ltb b n

-- The best length so far, none for -1, after one rule.
abbrev pub next_best : Text → Option ℕ → Text → Option ℕ
next_best path best [] = best
next_best path best (c ∷ p) =
    if starts_with path (c ∷ p) && is_above best (length (c ∷ p))
    then some (length (c ∷ p))
    else best

-- The length of the longest rule that is a prefix of the path.
unfoldable pub longest : Text → Option ℕ → List Text → Option ℕ
longest path best [] = best
longest path best (p ∷ ps) = longest path (next_best path best p) ps

abbrev pub or_root : Text → Text
or_root [] = codes "/"
or_root (c ∷ s) = c ∷ s

-- `bestDisallow < 0 || bestAllow >= bestDisallow`.
abbrev pub outweighs : Option ℕ → Option ℕ → Bool
outweighs a none = true
outweighs none (some d) = false
outweighs (some a) (some d) = leb d a

unfoldable pub is_path_allowed_by_robots : Text → RobotsRules → Bool
unfolding longest
is_path_allowed_by_robots pathname rules =
    let path = or_root pathname in
    outweighs (longest path none rules.allow) (longest path none rules.disallow)
