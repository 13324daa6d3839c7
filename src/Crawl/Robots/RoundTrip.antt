-- ===== src/Crawl/Robots/RoundTrip.antt =====
-- `parseRobotsTxt` of src/ingestion/crawl-robots.ts on a file that is written from blocks: the blocks are
-- found again, one by one.
use ranking.Prelude.{
  ◌≡◌, refl, sym, ap, ◌∙◌, Bool, true, false, none, List, [], ◌∷◌, ◌++◌, map, arith, all,
}
use mathlib.Core.List.{append_assoc, append-nil}
use ranking.Prelude.Texts.{Text, text_key, to_lower, text_beq_iff}
use ranking.Prelude.{is_empty}
use ranking.Crawl.Robots.{
  Block, Line, Parser, flush, read_line, read_lines, start, blocks_of, pick, parse_robots_txt,
}
use ranking.Crawl.Robots.Reading.{
  print_lines, lines_of, lines_of_all, is_value, is_agent, is_line, is_block, lines-print,
}

-- The parser has read these blocks but the last, and the last is still open.
abbrev open_after : List Block → Block → Parser
open_after done b = record { blocks = done; current_agents = b.agents; current = b.rules }

read_lines-append :
    (s : Parser) (xs ys : List Line) → read_lines s (xs ++ ys) ≡ read_lines (read_lines s xs) ys
unfolding read_lines
read_lines-append s [] ys = refl
read_lines-append s (x ∷ xs) ys = read_lines-append (read_line s x) xs ys

abbrev at : List Block → List Text → List Text → List Text → Parser
at done agents disallow allow = record {
  blocks = done;
  current_agents = agents;
  current = record { disallow = disallow; allow = allow };
}

read_allow :
    (done : List Block) (agents ds xs bs : List Text)
    → read_lines (at done agents ds xs) (map Line.allow bs) ≡ at done agents ds (xs ++ bs)
unfolding read_lines read_line
read_allow done agents ds xs [] = ap (at done agents ds) (sym (append-nil xs))
read_allow done agents ds xs (b ∷ bs) =
    read_allow done agents ds (xs ++ b ∷ []) bs
    ∙ ap (at done agents ds) (append_assoc xs (b ∷ []) bs)

read_disallow :
    (done : List Block) (agents xs bs : List Text)
    → read_lines (at done agents xs []) (map Line.disallow bs) ≡ at done agents (xs ++ bs) []
unfolding read_lines read_line
read_disallow done agents xs [] = ap (λ x. at done agents x []) (sym (append-nil xs))
read_disallow done agents xs (b ∷ bs) =
    read_disallow done agents (xs ++ b ∷ []) bs
    ∙ ap (λ x. at done agents x []) (append_assoc xs (b ∷ []) bs)

agent-lower : (a : Text) → is_agent a ≡ true → to_lower a ≡ a
agent-lower a h = (text_beq_iff (to_lower a) a).0 (ground arith)

-- A further agent of an open block that has no rules yet, and the first agent of the next block.
read_agent :
    (done : List Block) (xs : List Text) (a : Text)
    → is_agent a ≡ true
    → read_line (at done xs [] []) (Line.user_agent a) ≡ at done (xs ++ a ∷ []) [] []
unfolding read_line
read_agent done [] a h = ap (λ x. at done (x ∷ []) [] []) (agent-lower a h)
read_agent done (x ∷ xs) a h = ap (λ y. at done ((x ∷ xs) ++ y ∷ []) [] []) (agent-lower a h)

read_agents :
    (done : List Block) (xs bs : List Text)
    → all is_agent bs ≡ true
    → read_lines (at done xs [] []) (map Line.user_agent bs) ≡ at done (xs ++ bs) [] []
unfolding read_lines
read_agents done xs [] h = ap (λ x. at done x [] []) (sym (append-nil xs))
read_agents done xs (b ∷ bs) h =
    ap (λ s. read_lines s (map Line.user_agent bs)) (read_agent done xs b (ground arith))
    ∙ read_agents done (xs ++ b ∷ []) bs (ground arith)
    ∙ ap (λ x. at done x [] []) (append_assoc xs (b ∷ []) bs)

-- The rest of a block, when its first agent is read.
read_rest :
    (done : List Block) (xs bs ds rs : List Text)
    → all is_agent bs ≡ true
    → read_lines
        (at done xs [] [])
        (map Line.user_agent bs ++ (map Line.disallow ds ++ map Line.allow rs))
      ≡ at done (xs ++ bs) ds rs
read_rest done xs bs ds rs h =
    read_lines-append (at done xs [] []) (map Line.user_agent bs)
      (map Line.disallow ds ++ map Line.allow rs)
    ∙ ap (λ s. read_lines s (map Line.disallow ds ++ map Line.allow rs)) (read_agents done xs bs h)
    ∙ read_lines-append (at done (xs ++ bs) [] []) (map Line.disallow ds) (map Line.allow rs)
    ∙ ap (λ s. read_lines s (map Line.allow rs)) (read_disallow done (xs ++ bs) [] ds)
    ∙ read_allow done (xs ++ bs) ds [] rs

open_next :
    (done : List Block) (b : Block) (a : Text)
    → is_block b ≡ true
    → is_agent a ≡ true
    → read_line (open_after done b) (Line.user_agent a) ≡ at (done ++ b ∷ []) (a ∷ []) [] []
unfolding read_line flush
open_next done b a h g = ground (arith, agent-lower a g)

abbrev rule_lines : Block → List Line
rule_lines b = map Line.disallow b.rules.disallow ++ map Line.allow b.rules.allow

-- From a state that the first agent of the block opens to the block.
read_block :
    (s : Parser) (done : List Block) (b : Block)
    → is_block b ≡ true
    → ((a : Text) → is_agent a ≡ true → read_line s (Line.user_agent a) ≡ at done (a ∷ []) [] [])
    → read_lines s (lines_of b) ≡ open_after done b
unfolding read_lines
read_block s done b h first = go b.agents (ground arith) (ground arith)
  where
    go :
        (xs : List Text)
        → is_empty xs ≡ false
        → all is_agent xs ≡ true
        → read_lines s (map Line.user_agent xs ++ rule_lines b)
          ≡ at done xs b.rules.disallow b.rules.allow
    go [] e f = absurd (cc)
    go (x ∷ xs) e f =
        ap (λ t. read_lines t (map Line.user_agent xs ++ rule_lines b)) (first x (ground arith))
        ∙ read_rest done (x ∷ []) xs b.rules.disallow b.rules.allow (ground arith)

read_others :
    (done : List Block) (b : Block) (bs : List Block)
    → is_block b ≡ true
    → all is_block bs ≡ true
    → (flush (read_lines (open_after done b) (lines_of_all bs ++ Line.other ∷ []))).blocks
      ≡ done ++ b ∷ bs
unfolding read_lines read_line flush
read_others done b [] h g = ground arith
read_others done b (n ∷ bs) h g =
    ap (λ ls. (flush (read_lines (open_after done b) ls)).blocks)
      (append_assoc (lines_of n) (lines_of_all bs) (Line.other ∷ []))
    ∙ ap (λ s. (flush s).blocks)
        (read_lines-append (open_after done b) (lines_of n) (lines_of_all bs ++ Line.other ∷ []))
    ∙ ap (λ s. (flush (read_lines s (lines_of_all bs ++ Line.other ∷ []))).blocks)
        (read_block (open_after done b) (done ++ b ∷ []) n (ground arith)
          (λ a. open_next done b a h))
    ∙ read_others (done ++ b ∷ []) n bs (ground arith) (ground arith)
    ∙ append_assoc done (b ∷ []) (n ∷ bs)

blocks_of-print :
    (bs : List Block) → all is_block bs ≡ true → blocks_of (lines_of_all bs ++ Line.other ∷ []) ≡ bs
unfolding blocks_of read_lines read_line flush
blocks_of-print [] h = refl
blocks_of-print (b ∷ bs) h =
    ap (λ ls. (flush (read_lines start ls)).blocks)
      (append_assoc (lines_of b) (lines_of_all bs) (Line.other ∷ []))
    ∙ ap (λ s. (flush s).blocks)
        (read_lines-append start (lines_of b) (lines_of_all bs ++ Line.other ∷ []))
    ∙ ap (λ s. (flush (read_lines s (lines_of_all bs ++ Line.other ∷ []))).blocks)
        (read_block start [] b (ground arith) (read_agent [] []))
    ∙ read_others [] b bs (ground arith) (ground arith)

all-is_line :
    (f : Text → Line) (xs : List Text)
    → ((x : Text) → is_value x ≡ true → is_line (f x) ≡ true)
    → all is_value xs ≡ true
    → all is_line (map f xs) ≡ true
all-is_line f [] h g = refl
all-is_line f (x ∷ xs) h g = ground (arith, h x, all-is_line f xs h)

all-is_value : (xs : List Text) → all is_agent xs ≡ true → all is_value xs ≡ true
all-is_value [] h = refl
all-is_value (x ∷ xs) h = ground (arith, all-is_value xs)

all-append :
    (p : Line → Bool) (xs ys : List Line)
    → all p xs ≡ true
    → all p ys ≡ true
    → all p (xs ++ ys) ≡ true
all-append p [] ys h g = g
all-append p (x ∷ xs) ys h g = ground (arith, all-append p xs ys)

lines_of-is_line : (b : Block) → is_block b ≡ true → all is_line (lines_of b) ≡ true
lines_of-is_line b h =
    all-append is_line (map Line.user_agent b.agents) (rule_lines b)
      (all-is_line Line.user_agent b.agents (λ x e. e) (all-is_value b.agents (ground arith)))
      (all-append is_line (map Line.disallow b.rules.disallow) (map Line.allow b.rules.allow)
        (all-is_line Line.disallow b.rules.disallow (λ x e. e) (ground arith))
        (all-is_line Line.allow b.rules.allow (λ x e. e) (ground arith)))

lines_of_all-is_line :
    (bs : List Block) → all is_block bs ≡ true → all is_line (lines_of_all bs) ≡ true
lines_of_all-is_line [] h = refl
lines_of_all-is_line (b ∷ bs) h =
    all-append is_line (lines_of b) (lines_of_all bs) (lines_of-is_line b (ground arith))
      (lines_of_all-is_line bs (ground arith))

-- A file that is written from blocks is read back as these blocks: the rules are those of the first block
-- that names the agent, else of the last one that names `*`, else none. Every block has an agent and a
-- rule, the agents are in small letters, and no value has white space or a `#`.
pub parse-print :
    (bs : List Block) (agent : Text)
    → all is_block bs ≡ true
    → parse_robots_txt (print_lines (lines_of_all bs)) agent ≡ pick (to_lower agent) none bs
unfolding parse_robots_txt
parse-print bs agent h =
    ap (λ ls. pick (to_lower agent) none (blocks_of ls))
      (lines-print (lines_of_all bs) (lines_of_all-is_line bs h))
    ∙ ap (pick (to_lower agent) none) (blocks_of-print bs h)
