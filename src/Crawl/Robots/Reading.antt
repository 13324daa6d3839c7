-- ===== src/Crawl/Robots/Reading.antt =====
-- `parseRobotsTxt` of src/ingestion/crawl-robots.ts reads back a file that is written from blocks.
use ranking.Prelude.{
  ℕ, ◌≡◌, refl, ◌∙◌, Bool, true, ◌&&◌, not, none, List, [], ◌∷◌, ◌++◌, map, arith, all, nat_beq,
}
use ranking.Prelude.Texts.{
  Text, codes, text_key, trim, trim_start, trim_end, is_space, to_lower, lower, text_beq,
}
use ranking.Prelude.Solid.{is_solid, trim-solid, trim_end-solid}
use ranking.Prelude.{is_empty}
use ranking.Crawl.Robots.{
  Block, Line, Parser, cut, lines, directive, split_directive, parse_line, has_rules, read_line,
  read_lines,
}

abbrev pub print_line : Line → Text
print_line (Line.user_agent v) = codes "User-agent: " ++ v
print_line (Line.disallow v) = codes "Disallow: " ++ v
print_line (Line.allow v) = codes "Allow: " ++ v
print_line Line.other = []

abbrev pub print_lines : List Line → Text
print_lines [] = []
print_lines (l ∷ ls) = print_line l ++ 10 ∷ print_lines ls

abbrev pub lines_of : Block → List Line
lines_of b =
    map Line.user_agent b.agents
    ++ (map Line.disallow b.rules.disallow ++ map Line.allow b.rules.allow)

abbrev pub lines_of_all : List Block → List Line
lines_of_all [] = []
lines_of_all (b ∷ bs) = lines_of b ++ lines_of_all bs

-- A value that a line can hold: not empty, no white space and no `#`.
abbrev pub is_value : Text → Bool
is_value v = not (is_empty v) && (is_solid v && all (λ c. not (nat_beq c b'#')) v)

-- An agent is written in small letters.
abbrev pub is_agent : Text → Bool
is_agent v = is_value v && text_beq (to_lower v) v

abbrev pub is_line : Line → Bool
is_line (Line.user_agent v) = is_value v
is_line (Line.disallow v) = is_value v
is_line (Line.allow v) = is_value v
is_line Line.other = true

-- A block has an agent and a rule.
abbrev pub is_block : Block → Bool
is_block b =
    (not (is_empty b.agents) && has_rules b.rules)
    && (all is_agent b.agents && (all is_value b.rules.disallow && all is_value b.rules.allow))

cut-absent : (c : ℕ) (s : Text) → all (λ d. not (nat_beq d c)) s ≡ true → cut c s ≡ (s, none)
unfolding cut
cut-absent c [] h = refl
cut-absent c (d ∷ s) h = ground (arith, cut-absent c s)

lines-line :
    (l rest : Text)
    → all (λ d. not (nat_beq d 10)) l ≡ true
    → lines (l ++ 10 ∷ rest) ≡ l ∷ lines rest
unfolding lines
lines-line [] rest h = refl
lines-line (c ∷ l) rest h = ground (arith, lines-line l rest)

read_lines-append :
    (s : Parser) (xs ys : List Line) → read_lines s (xs ++ ys) ≡ read_lines (read_lines s xs) ys
unfolding read_lines
read_lines-append s [] ys = refl
read_lines-append s (x ∷ xs) ys = read_lines-append (read_line s x) xs ys

parse_line-clean :
    (t : Text) → cut b'#' t ≡ (t, none) → trim t ≡ t → parse_line t ≡ split_directive (cut b':' t)
unfolding parse_line
parse_line-clean t e f = rw (e, f) refl

value-solid : (c : ℕ) (v : Text) → is_value (c ∷ v) ≡ true → is_solid (c ∷ v) ≡ true
value-solid c v h = ground arith

value-absent :
    (c : ℕ) (v : Text) → is_value (c ∷ v) ≡ true → all (λ d. not (nat_beq d b'#')) (c ∷ v) ≡ true
value-absent c v h = ground arith

trim-space : (c : ℕ) (v : Text) → is_value (c ∷ v) ≡ true → trim (32 ∷ c ∷ v) ≡ c ∷ v
unfolding trim_start is_space
trim-space c v h = trim-solid (c ∷ v) (value-solid c v h)

-- A literal with its colon and a space stands in front of a value.
module _ (c : ℕ) (v : Text) (h : is_value (c ∷ v) ≡ true) where
  parse_line-disallow : parse_line (print_line (Line.disallow (c ∷ v))) ≡ Line.disallow (c ∷ v)
  unfolding cut trim_start trim_end is_space directive lower
  parse_line-disallow =
      parse_line-clean (codes "Disallow: " ++ c ∷ v)
        (cut-absent b'#' (codes "Disallow: " ++ c ∷ v) (value-absent c v h))
        (rw (trim_end-solid (c ∷ v) (value-solid c v h)) refl)
      ∙ rw (trim-space c v h) refl

  parse_line-allow : parse_line (print_line (Line.allow (c ∷ v))) ≡ Line.allow (c ∷ v)
  unfolding cut trim_start trim_end is_space directive lower
  parse_line-allow =
      parse_line-clean (codes "Allow: " ++ c ∷ v)
        (cut-absent b'#' (codes "Allow: " ++ c ∷ v) (value-absent c v h))
        (rw (trim_end-solid (c ∷ v) (value-solid c v h)) refl)
      ∙ rw (trim-space c v h) refl

  parse_line-user_agent :
      parse_line (print_line (Line.user_agent (c ∷ v))) ≡ Line.user_agent (c ∷ v)
  unfolding cut trim_start trim_end is_space directive lower
  parse_line-user_agent =
      parse_line-clean (codes "User-agent: " ++ c ∷ v)
        (cut-absent b'#' (codes "User-agent: " ++ c ∷ v) (value-absent c v h))
        (rw (trim_end-solid (c ∷ v) (value-solid c v h)) refl)
      ∙ rw (trim-space c v h) refl

parse_line-print : (l : Line) → is_line l ≡ true → parse_line (print_line l) ≡ l
unfolding parse_line cut trim_start trim_end
parse_line-print (Line.user_agent []) h = absurd (cc)
parse_line-print (Line.user_agent (c ∷ v)) h = parse_line-user_agent c v h
parse_line-print (Line.disallow []) h = absurd (cc)
parse_line-print (Line.disallow (c ∷ v)) h = parse_line-disallow c v h
parse_line-print (Line.allow []) h = absurd (cc)
parse_line-print (Line.allow (c ∷ v)) h = parse_line-allow c v h
parse_line-print Line.other h = refl

solid-one_line : (v : Text) → is_solid v ≡ true → all (λ d. not (nat_beq d 10)) v ≡ true
unfolding is_space
solid-one_line [] h = refl
solid-one_line (c ∷ v) h = ground (arith, solid-one_line v)

print_line-one_line :
    (l : Line) → is_line l ≡ true → all (λ d. not (nat_beq d 10)) (print_line l) ≡ true
print_line-one_line (Line.user_agent v) h = solid-one_line v (ground arith)
print_line-one_line (Line.disallow v) h = solid-one_line v (ground arith)
print_line-one_line (Line.allow v) h = solid-one_line v (ground arith)
print_line-one_line Line.other h = refl

-- Every line is read back, and the end of the file is one line more, which is empty.
pub lines-print :
    (ls : List Line)
    → all is_line ls ≡ true
    → map parse_line (lines (print_lines ls)) ≡ ls ++ Line.other ∷ []
unfolding lines parse_line cut trim_start trim_end
lines-print [] h = refl
lines-print (l ∷ ls) h =
    rw
      (
        lines-line (print_line l) (print_lines ls) (print_line-one_line l (ground arith)),
        parse_line-print l (ground arith),
        lines-print ls (ground arith),
      )
      refl
