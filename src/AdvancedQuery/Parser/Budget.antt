-- ===== src/AdvancedQuery/Parser/Budget.antt =====
-- parseAdvancedQuery of src/lib/advanced-query.ts: it always answers, and what a query it accepts
-- can cost.
use planeo.Prelude.{
  ℕ, ◌+◌, ◌*◌, ◌≤◌, ◌≡◌, ◌≢◌, List, [], ◌∷◌, length, Result, ok, err, if_both, arith, ltb,
}
use planeo.AdvancedQuery.{
  max_query_cost, max_query_length, Node, Token, QueryError, unfinished, CaseMaps,
}
use planeo.AdvancedQuery.Lexer.{tokenize, tokenize_ends, RanOut}
use planeo.AdvancedQuery.Parser.{expression, depth, parse_tokens, parse_advanced_query, whole_query}
use planeo.AdvancedQuery.Parser.Cost.{Priced, terms, cost_of}
use planeo.AdvancedQuery.Parser.Cost.Descent.{Ensures, Ensures-bind, Tree, expression-Tree}

-- A tree and the cost counted for it.
abbrev pub Accepted : CaseMaps → Node × ℕ → Type 0
Accepted maps (ast, cost) = Priced maps.lower 0 ast cost

whole_query-Accepted :
    (maps : CaseMaps) (end : ℕ) (node : Node) (rest : List Token) (cost : ℕ)
    → Priced maps.lower 0 node cost
    → Ensures (Accepted maps) (whole_query maps end node rest cost)
whole_query-Accepted maps end node [] cost p = p
whole_query-Accepted maps end node (t ∷ rest) cost p = λ e. cc

parse_tokens-Accepted :
    (maps : CaseMaps) (end : ℕ) (tokens : List Token)
    → Ensures (Accepted maps) (parse_tokens maps end tokens)
unfolding parse_tokens
parse_tokens-Accepted maps end [] = λ e. cc
parse_tokens-Accepted maps end (t ∷ tokens) =
    Ensures-bind (Tree maps (length (t ∷ tokens)) 0) (Accepted maps)
      (expression maps end (depth maps end (t ∷ tokens)) (t ∷ tokens) 0) _
      (expression-Tree maps end (depth maps end (t ∷ tokens)) (t ∷ tokens) 0 (omega arith))
      (λ (ast, rest, cost) (_, p). whole_query-Accepted maps end ast rest cost p)

tokenize-Ensures :
    (tokens : Result QueryError (List Token)) → ¬ RanOut tokens → Ensures (λ _. Unit) tokens
tokenize-Ensures (ok ts) h = tt
tokenize-Ensures (err e) h = h

pub parse_advanced_query-Accepted :
    (maps : CaseMaps) (source : List ℕ) → Ensures (Accepted maps) (parse_advanced_query maps source)
unfolding parse_advanced_query
parse_advanced_query-Accepted maps source =
    if_both (Ensures (Accepted maps)) (ltb max_query_length (length source)) (λ e. cc)
      (Ensures-bind (λ _. Unit) (Accepted maps) (tokenize source) _
        (tokenize-Ensures (tokenize source) (tokenize_ends source))
        (λ tokens _. parse_tokens-Accepted maps (length source) tokens))

-- Every text is parsed to an end: no call of the parser, its loops included, descends further than
-- the depth that the number of tokens gives, and the error of a rejected text is one of the
-- language's.
pub parse_advanced_query_ends :
    (maps : CaseMaps) (source : List ℕ) (e : QueryError)
    → parse_advanced_query maps source ≡ err e
    → e.fault ≢ unfinished
parse_advanced_query_ends maps source e rejected =
    rw rejected at (parse_advanced_query-Accepted maps source)

-- The cost of an accepted query is that of its tree, the tree has at most MAX_QUERY_COST terms, and
-- the cost is at most MAX_QUERY_COST and three for each term but the first: the limit is tested
-- where a term is read, and what an AND or an OR adds after its last term is not held to it.
pub parse_advanced_query_cost :
    (maps : CaseMaps) (source : List ℕ) (ast : Node) (cost : ℕ)
    → parse_advanced_query maps source ≡ ok (ast, cost)
    → (cost ≡ cost_of ast)
      × (terms ast ≤ max_query_cost)
      × (cost + 3 ≤ max_query_cost + 3 * terms ast)
parse_advanced_query_cost maps source ast cost accepted =
    let p = rw accepted at (parse_advanced_query-Accepted maps source) in
    (omega (arith, p.exact), omega (arith, p.limited), p.over)
