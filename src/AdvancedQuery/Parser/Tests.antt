-- ===== src/AdvancedQuery/Parser/Tests.antt =====
-- Runs of the parser of src/lib/advanced-query.ts.
use planeo.Prelude.{
  ℕ, ◌+◌, ◌*◌, ◌-◌, ◌≤◌, ◌&&◌, List, [], ◌∷◌, map, ◌≡◌, ◌≢◌, refl, ok, err, if◌then◌else◌, leb,
  codes, arith, is_space, same_units,
}
use planeo.AdvancedQuery.{
  max_query_cost, CaseMaps, Node, conj, disj, negation, term, status, key, text, in_list, eq, like,
  QueryError, expected_value, unfinished,
}
use planeo.AdvancedQuery.Lexer.{tokenize, scan, lex, span_word, quoted}
use planeo.AdvancedQuery.Parser.{
  read_values, take_word, expect, read_field, plain_operator, read_operator, single, read_operand,
  check_cost, read_term, expression, parse_tokens, parse_advanced_query,
}
use planeo.AdvancedQuery.Parser.Cost.{cost_of, terms}
use planeo.AdvancedQuery.Parser.Budget.{parse_advanced_query_ends, parse_advanced_query_cost}
use planeo.AdvancedQuery.Parser.Fields.{Lowered, NoRequestType, parse_advanced_query-NoRequestType}

abbrev upper_unit : ℕ → ℕ
upper_unit c = if leb b'a' c && leb c b'z' then c - 32 else c

abbrev lower_unit : ℕ → ℕ
lower_unit c = if leb b'A' c && leb c b'Z' then c + 32 else c

-- The case mappings on ASCII.
abbrev pub ascii : CaseMaps
ascii = record { upper = map upper_unit; lower = map lower_unit }

lower-Lowered : (s : List ℕ) → Lowered (ascii.lower s)
lower-Lowered [] = tt
lower-Lowered (c ∷ s) = (ground arith, lower-Lowered s)

abbrev pub query : List ℕ
query = codes "not Status IN (done, \"in progress\") AND (key = \"A-1\" or text ~ x)"

abbrev pub tree : Node
tree =
    conj (negation (term status in_list (codes "done" ∷ codes "in progress" ∷ [])))
      (disj (term key eq (codes "A-1" ∷ [])) (term text like (codes "x" ∷ [])))

pub accepted : parse_advanced_query ascii query ≡ ok (tree, 17)
unfolding parse_advanced_query parse_tokens expression take_word expect read_field plain_operator
    read_operator single read_operand check_cost read_term tokenize scan lex span_word quoted
    is_space same_units read_values
accepted = refl

abbrev cut_off : List ℕ
cut_off = codes "status ="

abbrev missing_value : QueryError
missing_value = record { fault = expected_value; offset = 8 }

rejected : parse_advanced_query ascii cut_off ≡ err missing_value
unfolding parse_advanced_query parse_tokens expression take_word expect read_field plain_operator
    read_operator single read_operand check_cost read_term tokenize scan lex span_word quoted
    is_space same_units read_values
rejected = refl

parse_advanced_query_ends_example : missing_value.fault ≢ unfinished
parse_advanced_query_ends_example = parse_advanced_query_ends ascii cut_off missing_value rejected

parse_advanced_query_cost_example :
    (17 ≡ cost_of tree) × (terms tree ≤ max_query_cost) × (17 + 3 ≤ max_query_cost + 3 * terms tree)
parse_advanced_query_cost_example = parse_advanced_query_cost ascii query tree 17 accepted

parse_advanced_query-NoRequestType_example : NoRequestType tree
parse_advanced_query-NoRequestType_example =
    parse_advanced_query-NoRequestType ascii lower-Lowered query tree 17 accepted
