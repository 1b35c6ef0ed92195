-- ===== src/AdvancedQuery/Parser.antt =====
-- parseAdvancedQuery of src/lib/advanced-query.ts: recursive descent over the tokens. A state is
-- the tokens that are left and the cost so far; the fuel bounds the depth of the calls.
pub mod Cost
pub mod Budget
pub mod Fields
pub mod Tests
use planeo.Prelude.{
  ℕ, zero, suc, ◌+◌, ◌*◌, Bool, true, false, not, ◌&&◌, ◌||◌, Option, none, some, List, [], ◌∷◌,
  ◌≡◌, length, Result, ok, err, ◌>>=◌, if◌then◌else◌, ◌==◌, ltb, maybe, find, any, codes,
  same_units, String,
}
use planeo.AdvancedQuery.{
  max_query_length, max_query_cost, Field, field_name, query_fields, Operator, eq, ne, gt, gte, lt,
  lte, like, in_list, not_in_list, Node, conj, disj, negation, term, Token, Fault, QueryError,
  too_long, empty, unexpected, expected_value, expected_field, expected_operator,
  expected_comparison, expected_list_value, expected, too_costly, unfinished, CaseMaps, text,
  description,
}
use planeo.AdvancedQuery.Lexer.{tokenize}

abbrev pub fail : {A : Type 0} → Fault → ℕ → Result QueryError A
fail fault offset = err (record { fault = fault; offset = offset })

-- `token?.offset ?? fallback`
abbrev pub offset_or : List Token → ℕ → ℕ
offset_or [] fallback = fallback
offset_or (t ∷ _) fallback = t.offset

-- The operators, by the text that the code compares with.
abbrev operator_name : Operator → List ℕ
operator_name eq = codes "="
operator_name ne = codes "!="
operator_name gt = codes ">"
operator_name gte = codes ">="
operator_name lt = codes "<"
operator_name lte = codes "<="
operator_name like = codes "~"
operator_name in_list = codes "IN"
operator_name not_in_list = codes "NOT IN"

abbrev operators : List Operator
operators = eq ∷ ne ∷ gt ∷ gte ∷ lt ∷ lte ∷ like ∷ in_list ∷ not_in_list ∷ []

-- `operator.endsWith("IN")`, at an operator of the list.
abbrev pub takes_list : Operator → Bool
takes_list in_list = true
takes_list not_in_list = true
takes_list _ = false

abbrev is_text_field : Field → Bool
is_text_field text = true
is_text_field description = true
is_text_field _ = false

abbrev is_like : Operator → Bool
is_like like = true
is_like _ = false

-- The cost of a term besides its list.
abbrev pub term_weight : Field → Operator → ℕ
term_weight f o = if is_text_field f || is_like o then 5 else 1

abbrev list_weight : Operator → List (List ℕ) → ℕ
list_weight o values = if takes_list o then length values * 2 else 0

-- One of a few one-character texts.
abbrev is_one_of : List ℕ → List ℕ → Bool
is_one_of cs value = any (λ c. same_units value (c ∷ [])) cs

-- The list of values after `IN (`: up to the first that no comma follows.
read_values : (List ℕ → List ℕ) → ℕ → List Token → Result QueryError (List (List ℕ) × List Token)
read_values upper end [] = fail expected_list_value end
read_values upper end (v ∷ []) =
    if is_one_of (codes "),") v.value
    then fail expected_list_value v.offset
    else ok (v.value ∷ [], [])
read_values upper end (v ∷ c ∷ rest) =
    let more = read_values upper end rest >>= λ (vs, r). ok (v.value ∷ vs, r) in
    if is_one_of (codes "),") v.value
    then fail expected_list_value v.offset
    else if same_units (upper c.value) (codes ",")
    then more
    else ok (v.value ∷ [], c ∷ rest)

module _ (maps : CaseMaps) (end : ℕ) where
  -- `peek(word)`, and what is left after the token if it is that word.
  take_word : List ℕ → List Token → Option (List Token)
  take_word word [] = none
  take_word word (t ∷ rest) = if same_units (maps.upper t.value) word then some rest else none

  expect : List ℕ → List Token → Result QueryError (List Token)
  unfolding take_word
  expect word tokens =
      maybe (take_word word tokens) (fail (expected word) (offset_or tokens end)) (λ rest. ok rest)

  pub read_field : List ℕ → Option Field
  read_field value = find (λ f. same_units (field_name f) (maps.lower value)) query_fields

  -- An operator that is a token of its own.
  plain_operator : Token → List Token → Result QueryError (Operator × List Token)
  plain_operator t rest =
      maybe (find (λ o. same_units (operator_name o) (maps.upper t.value)) operators)
        (fail expected_comparison t.offset) (λ o. ok (o, rest))

  -- The operator of a token, and what is left: `NOT` takes a following `IN` with it.
  read_operator : Token → List Token → Result QueryError (Operator × List Token)
  unfolding take_word plain_operator
  read_operator t rest =
      if same_units (maps.upper t.value) (codes "NOT")
      then maybe (take_word (codes "IN") rest) (plain_operator t rest)
          (λ after. ok (not_in_list, after))
      else plain_operator t rest

  -- The one value of a comparison.
  single : List Token → Result QueryError (List (List ℕ) × List Token)
  single [] = fail expected_value end
  single (v ∷ rest) =
      if is_one_of (codes "(),") v.value
      then fail expected_value v.offset
      else ok (v.value ∷ [], rest)

  read_operand : Operator → List Token → Result QueryError (List (List ℕ) × List Token)
  unfolding expect read_values single
  read_operand o tokens =
      if takes_list o
      then (expect (codes "(") tokens >>= λ opened.
          read_values maps.upper end opened >>= λ (values, rest).
          expect (codes ")") rest >>= λ closed. ok (values, closed))
      else single tokens

  -- The cost of the term so far, held to the limit.
  check_cost :
      ℕ
      → Field
      → Operator
      → List (List ℕ)
      → List Token
      → ℕ
      → Result QueryError (Node × List Token × ℕ)
  check_cost offset f o values rest cost =
      let total = cost + list_weight o values + term_weight f o in
      if ltb max_query_cost total then fail too_costly offset else ok (term f o values, rest, total)

  read_term : List Token → ℕ → Result QueryError (Node × List Token × ℕ)
  unfolding read_field read_operator read_operand check_cost
  read_term [] cost = fail expected_field end
  read_term (t ∷ []) cost =
      maybe (read_field t.value) (fail expected_field t.offset) (λ f. fail expected_operator end)
  read_term (t ∷ u ∷ rest) cost = maybe (read_field t.value) (fail expected_field t.offset) (λ f.
      read_operator u rest >>= λ (o, after).
      read_operand o after >>= λ (values, left). check_cost t.offset f o values left cost)

  mutual
    pub expression : ℕ → List Token → ℕ → Result QueryError (Node × List Token × ℕ)
    expression zero tokens cost = fail unfinished 0
    expression (suc fuel) tokens cost =
        conjunction fuel tokens cost >>= λ (node, rest, c). or_loop fuel node rest c

    pub or_loop : ℕ → Node → List Token → ℕ → Result QueryError (Node × List Token × ℕ)
    or_loop zero node tokens cost = fail unfinished 0
    or_loop (suc fuel) node tokens cost =
        maybe (take_word (codes "OR") tokens) (ok (node, tokens, cost)) (λ rest.
          conjunction fuel rest cost >>= λ (right, after, c).
          or_loop fuel (disj node right) after (c + 3))

    pub conjunction : ℕ → List Token → ℕ → Result QueryError (Node × List Token × ℕ)
    conjunction zero tokens cost = fail unfinished 0
    conjunction (suc fuel) tokens cost =
        unary fuel tokens cost >>= λ (node, rest, c). and_loop fuel node rest c

    pub and_loop : ℕ → Node → List Token → ℕ → Result QueryError (Node × List Token × ℕ)
    and_loop zero node tokens cost = fail unfinished 0
    and_loop (suc fuel) node tokens cost =
        maybe (take_word (codes "AND") tokens) (ok (node, tokens, cost)) (λ rest.
          unary fuel rest cost >>= λ (right, after, c).
          and_loop fuel (conj node right) after (c + 1))

    pub unary : ℕ → List Token → ℕ → Result QueryError (Node × List Token × ℕ)
    unary zero tokens cost = fail unfinished 0
    unary (suc fuel) tokens cost =
        maybe (take_word (codes "NOT") tokens)
          (maybe (take_word (codes "(") tokens) (read_term tokens cost) (λ rest.
            expression fuel rest cost >>= λ (node, after, c).
            expect (codes ")") after >>= λ closed. ok (node, closed, c)))
          (λ rest. unary fuel rest (cost + 2) >>= λ (node, after, c). ok (negation node, after, c))

  -- Five calls for each token at most, and three to begin with.
  abbrev pub depth : List Token → ℕ
  depth tokens = 5 * length tokens + 3

  -- Nothing may be left after the expression.
  abbrev whole_query : Node → List Token → ℕ → Result QueryError (Node × ℕ)
  whole_query ast [] cost = ok (ast, cost)
  whole_query ast (u ∷ _) cost = fail unexpected u.offset

  pub parse_tokens : List Token → Result QueryError (Node × ℕ)
  parse_tokens [] = fail empty 0
  parse_tokens (t ∷ tokens) =
      expression (depth (t ∷ tokens)) (t ∷ tokens) 0 >>= λ (ast, rest, cost).
      whole_query ast rest cost

-- `parseAdvancedQuery`: the syntax tree and its cost.
pub parse_advanced_query : CaseMaps → List ℕ → Result QueryError (Node × ℕ)
parse_advanced_query maps source =
    if ltb max_query_length (length source)
    then fail too_long max_query_length
    else tokenize source >>= λ tokens. parse_tokens maps (length source) tokens
