-- ===== src/AdvancedQuery/Parser/Cost.antt =====
-- The cost that parseAdvancedQuery of src/lib/advanced-query.ts counts, by the tree it builds.
pub mod Descent
use planeo.Prelude.{
  ℕ, zero, suc, ◌+◌, ◌*◌, ◌≤◌, ◌<◌, Bool, true, false, Option, none, some, inl, inr, List, [], ◌∷◌,
  ◌≡◌, ◌≢◌, refl, length, Result, ok, err, ◌>>=◌, if◌then◌else◌, ◌==◌, ltb, if_both, if_with,
  maybe_both, same_units, Bool-cases, Option-cases, arith, codes, find,
}
use planeo.AdvancedQuery.{
  max_query_cost, Field, Operator, Node, conj, disj, negation, term, field_name, Token, Fault,
  QueryError, unfinished, CaseMaps,
}
use planeo.AdvancedQuery.Lexer.{tokenize, tokenize_ends, RanOut}
use planeo.AdvancedQuery.Parser.{
  fail, term_weight, list_weight, read_values, take_word, expect, read_field, read_operator,
  read_operand, plain_operator, operator_name, operators, single, check_cost, read_term, expression,
  or_loop, conjunction, and_loop, unary, depth, parse_tokens, parse_advanced_query, is_one_of,
  takes_list,
}

-- What a tree costs: five for a term that searches text and one for any other, two more for each
-- value of a list, one for AND, two for NOT, three for OR.
abbrev pub cost_of : Node → ℕ
cost_of (term f o values) = list_weight o values + term_weight f o
cost_of (negation a) = cost_of a + 2
cost_of (conj a b) = cost_of a + cost_of b + 1
cost_of (disj a b) = cost_of a + cost_of b + 3

-- The terms of a tree.
abbrev pub terms : Node → ℕ
terms (term f o values) = 1
terms (negation a) = terms a
terms (conj a b) = terms a + terms b
terms (disj a b) = terms a + terms b

-- Each field of a tree is one that the text of a token names.
abbrev pub Named : (List ℕ → List ℕ) → Node → Type 0
Named lower (term f o values) = (value : List ℕ) × (field_name f ≡ lower value)
Named lower (negation a) = Named lower a
Named lower (conj a b) = Named lower a × Named lower b
Named lower (disj a b) = Named lower a × Named lower b

-- What parsing a tree from a cost leaves: the cost of the tree is added, its last term was within
-- the limit, and only the AND and OR that follow it can go beyond.
pub record Priced (lower : List ℕ → List ℕ) (before : ℕ) (node : Node) (after : ℕ) : Type 0 where
  pub exact : after ≡ before + cost_of node
  pub limited : before + terms node ≤ max_query_cost
  pub named : Named lower node
  pub over : after + 3 ≤ max_query_cost + 3 * terms node

pub term_weight-pos : (f : Field) (o : Operator) → 1 ≤ term_weight f o
term_weight-pos f o = ground arith

pub ltb-false : (a b : ℕ) → ltb a b ≡ false → b ≤ a
ltb-false a b h = ground arith

pub terms-pos : (a : Node) → 1 ≤ terms a
terms-pos (term f o values) = omega arith
terms-pos (negation a) = terms-pos a
terms-pos (conj a b) = omega (arith, terms-pos a, terms-pos b)
terms-pos (disj a b) = omega (arith, terms-pos a, terms-pos b)

pub cost_of-terms : (a : Node) → terms a ≤ cost_of a
cost_of-terms (term f o values) = omega (arith, term_weight-pos f o)
cost_of-terms (negation a) = omega (arith, cost_of-terms a)
cost_of-terms (conj a b) = omega (arith, cost_of-terms a, cost_of-terms b)
cost_of-terms (disj a b) = omega (arith, cost_of-terms a, cost_of-terms b)

pub Priced-conj :
    {lower : List ℕ → List ℕ} {c₀ c₁ c₂ : ℕ} (a b : Node)
    → Priced lower c₀ a c₁
    → Priced lower c₁ b c₂
    → Priced lower c₀ (conj a b) (c₂ + 1)
Priced-conj a b p q = record {
  exact = omega (arith, p.exact, q.exact);
  limited = omega (arith, p.exact, q.limited, cost_of-terms a);
  named = (p.named, q.named);
  over = omega (arith, q.over, terms-pos a);
}

pub Priced-disj :
    {lower : List ℕ → List ℕ} {c₀ c₁ c₂ : ℕ} (a b : Node)
    → Priced lower c₀ a c₁
    → Priced lower c₁ b c₂
    → Priced lower c₀ (disj a b) (c₂ + 3)
Priced-disj a b p q = record {
  exact = omega (arith, p.exact, q.exact);
  limited = omega (arith, p.exact, q.limited, cost_of-terms a);
  named = (p.named, q.named);
  over = omega (arith, q.over, terms-pos a);
}

pub Priced-negation :
    {lower : List ℕ → List ℕ} {c₀ c₁ : ℕ} (a : Node)
    → Priced lower (c₀ + 2) a c₁
    → Priced lower c₀ (negation a) c₁
Priced-negation a p = record {
  exact = omega (arith, p.exact);
  limited = omega (arith, p.limited);
  named = p.named;
  over = omega (arith, p.over);
}
