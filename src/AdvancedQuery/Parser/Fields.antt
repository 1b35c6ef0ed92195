-- ===== src/AdvancedQuery/Parser/Fields.antt =====
-- parseAdvancedQuery of src/lib/advanced-query.ts: the fields that a query can name.
use planeo.Prelude.{ℕ, ◌<◌, ◌⊎◌, ◌≡◌, ◌≢◌, subst, List, All, codes, ok, arith}
use planeo.AdvancedQuery.{request_type, Node, term, negation, conj, disj, CaseMaps}
use planeo.AdvancedQuery.Parser.{parse_advanced_query}
use planeo.AdvancedQuery.Parser.Cost.{Named}
use planeo.AdvancedQuery.Parser.Budget.{parse_advanced_query-Accepted}

-- No ASCII capital is left in a text.
abbrev pub Lowered : List ℕ → Type 0
Lowered = All (λ c. (c < b'A') ⊎ (b'Z' < c))

-- No term of a tree asks for the request type.
abbrev pub NoRequestType : Node → Type 0
NoRequestType (term f o values) = f ≢ request_type
NoRequestType (negation a) = NoRequestType a
NoRequestType (conj a b) = NoRequestType a × NoRequestType b
NoRequestType (disj a b) = NoRequestType a × NoRequestType b

not-Lowered : Lowered (codes "requestType") → ⊥
not-Lowered (_, (_, (_, (_, (_, (_, (_, (capital, _)))))))) = omega arith

Named-NoRequestType :
    (maps : CaseMaps)
    → ((s : List ℕ) → Lowered (maps.lower s))
    → (a : Node) → Named maps.lower a
    → NoRequestType a
Named-NoRequestType maps low (term f o values) (value, e) = λ r.
    let lowered : maps.lower value ≡ codes "requestType" = cc in
    not-Lowered (subst Lowered lowered (low value))
Named-NoRequestType maps low (negation a) n = Named-NoRequestType maps low a n
Named-NoRequestType maps low (conj a b) (m, n) =
    (Named-NoRequestType maps low a m, Named-NoRequestType maps low b n)
Named-NoRequestType maps low (disj a b) (m, n) =
    (Named-NoRequestType maps low a m, Named-NoRequestType maps low b n)

-- No query names the field requestType: the parser lowers the text of a field before it looks it
-- up among the names, and this name has a capital letter.
pub parse_advanced_query-NoRequestType :
    (maps : CaseMaps)
    → ((s : List ℕ) → Lowered (maps.lower s))
    → (source : List ℕ) (ast : Node) (cost : ℕ) → parse_advanced_query maps source ≡ ok (ast, cost)
    → NoRequestType ast
parse_advanced_query-NoRequestType maps low source ast cost accepted =
    let p = rw accepted at (parse_advanced_query-Accepted maps source) in
    Named-NoRequestType maps low ast p.named
