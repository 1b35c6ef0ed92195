-- ===== src/AdvancedQuery/Compile.antt =====
-- compile of src/lib/advanced-query.ts: the filter of the database client that a tree becomes. The
-- reading of a calendar day by `new Date` is the parameter `midnight`; times are milliseconds.
pub mod Operators
pub mod Relations
pub mod Dates
mod Tests
use planeo.Prelude.{
  ℕ, ◌+◌, ◌-◌, ◌*◌, ◌%◌, Bool, true, false, not, ◌&&◌, ◌||◌, Option, none, some, List, [], ◌∷◌, map,
  ◌≡◌, Result, ok, err, ◌>>=◌, if◌then◌else◌, ◌==◌, leb, length, all, codes, same_units, maybe,
  String,
}
use planeo.Prelude.Int.{ℤ, pos, negsuc, sub_ℕ}
use planeo.AdvancedQuery.{
  Field, key, text, summary, description, project, type, status, assignee, reporter, priority,
  label, sprint, release, parent, link, request_type, created, updated, due, resolved, Operator, eq,
  ne, gt, gte, lt, lte, like, in_list, not_in_list, Node, conj, disj, negation, term, QueryError,
  bad_date, CaseMaps,
}
use planeo.AdvancedQuery.Parser.{takes_list, parse_advanced_query}

-- The comparisons of the client's filters.
pub data Test (A : Type 0) : Type 0 where
  equals differs above at_least below at_most contains : A → Test A
  one_of none_of : List A → Test A

-- A text filter, and whether its mode is "insensitive".
pub record Filter : Type 0 where
  pub test : Test (List ℕ)
  pub insensitive : Bool

-- A `Date`: milliseconds, or an invalid one.
pub data Instant : Type 0 where
  at : ℤ → Instant
  invalid : Instant

pub data Column : Type 0 where
  by_summary by_project by_type by_status by_priority by_parent by_request_type : Column

pub data Person : Type 0 where
  assigned reported : Person

pub data Relation : Type 0 where
  labels sprints releases : Relation

pub data DateColumn : Type 0 where
  created_at updated_at due_date completed_at : DateColumn

-- Prisma.IssueWhereInput, as far as `compile` builds it. `related` says whether no related row may
-- match (`none`) or some must.
pub data Where : Type 0 where
  both either : Where → Where → Where
  negated : Where → Where
  column : Column → Filter → Where
  in_description in_text : List ℕ → Where
  keyed : List ℕ → ℕ → Where
  no_match : Where
  person : Person → Filter → Where
  related : Relation → Bool → Filter → Where
  linked : Filter → Where
  dated : DateColumn → Test Instant → Where

-- `values[0]`; a term of the parser has a value.
abbrev pub first : List (List ℕ) → List ℕ
first [] = []
first (v ∷ _) = v

abbrev exact : Test (List ℕ) → Filter
exact t = record { test = t; insensitive = false }

abbrev pub either_case : Test (List ℕ) → Filter
either_case t = record { test = t; insensitive = true }

pub comparison : Operator → List (List ℕ) → Filter
comparison in_list values = exact (one_of values)
comparison not_in_list values = exact (none_of values)
comparison ne values = exact (differs (first values))
comparison gt values = exact (above (first values))
comparison gte values = exact (at_least (first values))
comparison lt values = exact (below (first values))
comparison lte values = exact (at_most (first values))
comparison like values = either_case (contains (first values))
comparison eq values = exact (equals (first values))

pub text_comparison : Operator → List ℕ → Filter
text_comparison ne value = either_case (differs value)
text_comparison like value = either_case (contains value)
text_comparison _ value = either_case (equals value)

-- What userPredicate and relationPredicate share.
abbrev pub name_filter : Operator → List (List ℕ) → Filter
name_filter o values =
    if takes_list o then either_case (one_of values) else text_comparison o (first values)

abbrev pub is_negative : Operator → Bool
is_negative ne = true
is_negative not_in_list = true
is_negative _ = false

pub user_predicate : Person → Operator → List (List ℕ) → Where
user_predicate p o values = person p (name_filter o values)

pub relation_predicate : Relation → Operator → List (List ℕ) → Where
relation_predicate r o values = related r (is_negative o) (name_filter o values)

abbrev is_digit : ℕ → Bool
is_digit c = leb b'0' c && leb c b'9'

abbrev is_letter : ℕ → Bool
is_letter c = leb b'a' c && leb c b'z' || leb b'A' c && leb c b'Z'

-- The value of a text of digits.
abbrev decimal : ℕ → List ℕ → ℕ
decimal n [] = n
decimal n (c ∷ s) = decimal (n * 10 + (c - b'0')) s

-- The part before the first dash, and what follows it.
abbrev split_dash : List ℕ → Option (List ℕ × List ℕ)
split_dash [] = none
split_dash (c ∷ s) =
    if c == b'-'
    then some ([], s)
    else elim (split_dash s) [ none ↦ none | some (before, after) ↦ some (c ∷ before, after) ]

-- [A-Z][A-Z0-9]{1,9}, in either case
abbrev is_project_key : List ℕ → Bool
is_project_key [] = false
is_project_key (c ∷ s) =
    is_letter c && leb 1 (length s) && leb (length s) 9 && all (λ d. is_letter d || is_digit d) s

-- The milliseconds of a unit of a duration.
abbrev unit_of : ℕ → Option ℕ
unit_of c =
    if c == b'd'
    then some 86400000
    else if c == b'h'
    then some 3600000
    else if c == b'w'
    then some 604800000
    else none

-- \d*[dhw], after the digits that make `n`
abbrev digits_unit : ℕ → List ℕ → Option ℕ
digits_unit n [] = none
digits_unit n (c ∷ []) = maybe (unit_of c) none (λ unit. some (n * unit))
digits_unit n (c ∷ d ∷ s) = if is_digit c then digits_unit (n * 10 + (c - b'0')) (d ∷ s) else none

-- \d+[dhw]
abbrev duration : List ℕ → Option ℕ
duration [] = none
duration (c ∷ s) = if is_digit c then digits_unit 0 (c ∷ s) else none

-- The values that `new Date` takes lie at most 8.64e15 from 1970.
abbrev instant : ℤ → Instant
instant (pos n) = if leb n 8640000000000000 then at (pos n) else invalid
instant (negsuc n) = if leb (n + 1) 8640000000000000 then at (negsuc n) else invalid

-- `now` moved by a relative duration.
abbrev relative : ℕ → List ℕ → Option Instant
relative now [] = none
relative now (c ∷ s) =
    if c == b'-'
    then maybe (duration s) none (λ d. some (instant (sub_ℕ now d)))
    else maybe (duration (c ∷ s)) none (λ d. some (instant (pos (now + d))))

-- /^\d{4}-\d{2}-\d{2}$/
abbrev is_day : List ℕ → Bool
is_day (a ∷ b ∷ c ∷ d ∷ e ∷ f ∷ g ∷ h ∷ i ∷ j ∷ []) =
    all is_digit (a ∷ b ∷ c ∷ d ∷ f ∷ g ∷ i ∷ j ∷ []) && e == b'-' && h == b'-'
is_day _ = false

module _ (maps : CaseMaps) (midnight : List ℕ → Option ℤ) (now : ℕ) where
  pub relative_date : List ℕ → Option Instant
  relative_date value =
      if same_units value (codes "now")
      then some (at (pos now))
      else if same_units value (codes "today")
      then some (at (pos (now - now % 86400000)))
      else maybe (relative now value)
          (if is_day value then maybe (midnight value) none (λ z. some (at z)) else none)
          (λ t. some t)

  abbrev pub date_test : Operator → Instant → Test Instant
  date_test gt t = above t
  date_test gte t = at_least t
  date_test lt t = below t
  date_test lte t = at_most t
  date_test ne t = differs t
  date_test _ t = equals t

  pub date_comparison : DateColumn → Operator → List ℕ → Result QueryError Where
  date_comparison c o value =
      maybe (relative_date value) (err (record { fault = bad_date; offset = 0 }))
        (λ t. ok (dated c (date_test o t)))

  pub key_predicate : List ℕ → Where
  key_predicate value = maybe (split_dash value) no_match (λ (before, after).
      if is_project_key before && leb 1 (length after) && all is_digit after
      then keyed (maps.upper before) (decimal 0 after)
      else no_match)

  pub compile_term : Field → Operator → List (List ℕ) → Result QueryError Where
  compile_term summary o values = ok (column by_summary (text_comparison o (first values)))
  compile_term description o values = ok (in_description (first values))
  compile_term text o values = ok (in_text (first values))
  compile_term key o values = ok (key_predicate (first values))
  compile_term project o values = ok (column by_project (comparison o values))
  compile_term type o values = ok (column by_type (comparison o values))
  compile_term status o values = ok (column by_status (comparison o values))
  compile_term assignee o values = ok (user_predicate assigned o values)
  compile_term reporter o values = ok (user_predicate reported o values)
  compile_term priority o values = ok (column by_priority (comparison o values))
  compile_term label o values = ok (relation_predicate labels o values)
  compile_term sprint o values = ok (relation_predicate sprints o values)
  compile_term release o values = ok (relation_predicate releases o values)
  compile_term parent o values = ok (column by_parent (text_comparison o (first values)))
  compile_term link o values = ok (linked (text_comparison o (first values)))
  compile_term request_type o values =
      ok (column by_request_type (text_comparison o (first values)))
  compile_term created o values = date_comparison created_at o (first values)
  compile_term updated o values = date_comparison updated_at o (first values)
  compile_term due o values = date_comparison due_date o (first values)
  compile_term resolved o values = date_comparison completed_at o (first values)

  pub compile : Node → Result QueryError Where
  compile (conj a b) = compile a >>= λ l. compile b >>= λ r. ok (both l r)
  compile (disj a b) = compile a >>= λ l. compile b >>= λ r. ok (either l r)
  compile (negation a) = compile a >>= λ w. ok (negated w)
  compile (term f o values) = compile_term f o values

  pub compile_advanced_query : List ℕ → Result QueryError (Where × ℕ)
  compile_advanced_query source =
      parse_advanced_query maps source >>= λ (ast, cost). compile ast >>= λ w. ok (w, cost)
