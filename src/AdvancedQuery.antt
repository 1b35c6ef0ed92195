-- ===== src/AdvancedQuery.antt =====
-- src/lib/advanced-query.ts: the search language. Texts are lists of UTF-16 code units; the two
-- case mappings of JavaScript and the reading of a calendar day are parameters.
pub mod Lexer
pub mod Parser
pub mod Compile
use planeo.Prelude.{ℕ, Bool, true, false, List, [], ◌∷◌, ◌||◌, any, codes, same_units, String}

abbrev pub max_query_length : ℕ
max_query_length = 2000

abbrev pub max_query_cost : ℕ
max_query_cost = 100

pub data Field : Type 0 where
  key text summary description project type status assignee reporter priority label : Field
  sprint release parent link request_type created updated due resolved : Field

-- The names of QUERY_FIELDS.
abbrev pub field_name : Field → List ℕ
field_name key = codes "key"
field_name text = codes "text"
field_name summary = codes "summary"
field_name description = codes "description"
field_name project = codes "project"
field_name type = codes "type"
field_name status = codes "status"
field_name assignee = codes "assignee"
field_name reporter = codes "reporter"
field_name priority = codes "priority"
field_name label = codes "label"
field_name sprint = codes "sprint"
field_name release = codes "release"
field_name parent = codes "parent"
field_name link = codes "link"
field_name request_type = codes "requestType"
field_name created = codes "created"
field_name updated = codes "updated"
field_name due = codes "due"
field_name resolved = codes "resolved"

abbrev pub query_fields : List Field
query_fields =
    key ∷ text ∷ summary ∷ description ∷ project ∷ type ∷ status ∷ assignee ∷ reporter ∷ priority
    ∷ label ∷ sprint ∷ release ∷ parent ∷ link ∷ request_type ∷ created ∷ updated ∷ due ∷ resolved
    ∷ []

pub data Operator : Type 0 where
  eq ne gt gte lt lte like in_list not_in_list : Operator

pub data Node : Type 0 where
  conj disj : Node → Node → Node
  negation : Node → Node
  term : Field → Operator → List (List ℕ) → Node

pub record Token : Type 0 where
  pub value : List ℕ
  pub offset : ℕ

-- QueryLanguageError: what is wrong, and where. `unfinished` is of the model alone: the fuel ran
-- out, which it never does.
pub data Fault : Type 0 where
  too_long empty unterminated invalid_character unexpected expected_value : Fault
  expected_field expected_operator expected_comparison expected_list_value : Fault
  expected : List ℕ → Fault
  bad_date too_costly unfinished : Fault

pub record QueryError : Type 0 where
  pub fault : Fault
  pub offset : ℕ

-- JavaScript's `toUpperCase` and `toLowerCase`.
pub record CaseMaps : Type 0 where
  pub upper : List ℕ → List ℕ
  pub lower : List ℕ → List ℕ
