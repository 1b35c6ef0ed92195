-- ===== src/Issues/Body.antt =====
-- What PATCH of src/app/api/issues/[id]/route.ts reads from the body of a request: `data`, the keys
-- of `changes`, and the names of the labels.
pub mod Bounds
use planeo.Prelude.{
  ℕ, ◌+◌, String, Bool, true, false, not, ◌&&◌, ◌||◌, Option, none, some, List, [], ◌∷◌, map,
  length, filter, any, ◌===◌, ◌!==◌, ltb, leb, is_absent, maybe, if◌then◌else◌, Result, ok, err,
  throw_if, ◌>>=◌, ◌>>◌, ◌≡◌, codes, units, trim, unique,
}
use planeo.Prelude.Int.{ℤ, pos, negsuc}
use planeo.Prelude.Json.{
  Json, undefined, null, str, field_of, is_str, is_undefined, as_string, as_array, as_integer,
  strings,
}
use planeo.CustomFields.{is_day}
use planeo.Issues.{Priority, urgent, high, medium, low, Row}

pub data BodyError : Type 0 where
  invalid_status unknown_status long_resolution invalid_title long_description : BodyError
  invalid_priority invalid_estimate invalid_assignee unknown_assignee : BodyError
  invalid_due_date invalid_level misplaced_level invalid_labels many_labels no_change : BodyError

pub record Status : Type 0 where
  pub id : String
  pub done : Bool

-- What is asked of the database, within the project and the workspace of the issue, and of the
-- runtime's `toUpperCase` and `Date`.
pub record Lookup : Type 0 where
  pub find_status : String → Option Status
  pub is_project_member : String → Bool
  pub find_level : String → Option String
  pub type_kind : String → Option String
  pub to_upper : String → String
  pub parse_noon : String → Option ℕ

-- `data`, `Object.keys(changes)` and `labelNames`. A field of `data` that is absent is `none`, and
-- one that is null is `some none`.
pub record Draft : Type 0 where
  pub status : Option Status
  pub completed_at : Option (Option ℕ)
  pub resolution : Option (Option String)
  pub summary : Option String
  pub description : Option String
  pub priority : Option Priority
  pub estimate : Option (Option ℕ)
  pub assignee_id : Option (Option String)
  pub due_date : Option (Option ℕ)
  pub hierarchy_level_id : Option (Option String)
  pub label_names : Option (List String)
  pub changed : List String

abbrev pub empty_draft : Draft
empty_draft = record {
  status = none;
  completed_at = none;
  resolution = none;
  summary = none;
  description = none;
  priority = none;
  estimate = none;
  assignee_id = none;
  due_date = none;
  hierarchy_level_id = none;
  label_names = none;
  changed = [];
}

-- `typeof value === "string" ? value.trim() : ""`
abbrev pub trimmed_text : Json → String
trimmed_text value = maybe (as_string value) "" trim

abbrev pub filled : String → Option String
filled s = if s === "" then none else some s

abbrev pub priority_of : String → Option Priority
priority_of s =
    if s === "URGENT"
    then some urgent
    else if s === "HIGH"
    then some high
    else if s === "MEDIUM"
    then some medium
    else if s === "LOW"
    then some low
    else none

module _ (lookup : Lookup) (now : ℕ) (issue_type_id : String) where
  abbrev set_status : Draft → Status → Draft
  set_status draft status = record draft {
    status = some status;
    completed_at = some (if status.done then some now else none);
    changed = "status" ∷ draft.changed;
  }

  abbrev read_status : Draft → Json → Result BodyError Draft
  read_status draft value = maybe (as_string value) (err invalid_status) (λ name.
      maybe (lookup.find_status name) (err unknown_status) (λ status. ok (set_status draft status)))

  abbrev read_resolution : Draft → Json → Result BodyError Draft
  read_resolution draft value =
      throw_if (ltb 200 (units (trimmed_text value))) long_resolution
      >> ok (record draft {
        resolution = some (filled (trimmed_text value));
        changed = "resolution" ∷ draft.changed;
      })

  abbrev read_title : Draft → Json → Result BodyError Draft
  read_title draft value =
      throw_if (trimmed_text value === "" || ltb 200 (units (trimmed_text value))) invalid_title
      >> ok
          (record draft { summary = some (trimmed_text value); changed = "title" ∷ draft.changed })

  abbrev read_description : Draft → Json → Result BodyError Draft
  read_description draft value =
      throw_if (ltb 20000 (units (trimmed_text value))) long_description
      >> ok (record draft {
        description = some (trimmed_text value);
        changed = "description" ∷ draft.changed;
      })

  abbrev read_priority : Draft → Json → Result BodyError Draft
  read_priority draft value =
      maybe (priority_of (maybe (as_string value) "" lookup.to_upper)) (err invalid_priority)
        (λ priority.
          ok (record draft { priority = some priority; changed = "priority" ∷ draft.changed }))

  abbrev set_estimate : Draft → Option ℕ → Draft
  set_estimate draft estimate = record draft {
    estimate = some estimate;
    changed = "estimate" ∷ draft.changed;
  }

  abbrev read_points : Draft → ℤ → Result BodyError Draft
  read_points draft (pos n) =
      throw_if (ltb 100 n) invalid_estimate >> ok (set_estimate draft (some n))
  read_points draft (negsuc n) = err invalid_estimate

  abbrev read_estimate : Draft → Json → Result BodyError Draft
  read_estimate draft null = ok (set_estimate draft none)
  read_estimate draft value = maybe (as_integer value) (err invalid_estimate) (read_points draft)

  abbrev set_assignee : Draft → Option String → Draft
  set_assignee draft id = record draft {
    assignee_id = some id;
    changed = "assignee" ∷ draft.changed;
  }

  abbrev assign : Draft → String → Result BodyError Draft
  assign draft id =
      throw_if (not (lookup.is_project_member id)) unknown_assignee
      >> ok (set_assignee draft (some id))

  abbrev read_assignee : Draft → Json → Result BodyError Draft
  read_assignee draft null = ok (set_assignee draft none)
  read_assignee draft value = maybe (as_string value) (err invalid_assignee) (assign draft)

  abbrev set_due_date : Draft → Option ℕ → Draft
  set_due_date draft date = record draft {
    due_date = some date;
    changed = "dueDate" ∷ draft.changed;
  }

  abbrev read_day : Draft → String → Result BodyError Draft
  read_day draft s =
      if s === ""
      then ok (set_due_date draft none)
      else if is_day (codes s)
      then maybe (lookup.parse_noon s) (err invalid_due_date)
          (λ date. ok (set_due_date draft (some date)))
      else err invalid_due_date

  abbrev read_due_date : Draft → Json → Result BodyError Draft
  read_due_date draft null = ok (set_due_date draft none)
  read_due_date draft value = maybe (as_string value) (err invalid_due_date) (read_day draft)

  abbrev set_level : Draft → Option String → Draft
  set_level draft level = record draft {
    hierarchy_level_id = some level;
    changed = "hierarchyLevelId" ∷ draft.changed;
  }

  abbrev is_epic : Option String → Bool
  is_epic none = false
  is_epic (some kind) = kind === "EPIC"

  abbrev misplaced : String → Bool
  misplaced id =
      id !== ""
      && (is_absent (lookup.find_level id) || not (is_epic (lookup.type_kind issue_type_id)))

  abbrev place_level : Draft → String → Result BodyError Draft
  place_level draft id =
      throw_if (misplaced id) misplaced_level >> ok (set_level draft (lookup.find_level id))

  abbrev read_level : Draft → Json → Result BodyError Draft
  read_level draft null = ok (set_level draft none)
  read_level draft value = maybe (as_string value) (err invalid_level) (place_level draft)

  abbrev pub label_names : List String → List String
  label_names names = unique (filter (λ s. s !== "") (map trim names))

  abbrev too_many : List String → Bool
  too_many names = ltb 10 (length names) || any (λ s. ltb 50 (units s)) names

  abbrev set_labels : Draft → List String → Result BodyError Draft
  set_labels draft names =
      throw_if (too_many names) many_labels
      >> ok (record draft { label_names = some names; changed = "labels" ∷ draft.changed })

  abbrev read_labels : Draft → Json → Result BodyError Draft
  read_labels draft value = maybe (as_array value) (err invalid_labels) (λ items.
      maybe (strings items) (err invalid_labels) (λ names. set_labels draft (label_names names)))

  -- `if (body?.[key] !== undefined) { … }`
  abbrev block :
      String → (Draft → Json → Result BodyError Draft) → Json → Draft → Result BodyError Draft
  block key read body draft =
      if is_undefined (field_of key body) then ok draft else read draft (field_of key body)

  abbrev run : List (Draft → Result BodyError Draft) → Draft → Result BodyError Draft
  run [] draft = ok draft
  run (step ∷ steps) draft = step draft >>= run steps

  -- The blocks of the handler in their order.
  abbrev blocks : Json → List (Draft → Result BodyError Draft)
  blocks body =
      block "status" read_status body
      ∷ block "resolution" read_resolution body
      ∷ block "title" read_title body
      ∷ block "description" read_description body
      ∷ block "priority" read_priority body
      ∷ block "estimate" read_estimate body
      ∷ block "assigneeId" read_assignee body
      ∷ block "dueDate" read_due_date body
      ∷ block "hierarchyLevelId" read_level body
      ∷ block "labels" read_labels body
      ∷ []

  -- Nothing of `data` and no labels.
  abbrev pub is_empty_draft : Draft → Bool
  is_empty_draft d =
      is_absent d.status
      && is_absent d.resolution
      && is_absent d.summary
      && is_absent d.description
      && is_absent d.priority
      && is_absent d.estimate
      && is_absent d.assignee_id
      && is_absent d.due_date
      && is_absent d.hierarchy_level_id
      && is_absent d.label_names

  unfoldable pub read_body : Json → Result BodyError Draft
  read_body body = run (blocks body) empty_draft >>= λ d.
      throw_if (is_empty_draft d && is_undefined (field_of "customFields" body)) no_change >> ok d
