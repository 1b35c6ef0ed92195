-- ===== src/Issues/Body/Bounds.antt =====
-- What a body that PATCH of src/app/api/issues/[id]/route.ts accepts keeps to.
use planeo.Prelude.{
  ℕ, ◌≤◌, String, true, false, not, ◌&&◌, ◌||◌, Option, none, some, inl, inr, List, [], ◌∷◌, map,
  length, filter, ◌===◌, ◌!==◌, ===_iff, ltb, maybe, Result, ok, err, All, >>=-eq-ok,
  throw_if_passed, Yields, Yields_value, Yields-bind, Yields-throw_if, ◌≡◌, ◌≢◌, subst, arith,
  Bool-cases, units, trim, codes, if_both, unique-Distinct, Distinct, In, In-any, In-unique,
  In-filter,
}
use planeo.Prelude.Int.{ℤ, pos, negsuc}
use planeo.Prelude.Json.{
  Json, undefined, null, bool, num, str, arr, obj, is_undefined, field_of, as_string, as_array,
  as_integer, strings,
}
use planeo.CustomFields.{is_day}
use planeo.Issues.Body.{
  BodyError, Lookup, Draft, empty_draft, trimmed_text, filled, priority_of, read_status, assign,
  misplaced, place_level, too_many, read_resolution, read_title, read_description, read_priority,
  read_points, read_estimate, read_assignee, read_day, read_due_date, read_level, label_names,
  read_labels, block, run, blocks, is_empty_draft, read_body, long_resolution, invalid_title,
  invalid_status, unknown_status, invalid_priority, invalid_assignee, invalid_due_date,
  invalid_level, invalid_labels, long_description, invalid_estimate, unknown_assignee, many_labels,
  misplaced_level, no_change,
}

-- What holds of a value that is given.
abbrev pub Given : {A : Type 0} → (A → Type 0) → Option A → Type 0
Given P none = Unit
Given P (some a) = P a

abbrev pub Short : ℕ → String → Type 0
Short n s = units s ≤ n

abbrev pub Label : String → Type 0
Label s = (s ≢ "") × Short 50 s

abbrev pub Labels : List String → Type 0
Labels names = (length names ≤ 10) × Distinct names × ((s : String) → In s names → Label s)

-- The fields of `data` and the labels.
abbrev pub Within : Lookup → Draft → Type 0
Within lookup d =
    Given (Given (Short 200)) d.resolution
    × Given (λ s. (s ≢ "") × Short 200 s) d.summary
    × Given (Short 20000) d.description
    × Given (Given (λ n. n ≤ 100)) d.estimate
    × Given (Given (λ id. lookup.is_project_member id ≡ true)) d.assignee_id
    × Given Labels d.label_names

module _ (lookup : Lookup) (now : ℕ) (issue_type_id : String) where
  abbrev Kept : Result BodyError Draft → Type 0
  Kept = Yields (Within lookup)

  abbrev Keeps : (Draft → Result BodyError Draft) → Type 0
  Keeps step = (d : Draft) → Within lookup d → Kept (step d)

  block-Keeps :
      (key : String) (read : Draft → Json → Result BodyError Draft) (body : Json)
      → ((d : Draft) (value : Json) → Within lookup d → Kept (read d value))
      → Keeps (block lookup now issue_type_id key read body)
  block-Keeps key read body kept d w =
      if_both Kept (is_undefined (field_of key body)) w (kept d (field_of key body) w)

  run-Keeps :
      (steps : List (Draft → Result BodyError Draft))
      → All Keeps steps
      → Keeps (run lookup now issue_type_id steps)
  run-Keeps [] h d w = w
  run-Keeps (step ∷ steps) h d w =
      Yields-bind (Within lookup) (Within lookup) (step d) (run lookup now issue_type_id steps)
        (h.0 d w) (run-Keeps steps h.1)

  -- A value that is looked up, or an error.
  found-Kept :
      {A : Type 0} (o : Option A) (fault : BodyError) (next : A → Result BodyError Draft)
      → ((x : A) → Kept (next x))
      → Kept (maybe o (err fault) next)
  found-Kept none fault next kept = tt
  found-Kept (some x) fault next kept = kept x

  status-Kept :
      (d : Draft) (value : Json)
      → Within lookup d
      → Kept (read_status lookup now issue_type_id d value)
  status-Kept d value w =
      found-Kept (as_string value) invalid_status _
        (λ name. found-Kept (lookup.find_status name) unknown_status _ (λ status. w))

  filled-Short : (n : ℕ) (s : String) → units s ≤ n → Given (Short n) (filled s)
  filled-Short n s h = elim (Bool-cases (s === "")) [
    | inl blank ↦ rw blank tt
    | inr text ↦ rw text h
  ]

  resolution-Kept :
      (d : Draft) (value : Json)
      → Within lookup d
      → Kept (read_resolution lookup now issue_type_id d value)
  resolution-Kept d value (r, s, t, e, a, l) =
      Yields-throw_if (Within lookup) (ltb 200 (units (trimmed_text value))) long_resolution _
        (λ short. (filled-Short 200 (trimmed_text value) (ground (arith, short)), s, t, e, a, l))

  title-Kept :
      (d : Draft) (value : Json)
      → Within lookup d
      → Kept (read_title lookup now issue_type_id d value)
  title-Kept d value (r, s, t, e, a, l) =
      Yields-throw_if (Within lookup)
        (trimmed_text value === "" || ltb 200 (units (trimmed_text value))) invalid_title _
        (λ fits. (
          r,
          (λ e1. ground (arith, fits, ===_iff (trimmed_text value) "", e1), ground (arith, fits)),
          t,
          e,
          a,
          l,
        ))

  description-Kept :
      (d : Draft) (value : Json)
      → Within lookup d
      → Kept (read_description lookup now issue_type_id d value)
  description-Kept d value (r, s, t, e, a, l) =
      Yields-throw_if (Within lookup) (ltb 20000 (units (trimmed_text value))) long_description _
        (λ short. (r, s, ground (arith, short), e, a, l))

  priority-Kept :
      (d : Draft) (value : Json)
      → Within lookup d
      → Kept (read_priority lookup now issue_type_id d value)
  priority-Kept d value w =
      found-Kept (priority_of (maybe (as_string value) "" lookup.to_upper)) invalid_priority _
        (λ p. w)

  points-Kept :
      (d : Draft) (z : ℤ) → Within lookup d → Kept (read_points lookup now issue_type_id d z)
  points-Kept d (pos n) (r, s, t, e, a, l) =
      Yields-throw_if (Within lookup) (ltb 100 n) invalid_estimate _
        (λ small. (r, s, t, ground (arith, small), a, l))
  points-Kept d (negsuc n) w = tt

  estimate-Kept :
      (d : Draft) (value : Json)
      → Within lookup d
      → Kept (read_estimate lookup now issue_type_id d value)
  estimate-Kept d null (r, s, t, e, a, l) = (r, s, t, tt, a, l)
  estimate-Kept d undefined w =
      found-Kept (as_integer undefined) invalid_estimate (read_points lookup now issue_type_id d)
        (λ z. points-Kept d z w)
  estimate-Kept d (bool b) w =
      found-Kept (as_integer (bool b)) invalid_estimate (read_points lookup now issue_type_id d)
        (λ z. points-Kept d z w)
  estimate-Kept d (num n) w =
      found-Kept (as_integer (num n)) invalid_estimate (read_points lookup now issue_type_id d)
        (λ z. points-Kept d z w)
  estimate-Kept d (str x) w =
      found-Kept (as_integer (str x)) invalid_estimate (read_points lookup now issue_type_id d)
        (λ z. points-Kept d z w)
  estimate-Kept d (arr x) w =
      found-Kept (as_integer (arr x)) invalid_estimate (read_points lookup now issue_type_id d)
        (λ z. points-Kept d z w)
  estimate-Kept d (obj x) w =
      found-Kept (as_integer (obj x)) invalid_estimate (read_points lookup now issue_type_id d)
        (λ z. points-Kept d z w)

  member-Kept :
      (d : Draft) (id : String) → Within lookup d → Kept (assign lookup now issue_type_id d id)
  member-Kept d id (r, s, t, e, a, l) =
      Yields-throw_if (Within lookup) (not (lookup.is_project_member id)) unknown_assignee _
        (λ known. (r, s, t, e, ground (arith, known), l))

  assignee-Kept :
      (d : Draft) (value : Json)
      → Within lookup d
      → Kept (read_assignee lookup now issue_type_id d value)
  assignee-Kept d null (r, s, t, e, a, l) = (r, s, t, e, tt, l)
  assignee-Kept d undefined w =
      found-Kept (as_string undefined) invalid_assignee (assign lookup now issue_type_id d)
        (λ id. member-Kept d id w)
  assignee-Kept d (bool b) w =
      found-Kept (as_string (bool b)) invalid_assignee (assign lookup now issue_type_id d)
        (λ id. member-Kept d id w)
  assignee-Kept d (num n) w =
      found-Kept (as_string (num n)) invalid_assignee (assign lookup now issue_type_id d)
        (λ id. member-Kept d id w)
  assignee-Kept d (str x) w =
      found-Kept (as_string (str x)) invalid_assignee (assign lookup now issue_type_id d)
        (λ id. member-Kept d id w)
  assignee-Kept d (arr x) w =
      found-Kept (as_string (arr x)) invalid_assignee (assign lookup now issue_type_id d)
        (λ id. member-Kept d id w)
  assignee-Kept d (obj x) w =
      found-Kept (as_string (obj x)) invalid_assignee (assign lookup now issue_type_id d)
        (λ id. member-Kept d id w)

  day-Kept :
      (d : Draft) (s : String) → Within lookup d → Kept (read_day lookup now issue_type_id d s)
  day-Kept d s w = if_both Kept (s === "") w (
      if_both Kept (is_day (codes s))
        (found-Kept (lookup.parse_noon s) invalid_due_date _ (λ date. w)) tt)

  due_date-Kept :
      (d : Draft) (value : Json)
      → Within lookup d
      → Kept (read_due_date lookup now issue_type_id d value)
  due_date-Kept d null w = w
  due_date-Kept d undefined w =
      found-Kept (as_string undefined) invalid_due_date _ (λ s. day-Kept d s w)
  due_date-Kept d (bool b) w =
      found-Kept (as_string (bool b)) invalid_due_date _ (λ s. day-Kept d s w)
  due_date-Kept d (num n) w =
      found-Kept (as_string (num n)) invalid_due_date _ (λ s. day-Kept d s w)
  due_date-Kept d (str x) w =
      found-Kept (as_string (str x)) invalid_due_date _ (λ s. day-Kept d s w)
  due_date-Kept d (arr x) w =
      found-Kept (as_string (arr x)) invalid_due_date _ (λ s. day-Kept d s w)
  due_date-Kept d (obj x) w =
      found-Kept (as_string (obj x)) invalid_due_date _ (λ s. day-Kept d s w)

  level_placed :
      (d : Draft) (id : String) → Within lookup d → Kept (place_level lookup now issue_type_id d id)
  level_placed d id w =
      Yields-throw_if (Within lookup) (misplaced lookup now issue_type_id id) misplaced_level _
        (λ fits. w)

  level-Kept :
      (d : Draft) (value : Json)
      → Within lookup d
      → Kept (read_level lookup now issue_type_id d value)
  level-Kept d null w = w
  level-Kept d undefined w =
      found-Kept (as_string undefined) invalid_level (place_level lookup now issue_type_id d)
        (λ id. level_placed d id w)
  level-Kept d (bool b) w =
      found-Kept (as_string (bool b)) invalid_level (place_level lookup now issue_type_id d)
        (λ id. level_placed d id w)
  level-Kept d (num n) w =
      found-Kept (as_string (num n)) invalid_level (place_level lookup now issue_type_id d)
        (λ id. level_placed d id w)
  level-Kept d (str x) w =
      found-Kept (as_string (str x)) invalid_level (place_level lookup now issue_type_id d)
        (λ id. level_placed d id w)
  level-Kept d (arr x) w =
      found-Kept (as_string (arr x)) invalid_level (place_level lookup now issue_type_id d)
        (λ id. level_placed d id w)
  level-Kept d (obj x) w =
      found-Kept (as_string (obj x)) invalid_level (place_level lookup now issue_type_id d)
        (λ id. level_placed d id w)

  label-Short :
      (names : List String) (s : String)
      → too_many lookup now issue_type_id names ≡ false
      → In s names
      → Short 50 s
  label-Short names s fits m = elim (Bool-cases (ltb 50 (units s))) [
    | inl long ↦
        let found = In-any (λ t. ltb 50 (units t)) s names m long in
        absurd (ground (arith, found, fits))
    | inr short ↦ ground (arith, short)
  ]

  label_names-Labels :
      (names : List String)
      → too_many lookup now issue_type_id (label_names lookup now issue_type_id names) ≡ false
      → Labels (label_names lookup now issue_type_id names)
  label_names-Labels names fits =
      let names_read = label_names lookup now issue_type_id names in
      (
        ground (arith, fits),
        unique-Distinct (filter (λ s. s !== "") (map trim names)),
        λ s m.
            let (_, text) =
              (In-filter (λ t. t !== "") s (map trim names)).0
                ((In-unique s (filter (λ t. t !== "") (map trim names))).0 m) in
            (λ blank. ground (arith, text, ===_iff s "", blank), label-Short names_read s fits m),
      )

  labels-Kept :
      (d : Draft) (value : Json)
      → Within lookup d
      → Kept (read_labels lookup now issue_type_id d value)
  labels-Kept d value (r, s, t, e, a, l) = found-Kept (as_array value) invalid_labels _ (λ items.
      found-Kept (strings items) invalid_labels _ (λ names.
        Yields-throw_if (Within lookup)
          (too_many lookup now issue_type_id (label_names lookup now issue_type_id names))
          many_labels _ (λ fits. (r, s, t, e, a, label_names-Labels names fits))))

  blocks_keep : (body : Json) → All Keeps (blocks lookup now issue_type_id body)
  blocks_keep body = (
    block-Keeps "status" (read_status lookup now issue_type_id) body status-Kept,
    (
      block-Keeps "resolution" (read_resolution lookup now issue_type_id) body resolution-Kept,
      (
        block-Keeps "title" (read_title lookup now issue_type_id) body title-Kept,
        (
          block-Keeps "description" (read_description lookup now issue_type_id) body
              description-Kept,
          (
            block-Keeps "priority" (read_priority lookup now issue_type_id) body priority-Kept,
            (
              block-Keeps "estimate" (read_estimate lookup now issue_type_id) body estimate-Kept,
              (
                block-Keeps "assigneeId" (read_assignee lookup now issue_type_id) body
                    assignee-Kept,
                (
                  block-Keeps "dueDate" (read_due_date lookup now issue_type_id) body due_date-Kept,
                  (
                    block-Keeps "hierarchyLevelId" (read_level lookup now issue_type_id) body
                        level-Kept,
                    (
                      block-Keeps "labels" (read_labels lookup now issue_type_id) body labels-Kept,
                      tt,
                    ),
                  ),
                ),
              ),
            ),
          ),
        ),
      ),
    ),
  )

  -- Of an accepted body, the resolution has at most 200 characters, the title from 1 to 200, the
  -- description at most 20,000, the estimate is at most 100, the assignee is a member of the
  -- project, the labels are at most ten, each once, of 1 to 50 characters, and there is a change.
  pub read_body-Within :
      (body : Json) (d : Draft)
      → read_body lookup now issue_type_id body ≡ ok d
      → Within lookup d
        × ((is_empty_draft lookup now issue_type_id d
              && is_undefined (field_of "customFields" body))
            ≡ false)
  unfolding read_body
  read_body-Within body d e =
      let (draft, read, e1) =
        >>=-eq-ok (run lookup now issue_type_id (blocks lookup now issue_type_id body) empty_draft)
          _ e in
      let (some_change, e2) =
        throw_if_passed
          (is_empty_draft lookup now issue_type_id draft
            && is_undefined (field_of "customFields" body))
          no_change (ok draft) e1 in
      let kept =
        Yields_value (Within lookup)
          (run lookup now issue_type_id (blocks lookup now issue_type_id body) empty_draft)
          (run-Keeps (blocks lookup now issue_type_id body) (blocks_keep body) empty_draft
            (tt, tt, tt, tt, tt, tt))
          read in
      let same : draft ≡ d = cc in
      subst
        (λ x.
          Within lookup x
          × ((is_empty_draft lookup now issue_type_id x
                && is_undefined (field_of "customFields" body))
              ≡ false))
        same (kept, some_change)
