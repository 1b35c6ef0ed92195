-- ===== src/Permissions/Validation.antt =====
-- validatePermissions of src/lib/permissions.ts: which maps of grants a scheme version may hold.
mod Tests
use planeo.Prelude.{
  ℕ, String, Bool, true, false, not, ◌&&◌, ◌||◌, Option, none, some, List, [], ◌∷◌, ◌≡◌, refl, ap,
  ◌⊎◌, inl, inr, ◌↔◌, In, In-any, any, all, all_of_In, includes, unique, In-unique, unique-Distinct,
  Distinct, leb, ◌==◌, ◌===◌, ===_iff, codes, Result, ok, err, if◌then◌else◌, Bool-cases,
  Option-cases, arith,
}
use planeo.Prelude.Json.{Json, as_object, as_array, strings, get}
use planeo.Permissions.{
  ProjectPermission, project_admin, PermissionMap, project_permissions, permission_name,
}

-- [a-zA-Z0-9_-]
abbrev is_id_char : ℕ → Bool
is_id_char c =
    leb b'a' c && leb c b'z'
    || leb b'A' c && leb c b'Z'
    || leb b'0' c && leb c b'9'
    || c == b'_'
    || c == b'-'

-- The rest of a text after a prefix.
strip : List ℕ → List ℕ → Option (List ℕ)
strip [] s = some s
strip (p ∷ ps) [] = none
strip (p ∷ ps) (c ∷ s) = if p == c then strip ps s else none

-- `PREFIX:[a-zA-Z0-9_-]+`
abbrev names_id : String → String → Bool
names_id prefix s = elim (strip (codes prefix) (codes s)) [
  | none ↦ false
  | some [] ↦ false
  | some (c ∷ rest) ↦ all is_id_char (c ∷ rest)
]

abbrev role_grants : List String
role_grants =
    "WORKSPACE:OWNER" ∷ "WORKSPACE:ADMIN" ∷ "WORKSPACE:MEMBER" ∷ "WORKSPACE:VIEWER"
    ∷ "PROJECT:ADMIN" ∷ "PROJECT:MEMBER" ∷ "PROJECT:VIEWER" ∷ []

-- The pattern that each grant is held to.
pub is_grant : String → Bool
unfolding strip
is_grant s = includes role_grants s || names_id "GROUP:" s || names_id "USER:" s

-- The grants of one action, if they are an array of well-formed texts.
pub read_grants : List (String × Json) → String → Option (List String)
read_grants fields action = elim (as_array (get action fields)) [
  | none ↦ none
  | some values ↦ elim (strings values) [
    | none ↦ none
    | some grants ↦ if any (λ grant. not (is_grant grant)) grants then none else some grants
  ]
]

-- `result[action] = grants`
abbrev set_grants : ProjectPermission → List String → PermissionMap → PermissionMap
set_grants action grants result q =
    if permission_name q === permission_name action then some grants else result q

pub data PolicyError : Type 0 where
  map_required : PolicyError
  grants_required : ProjectPermission → PolicyError

-- The loop over PROJECT_PERMISSIONS.
validate_actions :
    List (String × Json) → List ProjectPermission → PermissionMap → Result PolicyError PermissionMap
validate_actions fields [] result = ok result
validate_actions fields (action ∷ actions) result =
    elim (read_grants fields (permission_name action)) [
      | none ↦ err (grants_required action)
      | some grants ↦ validate_actions fields actions (set_grants action (unique grants) result)
    ]

pub validate_permissions : Json → Result PolicyError PermissionMap
validate_permissions value = elim (as_object value) [
  | none ↦ err map_required
  | some fields ↦ validate_actions fields project_permissions (λ _. none)
]

-- The result holds, for an action, the grants given for it, each once.
abbrev pub Granted : List (String × Json) → PermissionMap → ProjectPermission → Type 0
Granted fields result action =
    (grants : List String) × (read_grants fields (permission_name action) ≡ some grants)
    × (result action ≡ some (unique grants))

Granted-set_grants :
    (fields : List (String × Json)) (action q : ProjectPermission) (grants : List String)
    (result : PermissionMap)
    → read_grants fields (permission_name action) ≡ some grants
    → (q ≡ action) ⊎ Granted fields result q
    → Granted fields (set_grants action (unique grants) result) q
Granted-set_grants fields action q grants result e h =
    elim (Bool-cases (permission_name q === permission_name action)) [
      | inl same ↦ (grants, rw ((===_iff _ _).0 same) e, rw same)
      | inr other ↦ elim h [
        | inl same ↦ absurd (
            cc (
              other,
              (===_iff (permission_name q) (permission_name action)).1 (ap permission_name same),
            ))
        | inr (gs, read, stored) ↦ (gs, read, rw other stored)
      ]
    ]

-- What the loop returns holds the grants of its actions, and of those that were there before.
validate_actions-Granted :
    (fields : List (String × Json)) (q : ProjectPermission) (actions : List ProjectPermission)
    (result final : PermissionMap)
    → validate_actions fields actions result ≡ ok final
    → In q actions ⊎ Granted fields result q
    → Granted fields final q
unfolding validate_actions
validate_actions-Granted fields q [] result final e h = elim h [
  | inl m ↦ elim m [ ]
  | inr (gs, read, stored) ↦ let same : result ≡ final = cc in (gs, read, rw (← same) stored)
]
validate_actions-Granted fields q (action ∷ actions) result final e h =
    elim (Option-cases (read_grants fields (permission_name action))) [
      | inl missing ↦ absurd (cc (rw (missing, validate_actions) at e))
      | inr (grants, read) ↦
          let next = set_grants action (unique grants) result in
          let later =
            validate_actions-Granted fields q actions next final
              (rw (read, validate_actions) at e) in
          let step = Granted-set_grants fields action q grants result read in
          elim h [
            | inl (inl here) ↦ later (inr (step (inl here)))
            | inl (inr listed) ↦ later (inl listed)
            | inr before ↦ later (inr (step (inr before)))
          ]
    ]

In-project_permissions : (q : ProjectPermission) → In q project_permissions
In-project_permissions project_admin = ground arith
In-project_permissions _ = ground arith

read_grants-is_grant :
    (fields : List (String × Json)) (action : String) (grants : List String)
    → read_grants fields action ≡ some grants
    → (g : String) → In g grants
    → is_grant g ≡ true
unfolding read_grants
read_grants-is_grant fields action grants e g m =
    elim (Option-cases (as_array (get action fields))) [
      | inl missing ↦ absurd (cc (rw (missing, read_grants) at e))
      | inr (values, array) ↦ elim (Option-cases (strings values)) [
        | inl mixed ↦ absurd (cc (rw (array, read_grants, mixed) at e))
        | inr (texts, read) ↦
            let e' = rw (array, read_grants, read) at e in
            ground (arith, In-any (λ x. not (is_grant x)) g grants m)
      ]
    ]

-- What validation promises of the grants of one action.
pub record Explicit (fields : List (String × Json)) (final : PermissionMap)
    (action : ProjectPermission) : Type 0 where
  pub grants : List String
  pub supplied : List String
  pub stored : final action ≡ some grants
  pub read : read_grants fields (permission_name action) ≡ some supplied
  pub once : Distinct grants
  pub well_formed : all is_grant grants ≡ true
  pub same : (g : String) → In g grants ↔ In g supplied

Granted-Explicit :
    (fields : List (String × Json)) (final : PermissionMap) (q : ProjectPermission)
    → Granted fields final q
    → Explicit fields final q
Granted-Explicit fields final q (supplied, read, stored) = record {
  grants = unique supplied;
  supplied = supplied;
  stored = stored;
  read = read;
  once = unique-Distinct supplied;
  well_formed = all_of_In is_grant (unique supplied) (λ g m.
      read_grants-is_grant fields (permission_name q) supplied read g ((In-unique g supplied).0 m));
  same = λ g. In-unique g supplied;
}

-- A map that passes validation answers every action explicitly: with the grants that the input
-- lists for it, each once, all of the grants' pattern.
pub validate_permissions-Explicit :
    (value : Json) (final : PermissionMap)
    → validate_permissions value ≡ ok final
    → (fields : List (String × Json)) × (as_object value ≡ some fields)
      × ((q : ProjectPermission) → Explicit fields final q)
unfolding validate_permissions
validate_permissions-Explicit value final e = elim (Option-cases (as_object value)) [
  | inl none_given ↦ absurd (cc (rw (none_given, validate_permissions) at e))
  | inr (fields, object) ↦
      let loop = rw (object, validate_permissions) at e in
      (
        fields,
        object,
        λ q. Granted-Explicit fields final q (
            validate_actions-Granted fields q project_permissions (λ _. none) final loop
              (inl (In-project_permissions q))),
      )
]

validate_actions_complete :
    (fields : List (String × Json)) (actions : List ProjectPermission) (result : PermissionMap)
    → ((q : ProjectPermission)
        → (gs : List String) × (read_grants fields (permission_name q) ≡ some gs))
    → (final : PermissionMap) × (validate_actions fields actions result ≡ ok final)
unfolding validate_actions
validate_actions_complete fields [] result h = (result, refl)
validate_actions_complete fields (action ∷ actions) result h =
    let (gs, read) = h action in
    let (final, e) =
      validate_actions_complete fields actions (set_grants action (unique gs) result) h in
    (final, rw (read, validate_actions) e)

-- A map that lists well-formed grants for every action passes validation.
pub validate_permissions_complete :
    (value : Json) (fields : List (String × Json))
    → as_object value ≡ some fields
    → ((q : ProjectPermission)
        → (gs : List String) × (read_grants fields (permission_name q) ≡ some gs))
    → (final : PermissionMap) × (validate_permissions value ≡ ok final)
unfolding validate_permissions
validate_permissions_complete value fields object h =
    let (final, e) = validate_actions_complete fields project_permissions (λ _. none) h in
    (final, rw (object, validate_permissions) e)
