-- ===== src/SavedFilters/Requests.antt =====
-- The handlers of src/app/api/saved-filters.
pub mod Kept
pub mod Owners
use planeo.Prelude.{
  ℕ, String, Bool, true, false, not, ◌&&◌, ◌||◌, Option, none, some, List, [], ◌∷◌, ◌++◌, any,
  filter, find, map, units, trim, ltb, ◌===◌, maybe, is_absent, if◌then◌else◌, Result, ok, err,
  throw_if, ◌>>=◌, ◌>>◌, ◌≡◌,
}
use planeo.Prelude.Json.{Json, bool, str, field_of, is_undefined}
use planeo.Permissions.{PolicyContext}
use planeo.SavedFilters.{
  SavedQuery, FilterDb, SavedFilter, FilterMeans, FilterError, signed_out, bad_filter,
  bad_reference, taken_name, no_filter, bad_filter_name, bad_query, bad_sharing, no_changes,
  normalize_saved_query, validate_saved_query,
}

-- `typeof body?.name === "string" ? body.name.trim() : ""`
abbrev pub text_of : Json → String
text_of (str s) = trim s
text_of _ = ""

abbrev pub as_bool : Json → Option Bool
as_bool (bool b) = some b
as_bool _ = none

abbrev insert_filter :
    (SavedFilter → SavedFilter → Bool) → SavedFilter → List SavedFilter → List SavedFilter
insert_filter precedes f [] = f ∷ []
insert_filter precedes f (g ∷ gs) =
    let rest = insert_filter precedes f gs in if precedes g f then g ∷ rest else f ∷ g ∷ gs

abbrev sort_filters : (SavedFilter → SavedFilter → Bool) → List SavedFilter → List SavedFilter
sort_filters precedes [] = []
sort_filters precedes (f ∷ fs) = insert_filter precedes f (sort_filters precedes fs)

-- `getAuthContext`, and 401 for nobody.
abbrev by_user :
    {A : Type 0}
    → Option PolicyContext
    → (PolicyContext → Result FilterError A)
    → Result FilterError A
by_user context handler = maybe context (err signed_out) handler

abbrev pub bad_title : String → Bool
bad_title name = name === "" || ltb 80 (units name)

-- The unique key of a filter.
abbrev pub is_titled : PolicyContext → String → SavedFilter → Bool
is_titled context name f =
    f.workspace_id === context.workspace_id && (f.owner_id === context.user_id) && (f.name === name)

abbrev pub is_own : PolicyContext → String → SavedFilter → Bool
is_own context id f =
    f.id === id && (f.workspace_id === context.workspace_id) && (f.owner_id === context.user_id)

-- The `data` of PATCH.
pub record FilterChanges : Type 0 where
  pub name : Option String
  pub query : Option SavedQuery
  pub shared : Option Bool

abbrev pub change_filter : ℕ → FilterChanges → SavedFilter → SavedFilter
change_filter now c f = record f {
  name = maybe c.name f.name (λ name. name);
  query = maybe c.query f.query (λ query. query);
  shared = maybe c.shared f.shared (λ shared. shared);
  updated_at = now;
}

module _ (means : FilterMeans) (db : FilterDb) where
  -- GET of saved-filters
  abbrev list_filters :
      Option PolicyContext → List SavedFilter → Result FilterError (List SavedFilter)
  list_filters context filters = by_user context (λ c. ok (
      sort_filters means.precedes (
        filter (λ f. f.workspace_id === c.workspace_id && (f.owner_id === c.user_id || f.shared))
          filters)))

  -- POST of saved-filters, of a user who is signed in; `id` is the database's new one.
  abbrev pub add_filter :
      String → ℕ → Json → List SavedFilter → PolicyContext → Result FilterError (List SavedFilter)
  add_filter id now body filters c =
      maybe (normalize_saved_query means.maps (field_of "query" body)) (err bad_filter) (λ query.
        maybe (as_bool (field_of "shared" body)) (err bad_filter) (λ shared.
          let name = text_of (field_of "name" body) in
          throw_if (bad_title name) bad_filter
          >> (throw_if (not (validate_saved_query means db c query)) bad_reference
              >> (throw_if (any (is_titled c name) filters) taken_name
                  >> ok (
                      record {
                        id = id;
                        workspace_id = c.workspace_id;
                        owner_id = c.user_id;
                        name = name;
                        query = query;
                        shared = shared;
                        updated_at = now;
                      }
                      ∷ filters)))))

  unfoldable pub create_filter :
      String
      → ℕ
      → Json
      → List SavedFilter
      → Option PolicyContext
      → Result FilterError (List SavedFilter)
  create_filter id now body filters context = by_user context (add_filter id now body filters)

  abbrev pub read_name : Json → Result FilterError (Option String)
  read_name value =
      if is_undefined value
      then ok none
      else throw_if (bad_title (text_of value)) bad_filter_name >> ok (some (text_of value))

  abbrev pub read_query : PolicyContext → Json → Result FilterError (Option SavedQuery)
  read_query c value =
      if is_undefined value
      then ok none
      else maybe (normalize_saved_query means.maps value) (err bad_query) (λ query.
        throw_if (not (validate_saved_query means db c query)) bad_query >> ok (some query))

  abbrev pub read_shared : Json → Result FilterError (Option Bool)
  read_shared value =
      if is_undefined value
      then ok none
      else maybe (as_bool value) (err bad_sharing) (λ shared. ok (some shared))

  abbrev pub read_changes : PolicyContext → Json → Result FilterError FilterChanges
  read_changes c body = read_name (field_of "name" body) >>= λ name.
      read_query c (field_of "query" body) >>= λ query.
      read_shared (field_of "shared" body) >>= λ shared.
      ok (record { name = name; query = query; shared = shared })

  -- The update, which the unique key of workspace, owner and name may refuse.
  abbrev pub update_filter :
      String
      → ℕ
      → FilterChanges
      → List SavedFilter
      → PolicyContext
      → Result FilterError (List SavedFilter)
  update_filter id now changes filters c =
      throw_if (is_absent changes.name && is_absent changes.query && is_absent changes.shared)
        no_changes
      >> (throw_if
            (maybe changes.name false
              (λ name. any (λ f. not (f.id === id) && is_titled c name f) filters))
            taken_name
          >> ok (map (λ f. if f.id === id then change_filter now changes f else f) filters))

  -- PATCH of saved-filters/[id]
  unfoldable pub patch_filter :
      String
      → ℕ
      → Json
      → List SavedFilter
      → Option PolicyContext
      → Result FilterError (List SavedFilter)
  patch_filter id now body filters context = by_user context (λ c.
      throw_if (is_absent (find (is_own c id) filters)) no_filter
      >> (read_changes c body >>= λ changes. update_filter id now changes filters c))

-- DELETE of saved-filters/[id]
unfoldable pub delete_filter :
    String → List SavedFilter → Option PolicyContext → Result FilterError (List SavedFilter)
delete_filter id filters context = by_user context (λ c.
    throw_if (not (any (is_own c id) filters)) no_filter
    >> ok (filter (λ f. not (is_own c id f)) filters))

-- A request of a user that succeeds, from the filters before it to those after it. What it reads of
-- the database is that of its moment.
pub data Served (means : FilterMeans) (c : PolicyContext)
    : List SavedFilter → List SavedFilter → Type 0 where
  created :
      {fs gs : List SavedFilter} (db : FilterDb) (id : String) (now : ℕ) (body : Json)
      → create_filter means db id now body fs (some c) ≡ ok gs
      → Served means c fs gs
  patched :
      {fs gs : List SavedFilter} (db : FilterDb) (id : String) (now : ℕ) (body : Json)
      → patch_filter means db id now body fs (some c) ≡ ok gs
      → Served means c fs gs
  deleted :
      {fs gs : List SavedFilter} (id : String)
      → delete_filter id fs (some c) ≡ ok gs
      → Served means c fs gs

-- Requests of any users, one after another.
pub data FilterHistory (means : FilterMeans) : List SavedFilter → List SavedFilter → Type 0 where
  start : {fs : List SavedFilter} → FilterHistory means fs fs
  then_served :
      {fs hs : List SavedFilter} (gs : List SavedFilter) (c : PolicyContext)
      → FilterHistory means fs gs
      → Served means c gs hs
      → FilterHistory means fs hs
