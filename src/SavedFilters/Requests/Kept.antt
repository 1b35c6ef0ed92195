-- ===== src/SavedFilters/Requests/Kept.antt =====
-- The handlers of src/app/api/saved-filters: what the filters that are stored look like.
use planeo.Prelude.{
  ℕ, ◌≤◌, inl, inr, String, false, not, ◌&&◌, Option, none, some, List, [], ◌∷◌, any, map, find,
  filter, In, In-filter, units, trim, ◌===◌, ===_iff, maybe, is_absent, if◌then◌else◌, ok,
  throw_if_passed, >>=-eq-ok, ◌≡◌, ◌≢◌, refl, sym, subst, arith, Bool-cases, Option-cases,
}
use planeo.Prelude.Json.{Json, undefined, null, bool, num, str, arr, obj, field_of, is_undefined}
use planeo.Permissions.{PolicyContext}
use planeo.SavedFilters.{
  SavedQuery, FilterDb, SavedFilter, FilterMeans, bad_filter, bad_reference, taken_name, no_filter,
  bad_filter_name, bad_query, no_changes, normalize_saved_query, validate_saved_query,
}
use planeo.SavedFilters.Entries.{IsSaved, normalize_saved_query-IsSaved}
use planeo.SavedFilters.Requests.{
  text_of, as_bool, bad_title, is_titled, is_own, FilterChanges, change_filter, add_filter,
  create_filter, read_name, read_query, read_shared, read_changes, update_filter, patch_filter,
  delete_filter, Served, created, patched, deleted, FilterHistory, start, then_served,
}

-- A trimmed text of 1 to 80 code units.
pub record IsTitle (name : String) : Type 0 where
  pub trimmed : (s : String) × (name ≡ trim s)
  pub given : name ≢ ""
  pub bounded : units name ≤ 80

pub record IsKept (means : FilterMeans) (f : SavedFilter) : Type 0 where
  pub title : IsTitle f.name
  pub saved : IsSaved means.maps f.query

text_of-IsTitle : (value : Json) → bad_title (text_of value) ≡ false → IsTitle (text_of value)
text_of-IsTitle (str s) h = record {
  trimmed = (s, refl);
  given = λ blank. let bad = (===_iff (trim s) "").1 blank in absurd (ground arith);
  bounded = ground arith;
}
text_of-IsTitle undefined h = absurd cc
text_of-IsTitle null h = absurd cc
text_of-IsTitle (bool _) h = absurd cc
text_of-IsTitle (num _) h = absurd cc
text_of-IsTitle (arr _) h = absurd cc
text_of-IsTitle (obj _) h = absurd cc

module _ (means : FilterMeans) where
  abbrev pub AllKept : List SavedFilter → Type 0
  AllKept fs = (f : SavedFilter) → In f fs → IsKept means f

  add_filter-AllKept :
      (db : FilterDb) (id : String) (now : ℕ) (body : Json) (fs gs : List SavedFilter)
      (c : PolicyContext)
      → AllKept fs
      → add_filter means db id now body fs c ≡ ok gs
      → AllKept gs
  add_filter-AllKept db id now body fs gs c kept e f m =
      elim (Option-cases (normalize_saved_query means.maps (field_of "query" body))) [
        | inl bad ↦ absurd (cc (rw bad at e))
        | inr (query, known) ↦ elim (Option-cases (as_bool (field_of "shared" body))) [
          | inl bad ↦ absurd (cc (rw (known, bad) at e))
          | inr (shared, told) ↦
              let name = text_of (field_of "name" body) in
              let (titled, e1) =
                throw_if_passed (bad_title name) bad_filter _ (rw (known, told) at e) in
              let (valid, e2) =
                throw_if_passed (not (validate_saved_query means db c query)) bad_reference _ e1 in
              let (free, e3) = throw_if_passed (any (is_titled c name) fs) taken_name _ e2 in
              let made : SavedFilter = record {
                id = id;
                workspace_id = c.workspace_id;
                owner_id = c.user_id;
                name = name;
                query = query;
                shared = shared;
                updated_at = now;
              } in
              let same : made ∷ fs ≡ gs = cc in
              elim (subst (In f) (sym same) m) [
                | inl new ↦ subst (IsKept means) (sym new) (record {
                  title = text_of-IsTitle (field_of "name" body) titled;
                  saved =
                      normalize_saved_query-IsSaved means.maps (field_of "query" body) query known;
                })
                | inr old ↦ kept f old
              ]
        ]
      ]

  -- Changes that may be written.
  record AreSound (changes : FilterChanges) : Type 0 where
    title : (name : String) → changes.name ≡ some name → IsTitle name
    saved : (query : SavedQuery) → changes.query ≡ some query → IsSaved means.maps query

  read_name-IsTitle :
      (db : FilterDb) (value : Json) (read : Option String) (name : String)
      → read_name means db value ≡ ok read
      → read ≡ some name
      → IsTitle name
  read_name-IsTitle db value read name e given = elim (Bool-cases (is_undefined value)) [
    | inl left_out ↦ let e1 : ok none ≡ ok read = rw left_out at e in absurd cc
    | inr told ↦
        let (titled, e1) =
          throw_if_passed (bad_title (text_of value)) bad_filter_name _ (rw told at e) in
        let same : text_of value ≡ name = cc in subst IsTitle same (text_of-IsTitle value titled)
  ]

  read_query-IsSaved :
      (db : FilterDb) (c : PolicyContext) (value : Json) (read : Option SavedQuery)
      (query : SavedQuery)
      → read_query means db c value ≡ ok read
      → read ≡ some query
      → IsSaved means.maps query
  read_query-IsSaved db c value read query e given = elim (Bool-cases (is_undefined value)) [
    | inl left_out ↦ let e1 : ok none ≡ ok read = rw left_out at e in absurd cc
    | inr told ↦ elim (Option-cases (normalize_saved_query means.maps value)) [
      | inl bad ↦ absurd (cc (rw (told, bad) at e))
      | inr (q, known) ↦
          let (valid, e1) =
            throw_if_passed (not (validate_saved_query means db c q)) bad_query _
              (rw (told, known) at e) in
          let same : q ≡ query = cc in
          subst (IsSaved means.maps) same (normalize_saved_query-IsSaved means.maps value q known)
    ]
  ]

  read_changes-AreSound :
      (db : FilterDb) (c : PolicyContext) (body : Json) (changes : FilterChanges)
      → read_changes means db c body ≡ ok changes
      → AreSound changes
  read_changes-AreSound db c body changes e =
      let (name, e1, r1) = >>=-eq-ok (read_name means db (field_of "name" body)) _ e in
      let (query, e2, r2) = >>=-eq-ok (read_query means db c (field_of "query" body)) _ r1 in
      let (shared, e3, r3) = >>=-eq-ok (read_shared means db (field_of "shared" body)) _ r2 in
      let made : FilterChanges = record { name = name; query = query; shared = shared } in
      let same : made ≡ changes = cc in
      subst AreSound same (record {
        title = λ n given. read_name-IsTitle db (field_of "name" body) name n e1 given;
        saved = λ q given. read_query-IsSaved db c (field_of "query" body) query q e2 given;
      })

  change_filter-IsKept :
      (now : ℕ) (changes : FilterChanges) (f : SavedFilter)
      → AreSound changes
      → IsKept means f
      → IsKept means (change_filter now changes f)
  change_filter-IsKept now changes f sound kept = record {
    title = elim (Option-cases changes.name) [
      | inl same ↦ rw same kept.title
      | inr (name, new) ↦ rw new (sound.title name new)
    ];
    saved = elim (Option-cases changes.query) [
      | inl same ↦ rw same kept.saved
      | inr (query, new) ↦ rw new (sound.saved query new)
    ];
  }

  map_change-AllKept :
      (id : String) (now : ℕ) (changes : FilterChanges) (fs : List SavedFilter)
      → AreSound changes
      → AllKept fs
      → AllKept (map (λ f. if f.id === id then change_filter now changes f else f) fs)
  map_change-AllKept id now changes [] sound kept f m = elim m [ ]
  map_change-AllKept id now changes (g ∷ fs) sound kept f (inr m) =
      map_change-AllKept id now changes fs sound (λ h there. kept h (inr there)) f m
  map_change-AllKept id now changes (g ∷ fs) sound kept f (inl same) =
      subst (IsKept means) (sym same) (elim (Bool-cases (g.id === id)) [
        | inl found ↦ rw found (change_filter-IsKept now changes g sound (kept g (inl refl)))
        | inr other ↦ rw other (kept g (inl refl))
      ])

  update_filter-AllKept :
      (db : FilterDb) (id : String) (now : ℕ) (changes : FilterChanges) (fs gs : List SavedFilter)
      (c : PolicyContext)
      → AreSound changes
      → AllKept fs
      → update_filter means db id now changes fs c ≡ ok gs
      → AllKept gs
  update_filter-AllKept db id now changes fs gs c sound kept e =
      let (given, e1) =
        throw_if_passed
          (is_absent changes.name && is_absent changes.query && is_absent changes.shared) no_changes
          _ e in
      let (free, e2) =
        throw_if_passed
          (maybe changes.name false (λ name. any (λ f. not (f.id === id) && is_titled c name f) fs))
          taken_name _ e1 in
      let same : map (λ f. if f.id === id then change_filter now changes f else f) fs ≡ gs = cc in
      subst AllKept same (map_change-AllKept id now changes fs sound kept)

  Served-AllKept :
      (c : PolicyContext) (fs gs : List SavedFilter)
      → Served means c fs gs
      → AllKept fs
      → AllKept gs
  unfolding create_filter patch_filter delete_filter
  Served-AllKept c fs gs (created db id now body e) kept =
      add_filter-AllKept db id now body fs gs c kept e
  Served-AllKept c fs gs (patched db id now body e) kept =
      let (owned, e1) = throw_if_passed (is_absent (find (is_own c id) fs)) no_filter _ e in
      let (changes, read, e2) = >>=-eq-ok (read_changes means db c body) _ e1 in
      update_filter-AllKept db id now changes fs gs c (read_changes-AreSound db c body changes read)
        kept e2
  Served-AllKept c fs gs (deleted id e) kept =
      let (owned, e1) = throw_if_passed (not (any (is_own c id) fs)) no_filter _ e in
      let same : filter (λ f. not (is_own c id f)) fs ≡ gs = cc in
      subst AllKept same (λ f m. kept f ((In-filter (λ g. not (is_own c id g)) f fs).0 m).0)

  -- Whatever requests users make one after another, each filter that is stored keeps a trimmed title
  -- of 1 to 80 code units and a query of known keys with trimmed values of short texts, whose text of
  -- the search language, if it has one, parses and has its version set to 1.
  pub FilterHistory-AllKept :
      (fs gs : List SavedFilter) → FilterHistory means fs gs → AllKept fs → AllKept gs
  FilterHistory-AllKept fs gs start kept = kept
  FilterHistory-AllKept fs gs (then_served hs c before served) kept =
      Served-AllKept c hs gs served (FilterHistory-AllKept fs hs before kept)
