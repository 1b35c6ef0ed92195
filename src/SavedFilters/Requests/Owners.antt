-- ===== src/SavedFilters/Requests/Owners.antt =====
-- The handlers of src/app/api/saved-filters: whose filters a request changes.
use planeo.Prelude.{
  ℕ, inl, inr, ◌↔◌, String, Bool, true, false, not, ◌&&◌, some, List, [], ◌∷◌, any, map, find,
  find_sound, filter, In, In-filter, ◌===◌, ===_iff, maybe, is_absent, if◌then◌else◌, ok,
  throw_if_passed, >>=-eq-ok, ◌≡◌, refl, sym, subst, ◌∙◌, arith, Bool-cases, Option-cases,
}
use planeo.Prelude.Json.{Json, field_of}
use planeo.Permissions.{PolicyContext}
use planeo.SavedFilters.{
  FilterDb, SavedFilter, FilterMeans, bad_filter, bad_reference, taken_name, no_filter, no_changes,
  normalize_saved_query, validate_saved_query,
}
use planeo.SavedFilters.Requests.{
  text_of, as_bool, bad_title, is_titled, is_own, FilterChanges, change_filter, add_filter,
  create_filter, read_changes, update_filter, patch_filter, delete_filter, Served, created, patched,
  deleted,
}

abbrev pub is_mine : PolicyContext → SavedFilter → Bool
is_mine c f = f.workspace_id === c.workspace_id && (f.owner_id === c.user_id)

-- The primary key of the filters.
abbrev pub HasUniqueIds : List SavedFilter → Type 0
HasUniqueIds fs = (f g : SavedFilter) → In f fs → In g fs → f.id ≡ g.id → f ≡ g

module _ (p : SavedFilter → Bool) (change : SavedFilter → SavedFilter) where
  In-map_if :
      (f : SavedFilter) (fs : List SavedFilter)
      → In f (map (λ h. if p h then change h else h) fs)
      → (h : SavedFilter) × In h fs × (f ≡ (if p h then change h else h))
  In-map_if f [] m = elim m [ ]
  In-map_if f (h ∷ fs) (inl same) = (h, inl refl, same)
  In-map_if f (h ∷ fs) (inr m) = let (g, there, same) = In-map_if f fs m in (g, inr there, same)

  In-map_unless :
      (f : SavedFilter) (fs : List SavedFilter)
      → p f ≡ false
      → In f fs
      → In f (map (λ h. if p h then change h else h) fs)
  In-map_unless f [] stays m = elim m [ ]
  In-map_unless f (h ∷ fs) stays (inl same) =
      let kept : p h ≡ false = subst (λ x. p x ≡ false) same stays in inl (rw kept same)
  In-map_unless f (h ∷ fs) stays (inr m) = inr (In-map_unless f fs stays m)

module _ (means : FilterMeans) (c : PolicyContext) (f : SavedFilter)
    (others : is_mine c f ≡ false) where
  keeps_others_add_filter :
      (db : FilterDb) (id : String) (now : ℕ) (body : Json) (fs gs : List SavedFilter)
      → add_filter means db id now body fs c ≡ ok gs
      → In f fs ↔ In f gs
  keeps_others_add_filter db id now body fs gs e =
      elim (Option-cases (normalize_saved_query means.maps (field_of "query" body))) [
        | inl bad ↦ absurd (cc (rw bad at e))
        | inr (query, known) ↦ elim (Option-cases (as_bool (field_of "shared" body))) [
          | inl bad ↦ absurd (cc (rw (known, bad) at e))
          | inr (shared, told) ↦
              let name = text_of (field_of "name" body) in
              let (titled, e1) =
                throw_if_passed (bad_title name) bad_filter _ (rw (known, told) at e) in
              let (valid, e2) =
                throw_if_passed (not (validate_saved_query means db c query)) bad_reference _ e1 in
              let (free, e3) = throw_if_passed (any (is_titled c name) fs) taken_name _ e2 in
              let made : SavedFilter = record {
                id = id;
                workspace_id = c.workspace_id;
                owner_id = c.user_id;
                name = name;
                query = query;
                shared = shared;
                updated_at = now;
              } in
              let same : made ∷ fs ≡ gs = cc in
              (
                λ m. subst (In f) same (inr m),
                λ m. elim (subst (In f) (sym same) m) [
                  | inl new ↦
                      let here = (===_iff c.workspace_id c.workspace_id).1 refl in
                      let own = (===_iff c.user_id c.user_id).1 refl in
                      let mine : is_mine c f ≡ true = rw new (ground arith) in absurd cc
                  | inr old ↦ old
                ],
              )
        ]
      ]

  module _ (fs : List SavedFilter) (id : String) where
    -- The filter that has the id of one of the user's filters is the user's.
    not_own_id :
        (existing h : SavedFilter)
        → HasUniqueIds fs
        → find (is_own c id) fs ≡ some existing
        → In h fs
        → (h.id === id) ≡ true
        → is_mine c h ≡ true
    not_own_id existing h unique found m named =
        let (own, there) = find_sound (is_own c id) fs found in
        let e1 = (===_iff h.id id).0 named in
        let own_id : (existing.id === id) ≡ true = ground arith in
        let e2 = (===_iff existing.id id).0 own_id in
        let same = unique h existing m there (e1 ∙ sym e2) in
        let mine : is_mine c existing ≡ true = ground arith in
        subst (λ x. is_mine c x ≡ true) (sym same) mine

    keeps_others_update_filter :
        (existing : SavedFilter) (db : FilterDb) (now : ℕ) (changes : FilterChanges)
        (gs : List SavedFilter)
        → HasUniqueIds fs
        → find (is_own c id) fs ≡ some existing
        → update_filter means db id now changes fs c ≡ ok gs
        → In f fs ↔ In f gs
    keeps_others_update_filter existing db now changes gs unique found e =
        let (given, e1) =
          throw_if_passed
            (is_absent changes.name && is_absent changes.query && is_absent changes.shared)
            no_changes _ e in
        let (free, e2) =
          throw_if_passed
            (maybe changes.name false
              (λ name. any (λ g. not (g.id === id) && is_titled c name g) fs))
            taken_name _ e1 in
        let same : map (λ h. if h.id === id then change_filter now changes h else h) fs ≡ gs = cc in
        subst (λ hs. In f fs ↔ In f hs) same
          (
            λ m. elim (Bool-cases (f.id === id)) [
              | inr other ↦
                  In-map_unless (λ h. h.id === id) (change_filter now changes) f fs other m
              | inl named ↦ absurd (let mine = not_own_id existing f unique found m named in cc)
            ],
            λ m.
                let (h, there, made) =
                  In-map_if (λ h. h.id === id) (change_filter now changes) f fs m in
                elim (Bool-cases (h.id === id)) [
                  | inr other ↦ subst (λ x. In x fs) (sym (rw other at made)) there
                  | inl named ↦
                      let mine = not_own_id existing h unique found there named in
                      let now_so : f ≡ change_filter now changes h = rw named at made in
                      let still : is_mine c f ≡ true = rw now_so mine in absurd cc
                ],
          )

    keeps_others_delete :
        (gs : List SavedFilter) → filter (λ g. not (is_own c id g)) fs ≡ gs → In f fs ↔ In f gs
    keeps_others_delete gs same =
        subst (λ hs. In f fs ↔ In f hs) same
          (
            λ m. (In-filter (λ g. not (is_own c id g)) f fs).1 (m, ground arith),
            λ m. ((In-filter (λ g. not (is_own c id g)) f fs).0 m).0,
          )

  -- Where the ids of filters are unique, a request of a user that succeeds neither adds, nor changes,
  -- nor removes a filter of another user or of another workspace.
  pub Served_keeps_others :
      (fs gs : List SavedFilter) → HasUniqueIds fs → Served means c fs gs → In f fs ↔ In f gs
  unfolding create_filter patch_filter delete_filter
  Served_keeps_others fs gs unique (created db id now body e) =
      keeps_others_add_filter db id now body fs gs e
  Served_keeps_others fs gs unique (patched db id now body e) =
      let (owned, e1) = throw_if_passed (is_absent (find (is_own c id) fs)) no_filter _ e in
      let (changes, read, e2) = >>=-eq-ok (read_changes means db c body) _ e1 in
      elim (Option-cases (find (is_own c id) fs)) [
        | inl missing ↦ absurd (cc (rw missing at owned))
        | inr (existing, found) ↦
            keeps_others_update_filter fs id existing db now changes gs unique found e2
      ]
  Served_keeps_others fs gs unique (deleted id e) =
      let (owned, e1) = throw_if_passed (not (any (is_own c id) fs)) no_filter _ e in
      keeps_others_delete fs id gs cc
