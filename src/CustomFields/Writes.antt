-- ===== src/CustomFields/Writes.antt =====
-- validateCustomFieldWrites of src/lib/custom-fields.ts: what a write that is accepted holds.
use planeo.Prelude.{
  String, Bool, true, false, not, ◌&&◌, Option, none, some, inl, inr, List, [], ◌∷◌, ◌≡◌, ◌≢◌, refl,
  subst, find, includes, includes_iff, ◌===◌, In, Bool-cases, Option-cases, arith, Result, ok, err,
  >>=-eq-ok,
}
use planeo.Prelude.Json.{Json, keys}
use planeo.CustomFields.{
  Field, Configuration, World, WriteError, applicable, check_keys, normalize_all, normalize_value,
  raw_value, blank, written, supplied_of, validate_custom_field_writes,
}

-- Every key that was supplied is that of a field which is configured and not archived.
check_keys_sound :
    (known : List Configuration) (ids : List String) (id : String)
    → check_keys known ids ≡ ok tt
    → In id ids
    → (c : Configuration) × (find (λ c. c.field.id === id) known ≡ some c)
      × (c.field.archived ≡ false)
unfolding check_keys
check_keys_sound known [] id e m = elim m [ ]
check_keys_sound known (i ∷ ids) id e (inl same) =
    elim (Option-cases (find (λ c. c.field.id === i) known)) [
      | inl missing ↦ absurd (cc (rw (missing, check_keys) at e))
      | inr (c, found) ↦ (c, rw same found, ground arith)
    ]
check_keys_sound known (i ∷ ids) id e (inr m) =
    elim (Option-cases (find (λ c. c.field.id === i) known)) [
      | inl missing ↦ absurd (cc (rw (missing, check_keys) at e))
      | inr (c, found) ↦ check_keys_sound known ids id (ground arith) m
    ]

-- A field is written with the value that was given for it, or its default, in normal form.
abbrev Written : World → List (String × Json) → List (String × Json) → Field → Type 0
Written world supplied values field =
    (v : Json) × (normalize_value world field (raw_value supplied field) ≡ some v)
    × In (field.id, v) values

written-ok :
    (id : String) (o : Option Json) (rest : Result WriteError (List (String × Json)))
    (values : List (String × Json))
    → written id o rest ≡ ok values
    → (v : Json) × (vs : List (String × Json)) × (o ≡ some v)
      × (rest ≡ ok vs)
      × (values ≡ (id, v) ∷ vs)
written-ok id none rest values e = cc
written-ok id (some v) (ok vs) values e = (v, vs, refl, refl, cc)
written-ok id (some v) (err x) values e = cc

normalize_all-Written :
    (world : World) (partial_write : Bool) (supplied : List (String × Json))
    (configurations : List Configuration) (values : List (String × Json)) (c : Configuration)
    → normalize_all world partial_write supplied configurations ≡ ok values
    → In c configurations
    → not partial_write && c.required ≡ true
    → (blank (raw_value supplied c.field) ≡ false) × Written world supplied values c.field
unfolding normalize_all
normalize_all-Written world partial_write supplied [] values c e m needed = elim m [ ]
normalize_all-Written world partial_write supplied (d ∷ ds) values c e (inl same) needed =
    let needed' : not partial_write && d.required ≡ true =
      subst (λ x. not partial_write && x.required ≡ true) same needed in
    elim (Bool-cases (blank (raw_value supplied d.field))) [
      | inl empty ↦ absurd (cc (rw (empty, needed') at e))
      | inr full ↦
          let (v, vs, normal, _, all_values) =
            written-ok d.field.id (normalize_value world d.field (raw_value supplied d.field))
              (normalize_all world partial_write supplied ds) values (rw full at e) in
          rw (same, all_values) (full, (v, normal, inl refl))
    ]
normalize_all-Written world partial_write supplied (d ∷ ds) values c e (inr m) needed =
    elim (Bool-cases (blank (raw_value supplied d.field))) [
      | inl empty ↦
          normalize_all-Written world partial_write supplied ds values c (ground arith) m needed
      | inr full ↦
          let (v, vs, normal, later, all_values) =
            written-ok d.field.id (normalize_value world d.field (raw_value supplied d.field))
              (normalize_all world partial_write supplied ds) values (rw full at e) in
          let (given, (w, n, listed)) =
            normalize_all-Written world partial_write supplied ds vs c later m needed in
          (given, (w, n, rw all_values (inr listed)))
    ]

module _ (world : World) (configurations : List Configuration) (issue_type_id : String)
    (given : Json) (partial_write : Bool) (values : List (String × Json))
    (accepted : validate_custom_field_writes world configurations issue_type_id given partial_write
      ≡ ok values) where
  -- What an accepted write has passed.
  passes :
      (supplied : List (String × Json)) × (supplied_of given ≡ ok supplied)
      × (check_keys (applicable configurations issue_type_id) (keys supplied) ≡ ok tt)
      × (normalize_all world partial_write supplied (applicable configurations issue_type_id)
          ≡ ok values)
  unfolding validate_custom_field_writes
  passes =
      let (supplied, s, e) = >>=-eq-ok (supplied_of given) _ accepted in
      let (_, c, n) =
        >>=-eq-ok (check_keys (applicable configurations issue_type_id) (keys supplied)) _ e in
      (supplied, s, c, n)

  -- An accepted write that is not partial holds a value for each required field of the issue's
  -- type: the one supplied, or else the default, in normal form.
  pub required_written :
      (c : Configuration)
      → In c (applicable configurations issue_type_id)
      → not partial_write && c.required ≡ true
      → (supplied : List (String × Json)) × (v : Json) × (supplied_of given ≡ ok supplied)
        × (normalize_value world c.field (raw_value supplied c.field) ≡ some v)
        × In (c.field.id, v) values
  required_written c m needed =
      let (supplied, s, _, n) = passes in
      let (_, (v, normal, listed)) =
        normalize_all-Written world partial_write supplied (applicable configurations issue_type_id)
          values c n m needed in
      (supplied, v, s, normal, listed)

  -- Every key of an accepted write names a field that is configured for the issue's type and not
  -- archived.
  pub supplied_configured :
      (supplied : List (String × Json)) (id : String)
      → supplied_of given ≡ ok supplied
      → In id (keys supplied)
      → (c : Configuration) × (find
            (λ c. c.field.id === id)
            (applicable configurations issue_type_id)
          ≡ some c)
        × (c.field.archived ≡ false)
  supplied_configured supplied id s m =
      let (other, t, k, _) = passes in
      let same : other ≡ supplied = cc in
      check_keys_sound (applicable configurations issue_type_id) (keys supplied) id (rw (← same) k)
        m

-- A required field without a default that is archived stops every write that is not partial, which
-- is how an issue of its types is created: a value for it is refused, and so is its absence.
pub archived_required_refused :
    (world : World) (configurations : List Configuration) (issue_type_id : String) (given : Json)
    (c : Configuration) (values : List (String × Json))
    → In c (applicable configurations issue_type_id)
    → find (λ d. d.field.id === c.field.id) (applicable configurations issue_type_id) ≡ some c
    → c.required ≡ true
    → c.field.archived ≡ true
    → blank c.field.default_value ≡ true
    → validate_custom_field_writes world configurations issue_type_id given false ≢ ok values
archived_required_refused world configurations issue_type_id given c values m found required
      archived empty accepted =
    let (supplied, s, k, n) =
      passes world configurations issue_type_id given false values accepted in
    elim (Bool-cases (includes (keys supplied) c.field.id)) [
      | inl there ↦
          let (d, again, open_field) =
            check_keys_sound (applicable configurations issue_type_id) (keys supplied) c.field.id k
              ((includes_iff (keys supplied) c.field.id).0 there) in
          let same : d ≡ c = cc in absurd (cc (rw same at open_field))
      | inr absent ↦
          let (full, _) =
            normalize_all-Written world false supplied (applicable configurations issue_type_id)
              values c n m (rw required refl) in
          absurd (cc (rw absent at full))
    ]
