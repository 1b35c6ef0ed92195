-- ===== src/Portal/Forms/Submitted.antt =====
-- validatePortalSubmission of src/lib/service-requests.ts: what an accepted submission holds.
use planeo.Prelude.{
  String, true, false, not, ◌&&◌, Option, none, some, inl, inr, List, [], ◌∷◌, any, includes, In,
  maybe, ok, throw_if_passed, >>=-eq-ok, ◌≡◌, refl, sym, ap, subst, ◌∙◌, Bool-cases,
}
use planeo.Prelude.Json.{Json, as_object, get, keys, is_true}
use planeo.Portal.Forms.{
  PortalField, Value, Runtime, unpublished_field, no_consent, is_visible, value_of, is_missing,
  check_value, submit_field, submit_fields, allowed_keys, asks_consent, parse_portal_schema,
  validate_portal_submission,
}
use planeo.Portal.Forms.Entries.{IsShown, IsFrom, IsFilled, KeepsTo}
use planeo.Portal.Forms.Rules.{is_visible_iff, value_of-IsFrom, not-is_missing, check_value-KeepsTo}

abbrev pub entry_keys : List (String × Value) → List String
entry_keys [] = []
entry_keys ((k, _) ∷ entries) = k ∷ entry_keys entries

module _ (runtime : Runtime) where
  -- A value of a submission that is accepted.
  pub record IsEntry (fields : List PortalField) (supplied : List (String × Json))
      (entry : String × Value) : Type 0 where
    pub field : PortalField
    pub published : In field fields
    pub named : entry.0 ≡ field.key
    pub visible : IsShown supplied field
    pub from : IsFrom supplied field entry.1
    pub filled : IsFilled entry.1
    pub keeps : KeepsTo runtime field entry.1

  IsEntry-cons :
      (f : PortalField) (fs : List PortalField) (supplied : List (String × Json))
      (entry : String × Value)
      → IsEntry fs supplied entry
      → IsEntry (f ∷ fs) supplied entry
  IsEntry-cons f fs supplied entry e = record {
    field = e.field;
    published = inr e.published;
    named = e.named;
    visible = e.visible;
    from = e.from;
    filled = e.filled;
    keeps = e.keeps;
  }

  abbrev Answers : List (String × Json) → PortalField → Option Value → Type 0
  Answers supplied f none = is_visible runtime supplied f ≡ true → f.required ≡ true → ⊥
  Answers supplied f (some v) =
      (is_visible runtime supplied f ≡ true)
      × (v ≡ value_of runtime supplied f)
      × (is_missing runtime v ≡ false)
      × (check_value runtime f v ≡ ok tt)

  submit_field-Answers :
      (supplied : List (String × Json)) (f : PortalField) (given : Option Value)
      → submit_field runtime supplied f ≡ ok given
      → Answers supplied f given
  submit_field-Answers supplied f given e = elim (Bool-cases (is_visible runtime supplied f)) [
    | inr hidden ↦
        let same : none ≡ given = cc (rw hidden at e) in subst (Answers supplied f) same (λ v r. cc)
    | inl shown ↦ elim (Bool-cases (is_missing runtime (value_of runtime supplied f))) [
      | inl blank ↦ elim (Bool-cases f.required) [
        | inl needed ↦ absurd (cc (rw (shown, blank, needed) at e))
        | inr free ↦
            let same : none ≡ given = cc (rw (shown, blank, free) at e) in
            subst (Answers supplied f) same (λ v r. cc)
      ]
      | inr filled ↦
          let (_, passed, e1) =
            >>=-eq-ok (check_value runtime f (value_of runtime supplied f)) _
              (rw (shown, filled) at e) in
          let same : some (value_of runtime supplied f) ≡ given = cc in
          subst (Answers supplied f) same (shown, refl, filled, passed)
    ]
  ]

  -- What the field adds to the values of those after it.
  abbrev add_to : List (String × Value) → String → Option Value → List (String × Value)
  add_to rest key given = maybe given rest (λ v. (key, v) ∷ rest)

  added_value :
      (supplied : List (String × Json)) (f : PortalField) (fs : List PortalField)
      (rest : List (String × Value)) (entry : String × Value) (given : Option Value)
      → Answers supplied f given
      → (In entry rest → IsEntry fs supplied entry)
      → In entry (add_to rest f.key given)
      → IsEntry (f ∷ fs) supplied entry
  added_value supplied f fs rest entry none answers later m =
      IsEntry-cons f fs supplied entry (later m)
  added_value supplied f fs rest entry (some v) answers later (inr m) =
      IsEntry-cons f fs supplied entry (later m)
  added_value supplied f fs rest entry (some v) answers later (inl same) =
      let first : IsEntry (f ∷ fs) supplied (f.key, v) = record {
        field = f;
        published = inl refl;
        named = refl;
        visible = (is_visible_iff runtime supplied f).0 answers.0;
        from = subst (IsFrom supplied f) (sym answers.1) (value_of-IsFrom runtime supplied f);
        filled = not-is_missing runtime v answers.2;
        keeps = check_value-KeepsTo runtime f v tt answers.3;
      } in
      subst (IsEntry (f ∷ fs) supplied) (sym same) first

  added_required :
      (supplied : List (String × Json)) (x f : PortalField) (fs : List PortalField)
      (rest : List (String × Value)) (given : Option Value)
      → Answers supplied x given
      → is_visible runtime supplied f ≡ true
      → f.required ≡ true
      → (In f fs → In f.key (entry_keys rest))
      → In f (x ∷ fs)
      → In f.key (entry_keys (add_to rest x.key given))
  added_required supplied x f fs rest none answers shown needed later (inr m) = later m
  added_required supplied x f fs rest none answers shown needed later (inl same) = absurd (
      answers (subst (λ y. is_visible runtime supplied y ≡ true) same shown)
        (subst (λ (y : PortalField). y.required ≡ true) same needed))
  added_required supplied x f fs rest (some v) answers shown needed later (inr m) = inr (later m)
  added_required supplied x f fs rest (some v) answers shown needed later (inl same) =
      inl (ap (λ (y : PortalField). y.key) same)

  submit_fields-IsEntry :
      (supplied : List (String × Json)) (fs : List PortalField) (values : List (String × Value))
      (entry : String × Value)
      → submit_fields runtime supplied fs ≡ ok values
      → In entry values
      → IsEntry fs supplied entry
  submit_fields-IsEntry supplied [] values entry e m =
      let same : [] ≡ values = cc in absurd (elim (subst (In entry) (sym same) m) [ ])
  submit_fields-IsEntry supplied (f ∷ fs) values entry e m =
      let (given, one, e1) = >>=-eq-ok (submit_field runtime supplied f) _ e in
      let (rest, others, e2) = >>=-eq-ok (submit_fields runtime supplied fs) _ e1 in
      let same : maybe given rest (λ v. (f.key, v) ∷ rest) ≡ values = cc in
      let answers = submit_field-Answers supplied f given one in
      added_value supplied f fs rest entry given answers
        (submit_fields-IsEntry supplied fs rest entry others) (subst (In entry) (sym same) m)

  submit_fields_required :
      (supplied : List (String × Json)) (fs : List PortalField) (values : List (String × Value))
      (f : PortalField)
      → submit_fields runtime supplied fs ≡ ok values
      → In f fs
      → is_visible runtime supplied f ≡ true
      → f.required ≡ true
      → In f.key (entry_keys values)
  submit_fields_required supplied [] values f e m shown needed = absurd (elim m [ ])
  submit_fields_required supplied (x ∷ fs) values f e m shown needed =
      let (given, one, e1) = >>=-eq-ok (submit_field runtime supplied x) _ e in
      let (rest, others, e2) = >>=-eq-ok (submit_fields runtime supplied fs) _ e1 in
      let same : maybe given rest (λ v. (x.key, v) ∷ rest) ≡ values = cc in
      let answers = submit_field-Answers supplied x given one in
      subst (λ es. In f.key (entry_keys es)) same
        (added_required supplied x f fs rest given answers shown needed
          (λ later. submit_fields_required supplied fs rest f others later shown needed) m)

  -- In a submission that is accepted, each value is under the key of a field of the form whose
  -- condition is met. It is the one submitted, or the default of a field without one, or what
  -- Object.prototype has under the field's key; it is neither null nor empty. An attachment is a list
  -- of ten texts at most; of another field, a text has the lengths and matches the pattern that are
  -- set, and the value is one of the options if there are some. Each field that is required and whose
  -- condition is met has a value.
  pub validate_portal_submission-IsEntry :
      (schema values : Json) (consent : Option String) (fields : List PortalField)
      (supplied : List (String × Json)) (entries : List (String × Value))
      → validate_portal_submission runtime schema values consent ≡ ok (fields, entries)
      → as_object values ≡ some supplied
      → ((entry : String × Value) → In entry entries → IsEntry fields supplied entry)
        × ((f : PortalField)
            → In f fields
            → IsShown supplied f
            → f.required ≡ true
            → In f.key (entry_keys entries))
  unfolding validate_portal_submission
  validate_portal_submission-IsEntry schema values consent fields supplied entries e object =
      let (parsed, read, e1) = >>=-eq-ok (parse_portal_schema runtime false schema) _ e in
      let e2 = rw object at e1 in
      let (known, e3) =
        throw_if_passed
          (any (λ key. not (includes (allowed_keys runtime consent parsed) key)) (keys supplied))
          unpublished_field _ e2 in
      let (made, taken, e4) = >>=-eq-ok (submit_fields runtime supplied parsed) _ e3 in
      let (agreed, e5) =
        throw_if_passed (asks_consent runtime consent && not (is_true (get "consent" supplied)))
          no_consent _ e4 in
      let same : parsed ≡ fields = cc in
      let same_values : made ≡ entries = cc in
      let taken' : submit_fields runtime supplied fields ≡ ok entries =
        subst (λ fs. submit_fields runtime supplied fs ≡ ok entries) same
          (taken ∙ ap ok same_values) in
      (
        λ entry stored. submit_fields-IsEntry supplied fields entries entry taken' stored,
        λ f published shown needed.
            submit_fields_required supplied fields entries f taken' published
              ((is_visible_iff runtime supplied f).1 shown) needed,
      )
