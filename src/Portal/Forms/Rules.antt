-- ===== src/Portal/Forms/Rules.antt =====
-- The tests of validatePortalSubmission of src/lib/service-requests.ts on one value ensure what Entries
-- describes.
use planeo.Prelude.{
  ◌⊎◌, inl, inr, String, Bool, true, false, not, ◌&&◌, some, List, [], ◌∷◌, includes, includes_iff,
  In, ◌===◌, ===_iff, ok, throw_if, throw_if_passed, >>=-eq-ok, ◌≡◌, ◌↔◌, refl, sym, ap, subst, ◌∙◌,
  arith, Bool-cases, Option-cases,
}
use planeo.Prelude.Json.{
  Json, Items, undefined, null, bool, num, str, arr, obj, elems, strings, get, keys, or_else,
  same_value,
}
use planeo.Portal.Forms.{
  FieldKind, summary, description, priority, custom, attachment, kind_name, PortalField, Validation,
  FormError, Runtime, Value, own, inherited, prototype_keys, supplied_value, equals_scalar,
  as_own_string, as_own_array, too_short, too_long, bad_uploads, bad_option, of_kind, is_visible,
  value_of, is_missing, are_uploads, is_shorter, is_longer, fails, check_rules, check_text,
  is_chosen, check_value,
}
use planeo.Portal.Forms.Entries.{IsShown, IsFrom, IsFilled, IsUploads, Fits, KeepsTo}

is_attachment_iff : (k : FieldKind) → ((kind_name k === "attachment") ≡ true) ↔ (k ≡ attachment)
is_attachment_iff k = (go k, λ e. rw e refl)
  where
    go : (k : FieldKind) → (kind_name k === "attachment") ≡ true → k ≡ attachment
    go summary e = absurd cc
    go description e = absurd cc
    go priority e = absurd cc
    go custom e = absurd cc
    go attachment e = refl

as_own_string-own :
    (value : Value) (s : String) → as_own_string value ≡ some s → value ≡ own (str s)
as_own_string-own (own (str t)) s e = cc
as_own_string-own (own undefined) s e = absurd cc
as_own_string-own (own null) s e = absurd cc
as_own_string-own (own (bool _)) s e = absurd cc
as_own_string-own (own (num _)) s e = absurd cc
as_own_string-own (own (arr _)) s e = absurd cc
as_own_string-own (own (obj _)) s e = absurd cc
as_own_string-own (inherited key) s e = absurd cc

as_own_array-own :
    (value : Value) (vs : List Json)
    → as_own_array value ≡ some vs
    → (files : Items) × (value ≡ own (arr files)) × (elems files ≡ vs)
as_own_array-own (own (arr files)) vs e = (files, refl, cc)
as_own_array-own (own (str _)) vs e = absurd cc
as_own_array-own (own undefined) vs e = absurd cc
as_own_array-own (own null) vs e = absurd cc
as_own_array-own (own (bool _)) vs e = absurd cc
as_own_array-own (own (num _)) vs e = absurd cc
as_own_array-own (own (obj _)) vs e = absurd cc
as_own_array-own (inherited key) vs e = absurd cc

get-In :
    (key : String) (fields : List (String × Json)) (v : Json)
    → get key fields ≡ v
    → (v ≡ undefined) ⊎ In {A = String × Json} (key, v) fields
get-In key [] v e = inl (sym e)
get-In key ((k, w) ∷ fields) v e = elim (Bool-cases (k === key)) [
  | inl here ↦
      let same = (===_iff k key).0 here in
      let value : w ≡ v = rw here at e in
      let entry : Path (String × Json) (k, w) (key, v) = cc in inr (inl (sym entry))
  | inr other ↦ elim (get-In key fields v (rw other at e)) [
    | inl nothing ↦ inl nothing
    | inr found ↦ inr (inr found)
  ]
]

and_not_lem : (a b : Bool) → not a && b ≡ true → (a ≡ false) × (b ≡ true)
and_not_lem true b e = absurd cc
and_not_lem false b e = (refl, e)

throw_if-ok :
    (bad : Bool) (fault : FormError) (done : Unit {0}) → throw_if bad fault ≡ ok done → bad ≡ false
throw_if-ok false fault done e = refl
throw_if-ok true fault done e = cc

module _ (runtime : Runtime) where
  equals_scalar-own :
      (value : Value) (scalar : Json)
      → equals_scalar value scalar ≡ true
      → (v : Json) × (value ≡ own v) × (same_value v scalar ≡ true)
  equals_scalar-own (own v) scalar e = (v, refl, e)
  equals_scalar-own (inherited key) scalar e = absurd cc

  pub is_visible_iff :
      (supplied : List (String × Json)) (f : PortalField)
      → (is_visible runtime supplied f ≡ true) ↔ IsShown supplied f
  is_visible_iff supplied f = (
    λ e. elim (Option-cases f.visible_when) [
      | inl always ↦ inl always
      | inr (c, asked) ↦
          let (v, given, same) =
            equals_scalar-own (supplied_value supplied c.field_key) c.equals (rw asked at e) in
          inr (c, asked, v, given, same)
    ],
    elim [ inl always ↦ rw always refl | inr (c, asked, v, given, same) ↦ rw (asked, given) same ],
  )

  or_else-cases :
      (value other : Json)
      → (or_else value other ≡ value)
        ⊎ ((or_else value other ≡ other) × ((value ≡ undefined) ⊎ (value ≡ null)))
  or_else-cases undefined other = inr (refl, inl refl)
  or_else-cases null other = inr (refl, inr refl)
  or_else-cases (bool _) other = inl refl
  or_else-cases (num _) other = inl refl
  or_else-cases (str _) other = inl refl
  or_else-cases (arr _) other = inl refl
  or_else-cases (obj _) other = inl refl

  own_value-IsFrom :
      (supplied : List (String × Json)) (f : PortalField)
      → IsFrom supplied f (own (or_else (get f.key supplied) f.default_value))
  own_value-IsFrom supplied f = elim (or_else-cases (get f.key supplied) f.default_value) [
    | inr (default, nothing) ↦ inr (inl (ap own default, nothing))
    | inl kept ↦ elim (get-In f.key supplied (get f.key supplied) refl) [
      | inr there ↦ inl (get f.key supplied, ap own kept, there)
      | inl nothing ↦ inr (inl (rw nothing refl, inl nothing))
    ]
  ]

  pub value_of-IsFrom :
      (supplied : List (String × Json)) (f : PortalField)
      → IsFrom supplied f (value_of runtime supplied f)
  value_of-IsFrom supplied f =
      elim (Bool-cases (not (includes (keys supplied) f.key) && includes prototype_keys f.key)) [
        | inr plain ↦
            let same : own (or_else (get f.key supplied) f.default_value)
                ≡ value_of runtime supplied f =
              rw (plain, value_of) refl in
            subst (IsFrom supplied f) same (own_value-IsFrom supplied f)
        | inl odd ↦
            let same : inherited f.key ≡ value_of runtime supplied f = rw (odd, value_of) refl in
            let (lacking, listed) =
              and_not_lem (includes (keys supplied) f.key) (includes prototype_keys f.key) odd in
            inr (
              inr (
                sym same,
                (includes_iff prototype_keys f.key).0 listed,
                λ m. let there = (includes_iff (keys supplied) f.key).1 m in absurd cc,
              ))
      ]

  pub not-is_missing : (value : Value) → is_missing runtime value ≡ false → IsFilled value
  not-is_missing value h = (
    λ e. let bad : is_missing runtime value ≡ true = rw e refl in absurd cc,
    λ e. let bad : is_missing runtime value ≡ true = rw e refl in absurd cc,
    λ e. let bad : is_missing runtime value ≡ true = rw e refl in absurd cc,
    λ e. let bad : is_missing runtime value ≡ true = rw e refl in absurd cc,
  )

  check_rules-Fits :
      (f : PortalField) (rules : Validation) (s : String) (done : Unit {0})
      → check_rules runtime f rules s ≡ ok done
      → Fits runtime rules s
  check_rules-Fits f rules s done e =
      let (long, e1) =
        throw_if_passed (is_shorter runtime rules.min_length s) (too_short f.label) _ e in
      let (short, e2) =
        throw_if_passed (is_longer runtime rules.max_length s) (too_long f.label) _ e1 in
      record {
        long = λ n given. let passed = rw given at long in ground arith;
        short = λ n given. let passed = rw given at short in ground arith;
        matching = λ p given filled. elim (Bool-cases (runtime.test p s)) [
          | inl good ↦ good
          | inr bad ↦ elim (Bool-cases (fails runtime rules.pattern s)) [
            | inl t ↦ absurd (cc (rw t at e2))
            | inr passed ↦
                let left = rw (given, bad) at passed in
                let blank = (===_iff p "").0 (ground arith) in absurd (filled blank)
          ]
        ];
      }

  is_chosen-In :
      (value : Value) (options : List String)
      → is_chosen runtime (some options) value ≡ true
      → (s : String) × (value ≡ own (str s)) × In s options
  is_chosen-In value options e = elim (Option-cases (as_own_string value)) [
    | inl other ↦ absurd (cc (rw other at e))
    | inr (s, text) ↦
        let found : includes options s ≡ true = rw text at e in
        (s, as_own_string-own value s text, (includes_iff options s).0 found)
  ]

  are_uploads-IsUploads : (value : Value) → are_uploads runtime value ≡ true → IsUploads value
  are_uploads-IsUploads value e = elim (Option-cases (as_own_array value)) [
    | inl other ↦ absurd (cc (rw other at e))
    | inr (vs, list) ↦
        let good = rw list at e in
        let (files, same, elements) = as_own_array-own value vs list in
        elim (Option-cases (strings vs)) [
          | inl bad ↦ absurd (let worse = rw bad at good in ground arith)
          | inr (texts, read) ↦
              (files, same, rw elements (ground arith), (texts, ap strings elements ∙ read))
        ]
  ]

  pub check_value-KeepsTo :
      (f : PortalField) (value : Value) (done : Unit {0})
      → check_value runtime f value ≡ ok done
      → KeepsTo runtime f value
  check_value-KeepsTo f value done e = elim (Bool-cases (of_kind runtime attachment f)) [
    | inl attached ↦
        let is_one = (is_attachment_iff f.kind).0 attached in
        let good =
          throw_if-ok (not (are_uploads runtime value)) (bad_uploads f.label) done
            (rw attached at e) in
        record {
          uploads = λ kind. are_uploads-IsUploads value (ground arith);
          fits = λ rules s other given text. absurd (other is_one);
          chosen = λ options other given. absurd (other is_one);
        }
    | inr other ↦
        let (nothing, texts, e1) = >>=-eq-ok (check_text runtime f value) _ (rw other at e) in
        let listed =
          throw_if-ok (not (is_chosen runtime f.options value)) (bad_option f.label) done e1 in
        record {
          uploads = λ kind. let bad = (is_attachment_iff f.kind).1 kind in absurd cc;
          fits = λ rules s kind given text.
              check_rules-Fits f rules s nothing (rw (text, given) at texts);
          chosen = λ options kind given.
              is_chosen-In value options (let l = rw given at listed in ground arith);
        }
  ]
