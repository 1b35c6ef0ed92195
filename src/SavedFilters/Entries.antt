-- ===== src/SavedFilters/Entries.antt =====
-- normalizeSavedQuery of src/lib/saved-filter.ts: what a query that is kept consists of.
use planeo.Prelude.{
  ℕ, ◌≤◌, ◌⊎◌, inl, inr, String, false, not, ◌&&◌, Option, none, some, List, [], ◌∷◌, any, In,
  includes, units, trim, ltb, ◌===◌, ===_iff, ok, ◌≡◌, refl, sym, ap, subst, ◌∙◌, arith, Bool-cases,
  Option-cases, Result-cases,
}
use planeo.Prelude.Json.{Json, undefined, null, bool, num, str, arr, obj, as_object, get, keys}
use planeo.AdvancedQuery.{CaseMaps, Node}
use planeo.AdvancedQuery.Parser.{parse_advanced_query}
use planeo.SavedFilters.{
  query_keys, SavedQuery, query_value, set_value, code_units, read_item, keep_item, read_items,
  version_query, normalize_saved_query,
}

-- The trimmed form of a short text.
abbrev pub IsShort : String → Type 0
IsShort v = (s : String) × (v ≡ trim s) × (units s ≤ 200)

-- What the loop lets in: a key that is known, with the trimmed form of a short text.
abbrev pub IsEntry : String → String → Type 0
IsEntry k v = In k query_keys × IsShort v

-- A query that may be kept; where it has text of the search language, the text parses and the version
-- of the language is set.
pub record IsSaved (maps : CaseMaps) (q : SavedQuery) : Type 0 where
  pub entries : (k v : String) → In (k, v) q → IsEntry k v
  pub versioned : (query_value "query" q ≡ "") ⊎ (query_value "queryVersion" q ≡ "1")
  pub parses :
      (query_value "query" q ≡ "")
      ⊎ (t : Node × ℕ) × (parse_advanced_query maps (code_units (query_value "query" q)) ≡ ok t)

read_item-IsShort : (value : Json) (v : String) → read_item value ≡ some (some v) → IsShort v
read_item-IsShort undefined v e = absurd cc
read_item-IsShort null v e = absurd cc
read_item-IsShort (bool _) v e = absurd cc
read_item-IsShort (num _) v e = absurd cc
read_item-IsShort (arr _) v e = absurd cc
read_item-IsShort (obj _) v e = absurd cc
read_item-IsShort (str s) v e = elim (Bool-cases (s === "")) [
  | inl blank ↦ absurd (cc (rw blank at e))
  | inr given ↦ elim (Bool-cases (ltb 200 (units s))) [
    | inl long ↦ absurd (cc (rw (given, long) at e))
    | inr short ↦
        let same : some (some (trim s)) ≡ some (some v) = rw (given, short) at e in
        (s, cc, ground arith)
  ]
]

parts : (k v j w : String) → Path (String × String) (k, v) (j, w) → (k ≡ j) × (v ≡ w)
parts k v j w same =
    (ap (λ (p : String × String). p.0) same, ap (λ (p : String × String). p.1) same)

In-keep_item :
    (key : String) (item : Option String) (rest : SavedQuery) (k v : String)
    → In (k, v) (keep_item key item rest)
    → ((k ≡ key) × (item ≡ some v)) ⊎ In (k, v) rest
In-keep_item key none rest k v m = inr m
In-keep_item key (some w) rest k v (inl same) =
    let (named, given) = parts k v key w same in inl (named, ap (λ x. some x) (sym given))
In-keep_item key (some w) rest k v (inr m) = inr m

read_items-IsEntry :
    (ks : List String) (source : List (String × Json)) (q : SavedQuery)
    → read_items ks source ≡ some q
    → (k v : String) → In (k, v) q
    → In k ks × IsShort v
read_items-IsEntry [] source q e k v m =
    let same : [] ≡ q = cc in
    let entry : String × String = (k, v) in
    let nothing : In entry [] = subst (λ (xs : SavedQuery). In entry xs) (sym same) m in
    absurd (elim nothing [ ])
read_items-IsEntry (key ∷ ks) source q e k v m = elim (Option-cases (read_item (get key source))) [
  | inl bad ↦ absurd (cc (rw bad at e))
  | inr (item, read) ↦ elim (Option-cases (read_items ks source)) [
    | inl bad ↦ absurd (cc (rw (read, bad) at e))
    | inr (rest, there) ↦
        let e1 : some (keep_item key item rest) ≡ some q = rw (read, there) at e in
        let same : keep_item key item rest ≡ q = cc in
        elim (In-keep_item key item rest k v
          (subst (λ (xs : SavedQuery). In {A = String × String} (k, v) xs) (sym same) m)) [
            | inl (named, given) ↦
                (inl named, read_item-IsShort (get key source) v (read ∙ ap (λ x. some x) given))
            | inr later ↦
                let (here, short) = read_items-IsEntry ks source rest there k v later in
                (inr here, short)
          ]
  ]
]

In-set_value :
    (key value : String) (q : SavedQuery) (k v : String)
    → In (k, v) (set_value key value q)
    → ((k ≡ key) × (v ≡ value)) ⊎ In (k, v) q
In-set_value key value [] k v (inl same) = inl (parts k v key value same)
In-set_value key value [] k v (inr m) = absurd (elim m [ ])
In-set_value key value ((j, w) ∷ q) k v m = elim (Bool-cases (j === key)) [
  | inl here ↦
      let m1 : Path (String × String) (k, v) (j, value) ⊎ In {A = String × String} (k, v) q =
        rw here at m in
      elim m1 [
        | inl same ↦
            let (named, given) = parts k v j value same in
            inl (named ∙ (===_iff j key).0 here, given)
        | inr later ↦ inr (inr later)
      ]
  | inr other ↦
      let m1 : Path (String × String) (k, v) (j, w)
          ⊎ In {A = String × String} (k, v) (set_value key value q) =
        rw other at m in
      elim m1 [
        | inl same ↦ inr (inl same)
        | inr later ↦ elim (In-set_value key value q k v later) [
          | inl set ↦ inl set
          | inr there ↦ inr (inr there)
        ]
      ]
]

query_value-set_value :
    (key value : String) (q : SavedQuery) → query_value key (set_value key value q) ≡ value
query_value-set_value key value [] = rw ((===_iff key key).1 refl) refl
query_value-set_value key value ((j, w) ∷ q) = elim (Bool-cases (j === key)) [
  | inl here ↦ rw (here, here) refl
  | inr other ↦ let reached = query_value-set_value key value q in rw (other) (ground arith)
]

query_value-set_value_other :
    (key other value : String) (q : SavedQuery)
    → (key === other) ≡ false
    → query_value other (set_value key value q) ≡ query_value other q
query_value-set_value_other key other value [] h = rw h refl
query_value-set_value_other key other value ((j, w) ∷ q) h = elim (Bool-cases (j === key)) [
  | inl here ↦
      let same = (===_iff j key).0 here in
      let skips : (j === other) ≡ false = rw same h in rw (here, skips) refl
  | inr past ↦ elim (Bool-cases (j === other)) [
    | inl found ↦ rw (past, found) refl
    | inr skips ↦ rw (past, skips) (query_value-set_value_other key other value q h)
  ]
]

module _ (maps : CaseMaps) where
  set_value-IsSaved :
      (q : SavedQuery) (t : Node × ℕ)
      → ((k v : String) → In (k, v) q → IsEntry k v)
      → parse_advanced_query maps (code_units (query_value "query" q)) ≡ ok t
      → IsSaved maps (set_value "queryVersion" "1" q)
  unfolding trim
  set_value-IsSaved q t known good = record {
    entries = λ k v m. elim (In-set_value "queryVersion" "1" q k v m) [
      | inl (named, given) ↦ (inr (inr (inl named)), ("1", given, omega arith))
      | inr there ↦ known k v there
    ];
    versioned = inr (query_value-set_value "queryVersion" "1" q);
    parses = inr (t, rw (query_value-set_value_other "queryVersion" "query" "1" q refl) good);
  }

  -- The loop's entries, with the version that is set.
  version_query-IsSaved :
      (q r : SavedQuery)
      → ((k v : String) → In (k, v) q → IsEntry k v)
      → version_query maps q ≡ some r
      → IsSaved maps r
  version_query-IsSaved q r known e = elim (Bool-cases (query_value "query" q === "")) [
    | inl plain ↦
        let e1 : some q ≡ some r = rw plain at e in
        let same : q ≡ r = cc in
        let blank = (===_iff (query_value "query" q) "").0 plain in
        subst (IsSaved maps) same
          (record { entries = known; versioned = inl blank; parses = inl blank })
    | inr given ↦
        elim (Bool-cases (
          not (query_value "queryVersion" q === "")
          && not (query_value "queryVersion" q === "1"))) [
            | inl other ↦ absurd (cc (rw (given, other) at e))
            | inr fits ↦
                elim (Result-cases
                  (parse_advanced_query maps (code_units (query_value "query" q)))) [
                    | inl (fault, bad) ↦ absurd (cc (rw (given, fits, bad) at e))
                    | inr (t, good) ↦
                        let e1 : some (set_value "queryVersion" "1" q) ≡ some r =
                          rw (given, fits, good) at e in
                        let same : set_value "queryVersion" "1" q ≡ r = cc in
                        subst (IsSaved maps) same (set_value-IsSaved q t known good)
                  ]
          ]
  ]

  pub normalize_saved_query-IsSaved :
      (value : Json) (q : SavedQuery) → normalize_saved_query maps value ≡ some q → IsSaved maps q
  unfolding normalize_saved_query
  normalize_saved_query-IsSaved value q e = elim (Option-cases (as_object value)) [
    | inl other ↦ absurd (cc (rw other at e))
    | inr (source, given) ↦ elim (Option-cases (read_items query_keys source)) [
      | inl bad ↦ absurd (cc (rw (given, bad) at e))
      | inr (r, read) ↦
          elim (Bool-cases (any (λ key. not (includes query_keys key)) (keys source))) [
            | inl unknown ↦ absurd (cc (rw (given, read, unknown) at e))
            | inr known ↦
                version_query-IsSaved r q (read_items-IsEntry query_keys source r read)
                  (rw (given, read, known) at e)
          ]
    ]
  ]
