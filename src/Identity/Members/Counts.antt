-- ===== src/Identity/Members/Counts.antt =====
-- Rows of members under an update and a removal by the unique key of the table.
use planeo.Prelude.{
  ◌+◌, ◌≤◌, String, Bool, true, false, not, some, inl, inr, List, [], ◌∷◌, length, filter, find,
  any, ===_iff, ◌≡◌, refl, arith, Bool-cases,
}
use planeo.Identity.{Member, is_member_of}
use planeo.Identity.Members.{update}

-- The unique key of the table.
abbrev pub Keyed : List Member → Type 0
Keyed [] = Unit
Keyed (m ∷ members) = (any (is_member_of m.workspace_id m.user_id) members ≡ false) × Keyed members

any-update :
    (p : Member → Bool) (f : Member → Member) (workspace_id user_id : String)
    (members : List Member)
    → ((m : Member) → ((f m).workspace_id ≡ m.workspace_id) × ((f m).user_id ≡ m.user_id))
    → any (is_member_of workspace_id user_id) (update p f members)
      ≡ any (is_member_of workspace_id user_id) members
any-update p f workspace_id user_id [] same = refl
any-update p f workspace_id user_id (m ∷ members) same =
    let (w, u) = same m in
    let rest = any-update p f workspace_id user_id members same in
    elim (Bool-cases (p m)) [
      | inl hit ↦ rw (hit, w, u, rest) refl
      | inr missed ↦ rw (missed, rest) refl
    ]

pub update-Keyed :
    (p : Member → Bool) (f : Member → Member) (members : List Member)
    → ((m : Member) → ((f m).workspace_id ≡ m.workspace_id) × ((f m).user_id ≡ m.user_id))
    → Keyed members
    → Keyed (update p f members)
update-Keyed p f [] same h = tt
update-Keyed p f (m ∷ members) same h =
    let (w, u) = same m in
    let rest = any-update p f m.workspace_id m.user_id members same in
    let later = update-Keyed p f members same h.1 in
    elim (Bool-cases (p m)) [
      | inl hit ↦ rw hit (rw (w, u, rest) h.0, later)
      | inr missed ↦ rw missed (rw rest h.0, later)
    ]

any-filter_none :
    (p q : Member → Bool) (members : List Member)
    → any q members ≡ false
    → any q (filter p members) ≡ false
any-filter_none p q [] h = refl
any-filter_none p q (m ∷ members) h = ground (arith, any-filter_none p q members)

pub filter-Keyed :
    (p : Member → Bool) (members : List Member) → Keyed members → Keyed (filter p members)
filter-Keyed p [] h = tt
filter-Keyed p (m ∷ members) h = elim (Bool-cases (p m)) [
  | inl hit ↦ rw hit (
    any-filter_none p (is_member_of m.workspace_id m.user_id) members h.0,
    filter-Keyed p members h.1,
  )
  | inr missed ↦ rw missed (filter-Keyed p members h.1)
]

module _ (workspace_id user_id : String) where
  abbrev keyed : Member → Bool
  keyed = is_member_of workspace_id user_id

  -- No other row has the key of one that has it.
  rest_unkeyed :
      (m : Member) (members : List Member)
      → Keyed (m ∷ members)
      → keyed m ≡ true
      → any keyed members ≡ false
  rest_unkeyed m members h e =
      let same : (m.workspace_id ≡ workspace_id) × (m.user_id ≡ user_id) =
        ground (arith, ===_iff m.workspace_id workspace_id, ===_iff m.user_id user_id) in
      let unkeyed = h.0 in rw (same.0, same.1) at unkeyed

  update_untouched :
      (f : Member → Member) (members : List Member)
      → any keyed members ≡ false
      → update keyed f members ≡ members
  update_untouched f [] h = refl
  update_untouched f (m ∷ members) h = ground (arith, update_untouched f members)

  remove_untouched :
      (members : List Member)
      → any keyed members ≡ false
      → filter (λ m. not (keyed m)) members ≡ members
  remove_untouched [] h = refl
  remove_untouched (m ∷ members) h = ground (arith, remove_untouched members)

  module _ (q : Member → Bool) where
    pub filter-update :
        (f : Member → Member) (members : List Member) (m : Member)
        → Keyed members
        → find keyed members ≡ some m
        → q m ≡ false
        → q (f m) ≡ false
        → filter q (update keyed f members) ≡ filter q members
    filter-update f [] m h found out still = cc
    filter-update f (x ∷ members) m h found out still = elim (Bool-cases (keyed x)) [
      | inl hit ↦
          let same : x ≡ m = cc (rw hit at found) in
          rw (hit, same, out, still, update_untouched f members (rest_unkeyed x members h hit)) refl
      | inr missed ↦ ground (arith, filter-update f members m h.1)
    ]

    pub filter-remove :
        (members : List Member) (m : Member)
        → Keyed members
        → find keyed members ≡ some m
        → q m ≡ false
        → filter q (filter (λ y. not (keyed y)) members) ≡ filter q members
    filter-remove [] m h found out = cc
    filter-remove (x ∷ members) m h found out = elim (Bool-cases (keyed x)) [
      | inl hit ↦
          let same : x ≡ m = cc (rw hit at found) in
          rw (hit, same, out, remove_untouched members (rest_unkeyed x members h hit)) refl
      | inr missed ↦ ground (arith, filter-remove members m h.1)
    ]

    pub count-update :
        (f : Member → Member) (members : List Member) (m : Member)
        → Keyed members
        → find keyed members ≡ some m
        → (q m ≡ true → q (f m) ≡ true)
        → length (filter q members) ≤ length (filter q (update keyed f members))
    count-update f [] m h found kept = cc
    count-update f (x ∷ members) m h found kept = elim (Bool-cases (keyed x)) [
      | inl hit ↦
          let same : x ≡ m = cc (rw hit at found) in
          let rest = update_untouched f members (rest_unkeyed x members h hit) in
          let kept_here : q x ≡ true → q (f x) ≡ true = rw same kept in
          rw (hit, rest) (ground (arith, Bool-cases (q x)))
      | inr missed ↦ ground (arith, count-update f members m h.1)
    ]

    pub count-update_one :
        (f : Member → Member) (members : List Member)
        → Keyed members
        → length (filter q members) ≤ length (filter q (update keyed f members)) + 1
    count-update_one f [] h = ground arith
    count-update_one f (x ∷ members) h = elim (Bool-cases (keyed x)) [
      | inl hit ↦
          let rest = update_untouched f members (rest_unkeyed x members h hit) in
          rw (hit, rest) (ground arith)
      | inr missed ↦ ground (arith, count-update_one f members h.1)
    ]

    pub count-remove_one :
        (members : List Member)
        → Keyed members
        → length (filter q members) ≤ length (filter q (filter (λ y. not (keyed y)) members)) + 1
    count-remove_one [] h = ground arith
    count-remove_one (x ∷ members) h = elim (Bool-cases (keyed x)) [
      | inl hit ↦
          let rest = remove_untouched members (rest_unkeyed x members h hit) in
          rw (hit, rest) (ground arith)
      | inr missed ↦ ground (arith, count-remove_one members h.1)
    ]
