-- ===== src/AdvancedQuery/Compile/Dates.antt =====
-- compile of src/lib/advanced-query.ts: when a tree compiles, and which dates it takes.
use planeo.Prelude.{
  ℕ, ◌+◌, ◌<◌, ◌≤◌, Bool, true, false, Option, some, inl, inr, List, [], ◌∷◌, ◌≡◌, refl, ◌↔◌, ok,
  arith, Option-cases, same_units, >>=-eq-ok,
}
use planeo.Prelude.Int.{ℤ}
use planeo.AdvancedQuery.{
  Field, created, updated, due, resolved, Operator, gt, Node, conj, disj, negation, term, CaseMaps,
}
use planeo.AdvancedQuery.Compile.{
  Where, dated, created_at, updated_at, due_date, completed_at, DateColumn, Instant, invalid, above,
  both, either, negated, first, duration, relative, relative_date, date_comparison, compile_term,
  compile, date_test,
}

abbrev pub is_date : Field → Bool
is_date created = true
is_date updated = true
is_date due = true
is_date resolved = true
is_date _ = false

duration-digit : (c : ℕ) (s : List ℕ) (d : ℕ) → duration (c ∷ s) ≡ some d → (b'0' ≤ c) × (c ≤ b'9')
duration-digit c s d e = ground arith

relative-overflow :
    (now c : ℕ) (s : List ℕ) (d : ℕ)
    → duration (c ∷ s) ≡ some d
    → 8640000000000000 < now + d
    → relative now (c ∷ s) ≡ some invalid
relative-overflow now c s d e far = ground (arith, duration-digit c s d)

module _ (maps : CaseMaps) (midnight : List ℕ → Option ℤ) (now : ℕ) where
  -- The value of each term on a date can be read as a date.
  abbrev pub Readable : Node → Type 0
  Readable (term f o values) =
      is_date f ≡ true → (t : Instant) × (relative_date maps midnight now (first values) ≡ some t)
  Readable (negation a) = Readable a
  Readable (conj a b) = Readable a × Readable b
  Readable (disj a b) = Readable a × Readable b

  abbrev Compiles : Node → Type 0
  Compiles a = (w : Where) × (compile maps midnight now a ≡ ok w)

  date-Readable :
      (c : DateColumn) (o : Operator) (value : List ℕ) (w : Where)
      → date_comparison maps midnight now c o value ≡ ok w
      → (t : Instant) × (relative_date maps midnight now value ≡ some t)
  unfolding date_comparison
  date-Readable c o value w e = elim (Option-cases (relative_date maps midnight now value)) [
    | inl missing ↦ absurd (cc (rw missing at e))
    | inr (t, read) ↦ (t, read)
  ]

  date-Compiles :
      (c : DateColumn) (o : Operator) (value : List ℕ) (t : Instant)
      → relative_date maps midnight now value ≡ some t
      → date_comparison maps midnight now c o value ≡ ok (dated c (date_test maps midnight now o t))
  unfolding date_comparison
  date-Compiles c o value t read = rw read

  term-Readable :
      (f : Field) (o : Operator) (values : List (List ℕ)) (w : Where)
      → compile_term maps midnight now f o values ≡ ok w
      → Readable (term f o values)
  unfolding compile_term
  term-Readable f o values w e h = ground (
    arith,
    date-Readable created_at o (first values) w,
    date-Readable updated_at o (first values) w,
    date-Readable due_date o (first values) w,
    date-Readable completed_at o (first values) w,
  )

  term-Compiles :
      (f : Field) (o : Operator) (values : List (List ℕ))
      → Readable (term f o values)
      → (w : Where) × (compile_term maps midnight now f o values ≡ ok w)
  unfolding compile_term
  term-Compiles created o values h =
      let (t, read) = h refl in
      (dated created_at _, date-Compiles created_at o (first values) t read)
  term-Compiles updated o values h =
      let (t, read) = h refl in
      (dated updated_at _, date-Compiles updated_at o (first values) t read)
  term-Compiles due o values h =
      let (t, read) = h refl in (dated due_date _, date-Compiles due_date o (first values) t read)
  term-Compiles resolved o values h =
      let (t, read) = h refl in
      (dated completed_at _, date-Compiles completed_at o (first values) t read)
  term-Compiles _ o values h = (_, refl)

  Readable-of : (a : Node) (w : Where) → compile maps midnight now a ≡ ok w → Readable a
  unfolding compile
  Readable-of (term f o values) w e = term-Readable f o values w e
  Readable-of (negation a) w e =
      let (l, p, _) = >>=-eq-ok (compile maps midnight now a) _ e in Readable-of a l p
  Readable-of (conj a b) w e =
      let (l, p, e') = >>=-eq-ok (compile maps midnight now a) _ e in
      let (r, q, _) = >>=-eq-ok (compile maps midnight now b) _ e' in
      (Readable-of a l p, Readable-of b r q)
  Readable-of (disj a b) w e =
      let (l, p, e') = >>=-eq-ok (compile maps midnight now a) _ e in
      let (r, q, _) = >>=-eq-ok (compile maps midnight now b) _ e' in
      (Readable-of a l p, Readable-of b r q)

  Readable-Compiles : (a : Node) → Readable a → Compiles a
  unfolding compile
  Readable-Compiles (term f o values) h = term-Compiles f o values h
  Readable-Compiles (negation a) h = let (l, p) = Readable-Compiles a h in (negated l, rw p)
  Readable-Compiles (conj a b) (h, k) =
      let (l, p) = Readable-Compiles a h in
      let (r, q) = Readable-Compiles b k in (both l r, rw (p, q))
  Readable-Compiles (disj a b) (h, k) =
      let (l, p) = Readable-Compiles a h in
      let (r, q) = Readable-Compiles b k in (either l r, rw (p, q))

  -- A tree compiles exactly if the value of each of its terms on created, updated, due or resolved
  -- can be read as a date: nothing else of a tree that was parsed is refused.
  pub compile_iff : (a : Node) → ((w : Where) × (compile maps midnight now a ≡ ok w)) ↔ Readable a
  compile_iff a = (λ (w, e). Readable-of a w e, Readable-Compiles a)

  relative_date-overflow :
      (c : ℕ) (s : List ℕ) (d : ℕ)
      → duration (c ∷ s) ≡ some d
      → 8640000000000000 < now + d
      → relative_date maps midnight now (c ∷ s) ≡ some invalid
  unfolding relative_date same_units
  relative_date-overflow c s d e far =
      rw (relative-overflow now c s d e far) (ground (arith, duration-digit c s d))

  -- A relative duration that leads out of the range of `Date` is accepted, and the filter then
  -- holds an invalid date.
  pub overflowing_duration :
      (c : ℕ) (s : List ℕ) (d : ℕ)
      → duration (c ∷ s) ≡ some d
      → 8640000000000000 < now + d
      → compile maps midnight now (term created gt ((c ∷ s) ∷ []))
        ≡ ok (dated created_at (above invalid))
  unfolding compile compile_term
  overflowing_duration c s d e far =
      date-Compiles created_at gt (c ∷ s) invalid (relative_date-overflow c s d e far)
