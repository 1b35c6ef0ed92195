-- ===== src/AdvancedQuery/Parser/Cost/Descent.antt =====
-- parseAdvancedQuery of src/lib/advanced-query.ts: what each function of the descent ensures.
use planeo.Prelude.{
  ℕ, zero, suc, ◌+◌, ◌*◌, ◌≤◌, ◌<◌, false, some, List, [], ◌∷◌, ◌≡◌, ◌≢◌, refl, length, Result, ok,
  err, ◌>>=◌, ltb, if_both, if_with, maybe_both, same_units, same_units_iff, find_sound, arith,
  codes, find,
}
use planeo.AdvancedQuery.{
  max_query_cost, field_name, query_fields, Field, Operator, Node, conj, disj, term, Token,
  QueryError, unfinished, CaseMaps,
}
use planeo.AdvancedQuery.Parser.{
  term_weight, list_weight, read_values, take_word, expect, read_field, read_operator, read_operand,
  plain_operator, operator_name, operators, single, check_cost, read_term, expression, or_loop,
  conjunction, and_loop, unary, is_one_of, takes_list,
}
use planeo.AdvancedQuery.Parser.Cost.{
  Named, Priced, Priced-conj, Priced-disj, Priced-negation, term_weight-pos, ltb-false, cost_of,
}

-- The error is one of the language's, and a result has the property.
abbrev pub Ensures : {A : Type 0} → (A → Type 0) → Result QueryError A → Type 0
Ensures Q (ok a) = Q a
Ensures Q (err e) = e.fault ≢ unfinished

pub Ensures-bind :
    {A B : Type 0} (Q : A → Type 0) (R : B → Type 0) (m : Result QueryError A)
    (f : A → Result QueryError B)
    → Ensures Q m
    → ((a : A) → Q a → Ensures R (f a))
    → Ensures R (m >>= f)
Ensures-bind Q R (ok a) f q h = h a q
Ensures-bind Q R (err e) f q h = q

-- At most `n` tokens are left.
abbrev pub Left : {A : Type 0} → ℕ → A × List Token → Type 0
Left n (a, rest) = length rest ≤ n

-- Fewer than `n` tokens are left, and the tree is priced.
abbrev pub Tree : CaseMaps → ℕ → ℕ → Node × List Token × ℕ → Type 0
Tree maps n cost (node, rest, after) = (length rest < n) × Priced maps.lower cost node after

shrink :
    (maps : CaseMaps) (a b cost : ℕ)
    → a < b
    → (m : Result QueryError (Node × List Token × ℕ)) → Ensures (Tree maps (suc a) cost) m
    → Ensures (Tree maps b cost) m
shrink maps a b cost h (ok (node, rest, after)) (less, p) = (omega arith, p)
shrink maps a b cost h (err e) q = q

read_values-Left :
    (upper : List ℕ → List ℕ) (end n : ℕ) (tokens : List Token)
    → length tokens ≤ n
    → Ensures (Left n) (read_values upper end tokens)
unfolding read_values
read_values-Left upper end n [] h = λ e. cc
read_values-Left upper end n (v ∷ []) h =
    if_both (Ensures (Left n)) (is_one_of (codes "),") v.value) (λ e. cc) (omega arith)
read_values-Left upper end n (v ∷ c ∷ rest) h =
    if_both (Ensures (Left n)) (is_one_of (codes "),") v.value) (λ e. cc)
      (if_both (Ensures (Left n)) (same_units (upper c.value) (codes ","))
        (Ensures-bind (Left n) (Left n) (read_values upper end rest) _
          (read_values-Left upper end n rest (omega arith)) (λ a q. q))
        (omega arith))

module _ (maps : CaseMaps) (end : ℕ) where
  take_word-length :
      (word : List ℕ) (tokens : List Token) {rest : List Token}
      → take_word maps end word tokens ≡ some rest
      → length rest < length tokens
  unfolding take_word
  take_word-length word [] e = cc
  take_word-length word (t ∷ tokens) e = ground arith

  expect-Ensures :
      (word : List ℕ) (n : ℕ) (tokens : List Token)
      → length tokens ≤ n
      → Ensures (λ rest. length rest ≤ n) (expect maps end word tokens)
  unfolding expect
  expect-Ensures word n tokens h =
      maybe_both (Ensures (λ rest. length rest ≤ n)) (take_word maps end word tokens) (λ e. cc)
        (λ rest found. omega (arith, take_word-length word tokens found))

  plain_operator-Left :
      (t : Token) (n : ℕ) (rest : List Token)
      → length rest ≤ n
      → Ensures (Left n) (plain_operator maps end t rest)
  unfolding plain_operator
  plain_operator-Left t n rest h =
      maybe_both (Ensures (Left n))
        (find (λ o. same_units (operator_name o) (maps.upper t.value)) operators) (λ e. cc)
        (λ o _. h)

  read_operator-Left :
      (t : Token) (n : ℕ) (rest : List Token)
      → length rest ≤ n
      → Ensures (Left n) (read_operator maps end t rest)
  unfolding read_operator
  read_operator-Left t n rest h =
      if_both (Ensures (Left n)) (same_units (maps.upper t.value) (codes "NOT"))
        (maybe_both (Ensures (Left n)) (take_word maps end (codes "IN") rest)
          (plain_operator-Left t n rest h)
          (λ after found. omega (arith, take_word-length (codes "IN") rest found)))
        (plain_operator-Left t n rest h)

  single-Left :
      (n : ℕ) (tokens : List Token) → length tokens ≤ n → Ensures (Left n) (single maps end tokens)
  unfolding single
  single-Left n [] h = λ e. cc
  single-Left n (v ∷ rest) h =
      if_both (Ensures (Left n)) (is_one_of (codes "(),") v.value) (λ e. cc) (omega arith)

  read_operand-Left :
      (o : Operator) (n : ℕ) (tokens : List Token)
      → length tokens ≤ n
      → Ensures (Left n) (read_operand maps end o tokens)
  unfolding read_operand
  read_operand-Left o n tokens h =
      let S = λ (rest : List Token). length rest ≤ n in
      if_both (Ensures (Left n)) (takes_list o)
        (Ensures-bind S (Left n) (expect maps end (codes "(") tokens) _
          (expect-Ensures (codes "(") n tokens h)
          (λ opened q.
            Ensures-bind (Left n) (Left n) (read_values maps.upper end opened) _
              (read_values-Left maps.upper end n opened q)
              (λ (values, rest) q'.
                Ensures-bind S (Left n) (expect maps end (codes ")") rest) _
                  (expect-Ensures (codes ")") n rest q') (λ closed q''. q''))))
        (single-Left n tokens h)

  priced :
      (cost l w : ℕ) (f : Field) (o : Operator) (values : List (List ℕ))
      → l + w ≡ cost_of (term f o values)
      → 1 ≤ w
      → Named maps.lower (term f o values)
      → ltb max_query_cost (cost + l + w) ≡ false
      → Priced maps.lower cost (term f o values) (cost + l + w)
  priced cost l w f o values e h named within =
      let e' : cost + l + w ≡ cost + cost_of (term f o values) = omega (arith, e) in
      let h' : cost + l + w ≤ max_query_cost = ltb-false max_query_cost (cost + l + w) within in
      record {
        exact = e';
        limited = omega (arith, h', h);
        named = named;
        over = omega (arith, h', h);
      }

  read_field-names :
      (value : List ℕ) {f : Field}
      → read_field maps end value ≡ some f
      → (v : List ℕ) × (field_name f ≡ maps.lower v)
  unfolding read_field
  read_field-names value {f = f} e = (
    value,
    (same_units_iff (field_name f) (maps.lower value)).0
        (find_sound (λ x. same_units (field_name x) (maps.lower value)) query_fields e).0,
  )

  check_cost-Tree :
      (offset n : ℕ) (f : Field) (o : Operator) (values : List (List ℕ)) (rest : List Token)
      (cost : ℕ)
      → length rest < n
      → Named maps.lower (term f o values)
      → Ensures (Tree maps n cost) (check_cost maps end offset f o values rest cost)
  unfolding check_cost
  check_cost-Tree offset n f o values rest cost h named =
      if_with (Ensures (Tree maps n cost))
        (ltb max_query_cost (cost + list_weight o values + term_weight f o)) (λ _ e. cc)
        (λ within. (
          h,
          priced cost (list_weight o values) (term_weight f o) f o values refl (term_weight-pos f o)
              named within,
        ))

  read_term-Tree :
      (tokens : List Token) (cost : ℕ)
      → Ensures (Tree maps (length tokens) cost) (read_term maps end tokens cost)
  unfolding read_term
  read_term-Tree [] cost = λ e. cc
  read_term-Tree (t ∷ []) cost =
      maybe_both (Ensures (Tree maps 1 cost)) (read_field maps end t.value) (λ e. cc) (λ f _ e. cc)
  read_term-Tree (t ∷ u ∷ rest) cost =
      let n = length rest in
      let R = Tree maps (suc (suc n)) cost in
      maybe_both (Ensures R) (read_field maps end t.value) (λ e. cc)
        (λ f found.
          Ensures-bind (Left n) R (read_operator maps end u rest) _
            (read_operator-Left u n rest (omega arith))
            (λ (o, after) q.
              Ensures-bind (Left n) R (read_operand maps end o after) _
                (read_operand-Left o n after q)
                (λ (values, left) q'.
                  check_cost-Tree t.offset (suc (suc n)) f o values left cost (omega arith)
                    (read_field-names t.value found))))

  mutual
    unfolding expression or_loop conjunction and_loop unary

    pub expression-Tree :
        (fuel : ℕ) (tokens : List Token) (cost : ℕ)
        → 5 * length tokens + 3 ≤ fuel
        → Ensures (Tree maps (length tokens) cost) (expression maps end fuel tokens cost)
    expression-Tree zero tokens cost h = absurd (omega arith)
    expression-Tree (suc fuel) tokens cost h =
        Ensures-bind (Tree maps (length tokens) cost) (Tree maps (length tokens) cost)
          (conjunction maps end fuel tokens cost) _
          (conjunction-Tree fuel tokens cost (omega arith))
          (λ (node, rest, c) (less, p).
            shrink maps (length rest) (length tokens) cost less (or_loop maps end fuel node rest c)
              (or_loop-Tree fuel node rest cost c p (omega arith)))

    or_loop-Tree :
        (fuel : ℕ) (node : Node) (tokens : List Token) (before cost : ℕ)
        → Priced maps.lower before node cost
        → 5 * length tokens + 1 ≤ fuel
        → Ensures (Tree maps (suc (length tokens)) before) (or_loop maps end fuel node tokens cost)
    or_loop-Tree zero node tokens before cost p h = absurd (omega arith)
    or_loop-Tree (suc fuel) node tokens before cost p h =
        let R = Tree maps (suc (length tokens)) before in
        maybe_both (Ensures R) (take_word maps end (codes "OR") tokens) (omega arith, p)
          (λ rest found.
            let shorter = take_word-length (codes "OR") tokens found in
            Ensures-bind (Tree maps (length rest) cost) R (conjunction maps end fuel rest cost) _
              (conjunction-Tree fuel rest cost (omega (arith, shorter)))
              (λ (right, after, c) (less, q).
                shrink maps (length after) (suc (length tokens)) before
                  (omega (arith, less, shorter))
                  (or_loop maps end fuel (disj node right) after (c + 3))
                  (or_loop-Tree fuel (disj node right) after before (c + 3)
                    (Priced-disj node right p q) (omega (arith, less, shorter)))))

    conjunction-Tree :
        (fuel : ℕ) (tokens : List Token) (cost : ℕ)
        → 5 * length tokens + 2 ≤ fuel
        → Ensures (Tree maps (length tokens) cost) (conjunction maps end fuel tokens cost)
    conjunction-Tree zero tokens cost h = absurd (omega arith)
    conjunction-Tree (suc fuel) tokens cost h =
        Ensures-bind (Tree maps (length tokens) cost) (Tree maps (length tokens) cost)
          (unary maps end fuel tokens cost) _ (unary-Tree fuel tokens cost (omega arith))
          (λ (node, rest, c) (less, p).
            shrink maps (length rest) (length tokens) cost less (and_loop maps end fuel node rest c)
              (and_loop-Tree fuel node rest cost c p (omega arith)))

    and_loop-Tree :
        (fuel : ℕ) (node : Node) (tokens : List Token) (before cost : ℕ)
        → Priced maps.lower before node cost
        → 5 * length tokens + 1 ≤ fuel
        → Ensures (Tree maps (suc (length tokens)) before) (and_loop maps end fuel node tokens cost)
    and_loop-Tree zero node tokens before cost p h = absurd (omega arith)
    and_loop-Tree (suc fuel) node tokens before cost p h =
        let R = Tree maps (suc (length tokens)) before in
        maybe_both (Ensures R) (take_word maps end (codes "AND") tokens) (omega arith, p)
          (λ rest found.
            let shorter = take_word-length (codes "AND") tokens found in
            Ensures-bind (Tree maps (length rest) cost) R (unary maps end fuel rest cost) _
              (unary-Tree fuel rest cost (omega (arith, shorter)))
              (λ (right, after, c) (less, q).
                shrink maps (length after) (suc (length tokens)) before
                  (omega (arith, less, shorter))
                  (and_loop maps end fuel (conj node right) after (c + 1))
                  (and_loop-Tree fuel (conj node right) after before (c + 1)
                    (Priced-conj node right p q) (omega (arith, less, shorter)))))

    unary-Tree :
        (fuel : ℕ) (tokens : List Token) (cost : ℕ)
        → 5 * length tokens + 1 ≤ fuel
        → Ensures (Tree maps (length tokens) cost) (unary maps end fuel tokens cost)
    unary-Tree zero tokens cost h = absurd (omega arith)
    unary-Tree (suc fuel) tokens cost h =
        let R = Tree maps (length tokens) cost in
        maybe_both (Ensures R) (take_word maps end (codes "NOT") tokens)
          (maybe_both (Ensures R) (take_word maps end (codes "(") tokens)
            (read_term-Tree tokens cost)
            (λ rest found.
              let shorter = take_word-length (codes "(") tokens found in
              Ensures-bind (Tree maps (length rest) cost) R (expression maps end fuel rest cost) _
                (expression-Tree fuel rest cost (omega (arith, shorter)))
                (λ (node, after, c) (less, q).
                  Ensures-bind (λ closed. length closed ≤ length rest) R
                    (expect maps end (codes ")") after) _
                    (expect-Ensures (codes ")") (length rest) after (omega (arith, less)))
                    (λ closed fewer. (omega (arith, fewer, shorter), q)))))
          (λ rest found.
            let shorter = take_word-length (codes "NOT") tokens found in
            Ensures-bind (Tree maps (length rest) (cost + 2)) R
              (unary maps end fuel rest (cost + 2)) _
              (unary-Tree fuel rest (cost + 2) (omega (arith, shorter)))
              (λ (node, after, c) (less, q).
                (omega (arith, less, shorter), Priced-negation node q)))
