-- ===== src/AdvancedQuery/Lexer.antt =====
-- tokenize of src/lib/advanced-query.ts.
use planeo.Prelude.{
  ℕ, zero, suc, ◌+◌, ◌-◌, ◌≤◌, ◌<◌, Bool, not, ◌&&◌, ◌||◌, Option, none, some, List, [], ◌∷◌, ◌≡◌,
  ◌≢◌, length, Result, ok, err, if◌then◌else◌, ◌==◌, is_space, if_both, arith,
}
use planeo.AdvancedQuery.{Token, QueryError, Fault, unterminated, invalid_character, unfinished}

-- [(),]
abbrev is_punctuation : ℕ → Bool
is_punctuation c = c == b'(' || c == b')' || c == b','

-- [^\s(),=<>!~]
abbrev is_word : ℕ → Bool
is_word c = not (
    is_space c || is_punctuation c || c == b'=' || c == b'<' || c == b'>' || c == b'!' || c == b'~')

-- The length of the comparison operator that a text begins with, or 0.
abbrev operator_length : ℕ → List ℕ → ℕ
operator_length c [] = if c == b'=' || c == b'>' || c == b'<' || c == b'~' then 1 else 0
operator_length c (d ∷ _) =
    if (c == b'>' || c == b'<' || c == b'!') && (d == b'=')
    then 2
    else if c == b'=' || c == b'>' || c == b'<' || c == b'~'
    then 1
    else 0

-- The longest word at the front, and the rest.
unfoldable pub span_word : List ℕ → List ℕ × List ℕ
span_word [] = ([], [])
span_word (c ∷ s) =
    let more = span_word s in if is_word c then (c ∷ more.0, more.1) else ([], c ∷ s)

abbrev prepend : ℕ → Option (List ℕ × List ℕ) → Option (List ℕ × List ℕ)
prepend c none = none
prepend c (some (v, r)) = some (c ∷ v, r)

-- The text up to the closing quote, with backslashes resolved, and the rest; `none` where the
-- quote is not closed.
unfoldable pub quoted : List ℕ → Option (List ℕ × List ℕ)
quoted [] = none
quoted (c ∷ []) = if c == b'"' then some ([], []) else none
quoted (c ∷ d ∷ s) =
    let escaped = prepend d (quoted s) in
    let plain = prepend c (quoted (d ∷ s)) in
    if c == b'"' then some ([], d ∷ s) else if c == 92 then escaped else plain

abbrev keep : Token → Result QueryError (List Token) → Result QueryError (List Token)
keep t (ok ts) = ok (t ∷ ts)
keep t (err e) = err e

-- What stands at the front of a text: white space, a token or nothing that the language has.
pub data Lexeme : Type 0 where
  blank : List ℕ → Lexeme
  lexeme : List ℕ → List ℕ → Lexeme
  bad : Fault → Lexeme

abbrev two_units : ℕ → List ℕ → Lexeme
two_units c [] = bad invalid_character
two_units c (d ∷ r) = lexeme (c ∷ d ∷ []) r

abbrev closed : Option (List ℕ × List ℕ) → Lexeme
closed none = bad unterminated
closed (some (v, r)) = lexeme v r

-- One round of the loop, at a character and what follows it.
unfoldable pub lex : ℕ → List ℕ → Lexeme
unfolding quoted span_word
lex c s =
    if is_space c
    then blank s
    else if is_punctuation c
    then lexeme (c ∷ []) s
    else if operator_length c s == 2
    then two_units c s
    else if operator_length c s == 1
    then lexeme (c ∷ []) s
    else if c == b'"'
    then closed (quoted s)
    else if is_word c
    then lexeme (c ∷ (span_word s).0) (span_word s).1
    else bad invalid_character

-- What the loop does with a lexeme, given the loop for the rest.
abbrev scan_lexeme :
    (List ℕ → Result QueryError (List Token)) → ℕ → Lexeme → Result QueryError (List Token)
scan_lexeme rest offset (blank r) = rest r
scan_lexeme rest offset (lexeme v r) = keep (record { value = v; offset = offset }) (rest r)
scan_lexeme rest offset (bad f) = err (record { fault = f; offset = offset })

-- The loop; an offset is what the source's length leaves after the rest.
unfoldable pub scan : ℕ → ℕ → List ℕ → Result QueryError (List Token)
scan zero total s = err (record { fault = unfinished; offset = 0 })
scan (suc fuel) total [] = ok []
scan (suc fuel) total (c ∷ s) = scan_lexeme (scan fuel total) (total - length (c ∷ s)) (lex c s)

unfoldable pub tokenize : List ℕ → Result QueryError (List Token)
unfolding scan lex
tokenize source = scan (length source + 1) (length source) source

-- The error says that the fuel ran out.
abbrev pub RanOut : {A : Type 0} → Result QueryError A → Type 0
RanOut (ok _) = ⊥
RanOut (err e) = e.fault ≡ unfinished

length-span_word : (s : List ℕ) → length (span_word s).1 ≤ length s
unfolding span_word
length-span_word [] = omega arith
length-span_word (c ∷ s) = ground (arith, length-span_word s)

abbrev AtMost : ℕ → Option (List ℕ × List ℕ) → Type 0
AtMost n none = Unit
AtMost n (some (v, r)) = length r ≤ n

AtMost-prepend :
    (c m n : ℕ) (o : Option (List ℕ × List ℕ)) → m ≤ n → AtMost m o → AtMost n (prepend c o)
AtMost-prepend c m n none le h = tt
AtMost-prepend c m n (some (v, r)) le h = omega arith

quoted-AtMost : (s : List ℕ) → AtMost (length s) (quoted s)
unfolding quoted
quoted-AtMost [] = tt
quoted-AtMost (c ∷ []) = if_both (AtMost 1) (c == b'"') (omega arith) tt
quoted-AtMost (c ∷ d ∷ s) =
    let n = length (c ∷ d ∷ s) in
    if_both (AtMost n) (c == b'"') (omega arith) (
      if_both (AtMost n) (c == 92)
        (AtMost-prepend d (length s) n (quoted s) (omega arith) (quoted-AtMost s))
        (AtMost-prepend c (length (d ∷ s)) n (quoted (d ∷ s)) (omega arith)
          (quoted-AtMost (d ∷ s))))

-- The rest after a lexeme is shorter, and no lexeme is the model's own fault.
abbrev Shorter : ℕ → Lexeme → Type 0
Shorter n (blank r) = length r ≤ n
Shorter n (lexeme v r) = length r ≤ n
Shorter n (bad f) = f ≢ unfinished

invalid-ne-unfinished : invalid_character ≢ unfinished
invalid-ne-unfinished e = cc

two_units-Shorter : (c : ℕ) (s : List ℕ) → Shorter (length s) (two_units c s)
two_units-Shorter c [] = invalid-ne-unfinished
two_units-Shorter c (d ∷ r) = omega arith

closed-Shorter : (n : ℕ) (o : Option (List ℕ × List ℕ)) → AtMost n o → Shorter n (closed o)
closed-Shorter n none h = λ e. cc
closed-Shorter n (some (v, r)) h = h

lex-Shorter : (c : ℕ) (s : List ℕ) → Shorter (length s) (lex c s)
unfolding lex
lex-Shorter c s =
    let P = Shorter (length s) in
    if_both P (is_space c) (omega arith) (
      if_both P (is_punctuation c) (omega arith) (
        if_both P (operator_length c s == 2) (two_units-Shorter c s) (
          if_both P (operator_length c s == 1) (omega arith) (
            if_both P (c == b'"') (closed-Shorter (length s) (quoted s) (quoted-AtMost s))
              (if_both P (is_word c) (length-span_word s) invalid-ne-unfinished)))))

keep-RanOut : (t : Token) (r : Result QueryError (List Token)) → ¬ RanOut r → ¬ RanOut (keep t r)
keep-RanOut t (ok ts) h = h
keep-RanOut t (err e) h = h

scan_lexeme_ends :
    (rest : List ℕ → Result QueryError (List Token)) (offset n : ℕ) (x : Lexeme)
    → Shorter n x
    → ((r : List ℕ) → length r ≤ n → ¬ RanOut (rest r))
    → ¬ RanOut (scan_lexeme rest offset x)
scan_lexeme_ends rest offset n (blank r) h ih = ih r h
scan_lexeme_ends rest offset n (lexeme v r) h ih = keep-RanOut _ (rest r) (ih r h)
scan_lexeme_ends rest offset n (bad f) h ih = h

scan_ends : (fuel total : ℕ) (s : List ℕ) → length s < fuel → ¬ RanOut (scan fuel total s)
unfolding scan
scan_ends zero total s h = absurd (omega arith)
scan_ends (suc fuel) total [] h = λ e. e
scan_ends (suc fuel) total (c ∷ s) h =
    scan_lexeme_ends (scan fuel total) _ (length s) (lex c s) (lex-Shorter c s)
      (λ r le. scan_ends fuel total r (omega arith))

-- The loop over the source ends: a token or a space takes at least one character of it.
pub tokenize_ends : (source : List ℕ) → ¬ RanOut (tokenize source)
unfolding tokenize
tokenize_ends source = scan_ends (length source + 1) (length source) source (omega arith)
