-- ===== src/Identity/Passwords.antt =====
-- verifyPassword and hashPassword of src/lib/auth.ts. Texts and bytes are lists of numbers; scrypt
-- and the hexadecimal coding are Node's, with what is documented of them in `HashLaws`.
pub mod Tests
use planeo.Prelude.{
  ℕ, ◌+◌, ◌≤◌, Bool, true, false, not, ◌&&◌, ◌||◌, List, [], ◌∷◌, ◌++◌, ◌≡◌, refl, ap, ◌∙◌, length,
  if◌then◌else◌, ◌==◌, same_units, same_units_iff, codes, String, arith, any,
}

-- `text.split(separator)`, for a separator of one character.
unfoldable pub split_units : ℕ → List ℕ → List (List ℕ)
split_units d [] = [] ∷ []
split_units d (c ∷ s) =
    let rest = split_units d s in
    if c == d
    then [] ∷ rest
    else elim rest [ [] ↦ (c ∷ []) ∷ [] | word ∷ words ↦ (c ∷ word) ∷ words ]

abbrev pub is_blank : List ℕ → Bool
is_blank [] = true
is_blank (_ ∷ _) = false

abbrev pub free_of : ℕ → List ℕ → Bool
free_of d s = not (any (λ c. c == d) s)

pub split_units-free : (d : ℕ) (s : List ℕ) → free_of d s ≡ true → split_units d s ≡ s ∷ []
unfolding split_units
split_units-free d [] h = refl
split_units-free d (c ∷ s) h = ground (arith, split_units-free d s)

-- A text without the separator, the separator, and another text.
pub split_units-append :
    (d : ℕ) (s t : List ℕ) → free_of d s ≡ true → split_units d (s ++ d ∷ t) ≡ s ∷ split_units d t
unfolding split_units
split_units-append d [] t h = ground arith
split_units-append d (c ∷ s) t h = ground (arith, split_units-append d s t)

pub record Hashing : Type 0 where
  pub scrypt : List ℕ → List ℕ → ℕ → List ℕ
  pub to_hex : List ℕ → List ℕ
  pub from_hex : List ℕ → List ℕ

pub record HashLaws (hashing : Hashing) : Type 0 where
  pub scrypt-length : (password salt : List ℕ) (n : ℕ) → length (hashing.scrypt password salt n) ≡ n
  pub from_hex-to_hex : (bytes : List ℕ) → hashing.from_hex (hashing.to_hex bytes) ≡ bytes
  pub to_hex-free : (bytes : List ℕ) → free_of b'$' (hashing.to_hex bytes) ≡ true
  pub to_hex-filled : (bytes : List ℕ) → is_blank (hashing.to_hex bytes) ≡ is_blank bytes

module _ (hashing : Hashing) where
  -- `timingSafeEqual` of two buffers of one length.
  abbrev compare_hash : List ℕ → List ℕ → List ℕ → Bool
  compare_hash password salt_hex hash_hex =
      let expected = hashing.from_hex hash_hex in
      same_units expected (hashing.scrypt password (hashing.from_hex salt_hex) (length expected))

  abbrev verify_parts : List ℕ → List (List ℕ) → Bool
  verify_parts password (algorithm ∷ salt_hex ∷ hash_hex ∷ _) =
      if not (same_units algorithm (codes "scrypt")) || is_blank salt_hex || is_blank hash_hex
      then false
      else compare_hash password salt_hex hash_hex
  verify_parts password _ = false

  unfoldable pub verify_password : List ℕ → List ℕ → Bool
  verify_password password stored = verify_parts password (split_units b'$' stored)

  -- `salt` is what `randomBytes(16)` gives.
  unfoldable pub hash_password : List ℕ → List ℕ → List ℕ
  hash_password salt password =
      codes "scrypt"
      ++ b'$' ∷ (hashing.to_hex salt ++ b'$' ∷ hashing.to_hex (hashing.scrypt password salt 64))

blank_length : (s : List ℕ) (n : ℕ) → length s ≡ n + 1 → is_blank s ≡ false
blank_length [] n h = absurd (omega (arith, h))
blank_length (c ∷ s) n h = refl

-- A password is verified against the hash that was made of it, with any salt that is not empty.
pub verify_password-hash_password :
    (hashing : Hashing) (password salt : List ℕ)
    → HashLaws hashing
    → is_blank salt ≡ false
    → verify_password hashing password (hash_password hashing salt password) ≡ true
unfolding verify_password hash_password
verify_password-hash_password hashing password salt laws salted =
    let salt_hex = hashing.to_hex salt in
    let hash = hashing.scrypt password salt 64 in
    let parts : split_units b'$' (hash_password hashing salt password)
        ≡ codes "scrypt" ∷ salt_hex ∷ hashing.to_hex hash ∷ [] =
      split_units-append b'$' (codes "scrypt") _ refl
      ∙ ap (λ rest. codes "scrypt" ∷ rest)
          (split_units-append b'$' salt_hex _ (laws.to_hex-free salt)
            ∙ ap (λ rest. salt_hex ∷ rest)
                (split_units-free b'$' (hashing.to_hex hash) (laws.to_hex-free hash))) in
    let filled : is_blank hash ≡ false =
      blank_length hash 63 (laws.scrypt-length password salt 64) in
    let verified : compare_hash hashing password salt_hex (hashing.to_hex hash) ≡ true =
      rw (laws.from_hex-to_hex hash, laws.from_hex-to_hex salt, laws.scrypt-length password salt 64)
        ((same_units_iff hash hash).1 refl) in
    rw parts (
      ground (
        arith,
        laws.to_hex-filled salt,
        laws.to_hex-filled hash,
        same_units_iff (codes "scrypt") (codes "scrypt"),
      ))
