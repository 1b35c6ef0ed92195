-- ===== src/Identity/Passwords/Tests.antt =====
-- A run of verifyPassword and hashPassword of src/lib/auth.ts, with a hash that repeats a unit.
use planeo.Prelude.{
  ℕ, ◌+◌, ◌-◌, suc, zero, true, List, [], ◌∷◌, ◌≡◌, refl, length, map, codes, arith,
}
use planeo.Identity.Passwords.{
  Hashing, HashLaws, free_of, is_blank, verify_password, hash_password,
  verify_password-hash_password,
}

abbrev replicate : ℕ → ℕ → List ℕ
replicate zero c = []
replicate (suc n) c = c ∷ replicate n c

length-replicate : (n c : ℕ) → length (replicate n c) ≡ n
length-replicate zero c = refl
length-replicate (suc n) c = omega (arith, length-replicate n c)

-- Each byte is one unit, above the digits.
abbrev to_hex : List ℕ → List ℕ
to_hex bytes = map (λ c. c + 48) bytes

abbrev from_hex : List ℕ → List ℕ
from_hex text = map (λ c. c - 48) text

from_hex-to_hex : (bytes : List ℕ) → from_hex (to_hex bytes) ≡ bytes
from_hex-to_hex [] = refl
from_hex-to_hex (c ∷ bytes) = grind (arith, from_hex-to_hex bytes)

to_hex-free : (bytes : List ℕ) → free_of b'$' (to_hex bytes) ≡ true
to_hex-free [] = refl
to_hex-free (c ∷ bytes) = ground (arith, to_hex-free bytes)

to_hex-blank : (bytes : List ℕ) → is_blank (to_hex bytes) ≡ is_blank bytes
to_hex-blank [] = refl
to_hex-blank (c ∷ bytes) = refl

abbrev pub hashing : Hashing
hashing = record {
  scrypt = λ password salt n. replicate n (length password + length salt);
  to_hex = to_hex;
  from_hex = from_hex;
}

hashing-HashLaws : HashLaws hashing
hashing-HashLaws = record {
  scrypt-length = λ password salt n. length-replicate n (length password + length salt);
  from_hex-to_hex = from_hex-to_hex;
  to_hex-free = to_hex-free;
  to_hex-filled = to_hex-blank;
}

verify_password-hash_password_example :
    verify_password hashing
      (codes "correct horse")
      (hash_password hashing (7 ∷ 9 ∷ []) (codes "correct horse"))
    ≡ true
verify_password-hash_password_example =
    verify_password-hash_password hashing (codes "correct horse") (7 ∷ 9 ∷ []) hashing-HashLaws refl
