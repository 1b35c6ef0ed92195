-- ===== src/Webhooks/Rounds.antt =====
-- isPrivateAddress of ops/webhook-destination.mjs: its calls of itself end within the rounds given.
use planeo.Prelude.{
  ℕ, zero, suc, ◌+◌, ◌<◌, ◌≤◌, inl, inr, some, List, [], ◌∷◌, length, codes, ◌==◌, ◌≡◌, refl, ap,
  arith, Bool-cases, Option-cases,
}
use planeo.Webhooks.{AddressRuntime, after_start, drop_spaces, mapped_of, is_private_text}

length-after_start :
    (start text rest : List ℕ)
    → after_start start text ≡ some rest
    → length start + length rest ≡ length text
length-after_start [] text rest e =
    let same : text ≡ rest = cc in let lengths = ap length same in omega arith
length-after_start (a ∷ start) [] rest e = absurd cc
length-after_start (a ∷ start) (b ∷ text) rest e = elim (Bool-cases (a == b)) [
  | inl same ↦ let shorter = length-after_start start text rest (rw same at e) in ground arith
  | inr other ↦ absurd (cc (rw other at e))
]

length-drop_spaces : (text : List ℕ) → length (drop_spaces text) ≤ length text
length-drop_spaces [] = omega arith
length-drop_spaces (c ∷ text) = ground (arith, length-drop_spaces text)

module _ (runtime : AddressRuntime) where
  -- More rounds than there are characters give what one round more gives.
  pub is_private_text_ends :
      (fuel : ℕ) (text : List ℕ)
      → length text < fuel
      → is_private_text runtime fuel text ≡ is_private_text runtime (suc fuel) text
  unfolding is_private_text
  is_private_text_ends zero text few = absurd (omega arith)
  is_private_text_ends (suc fuel) text few = elim (Option-cases (mapped_of runtime text)) [
    | inl plain ↦ rw plain refl
    | inr (rest, mapped) ↦
        let whole = length-after_start (codes "::ffff:") text rest mapped in
        let shorter = length-drop_spaces rest in
        let same = is_private_text_ends fuel (drop_spaces rest) (omega arith) in
        rw (mapped, same) refl
  ]
