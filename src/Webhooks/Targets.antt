-- ===== src/Webhooks/Targets.antt =====
-- resolvePinnedHttpsTarget of ops/webhook-destination.mjs: where a request may go.
use planeo.Prelude.{
  ℕ, zero, suc, ◌+◌, ◌<◌, ◌≤◌, ◌⊎◌, inl, inr, String, true, false, some, List, [], ◌∷◌, any, In-any,
  In, find, find_sound, length, ◌==◌, ===_iff, maybe, if◌then◌else◌, ok, throw_if_passed, ◌≡◌, refl,
  subst, arith, Bool-cases, Option-cases,
}
use planeo.Webhooks.{
  AddressRuntime, four, ipv4, is_private_number, is_private_plain, mapped_of, is_private_text,
  is_private_address, drop_spaces, drop_spaces_end, TargetUrl, unsafe_destination, is_unsafe_url,
  choose, pin, resolve_pinned_https_target,
}

-- The private, loopback and link-local networks of IPv4, by the octets of an address.
abbrev pub IsInternal : ℕ → ℕ → Type 0
IsInternal a b =
    (a ≡ 10)
    ⊎ (a ≡ 127)
    ⊎ ((a ≡ 169) × (b ≡ 254))
    ⊎ ((a ≡ 172) × (16 ≤ b) × (b ≤ 31))
    ⊎ ((a ≡ 192) × (b ≡ 168))

is_private_number-IsInternal :
    (a b c d : ℕ)
    → b < 256
    → c < 256
    → d < 256
    → IsInternal a b
    → is_private_number (four a b c d) ≡ true
unfolding is_private_number
is_private_number-IsInternal a b c d hb hc hd h = ground arith

-- What a text is read as, without white space and in lower case.
abbrev pub normalized : AddressRuntime → List ℕ → List ℕ
normalized runtime address = runtime.lower_case (drop_spaces_end (drop_spaces address))

is_private_text-ipv4 :
    (runtime : AddressRuntime) (fuel : ℕ) (text : List ℕ) (n : ℕ)
    → is_private_text runtime fuel text ≡ false
    → ipv4 text ≡ some n
    → is_private_number n ≡ false
unfolding is_private_text is_private_plain
is_private_text-ipv4 runtime zero text n h e = absurd cc
is_private_text-ipv4 runtime (suc fuel) text n h e =
    elim (Bool-cases (
      maybe (mapped_of runtime text) false (λ rest.
        if length rest == 0 then false else is_private_text runtime fuel (drop_spaces rest)))) [
          | inl t ↦ absurd (cc (rw t at h))
          | inr f ↦ (rw (f, e) at h)
        ]

choose-In :
    (runtime : AddressRuntime) (first : List ℕ) (rest : List (List ℕ))
    → In (choose runtime first rest) (first ∷ rest)
choose-In runtime first rest =
    elim (Option-cases (find (λ a. runtime.is_ip a == 4) (first ∷ rest))) [
      | inl nothing ↦ rw nothing (inl refl)
      | inr (a, e) ↦
          let same : a ≡ choose runtime first rest = rw e refl in
          subst (λ x. In x (first ∷ rest)) same
            (find_sound (λ a. runtime.is_ip a == 4) (first ∷ rest) e).1
    ]

-- A target to which a request may go at an address.
pub record IsPinned (runtime : AddressRuntime) (addresses : List (List ℕ)) (url : TargetUrl)
    (address : List ℕ) : Type 0 where
  pub by_https : url.protocol ≡ "https:"
  pub found : In address addresses
  pub all_public : (a : List ℕ) → In a addresses → is_private_address runtime a ≡ false
  pub no_internal :
      (n : List ℕ) (a b c d : ℕ)
      → In n addresses
      → ipv4 (normalized runtime n) ≡ some (four a b c d)
      → b < 256
      → c < 256
      → d < 256
      → ¬ IsInternal a b

module _ (runtime : AddressRuntime) where
  none_private :
      (addresses : List (List ℕ)) (a : List ℕ)
      → any (is_private_address runtime) addresses ≡ false
      → In a addresses
      → is_private_address runtime a ≡ false
  none_private addresses a h m = elim (Bool-cases (is_private_address runtime a)) [
    | inr fine ↦ fine
    | inl bad ↦ absurd (let t = In-any (is_private_address runtime) a addresses m bad in cc)
  ]

  not_internal :
      (n : List ℕ) (a b c d : ℕ)
      → is_private_address runtime n ≡ false
      → ipv4 (normalized runtime n) ≡ some (four a b c d)
      → b < 256
      → c < 256
      → d < 256
      → IsInternal a b
      → ⊥
  unfolding is_private_address
  not_internal n a b c d h e hb hc hd inside =
      let text = normalized runtime n in
      let fine = is_private_text-ipv4 runtime (length text + 1) text (four a b c d) h e in
      let bad = is_private_number-IsInternal a b c d hb hc hd inside in absurd cc

  pin-IsPinned :
      (url target : TargetUrl) (addresses : List (List ℕ)) (address : List ℕ)
      → url.protocol ≡ "https:"
      → pin runtime url addresses ≡ ok (target, address)
      → (target ≡ url) × IsPinned runtime addresses url address
  pin-IsPinned url target [] address p e = absurd cc
  pin-IsPinned url target (a ∷ rest) address p e =
      let bad = any (is_private_address runtime) (a ∷ rest) in
      let (free, e1) = throw_if_passed bad unsafe_destination _ e in
      let same : choose runtime a rest ≡ address = cc in
      (
        cc,
        record {
          by_https = p;
          found = subst (λ x. In x (a ∷ rest)) same (choose-In runtime a rest);
          all_public = λ x m. none_private (a ∷ rest) x free m;
          no_internal = λ n x b c d m h hb hc hd inside.
              not_internal n x b c d (none_private (a ∷ rest) n free m) h hb hc hd inside;
        },
      )

  -- A target that is accepted is the URL that was given, by https, at one of the addresses of its
  -- host; none of these addresses is private, and one that is written in four octets is in no
  -- private, loopback or link-local network.
  pub resolve_pinned_https_target-IsPinned :
      (lookup : String → List (List ℕ)) (url target : TargetUrl) (address : List ℕ)
      → resolve_pinned_https_target runtime lookup (some url) ≡ ok (target, address)
      → (target ≡ url) × IsPinned runtime (lookup url.hostname) url address
  unfolding resolve_pinned_https_target
  resolve_pinned_https_target-IsPinned lookup url target address e =
      let (safe, e1) = throw_if_passed (is_unsafe_url url) unsafe_destination _ e in
      let https : url.protocol ≡ "https:" = (===_iff url.protocol "https:").0 (ground arith) in
      pin-IsPinned url target (lookup url.hostname) address https e1
