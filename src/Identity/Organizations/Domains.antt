-- ===== src/Identity/Organizations/Domains.antt =====
-- verifyDomainChallenge of src/lib/enterprise-organization.ts.
use planeo.Prelude.{
  ℕ, ◌≤◌, ◌<◌, String, Bool, true, false, not, ◌||◌, inl, inr, List, [], ◌∷◌, map, length, filter,
  any, ◌===◌, leb, if_both, ◌≡◌, refl, arith, Bool-cases, trim,
}
use planeo.Identity.Organizations.{Domain, is_pending, claimed, verify_row, verify_domain_challenge}

none_left :
    (now later : ℕ) (d : Domain) (domains : List Domain)
    → now ≤ later
    → length (filter (claimed later d) (map (verify_row now d) domains)) ≡ 0
none_left now later d [] order = refl
none_left now later d (row ∷ domains) order =
    let rest = none_left now later d domains order in
    elim (Bool-cases (claimed now d row)) [
      | inl hit ↦
          let gone : claimed later d (verify_row now d row) ≡ false = ground (arith, hit) in
          rw gone rest
      | inr missed ↦
          let gone : claimed later d (verify_row now d row) ≡ false = ground (arith, missed) in
          rw gone rest
    ]

no_more :
    (digest : String → String) (later : ℕ) (records : List String) (d : Domain)
    (domains : List Domain)
    → length (filter (claimed later d) domains) ≡ 0
    → (verify_domain_challenge digest later records d domains).1 ≡ false
unfolding verify_domain_challenge
no_more digest later records d domains gone =
    if_both (λ (x : List Domain × Bool). x.1 ≡ false)
      (not (is_pending d.status) || leb d.challenge_expires_at later) refl
      (if_both (λ (x : List Domain × Bool). x.1 ≡ false)
        (any (λ value. digest (trim value) === d.challenge_hash) records) (rw gone refl) refl)

-- A domain is verified only if some text of its DNS record has the digest of its challenge, which
-- is pending and has not expired; and by no later call with the same challenge.
pub verify_domain_challenge_once :
    (digest : String → String) (now later : ℕ) (records records_later : List String) (d : Domain)
    (domains : List Domain)
    → now ≤ later
    → (verify_domain_challenge digest now records d domains).1 ≡ true
    → (any (λ value. digest (trim value) === d.challenge_hash) records ≡ true)
      × (is_pending d.status ≡ true)
      × (now < d.challenge_expires_at)
      × ((verify_domain_challenge digest later records_later d
            (verify_domain_challenge digest now records d domains).0).1
          ≡ false)
unfolding verify_domain_challenge
verify_domain_challenge_once digest now later records records_later d domains order e =
    elim (Bool-cases (not (is_pending d.status) || leb d.challenge_expires_at now)) [
      | inl closed ↦ absurd (cc (rw (closed, verify_domain_challenge) at e))
      | inr opened ↦
          elim (Bool-cases (any (λ value. digest (trim value) === d.challenge_hash) records)) [
            | inr unmatched ↦ absurd (cc (rw (opened, unmatched, verify_domain_challenge) at e))
            | inl matched ↦ (
              matched,
              ground (arith, opened),
              ground (arith, opened),
              rw (opened, matched)
                  (no_more digest later records_later d (map (verify_row now d) domains)
                    (none_left now later d domains order)),
            )
          ]
    ]
