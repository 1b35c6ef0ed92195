-- ===== src/Identity/Organizations/Tests.antt =====
-- A run of verifyDomainChallenge of src/lib/enterprise-organization.ts.
use planeo.Prelude.{String, true, none, List, [], ◌∷◌, ◌≡◌, refl, trim}
use planeo.Identity.Organizations.{Domain, pending, verify_domain_challenge}

abbrev digest : String → String
digest text = text

abbrev domain : Domain
domain = record {
  id = "d";
  domain = "acme.org";
  challenge_hash = "secret";
  challenge_expires_at = 9000;
  status = pending;
  verified_at = none;
  verified_challenge_hash = none;
}

abbrev records : List String
records = "v=spf1" ∷ "secret" ∷ []

verified_now : (verify_domain_challenge digest 5000 records domain (domain ∷ [])).1 ≡ true
unfolding verify_domain_challenge trim
verified_now = refl
