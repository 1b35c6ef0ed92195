-- ===== src/RateLimit/Tests.antt =====
-- Runs of the rate limiter of src/lib/security.ts.
use planeo.Prelude.{ℕ, String, min, none, List, [], ◌∷◌, ◌≡◌, ◌≢◌, refl, length, ===_iff, arith}
use planeo.RateLimit.{Bucket, find_bucket, count_allowed}
use planeo.RateLimit.Window.{count_allowed_first_window}

abbrev digest : String → String
digest identifier = identifier

abbrev other_bucket : Bucket
other_bucket = record { key = "login:b"; count = 7; reset_at = 90000 }

abbrev buckets : List Bucket
buckets = other_bucket ∷ []

abbrev client : String
client = "login:a"

abbrev later : List ℕ
later = 1500 ∷ 2000 ∷ 60999 ∷ []

names_differ : client ≢ "login:b"
names_differ e = absurd (ground (arith, ===_iff "login:a" "login:b"))

unknown_client : find_bucket buckets (digest "login:a") ≡ none
unfolding find_bucket
unknown_client = refl

-- Of four requests within a minute three pass.
count_allowed_first_window_example :
    count_allowed digest "login:a" 3 60 (1000 ∷ later) buckets ≡ min 3 (length (1000 ∷ later))
count_allowed_first_window_example =
    count_allowed_first_window digest "login:a" 3 60 1000 later buckets (omega arith) unknown_client
      (omega arith, (omega arith, (omega arith, tt)))
