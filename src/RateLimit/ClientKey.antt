-- ===== src/RateLimit/ClientKey.antt =====
-- The key that a client is counted under.
use planeo.Prelude.{
  String, Option, none, some, List, [], ◌∷◌, map, ◌≢◌, ===_iff, ◌!==◌, filter, trim, arith,
}
use planeo.RateLimit.{request_client_key, split_from, first_or}

first_or-ne-empty : (words : List String) → first_or "unknown" (filter (λ s. s !== "") words) ≢ ""
first_or-ne-empty [] e = absurd (ground (arith, ===_iff "unknown" ""))
first_or-ne-empty (w ∷ words) e = ground (arith, ===_iff w "", first_or-ne-empty words)

-- Every request is counted under a key that is not empty, whatever its headers hold.
pub request_client_key-ne-empty :
    (real_ip forwarded : Option String) → request_client_key real_ip forwarded ≢ ""
unfolding request_client_key
request_client_key-ne-empty none none e = absurd (ground (arith, ===_iff "unknown" ""))
request_client_key-ne-empty none (some list) e = first_or-ne-empty (map trim (split_from list)) e
request_client_key-ne-empty (some ip) none e =
    ground (arith, ===_iff (trim ip) "", ===_iff "unknown" "")
request_client_key-ne-empty (some ip) (some list) e =
    ground (arith, ===_iff (trim ip) "", first_or-ne-empty (map trim (split_from list)))
