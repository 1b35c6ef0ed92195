-- ===== src/RateLimit.antt =====
-- src/lib/security.ts: rate limits by buckets in the database, and the key of a client. Times are
-- milliseconds; the digest of an identifier is the parameter `digest`.
pub mod Window
pub mod ClientKey
mod Tests
use Prim.Native.Char.{Char, code}
use Prim.Native.String
use planeo.Prelude.{
  ℕ, String, ◌+◌, ◌-◌, ◌*◌, Bool, true, false, not, Option, none, some, List, [], ◌∷◌, map, ◌≡◌,
  refl, if◌then◌else◌, ◌===◌, ◌!==◌, ◌==◌, ltb, leb, find, filter, trim,
}
use planeo.Prelude.Int.{ℤ, pos, sub_ℕ}

pub record Bucket : Type 0 where
  pub key : String
  pub count : ℕ
  pub reset_at : ℕ

pub record Verdict : Type 0 where
  pub allowed : Bool
  pub remaining : ℤ
  pub reset_at : ℕ

-- `findUnique({ where: { key } })`
pub find_bucket : List Bucket → String → Option Bucket
find_bucket buckets key = find (λ b. b.key === key) buckets

-- `update({ where: { key }, data })`
abbrev pub write_bucket : String → ℕ → ℕ → Bucket → Bucket
write_bucket key count reset_at b =
    if b.key === key then record b { count = count; reset_at = reset_at } else b

pub consume_rate_limit :
    (String → String) → String → ℕ → ℕ → ℕ → List Bucket → List Bucket × Verdict
consume_rate_limit digest identifier limit window_seconds now buckets =
    let key = digest identifier in
    let reset_at = now + window_seconds * 1000 in
    elim (find_bucket buckets key) [
      | none ↦ (
        record { key = key; count = 1; reset_at = reset_at } ∷ buckets,
        record { allowed = true; remaining = sub_ℕ limit 1; reset_at = reset_at },
      )
      | some existing ↦
          if leb existing.reset_at now
          then (
            map (write_bucket key 1 reset_at) buckets,
            record { allowed = true; remaining = sub_ℕ limit 1; reset_at = reset_at },
          )
          else if leb limit existing.count
          then (
            buckets,
            record { allowed = false; remaining = pos 0; reset_at = existing.reset_at },
          )
          else (
            map (write_bucket key (existing.count + 1) existing.reset_at) buckets,
            record {
              allowed = true;
              remaining = pos (limit - (existing.count + 1));
              reset_at = existing.reset_at;
            },
          )
    ]

-- Requests of one client, one after the other: how many are allowed.
pub count_allowed : (String → String) → String → ℕ → ℕ → List ℕ → List Bucket → ℕ
count_allowed digest identifier limit window_seconds [] buckets = 0
count_allowed digest identifier limit window_seconds (now ∷ later) buckets =
    let (after, verdict) = consume_rate_limit digest identifier limit window_seconds now buckets in
    let rest = count_allowed digest identifier limit window_seconds later after in
    if verdict.allowed then rest + 1 else rest

-- `text.split(",")`
split_from : String → List String
split_from String.[] = String.[] ∷ []
split_from (String.◌∷◌ c s) =
    let rest = split_from s in
    if code c == b',' then String.[] ∷ rest else elim rest [
      | [] ↦ (String.◌∷◌ c String.[]) ∷ []
      | word ∷ words ↦ (String.◌∷◌ c word) ∷ words
    ]

abbrev first_or : String → List String → String
first_or d [] = d
first_or d (x ∷ xs) = x

-- `requestClientKey`, over the two headers that it reads.
pub request_client_key : Option String → Option String → String
unfolding split_from
request_client_key real_ip forwarded =
    let canonical : String = elim real_ip [ none ↦ "" | some ip ↦ trim ip ] in
    if canonical !== "" then canonical else elim forwarded [
      | none ↦ "unknown"
      | some list ↦ first_or "unknown" (filter (λ s. s !== "") (map trim (split_from list)))
    ]
