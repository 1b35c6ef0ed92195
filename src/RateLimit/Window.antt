-- ===== src/RateLimit/Window.antt =====
-- How many requests a window admits, and that clients do not share a bucket.
use planeo.Prelude.{
  ℕ, String, ◌+◌, ◌-◌, ◌*◌, ◌≤◌, ◌<◌, min, true, false, none, some, inl, inr, List, [], ◌∷◌, map,
  ◌≡◌, ◌≢◌, refl, ===_iff, All, length, Bool-cases, Option-cases, arith, leb,
}
use planeo.Prelude.Int.{pos, sub_ℕ}
use planeo.RateLimit.{Bucket, find_bucket, write_bucket, consume_rate_limit, count_allowed}

find_bucket-write :
    (key : String) (count reset_at : ℕ) (buckets : List Bucket) (b : Bucket)
    → find_bucket buckets key ≡ some b
    → find_bucket (map (write_bucket key count reset_at) buckets) key
      ≡ some (record b { count = count; reset_at = reset_at })
unfolding find_bucket
find_bucket-write key count reset_at [] b e = cc
find_bucket-write key count reset_at (x ∷ buckets) b e =
    ground (arith, find_bucket-write key count reset_at buckets b)

find_bucket-write_other :
    (key other : String) (count reset_at : ℕ) (buckets : List Bucket)
    → key ≢ other
    → find_bucket (map (write_bucket key count reset_at) buckets) other ≡ find_bucket buckets other
unfolding find_bucket
find_bucket-write_other key other count reset_at [] ne = refl
find_bucket-write_other key other count reset_at (x ∷ buckets) ne = ground (
  arith,
  ===_iff x.key key,
  ===_iff x.key other,
  find_bucket-write_other key other count reset_at buckets ne,
)

find_bucket-cons_other :
    (b : Bucket) (other : String) (buckets : List Bucket)
    → b.key ≢ other
    → find_bucket (b ∷ buckets) other ≡ find_bucket buckets other
unfolding find_bucket
find_bucket-cons_other b other buckets ne = ground (arith, ===_iff b.key other)

abbrev first_bucket : (String → String) → String → ℕ → ℕ → Bucket
first_bucket digest identifier window_seconds now = record {
  key = digest identifier;
  count = 1;
  reset_at = now + window_seconds * 1000;
}

find_bucket-cons_self :
    (b : Bucket) (buckets : List Bucket) → find_bucket (b ∷ buckets) b.key ≡ some b
unfolding find_bucket
find_bucket-cons_self b buckets = ground (arith, ===_iff b.key b.key)

-- A request changes the bucket of its own identifier alone.
pub consume_rate_limit_other :
    (digest : String → String) (identifier other : String) (limit window_seconds now : ℕ)
    (buckets : List Bucket)
    → digest identifier ≢ digest other
    → find_bucket
        (consume_rate_limit digest identifier limit window_seconds now buckets).0
        (digest other)
      ≡ find_bucket buckets (digest other)
unfolding consume_rate_limit
consume_rate_limit_other digest identifier other limit window_seconds now buckets ne =
    elim (Option-cases (find_bucket buckets (digest identifier))) [
      | inl unknown ↦
          rw (unknown, consume_rate_limit)
            (find_bucket-cons_other (first_bucket digest identifier window_seconds now)
              (digest other) buckets ne)
      | inr (b, known) ↦ ground (
        arith,
        find_bucket-write_other (digest identifier) (digest other) 1 (now + window_seconds * 1000)
            buckets ne,
        find_bucket-write_other (digest identifier) (digest other) (b.count + 1) b.reset_at buckets
            ne,
      )
    ]

module _ (digest : String → String) (identifier : String) (limit window_seconds : ℕ) where
  created :
      (now : ℕ) (buckets : List Bucket)
      → find_bucket buckets (digest identifier) ≡ none
      → consume_rate_limit digest identifier limit window_seconds now buckets ≡ (
        first_bucket digest identifier window_seconds now ∷ buckets,
        record {
          allowed = true;
          remaining = sub_ℕ limit 1;
          reset_at = now + window_seconds * 1000;
        },
      )
  unfolding consume_rate_limit
  created now buckets e = rw (e, consume_rate_limit)

  blocked :
      (now : ℕ) (buckets : List Bucket) (b : Bucket)
      → find_bucket buckets (digest identifier) ≡ some b
      → now < b.reset_at
      → leb limit b.count ≡ true
      → consume_rate_limit digest identifier limit window_seconds now buckets
        ≡ (buckets, record { allowed = false; remaining = pos 0; reset_at = b.reset_at })
  unfolding consume_rate_limit
  blocked now buckets b e early full = ground arith

  admitted :
      (now : ℕ) (buckets : List Bucket) (b : Bucket)
      → find_bucket buckets (digest identifier) ≡ some b
      → now < b.reset_at
      → leb limit b.count ≡ false
      → consume_rate_limit digest identifier limit window_seconds now buckets ≡ (
        map (write_bucket (digest identifier) (b.count + 1) b.reset_at) buckets,
        record { allowed = true; remaining = pos (limit - (b.count + 1)); reset_at = b.reset_at },
      )
  unfolding consume_rate_limit
  admitted now buckets b e early room = ground arith

  -- Before a bucket resets, it admits what its limit leaves.
  in_window :
      (times : List ℕ) (buckets : List Bucket) (b : Bucket)
      → find_bucket buckets (digest identifier) ≡ some b
      → All (λ t. t < b.reset_at) times
      → count_allowed digest identifier limit window_seconds times buckets
        ≡ min (limit - b.count) (length times)
  unfolding count_allowed
  in_window [] buckets b e h = omega arith
  in_window (now ∷ times) buckets b e h = elim (Bool-cases (leb limit b.count)) [
    | inl full ↦ rw (blocked now buckets b e h.0 full) (ground (arith, in_window times buckets b e))
    | inr room ↦ rw (admitted now buckets b e h.0 room) (
        ground (
          arith,
          in_window times (map (write_bucket (digest identifier) (b.count + 1) b.reset_at) buckets)
              (record b { count = b.count + 1 })
              (find_bucket-write (digest identifier) (b.count + 1) b.reset_at buckets b e),
        ))
  ]

  -- A client that has no bucket is admitted `limit` times before the window of its first request
  -- ends, or as often as it asks if that is less, and not once more.
  pub count_allowed_first_window :
      (first : ℕ) (times : List ℕ) (buckets : List Bucket)
      → 1 ≤ limit
      → find_bucket buckets (digest identifier) ≡ none
      → All (λ t. t < first + window_seconds * 1000) times
      → count_allowed digest identifier limit window_seconds (first ∷ times) buckets
        ≡ min limit (length (first ∷ times))
  unfolding count_allowed
  count_allowed_first_window first times buckets some_limit unknown h =
      let b = first_bucket digest identifier window_seconds first in
      rw (created first buckets unknown)
        (ground (arith, in_window times (b ∷ buckets) b (find_bucket-cons_self b buckets) h))
