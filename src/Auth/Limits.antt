-- ===== src/Auth/Limits.antt =====
-- internal/auth/limits.go: the request limiter, with fixed windows per address and in total.
-- A limiter's limits are positive numbers, as `normalizeOAuthLimits` leaves them.
pub mod Counters
pub mod Window
mod Tests
use codexlink.Prelude.{
  ℕ, ◌+◌, ◌*◌, Bool, true, false, not, ◌||◌, Option, none, some, List, [], leb, if◌then◌else◌,
  length, String,
}
use codexlink.Prelude.Assoc.{lookup, insert, retain}
use codexlink.Prelude.Int.{ℤ, positive_or}
use codexlink.Prelude.Time.{minute, is_zero, before}

pub record OAuthLimits (N : Type 0) : Type 0 where
  pub max_pending : N
  pub registration_per_ip : N
  pub registration_global : N
  pub authorization_per_ip : N
  pub authorization_global : N
  pub max_tracked_addresses : N
  pub window : N

default_oauth_limits : OAuthLimits ℕ
default_oauth_limits = record {
  max_pending = 128;
  registration_per_ip = 10;
  registration_global = 100;
  authorization_per_ip = 30;
  authorization_global = 300;
  max_tracked_addresses = 2048;
  window = minute;
}

unfoldable pub normalize_oauth_limits : OAuthLimits ℤ → OAuthLimits ℕ
unfolding default_oauth_limits
normalize_oauth_limits value = record {
  max_pending = positive_or d.max_pending value.max_pending;
  registration_per_ip = positive_or d.registration_per_ip value.registration_per_ip;
  registration_global = positive_or d.registration_global value.registration_global;
  authorization_per_ip = positive_or d.authorization_per_ip value.authorization_per_ip;
  authorization_global = positive_or d.authorization_global value.authorization_global;
  max_tracked_addresses = positive_or d.max_tracked_addresses value.max_tracked_addresses;
  window = positive_or d.window value.window;
}
  where
    d : OAuthLimits ℕ
    d = default_oauth_limits

pub record RateBucket : Type 0 where
  pub window_start : ℕ
  pub count : ℕ

pub record RequestLimiter : Type 0 where
  pub per_address : ℕ
  pub global : ℕ
  pub window : ℕ
  pub max_addresses : ℕ
  pub global_bucket : RateBucket
  pub addresses : List (String × RateBucket)

abbrev pub started : ℕ → RateBucket
started now = record { window_start = now; count = 0 }

abbrev pub bump : RateBucket → RateBucket
bump b = record b { count = b.count + 1 }

unfoldable pub new_request_limiter : ℕ → ℕ → ℕ → ℕ → RequestLimiter
new_request_limiter per_address global window max_addresses = record {
  per_address = per_address;
  global = global;
  window = window;
  max_addresses = max_addresses;
  global_bucket = started 0;
  addresses = [];
}

-- `now.Before(bucket.windowStart.Add(l.window))`
abbrev pub is_live : RequestLimiter → ℕ → RateBucket → Bool
is_live l now b = before now (b.window_start + l.window)

-- The loop over the addresses and the reset of the global window.
unfoldable pub expire : RequestLimiter → ℕ → RequestLimiter
expire l now = record l {
  addresses = retain (is_live l now) l.addresses;
  global_bucket =
      if is_zero l.global_bucket.window_start || not (is_live l now l.global_bucket)
      then started now
      else l.global_bucket;
}

-- The address's bucket, a new one if it is not tracked; `none` when the table is full.
unfoldable pub bucket_for : RequestLimiter → ℕ → Option RateBucket → Option RateBucket
bucket_for l now none =
    if leb l.max_addresses (length l.addresses) then none else some (started now)
bucket_for l now (some b) = some (if not (is_live l now b) then started now else b)

-- The counting once the bucket is chosen.
unfoldable pub charge : RequestLimiter → String → Option RateBucket → RequestLimiter × Bool
charge l address none = (l, false)
charge l address (some b) =
    if leb l.per_address b.count || leb l.global l.global_bucket.count then (l, false) else (
      record l {
        global_bucket = bump l.global_bucket;
        addresses = insert address (bump b) l.addresses;
      },
      true,
    )

unfoldable pub allow : RequestLimiter → String → ℕ → RequestLimiter × Bool
allow l address now =
    let l' = expire l now in charge l' address (bucket_for l' now (lookup address l'.addresses))
