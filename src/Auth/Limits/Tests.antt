-- ===== src/Auth/Limits/Tests.antt =====
-- The limiter of internal/auth/limits.go at concrete inputs.
use codexlink.Prelude.{ℕ, ◌≤◌, true, false, List, [], ◌∷◌, String, ◌≡◌, refl, arith}
use codexlink.Prelude.Assoc.{lookup, insert, retain}
use codexlink.Prelude.Int.{pos, negsuc, positive_or}
use codexlink.Auth.Limits.{
  normalize_oauth_limits, RequestLimiter, new_request_limiter, expire, bucket_for, charge, allow,
}
use codexlink.Auth.Limits.Counters.{IsValid, Counted, should_pass, allow-Counted}
use codexlink.Auth.Limits.Window.{admitted, admitted_in_window}

program : Unit {0}
unfolding lookup insert retain expire bucket_for charge allow new_request_limiter admitted
program = tt

-- One request of "a" at time 100, of two that an address may make in 60.
abbrev busy : RequestLimiter
busy = record {
  per_address = 2;
  global = 3;
  window = 60;
  max_addresses = 2;
  global_bucket = record { window_start = 100; count = 1 };
  addresses = ("a", record { window_start = 100; count = 1 }) ∷ [];
}

first_request : allow (new_request_limiter 2 3 60 2) "a" 100 ≡ (busy, true)
unfolding program
first_request = refl

third_request : (allow (allow busy "a" 110).0 "a" 120).1 ≡ false
unfolding program
third_request = refl

abbrev requests : List (String × ℕ)
requests = ("a", 110) ∷ ("b", 120) ∷ ("a", 130) ∷ ("a", 159) ∷ []

busy-IsValid : IsValid busy
unfolding program
busy-IsValid = record {
  unique = (refl, tt);
  tracked = omega arith;
  per_address_le = (omega arith, tt);
  global_le = omega arith;
}

allow-Counted_example :
    ((allow busy "b" 120).1 ≡ should_pass busy 120 "b")
    × Counted busy 120 "b" (allow busy "b" 120).1 (allow busy "b" 120).0
allow-Counted_example = allow-Counted busy "b" 120 busy-IsValid.unique (omega arith) (omega arith)

admitted_in_window_example : admitted "a" busy requests ≤ 4
admitted_in_window_example = admitted_in_window "a" busy 105 requests busy-IsValid (omega arith)

negative_options :
    (normalize_oauth_limits (record {
      max_pending = negsuc 0;
      registration_per_ip = pos 0;
      registration_global = pos 7;
      authorization_per_ip = pos 0;
      authorization_global = pos 0;
      max_tracked_addresses = pos 9;
      window = pos 5;
    })).registration_global
    ≡ 7
unfolding normalize_oauth_limits positive_or
negative_options = refl
