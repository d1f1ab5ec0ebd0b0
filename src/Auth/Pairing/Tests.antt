-- ===== src/Auth/Pairing/Tests.antt =====
-- Pairing, internal/auth/pairing.go, at concrete inputs. The hash is the text itself.
use codexlink.Prelude.{bytes_eq, ℕ, ◌≤◌, none, List, [], ◌∷◌, ◌≡◌, refl, arith, map}
use codexlink.Prelude.Assoc.{lookup, insert, retain}
use codexlink.Prelude.Int.{pos, positive_or}
use codexlink.Auth.Pairing.Code.{
  to_upper, contains_rune, all_in, eight_symbols, normalize_pairing_code, display_code,
}
use codexlink.Prelude.Text.{codes, is_space, trim_left, trim_space}
use codexlink.Auth.Pairing.Code.RoundTrip.{to_lower, normalize-display}
use codexlink.Auth.Pairing.{
  PairingManager, new_pairing_manager, create_with, count_ip, allow_ip, verify_session, verify,
  status, is_active, invalidate, consumed,
}
use codexlink.Auth.Pairing.Sessions.{
  Use, verifies, reads, Call, creates, uses, IsValid, new-IsValid, step, use_step, run,
  run_manager-IsValid, step-IsValid,
}
use codexlink.Auth.Pairing.Attempts.{
  answers, guesses, guesses-le, successes, successes-le-one, attempts_of, accepted, verify-create,
}

program : Unit {0}
unfolding bytes_eq lookup insert retain positive_or is_space trim_left trim_space to_upper
    contains_rune all_in eight_symbols normalize_pairing_code display_code new_pairing_manager
    create_with count_ip allow_ip verify_session verify status is_active invalidate use_step step
    run
program = tt

abbrev id_hash : List ℕ → List ℕ
id_hash x = x

abbrev defaults : PairingManager
defaults = new_pairing_manager (record {
  ttl = pos 100;
  max_attempts = pos 2;
  ip_limit = pos 3;
  ip_window = pos 50;
  max_tracked_ips = pos 2;
})

abbrev raw : List ℕ
raw = codes "ABCD2345"

abbrev session : List ℕ
session = codes "s1"

abbrev made : PairingManager
made = (create_with id_hash defaults 10 raw session).0

typed_code : normalize_pairing_code (codes "  abcd-2345 ") ≡ raw
unfolding program
typed_code = refl

defaults-IsValid : IsValid defaults
defaults-IsValid = new-IsValid (record {
  ttl = pos 100;
  max_attempts = pos 2;
  ip_limit = pos 3;
  ip_window = pos 50;
  max_tracked_ips = pos 2;
})

made-IsValid : IsValid made
unfolding step
made-IsValid = step-IsValid id_hash defaults (creates 10 raw session) defaults-IsValid

tried : (verify id_hash made (codes "ABCD-2346") "10.0.0.1" 20).1.attempts_left ≡ 1
unfolding program
tried = refl

normalize-display_example :
    (normalize_pairing_code (display_code raw) ≡ raw)
    × (normalize_pairing_code raw ≡ raw)
    × (normalize_pairing_code (map to_lower (display_code raw)) ≡ raw)
    × (normalize_pairing_code (map to_lower raw) ≡ raw)
unfolding all_in contains_rune
normalize-display_example = normalize-display raw (omega arith, refl)

abbrev history : List Call
history =
    creates 10 raw session
    ∷ uses (verifies (codes "ABCD-2346") "10.0.0.1" 20)
    ∷ uses (reads 30)
    ∷ uses (verifies (codes "abcd-2345") "10.0.0.1" 40)
    ∷ []

run_manager-IsValid_example : IsValid (
    run id_hash
      (new_pairing_manager (record {
        ttl = pos 100;
        max_attempts = pos 2;
        ip_limit = pos 3;
        ip_window = pos 50;
        max_tracked_ips = pos 2;
      }))
      history)
run_manager-IsValid_example =
    run_manager-IsValid id_hash
      (record {
        ttl = pos 100;
        max_attempts = pos 2;
        ip_limit = pos 3;
        ip_window = pos 50;
        max_tracked_ips = pos 2;
      })
      history

abbrev tries : List Use
tries =
    verifies (codes "ABCD-2346") "10.0.0.1" 20
    ∷ verifies raw "10.0.0.2" 30
    ∷ verifies raw "10.0.0.2" 40
    ∷ []

guesses-le_example : guesses id_hash (answers id_hash made tries) ≤ attempts_of made.session
guesses-le_example = guesses-le id_hash made tries made-IsValid

successes-le-one_example : successes id_hash (answers id_hash made tries) ≤ 1
successes-le-one_example = successes-le-one id_hash made tries

verify-create_example :
    ((verify id_hash made (display_code raw) "10.0.0.1" 109).1 ≡ accepted id_hash session)
    × ((verify id_hash made (display_code raw) "10.0.0.1" 109).0.session ≡ none)
    × ((verify id_hash made (display_code raw) "10.0.0.1" 109).0.state ≡ consumed)
unfolding program
verify-create_example =
    verify-create id_hash defaults 10 109 raw session "10.0.0.1" defaults-IsValid
      (omega arith, refl) (omega arith) refl
