-- ===== src/Auth/Pairing/Attempts.antt =====
-- How often a pairing code of internal/auth/pairing.go can be guessed at and used, and that the code
-- that `Create` shows is the one that `Verify` takes.
use codexlink.Prelude.{
  bytes_eq_iff, ℕ, ◌+◌, ◌≤◌, ◌<◌, Bool, true, false, Option, none, some, List, [], ◌∷◌, String, ◌≡◌,
  ◌≢◌, refl, arith, if◌then◌else◌, ◌∙◌, ap,
}
use codexlink.Auth.Pairing.Code.{normalize_pairing_code, display_code}
use codexlink.Auth.Pairing.Code.RoundTrip.{IsCode, normalize-display}
use codexlink.Auth.Pairing.{
  PairingManager, PairingSession, PairingResult, invalid, too_many_attempts, consumed, allow_ip,
  create_with, verify_session, verify, status, invalidate,
}
use codexlink.Auth.Pairing.Sessions.{
  Use, verifies, reads, invalidates, IsValid, allow_ip-IsValid, allow_ip_same, use_step,
  use_step-IsValid,
}

-- An answer that tells of the code: right, wrong, or wrong for the last time.
abbrev pub is_guess : PairingResult → Bool
is_guess r = elim r.failure [
  | none ↦ true
  | some f ↦ elim f [ invalid ↦ true | too_many_attempts ↦ true | _ ↦ false ]
]

abbrev pub attempts_of : Option PairingSession → ℕ
attempts_of none = 0
attempts_of (some s) = s.attempts_left

abbrev pub one_if : Bool → ℕ
one_if b = if b then 1 else 0

module _ (hash : List ℕ → List ℕ) where
  -- The answers of the verifications in a history without `Create`.
  pub answers : PairingManager → List Use → List PairingResult
  answers m [] = []
  answers m (verifies input ip now ∷ us) =
      (verify hash m input ip now).1 ∷ answers (use_step hash m (verifies input ip now)) us
  answers m (u ∷ us) = answers (use_step hash m u) us

  pub guesses : List PairingResult → ℕ
  guesses [] = 0
  guesses (r ∷ rs) = one_if (is_guess r) + guesses rs

  pub successes : List PairingResult → ℕ
  successes [] = 0
  successes (r ∷ rs) = one_if r.is_ok + successes rs

  verify_session-guess :
      (m : PairingManager) (input : List ℕ) (now : ℕ) (o : Option PairingSession)
      → m.session ≡ o
      → IsValid m
      → one_if (is_guess (verify_session hash m input now o).1)
          + attempts_of (verify_session hash m input now o).0.session
        ≤ attempts_of o
  unfolding verify_session
  verify_session-guess m input now none e v = ground arith
  verify_session-guess m input now (some s) e v = ground arith

  verify-guess :
      (m : PairingManager) (input : List ℕ) (ip : String) (now : ℕ)
      → IsValid m
      → one_if (is_guess (verify hash m input ip now).1)
          + attempts_of (verify hash m input ip now).0.session
        ≤ attempts_of m.session
  unfolding verify
  verify-guess m input ip now v =
      let g =
        verify_session-guess (allow_ip m ip now).0 input now _ refl (allow_ip-IsValid m ip now v) in
      ground (arith, g, (allow_ip_same m ip now).0)

  use_step-attempts :
      (m : PairingManager) (u : Use)
      → IsValid m
      → guesses (answers m (u ∷ [])) + attempts_of (use_step hash m u).session
        ≤ attempts_of m.session
  unfolding guesses answers use_step status invalidate
  use_step-attempts m (verifies input ip now) v = omega (arith, verify-guess m input ip now v)
  use_step-attempts m (reads now) v = ground arith
  use_step-attempts m (invalidates now) v = ground arith

  guesses_cons :
      (m : PairingManager) (u : Use) (us : List Use)
      → guesses (answers m (u ∷ us))
        ≡ guesses (answers m (u ∷ [])) + guesses (answers (use_step hash m u) us)
  unfolding guesses answers
  guesses_cons m (verifies input ip now) us = omega arith
  guesses_cons m (reads now) us = omega arith
  guesses_cons m (invalidates now) us = omega arith

  -- From a valid manager and until the next `Create`, no more answers tell of the code than attempts
  -- are left: whoever tries, from however many addresses, with whatever calls in between.
  pub guesses-le :
      (m : PairingManager) (us : List Use)
      → IsValid m
      → guesses (answers m us) ≤ attempts_of m.session
  unfolding guesses answers
  guesses-le m [] v = omega arith
  guesses-le m (u ∷ us) v = omega (
    arith,
    guesses_cons m u us,
    use_step-attempts m u v,
    guesses-le (use_step hash m u) us (use_step-IsValid hash m u v),
  )

  abbrev sessions_of : Option PairingSession → ℕ
  sessions_of none = 0
  sessions_of (some s) = 1

  verify_session-success :
      (m : PairingManager) (input : List ℕ) (now : ℕ) (o : Option PairingSession)
      → m.session ≡ o
      → one_if (verify_session hash m input now o).1.is_ok
          + sessions_of (verify_session hash m input now o).0.session
        ≤ sessions_of o
  unfolding verify_session
  verify_session-success m input now none e = ground arith
  verify_session-success m input now (some s) e = ground arith

  use_step-success :
      (m : PairingManager) (u : Use)
      → successes (answers m (u ∷ [])) + sessions_of (use_step hash m u).session
        ≤ sessions_of m.session
  unfolding successes answers use_step status invalidate verify
  use_step-success m (verifies input ip now) =
      let g = verify_session-success (allow_ip m ip now).0 input now _ refl in
      ground (arith, g, (allow_ip_same m ip now).0)
  use_step-success m (reads now) = ground arith
  use_step-success m (invalidates now) = ground arith

  successes_cons :
      (m : PairingManager) (u : Use) (us : List Use)
      → successes (answers m (u ∷ us))
        ≡ successes (answers m (u ∷ [])) + successes (answers (use_step hash m u) us)
  unfolding successes answers
  successes_cons m (verifies input ip now) us = omega arith
  successes_cons m (reads now) us = omega arith
  successes_cons m (invalidates now) us = omega arith

  successes-le_sessions :
      (m : PairingManager) (us : List Use) → successes (answers m us) ≤ sessions_of m.session
  unfolding successes answers
  successes-le_sessions m [] = omega arith
  successes-le_sessions m (u ∷ us) = omega (
    arith,
    successes_cons m u us,
    use_step-success m u,
    successes-le_sessions (use_step hash m u) us,
  )

  -- Whatever is called until the next `Create`, at most one verification succeeds.
  pub successes-le-one : (m : PairingManager) (us : List Use) → successes (answers m us) ≤ 1
  successes-le-one m us = ground (arith, successes-le_sessions m us)

  abbrev pub accepted : List ℕ → PairingResult
  accepted id = record { is_ok = true; session_id = id; failure = none; attempts_left = 0 }

  abbrev Takes : PairingManager → List ℕ → PairingManager × PairingResult → Type 0
  Takes m id r = (r.1 ≡ accepted id) × (r.0.session ≡ none) × (r.0.state ≡ consumed)

  verify_session-Takes :
      (m : PairingManager) (input : List ℕ) (t : ℕ) (s : PairingSession) (o : Option PairingSession)
      → o ≡ some s
      → t < s.expires_at
      → 0 < s.attempts_left
      → hash (normalize_pairing_code input) ≡ s.hash
      → Takes m s.id (verify_session hash m input t o)
  unfolding verify_session
  verify_session-Takes m input t s none e h p k = cc
  verify_session-Takes m input t s (some r) e h p k =
      ground (arith, bytes_eq_iff (hash (normalize_pairing_code input)) s.hash)

  verify-Takes :
      (m : PairingManager) (input : List ℕ) (ip : String) (t : ℕ) (s : PairingSession)
      → m.session ≡ some s
      → (allow_ip m ip t).1 ≡ true
      → t < s.expires_at
      → 0 < s.attempts_left
      → hash (normalize_pairing_code input) ≡ s.hash
      → Takes m s.id (verify hash m input ip t)
  unfolding verify
  verify-Takes m input ip t s e a h p k =
      rw a
        (verify_session-Takes (allow_ip m ip t).0 input t s _ ((allow_ip_same m ip t).0 ∙ e) h p k)

  -- On a valid manager, the code that `Create` returns is taken before its time is over, from any
  -- address that may try: the session's identifier is returned, no session is left and the state is
  -- consumed.
  pub verify-create :
      (m : PairingManager) (now t : ℕ) (raw id : List ℕ) (ip : String)
      → IsValid m
      → IsCode raw
      → t < now + m.ttl
      → (allow_ip (create_with hash m now raw id).0 ip t).1 ≡ true
      → Takes m id
          (verify hash (create_with hash m now raw id).0 (create_with hash m now raw id).1 ip t)
  unfolding create_with
  verify-create m now t raw id ip v c h a =
      let s : PairingSession = record {
        id = id;
        hash = hash raw;
        created_at = now;
        expires_at = now + m.ttl;
        attempts_left = m.max_attempts;
      } in
      verify-Takes (create_with hash m now raw id).0 (display_code raw) ip t s refl a h v.positive
        (ap hash (normalize-display raw c).0)

  verify_session_wrong :
      (m : PairingManager) (input : List ℕ) (t : ℕ) (o : Option PairingSession)
      → ((s : PairingSession) → o ≡ some s → hash (normalize_pairing_code input) ≢ s.hash)
      → (verify_session hash m input t o).1.is_ok ≡ false
  unfolding verify_session
  verify_session_wrong m input t none n = refl
  verify_session_wrong m input t (some s) n =
      ground (arith, n s refl, bytes_eq_iff (hash (normalize_pairing_code input)) s.hash)

  -- If the hash tells texts apart, an input that is not the code that `Create` made does not pass.
  pub verify-create_wrong :
      (m : PairingManager) (now t : ℕ) (raw id input : List ℕ) (ip : String)
      → ((x y : List ℕ) → hash x ≡ hash y → x ≡ y)
      → normalize_pairing_code input ≢ raw
      → (verify hash (create_with hash m now raw id).0 input ip t).1.is_ok ≡ false
  unfolding create_with verify
  verify-create_wrong m now t raw id input ip inj n =
      let m' = (create_with hash m now raw id).0 in
      let w =
        verify_session_wrong (allow_ip m' ip t).0 input t m'.session
          (λ s e k. n (inj _ _ (k ∙ ground (arith, e)))) in
      ground (arith, w, (allow_ip_same m' ip t).0)
