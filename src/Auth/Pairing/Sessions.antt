-- ===== src/Auth/Pairing/Sessions.antt =====
-- The life of a pairing session (internal/auth/pairing.go): calls, histories of calls, and what holds
-- after any of them.
use codexlink.Prelude.{
  ℕ, zero, suc, ◌+◌, ◌≤◌, ◌<◌, Option, none, some, List, [], ◌∷◌, length, String, ◌≡◌, ◌≢◌, inl,
  inr, refl, arith, Bool-cases, leb, str_eq,
}
use codexlink.Prelude.Assoc.{lookup, retain, IsUnique}
use codexlink.Prelude.Assoc.Laws.{
  retain-IsUnique, insert-IsUnique, length-retain_le, length-insert_new, length-insert_old,
}
use codexlink.Prelude.Int.{ℤ, positive_or}
use codexlink.Prelude.Time.{before}
use codexlink.Auth.Pairing.{
  PairingManager, PairingSession, PairingState, PairingOptions, IpCounter, active,
  new_pairing_manager, count_ip, allow_ip, create_with, verify_session, verify, status, invalidate,
}

-- A call that makes no code, and any call.
pub data Use : Type 0 where
  verifies : List ℕ → String → ℕ → Use
  reads : ℕ → Use
  invalidates : ℕ → Use

pub data Call : Type 0 where
  creates : ℕ → List ℕ → List ℕ → Call
  uses : Use → Call

-- What a session and the state say of one another.
abbrev pub Agrees : PairingManager → Option PairingSession → PairingState → Type 0
Agrees m none state = state ≢ active
Agrees m (some s) state =
    (state ≡ active)
    × (0 < s.attempts_left)
    × (s.attempts_left ≤ m.max_attempts)
    × (s.expires_at ≡ s.created_at + m.ttl)

pub record IsValid (m : PairingManager) : Type 0 where
  pub agrees : Agrees m m.session m.state
  pub positive : 0 < m.max_attempts
  pub unique : IsUnique m.ip_hits
  pub tracked : length m.ip_hits ≤ m.max_tracked_ips

positive_or_pos : (d : ℕ) (z : ℤ) → 0 < d → 0 < positive_or d z
unfolding positive_or
positive_or_pos d (ℤ.pos zero) h = h
positive_or_pos d (ℤ.pos (suc n)) h = omega arith
positive_or_pos d (ℤ.negsuc n) h = h

pub new-IsValid : (o : PairingOptions ℤ) → IsValid (new_pairing_manager o)
unfolding new_pairing_manager
new-IsValid o = record {
  agrees = λ e. cc;
  positive = positive_or_pos 5 o.max_attempts (omega arith);
  unique = tt;
  tracked = omega arith;
}

count_ip-IsValid :
    (m : PairingManager) (ip : String) (now : ℕ) (o : Option IpCounter)
    → lookup ip m.ip_hits ≡ o
    → IsValid m
    → IsValid (count_ip m ip now o).0
unfolding count_ip
count_ip-IsValid m ip now none e v = elim (Bool-cases (leb m.max_tracked_ips (length m.ip_hits))) [
  | inl full ↦ rw full v
  | inr room ↦ rw room (record {
    agrees = v.agrees;
    positive = v.positive;
    unique = insert-IsUnique _ _ _ v.unique;
    tracked = ground (
      arith,
      length-insert_new ip (record { count = 1; reset_at = now + m.ip_window }) m.ip_hits e,
    );
  })
]
count_ip-IsValid m ip now (some c) e v = record {
  agrees = v.agrees;
  positive = v.positive;
  unique = insert-IsUnique _ _ _ v.unique;
  tracked =
      omega
        (arith, length-insert_old ip (record c { count = c.count + 1 }) c m.ip_hits e, v.tracked);
}

pub allow_ip-IsValid :
    (m : PairingManager) (ip : String) (now : ℕ) → IsValid m → IsValid (allow_ip m ip now).0
unfolding allow_ip
allow_ip-IsValid m ip now v = elim (Bool-cases (str_eq ip "")) [
  | inl blank ↦ rw blank v
  | inr named ↦ rw named (
      count_ip-IsValid (record m { ip_hits = retain (λ c. before now c.reset_at) m.ip_hits }) ip now
        _ refl
        (record {
          agrees = v.agrees;
          positive = v.positive;
          unique = retain-IsUnique _ _ v.unique;
          tracked = omega (
            arith,
            length-retain_le (λ (c : IpCounter). before now c.reset_at) m.ip_hits,
            v.tracked,
          );
        }))
]

-- Counting an address leaves the session alone.
pub allow_ip_same :
    (m : PairingManager) (ip : String) (now : ℕ)
    → ((allow_ip m ip now).0.session ≡ m.session)
      × ((allow_ip m ip now).0.state ≡ m.state)
      × ((allow_ip m ip now).0.options ≡ m.options)
unfolding allow_ip count_ip
allow_ip_same m ip now = ground (arith)

status-IsValid :
    (m : PairingManager) (now : ℕ) (o : Option PairingSession)
    → m.session ≡ o
    → IsValid m
    → IsValid (status m now).0
unfolding status
status-IsValid m now none e v = ground arith
status-IsValid m now (some s) e v =
    let a : Agrees m (some s) m.state = rw e at v.agrees in ground arith

module _ (hash : List ℕ → List ℕ) where
  unfoldable pub use_step : PairingManager → Use → PairingManager
  use_step m (verifies input ip now) = (verify hash m input ip now).0
  use_step m (reads now) = (status m now).0
  use_step m (invalidates now) = invalidate m now

  unfoldable pub step : PairingManager → Call → PairingManager
  step m (creates now raw id) = (create_with hash m now raw id).0
  step m (uses u) = use_step m u

  unfoldable pub run : PairingManager → List Call → PairingManager
  run m [] = m
  run m (c ∷ cs) = run (step m c) cs

  verify_session-IsValid :
      (m : PairingManager) (input : List ℕ) (now : ℕ) (o : Option PairingSession)
      → m.session ≡ o
      → IsValid m
      → IsValid (verify_session hash m input now o).0
  unfolding verify_session
  verify_session-IsValid m input now none e v = v
  verify_session-IsValid m input now (some s) e v =
      let a : Agrees m (some s) m.state = rw e at v.agrees in ground arith

  verify-IsValid :
      (m : PairingManager) (input : List ℕ) (ip : String) (now : ℕ)
      → IsValid m
      → IsValid (verify hash m input ip now).0
  unfolding verify
  verify-IsValid m input ip now v = elim (Bool-cases (allow_ip m ip now).1) [
    | inl passed ↦
        rw passed (verify_session-IsValid _ input now _ refl (allow_ip-IsValid m ip now v))
    | inr refused ↦ rw refused (allow_ip-IsValid m ip now v)
  ]

  pub use_step-IsValid : (m : PairingManager) (u : Use) → IsValid m → IsValid (use_step m u)
  unfolding use_step status invalidate
  use_step-IsValid m (verifies input ip now) v = verify-IsValid m input ip now v
  use_step-IsValid m (invalidates now) v = ground arith
  use_step-IsValid m (reads now) v = status-IsValid m now _ refl v

  -- Every call keeps the manager valid.
  pub step-IsValid : (m : PairingManager) (c : Call) → IsValid m → IsValid (step m c)
  unfolding step create_with
  step-IsValid m (creates now raw id) v = ground arith
  step-IsValid m (uses u) v = use_step-IsValid m u v

  run-IsValid : (m : PairingManager) (cs : List Call) → IsValid m → IsValid (run m cs)
  unfolding run
  run-IsValid m [] v = v
  run-IsValid m (c ∷ cs) v = run-IsValid (step m c) cs (step-IsValid m c v)

  -- After any history of calls on a new manager: there is a session exactly when the state is active,
  -- it has at least one attempt left and no more than the options allow, and it ends `ttl` after it
  -- was made; no address is counted twice, and no more addresses are than the options allow.
  pub run_manager-IsValid :
      (o : PairingOptions ℤ) (cs : List Call) → IsValid (run (new_pairing_manager o) cs)
  run_manager-IsValid o cs = run-IsValid _ cs (new-IsValid o)
