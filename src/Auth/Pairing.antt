-- ===== src/Auth/Pairing.antt =====
-- internal/auth/pairing.go: pairing codes and the manager that checks them. Texts are lists of code
-- points; SHA-256 is the parameter `hash`; the clock's reading and the random texts are arguments.
pub mod Code
pub mod Sessions
pub mod Attempts
mod Tests
use codexlink.Prelude.{
  bytes_eq, ℕ, zero, suc, ◌+◌, ◌-◌, Bool, true, false, not, ◌&&◌, ◌||◌, Option, none, some, List,
  [], ◌∷◌, ◌++◌, leb, ltb, ◌==◌, if◌then◌else◌, length, take, String, str_eq, ◌*◌,
}
use codexlink.Prelude.Assoc.{lookup, insert, retain}
use codexlink.Prelude.Int.{ℤ, positive_or}
use codexlink.Prelude.Time.{minute, before}
use codexlink.Auth.Random.{Read, Drawn, drawn, random_string}
use Code.{pairing_alphabet, session_alphabet, normalize_pairing_code, display_code}

pub data PairingFailure : Type 0 where
  invalid expired too_many_attempts rate_limited no_active_session : PairingFailure

pub record PairingResult : Type 0 where
  pub is_ok : Bool
  pub session_id : List ℕ
  pub failure : Option PairingFailure
  pub attempts_left : ℕ

-- `unset` is the empty string, the state of a new manager, which `Status` reports as idle.
pub data PairingState : Type 0 where
  unset idle active consumed expired locked invalidated : PairingState

pub record PairingOptions (N : Type 0) : Type 0 where
  pub ttl : N
  pub max_attempts : N
  pub ip_limit : N
  pub ip_window : N
  pub max_tracked_ips : N

pub record PairingSession : Type 0 where
  pub id : List ℕ
  pub hash : List ℕ
  pub created_at : ℕ
  pub expires_at : ℕ
  pub attempts_left : ℕ

pub record IpCounter : Type 0 where
  pub count : ℕ
  pub reset_at : ℕ

pub record PairingManager : Type 0 where
  pub options : PairingOptions ℕ
  pub open options use *
  pub session : Option PairingSession
  pub state : PairingState
  pub changed_at : ℕ
  pub ip_hits : List (String × IpCounter)

unfoldable pub new_pairing_manager : PairingOptions ℤ → PairingManager
new_pairing_manager o = record {
  options = record {
    ttl = positive_or (5 * minute) o.ttl;
    max_attempts = positive_or 5 o.max_attempts;
    ip_limit = positive_or 10 o.ip_limit;
    ip_window = positive_or minute o.ip_window;
    max_tracked_ips = positive_or 2048 o.max_tracked_ips;
  };
  session = none;
  state = unset;
  changed_at = 0;
  ip_hits = [];
}

-- The session is dropped and the state set, as on every way out of `active`.
abbrev pub close : PairingManager → PairingState → ℕ → PairingManager
close m state now = record m { session = none; state = state; changed_at = now }

abbrev pub refuse : PairingFailure → PairingResult
refuse f = record { is_ok = false; session_id = []; failure = some f; attempts_left = 0 }

unfoldable pub count_ip : PairingManager → String → ℕ → Option IpCounter → PairingManager × Bool
count_ip m ip now none = if leb m.max_tracked_ips (length m.ip_hits) then (m, false) else (
  record m { ip_hits = insert ip (record { count = 1; reset_at = now + m.ip_window }) m.ip_hits },
  true,
)
count_ip m ip now (some counter) =
    let counted : IpCounter = record counter { count = counter.count + 1 } in
    (record m { ip_hits = insert ip counted m.ip_hits }, leb counted.count m.ip_limit)

-- `allowIPLocked`
unfoldable pub allow_ip : PairingManager → String → ℕ → PairingManager × Bool
allow_ip m ip now =
    let kept = record m { ip_hits = retain (λ c. before now c.reset_at) m.ip_hits } in
    if str_eq ip "" then (m, true) else count_ip kept ip now (lookup ip kept.ip_hits)

module _ (hash : List ℕ → List ℕ) where
  -- `Create`, from the random texts that `randomString` returned.
  unfoldable pub create_with : PairingManager → ℕ → List ℕ → List ℕ → PairingManager × List ℕ × ℕ
  create_with m now raw session_id = (
    record m {
      session = some (record {
        id = session_id;
        hash = hash raw;
        created_at = now;
        expires_at = now + m.ttl;
        attempts_left = m.max_attempts;
      });
      state = active;
      changed_at = now;
    },
    display_code raw,
    now + m.ttl,
  )

  -- `none`: `randomString` returned no text, and nothing is changed.
  unfoldable pub create :
      PairingManager → ℕ → List Read → List Read → Option (PairingManager × List ℕ × ℕ)
  create m now raw_reads id_reads = elim (random_string pairing_alphabet 8 raw_reads) [
    | drawn raw ↦ elim (random_string session_alphabet 32 id_reads) [
      | drawn id ↦ some (create_with m now raw id)
      | _ ↦ none
    ]
    | _ ↦ none
  ]

  -- The rest of `Verify` once the address has passed, on the session found.
  unfoldable pub verify_session :
      PairingManager → List ℕ → ℕ → Option PairingSession → PairingManager × PairingResult
  verify_session m input now none = (m, refuse no_active_session)
  verify_session m input now (some s) =
      if not (before now s.expires_at)
      then (close m expired now, refuse expired)
      else if s.attempts_left == 0
      then (close m locked now, refuse too_many_attempts)
      else if bytes_eq (hash (normalize_pairing_code input)) s.hash
      then (
        close m consumed now,
        record { is_ok = true; session_id = s.id; failure = none; attempts_left = 0 },
      )
      else if s.attempts_left - 1 == 0
      then (close m locked now, refuse too_many_attempts)
      else (
        record m { session = some (record s { attempts_left = s.attempts_left - 1 }) },
        record (refuse invalid) { attempts_left = s.attempts_left - 1 },
      )

  unfoldable pub verify : PairingManager → List ℕ → String → ℕ → PairingManager × PairingResult
  verify m input ip now =
      let (m', allowed) = allow_ip m ip now in
      if allowed then verify_session m' input now m'.session else (m', refuse rate_limited)

unfoldable pub status_state : PairingState → PairingState
status_state unset = idle
status_state s = s

-- `Status`; the reported time is `changed_at` of the manager that it leaves.
unfoldable pub status : PairingManager → ℕ → PairingManager × PairingState
unfolding status_state
status m now =
    let m' : PairingManager = elim m.session [
      | none ↦ m
      | some s ↦ if before now s.expires_at then m else close m expired now
    ] in
    (m', status_state m'.state)

unfoldable pub is_active : PairingManager → ℕ → Bool
unfolding status
is_active m now = elim (status m now).1 [ active ↦ true | _ ↦ false ]

unfoldable pub invalidate : PairingManager → ℕ → PairingManager
invalidate m now = close m invalidated now
