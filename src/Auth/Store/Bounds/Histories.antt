-- ===== src/Auth/Store/Bounds/Histories.antt =====
-- The tables of internal/auth/store.go keep within their capacities over every history of calls.
use codexlink.Prelude.{none, List, [], ◌∷◌, arith, String}
use codexlink.Prelude.Int.{ℤ}
use codexlink.Auth.Store.{StoreOptions, Store, Lib, new_store}
use codexlink.Auth.Store.Bounds.{IsValid}
use codexlink.Auth.Store.History.{
  Call, registers, creates, exchanges, refreshes, revokes, revokes_all, revokes_audience, step, run,
}
use codexlink.Auth.Store.Bounds.Calls.{
  register-IsValid, create_code-IsValid, exchange_code-IsValid, refresh-IsValid, revoke-IsValid,
  revoke_all-IsValid, revoke_audience-IsValid,
}

module _ (lib : Lib) where
  pub step-IsValid : (s : Store) (k : Call) → IsValid s → IsValid (step lib s k)
  unfolding step
  step-IsValid s (registers client env) v = register-IsValid lib s client env v
  step-IsValid s (creates request text env) v = create_code-IsValid lib s request env text v
  step-IsValid s (exchanges code client_id redirect_uri verifier audience env) v =
      exchange_code-IsValid lib s code client_id redirect_uri verifier audience env v
  step-IsValid s (refreshes text client_id audience env) v =
      refresh-IsValid lib s text client_id audience env v
  step-IsValid s (revokes text env) v = revoke-IsValid lib s text env v
  step-IsValid s (revokes_all env) v = revoke_all-IsValid lib s env v
  step-IsValid s (revokes_audience audience env) v = revoke_audience-IsValid lib s audience env v

  run-IsValid : (s : Store) (ks : List Call) → IsValid s → IsValid (run lib s ks)
  unfolding run
  run-IsValid s [] v = v
  run-IsValid s (k ∷ ks) v = run-IsValid (step lib s k) ks (step-IsValid s k v)

  -- After any history of calls on a store that was opened without a file, whatever the random source and
  -- the saves did: no table is larger than its capacity, also where a failed rotation puts a token back,
  -- and each has every key once.
  pub run_tokens-IsValid :
      (workspace_id : String) (o : StoreOptions ℤ) (ks : List Call)
      → IsValid (run lib (new_store workspace_id o none) ks)
  run_tokens-IsValid workspace_id o ks = run-IsValid (new_store workspace_id o none) ks (record {
    unique_tokens = tt;
    unique_codes = tt;
    unique_tombstones = tt;
    unique_clients = tt;
    tokens_le = omega arith;
    codes_le = omega arith;
    tombstones_le = omega arith;
    clients_le = omega arith;
  })
