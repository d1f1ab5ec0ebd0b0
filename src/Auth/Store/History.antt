-- ===== src/Auth/Store/History.antt =====
-- The calls of the store in internal/auth/store.go as data, and histories of them in any order.
use codexlink.Prelude.{Option, List, [], ◌∷◌, String, Result}
use codexlink.Auth.Store.{Client, Store, Error, Lib, Env}
use codexlink.Auth.Store.Access.{revoke, revoke_all, revoke_audience}
use codexlink.Auth.Store.Clients.{register}
use codexlink.Auth.Store.Issue.{AuthorizationCodeRequest, create_code, exchange_code}
use codexlink.Auth.Store.Refresh.{refresh}

-- The calls that change the store; the others only read it.
pub data Call : Type 0 where
  registers : Result Error Client → Env → Call
  creates : AuthorizationCodeRequest → Option String → Env → Call
  exchanges : String → String → String → String → String → Env → Call
  refreshes : String → String → String → Env → Call
  revokes : String → Env → Call
  revokes_all : Env → Call
  revokes_audience : String → Env → Call

abbrev pub env_of : Call → Env
env_of (registers client env) = env
env_of (creates request text env) = env
env_of (exchanges code client_id redirect_uri verifier audience env) = env
env_of (refreshes text client_id audience env) = env
env_of (revokes text env) = env
env_of (revokes_all env) = env
env_of (revokes_audience audience env) = env

module _ (lib : Lib) where
  unfoldable pub step : Store → Call → Store
  step s (registers client env) = (register lib s client env).0
  step s (creates request text env) = (create_code lib s request env text).0
  step s (exchanges code client_id redirect_uri verifier audience env) =
      (exchange_code lib s code client_id redirect_uri verifier audience env).0
  step s (refreshes text client_id audience env) = (refresh lib s text client_id audience env).0
  step s (revokes text env) = (revoke lib s text env).0
  step s (revokes_all env) = (revoke_all lib s env).0.0
  step s (revokes_audience audience env) = (revoke_audience lib s audience env).0.0

  unfoldable pub run : Store → List Call → Store
  run s [] = s
  run s (k ∷ ks) = run (step s k) ks
