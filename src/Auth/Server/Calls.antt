-- ===== src/Auth/Server/Calls.antt =====
-- The requests to internal/auth/http.go and what the local program does to the shared store and pairing
-- manager, as data, and histories of them in any order. A request is one step.
use codexlink.Prelude.{Option, some, List, [], ◌∷◌, Result, Bool, String, ◌≡◌, ◌⊎◌}
use codexlink.Auth.Pairing.Sessions
use codexlink.Auth.Store.{Client, Error, Env}
use codexlink.Auth.Store.Access.{revoke_all, revoke_audience}
use codexlink.Auth.Server.{Server, Web, Request, Moment, Bool, String, get, or_nil}
use codexlink.Auth.Server.Authorize.{authorize, resolve_client}
use codexlink.Auth.Server.Token.{token}
use codexlink.Auth.Server.Access.{revoke, register_client}

pub data Call : Type 0 where
  authorizes asks_token revokes : Request → Moment → Call
  registers : Request → Moment → Option (Result Error Client) → Bool → Call
  pairs : Sessions.Call → Call
  revokes_all : Env → Call
  revokes_audience : String → Env → Call

module _ (web : Web) where
  unfoldable pub step : Server → Call → Server
  step s (authorizes request m) = (authorize web s request m).0
  step s (asks_token request m) = (token web s request m).0
  step s (revokes request m) = (revoke web s request m).0
  step s (registers request m body is_about_redirect) =
      (register_client web s request m body is_about_redirect).0
  step s (pairs c) = record s { pairing = Sessions.step web.pairing_hash s.pairing c }
  step s (revokes_all env) = record s { store = (revoke_all web.lib s.store env).0.0 }
  step s (revokes_audience audience env) = record s {
    store = (revoke_audience web.lib s.store audience env).0.0;
  }

  unfoldable pub run : Server → List Call → Server
  run s [] = s
  run s (c ∷ cs) = run (step s c) cs

  -- The client that a request to the authorization endpoint names.
  abbrev pub NamesClient : Server → Call → Client → Type 0
  NamesClient s (authorizes request m) client =
      resolve_client web s m.resolved (get (or_nil request.parameters) "client_id") ≡ some client
  NamesClient s c client = ⊥

  -- The client was found for one of the requests of the history, in the state that it met.
  abbrev pub WasNamed : Server → List Call → Client → Type 0
  WasNamed s [] client = ⊥
  WasNamed s (c ∷ cs) client = NamesClient s c client ⊎ WasNamed (step s c) cs client
