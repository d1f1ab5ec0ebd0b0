-- ===== src/Auth/Server/Forgotten.antt =====
-- A code or a token that is gone from the store stays away, whatever is requested from
-- internal/auth/http.go, unless the random source draws a text with the same hash.
use codexlink.Prelude.{
  none, some, [], Option, List, ◌∷◌, ok, err, Result, refl, Bool, String, arith, ◌≡◌, Bool-cases,
  inl, inr, sym, Option-cases,
}
use mathlib.Core.Path.{subst}
use codexlink.Prelude.Assoc.{lookup}
use codexlink.Auth.Limits.{allow}
use codexlink.Auth.Pairing.{PairingManager, PairingResult}
use codexlink.Auth.Store.{Client, Error, TokenSet, Outcome, Store}
use codexlink.Auth.Store.Gone.{
  Misses, Gone, same-Gone, Gone-trans, exchange_code-Gone, refresh-Gone,
}
use codexlink.Auth.Store.Used.{
  create_code-Gone, register-Gone as register_client-Gone, revoke-Gone as revoke_token-Gone,
  revoke_all-Gone, revoke_audience-Gone,
}
use codexlink.Auth.Store.Issue.{exchange_code}
use codexlink.Auth.Store.Refresh.{refresh}
use codexlink.Auth.Store.Clients.{register}
use codexlink.Auth.Server.{
  Server, Web, Request, Moment, get, client_ip, prune_pending, PendingAuthorization,
  CompletedAuthorization,
}
use codexlink.Auth.Server.Authorize.{
  grant_of, authorize, authorize_complete, complete_found, complete_replayed, complete_paired,
  complete_coded,
}
use codexlink.Auth.Server.Token.{
  token, token_authenticated, client_named, authenticate, grant, granted,
}
use codexlink.Auth.Server.Access.{revoke, register_client, register_answer}
use codexlink.Auth.Server.Calls.{
  Call, authorizes, asks_token, revokes, registers, pairs, revokes_all, revokes_audience, step, run,
}
use codexlink.Auth.Server.Flow.{record_jti-store, authenticate-store}
use codexlink.Auth.Server.Untouched.{start-Untouched}

module _ (web : Web) (h : String) where
  -- No text that the call draws has the hash.
  abbrev pub CallMisses : Call → Type 0
  CallMisses (authorizes request m) = Misses web.lib h m.code
  CallMisses (asks_token request m) =
      Misses web.lib h m.env.access_text × Misses web.lib h m.env.refresh_text
  CallMisses c = Unit {0}

  abbrev pub RunMisses : List Call → Type 0
  RunMisses [] = Unit {0}
  RunMisses (c ∷ cs) = CallMisses c × RunMisses cs

  same_store : (s t : Store) → t ≡ s → Gone h s t
  same_store s t e = subst (λ z. Gone h s z) (sym e) (same-Gone web.lib h s)

  complete_coded-Gone :
      (s : Server) (request : Request) (m : Moment) (id : String) (p : PendingAuthorization)
      (o : Outcome String)
      → Gone h s.store o.0
      → Gone h s.store (complete_coded web s request m id p o).0.store
  unfolding complete_coded
  complete_coded-Gone s request m id p (store, err e) g = g
  complete_coded-Gone s request m id p (store, ok code) g = g

  complete_paired-Gone :
      (s : Server) (request : Request) (m : Moment) (id : String) (p : PendingAuthorization)
      (pairing : PairingManager) (verdict : PairingResult)
      → Misses web.lib h m.code
      → Gone h s.store (complete_paired web s request m id p (pairing, verdict)).0.store
  unfolding complete_paired
  complete_paired-Gone s request m id p pairing verdict n = elim (Bool-cases verdict.is_ok) [
    | inl paired ↦ rw paired (
        complete_coded-Gone (record s { pairing = pairing }) request m id p _
          (create_code-Gone web.lib h s.store (grant_of p verdict.session_id) m.env m.code n))
    | inr failed ↦ rw failed (same-Gone web.lib h s.store)
  ]

  replayed-store :
      (s : Server) (o : Option CompletedAuthorization)
      → (complete_replayed web s o).0.store ≡ s.store
  unfolding complete_replayed
  replayed-store s none = refl
  replayed-store s (some c) = refl

  complete_found-Gone :
      (s : Server) (request : Request) (m : Moment) (form : List (String × String)) (id : String)
      (o : Option PendingAuthorization)
      → Misses web.lib h m.code
      → Gone h s.store (complete_found web s request m form id o).0.store
  unfolding complete_found
  complete_found-Gone s request m form id (some p) n = complete_paired-Gone s request m id p _ _ n
  complete_found-Gone s request m form id none n =
      same_store s.store _ (replayed-store s (lookup id s.completed))

  complete-Gone :
      (s : Server) (request : Request) (m : Moment)
      → Misses web.lib h m.code
      → Gone h s.store (authorize_complete web s request m).0.store
  unfolding authorize_complete prune_pending
  complete-Gone s request m n =
      let c = same-Gone web.lib h s.store in
      elim (Option-cases request.parameters) [
        | inl none_read ↦ ground arith
        | inr (form, read) ↦
            let g =
              complete_found-Gone (prune_pending s m.pruned_at) request m form
                (get form "request_id")
                (lookup (get form "request_id") (prune_pending s m.pruned_at).pending) n in
            ground (arith, read, g)
      ]

  authorize-Gone :
      (s : Server) (request : Request) (m : Moment)
      → Misses web.lib h m.code
      → Gone h s.store (authorize web s request m).0.store
  unfolding authorize
  authorize-Gone s request m n =
      let a = same_store s.store _ (start-Untouched web s request m).0 in
      let b = complete-Gone s request m n in let c = same-Gone web.lib h s.store in ground arith

  granted-Gone :
      (s : Server) (m : Moment) (client : Client) (jti : String) (o : Outcome TokenSet)
      → Gone h s.store o.0
      → Gone h s.store (granted s m client jti o).0.store
  unfolding granted
  granted-Gone s m client jti (store, err e) g = g
  granted-Gone s m client jti (store, ok set) g =
      rw (record_jti-store (record s { store = store }) client.id jti m.recorded_at) g

  grant-Gone :
      (s : Server) (m : Moment) (form : List (String × String)) (id : String) (client : Client)
      (jti : String)
      → Misses web.lib h m.env.access_text
      → Misses web.lib h m.env.refresh_text
      → Gone h s.store (grant web s m form id client jti).0.store
  unfolding grant
  grant-Gone s m form id client jti n k =
      let a =
        granted-Gone s m client jti
          (exchange_code web.lib s.store (get form "code") id (get form "redirect_uri")
            (get form "code_verifier") (get form "resource") m.env)
          (exchange_code-Gone web.lib h s.store (get form "code") id (get form "redirect_uri")
            (get form "code_verifier") (get form "resource") m.env n k) in
      let b =
        granted-Gone s m client jti
          (refresh web.lib s.store (get form "refresh_token") id (get form "resource") m.env)
          (refresh-Gone web.lib h s.store (get form "refresh_token") id (get form "resource") m.env
            n k) in
      let c = same-Gone web.lib h s.store in ground arith

  authenticated-Gone :
      (m : Moment) (form : List (String × String)) (id : String) (s : Server)
      (o : Option (Client × String))
      → Misses web.lib h m.env.access_text
      → Misses web.lib h m.env.refresh_text
      → Gone h s.store (token_authenticated web m form id (s, o)).0.store
  unfolding token_authenticated
  authenticated-Gone m form id s none n k = same-Gone web.lib h s.store
  authenticated-Gone m form id s (some (client, jti)) n k = grant-Gone s m form id client jti n k

  token-Gone :
      (s : Server) (request : Request) (m : Moment)
      → Misses web.lib h m.env.access_text
      → Misses web.lib h m.env.refresh_text
      → Gone h s.store (token web s request m).0.store
  unfolding token
  token-Gone s request m n k =
      let c = same-Gone web.lib h s.store in
      elim (Option-cases request.parameters) [
        | inl none_read ↦ ground arith
        | inr (form, read) ↦
            let id = client_named web form in
            let a = authenticate web s request m form id in
            let g =
              Gone-trans web.lib h s.store a.0.store _
                (same_store s.store _ (authenticate-store web s request m form id))
                (authenticated-Gone m form id a.0 a.1 n k) in
            ground (arith, read, g)
      ]

  revoke-Gone :
      (s : Server) (request : Request) (m : Moment)
      → Gone h s.store (revoke web s request m).0.store
  unfolding revoke
  revoke-Gone s request m =
      let c = same-Gone web.lib h s.store in
      elim (Option-cases request.parameters) [
        | inl none_read ↦ ground arith
        | inr (form, read) ↦
            let g = revoke_token-Gone web.lib h s.store (get form "token") m.env in
            ground (arith, read, g)
      ]

  register_answer-Gone :
      (s : Server) (b : Bool) (o : Outcome Client)
      → Gone h s.store o.0
      → Gone h s.store (register_answer s b o).0.store
  unfolding register_answer
  register_answer-Gone s b (store, ok client) g = g
  register_answer-Gone s b (store, err e) g = ground arith

  register-Gone :
      (s : Server) (request : Request) (m : Moment) (body : Option (Result Error Client)) (b : Bool)
      → Gone h s.store (register_client web s request m body b).0.store
  unfolding register_client
  register-Gone s request m body b =
      let c = same-Gone web.lib h s.store in
      let s1 = record s {
        register_limiter = (allow s.register_limiter (client_ip web request) m.limited_at).0;
      } in
      elim (Option-cases body) [
        | inl none_read ↦ ground arith
        | inr (client, read) ↦
            let g =
              register_answer-Gone s1 b (register web.lib s.store client m.env)
                (register_client-Gone web.lib h s.store client m.env) in
            ground (arith, read, g)
      ]

  step_server-Gone : (s : Server) (c : Call) → CallMisses c → Gone h s.store (step web s c).store
  unfolding step
  step_server-Gone s (authorizes request m) n = authorize-Gone s request m n
  step_server-Gone s (asks_token request m) n = token-Gone s request m n.0 n.1
  step_server-Gone s (revokes request m) n = revoke-Gone s request m
  step_server-Gone s (registers request m body b) n = register-Gone s request m body b
  step_server-Gone s (pairs c) n = same-Gone web.lib h s.store
  step_server-Gone s (revokes_all env) n = revoke_all-Gone web.lib h s.store env
  step_server-Gone s (revokes_audience audience env) n =
      revoke_audience-Gone web.lib h s.store audience env

  pub run_server-Gone :
      (s : Server) (cs : List Call) → RunMisses cs → Gone h s.store (run web s cs).store
  unfolding run
  run_server-Gone s [] n = same-Gone web.lib h s.store
  run_server-Gone s (c ∷ cs) n =
      Gone-trans web.lib h s.store (step web s c).store _ (step_server-Gone s c n.0)
        (run_server-Gone (step web s c) cs n.1)
