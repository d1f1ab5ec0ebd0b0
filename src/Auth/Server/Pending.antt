-- ===== src/Auth/Server/Pending.antt =====
-- The authorizations that wait for a pairing code in internal/auth/http.go, and the codes made of them,
-- after any history.
use codexlink.Prelude.{
  ℕ, none, some, Option, List, ok, err, Result, refl, true, Bool, String, arith, ◌≡◌, length, leb,
  ◌≤◌, Bool-cases, inl, inr, not, map, ◌&&◌, Option-cases, sym, ◌∙◌,
}
use codexlink.Prelude.Assoc.{lookup, All, IsUnique}
use codexlink.Prelude.Assoc.Laws.{
  All-retain, All-delete, All-insert, All-lookup, retain-IsUnique, delete-IsUnique, insert-IsUnique,
  length-retain_le, length-delete_le, length-insert_le,
}
use codexlink.Prelude.Time.{before}
use codexlink.Auth.Scopes
use codexlink.Auth.Scopes.{parse_scopes}
use codexlink.Auth.Limits.{RequestLimiter, allow}
use codexlink.Auth.Pairing.{PairingManager, PairingResult}
use codexlink.Auth.Redirects.{redirect_uri_matches, valid_challenge}
use codexlink.Auth.Store.{AuthorizationCode, Client, Outcome}
use codexlink.Auth.Store.Codes.{create_code-AllCodes}
use codexlink.Auth.Store.Issue.{contains}
use codexlink.Auth.Server.{
  Server, Web, Request, Moment, get, or_nil, client_ip, prune_pending, PendingAuthorization,
  CompletedAuthorization, codes, text,
}
use codexlink.Auth.Server.Authorize.{
  grant_of, authorize, authorize_start, start_resolved, start_parsed, start_matched, start_scoped,
  keep_pending, authorize_complete, complete_found, complete_replayed, complete_paired,
  complete_coded, resolve_client,
}

module _ (web : Web) (Q : Client → Type 0) where
  -- A client with the property `Q` whose redirect URIs the URI matches; and `refresh_allowed` tells whether
  -- that client has the grant of refresh tokens.
  abbrev pub IsClient : String → String → Bool → Type 0
  IsClient client_id redirect_uri refresh_allowed =
      (client : Client) × Q client
      × (client.id ≡ client_id)
      × (redirect_uri_matches web.lib.urls client.redirect_uris redirect_uri ≡ true)
      × (contains client.grant_types "refresh_token" ≡ refresh_allowed)

  -- Also a well-formed PKCE challenge, and a refresh token is asked for only where it is allowed.
  abbrev pub Fit : String → String → String → List String → Bool → Type 0
  Fit client_id redirect_uri challenge scopes refresh_allowed =
      (valid_challenge challenge ≡ true)
      × (contains scopes "offline_access" ≡ true → refresh_allowed ≡ true)
      × IsClient client_id redirect_uri refresh_allowed

  abbrev pub FitPending : String → PendingAuthorization → Type 0
  FitPending id p = Fit p.client_id p.redirect_uri p.code_challenge p.scopes p.refresh_allowed

  abbrev pub FitCode : String → AuthorizationCode → Type 0
  FitCode h c = Fit c.client_id c.redirect_uri c.code_challenge c.scopes c.refresh_allowed

  pub record IsValid (s : Server) : Type 0 where
    pub unique : IsUnique s.pending
    pub pending_le : length s.pending ≤ s.limits.max_pending
    pub pending_fit : All FitPending s.pending
    pub codes_fit : All FitCode s.store.codes

  pub prune_pending-IsValid : (s : Server) (now : ℕ) → IsValid s → IsValid (prune_pending s now)
  unfolding prune_pending
  prune_pending-IsValid s now v = record {
    unique = retain-IsUnique _ _ v.unique;
    pending_le = omega (
      arith,
      v.pending_le,
      length-retain_le (λ (p : PendingAuthorization). before now p.expires_at) s.pending,
    );
    pending_fit = All-retain FitPending _ _ v.pending_fit;
    codes_fit = v.codes_fit;
  }

  keep_pending-IsValid :
      (s : Server) (request : Request) (m : Moment) (p : PendingAuthorization)
      → Fit p.client_id p.redirect_uri p.code_challenge p.scopes p.refresh_allowed
      → IsValid s
      → IsValid (keep_pending web s request m p).0
  unfolding keep_pending
  keep_pending-IsValid s request m p fit v =
      let s1 = prune_pending s m.pruned_at in
      let w = prune_pending-IsValid s m.pruned_at v in
      elim (Bool-cases (leb s1.limits.max_pending (length s1.pending))) [
        | inl full ↦ rw full w
        | inr room ↦ rw room (record {
          unique = insert-IsUnique p.id p s1.pending w.unique;
          pending_le = ground (arith, length-insert_le p.id p s1.pending, room);
          pending_fit = All-insert FitPending p.id p s1.pending fit w.pending_fit;
          codes_fit = w.codes_fit;
        })
      ]

  -- What is known of the client once its redirect URI passed.
  abbrev Passes : Request → Client → Type 0
  Passes request client =
      Q client
      × (redirect_uri_matches web.lib.urls client.redirect_uris
            (get (or_nil request.parameters) "redirect_uri")
          ≡ true)

  start_scoped-IsValid :
      (s : Server) (request : Request) (m : Moment) (client : Client) (scopes : List (List ℕ))
      (id : Option String)
      → valid_challenge (get (or_nil request.parameters) "code_challenge") ≡ true
      → Passes request client
      → IsValid s
      → IsValid (start_scoped web s request m client scopes id).0
  unfolding start_scoped
  start_scoped-IsValid s request m client scopes none c k v = ground arith
  start_scoped-IsValid s request m client scopes (some id) c k v =
      elim (Bool-cases (
        contains (map text scopes) "offline_access"
        && not (contains client.grant_types "refresh_token"))) [
          | inl refused ↦ rw refused v
          | inr allowed ↦ rw allowed (
              keep_pending-IsValid s request m _
                (c, λ o. ground (arith, o, allowed), (client, k.0, refl, k.1, refl)) v)
        ]

  start_parsed-IsValid :
      (s : Server) (request : Request) (m : Moment) (client : Client)
      (r : Result Scopes.Error (List (List ℕ)))
      → valid_challenge (get (or_nil request.parameters) "code_challenge") ≡ true
      → Passes request client
      → IsValid s
      → IsValid (start_parsed web s request m client r).0
  unfolding start_parsed
  start_parsed-IsValid s request m client (err e) c k v = v
  start_parsed-IsValid s request m client (ok scopes) c k v =
      start_scoped-IsValid s request m client scopes m.request_id c k v

  start_matched-IsValid :
      (s : Server) (request : Request) (m : Moment) (client : Client)
      → Passes request client
      → IsValid s
      → IsValid (start_matched web s request m client).0
  unfolding start_matched
  start_matched-IsValid s request m client k v =
      elim (Bool-cases (valid_challenge (get (or_nil request.parameters) "code_challenge"))) [
        | inl good ↦
            let w =
              start_parsed-IsValid s request m client
                (parse_scopes (codes (get (or_nil request.parameters) "scope"))) good k v in
            ground arith
        | inr bad ↦ ground (arith, bad)
      ]

  start_resolved-IsValid :
      (s : Server) (request : Request) (m : Moment) (o : Option Client)
      → ((client : Client) → o ≡ some client → Q client)
      → IsValid s
      → IsValid (start_resolved web s request m o).0
  unfolding start_resolved
  start_resolved-IsValid s request m none k v = v
  start_resolved-IsValid s request m (some client) k v =
      let redirect = get (or_nil request.parameters) "redirect_uri" in
      elim (Bool-cases (redirect_uri_matches web.lib.urls client.redirect_uris redirect)) [
        | inl good ↦ rw good (start_matched-IsValid s request m client (k client refl, good) v)
        | inr bad ↦ rw bad v
      ]

  resolve_client-limited :
      (s : Server) (limiter : RequestLimiter) (resolved : Option Client) (id : String)
      → resolve_client web (record s { authorize_limiter = limiter }) resolved id
        ≡ resolve_client web s resolved id
  unfolding resolve_client
  resolve_client-limited s limiter resolved id = refl

  start-IsValid :
      (s : Server) (request : Request) (m : Moment)
      → ((client : Client)
          → resolve_client web s m.resolved (get (or_nil request.parameters) "client_id")
            ≡ some client
          → Q client)
      → IsValid s
      → IsValid (authorize_start web s request m).0
  unfolding authorize_start
  start-IsValid s request m k v =
      let s1 = record s {
        authorize_limiter = (allow s.authorize_limiter (client_ip web request) m.limited_at).0;
      } in
      let w : IsValid s1 = record {
        unique = v.unique;
        pending_le = v.pending_le;
        pending_fit = v.pending_fit;
        codes_fit = v.codes_fit;
      } in
      elim (Bool-cases (allow s.authorize_limiter (client_ip web request) m.limited_at).1) [
        | inl passed ↦ rw passed (
            start_resolved-IsValid s1 request m _
              (λ client e. k client (sym (resolve_client-limited s _ m.resolved _) ∙ e)) w)
        | inr stopped ↦ rw stopped w
      ]

  complete_coded-IsValid :
      (s : Server) (request : Request) (m : Moment) (id : String) (p : PendingAuthorization)
      (o : Outcome String)
      → All FitCode o.0.codes
      → IsValid s
      → IsValid (complete_coded web s request m id p o).0
  unfolding complete_coded
  complete_coded-IsValid s request m id p (store, err e) a v = record {
    unique = v.unique;
    pending_le = v.pending_le;
    pending_fit = v.pending_fit;
    codes_fit = a;
  }
  complete_coded-IsValid s request m id p (store, ok code) a v = record {
    unique = delete-IsUnique id s.pending v.unique;
    pending_le = omega (arith, v.pending_le, length-delete_le id s.pending);
    pending_fit = All-delete FitPending id s.pending v.pending_fit;
    codes_fit = a;
  }

  Fit-code :
      (c : AuthorizationCode) (p : PendingAuthorization)
      → Fit p.client_id p.redirect_uri p.code_challenge p.scopes p.refresh_allowed
      → c.client_id ≡ p.client_id
      → c.redirect_uri ≡ p.redirect_uri
      → c.code_challenge ≡ p.code_challenge
      → c.scopes ≡ p.scopes
      → c.refresh_allowed ≡ p.refresh_allowed
      → FitCode c.hash c
  Fit-code c p fit d r e f g =
      let (client, q, i, u, a) = fit.2 in
      (rw e fit.0, rw (f, g) fit.1, (client, q, i ∙ sym d, rw r u, a ∙ sym g))

  complete_paired-IsValid :
      (s : Server) (request : Request) (m : Moment) (id : String) (p : PendingAuthorization)
      (pairing : PairingManager) (verdict : PairingResult)
      → Fit p.client_id p.redirect_uri p.code_challenge p.scopes p.refresh_allowed
      → IsValid s
      → IsValid (complete_paired web s request m id p (pairing, verdict)).0
  unfolding complete_paired
  complete_paired-IsValid s request m id p pairing verdict fit v =
      let s1 = record s { pairing = pairing } in
      let w : IsValid s1 = record {
        unique = v.unique;
        pending_le = v.pending_le;
        pending_fit = v.pending_fit;
        codes_fit = v.codes_fit;
      } in
      elim (Bool-cases verdict.is_ok) [
        | inl paired ↦ rw paired (
            complete_coded-IsValid s1 request m id p _
              (create_code-AllCodes web.lib FitCode s.store (grant_of p verdict.session_id) m.env
                m.code (λ c h d r e f g. Fit-code c p fit d r e f g) v.codes_fit)
              w)
        | inr failed ↦ rw failed w
      ]

  replayed-IsValid :
      (s : Server) (o : Option CompletedAuthorization)
      → IsValid s
      → IsValid (complete_replayed web s o).0
  unfolding complete_replayed
  replayed-IsValid s none v = v
  replayed-IsValid s (some c) v = v

  complete_found-IsValid :
      (s : Server) (request : Request) (m : Moment) (form : List (String × String)) (id : String)
      (o : Option PendingAuthorization)
      → lookup id s.pending ≡ o
      → IsValid s
      → IsValid (complete_found web s request m form id o).0
  unfolding complete_found
  complete_found-IsValid s request m form id (some p) e v =
      complete_paired-IsValid s request m id p _ _
        (All-lookup FitPending id p s.pending v.pending_fit e) v
  complete_found-IsValid s request m form id none e v = replayed-IsValid s (lookup id s.completed) v

  complete-IsValid :
      (s : Server) (request : Request) (m : Moment)
      → IsValid s
      → IsValid (authorize_complete web s request m).0
  unfolding authorize_complete
  complete-IsValid s request m v = elim (Option-cases request.parameters) [
    | inl none_read ↦ ground arith
    | inr (form, read) ↦
        let w =
          complete_found-IsValid (prune_pending s m.pruned_at) request m form
            (get form "request_id") _ refl (prune_pending-IsValid s m.pruned_at v) in
        ground (arith, read, w)
  ]

  pub authorize-IsValid :
      (s : Server) (request : Request) (m : Moment)
      → ((client : Client)
          → resolve_client web s m.resolved (get (or_nil request.parameters) "client_id")
            ≡ some client
          → Q client)
      → IsValid s
      → IsValid (authorize web s request m).0
  unfolding authorize
  authorize-IsValid s request m k v =
      let a = start-IsValid s request m k v in
      let b = complete-IsValid s request m v in ground arith
