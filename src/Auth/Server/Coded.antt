-- ===== src/Auth/Server/Coded.antt =====
-- What `authorizeComplete` of internal/auth/http.go leaves once the pairing code has passed.
use codexlink.Prelude.{
  ℕ, none, some, Option, List, ok, err, refl, true, String, arith, ◌≡◌, length, leb, Bool-cases,
  inl, inr, str_eq_refl, ◌+◌, ap,
}
use codexlink.Prelude.Assoc.{lookup, insert}
use codexlink.Prelude.Assoc.Laws.{lookup-insert, lookup-delete}
use codexlink.Prelude.Text.{codes}
use codexlink.Prelude.Time.{minute}
use codexlink.Auth.Pairing.{PairingManager, PairingResult, verify}
use codexlink.Auth.Store.{AuthorizationCode, Outcome, Env, Store, prune}
use codexlink.Auth.Store.Issue.{create_code}
use codexlink.Auth.Server.{
  Server, Web, Request, Moment, continues, get, client_ip, PendingAuthorization,
  CompletedAuthorization,
}
use codexlink.Auth.Server.Authorize.{grant_of, redirect_to, complete_coded}

module _ (web : Web) where
  -- The verdict on the pairing code of a form.
  abbrev pub verdict :
      Server → Request → Moment → List (String × String) → PairingManager × PairingResult
  verdict s request m form =
      verify web.pairing_hash s.pairing (codes (get form "pairing_code")) (client_ip web request)
        m.paired_at

  -- The code in the store is bound to all that was asked for at the start.
  pub record Bound (p : PendingAuthorization) (c : AuthorizationCode) : Type 0 where
    pub client : c.client_id ≡ p.client_id
    pub redirect : c.redirect_uri ≡ p.redirect_uri
    pub challenge : c.code_challenge ≡ p.code_challenge
    pub scopes : c.scopes ≡ p.scopes
    pub audience : c.audience ≡ p.audience
    pub refresh : c.refresh_allowed ≡ p.refresh_allowed

  -- A pending authorization is completed: `s'` is the state after it.
  pub record Approves (s : Server) (request : Request) (m : Moment) (form : List (String × String))
      (id location : String) (s' : Server) : Type 0 where
    pub pending : PendingAuthorization
    pub waited : lookup id s.pending ≡ some pending
    pub paired : (verdict s request m form).1.is_ok ≡ true
    pub code : String
    pub drawn : m.code ≡ some code
    pub location_eq : location ≡ redirect_to web request pending code
    pub record_ : AuthorizationCode
    pub stored : lookup (web.lib.hash_value code) s'.store.codes ≡ some record_
    pub bound : Bound pending record_
    pub expires : record_.expires_at ≡ m.env.created_at + s.store.auth_code_ttl
    pub taken : s'.pairing ≡ (verdict s request m form).0
    pub gone : lookup id s'.pending ≡ none
    pub kept :
        lookup id s'.completed
        ≡ some (record { location = location; expires_at = m.completed_at + minute })

  -- A completed authorization is answered again, and nothing is changed.
  abbrev pub Repeats : Server → String → String → Server → Type 0
  Repeats s id location s' =
      (lookup id s.pending ≡ none)
      × ((c : CompletedAuthorization) × (lookup id s.completed ≡ some c) × (c.location ≡ location))
      × (s' ≡ s)

  create_code-stored :
      (s : Store) (p : PendingAuthorization) (session : List ℕ) (env : Env) (text : Option String)
      (store : Store) (code : String)
      → create_code web.lib s (grant_of p session) env text ≡ (store, ok code)
      → (text ≡ some code)
        × ((c : AuthorizationCode) × (lookup (web.lib.hash_value code) store.codes ≡ some c)
            × Bound p c
            × (c.expires_at ≡ env.created_at + s.auth_code_ttl))
  unfolding create_code
  create_code-stored s p session env none store code e = ground arith
  create_code-stored s p session env (some text) store code e =
      elim (Bool-cases (
        leb (prune s env.pruned_at).max_authorization_codes
          (length (prune s env.pruned_at).codes))) [
            | inl full ↦ ground (arith, full)
            | inr room ↦
                let c : AuthorizationCode = record {
                  hash = web.lib.hash_value text;
                  client_id = p.client_id;
                  redirect_uri = p.redirect_uri;
                  code_challenge = p.code_challenge;
                  scopes = p.scopes;
                  workspace_id = s.workspace_id;
                  pairing_id = (grant_of p session).pairing_id;
                  audience = p.audience;
                  refresh_allowed = p.refresh_allowed;
                  expires_at = env.created_at + s.auth_code_ttl;
                } in
                let same : text ≡ code = ground (arith, e, room) in
                let there : store.codes
                    ≡ insert (web.lib.hash_value text) c (prune s env.pruned_at).codes =
                  ground (arith, e, room) in
                let found =
                  lookup-insert (web.lib.hash_value code) (web.lib.hash_value text) c
                    (prune s env.pruned_at).codes in
                (
                  ap some same,
                  (
                    c,
                    ground (arith, found, there, same, str_eq_refl (web.lib.hash_value text)),
                    record {
                      client = refl;
                      redirect = refl;
                      challenge = refl;
                      scopes = refl;
                      audience = refl;
                      refresh = refl;
                    },
                    refl,
                  ),
                )
          ]

  pub complete_coded-Approves :
      (s : Server) (request : Request) (m : Moment) (form : List (String × String))
      (id location : String) (p : PendingAuthorization) (o : Outcome String)
      → lookup id s.pending ≡ some p
      → (verdict s request m form).1.is_ok ≡ true
      → create_code web.lib s.store
          (grant_of p (verdict s request m form).1.session_id)
          m.env
          m.code
        ≡ o
      → (complete_coded web
          (record s { pairing = (verdict s request m form).0 })
          request
          m
          id
          p
          o).1
        ≡ continues location
      → Approves s request m form id location
          (complete_coded web
            (record s { pairing = (verdict s request m form).0 })
            request
            m
            id
            p
            o).0
  unfolding complete_coded
  complete_coded-Approves s request m form id location p (store, err e) waited paired made h =
      ground arith
  complete_coded-Approves s request m form id location p (store, ok code) waited paired made h =
      let (drawn, (c, found, bound, expires)) =
        create_code-stored s.store p _ m.env m.code store code made in
      record {
        pending = p;
        waited = waited;
        paired = paired;
        code = code;
        drawn = drawn;
        location_eq = ground (arith, h);
        record_ = c;
        stored = found;
        bound = bound;
        expires = expires;
        taken = refl;
        gone = ground (arith, lookup-delete id id s.pending, str_eq_refl id);
        kept = ground (
          arith,
          h,
          str_eq_refl id,
          lookup-insert id id
              (record {
                location = redirect_to web request p code;
                expires_at = m.completed_at + minute;
              })
              s.completed,
        );
      }
