-- ===== src/Auth/Server/Approved.antt =====
-- What an authorization takes in internal/auth/http.go: a pending request and a pairing code that passes.
use mathlib.Core.Path.{subst}
use codexlink.Prelude.{
  none, some, Option, List, refl, true, String, arith, ◌≡◌, ◌≢◌, ◌⊎◌, ◌<◌, Bool-cases, inl, inr,
  ◌+◌, sym,
}
use codexlink.Prelude.Assoc.{lookup}
use codexlink.Prelude.Assoc.Laws.{lookup-retain-none, lookup-retain_kept}
use codexlink.Prelude.Time.{minute, before}
use codexlink.Auth.Server.{
  Server, Web, Request, Moment, continues, get, prune_pending, PendingAuthorization,
  CompletedAuthorization,
}
use codexlink.Auth.Server.Authorize.{
  authorize_complete, complete_found, complete_replayed, complete_paired,
}
use codexlink.Auth.Server.Coded.{verdict, Approves, Repeats, complete_coded-Approves}

module _ (web : Web) where
  completed_again :
      (s : Server) (id location : String) (o : Option CompletedAuthorization)
      → lookup id s.pending ≡ none
      → lookup id s.completed ≡ o
      → (complete_replayed web s o).1 ≡ continues location
      → Repeats web s id location (complete_replayed web s o).0
  unfolding complete_replayed
  completed_again s id location none e f h = ground arith
  completed_again s id location (some c) e f h = (e, (c, f, ground (arith, h)), refl)

  complete_found-Approves :
      (s : Server) (request : Request) (m : Moment) (form : List (String × String))
      (id location : String) (o : Option PendingAuthorization)
      → lookup id s.pending ≡ o
      → (complete_found web s request m form id o).1 ≡ continues location
      → Approves web s request m form id location (complete_found web s request m form id o).0
        ⊎ Repeats web s id location (complete_found web s request m form id o).0
  unfolding complete_found complete_paired
  complete_found-Approves s request m form id location none e h =
      inr (completed_again s id location _ e refl h)
  complete_found-Approves s request m form id location (some p) e h =
      elim (Bool-cases (verdict web s request m form).1.is_ok) [
        | inl paired ↦ rw paired (
            inl (
              complete_coded-Approves web s request m form id location p _ e paired refl
                (ground (arith, h, paired))))
        | inr failed ↦ ground (arith, h, failed)
      ]

  authorize_complete-found :
      (s : Server) (request : Request) (m : Moment) (form : List (String × String))
      → request.parameters ≡ some form
      → authorize_complete web s request m
        ≡ complete_found web
            (prune_pending s m.pruned_at)
            request
            m
            form
            (get form "request_id")
            (lookup (get form "request_id") (prune_pending s m.pruned_at).pending)
  unfolding authorize_complete
  authorize_complete-found s request m form read = ground (arith, read)

  -- A form is answered with a way on only in two cases. Either an authorization waits under its
  -- identifier, in time, and the pairing code of the form passes: then an authorization code was drawn and
  -- stored, bound to the client, redirect URI, challenge, scopes and audience of that authorization, the
  -- way on goes to its redirect URI with that code, and nothing waits under the identifier any more. Or
  -- the authorization was completed less than a minute before: then the way on is the one of then, and
  -- nothing is changed, the pairing code not even looked at.
  pub complete-Approves :
      (s : Server) (request : Request) (m : Moment) (form : List (String × String))
      (location : String)
      → request.parameters ≡ some form
      → (authorize_complete web s request m).1 ≡ continues location
      → Approves web
          (prune_pending s m.pruned_at)
          request
          m
          form
          (get form "request_id")
          location
          (authorize_complete web s request m).0
        ⊎ Repeats web
            (prune_pending s m.pruned_at)
            (get form "request_id")
            location
            (authorize_complete web s request m).0
  complete-Approves s request m form location read h =
      let s1 = prune_pending s m.pruned_at in
      let same = authorize_complete-found s request m form read in
      rw same (
        complete_found-Approves s1 request m form (get form "request_id") location _ refl
          (ground (arith, h, same)))

  repeats :
      (s : Server) (request : Request) (m : Moment) (form : List (String × String)) (id : String)
      (c : CompletedAuthorization)
      → get form "request_id" ≡ id
      → lookup id s.pending ≡ none
      → lookup id s.completed ≡ some c
      → before m.pruned_at c.expires_at ≡ true
      → complete_found web
          (prune_pending s m.pruned_at)
          request
          m
          form
          id
          (lookup id (prune_pending s m.pruned_at).pending)
        ≡ (prune_pending s m.pruned_at, continues c.location)
  unfolding prune_pending complete_found complete_replayed
  repeats s request m form id c same waits found live = ground (
    arith,
    lookup-retain-none id (λ (p : PendingAuthorization). before m.pruned_at p.expires_at) s.pending
        waits,
    lookup-retain_kept id (λ (c : CompletedAuthorization). before m.pruned_at c.expires_at)
        s.completed c found live,
  )

  -- A form that completed an authorization may be sent again within a minute, by anyone and with any
  -- pairing code: it gets the same way on, and no code is made and no attempt counted.
  pub complete_twice :
      (s : Server) (request : Request) (m : Moment) (form : List (String × String))
      (location : String) (later : Request) (n : Moment) (later_form : List (String × String))
      → request.parameters ≡ some form
      → later.parameters ≡ some later_form
      → get later_form "request_id" ≡ get form "request_id"
      → lookup (get form "request_id") (prune_pending s m.pruned_at).pending ≢ none
      → (authorize_complete web s request m).1 ≡ continues location
      → n.pruned_at < m.completed_at + minute
      → authorize_complete web (authorize_complete web s request m).0 later n
        ≡ (prune_pending (authorize_complete web s request m).0 n.pruned_at, continues location)
  complete_twice s request m form location later n later_form read read' same waits h lt =
      elim (complete-Approves s request m form location read h) [
        | inr r ↦ absurd (waits r.0)
        | inl a ↦
            let s' = (authorize_complete web s request m).0 in
            let c : CompletedAuthorization = record {
              location = location;
              expires_at = m.completed_at + minute;
            } in
            let found = authorize_complete-found s' later n later_form read' in
            rw found (
              subst
                (λ id.
                  complete_found web (prune_pending s' n.pruned_at) later n later_form id
                    (lookup id (prune_pending s' n.pruned_at).pending)
                  ≡ (prune_pending s' n.pruned_at, continues location))
                (sym same)
                (repeats s' later n later_form (get form "request_id") c same a.gone a.kept
                  (ground (arith, lt))))
      ]
