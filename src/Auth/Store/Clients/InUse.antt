-- ===== src/Auth/Store/Clients/InUse.antt =====
-- The registration of internal/auth/store.go makes room, but not at the cost of a client in use.
use codexlink.Prelude.{
  ℕ, true, false, not, List, [], ◌∷◌, ◌≡◌, ◌≢◌, refl, arith, String, str_eq, eq_iff, ltb, leb,
  length, ok, err, Bool-cases, inl, inr, ap, ◌∙◌,
}
use codexlink.Prelude.Assoc.{lookup, insert, delete, retain, All}
use codexlink.Prelude.Assoc.Laws.{lookup-insert, lookup-delete, retain-All}
use codexlink.Auth.Store.{Client, Store, Lib, Env, Outcome, prune, write, save}
use codexlink.Auth.Store.Clients.{
  is_active, comes_before, insert_candidate, candidates, drop_oldest, make_client_room, registered,
  register,
}

abbrev AllOf : (Client → Type 0) → List Client → Type 0
AllOf P [] = Unit {0}
AllOf P (c ∷ cs) = P c × AllOf P cs

insert_candidate-AllOf :
    (P : Client → Type 0) (c : Client) (cs : List Client)
    → P c
    → AllOf P cs
    → AllOf P (insert_candidate c cs)
unfolding insert_candidate
insert_candidate-AllOf P c [] p a = (p, tt)
insert_candidate-AllOf P c (d ∷ cs) p a = elim (Bool-cases (comes_before d c)) [
  | inl b ↦ rw b (a.0, insert_candidate-AllOf P c cs p a.1)
  | inr b ↦ rw b (p, a)
]

candidates-AllOf :
    (P : Client → Type 0) (m : List (String × Client))
    → All (λ id c. P c) m
    → AllOf P (candidates m)
unfolding candidates
candidates-AllOf P [] a = tt
candidates-AllOf P ((id, c) ∷ m) a =
    insert_candidate-AllOf P c (candidates m) a.0 (candidates-AllOf P m a.1)

lookup-drop_oldest :
    (s : Store) (id : String) (max : ℕ) (cs : List Client) (m : List (String × Client))
    → is_active s id ≡ true
    → AllOf (λ c. not (is_active s c.id) ≡ true) cs
    → lookup id (drop_oldest max cs m) ≡ lookup id m
unfolding drop_oldest
lookup-drop_oldest s id max [] m h a = refl
lookup-drop_oldest s id max (c ∷ cs) m h a =
    let other : str_eq c.id id ≡ false = elim (Bool-cases (str_eq c.id id)) [
      | inr e ↦ e
      | inl e ↦ absurd (ground (arith, h, a.0, ap (is_active s) ((eq_iff c.id id).0 e)))
    ] in
    let rest = lookup-drop_oldest s id max cs (delete c.id m) h a.1 in
    let kept = lookup-delete id c.id m in
    elim (Bool-cases (ltb (length m) max)) [
      | inl room ↦ rw room refl
      | inr full ↦ rw full (rest ∙ kept ∙ rw other refl)
    ]

lookup-make_client_room :
    (s : Store) (id : String)
    → is_active s id ≡ true
    → lookup id (make_client_room s).clients ≡ lookup id s.clients
unfolding make_client_room
lookup-make_client_room s id h =
    let idle = λ (c : Client). not (is_active s c.id) in
    elim (Bool-cases (ltb (length s.clients) s.max_clients)) [
      | inl room ↦ rw room refl
      | inr full ↦ rw full (
          lookup-drop_oldest s id s.max_clients (candidates (retain idle s.clients)) s.clients h (
            candidates-AllOf (λ c. idle c ≡ true) (retain idle s.clients)
              (retain-All idle s.clients)))
    ]

module _ (lib : Lib) where
  save-clients : (s : Store) (env : Env) → (save lib s env).0.clients ≡ s.clients
  unfolding save write prune
  save-clients s env = ground arith

  registered-lookup :
      (s t : Store) (o : Outcome (Unit {0})) (client : Client) (id : String)
      → lookup id s.clients ≡ lookup id t.clients
      → lookup id o.0.clients ≡ lookup id t.clients
      → lookup id (registered lib s o client).0.clients ≡ lookup id t.clients
  unfolding registered
  registered-lookup s t (u, ok _) client id p q = q
  registered-lookup s t (u, err e) client id p q = p

  -- Whatever comes of the registration of a client, another client that has a token or a code in time is
  -- registered afterwards as before.
  pub lookup-register :
      (s : Store) (client : Client) (env : Env) (id : String)
      → is_active (prune s env.pruned_at) id ≡ true
      → client.id ≢ id
      → lookup id (register lib s (ok client) env).0.clients ≡ lookup id s.clients
  unfolding register prune
  lookup-register s client env id h n =
      let t = prune s env.pruned_at in
      let u = make_client_room t in
      let kept = lookup-make_client_room t id h in
      elim (Bool-cases (leb u.max_clients (length u.clients))) [
        | inl full ↦ rw full kept
        | inr room ↦
            let m = insert client.id client u.clients in
            let v = record u { clients = m } in
            let added : lookup id m ≡ lookup id u.clients =
              ground (arith, n, lookup-insert id client.id client u.clients, eq_iff client.id id) in
            rw room (
              registered-lookup t s (save lib v env) client id refl
                (ap (lookup id) (save-clients v env) ∙ added ∙ kept))
      ]
