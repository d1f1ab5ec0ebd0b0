-- ===== src/Auth/Store/Kept.antt =====
-- What a refused refresh leaves to the client, and which access tokens are accepted, in
-- internal/auth/store.go.
use codexlink.Prelude.{
  ℕ, ◌<◌, true, false, Option, none, some, ◌≡◌, refl, arith, String, eq_iff, ok, err, sym, ap, ◌∙◌,
}
use codexlink.Prelude.Assoc.{lookup, insert, delete}
use codexlink.Prelude.Assoc.Laws.{lookup-insert}
use codexlink.Prelude.Time.{unix_milli}
use codexlink.Auth.Store.{
  Kind, access, refresh as refresh_kind, other, TokenRecord, RefreshTombstone, Store, TokenSet,
  Principal, Error, Lib, Env, Outcome, prune,
}
use codexlink.Auth.Store.Access.{principal_of, verify_access}
use codexlink.Auth.Store.Issue.{wrong_target, issue_tokens}
use codexlink.Auth.Store.Refresh.{rotated, rotate, refresh_found, refresh}

module _ (lib : Lib) where
  rotated_kept :
      (h : String) (old : TokenRecord) (o : Outcome TokenSet) {s' : Store} {e : Error}
      → rotated lib h old o ≡ (s', err e)
      → lookup h s'.tokens ≡ some old
  unfolding rotated
  rotated_kept h old (t, ok set) q = absurd (ground arith)
  rotated_kept h old (t, err x) q =
      ap (λ (z : Outcome TokenSet). lookup h z.0.tokens) (sym q)
      ∙ ground (arith, lookup-insert h h old t.tokens, eq_iff h h)

  refresh_found_kept :
      (s : Store) (h client_id audience : String) (env : Env) (o : Option TokenRecord)
      (old : TokenRecord) {s' : Store} {e : Error}
      → lookup h s.tokens ≡ o
      → o ≡ some old
      → refresh_found lib s h client_id audience env o ≡ (s', err e)
      → lookup h s'.tokens ≡ some old
  unfolding refresh_found rotate
  refresh_found_kept s h client_id audience env none old p k q = absurd (ground arith)
  refresh_found_kept s h client_id audience env (some t) old {s'} {e} p k q =
      let tomb : RefreshTombstone = record {
        hash = h;
        family_id = t.family_id;
        audience = t.audience;
        expires_at = t.expires_at;
      } in
      let u = record s { tokens = delete h s.tokens; tombstones = insert h tomb s.tombstones } in
      let o = issue_tokens lib u client_id t.scopes t.audience t.family_id true env in
      let r = rotated_kept h t o {s' = s'} {e = e} in ground (arith, r, k, p, q)

  -- A refresh that fails with a token that is stored and in time, for whatever reason, a failed save
  -- or a lack of room among them, leaves the token in the store as it was.
  pub refresh_kept :
      (s : Store) (text client_id audience : String) (env : Env) (old : TokenRecord) {s' : Store}
      {e : Error}
      → lookup (lib.hash_value text) (prune s env.pruned_at).tokens ≡ some old
      → refresh lib s text client_id audience env ≡ (s', err e)
      → lookup (lib.hash_value text) s'.tokens ≡ some old
  unfolding refresh
  refresh_kept s text client_id audience env old p q =
      refresh_found_kept (prune s env.pruned_at) (lib.hash_value text) client_id audience env _ old
        refl p q

  -- A token that `VerifyAccess` may accept at `now`.
  pub record Accepts (s : Store) (audience : String) (now : ℕ) (t : TokenRecord) : Type 0 where
    pub kind : t.kind ≡ access
    pub in_time : unix_milli now < t.expires_at
    pub same_workspace : t.workspace_id ≡ s.workspace_id
    pub same_target : wrong_target lib audience t.audience ≡ false

  abbrev pub principal : String → TokenRecord → Principal
  principal text t = record {
    token = text;
    client_id = t.client_id;
    workspace_id = t.workspace_id;
    audience = t.audience;
    scopes = t.scopes;
    expires_at = t.expires_at;
  }

  abbrev Verified : Store → String → String → ℕ → Option TokenRecord → Principal → Type 0
  Verified s text audience now o p =
      (t : TokenRecord) × (o ≡ some t) × Accepts s audience now t × (p ≡ principal text t)

  principal_of-Verified :
      (s : Store) (text audience : String) (now : ℕ) (t : TokenRecord) (k : Kind) {p : Principal}
      → t.kind ≡ k
      → principal_of lib s text audience now (some (record t { kind = k })) ≡ ok p
      → Verified s text audience now (some t) p
  unfolding principal_of
  principal_of-Verified s text audience now t access {p} e q = (
    t,
    refl,
    record {
      kind = e;
      in_time = ground (arith, q);
      same_workspace = ground (arith, q, eq_iff t.workspace_id s.workspace_id);
      same_target = ground (arith, q);
    },
    ground (arith, q),
  )
  principal_of-Verified s text audience now t refresh_kind e q = absurd (ground arith)
  principal_of-Verified s text audience now t (other x) e q = absurd (ground arith)

  found-Verified :
      (s : Store) (text audience : String) (now : ℕ) (o : Option TokenRecord) {p : Principal}
      → principal_of lib s text audience now o ≡ ok p
      → Verified s text audience now o p
  found-Verified s text audience now none q = unfold principal_of in absurd (ground arith)
  found-Verified s text audience now (some t) q =
      principal_of-Verified s text audience now t t.kind refl q

  -- `VerifyAccess` accepts a text only if the store has a token under its hash that is an access token, in
  -- time, of this workspace and, if an audience is asked for, bound to that; and the principal has that
  -- token's client, workspace, audience, scopes and time.
  pub verify_access-Verified :
      (s : Store) (text audience : String) (now : ℕ) {p : Principal}
      → verify_access lib s text audience now ≡ ok p
      → Verified s text audience now (lookup (lib.hash_value text) s.tokens) p
  unfolding verify_access
  verify_access-Verified s text audience now q = found-Verified s text audience now _ q
