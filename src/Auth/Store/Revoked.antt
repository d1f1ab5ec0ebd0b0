-- ===== src/Auth/Store/Revoked.antt =====
-- What revocation leaves in the store of internal/auth/store.go: `Revoke`, `RevokeAudience`, and the
-- revocation by a replayed refresh token. It is about the store in memory: a failed save leaves the file as
-- it is, and a store that is opened from it has what was saved last.
use codexlink.Prelude.{
  ℕ, Bool, not, ◌&&◌, Option, none, some, List, ◌≡◌, ◌≢◌, refl, arith, String, str_eq, eq_iff, err,
  Bool-cases, inl, inr, sym, ap, ◌∙◌,
}
use codexlink.Prelude.Assoc.{lookup, retain, IsUnique, All, filter_some}
use codexlink.Prelude.Assoc.Laws.{
  lookup-delete, lookup-retain, lookup-retain-none, All-retain, retain-All, All-map,
  retain-IsUnique,
}
use codexlink.Auth.Resource.{same_resource}
use codexlink.Auth.Store.{
  TokenRecord, RefreshTombstone, Store, unknown, Lib, Env, prune, write, save, is_live_token,
}
use codexlink.Auth.Store.Access.{principal_of, verify_access, revoke_found, revoke, revoke_audience}
use codexlink.Auth.Store.Gone.{RunMisses}
use codexlink.Auth.Store.History.{Call, run}
use codexlink.Auth.Store.Issue.{revoke_family}
use codexlink.Auth.Store.Used.{run-Gone}
use codexlink.Auth.Store.Refresh.{replayed, refresh_found, refresh}

-- No token of the family.
abbrev pub NoneOf : String → List (String × TokenRecord) → Type 0
NoneOf family = All (λ k (t : TokenRecord). t.family_id ≢ family)

revoke_family-NoneOf :
    (family : String) (m : List (String × TokenRecord))
    → family ≢ ""
    → NoneOf family (revoke_family family m)
unfolding revoke_family
revoke_family-NoneOf family m n =
    let a = retain-All (λ (t : TokenRecord). not (str_eq t.family_id family)) m in
    elim (Bool-cases (str_eq family "")) [
      | inl e ↦ absurd (n ((eq_iff family "").0 e))
      | inr e ↦ rw e (All-map _ (λ k v h p. ground (arith, h, p, eq_iff v.family_id family)) a)
    ]

filter_twice :
    (f g : TokenRecord → Bool) (o : Option TokenRecord)
    → filter_some g (filter_some f o) ≡ filter_some (λ t. g t && f t) o
filter_twice f g none = refl
filter_twice f g (some t) = ground arith

module _ (lib : Lib) where
  write-tokens : (s : Store) (b : Bool) → (write lib s b).0.tokens ≡ s.tokens
  unfolding write
  write-tokens s b = ground arith

  pub save-tokens :
      (s : Store) (env : Env)
      → (save lib s env).0.tokens ≡ retain (is_live_token env.saved_at) s.tokens
  unfolding save prune
  save-tokens s env = write-tokens (prune s env.saved_at) env.is_written

  write-tombstones : (s : Store) (b : Bool) → (write lib s b).0.tombstones ≡ s.tombstones
  unfolding write
  write-tombstones s b = ground arith

  save-NoneOf :
      (family : String) (s : Store) (env : Env)
      → NoneOf family s.tokens
      → NoneOf family (save lib s env).0.tokens
  save-NoneOf family s env a = rw (save-tokens s env) (All-retain _ _ s.tokens a)

  replayed-NoneOf :
      (s : Store) (env : Env) (o : Option RefreshTombstone) (t : RefreshTombstone)
      → o ≡ some t
      → t.family_id ≢ ""
      → NoneOf t.family_id (replayed lib s env o).0.tokens
  unfolding replayed
  replayed-NoneOf s env none t e n = absurd (ground arith)
  replayed-NoneOf s env (some u) t e n =
      let same : u.family_id ≡ t.family_id = ground (arith, e) in
      let v = record s { tokens = revoke_family u.family_id s.tokens } in
      rw (sym same) (
        save-NoneOf u.family_id v env
          (revoke_family-NoneOf u.family_id s.tokens (λ z. n (sym same ∙ z))))

  refresh_found_replay :
      (s : Store) (h client_id audience : String) (env : Env) (o : Option TokenRecord)
      (t : RefreshTombstone)
      → o ≡ none
      → lookup h s.tombstones ≡ some t
      → t.family_id ≢ ""
      → NoneOf t.family_id (refresh_found lib s h client_id audience env o).0.tokens
  unfolding refresh_found
  refresh_found_replay s h client_id audience env none t e f n = replayed-NoneOf s env _ t f n
  refresh_found_replay s h client_id audience env (some u) t e f n = absurd (ground arith)

  -- A refresh with a used token, one that is not stored and has a tombstone in time and with a family,
  -- leaves no token of the family, whether the state is saved or not.
  pub refresh_replay :
      (s : Store) (text client_id audience : String) (env : Env) (t : RefreshTombstone)
      → lookup (lib.hash_value text) (prune s env.pruned_at).tokens ≡ none
      → lookup (lib.hash_value text) (prune s env.pruned_at).tombstones ≡ some t
      → t.family_id ≢ ""
      → NoneOf t.family_id (refresh lib s text client_id audience env).0.tokens
  unfolding refresh
  refresh_replay s text client_id audience env t e f n =
      refresh_found_replay (prune s env.pruned_at) (lib.hash_value text) client_id audience env _ t
        e f n

  revoke_found_gone :
      (s : Store) (h : String) (o : Option TokenRecord) (tomb : Option RefreshTombstone)
      (t : TokenRecord)
      → IsUnique s.tokens
      → lookup h s.tokens ≡ some t
      → o ≡ some t
      → lookup h (revoke_found lib s h o tomb).tokens ≡ none
  unfolding revoke_found revoke_family
  revoke_found_gone s h none tomb t u e f = absurd (ground arith)
  revoke_found_gone s h (some v) tomb t u e f = ground (
    arith,
    e,
    f,
    lookup-delete h h s.tokens,
    eq_iff h h,
    eq_iff t.family_id t.family_id,
    lookup-retain h (λ (x : TokenRecord). not (str_eq x.family_id v.family_id)) s.tokens u,
  )

  revoke_found-NoneOf :
      (s : Store) (h : String) (o : Option TokenRecord) (tomb : Option RefreshTombstone)
      (t : TokenRecord)
      → o ≡ some t
      → t.family_id ≢ ""
      → NoneOf t.family_id (revoke_found lib s h o tomb).tokens
  unfolding revoke_found
  revoke_found-NoneOf s h none tomb t e n = absurd (ground arith)
  revoke_found-NoneOf s h (some v) tomb t e n =
      let same : v.family_id ≡ t.family_id = ground (arith, e) in
      elim (Bool-cases (str_eq v.family_id "")) [
        | inl z ↦ absurd (n (sym same ∙ (eq_iff v.family_id "").0 z))
        | inr z ↦
            rw (z, sym same) (revoke_family-NoneOf v.family_id s.tokens (λ y. n (sym same ∙ y)))
      ]

  pub verify_unknown :
      (s : Store) (text audience : String) (now : ℕ)
      → lookup (lib.hash_value text) s.tokens ≡ none
      → verify_access lib s text audience now ≡ err unknown
  unfolding verify_access principal_of
  verify_unknown s text audience now e = rw e refl

  pub revoke-gone :
      (s : Store) (text : String) (env : Env) (t : TokenRecord)
      → IsUnique s.tokens
      → lookup (lib.hash_value text) s.tokens ≡ some t
      → lookup (lib.hash_value text) (revoke lib s text env).0.tokens ≡ none
  unfolding revoke
  revoke-gone s text env t u e =
      let h = lib.hash_value text in
      let tomb = lookup h s.tombstones in
      let v = revoke_found lib s h (lookup h s.tokens) tomb in
      ap (lookup h) (save-tokens v env)
      ∙ lookup-retain-none h (is_live_token env.saved_at) v.tokens
          (revoke_found_gone s h _ tomb t u e e)

  revoke-NoneOf :
      (s : Store) (text : String) (env : Env) (t : TokenRecord)
      → lookup (lib.hash_value text) s.tokens ≡ some t
      → t.family_id ≢ ""
      → NoneOf t.family_id (revoke lib s text env).0.tokens
  unfolding revoke
  revoke-NoneOf s text env t e n =
      let h = lib.hash_value text in
      let tomb = lookup h s.tombstones in
      save-NoneOf t.family_id (revoke_found lib s h (lookup h s.tokens) tomb) env
        (revoke_found-NoneOf s h _ tomb t e n)

  -- A revoked token is unknown to the store in memory, right after it is revoked and after any calls that
  -- follow, none of which draws a text with the token's hash; and the revocation leaves no token of its
  -- family in memory, if it has one. This needs that the token is in the table and the table has each token
  -- once, and holds whether the saves succeed or not.
  pub verify_access-revoke :
      (s : Store) (text audience : String) (env : Env) (ks : List Call) (now : ℕ) (t : TokenRecord)
      → IsUnique s.tokens
      → lookup (lib.hash_value text) s.tokens ≡ some t
      → RunMisses lib (lib.hash_value text) ks
      → (verify_access lib (run lib (revoke lib s text env).0 ks) text audience now ≡ err unknown)
        × (t.family_id ≢ "" → NoneOf t.family_id (revoke lib s text env).0.tokens)
  verify_access-revoke s text audience env ks now t u e misses =
      let h = lib.hash_value text in
      let s1 = (revoke lib s text env).0 in
      (
        verify_unknown (run lib s1 ks) text audience now
            ((run-Gone lib h s1 ks misses).token (revoke-gone s text env t u e)),
        λ n. revoke-NoneOf s text env t e n,
      )

  -- `RevokeAudience` on a table with each token once keeps exactly the tokens in time whose audience is
  -- another one, whether the state is saved or not.
  pub lookup-revoke_audience :
      (s : Store) (audience h : String) (env : Env)
      → IsUnique s.tokens
      → lookup h (revoke_audience lib s audience env).0.0.tokens
        ≡ filter_some
            (λ (t : TokenRecord).
              is_live_token env.saved_at t && not (same_resource lib.urls t.audience audience))
            (lookup h s.tokens)
  unfolding revoke_audience
  lookup-revoke_audience s audience h env u =
      let keep = λ (t : TokenRecord). not (same_resource lib.urls t.audience audience) in
      ap (lookup h) (save-tokens _ env)
      ∙ lookup-retain h (is_live_token env.saved_at) (retain keep s.tokens)
          (retain-IsUnique keep s.tokens u)
      ∙ ap (filter_some (is_live_token env.saved_at)) (lookup-retain h keep s.tokens u)
      ∙ filter_twice keep (is_live_token env.saved_at) (lookup h s.tokens)
