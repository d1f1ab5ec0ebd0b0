-- ===== src/Auth/Store/Bounds.antt =====
-- The tables of internal/auth/store.go keep within their capacities and have each key once.
pub mod Tables
pub mod Calls
pub mod Histories
use codexlink.Prelude.{
  ℕ, ◌+◌, ◌≤◌, Bool, true, false, not, ◌&&◌, ◌||◌, Option, none, some, List, [], ◌∷◌, ◌≡◌, ◌≢◌,
  refl, arith, String, str_eq, eq_iff, if◌then◌else◌, ltb, leb, length, Result, ok, err, Bool-cases,
  inl, inr, ◌⊎◌, sym, ap, ◌∙◌, Option-cases,
}
use codexlink.Prelude.Assoc.{lookup, insert, delete, retain, IsUnique}
use codexlink.Prelude.Assoc.Laws.{
  lookup-insert, lookup-delete, insert-IsUnique, delete-IsUnique, retain-IsUnique, length-insert_le,
  length-delete_le, length-retain_le, length-delete_old, length-shrinks,
}
use codexlink.Auth.Store.{
  Kind, access, refresh as refresh_kind, TokenRecord, AuthorizationCode, RefreshTombstone, Client,
  Store, TokenSet, Error, Lib, Env, Outcome, prune, write, save, is_live_token, is_live_tombstone,
  is_live_code, capacity, persisted,
}
use codexlink.Auth.Store.Gone.{
  Misses, Gone, insert-Gone, save-Gone, prune-Gone, Gone-trans, same-Gone,
}
use codexlink.Auth.Store.Issue.{
  finish, add_tokens, draw_family, issue_tokens, needed, issues_refresh, family_of, token, contains,
}

pub record IsValid (s : Store) : Type 0 where
  pub unique_tokens : IsUnique s.tokens
  pub unique_codes : IsUnique s.codes
  pub unique_tombstones : IsUnique s.tombstones
  pub unique_clients : IsUnique s.clients
  pub tokens_le : length s.tokens ≤ s.max_tokens
  pub codes_le : length s.codes ≤ s.max_authorization_codes
  pub tombstones_le : length s.tombstones ≤ s.max_refresh_tombstones
  pub clients_le : length s.clients ≤ s.max_clients

pub with_tokens :
    (s : Store) (m : List (String × TokenRecord))
    → IsValid s
    → IsUnique m
    → length m ≤ s.max_tokens
    → IsValid (record s { tokens = m })
with_tokens s m v u l = record {
  unique_tokens = u;
  unique_codes = v.unique_codes;
  unique_tombstones = v.unique_tombstones;
  unique_clients = v.unique_clients;
  tokens_le = l;
  codes_le = v.codes_le;
  tombstones_le = v.tombstones_le;
  clients_le = v.clients_le;
}

pub prune-IsValid : (s : Store) (now : ℕ) → IsValid s → IsValid (prune s now)
unfolding prune
prune-IsValid s now v = record {
  unique_tokens = retain-IsUnique (is_live_token now) s.tokens v.unique_tokens;
  unique_codes = retain-IsUnique (is_live_code now) s.codes v.unique_codes;
  unique_tombstones = retain-IsUnique (is_live_tombstone now) s.tombstones v.unique_tombstones;
  unique_clients = v.unique_clients;
  tokens_le = omega (arith, v.tokens_le, length-retain_le (is_live_token now) s.tokens);
  codes_le = omega (arith, v.codes_le, length-retain_le (is_live_code now) s.codes);
  tombstones_le =
      omega (arith, v.tombstones_le, length-retain_le (is_live_tombstone now) s.tombstones);
  clients_le = v.clients_le;
}

module _ (lib : Lib) where
  write-IsValid : (s : Store) (b : Bool) → IsValid s → IsValid (write lib s b).0
  unfolding write
  write-IsValid s b v =
      let w : IsValid (record s { disk = some (persisted s) }) = record {
        unique_tokens = v.unique_tokens;
        unique_codes = v.unique_codes;
        unique_tombstones = v.unique_tombstones;
        unique_clients = v.unique_clients;
        tokens_le = v.tokens_le;
        codes_le = v.codes_le;
        tombstones_le = v.tombstones_le;
        clients_le = v.clients_le;
      } in
      ground arith

  pub save-IsValid : (s : Store) (env : Env) → IsValid s → IsValid (save lib s env).0
  unfolding save
  save-IsValid s env v = write-IsValid _ env.is_written (prune-IsValid s env.saved_at v)

  pub save-options : (s : Store) (env : Env) → (save lib s env).0.options ≡ s.options
  unfolding save write prune
  save-options s env = ground arith

  -- What issuing leaves: a valid store with the same options, and after an error no token that was not
  -- there before.
  pub record Issued (s : Store) (o : Outcome TokenSet) : Type 0 where
    pub valid : IsValid o.0
    pub same_options : o.0.options ≡ s.options
    pub no_more :
        (e : Error) (h : String)
        → o.1 ≡ err e
        → lookup h s.tokens ≡ none
        → lookup h o.0.tokens ≡ none

  abbrev OnlyNew : Store → String → Option String → Store → Type 0
  OnlyNew s text more s' =
      (h : String)
      → Misses lib h (some text)
      → Misses lib h more
      → lookup h s.tokens ≡ none
      → lookup h s'.tokens ≡ none

  finish-Issued :
      (s : Store) (o : Outcome (Unit {0})) (text : String) (more : Option String)
      (scopes : List String)
      → IsValid o.0
      → o.0.options ≡ s.options
      → OnlyNew s text more o.0
      → Issued s (finish lib o text more scopes)
  unfolding finish
  finish-Issued s (t, ok _) text more scopes v p n = record {
    valid = v;
    same_options = p;
    no_more = λ e h q. absurd (ground arith);
  }
  finish-Issued s (t, err e) text none scopes v p n =
      let k = lib.hash_value text in
      record {
        valid =
            with_tokens t (delete k t.tokens) v (delete-IsUnique k t.tokens v.unique_tokens)
              (omega (arith, v.tokens_le, length-delete_le k t.tokens));
        same_options = p;
        no_more = λ e h q a. elim (Bool-cases (str_eq k h)) [
          | inl same ↦ ground (arith, same, lookup-delete h k t.tokens)
          | inr other ↦ ground (
            arith,
            other,
            lookup-delete h k t.tokens,
            eq_iff k h,
            n h (λ z. ground (arith, z, other, eq_iff k h)) tt a,
          )
        ];
      }
  finish-Issued s (t, err e) text (some r) scopes v p n =
      let k = lib.hash_value text in
      let j = lib.hash_value r in
      let m = delete k t.tokens in
      record {
        valid =
            with_tokens t (delete j m) v
              (delete-IsUnique j m (delete-IsUnique k t.tokens v.unique_tokens))
              (omega (arith, v.tokens_le, length-delete_le k t.tokens, length-delete_le j m));
        same_options = p;
        no_more = λ e h q a. elim (Bool-cases (str_eq k h || str_eq j h)) [
          | inl same ↦ ground (arith, same, lookup-delete h k t.tokens, lookup-delete h j m)
          | inr other ↦ ground (
            arith,
            other,
            lookup-delete h k t.tokens,
            lookup-delete h j m,
            n h (λ z. ground (arith, z, other, eq_iff k h))
                (λ z. ground (arith, z, other, eq_iff j h)) a,
          )
        ];
      }

  -- The save of new tokens.
  saved-Issued :
      (s : Store) (m : List (String × TokenRecord)) (env : Env) (text : String)
      (more : Option String) (scopes : List String)
      → IsValid s
      → IsUnique m
      → length m ≤ s.max_tokens
      → OnlyNew s text more (record s { tokens = m })
      → Issued s (finish lib (save lib (record s { tokens = m }) env) text more scopes)
  saved-Issued s m env text more scopes v u l n =
      let t = record s { tokens = m } in
      finish-Issued s (save lib t env) text more scopes (save-IsValid t env (with_tokens s m v u l))
        (save-options t env) (λ h a b c. (save-Gone lib h t env).token (n h a b c))

  add_tokens-Issued :
      (s : Store) (client_id : String) (scopes : List String) (audience family_id : String)
      (allowed : Bool) (env : Env) (text : String) (more : Option String) (b : Bool)
      → IsValid s
      → length s.tokens + needed b ≤ s.max_tokens
      → Issued s (add_tokens lib s client_id scopes audience family_id allowed env text more b)
  unfolding add_tokens
  add_tokens-Issued s client_id scopes audience family_id allowed env text more false v l =
      let k = lib.hash_value text in
      let a =
        token lib s text access s.access_token_ttl client_id scopes audience family_id allowed
          env.issued_at in
      saved-Issued s (insert k a s.tokens) env text none scopes v
        (insert-IsUnique k a s.tokens v.unique_tokens)
        (omega (arith, l, length-insert_le k a s.tokens))
        (λ h n _ e. (insert-Gone lib h s text a s.tokens n (λ z. z)).token e)
  add_tokens-Issued s client_id scopes audience family_id allowed env text none true v l =
      let k = lib.hash_value text in
      let a =
        token lib s text access s.access_token_ttl client_id scopes audience family_id allowed
          env.issued_at in
      let m = insert k a s.tokens in
      record {
        valid =
            with_tokens s (delete k m) v
              (delete-IsUnique k m (insert-IsUnique k a s.tokens v.unique_tokens))
              (omega (arith, l, length-insert_le k a s.tokens, length-delete_le k m));
        same_options = refl;
        no_more = λ e h q z. ground (arith, z, lookup-delete h k m, lookup-insert h k a s.tokens);
      }
  add_tokens-Issued s client_id scopes audience family_id allowed env text (some r) true v l =
      let k = lib.hash_value text in
      let j = lib.hash_value r in
      let a =
        token lib s text access s.access_token_ttl client_id scopes audience family_id allowed
          env.issued_at in
      let b =
        token lib s r refresh_kind s.refresh_token_ttl client_id scopes audience family_id true
          env.issued_at in
      let m = insert k a s.tokens in
      saved-Issued s (insert j b m) env text (some r) scopes v
        (insert-IsUnique j b m (insert-IsUnique k a s.tokens v.unique_tokens))
        (omega (arith, l, length-insert_le k a s.tokens, length-insert_le j b m))
        (λ h n o e.
          (insert-Gone lib h s r b m o
              (λ z. (insert-Gone lib h s text a s.tokens n (λ y. y)).token z)).token
            e)

  draw_family-Issued :
      (s : Store) (client_id : String) (scopes : List String) (audience : String) (allowed : Bool)
      (env : Env) (text family : Option String)
      → IsValid s
      → length s.tokens + needed (issues_refresh scopes allowed) ≤ s.max_tokens
      → Issued s (draw_family lib s client_id scopes audience allowed env text family)
  unfolding draw_family
  draw_family-Issued s client_id scopes audience allowed env none family v l = record {
    valid = v;
    same_options = refl;
    no_more = λ e h q z. z;
  }
  draw_family-Issued s client_id scopes audience allowed env (some t) none v l = record {
    valid = v;
    same_options = refl;
    no_more = λ e h q z. z;
  }
  draw_family-Issued s client_id scopes audience allowed env (some t) (some f) v l =
      add_tokens-Issued s client_id scopes audience f allowed env t env.refresh_text _ v l

  prune-options : (s : Store) (now : ℕ) → (prune s now).options ≡ s.options
  unfolding prune
  prune-options s now = refl

  Issued-prune : (s : Store) (now : ℕ) (o : Outcome TokenSet) → Issued (prune s now) o → Issued s o
  Issued-prune s now o i = record {
    valid = i.valid;
    same_options = i.same_options ∙ prune-options s now;
    no_more = λ e h q z. i.no_more e h q ((prune-Gone lib h s now).token z);
  }

  pub issue_tokens-Issued :
      (s : Store) (client_id : String) (scopes : List String) (audience family : String)
      (allowed : Bool) (env : Env)
      → IsValid s
      → Issued s (issue_tokens lib s client_id scopes audience family allowed env)
  unfolding issue_tokens
  issue_tokens-Issued s client_id scopes audience family allowed env v =
      let t = prune s env.pruned_again_at in
      let w = prune-IsValid s env.pruned_again_at v in
      elim (Bool-cases
        (ltb t.max_tokens (length t.tokens + needed (issues_refresh scopes allowed)))) [
          | inl full ↦ rw full (
              Issued-prune s env.pruned_again_at (t, err capacity)
                (record { valid = w; same_options = refl; no_more = λ e h q z. z }))
          | inr room ↦ rw room (
              Issued-prune s env.pruned_again_at _ (
                draw_family-Issued t client_id scopes audience allowed env env.access_text
                  (family_of lib family env.family_text) w (ground (arith, room))))
        ]
