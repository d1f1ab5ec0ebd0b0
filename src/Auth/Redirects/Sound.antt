-- ===== src/Auth/Redirects/Sound.antt =====
-- Which redirect URIs pass for registered ones, in internal/auth/client_metadata.go.
use codexlink.Prelude.{
  ℕ, List, [], ◌∷◌, Option, none, some, bytes_eq_iff, String, ◌≡◌, true, ◌⊎◌, arith, Bool-cases,
  str_eq, inl, str_eq→eq, inr, refl, false, ◌≢◌, ap,
}
use codexlink.Prelude.Text.{codes, is_empty}
use codexlink.Auth.Resource.{Url, UrlLib}
use codexlink.Auth.Redirects.{
  is_http, is_loopback_host, loopback_urls_match, loopback_redirect_matches, redirect_uri_matches,
  String, true, str_eq, false,
}

module _ (lib : UrlLib) where
  -- The two are plain http URLs on one loopback host, without a user or a fragment, and with the same path
  -- and query; the registered one has no port, and the requested one has.
  pub record DiffersInPort (registered requested : String) : Type 0 where
    pub left : Url
    pub right : Url
    pub parsed_left : lib.parse (codes registered) ≡ some left
    pub parsed_right : lib.parse (codes requested) ≡ some right
    pub plain : (is_http left.scheme ≡ true) × (is_http right.scheme ≡ true)
    pub local : is_loopback_host (lib.to_lower right.hostname) ≡ true
    pub same_host : lib.to_lower left.hostname ≡ lib.to_lower right.hostname
    pub no_user : (left.has_user ≡ false) × (right.has_user ≡ false)
    pub no_fragment : (left.fragment ≡ []) × (right.fragment ≡ [])
    pub no_port : left.port ≡ []
    pub named_port : right.port ≢ []
    pub same_path : left.escaped_path ≡ right.escaped_path
    pub same_query : left.raw_query ≡ right.raw_query

  abbrev pub IsRegistered : List String → String → Type 0
  IsRegistered [] requested = ⊥
  IsRegistered (candidate ∷ registered) requested =
      (candidate ≡ requested)
      ⊎ DiffersInPort candidate requested
      ⊎ IsRegistered registered requested

  is_empty→nil : (s : List ℕ) → is_empty s ≡ true → s ≡ []
  is_empty→nil [] e = refl
  is_empty→nil (c ∷ cs) e = ground arith

  not_empty : (s : List ℕ) → is_empty s ≡ false → s ≢ []
  not_empty s e = λ f. ground (arith, ap is_empty f, e)

  loopback_urls_match-DiffersInPort :
      (registered requested : String) (l r : Option Url)
      → lib.parse (codes registered) ≡ l
      → lib.parse (codes requested) ≡ r
      → loopback_urls_match lib l r ≡ true
      → DiffersInPort registered requested
  unfolding loopback_urls_match
  loopback_urls_match-DiffersInPort registered requested (some l) (some r) e f h = record {
    left = l;
    right = r;
    parsed_left = e;
    parsed_right = f;
    plain = ground arith;
    local = ground (arith, bytes_eq_iff (lib.to_lower l.hostname) (lib.to_lower r.hostname));
    same_host = ground (arith, bytes_eq_iff (lib.to_lower l.hostname) (lib.to_lower r.hostname));
    no_user = ground arith;
    no_fragment = ground (arith, is_empty→nil l.fragment, is_empty→nil r.fragment);
    no_port = ground (arith, is_empty→nil l.port);
    named_port = not_empty r.port (ground arith);
    same_path = ground (arith, bytes_eq_iff l.escaped_path r.escaped_path);
    same_query = ground (arith, bytes_eq_iff l.raw_query r.raw_query);
  }
  loopback_urls_match-DiffersInPort registered requested none r e f h = ground arith
  loopback_urls_match-DiffersInPort registered requested (some l) none e f h = ground arith

  -- A redirect URI that passes is one of the registered ones, or names a port where one of them has none
  -- and agrees with it otherwise: both are plain http URLs on the same loopback host, without a user or a
  -- fragment, and with the same path and query.
  pub redirect_uri_matches-IsRegistered :
      (registered : List String) (requested : String)
      → redirect_uri_matches lib registered requested ≡ true
      → IsRegistered registered requested
  unfolding redirect_uri_matches loopback_redirect_matches
  redirect_uri_matches-IsRegistered [] requested h = ground arith
  redirect_uri_matches-IsRegistered (candidate ∷ registered) requested h =
      elim (Bool-cases (str_eq candidate requested)) [
        | inl same ↦ inl (str_eq→eq _ _ same)
        | inr other ↦ elim (Bool-cases (loopback_redirect_matches lib candidate requested)) [
          | inl local ↦
              inr (inl (loopback_urls_match-DiffersInPort candidate requested _ _ refl refl local))
          | inr not_local ↦
              inr (inr (redirect_uri_matches-IsRegistered registered requested (ground arith)))
        ]
      ]
