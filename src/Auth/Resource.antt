-- ===== src/Auth/Resource.antt =====
-- The canonical form of resource URIs and the tests on redirects, of internal/auth/store.go. `url.Parse`,
-- the printing of a URL and `strings.ToLower` are parameters.
use codexlink.Prelude.{
  ℕ, Bool, true, false, not, ◌||◌, Option, none, some, List, [], ◌∷◌, ◌==◌, if◌then◌else◌, bytes_eq,
  String,
}
use codexlink.Prelude.Text.{codes, is_empty, trim_space}
use mathlib.Core.List.{reverse}

-- The parts of `url.URL` that are read or written.
pub record Url : Type 0 where
  pub scheme : List ℕ
  pub has_user : Bool
  pub host : List ℕ
  pub hostname : List ℕ
  pub port : List ℕ
  pub path : List ℕ
  pub escaped_path : List ℕ
  pub raw_query : List ℕ
  pub fragment : List ℕ

-- net/url and strings of Go's library.
pub record UrlLib : Type 0 where
  pub parse : List ℕ → Option Url
  pub print : Url → List ℕ
  pub to_lower : List ℕ → List ℕ

unfoldable pub drop_slashes : List ℕ → List ℕ
drop_slashes [] = []
drop_slashes (c ∷ cs) = if c == b'/' then drop_slashes cs else c ∷ cs

-- `strings.TrimRight(value, "/")`
unfoldable pub trim_slashes : List ℕ → List ℕ
trim_slashes s = reverse (drop_slashes (reverse s))

module _ (lib : UrlLib) where
  unfoldable pub canonical_url : Option Url → Option (List ℕ)
  canonical_url none = none
  canonical_url (some u) =
      if is_empty u.scheme || is_empty u.host || not (is_empty u.fragment) || u.has_user
      then none
      else some (
          trim_slashes (
            lib.print (record u {
              scheme = lib.to_lower u.scheme;
              host = lib.to_lower u.host;
              path = if bytes_eq u.path (b'/' ∷ []) then [] else u.path;
              raw_query = [];
            })))

  -- `CanonicalResource`, `none` for its error.
  unfoldable pub canonical_resource : String → Option (List ℕ)
  canonical_resource value = canonical_url (lib.parse (trim_space (codes value)))

  unfoldable pub same_canonical : Option (List ℕ) → Option (List ℕ) → Bool
  same_canonical (some l) (some r) = bytes_eq l r
  same_canonical _ _ = false

  -- `sameResource`
  unfoldable pub same_resource : String → String → Bool
  same_resource left right = same_canonical (canonical_resource left) (canonical_resource right)

  unfoldable pub is_allowed_url : Option Url → Bool
  is_allowed_url none = false
  is_allowed_url (some u) =
      if not (is_empty u.fragment) || is_empty u.host || u.has_user
      then false
      else if bytes_eq u.scheme (codes "https")
      then true
      else if not (bytes_eq u.scheme (codes "http"))
      then false
      else (let host = lib.to_lower u.hostname in
          bytes_eq host (codes "localhost")
          || bytes_eq host (codes "127.0.0.1")
          || bytes_eq host (codes "::1"))

  -- `AllowedRedirectURI`
  unfoldable pub allowed_redirect_uri : String → Bool
  allowed_redirect_uri value = is_allowed_url (lib.parse (codes value))
