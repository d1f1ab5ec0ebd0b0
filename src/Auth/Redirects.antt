-- ===== src/Auth/Redirects.antt =====
-- Redirect URIs and metadata URLs as client identifiers, in internal/auth/client_metadata.go, and the form
-- of PKCE challenges in internal/auth/store.go.
pub mod Sound
mod Tests
use codexlink.Prelude.{
  none, some, [], Option, ℕ, List, Bool, String, Option, bytes_eq, ◌∷◌, ◌||◌, ◌==◌, false,
  if◌then◌else◌, ◌≡◌, ◌*◌, ◌&&◌, ◌+◌, str_eq, some, ltb, ◌⊎◌, ◌-◌, not, true, ◌%◌, [],
}
use codexlink.Prelude.Text.{
  codes, is_empty, is_word, is_digit, all_codes, trim_space, byte_length, text,
}
use codexlink.Auth.Resource.{Url, UrlLib}

-- `isLoopbackRedirectHost`
unfoldable pub is_loopback_host : List ℕ → Bool
is_loopback_host host =
    bytes_eq host (codes "localhost")
    || bytes_eq host (codes "127.0.0.1")
    || bytes_eq host (codes "::1")

abbrev pub is_http : List ℕ → Bool
is_http scheme = bytes_eq scheme (codes "http")

-- The value of a text of digits, as `strconv.Atoi` reads it.
unfoldable pub decimal : ℕ → List ℕ → ℕ
decimal n [] = n
decimal n (c ∷ cs) = decimal (10 * n + (c - b'0')) cs

-- `port == "" || Atoi(port) == 443`
unfoldable pub is_https_port : List ℕ → Bool
is_https_port port = is_empty port || (all_codes is_digit port && decimal 0 port == 443)

-- The characters that `base64.RawURLEncoding` reads, which leaves out the ends of lines.
abbrev pub is_line_end : ℕ → Bool
is_line_end c = c == 10 || c == 13

unfoldable pub count_symbols : List ℕ → ℕ
count_symbols [] = 0
count_symbols (c ∷ cs) = (if is_line_end c then 0 else 1) + count_symbols cs

-- `base64.RawURLEncoding.DecodeString(value)` has no error.
unfoldable pub is_raw_base64 : List ℕ → Bool
is_raw_base64 cs = all_codes (λ c. is_word c || is_line_end c) cs && not (count_symbols cs % 4 == 1)

-- `ValidChallenge`
unfoldable pub valid_challenge : String → Bool
valid_challenge value = byte_length value == 43 && is_raw_base64 (codes value)

module _ (lib : UrlLib) where
  unfoldable pub loopback_urls_match : Option Url → Option Url → Bool
  loopback_urls_match (some l) (some r) =
      if not (is_http l.scheme) || not (is_http r.scheme)
      then false
      else if l.has_user || r.has_user || not (is_empty l.fragment) || not (is_empty r.fragment)
      then false
      else if not (is_empty l.port) || is_empty r.port
      then false
      else if not (is_loopback_host (lib.to_lower l.hostname))
          || not (bytes_eq (lib.to_lower l.hostname) (lib.to_lower r.hostname))
      then false
      else bytes_eq l.escaped_path r.escaped_path && bytes_eq l.raw_query r.raw_query
  loopback_urls_match _ _ = false

  -- `loopbackRedirectMatches`
  unfoldable pub loopback_redirect_matches : String → String → Bool
  loopback_redirect_matches registered requested =
      loopback_urls_match (lib.parse (codes registered)) (lib.parse (codes requested))

  -- `RedirectURIMatches`
  unfoldable pub redirect_uri_matches : List String → String → Bool
  redirect_uri_matches [] requested = false
  redirect_uri_matches (candidate ∷ registered) requested =
      str_eq candidate requested
      || loopback_redirect_matches candidate requested
      || redirect_uri_matches registered requested

  unfoldable pub is_metadata_url : Option Url → Bool
  is_metadata_url none = false
  is_metadata_url (some u) =
      if not (bytes_eq u.scheme (codes "https"))
        || is_empty u.host
        || u.has_user
        || not (is_empty u.fragment)
      then false
      else if is_empty u.path || bytes_eq u.path (codes "/")
      then false
      else is_https_port u.port

  -- `isMetadataClientID`: whether `parseMetadataClientID` has no error.
  unfoldable pub is_metadata_client_id : String → Bool
  is_metadata_client_id client_id =
      let trimmed = trim_space (codes client_id) in
      if ltb 2048 (byte_length (text trimmed)) then false else is_metadata_url (lib.parse trimmed)
