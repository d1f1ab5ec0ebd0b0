-- ===== src/Auth/Redirects/Tests.antt =====
-- Redirect URIs of internal/auth/client_metadata.go at concrete inputs.
use codexlink.Prelude.{
  ℕ, true, false, none, some, List, [], ◌∷◌, ◌≡◌, refl, String, bytes_eq, if◌then◌else◌,
}
use codexlink.Prelude.Text.{codes}
use codexlink.Auth.Resource.{UrlLib}
use codexlink.Auth.Redirects.{redirect_uri_matches, valid_challenge}
use codexlink.Auth.Redirects.Sound.{IsRegistered, redirect_uri_matches-IsRegistered}

program : Unit {0}
unfolding codexlink.Prelude.Text.text codexlink.Prelude.Text.is_space
    codexlink.Prelude.Text.trim_left codexlink.Prelude.Text.trim_space
    codexlink.Prelude.Text.all_codes codexlink.Prelude.Text.any_code
    codexlink.Prelude.Text.has_prefix codexlink.Prelude.bytes_eq
    codexlink.Auth.Redirects.is_loopback_host codexlink.Auth.Redirects.decimal
    codexlink.Auth.Redirects.is_https_port codexlink.Auth.Redirects.count_symbols
    codexlink.Auth.Redirects.is_raw_base64 codexlink.Auth.Redirects.valid_challenge
    codexlink.Auth.Redirects.loopback_urls_match codexlink.Auth.Redirects.loopback_redirect_matches
    codexlink.Auth.Redirects.redirect_uri_matches codexlink.Auth.Redirects.is_metadata_url
    codexlink.Auth.Redirects.is_metadata_client_id
program = tt

-- Of two URLs, the first has no port.
abbrev urls : UrlLib
urls = record {
  parse = λ text. some (record {
    scheme = codes "http";
    has_user = false;
    host = codes "127.0.0.1";
    hostname = codes "127.0.0.1";
    port = if bytes_eq text (codes "http://127.0.0.1/cb") then [] else codes "9000";
    path = codes "/cb";
    escaped_path = codes "/cb";
    raw_query = [];
    fragment = [];
  });
  print = λ u. u.host;
  to_lower = λ text. text;
}

matches :
    redirect_uri_matches urls
      ("https://c/cb" ∷ "http://127.0.0.1/cb" ∷ [])
      "http://127.0.0.1:9000/cb"
    ≡ true
unfolding program
matches = refl

redirect_uri_matches-IsRegistered_example :
    IsRegistered urls ("https://c/cb" ∷ "http://127.0.0.1/cb" ∷ []) "http://127.0.0.1:9000/cb"
redirect_uri_matches-IsRegistered_example =
    redirect_uri_matches-IsRegistered urls ("https://c/cb" ∷ "http://127.0.0.1/cb" ∷ [])
      "http://127.0.0.1:9000/cb" matches

challenge_ok : valid_challenge "0123456789012345678901234567890123456789012" ≡ true
unfolding program
challenge_ok = refl

challenge_with_padding : valid_challenge "012345678901234567890123456789012345678901=" ≡ false
unfolding program
challenge_with_padding = refl
