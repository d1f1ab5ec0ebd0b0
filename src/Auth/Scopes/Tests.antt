-- ===== src/Auth/Scopes/Tests.antt =====
-- `ParseScopes` of internal/auth/store.go at concrete inputs.
use codexlink.Prelude.{ℕ, List, [], ◌∷◌, ◌≡◌, ◌≢◌, refl, ok, if◌then◌else◌, bytes_eq}
use codexlink.Prelude.Text.{codes, is_space, is_empty, trim_left, trim_space}
use codexlink.Auth.Scopes.{
  offline_access, default_scopes, has, onto_first, parts, non_empty_parts, scope_fields, collect,
  some_scope, parse_scopes,
}
use codexlink.Auth.Scopes.Parsed.{IsDistinct, AllSupported, parse_scopes_lem}

program : Unit {0}
unfolding bytes_eq is_space trim_left trim_space has onto_first parts non_empty_parts scope_fields
    collect some_scope parse_scopes
program = tt

abbrev asked : List ℕ
asked = codes " git.read+offline_access git.read"

abbrev given : List (List ℕ)
given = codes "git.read" ∷ offline_access ∷ []

parsed : parse_scopes asked ≡ ok given
unfolding program
parsed = refl

parse_scopes_lem_example :
    IsDistinct given
    × AllSupported given
    × (given ≢ [])
    × ((w : List ℕ)
        → has given w ≡ (
            if is_empty (trim_space asked)
            then has default_scopes w
            else has (scope_fields asked) w))
parse_scopes_lem_example = parse_scopes_lem asked {result = given} parsed
