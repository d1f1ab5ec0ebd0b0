-- ===== src/Auth/Scopes.antt =====
-- `ParseScopes` of internal/auth/store.go. A text is a list of code points.
pub mod Parsed
mod Tests
use codexlink.Prelude.{
  ℕ, Bool, true, false, not, ◌&&◌, ◌||◌, List, [], ◌∷◌, ◌++◌, ◌==◌, if◌then◌else◌, bytes_eq, Result,
  ok, err, map,
}
use codexlink.Prelude.Text.{codes, is_empty, is_space, trim_space}

pub data Error : Type 0 where
  invalid_scope : Error

abbrev pub offline_access : List ℕ
offline_access = codes "offline_access"

abbrev pub default_scopes : List (List ℕ)
default_scopes =
    codes "workspace.read"
    ∷ codes "workspace.search"
    ∷ codes "git.read"
    ∷ codes "execution.read"
    ∷ codes "control.respond"
    ∷ []

abbrev pub supported_scopes : List (List ℕ)
supported_scopes =
    codes "workspace.read"
    ∷ codes "workspace.search"
    ∷ codes "git.read"
    ∷ codes "execution.read"
    ∷ codes "control.respond"
    ∷ offline_access
    ∷ []

-- Whether the text is a key of `allowed` or `seen`.
unfoldable pub has : List (List ℕ) → List ℕ → Bool
has [] w = false
has (x ∷ xs) w = bytes_eq x w || has xs w

unfoldable pub onto_first : ℕ → List (List ℕ) → List (List ℕ)
onto_first c [] = (c ∷ []) ∷ []
onto_first c (w ∷ ws) = (c ∷ w) ∷ ws

-- The parts between white space, empty ones too.
unfoldable pub parts : List ℕ → List (List ℕ)
parts [] = [] ∷ []
parts (c ∷ cs) = let rest = parts cs in if is_space c then [] ∷ rest else onto_first c rest

unfoldable pub non_empty_parts : List (List ℕ) → List (List ℕ)
non_empty_parts [] = []
non_empty_parts (w ∷ ws) = let rest = non_empty_parts ws in if is_empty w then rest else w ∷ rest

-- `strings.Fields(strings.ReplaceAll(requested, "+", " "))`
unfoldable pub scope_fields : List ℕ → List (List ℕ)
scope_fields requested =
    non_empty_parts (parts (map (λ c. if c == b'+' then b' ' else c) requested))

-- The loop; `result` is what has been taken so far, which `seen` holds too.
unfoldable pub collect : List (List ℕ) → List (List ℕ) → Result Error (List (List ℕ))
collect result [] = ok result
collect result (w ∷ ws) =
    let rest = collect (if has result w then result else result ++ (w ∷ [])) ws in
    if not (has supported_scopes w) then err invalid_scope else rest

unfoldable pub some_scope : Result Error (List (List ℕ)) → Result Error (List (List ℕ))
some_scope (err e) = err e
some_scope (ok []) = err invalid_scope
some_scope (ok (w ∷ ws)) = ok (w ∷ ws)

-- `ParseScopes`
unfoldable pub parse_scopes : List ℕ → Result Error (List (List ℕ))
parse_scopes requested =
    if is_empty (trim_space requested)
    then ok default_scopes
    else some_scope (collect [] (scope_fields requested))
