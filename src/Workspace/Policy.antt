-- ===== src/Workspace/Policy.antt =====
-- internal/workspace/policy.go: the patterns of files that are hidden. A pattern and a path are lists of
-- code points; `/` is the separator. A regular expression that the code builds is its list of parts.
pub mod Glob
pub mod Reads
pub mod Whole
pub mod Last
pub mod Plain
pub mod Names
pub mod Named
pub mod Builtin
mod Tests
use codexlink.Prelude.{
  ℕ, Bool, true, false, not, ◌&&◌, ◌||◌, Option, none, some, List, [], ◌∷◌, ◌++◌, ◌==◌,
  if◌then◌else◌, bytes_eq, String, map,
}
use codexlink.Prelude.Text.{codes, is_empty, trim_space, has_prefix}
use mathlib.Core.List.{reverse}
use Glob.{Item, any_dirs, tokens, items_of, matches_items, at_end, inside}

-- `re` is the compiled expression's `MatchString`.
pub record IgnoreRule : Type 0 where
  pub negated : Bool
  pub re : List ℕ → Bool

abbrev pub slash : List ℕ
slash = b'/' ∷ []

-- `strings.TrimPrefix(s, "/")`
unfoldable pub trim_first : List ℕ → List ℕ
trim_first [] = []
trim_first (c ∷ cs) = if c == b'/' then cs else c ∷ cs

-- `strings.TrimSuffix(s, "/")`
abbrev pub trim_last : List ℕ → List ℕ
trim_last s = reverse (trim_first (reverse s))

-- `strings.HasSuffix(s, "/")`
abbrev pub ends_in_slash : List ℕ → Bool
ends_in_slash s = has_prefix (reverse s) slash

unfoldable pub contains_slash : List ℕ → Bool
contains_slash [] = false
contains_slash (c ∷ cs) = c == b'/' || contains_slash cs

-- `strings.ReplaceAll(pattern, "\\", "/")`
unfoldable pub to_slashes : List ℕ → List ℕ
to_slashes [] = []
to_slashes (c ∷ cs) = (if c == 92 then b'/' else c) ∷ to_slashes cs

unfoldable pub drop_one : List ℕ → List ℕ
drop_one [] = []
drop_one (c ∷ cs) = cs

-- What `regexp.Compile` makes of the parts: `^`, the prefix, the body and the suffix with `$`.
unfoldable pub expression : Bool → Bool → List Item → List ℕ → Bool
expression fixed directory_only body =
    matches_items (if fixed then body else any_dirs ∷ body)
      (if directory_only then inside else at_end)

unfoldable pub rule_of : Bool → Bool → Bool → Option (List Item) → Option IgnoreRule
rule_of negated fixed directory_only none = none
rule_of negated fixed directory_only (some body) =
    some (record { negated = negated; re = expression fixed directory_only body })

-- `compileIgnoreRule` once the negation is taken off.
unfoldable pub compile_body : Bool → List ℕ → Option IgnoreRule
compile_body negated raw =
    let slashed = to_slashes raw in
    let unrooted = trim_first slashed in
    let body = trim_last unrooted in
    if is_empty body
    then none
    else rule_of negated (has_prefix slashed slash || contains_slash body) (ends_in_slash unrooted)
        (items_of (tokens none body))

-- `compileIgnoreRule`, `none` for no rule.
unfoldable pub compile_ignore_rule : List ℕ → Option IgnoreRule
compile_ignore_rule raw =
    let pattern = trim_space raw in
    if is_empty pattern || has_prefix pattern (codes "#")
    then none
    else if has_prefix pattern (codes "\\!")
    then compile_body false (drop_one pattern)
    else if has_prefix pattern (codes "!")
    then compile_body true (drop_one pattern)
    else compile_body false pattern

unfoldable pub onto_rule : Option IgnoreRule → List IgnoreRule → List IgnoreRule
onto_rule none rules = rules
onto_rule (some rule) rules = rule ∷ rules

-- `newRuleSet`
unfoldable pub new_rule_set : List (List ℕ) → List IgnoreRule
new_rule_set [] = []
new_rule_set (p ∷ ps) = onto_rule (compile_ignore_rule p) (new_rule_set ps)

unfoldable pub trim_dot : List ℕ → List ℕ
trim_dot s = if has_prefix s (codes "./") then drop_one (drop_one s) else s

-- `normalizeRelative`. Its `filepath.ToSlash` changes nothing where `/` is the separator, as on Unix; on
-- Windows it also turns each backslash of the path into a slash, which is outside of the model.
unfoldable pub normalize_relative : List ℕ → List ℕ
normalize_relative path = trim_last (trim_first (trim_dot path))

-- The loop of `matches`.
unfoldable pub ignored : List IgnoreRule → List ℕ → Bool → Bool
ignored [] path so_far = so_far
ignored (r ∷ rs) path so_far = ignored rs path (if r.re path then not r.negated else so_far)

-- `matches`
unfoldable pub matches : List IgnoreRule → List ℕ → Bool
matches rules path = ignored rules (normalize_relative path) false

pub record Policy : Type 0 where
  pub sensitive : List IgnoreRule
  pub noise : List IgnoreRule
  pub custom : List IgnoreRule

abbrev pub sensitive_patterns : List String
sensitive_patterns =
    ".env" ∷ ".env.*" ∷ "!.env.example" ∷ "*.pem" ∷ "*.key" ∷ "*.p12" ∷ "*.pfx" ∷ "*.jks"
    ∷ "*.keystore" ∷ "id_rsa" ∷ "id_rsa.*" ∷ "id_ed25519" ∷ "id_ed25519.*" ∷ "id_ecdsa"
    ∷ "id_ecdsa.*" ∷ "id_dsa" ∷ "id_dsa.*" ∷ ".ssh/" ∷ ".aws/" ∷ ".azure/" ∷ ".gnupg/" ∷ ".kube/"
    ∷ ".docker/config.json" ∷ ".npmrc" ∷ ".pypirc" ∷ ".netrc" ∷ "_netrc" ∷ ".git-credentials"
    ∷ "*.keychain" ∷ "*.keychain-db" ∷ ".cloudflared/" ∷ "credentials.json"
    ∷ "service-account*.json" ∷ "secrets.json" ∷ "cookies.sqlite" ∷ "Cookies"
    ∷ ".codexlink-secrets*" ∷ ".c2c-secrets*" ∷ []

abbrev pub noise_patterns : List String
noise_patterns =
    ".git/" ∷ "node_modules/" ∷ "dist/" ∷ "build/" ∷ "out/" ∷ ".next/" ∷ ".nuxt/" ∷ ".svelte-kit/"
    ∷ "coverage/" ∷ ".cache/" ∷ ".turbo/" ∷ ".venv/" ∷ "venv/" ∷ "__pycache__/" ∷ ".pytest_cache/"
    ∷ ".mypy_cache/" ∷ "target/" ∷ ".gradle/" ∷ ".idea/" ∷ ".tooling/" ∷ ".pnpm-store/" ∷ "vendor/"
    ∷ ".DS_Store" ∷ "*.lock" ∷ "pnpm-lock.yaml" ∷ "package-lock.json" ∷ "yarn.lock" ∷ []

-- `NewPolicy` with the lines of the workspace's ignore file.
unfoldable pub new_policy : List (List ℕ) → Policy
new_policy lines = record {
  sensitive = new_rule_set (map codes sensitive_patterns);
  noise = new_rule_set (map codes noise_patterns);
  custom = new_rule_set lines;
}

abbrev pub is_root : List ℕ → Bool
is_root path = is_empty path || bytes_eq path (codes ".")

-- `IsSensitive`
unfoldable pub is_sensitive : Policy → List ℕ → Bool
is_sensitive p path =
    let normal = normalize_relative path in
    if is_root normal then false else matches p.sensitive normal || matches p.custom normal

-- `IsNoise`
unfoldable pub is_noise : Policy → List ℕ → Bool
is_noise p path =
    let normal = normalize_relative path in if is_root normal then false else matches p.noise normal

-- `IsHidden`
unfoldable pub is_hidden : Policy → List ℕ → Bool
is_hidden p path = is_sensitive p path || is_noise p path

unfoldable pub rule_matches : Option IgnoreRule → List ℕ → Bool
rule_matches none path = false
rule_matches (some rule) path = rule.re path

-- `MatchGlob`
unfoldable pub match_glob : List ℕ → List ℕ → Bool
match_glob pattern path = rule_matches (compile_ignore_rule pattern) (normalize_relative path)
