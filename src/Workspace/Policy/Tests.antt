-- ===== src/Workspace/Policy/Tests.antt =====
-- The patterns of hidden files, of internal/workspace/policy.go, at concrete inputs.
use codexlink.Prelude.{
  ℕ, Bool, true, false, List, [], ◌∷◌, ◌++◌, ◌≡◌, ◌↔◌, refl, inl, inr, map, take, drop,
}
use codexlink.Prelude.Text.{codes}
use codexlink.Workspace.Policy.Glob.{literal}
use codexlink.Workspace.Policy.Reads.{Reads}
use codexlink.Workspace.Policy.Whole.{Ends, parts, expression-Reads}
use codexlink.Workspace.Policy.Plain.{IsPlain}
use codexlink.Workspace.Policy.Named.{Named, match_glob-Named}
use codexlink.Workspace.Policy.Builtin.{NoExceptions, is_sensitive-new_policy}
use codexlink.Workspace.Policy.{
  IgnoreRule, matches, normalize_relative, new_rule_set, sensitive_patterns, new_policy,
  is_sensitive, match_glob, is_root, expression,
}

program : Unit {0}
unfolding codexlink.Workspace.Policy.trim_first codexlink.Workspace.Policy.contains_slash
    codexlink.Workspace.Policy.to_slashes codexlink.Workspace.Policy.drop_one
    codexlink.Workspace.Policy.expression codexlink.Workspace.Policy.rule_of
    codexlink.Workspace.Policy.compile_body codexlink.Workspace.Policy.compile_ignore_rule
    codexlink.Workspace.Policy.onto_rule codexlink.Workspace.Policy.new_rule_set
    codexlink.Workspace.Policy.trim_dot codexlink.Workspace.Policy.normalize_relative
    codexlink.Workspace.Policy.ignored codexlink.Workspace.Policy.matches
    codexlink.Workspace.Policy.new_policy codexlink.Workspace.Policy.is_sensitive
    codexlink.Workspace.Policy.is_noise codexlink.Workspace.Policy.is_hidden
    codexlink.Workspace.Policy.rule_matches codexlink.Workspace.Policy.match_glob
    codexlink.Workspace.Policy.Glob.has_close codexlink.Workspace.Policy.Glob.tokens
    codexlink.Workspace.Policy.Glob.utf8 codexlink.Workspace.Policy.Glob.onto_span
    codexlink.Workspace.Policy.Glob.spans_of codexlink.Workspace.Policy.Glob.class_of
    codexlink.Workspace.Policy.Glob.bracket_of codexlink.Workspace.Policy.Glob.items_of_token
    codexlink.Workspace.Policy.Glob.onto_items codexlink.Workspace.Policy.Glob.is_char
    codexlink.Workspace.Policy.Glob.items_after codexlink.Workspace.Policy.Glob.in_spans
    codexlink.Workspace.Policy.Glob.skips codexlink.Workspace.Policy.Glob.one_of
    codexlink.Workspace.Policy.Glob.matches_items codexlink.Workspace.Policy.Glob.at_end
    codexlink.Workspace.Policy.Glob.inside codexlink.Workspace.Policy.Plain.is_plain
    codexlink.Prelude.Text.is_space codexlink.Prelude.Text.trim_left
    codexlink.Prelude.Text.trim_space codexlink.Prelude.Text.all_codes
    codexlink.Prelude.Text.has_prefix codexlink.Prelude.bytes_eq
program = tt

abbrev ssh : List ℕ
ssh = codes ".ssh"

-- A directory of keys, below another directory.
abbrev key_path : List ℕ
key_path = codes "backup/.ssh/key"

abbrev patterns : List (List ℕ)
patterns = map codes sensitive_patterns

exceptions : List (List ℕ)
exceptions = codes "!.ssh/" ∷ codes "!**" ∷ []

Named-key_path : Named true ssh key_path
unfolding program
Named-key_path = (
  codes "backup/",
  codes "/key",
  refl,
  inr (codes "backup", refl, refl),
  inr (codes "key", refl, refl),
)

IsPlain-ssh : IsPlain ssh
unfolding program
IsPlain-ssh = (refl, refl)

no_more_exceptions : NoExceptions (drop 18 patterns)
unfolding program
no_more_exceptions = (
  refl,
  (
    refl,
    (
      refl,
      (
        refl,
        (
          refl,
          (
            refl,
            (
              refl,
              (
                refl,
                (
                  refl,
                  (
                    refl,
                    (
                      refl,
                      (refl, (refl, (refl, (refl, (refl, (refl, (refl, (refl, (refl, tt))))))))),
                    ),
                  ),
                ),
              ),
            ),
          ),
        ),
      ),
    ),
  ),
)

normal_key : normalize_relative key_path ≡ key_path
unfolding program
normal_key = refl

not_root : is_root key_path ≡ false
unfolding program
not_root = refl

is_sensitive-new_policy_example : is_sensitive (new_policy exceptions) key_path ≡ true
is_sensitive-new_policy_example =
    is_sensitive-new_policy exceptions (take 17 patterns) (drop 18 patterns) true ssh key_path refl
      IsPlain-ssh no_more_exceptions normal_key not_root Named-key_path

match_glob-Named_example :
    (match_glob (codes ".ssh/") key_path ≡ true) ↔ Named true ssh (normalize_relative key_path)
match_glob-Named_example = match_glob-Named true ssh key_path IsPlain-ssh

expression-Reads_example : (expression false true (map literal ssh) key_path ≡ true) ↔ (
    (xs : List ℕ) × (ys : List ℕ) × (key_path ≡ xs ++ ys)
    × Reads (parts false (map literal ssh)) xs
    × Ends true ys)
expression-Reads_example = expression-Reads false true (map literal ssh) key_path

abbrev env_rules : List IgnoreRule
env_rules = new_rule_set (codes ".env" ∷ codes ".env.*" ∷ codes "!.env.example" ∷ [])

hidden_env :
    (matches env_rules (codes "a/.env.local") ≡ true)
    × (matches env_rules (codes "a/.env.example") ≡ false)
    × (matches env_rules (codes "./a/.env") ≡ true)
    × (matches env_rules (codes "a.env") ≡ false)
unfolding program
hidden_env = (refl, refl, refl, refl)

globs :
    (match_glob (codes "src/**/*.go") (codes "src/a/b/c.go") ≡ true)
    × (match_glob (codes "src/*.go") (codes "src/a/c.go") ≡ false)
    × (match_glob (codes "[a-c]?.txt") (codes "dir/b1.txt") ≡ true)
    × (match_glob (codes "[!a-c]?.txt") (codes "dir/b1.txt") ≡ false)
    × (match_glob (codes "\\!x") (codes "!x") ≡ true)
    × (match_glob (codes "/x") (codes "a/x") ≡ false)
unfolding program
globs = (refl, refl, refl, refl, refl, refl)

-- A newline in the name of a directory, and a character that is not ASCII.
not_hidden :
    (is_sensitive (new_policy []) (b'a' ∷ 10 ∷ b'/' ∷ codes "id_rsa") ≡ false)
    × (match_glob (codes "é") (codes "é") ≡ false)
unfolding program
not_hidden = (refl, refl)
