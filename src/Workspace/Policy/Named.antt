-- ===== src/Workspace/Policy/Named.antt =====
-- What the patterns of internal/workspace/policy.go that are a name match.
use codexlink.Prelude.{
  ℕ, Bool, true, false, List, [], ◌∷◌, ◌++◌, ◌≡◌, ◌↔◌, refl, sym, ap, ◌∙◌, map, append_assoc,
}
use codexlink.Workspace.Policy.Glob.{literal, any_dirs}
use codexlink.Workspace.Policy.Reads.{Piece, Reads}
use codexlink.Workspace.Policy.Whole.{Ends, expression-Reads}
use codexlink.Workspace.Policy.Plain.{IsPlain, pattern_of}
use codexlink.Workspace.Policy.Names.{compile_ignore_rule-pattern_of}
use codexlink.Workspace.Policy.{expression, match_glob, rule_matches, normalize_relative}

-- The name at the beginning of the path or after a slash, with no newline before it, and at the end of the
-- path or, if `inside`, before a slash with no newline after it.
abbrev pub Named : Bool → List ℕ → List ℕ → Type 0
Named inside name path =
    (dir : List ℕ) × (rest : List ℕ) × (path ≡ dir ++ (name ++ rest))
    × Piece any_dirs dir
    × Ends inside rest

Reads-name : (name xs : List ℕ) → Reads (map literal name) xs → xs ≡ name
Reads-name [] xs r = r
Reads-name (c ∷ cs) xs (us, vs, e, p, r) = rw (e, p, Reads-name cs vs r) refl

name-Reads : (name : List ℕ) → Reads (map literal name) name
name-Reads [] = refl
name-Reads (c ∷ cs) = (c ∷ [], cs, refl, refl, name-Reads cs)

pub expression-Named :
    (d : Bool) (name path : List ℕ)
    → (expression false d (map literal name) path ≡ true) ↔ Named d name path
expression-Named d name path =
    let both = expression-Reads false d (map literal name) path in
    (
      λ h.
          let (xs, ys, e, (us, vs, f, p, r), n) = both.0 h in
          (us, ys, rw (e, f, append_assoc us vs ys, Reads-name name vs r) refl, p, n),
      λ (dir, rest, e, p, n). both.1 (
        dir ++ name,
        rest,
        e ∙ sym (append_assoc dir name rest),
        (dir, name, refl, p, name-Reads name),
        n,
      ),
    )

match_glob_pattern :
    (d : Bool) (name path : List ℕ)
    → IsPlain name
    → match_glob (pattern_of d name) path
      ≡ expression false d (map literal name) (normalize_relative path)
unfolding match_glob rule_matches
match_glob_pattern d name path p =
    ap (λ o. rule_matches o (normalize_relative path)) (compile_ignore_rule-pattern_of d name p)

-- A pattern that is a name of plain ASCII characters, with or without a slash after it, matches a path
-- exactly if the normalized path has the name at its beginning or after a slash with no newline before
-- it, and ends there or, for a pattern with a slash, goes on with a slash and anything without a
-- newline.
pub match_glob-Named :
    (d : Bool) (name path : List ℕ)
    → IsPlain name
    → (match_glob (pattern_of d name) path ≡ true) ↔ Named d name (normalize_relative path)
match_glob-Named d name path p =
    rw (match_glob_pattern d name path p) (expression-Named d name (normalize_relative path))
