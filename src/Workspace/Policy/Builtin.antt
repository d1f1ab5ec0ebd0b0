-- ===== src/Workspace/Policy/Builtin.antt =====
-- The built-in rules of internal/workspace/policy.go beside the rules of a workspace.
use codexlink.Prelude.{
  ℕ, Bool, true, false, not, ◌||◌, Option, none, some, List, [], ◌∷◌, ◌++◌, ◌≡◌, refl, ap, ◌∙◌,
  arith, if◌then◌else◌, map,
}
use codexlink.Prelude.Text.{codes, trim_space, has_prefix, is_empty}
use codexlink.Workspace.Policy.Glob.{literal, Item, tokens, items_of}
use codexlink.Workspace.Policy.Plain.{IsPlain, pattern_of}
use codexlink.Workspace.Policy.Names.{compile_ignore_rule-pattern_of}
use codexlink.Workspace.Policy.Named.{Named, expression-Named}
use codexlink.Workspace.Policy.Last.{ignored-append}
use codexlink.Workspace.Policy.{
  IgnoreRule, ignored, matches, normalize_relative, new_rule_set, onto_rule, compile_ignore_rule,
  compile_body, rule_of, sensitive_patterns, new_policy, is_sensitive, is_root, expression,
  drop_one, to_slashes, trim_first, trim_last, slash, contains_slash, ends_in_slash,
}

-- No pattern of the list makes an exception.
abbrev pub NoExceptions : List (List ℕ) → Type 0
NoExceptions [] = Unit {0}
NoExceptions (p ∷ ps) = (has_prefix (trim_space p) (codes "!") ≡ false) × NoExceptions ps

abbrev NoneNegated : List IgnoreRule → Type 0
NoneNegated [] = Unit {0}
NoneNegated (r ∷ rs) = (r.negated ≡ false) × NoneNegated rs

abbrev NotNegated : Option IgnoreRule → Type 0
NotNegated none = Unit {0}
NotNegated (some r) = r.negated ≡ false

if_cases :
    (b : Bool) (x y : Option IgnoreRule)
    → (b ≡ true → NotNegated x)
    → (b ≡ false → NotNegated y)
    → NotNegated (if b then x else y)
if_cases true x y f g = f refl
if_cases false x y f g = g refl

rule_of-NotNegated :
    (fixed d : Bool) (o : Option (List Item)) → NotNegated (rule_of false fixed d o)
unfolding rule_of
rule_of-NotNegated fixed d none = tt
rule_of-NotNegated fixed d (some body) = refl

compile_body-NotNegated : (raw : List ℕ) → NotNegated (compile_body false raw)
unfolding compile_body
compile_body-NotNegated raw =
    let slashed = to_slashes raw in
    let unrooted = trim_first slashed in
    let body = trim_last unrooted in
    if_cases (is_empty body) none
      (rule_of false (has_prefix slashed slash || contains_slash body) (ends_in_slash unrooted)
        (items_of (tokens none body)))
      (λ _. tt)
      (λ _.
        rule_of-NotNegated (has_prefix slashed slash || contains_slash body)
          (ends_in_slash unrooted) (items_of (tokens none body)))

compile-NotNegated :
    (raw : List ℕ)
    → has_prefix (trim_space raw) (codes "!") ≡ false
    → NotNegated (compile_ignore_rule raw)
unfolding compile_ignore_rule
compile-NotNegated raw h =
    let p = trim_space raw in
    let exception = compile_body true (drop_one p) in
    let plain = if has_prefix p (codes "!") then exception else compile_body false p in
    let escaped = if has_prefix p (codes "\\!") then compile_body false (drop_one p) else plain in
    if_cases (is_empty p || has_prefix p (codes "#")) none escaped (λ _. tt)
      (λ _.
        if_cases (has_prefix p (codes "\\!")) (compile_body false (drop_one p)) plain
          (λ _. compile_body-NotNegated (drop_one p))
          (λ _.
            if_cases (has_prefix p (codes "!")) exception (compile_body false p)
              (λ e. absurd (ground (arith, e, h))) (λ _. compile_body-NotNegated p)))

onto_rule-NoneNegated :
    (o : Option IgnoreRule) (rs : List IgnoreRule)
    → NotNegated o
    → NoneNegated rs
    → NoneNegated (onto_rule o rs)
unfolding onto_rule
onto_rule-NoneNegated none rs e n = n
onto_rule-NoneNegated (some r) rs e n = (e, n)

new_rule_set-NoneNegated : (ps : List (List ℕ)) → NoExceptions ps → NoneNegated (new_rule_set ps)
unfolding new_rule_set
new_rule_set-NoneNegated [] h = tt
new_rule_set-NoneNegated (p ∷ ps) h =
    onto_rule-NoneNegated (compile_ignore_rule p) (new_rule_set ps) (compile-NotNegated p h.0)
      (new_rule_set-NoneNegated ps h.1)

ignored_stays :
    (rs : List IgnoreRule) (path : List ℕ) → NoneNegated rs → ignored rs path true ≡ true
unfolding ignored
ignored_stays [] path n = refl
ignored_stays (r ∷ rs) path n =
    let e : (if r.re path then not r.negated else true) ≡ true = ground (arith, n.0) in
    rw e (ignored_stays rs path n.1)

onto_rule-append :
    (o : Option IgnoreRule) (rs ss : List IgnoreRule)
    → onto_rule o (rs ++ ss) ≡ onto_rule o rs ++ ss
unfolding onto_rule
onto_rule-append none rs ss = refl
onto_rule-append (some r) rs ss = refl

new_rule_set-append :
    (ps qs : List (List ℕ)) → new_rule_set (ps ++ qs) ≡ new_rule_set ps ++ new_rule_set qs
unfolding new_rule_set
new_rule_set-append [] qs = refl
new_rule_set-append (p ∷ ps) qs =
    ap (λ rs. onto_rule (compile_ignore_rule p) rs) (new_rule_set-append ps qs)
    ∙ onto_rule-append (compile_ignore_rule p) (new_rule_set ps) (new_rule_set qs)

ignored_from :
    (r : IgnoreRule) (rs : List IgnoreRule) (path : List ℕ) (b : Bool)
    → r.re path ≡ true
    → r.negated ≡ false
    → NoneNegated rs
    → ignored (r ∷ rs) path b ≡ true
unfolding ignored
ignored_from r rs path b m e n = rw (m, e) (ignored_stays rs path n)

matches-Named :
    (before after : List (List ℕ)) (d : Bool) (name path : List ℕ)
    → IsPlain name
    → NoExceptions after
    → Named d name (normalize_relative path)
    → matches (new_rule_set (before ++ pattern_of d name ∷ after)) path ≡ true
unfolding matches new_rule_set onto_rule
matches-Named before after d name path p none_after n =
    let normal = normalize_relative path in
    let r : IgnoreRule = record { negated = false; re = expression false d (map literal name) } in
    rw
      (
        new_rule_set-append before (pattern_of d name ∷ after),
        compile_ignore_rule-pattern_of d name p,
      )
      (rw (ignored-append (new_rule_set before) (r ∷ new_rule_set after) normal false) (
        ignored_from r (new_rule_set after) normal (ignored (new_rule_set before) normal false)
          ((expression-Named d name normal).1 n) refl (new_rule_set-NoneNegated after none_after)))

-- No rule of a workspace makes a built-in secret readable: whatever the lines of the ignore file are, a
-- path, already normalized and not the root, that a built-in pattern names is sensitive, if the pattern
-- is a plain name, with or without a slash after it, and no built-in exception comes after it.
pub is_sensitive-new_policy :
    (lines before after : List (List ℕ)) (d : Bool) (name path : List ℕ)
    → map codes sensitive_patterns ≡ before ++ pattern_of d name ∷ after
    → IsPlain name
    → NoExceptions after
    → normalize_relative path ≡ path
    → is_root path ≡ false
    → Named d name path
    → is_sensitive (new_policy lines) path ≡ true
unfolding is_sensitive new_policy
is_sensitive-new_policy lines before after d name path e p none_after normal root n =
    let m = matches-Named before after d name path p none_after (rw normal n) in
    rw (normal, root, e, m) refl
