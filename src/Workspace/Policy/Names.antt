-- ===== src/Workspace/Policy/Names.antt =====
-- Patterns of internal/workspace/policy.go that are a name, of a file or, with a slash after it, of a
-- directory: what `compileIgnoreRule` makes of them.
use codexlink.Prelude.{
  ℕ, Bool, true, false, none, some, List, [], ◌∷◌, ◌++◌, ◌==◌, ltb, ◌≡◌, refl, sym, arith, map,
  if◌then◌else◌, append_nil,
}
use mathlib.Core.List.{reverse, reverse-append, reverse-reverse}
use codexlink.Prelude.Text.{all_codes, is_space, trim_space, is_empty, has_prefix, codes}
use codexlink.Workspace.Policy.Glob.{
  literal, char, utf8, tokens, items_of_token, onto_items, is_char, items_after, items_of,
}
use codexlink.Workspace.Policy.{
  slash, trim_first, trim_last, ends_in_slash, to_slashes, expression, rule_of, compile_body,
  compile_ignore_rule,
}
use codexlink.Workspace.Policy.Plain.{
  is_plain, IsPlain, pattern_of, all_codes-append, all_codes-reverse, no_space, no_slash,
  all_implied, trim_space-no_space, trim_last-no_slash, contains_slash-no_slash,
  has_prefix-no_slash,
}

-- A name, character by character.
plain_codes :
    (c : ℕ)
    → is_plain c ≡ true
    → (no_space c ≡ true)
      × (no_slash c ≡ true)
      × (c == b'*' ≡ false)
      × (c == b'?' ≡ false)
      × (c == b'[' ≡ false)
      × (c == 92 ≡ false)
      × (c == b'#' ≡ false)
      × (c == b'!' ≡ false)
      × (ltb c 0x80 ≡ true)
unfolding is_plain no_space no_slash
plain_codes c h = ground arith

plain_parts :
    (c : ℕ) (cs : List ℕ)
    → all_codes is_plain (c ∷ cs) ≡ true
    → (is_plain c ≡ true) × (all_codes is_plain cs ≡ true)
unfolding all_codes
plain_parts c cs a = ground (arith, a)

tokens_plain : (s : List ℕ) → all_codes is_plain s ≡ true → tokens none s ≡ map char s
unfolding tokens
tokens_plain [] a = refl
tokens_plain (c ∷ cs) a =
    let h = plain_parts c cs a in let p = plain_codes c h.0 in rw (p.4, tokens_plain cs h.1) refl

item_of_plain : (c : ℕ) → is_plain c ≡ true → items_of_token (char c) ≡ some (literal c ∷ [])
unfolding items_of_token utf8
item_of_plain c h = ground (arith, plain_codes c h)

items_of_plain :
    (s : List ℕ) → all_codes is_plain s ≡ true → items_of (map char s) ≡ some (map literal s)
unfolding items_after onto_items is_char
items_of_plain [] a = refl
items_of_plain (c ∷ cs) a =
    let h = plain_parts c cs a in
    let p = plain_codes c h.0 in rw (p.2, item_of_plain c h.0, items_of_plain cs h.1) refl

to_slashes_plain :
    (s t : List ℕ) → all_codes is_plain s ≡ true → to_slashes (s ++ t) ≡ s ++ to_slashes t
unfolding to_slashes
to_slashes_plain [] t a = refl
to_slashes_plain (c ∷ cs) t a =
    let h = plain_parts c cs a in
    let p = plain_codes c h.0 in rw (p.5, to_slashes_plain cs t h.1) refl

nothing_taken_off :
    (name t : List ℕ)
    → IsPlain name
    → (trim_first (name ++ t) ≡ name ++ t)
      × (has_prefix (name ++ t) slash ≡ false)
      × (has_prefix (name ++ t) (codes "#") ≡ false)
      × (has_prefix (name ++ t) (codes "!") ≡ false)
      × (has_prefix (name ++ t) (codes "\\!") ≡ false)
      × (is_empty (name ++ t) ≡ false)
unfolding trim_first has_prefix no_slash
nothing_taken_off [] t p = absurd (ground (arith, p.1))
nothing_taken_off (c ∷ cs) t p =
    let q = plain_codes c (plain_parts c cs p.0).0 in
    let r : c == b'/' ≡ false = ground (arith, q.1) in
    (
      ground (arith, r),
      ground (arith, r),
      ground (arith, q.6),
      ground (arith, q.7),
      ground (arith, q.5),
      refl,
    )

reverse_slash : (name : List ℕ) → reverse (name ++ b'/' ∷ []) ≡ b'/' ∷ reverse name
reverse_slash name = reverse-append name (b'/' ∷ [])

to_slashes_pattern :
    (d : Bool) (name : List ℕ) → IsPlain name → to_slashes (pattern_of d name) ≡ pattern_of d name
unfolding to_slashes
to_slashes_pattern true name p = to_slashes_plain name (b'/' ∷ []) p.0
to_slashes_pattern false name p = rw (append_nil name) at (to_slashes_plain name [] p.0)

trim_space_pattern :
    (d : Bool) (name : List ℕ) → IsPlain name → trim_space (pattern_of d name) ≡ pattern_of d name
unfolding all_codes no_space is_space
trim_space_pattern true name p =
    let a = all_implied is_plain no_space name (λ c h. (plain_codes c h).0) p.0 in
    trim_space-no_space (name ++ b'/' ∷ []) (all_codes-append no_space name (b'/' ∷ []) a refl)
trim_space_pattern false name p =
    trim_space-no_space name (all_implied is_plain no_space name (λ c h. (plain_codes c h).0) p.0)

slash_taken_off :
    (d : Bool) (name : List ℕ)
    → IsPlain name
    → (trim_last (pattern_of d name) ≡ name) × (ends_in_slash (pattern_of d name) ≡ d)
unfolding trim_first has_prefix
slash_taken_off true name p =
    (rw (reverse_slash name) (reverse-reverse name), rw (reverse_slash name) refl)
slash_taken_off false name p =
    let a = all_implied is_plain no_slash name (λ c h. (plain_codes c h).1) p.0 in
    (
      trim_last-no_slash name a,
      has_prefix-no_slash (reverse name) (all_codes-reverse no_slash name a),
    )

-- What stands after the name in its pattern.
tail_of : Bool → List ℕ
tail_of d = if d then b'/' ∷ [] else []

pattern_tail : (d : Bool) (name : List ℕ) → pattern_of d name ≡ name ++ tail_of d
unfolding tail_of
pattern_tail true name = refl
pattern_tail false name = sym (append_nil name)

pub compile_body-pattern_of :
    (negated d : Bool) (name : List ℕ)
    → IsPlain name
    → compile_body negated (pattern_of d name)
      ≡ some (record { negated = negated; re = expression false d (map literal name) })
unfolding compile_body rule_of
compile_body-pattern_of negated d name p =
    let n = rw (sym (pattern_tail d name)) at (nothing_taken_off name (tail_of d) p) in
    let s = slash_taken_off d name p in
    let c =
      contains_slash-no_slash name
        (all_implied is_plain no_slash name (λ c h. (plain_codes c h).1) p.0) in
    rw
      (
        to_slashes_pattern d name p,
        n.0,
        s.0,
        s.1,
        n.1,
        c,
        p.1,
        tokens_plain name p.0,
        items_of_plain name p.0,
      )
      refl

pub compile_ignore_rule-pattern_of :
    (d : Bool) (name : List ℕ)
    → IsPlain name
    → compile_ignore_rule (pattern_of d name)
      ≡ some (record { negated = false; re = expression false d (map literal name) })
unfolding compile_ignore_rule
compile_ignore_rule-pattern_of d name p =
    let n = rw (sym (pattern_tail d name)) at (nothing_taken_off name (tail_of d) p) in
    rw (trim_space_pattern d name p, n.2, n.3, n.4, n.5) (compile_body-pattern_of false d name p)
