-- ===== src/Workspace/Policy/Last.antt =====
-- Which rule of a set decides, in internal/workspace/policy.go.
use codexlink.Prelude.{
  ℕ, Bool, true, false, not, List, [], ◌∷◌, ◌++◌, ◌≡◌, ◌⊎◌, ◌↔◌, refl, ap, inl, inr, arith,
  Bool-cases, if◌then◌else◌,
}
use codexlink.Workspace.Policy.{IgnoreRule, ignored, matches, normalize_relative}

-- No rule matches the path.
abbrev pub NoneMatches : List IgnoreRule → List ℕ → Type 0
NoneMatches [] path = Unit {0}
NoneMatches (r ∷ rs) path = (r.re path ≡ false) × NoneMatches rs path

-- A rule that hides the path, and none after it matches.
abbrev pub Decides : List IgnoreRule → List ℕ → Type 0
Decides rules path =
    (before : List IgnoreRule) × (r : IgnoreRule) × (after : List IgnoreRule) × (rules
      ≡ before ++ r ∷ after)
    × (r.re path ≡ true)
    × (r.negated ≡ false)
    × NoneMatches after path

none_ignored :
    (rs : List IgnoreRule) (path : List ℕ) (b : Bool) → NoneMatches rs path → ignored rs path b ≡ b
unfolding ignored
none_ignored [] path b n = refl
none_ignored (r ∷ rs) path b n = rw (n.0) (none_ignored rs path b n.1)

pub ignored-append :
    (before rs : List IgnoreRule) (path : List ℕ) (b : Bool)
    → ignored (before ++ rs) path b ≡ ignored rs path (ignored before path b)
unfolding ignored
ignored-append [] rs path b = refl
ignored-append (r ∷ before) rs path b =
    ignored-append before rs path (if r.re path then not r.negated else b)

Decides-ignored :
    (rs : List IgnoreRule) (path : List ℕ) (b : Bool) → Decides rs path → ignored rs path b ≡ true
unfolding ignored
Decides-ignored rs path b (before, r, after, e, m, n, none_after) =
    rw (e, ignored-append before (r ∷ after) path b, m, n) (none_ignored after path true none_after)

ignored-Decides :
    (rs : List IgnoreRule) (path : List ℕ) (b : Bool)
    → ignored rs path b ≡ true
    → Decides rs path ⊎ (NoneMatches rs path × (b ≡ true))
unfolding ignored
ignored-Decides [] path b h = inr (tt, h)
ignored-Decides (r ∷ rs) path b h =
    elim (ignored-Decides rs path (if r.re path then not r.negated else b) h) [
      | inl (before, r', after, e, m, k, d) ↦
          inl (r ∷ before, r', after, ap (λ t. r ∷ t) e, m, k, d)
      | inr (n, k) ↦ elim (Bool-cases (r.re path)) [
        | inl m ↦ inl ([], r, rs, refl, m, ground (arith, m, k), n)
        | inr m ↦ inr ((m, n), ground (arith, m, k))
      ]
    ]

-- A set of rules hides a path exactly if some rule that is no exception matches the normalized path and
-- no rule after it does.
pub matches-Decides :
    (rules : List IgnoreRule) (path : List ℕ)
    → (matches rules path ≡ true) ↔ Decides rules (normalize_relative path)
unfolding matches
matches-Decides rules path = (
  λ h. elim (ignored-Decides rules (normalize_relative path) false h) [
    | inl d ↦ d
    | inr (n, e) ↦ absurd (ground (arith, e))
  ],
  λ d. Decides-ignored rules (normalize_relative path) false d,
)
