-- ===== src/Workspace/Policy/Plain.antt =====
-- Texts without the characters that mean something in the patterns of internal/workspace/policy.go.
use codexlink.Prelude.{
  ℕ, Bool, true, false, not, ◌&&◌, ◌||◌, List, [], ◌∷◌, ◌++◌, ◌==◌, ltb, ◌≡◌, refl, arith,
  if◌then◌else◌,
}
use mathlib.Core.List.{reverse, reverse-cons, reverse-reverse}
use codexlink.Prelude.Text.{all_codes, is_space, trim_left, trim_space, is_empty, has_prefix}
use codexlink.Workspace.Policy.{slash, trim_first, trim_last, contains_slash}

-- An ASCII code point that stands for itself wherever it is.
unfoldable pub is_plain : ℕ → Bool
is_plain c =
    ltb c 0x80
    && not (
        is_space c
        || c == b'*'
        || c == b'?'
        || c == b'['
        || c == b'/'
        || c == 92
        || c == b'#'
        || c == b'!')

abbrev pub IsPlain : List ℕ → Type 0
IsPlain name = (all_codes is_plain name ≡ true) × (is_empty name ≡ false)

abbrev pub pattern_of : Bool → List ℕ → List ℕ
pattern_of directory_only name = if directory_only then name ++ b'/' ∷ [] else name

pub all_codes-append :
    (p : ℕ → Bool) (xs ys : List ℕ)
    → all_codes p xs ≡ true
    → all_codes p ys ≡ true
    → all_codes p (xs ++ ys) ≡ true
unfolding all_codes
all_codes-append p [] ys a b = b
all_codes-append p (x ∷ xs) ys a b =
    let h : (p x ≡ true) × (all_codes p xs ≡ true) = ground (arith, a) in
    let r = all_codes-append p xs ys h.1 b in ground (arith, h, r)

pub all_codes-reverse :
    (p : ℕ → Bool) (xs : List ℕ) → all_codes p xs ≡ true → all_codes p (reverse xs) ≡ true
unfolding all_codes
all_codes-reverse p [] a = refl
all_codes-reverse p (x ∷ xs) a =
    let h : (p x ≡ true) × (all_codes p xs ≡ true) = ground (arith, a) in
    let one : all_codes p (x ∷ []) ≡ true = ground (arith, h) in
    rw (reverse-cons x xs)
      (all_codes-append p (reverse xs) (x ∷ []) (all_codes-reverse p xs h.1) one)

-- The code points of a name and of a directory's pattern.
unfoldable pub no_space : ℕ → Bool
no_space c = not (is_space c)

unfoldable pub no_slash : ℕ → Bool
no_slash c = not (c == b'/')

pub all_implied :
    (p q : ℕ → Bool) (xs : List ℕ)
    → ((c : ℕ) → p c ≡ true → q c ≡ true)
    → all_codes p xs ≡ true
    → all_codes q xs ≡ true
unfolding all_codes
all_implied p q [] h a = refl
all_implied p q (x ∷ xs) h a =
    let b : (p x ≡ true) × (all_codes p xs ≡ true) = ground (arith, a) in
    let r = all_implied p q xs h b.1 in ground (arith, h x b.0, r)

trim_left-no_space : (s : List ℕ) → all_codes no_space s ≡ true → trim_left s ≡ s
unfolding all_codes trim_left no_space
trim_left-no_space [] a = refl
trim_left-no_space (c ∷ cs) a = ground arith

pub trim_space-no_space : (s : List ℕ) → all_codes no_space s ≡ true → trim_space s ≡ s
unfolding trim_space
trim_space-no_space s a =
    rw (trim_left-no_space s a, trim_left-no_space (reverse s) (all_codes-reverse no_space s a))
      (reverse-reverse s)

trim_first-no_slash : (s : List ℕ) → all_codes no_slash s ≡ true → trim_first s ≡ s
unfolding all_codes trim_first no_slash
trim_first-no_slash [] a = refl
trim_first-no_slash (c ∷ cs) a = ground arith

pub trim_last-no_slash : (s : List ℕ) → all_codes no_slash s ≡ true → trim_last s ≡ s
trim_last-no_slash s a =
    rw (trim_first-no_slash (reverse s) (all_codes-reverse no_slash s a)) (reverse-reverse s)

pub contains_slash-no_slash : (s : List ℕ) → all_codes no_slash s ≡ true → contains_slash s ≡ false
unfolding all_codes contains_slash no_slash
contains_slash-no_slash [] a = refl
contains_slash-no_slash (c ∷ cs) a =
    let h : (no_slash c ≡ true) × (all_codes no_slash cs ≡ true) = ground (arith, a) in
    ground (arith, contains_slash-no_slash cs h.1)

pub has_prefix-no_slash : (s : List ℕ) → all_codes no_slash s ≡ true → has_prefix s slash ≡ false
unfolding all_codes has_prefix no_slash
has_prefix-no_slash [] a = refl
has_prefix-no_slash (c ∷ cs) a = ground arith
