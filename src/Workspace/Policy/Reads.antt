-- ===== src/Workspace/Policy/Reads.antt =====
-- What the regular expressions of internal/workspace/policy.go match, told by the texts that their parts
-- stand for.
use codexlink.Prelude.{
  ℕ, Bool, true, ◌&&◌, ◌||◌, List, [], ◌∷◌, ◌++◌, ◌==◌, ◌≡◌, ◌⊎◌, refl, ap, ◌∙◌, arith, inl, inr,
  append_assoc, append_snoc,
}
use codexlink.Prelude.Text.{all_codes}
use codexlink.Workspace.Policy.Glob.{
  Item, literal, any_path, any_dirs, any_name, one_name, class, not_newline, not_slash, in_class,
  skips, one_of, matches_items,
}

-- The texts of one part.
abbrev pub Piece : Item → List ℕ → Type 0
Piece (literal x) s = s ≡ x ∷ []
Piece any_path s = all_codes not_newline s ≡ true
Piece any_dirs s =
    (s ≡ []) ⊎ ((dir : List ℕ) × (s ≡ dir ++ b'/' ∷ []) × (all_codes not_newline dir ≡ true))
Piece any_name s = all_codes not_slash s ≡ true
Piece one_name s = (c : ℕ) × (s ≡ c ∷ []) × (not_slash c ≡ true)
Piece (class negated spans) s = (c : ℕ) × (s ≡ c ∷ []) × (in_class negated spans c ≡ true)

-- The texts of the parts, one after the other.
abbrev pub Reads : List Item → List ℕ → Type 0
Reads [] s = s ≡ []
Reads (i ∷ p) s = (xs : List ℕ) × (ys : List ℕ) × (s ≡ xs ++ ys) × Piece i xs × Reads p ys

-- A text of `P` and a rest that is accepted.
abbrev pub Splits : (List ℕ → Type 0) → (List ℕ → Bool) → List ℕ → Type 0
Splits P next s = (xs : List ℕ) × (ys : List ℕ) × (s ≡ xs ++ ys) × P xs × (next ys ≡ true)

abbrev pub One : (ℕ → Bool) → List ℕ → Type 0
One allowed s = (c : ℕ) × (s ≡ c ∷ []) × (allowed c ≡ true)

pub and_parts : (a b : Bool) → a && b ≡ true → (a ≡ true) × (b ≡ true)
and_parts a b h = ground arith

pub or_parts : (a b : Bool) → a || b ≡ true → (a ≡ true) ⊎ (b ≡ true)
or_parts a b h = ground arith

module _ (allowed : ℕ → Bool) (next : List ℕ → Bool) where
  pub skips-Splits :
      (s : List ℕ) → skips allowed next s ≡ true → Splits (λ xs. all_codes allowed xs ≡ true) next s
  unfolding skips all_codes
  skips-Splits [] h = ([], [], refl, refl, h)
  skips-Splits (c ∷ cs) h = elim (or_parts (next (c ∷ cs)) (allowed c && skips allowed next cs) h) [
    | inl n ↦ ([], c ∷ cs, refl, refl, n)
    | inr m ↦
        let a = and_parts (allowed c) (skips allowed next cs) m in
        let rest = skips-Splits cs a.1 in
        (c ∷ rest.0, rest.1, ap (λ ys. c ∷ ys) rest.2, rw (a.0, rest.3) refl, rest.4)
  ]

  pub Splits-skips :
      (xs ys : List ℕ)
      → all_codes allowed xs ≡ true
      → next ys ≡ true
      → skips allowed next (xs ++ ys) ≡ true
  unfolding skips all_codes
  Splits-skips [] [] a n = n
  Splits-skips [] (y ∷ ys) a n = rw n refl
  Splits-skips (x ∷ xs) ys a n =
      let b = and_parts (allowed x) (all_codes allowed xs) a in
      ground (arith, b, Splits-skips xs ys b.1 n)

  pub one_of-Splits : (s : List ℕ) → one_of allowed next s ≡ true → Splits (One allowed) next s
  unfolding one_of
  one_of-Splits [] h = absurd (ground arith)
  one_of-Splits (c ∷ cs) h =
      let a = and_parts (allowed c) (next cs) h in (c ∷ [], cs, refl, (c, refl, a.0), a.1)

  pub Splits-one_of :
      (c : ℕ) (ys : List ℕ)
      → allowed c ≡ true
      → next ys ≡ true
      → one_of allowed next (c ∷ ys) ≡ true
  unfolding one_of
  Splits-one_of c ys a n = rw (a, n) refl

pub code_eq : (c x : ℕ) → c == x ≡ true → c ≡ x
code_eq c x h = ground arith

pub code_eq_refl : (x : ℕ) → x == x ≡ true
code_eq_refl x = ground arith

joined : (s t xs ys zs : List ℕ) → s ≡ xs ++ t → t ≡ ys ++ zs → s ≡ (xs ++ ys) ++ zs
joined s t xs ys zs e f = rw (e, f, append_assoc xs ys zs) refl

-- One part before the others.
Piece-Splits :
    (i : Item) (next : List ℕ → Bool) (s : List ℕ)
    → matches_items (i ∷ []) next s ≡ true
    → Splits (Piece i) next s
unfolding matches_items
Piece-Splits (literal x) next s h =
    let r = one_of-Splits (λ c. c == x) next s h in
    (r.0, r.1, r.2, r.3.1 ∙ ap (λ c. c ∷ []) (code_eq r.3.0 x r.3.2), r.4)
Piece-Splits any_path next s h = skips-Splits not_newline next s h
Piece-Splits any_dirs next s h =
    elim (or_parts (next s) (skips not_newline (one_of (λ c. c == b'/') next) s) h) [
      | inl n ↦ ([], s, refl, inl refl, n)
      | inr m ↦
          let r = skips-Splits not_newline (one_of (λ c. c == b'/') next) s m in
          let o = one_of-Splits (λ c. c == b'/') next r.1 r.4 in
          let e = o.3.1 ∙ ap (λ c. c ∷ []) (code_eq o.3.0 b'/' o.3.2) in
          (
            r.0 ++ b'/' ∷ [],
            o.1,
            joined s r.1 r.0 (b'/' ∷ []) o.1 r.2 (rw e at o.2),
            inr (r.0, refl, r.3),
            o.4,
          )
    ]
Piece-Splits any_name next s h = skips-Splits not_slash next s h
Piece-Splits one_name next s h = one_of-Splits not_slash next s h
Piece-Splits (class negated spans) next s h = one_of-Splits (in_class negated spans) next s h

Splits-Piece :
    (i : Item) (next : List ℕ → Bool) (xs ys : List ℕ)
    → Piece i xs
    → next ys ≡ true
    → matches_items (i ∷ []) next (xs ++ ys) ≡ true
unfolding matches_items
Splits-Piece (literal x) next xs ys p n =
    rw p (Splits-one_of (λ c. c == x) next x ys (code_eq_refl x) n)
Splits-Piece any_path next xs ys p n = Splits-skips not_newline next xs ys p n
Splits-Piece any_dirs next xs ys (inl e) n = rw (e, n) refl
Splits-Piece any_dirs next xs ys (inr (dir, e, a)) n =
    let o = Splits-one_of (λ c. c == b'/') next b'/' ys refl n in
    let m = Splits-skips not_newline (one_of (λ c. c == b'/') next) dir (b'/' ∷ ys) a o in
    rw (e, append_snoc dir b'/' ys) (ground (arith, m))
Splits-Piece any_name next xs ys p n = Splits-skips not_slash next xs ys p n
Splits-Piece one_name next xs ys (c, e, a) n = rw e (Splits-one_of not_slash next c ys a n)
Splits-Piece (class negated spans) next xs ys (c, e, a) n =
    rw e (Splits-one_of (in_class negated spans) next c ys a n)

one_first :
    (i : Item) (p : List Item) (next : List ℕ → Bool) (s : List ℕ)
    → matches_items (i ∷ p) next s ≡ matches_items (i ∷ []) (matches_items p next) s
unfolding matches_items
one_first (literal x) p next s = refl
one_first any_path p next s = refl
one_first any_dirs p next s = refl
one_first any_name p next s = refl
one_first one_name p next s = refl
one_first (class negated spans) p next s = refl

pub matches_items-Splits :
    (p : List Item) (next : List ℕ → Bool) (s : List ℕ)
    → matches_items p next s ≡ true
    → Splits (Reads p) next s
unfolding matches_items
matches_items-Splits [] next s h = ([], s, refl, refl, h)
matches_items-Splits (i ∷ p) next s h =
    let a = Piece-Splits i (matches_items p next) s (rw (one_first i p next s) at h) in
    let b = matches_items-Splits p next a.1 a.4 in
    (a.0 ++ b.0, b.1, joined s a.1 a.0 b.0 b.1 a.2 b.2, (a.0, b.0, refl, a.3, b.3), b.4)

pub Splits-matches_items :
    (p : List Item) (next : List ℕ → Bool) (xs ys : List ℕ)
    → Reads p xs
    → next ys ≡ true
    → matches_items p next (xs ++ ys) ≡ true
unfolding matches_items
Splits-matches_items [] next xs ys r n = rw (r, n) refl
Splits-matches_items (i ∷ p) next xs ys (us, vs, e, q, r) n =
    rw (e, append_assoc us vs ys, one_first i p next (us ++ (vs ++ ys)))
      (Splits-Piece i (matches_items p next) us (vs ++ ys) q
        (Splits-matches_items p next vs ys r n))
