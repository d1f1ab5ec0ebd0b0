-- ===== src/Workspace/Policy/Whole.antt =====
-- What a rule of internal/workspace/policy.go matches: the compiled expressions as a whole.
use codexlink.Prelude.{
  ℕ, Bool, true, false, List, [], ◌∷◌, ◌++◌, ◌==◌, ◌≡◌, ◌⊎◌, ◌↔◌, refl, sym, inl, inr, arith,
  append_nil, if◌then◌else◌, ap, ◌∙◌,
}
use mathlib.Core.Path.{subst}
use codexlink.Prelude.Text.{all_codes}
use codexlink.Workspace.Policy.Glob.{Item, any_dirs, not_newline, skips, one_of, at_end, inside}
use codexlink.Workspace.Policy.Reads.{
  Reads, matches_items-Splits, Splits-matches_items, skips-Splits, Splits-skips, one_of-Splits,
  Splits-one_of, or_parts, code_eq,
}
use codexlink.Workspace.Policy.{expression}

-- What may follow the text of the pattern.
abbrev pub Ends : Bool → List ℕ → Type 0
Ends false ys = ys ≡ []
Ends true ys =
    (ys ≡ []) ⊎ ((rest : List ℕ) × (ys ≡ b'/' ∷ rest) × (all_codes not_newline rest ≡ true))

abbrev pub parts : Bool → List Item → List Item
parts fixed body = if fixed then body else any_dirs ∷ body

at_end_nil : (ys : List ℕ) → at_end ys ≡ true → ys ≡ []
unfolding at_end
at_end_nil [] h = refl
at_end_nil (y ∷ ys) h = absurd (ground arith)

nil_at_end : at_end [] ≡ true
unfolding at_end
nil_at_end = refl

abbrev end_test : Bool → List ℕ → Bool
end_test directory_only = if directory_only then inside else at_end

Ends-end_test : (d : Bool) (ys : List ℕ) → end_test d ys ≡ true → Ends d ys
unfolding inside
Ends-end_test false ys h = at_end_nil ys h
Ends-end_test true ys h =
    elim (or_parts (at_end ys) (one_of (λ c. c == b'/') (skips not_newline at_end) ys) h) [
      | inl e ↦ inl (at_end_nil ys e)
      | inr m ↦
          let o = one_of-Splits (λ c. c == b'/') (skips not_newline at_end) ys m in
          let r = skips-Splits not_newline at_end o.1 o.4 in
          let all =
            subst (λ t. all_codes not_newline t ≡ true)
              (sym (append_nil r.0) ∙ ap (λ t. r.0 ++ t) (sym (at_end_nil r.1 r.4)) ∙ sym r.2)
              r.3 in
          inr (
            o.1,
            o.2 ∙ ap (λ t. t ++ o.1) (o.3.1 ∙ ap (λ c. c ∷ []) (code_eq o.3.0 b'/' o.3.2)),
            all,
          )
    ]

end_test-Ends : (d : Bool) (ys : List ℕ) → Ends d ys → end_test d ys ≡ true
unfolding inside
end_test-Ends false ys e = rw e nil_at_end
end_test-Ends true ys (inl e) = rw (e, nil_at_end) refl
end_test-Ends true ys (inr (rest, e, a)) =
    let k = Splits-skips not_newline at_end rest [] a nil_at_end in
    let m =
      Splits-one_of (λ c. c == b'/') (skips not_newline at_end) b'/' rest refl
        (rw (append_nil rest) at k) in
    rw e (ground (arith, m))

-- A compiled rule matches a path exactly if the path is a text that the parts of its pattern stand for,
-- one after the other, after directories unless the pattern is fixed to the root, and then nothing or,
-- for a pattern of directories, a slash and anything without a newline.
pub expression-Reads :
    (fixed directory_only : Bool) (body : List Item) (path : List ℕ)
    → (expression fixed directory_only body path ≡ true) ↔ (
        (xs : List ℕ) × (ys : List ℕ) × (path ≡ xs ++ ys)
        × Reads (parts fixed body) xs
        × Ends directory_only ys)
unfolding expression
expression-Reads fixed directory_only body path = (
  λ h.
      let s = matches_items-Splits (parts fixed body) (end_test directory_only) path h in
      (s.0, s.1, s.2, s.3, Ends-end_test directory_only s.1 s.4),
  λ (xs, ys, e, r, n). rw e (
      Splits-matches_items (parts fixed body) (end_test directory_only) xs ys r
        (end_test-Ends directory_only ys n)),
)
