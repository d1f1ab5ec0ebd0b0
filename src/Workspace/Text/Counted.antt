-- ===== src/Workspace/Text/Counted.antt =====
-- The state of the loop of `readTextRange` in internal/workspace/text.go, and what a line that is only counted
-- does to it.
use codexlink.Prelude.{
  ℕ, ◌+◌, ◌-◌, ◌≤◌, ◌<◌, true, false, List, [], ◌∷◌, ◌++◌, ◌≡◌, refl, sym, ap, ◌∙◌, ◌⊎◌, inl, inr,
  arith, ltb, length, take, drop, length-append, length-drop, take-append, drop-append, Bool-cases,
}
use codexlink.Workspace.Text.{Cursor, join_lines, utf8_safe_prefix}

module _ (start end max_bytes : ℕ) where
  -- The first line of the range is too long, and cut.
  abbrev pub Cuts : List (List ℕ) → Cursor → Type 0
  Cuts seen c =
      (c.byte_truncated ≡ true)
      × ((line : List ℕ) × (rest : List (List ℕ)) × (drop (start - 1) seen ≡ line ∷ rest)
          × (c.selected ≡ utf8_safe_prefix line max_bytes ∷ []))

  -- The state of the loop once the lines `seen` are read.
  pub record Inv (seen : List (List ℕ)) (c : Cursor) : Type 0 where
    pub total : c.total ≡ length seen
    pub used : c.bytes_used ≡ length (join_lines c.selected)
    pub used_le : c.bytes_used ≤ max_bytes
    pub ends : c.actual_end + 1 ≡ start + length c.selected
    pub ends_le : c.actual_end ≤ end
    pub before : c.total < start → c.selected ≡ []
    pub within : c.byte_truncated ≡ false → start ≤ c.total → c.total ≤ end → c.actual_end ≡ c.total
    pub after : c.byte_truncated ≡ false → end < c.total → c.actual_end ≡ end
    pub some_line : start ≤ c.total → 0 < length c.selected
    pub ends_total : 0 < length c.selected → c.actual_end ≤ c.total
    pub cut_late : c.byte_truncated ≡ true → start ≤ c.total
    pub whole : (c.selected ≡ take (length c.selected) (drop (start - 1) seen)) ⊎ Cuts seen c

  -- What was taken of the lines seen is taken of them with one more.
  whole-snoc :
      (seen : List (List ℕ)) (line : List ℕ) (selected : List (List ℕ))
      → 1 ≤ start
      → (length seen < start → selected ≡ [])
      → (start ≤ length seen → length selected + start ≤ length seen + 1)
      → selected ≡ take (length selected) (drop (start - 1) seen)
      → selected ≡ take (length selected) (drop (start - 1) (seen ++ line ∷ []))
  whole-snoc seen line selected pos short fits w = elim (Bool-cases (ltb (length seen) start)) [
    | inl early ↦ rw (short (ground (arith, early))) refl
    | inr late ↦
        let d = drop-append (start - 1) seen (line ∷ []) (ground (arith, late)) in
        let t =
          take-append (length selected) (drop (start - 1) seen) (line ∷ [])
            (ground (arith, late, fits, length-drop (start - 1) seen)) in
        w ∙ sym t ∙ ap (take (length selected)) (sym d)
  ]

  cut-snoc :
      (seen : List (List ℕ)) (line : List ℕ) (selected : List (List ℕ))
      → start ≤ length seen
      → ((first : List ℕ) × (rest : List (List ℕ)) × (drop (start - 1) seen ≡ first ∷ rest)
          × (selected ≡ utf8_safe_prefix first max_bytes ∷ []))
      → (first : List ℕ) × (rest : List (List ℕ)) × (drop (start - 1) (seen ++ line ∷ [])
          ≡ first ∷ rest)
        × (selected ≡ utf8_safe_prefix first max_bytes ∷ [])
  cut-snoc seen line selected le (first, rest, d, e) = (
    first,
    rest ++ line ∷ [],
    drop-append (start - 1) seen (line ∷ []) (omega (arith, le))
        ∙ ap (λ (ls : List (List ℕ)). ls ++ line ∷ []) d,
    e,
  )

  sel_fits :
      (seen : List (List ℕ)) (c : Cursor)
      → Inv seen c
      → start ≤ c.total
      → length c.selected + start ≤ length seen + 1
  sel_fits seen c v ge = omega (arith, v.ends, v.ends_total (v.some_line ge), v.total)

  counted_some :
      (seen : List (List ℕ)) (c : Cursor)
      → 1 ≤ start
      → start ≤ end
      → (c.byte_truncated ≡ false → start ≤ c.total + 1 → end < c.total + 1)
      → Inv seen c
      → start ≤ c.total + 1
      → 0 < length c.selected
  counted_some seen c pos le skip v ge = elim (Bool-cases c.byte_truncated) [
    | inl cut ↦ v.some_line (v.cut_late cut)
    | inr uncut ↦ v.some_line (omega (arith, skip uncut ge, le))
  ]

  pub counted-Inv :
      (seen : List (List ℕ)) (c : Cursor) (line : List ℕ)
      → 1 ≤ start
      → start ≤ end
      → (c.byte_truncated ≡ false → start ≤ c.total + 1 → end < c.total + 1)
      → Inv seen c
      → Inv (seen ++ line ∷ []) (record c { total = c.total + 1 })
  counted-Inv seen c line pos le skip v = record {
    total = omega (arith, v.total, length-append seen (line ∷ []));
    used = v.used;
    used_le = v.used_le;
    ends = v.ends;
    ends_le = v.ends_le;
    before = λ lt. v.before (omega (arith, lt));
    within = λ n ge le'. absurd (ground (arith, skip n ge, le'));
    after = λ n lt. ground (arith, v.after n, v.within n);
    some_line = λ ge. counted_some seen c pos le skip v ge;
    ends_total = λ p. omega (arith, v.ends_total p);
    cut_late = λ t. omega (arith, v.cut_late t);
    whole = elim v.whole [
      | inl w ↦ inl (
          whole-snoc seen line c.selected pos (λ lt. v.before (omega (arith, v.total, lt)))
            (λ ge. sel_fits seen c v (omega (arith, v.total, ge))) w)
      | inr (cut, first) ↦
          inr (cut, cut-snoc seen line _ (omega (arith, v.total, v.cut_late cut)) first)
    ];
  }
