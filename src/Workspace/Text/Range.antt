-- ===== src/Workspace/Text/Range.antt =====
-- What the loop of `readTextRange` in internal/workspace/text.go has selected at each line.
use mathlib.Core.Path.{subst}
use codexlink.Prelude.{
  ℕ, ◌+◌, ◌-◌, ◌≤◌, ◌<◌, true, false, not, ◌&&◌, List, [], ◌∷◌, ◌++◌, ◌≡◌, refl, sym, ap, ◌∙◌, inl,
  inr, arith, leb, ltb, length, take, drop, length-append, length-drop, take_all, drop-append,
  Bool-cases, append_nil, append_snoc,
}
use codexlink.Workspace.Text.{
  Cursor, cost, is_none_selected, add_line, read_line, read_lines, begin, join_lines,
  utf8_safe_prefix,
}
use codexlink.Workspace.Text.Lines.{
  length-join_lines-snoc, length-utf8_safe_prefix_le, none_selected, some_selected,
}
use codexlink.Workspace.Text.Counted.{Inv, counted-Inv}

module _ (start end max_bytes : ℕ) where
  -- A line of the range, while nothing was cut.
  module _ (seen : List (List ℕ)) (c : Cursor) (line : List ℕ) (pos : 1 ≤ start)
      (v : Inv start end max_bytes seen c) (uncut : c.byte_truncated ≡ false)
      (from : start ≤ c.total + 1) (to : c.total + 1 ≤ end) where
    ends_total_eq : c.actual_end ≡ c.total
    ends_total_eq = elim (Bool-cases (ltb c.total start)) [
      | inl early ↦ ground (arith, v.before, v.ends, early)
      | inr late ↦ v.within uncut (ground (arith, late)) (omega (arith, to))
    ]

    all_taken : c.selected ≡ drop (start - 1) seen
    all_taken = elim v.whole [
      | inl w ↦
          w
          ∙ take_all (length c.selected) (drop (start - 1) seen)
              (omega (arith, length-drop (start - 1) seen, v.total, v.ends, ends_total_eq))
      | inr (cut, _) ↦ absurd (ground (arith, cut, uncut))
    ]

    drop_snoc : drop (start - 1) (seen ++ line ∷ []) ≡ c.selected ++ line ∷ []
    drop_snoc =
        drop-append (start - 1) seen (line ∷ []) (omega (arith, from, v.total))
        ∙ ap (λ (ls : List (List ℕ)). ls ++ line ∷ []) (sym all_taken)

    fit-Inv :
        c.bytes_used + cost c.selected line ≤ max_bytes
        → Inv start end max_bytes (seen ++ line ∷ []) (record c {
          selected = c.selected ++ line ∷ [];
          total = c.total + 1;
          bytes_used = c.bytes_used + cost c.selected line;
          actual_end = c.total + 1;
        })
    fit-Inv fits =
        let l = length-append c.selected (line ∷ []) in
        record {
          total = omega (arith, v.total, length-append seen (line ∷ []));
          used = omega (arith, v.used, length-join_lines-snoc c.selected line);
          used_le = fits;
          ends = omega (arith, v.ends, ends_total_eq, l);
          ends_le = to;
          before = λ lt. absurd (omega (arith, lt, from));
          within = λ n ge le. refl;
          after = λ n lt. absurd (omega (arith, lt, to));
          some_line = λ ge. omega (arith, l);
          ends_total = λ p. omega arith;
          cut_late = λ t. absurd (ground (arith, t, uncut));
          whole = inl (
              sym (
                take_all (length (c.selected ++ line ∷ [])) (c.selected ++ line ∷ []) (omega arith))
              ∙ ap (take (length (c.selected ++ line ∷ []))) (sym drop_snoc));
        }

    cut_first-Inv :
        c.selected ≡ []
        → Inv start end max_bytes (seen ++ line ∷ []) (record c {
          selected = utf8_safe_prefix line max_bytes ∷ [];
          total = c.total + 1;
          bytes_used = length (utf8_safe_prefix line max_bytes);
          actual_end = c.total + 1;
          byte_truncated = true;
        })
    unfolding join_lines
    cut_first-Inv none_yet = record {
      total = omega (arith, v.total, length-append seen (line ∷ []));
      used = refl;
      used_le = length-utf8_safe_prefix_le line max_bytes;
      ends = omega (arith, v.ends, ends_total_eq, ap length none_yet);
      ends_le = to;
      before = λ lt. absurd (omega (arith, lt, from));
      within = λ n ge le. refl;
      after = λ n lt. absurd (omega (arith, lt, to));
      some_line = λ ge. omega arith;
      ends_total = λ p. omega arith;
      cut_late = λ t. from;
      whole = inr (
        refl,
        (line, [], drop_snoc ∙ ap (λ (ls : List (List ℕ)). ls ++ line ∷ []) none_yet, refl),
      );
    }

    cut_later-Inv :
        0 < length c.selected
        → Inv start end max_bytes
            (seen ++ line ∷ [])
            (record c { total = c.total + 1; byte_truncated = true })
    cut_later-Inv some_yet =
        counted-Inv start end max_bytes seen (record c { byte_truncated = true }) line pos
          (omega (arith, from, to)) (λ n ge. absurd (ground (arith, n)))
          (record {
            total = v.total;
            used = v.used;
            used_le = v.used_le;
            ends = v.ends;
            ends_le = v.ends_le;
            before = v.before;
            within = λ n ge le. v.within uncut ge le;
            after = λ n lt. v.after uncut lt;
            some_line = v.some_line;
            ends_total = v.ends_total;
            cut_late = λ t. omega (arith, v.ends, ends_total_eq, some_yet);
            whole = elim v.whole [
              | inl w ↦ inl w
              | inr (cut, _) ↦ absurd (ground (arith, cut, uncut))
            ];
          })

    add_line-Inv :
        Inv start end max_bytes
          (seen ++ line ∷ [])
          (add_line max_bytes (record c { total = c.total + 1 }) line)
    unfolding add_line is_none_selected
    add_line-Inv = elim (Bool-cases (leb (c.bytes_used + cost c.selected line) max_bytes)) [
      | inl fits ↦ rw fits (fit-Inv (ground (arith, fits)))
      | inr over ↦ elim (Bool-cases (is_none_selected c.selected)) [
        | inl first ↦ rw (over, first) (cut_first-Inv (none_selected c.selected first))
        | inr later ↦ rw (over, later) (cut_later-Inv (some_selected c.selected later))
      ]
    ]

  read_line-Inv :
      (seen : List (List ℕ)) (c : Cursor) (line : List ℕ)
      → 1 ≤ start
      → start ≤ end
      → Inv start end max_bytes seen c
      → Inv start end max_bytes (seen ++ line ∷ []) (read_line start end max_bytes c line)
  unfolding read_line
  read_line-Inv seen c line pos le v =
      elim (Bool-cases (leb start (c.total + 1) && leb (c.total + 1) end && not c.byte_truncated)) [
        | inl taken ↦ rw taken (
            add_line-Inv seen c line pos v (ground (arith, taken)) (ground (arith, taken))
              (ground (arith, taken)))
        | inr skipped ↦ rw skipped (
            counted-Inv start end max_bytes seen c line pos le
              (λ n ge. ground (arith, skipped, n, ge)) v)
      ]

  read_lines-Inv :
      (seen : List (List ℕ)) (c : Cursor) (lines : List (List ℕ))
      → 1 ≤ start
      → start ≤ end
      → Inv start end max_bytes seen c
      → Inv start end max_bytes (seen ++ lines) (read_lines start end max_bytes c lines)
  unfolding read_lines
  read_lines-Inv seen c [] pos le v = rw (append_nil seen) v
  read_lines-Inv seen c (l ∷ ls) pos le v =
      subst (λ z. Inv start end max_bytes z (read_lines start end max_bytes c (l ∷ ls)))
        (append_snoc seen l ls)
        (read_lines-Inv (seen ++ l ∷ []) (read_line start end max_bytes c l) ls pos le
          (read_line-Inv seen c l pos le v))

  begin-Inv : 1 ≤ start → start ≤ end → Inv start end max_bytes [] (begin start)
  unfolding join_lines
  begin-Inv pos le = record {
    total = refl;
    used = refl;
    used_le = omega arith;
    ends = omega (arith, pos);
    ends_le = omega (arith, le);
    before = λ lt. refl;
    within = λ n ge le'. absurd (omega (arith, ge, pos));
    after = λ n lt. absurd (omega (arith, lt, le, pos));
    some_line = λ ge. absurd (omega (arith, ge, pos));
    ends_total = λ p. absurd (omega arith);
    cut_late = λ t. absurd (ground (arith, t));
    whole = inl refl;
  }

  pub read_all-Inv :
      (lines : List (List ℕ))
      → 1 ≤ start
      → start ≤ end
      → Inv start end max_bytes lines (read_lines start end max_bytes (begin start) lines)
  read_all-Inv lines pos le = read_lines-Inv [] (begin start) lines pos le (begin-Inv pos le)
