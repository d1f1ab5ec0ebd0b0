-- ===== src/Workspace/Text/Stuck.antt =====
-- Where the reading of a file by ranges stops short, in internal/workspace/text.go.
use codexlink.Prelude.{
  ℕ, ◌+◌, ◌≤◌, ◌<◌, true, false, none, List, [], ◌∷◌, ◌++◌, ◌≡◌, refl, ap, ◌∙◌, arith, leb, length,
  ◌⊎◌, inl, inr,
}
use codexlink.Workspace.Text.{
  ReadFileOptions, Cursor, begin, cost, is_none_selected, add_line, read_line, read_lines, start_of,
  end_of, max_bytes_of, lines_of, join_lines, next_start, result_of, read_text_range,
}

module _ (start end max_bytes : ℕ) where
  read_lines-append :
      (c : Cursor) (xs ys : List (List ℕ))
      → read_lines start end max_bytes c (xs ++ ys)
        ≡ read_lines start end max_bytes (read_lines start end max_bytes c xs) ys
  unfolding read_lines
  read_lines-append c [] ys = refl
  read_lines-append c (x ∷ xs) ys = read_lines-append (read_line start end max_bytes c x) xs ys

  abbrev advanced : Cursor → ℕ → Cursor
  advanced c n = record c { total = c.total + n }

  -- Lines before the range, or after a cut, are only counted.
  abbrev Passes : Cursor → ℕ → Type 0
  Passes c n = (c.total + n < start) ⊎ (c.byte_truncated ≡ true)

  read_line-Passes :
      (c : Cursor) (line : List ℕ)
      → Passes c 1
      → read_line start end max_bytes c line ≡ advanced c 1
  unfolding read_line
  read_line-Passes c line p = ground arith

  read_lines-Passes :
      (c : Cursor) (ls : List (List ℕ))
      → Passes c (length ls)
      → read_lines start end max_bytes c ls ≡ advanced c (length ls)
  unfolding read_lines
  read_lines-Passes c [] p = ap (λ t. record c { total = t }) (omega arith)
  read_lines-Passes c (l ∷ ls) p =
      let q : Passes c 1 = ground (arith, p) in
      let r : Passes (advanced c 1) (length ls) = ground (arith, p) in
      rw (read_line-Passes c l q)
        (read_lines-Passes (advanced c 1) ls r ∙ ap (λ t. record c { total = t }) (omega arith))

  abbrev at_first : ℕ → Cursor
  at_first total = record {
    selected = [];
    total = total;
    actual_end = total;
    bytes_used = 0;
    byte_truncated = false;
  }

  abbrev taken : ℕ → List ℕ → Cursor
  taken total l = record {
    selected = l ∷ [];
    total = total;
    actual_end = total;
    bytes_used = length l;
    byte_truncated = false;
  }

  take_first :
      (l : List ℕ) (t : ℕ)
      → t + 1 ≡ start
      → start < end
      → length l ≤ max_bytes
      → read_line start end max_bytes (at_first t) l ≡ taken (t + 1) l
  unfolding read_line add_line cost is_none_selected
  take_first l t at lt fits =
      let a : leb start (t + 1) ≡ true = ground arith in
      let b : leb (t + 1) end ≡ true = ground arith in
      let d : leb (0 + length l) max_bytes ≡ true = ground arith in
      rw (a, b, d) (ap (λ n. record (taken (t + 1) l) { bytes_used = n }) (omega arith))

  stop_second :
      (l m : List ℕ) (t : ℕ)
      → t ≡ start
      → start < end
      → max_bytes < length l + 1 + length m
      → read_line start end max_bytes (taken t l) m
        ≡ record (taken t l) { total = t + 1; byte_truncated = true }
  unfolding read_line add_line cost is_none_selected
  stop_second l m t at lt over =
      let a : leb start (t + 1) ≡ true = ground arith in
      let b : leb (t + 1) end ≡ true = ground arith in
      let d : leb (length l + (length m + 1)) max_bytes ≡ false = ground arith in rw (a, b, d) refl

  -- The loop from the line before the range on.
  read_from :
      (l m : List ℕ) (rest : List (List ℕ)) (t : ℕ)
      → t + 1 ≡ start
      → start < end
      → length l ≤ max_bytes
      → max_bytes < length l + 1 + length m
      → read_lines start end max_bytes (at_first t) (l ∷ m ∷ rest)
        ≡ record (taken (t + 1) l) { total = t + 2 + length rest; byte_truncated = true }
  unfolding read_lines
  read_from l m rest t at lt fits over =
      rw (take_first l t at lt fits, stop_second l m (t + 1) at lt over)
        (read_lines-Passes (record (taken (t + 1) l) { total = t + 1 + 1; byte_truncated = true })
            rest (inr refl)
          ∙ ap (λ n. record (taken (t + 1) l) { total = n; byte_truncated = true }) (omega arith))

  read_before :
      (pre : List (List ℕ)) (l m : List ℕ) (rest : List (List ℕ))
      → length pre + 1 ≡ start
      → start < end
      → length l ≤ max_bytes
      → max_bytes < length l + 1 + length m
      → read_lines start end max_bytes (begin start) (pre ++ l ∷ m ∷ rest)
        ≡ record (taken (length pre + 1) l) {
          total = length pre + 2 + length rest;
          byte_truncated = true;
        }
  read_before pre l m rest at lt fits over =
      let same : advanced (begin start) (length pre) ≡ at_first (length pre) = ground arith in
      let early = read_lines-Passes (begin start) pre (inl (omega (arith, at))) ∙ same in
      read_lines-append (begin start) pre (l ∷ m ∷ rest)
      ∙ ap (λ c. read_lines start end max_bytes c (l ∷ m ∷ rest)) early
      ∙ read_from l m rest (length pre) at lt fits over

-- A range whose second line does not fit beside the first, which fits, has the first line alone, says that
-- it is truncated and how many lines remain, but names no next line, though the next line is known.
pub next_start-missing :
    (file : List ℕ) (o : ReadFileOptions) (pre : List (List ℕ)) (l m : List ℕ)
    (rest : List (List ℕ))
    → lines_of file ≡ pre ++ l ∷ m ∷ rest
    → length pre + 1 ≡ start_of o
    → start_of o < end_of o
    → length l ≤ max_bytes_of o
    → max_bytes_of o < length l + 1 + length m
    → read_text_range file o ≡ record {
      total_lines = length pre + 2 + length rest;
      start_line = start_of o;
      end_line = start_of o;
      truncated = true;
      remaining_lines = length rest + 1;
      next_start_line = none;
      content = l;
    }
unfolding read_text_range result_of next_start join_lines
next_start-missing file o pre l m rest e at lt fits over =
    rw (e, read_before (start_of o) (end_of o) (max_bytes_of o) pre l m rest at lt fits over)
      (ground arith)
