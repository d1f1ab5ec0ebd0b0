-- ===== src/Workspace/Text/Result.antt =====
-- What `readTextRange` of internal/workspace/text.go returns.
use codexlink.Prelude.{
  ℕ, ◌+◌, ◌-◌, ◌≤◌, ◌<◌, true, false, none, some, List, ◌∷◌, ◌≡◌, ap, ◌∙◌, ◌⊎◌, inl, inr, arith,
  leb, length, take, drop, Bool-cases,
}
use codexlink.Prelude.Int.{ℤ, pos, negsuc}
use codexlink.Workspace.Text.{
  ReadFileOptions, ReadFileResult, Cursor, begin, at_least, min, start_of, end_of, max_lines_of,
  max_bytes_of, hard_max_lines, hard_max_bytes, lines_of, join_lines, read_lines, next_start,
  result_of, read_text_range, utf8_safe_prefix,
}
use codexlink.Workspace.Text.Counted.{Inv}
use codexlink.Workspace.Text.Range.{read_all-Inv}

at_least_ge : (least fallback : ℕ) (z : ℤ) → least ≤ fallback → least ≤ at_least least fallback z
unfolding at_least
at_least_ge least fallback (pos n) h = ground arith
at_least_ge least fallback (negsuc n) h = h

pub start_pos : (o : ReadFileOptions) → 1 ≤ start_of o
start_pos o = at_least_ge 1 1 o.start_line (omega arith)

max_lines_pos : (o : ReadFileOptions) → 1 ≤ max_lines_of o
unfolding min
max_lines_pos o = ground (arith, at_least_ge 1 400 o.max_lines (omega arith))

start_le_end : (o : ReadFileOptions) → start_of o ≤ end_of o
unfolding min
start_le_end o = ground (
  arith,
  start_pos o,
  max_lines_pos o,
  at_least_ge (start_of o) (start_of o + max_lines_of o - 1) o.end_line
      (omega (arith, max_lines_pos o)),
)

end_le : (o : ReadFileOptions) → end_of o + 1 ≤ start_of o + hard_max_lines
unfolding min
end_le o = ground (arith, start_pos o)

max_bytes_le : (o : ReadFileOptions) → max_bytes_of o ≤ hard_max_bytes
unfolding min
max_bytes_le o = ground arith

module _ (file : List ℕ) (o : ReadFileOptions) where
  abbrev cursor : Cursor
  cursor = read_lines (start_of o) (end_of o) (max_bytes_of o) (begin (start_of o)) (lines_of file)

  abbrev pub result : ReadFileResult
  result = read_text_range file o

  cursor-Inv : Inv (start_of o) (end_of o) (max_bytes_of o) (lines_of file) cursor
  cursor-Inv =
      read_all-Inv (start_of o) (end_of o) (max_bytes_of o) (lines_of file) (start_pos o)
        (start_le_end o)

  -- The lines of the file from the first to the last returned.
  abbrev pub returned_lines : List (List ℕ)
  returned_lines =
      take (result.end_line + 1 - result.start_line) (drop (result.start_line - 1) (lines_of file))

  -- Whatever is asked for, the content has at most 1 MiB, and at most as many bytes as the limit that is
  -- taken from the request; no more than 2000 lines are returned, none of them after the last one of the
  -- range; the total is the number of lines of the file; and if the range starts in the file, the last line
  -- returned and the number of lines that remain add up to that.
  pub length-read_text_range_le :
      (length result.content ≤ max_bytes_of o)
      × (length result.content ≤ hard_max_bytes)
      × (result.end_line + 1 ≤ result.start_line + hard_max_lines)
      × (result.end_line ≤ end_of o)
      × (result.total_lines ≡ length (lines_of file))
      × (result.start_line ≤ result.total_lines
          → result.end_line + result.remaining_lines ≡ result.total_lines)
  unfolding read_text_range result_of
  length-read_text_range_le =
      let v = cursor-Inv in
      (
        omega (arith, v.used, v.used_le),
        omega (arith, v.used, v.used_le, max_bytes_le o),
        omega (arith, v.ends_le, end_le o),
        v.ends_le,
        v.total,
        λ ge. omega (arith, v.ends_total (v.some_line ge)),
      )

  next_after :
      (n : ℕ)
      → result.next_start_line ≡ some n
      → (n ≡ result.end_line + 1) × (result.start_line < n)
  unfolding read_text_range result_of next_start
  next_after n e =
      let v = cursor-Inv in
      elim (Bool-cases (leb (start_of o) cursor.total)) [
        | inl late ↦
            let p = v.some_line (ground (arith, late)) in
            (ground (arith, e), ground (arith, e, p, v.ends))
        | inr early ↦ ground (arith, e, v.ends, early, v.cut_late)
      ]

  -- The line at which the range starts is too long by itself, and cut before a byte that would make the
  -- content too long or end inside a character.
  abbrev pub IsCut : Type 0
  IsCut =
      (line : List ℕ) × (rest : List (List ℕ)) × (drop (result.start_line - 1) (lines_of file)
        ≡ line ∷ rest)
      × (result.content ≡ utf8_safe_prefix line (max_bytes_of o))
      × (result.truncated ≡ true)
      × (result.end_line ≡ result.start_line)
      × (result.next_start_line ≡ none)

  -- The content is the lines from the first to the last returned, joined by newlines; or the range starts
  -- at a line that is too long by itself, and the content is a prefix of that, the result is truncated and
  -- names no next line. If the result is not truncated, the last line returned is the last of the file. If
  -- it names a next line, that is the line after the last one returned, and comes after the first one.
  pub read_text_range-lines :
      ((result.content ≡ join_lines returned_lines) ⊎ IsCut)
      × (result.truncated ≡ false → result.total_lines ≤ result.end_line)
      × ((n : ℕ)
          → result.next_start_line ≡ some n
          → (n ≡ result.end_line + 1) × (result.start_line < n))
  unfolding read_text_range result_of next_start join_lines
  read_text_range-lines =
      let v = cursor-Inv in
      (
        elim v.whole [
          | inl w ↦ inl (
              ap join_lines (
                w
                ∙ ap (λ n. take n (drop (start_of o - 1) (lines_of file))) (omega (arith, v.ends))))
          | inr (cut, (line, rest, d, e)) ↦ inr (
            line,
            rest,
            d,
            ap join_lines e,
            ground (arith, cut),
            omega (arith, v.ends, ap length e),
            ground (arith, cut, v.ends, ap length e),
          )
        ],
        λ n. ground arith,
        λ n e. next_after n e,
      )
