-- ===== src/Workspace/Text/Tests.antt =====
-- Ranges of files, of internal/workspace/text.go, at concrete inputs.
use codexlink.Prelude.{
  ℕ, zero, suc, ◌+◌, ◌≤◌, ◌<◌, true, false, none, some, List, [], ◌∷◌, ◌++◌, ◌≡◌, ◌⊎◌, refl, arith,
  length,
}
use codexlink.Prelude.Int.{pos}
use codexlink.Workspace.Text.{
  ReadFileOptions, read_text_range, lines_of, start_of, end_of, max_bytes_of, hard_max_bytes,
  hard_max_lines, join_lines,
}
use codexlink.Workspace.Text.Result.{
  result, returned_lines, IsCut, length-read_text_range_le, read_text_range-lines,
}
use codexlink.Workspace.Text.Stuck.{next_start-missing}

program : Unit {0}
unfolding codexlink.Prelude.Int.positive_or codexlink.Prelude.Int.int_eq
    codexlink.Workspace.Text.at_least codexlink.Workspace.Text.min
    codexlink.Workspace.Text.trim_return codexlink.Workspace.Text.onto_line
    codexlink.Workspace.Text.raw_lines codexlink.Workspace.Text.trim_all
    codexlink.Workspace.Text.safe_end codexlink.Workspace.Text.utf8_safe_prefix
    codexlink.Workspace.Text.cost codexlink.Workspace.Text.is_none_selected
    codexlink.Workspace.Text.add_line codexlink.Workspace.Text.read_line
    codexlink.Workspace.Text.read_lines codexlink.Workspace.Text.join_lines
    codexlink.Workspace.Text.next_start codexlink.Workspace.Text.result_of
    codexlink.Workspace.Text.read_text_range codexlink.Workspace.Text.Utf8.is_utf8_from
program = tt

abbrev options : ℕ → ReadFileOptions
options start = record {
  start_line = pos start;
  end_line = pos 0;
  max_lines = pos 0;
  max_bytes = pos 1024;
}

-- Three lines, the second one with a carriage return, the third without a newline.
abbrev small : List ℕ
small = b'a' ∷ 10 ∷ b'b' ∷ 13 ∷ 10 ∷ b'c' ∷ []

read_small : read_text_range small (options 2) ≡ record {
  total_lines = 3;
  start_line = 2;
  end_line = 3;
  truncated = false;
  remaining_lines = 0;
  next_start_line = none;
  content = b'b' ∷ 10 ∷ b'c' ∷ [];
}
unfolding program
read_small = refl

length-read_text_range_le_example :
    (length (result small (options 2)).content ≤ max_bytes_of (options 2))
    × (length (result small (options 2)).content ≤ hard_max_bytes)
    × ((result small (options 2)).end_line + 1
        ≤ (result small (options 2)).start_line + hard_max_lines)
    × ((result small (options 2)).end_line ≤ end_of (options 2))
    × ((result small (options 2)).total_lines ≡ length (lines_of small))
    × ((result small (options 2)).start_line ≤ (result small (options 2)).total_lines
        → (result small (options 2)).end_line + (result small (options 2)).remaining_lines
          ≡ (result small (options 2)).total_lines)
length-read_text_range_le_example = length-read_text_range_le small (options 2)

read_text_range-lines_example :
    (((result small (options 2)).content ≡ join_lines (returned_lines small (options 2)))
      ⊎ IsCut small (options 2))
    × ((result small (options 2)).truncated ≡ false
        → (result small (options 2)).total_lines ≤ (result small (options 2)).end_line)
    × ((n : ℕ)
        → (result small (options 2)).next_start_line ≡ some n
        → (n ≡ (result small (options 2)).end_line + 1)
          × ((result small (options 2)).start_line < n))
read_text_range-lines_example = read_text_range-lines small (options 2)

abbrev many : ℕ → ℕ → List ℕ
many c zero = []
many c (suc n) = c ∷ many c n

-- Three lines, of 600, 600 and no bytes.
abbrev long : List ℕ
long = many b'x' 600 ++ 10 ∷ many b'y' 600 ++ 10 ∷ 10 ∷ []

long_lines : lines_of long ≡ [] ++ many b'x' 600 ∷ many b'y' 600 ∷ [] ∷ []
unfolding program
long_lines = refl

starts : length {A = List ℕ} [] + 1 ≡ start_of (options 1)
unfolding program
starts = refl

ends_later : start_of (options 1) < end_of (options 1)
unfolding program
ends_later = omega arith

first_fits : length (many b'x' 600) ≤ max_bytes_of (options 1)
unfolding program
first_fits = omega arith

both_do_not : max_bytes_of (options 1) < length (many b'x' 600) + 1 + length (many b'y' 600)
unfolding program
both_do_not = omega arith

next_start-missing_example : read_text_range long (options 1) ≡ record {
  total_lines = length {A = List ℕ} [] + 2 + length {A = List ℕ} ([] ∷ []);
  start_line = start_of (options 1);
  end_line = start_of (options 1);
  truncated = true;
  remaining_lines = length {A = List ℕ} ([] ∷ []) + 1;
  next_start_line = none;
  content = many b'x' 600;
}
next_start-missing_example =
    next_start-missing long (options 1) [] (many b'x' 600) (many b'y' 600) ([] ∷ []) long_lines
      starts ends_later first_fits both_do_not
