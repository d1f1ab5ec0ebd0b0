-- ===== src/Workspace/Text.antt =====
-- internal/workspace/text.go: the cutting of a file into a range of lines. A file and its lines are lists
-- of bytes; opening the file and telling a binary one are not modelled, nor is an error while reading.
pub mod Utf8
pub mod Lines
pub mod Counted
pub mod Range
pub mod Result
pub mod Stuck
mod Tests
use codexlink.Prelude.{
  ℕ, zero, suc, ◌+◌, ◌-◌, Bool, true, false, not, ◌&&◌, ◌||◌, Option, none, some, List, [], ◌∷◌,
  ◌++◌, leb, ltb, ◌==◌, if◌then◌else◌, length, take,
}
use codexlink.Prelude.Int.{ℤ, pos, negsuc}
use Utf8.{is_utf8}

-- `NextStartLine` is nil for `none`.
pub record ReadFileResult : Type 0 where
  pub total_lines : ℕ
  pub start_line : ℕ
  pub end_line : ℕ
  pub truncated : Bool
  pub remaining_lines : ℕ
  pub next_start_line : Option ℕ
  pub content : List ℕ

pub record ReadFileOptions : Type 0 where
  pub start_line : ℤ
  pub end_line : ℤ
  pub max_lines : ℤ
  pub max_bytes : ℤ

abbrev pub default_max_lines : ℕ
default_max_lines = 400

abbrev pub hard_max_lines : ℕ
hard_max_lines = 2000

abbrev pub default_max_bytes : ℕ
default_max_bytes = 262_144

abbrev pub hard_max_bytes : ℕ
hard_max_bytes = 1_048_576

-- `if value < least { value = fallback }`, for a positive `least`.
unfoldable pub at_least : ℕ → ℕ → ℤ → ℕ
at_least least fallback (pos n) = if ltb n least then fallback else n
at_least least fallback (negsuc n) = fallback

unfoldable pub min : ℕ → ℕ → ℕ
min a b = if leb a b then a else b

abbrev pub start_of : ReadFileOptions → ℕ
start_of o = at_least 1 1 o.start_line

abbrev pub max_lines_of : ReadFileOptions → ℕ
max_lines_of o = min (at_least 1 default_max_lines o.max_lines) hard_max_lines

abbrev pub end_of : ReadFileOptions → ℕ
end_of o =
    min (at_least (start_of o) (start_of o + max_lines_of o - 1) o.end_line)
      (start_of o + hard_max_lines - 1)

abbrev pub max_bytes_of : ReadFileOptions → ℕ
max_bytes_of o = min (at_least 1024 default_max_bytes o.max_bytes) hard_max_bytes

-- `strings.TrimSuffix(line, "\r")`
unfoldable pub trim_return : List ℕ → List ℕ
trim_return [] = []
trim_return (c ∷ []) = if c == 13 then [] else c ∷ []
trim_return (c ∷ d ∷ cs) = c ∷ trim_return (d ∷ cs)

unfoldable pub onto_line : ℕ → List (List ℕ) → List (List ℕ)
onto_line c [] = (c ∷ []) ∷ []
onto_line c (l ∷ ls) = (c ∷ l) ∷ ls

-- The results of `ReadString('\n')` that are not empty, without their newline.
unfoldable pub raw_lines : List ℕ → List (List ℕ)
raw_lines [] = []
raw_lines (c ∷ cs) = let rest = raw_lines cs in if c == 10 then [] ∷ rest else onto_line c rest

unfoldable pub trim_all : List (List ℕ) → List (List ℕ)
trim_all [] = []
trim_all (l ∷ ls) = trim_return l ∷ trim_all ls

-- The lines of a file.
abbrev pub lines_of : List ℕ → List (List ℕ)
lines_of file = trim_all (raw_lines file)

-- The loop of `utf8SafePrefix` down from `end`.
unfoldable pub safe_end : List ℕ → ℕ → ℕ
safe_end bytes zero = zero
safe_end bytes (suc n) =
    let less = safe_end bytes n in if is_utf8 (take (suc n) bytes) then suc n else less

-- `utf8SafePrefix`
unfoldable pub utf8_safe_prefix : List ℕ → ℕ → List ℕ
utf8_safe_prefix bytes limit =
    if leb (length bytes) limit then bytes else take (safe_end bytes limit) bytes

-- The variables of the loop.
pub record Cursor : Type 0 where
  pub selected : List (List ℕ)
  pub total : ℕ
  pub actual_end : ℕ
  pub bytes_used : ℕ
  pub byte_truncated : Bool

abbrev pub begin : ℕ → Cursor
begin start = record {
  selected = [];
  total = 0;
  actual_end = start - 1;
  bytes_used = 0;
  byte_truncated = false;
}

-- What a line costs: its bytes, and the newline before it unless it is the first.
unfoldable pub cost : List (List ℕ) → List ℕ → ℕ
cost [] line = length line
cost (l ∷ ls) line = length line + 1

unfoldable pub is_none_selected : List (List ℕ) → Bool
is_none_selected [] = true
is_none_selected (l ∷ ls) = false

-- A line of the range while nothing was cut.
unfoldable pub add_line : ℕ → Cursor → List ℕ → Cursor
add_line max_bytes c line =
    if leb (c.bytes_used + cost c.selected line) max_bytes
    then record c {
      selected = c.selected ++ line ∷ [];
      bytes_used = c.bytes_used + cost c.selected line;
      actual_end = c.total;
    }
    else if is_none_selected c.selected
    then record c {
      selected = utf8_safe_prefix line max_bytes ∷ [];
      bytes_used = length (utf8_safe_prefix line max_bytes);
      actual_end = c.total;
      byte_truncated = true;
    }
    else record c { byte_truncated = true }

-- One round of the loop.
unfoldable pub read_line : ℕ → ℕ → ℕ → Cursor → List ℕ → Cursor
read_line start end max_bytes c line =
    let counted = record c { total = c.total + 1 } in
    if leb start counted.total && leb counted.total end && not c.byte_truncated
    then add_line max_bytes counted line
    else counted

unfoldable pub read_lines : ℕ → ℕ → ℕ → Cursor → List (List ℕ) → Cursor
read_lines start end max_bytes c [] = c
read_lines start end max_bytes c (l ∷ ls) =
    read_lines start end max_bytes (read_line start end max_bytes c l) ls

-- `strings.Join(selected, "\n")`
unfoldable pub join_lines : List (List ℕ) → List ℕ
join_lines [] = []
join_lines (l ∷ []) = l
join_lines (l ∷ m ∷ ls) = l ++ 10 ∷ join_lines (m ∷ ls)

-- `NextStartLine`, of a result that is truncated.
unfoldable pub next_start : ℕ → Cursor → Option ℕ
next_start start c =
    if c.byte_truncated && length c.selected == 1 && c.actual_end == start
    then none
    else some (c.actual_end + 1)

unfoldable pub result_of : ℕ → Cursor → ReadFileResult
result_of start c =
    let remaining = c.total - c.actual_end in
    let truncated = ltb 0 remaining || c.byte_truncated in
    record {
      total_lines = c.total;
      start_line = start;
      end_line = c.actual_end;
      truncated = truncated;
      remaining_lines = remaining;
      next_start_line = if truncated then next_start start c else none;
      content = join_lines c.selected;
    }

-- `readTextRange` on the bytes of the file.
unfoldable pub read_text_range : List ℕ → ReadFileOptions → ReadFileResult
read_text_range file o =
    result_of (start_of o)
      (read_lines (start_of o) (end_of o) (max_bytes_of o) (begin (start_of o)) (lines_of file))
