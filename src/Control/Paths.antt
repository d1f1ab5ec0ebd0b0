-- ===== src/Control/Paths.antt =====
-- The test of a plan's file names in internal/control/store.go, with `path.Clean` as it is documented:
-- a path is read as its parts between slashes.
pub mod Safe
mod Tests
use codexlink.Prelude.{
  ℕ, Bool, true, false, not, ◌&&◌, ◌||◌, List, [], ◌∷◌, ◌++◌, ltb, ◌==◌, if◌then◌else◌, bytes_eq,
  String,
}
use codexlink.Prelude.Text.{codes, byte_length, is_empty, is_upper, is_lower, any_code, has_prefix}
use mathlib.Core.List.{reverse}

abbrev pub dot : List ℕ
dot = b'.' ∷ []

abbrev pub dot_dot : List ℕ
dot_dot = b'.' ∷ b'.' ∷ []

-- `c` before the first part.
unfoldable pub onto_first : ℕ → List (List ℕ) → List (List ℕ)
onto_first c [] = (c ∷ []) ∷ []
onto_first c (p ∷ ps) = (c ∷ p) ∷ ps

-- The parts between the slashes, at least one.
unfoldable pub split : List ℕ → List (List ℕ)
split [] = [] ∷ []
split (c ∷ cs) = if c == b'/' then [] ∷ split cs else onto_first c (split cs)

unfoldable pub join : List (List ℕ) → List ℕ
join [] = []
join (p ∷ []) = p
join (p ∷ q ∷ ps) = p ++ (b'/' ∷ join (q ∷ ps))

-- `..` after the parts kept so far, the last one first.
unfoldable pub up : Bool → List (List ℕ) → List (List ℕ)
up rooted [] = if rooted then [] else dot_dot ∷ []
up rooted (p ∷ kept) = if bytes_eq p dot_dot then dot_dot ∷ p ∷ kept else kept

unfoldable pub reduce : Bool → List (List ℕ) → List (List ℕ) → List (List ℕ)
reduce rooted kept [] = reverse kept
reduce rooted kept (p ∷ ps) =
    reduce rooted
      (if is_empty p || bytes_eq p dot
        then kept
        else if bytes_eq p dot_dot
        then up rooted kept
        else p ∷ kept)
      ps

abbrev pub or_dot : List ℕ → List ℕ
or_dot [] = dot
or_dot (c ∷ cs) = c ∷ cs

-- `path.Clean`
unfoldable pub clean : List ℕ → List ℕ
clean path =
    if has_prefix path (b'/' ∷ [])
    then b'/' ∷ join (reduce true [] (split path))
    else or_dot (join (reduce false [] (split path)))

-- `^[A-Za-z]:`
unfoldable pub is_drive : List ℕ → Bool
is_drive (c ∷ d ∷ _) = (is_upper c || is_lower c) && d == b':'
is_drive _ = false

-- `hasControl`
unfoldable pub has_control : List ℕ → Bool
has_control = any_code (λ r. ltb r 0x20 || r == 0x7f)

-- The files that `validateSubmission` refuses.
unfoldable pub is_bad_file : String → Bool
is_bad_file name =
    let path = codes name in
    ltb 512 (byte_length name)
    || is_empty path
    || any_code (λ c. c == b'\\') path
    || not (bytes_eq (clean path) path)
    || bytes_eq path dot
    || has_prefix path (b'/' ∷ [])
    || is_drive path
    || bytes_eq path dot_dot
    || has_prefix path (b'.' ∷ b'.' ∷ b'/' ∷ [])
    || has_control path
