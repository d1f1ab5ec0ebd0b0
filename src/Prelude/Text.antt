-- ===== src/Prelude/Text.antt =====
-- Go texts. A text is a native `String`; what walks over it reads its code points. Texts that are not
-- valid UTF-8 are outside the model.
use Prim.Native.Char.{Char, char, code}
use Prim.Native.Nat.{ℕ, Ordering, compare}
use Prim.Native.String.{String}
use Prim.Native.String
use mathlib.Core.Bool.{Bool, true, false, ◌&&◌, ◌||◌}
use mathlib.Core.List.{List, [], ◌∷◌, reverse}
use mathlib.Core.Path.{◌≡◌, refl}
use codexlink.Prelude.Tests.{◌==◌, leb, if◌then◌else◌}

-- The code points of a text.
abbrev pub codes : String → List ℕ
codes String.[] = []
codes (String.◌∷◌ c s) = code c ∷ codes s

-- A number with the comparisons that tell whether it is a character.
abbrev char_of :
    (n : ℕ) (o p q : Ordering)
    → compare n 55296 ≡ o
    → compare 57343 n ≡ p
    → compare n 1114112 ≡ q
    → Char
char_of n Ordering.lt p q e f g = char n (rw e tt)
char_of n Ordering.eq Ordering.lt Ordering.lt e f g = char n (rw (e, f, g) tt)
char_of n Ordering.gt Ordering.lt Ordering.lt e f g = char n (rw (e, f, g) tt)
char_of n o p q e f g = "�"

-- The text of code points; what is no character becomes U+FFFD, as in Go.
unfoldable pub text : List ℕ → String
text [] = String.[]
text (c ∷ cs) =
    String.◌∷◌ (char_of c (compare c 55296) (compare 57343 c) (compare c 1114112) refl refl refl)
      (text cs)

-- `len(s)`: bytes.
abbrev pub byte_length : String → ℕ
byte_length s = String.len s

-- `s < t`, the order of the bytes.
abbrev pub str_lt : String → String → Bool
str_lt s t = elim (String.compare s t) [ Ordering.lt ↦ true | _ ↦ false ]

-- `unicode.IsSpace`
unfoldable pub is_space : ℕ → Bool
is_space c =
    (leb 9 c && leb c 13)
    || c == 0x20
    || c == 0x85
    || c == 0xa0
    || c == 0x1680
    || (leb 0x2000 c && leb c 0x200a)
    || c == 0x2028
    || c == 0x2029
    || c == 0x202f
    || c == 0x205f
    || c == 0x3000

unfoldable pub trim_left : List ℕ → List ℕ
trim_left [] = []
trim_left (c ∷ cs) = if is_space c then trim_left cs else c ∷ cs

-- `strings.TrimSpace`
unfoldable pub trim_space : List ℕ → List ℕ
trim_space s = reverse (trim_left (reverse (trim_left s)))

abbrev pub is_empty : List ℕ → Bool
is_empty [] = true
is_empty (c ∷ cs) = false

abbrev pub is_digit : ℕ → Bool
is_digit c = leb b'0' c && leb c b'9'

abbrev pub is_lower : ℕ → Bool
is_lower c = leb b'a' c && leb c b'z'

abbrev pub is_upper : ℕ → Bool
is_upper c = leb b'A' c && leb c b'Z'

-- `[A-Za-z0-9_-]`
abbrev pub is_word : ℕ → Bool
is_word c = is_upper c || is_lower c || is_digit c || c == b'_' || c == b'-'

-- Every code point passes.
unfoldable pub all_codes : (ℕ → Bool) → List ℕ → Bool
all_codes p [] = true
all_codes p (c ∷ cs) = p c && all_codes p cs

unfoldable pub any_code : (ℕ → Bool) → List ℕ → Bool
any_code p [] = false
any_code p (c ∷ cs) = p c || any_code p cs

-- `strings.HasPrefix`, over code points.
unfoldable pub has_prefix : List ℕ → List ℕ → Bool
has_prefix s [] = true
has_prefix [] (p ∷ ps) = false
has_prefix (c ∷ cs) (p ∷ ps) = c == p && has_prefix cs ps
