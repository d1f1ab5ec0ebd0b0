-- ===== src/Workspace/Policy/Glob.antt =====
-- The parts of the regular expressions that `compileIgnoreRule` in internal/workspace/policy.go builds, and
-- what they match by Go's regexp. In an expression `.` is any code point but the newline.
use codexlink.Prelude.{
  ℕ, zero, suc, ◌+◌, ◌/◌, ◌%◌, Bool, true, false, not, ◌&&◌, ◌||◌, Option, none, some, List, [],
  ◌∷◌, ◌++◌, leb, ltb, ◌==◌, if◌then◌else◌, map,
}

-- `any_path` is `.*`, `any_dirs` is `(?:.*/)?`, `any_name` is `[^/]*`, `one_name` is `[^/]`.
pub data Item : Type 0 where
  literal : ℕ → Item
  any_path any_dirs any_name one_name : Item
  class : Bool → List (ℕ × ℕ) → Item

-- A pattern between brackets is one token.
pub data Token : Type 0 where
  char : ℕ → Token
  bracket : List ℕ → Token

-- Whether a `]` follows.
unfoldable pub has_close : List ℕ → Bool
has_close [] = false
has_close (c ∷ cs) = c == b']' || has_close cs

-- The tokens of a pattern, inside of brackets with the text since the `[`.
unfoldable pub tokens : Option (List ℕ) → List ℕ → List Token
tokens none [] = []
tokens (some text) [] = []
tokens none (c ∷ cs) =
    let opened = tokens (some []) cs in
    let rest = tokens none cs in if c == b'[' && has_close cs then opened else char c ∷ rest
tokens (some text) (c ∷ cs) =
    let closed = tokens none cs in
    let rest = tokens (some (text ++ c ∷ [])) cs in
    if c == b']' then bracket text ∷ closed else rest

-- The bytes of a code point. The code takes each for a code point of its own (`string(ch)`).
unfoldable pub utf8 : ℕ → List ℕ
utf8 c =
    if ltb c 0x80
    then c ∷ []
    else if ltb c 0x800
    then (0xc0 + c / 64) ∷ (0x80 + c % 64) ∷ []
    else if ltb c 0x10000
    then (0xe0 + c / 4096) ∷ (0x80 + c / 64 % 64) ∷ (0x80 + c % 64) ∷ []
    else (0xf0 + c / 262144) ∷ (0x80 + c / 4096 % 64) ∷ (0x80 + c / 64 % 64) ∷ (0x80 + c % 64) ∷ []

unfoldable pub onto_span : ℕ × ℕ → Option (List (ℕ × ℕ)) → Option (List (ℕ × ℕ))
onto_span s none = none
onto_span s (some spans) = some (s ∷ spans)

-- The code points and ranges of a class, whose other special characters are quoted; `none` for a range
-- that runs backwards, which does not compile.
unfoldable pub spans_of : List ℕ → Option (List (ℕ × ℕ))
spans_of [] = some []
spans_of (a ∷ d ∷ b ∷ rest) =
    let after_range = spans_of rest in
    let after_one = spans_of (d ∷ b ∷ rest) in
    if d == b'-'
    then (if ltb b a then none else onto_span (a, b) after_range)
    else onto_span (a, a) after_one
spans_of (a ∷ rest) = onto_span (a, a) (spans_of rest)

unfoldable pub class_of : Bool → Option (List (ℕ × ℕ)) → Option (List Item)
class_of negated none = none
class_of negated (some []) = none
class_of negated (some (s ∷ spans)) = some (class negated (s ∷ spans) ∷ [])

-- An empty class, `[]` or `[!]`, makes Go's expression run on into the text after it. Such patterns are
-- outside of the model, which has no rule for them.
unfoldable pub bracket_of : List ℕ → Option (List Item)
bracket_of [] = none
bracket_of (c ∷ cs) =
    if c == b'!' then class_of true (spans_of cs) else class_of false (spans_of (c ∷ cs))

unfoldable pub items_of_token : Token → Option (List Item)
items_of_token (char c) = some (if c == b'?' then one_name ∷ [] else map literal (utf8 c))
items_of_token (bracket text) = bracket_of text

unfoldable pub onto_items : Option (List Item) → Option (List Item) → Option (List Item)
onto_items (some xs) (some ys) = some (xs ++ ys)
onto_items _ _ = none

unfoldable pub is_char : ℕ → Token → Bool
is_char x (char c) = c == x
is_char x (bracket text) = false

-- The loop over the pattern; `stars` tells how many stars stand before, that are not written yet.
unfoldable pub items_after : ℕ → List Token → Option (List Item)
items_after zero [] = some []
items_after (suc zero) [] = some (any_name ∷ [])
items_after (suc (suc n)) [] = some (any_path ∷ [])
items_after zero (t ∷ ts) =
    let starred = items_after 1 ts in
    let rest = items_after 0 ts in
    if is_char b'*' t then starred else onto_items (items_of_token t) rest
items_after (suc zero) (t ∷ ts) =
    let starred = items_after 2 ts in
    let rest = items_after 0 ts in
    if is_char b'*' t
    then starred
    else onto_items (some (any_name ∷ [])) (onto_items (items_of_token t) rest)
items_after (suc (suc n)) (t ∷ ts) =
    let starred = items_after 1 ts in
    let rest = items_after 0 ts in
    if is_char b'/' t
    then onto_items (some (any_dirs ∷ [])) rest
    else if is_char b'*' t
    then onto_items (some (any_path ∷ [])) starred
    else onto_items (some (any_path ∷ [])) (onto_items (items_of_token t) rest)

abbrev pub items_of : List Token → Option (List Item)
items_of ts = items_after 0 ts

abbrev pub not_newline : ℕ → Bool
not_newline c = not (c == 10)

abbrev pub not_slash : ℕ → Bool
not_slash c = not (c == b'/')

unfoldable pub in_spans : List (ℕ × ℕ) → ℕ → Bool
in_spans [] c = false
in_spans ((lo, hi) ∷ spans) c = (leb lo c && leb c hi) || in_spans spans c

-- `next` accepts what follows some code points that are all allowed.
unfoldable pub skips : (ℕ → Bool) → (List ℕ → Bool) → List ℕ → Bool
skips allowed next [] = next []
skips allowed next (c ∷ cs) = next (c ∷ cs) || (allowed c && skips allowed next cs)

-- `next` accepts what follows one code point that is allowed.
unfoldable pub one_of : (ℕ → Bool) → (List ℕ → Bool) → List ℕ → Bool
one_of allowed next [] = false
one_of allowed next (c ∷ cs) = allowed c && next cs

abbrev pub in_class : Bool → List (ℕ × ℕ) → ℕ → Bool
in_class negated spans c = if negated then not (in_spans spans c) else in_spans spans c

-- Whether the parts match a beginning of the text whose rest `next` accepts.
unfoldable pub matches_items : List Item → (List ℕ → Bool) → List ℕ → Bool
matches_items [] next s = next s
matches_items (literal x ∷ p) next s = one_of (λ c. c == x) (matches_items p next) s
matches_items (any_path ∷ p) next s = skips not_newline (matches_items p next) s
matches_items (any_dirs ∷ p) next s =
    matches_items p next s || skips not_newline (one_of (λ c. c == b'/') (matches_items p next)) s
matches_items (any_name ∷ p) next s = skips not_slash (matches_items p next) s
matches_items (one_name ∷ p) next s = one_of not_slash (matches_items p next) s
matches_items (class negated spans ∷ p) next s =
    one_of (in_class negated spans) (matches_items p next) s

-- `$`
unfoldable pub at_end : List ℕ → Bool
at_end [] = true
at_end (c ∷ cs) = false

-- `(?:/.*)?$`
unfoldable pub inside : List ℕ → Bool
inside s = at_end s || one_of (λ c. c == b'/') (skips not_newline at_end) s
