-- ===== src/Prelude/Base64.antt =====
-- `base64.RawURLEncoding.EncodeToString`, on a number of bytes that three divides.
use Prim.Native.Char.{Char, code}
use Prim.Native.Nat.{ℕ, zero, suc, ◌+◌, ◌*◌, ◌/◌, ◌%◌}
use Prim.Native.String.{String}
use mathlib.Core.Bool.{Bool, true, ◌&&◌}
use mathlib.Core.List.{List, [], ◌∷◌, map}
use mathlib.Core.Path.{◌≡◌, refl}
use native.Mathlib.Omega.{arith}
use codexlink.Prelude.Lists.{length}
use codexlink.Prelude.Text.{codes, is_word, all_codes}

abbrev alphabet : String
alphabet = "ABCDEFGHIJKLMNOPQRSTUVWXYZabcdefghijklmnopqrstuvwxyz0123456789-_"

-- The symbol of a sextet, `-` out of range, which no sextet is.
abbrev symbol_in : String → ℕ → Char
symbol_in String.[] i = "-"
symbol_in (String.◌∷◌ c s) zero = c
symbol_in (String.◌∷◌ c s) (suc i) = symbol_in s i

pub symbol : ℕ → Char
symbol i = symbol_in alphabet (i % 64)

abbrev onto : List Char → String → String
onto [] s = s
onto (c ∷ cs) s = String.◌∷◌ c (onto cs s)

-- Three bytes make four symbols.
unfoldable pub encode : List ℕ → String
unfolding symbol
encode (a ∷ b ∷ c ∷ rest) =
    let n = a * 65536 + b * 256 + c in
    onto (map symbol (n / 262144 ∷ n / 4096 ∷ n / 64 ∷ n ∷ [])) (encode rest)
encode _ = String.[]

abbrev are_words : String → Bool
are_words String.[] = true
are_words (String.◌∷◌ c s) = is_word (code c) && are_words s

symbol_in_word : (s : String) (i : ℕ) → are_words s ≡ true → is_word (code (symbol_in s i)) ≡ true
symbol_in_word String.[] i h = refl
symbol_in_word (String.◌∷◌ c s) zero h = ground (arith, h)
symbol_in_word (String.◌∷◌ c s) (suc i) h = symbol_in_word s i (ground (arith, h))

symbol_word : (i : ℕ) → is_word (code (symbol i)) ≡ true
unfolding symbol
symbol_word i = symbol_in_word alphabet (i % 64) refl

-- Triples of bytes.
abbrev pub Triples : ℕ → List ℕ → Type 0
Triples zero [] = Unit {0}
Triples zero (a ∷ _) = ⊥
Triples (suc n) (a ∷ b ∷ c ∷ rest) = Triples n rest
Triples (suc n) _ = ⊥

pub encode_word :
    (n : ℕ) (bytes : List ℕ)
    → Triples n bytes
    → (all_codes is_word (codes (encode bytes)) ≡ true) × (length (codes (encode bytes)) ≡ 4 * n)
unfolding encode all_codes
encode_word zero [] t = (refl, omega arith)
encode_word zero (a ∷ rest) t = absurd t
encode_word (suc n) (a ∷ b ∷ c ∷ rest) t =
    let m = a * 65536 + b * 256 + c in
    let (w, l) = encode_word n rest t in
    (
      rw (symbol_word (m / 262144), symbol_word (m / 4096), symbol_word (m / 64), symbol_word m) w,
      omega arith,
    )
encode_word (suc n) [] t = absurd t
encode_word (suc n) (a ∷ []) t = absurd t
encode_word (suc n) (a ∷ b ∷ []) t = absurd t
