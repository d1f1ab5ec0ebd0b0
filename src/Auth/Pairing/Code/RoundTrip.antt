-- ===== src/Auth/Pairing/Code/RoundTrip.antt =====
-- Codes of internal/auth/pairing.go: what is shown is what is accepted, in either case of letters.
use codexlink.Prelude.{
  ℕ, ◌+◌, ◌≤◌, true, false, ◌&&◌, leb, if◌then◌else◌, ◌≡◌, ◌⊎◌, arith, List, length, ◌∷◌, [], map,
  drop, take, suc, zero, refl, ap, ◌++◌,
}
use codexlink.Auth.Pairing.Code.{
  pairing_alphabet, to_upper, contains_rune, List, display_code, length, all_in, [], map, drop,
  take, normalize_pairing_code, eight_symbols,
}
use codexlink.Prelude.Text.{is_space, trim_left, trim_space}

-- The letters of a code in lower case, as a user may type them.
pub to_lower : ℕ → ℕ
to_lower c = if leb b'A' c && leb c b'Z' then c + 32 else c

-- A symbol of a code, and what may stand for it.
symbol_range :
    (c : ℕ)
    → contains_rune pairing_alphabet c ≡ true
    → ((b'2' ≤ c) × (c ≤ b'9')) ⊎ ((b'A' ≤ c) × (c ≤ b'Z'))
unfolding contains_rune
symbol_range c h = ground arith

symbol-to_lower :
    (c : ℕ)
    → contains_rune pairing_alphabet c ≡ true
    → (is_space (to_lower c) ≡ false) × (to_upper (to_lower c) ≡ c)
unfolding is_space to_lower to_upper
symbol-to_lower c h = ground (arith, symbol_range c h)

symbol : (c : ℕ) → contains_rune pairing_alphabet c ≡ true → (is_space c ≡ false) × (to_upper c ≡ c)
unfolding is_space to_upper
symbol c h = ground (arith, symbol_range c h)

trim_nine :
    (x y b c d e f g h : ℕ)
    → is_space x ≡ false
    → is_space y ≡ false
    → trim_space (x ∷ b ∷ c ∷ d ∷ e ∷ f ∷ g ∷ h ∷ y ∷ []) ≡ x ∷ b ∷ c ∷ d ∷ e ∷ f ∷ g ∷ h ∷ y ∷ []
unfolding trim_space trim_left
trim_nine x y b c d e f g h p q = rw (p, trim_left) (rw (q, trim_left))

trim_eight :
    (x y b c d e f g : ℕ)
    → is_space x ≡ false
    → is_space y ≡ false
    → trim_space (x ∷ b ∷ c ∷ d ∷ e ∷ f ∷ g ∷ y ∷ []) ≡ x ∷ b ∷ c ∷ d ∷ e ∷ f ∷ g ∷ y ∷ []
unfolding trim_space trim_left
trim_eight x y b c d e f g p q = rw (p, trim_left) (rw (q, trim_left))

-- Eight symbols of the alphabet.
abbrev pub IsCode : List ℕ → Type 0
IsCode raw = (length raw ≡ 8) × (all_in pairing_alphabet raw ≡ true)

-- A way to write symbols that the code's reader undoes.
record IsSpelling (u : ℕ → ℕ) : Type 0 where
  dash : to_upper (u b'-') ≡ b'-'
  blank : (x : ℕ) → contains_rune pairing_alphabet x ≡ true → is_space (u x) ≡ false
  upper : (x : ℕ) → contains_rune pairing_alphabet x ≡ true → to_upper (u x) ≡ x

all_in_cons :
    (x : ℕ) (xs : List ℕ)
    → all_in pairing_alphabet (x ∷ xs) ≡ true
    → (contains_rune pairing_alphabet x ≡ true) × (all_in pairing_alphabet xs ≡ true)
unfolding all_in
all_in_cons x xs h = ground arith

map_upper :
    (u : ℕ → ℕ) (xs : List ℕ)
    → IsSpelling u
    → all_in pairing_alphabet xs ≡ true
    → map to_upper (map u xs) ≡ xs
map_upper u [] s k = refl
map_upper u (x ∷ xs) s k = let (h, t) = all_in_cons x xs k in rw (s.upper x h, map_upper u xs s t)

all_in-drop :
    (n : ℕ) (xs : List ℕ)
    → all_in pairing_alphabet xs ≡ true
    → all_in pairing_alphabet (drop n xs) ≡ true
all_in-drop zero xs k = k
all_in-drop (suc n) [] k = k
all_in-drop (suc n) (x ∷ xs) k = all_in-drop n xs (all_in_cons x xs k).1

all_in-take :
    (n : ℕ) (xs : List ℕ)
    → all_in pairing_alphabet xs ≡ true
    → all_in pairing_alphabet (take n xs) ≡ true
unfolding all_in
all_in-take zero xs k = refl
all_in-take (suc n) [] k = refl
all_in-take (suc n) (x ∷ xs) k = ground (arith, all_in-take n xs)

module _ (a b c d e f g h : ℕ) where
  abbrev eight : List ℕ
  eight = a ∷ b ∷ c ∷ d ∷ e ∷ f ∷ g ∷ h ∷ []

  module _ (u : ℕ → ℕ) (s : IsSpelling u) (k : all_in pairing_alphabet eight ≡ true) where
    first_blank : is_space (u a) ≡ false
    first_blank = s.blank a (all_in_cons a _ k).0

    last_blank : is_space (u h) ≡ false
    last_blank = s.blank h (all_in_cons h [] (all_in-drop 7 eight k)).0

    shown_eight : map to_upper (trim_space (map u eight)) ≡ eight
    shown_eight =
        rw (trim_eight (u a) (u h) (u b) (u c) (u d) (u e) (u f) (u g) first_blank last_blank)
          (map_upper u eight s k)

    shown_nine : map to_upper (trim_space (map u (display_code eight))) ≡ display_code eight
    unfolding display_code
    shown_nine =
        rw
          (
            trim_nine (u a) (u h) (u b) (u c) (u d) (u b'-') (u e) (u f) (u g) first_blank
                last_blank,
            s.dash,
          )
          (cc (
            map_upper u (take 4 eight) s (all_in-take 4 eight k),
            map_upper u (drop 4 eight) s (all_in-drop 4 eight k),
          ))

    accepts_eight : normalize_pairing_code (map u eight) ≡ eight
    unfolding normalize_pairing_code eight_symbols
    accepts_eight = rw shown_eight (rw k)

    accepts_nine : normalize_pairing_code (map u (display_code eight)) ≡ eight
    unfolding normalize_pairing_code eight_symbols display_code
    accepts_nine = rw shown_nine (rw k)

of_eight :
    (P : List ℕ → Type 0) (raw : List ℕ)
    → ((a b c d e f g h : ℕ) → P (eight a b c d e f g h))
    → length raw ≡ 8
    → P raw
of_eight P (a ∷ b ∷ c ∷ d ∷ e ∷ f ∷ g ∷ h ∷ []) p n = p a b c d e f g h
of_eight P _ p n = absurd (omega arith)

plain-IsSpelling : IsSpelling (λ x. x)
unfolding to_upper
plain-IsSpelling = record {
  dash = refl;
  blank = λ x h. (symbol x h).0;
  upper = λ x h. (symbol x h).1;
}

lower-IsSpelling : IsSpelling to_lower
unfolding to_lower to_upper
lower-IsSpelling = record {
  dash = refl;
  blank = λ x h. (symbol-to_lower x h).0;
  upper = λ x h. (symbol-to_lower x h).1;
}

map_same : (xs : List ℕ) → map (λ x. x) xs ≡ xs
map_same [] = refl
map_same (x ∷ xs) = ap (◌∷◌ x) (map_same xs)

abbrev Accepts : List ℕ → Type 0
Accepts raw =
    all_in pairing_alphabet raw ≡ true
    → (normalize_pairing_code (display_code raw) ≡ raw)
      × (normalize_pairing_code raw ≡ raw)
      × (normalize_pairing_code (map to_lower (display_code raw)) ≡ raw)
      × (normalize_pairing_code (map to_lower raw) ≡ raw)

eight-Accepts : (a b c d e f g h : ℕ) → Accepts (eight a b c d e f g h)
eight-Accepts a b c d e f g h k = (
  rw map_same at (accepts_nine a b c d e f g h (λ x. x) plain-IsSpelling k),
  rw map_same at (accepts_eight a b c d e f g h (λ x. x) plain-IsSpelling k),
  accepts_nine a b c d e f g h to_lower lower-IsSpelling k,
  accepts_eight a b c d e f g h to_lower lower-IsSpelling k,
)

-- A code of eight symbols of the alphabet is read back as it was drawn: in the form that is shown,
-- without its dash, and in either of these with its letters in lower case.
pub normalize-display :
    (raw : List ℕ)
    → IsCode raw
    → (normalize_pairing_code (display_code raw) ≡ raw)
      × (normalize_pairing_code raw ≡ raw)
      × (normalize_pairing_code (map to_lower (display_code raw)) ≡ raw)
      × (normalize_pairing_code (map to_lower raw) ≡ raw)
normalize-display raw c = of_eight Accepts raw eight-Accepts c.0 c.1

cut_nine : (v : List ℕ) → length v ≡ 9 → length (take 4 v ++ drop 5 v) ≡ 8
cut_nine (a ∷ b ∷ c ∷ d ∷ e ∷ v) n = omega arith
cut_nine _ n = absurd (omega arith)

eight_symbols-length : (v : List ℕ) → (eight_symbols v ≡ []) ⊎ (length (eight_symbols v) ≡ 8)
unfolding eight_symbols
eight_symbols-length v = ground (arith, cut_nine v)

-- Whatever is typed, what is hashed is the empty text or eight symbols of the alphabet.
pub normalize-IsCode :
    (input : List ℕ) → (normalize_pairing_code input ≡ []) ⊎ IsCode (normalize_pairing_code input)
unfolding normalize_pairing_code
normalize-IsCode input = ground (arith, eight_symbols-length (map to_upper (trim_space input)))
