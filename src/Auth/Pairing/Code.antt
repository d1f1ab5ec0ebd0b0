-- ===== src/Auth/Pairing/Code.antt =====
-- `normalizePairingCode` of internal/auth/pairing.go and the form in which `Create` shows a code.
-- A text is a list of code points. The source counts and cuts bytes, which are code points here
-- unless the text has one beyond ASCII, and such a text is refused by both.
pub mod RoundTrip
use codexlink.Prelude.{
  ℕ, ◌-◌, Bool, true, false, ◌&&◌, ◌||◌, List, [], ◌∷◌, ◌++◌, leb, ◌==◌, if◌then◌else◌, length,
  take, drop, String, map,
}
use codexlink.Prelude.Text.{codes, trim_space}

abbrev pub pairing_alphabet : List ℕ
pairing_alphabet = codes "ABCDEFGHJKMNPQRSTUVWXYZ23456789"

abbrev pub session_alphabet : List ℕ
session_alphabet = codes "abcdefghijklmnopqrstuvwxyzABCDEFGHIJKLMNOPQRSTUVWXYZ0123456789"

-- `unicode.ToUpper` where its value is in ASCII; elsewhere both `c` and its upper case are beyond
-- ASCII, so that the code is refused whichever stands there.
unfoldable pub to_upper : ℕ → ℕ
to_upper c =
    if leb b'a' c && leb c b'z'
    then c - 32
    else if c == 0x131
    then b'I'
    else if c == 0x17f
    then b'S'
    else c

unfoldable pub contains_rune : List ℕ → ℕ → Bool
contains_rune [] r = false
contains_rune (c ∷ cs) r = c == r || contains_rune cs r

unfoldable pub all_in : List ℕ → List ℕ → Bool
all_in alphabet [] = true
all_in alphabet (c ∷ cs) = contains_rune alphabet c && all_in alphabet cs

abbrev pub is_dash_at : ℕ → List ℕ → Bool
is_dash_at i s = elim (drop i s) [ [] ↦ false | c ∷ _ ↦ c == b'-' ]

-- The switch on the length: the eight symbols, or `[]` where the source returns the empty string.
unfoldable pub eight_symbols : List ℕ → List ℕ
eight_symbols value =
    if length value == 8
    then value
    else if length value == 9
    then (if is_dash_at 4 value then take 4 value ++ drop 5 value else [])
    else []

unfoldable pub normalize_pairing_code : List ℕ → List ℕ
normalize_pairing_code input =
    let value = eight_symbols (map to_upper (trim_space input)) in
    if all_in pairing_alphabet value then value else []

-- `raw[:4] + "-" + raw[4:]`
unfoldable pub display_code : List ℕ → List ℕ
display_code raw = take 4 raw ++ (b'-' ∷ drop 4 raw)
