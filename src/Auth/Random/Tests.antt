-- ===== src/Auth/Random/Tests.antt =====
-- `randomString` of internal/auth/pairing.go at concrete inputs.
use codexlink.Prelude.{ℕ, List, [], ◌∷◌, ◌≡◌, refl, arith}
use codexlink.Auth.Pairing.Code.{pairing_alphabet}
use codexlink.Auth.Random.{Read, filled, drawn, pick, symbol_at, take_symbols, draw, random_string}
use codexlink.Auth.Random.Symbols.{supply, usable, random_string_returns}
use codexlink.Auth.Random.Uniform.{count_below, picks, pick_uniform}

program : Unit {0}
unfolding pick symbol_at take_symbols draw random_string
program = tt

-- 250 is skipped, 247 picks the last symbol.
abbrev reads : List Read
reads = filled (250 ∷ 247 ∷ []) ∷ filled (0 ∷ 1 ∷ []) ∷ []

two_symbols : random_string pairing_alphabet 2 reads ≡ drawn (b'9' ∷ b'A' ∷ [])
unfolding program
two_symbols = refl

pick_uniform_example : count_below 256 (picks pairing_alphabet 30) ≡ 8
pick_uniform_example = pick_uniform pairing_alphabet 30 (omega arith) (omega arith)

random_string_returns_example :
    (text : List ℕ) × (random_string pairing_alphabet 2 reads ≡ drawn text)
unfolding program supply usable
random_string_returns_example =
    random_string_returns pairing_alphabet 2 reads (omega arith) (omega arith) (omega arith)
      (omega arith)
