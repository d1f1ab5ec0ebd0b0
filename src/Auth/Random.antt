-- ===== src/Auth/Random.antt =====
-- `randomString` of internal/auth/pairing.go. `rand.Read` is the environment: it fills one buffer
-- for each round of the loop, or fails.
pub mod Symbols
pub mod Uniform
mod Tests
use codexlink.Prelude.{
  ℕ, zero, suc, ◌+◌, ◌-◌, ◌*◌, ◌/◌, ◌%◌, ◌≤◌, ◌<◌, Bool, true, false, ◌||◌, Option, none, some,
  List, [], ◌∷◌, ◌++◌, ltb, leb, ◌==◌, if◌then◌else◌, length, ◌≡◌, refl, arith,
}

-- A byte buffer that `rand.Read` has filled, or its error.
pub data Read : Type 0 where
  filled : List ℕ → Read
  read_error : Read

-- `waiting`: the reads given so far are used up and the loop goes on.
pub data Drawn : Type 0 where
  drawn : List ℕ → Drawn
  bad_parameters : Drawn
  no_entropy : Drawn
  waiting : Drawn

-- `byte(256 - (256 % len(alphabet)))`
abbrev pub threshold_of : List ℕ → ℕ
threshold_of alphabet = (256 - 256 % length alphabet) % 256

-- `alphabet[i]`, with 0 out of range, which the loop never reads.
unfoldable pub symbol_at : List ℕ → ℕ → ℕ
symbol_at [] i = 0
symbol_at (c ∷ cs) zero = c
symbol_at (c ∷ cs) (suc i) = symbol_at cs i

-- The place in the alphabet that a random byte picks, `none` for one that is skipped.
unfoldable pub pick : List ℕ → ℕ → Option ℕ
pick alphabet value =
    if leb (threshold_of alphabet) value then none else some (value % length alphabet)

-- The loop over one buffer: what it appends to `result`, `missing` symbols being wanted.
unfoldable pub take_symbols : List ℕ → ℕ → List ℕ → List ℕ
take_symbols alphabet zero buffer = []
take_symbols alphabet (suc missing) [] = []
take_symbols alphabet (suc missing) (value ∷ buffer) = elim (pick alphabet value) [
  | none ↦ take_symbols alphabet (suc missing) buffer
  | some i ↦ symbol_at alphabet i ∷ take_symbols alphabet missing buffer
]

-- The outer loop; `result` is what has been drawn so far.
unfoldable pub draw : List ℕ → ℕ → List ℕ → List Read → Drawn
draw alphabet wanted result [] = if leb wanted (length result) then drawn result else waiting
draw alphabet wanted result (read_error ∷ reads) =
    if leb wanted (length result) then drawn result else no_entropy
draw alphabet wanted result (filled buffer ∷ reads) =
    let rest =
      draw alphabet wanted (result ++ take_symbols alphabet (wanted - length result) buffer)
        reads in
    if leb wanted (length result) then drawn result else rest

unfoldable pub random_string : List ℕ → ℕ → List Read → Drawn
random_string alphabet wanted reads =
    if wanted == 0 || length alphabet == 0 || ltb 256 (length alphabet)
    then bad_parameters
    else draw alphabet wanted [] reads
