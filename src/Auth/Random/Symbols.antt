-- ===== src/Auth/Random/Symbols.antt =====
-- What `randomString` of internal/auth/pairing.go returns: as many symbols as wanted, of the alphabet.
use Prim.Native.Nat.{min}
use codexlink.Prelude.{
  ℕ, zero, suc, ◌-◌, ◌≤◌, ◌<◌, List, [], ◌∷◌, ◌++◌, length, length-append, ◌≡◌, refl, arith, some,
  Option-cases, inl, inr, Bool-cases, leb, ◌==◌, ◌+◌, none,
}
use codexlink.Auth.Random.{
  Read, filled, read_error, drawn, symbol_at, pick, take_symbols, draw, random_string,
}

abbrev pub AllIn : List ℕ → List ℕ → Type 0
AllIn alphabet [] = Unit {0}
AllIn alphabet (c ∷ cs) =
    ((i : ℕ) × (i < length alphabet) × (c ≡ symbol_at alphabet i)) × AllIn alphabet cs

AllIn-append :
    (alphabet xs ys : List ℕ) → AllIn alphabet xs → AllIn alphabet ys → AllIn alphabet (xs ++ ys)
AllIn-append alphabet [] ys a b = b
AllIn-append alphabet (x ∷ xs) ys a b = (a.0, AllIn-append alphabet xs ys a.1 b)

pick-lt :
    (alphabet : List ℕ) (value i : ℕ)
    → 0 < length alphabet
    → pick alphabet value ≡ some i
    → i < length alphabet
unfolding pick
pick-lt alphabet value i p e = ground arith

-- What one buffer adds, and that it adds no more than is missing.
abbrev Adds : List ℕ → ℕ → List ℕ → Type 0
Adds alphabet missing xs = AllIn alphabet xs × (length xs ≤ missing)

take_symbols-Adds :
    (alphabet : List ℕ) (missing : ℕ) (buffer : List ℕ)
    → 0 < length alphabet
    → Adds alphabet missing (take_symbols alphabet missing buffer)
unfolding take_symbols
take_symbols-Adds alphabet zero buffer p = (tt, omega arith)
take_symbols-Adds alphabet (suc missing) [] p = (tt, omega arith)
take_symbols-Adds alphabet (suc missing) (value ∷ buffer) p =
    elim (Option-cases (pick alphabet value)) [
      | inl e ↦ rw (e, take_symbols) (take_symbols-Adds alphabet (suc missing) buffer p)
      | inr (i, e) ↦
          let h = take_symbols-Adds alphabet missing buffer p in
          rw (e, take_symbols) ((((i, pick-lt alphabet value i p e, refl), h.0), omega arith))
    ]

draw-AllIn :
    (alphabet : List ℕ) (wanted : ℕ) (result : List ℕ) (reads : List Read) {text : List ℕ}
    → 0 < length alphabet
    → Adds alphabet wanted result
    → draw alphabet wanted result reads ≡ drawn text
    → AllIn alphabet text × (length text ≡ wanted)
unfolding draw
draw-AllIn alphabet wanted result [] p a e = ground arith
draw-AllIn alphabet wanted result (read_error ∷ reads) p a e = ground arith
draw-AllIn alphabet wanted result (filled buffer ∷ reads) p a e =
    let h = take_symbols-Adds alphabet (wanted - length result) buffer p in
    elim (Bool-cases (leb wanted (length result))) [
      | inl done ↦ ground arith
      | inr more ↦
          draw-AllIn alphabet wanted
            (result ++ take_symbols alphabet (wanted - length result) buffer) reads p
            (
              AllIn-append alphabet result _ a.0 h.0,
              omega (
                arith,
                a.1,
                h.1,
                length-append result (take_symbols alphabet (wanted - length result) buffer),
              ),
            )
            (rw (more) at e)
    ]

-- A text that is returned has the wanted length, and each of its symbols is one of the alphabet's.
pub random_string-AllIn :
    (alphabet : List ℕ) (wanted : ℕ) (reads : List Read) {text : List ℕ}
    → random_string alphabet wanted reads ≡ drawn text
    → AllIn alphabet text × (length text ≡ wanted)
unfolding random_string
random_string-AllIn alphabet wanted reads e = elim (Bool-cases (length alphabet == 0)) [
  | inl empty ↦ ground arith
  | inr some_symbols ↦
      draw-AllIn alphabet wanted [] reads (ground arith) (tt, omega arith) (ground arith)
]

-- The bytes of a buffer that pick a symbol, and those of all the buffers before a failing read.
unfoldable pub usable : List ℕ → List ℕ → ℕ
usable alphabet [] = 0
usable alphabet (value ∷ buffer) =
    elim (pick alphabet value) [ none ↦ 0 | some _ ↦ 1 ] + usable alphabet buffer

unfoldable pub supply : List ℕ → List Read → ℕ
supply alphabet [] = 0
supply alphabet (read_error ∷ reads) = 0
supply alphabet (filled buffer ∷ reads) = usable alphabet buffer + supply alphabet reads

length-take_symbols :
    (alphabet : List ℕ) (missing : ℕ) (buffer : List ℕ)
    → min missing (usable alphabet buffer) ≤ length (take_symbols alphabet missing buffer)
unfolding take_symbols usable
length-take_symbols alphabet zero buffer = omega arith
length-take_symbols alphabet (suc missing) [] = omega arith
length-take_symbols alphabet (suc missing) (value ∷ buffer) =
    elim (Option-cases (pick alphabet value)) [
      | inl e ↦
          rw (e, take_symbols) (omega (arith, length-take_symbols alphabet (suc missing) buffer))
      | inr (i, e) ↦
          rw (e, take_symbols) (omega (arith, length-take_symbols alphabet missing buffer))
    ]

draw_returns :
    (alphabet : List ℕ) (wanted : ℕ) (result : List ℕ) (reads : List Read)
    → wanted ≤ length result + supply alphabet reads
    → (text : List ℕ) × (draw alphabet wanted result reads ≡ drawn text)
unfolding draw supply
draw_returns alphabet wanted result [] h = (result, ground arith)
draw_returns alphabet wanted result (read_error ∷ reads) h = (result, ground arith)
draw_returns alphabet wanted result (filled buffer ∷ reads) h =
    let more = take_symbols alphabet (wanted - length result) buffer in
    elim (Bool-cases (leb wanted (length result))) [
      | inl done ↦ (result, rw done)
      | inr missing ↦ rw missing (
          draw_returns alphabet wanted (result ++ more) reads (
            omega (
              arith,
              length-take_symbols alphabet (wanted - length result) buffer,
              length-append result more,
            )))
    ]

-- With a positive length and an alphabet of 1 to 256 symbols, a text is returned as soon as the reads
-- hold as many usable bytes as symbols are wanted.
pub random_string_returns :
    (alphabet : List ℕ) (wanted : ℕ) (reads : List Read)
    → 0 < wanted
    → 0 < length alphabet
    → length alphabet ≤ 256
    → wanted ≤ supply alphabet reads
    → (text : List ℕ) × (random_string alphabet wanted reads ≡ drawn text)
unfolding random_string
random_string_returns alphabet wanted reads w a b h =
    let (text, e) = draw_returns alphabet wanted [] reads (omega arith) in (text, ground arith)
