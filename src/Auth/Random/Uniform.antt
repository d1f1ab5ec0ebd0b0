-- ===== src/Auth/Random/Uniform.antt =====
-- The rejection of bytes in `randomString` of internal/auth/pairing.go: its lack of bias, and the
-- alphabets for which it rejects every byte.
use native.Mathlib.Nat.{
  zero-add, suc-add, suc-mul, zero-mul, add-mul-mod_self_right, mod-eq_of_lt, div-add-mod',
  add_comm,
}
use codexlink.Prelude.{
  ℕ, zero, suc, ◌+◌, ◌-◌, ◌*◌, ◌/◌, ◌%◌, ◌≤◌, ◌<◌, List, [], ◌∷◌, length, ◌≡◌, ◌≢◌, refl, arith,
  none, some, ltb, ◌==◌, Bool, false, if◌then◌else◌, ◌∙◌, ap,
}
use codexlink.Auth.Random.{
  Read, filled, read_error, drawn, threshold_of, pick, take_symbols, draw, random_string,
}

abbrev pub picks : List ℕ → ℕ → ℕ → Bool
picks alphabet r value = elim (pick alphabet value) [ none ↦ false | some i ↦ i == r ]

-- How many of the numbers below `n` pass the test.
pub count_below : ℕ → (ℕ → Bool) → ℕ
count_below zero p = 0
count_below (suc n) p = (if p n then 1 else 0) + count_below n p

picks_low :
    (alphabet : List ℕ) (r value : ℕ)
    → value < threshold_of alphabet
    → picks alphabet r value ≡ (value % length alphabet == r)
unfolding pick
picks_low alphabet r value h = ground arith

picks_high :
    (alphabet : List ℕ) (r value : ℕ)
    → threshold_of alphabet ≤ value
    → picks alphabet r value ≡ false
unfolding pick
picks_high alphabet r value h = ground arith

count_below_congr :
    (n : ℕ) (p q : ℕ → Bool) → ((v : ℕ) → v < n → p v ≡ q v) → count_below n p ≡ count_below n q
unfolding count_below
count_below_congr zero p q h = refl
count_below_congr (suc n) p q h =
    rw (h n (omega arith), count_below_congr n p q (λ v k. h v (omega arith)))

count_below-add :
    (k m : ℕ) (p : ℕ → Bool)
    → count_below (k + m) p ≡ count_below k (λ v. p (v + m)) + count_below m p
unfolding count_below
count_below-add zero m p = rw (zero-add, zero-add)
count_below-add (suc k) m p = rw suc-add (omega (arith, count_below-add k m p))

count_below-false : (n : ℕ) → count_below n (λ v. false) ≡ 0
unfolding count_below
count_below-false zero = refl
count_below-false (suc n) = omega (arith, count_below-false n)

count_below_eq : (n r : ℕ) → count_below n (λ v. v == r) ≡ (if ltb r n then 1 else 0)
unfolding count_below
count_below_eq zero r = ground arith
count_below_eq (suc n) r = ground (arith, count_below_eq n r)

mod-add-mul : (v q n : ℕ) → v < n → (v + q * n) % n ≡ v
mod-add-mul v q n h = add-mul-mod_self_right v q n ∙ mod-eq_of_lt h

count_below_block : (q n r : ℕ) → r < n → count_below n (λ v. (v + q * n) % n == r) ≡ 1
count_below_block q n r h =
    count_below_congr n _ (λ v. v == r) (λ v k. rw (mod-add-mul v q n k))
    ∙ ground (arith, count_below_eq n r)

count_below-mul : (q n r : ℕ) → r < n → count_below (q * n) (λ v. v % n == r) ≡ q
unfolding count_below
count_below-mul zero n r h = rw zero-mul
count_below-mul (suc q) n r h =
    rw (suc-mul, add_comm (q * n) n)
      (omega (
        arith,
        count_below-add n (q * n) (λ v. v % n == r),
        count_below_block q n r h,
        count_below-mul q n r h,
      ))

count_picks :
    (alphabet : List ℕ) (r q k : ℕ)
    → threshold_of alphabet ≡ q * length alphabet
    → r < length alphabet
    → count_below (k + threshold_of alphabet) (picks alphabet r) ≡ q
count_picks alphabet r q k e h =
    let high =
      count_below_congr k (λ v. picks alphabet r (v + threshold_of alphabet)) (λ v. false)
        (λ v _. picks_high alphabet r (v + threshold_of alphabet) (omega arith)) in
    let low =
      count_below_congr (threshold_of alphabet) (picks alphabet r) (λ v. v % length alphabet == r)
        (λ v l. picks_low alphabet r v l) in
    omega (
      arith,
      count_below-add k (threshold_of alphabet) (picks alphabet r),
      high,
      count_below-false k,
      low,
      ap (λ t. count_below t (λ v. v % length alphabet == r)) e,
      count_below-mul q (length alphabet) r h,
    )

threshold-mul :
    (alphabet : List ℕ)
    → 256 % length alphabet ≢ 0
    → (threshold_of alphabet ≡ 256 / length alphabet * length alphabet)
      × (256 % length alphabet + threshold_of alphabet ≡ 256)
threshold-mul alphabet k = omega (arith, div-add-mod' 256 (length alphabet))

-- If the alphabet's size does not divide 256, every place in the alphabet is picked by the same number
-- of the 256 bytes: 256 divided by the size.
pub pick_uniform :
    (alphabet : List ℕ) (r : ℕ)
    → 256 % length alphabet ≢ 0
    → r < length alphabet
    → count_below 256 (picks alphabet r) ≡ 256 / length alphabet
pick_uniform alphabet r k p =
    let t = threshold-mul alphabet k in
    rw t.1 at (count_picks alphabet r (256 / length alphabet) (256 % length alphabet) t.0 p)

take_symbols_stalls :
    (alphabet : List ℕ) (missing : ℕ) (buffer : List ℕ)
    → threshold_of alphabet ≡ 0
    → take_symbols alphabet missing buffer ≡ []
unfolding take_symbols pick
take_symbols_stalls alphabet zero buffer h = refl
take_symbols_stalls alphabet (suc missing) [] h = refl
take_symbols_stalls alphabet (suc missing) (value ∷ buffer) h =
    ground (arith, take_symbols_stalls alphabet (suc missing) buffer h)

draw_stalls :
    (alphabet : List ℕ) (wanted : ℕ) (reads : List Read) (text : List ℕ)
    → threshold_of alphabet ≡ 0
    → 0 < wanted
    → draw alphabet wanted [] reads ≢ drawn text
unfolding draw
draw_stalls alphabet wanted [] text h p = λ e. ground arith
draw_stalls alphabet wanted (read_error ∷ reads) text h p = λ e. ground arith
draw_stalls alphabet wanted (filled buffer ∷ reads) text h p = λ e. ground (
  arith,
  take_symbols_stalls alphabet (wanted - 0) buffer h,
  draw_stalls alphabet wanted reads text h p,
)

-- If the alphabet's size divides 256, no text is returned, whatever is read and however often.
pub random_string_stalls :
    (alphabet : List ℕ) (wanted : ℕ) (reads : List Read) (text : List ℕ)
    → 256 % length alphabet ≡ 0
    → random_string alphabet wanted reads ≢ drawn text
unfolding random_string
random_string_stalls alphabet wanted reads text h =
    λ e. ground (arith, draw_stalls alphabet wanted reads text (omega arith))
