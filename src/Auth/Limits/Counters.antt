-- ===== src/Auth/Limits/Counters.antt =====
-- The limiter of internal/auth/limits.go seen as two counters: what an address, and what everybody,
-- has spent of the current window.
use codexlink.Prelude.{
  ℕ, ◌≤◌, ◌<◌, Bool, true, false, ◌||◌, ◌&&◌, Option, none, some, List, leb, ltb, if◌then◌else◌,
  length, String, ◌≡◌, refl, arith, Option-cases, Bool-cases, inl, inr, ◌≢◌, ◌⊎◌, eq_iff, ◌+◌,
  str_eq,
}
use codexlink.Prelude.Assoc.{lookup, insert, retain, IsUnique, All}
use codexlink.Prelude.Assoc.Laws.{
  retain-IsUnique, insert-IsUnique, All-retain, All-insert, length-insert_new, length-insert_old,
  length-retain_le, lookup-retain, lookup-insert,
}
use codexlink.Prelude.Time.{is_zero}
use codexlink.Auth.Limits.{
  RateBucket, RequestLimiter, started, bump, is_live, expire, bucket_for, charge, allow,
}

-- Counts within the limits, no address twice, and no more addresses than are tracked.
pub record IsValid (l : RequestLimiter) : Type 0 where
  pub unique : IsUnique l.addresses
  pub tracked : length l.addresses ≤ l.max_addresses
  pub per_address_le : All (λ _ b. b.count ≤ l.per_address) l.addresses
  pub global_le : l.global_bucket.count ≤ l.global

pub expire-IsValid : (l : RequestLimiter) (now : ℕ) → IsValid l → IsValid (expire l now)
unfolding expire
expire-IsValid l now v = record {
  unique = retain-IsUnique _ _ v.unique;
  tracked = omega (arith, length-retain_le (is_live l now) l.addresses, v.tracked);
  per_address_le = All-retain _ _ _ v.per_address_le;
  global_le = ground arith;
}

-- Room for one more entry, or the address has one.
abbrev HasRoom : RequestLimiter → String → Type 0
HasRoom l address = (lookup address l.addresses ≢ none) ⊎ (length l.addresses < l.max_addresses)

insert-length :
    (l : RequestLimiter) (address : String) (b : RateBucket)
    → length l.addresses ≤ l.max_addresses
    → HasRoom l address
    → length (insert address b l.addresses) ≤ l.max_addresses
insert-length l address b t r = elim (Option-cases (lookup address l.addresses)) [
  | inl e ↦ ground (arith, length-insert_new address b l.addresses e)
  | inr (o, e) ↦ omega (arith, length-insert_old address b o l.addresses e)
]

charge-IsValid :
    (l : RequestLimiter) (address : String) (b : RateBucket)
    → IsValid l
    → HasRoom l address
    → IsValid (charge l address (some b)).0
unfolding charge
charge-IsValid l address b v r =
    elim (Bool-cases (leb l.per_address b.count || leb l.global l.global_bucket.count)) [
      | inl refused ↦ rw refused v
      | inr passed ↦ rw passed (record {
        unique = insert-IsUnique address (bump b) l.addresses v.unique;
        tracked = insert-length l address (bump b) v.tracked r;
        per_address_le = All-insert _ address (bump b) _ (ground arith) v.per_address_le;
        global_le = ground arith;
      })
    ]

charge_bucket-IsValid :
    (l : RequestLimiter) (address : String) (now : ℕ) (o : Option RateBucket)
    → lookup address l.addresses ≡ o
    → IsValid l
    → IsValid (charge l address (bucket_for l now o)).0
unfolding bucket_for
charge_bucket-IsValid l address now (some b) e v =
    charge-IsValid l address _ v (inl (λ n. ground arith))
charge_bucket-IsValid l address now none e v =
    elim (Bool-cases (leb l.max_addresses (length l.addresses))) [
      | inl full ↦ rw full (unfold charge in v)
      | inr room ↦ rw room (charge-IsValid l address (started now) v (inr (ground arith)))
    ]

-- From a valid state, `Allow` leaves, whatever it answers, the counts within the limits, the table
-- within its size and each address in it once.
pub allow-IsValid :
    (l : RequestLimiter) (address : String) (now : ℕ) → IsValid l → IsValid (allow l address now).0
unfolding allow
allow-IsValid l address now v =
    charge_bucket-IsValid (expire l now) address now _ refl (expire-IsValid l now v)

-- What `address` has spent of its window at `now`, and what everybody has.
abbrev pub live_count : RequestLimiter → ℕ → Option RateBucket → ℕ
live_count l now none = 0
live_count l now (some b) = if is_live l now b then b.count else 0

abbrev pub spent : RequestLimiter → ℕ → String → ℕ
spent l now address = live_count l now (lookup address l.addresses)

abbrev pub spent_total : RequestLimiter → ℕ → ℕ
spent_total l now =
    if is_zero l.global_bucket.window_start then 0 else live_count l now (some l.global_bucket)

-- Addresses with a running window.
abbrev pub live_addresses : RequestLimiter → ℕ → List (String × RateBucket)
live_addresses l now = retain (is_live l now) l.addresses

abbrev pub is_tracked : RequestLimiter → ℕ → String → Bool
is_tracked l now address = elim (lookup address (live_addresses l now)) [
  | none ↦ false
  | some _ ↦ true
]

-- When a request is to pass: both counters below their limits, and a place in the table.
abbrev pub should_pass : RequestLimiter → ℕ → String → Bool
should_pass l now address =
    ltb (spent l now address) l.per_address
    && ltb (spent_total l now) l.global
    && (is_tracked l now address || ltb (length (live_addresses l now)) l.max_addresses)

-- A decision at `now`, and what it does to the two counters.
abbrev pub Counted : RequestLimiter → ℕ → String → Bool → RequestLimiter → Type 0
Counted l now address passed l' =
    ((b : String) → spent l' now b ≡ spent l now b + (if passed && str_eq address b then 1 else 0))
    × (spent_total l' now ≡ spent_total l now + (if passed then 1 else 0))

-- After `expire` every entry is live, and so is the global window.
record IsFresh (l : RequestLimiter) (now : ℕ) : Type 0 where
  entries : (b : String) (r : RateBucket) → lookup b l.addresses ≡ some r → is_live l now r ≡ true
  total : is_live l now l.global_bucket ≡ true
  nonzero : is_zero l.global_bucket.window_start ≡ false

expire-IsFresh :
    (l : RequestLimiter) (now : ℕ)
    → IsUnique l.addresses
    → 0 < now
    → 0 < l.window
    → IsFresh (expire l now) now
unfolding expire
expire-IsFresh l now u p w = record {
  entries = λ b r e. ground (arith, lookup-retain b (is_live l now) l.addresses u);
  total = ground arith;
  nonzero = ground arith;
}

charge-Counted :
    (l : RequestLimiter) (address : String) (now : ℕ) (o : Option RateBucket)
    → lookup address l.addresses ≡ o
    → IsFresh l now
    → 0 < l.window
    → Counted l now address
        (charge l address (bucket_for l now o)).1
        (charge l address (bucket_for l now o)).0
unfolding charge bucket_for
charge-Counted l address now none e f w = (
  λ b. ground (arith, lookup-insert b address (bump (started now)) l.addresses, eq_iff address b),
  ground (arith, f.total, f.nonzero),
)
charge-Counted l address now (some r) e f w = (
  λ b. ground (
    arith,
    lookup-insert b address (bump r) l.addresses,
    f.entries address r e,
    eq_iff address b,
  ),
  ground (arith, f.total, f.nonzero, f.entries address r e),
)

spent-expire :
    (l : RequestLimiter) (now : ℕ) (b : String)
    → IsUnique l.addresses
    → spent (expire l now) now b ≡ spent l now b
unfolding expire
spent-expire l now b u = ground (arith, lookup-retain b (is_live l now) l.addresses u)

spent_total-expire :
    (l : RequestLimiter) (now : ℕ) → 0 < now → spent_total (expire l now) now ≡ spent_total l now
unfolding expire
spent_total-expire l now p = ground arith

charge-passed :
    (l : RequestLimiter) (address : String) (now : ℕ) (o : Option RateBucket)
    → lookup address l.addresses ≡ o
    → IsFresh l now
    → (charge l address (bucket_for l now o)).1 ≡ (
        ltb (live_count l now o) l.per_address
        && ltb (spent_total l now) l.global
        && (elim o [ none ↦ false | some _ ↦ true ] || ltb (length l.addresses) l.max_addresses))
unfolding charge bucket_for
charge-passed l address now none e f = ground (arith, f.total, f.nonzero)
charge-passed l address now (some r) e f = ground (arith, f.total, f.nonzero, f.entries address r e)

pub allow-passed :
    (l : RequestLimiter) (address : String) (now : ℕ)
    → IsUnique l.addresses
    → 0 < now
    → 0 < l.window
    → (allow l address now).1 ≡ should_pass l now address
unfolding allow expire
allow-passed l address now u p w = ground (
  arith,
  charge-passed (expire l now) address now _ refl (expire-IsFresh l now u p w),
  spent-expire l now address u,
  spent_total-expire l now p,
)

-- With a positive time and window and each address in the table once, `Allow` answers by
-- `should_pass`, and a request that passes is counted once for its address and once in total, while
-- one that is refused is not counted anywhere.
pub allow-Counted :
    (l : RequestLimiter) (address : String) (now : ℕ)
    → IsUnique l.addresses
    → 0 < now
    → 0 < l.window
    → ((allow l address now).1 ≡ should_pass l now address)
      × Counted l now address (allow l address now).1 (allow l address now).0
unfolding allow expire
allow-Counted l address now u p w =
    let c = charge-Counted (expire l now) address now _ refl (expire-IsFresh l now u p w) w in
    (
      allow-passed l address now u p w,
      (
        λ b. ground (arith, c.0 b, spent-expire l now b u),
        ground (arith, c.1, spent_total-expire l now p),
      ),
    )
