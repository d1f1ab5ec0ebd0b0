-- ===== src/Auth/Limits/Window.antt =====
-- What the limiter of internal/auth/limits.go lets through in any stretch of time no longer than its
-- window: a bucket that began before the stretch can be replaced once in it.
use codexlink.Prelude.{
  ℕ, ◌+◌, ◌-◌, ◌≤◌, ◌<◌, true, ◌&&◌, Option, none, some, List, [], ◌∷◌, leb, if◌then◌else◌, String,
  ◌≡◌, refl, arith, str_eq, eq_iff, ◌*◌,
}
use codexlink.Prelude.Assoc.{lookup}
use codexlink.Prelude.Assoc.Laws.{lookup-insert, lookup-retain, All-lookup}
use codexlink.Auth.Limits.{
  RateBucket, RequestLimiter, started, bump, is_live, expire, bucket_for, charge, allow,
}
use codexlink.Auth.Limits.Counters.{IsValid, allow-IsValid}

-- How many of the requests are let through for address `a`, each made at its time.
unfoldable pub admitted : String → RequestLimiter → List (String × ℕ) → ℕ
admitted a l [] = 0
admitted a l ((b, t) ∷ rs) =
    (if (allow l b t).1 && str_eq b a then 1 else 0) + admitted a (allow l b t).0 rs

-- The requests come in order of time, from `lo` on and before `hi`.
abbrev pub Within : ℕ → ℕ → List (String × ℕ) → Type 0
Within lo hi [] = Unit {0}
Within lo hi ((b, t) ∷ rs) = (lo ≤ t) × (t < hi) × Within t hi rs

-- What `o`, the bucket of an address, can still let through from time `since` on.
abbrev budget_of : ℕ → ℕ → Option RateBucket → ℕ
budget_of n since none = n
budget_of n since (some b) = if leb since b.window_start then n - b.count else n + n - b.count

abbrev budget : String → RequestLimiter → ℕ → ℕ
budget a l since = budget_of l.per_address since (lookup a l.addresses)

budget-expire :
    (a : String) (l : RequestLimiter) (since t : ℕ) (o : Option RateBucket)
    → lookup a l.addresses ≡ o
    → IsValid l
    → t < since + l.window
    → budget a (expire l t) since ≤ budget_of l.per_address since o
unfolding expire
budget-expire a l since t none e v h =
    ground (arith, lookup-retain a (is_live l t) l.addresses v.unique)
budget-expire a l since t (some r) e v h = ground (
  arith,
  lookup-retain a (is_live l t) l.addresses v.unique,
  All-lookup (λ _ b. b.count ≤ l.per_address) a r l.addresses v.per_address_le e,
)

expire-live :
    (l : RequestLimiter) (b : String) (t : ℕ)
    → IsValid l
    → (r : RateBucket) → lookup b (expire l t).addresses ≡ some r
    → is_live (expire l t) t r ≡ true
unfolding expire
expire-live l b t v r e = ground (arith, lookup-retain b (is_live l t) l.addresses v.unique)

budget-charge :
    (a b : String) (l : RequestLimiter) (since t : ℕ) (o : Option RateBucket)
    → lookup b l.addresses ≡ o
    → ((r : RateBucket) → o ≡ some r → is_live l t r ≡ true)
    → since ≤ t
    → (if (charge l b (bucket_for l t o)).1 && str_eq b a then 1 else 0)
        + budget a (charge l b (bucket_for l t o)).0 since
      ≤ budget a l since
unfolding charge bucket_for
budget-charge a b l since t none e live h =
    ground (arith, lookup-insert a b (bump (started t)) l.addresses, eq_iff b a)
budget-charge a b l since t (some r) e live h =
    ground (arith, lookup-insert a b (bump r) l.addresses, eq_iff b a, live r refl)

allow-config :
    (l : RequestLimiter) (b : String) (t : ℕ)
    → ((allow l b t).0.per_address ≡ l.per_address) × ((allow l b t).0.window ≡ l.window)
unfolding allow charge expire
allow-config l b t = ground arith

-- One request spends from its address's budget what it is let through for.
budget-allow :
    (a b : String) (l : RequestLimiter) (since t : ℕ)
    → IsValid l
    → since ≤ t
    → t < since + l.window
    → (if (allow l b t).1 && str_eq b a then 1 else 0) + budget a (allow l b t).0 since
      ≤ budget a l since
unfolding allow
budget-allow a b l since t v h k = omega (
  arith,
  budget-expire a l since t _ refl v k,
  budget-charge a b (expire l t) since t _ refl (expire-live l b t v) h,
)

admitted-le-budget :
    (a : String) (since : ℕ) (lo : ℕ) (l : RequestLimiter) (rs : List (String × ℕ))
    → IsValid l
    → since ≤ lo
    → Within lo (since + l.window) rs
    → admitted a l rs ≤ budget a l since
unfolding admitted
admitted-le-budget a since lo l [] v h w = omega arith
admitted-le-budget a since lo l ((b, t) ∷ rs) v h (w, x, y) =
    let c = allow-config l b t in
    omega (
      arith,
      budget-allow a b l since t v (omega arith) x,
      admitted-le-budget a since t (allow l b t).0 rs (allow-IsValid l b t v) (omega arith)
          (rw c.1 y),
    )

-- From any valid state, the requests of one address that are let through in a stretch of time no
-- longer than the window are at most twice its limit.
pub admitted_in_window :
    (a : String) (l : RequestLimiter) (since : ℕ) (rs : List (String × ℕ))
    → IsValid l
    → Within since (since + l.window) rs
    → admitted a l rs ≤ 2 * l.per_address
admitted_in_window a l since rs v w =
    let h = admitted-le-budget a since since l rs v (omega arith) w in ground (arith, h)

-- From any valid state, the requests of an address that the limiter does not track at the start,
-- let through in a stretch of time no longer than the window, are at most the address's limit.
pub admitted_untracked :
    (a : String) (l : RequestLimiter) (since : ℕ) (rs : List (String × ℕ))
    → IsValid l
    → lookup a l.addresses ≡ none
    → Within since (since + l.window) rs
    → admitted a l rs ≤ l.per_address
admitted_untracked a l since rs v e w =
    let h = admitted-le-budget a since since l rs v (omega arith) w in ground (arith, h)
