-- ===== src/Auth/Scopes/Parsed.antt =====
-- What `ParseScopes` of internal/auth/store.go returns.
use mathlib.Core.Path.{subst}
use codexlink.Prelude.{
  ℕ, true, false, ◌||◌, List, [], ◌∷◌, ◌++◌, if◌then◌else◌, bytes_eq, bytes_eq_iff, Result, ok, err,
  ◌≡◌, ◌≢◌, refl, arith, inl, inr, Bool-cases,
}
use codexlink.Prelude.Text.{is_empty, trim_space}
use codexlink.Auth.Scopes.{
  Error, offline_access, default_scopes, supported_scopes, has, scope_fields, collect, some_scope,
  parse_scopes,
}

-- No scope stands twice.
abbrev pub IsDistinct : List (List ℕ) → Type 0
IsDistinct [] = Unit {0}
IsDistinct (w ∷ ws) = (has ws w ≡ false) × IsDistinct ws

abbrev pub AllSupported : List (List ℕ) → Type 0
AllSupported [] = Unit {0}
AllSupported (w ∷ ws) = (has supported_scopes w ≡ true) × AllSupported ws

has-append : (xs ys : List (List ℕ)) (w : List ℕ) → has (xs ++ ys) w ≡ (has xs w || has ys w)
unfolding has
has-append [] ys w = refl
has-append (x ∷ xs) ys w = ground (arith, has-append xs ys w)

append-IsDistinct :
    (xs : List (List ℕ)) (w : List ℕ)
    → has xs w ≡ false
    → IsDistinct xs
    → IsDistinct (xs ++ (w ∷ []))
unfolding has
append-IsDistinct [] w h d = (refl, tt)
append-IsDistinct (x ∷ xs) w h d = (
  ground (arith, d.0, h, has-append xs (w ∷ []) x, bytes_eq_iff x w, bytes_eq_iff w x),
  append-IsDistinct xs w (ground (arith, h)) d.1,
)

append-AllSupported :
    (xs : List (List ℕ)) (w : List ℕ)
    → has supported_scopes w ≡ true
    → AllSupported xs
    → AllSupported (xs ++ (w ∷ []))
append-AllSupported [] w h a = (h, tt)
append-AllSupported (x ∷ xs) w h a = (a.0, append-AllSupported xs w h a.1)

-- What the loop has taken when it ends.
abbrev Collected : List (List ℕ) → List (List ℕ) → List (List ℕ) → Type 0
Collected before ws result =
    IsDistinct result
    × AllSupported result
    × ((w : List ℕ) → has result w ≡ (has before w || has ws w))

collect-Collected :
    (before ws : List (List ℕ)) {result : List (List ℕ)}
    → IsDistinct before
    → AllSupported before
    → collect before ws ≡ ok result
    → Collected before ws result
unfolding collect has
collect-Collected before [] {result} d a q =
    let e : before ≡ result = ground (arith, q) in
    subst (λ z. Collected before [] z) e (d, a, λ w. ground arith)
collect-Collected before (x ∷ ws) {result} d a q = elim (Bool-cases (has supported_scopes x)) [
  | inr bad ↦ absurd (ground (arith, q, bad))
  | inl good ↦ elim (Bool-cases (has before x)) [
    | inl seen ↦
        let (e, b, f) = collect-Collected before ws {result = result} d a (rw (good, seen) at q) in
        (e, b, λ w. ground (arith, f w, seen, bytes_eq_iff x w))
    | inr new ↦
        let (e, b, f) =
          collect-Collected (before ++ (x ∷ [])) ws {result = result}
            (append-IsDistinct before x new d) (append-AllSupported before x good a)
            (rw (good, new) at q) in
        (e, b, λ w. ground (arith, f w, has-append before (x ∷ []) w))
  ]
]

some_scope_ok :
    (r : Result Error (List (List ℕ))) {result : List (List ℕ)}
    → some_scope r ≡ ok result
    → (r ≡ ok result) × (result ≢ [])
unfolding some_scope
some_scope_ok (err e) q = absurd (ground arith)
some_scope_ok (ok []) q = absurd (ground arith)
some_scope_ok (ok (w ∷ ws)) {result} q = (q, λ e. ground (arith, q, e))

default-IsDistinct : IsDistinct default_scopes
unfolding has bytes_eq
default-IsDistinct = (refl, (refl, (refl, (refl, (refl, tt)))))

default-AllSupported : AllSupported default_scopes
unfolding has bytes_eq
default-AllSupported = (refl, (refl, (refl, (refl, (refl, tt)))))

-- The scopes that `ParseScopes` returns are at least one, each of them is supported and stands once, and
-- they are the default ones for a blank request and exactly the requested ones for any other.
pub parse_scopes_lem :
    (requested : List ℕ) {result : List (List ℕ)}
    → parse_scopes requested ≡ ok result
    → IsDistinct result
      × AllSupported result
      × (result ≢ [])
      × ((w : List ℕ)
          → has result w ≡ (
              if is_empty (trim_space requested)
              then has default_scopes w
              else has (scope_fields requested) w))
unfolding parse_scopes
parse_scopes_lem requested {result} q = elim (Bool-cases (is_empty (trim_space requested))) [
  | inl blank ↦
      let e : default_scopes ≡ result = ground (arith, q, blank) in
      rw blank (
        subst
          (λ z.
            IsDistinct z
            × AllSupported z
            × (z ≢ [])
            × ((w : List ℕ) → has z w ≡ has default_scopes w))
          e (default-IsDistinct, default-AllSupported, (λ h. ground (arith, h)), λ w. refl))
  | inr asked ↦
      let (c, n) =
        some_scope_ok (collect [] (scope_fields requested)) {result = result} (rw asked at q) in
      let (d, a, f) = collect-Collected [] (scope_fields requested) {result = result} tt tt c in
      rw asked (d, a, n, λ w. unfold has in f w)
]

-- `offline_access`, which gives a refresh token, is returned only to a request that names it.
pub offline_access_asked :
    (requested : List ℕ) {result : List (List ℕ)}
    → parse_scopes requested ≡ ok result
    → has result offline_access ≡ true
    → has (scope_fields requested) offline_access ≡ true
offline_access_asked requested {result} q h =
    let (_, _, _, f) = parse_scopes_lem requested {result = result} q in
    elim (Bool-cases (is_empty (trim_space requested))) [
      | inl blank ↦ unfold has bytes_eq in absurd (ground (arith, h, f offline_access, blank))
      | inr asked ↦ ground (arith, h, f offline_access, asked)
    ]
