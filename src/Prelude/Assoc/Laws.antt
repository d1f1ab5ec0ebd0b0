-- ===== src/Prelude/Assoc/Laws.antt =====
-- The laws of the maps: what is read after a write, sizes, unique keys, and predicates on entries.
use Prim.Native.Nat.{◌+◌, ◌≤◌}
use Prim.Native.String.{String}
use mathlib.Core.Bool.{Bool, true}
use mathlib.Core.List.{List, [], ◌∷◌}
use mathlib.Core.Option.{none, some}
use mathlib.Core.Logic.{inl, inr}
use mathlib.Core.Path.{◌≡◌, refl, ap}
use native.Mathlib.Omega.{arith}
use text.Mathlib.Text.{◌==◌ as str_eq}
use text.Mathlib.TextEquality.{eq_iff}
use codexlink.Prelude.Assoc.{lookup, insert, delete, retain, IsUnique, All, filter_some}
use codexlink.Prelude.Lists.{length}
use codexlink.Prelude.Tests.{if◌then◌else◌, Option-cases}

module _ {ℓ} {V : Type ℓ} where
  pub lookup-insert :
      (j k : String) (v : V) (m : List (String × V))
      → lookup j (insert k v m) ≡ (if str_eq k j then some v else lookup j m)
  unfolding lookup insert
  lookup-insert j k v [] = refl
  lookup-insert j k v ((i, w) ∷ m) =
      ground (arith, eq_iff k j, eq_iff i k, eq_iff i j, lookup-insert j k v m)

  pub lookup-delete :
      (j k : String) (m : List (String × V))
      → lookup j (delete k m) ≡ (if str_eq k j then none else lookup j m)
  unfolding lookup delete
  lookup-delete j k [] = ground arith
  lookup-delete j k ((i, w) ∷ m) =
      ground (arith, eq_iff k j, eq_iff i k, eq_iff i j, lookup-delete j k m)

  pub lookup-retain-none :
      (j : String) (keep : V → Bool) (m : List (String × V))
      → lookup j m ≡ none
      → lookup j (retain keep m) ≡ none
  unfolding lookup retain
  lookup-retain-none j keep [] h = refl
  lookup-retain-none j keep ((i, w) ∷ m) h = ground (arith, lookup-retain-none j keep m)

  pub lookup-retain :
      (j : String) (keep : V → Bool) (m : List (String × V))
      → IsUnique m
      → lookup j (retain keep m) ≡ filter_some keep (lookup j m)
  unfolding lookup retain
  lookup-retain j keep [] u = refl
  lookup-retain j keep ((i, w) ∷ m) u =
      ground (arith, eq_iff i j, lookup-retain j keep m u.1, lookup-retain-none j keep m)

  pub insert-IsUnique :
      (k : String) (v : V) (m : List (String × V)) → IsUnique m → IsUnique (insert k v m)
  unfolding insert lookup
  insert-IsUnique k v [] u = ground arith
  insert-IsUnique k v ((i, w) ∷ m) u =
      ground (arith, eq_iff i k, eq_iff k i, insert-IsUnique k v m u.1, lookup-insert i k v m)

  pub delete-IsUnique : (k : String) (m : List (String × V)) → IsUnique m → IsUnique (delete k m)
  unfolding delete
  delete-IsUnique k [] u = tt
  delete-IsUnique k ((i, w) ∷ m) u = ground (arith, delete-IsUnique k m u.1, lookup-delete i k m)

  pub lookup-retain_kept :
      (j : String) (keep : V → Bool) (m : List (String × V)) (v : V)
      → lookup j m ≡ some v
      → keep v ≡ true
      → lookup j (retain keep m) ≡ some v
  unfolding lookup retain
  lookup-retain_kept j keep [] v h k = ground arith
  lookup-retain_kept j keep ((i, w) ∷ m) v h k = ground (arith, lookup-retain_kept j keep m v)

  pub retain-IsUnique :
      (keep : V → Bool) (m : List (String × V)) → IsUnique m → IsUnique (retain keep m)
  unfolding retain
  retain-IsUnique keep [] u = tt
  retain-IsUnique keep ((i, w) ∷ m) u =
      ground (arith, retain-IsUnique keep m u.1, lookup-retain-none i keep m)

  pub length-insert_new :
      (k : String) (v : V) (m : List (String × V))
      → lookup k m ≡ none
      → length (insert k v m) ≡ length m + 1
  unfolding lookup insert
  length-insert_new k v [] h = omega arith
  length-insert_new k v ((i, w) ∷ m) h = ground (arith, length-insert_new k v m)

  pub length-insert_old :
      (k : String) (v w : V) (m : List (String × V))
      → lookup k m ≡ some w
      → length (insert k v m) ≡ length m
  unfolding lookup insert
  length-insert_old k v w [] h = ground arith
  length-insert_old k v w ((i, x) ∷ m) h = ground (arith, length-insert_old k v w m)

  pub length-insert_le :
      (k : String) (v : V) (m : List (String × V)) → length (insert k v m) ≤ length m + 1
  unfolding insert
  length-insert_le k v [] = omega arith
  length-insert_le k v ((i, w) ∷ m) = ground (arith, length-insert_le k v m)

  pub length-delete_le : (k : String) (m : List (String × V)) → length (delete k m) ≤ length m
  unfolding delete
  length-delete_le k [] = omega arith
  length-delete_le k ((i, w) ∷ m) = ground (arith, length-delete_le k m)

  pub length-delete_old :
      (k : String) (v : V) (m : List (String × V))
      → lookup k m ≡ some v
      → length (delete k m) + 1 ≤ length m
  unfolding lookup delete
  length-delete_old k v [] h = ground arith
  length-delete_old k v ((i, w) ∷ m) h =
      ground (arith, length-delete_old k v m, length-delete_le k m)

  pub length-retain_le :
      (keep : V → Bool) (m : List (String × V)) → length (retain keep m) ≤ length m
  unfolding retain
  length-retain_le keep [] = omega arith
  length-retain_le keep ((i, w) ∷ m) = ground (arith, length-retain_le keep m)

  -- A map that loses nothing to `retain` is unchanged by it.
  pub retain_same :
      (keep : V → Bool) (m : List (String × V)) → All (λ k v. keep v ≡ true) m → retain keep m ≡ m
  unfolding retain
  retain_same keep [] h = refl
  retain_same keep ((i, w) ∷ m) h = ground (arith, retain_same keep m h.1)

module _ {ℓ κ} {V : Type ℓ} (P : String → V → Type κ) where
  pub All-lookup :
      (k : String) (v : V) (m : List (String × V)) → All P m → lookup k m ≡ some v → P k v
  unfolding lookup
  All-lookup k v [] a h = ground arith
  All-lookup k v ((i, w) ∷ m) a h = ground (arith, eq_iff i k, All-lookup k v m a.1)

  pub All-insert :
      (k : String) (v : V) (m : List (String × V)) → P k v → All P m → All P (insert k v m)
  unfolding insert
  All-insert k v [] p a = (p, tt)
  All-insert k v ((i, w) ∷ m) p a = ground (arith, All-insert k v m p a.1)

  pub All-delete : (k : String) (m : List (String × V)) → All P m → All P (delete k m)
  unfolding delete
  All-delete k [] a = tt
  All-delete k ((i, w) ∷ m) a = ground (arith, All-delete k m a.1)

  pub All-retain : (keep : V → Bool) (m : List (String × V)) → All P m → All P (retain keep m)
  unfolding retain
  All-retain keep [] a = tt
  All-retain keep ((i, w) ∷ m) a = ground (arith, All-retain keep m a.1)

module _ {ℓ} {V : Type ℓ} where
  -- What `retain` leaves has passed its test.
  pub retain-All :
      (keep : V → Bool) (m : List (String × V)) → All (λ k v. keep v ≡ true) (retain keep m)
  unfolding retain
  retain-All keep [] = tt
  retain-All keep ((i, w) ∷ m) = ground (arith, retain-All keep m)

  pub All-map {κ ι} :
      {P : String → V → Type κ} {Q : String → V → Type ι} (m : List (String × V))
      → ((k : String) (v : V) → P k v → Q k v)
      → All P m
      → All Q m
  All-map [] f a = tt
  All-map ((i, w) ∷ m) f a = (f i w a.0, All-map m f a.1)

  -- A map with each key once, and no key that another map has not, is no larger.
  pub length-shrinks :
      (m n : List (String × V))
      → IsUnique n
      → ((k : String) → lookup k m ≡ none → lookup k n ≡ none)
      → length n ≤ length m
  unfolding lookup
  length-shrinks m [] u h = omega arith
  length-shrinks m ((k, v) ∷ n) u h = elim (Option-cases (lookup k m)) [
    | inl absent ↦ absurd (ground (arith, h k absent, eq_iff k k))
    | inr (w, present) ↦
        let smaller = length-shrinks (delete k m) n u.1 (λ j e.
          ground (arith, e, u.0, h j, eq_iff k j, ap (λ i. lookup i n), lookup-delete j k m)) in
        omega (arith, smaller, length-delete_old k w m present)
  ]
