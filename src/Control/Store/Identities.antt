-- ===== src/Control/Store/Identities.antt =====
-- No two requests of the store in internal/control/store.go have the same task and iteration, and what
-- the changes of the map do to that.
use Prim.Native.String.{String}
use codexlink.Prelude.{
  Bool, false, ◌&&◌, none, some, List, [], ◌∷◌, ◌≡◌, refl, arith, str_eq, eq_iff,
}
use codexlink.Prelude.Assoc.{lookup, insert, delete, retain}
use codexlink.Prelude.Int.{ℤ, int_eq, int_eq_iff}
use codexlink.Control.{Request}
use codexlink.Control.Store.Calls.{find_identity}

abbrev pub Distinct : List (String × Request) → Type 0
Distinct [] = Unit {0}
Distinct ((id, r) ∷ m) = (find_identity r.task_id r.iteration m ≡ none) × Distinct m

find_identity-retain :
    (t : String) (i : ℤ) (keep : Request → Bool) (m : List (String × Request))
    → find_identity t i m ≡ none
    → find_identity t i (retain keep m) ≡ none
unfolding find_identity retain
find_identity-retain t i keep [] h = refl
find_identity-retain t i keep ((j, q) ∷ m) h = ground (arith, find_identity-retain t i keep m)

pub retain-Distinct :
    (keep : Request → Bool) (m : List (String × Request)) → Distinct m → Distinct (retain keep m)
unfolding retain
retain-Distinct keep [] d = tt
retain-Distinct keep ((j, q) ∷ m) d =
    ground
      (arith, retain-Distinct keep m d.1, find_identity-retain q.task_id q.iteration keep m d.0)

find_identity-delete :
    (t : String) (i : ℤ) (id : String) (m : List (String × Request))
    → find_identity t i m ≡ none
    → find_identity t i (delete id m) ≡ none
unfolding find_identity delete
find_identity-delete t i id [] h = refl
find_identity-delete t i id ((j, q) ∷ m) h = ground (arith, find_identity-delete t i id m)

pub delete-Distinct :
    (id : String) (m : List (String × Request)) → Distinct m → Distinct (delete id m)
unfolding delete
delete-Distinct id [] d = tt
delete-Distinct id ((j, q) ∷ m) d =
    ground (arith, delete-Distinct id m d.1, find_identity-delete q.task_id q.iteration id m d.0)

-- A new request with an identity that no other has.
pub find_identity-insert_new :
    (t : String) (i : ℤ) (id : String) (r : Request) (m : List (String × Request))
    → find_identity t i m ≡ none
    → (str_eq r.task_id t && int_eq r.iteration i) ≡ false
    → find_identity t i (insert id r m) ≡ none
unfolding find_identity insert
find_identity-insert_new t i id r [] h n = ground arith
find_identity-insert_new t i id r ((j, q) ∷ m) h n =
    ground (arith, find_identity-insert_new t i id r m)

pub insert_new-Distinct :
    (id : String) (r : Request) (m : List (String × Request))
    → lookup id m ≡ none
    → find_identity r.task_id r.iteration m ≡ none
    → Distinct m
    → Distinct (insert id r m)
unfolding insert lookup find_identity
insert_new-Distinct id r [] n h d = (refl, tt)
insert_new-Distinct id r ((j, q) ∷ m) n h d = ground (
  arith,
  insert_new-Distinct id r m,
  find_identity-insert_new q.task_id q.iteration id r m d.0,
  eq_iff q.task_id r.task_id,
  eq_iff r.task_id q.task_id,
  int_eq_iff q.iteration r.iteration,
  int_eq_iff r.iteration q.iteration,
)

-- A request that is written again with the identity it had.
module _ (id : String) (r r' : Request) (task : r'.task_id ≡ r.task_id)
    (round : r'.iteration ≡ r.iteration) where
  find_identity-insert_same :
      (t : String) (i : ℤ) (m : List (String × Request))
      → lookup id m ≡ some r
      → find_identity t i m ≡ none
      → find_identity t i (insert id r' m) ≡ none
  unfolding find_identity insert lookup
  find_identity-insert_same t i [] e h = ground arith
  find_identity-insert_same t i ((j, q) ∷ m) e h = ground (arith, find_identity-insert_same t i m)

  pub insert_same-Distinct :
      (m : List (String × Request)) → lookup id m ≡ some r → Distinct m → Distinct (insert id r' m)
  unfolding insert lookup
  insert_same-Distinct [] e d = ground arith
  insert_same-Distinct ((j, q) ∷ m) e d =
      ground (arith, insert_same-Distinct m, find_identity-insert_same q.task_id q.iteration m)

-- A request of the map has an identity that is found.
pub find_identity-lookup :
    (t : String) (i : ℤ) (id : String) (r : Request) (m : List (String × Request))
    → find_identity t i m ≡ none
    → lookup id m ≡ some r
    → (str_eq r.task_id t && int_eq r.iteration i) ≡ false
unfolding find_identity lookup
find_identity-lookup t i id r [] h e = cc
find_identity-lookup t i id r ((j, q) ∷ m) h e = ground (arith, find_identity-lookup t i id r m)

-- Without a request its identity is free.
pub find_identity-delete_own :
    (id : String) (r : Request) (m : List (String × Request))
    → lookup id m ≡ some r
    → Distinct m
    → find_identity r.task_id r.iteration (delete id m) ≡ none
unfolding find_identity delete lookup
find_identity-delete_own id r [] e d = refl
find_identity-delete_own id r ((j, q) ∷ m) e d = ground (
  arith,
  find_identity-delete r.task_id r.iteration id m,
  find_identity-lookup q.task_id q.iteration id r m d.0,
  find_identity-delete_own id r m,
  eq_iff q.task_id r.task_id,
  eq_iff r.task_id q.task_id,
  int_eq_iff q.iteration r.iteration,
  int_eq_iff r.iteration q.iteration,
)
