-- ===== src/Control/Store/Maps.antt =====
-- What the store of internal/control/store.go writes for a map of requests, and facts on its maps: the
-- order on disk does not matter to whoever looks a request up.
use Prim.Native.String.{String}
use codexlink.Prelude.{
  ℕ, ◌+◌, false, Option, none, some, List, [], ◌∷◌, ◌≡◌, refl, arith, str_eq, eq_iff, if◌then◌else◌,
  length, ◌∙◌,
}
use codexlink.Prelude.Assoc.{lookup, insert, delete, retain, IsUnique, All}
use codexlink.Control.{Request}
use codexlink.Control.Store.{insert_sorted, sorted, values, is_live, any_expired}

-- The keys are the requests' own identifiers.
abbrev pub IsKeyed : List (String × Request) → Type 0
IsKeyed = All (λ id r. id ≡ r.request_id)

-- The first request in a list with an identifier.
unfoldable pub find_id : String → List Request → Option Request
find_id id [] = none
find_id id (r ∷ rs) = if str_eq r.request_id id then some r else find_id id rs

length-insert_sorted :
    (e : String × Request) (es : List (String × Request))
    → length (values (insert_sorted e es)) ≡ length (values es) + 1
unfolding insert_sorted
length-insert_sorted e [] = omega arith
length-insert_sorted e (f ∷ es) = ground (arith, length-insert_sorted e es)

find_id-insert_sorted :
    (id k : String) (r : Request) (es : List (String × Request))
    → k ≡ r.request_id
    → find_id k (values es) ≡ none
    → find_id id (values (insert_sorted (k, r) es))
      ≡ (if str_eq k id then some r else find_id id (values es))
unfolding find_id insert_sorted
find_id-insert_sorted id k r [] e n = ground arith
find_id-insert_sorted id k r ((j, q) ∷ es) e n = ground (
  arith,
  eq_iff k id,
  eq_iff r.request_id id,
  eq_iff q.request_id id,
  eq_iff q.request_id k,
  find_id-insert_sorted id k r es e,
)

-- Looking a request up in what a save writes is looking it up in the map.
pub find_id-sorted :
    (id : String) (m : List (String × Request))
    → IsKeyed m
    → IsUnique m
    → find_id id (values (sorted m)) ≡ lookup id m
unfolding sorted lookup
find_id-sorted id [] k u = unfold find_id in refl
find_id-sorted id ((j, r) ∷ m) k u =
    let other = find_id-sorted j m k.1 u.1 ∙ u.0 in
    find_id-insert_sorted id j r (sorted m) k.0 other ∙ rw (find_id-sorted id m k.1 u.1)

pub length-values-sorted : (m : List (String × Request)) → length (values (sorted m)) ≡ length m
unfolding sorted
length-values-sorted [] = refl
length-values-sorted ((j, r) ∷ m) =
    omega (arith, length-insert_sorted (j, r) (sorted m), length-values-sorted m)

-- A map where no time is over is unchanged by pruning.
pub retain_live :
    (now : ℕ) (m : List (String × Request)) → any_expired now m ≡ false → retain (is_live now) m ≡ m
unfolding retain
retain_live now [] h = refl
retain_live now ((id, r) ∷ m) h = ground (arith, retain_live now m)

pub delete_absent :
    (id : String) (m : List (String × Request)) → lookup id m ≡ none → delete id m ≡ m
unfolding lookup delete
delete_absent id [] h = refl
delete_absent id ((j, r) ∷ m) h = ground (arith, delete_absent id m)

-- Undoing an insertion under a new key.
pub delete-insert_new :
    (id : String) (r : Request) (m : List (String × Request))
    → lookup id m ≡ none
    → delete id (insert id r m) ≡ m
unfolding lookup delete insert
delete-insert_new id r [] h = ground (arith, eq_iff id id)
delete-insert_new id r ((j, q) ∷ m) h =
    ground (arith, eq_iff id id, eq_iff j id, delete-insert_new id r m, delete_absent id m)
