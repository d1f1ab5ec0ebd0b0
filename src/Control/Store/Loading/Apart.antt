-- ===== src/Control/Store/Loading/Apart.antt =====
-- Requests that differ in identifier and identity, in lists sorted as internal/control/store.go saves them.
use codexlink.Prelude.{
  Bool, false, ◌&&◌, none, List, [], ◌∷◌, ◌≡◌, ◌≢◌, arith, String, str_eq, eq_iff, sym,
}
use codexlink.Prelude.Assoc.{lookup, insert}
use codexlink.Prelude.Assoc.Laws.{lookup-insert}
use codexlink.Prelude.Int.{int_eq, int_eq_iff}
use codexlink.Control.{Request}
use codexlink.Control.Store.{insert_sorted, sorted, values}
use codexlink.Control.Store.Calls.{find_identity}
use codexlink.Control.Store.Identities.{find_identity-insert_new}

-- The test for one task and iteration.
abbrev pub same_identity : Request → Request → Bool
same_identity r q = str_eq r.task_id q.task_id && int_eq r.iteration q.iteration

-- Two requests with different identifiers and different identities.
abbrev pub Apart : Request → Request → Type 0
Apart r q = (r.request_id ≢ q.request_id) × (same_identity r q ≡ false)

abbrev pub AllOf : (Request → Type 0) → List Request → Type 0
AllOf P [] = Unit {0}
AllOf P (r ∷ rs) = P r × AllOf P rs

abbrev pub AllApart : List Request → Type 0
AllApart [] = Unit {0}
AllApart (r ∷ rs) = AllOf (Apart r) rs × AllApart rs

-- No request of the map has the identifier or the identity of `r`.
abbrev pub IsNew : List (String × Request) → Request → Type 0
IsNew m r = (lookup r.request_id m ≡ none) × (find_identity r.task_id r.iteration m ≡ none)

Apart-sym : (r q : Request) → Apart r q → Apart q r
Apart-sym r q a = (
  λ e. a.0 (sym e),
  ground (
    arith,
    a.1,
    eq_iff r.task_id q.task_id,
    eq_iff q.task_id r.task_id,
    int_eq_iff r.iteration q.iteration,
    int_eq_iff q.iteration r.iteration,
  ),
)

insert_sorted-AllOf :
    (P : Request → Type 0) (id : String) (r : Request) (es : List (String × Request))
    → P r
    → AllOf P (values es)
    → AllOf P (values (insert_sorted (id, r) es))
unfolding insert_sorted
insert_sorted-AllOf P id r [] p a = (p, tt)
insert_sorted-AllOf P id r ((j, q) ∷ es) p a = ground (arith, insert_sorted-AllOf P id r es p a.1)

insert_sorted-AllApart :
    (id : String) (r : Request) (es : List (String × Request))
    → AllOf (Apart r) (values es)
    → AllApart (values es)
    → AllApart (values (insert_sorted (id, r) es))
unfolding insert_sorted
insert_sorted-AllApart id r [] a d = (tt, tt)
insert_sorted-AllApart id r ((j, q) ∷ es) a d = ground (
  arith,
  insert_sorted-AllApart id r es a.1 d.1,
  insert_sorted-AllOf (Apart q) id r es (Apart-sym r q a.0) d.0,
)

pub sorted-AllOf :
    (P : Request → Type 0) (m : List (String × Request))
    → AllOf P (values m)
    → AllOf P (values (sorted m))
unfolding sorted
sorted-AllOf P [] a = tt
sorted-AllOf P ((id, r) ∷ m) a = insert_sorted-AllOf P id r (sorted m) a.0 (sorted-AllOf P m a.1)

pub sorted-AllApart :
    (m : List (String × Request)) → AllApart (values m) → AllApart (values (sorted m))
unfolding sorted
sorted-AllApart [] a = tt
sorted-AllApart ((id, r) ∷ m) a =
    insert_sorted-AllApart id r (sorted m) (sorted-AllOf (Apart r) m a.0) (sorted-AllApart m a.1)

IsNew-insert :
    (r q : Request) (m : List (String × Request))
    → Apart r q
    → IsNew m q
    → IsNew (insert r.request_id r m) q
IsNew-insert r q m a n = (
  ground (
    arith,
    a.0,
    n.0,
    eq_iff r.request_id q.request_id,
    lookup-insert q.request_id r.request_id r m,
  ),
  find_identity-insert_new q.task_id q.iteration r.request_id r m n.1 a.1,
)

pub AllOf-IsNew :
    (r : Request) (rs : List Request) (m : List (String × Request))
    → AllOf (Apart r) rs
    → AllOf (IsNew m) rs
    → AllOf (IsNew (insert r.request_id r m)) rs
AllOf-IsNew r [] m a n = tt
AllOf-IsNew r (q ∷ rs) m a n = (IsNew-insert r q m a.0 n.0, AllOf-IsNew r rs m a.1 n.1)
