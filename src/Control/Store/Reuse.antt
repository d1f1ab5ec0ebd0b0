-- ===== src/Control/Store/Reuse.antt =====
-- `Prepare` of internal/control/store.go is idempotent: what it offered for a task and an iteration it
-- offers again.
use Prim.Native.String.{String}
use codexlink.Prelude.{
  ℕ, true, false, Option, none, some, List, [], ◌∷◌, ◌≡◌, refl, arith, eq_iff, length, ok, ◌∙◌, sym,
  ap, Bool-cases, Result-cases, inl, inr, leb,
}
use codexlink.Prelude.Assoc.{lookup, insert, delete}
use codexlink.Prelude.Int.{ℤ, int_eq_iff}
use codexlink.Control.{Request, Codec, max_active}
use codexlink.Control.Validation.{is_identity}
use codexlink.Control.Store.{Save, Env, Store, any_expired, save, prune_and_save, save_or}
use codexlink.Control.Store.Calls.{
  find_identity, ttl_of, request_id, new_request, add_request, reuse_or_add, prepare_pruned,
  prepare_ttl, prepare,
}
use codexlink.Control.Store.Invariant.{IsValid}
use codexlink.Control.Store.Preserve.{IsFresh}
use codexlink.Control.Store.Responses.{save_records}
use codexlink.Control.Store.Exchange.{prune_and_save_quiet}
use codexlink.Control.Store.Preserve.{Pruned, prune_and_save-Pruned}

module _ (c : Codec) where
  -- The identity of a request that was just added is found.
  find_identity-insert :
      (id : String) (r : Request) (m : List (String × Request))
      → lookup id m ≡ none
      → find_identity r.task_id r.iteration m ≡ none
      → find_identity r.task_id r.iteration (insert id r m) ≡ some r
  unfolding find_identity insert lookup
  find_identity-insert id r [] n f =
      ground (arith, eq_iff r.task_id r.task_id, int_eq_iff r.iteration r.iteration)
  find_identity-insert id r ((j, q) ∷ m) n f = ground (arith, find_identity-insert id r m)

  abbrev reused : Request → Request
  reused r = record r { reused = true }

  -- What `Prepare` returned is what the store finds for the identity.
  abbrev Offers : Store → String → ℤ → Request → Type 0
  Offers s task_id iteration r =
      (q : Request) × (find_identity task_id iteration s.records ≡ some q) × (reused q ≡ reused r)

  save_or-Offers :
      (s : Store) (e : Save) (undone : Store) (r : Request) {s' : Store} {q : Request}
      → find_identity r.task_id r.iteration s.records ≡ some r
      → save_or c s e undone r ≡ (s', ok q)
      → Offers s' r.task_id r.iteration q
  save_or-Offers s e undone r f k = elim (Result-cases (save c s e)) [
    | inl (x, n) ↦ absurd (ground (arith, k, n))
    | inr (t, n) ↦ (r, ground (arith, k, n, save_records c s e n), ground (arith, k, n))
  ]

  reuse_or_add-Offers :
      (s : Store) (task_id : String) (iteration : ℤ) (ttl : ℕ) (env : Env) (bytes : Option (List ℕ))
      (o : Option Request) {s' : Store} {r : Request}
      → find_identity task_id iteration s.records ≡ o
      → IsFresh s bytes
      → reuse_or_add c s task_id iteration ttl env bytes o ≡ (s', ok r)
      → Offers s' task_id iteration r
  unfolding reuse_or_add add_request
  reuse_or_add-Offers s task_id iteration ttl env bytes (some q) e f k =
      (q, ground arith, ground arith)
  reuse_or_add-Offers s task_id iteration ttl env none none e f k = absurd (ground arith)
  reuse_or_add-Offers s task_id iteration ttl env (some bytes) none e f k =
      let id = request_id bytes in
      let r = new_request s id task_id iteration env.stamped_at ttl in
      elim (Bool-cases (leb max_active (length s.records))) [
        | inl full ↦ absurd (ground (arith, k, full))
        | inr room ↦
            save_or-Offers (record s { records = insert id r s.records }) env.second_save
              (record s { records = delete id (insert id r s.records) }) r
              (find_identity-insert id r s.records f.1 e) (rw room at k)
      ]

  IsFresh-pruned :
      (s s' : Store) (bytes : Option (List ℕ))
      → ((id : String) → lookup id s.records ≡ none → lookup id s'.records ≡ none)
      → IsFresh s bytes
      → IsFresh s' bytes
  IsFresh-pruned s s' none n f = tt
  IsFresh-pruned s s' (some bytes) n f = (f.0, n (request_id bytes) f.1)

  prepare_ttl-Offers :
      (t : ℕ) (s : Store) (task_id : String) (iteration : ℤ) (env : Env) (bytes : Option (List ℕ))
      (o : Option ℕ) {s' : Store} {r : Request}
      → IsValid c t s
      → IsFresh s bytes
      → prepare_ttl c s task_id iteration env bytes o ≡ (s', ok r)
      → Offers s' task_id iteration r
  unfolding prepare_ttl prepare_pruned
  prepare_ttl-Offers t s task_id iteration env bytes none v f k = absurd (ground arith)
  prepare_ttl-Offers t s task_id iteration env bytes (some ttl) v f k =
      let p = prune_and_save-Pruned c t s env.pruned_at env.first_save v in
      elim (Result-cases (prune_and_save c s env.pruned_at env.first_save)) [
        | inl (x, e) ↦ absurd (ground (arith, k, e))
        | inr (s1, e) ↦
            let q : Pruned c t s (ok s1) = rw e at p in
            reuse_or_add-Offers s1 task_id iteration ttl env bytes _ refl
              (IsFresh-pruned s s1 bytes q.1 f)
              (ap (prepare_pruned c s task_id iteration ttl env bytes) (sym e) ∙ k)
      ]

  -- A request that `Prepare` returned on a valid store is returned again, marked as reused, by a later
  -- call for its task and iteration with any time to live that is accepted, while nothing in the store
  -- is out of time; the store stays as it is.
  pub prepare_again :
      (t : ℕ) (s : Store) (task_id : String) (iteration ttl again : ℤ) (env later : Env)
      (bytes more : Option (List ℕ)) (n : ℕ) {s' : Store} {r : Request}
      → IsValid c t s
      → IsFresh s bytes
      → prepare c s task_id iteration ttl env bytes ≡ (s', ok r)
      → ttl_of again ≡ some n
      → any_expired later.pruned_at s'.records ≡ false
      → prepare c s' task_id iteration again later more ≡ (s', ok (reused r))
  unfolding prepare
  prepare_again t s task_id iteration ttl again env later bytes more n {s'} {r} v f k a q =
      elim (Bool-cases (is_identity task_id iteration)) [
        | inr bad ↦ absurd (ground (arith, k, bad))
        | inl good ↦
            let (old, found, same) =
              prepare_ttl-Offers t s task_id iteration env bytes (ttl_of ttl) v f (rw good at k) in
            rw good (
              ap (prepare_ttl c s' task_id iteration later more) a
              ∙ unfold prepare_ttl prepare_pruned reuse_or_add in
                ap (prepare_pruned c s' task_id iteration n later more)
                  (prune_and_save_quiet c s' later.pruned_at later.first_save q)
                ∙ ap (reuse_or_add c s' task_id iteration n later more) found
                ∙ ground (arith, same))
      ]
