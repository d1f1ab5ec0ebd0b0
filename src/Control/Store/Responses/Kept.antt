-- ===== src/Control/Store/Responses/Kept.antt =====
-- The life of a taken response over the calls of internal/control/store.go, and over histories of them.
use Prim.Native.String.{String}
use codexlink.Prelude.{
  ℕ, ◌≤◌, ◌&&◌, Option, none, some, List, ◌≡◌, refl, arith, length, ok, ap, Bool-cases,
  Result-cases, inl, inr, leb,
}
use codexlink.Prelude.Assoc.{lookup, IsUnique}
use codexlink.Prelude.Int.{ℤ}
use codexlink.Control.{Request, Submission, submitted, Codec, max_response_bytes}
use codexlink.Control.Validation.{is_identity, is_submission}
use codexlink.Control.Store.{Env, Store, prune_and_save}
use codexlink.Control.Store.Calls.{
  find_identity, ttl_of, request_id, reuse_or_add, prepare_pruned, prepare_ttl, prepare,
  expire_first, submit_kept, submit, get_kept, get, cancel_locked,
}
use codexlink.Control.Store.History.{
  Call, prepares, submits, gets, cancels, env_of, CallIsFresh, step,
}
use codexlink.Control.Store.Invariant.{IsValid}
use codexlink.Control.Store.Preserve.{InOrder, IsFresh, Pruned, prune_and_save-Pruned}
use codexlink.Control.Store.Responses.{
  Keeps, Same, NotPending, IsOther, prune_and_save-Keeps, PrunedKeeps, expire_first-Keeps,
  submit_kept-Same, get_kept-Same, cancel_found-Same, reuse_or_add-Same,
}

module _ (c : Codec) where
  Keeps-NotPending :
      (id : String) (r : Request) (t : ℕ) (s : Store)
      → r.status ≡ submitted
      → Keeps c id r t s
      → NotPending c id s
  Keeps-NotPending id r t s p (inl h) q e k = ground (arith, h, e)
  Keeps-NotPending id r t s p (inr h) q e k = ground (arith, h, e)

  Keeps-Same :
      (id : String) (r : Request) (t u : ℕ) (s s' : Store)
      → t ≤ u
      → Keeps c id r t s
      → Same c id s s'
      → Keeps c id r u s'
  Keeps-Same id r t u s s' h k e = ground arith

  module _ (id : String) (r : Request) (s : Store) (here : lookup id s.records ≡ some r)
      (answer : r.status ≡ submitted) (u : IsUnique s.records) where
    submit-Keeps :
        (x : Submission) (env : Env)
        → env.checked_at ≤ env.pruned_at
        → Keeps c id r env.pruned_at (submit c s x env).0
    unfolding submit
    submit-Keeps x env h =
        let k = expire_first-Keeps c id r s here x.request_id env _ refl h u in
        let o = expire_first c s x.request_id env (lookup x.request_id s.records) in
        elim (Bool-cases (is_submission x && leb (length (c.marshal x)) max_response_bytes)) [
          | inr bad ↦ rw bad (inl here)
          | inl good ↦ rw good (
              Keeps-Same id r env.pruned_at env.pruned_at o.0 (submit_kept c x env o).0
                (omega arith) k
                (submit_kept-Same c id x env o (Keeps-NotPending id r env.pruned_at o.0 answer k)))
        ]

    get-Keeps :
        (j task_id : String) (iteration : ℤ) (env : Env)
        → env.checked_at ≤ env.pruned_at
        → Keeps c id r env.pruned_at (get c s j task_id iteration env).0
    unfolding get
    get-Keeps j task_id iteration env h =
        let k = expire_first-Keeps c id r s here j env _ refl h u in
        let o = expire_first c s j env (lookup j s.records) in
        elim (Bool-cases (is_identity task_id iteration)) [
          | inr bad ↦ rw bad (inl here)
          | inl good ↦ rw good (
              Keeps-Same id r env.pruned_at env.pruned_at o.0 (get_kept j task_id iteration o).0
                (omega arith) k (get_kept-Same c id j task_id iteration o))
        ]

    cancel_locked-Keeps :
        (j : String) (got : Request) (env : Env)
        → Keeps c id r env.pruned_at (cancel_locked c s j got env).0
    cancel_locked-Keeps j got env =
        Keeps-Same id r env.pruned_at env.pruned_at s (cancel_locked c s j got env).0 (omega arith)
          (inl here)
          (cancel_found-Same c id j s got env _ refl
            (Keeps-NotPending id r env.pruned_at s answer (inl here)))

    IsOther-fresh :
        (s' : Store) (bytes : Option (List ℕ))
        → IsFresh s bytes
        → ((j : String) → lookup j s.records ≡ none → lookup j s'.records ≡ none)
        → IsOther c id s' bytes
    IsOther-fresh s' none f n = tt
    IsOther-fresh s' (some bytes) f n = (
      λ same. ground (arith, here, f.1, ap (λ j. lookup j s.records) same),
      n (request_id bytes) f.1,
    )

    prepare_ttl-Keeps :
        (t : ℕ) (task_id : String) (iteration : ℤ) (env : Env) (bytes : Option (List ℕ))
        (o : Option ℕ)
        → IsValid c t s
        → IsFresh s bytes
        → Keeps c id r env.pruned_at (prepare_ttl c s task_id iteration env bytes o).0
    unfolding prepare_ttl prepare_pruned
    prepare_ttl-Keeps t task_id iteration env bytes none v f = inl here
    prepare_ttl-Keeps t task_id iteration env bytes (some ttl) v f =
        let k = prune_and_save-Keeps c id r s here env.pruned_at env.first_save u in
        let p = prune_and_save-Pruned c t s env.pruned_at env.first_save v in
        elim (Result-cases (prune_and_save c s env.pruned_at env.first_save)) [
          | inl (x, e) ↦ rw (e, prepare_pruned) (inl here)
          | inr (s', e) ↦
              let q : Pruned c t s (ok s') = rw e at p in
              let w : PrunedKeeps c id r s here env.pruned_at (ok s') = rw e at k in
              rw (e, prepare_pruned)
                (Keeps-Same id r env.pruned_at env.pruned_at s'
                  (reuse_or_add c s' task_id iteration ttl env bytes
                    (find_identity task_id iteration s'.records)).0
                  (omega arith) w
                  (reuse_or_add-Same c id s' task_id iteration ttl env bytes _
                    (IsOther-fresh s' bytes f q.1)))
        ]

    prepare-Keeps :
        (t : ℕ) (task_id : String) (iteration ttl : ℤ) (env : Env) (bytes : Option (List ℕ))
        → IsValid c t s
        → IsFresh s bytes
        → Keeps c id r env.pruned_at (prepare c s task_id iteration ttl env bytes).0
    unfolding prepare
    prepare-Keeps t task_id iteration ttl env bytes v f =
        elim (Bool-cases (is_identity task_id iteration)) [
          | inr bad ↦ rw bad (inl here)
          | inl good ↦ rw good (prepare_ttl-Keeps t task_id iteration env bytes (ttl_of ttl) v f)
        ]

  -- Whatever is called on a valid store, with a clock that does not go back and a fresh identifier, a
  -- taken response stays as it is, or it is dropped with its time over.
  pub step_submitted :
      (t : ℕ) (s : Store) (k : Call) (id : String) (r : Request)
      → IsValid c t s
      → InOrder t (env_of k)
      → CallIsFresh s k
      → lookup id s.records ≡ some r
      → r.status ≡ submitted
      → Keeps c id r (env_of k).pruned_at (step c s k)
  unfolding step
  step_submitted t s (prepares task_id iteration ttl bytes env) id r v o f e p =
      prepare-Keeps id r s e p v.map_valid.unique t task_id iteration ttl env bytes v f
  step_submitted t s (submits x env) id r v o f e p =
      submit-Keeps id r s e p v.map_valid.unique x env o.pruned
  step_submitted t s (gets j task_id iteration env) id r v o f e p =
      get-Keeps id r s e p v.map_valid.unique j task_id iteration env o.pruned
  step_submitted t s (cancels j got env) id r v o f e p =
      cancel_locked-Keeps id r s e p v.map_valid.unique j got env
