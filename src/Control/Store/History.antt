-- ===== src/Control/Store/History.antt =====
-- Histories of the store in internal/control/store.go: its critical sections in any order, each with
-- the clock's readings and the saves that it meets. `Cancel` is two of them, which others may part.
use Prim.Native.String.{String}
use codexlink.Prelude.{ℕ, ◌≤◌, Option, none, List, [], ◌∷◌, refl, arith}
use codexlink.Prelude.Assoc.{lookup}
use codexlink.Prelude.Int.{ℤ}
use codexlink.Control.{Request, Submission, Codec}
use codexlink.Control.Store.{Env, Store}
use codexlink.Control.Store.Calls.{prepare, submit, get, cancel_locked}
use codexlink.Control.Store.Invariant.{IsValid}
use codexlink.Control.Store.Maps.{find_id}
use codexlink.Control.Store.Preserve.{
  InOrder, IsFresh, get-IsValid, cancel_locked-IsValid, IsValid-mono,
}
use codexlink.Control.Store.Preserve.Prepare.{prepare-IsValid}
use codexlink.Control.Store.Preserve.Submit.{submit-IsValid}

-- `cancels` is the second section of `Cancel`, `gets` its first.
pub data Call : Type 0 where
  prepares : String → ℤ → ℤ → Option (List ℕ) → Env → Call
  submits : Submission → Env → Call
  gets : String → String → ℤ → Env → Call
  cancels : String → Request → Env → Call

abbrev pub env_of : Call → Env
env_of (prepares task_id iteration ttl bytes env) = env
env_of (submits x env) = env
env_of (gets id task_id iteration env) = env
env_of (cancels id got env) = env

abbrev pub CallIsFresh : Store → Call → Type 0
CallIsFresh s (prepares task_id iteration ttl bytes env) = IsFresh s bytes
CallIsFresh s _ = Unit {0}

-- `NewStore` without a file.
unfoldable pub new_store : String → Store
new_store workspace_id = record { workspace_id = workspace_id; records = []; disk = none }

module _ (c : Codec) where
  unfoldable pub step : Store → Call → Store
  step s (prepares task_id iteration ttl bytes env) =
      (prepare c s task_id iteration ttl env bytes).0
  step s (submits x env) = (submit c s x env).0
  step s (gets id task_id iteration env) = (get c s id task_id iteration env).0
  step s (cancels id got env) = (cancel_locked c s id got env).0

  unfoldable pub run : Store → List Call → Store
  run s [] = s
  run s (k ∷ ks) = run (step s k) ks

  -- The clock's last reading in a history.
  unfoldable pub run_time : ℕ → List Call → ℕ
  run_time t [] = t
  run_time t (k ∷ ks) = run_time (env_of k).stamped_at ks

  -- The clock never goes back, and no identifier is drawn while a request has it.
  abbrev pub Runs : ℕ → Store → List Call → Type 0
  Runs t s [] = Unit {0}
  Runs t s (k ∷ ks) =
      InOrder t (env_of k) × CallIsFresh s k × Runs (env_of k).stamped_at (step s k) ks

  InOrder-le : {t : ℕ} {env : Env} → InOrder t env → t ≤ env.stamped_at
  InOrder-le o = omega arith

  pub step-IsValid :
      (t : ℕ) (s : Store) (k : Call)
      → InOrder t (env_of k)
      → CallIsFresh s k
      → IsValid c t s
      → IsValid c (env_of k).stamped_at (step s k)
  unfolding step
  step-IsValid t s (prepares task_id iteration ttl bytes env) o f v =
      prepare-IsValid c t s task_id iteration ttl env bytes f o.started (InOrder-le o) v
  step-IsValid t s (submits x env) o f v = submit-IsValid c t s x env (InOrder-le o) v
  step-IsValid t s (gets id task_id iteration env) o f v =
      IsValid-mono c (InOrder-le o) (get-IsValid c t s id task_id iteration env v)
  step-IsValid t s (cancels id got env) o f v =
      IsValid-mono c (InOrder-le o) (cancel_locked-IsValid c t s id got env v)

  pub run-IsValid :
      (t : ℕ) (s : Store) (ks : List Call)
      → Runs t s ks
      → IsValid c t s
      → IsValid c (run_time t ks) (run s ks)
  unfolding run run_time
  run-IsValid t s [] r v = v
  run-IsValid t s (k ∷ ks) r v =
      run-IsValid (env_of k).stamped_at (step s k) ks r.2 (step-IsValid t s k r.0 r.1 v)

  pub new_store-IsValid : (t : ℕ) (workspace_id : String) → IsValid c t (new_store workspace_id)
  unfolding new_store find_id lookup
  new_store-IsValid t w = record {
    map_valid = record { unique = tt; bounded = omega arith; entries = tt; distinct = tt };
    stored = λ id. refl;
  }

  -- After any history of a new store in which the clock does not go back and no identifier is drawn
  -- while a request has it, whatever the saves met: no more than 16 requests, each under its
  -- own identifier, no two for the same task and iteration, each one that `NewStore` would load; and
  -- the file holds the same requests as the memory.
  pub run_store-IsValid :
      (t : ℕ) (workspace_id : String) (ks : List Call)
      → Runs t (new_store workspace_id) ks
      → IsValid c (run_time t ks) (run (new_store workspace_id) ks)
  run_store-IsValid t w ks r = run-IsValid t (new_store w) ks r (new_store-IsValid t w)
