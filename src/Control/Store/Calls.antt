-- ===== src/Control/Store/Calls.antt =====
-- The calls of `Store` in internal/control/store.go: `Prepare`, `Submit`, `Get` and `Cancel`.
use Prim.Native.String.{String as Text}
use codexlink.Prelude.{
  ℕ, zero, suc, ◌+◌, Bool, true, false, ◌&&◌, ◌||◌, Option, none, some, List, [], ◌∷◌, ltb, leb,
  if◌then◌else◌, length, String, str_eq, Result, ok, err, bytes_eq,
}
use codexlink.Prelude.Assoc.{lookup, insert, delete}
use codexlink.Prelude.Base64
use codexlink.Prelude.Int.{ℤ, pos, negsuc, int_eq}
use codexlink.Control.{
  Status, pending, submitted, unknown, Submission, Request, Receipt, Error, invalid_argument,
  capacity_exceeded, request_expired, request_not_found, request_mismatch, response_conflict,
  invalid_state, io, Codec, default_ttl, min_ttl, max_ttl, retention, max_active,
  max_response_bytes,
}
use codexlink.Control.Validation.{is_identity, is_submission}
use codexlink.Control.Store.{Env, Store, Outcome, is_live, save, prune_and_save, save_or}

unfoldable pub find_identity : String → ℤ → List (String × Request) → Option Request
find_identity task_id iteration [] = none
find_identity task_id iteration ((id, r) ∷ m) =
    if str_eq r.task_id task_id && int_eq r.iteration iteration
    then some r
    else find_identity task_id iteration m

-- The time to live of `Prepare`, `none` where it is refused.
unfoldable pub ttl_of : ℤ → Option ℕ
ttl_of (negsuc n) = none
ttl_of (pos zero) = some default_ttl
ttl_of (pos (suc n)) = if ltb (suc n) min_ttl || ltb max_ttl (suc n) then none else some (suc n)

-- `requestID`, from the bytes that `rand.Read` gave.
unfoldable pub request_id : List ℕ → String
request_id bytes = Text.◌∷◌ "c" (Text.◌∷◌ "r" (Text.◌∷◌ "_" (Base64.encode bytes)))

abbrev pub new_request : Store → String → String → ℤ → ℕ → ℕ → Request
new_request s id task_id iteration now ttl = record {
  schema_version = pos 1;
  workspace_id = s.workspace_id;
  request_id = id;
  task_id = task_id;
  iteration = iteration;
  status = pending;
  created_at = now;
  expires_at = now + ttl;
  submitted_at = none;
  response = none;
  reused = false;
}

-- The request under the identifier, if it has the identity that is asked for.
unfoldable pub matching : String → ℤ → Option Request → Result Error Request
matching task_id iteration none = err request_not_found
matching task_id iteration (some r) =
    if str_eq r.task_id task_id && int_eq r.iteration iteration then ok r else err request_mismatch

abbrev pub receipt : Request → Submission → ℕ → Bool → Receipt
receipt r x at duplicate = record {
  accepted = true;
  duplicate = duplicate;
  request_id = r.request_id;
  task_id = r.task_id;
  iteration = r.iteration;
  state = x.state;
  submitted_at = at;
  expires_at = r.expires_at;
}

abbrev pub answered : Request → Submission → ℕ → Request
answered r x now = record r {
  status = submitted;
  submitted_at = some now;
  response = some x;
  expires_at = now + retention;
}

unfoldable pub get_kept : String → String → ℤ → Outcome (Unit {0}) → Outcome Request
get_kept id task_id iteration (s, err e) = (s, err e)
get_kept id task_id iteration (s, ok _) = (s, matching task_id iteration (lookup id s.records))

module _ (c : Codec) where
  -- A new record under a new identifier, and its save.
  unfoldable pub add_request : Store → String → ℤ → ℕ → Env → Option (List ℕ) → Outcome Request
  add_request s task_id iteration ttl env none = (s, err io)
  add_request s task_id iteration ttl env (some bytes) =
      let id = request_id bytes in
      let r = new_request s id task_id iteration env.stamped_at ttl in
      let added = insert id r s.records in
      save_or c (record s { records = added }) env.second_save
        (record s { records = delete id added }) r

  -- The rest of `Prepare` after the pruning, on the request found for the identity.
  unfoldable pub reuse_or_add :
      Store → String → ℤ → ℕ → Env → Option (List ℕ) → Option Request → Outcome Request
  reuse_or_add s task_id iteration ttl env bytes (some r) = (s, ok (record r { reused = true }))
  reuse_or_add s task_id iteration ttl env bytes none =
      if leb max_active (length s.records)
      then (s, err capacity_exceeded)
      else add_request s task_id iteration ttl env bytes

  unfoldable pub prepare_pruned :
      Store → String → ℤ → ℕ → Env → Option (List ℕ) → Result Error Store → Outcome Request
  prepare_pruned s task_id iteration ttl env bytes (err x) = (s, err x)
  prepare_pruned s task_id iteration ttl env bytes (ok s') =
      reuse_or_add s' task_id iteration ttl env bytes (find_identity task_id iteration s'.records)

  unfoldable pub prepare_ttl :
      Store → String → ℤ → Env → Option (List ℕ) → Option ℕ → Outcome Request
  prepare_ttl s task_id iteration env bytes none = (s, err invalid_argument)
  prepare_ttl s task_id iteration env bytes (some ttl) =
      prepare_pruned s task_id iteration ttl env bytes
        (prune_and_save c s env.pruned_at env.first_save)

  -- `Prepare`; `bytes` is what the random source gives, `none` its error.
  unfoldable pub prepare : Store → String → ℤ → ℤ → Env → Option (List ℕ) → Outcome Request
  prepare s task_id iteration ttl env bytes =
      if is_identity task_id iteration
      then prepare_ttl s task_id iteration env bytes (ttl_of ttl)
      else (s, err invalid_argument)

  -- What `Submit` and `Get` do first: a request whose time is over is dropped, and all such are
  -- pruned. A result that is an error is theirs; otherwise they go on with the store.
  unfoldable pub drop_expired : Store → String → Request → Env → Outcome (Unit {0})
  drop_expired s id r env =
      elim (save c (record s { records = delete id s.records }) env.first_save) [
        | ok s' ↦ (s', err request_expired)
        | err x ↦ (record s { records = insert id r (delete id s.records) }, err x)
      ]

  unfoldable pub prune_first : Store → Env → Outcome (Unit {0})
  prune_first s env = elim (prune_and_save c s env.pruned_at env.first_save) [
    | ok s' ↦ (s', ok tt)
    | err x ↦ (s, err x)
  ]

  unfoldable pub expire_first : Store → String → Env → Option Request → Outcome (Unit {0})
  expire_first s id env none = prune_first s env
  expire_first s id env (some r) =
      if is_live env.checked_at r then prune_first s env else drop_expired s id r env

  -- A second answer. A submitted record without response or time, which no record is, would make the
  -- source fail; it is `invalid_state` here.
  unfoldable pub resubmit :
      Request → Submission → Option Submission → Option ℕ → Result Error Receipt
  resubmit r x (some y) (some at) =
      if bytes_eq (c.sha256 (c.marshal y)) (c.sha256 (c.marshal x))
      then ok (receipt r y at true)
      else err response_conflict
  resubmit r x _ _ = err invalid_state

  unfoldable pub accept : Store → Request → Submission → Env → Outcome Receipt
  accept s r x env =
      if is_live env.active_at r
      then (let r' = answered r x env.stamped_at in
          let changed = insert x.request_id r' s.records in
          save_or c (record s { records = changed }) env.second_save
            (record s { records = insert x.request_id r changed })
            (receipt r' x env.stamped_at false))
      else (s, err request_expired)

  unfoldable pub submit_status : Store → Request → Submission → Env → Status → Outcome Receipt
  submit_status s r x env submitted = (s, resubmit r x r.response r.submitted_at)
  submit_status s r x env pending = accept s r x env
  submit_status s r x env (unknown t) = (s, err request_expired)

  unfoldable pub submit_matched : Store → Submission → Env → Result Error Request → Outcome Receipt
  submit_matched s x env (err e) = (s, err e)
  submit_matched s x env (ok r) = submit_status s r x env r.status

  unfoldable pub submit_kept : Submission → Env → Outcome (Unit {0}) → Outcome Receipt
  submit_kept x env (s, err e) = (s, err e)
  submit_kept x env (s, ok _) =
      submit_matched s x env (matching x.task_id x.iteration (lookup x.request_id s.records))

  -- `Submit`
  unfoldable pub submit : Store → Submission → Env → Outcome Receipt
  submit s x env =
      if is_submission x && leb (length (c.marshal x)) max_response_bytes
      then submit_kept x env (expire_first s x.request_id env (lookup x.request_id s.records))
      else (s, err invalid_argument)

  -- `Get`
  unfoldable pub get : Store → String → String → ℤ → Env → Outcome Request
  get s id task_id iteration env =
      if is_identity task_id iteration
      then get_kept id task_id iteration (expire_first s id env (lookup id s.records))
      else (s, err invalid_argument)

  -- The part of `Cancel` that depends on the status of the record found.
  unfoldable pub cancel_status :
      Store → String → Request → Env → Request → Status → Outcome (Request × Bool)
  cancel_status s id got env current pending =
      save_or c (record s { records = delete id s.records }) env.second_save
        (record s { records = insert id current (delete id s.records) }) (got, true)
  cancel_status s id got env current _ = (s, ok (current, false))

  -- The second critical section of `Cancel`, with the record that the first one, `Get`, returned.
  unfoldable pub cancel_found :
      Store → String → Request → Env → Option Request → Outcome (Request × Bool)
  cancel_found s id got env none = (s, err request_not_found)
  cancel_found s id got env (some current) = cancel_status s id got env current current.status

  abbrev pub cancel_locked : Store → String → Request → Env → Outcome (Request × Bool)
  cancel_locked s id got env = cancel_found s id got env (lookup id s.records)

  -- `Cancel`, if no other call comes between its two critical sections.
  unfoldable pub cancel : Store → String → String → ℤ → Env → Outcome (Request × Bool)
  cancel s id task_id iteration env =
      let (s', got) = get s id task_id iteration env in
      elim got [ ok r ↦ cancel_locked s' id r env | err e ↦ (s', err e) ]
