-- ===== src/Control/Store/Preserve/Submit.antt =====
-- `Submit` of internal/control/store.go keeps the store valid.
use Prim.Native.String.{String}
use codexlink.Prelude.{
  ℕ, ◌≤◌, true, false, ◌&&◌, Option, none, some, List, ◌≡◌, refl, arith, eq_iff, length, ok, err,
  ◌∙◌, sym, Bool-cases, Result-cases, inl, inr, leb,
}
use codexlink.Prelude.Assoc.{lookup, insert}
use codexlink.Prelude.Assoc.Laws.{All-lookup, lookup-insert}
use codexlink.Prelude.Int.{ℤ, int_eq_iff}
use codexlink.Control.{
  Request, Submission, Status, pending, submitted, unknown, Codec, max_response_bytes,
}
use codexlink.Control.Validation.{is_record, is_status_record, is_submitted_record, is_submission}
use codexlink.Control.Store.{Env, Store, Outcome, is_live}
use codexlink.Control.Store.Calls.{
  matching, answered, accept, submit_status, submit_matched, submit_kept, submit, receipt,
}
use codexlink.Control.Store.Invariant.{
  IsStored, Entry, IsValidMap, IsValid, IsValidMap-mono, write_again-IsValidMap,
}
use codexlink.Control.Store.Preserve.{save_or-IsValid, expire_first-IsValid, IsValid-mono}

module _ (c : Codec) where
  answered-valid :
      (w : String) (r : Request) (x : Submission) (now : ℕ)
      → is_record c w r ≡ true
      → is_submission x ≡ true
      → x.request_id ≡ r.request_id
      → x.task_id ≡ r.task_id
      → x.iteration ≡ r.iteration
      → length (c.marshal x) ≤ max_response_bytes
      → r.created_at ≤ now
      → is_record c w (answered r x now) ≡ true
  unfolding is_record is_status_record is_submitted_record
  answered-valid w r x now v k i t n l h = ground (
    arith,
    eq_iff x.request_id r.request_id,
    eq_iff x.task_id r.task_id,
    int_eq_iff x.iteration r.iteration,
  )

  -- What an undone overwriting leaves.
  lookup-undone :
      (j id : String) (r r' : Request) (m : List (String × Request))
      → lookup id m ≡ some r
      → lookup j (insert id r (insert id r' m)) ≡ lookup j m
  lookup-undone j id r r' m e =
      ground (arith, lookup-insert j id r (insert id r' m), lookup-insert j id r' m, eq_iff id j)

  undone-IsValid :
      (t : ℕ) (s : Store) (id : String) (r r' : Request)
      → lookup id s.records ≡ some r
      → r'.task_id ≡ r.task_id
      → r'.iteration ≡ r.iteration
      → Entry c s.workspace_id t id r
      → IsValidMap c s.workspace_id t (insert id r' s.records)
      → IsStored s
      → IsValid c t (record s { records = insert id r (insert id r' s.records) })
  undone-IsValid t s id r r' e p q n v d = record {
    map_valid =
        write_again-IsValidMap c id r' r
          (ground (arith, lookup-insert id id r' s.records, eq_iff id id)) (sym p) (sym q) n v;
    stored = λ j. d j ∙ sym (lookup-undone j id r r' s.records e);
  }

  -- Accepting a response.
  module _ (t : ℕ) (s : Store) (r : Request) (x : Submission) (env : Env)
      (found : lookup x.request_id s.records ≡ some r) (task : x.task_id ≡ r.task_id)
      (round : x.iteration ≡ r.iteration) (sound : is_submission x ≡ true)
      (short : length (c.marshal x) ≤ max_response_bytes) (later : t ≤ env.stamped_at)
      (v : IsValid c t s) where
    old_Entry : Entry c s.workspace_id env.stamped_at x.request_id r
    old_Entry =
        All-lookup (Entry c s.workspace_id env.stamped_at) x.request_id r s.records
          (IsValidMap-mono c later v.map_valid).entries found

    answered-Entry :
        Entry c s.workspace_id env.stamped_at x.request_id (answered r x env.stamped_at)
    answered-Entry =
        let n = old_Entry in
        record {
          own_id = n.own_id;
          valid =
              answered-valid s.workspace_id r x env.stamped_at n.valid sound n.own_id task round
                short n.created;
          created = n.created;
        }

    accept-IsValid : IsValid c env.stamped_at (accept c s r x env).0
    unfolding accept
    accept-IsValid =
        let r' = answered r x env.stamped_at in
        let m =
          write_again-IsValidMap c x.request_id r r' found refl refl answered-Entry
            (IsValidMap-mono c later v.map_valid) in
        elim (Bool-cases (is_live env.active_at r)) [
          | inr over ↦ rw over (IsValid-mono c later v)
          | inl live ↦ rw live (
              save_or-IsValid c env.stamped_at
                (record s { records = insert x.request_id r' s.records }) env.second_save
                (record s { records = insert x.request_id r (insert x.request_id r' s.records) })
                (receipt r' x env.stamped_at false) m
                (undone-IsValid env.stamped_at s x.request_id r r' found refl refl old_Entry m
                  v.stored))
        ]

    submit_status-IsValid : (k : Status) → IsValid c env.stamped_at (submit_status c s r x env k).0
    unfolding submit_status
    submit_status-IsValid submitted = IsValid-mono c later v
    submit_status-IsValid pending = accept-IsValid
    submit_status-IsValid (unknown u) = IsValid-mono c later v

  pub matching_ok :
      (task_id : String) (iteration : ℤ) (o : Option Request) (r : Request)
      → matching task_id iteration o ≡ ok r
      → (o ≡ some r) × (task_id ≡ r.task_id) × (iteration ≡ r.iteration)
  unfolding matching
  matching_ok task_id iteration none r e = cc
  matching_ok task_id iteration (some q) r e =
      ground (arith, eq_iff q.task_id task_id, int_eq_iff q.iteration iteration)

  submit_kept-IsValid :
      (t : ℕ) (x : Submission) (env : Env) (o : Outcome (Unit {0}))
      → is_submission x ≡ true
      → length (c.marshal x) ≤ max_response_bytes
      → t ≤ env.stamped_at
      → IsValid c t o.0
      → IsValid c env.stamped_at (submit_kept c x env o).0
  unfolding submit_kept submit_matched
  submit_kept-IsValid t x env (s, err e) k l h v = IsValid-mono c h v
  submit_kept-IsValid t x env (s, ok u) k l h v =
      elim (Result-cases (matching x.task_id x.iteration (lookup x.request_id s.records))) [
        | inl (e, m) ↦ rw (m, submit_matched) (IsValid-mono c h v)
        | inr (r, m) ↦
            let (found, task, round) = matching_ok _ _ _ r m in
            rw (m, submit_matched)
              (submit_status-IsValid t s r x env found task round k l h v r.status)
      ]

  pub submit-IsValid :
      (t : ℕ) (s : Store) (x : Submission) (env : Env)
      → t ≤ env.stamped_at
      → IsValid c t s
      → IsValid c env.stamped_at (submit c s x env).0
  unfolding submit
  submit-IsValid t s x env h v =
      elim (Bool-cases (is_submission x && leb (length (c.marshal x)) max_response_bytes)) [
        | inr bad ↦ rw bad (IsValid-mono c h v)
        | inl good ↦ rw good (
            submit_kept-IsValid t x env _ (ground arith) (ground arith) h
              (expire_first-IsValid c t s x.request_id env _ refl v))
      ]
