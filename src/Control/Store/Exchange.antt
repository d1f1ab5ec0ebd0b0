-- ===== src/Control/Store/Exchange.antt =====
-- One exchange through the store of internal/control/store.go: what a receipt of `Submit` promises, and
-- what a second answer and a second `Prepare` get.
use mathlib.Core.Path.{subst}
use Prim.Native.String.{String}
use codexlink.Prelude.{
  ℕ, true, false, ◌&&◌, Option, none, some, ◌≡◌, refl, arith, eq_iff, if◌then◌else◌, length, ok,
  err, ◌∙◌, ap, Bool-cases, Result-cases, inl, inr, leb,
}
use codexlink.Prelude.Assoc.{lookup, insert}
use codexlink.Prelude.Assoc.Laws.{lookup-insert}
use codexlink.Prelude.Int.{ℤ, int_eq_iff}
use codexlink.Control.{
  Request, Submission, Status, pending, submitted, unknown, Codec, max_response_bytes,
}
use codexlink.Control.Validation.{is_submission}
use codexlink.Control.Store.{
  Save, Env, Store, Outcome, is_live, any_expired, save, prune_and_save, save_or,
}
use codexlink.Control.Store.Calls.{
  prune_first, expire_first, matching, answered, accept, submit_status, submit_matched, submit_kept,
  submit, receipt,
}
use codexlink.Control.Store.Preserve.Submit.{matching_ok}
use codexlink.Control.{Receipt, response_conflict}
use codexlink.Control.Store.Calls.{resubmit}
use codexlink.Control.Store.Responses.{save_records}
use codexlink.Prelude.{bytes_eq, bytes_eq_iff}

module _ (c : Codec) where
  -- The store holds the answer `x`, given at `at`.
  abbrev pub Holds : Store → Submission → ℕ → Type 0
  Holds s x at =
      (r : Request) × (lookup x.request_id s.records ≡ some r)
      × (r.status ≡ submitted)
      × (r.response ≡ some x)
      × (r.submitted_at ≡ some at)

  save_or-Holds :
      (s : Store) (e : Save) (undone : Store) (x : Submission) (r : Request) (now : ℕ) (q : Receipt)
      {s' : Store} {q' : Receipt}
      → lookup x.request_id s.records ≡ some (answered r x now)
      → save_or c s e undone q ≡ (s', ok q')
      → Holds s' x now × (q ≡ q')
  save_or-Holds s e undone x r now q h k = elim (Result-cases (save c s e)) [
    | inl (err', n) ↦ absurd (ground (arith, k, n))
    | inr (t, n) ↦
        let m = save_records c s e n in
        ((answered r x now, ground (arith, k, n, m), refl, refl, refl), ground (arith, k, n))
  ]

  accept-Holds :
      (s : Store) (r : Request) (x : Submission) (env : Env) {s' : Store} {q : Receipt}
      → accept c s r x env ≡ (s', ok q)
      → Holds s' x q.submitted_at
  unfolding accept
  accept-Holds s r x env {s'} {q} k =
      let r' = answered r x env.stamped_at in
      elim (Bool-cases (is_live env.active_at r)) [
        | inr over ↦ absurd (ground (arith, k, over))
        | inl live ↦
            let (h, e) =
              save_or-Holds (record s { records = insert x.request_id r' s.records })
                env.second_save
                (record s { records = insert x.request_id r (insert x.request_id r' s.records) }) x
                r env.stamped_at (receipt r' x env.stamped_at false)
                (ground (
                  arith,
                  lookup-insert x.request_id x.request_id r' s.records,
                  eq_iff x.request_id x.request_id,
                ))
                (rw live at k) in
            subst (λ (z : Receipt). Holds s' x z.submitted_at) e h
      ]

  -- No other submission has the hash of `x`.
  abbrev pub TellsApart : Submission → Type 0
  TellsApart x = (y : Submission) → c.sha256 (c.marshal y) ≡ c.sha256 (c.marshal x) → y ≡ x

  resubmit-Holds :
      (s : Store) (r : Request) (x : Submission) (o : Option Submission) (a : Option ℕ)
      {q : Receipt}
      → TellsApart x
      → lookup x.request_id s.records ≡ some r
      → r.status ≡ submitted
      → r.response ≡ o
      → r.submitted_at ≡ a
      → resubmit c r x o a ≡ ok q
      → Holds s x q.submitted_at
  unfolding resubmit
  resubmit-Holds s r x none a tells e p o h k = absurd (ground arith)
  resubmit-Holds s r x (some y) none tells e p o h k = absurd (ground arith)
  resubmit-Holds s r x (some y) (some at) {q} tells e p o h k =
      elim (Bool-cases (bytes_eq (c.sha256 (c.marshal y)) (c.sha256 (c.marshal x)))) [
        | inr differ ↦ absurd (ground (arith, k, differ))
        | inl same ↦
            let eq = tells y ((bytes_eq_iff _ _).0 same) in
            (r, e, p, o ∙ ap some eq, h ∙ ground (arith, k, same))
      ]

  submit_status-Holds :
      (s : Store) (r : Request) (x : Submission) (env : Env) (k : Status) {s' : Store} {q : Receipt}
      → TellsApart x
      → lookup x.request_id s.records ≡ some r
      → r.status ≡ k
      → submit_status c s r x env k ≡ (s', ok q)
      → Holds s' x q.submitted_at
  unfolding submit_status
  submit_status-Holds s r x env submitted {s'} {q} tells e p k =
      let h =
        resubmit-Holds s r x r.response r.submitted_at {q = q} tells e p refl refl
          (ap (λ (z : Outcome Receipt). z.1) k) in
      subst (λ (z : Store). Holds z x q.submitted_at) (ap (λ (z : Outcome Receipt). z.0) k) h
  submit_status-Holds s r x env pending tells e p k = accept-Holds s r x env k
  submit_status-Holds s r x env (unknown u) tells e p k = absurd (ground arith)

  submit_kept-Holds :
      (x : Submission) (env : Env) (o : Outcome (Unit {0})) {s' : Store} {q : Receipt}
      → TellsApart x
      → submit_kept c x env o ≡ (s', ok q)
      → Holds s' x q.submitted_at
  unfolding submit_kept submit_matched
  submit_kept-Holds x env (s, err e) tells k = absurd (ground arith)
  submit_kept-Holds x env (s, ok u) tells k =
      elim (Result-cases (matching x.task_id x.iteration (lookup x.request_id s.records))) [
        | inl (e, m) ↦ absurd (ground (arith, k, m))
        | inr (r, m) ↦
            let (found, _, _) = matching_ok c _ _ _ r m in
            submit_status-Holds s r x env r.status tells found refl (rw m at k)
      ]

  -- If no other submission has its hash, a submission that `Submit` gives a receipt for is in the
  -- store that it leaves, given at the receipt's time, whether it was taken now or before.
  pub submit-Holds :
      (s : Store) (x : Submission) (env : Env) {s' : Store} {q : Receipt}
      → TellsApart x
      → submit c s x env ≡ (s', ok q)
      → Holds s' x q.submitted_at
  unfolding submit
  submit-Holds s x env tells k =
      elim (Bool-cases (is_submission x && leb (length (c.marshal x)) max_response_bytes)) [
        | inr bad ↦ absurd (ground (arith, k, bad))
        | inl good ↦ submit_kept-Holds x env _ tells (rw good at k)
      ]

  pub prune_and_save_quiet :
      (s : Store) (now : ℕ) (e : Save)
      → any_expired now s.records ≡ false
      → prune_and_save c s now e ≡ ok s
  unfolding prune_and_save
  prune_and_save_quiet s now e q = rw q

  prune_first_quiet :
      (s : Store) (env : Env)
      → any_expired env.pruned_at s.records ≡ false
      → prune_first c s env ≡ (s, ok tt)
  unfolding prune_first
  prune_first_quiet s env q =
      rw (prune_and_save_quiet s env.pruned_at env.first_save q, prune_first)

  expire_first_quiet :
      (s : Store) (id : String) (env : Env) (o : Option Request)
      → ((r : Request) → o ≡ some r → is_live env.checked_at r ≡ true)
      → any_expired env.pruned_at s.records ≡ false
      → expire_first c s id env o ≡ (s, ok tt)
  unfolding expire_first
  expire_first_quiet s id env none l q = prune_first_quiet s env q
  expire_first_quiet s id env (some r) l q = rw (l r refl) (prune_first_quiet s env q)

  matching_same :
      (task_id : String) (iteration : ℤ) (o : Option Request) (r : Request)
      → o ≡ some r
      → task_id ≡ r.task_id
      → iteration ≡ r.iteration
      → matching task_id iteration o ≡ ok r
  unfolding matching
  matching_same task_id iteration none r e t i = cc
  matching_same task_id iteration (some q) r e t i =
      ground (arith, eq_iff q.task_id task_id, int_eq_iff q.iteration iteration)

  submit_status_again :
      (s : Store) (r : Request) (x y : Submission) (at : ℕ) (env : Env) (k : Status)
      → k ≡ submitted
      → r.response ≡ some y
      → r.submitted_at ≡ some at
      → submit_status c s r x env k ≡ (
        s,
        if bytes_eq (c.sha256 (c.marshal y)) (c.sha256 (c.marshal x))
            then ok (receipt r y at true)
            else err response_conflict,
      )
  unfolding submit_status resubmit
  submit_status_again s r x y at env submitted p o a = ground arith
  submit_status_again s r x y at env pending p o a = cc
  submit_status_again s r x y at env (unknown u) p o a = cc

  -- A second valid answer with the request's identity, while nothing in the store is out of time,
  -- changes nothing, also no time: with the same hash it gets the receipt of the first, marked as a
  -- duplicate, and otherwise it is a conflict.
  pub submit_again :
      (s : Store) (r : Request) (x y : Submission) (at : ℕ) (env : Env)
      → lookup x.request_id s.records ≡ some r
      → r.status ≡ submitted
      → r.response ≡ some y
      → r.submitted_at ≡ some at
      → x.task_id ≡ r.task_id
      → x.iteration ≡ r.iteration
      → (is_submission x && leb (length (c.marshal x)) max_response_bytes) ≡ true
      → is_live env.checked_at r ≡ true
      → any_expired env.pruned_at s.records ≡ false
      → submit c s x env ≡ (
        s,
        if bytes_eq (c.sha256 (c.marshal y)) (c.sha256 (c.marshal x))
            then ok (receipt r y at true)
            else err response_conflict,
      )
  unfolding submit submit_kept submit_matched
  submit_again s r x y at env e p o a t i good live quiet = rw good (
      ap (submit_kept c x env) (
        expire_first_quiet s x.request_id env (lookup x.request_id s.records)
          (λ q f. ground (arith, e, f, live)) quiet)
      ∙ ap (submit_matched c s x env)
          (matching_same x.task_id x.iteration (lookup x.request_id s.records) r e t i)
      ∙ submit_status_again s r x y at env r.status p o a)
