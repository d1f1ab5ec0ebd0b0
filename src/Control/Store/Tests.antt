-- ===== src/Control/Store/Tests.antt =====
-- The store of internal/control/store.go at concrete inputs. The hash is the text itself, and the
-- encoding tells one submission from the others.
use Prim.Native.String.{String}
use codexlink.Prelude.{
  ℕ, ◌+◌, ◌*◌, ◌≤◌, Bool, true, false, ◌&&◌, none, some, List, [], ◌∷◌, ◌≡◌, refl, arith, str_eq,
  eq_iff, ok, if◌then◌else◌, ◌<◌, length, err, zero,
}
use codexlink.Prelude.Assoc.{lookup, insert, delete, retain}
use codexlink.Prelude.Base64.{encode}
use codexlink.Prelude.Int.{ℤ, pos, int_eq, int_eq_iff}
use codexlink.Prelude.Text.{is_space, trim_left, trim_space, all_codes, any_code, has_prefix}
use codexlink.Control.Paths.{has_control, is_bad_file}
use codexlink.Control.Validation.{
  is_task_id, is_request_id, is_iteration, is_identity, is_known, is_plan_size, is_bad_text,
  is_bad_test, any_text, is_bad_step, any_bad_step, is_submission,
}
use codexlink.Control.{
  State, plan, done, blocked, error, other, pending, PlanStep, Submission, Request, Codec, done,
  hour, max_state_bytes, state_too_large,
}
use codexlink.Control.Store.{
  clean as clean_save, Env, Store, insert_sorted, sorted, write, save, prune_and_save, suc, length,
  err,
}
use codexlink.Control.Store.Calls.{
  find_identity, ttl_of, request_id, add_request, reuse_or_add, prepare_pruned, prepare_ttl,
  prepare, drop_expired, prune_first, expire_first, matching, resubmit, accept, submit_status,
  submit_matched, submit_kept, submit, get_kept, get, cancel_status, cancel_found, receipt,
  answered,
}
use codexlink.Control.Store.Exchange.{Holds, TellsApart, submit-Holds}
use codexlink.Control.Store.History.{
  prepares, submits, gets, cancels, new_store, step, run, run_time, run_store-IsValid,
  new_store-IsValid, step-IsValid,
}
use codexlink.Control.Store.Invariant.{IsValid}
use codexlink.Control.Store.Preserve.{InOrder}
use codexlink.Control.Store.Responses.{Keeps}
use codexlink.Control.Store.Responses.Kept.{step_submitted}
use codexlink.Control.Store.Loading.{load}
use codexlink.Control.Store.Loading.Reload.{load-save, load-save_limit}

validation : Unit {0}
unfolding is_space trim_left trim_space all_codes any_code has_prefix has_control is_bad_file
    is_task_id is_request_id is_iteration is_identity is_known is_plan_size is_bad_text is_bad_test
    any_text is_bad_step any_bad_step is_submission int_eq encode request_id
validation = tt

program : Unit {0}
unfolding validation lookup insert delete retain insert_sorted sorted write save prune_and_save
    find_identity ttl_of add_request reuse_or_add prepare_pruned prepare_ttl prepare drop_expired
    prune_first expire_first matching resubmit accept submit_status submit_matched submit_kept
    submit get_kept get cancel_status cancel_found step run run_time new_store
program = tt

abbrev bytes : List ℕ
bytes =
    0 ∷ 0 ∷ 0 ∷ 0 ∷ 0 ∷ 0 ∷ 0 ∷ 0 ∷ 0 ∷ 0 ∷ 0 ∷ 0 ∷ 0 ∷ 0 ∷ 0 ∷ 0 ∷ 0 ∷ 0 ∷ 0 ∷ 0 ∷ 0 ∷ 0 ∷ 0 ∷ 0
    ∷ []

abbrev id : String
id = "cr_AAAAAAAAAAAAAAAAAAAAAAAAAAAAAAAA"

abbrev task : String
task = "cl_0123abcd"

abbrev answer : Submission
answer = record {
  request_id = id;
  task_id = task;
  iteration = pos 2;
  state = done;
  summary = "all good";
  steps = [];
}

is_answer : String → String → ℤ → State → String → List PlanStep → Bool
is_answer a t i done m [] = str_eq a id && str_eq t task && int_eq i (pos 2) && str_eq m "all good"
is_answer a t i _ m _ = false

marshal : Submission → List ℕ
marshal y =
    if is_answer y.request_id y.task_id y.iteration y.state y.summary y.steps then 1 ∷ [] else []

abbrev codec : Codec
codec = record { marshal = marshal; marshal_records = λ rs. []; sha256 = λ b. b }

abbrev env : ℕ → Env
env t = record {
  checked_at = t;
  pruned_at = t;
  active_at = t;
  stamped_at = t;
  first_save = clean_save;
  second_save = clean_save;
}

abbrev offered : Request
offered = record {
  schema_version = pos 1;
  workspace_id = "w";
  request_id = id;
  task_id = task;
  iteration = pos 2;
  status = pending;
  created_at = 1;
  expires_at = 1 + 2 * hour;
  submitted_at = none;
  response = none;
  reused = false;
}

abbrev offering : Store
offering = record { workspace_id = "w"; records = (id, offered) ∷ []; disk = some (offered ∷ []) }

abbrev taken : Request
taken = answered offered answer 2

abbrev answered_store : Store
answered_store = record { workspace_id = "w"; records = (id, taken) ∷ []; disk = some (taken ∷ []) }

abbrev build : String → String → ℤ → State → String → List PlanStep → Submission
build a t i st m ss = record {
  request_id = a;
  task_id = t;
  iteration = i;
  state = st;
  summary = m;
  steps = ss;
}

is_answer_lem :
    (a t : String) (i : ℤ) (st : State) (m : String) (ss : List PlanStep)
    → is_answer a t i st m ss ≡ true
    → build a t i st m ss ≡ answer
unfolding is_answer
is_answer_lem a t i done m [] h =
    let (e, f, g, k) : (a ≡ id) × (t ≡ task) × (i ≡ pos 2) × (m ≡ "all good") =
      ground (arith, eq_iff a id, eq_iff t task, int_eq_iff i (pos 2), eq_iff m "all good") in
    λ j. record {
      request_id = e j;
      task_id = f j;
      iteration = g j;
      state = done;
      summary = k j;
      steps = [];
    }
is_answer_lem a t i done m (x ∷ ss) h = absurd (ground arith)
is_answer_lem a t i plan m ss h = absurd (ground arith)
is_answer_lem a t i blocked m ss h = absurd (ground arith)
is_answer_lem a t i error m ss h = absurd (ground arith)
is_answer_lem a t i (other o) m ss h = absurd (ground arith)

tells : TellsApart codec answer
unfolding marshal is_answer int_eq
tells y h =
    is_answer_lem y.request_id y.task_id y.iteration y.state y.summary y.steps (ground arith)

in_order : {t u : ℕ} → 0 < t → t ≤ u → InOrder t (env u)
in_order h k = record {
  checked = k;
  pruned = omega arith;
  active = omega arith;
  stamped = omega arith;
  started = h;
}

prepared :
    prepare codec (new_store "w") task (pos 2) (pos 0) (env 1) (some bytes) ≡ (offering, ok offered)
unfolding program
prepared = refl

submitted_once :
    submit codec offering answer (env 2) ≡ (answered_store, ok (receipt taken answer 2 false))
unfolding program marshal is_answer
submitted_once = refl

run_store-IsValid_example : IsValid codec 3 (
    run codec (new_store "w") (
      prepares task (pos 2) (pos 0) (some bytes) (env 1)
      ∷ submits answer (env 2)
      ∷ gets id task (pos 2) (env 3)
      ∷ []))
unfolding program marshal is_answer
run_store-IsValid_example =
    run_store-IsValid codec 1 "w"
      (prepares task (pos 2) (pos 0) (some bytes) (env 1)
        ∷ submits answer (env 2)
        ∷ gets id task (pos 2) (env 3)
        ∷ [])
      (
        in_order (omega arith) (omega arith),
        (tt, refl),
        (in_order (omega arith) (omega arith), tt, (in_order (omega arith) (omega arith), tt, tt)),
      )

answered_store-IsValid : IsValid codec 2 answered_store
unfolding program marshal is_answer
answered_store-IsValid =
    step-IsValid codec 1 offering (submits answer (env 2)) (in_order (omega arith) (omega arith)) tt
      (step-IsValid codec 1 (new_store "w") (prepares task (pos 2) (pos 0) (some bytes) (env 1))
        (in_order (omega arith) (omega arith)) (tt, refl) (new_store-IsValid codec 1 "w"))

step_submitted_example :
    Keeps codec id taken 3 (step codec answered_store (cancels id taken (env 3)))
unfolding program marshal is_answer
step_submitted_example =
    step_submitted codec 2 answered_store (cancels id taken (env 3)) id taken answered_store-IsValid
      (in_order (omega arith) (omega arith)) tt refl refl

submit-Holds_example : Holds codec answered_store answer 2
unfolding program marshal is_answer
submit-Holds_example =
    submit-Holds codec offering answer (env 2) {q = receipt taken answer 2 false} tells
      submitted_once

saved : save codec answered_store clean_save ≡ ok answered_store
unfolding program
saved = refl

load-save_example :
    (m : List (String × Request)) × (load codec "w" answered_store.disk ≡ ok m)
    × ((k : String) → lookup k m ≡ lookup k answered_store.records)
load-save_example =
    load-save codec 2 answered_store {s' = answered_store} answered_store-IsValid.map_valid
      (omega arith) saved

zeros : ℕ → List ℕ
zeros zero = []
zeros (suc n) = 0 ∷ zeros n

length-zeros : (n : ℕ) → length (zeros n) ≡ n
unfolding zeros
length-zeros zero = refl
length-zeros (suc n) = omega (arith, length-zeros n)

abbrev wide : Codec
wide = record codec { marshal_records = λ rs. zeros max_state_bytes }

load-save_limit_example :
    (s' : Store) × (save wide answered_store clean_save ≡ ok s')
    × (load wide "w" s'.disk ≡ err state_too_large)
unfolding sorted insert_sorted
load-save_limit_example =
    load-save_limit wide answered_store (λ e. ground (arith, e)) (length-zeros max_state_bytes)
