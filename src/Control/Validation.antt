-- ===== src/Control/Validation.antt =====
-- `validateIdentity`, `validateSubmission` and `validateRecord` of internal/control/store.go. `none`
-- is the nil error; each of these functions returns `INVALID_ARGUMENT` and no other error.
use codexlink.Prelude.{
  ℕ, ◌-◌, Bool, true, false, not, ◌&&◌, ◌||◌, Option, none, some, List, [], ◌∷◌, ltb, leb, ◌==◌,
  length, String, str_eq, drop,
}
use codexlink.Prelude.Int.{ℤ, pos, negsuc, int_eq}
use codexlink.Prelude.Text.{
  codes, byte_length, is_digit, is_word, is_empty, trim_space, all_codes, has_prefix,
}
use codexlink.Prelude.Time.{is_zero, before}
use codexlink.Control.{
  State, plan, other, Status, pending, submitted, unknown, PlanStep, Submission, Request, Codec,
  min_ttl, max_ttl, retention, max_response_bytes,
}
use codexlink.Control.Paths.{has_control, is_bad_file}

-- `^cl_[0-9a-f]{8}$`
unfoldable pub is_task_id : String → Bool
is_task_id id =
    has_prefix (codes id) (b'c' ∷ b'l' ∷ b'_' ∷ [])
    && length (drop 3 (codes id)) == 8
    && all_codes (λ c. is_digit c || (leb b'a' c && leb c b'f')) (drop 3 (codes id))

-- `^cr_[A-Za-z0-9_-]{32}$`
unfoldable pub is_request_id : String → Bool
is_request_id id =
    has_prefix (codes id) (b'c' ∷ b'r' ∷ b'_' ∷ [])
    && length (drop 3 (codes id)) == 32
    && all_codes is_word (drop 3 (codes id))

unfoldable pub is_iteration : ℤ → Bool
is_iteration (pos n) = leb n 1_000_000
is_iteration (negsuc n) = false

-- `validateIdentity(taskID, iteration) == nil`
unfoldable pub is_identity : String → ℤ → Bool
is_identity task_id iteration = is_task_id task_id && is_iteration iteration

unfoldable pub is_known : State → Bool
is_known (other s) = false
is_known _ = true

-- The two tests on the number of steps.
unfoldable pub is_plan_size : State → ℕ → Bool
is_plan_size plan n = not (ltb n 1 || ltb 16 n)
is_plan_size _ n = n == 0

unfoldable pub is_bad_text : String → ℕ → Bool
is_bad_text text limit =
    is_empty (trim_space (codes text)) || ltb limit (byte_length text) || has_control (codes text)

unfoldable pub is_bad_test : String → Bool
is_bad_test test = byte_length test == 0 || ltb 1024 (byte_length test) || has_control (codes test)

unfoldable pub any_text : (String → Bool) → List String → Bool
any_text p [] = false
any_text p (x ∷ xs) = p x || any_text p xs

unfoldable pub is_bad_step : PlanStep → Bool
is_bad_step step =
    is_bad_text step.description 2048
    || ltb 32 (length step.files)
    || ltb 16 (length step.tests)
    || any_text is_bad_file step.files
    || any_text is_bad_test step.tests

unfoldable pub any_bad_step : List PlanStep → Bool
any_bad_step [] = false
any_bad_step (s ∷ ss) = is_bad_step s || any_bad_step ss

-- `validateSubmission(in) == nil`
unfoldable pub is_submission : Submission → Bool
is_submission x =
    is_identity x.task_id x.iteration
    && is_request_id x.request_id
    && not (is_bad_text x.summary 4096)
    && is_known x.state
    && is_plan_size x.state (length x.steps)
    && not (any_bad_step x.steps)

module _ (c : Codec) where
  -- The case of a submitted record.
  unfoldable pub is_submitted_record : Request → Option Submission → Option ℕ → Bool
  is_submitted_record r none at = false
  is_submitted_record r (some x) none = false
  is_submitted_record r (some x) (some at) =
      str_eq x.request_id r.request_id
      && str_eq x.task_id r.task_id
      && int_eq x.iteration r.iteration
      && is_submission x
      && not (before at r.created_at)
      && before at r.expires_at
      && leb (r.expires_at - at) retention
      && leb (length (c.marshal x)) max_response_bytes

  unfoldable pub is_pending_record : Request → Option Submission → Option ℕ → Bool
  is_pending_record r none none =
      leb min_ttl (r.expires_at - r.created_at) && leb (r.expires_at - r.created_at) max_ttl
  is_pending_record r _ _ = false

  unfoldable pub is_status_record : Request → Status → Bool
  is_status_record r pending = is_pending_record r r.response r.submitted_at
  is_status_record r submitted = is_submitted_record r r.response r.submitted_at
  is_status_record r (unknown s) = false

  -- `s.validateRecord(r) == nil`, for a record that is not nil.
  unfoldable pub is_record : String → Request → Bool
  is_record workspace_id r =
      int_eq r.schema_version (pos 1)
      && str_eq r.workspace_id workspace_id
      && is_request_id r.request_id
      && not r.reused
      && not (is_zero r.created_at)
      && not (is_zero r.expires_at)
      && before r.created_at r.expires_at
      && is_identity r.task_id r.iteration
      && is_status_record r r.status
