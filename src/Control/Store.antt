-- ===== src/Control/Store.antt =====
-- `Store` of internal/control/store.go: one critical section of its mutex is one function from a store
-- to the store that it leaves and the result. The clock's readings and what the file system does to
-- each save are arguments (`Env`). A record's copy (`cloneRequest`) is the record itself.
pub mod Calls
pub mod Identities
pub mod Invariant
pub mod Maps
pub mod Preserve
pub mod History
pub mod Responses
pub mod Exchange
pub mod Reuse
pub mod Loading
mod Tests
use Prim.Native.String.{String as Text}
use codexlink.Prelude.{
  ℕ, zero, suc, ◌+◌, Bool, true, false, not, ◌&&◌, ◌||◌, Option, none, some, List, [], ◌∷◌, ltb,
  leb, ◌==◌, if◌then◌else◌, length, String, str_eq, Result, ok, err, bytes_eq, map,
}
use codexlink.Prelude.Assoc.{lookup, insert, delete, retain}
use codexlink.Prelude.Base64
use codexlink.Prelude.Int.{ℤ, pos, negsuc, int_eq}
use codexlink.Prelude.Text.{str_lt}
use codexlink.Prelude.Time.{before}
use codexlink.Control.{
  State, Status, pending, submitted, unknown, Submission, Request, Receipt, Error, invalid_argument,
  state_too_large, capacity_exceeded, request_expired, request_not_found, request_mismatch,
  response_conflict, invalid_state, io, Codec, default_ttl, min_ttl, max_ttl, retention, max_active,
  max_response_bytes, max_state_bytes,
}
use codexlink.Control.Validation.{is_identity, is_submission, is_record}

-- What one call of `saveLocked` meets: nothing, a location that is refused or cannot be read, or a
-- write (or removal) of the file that fails and leaves the file as it was.
pub data Save : Type 0 where
  clean refused broken : Save

-- The readings of `s.now()` in the order of the code, and the saves. A call that makes fewer of
-- either leaves the rest unread.
pub record Env : Type 0 where
  pub checked_at : ℕ
  pub pruned_at : ℕ
  pub active_at : ℕ
  pub stamped_at : ℕ
  pub first_save : Save
  pub second_save : Save

-- `disk` is what the file holds, `none` if there is none.
pub record Store : Type 0 where
  pub workspace_id : String
  pub records : List (String × Request)
  pub disk : Option (List Request)

-- `sort.Strings` on the identifiers.
unfoldable pub insert_sorted : String × Request → List (String × Request) → List (String × Request)
insert_sorted e [] = e ∷ []
insert_sorted e (f ∷ es) = if str_lt f.0 e.0 then f ∷ insert_sorted e es else e ∷ f ∷ es

unfoldable pub sorted : List (String × Request) → List (String × Request)
sorted [] = []
sorted (e ∷ es) = insert_sorted e (sorted es)

abbrev pub values : List (String × Request) → List Request
values = map (λ e. e.1)

-- Whether `now` has reached the end of the record's time.
abbrev pub is_live : ℕ → Request → Bool
is_live now r = before now r.expires_at

abbrev pub any_expired : ℕ → List (String × Request) → Bool
any_expired now [] = false
any_expired now ((id, r) ∷ m) = not (is_live now r) || any_expired now m

-- The result of a critical section: the store it leaves, and what it returns.
abbrev pub Outcome : Type 0 → Type 0
Outcome A = Store × Result Error A

module _ (c : Codec) where
  -- The part of `saveLocked` after the location is checked.
  unfoldable pub write : Store → Save → List Request → Result Error Store
  write s clean [] = ok (record s { disk = none })
  write s _ [] = err io
  write s e (r ∷ rs) =
      if ltb max_state_bytes (length (c.marshal_records (r ∷ rs)))
      then err state_too_large
      else elim e [ clean ↦ ok (record s { disk = some (r ∷ rs) }) | _ ↦ err io ]

  -- `saveLocked`
  unfoldable pub save : Store → Save → Result Error Store
  save s refused = err io
  save s clean = write s clean (values (sorted s.records))
  save s broken = write s broken (values (sorted s.records))

  -- `pruneAndSaveLocked`
  unfoldable pub prune_and_save : Store → ℕ → Save → Result Error Store
  prune_and_save s now e =
      if any_expired now s.records
      then save (record s { records = retain (is_live now) s.records }) e
      else ok s

  -- `if err := s.saveLocked(); err != nil { undo; return err }`
  abbrev pub save_or : {A : Type 0} → Store → Save → Store → A → Outcome A
  save_or s e undone a = elim (save s e) [ ok s' ↦ (s', ok a) | err x ↦ (undone, err x) ]
