-- ===== src/Control/Store/Loading.antt =====
-- The loading part of `NewStore` in internal/control/store.go: what of a file that can be read and decoded
-- becomes the store. What the file system refuses is the argument of the saves.
pub mod Apart
pub mod Reload
use codexlink.Prelude.{
  ℕ, ◌+◌, Bool, true, false, not, ◌&&◌, ◌||◌, Option, none, some, List, [], ◌∷◌, ltb, leb,
  if◌then◌else◌, length, String, str_eq, Result, ok, err,
}
use codexlink.Prelude.Assoc.{lookup, insert, delete}
use codexlink.Prelude.Text.{codes, byte_length, is_word, is_empty, trim_space, all_codes}
use codexlink.Control.{
  Request, Error, state_too_large, capacity_exceeded, invalid_state, invalid_argument, Codec,
  max_active, max_state_bytes,
}
use codexlink.Control.Validation.{is_record}
use codexlink.Control.Store.{Env, Store, Outcome, save, prune_and_save}
use codexlink.Control.Store.Calls.{find_identity}

abbrev pub is_taken : Option Request → Bool
is_taken none = false
is_taken (some r) = true

-- `^[A-Za-z0-9_-]{1,128}$`
unfoldable pub is_workspace_id : String → Bool
is_workspace_id id =
    leb 1 (length (codes id)) && leb (length (codes id)) 128 && all_codes is_word (codes id)

-- Whether a request of the map has the identifier, or the task and iteration (`seenTuple`).
abbrev pub is_seen : Request → List (String × Request) → Bool
is_seen r m = is_taken (lookup r.request_id m) || is_taken (find_identity r.task_id r.iteration m)

abbrev is_empty_map : List (String × Request) → Bool
is_empty_map [] = true
is_empty_map (e ∷ m) = false

module _ (c : Codec) where
  -- The loop over the decoded requests.
  unfoldable pub load_records :
      String → List Request → List (String × Request) → Result Error (List (String × Request))
  load_records w [] m = ok m
  load_records w (r ∷ rs) m =
      let rest = load_records w rs (insert r.request_id r m) in
      if not (is_record c w r)
      then err invalid_state
      else if is_seen r m
      then err invalid_state
      else rest

  -- The tests before the loop; the file has a newline after the encoded requests.
  unfoldable pub load : String → Option (List Request) → Result Error (List (String × Request))
  load w none = ok []
  load w (some rs) =
      if ltb max_state_bytes (length (c.marshal_records rs) + 1)
      then err state_too_large
      else if ltb max_active (length rs)
      then err capacity_exceeded
      else load_records w rs []

  -- The pruning and the removal of an empty file at the end of `NewStore`.
  unfoldable pub settle :
      Option (List Request) → Env → Store → Result Error Store → Outcome (Unit {0})
  settle file env s (err e) = (s, err e)
  settle none env s (ok s') = (s', ok tt)
  settle (some rs) env s (ok s') =
      if is_empty_map s'.records
      then elim (save c s' env.second_save) [ ok t ↦ (t, ok tt) | err e ↦ (s', err e) ]
      else (s', ok tt)

  unfoldable pub open_loaded :
      String
      → Option (List Request)
      → Env
      → Result Error (List (String × Request))
      → Result Error (Outcome (Unit {0}))
  open_loaded w file env (err e) = err e
  open_loaded w file env (ok m) =
      let s : Store = record { workspace_id = w; records = m; disk = file } in
      ok (settle file env s (prune_and_save c s env.pruned_at env.first_save))

  -- `NewStore`: an error that leaves no store, or the store with the error of its pruning, if any.
  unfoldable pub open_store :
      String → String → Option (List Request) → Env → Result Error (Outcome (Unit {0}))
  open_store workspace_root w file env =
      if not (is_workspace_id w) || is_empty (trim_space (codes workspace_root))
      then err invalid_argument
      else open_loaded w file env (load w file)
