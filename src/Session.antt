-- ===== src/Session.antt =====
-- internal/session/session.go: the saved session of a workspace, how a patch is merged into it, what a view
-- of it tells, and how a chat is cleared. A text is a list of code points. The file of the workspace is
-- the state of the functions that read and write it; the current time's text is an argument, as is the
-- outcome of a write.
pub mod Merged
pub mod ChatGone
mod Tests
use codexlink.Prelude.{
  ℕ, Bool, true, false, not, ◌&&◌, ◌||◌, Option, none, some, List, [], ◌∷◌, ◌++◌, ◌==◌,
  if◌then◌else◌, bytes_eq, Result, ok, err,
}
use codexlink.Prelude.Int.{ℤ, pos}
use codexlink.Prelude.Text.{codes, is_digit, is_lower, is_upper, is_empty, trim_space}
use codexlink.Auth.Resource.{Url, UrlLib}

-- `unset` is the empty string.
pub data Mode : Type 0 where
  unset long_chat project : Mode
  other : List ℕ → Mode

pub record Saved : Type 0 where
  pub url : List ℕ
  pub title : List ℕ
  pub task_id : List ℕ
  pub iteration : ℤ
  pub last_state : List ℕ
  pub saved_at : List ℕ
  pub conversation_mode : Mode
  pub project_url : List ℕ
  pub connector_name : List ℕ

pub record Patch : Type 0 where
  pub url : Option (List ℕ)
  pub title : Option (List ℕ)
  pub task_id : Option (List ℕ)
  pub iteration : Option ℤ
  pub last_state : Option (List ℕ)
  pub conversation_mode : Option Mode
  pub project_url : Option (List ℕ)
  pub connector_name : Option (List ℕ)

pub data Reason : Type 0 where
  new_workspace project_reason existing_long_chat : Reason

pub record View : Type 0 where
  pub mode : Mode
  pub reason : Reason
  pub project_url : Option (List ℕ)
  pub project_ready : Bool
  pub chat_url : Option (List ℕ)
  pub connector_name : Option (List ℕ)
  pub reuse_saved_chat : Bool

pub data Error : Type 0 where
  bad_project_url project_url_required nothing_to_save io : Error

-- What `ClearChat` leaves in the file, and what it returns.
pub record Cleared : Type 0 where
  pub file : Option Saved
  pub cleared : Bool
  pub kept_project : Bool
  pub failure : Option Error

abbrev is_alnum : ℕ → Bool
is_alnum c = is_upper c || is_lower c || is_digit c

-- The text after the prefix, `none` if it does not have it.
unfoldable pub after : List ℕ → List ℕ → Option (List ℕ)
after [] s = some s
after (p ∷ ps) [] = none
after (p ∷ ps) (c ∷ s) = if p == c then after ps s else none

-- `[A-Za-z0-9]+/project/?$`: the run of letters and digits, `seen` telling whether there was one.
unfoldable pub project_name : Bool → List ℕ → Option (List ℕ)
project_name seen [] = none
project_name seen (c ∷ s) =
    let rest = project_name true s in
    if is_alnum c
    then elim rest [ none ↦ none | some name ↦ some (c ∷ name) ]
    else if seen && (bytes_eq (c ∷ s) (codes "/project") || bytes_eq (c ∷ s) (codes "/project/"))
    then some []
    else none

abbrev named : Option (List ℕ) → Option (List ℕ)
named none = none
named (some name) = some (codes "g-p-" ++ name)

abbrev after_prefix : Option (List ℕ) → Option (List ℕ)
after_prefix none = none
after_prefix (some s) = named (project_name false s)

-- `projectPath.FindStringSubmatch(path)[1]`
unfoldable pub match_project : List ℕ → Option (List ℕ)
match_project path = after_prefix (after (codes "/g/g-p-") path)

abbrev pub project_url_of : List ℕ → List ℕ
project_url_of name = codes "https://chatgpt.com/g/" ++ (name ++ codes "/project")

abbrev with_name : Option (List ℕ) → Option (List ℕ)
with_name none = none
with_name (some name) = some (project_url_of name)

unfoldable pub normalize_url : Option Url → Option (List ℕ)
normalize_url none = none
normalize_url (some u) =
    if not (bytes_eq u.scheme (codes "https"))
      || u.has_user
      || not (is_empty u.fragment)
      || (not (bytes_eq u.hostname (codes "chatgpt.com"))
          && not (bytes_eq u.hostname (codes "www.chatgpt.com")))
    then none
    else with_name (match_project u.path)

abbrev or_keep : {A : Type 0} → Option A → A → A
or_keep none a = a
or_keep (some b) a = b

abbrev pub non_empty : List ℕ → Option (List ℕ)
non_empty [] = none
non_empty (c ∷ s) = some (c ∷ s)

abbrev pub is_project : Mode → Bool
is_project project = true
is_project _ = false

abbrev pub is_unset : Mode → Bool
is_unset unset = true
is_unset _ = false

abbrev pub is_given : {A : Type 0} → Option A → Bool
is_given none = false
is_given (some a) = true

-- `Saved{}`
abbrev pub no_session : Saved
no_session = record {
  url = [];
  title = [];
  task_id = [];
  iteration = pos 0;
  last_state = [];
  saved_at = [];
  conversation_mode = unset;
  project_url = [];
  connector_name = [];
}

module _ (lib : UrlLib) where
  -- `NormalizeProjectURL`, `none` for its error.
  unfoldable pub normalize_project_url : List ℕ → Option (List ℕ)
  normalize_project_url value = normalize_url (lib.parse (trim_space value))

  unfoldable pub saved_project : List ℕ → Option (List ℕ)
  saved_project [] = none
  saved_project (c ∷ s) = normalize_project_url (c ∷ s)

  -- `Resolve`
  unfoldable pub resolve : Option Saved → View
  resolve none = record {
    mode = project;
    reason = new_workspace;
    project_url = none;
    project_ready = false;
    chat_url = none;
    connector_name = none;
    reuse_saved_chat = false;
  }
  resolve (some saved) =
      let project_url = saved_project saved.project_url in
      let chat_url = non_empty saved.url in
      if is_project saved.conversation_mode || is_given project_url
      then record {
        mode = project;
        reason = project_reason;
        project_url = project_url;
        project_ready = is_given project_url;
        chat_url = chat_url;
        connector_name = non_empty saved.connector_name;
        reuse_saved_chat = false;
      }
      else record {
        mode = long_chat;
        reason = existing_long_chat;
        project_url = none;
        project_ready = false;
        chat_url = chat_url;
        connector_name = non_empty saved.connector_name;
        reuse_saved_chat = is_given chat_url;
      }

  -- The fields that are copied without a test.
  abbrev pub patched : Saved → Patch → Saved
  patched previous patch = record previous {
    url = or_keep patch.url previous.url;
    title = or_keep patch.title previous.title;
    task_id = or_keep patch.task_id previous.task_id;
    iteration = or_keep patch.iteration previous.iteration;
    last_state = or_keep patch.last_state previous.last_state;
    conversation_mode = or_keep patch.conversation_mode previous.conversation_mode;
    connector_name = or_keep patch.connector_name previous.connector_name;
  }

  unfoldable pub merged_url : Option (List ℕ) → List ℕ → Option (List ℕ)
  merged_url none previous = some previous
  merged_url (some value) previous = normalize_project_url value

  -- The last two tests of `Merge`.
  unfoldable pub checked : Saved → List ℕ → Result Error Saved
  checked next now =
      if is_project next.conversation_mode && is_empty next.project_url
      then err project_url_required
      else if is_empty next.url
          && is_empty next.project_url
          && is_empty next.task_id
          && is_unset next.conversation_mode
      then err nothing_to_save
      else ok (record next { saved_at = now })

  unfoldable pub merge_url : Saved → Option (List ℕ) → List ℕ → Result Error Saved
  merge_url next none now = err bad_project_url
  merge_url next (some value) now = checked (record next { project_url = value }) now

  -- `Merge`
  unfoldable pub merge : Option Saved → Patch → List ℕ → Result Error Saved
  merge none patch now = merge_url (patched no_session patch) (merged_url patch.project_url []) now
  merge (some previous) patch now =
      merge_url (patched previous patch) (merged_url patch.project_url previous.project_url) now

  -- What is written when the project is kept.
  abbrev pub project_only : List ℕ → List ℕ → List ℕ → Saved
  project_only value connector now = record no_session {
    conversation_mode = project;
    project_url = value;
    connector_name = connector;
    saved_at = now;
  }

  abbrev cleared_result : Option Saved → Bool → Bool → Option Error → Cleared
  cleared_result file cleared kept failure = record {
    file = file;
    cleared = cleared;
    kept_project = kept;
    failure = failure;
  }

  -- The end of `ClearChat`, with the project's URL if the view has one.
  unfoldable pub clear_saved : Saved → Option (List ℕ) → List ℕ → Bool → Cleared
  clear_saved saved (some value) now true =
      cleared_result (some (project_only value saved.connector_name now)) true true none
  clear_saved saved (some value) now false = cleared_result (some saved) true true (some io)
  clear_saved saved none now true = cleared_result none true false none
  clear_saved saved none now false = cleared_result (some saved) true false (some io)

  -- `ClearChat` on the file, once it is read; `is_done` tells whether it could be written or removed.
  unfoldable pub clear_chat : Option Saved → List ℕ → Bool → Cleared
  clear_chat none now is_done = cleared_result none false false none
  clear_chat (some saved) now is_done =
      let view = resolve (some saved) in
      clear_saved saved (if is_project view.mode then view.project_url else none) now is_done
