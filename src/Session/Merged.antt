-- ===== src/Session/Merged.antt =====
-- What `Merge` of internal/session/session.go returns.
use codexlink.Prelude.{
  ℕ, true, false, ◌&&◌, Option, none, some, List, ok, ◌≡◌, refl, arith, ◌∙◌, ap, Result, err, [],
  ◌∷◌, Bool-cases, inl, inr,
}
use codexlink.Prelude.Text.{is_empty}
use codexlink.Auth.Resource.{UrlLib}
use codexlink.Session.{
  Error, bad_project_url, project_url_required, nothing_to_save, io, project, unset, long_chat,
  other, Mode, normalize_project_url, Saved, Patch, or_keep, is_project, is_unset, no_session,
  patched, merged_url, checked, merge_url, merge,
}

-- What may be saved: a project session has its URL, and there is something to save.
abbrev pub IsSavable : Saved → Type 0
IsSavable s =
    ((is_project s.conversation_mode && is_empty s.project_url) ≡ false)
    × ((is_empty s.url
          && is_empty s.project_url
          && is_empty s.task_id
          && is_unset s.conversation_mode)
        ≡ false)

-- A field of the session after a patch, by what it was before.
abbrev pub Field : {A : Type 0} → Option A → A → A → Type 0
Field none old new = new ≡ old
Field (some value) old new = new ≡ value

Field-or_keep : {A : Type 0} (o : Option A) (old : A) → Field o old (or_keep o old)
Field-or_keep none old = refl
Field-or_keep (some value) old = refl

or_keep_twice : {A : Type 0} (o : Option A) (a : A) → or_keep o (or_keep o a) ≡ or_keep o a
or_keep_twice none a = refl
or_keep_twice (some b) a = refl

is_empty→nil : (s : List ℕ) → is_empty s ≡ true → s ≡ []
is_empty→nil [] e = refl
is_empty→nil (c ∷ cs) e = absurd (ground arith)

is_project→eq : (m : Mode) → is_project m ≡ true → m ≡ project
is_project→eq project e = refl
is_project→eq unset e = absurd (ground arith)
is_project→eq long_chat e = absurd (ground arith)
is_project→eq (other s) e = absurd (ground arith)

is_unset→eq : (m : Mode) → is_unset m ≡ true → m ≡ unset
is_unset→eq unset e = refl
is_unset→eq project e = absurd (ground arith)
is_unset→eq long_chat e = absurd (ground arith)
is_unset→eq (other s) e = absurd (ground arith)

module _ (lib : UrlLib) where
  checked_again :
      (s : Saved) (now : List ℕ)
      → IsSavable s
      → checked lib s now ≡ ok (record s { saved_at = now })
  unfolding checked
  checked_again s now v = ground (arith, v)

  merged_url_again :
      (o : Option (List ℕ)) (previous value : List ℕ)
      → merged_url lib o previous ≡ some value
      → merged_url lib o value ≡ some value
  unfolding merged_url
  merged_url_again none previous value q = refl
  merged_url_again (some v) previous value q = q

  abbrev before : Option Saved → Saved
  before none = no_session
  before (some s) = s

  merge-before :
      (o : Option Saved) (patch : Patch) (now : List ℕ)
      → merge lib o patch now
        ≡ merge_url lib
            (patched lib (before o) patch)
            (merged_url lib patch.project_url (before o).project_url)
            now
  unfolding merge
  merge-before none patch now = refl
  merge-before (some s) patch now = refl

  patched_again :
      (s : Saved) (patch : Patch) (value now : List ℕ)
      → patched lib (record (patched lib s patch) { project_url = value; saved_at = now }) patch
        ≡ record (patched lib s patch) { project_url = value; saved_at = now }
  patched_again s patch value now = λ i. record {
    url = or_keep_twice patch.url s.url i;
    title = or_keep_twice patch.title s.title i;
    task_id = or_keep_twice patch.task_id s.task_id i;
    iteration = or_keep_twice patch.iteration s.iteration i;
    last_state = or_keep_twice patch.last_state s.last_state i;
    saved_at = now;
    conversation_mode = or_keep_twice patch.conversation_mode s.conversation_mode i;
    project_url = value;
    connector_name = or_keep_twice patch.connector_name s.connector_name i;
  }

  -- The same patch, merged into what came of it.
  merged_twice :
      (old : Saved) (patch : Patch) (value now later : List ℕ)
      → merged_url lib patch.project_url old.project_url ≡ some value
      → IsSavable (record (patched lib old patch) { project_url = value })
      → merge lib
          (some (record (patched lib old patch) { project_url = value; saved_at = now }))
          patch
          later
        ≡ ok (record (patched lib old patch) { project_url = value; saved_at = later })
  merged_twice old patch value now later u v =
      let n = record (patched lib old patch) { project_url = value; saved_at = now } in
      merge-before (some n) patch later
      ∙ ap (λ z. merge_url lib z (merged_url lib patch.project_url value) later)
          (patched_again old patch value now)
      ∙ ap (λ z. merge_url lib n z later)
          (merged_url_again patch.project_url old.project_url value u)
      ∙ unfold merge_url in checked_again n later v

  -- The project's URL after a patch.
  abbrev pub UrlField : Option (List ℕ) → List ℕ → List ℕ → Type 0
  UrlField none old new = new ≡ old
  UrlField (some value) old new = normalize_project_url lib value ≡ some new

  -- The second session has what the patch gives, with the URL of the project normalized, and what the first
  -- one has for the rest.
  pub record IsPatched (patch : Patch) (old new : Saved) : Type 0 where
    pub url : Field patch.url old.url new.url
    pub title : Field patch.title old.title new.title
    pub task_id : Field patch.task_id old.task_id new.task_id
    pub iteration : Field patch.iteration old.iteration new.iteration
    pub last_state : Field patch.last_state old.last_state new.last_state
    pub mode : Field patch.conversation_mode old.conversation_mode new.conversation_mode
    pub connector : Field patch.connector_name old.connector_name new.connector_name
    pub project_url : UrlField patch.project_url old.project_url new.project_url

  -- What a result of `Merge` tells of the session before, the patch and the time, and of merging the patch
  -- once more.
  abbrev pub Merges : Saved → Patch → List ℕ → List ℕ → Result Error Saved → Type 0
  Merges old patch now later (ok new) =
      IsPatched patch old new
      × (new.saved_at ≡ now)
      × IsSavable new
      × (merge lib (some new) patch later ≡ ok (record new { saved_at = later }))
  Merges old patch now later (err bad_project_url) =
      (value : List ℕ) × (patch.project_url ≡ some value) × (normalize_project_url lib value ≡ none)
  Merges old patch now later (err project_url_required) =
      (new : Saved) × IsPatched patch old new
      × (new.conversation_mode ≡ project)
      × (new.project_url ≡ [])
  Merges old patch now later (err nothing_to_save) =
      (new : Saved) × IsPatched patch old new
      × (new.conversation_mode ≡ unset)
      × (new.url ≡ [])
      × (new.project_url ≡ [])
      × (new.task_id ≡ [])
  Merges old patch now later (err io) = ⊥

  merged_url-UrlField :
      (o : Option (List ℕ)) (old value : List ℕ)
      → merged_url lib o old ≡ some value
      → UrlField o old value
  unfolding merged_url
  merged_url-UrlField none old value e = ground (arith, e)
  merged_url-UrlField (some v) old value e = e

  patched-IsPatched :
      (old : Saved) (patch : Patch) (value now : List ℕ)
      → merged_url lib patch.project_url old.project_url ≡ some value
      → IsPatched patch old (record (patched lib old patch) { project_url = value; saved_at = now })
  patched-IsPatched old patch value now e = record {
    url = Field-or_keep patch.url old.url;
    title = Field-or_keep patch.title old.title;
    task_id = Field-or_keep patch.task_id old.task_id;
    iteration = Field-or_keep patch.iteration old.iteration;
    last_state = Field-or_keep patch.last_state old.last_state;
    mode = Field-or_keep patch.conversation_mode old.conversation_mode;
    connector = Field-or_keep patch.connector_name old.connector_name;
    project_url = merged_url-UrlField patch.project_url old.project_url value e;
  }

  at_time :
      {patch : Patch} {old new : Saved} (now : List ℕ)
      → IsPatched patch old new
      → IsPatched patch old (record new { saved_at = now })
  at_time now v = record {
    url = v.url;
    title = v.title;
    task_id = v.task_id;
    iteration = v.iteration;
    last_state = v.last_state;
    mode = v.mode;
    connector = v.connector;
    project_url = v.project_url;
  }

  checked-Merges :
      (old : Saved) (patch : Patch) (n : Saved) (now later : List ℕ)
      → IsPatched patch old n
      → (IsSavable n
          → merge lib (some (record n { saved_at = now })) patch later
            ≡ ok (record n { saved_at = later }))
      → Merges old patch now later (checked lib n now)
  unfolding checked
  checked-Merges old patch n now later v again =
      elim (Bool-cases (is_project n.conversation_mode && is_empty n.project_url)) [
        | inl required ↦ rw required (
          n,
          v,
          is_project→eq n.conversation_mode (ground (arith, required)),
          is_empty→nil n.project_url (ground (arith, required)),
        )
        | inr fine ↦
            elim (Bool-cases (
              is_empty n.url
              && is_empty n.project_url
              && is_empty n.task_id
              && is_unset n.conversation_mode)) [
                | inl nothing ↦
                    rw (fine, nothing)
                      (
                        n,
                        v,
                        is_unset→eq n.conversation_mode (ground (arith, nothing)),
                        is_empty→nil n.url (ground (arith, nothing)),
                        is_empty→nil n.project_url (ground (arith, nothing)),
                        is_empty→nil n.task_id (ground (arith, nothing)),
                      )
                | inr some_field ↦
                    rw (fine, some_field)
                      (at_time now v, refl, (fine, some_field), again (fine, some_field))
              ]
      ]

  refused :
      (o : Option (List ℕ)) (old : List ℕ)
      → merged_url lib o old ≡ none
      → (value : List ℕ) × (o ≡ some value) × (normalize_project_url lib value ≡ none)
  unfolding merged_url
  refused none old e = absurd (ground (arith, e))
  refused (some value) old e = (value, refl, e)

  merge_url-Merges :
      (old : Saved) (patch : Patch) (o : Option (List ℕ)) (now later : List ℕ)
      → merged_url lib patch.project_url old.project_url ≡ o
      → Merges old patch now later (merge_url lib (patched lib old patch) o now)
  unfolding merge_url
  merge_url-Merges old patch none now later e = refused patch.project_url old.project_url e
  merge_url-Merges old patch (some value) now later e =
      let n = record (patched lib old patch) { project_url = value } in
      checked-Merges old patch n now later (patched-IsPatched old patch value old.saved_at e)
        (merged_twice old patch value now later e)

  -- What becomes of a patch. If `Merge` returns a session, that has what the patch gives, with the URL of
  -- the project normalized, and for the rest what was there before; it may be saved; and the same patch
  -- merged into it again returns it with only its time changed. If it fails, the URL that the patch gives is
  -- not one of a project; or the session would be one of a project without a URL; or it would have nothing
  -- to save.
  pub merge-Merges :
      (previous : Option Saved) (patch : Patch) (now later : List ℕ)
      → Merges (before previous) patch now later (merge lib previous patch now)
  merge-Merges previous patch now later =
      rw (merge-before previous patch now)
        (merge_url-Merges (before previous) patch _ now later refl)
