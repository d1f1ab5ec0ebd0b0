-- ===== src/Session/ChatGone.antt =====
-- What is left of a session whose chat is cleared, in internal/session/session.go.
use codexlink.Prelude.{
  ℕ, true, false, Option, none, some, List, if◌then◌else◌, ◌≡◌, refl, arith, ◌∙◌, ap,
}
use codexlink.Auth.Resource.{UrlLib}
use codexlink.Session.{Saved, is_project, is_given, resolve, clear_saved, clear_chat}

module _ (lib : UrlLib) where
  clear_saved-chat :
      (saved : Saved) (o : Option (List ℕ)) (now : List ℕ)
      → ((resolve lib (clear_saved lib saved o now true).file).chat_url ≡ none)
        × ((resolve lib (clear_saved lib saved o now true).file).reuse_saved_chat ≡ false)
        × ((clear_saved lib saved o now true).kept_project ≡ is_given o)
        × ((clear_saved lib saved o now false).file ≡ some saved)
  unfolding clear_saved resolve
  clear_saved-chat saved none now = (refl, refl, refl, refl)
  clear_saved-chat saved (some value) now = (refl, refl, refl, refl)

  kept :
      (saved : Saved)
      → (if is_project (resolve lib (some saved)).mode
          then (resolve lib (some saved)).project_url
          else none)
        ≡ (resolve lib (some saved)).project_url
  unfolding resolve
  kept saved = ground arith

  -- After `ClearChat` succeeds, the view of what is left has no chat and reuses none, and it says that
  -- the project is kept exactly if the view of what was there has a project's URL; when the file cannot
  -- be written or removed, it stays as it is.
  pub resolve-clear_chat :
      (file : Option Saved) (now : List ℕ)
      → ((resolve lib (clear_chat lib file now true).file).chat_url ≡ none)
        × ((resolve lib (clear_chat lib file now true).file).reuse_saved_chat ≡ false)
        × ((clear_chat lib file now true).kept_project ≡ is_given (resolve lib file).project_url)
        × ((clear_chat lib file now false).file ≡ file)
  unfolding clear_chat
  resolve-clear_chat none now = unfold resolve in (refl, refl, refl, refl)
  resolve-clear_chat (some saved) now =
      let view = resolve lib (some saved) in
      let o = if is_project view.mode then view.project_url else none in
      let (a, b, c, d) = clear_saved-chat saved o now in (a, b, c ∙ ap is_given (kept saved), d)
