-- ===== src/Session/Tests.antt =====
-- The session of internal/session/session.go at concrete inputs.
use codexlink.Prelude.{none, some, [], ok, false, bytes_eq}
use codexlink.Prelude.Int.{pos}
use codexlink.Prelude.Text.{codes, is_space, trim_left, trim_space}
use codexlink.Auth.Resource.{UrlLib}
use codexlink.Session.{
  Saved, Patch, project, no_session, normalize_url, normalize_project_url, resolve, merge,
  merged_url, checked, merge_url, clear_chat, clear_saved, after, project_name, match_project,
  saved_project,
}
use codexlink.Session.Merged.{Merges, merge-Merges}

program : Unit {0}
unfolding is_space trim_left trim_space bytes_eq after project_name match_project normalize_url
    normalize_project_url saved_project resolve merged_url checked merge_url merge clear_saved
    clear_chat
program = tt

-- Every text is the address of one project.
abbrev lib : UrlLib
lib = record {
  parse = λ text. some (record {
    scheme = codes "https";
    has_user = false;
    host = codes "chatgpt.com";
    hostname = codes "chatgpt.com";
    port = [];
    path = codes "/g/g-p-a1/project/";
    escaped_path = codes "/g/g-p-a1/project/";
    raw_query = [];
    fragment = [];
  });
  print = λ u. u.host;
  to_lower = λ text. text;
}

abbrev patch : Patch
patch = record {
  url = some (codes "u");
  title = none;
  task_id = none;
  iteration = some (pos 3);
  last_state = none;
  conversation_mode = some project;
  project_url = some (codes "https://chatgpt.com/g/g-p-a1/project?x");
  connector_name = none;
}

abbrev merged : Saved
merged = record no_session {
  url = codes "u";
  iteration = pos 3;
  saved_at = codes "now";
  conversation_mode = project;
  project_url = codes "https://chatgpt.com/g/g-p-a1/project";
}

merge-Merges_example : Merges lib no_session patch (codes "now") (codes "later") (ok merged)
unfolding program
merge-Merges_example = merge-Merges lib none patch (codes "now") (codes "later")
