-- ===== src/Auth/Server/Tests/Forms.antt =====
-- The pairing page's form, of internal/auth/http.go, at concrete inputs.
use codexlink.Prelude.{some, [], ◌∷◌, ◌≡◌, refl, arith, ◌⊎◌}
use codexlink.Auth.Server.Authorize.{authorize_complete}
use codexlink.Auth.Server.Approved.{complete-Approves, complete_twice}
use codexlink.Auth.Server.Coded.{Approves, Repeats}
use codexlink.Auth.Server.{prune_pending}
use codexlink.Prelude.Assoc.{lookup}
use codexlink.Auth.Server.{continues}
use codexlink.Auth.Server.Tests.{program, web, at, moment, pending, waiting, posted, paired, way_on}

completes : (authorize_complete web waiting paired (moment 2 "at_1" "rt_1")).1 ≡ continues way_on
unfolding program
completes = refl

complete-Approves_example :
    Approves web
      (prune_pending waiting (at 2))
      paired
      (moment 2 "at_1" "rt_1")
      (("request_id", "id") ∷ ("pairing_code", "ABCD-EFGH") ∷ [])
      "id"
      way_on
      (authorize_complete web waiting paired (moment 2 "at_1" "rt_1")).0
    ⊎ Repeats web
        (prune_pending waiting (at 2))
        "id"
        way_on
        (authorize_complete web waiting paired (moment 2 "at_1" "rt_1")).0
unfolding lookup
complete-Approves_example =
    complete-Approves web waiting paired (moment 2 "at_1" "rt_1")
      (("request_id", "id") ∷ ("pairing_code", "ABCD-EFGH") ∷ []) way_on refl completes

waits : lookup "id" (prune_pending waiting (at 2)).pending ≡ some pending
unfolding program
waits = refl

complete_twice_example :
    authorize_complete web
      (authorize_complete web waiting paired (moment 2 "at_1" "rt_1")).0
      (posted (("request_id", "id") ∷ []))
      (moment 900 "at_2" "rt_2")
    ≡ (
      prune_pending (authorize_complete web waiting paired (moment 2 "at_1" "rt_1")).0 (at 900),
      continues way_on,
    )
unfolding lookup
complete_twice_example =
    complete_twice web waiting paired (moment 2 "at_1" "rt_1")
      (("request_id", "id") ∷ ("pairing_code", "ABCD-EFGH") ∷ []) way_on
      (posted (("request_id", "id") ∷ [])) (moment 900 "at_2" "rt_2") (("request_id", "id") ∷ [])
      refl refl refl (λ e. ground (arith, e, waits)) completes (omega arith)
