-- ===== src/Security/Rbac/Tests.antt =====
-- Requests of the roles, and the theorems at concrete inputs.
use ai_agent_code.Common.Dict
use ai_agent_code.Common.{◌≡◌, refl, true, false, some, List, [], ◌∷◌, string_key, nat_key}
use ai_agent_code.Security.Rbac.{init, check_permission, get_allowed_actions}
use ai_agent_code.Security.Rbac.Monotone.{is_subset, check_permission-subset}
use ai_agent_code.Security.Rbac.Roles.{Call, adds, updates, removes}

-- A resource without a verb is granted like a verb.
bare_resource : check_permission (init []) "viewer" "rag" ≡ true
unfolding check_permission init
bare_resource = refl

refused : check_permission (init []) "viewer" "rag:write" ≡ false
unfolding check_permission init
refused = refl

star : check_permission (init (("data", "models:*" ∷ []) ∷ [])) "data" "models:delete" ≡ true
unfolding check_permission init
star = refl

viewer_reads : check_permission (init []) "viewer" "rag:read" ≡ true
unfolding check_permission init
viewer_reads = refl

viewer_in_developer :
    is_subset (get_allowed_actions (init []) "viewer") (get_allowed_actions (init []) "developer")
    ≡ true
unfolding is_subset get_allowed_actions init
viewer_in_developer = refl

viewer_role : Dict.lookup "viewer" (init []).roles ≡ some (get_allowed_actions (init []) "viewer")
unfolding init get_allowed_actions
viewer_role = refl

developer_role :
    Dict.lookup "developer" (init []).roles ≡ some (get_allowed_actions (init []) "developer")
unfolding init get_allowed_actions
developer_role = refl

check_permission-subset_example : check_permission (init []) "developer" "rag:read" ≡ true
check_permission-subset_example =
    check_permission-subset (init []) (init []) "viewer" "developer" "rag:read"
      (get_allowed_actions (init []) "viewer") (get_allowed_actions (init []) "developer")
      viewer_role developer_role viewer_in_developer viewer_reads

abbrev changes : List Call
changes = updates "viewer" ("rag:read" ∷ []) ∷ adds "guest" ("read" ∷ []) ∷ removes "guest" ∷ []
