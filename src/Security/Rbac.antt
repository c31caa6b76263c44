-- ===== src/Security/Rbac.antt =====
-- src/security/rbac_manager.py: `RBACManager`, roles and their permissions.
-- The part of an action before its first colon is found by byte position; of a text without a colon
-- it is the whole text, as the first part of Python's `split(":")` is.
mod Monotone
mod Roles
mod Tests
use Prim.Native.String.{◌++◌ as join, find, slice, len}
use text.Mathlib.Text.{starts_with}
use ai_agent_code.Common.Dict
use ai_agent_code.Common.Dict.{Dict}
use ai_agent_code.Common.{
  ℕ, ℤ, pos, negsuc, diff, zero, suc, ◌+◌, ◌-◌, ◌*◌, ◌/◌, ◌≤◌, ◌<◌, min, max, ◌≡◌, ◌≢◌, ◌⊎◌, ◌↔◌,
  inl, inr, refl, sym, ap, ◌∙◌, Bool, true, false, not, ◌&&◌, ◌||◌, Option, none, some, List, [],
  ◌∷◌, ◌++◌, map, reverse, arith, String, if◌then◌else◌, leb, ltb, ◌==◌, ◌≟◌, elem, length, drop,
  take, keep, count, get_last?, slice_last, All, Bool-cases, Option-cases, Key, string_key, nat_key,
}

-- `ROLES`
abbrev pub roles_table : Dict String (List String)
roles_table =
    ("admin", "*" ∷ [])
    ∷ (
      "developer",
      "read" ∷ "write" ∷ "execute" ∷ "models:read" ∷ "models:list" ∷ "prompts:read"
          ∷ "prompts:write" ∷ "prompts:execute" ∷ "rag:read" ∷ "rag:write" ∷ "rag:execute"
          ∷ "agent:read" ∷ "agent:execute" ∷ "api_keys:read" ∷ "api_keys:write" ∷ "usage:read" ∷ [],
    )
    ∷ (
      "viewer",
      "read" ∷ "models:read" ∷ "models:list" ∷ "prompts:read" ∷ "rag:read" ∷ "agent:read"
          ∷ "usage:read" ∷ [],
    )
    ∷ (
      "operator",
      "read" ∷ "execute" ∷ "models:read" ∷ "models:list" ∷ "prompts:read" ∷ "rag:read"
          ∷ "rag:execute" ∷ "agent:read" ∷ "agent:execute" ∷ "usage:read" ∷ "monitoring:read"
          ∷ "health:read" ∷ [],
    )
    ∷ []

-- `ACTION_ALIASES`
abbrev pub action_aliases : Dict String String
action_aliases =
    ("read", "models:read") ∷ ("write", "models:write") ∷ ("execute", "models:execute") ∷ []

pub record RbacManager : Type 0 where
  pub roles : Dict String (List String)

-- `roles.update(custom_roles)`
pub update_all : Dict String (List String) → Dict String (List String) → Dict String (List String)
update_all roles [] = roles
update_all roles ((name, permissions) ∷ rest) = update_all (Dict.insert name permissions roles) rest

-- `__init__`
pub init : Dict String (List String) → RbacManager
unfolding update_all
init custom_roles = record { roles = update_all roles_table custom_roles }

-- `text.split(":")[0]`
pub resource : String → String
resource text = slice text 0 (find text ":")

-- `":" in text`
pub has_colon : String → Bool
has_colon text = leb (find text ":") (len text)

-- A permission of the form `models:*`, for the resource of an action: its parts are two, the second
-- is the star, and the first is that resource.
pub covers : String → String → Bool
unfolding resource
covers action allowed =
    allowed ≟ join (resource allowed) ":*" && (resource allowed ≟ resource action)

-- `any(p(x) for x in xs)`, the loops that return at the first permission that fits.
pub any_of : (String → Bool) → List String → Bool
any_of p [] = false
any_of p (x ∷ xs) = if p x then true else any_of p xs

-- The test of the last loop, for a verb.
pub fits_verb : String → String → Bool
fits_verb verb allowed = starts_with allowed (join verb ":") || (allowed ≟ verb)

-- The test for an alias.
pub is_aliased : List String → String → Bool
is_aliased allowed action = elim (Dict.lookup action action_aliases) [
  | none ↦ false
  | some resolved ↦ elem resolved allowed
]

-- `check_permission` for the permissions of the role.
pub granted : List String → String → Bool
unfolding is_aliased covers any_of fits_verb has_colon
granted allowed action =
    if elem "*" allowed
    then true
    else if elem action allowed
    then true
    else if is_aliased allowed action
    then true
    else if any_of (covers action) allowed
    then true
    else if not (has_colon action)
    then any_of (fits_verb action) allowed
    else false

-- `check_permission`
pub check_permission : RbacManager → String → String → Bool
unfolding granted
check_permission r role action = elim (Dict.lookup role r.roles) [
  | none ↦ false
  | some allowed ↦ granted allowed action
]

-- `check_permissions`, with an entry for each of the actions in turn.
pub check_permissions : RbacManager → String → List String → Dict String Bool
unfolding check_permission
check_permissions r role [] = []
check_permissions r role (action ∷ actions) =
    (action, check_permission r role action) ∷ check_permissions r role actions

-- `require_permission`, and the checker of `create_permission_checker`: false is the exception.
pub require_permission : RbacManager → String → String → Bool
unfolding check_permission
require_permission r role action = if not (check_permission r role action) then false else true

-- `get_allowed_actions`
pub get_allowed_actions : RbacManager → String → List String
get_allowed_actions r role = elim (Dict.lookup role r.roles) [ none ↦ [] | some allowed ↦ allowed ]

-- `add_role`
pub add_role : RbacManager → String → List String → RbacManager
add_role r name permissions = record r { roles = Dict.insert name permissions r.roles }

-- `update_role`: the manager, and whether the role exists; it is a `ValueError` if not.
pub update_role : RbacManager → String → List String → RbacManager × Bool
update_role r name permissions =
    if not (Dict.contains name r.roles)
    then (r, false)
    else (record r { roles = Dict.insert name permissions r.roles }, true)

-- `remove_role`
pub remove_role : RbacManager → String → RbacManager
remove_role r name =
    if Dict.contains name r.roles then record r { roles = Dict.erase name r.roles } else r

-- `is_valid_role`
pub is_valid_role : RbacManager → String → Bool
is_valid_role r role = Dict.contains role r.roles
