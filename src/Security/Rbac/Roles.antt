-- ===== src/Security/Rbac/Roles.antt =====
-- src/security/rbac_manager.py: the permissions of a role after changes of any roles.
use ai_agent_code.Common.Dict
use ai_agent_code.Common.Dict.{Dict}
use ai_agent_code.Common.{
  ◌≡◌, inl, inr, refl, ap, ◌∙◌, Bool, true, false, Option, none, some, List, [], ◌∷◌, arith, String,
  if◌then◌else◌, ◌≟◌, Bool-cases, Option-cases, string_key, nat_key,
}
use ai_agent_code.Security.Rbac.{
  RbacManager, granted, check_permission, add_role, update_role, remove_role,
}

-- A change of a role.
pub data Call : Type 0 where
  adds updates : String → List String → Call
  removes : String → Call

unfoldable pub step : RbacManager → Call → RbacManager
unfolding add_role update_role remove_role
step r (adds name permissions) = add_role r name permissions
step r (updates name permissions) = (update_role r name permissions).0
step r (removes name) = remove_role r name

unfoldable pub run : RbacManager → List Call → RbacManager
unfolding step
run r [] = r
run r (c ∷ cs) = run (step r c) cs

-- What the changes make of one role.
pub role_after : String → Option (List String) → List Call → Option (List String)
role_after role o [] = o
role_after role o (adds name permissions ∷ cs) =
    role_after role (if role ≟ name then some permissions else o) cs
role_after role o (updates name permissions ∷ cs) =
    let changed : Option (List String) = elim o [ none ↦ none | some _ ↦ some permissions ] in
    role_after role (if role ≟ name then changed else o) cs
role_after role o (removes name ∷ cs) = role_after role (if role ≟ name then none else o) cs

at_same :
    (role name : String) (d : Dict String (List String))
    → (role ≟ name) ≡ true
    → Dict.lookup role d ≡ Dict.lookup name d
at_same role name d b =
    let q : role ≡ name = ground (arith, b, string_key.same_iff role name) in
    ap (λ x. Dict.lookup x d) q

contains-lookup :
    (name : String) (d : Dict String (List String))
    → Dict.contains name d ≡ true
    → (x : List String) × (Dict.lookup name d ≡ some x)
contains-lookup name d c = elim (Option-cases (Dict.lookup name d)) [
  | inl n ↦ absurd (ground (arith, c, n))
  | inr (x, n) ↦ (x, n)
]

update_role-lookup :
    (r : RbacManager) (role name : String) (permissions : List String)
    → Dict.lookup role (update_role r name permissions).0.roles ≡ (
        if role ≟ name
        then elim (Dict.lookup role r.roles) [ none ↦ none | some _ ↦ some permissions ]
        else Dict.lookup role r.roles)
unfolding update_role
update_role-lookup r role name permissions = elim (Bool-cases (Dict.contains name r.roles)) [
  | inr c ↦
      let n : Dict.lookup name r.roles ≡ none = ground (arith, c) in
      rw (update_role, c)
        (elim (Bool-cases (role ≟ name)) [
          | inl b ↦ let m = at_same role name r.roles b ∙ n in rw (b, m) refl
          | inr b ↦ rw b refl
        ])
  | inl c ↦
      let (x, n) = contains-lookup name r.roles c in
      rw (update_role, c)
        (Dict.lookup-insert role name permissions r.roles ∙ elim (Bool-cases (role ≟ name)) [
          | inl b ↦ let m = at_same role name r.roles b ∙ n in rw (b, m) refl
          | inr b ↦ rw b refl
        ])
]

remove_role-lookup :
    (r : RbacManager) (role name : String)
    → Dict.lookup role (remove_role r name).roles
      ≡ (if role ≟ name then none else Dict.lookup role r.roles)
unfolding remove_role
remove_role-lookup r role name = elim (Bool-cases (Dict.contains name r.roles)) [
  | inr c ↦
      let n : Dict.lookup name r.roles ≡ none = ground (arith, c) in
      rw (remove_role, c)
        (elim (Bool-cases (role ≟ name)) [
          | inl b ↦ rw b (at_same role name r.roles b ∙ n)
          | inr b ↦ rw b refl
        ])
  | inl c ↦ rw (remove_role, c) (Dict.lookup-erase role name r.roles)
]

run-lookup :
    (r : RbacManager) (role : String) (cs : List Call)
    → Dict.lookup role (run r cs).roles ≡ role_after role (Dict.lookup role r.roles) cs
unfolding run role_after step
run-lookup r role [] = refl
run-lookup r role (adds name permissions ∷ cs) =
    unfold add_role in
    run-lookup (add_role r name permissions) role cs
    ∙ ap (λ o. role_after role o cs) (Dict.lookup-insert role name permissions r.roles)
run-lookup r role (updates name permissions ∷ cs) =
    run-lookup (update_role r name permissions).0 role cs
    ∙ ap (λ o. role_after role o cs) (update_role-lookup r role name permissions)
run-lookup r role (removes name ∷ cs) =
    run-lookup (remove_role r name) role cs
    ∙ ap (λ o. role_after role o cs) (remove_role-lookup r role name)

-- After any changes of roles, a request of a role is judged by what those under its name made of it,
-- by no other: an addition sets its permissions, an update only those of a role that exists, a removal
-- takes them all.
pub run-check_permission :
    (r : RbacManager) (role action : String) (cs : List Call)
    → check_permission (run r cs) role action
      ≡ elim (role_after role (Dict.lookup role r.roles) cs) [
        | none ↦ false
        | some allowed ↦ granted allowed action
      ]
unfolding check_permission
run-check_permission r role action cs =
    ap
      (λ (o : Option (List String)). elim o as (λ _. Bool) [
        | none ↦ false
        | some allowed ↦ granted allowed action
      ])
      (run-lookup r role cs)
