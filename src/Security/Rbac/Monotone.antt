-- ===== src/Security/Rbac/Monotone.antt =====
-- src/security/rbac_manager.py: more permissions never take an action away.
use ai_agent_code.Common.Dict
use ai_agent_code.Common.{
  ◌≡◌, inl, inr, refl, sym, ap, ◌∙◌, Bool, true, false, not, ◌&&◌, ◌||◌, some, List, [], ◌∷◌, arith,
  String, if◌then◌else◌, ◌≟◌, elem, Bool-cases, Option-cases, string_key, nat_key,
}
use ai_agent_code.Security.Rbac.{
  action_aliases, RbacManager, init, is_aliased, covers, any_of, fits_verb, has_colon, granted,
  check_permission,
}

-- Each permission of one list is in another.
unfoldable pub is_subset : List String → List String → Bool
is_subset [] ys = true
is_subset (x ∷ xs) ys = elem x ys && is_subset xs ys

elem-subset :
    (a : String) (xs ys : List String)
    → is_subset xs ys ≡ true
    → elem a xs ≡ true
    → elem a ys ≡ true
unfolding is_subset
elem-subset a [] ys s e = absurd (cc)
elem-subset a (x ∷ xs) ys s e = elim (Bool-cases (a ≟ x)) [
  | inl b ↦
      let q : a ≡ x = ground (arith, b, string_key.same_iff a x) in
      ap (λ z. elem z ys) q ∙ ground (arith, s)
  | inr b ↦ elem-subset a xs ys (ground (arith, s)) (ground (arith, e, b))
]

any_of-elem :
    (p : String → Bool) (x : String) (ys : List String)
    → p x ≡ true
    → elem x ys ≡ true
    → any_of p ys ≡ true
unfolding any_of
any_of-elem p x [] h e = absurd (cc)
any_of-elem p x (y ∷ ys) h e = elim (Bool-cases (x ≟ y)) [
  | inl b ↦
      let q : x ≡ y = ground (arith, b, string_key.same_iff x y) in
      rw (any_of, sym (ap p q) ∙ h) refl
  | inr b ↦ ground (arith, any_of-elem p x ys h (ground (arith, e, b)))
]

any_of-subset :
    (p : String → Bool) (xs ys : List String)
    → is_subset xs ys ≡ true
    → any_of p xs ≡ true
    → any_of p ys ≡ true
unfolding is_subset any_of
any_of-subset p [] ys s e = absurd (cc)
any_of-subset p (x ∷ xs) ys s e = elim (Bool-cases (p x)) [
  | inl b ↦ any_of-elem p x ys b (ground (arith, s))
  | inr b ↦ any_of-subset p xs ys (ground (arith, s)) (ground (arith, e, b))
]

is_aliased-subset :
    (xs ys : List String) (action : String)
    → is_subset xs ys ≡ true
    → is_aliased xs action ≡ true
    → is_aliased ys action ≡ true
unfolding is_aliased
is_aliased-subset xs ys action s e = elim (Option-cases (Dict.lookup action action_aliases)) [
  | inl n ↦
      let p : is_aliased xs action ≡ false = rw (is_aliased, n) refl in
      absurd (ground (arith, e, p))
  | inr (r, n) ↦ rw (is_aliased, n) (elem-subset r xs ys s (sym (rw (is_aliased, n) refl) ∙ e))
]

-- The returns of the tests, one after the other.
chain :
    (a b c d e f : Bool)
    → (if a
        then true
        else if b
        then true
        else if c
        then true
        else if d
        then true
        else if not e
        then f
        else false)
      ≡ (a || (b || (c || (d || (not e && f)))))
chain a b c d e f = ground arith

granted-chain :
    (allowed : List String) (action : String)
    → granted allowed action ≡ (
        elem "*" allowed
        || (elem action allowed
            || (is_aliased allowed action
                || (any_of (covers action) allowed
                    || (not (has_colon action) && any_of (fits_verb action) allowed)))))
unfolding granted
granted-chain allowed action =
    chain (elem "*" allowed) (elem action allowed) (is_aliased allowed action)
      (any_of (covers action) allowed) (has_colon action) (any_of (fits_verb action) allowed)

or-map :
    (a b a' b' : Bool)
    → (a ≡ true → a' ≡ true)
    → (b ≡ true → b' ≡ true)
    → (a || b) ≡ true
    → (a' || b') ≡ true
or-map a b a' b' f g e = elim (Bool-cases a) [
  | inl p ↦ ground (arith, f p)
  | inr p ↦ ground (arith, g (ground (arith, e, p)))
]

granted-subset :
    (xs ys : List String) (action : String)
    → is_subset xs ys ≡ true
    → granted xs action ≡ true
    → granted ys action ≡ true
granted-subset xs ys action s e =
    let verb = λ (q : (not (has_colon action) && any_of (fits_verb action) xs) ≡ true).
      any_of-subset (fits_verb action) xs ys s (ground (arith, q)) in
    granted-chain ys action
    ∙ or-map _ _ _ _ (elem-subset "*" xs ys s)
        (or-map _ _ _ _ (elem-subset action xs ys s) (
          or-map _ _ _ _ (is_aliased-subset xs ys action s) (
            or-map _ _ _ _ (any_of-subset (covers action) xs ys s)
              (λ q. ground (arith, q, verb q)))))
        (sym (granted-chain xs action) ∙ e)

-- Permissions are additive: an action that a role may perform stays allowed when the role gets a list
-- with all its permissions and more; and a role that has all the permissions of another may perform
-- whatever that other may.
pub check_permission-subset :
    (r r' : RbacManager) (role role' action : String) (xs ys : List String)
    → Dict.lookup role r.roles ≡ some xs
    → Dict.lookup role' r'.roles ≡ some ys
    → is_subset xs ys ≡ true
    → check_permission r role action ≡ true
    → check_permission r' role' action ≡ true
unfolding check_permission
check_permission-subset r r' role role' action xs ys l l' s e =
    rw (check_permission, l')
      (granted-subset xs ys action s (sym (rw (check_permission, l) refl) ∙ e))

star-granted :
    (allowed : List String) (action : String)
    → elem "*" allowed ≡ true
    → granted allowed action ≡ true
star-granted allowed action e = granted-chain allowed action ∙ ground (arith, e)

-- With the roles of the table, whatever a viewer may do a developer may do, and an operator too; and
-- an admin may do everything.
pub check_permission-ranks :
    (action : String)
    → (check_permission (init []) "viewer" action ≡ true
        → check_permission (init []) "developer" action ≡ true)
      × (check_permission (init []) "viewer" action ≡ true
          → check_permission (init []) "operator" action ≡ true)
      × (check_permission (init []) "admin" action ≡ true)
unfolding init is_subset
check_permission-ranks action =
    let r = init [] in
    (
      check_permission-subset r r "viewer" "developer" action _ _ refl refl refl,
      check_permission-subset r r "viewer" "operator" action _ _ refl refl refl,
      unfold check_permission in star-granted ("*" ∷ []) action refl,
    )
