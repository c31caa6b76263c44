-- ===== src/Resilience/Reclaimer/Turns.antt =====
-- src/resilience/reclaimer.py: turns on the registry that leave some identifiers alone.
use ai_agent_code.Common.Dict
use ai_agent_code.Common.Dict.{Dict}
use ai_agent_code.Common.{
  ◌≡◌, inl, inr, refl, ap, ◌∙◌, true, false, List, [], ◌∷◌, arith, All, String, ◌≟◌, elem,
  Bool-cases, string_key, nat_key,
}
use ai_agent_code.Resilience.Reclaimer.{
  Resource, ResourceReclaimer, register, unregister, Turn, registers, unregisters, works, act,
  act_all, pop,
}

-- An identifier in the list is not that of a turn that is apart from it.
pub differs :
    (i j : String) (ids : List String) → elem i ids ≡ true → elem j ids ≡ false → (i ≟ j) ≡ false
differs i j ids h n = elim (Bool-cases (i ≟ j)) [
  | inl e ↦ absurd (let same : i ≡ j = ground (arith, string_key.same_iff i j, e) in cc)
  | inr e ↦ e
]

module _ {W : Type 0} where
  -- A turn registers and unregisters none of the identifiers.
  unfoldable pub IsApart : List String → Turn W → Type 0
  IsApart ids (registers id kind ttl cleanup now) = elem id ids ≡ false
  IsApart ids (unregisters id) = elem id ids ≡ false
  IsApart ids (works f) = Unit

  -- The registry without some identifiers.
  unfoldable pub purge : List String → ResourceReclaimer W → ResourceReclaimer W
  purge [] m = m
  purge (id ∷ ids) m = purge ids (pop m id)

  erase_comm :
      (i j : String) (d : Dict String (Resource W))
      → Dict.erase i (Dict.erase j d) ≡ Dict.erase j (Dict.erase i d)
  erase_comm i j [] = refl
  erase_comm i j ((k, r) ∷ d) = ground (arith, erase_comm i j d)

  erase-insert :
      (i j : String) (r : Resource W) (d : Dict String (Resource W))
      → (i ≟ j) ≡ false
      → Dict.erase i (Dict.insert j r d) ≡ Dict.insert j r (Dict.erase i d)
  erase-insert i j r [] n = rw n refl
  erase-insert i j r ((k, s) ∷ d) n =
      ground (arith, erase-insert i j r d n, string_key.same_iff j k, string_key.same_iff i k, n)

  pop-act :
      (id : String) (m : ResourceReclaimer W) (t : Turn W) (ids : List String)
      → elem id ids ≡ true
      → IsApart ids t
      → pop (act m t) id ≡ act (pop m id) t
  unfolding IsApart act register unregister
  pop-act id m (registers j kind ttl cleanup now) ids h n =
      ap (λ d. record { resources = d }) (erase-insert id j _ m.resources (differs id j ids h n))
  pop-act id m (unregisters j) ids h n =
      ap (λ d. record { resources = d }) (erase_comm id j m.resources)
  pop-act id m (works f) ids h n = refl

  pop-act_all :
      (id : String) (m : ResourceReclaimer W) (ts : List (Turn W)) (ids : List String)
      → elem id ids ≡ true
      → All (IsApart ids) ts
      → pop (act_all m ts) id ≡ act_all (pop m id) ts
  unfolding act_all
  pop-act_all id m [] ids h n = refl
  pop-act_all id m (t ∷ ts) ids h n =
      pop-act_all id (act m t) ts ids h n.1 ∙ ap (λ x. act_all x ts) (pop-act id m t ids h n.0)

  -- Turns that are apart from some identifiers can as well come after these are gone.
  pub purge-act_all :
      (ids all : List String) (m : ResourceReclaimer W) (ts : List (Turn W))
      → All (λ id. elem id all ≡ true) ids
      → All (IsApart all) ts
      → purge ids (act_all m ts) ≡ act_all (purge ids m) ts
  unfolding purge
  purge-act_all [] all m ts h n = refl
  purge-act_all (id ∷ ids) all m ts h n =
      ap (purge ids) (pop-act_all id m ts all h.0 n) ∙ purge-act_all ids all (pop m id) ts h.1 n

  lookup-act :
      (id : String) (m : ResourceReclaimer W) (t : Turn W) (ids : List String)
      → elem id ids ≡ true
      → IsApart ids t
      → Dict.lookup id (act m t).resources ≡ Dict.lookup id m.resources
  unfolding IsApart act register unregister
  lookup-act id m (registers j kind ttl cleanup now) ids h n =
      rw (Dict.lookup-insert, differs id j ids h n) refl
  lookup-act id m (unregisters j) ids h n = rw (Dict.lookup-erase, differs id j ids h n) refl
  lookup-act id m (works f) ids h n = refl

  -- They do not change what the registry holds under these identifiers.
  pub lookup-act_all :
      (id : String) (m : ResourceReclaimer W) (ts : List (Turn W)) (ids : List String)
      → elem id ids ≡ true
      → All (IsApart ids) ts
      → Dict.lookup id (act_all m ts).resources ≡ Dict.lookup id m.resources
  unfolding act_all
  lookup-act_all id m [] ids h n = refl
  lookup-act_all id m (t ∷ ts) ids h n =
      lookup-act_all id (act m t) ts ids h n.1 ∙ lookup-act id m t ids h n.0
