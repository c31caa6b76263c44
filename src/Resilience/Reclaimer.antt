-- ===== src/Resilience/Reclaimer.antt =====
-- src/resilience/reclaimer.py: `ResourceReclaimer`, the resources with a time to live.
-- Times are whole seconds. A cleanup is a function of the state of the world; an exception in it is
-- logged and has no further effect, so a cleanup that raises is one that gives the state it reached.
-- A cleanup that is awaited suspends `reclaim_expired` between two of its pops: what the other tasks, or
-- the cleanup itself, do with the registry in the meantime is a list of turns for each cleanup.
-- The reads of the clock for the entries, between which nothing else runs, are one time `now`.
mod Turns
mod Held
mod Sweep
mod Expiry
mod Tests
use ai_agent_code.Common.Dict
use ai_agent_code.Common.Dict.{Dict}
use ai_agent_code.Common.{
  ℕ, zero, suc, ◌+◌, ◌-◌, ◌*◌, ◌≤◌, ◌<◌, min, max, ◌≡◌, ◌≢◌, ◌⊎◌, ◌↔◌, inl, inr, refl, sym, ap, ◌∙◌,
  Bool, true, false, not, ◌&&◌, ◌||◌, Option, none, some, List, [], ◌∷◌, ◌++◌, map, reverse, arith,
  String, if◌then◌else◌, leb, ltb, ◌==◌, ◌≟◌, elem, length, drop, keep, count, get_last?,
  slice_last, All, Bool-cases, Option-cases, Key, string_key, nat_key,
}

pub record Resource (W : Type 0) : Type 0 where
  pub resource_id : String
  pub kind : String
  pub ttl_seconds : ℕ
  pub created_at : ℕ
  pub cleanup : Option (W → W)

pub record ResourceReclaimer (W : Type 0) : Type 0 where
  pub resources : Dict String (Resource W)

-- What other tasks do while a cleanup is awaited.
pub data Turn (W : Type 0) : Type 0 where
  registers : String → String → ℕ → Option (W → W) → ℕ → Turn W
  unregisters : String → Turn W
  works : (W → W) → Turn W

-- What `reclaim_expired` comes to.
pub data Reclamation : Type 0 where
  reclaimed : List String → Reclamation
  key_error : String → Reclamation

module _ {W : Type 0} where
  -- `expired`
  abbrev pub expired : ℕ → Resource W → Bool
  expired now r = leb (r.created_at + r.ttl_seconds) now

  pub init : ResourceReclaimer W
  init = record { resources = [] }

  -- `register`
  pub register :
      ResourceReclaimer W
      → String
      → String
      → ℕ
      → Option (W → W)
      → ℕ
      → ResourceReclaimer W × Resource W
  register m id kind ttl cleanup now =
      let r : Resource W = record {
        resource_id = id;
        kind = kind;
        ttl_seconds = ttl;
        created_at = now;
        cleanup = cleanup;
      } in
      (record { resources = Dict.insert id r m.resources }, r)

  -- `unregister`
  pub unregister : ResourceReclaimer W → String → ResourceReclaimer W × Bool
  unregister m id = (record { resources = Dict.erase id m.resources }, Dict.contains id m.resources)

  -- `[rid for rid, r in self._resources.items() if r.expired]`
  pub expired_ids : ℕ → Dict String (Resource W) → List String
  expired_ids now [] = []
  expired_ids now ((id, r) ∷ d) =
      if expired now r then id ∷ expired_ids now d else expired_ids now d

  -- What is done while a cleanup runs: calls of the registry, and changes of the world. A pop of
  -- another reclamation is an `unregisters` and the work of its cleanup.
  pub act : ResourceReclaimer W → Turn W → ResourceReclaimer W
  unfolding register unregister
  act m (registers id kind ttl cleanup now) = (register m id kind ttl cleanup now).0
  act m (unregisters id) = (unregister m id).0
  act m (works f) = m

  pub act_all : ResourceReclaimer W → List (Turn W) → ResourceReclaimer W
  unfolding act
  act_all m [] = m
  act_all m (t ∷ ts) = act_all (act m t) ts

  pub work_all : List (Turn W) → W → W
  work_all [] w = w
  work_all (works f ∷ ts) w = work_all ts (f w)
  work_all (registers id kind ttl cleanup now ∷ ts) w = work_all ts w
  work_all (unregisters id ∷ ts) w = work_all ts w

  abbrev pub pop : ResourceReclaimer W → String → ResourceReclaimer W
  pop m id = record { resources = Dict.erase id m.resources }

  -- The turns during the next cleanup, and those during the later ones.
  abbrev pub next_turns : List (List (Turn W)) → List (Turn W)
  next_turns [] = []
  next_turns (ts ∷ turns) = ts

  abbrev pub later_turns : List (List (Turn W)) → List (List (Turn W))
  later_turns [] = []
  later_turns (ts ∷ turns) = turns

  -- The loop over the expired identifiers: the registry and the world at the end, and the identifier
  -- of the `KeyError` of `pop`, if it raises one.
  pub reclaim :
      List String
      → List (List (Turn W))
      → ResourceReclaimer W
      → W
      → ResourceReclaimer W × W × Option String
  unfolding act_all work_all
  reclaim [] turns m w = (m, w, none)
  reclaim (id ∷ ids) turns m w = elim (Dict.lookup id m.resources) [
    | none ↦ (m, w, some id)
    | some r ↦ elim r.cleanup [
      | none ↦ reclaim ids turns (pop m id) w
      | some cleanup ↦
          let ts = next_turns turns in
          reclaim ids (later_turns turns) (act_all (pop m id) ts) (work_all ts (cleanup w))
    ]
  ]

  -- `reclaim_expired`: the registry and the world at the end, and the identifiers that it returns, or
  -- the one of its `KeyError`.
  pub reclaim_expired :
      ResourceReclaimer W → ℕ → List (List (Turn W)) → W → ResourceReclaimer W × W × Reclamation
  unfolding reclaim expired_ids
  reclaim_expired m now turns w =
      let ids = expired_ids now m.resources in
      let (m', w', missing) = reclaim ids turns m w in
      (m', w', elim missing [ none ↦ reclaimed ids | some id ↦ key_error id ])

  -- `expired_count`
  pub expired_count : ResourceReclaimer W → ℕ → ℕ
  expired_count m now = count (λ e. expired now e.1) m.resources

  -- `list_resources`, as the resources listed.
  pub list_resources : ResourceReclaimer W → Option String → List (String × Resource W)
  list_resources m none = m.resources
  list_resources m (some kind) = keep (λ e. e.1.kind ≟ kind) m.resources
