-- ===== src/Gateway/Breaker/Manager.antt =====
-- src/ai_gateway/circuit_breaker.py: `CircuitBreakerManager`, one breaker for each provider name.
-- The manager's lock covers the lookup, and the breaker's own lock the call that follows.
use ai_agent_code.Common.Dict
use ai_agent_code.Common.Dict.{Dict}
use ai_agent_code.Common.{
  Bool-cases, ◌∙◌, ap, inr, inl, refl, string_key, if◌then◌else◌, arith, none, some, Bool, ◌∷◌, ◌≡◌,
  ℕ, Option, List, [], String, ◌≟◌,
}
use ai_agent_code.Gateway.Breaker.{
  CircuitConfig, CircuitBreaker, Call, resets, init, step, reset, before_call,
}

pub record CircuitBreakerManager : Type 0 where
  pub default_config : CircuitConfig
  pub breakers : Dict String CircuitBreaker

unfoldable pub init_manager : CircuitConfig → CircuitBreakerManager
init_manager config = record { default_config = config; breakers = [] }

-- `get_or_create`, with the optional override of the configuration.
pub get_or_create :
    CircuitBreakerManager
    → String
    → Option CircuitConfig
    → ℕ
    → CircuitBreakerManager × CircuitBreaker
get_or_create m name config now = elim (Dict.lookup name m.breakers) [
  | some b ↦ (m, b)
  | none ↦
      let b = init (elim config [ none ↦ m.default_config | some c ↦ c ]) now in
      (record m { breakers = Dict.insert name b m.breakers }, b)
]

-- `reset_all`: the loop over the breakers, one after the other under its own lock.
reset_each : ℕ → Dict String CircuitBreaker → Dict String CircuitBreaker
reset_each now [] = []
reset_each now ((name, b) ∷ d) = (name, reset b now) ∷ reset_each now d

pub reset_all : CircuitBreakerManager → ℕ → CircuitBreakerManager
unfolding reset_each
reset_all m now = record m { breakers = reset_each now m.breakers }

-- The calls of the manager. `calls` are its `before_call`, `on_success`, `on_failure` and `reset`, and
-- the client that reads `failure_count` of a breaker that it was given; `creates` is `get_or_create`.
pub data ManagerCall : Type 0 where
  calls : String → Call → ManagerCall
  creates : String → Option CircuitConfig → ManagerCall
  resets_all : ManagerCall

-- One call at its time: the named breaker is found or created, and takes the call.
pub manage : CircuitBreakerManager → ℕ × ManagerCall → CircuitBreakerManager
unfolding get_or_create reset_all
manage m (now, calls name call) =
    let (m', b) = get_or_create m name none now in
    record m' { breakers = Dict.insert name (step b (now, call)) m'.breakers }
manage m (now, creates name config) = (get_or_create m name config now).0
manage m (now, resets_all) = reset_all m now

-- The answer of the manager's `before_call`.
pub allows : CircuitBreakerManager → String → ℕ → Bool
unfolding get_or_create
allows m name now = (before_call (get_or_create m name none now).1 now).1

pub manage_all : CircuitBreakerManager → List (ℕ × ManagerCall) → CircuitBreakerManager
manage_all m [] = m
manage_all m (c ∷ cs) = manage_all (manage m c) cs

-- What happens to a breaker that runs by itself: a call, which makes it if it is not there yet; its
-- making, with a configuration; and a reset, if it is there.
pub data Event : Type 0 where
  called : Call → Event
  created : CircuitConfig → Event
  reset_if_any : Event

pub react : CircuitConfig → Option CircuitBreaker → ℕ × Event → Option CircuitBreaker
react config none (now, called call) = some (step (init config now) (now, call))
react config (some b) (now, called call) = some (step b (now, call))
react config none (now, created config') = some (init config' now)
react config (some b) (now, created config') = some b
react config none (now, reset_if_any) = none
react config (some b) (now, reset_if_any) = some (step b (now, resets))

pub alone : CircuitConfig → Option CircuitBreaker → List (ℕ × Event) → Option CircuitBreaker
alone config o [] = o
alone config o (e ∷ es) = alone config (react config o e) es

or_default : CircuitConfig → Option CircuitConfig → CircuitConfig
or_default config none = config
or_default config (some c) = c

-- What the manager's calls are for one name: the calls of that name, its making, with the
-- configuration given or else the default one, and every `reset_all`.
pub events_of : CircuitConfig → String → List (ℕ × ManagerCall) → List (ℕ × Event)
unfolding or_default
events_of config name [] = []
events_of config name ((now, calls other call) ∷ cs) =
    let rest = events_of config name cs in if name ≟ other then (now, called call) ∷ rest else rest
events_of config name ((now, creates other c) ∷ cs) =
    let rest = events_of config name cs in
    if name ≟ other then (now, created (or_default config c)) ∷ rest else rest
events_of config name ((now, resets_all) ∷ cs) = (now, reset_if_any) ∷ events_of config name cs

manage-config :
    (m : CircuitBreakerManager) (c : ℕ × ManagerCall)
    → (manage m c).default_config ≡ m.default_config
unfolding manage
manage-config m (now, calls name call) = ground arith
manage-config m (now, creates name config) = ground arith
manage-config m (now, resets_all) = refl

calls-lookup :
    (name : String) (m : CircuitBreakerManager) (now : ℕ) (other : String) (call : Call)
    → Dict.lookup name (manage m (now, calls other call)).breakers ≡ (
        if name ≟ other
        then react m.default_config (Dict.lookup name m.breakers) (now, called call)
        else Dict.lookup name m.breakers)
unfolding manage react
calls-lookup name m now other call =
    grind (arith, Dict.lookup-insert, string_key.same_iff name other)

creates-lookup :
    (name : String) (m : CircuitBreakerManager) (now : ℕ) (other : String)
    (config : Option CircuitConfig)
    → Dict.lookup name (manage m (now, creates other config)).breakers ≡ (
        if name ≟ other
        then react m.default_config
            (Dict.lookup name m.breakers)
            (now, created (or_default m.default_config config))
        else Dict.lookup name m.breakers)
unfolding manage react or_default
creates-lookup name m now other config =
    grind (arith, Dict.lookup-insert, string_key.same_iff name other)

reset_each-lookup :
    (name : String) (now : ℕ) (config : CircuitConfig) (d : Dict String CircuitBreaker)
    → Dict.lookup name (reset_each now d) ≡ react config (Dict.lookup name d) (now, reset_if_any)
unfolding reset_each react step
reset_each-lookup name now config [] = refl
reset_each-lookup name now config ((other, b) ∷ d) = elim (Bool-cases (name ≟ other)) [
  | inl e ↦ rw e refl
  | inr e ↦ rw e (reset_each-lookup name now config d)
]

-- What the manager holds under a name, after any calls, is what a breaker running alone would have
-- become under the calls of that name and every `reset_all`: no call for another name touches it. It
-- is made by its first call or by `get_or_create`, which alone can give it a configuration other than
-- the default; `reset_all` makes none.
pub manage_all-lookup :
    (name : String) (m : CircuitBreakerManager) (cs : List (ℕ × ManagerCall))
    → Dict.lookup name (manage_all m cs).breakers
      ≡ alone m.default_config (Dict.lookup name m.breakers) (events_of m.default_config name cs)
unfolding manage_all events_of alone
manage_all-lookup name m [] = refl
manage_all-lookup name m ((now, calls other call) ∷ cs) =
    manage_all-lookup name (manage m (now, calls other call)) cs
    ∙ rw (manage-config m (now, calls other call), calls-lookup name m now other call)
        (elim (Bool-cases (name ≟ other)) [ inl e ↦ rw e refl | inr e ↦ rw e refl ])
manage_all-lookup name m ((now, creates other config) ∷ cs) =
    manage_all-lookup name (manage m (now, creates other config)) cs
    ∙ rw (manage-config m (now, creates other config), creates-lookup name m now other config)
        (elim (Bool-cases (name ≟ other)) [ inl e ↦ rw e refl | inr e ↦ rw e refl ])
manage_all-lookup name m ((now, resets_all) ∷ cs) =
    manage_all-lookup name (manage m (now, resets_all)) cs
    ∙ rw (manage-config m (now, resets_all)) (
        ap (λ o. alone m.default_config o (events_of m.default_config name cs))
          (unfold manage reset_all in reset_each-lookup name now m.default_config m.breakers))
