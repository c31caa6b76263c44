-- ===== src/Herms/Grayscale/Tests.antt =====
-- Two versions, and the theorem at a concrete input.
use ai_agent_code.Common.{
  ℕ, ◌<◌, ◌≡◌, refl, true, false, none, [], ◌∷◌, String, string_key, nat_key,
}
use ai_agent_code.Herms.Grayscale.{VersionTarget, GrayscaleRouter, init, route, canary}
use ai_agent_code.Herms.Grayscale.Shares.{IsShare, route-IsShare}

abbrev target : String → ℕ → VersionTarget ℕ
target name weight = record { name = name; weight = weight; config = weight }

abbrev router : GrayscaleRouter ℕ
router = record {
  first = target "stable" 90;
  others = target "canary" 10 ∷ [];
  salt = "llm-platform";
  scale = 100;
}

-- A hash of every text to one number.
abbrev hash : ℕ → String → ℕ
hash n text = n

no_targets : init {C = ℕ} [] "salt" 100 ≡ none
unfolding init
no_targets = refl

edge : (canary (hash 189) router "a" ≡ false) × (canary (hash 190) router "a" ≡ true)
unfolding canary
edge = (refl, refl)

route-IsShare_example :
    (t : VersionTarget ℕ) × ((route (hash 195) router "a").selected ≡ t.name)
    × ((route (hash 195) router "a").metadata ≡ t.config)
    × ((route (hash 195) router "a").bucket < 100)
    × IsShare 100
        (route (hash 195) router "a").bucket
        0
        (target "stable" 90 ∷ target "canary" 10 ∷ [])
        t
route-IsShare_example = route-IsShare (hash 195) router "a"
