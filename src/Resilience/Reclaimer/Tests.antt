-- ===== src/Resilience/Reclaimer/Tests.antt =====
-- Runs of the reclaimer, and the theorem at a concrete input.
use ai_agent_code.Common.{
  ℕ, ◌+◌, ◌≡◌, refl, none, some, List, [], ◌∷◌, String, length, string_key, nat_key,
}
use ai_agent_code.Resilience.Reclaimer.{
  Resource, ResourceReclaimer, init, expired_count, list_resources, expired_ids, Turn, registers,
  unregisters, works, reclaimed, key_error, reclaim_expired,
}
use ai_agent_code.Resilience.Reclaimer.Turns.{IsApart}
use ai_agent_code.Resilience.Reclaimer.Held.{live}
use ai_agent_code.Resilience.Reclaimer.Sweep.{sweep, Apart}
use ai_agent_code.Resilience.Reclaimer.Expiry.{Call, takes, reclaims, run, reclaim_expired-Apart}

-- The world counts the sandboxes that were destroyed.
abbrev sandbox : String → ℕ → Resource ℕ
sandbox id now = record {
  resource_id = id;
  kind = "sandbox";
  ttl_seconds = 60;
  created_at = now;
  cleanup = some (λ w. w + 1);
}

abbrev registry : ResourceReclaimer ℕ
registry = record { resources = ("s1", sandbox "s1" 0) ∷ ("s2", sandbox "s2" 50) ∷ [] }

one_expired : expired_count registry 60 ≡ 1
unfolding expired_count
one_expired = refl

both_listed : length (list_resources registry (some "sandbox")) ≡ 2
unfolding list_resources
both_listed = refl

-- While the first sandbox is destroyed, its owner unregisters the second, which has expired too.
both_expired :
    reclaim_expired registry 200 ((unregisters "s2" ∷ []) ∷ []) 0
    ≡ (record { resources = [] }, 1, key_error "s2")
unfolding reclaim_expired
both_expired = refl

-- While the first is destroyed, the second is registered anew, and is destroyed before its time.
renewed :
    (reclaim_expired registry 200
      ((registers "s2" "sandbox" 60 (some (λ w. w + 10)) 200 ∷ []) ∷ [])
      0)
    ≡ (record { resources = [] }, 11, reclaimed ("s1" ∷ "s2" ∷ []))
unfolding reclaim_expired
renewed = refl

abbrev calls : List (Call ℕ)
calls =
    takes (registers "s1" "sandbox" 60 (some (λ w. w + 1)) 0)
    ∷ takes (registers "s2" "sandbox" 60 (some (λ w. w + 1)) 0)
    ∷ takes (registers "s3" "sandbox" 60 none 90)
    ∷ reclaims 50 []
    ∷ []

abbrev turns : List (List (Turn ℕ))
turns = (registers "s4" "lock" 5 none 100 ∷ works (λ w. w + 100) ∷ []) ∷ []

turns-Apart : Apart (expired_ids 100 (run init 0 calls).0.resources) turns
unfolding run IsApart init expired_ids reclaim_expired
turns-Apart = ((refl, (tt, tt)), tt)

reclaim_expired-Apart_example :
    let (m, w') = run init 0 calls in
    let live_only : ResourceReclaimer ℕ = record { resources = live 100 m.resources } in
    let (after, w'') = sweep 100 m.resources turns live_only w' in
    reclaim_expired m 100 turns w' ≡ (after, w'', reclaimed (expired_ids 100 m.resources))
reclaim_expired-Apart_example = reclaim_expired-Apart 0 calls 100 turns turns-Apart
