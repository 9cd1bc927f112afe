-- ===== src/Presence/Sets.antt =====
-- src/lib/presence/presence-store.ts: the geo set and the busy set of a region. Every command fails
-- when Redis does not answer.
use swiftbite_orders.Common.{
  ℕ, zero, suc, ◌+◌, List, [], ◌∷◌, ◌==◌, includes, if◌then◌else◌, length,
}
use swiftbite_orders.Common.Int.{ℤ}
use swiftbite_orders.Domain.Error.{ok, err, redis_error}
use swiftbite_orders.Domain.Order.{Text}
use swiftbite_orders.Store.World.{Presence, at_region}
use swiftbite_orders.Store.Env.{Env, CandidateAgent}
use swiftbite_orders.Store.Action.{Action}

-- SADD and SREM, ZADD by member and ZREM.
abbrev pub set_add : ℕ → List ℕ → List ℕ
set_add a xs = if includes a xs then xs else a ∷ xs

abbrev pub set_remove : ℕ → List ℕ → List ℕ
set_remove a [] = []
set_remove a (x ∷ xs) = let rest = set_remove a xs in if a == x then rest else x ∷ rest

abbrev pub change : Env → Text → (Presence → Presence) → Action (Unit {0})
change env region f w =
    if env.redis_up
    then (ok tt, record w { presence = at_region w.presence region (f (w.presence region)) })
    else (err redis_error, w)

unfoldable pub set_agent_online : Env → Text → ℕ → Action (Unit {0})
set_agent_online env region agent_id =
    change env region
      (λ p. record { geo = set_add agent_id p.geo; busy = set_remove agent_id p.busy })

unfoldable pub set_agent_offline : Env → Text → ℕ → Action (Unit {0})
set_agent_offline env region agent_id =
    change env region
      (λ p. record { geo = set_remove agent_id p.geo; busy = set_remove agent_id p.busy })

unfoldable pub ping_agent : Env → Text → ℕ → Action (Unit {0})
ping_agent env region agent_id = change env region (λ p. record p { geo = set_add agent_id p.geo })

unfoldable pub mark_agent_busy : Env → Text → ℕ → Action (Unit {0})
mark_agent_busy env region agent_id =
    change env region (λ p. record p { busy = set_add agent_id p.busy })

unfoldable pub mark_agent_free : Env → Text → ℕ → Action (Unit {0})
mark_agent_free env region agent_id =
    change env region (λ p. record p { busy = set_remove agent_id p.busy })

-- The loop over the answer of GEOSEARCH: busy agents are passed over, and it ends at `limit`.
abbrev pub free_candidates : List ℕ → ℕ → List CandidateAgent → List CandidateAgent
free_candidates busy zero cs = []
free_candidates busy (suc limit) [] = []
free_candidates busy (suc limit) (c ∷ cs) =
    if includes c.agent_id busy
    then free_candidates busy (suc limit) cs
    else c ∷ free_candidates busy limit cs

unfoldable pub find_nearby_online_agents : Env → Text → ℤ → ℤ → ℕ → Action (List CandidateAgent)
find_nearby_online_agents env region lat lng limit w =
    let p = w.presence region in
    if env.redis_up
    then (
      ok (free_candidates p.busy limit (env.geo_search p.geo lat lng (limit + length p.busy))),
      w,
    )
    else (err redis_error, w)
