-- ===== src/Agent/Presence/Laws.antt =====
-- What going offline does: src/app/agent/service/presence.service.ts.
use swiftbite_orders.Common.{
  ℕ, ◌≡◌, refl, sym, ap, subst, Bool, true, false, ◌&&◌, inl, inr, List, [], ◌∷◌, ◌==◌,
  if◌then◌else◌, Bool-cases, includes, update, All,
}
use swiftbite_orders.Domain.Error.{ok, agent_in_active_delivery}
use swiftbite_orders.Domain.Order.{Text, Time}
use swiftbite_orders.Domain.Delivery.{AgentPresenceEntity}
use swiftbite_orders.Store.Db.{Db}
use swiftbite_orders.Store.Env.{Env}
use swiftbite_orders.Store.World.{World, Presence, at_region, at_region_self}
use swiftbite_orders.Store.Action.Runs.{query-bind, throw_if-bind, exec-bind, any-bind}
use swiftbite_orders.Presence.Sets.{set_remove, set_agent_offline}
use swiftbite_orders.Delivery.Repo.{find_active_delivery_by_agent_id}
use swiftbite_orders.Agent.Repo.{is_agent, set_agent_presence_offline}
use swiftbite_orders.Agent.Presence.{has_picked, hand_over, offline}

includes-set_remove : (a : ℕ) (xs : List ℕ) → includes a (set_remove a xs) ≡ false
includes-set_remove a [] = refl
includes-set_remove a (x ∷ xs) = elim (Bool-cases (a == x)) [
  | inl same ↦ rw same (includes-set_remove a xs)
  | inr other ↦ rw (other, other) (includes-set_remove a xs)
]

-- No row of the agent says that it is online.
abbrev pub Offline : ℕ → AgentPresenceEntity → Type 0
Offline agent_id a = (is_agent agent_id a && a.is_online) ≡ false

update-Offline :
    (now : Time) (agent_id : ℕ) (rows : List AgentPresenceEntity)
    → All (Offline agent_id) (
        update
          (is_agent agent_id)
          (λ a. record a { is_online = false; last_seen_at = now; updated_at = now })
          rows)
update-Offline now agent_id [] = tt
update-Offline now agent_id (a ∷ rows) =
    (one (is_agent agent_id a) refl, update-Offline now agent_id rows)
  where
    one :
        (hit : Bool)
        → is_agent agent_id a ≡ hit
        → Offline agent_id (
            if hit then record a { is_online = false; last_seen_at = now; updated_at = now } else a)
    one true e = rw e refl
    one false e = rw e refl

abbrev left_sets : ℕ → Presence → Presence
left_sets agent_id p = record { geo = set_remove agent_id p.geo; busy = set_remove agent_id p.busy }

abbrev without : Env → ℕ → Text → World → World
without env agent_id region v = record v {
  presence = at_region v.presence region (left_sets agent_id (v.presence region));
}

set_agent_offline-without :
    (env : Env) (agent_id : ℕ) (region : Text) (v : World) {gone : World}
    → set_agent_offline env region agent_id v ≡ (ok tt, gone)
    → without env agent_id region v ≡ gone
unfolding set_agent_offline
set_agent_offline-without env agent_id region v h = elim (Bool-cases env.redis_up) [
  | inl up ↦ ap (λ t. t.1) (rw up at h)
  | inr down ↦ cc (ap (λ t. t.0) (rw down at h))
]

-- The agent has gone offline, in the world in which its delivery is then handed over.
abbrev pub WentOffline : Env → ℕ → Text → World → World → Type 0
WentOffline env agent_id region w w' =
    let active = find_active_delivery_by_agent_id agent_id (w.hot region) in
    (has_picked active ≡ false)
    × ((gone : World) × All (Offline agent_id) (gone.hot region).agent_presence
        × (includes agent_id (gone.presence region).geo ≡ false)
        × (includes agent_id (gone.presence region).busy ≡ false)
        × (hand_over env region active gone ≡ (ok tt, w')))

-- When an agent has gone offline, the active delivery that was found for it, the first in the table,
-- if there is one, was not picked up; and that delivery is handed over only once neither the table
-- nor the sets offer the agent any more.
pub offline-WentOffline :
    (env : Env) (agent_id : ℕ) (region : Text) (w : World) {w' : World}
    → offline env agent_id region w ≡ (ok tt, w')
    → WentOffline env agent_id region w w'
unfolding offline set_agent_presence_offline
offline-WentOffline env agent_id region w {w'} h =
    let active = find_active_delivery_by_agent_id agent_id (w.hot region) in
    let h1 = query-bind region (find_active_delivery_by_agent_id agent_id) _ w h in
    let (not_picked, h2) = throw_if-bind (has_picked active) agent_in_active_delivery _ w h1 in
    let h3 = exec-bind region (set_agent_presence_offline env.now agent_id) _ w h2 in
    let (done, gone, left, h4) =
      any-bind (set_agent_offline env region agent_id) _ offline_row h3 in
    (not_picked, (gone, in_table gone left, (in_sets gone left).0, (in_sets gone left).1, h4))
  where
    offline_row : World
    offline_row = record w {
      hot = at_region w.hot region (set_agent_presence_offline env.now agent_id (w.hot region)).1;
    }

    gone_is :
        {gone : World}
        → set_agent_offline env region agent_id offline_row ≡ (ok tt, gone)
        → without env agent_id region offline_row ≡ gone
    gone_is left = set_agent_offline-without env agent_id region offline_row left

    in_table :
        (gone : World)
        → set_agent_offline env region agent_id offline_row ≡ (ok tt, gone)
        → All (Offline agent_id) (gone.hot region).agent_presence
    in_table gone left =
        subst (λ (v : World). All (Offline agent_id) (v.hot region).agent_presence) (gone_is left)
          (subst (λ (db : Db). All (Offline agent_id) db.agent_presence)
            (sym (
              at_region_self w.hot region
                (set_agent_presence_offline env.now agent_id (w.hot region)).1))
            (update-Offline env.now agent_id (w.hot region).agent_presence))

    in_sets :
        (gone : World)
        → set_agent_offline env region agent_id offline_row ≡ (ok tt, gone)
        → (includes agent_id (gone.presence region).geo ≡ false)
          × (includes agent_id (gone.presence region).busy ≡ false)
    in_sets gone left =
        subst
          (λ (v : World).
            (includes agent_id (v.presence region).geo ≡ false)
            × (includes agent_id (v.presence region).busy ≡ false))
          (gone_is left)
          (subst
            (λ (p : Presence).
              (includes agent_id p.geo ≡ false) × (includes agent_id p.busy ≡ false))
            (sym (at_region_self w.presence region (left_sets agent_id (w.presence region))))
            (
              includes-set_remove agent_id (w.presence region).geo,
              includes-set_remove agent_id (w.presence region).busy,
            ))
