-- ===== src/Delivery/Assign/Laws.antt =====
-- What an assignment that succeeds has written: assignment.service.ts.
use swiftbite_orders.Common.{
  ℕ, ◌≡◌, sym, ap, ◌∙◌, subst, false, Option, none, some, List, [], ◌∷◌, ◌++◌, Bool-cases, inl, inr,
  some-injective, update,
}
use swiftbite_orders.Domain.Error.{ok, ok-pair, ok-injective}
use swiftbite_orders.Domain.Order.{Text, Time, OrderEntity, OrderStatus}
use swiftbite_orders.Domain.Delivery.{DeliveryEntity, assigned}
use swiftbite_orders.Store.Db.{Db}
use swiftbite_orders.Store.World.{World, at_region_self}
use swiftbite_orders.Store.Env.{Env, CandidateAgent}
use swiftbite_orders.Store.Action.{Action, ◌>>=◌, pure, catch}
use swiftbite_orders.Store.Action.Runs.{pure-ok, any-bind, query-bind, throw_if-bind, transact-bind}
use swiftbite_orders.Order.Repo.{has_id, set_delivery_agent}
use swiftbite_orders.Delivery.Repo.{create_delivery, agent_has_active_delivery}
use swiftbite_orders.Delivery.Assign.{
  AssignmentOrderContext, AssignmentBranchContext, candidate_limit, delivery_input, assign_tx,
  create_end, create_assignment, fall_back, take_best, try_assign, assign_manual,
}
use swiftbite_orders.Presence.Sets.{find_nearby_online_agents, mark_agent_busy}

-- The order's row once an agent has it.
abbrev pub given_to : Time → ℕ → OrderEntity → OrderEntity
given_to now agent_id r = record r {
  delivery_agent_id = some agent_id;
  status = OrderStatus.assigned;
  assigned_at = some now;
  updated_at = now;
}

-- One delivery is added, for the order and assigned, and the order's row bears its agent.
pub record Assigns (now : Time) (region : Text) (order_id : ℕ) (d : DeliveryEntity) (w w' : World)
    : Type 0 where
  pub rows : (w'.hot region).deliveries.rows ≡ (w.hot region).deliveries.rows ++ d ∷ []
  pub orders :
      (w'.hot region).orders.rows
      ≡ update (has_id order_id) (given_to now d.agent_id) (w.hot region).orders.rows
  pub order : d.order_id ≡ order_id
  pub status : d.status ≡ assigned

-- After the commit only the presence and the messages change.
told :
    (env : Env) (region : Text) (o : AssignmentOrderContext) (agent_id : ℕ) (d : DeliveryEntity)
    (w : World) {r : DeliveryEntity} {w' : World}
    → create_end env region o agent_id d w ≡ (ok r, w')
    → (d ≡ r) × (w.hot ≡ w'.hot)
unfolding create_end ◌>>=◌ mark_agent_busy
told env region o agent_id d w h = elim (Bool-cases env.redis_up) [
  | inl up ↦ let k = rw up at h in (ok-injective (ap (λ t. t.0) k), ap (λ t. (t.1).hot) k)
  | inr down ↦ let k = rw down at h in (ok-injective (ap (λ t. t.0) k), ap (λ t. (t.1).hot) k)
]

assign_tx-rows :
    (env : Env) (region : Text) (o : AssignmentOrderContext) (branch : AssignmentBranchContext)
    (agent_id : ℕ) (distance from : Option ℕ) (db : Db) {d : DeliveryEntity} {db' : Db}
    → assign_tx env.now (delivery_input region o branch agent_id distance from) db ≡ ok (d, db')
    → (db'.deliveries.rows ≡ db.deliveries.rows ++ d ∷ [])
      × (db'.orders.rows ≡ update (has_id o.id) (given_to env.now agent_id) db.orders.rows)
      × (d.order_id ≡ o.id)
      × (d.agent_id ≡ agent_id)
      × (d.status ≡ assigned)
unfolding assign_tx create_delivery set_delivery_agent
assign_tx-rows env region o branch agent_id distance from db h =
    let (made, written) = ok-pair h in
    (
      ap (λ (x : Db). x.deliveries.rows) (sym written)
          ∙ ap (λ x. db.deliveries.rows ++ x ∷ []) made,
      ap (λ (x : Db). x.orders.rows) (sym written),
      ap (λ (x : DeliveryEntity). x.order_id) (sym made),
      ap (λ (x : DeliveryEntity). x.agent_id) (sym made),
      ap (λ (x : DeliveryEntity). x.status) (sym made),
    )

pub create_assignment-Assigns :
    (env : Env) (region : Text) (o : AssignmentOrderContext) (branch : AssignmentBranchContext)
    (agent_id : ℕ) (distance from : Option ℕ) (w : World) {r : DeliveryEntity} {w' : World}
    → create_assignment env region o branch agent_id distance from w ≡ (ok r, w')
    → Assigns env.now region o.id r w w' × (r.agent_id ≡ agent_id)
unfolding create_assignment
create_assignment-Assigns env region o branch agent_id distance from w {r} {w'} h =
    let (d, db, written, h1) = transact-bind _ _ _ _ h in
    let (same, kept) = told env region o agent_id d _ h1 in
    let (rows, orders, order, agent, status) =
      assign_tx-rows env region o branch agent_id distance from (w.hot region) written in
    let here : w'.hot region ≡ db =
      ap (λ f. f region) (sym kept) ∙ at_region_self w.hot region db in
    (
      record {
        rows =
            ap (λ (x : Db). x.deliveries.rows) here
            ∙ rows
            ∙ ap (λ x. (w.hot region).deliveries.rows ++ x ∷ []) same;
        orders =
            ap (λ (x : Db). x.orders.rows) here
            ∙ orders
            ∙ ap (λ a. update (has_id o.id) (given_to env.now a) (w.hot region).orders.rows)
                (sym agent ∙ ap (λ (x : DeliveryEntity). x.agent_id) same);
        order = ap (λ (x : DeliveryEntity). x.order_id) (sym same) ∙ order;
        status = ap (λ (x : DeliveryEntity). x.status) (sym same) ∙ status;
      },
      ap (λ (x : DeliveryEntity). x.agent_id) (sym same) ∙ agent,
    )

-- Whatever Redis answers, the search writes nothing and cannot fail.
near-bind :
    {B : Type 0} (env : Env) (region : Text) (branch : AssignmentBranchContext)
    (f : List CandidateAgent → Action B) (w : World) {b : B} {w' : World}
    → (catch
            (find_nearby_online_agents env region branch.lat branch.lng candidate_limit)
            (λ _. pure [])
          >>= f)
        w
      ≡ (ok b, w')
    → (cs : List CandidateAgent) × (f cs w ≡ (ok b, w'))
unfolding ◌>>=◌ find_nearby_online_agents
near-bind env region branch f w h = elim (Bool-cases env.redis_up) [
  | inl up ↦ (_, rw up at h)
  | inr down ↦ ([], rw down at h)
]

fall_back-bind :
    {B : Type 0} (env : Env) (region : Text) (branch : AssignmentBranchContext)
    (near : List CandidateAgent) (f : List CandidateAgent → Action B) (w : World) {b : B}
    {w' : World}
    → (fall_back env region branch near >>= f) w ≡ (ok b, w')
    → (cs : List CandidateAgent) × (f cs w ≡ (ok b, w'))
unfolding ◌>>=◌
fall_back-bind env region branch [] f w h = (_, h)
fall_back-bind env region branch (c ∷ cs) f w h = (_, h)

take_best-Assigns :
    (env : Env) (region : Text) (o : AssignmentOrderContext) (branch : AssignmentBranchContext)
    (from : Option ℕ) (cs : List CandidateAgent) (w : World) {r : DeliveryEntity} {w' : World}
    → take_best env region o branch from cs w ≡ (ok (some r), w')
    → Assigns env.now region o.id r w w'
take_best-Assigns env region o branch from [] w h = cc ((pure-ok _ _ h).0)
take_best-Assigns env region o branch from (best ∷ cs) w {r} {w'} h =
    let (d, v, made, h1) = any-bind _ _ _ h in
    let (same, end) = pure-ok _ _ h1 in
    let (done, _) = create_assignment-Assigns env region o branch best.agent_id _ from w made in
    subst (λ x. Assigns env.now region o.id x w w') (some-injective same)
      (subst (λ x. Assigns env.now region o.id d w x) end done)

pub try_assign-Assigns :
    (env : Env) (region : Text) (o : AssignmentOrderContext) (branch : AssignmentBranchContext)
    (from : Option ℕ) (w : World) {r : DeliveryEntity} {w' : World}
    → try_assign env region o branch from w ≡ (ok (some r), w')
    → Assigns env.now region o.id r w w'
unfolding try_assign
try_assign-Assigns env region o branch from w h =
    let (near, h1) = near-bind env region branch _ w h in
    let (cs, h2) = fall_back-bind env region branch near _ w h1 in
    take_best-Assigns env region o branch from cs w h2

-- An agent chosen by hand had no active delivery.
pub assign_manual-Assigns :
    (env : Env) (region : Text) (o : AssignmentOrderContext) (branch : AssignmentBranchContext)
    (agent_id : ℕ) (w : World) {r : DeliveryEntity} {w' : World}
    → assign_manual env region o branch agent_id w ≡ (ok r, w')
    → (agent_has_active_delivery agent_id (w.hot region) ≡ false)
      × Assigns env.now region o.id r w w'
      × (r.agent_id ≡ agent_id)
unfolding assign_manual
assign_manual-Assigns env region o branch agent_id w h =
    let (idle, h1) = throw_if-bind _ _ _ _ (query-bind _ _ _ _ h) in
    let (done, agent) = create_assignment-Assigns env region o branch agent_id none none w h1 in
    (idle, done, agent)
