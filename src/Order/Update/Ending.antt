-- ===== src/Order/Update/Ending.antt =====
-- What follows the commit of updateStatus (order.service.ts), when it goes through and when the
-- statement on the deliveries fails.
use swiftbite_orders.Common.{
  ℕ, ◌≡◌, refl, ap, sym, ◌∙◌, subst, arith, Bool, true, false, ◌&&◌, not, inl, inr, Option, none,
  some,
}
use swiftbite_orders.Domain.Error.{Error, ok, err, database_error, ok-injective, err-injective}
use swiftbite_orders.Domain.Order.{Text, OrderEntity, OrderStatus, is_cancelled, is_assigned}
use swiftbite_orders.Domain.Event.{Message, customer_channel, branch_channel}
use swiftbite_orders.Store.World.{World}
use swiftbite_orders.Store.Env.{Env}
use swiftbite_orders.Store.Action.{Action, exec, ◌>>=◌, ◌>>◌, pure, publish, run_if, throw_if}
use swiftbite_orders.Store.Action.Atomic.{Total, Succeeds, total_rules}
use swiftbite_orders.Store.Action.Runs.{any-bind, bind-failure}
use swiftbite_orders.Delivery.Repo.{cancel_active_delivery_for_order}
use swiftbite_orders.Order.Update.{release_agent, free_agent, after_change}
use swiftbite_orders.Presence.Sets.{mark_agent_free}

free_agent-Total :
    (env : Env) (region : Text) (freed : Option ℕ) → Total (free_agent env region freed)
unfolding free_agent
free_agent-Total env region none = search total_rules
free_agent-Total env region (some a) = search total_rules

-- A run that cannot throw has not thrown.
Total-failure :
    {A : Type 0} (m : Action A) (w : World) {e : Error} {v : World} → Total m → m w ≡ (err e, v) → ⊥
Total-failure m w total h = subst Succeeds h (total.at w)

released-Total :
    (env : Env) (region : Text) (id : ℕ)
    → Total
        (exec region (cancel_active_delivery_for_order id) >>= λ freed. free_agent env region freed)
released-Total env region id = search (total_rules, free_agent-Total)

told-Total :
    (o : OrderEntity) (message : Message) (updated : OrderEntity)
    → Total (
        publish (customer_channel o.customer_id) message
        >> (publish (branch_channel o.branch_id) message >> pure updated))
told-Total o message updated = search total_rules

release_agent-keeps :
    (env : Env) (region : Text) (id : ℕ) (w : World)
    → let v = (release_agent env region id w).1 in
      ((v.hot region).orders ≡ (w.hot region).orders)
      × ((v.hot region).events_outbox ≡ (w.hot region).events_outbox)
unfolding release_agent free_agent mark_agent_free ◌>>=◌ throw_if
release_agent-keeps env region id w = ground arith

release_agent-ok :
    (env : Env) (region : Text) (id : ℕ) (go : Bool) (w : World) {u : Unit {0}} {v : World}
    → run_if go (release_agent env region id) w ≡ (ok u, v)
    → ((v.hot region).orders ≡ (w.hot region).orders)
      × ((v.hot region).events_outbox ≡ (w.hot region).events_outbox)
unfolding run_if
release_agent-ok env region id false w h = (
  ap (λ t. ((t.1).hot region).orders) (sym h),
  ap (λ t. ((t.1).hot region).events_outbox) (sym h),
)
release_agent-ok env region id true w h =
    let (orders, outbox) = release_agent-keeps env region id w in
    (
      ap (λ t. ((t.1).hot region).orders) (sym h) ∙ orders,
      ap (λ t. ((t.1).hot region).events_outbox) (sym h) ∙ outbox,
    )

throw_if-failure :
    (test : Bool) (x : Error) (w : World) {e : Error} {v : World}
    → throw_if test x w ≡ (err e, v)
    → (test ≡ true) × (e ≡ x) × (v ≡ w)
unfolding throw_if
throw_if-failure true x w h = (refl, err-injective (ap (λ t. t.0) (sym h)), ap (λ t. t.1) (sym h))
throw_if-failure false x w h = cc (ap (λ t. t.0) h)

release_agent-failure :
    (env : Env) (region : Text) (id : ℕ) (go : Bool) (w : World) {e : Error} {v : World}
    → run_if go (release_agent env region id) w ≡ (err e, v)
    → (go ≡ true) × (env.cancel_goes_through ≡ false) × (e ≡ database_error) × (v ≡ w)
unfolding release_agent run_if
release_agent-failure env region id false w h = cc (ap (λ t. t.0) h)
release_agent-failure env region id true w h =
    elim (bind-failure (throw_if (not env.cancel_goes_through) database_error) _ w h) [
      | inl threw ↦
          let (failed, same, stay) =
            throw_if-failure (not env.cancel_goes_through) database_error w threw in
          (refl, ground arith, same, stay)
      | inr (a, x, went, h1) ↦ absurd (Total-failure _ x (released-Total env region id) h1)
    ]

told :
    (o : OrderEntity) (message : Message) (updated : OrderEntity) (w : World) {r : OrderEntity}
    {w' : World}
    → (publish (customer_channel o.customer_id) message
          >> (publish (branch_channel o.branch_id) message >> pure updated))
        w
      ≡ (ok r, w')
    → (updated ≡ r) × (w'.hot ≡ w.hot)
unfolding ◌>>=◌
told o message updated w h = (ok-injective (ap (λ t. t.0) h), ap (λ t. (t.1).hot) (sym h))

-- What follows the commit, where it goes through, leaves the orders and the outbox alone and hands
-- the entity back.
pub after_change-ok :
    (env : Env) (region : Text) (o : OrderEntity) (target : OrderStatus) (updated : OrderEntity)
    (w : World) {r : OrderEntity} {w' : World}
    → after_change env region o target updated w ≡ (ok r, w')
    → (updated ≡ r)
      × ((w'.hot region).orders ≡ (w.hot region).orders)
      × ((w'.hot region).events_outbox ≡ (w.hot region).events_outbox)
unfolding after_change
after_change-ok env region o target updated w h =
    let (_, v, released, h1) = any-bind _ _ _ h in
    let (orders, outbox) = release_agent-ok env region o.id _ w released in
    let (same, end) = told o _ updated v h1 in
    (
      same,
      ap (λ f. (f region).orders) end ∙ orders,
      ap (λ f. (f region).events_outbox) end ∙ outbox,
    )

-- Where it throws, the statement on the deliveries of a cancelled order has failed, and nothing is
-- written.
pub after_change-failure :
    (env : Env) (region : Text) (o : OrderEntity) (target : OrderStatus) (updated : OrderEntity)
    (w : World) {e : Error} {w' : World}
    → after_change env region o target updated w ≡ (err e, w')
    → ((is_cancelled target && is_assigned o.status) ≡ true)
      × (env.cancel_goes_through ≡ false)
      × (e ≡ database_error)
      × (w' ≡ w)
unfolding after_change
after_change-failure env region o target updated w h =
    elim (bind-failure
      (run_if (is_cancelled target && is_assigned o.status) (release_agent env region o.id)) _ w
      h) [
        | inl failed ↦ release_agent-failure env region o.id _ w failed
        | inr (a, v, went, h1) ↦ absurd (Total-failure _ v (told-Total o _ updated) h1)
      ]
