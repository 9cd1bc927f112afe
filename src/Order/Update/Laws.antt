-- ===== src/Order/Update/Laws.antt =====
-- What updateStatus of order.service.ts leaves behind when it throws.
use swiftbite_orders.Common.{
  ◌+◌, ◌≡◌, ◌⊎◌, inl, inr, sym, ap, ◌∙◌, subst, true, false, some, ◌&&◌, update,
}
use swiftbite_orders.Domain.Error.{Error, err, database_error}
use swiftbite_orders.Domain.Order.{Text, OrderEntity, OrderStatus, is_cancelled, is_assigned}
use swiftbite_orders.Store.Db.{insert}
use swiftbite_orders.Store.Env.{Env}
use swiftbite_orders.Store.World.{World, at_region}
use swiftbite_orders.Store.Action.Atomic.{IsUntouched, IsUntouched-refl, Quiet-uuid}
use swiftbite_orders.Store.Action.Runs.{
  or_throw-bind_failure, lift-bind_failure, transact-bind_failure, query-bind_failure,
  uuid-bind_failure,
}
use swiftbite_orders.Events.Outbox.{new_outbox_event}
use swiftbite_orders.Order.Repo.{find_order_by_public_id, has_id}
use swiftbite_orders.Order.Repo.Stamps.{with_status}
use swiftbite_orders.Order.Access.{RequestActor}
use swiftbite_orders.Order.Update.{update_status, status_event}
use swiftbite_orders.Order.Update.Effects.{status_tx-ok}
use swiftbite_orders.Order.Update.Ending.{after_change-failure}

-- The databases, the presence sets and the messages are as they were, or an assigned order has been
-- cancelled with its event, and nothing else: its delivery is still active and its agent busy, since
-- the statement after the commit failed.
abbrev pub Unchanged : Env → Text → Text → OrderStatus → World → Error → World → Type 0
Unchanged env public_id region target w e w' =
    IsUntouched w w'
    ⊎ ((o : OrderEntity) × (r : OrderEntity) × (find_order_by_public_id public_id (w.hot region)
          ≡ some o)
        × ((is_cancelled target && is_assigned o.status) ≡ true)
        × (env.cancel_goes_through ≡ false)
        × (e ≡ database_error)
        × (w' ≡ record w {
          hot = at_region w.hot region (record (w.hot region) {
            orders = record (w.hot region).orders {
              rows = update (has_id o.id) (with_status env.now target) (w.hot region).orders.rows;
            };
            events_outbox =
                insert (w.hot region).events_outbox (
                  new_outbox_event env.now (status_event region o target w.next_uuid r.updated_at));
          });
          next_uuid = w.next_uuid + 1;
        }))

-- When a status change fails, it has written nothing and told nobody: the databases, the presence
-- sets and the messages of every region are as they were. With one exception: where an assigned order
-- is cancelled and the statement on its delivery, after the commit, fails, the order is cancelled and
-- its event is in the outbox, and all else is as it was.
pub update_status-failure :
    (env : Env) (public_id region : Text) (target : OrderStatus) (actor : RequestActor) (w : World)
    {e : Error} {w' : World}
    → update_status env public_id region target actor w ≡ (err e, w')
    → Unchanged env public_id region target w e w'
unfolding update_status swiftbite_orders.Store.Action.uuid
update_status-failure env public_id region target actor w {e} {w'} h =
    let drawn : World = record w { next_uuid = w.next_uuid + 1 } in
    elim (or_throw-bind_failure _ _ _ _ (query-bind_failure _ _ _ _ h)) [
      | inl stay ↦ inl (subst (IsUntouched w) (sym stay) (IsUntouched-refl w))
      | inr (o, found, h1) ↦ elim (lift-bind_failure _ _ _ h1) [
        | inl stay ↦ inl (subst (IsUntouched w) (sym stay) (IsUntouched-refl w))
        | inr (a, checked, h2) ↦
            elim (transact-bind_failure region _ _ drawn (uuid-bind_failure _ _ h2)) [
              | inl stay ↦ inl (subst (IsUntouched w) (sym stay) (Quiet-uuid.at w))
              | inr (r, db, written, h3) ↦
                  let (both, failed, error, stay) =
                    after_change-failure env region o target r _ h3 in
                  let (_, shape) =
                    status_tx-ok env.now region o target w.next_uuid (w.hot region) written in
                  inr (
                    o,
                    r,
                    found,
                    both,
                    failed,
                    error,
                    stay ∙ ap (λ x. record drawn { hot = at_region w.hot region x }) shape,
                  )
            ]
      ]
    ]
