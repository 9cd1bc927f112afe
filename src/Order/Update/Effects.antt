-- ===== src/Order/Update/Effects.antt =====
-- What a status change that succeeds has written: updateStatus of order.service.ts.
use swiftbite_orders.Common.{
  some, ◌+◌, ◌≡◌, inl, inr, refl, Option-cases, update, first, sym, ◌∙◌, ap, subst,
}
use swiftbite_orders.Domain.Error.{ok, ok-pair}
use swiftbite_orders.Domain.Order.{Text, Time, OrderEntity, OrderStatus}
use swiftbite_orders.Store.Db.{Db, Table, insert}
use swiftbite_orders.Events.Outbox.{new_outbox_event}
use swiftbite_orders.Store.Env.{Env}
use swiftbite_orders.Store.World.{World, at_region, at_region_self}
use swiftbite_orders.Store.Action.Runs.{
  lift-bind, or_throw-bind, query-bind, transact-bind, uuid-bind,
}
use swiftbite_orders.Order.Status.{OrderActor}
use swiftbite_orders.Order.Repo.{find_order_by_public_id, has_id}
use swiftbite_orders.Order.Repo.Stamps.{with_status}
use swiftbite_orders.Order.Access.{RequestActor}
use swiftbite_orders.Order.Update.{
  update_status, status_tx, status_event, after_change, check_change,
}
use swiftbite_orders.Order.Update.Ending.{after_change-ok}

with_status-status :
    (now : Time) (target : OrderStatus) (o : OrderEntity)
    → (with_status now target o).status ≡ target
unfolding with_status
with_status-status now OrderStatus.pending_payment o = refl
with_status-status now _ o = refl

with_status-id :
    (now : Time) (target : OrderStatus) (o : OrderEntity) → (with_status now target o).id ≡ o.id
unfolding with_status
with_status-id now OrderStatus.pending_payment o = refl
with_status-id now _ o = refl

pub status_tx-ok :
    (now : Time) (region : Text) (o : OrderEntity) (target : OrderStatus) (event_id : Text)
    (db : Db) {r : OrderEntity} {db' : Db}
    → status_tx now region o target event_id db ≡ ok (r, db')
    → let rows = update (has_id o.id) (with_status now target) db.orders.rows in
      let event = status_event region o target event_id r.updated_at in
      (first (has_id o.id) rows ≡ some r)
      × (db' ≡ record db {
        orders = record db.orders { rows = rows };
        events_outbox = insert db.events_outbox (new_outbox_event now event);
      })
unfolding status_tx
status_tx-ok now region o target event_id db {r} {db'} h =
    elim (Option-cases
      (first (has_id o.id) (update (has_id o.id) (with_status now target) db.orders.rows))) [
        | inl missing ↦ cc (rw (missing, status_tx) at h)
        | inr (x, found) ↦
            let (same, written) = ok-pair (rw (found, status_tx) at h) in
            (rw (← same) found, rw (← same) (sym written))
      ]

-- The commit and what follows it, put together.
written_change :
    (env : Env) (region : Text) (o : OrderEntity) (target : OrderStatus) (w w' : World)
    {u r : OrderEntity} {db : Db}
    → status_tx env.now region o target w.next_uuid (w.hot region) ≡ ok (u, db)
    → after_change env region o target u
        (record w { hot = at_region w.hot region db; next_uuid = w.next_uuid + 1 })
      ≡ (ok r, w')
    → (first (has_id o.id) (w'.hot region).orders.rows ≡ some r)
      × ((w'.hot region).orders.rows
          ≡ update (has_id o.id) (with_status env.now target) (w.hot region).orders.rows)
      × ((w'.hot region).events_outbox
          ≡ insert
              (w.hot region).events_outbox
              (new_outbox_event env.now (status_event region o target w.next_uuid r.updated_at)))
written_change env region o target w w' {u} {r} {db} written after =
    let v : World = record w { hot = at_region w.hot region db; next_uuid = w.next_uuid + 1 } in
    let (located, shape) =
      status_tx-ok env.now region o target w.next_uuid (w.hot region) written in
    let (same, orders_kept, outbox_kept) = after_change-ok env region o target u v after in
    let here : v.hot region ≡ db = at_region_self w.hot region db in
    let orders = orders_kept ∙ ap (λ (d : Db). d.orders) here in
    let outbox = outbox_kept ∙ ap (λ (d : Db). d.events_outbox) here in
    let rows = ap (λ (t : Table OrderEntity). t.rows) (orders ∙ ap (λ (d : Db). d.orders) shape) in
    (
      rw (rows, ← same) located,
      rows,
      subst
          (λ (x : OrderEntity).
            (w'.hot region).events_outbox
            ≡ insert (w.hot region).events_outbox
                (new_outbox_event env.now (status_event region o target w.next_uuid x.updated_at)))
          same (outbox ∙ ap (λ (d : Db). d.events_outbox) shape),
    )

-- The order as it was found, an actor whom the checks let through, and what was written.
abbrev pub Changed :
    Env → Text → Text → OrderStatus → RequestActor → World → OrderEntity → World → Type 0
Changed env public_id region target actor w r w' =
    (o : OrderEntity) × (a : OrderActor) × (find_order_by_public_id public_id (w.hot region)
      ≡ some o)
    × (check_change env o actor target ≡ ok a)
    × (first (has_id o.id) (w'.hot region).orders.rows ≡ some r)
    × ((w'.hot region).orders.rows
        ≡ update (has_id o.id) (with_status env.now target) (w.hot region).orders.rows)
    × ((w'.hot region).events_outbox
        ≡ insert (w.hot region).events_outbox
            (new_outbox_event env.now (status_event region o target w.next_uuid r.updated_at)))

-- A status change that succeeds was asked for by an actor whom the checks let through; it has set
-- the status of that order and of no other, and has put one event that announces it in the outbox.
pub update_status-effect :
    (env : Env) (public_id region : Text) (target : OrderStatus) (actor : RequestActor) (w : World)
    {r : OrderEntity} {w' : World}
    → update_status env public_id region target actor w ≡ (ok r, w')
    → Changed env public_id region target actor w r w'
unfolding update_status
update_status-effect env public_id region target actor w {r} {w'} h =
    let (o, found, h1) = or_throw-bind _ _ _ _ (query-bind _ _ _ _ h) in
    let (a, checked, h2) = lift-bind _ _ _ h1 in
    let (u, db, written, h3) = transact-bind _ _ _ _ (uuid-bind _ _ h2) in
    let (located, rows, outbox) = written_change env region o target w w' written h3 in
    (o, a, found, checked, located, rows, outbox)
