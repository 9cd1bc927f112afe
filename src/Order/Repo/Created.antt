-- ===== src/Order/Repo/Created.antt =====
-- What createOrder of order.repo.ts has done when it does not throw.
use swiftbite_orders.Common.{◌≡◌, is_some, first, Bool-cases, inl, inr}
use swiftbite_orders.Domain.Error.{ok, ok-pair}
use swiftbite_orders.Domain.Order.{Time, OrderEntity}
use swiftbite_orders.Store.Db.{Db, insert}
use swiftbite_orders.Order.Repo.{CreateOrderInput, new_order, create_order, has_public_id}

pub create_order-ok :
    (now : Time) (d : CreateOrderInput) (db : Db) {o : OrderEntity} {db' : Db}
    → create_order now d db ≡ ok (o, db')
    → (new_order now d db.orders.next ≡ o)
      × (record db { orders = insert db.orders (new_order now d) } ≡ db')
unfolding create_order
create_order-ok now d db h =
    elim (Bool-cases (is_some (first (has_public_id d.public_id) db.orders.rows))) [
      | inl taken ↦ cc (rw (taken, create_order) at h)
      | inr free ↦ ok-pair (rw (free, create_order) at h)
    ]
