-- ===== src/Order/Repo/Stamps.antt =====
-- What updateOrderStatus of order.repo.ts writes: the status, updated_at, and the time column that
-- STATUS_TIMESTAMP_COLUMN gives for the status.
use swiftbite_orders.Common.{some}
use swiftbite_orders.Domain.Order.{
  Time, OrderEntity, OrderStatus, pending_payment, placed, accepted, rejected, preparing, ready,
  assigned, picked, delivered, cancelled,
}

stamp : Time → OrderStatus → OrderEntity → OrderEntity
stamp now accepted o = record o { accepted_at = some now }
stamp now rejected o = record o { rejected_at = some now }
stamp now ready o = record o { ready_at = some now }
stamp now assigned o = record o { assigned_at = some now }
stamp now picked o = record o { picked_at = some now }
stamp now delivered o = record o { delivered_at = some now }
stamp now cancelled o = record o { cancelled_at = some now }
stamp now pending_payment o = o
stamp now placed o = o
stamp now preparing o = o

unfoldable pub with_status : Time → OrderStatus → OrderEntity → OrderEntity
unfolding stamp
with_status now status o = stamp now status (record o { status = status; updated_at = now })
