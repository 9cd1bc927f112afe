-- ===== src/Payment/Webhook.antt =====
-- src/app/payment/service/kashier-webhook.service.ts.
pub mod Handlers
pub mod Keeps
pub mod Laws
pub mod Captured
use swiftbite_orders.Common.{
  ℕ, zero, suc, Option, none, some, List, [], ◌∷◌, not, ◌==◌, if◌then◌else◌,
}
use swiftbite_orders.Domain.Error.{Error, invalid_signature, provider_not_configured}
use swiftbite_orders.Domain.Order.{
  Text, OrderEntity, OrderStatus, kashier_name, pay_event, refund_event,
}
use swiftbite_orders.Domain.Payment.{PaymentProviderRow}
use swiftbite_orders.Domain.Event.{
  customer_channel, branch_channel, order_changed, order_created, Message,
}
use swiftbite_orders.Domain.Event
use swiftbite_orders.Store.Env.{Env}
use swiftbite_orders.Store.Action.{
  Action, ◌>>=◌, ◌>>◌, pure, or_throw, throw, throw_if, query, exec, transact, catch, best_effort,
  publish, uuid,
}
use swiftbite_orders.Order.Repo.{find_order_by_public_id}
use swiftbite_orders.Payment.Repo.{find_payment_provider_by_name}
use swiftbite_orders.Payment.Repo.Webhooks.{mark_webhook_event_processed}
use swiftbite_orders.Payment.Webhook.Handlers.{
  WebhookRequest, PayOutcome, no_outcome, captured, failed, webhook_tx,
}

-- resolveRegion: the first region that has the order; no order has the empty id.
abbrev pub search_regions : Text → List Text → Action (Option Text)
search_regions public_id [] = pure none
search_regions public_id (region ∷ regions) = do
  found ← query region (find_order_by_public_id public_id)
  elim found [ none ↦ search_regions public_id regions | some o ↦ pure (some region) ]

unfoldable pub resolve_region : Env → Text → Action (Option Text)
resolve_region env zero = pure none
resolve_region env (suc n) = search_regions (suc n) env.regions

abbrev pub paid_message : OrderEntity → Message
paid_message o =
    order_created o.public_id o.branch_id o.total o.currency o.payment_method o.created_at

-- After the commit.
unfoldable pub announce : PayOutcome → Action (Unit {0})
announce no_outcome = pure tt
announce (captured o) = do
  publish (customer_channel o.customer_id) (order_changed o.public_id OrderStatus.placed none)
  publish (branch_channel o.branch_id) (paid_message o)
announce (failed o) = publish (customer_channel o.customer_id) (Event.payment_failed o.public_id)

-- The failure is noted outside the transaction that was rolled back, on the row of the event.
unfoldable pub note_failure : Env → Text → ℕ → Error → Action PayOutcome
note_failure env region event_row_id e = do
  best_effort
      (exec region (mark_webhook_event_processed env.now event_row_id (some (env.error_message e))))
  throw e

unfoldable pub reconcile : Env → WebhookRequest → Option Text → Action (Unit {0})
reconcile env req none = pure tt
reconcile env req (some region) = do
  found ← query region (find_payment_provider_by_name kashier_name)
  provider ← or_throw found provider_not_configured
  first_id ← uuid
  second_id ← uuid
  event_row_id ← query region (λ db. db.webhook_events.next)
  outcome ←
      catch (transact region (webhook_tx env region req provider.id first_id second_id))
        (note_failure env region event_row_id)
  announce outcome

unfoldable pub process : Env → WebhookRequest → Action (Unit {0})
process env req = do
  throw_if (not (env.verify_webhook req.payload req.signature)) invalid_signature
  region ← resolve_region env req.merchant_order_id
  reconcile env req region
