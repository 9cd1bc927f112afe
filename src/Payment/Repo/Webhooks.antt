-- ===== src/Payment/Repo/Webhooks.antt =====
-- src/app/payment/repository/payment-webhook-event.repo.ts
use swiftbite_orders.Common.{
  ℕ, Bool, Option, none, some, ◌==◌, ◌&&◌, first, update, is_some, if◌then◌else◌,
}
use swiftbite_orders.Domain.Order.{Text, Time}
use swiftbite_orders.Domain.Payment.{WebhookEventRow}
use swiftbite_orders.Store.Db.{Db, insert}

pub record RecordWebhookEventInput : Type 0 where
  pub region : Text
  pub provider_id : ℕ
  pub provider_event_id : Text
  pub signature : Text
  pub payload : Text

abbrev pub new_event : RecordWebhookEventInput → ℕ → WebhookEventRow
new_event d id = record {
  id = id;
  region = d.region;
  provider_id = d.provider_id;
  provider_event_id = d.provider_event_id;
  signature = d.signature;
  payload = d.payload;
  processed_at = none;
  process_error = none;
}

abbrev pub is_event : ℕ → Text → WebhookEventRow → Bool
is_event provider_id provider_event_id e =
    e.provider_id == provider_id && e.provider_event_id == provider_event_id

-- INSERT … ON CONFLICT (provider_id, provider_event_id) DO NOTHING RETURNING id
unfoldable pub record_webhook_event_if_new : RecordWebhookEventInput → Db → Option ℕ × Db
record_webhook_event_if_new d db =
    if is_some (first (is_event d.provider_id d.provider_event_id) db.webhook_events.rows)
    then (none, db)
    else (
      some db.webhook_events.next,
      record db { webhook_events = insert db.webhook_events (new_event d) },
    )

unfoldable pub mark_webhook_event_processed : Time → ℕ → Option Text → Db → (Unit {0}) × Db
mark_webhook_event_processed now id process_error db = (
  tt,
  record db {
    webhook_events = record db.webhook_events {
      rows =
          update (λ e. e.id == id)
            (λ e. record e { processed_at = some now; process_error = process_error })
            db.webhook_events.rows;
    };
  },
)
