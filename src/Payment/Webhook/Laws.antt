-- ===== src/Payment/Webhook/Laws.antt =====
-- An event of the payment provider is handled once: kashier-webhook.service.ts.
use swiftbite_orders.Common.{
  ℕ, ◌≡◌, refl, sym, ap, ◌∙◌, subst, Bool, true, false, some, Bool-cases, inl, inr, ◌==◌, ==_refl,
  is_some, is_some-map, is_some-none, first, first-append_none, first-update,
}
use swiftbite_orders.Domain.Error.{ok, ok-pair}
use swiftbite_orders.Domain.Order.{Text, Time}
use swiftbite_orders.Domain.Payment.{WebhookEventRow}
use swiftbite_orders.Store.Db.{Db, Table}
use swiftbite_orders.Store.Tx.{◌>>=◌}
use swiftbite_orders.Store.Tx.Runs.{exec-bind, any-bind, pure-ok}
use swiftbite_orders.Store.Env.{Env}
use swiftbite_orders.Payment.Repo.Webhooks.{
  RecordWebhookEventInput, is_event, record_webhook_event_if_new, mark_webhook_event_processed,
}
use swiftbite_orders.Payment.Webhook.Handlers.{
  WebhookRequest, PayOutcome, no_outcome, handle_recorded, webhook_tx,
}
use swiftbite_orders.Payment.Webhook.Keeps.{Keeps-handle, Leaves}

-- Whether the event is in the table.
abbrev pub seen : ℕ → Text → Db → Bool
seen provider_id event_id db =
    is_some (first (is_event provider_id event_id) db.webhook_events.rows)

webhook_tx-seen :
    (env : Env) (region : Text) (req : WebhookRequest) (provider_id : ℕ) (first_id second_id : Text)
    (db : Db)
    → seen provider_id (env.provider_event_id req.transaction_id req.event req.status) db ≡ true
    → webhook_tx env region req provider_id first_id second_id db ≡ ok (no_outcome, db)
unfolding webhook_tx handle_recorded record_webhook_event_if_new ◌>>=◌
webhook_tx-seen env region req provider_id first_id second_id db taken = rw taken refl

handled-seen :
    (env : Env) (region : Text) (req : WebhookRequest) (first_id second_id : Text) (id : ℕ)
    (provider_id : ℕ) (event_id : Text) (db : Db) {x : PayOutcome} {db' : Db}
    → seen provider_id event_id db ≡ true
    → handle_recorded env region req first_id second_id (some id) db ≡ ok (x, db')
    → seen provider_id event_id db' ≡ true
unfolding handle_recorded mark_webhook_event_processed
handled-seen env region req first_id second_id id provider_id event_id db {x} {db'} before h =
    let (outcome, db1, handled, h1) = any-bind _ _ _ h in
    let (_, end) = pure-ok _ _ (exec-bind _ _ _ h1) in
    let kept : db1.webhook_events ≡ db.webhook_events =
      subst (Leaves db) handled ((Keeps-handle env region req first_id second_id).at db) in
    ap (seen provider_id event_id) (sym end)
    ∙ ap is_some (
        first-update (is_event provider_id event_id) (λ e. e.id == id) _ (λ e. refl)
          db1.webhook_events.rows)
    ∙ is_some-map _ (first (is_event provider_id event_id) db1.webhook_events.rows)
    ∙ ap (λ (t : Table WebhookEventRow). is_some (first (is_event provider_id event_id) t.rows))
        kept
    ∙ before

-- A new event is written to the table.
record-seen :
    (d : RecordWebhookEventInput) (db : Db)
    → seen d.provider_id d.provider_event_id db ≡ false
    → ((record_webhook_event_if_new d db).0 ≡ some db.webhook_events.next)
      × (seen d.provider_id d.provider_event_id (record_webhook_event_if_new d db).1 ≡ true)
unfolding record_webhook_event_if_new
record-seen d db new = rw new (
  refl,
  rw
      (
        first-append_none (is_event d.provider_id d.provider_event_id) db.webhook_events.rows _
            (is_some-none _ new),
        ==_refl d.provider_id,
        ==_refl d.provider_event_id,
      )
      refl,
)

webhook_tx-remembers :
    (env : Env) (region : Text) (req : WebhookRequest) (provider_id : ℕ) (first_id second_id : Text)
    (db : Db) {x : PayOutcome} {db' : Db}
    → webhook_tx env region req provider_id first_id second_id db ≡ ok (x, db')
    → seen provider_id (env.provider_event_id req.transaction_id req.event req.status) db' ≡ true
unfolding webhook_tx
webhook_tx-remembers env region req provider_id first_id second_id db {x} {db'} h =
    let event_id = env.provider_event_id req.transaction_id req.event req.status in
    let d : RecordWebhookEventInput = record {
      region = region;
      provider_id = provider_id;
      provider_event_id = event_id;
      signature = req.signature;
      payload = req.payload;
    } in
    elim (Bool-cases (seen provider_id event_id db)) [
      | inl known ↦
          let (_, stay) =
            ok-pair
              (sym (webhook_tx-seen env region req provider_id first_id second_id db known) ∙ h) in
          ap (seen provider_id event_id) (sym stay) ∙ known
      | inr new ↦
          let (given, written) = record-seen d db new in
          let h1 =
            subst
              (λ r.
                handle_recorded env region req first_id second_id r
                  (record_webhook_event_if_new d db).1
                ≡ ok (x, db'))
              given
              (exec-bind (record_webhook_event_if_new d)
                (handle_recorded env region req first_id second_id) db h) in
          handled-seen env region req first_id second_id db.webhook_events.next provider_id event_id
            (record_webhook_event_if_new d db).1 written h1
    ]

-- After a webhook's transaction has committed, the same event (a body that the provider sends again,
-- signed anew or not, at any later time) commits without an outcome and changes nothing.
pub webhook_tx-again :
    (env : Env) (later : Time) (region : Text) (req : WebhookRequest) (payload signature : Text)
    (provider_id : ℕ) (first_id second_id third_id fourth_id : Text) (db : Db) {x : PayOutcome}
    {db' : Db}
    → webhook_tx env region req provider_id first_id second_id db ≡ ok (x, db')
    → webhook_tx
        (record env { now = later })
        region
        (record req { payload = payload; signature = signature })
        provider_id
        third_id
        fourth_id
        db'
      ≡ ok (no_outcome, db')
unfolding webhook_tx
webhook_tx-again env later region req payload signature provider_id first_id second_id third_id
      fourth_id db {x} {db'} h =
    webhook_tx-seen _ region _ provider_id third_id fourth_id db'
      (webhook_tx-remembers env region req provider_id first_id second_id db h)
