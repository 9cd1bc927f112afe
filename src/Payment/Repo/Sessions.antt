-- ===== src/Payment/Repo/Sessions.antt =====
-- src/app/payment/repository/payment-session.repo.ts
use swiftbite_orders.Common.{
  ℕ, Bool, true, false, Option, none, some, List, [], ◌∷◌, ◌==◌, ◌&&◌, first, select, update,
  is_some, if◌then◌else◌, leb,
}
use swiftbite_orders.Domain.Error.{ok, err, unique_violation}
use swiftbite_orders.Domain.Order.{Text, Time}
use swiftbite_orders.Domain.Payment.{
  PaymentSessionEntity, PaymentSessionStatus, initialized, pending,
}
use swiftbite_orders.Store.Db.{Db, insert}
use swiftbite_orders.Store.Tx.{Tx}

pub record CreatePaymentSessionInput : Type 0 where
  pub region : Text
  pub order_id : ℕ
  pub provider_id : ℕ
  pub provider_session_id : Text
  pub redirect_url : Text
  pub amount : ℕ
  pub currency : Text
  pub status : PaymentSessionStatus
  pub raw_init_payload : Text

abbrev pub new_session : Time → CreatePaymentSessionInput → ℕ → PaymentSessionEntity
new_session now d id = record {
  id = id;
  region = d.region;
  order_id = d.order_id;
  provider_id = d.provider_id;
  provider_session_id = d.provider_session_id;
  redirect_url = d.redirect_url;
  amount = d.amount;
  currency = d.currency;
  status = d.status;
  raw_init_payload = d.raw_init_payload;
  raw_last_payload = none;
  created_at = now;
  updated_at = now;
}

-- UNIQUE (provider_session_id)
unfoldable pub create_payment_session : Time → CreatePaymentSessionInput → Tx PaymentSessionEntity
create_payment_session now d db =
    if is_some
      (first (λ s. s.provider_session_id == d.provider_session_id) db.payment_sessions.rows)
    then err unique_violation
    else ok (
      new_session now d db.payment_sessions.next,
      record db { payment_sessions = insert db.payment_sessions (new_session now d) },
    )

abbrev pub is_open : PaymentSessionStatus → Bool
is_open initialized = true
is_open pending = true
is_open _ = false

abbrev pub open_for_order : ℕ → PaymentSessionEntity → Bool
open_for_order order_id s = s.order_id == order_id && is_open s.status

-- .orderBy("created_at", "desc").first(): the newest, of those made at one time the first.
abbrev pub newest : List PaymentSessionEntity → Option PaymentSessionEntity
newest [] = none
newest (s ∷ ss) = elim (newest ss) [
  | none ↦ some s
  | some t ↦ if leb t.created_at s.created_at then some s else some t
]

unfoldable pub find_active_payment_session_by_order_id : ℕ → Db → Option PaymentSessionEntity
find_active_payment_session_by_order_id order_id db =
    newest (select (open_for_order order_id) db.payment_sessions.rows)

abbrev pub has_id : ℕ → PaymentSessionEntity → Bool
has_id id s = s.id == id

unfoldable pub update_payment_session_status :
    Time → ℕ → PaymentSessionStatus → Text → Db → Option PaymentSessionEntity × Db
update_payment_session_status now id status raw db =
    let rows =
      update (has_id id)
        (λ s. record s { status = status; raw_last_payload = some raw; updated_at = now })
        db.payment_sessions.rows in
    (
      first (has_id id) rows,
      record db { payment_sessions = record db.payment_sessions { rows = rows } },
    )
