-- ===== src/Payment/Repo.antt =====
-- src/app/payment/repository: the statements on transactions, payment_sessions,
-- payment_webhook_events and payment_providers.
pub mod Created
pub mod Sessions
pub mod Webhooks
use swiftbite_orders.Common.{
  ℕ, Bool, true, false, Option, none, some, List, [], ◌∷◌, ◌==◌, ◌&&◌, ◌||◌, first, update, is_some,
  if◌then◌else◌,
}
use swiftbite_orders.Domain.Error.{ok, err, unique_violation}
use swiftbite_orders.Domain.Order.{Text, Time}
use swiftbite_orders.Domain.Payment.{
  TransactionEntity, TransactionType, TransactionMethod, TransactionStatus, IdempotencyKey,
  same_key, charge, refund, cod_collection, succeeded, pending, PaymentProviderRow,
}
use swiftbite_orders.Store.Db.{Db, insert}
use swiftbite_orders.Store.Tx.{Tx}

pub record CreateTransactionInput : Type 0 where
  pub region : Text
  pub order_id : Option ℕ
  pub transaction_type : TransactionType
  pub method : TransactionMethod
  pub provider_id : Option ℕ
  pub provider_reference_id : Option Text
  pub status : TransactionStatus
  pub amount : ℕ
  pub currency : Text
  pub src_acc_id : Option ℕ
  pub dst_acc_id : Option ℕ
  pub idempotency_key : Option IdempotencyKey

abbrev pub new_transaction : Time → CreateTransactionInput → ℕ → TransactionEntity
new_transaction now d id = record {
  id = id;
  region = d.region;
  order_id = d.order_id;
  transaction_type = d.transaction_type;
  method = d.method;
  provider_id = d.provider_id;
  provider_reference_id = d.provider_reference_id;
  status = d.status;
  amount = d.amount;
  currency = d.currency;
  src_acc_id = d.src_acc_id;
  dst_acc_id = d.dst_acc_id;
  is_refunded = false;
  refunded_payment_id = none;
  idempotency_key = d.idempotency_key;
  created_at = now;
  updated_at = now;
}

-- A row with the key; NULL is equal to no key.
abbrev pub has_key : IdempotencyKey → TransactionEntity → Bool
has_key key t = elim t.idempotency_key [ none ↦ false | some k ↦ same_key k key ]

unfoldable pub find_transaction_by_idempotency_key : IdempotencyKey → Db → Option TransactionEntity
find_transaction_by_idempotency_key key db = first (has_key key) db.transactions.rows

-- UNIQUE (idempotency_key)
abbrev pub key_taken : Option IdempotencyKey → Db → Bool
key_taken none db = false
key_taken (some key) db = is_some (first (has_key key) db.transactions.rows)

unfoldable pub create_transaction : Time → CreateTransactionInput → Tx TransactionEntity
create_transaction now d db =
    if key_taken d.idempotency_key db
    then err unique_violation
    else ok (
      new_transaction now d db.transactions.next,
      record db { transactions = insert db.transactions (new_transaction now d) },
    )

abbrev pub has_id : ℕ → TransactionEntity → Bool
has_id id t = t.id == id

abbrev pub is_of_order : ℕ → TransactionEntity → Bool
is_of_order order_id t = elim t.order_id [ none ↦ false | some o ↦ o == order_id ]

abbrev pub is_charge : TransactionType → Bool
is_charge charge = true
is_charge cod_collection = true
is_charge _ = false

abbrev pub is_cod_collection : TransactionType → Bool
is_cod_collection cod_collection = true
is_cod_collection _ = false

abbrev pub is_refund : TransactionType → Bool
is_refund refund = true
is_refund _ = false

abbrev pub is_succeeded : TransactionStatus → Bool
is_succeeded succeeded = true
is_succeeded _ = false

abbrev pub is_pending : TransactionStatus → Bool
is_pending pending = true
is_pending _ = false

unfoldable pub find_transaction_by_id : ℕ → Db → Option TransactionEntity
find_transaction_by_id id db = first (has_id id) db.transactions.rows

unfoldable pub find_succeeded_charge_by_order_id : ℕ → Db → Option TransactionEntity
find_succeeded_charge_by_order_id order_id db =
    first (λ t. is_of_order order_id t && is_charge t.transaction_type && is_succeeded t.status)
      db.transactions.rows

unfoldable pub find_pending_cod_collection_by_order_id : ℕ → Db → Option TransactionEntity
find_pending_cod_collection_by_order_id order_id db =
    first
      (λ t. is_of_order order_id t && is_cod_collection t.transaction_type && is_pending t.status)
      db.transactions.rows

abbrev pub has_reference : Text → TransactionEntity → Bool
has_reference ref t = elim t.provider_reference_id [ none ↦ false | some r ↦ r == ref ]

-- The query has no test of the status.
unfoldable pub find_pending_refund_by_provider_reference_id : Text → Db → Option TransactionEntity
find_pending_refund_by_provider_reference_id ref db =
    first (λ t. has_reference ref t && is_refund t.transaction_type) db.transactions.rows

-- UPDATE transactions SET … WHERE id = ?
abbrev pub update_transaction : ℕ → (TransactionEntity → TransactionEntity) → Db → Db
update_transaction id f db = record db {
  transactions = record db.transactions { rows = update (has_id id) f db.transactions.rows };
}

unfoldable pub update_transaction_status :
    Time → ℕ → TransactionStatus → Db → Option TransactionEntity × Db
update_transaction_status now id status db =
    let db' = update_transaction id (λ t. record t { status = status; updated_at = now }) db in
    (first (has_id id) db'.transactions.rows, db')

unfoldable pub set_transaction_provider_reference_id : Time → ℕ → Text → Db → (Unit {0}) × Db
set_transaction_provider_reference_id now id ref db = (
  tt,
  update_transaction id (λ t. record t { provider_reference_id = some ref; updated_at = now }) db,
)

unfoldable pub mark_charge_refunded : Time → ℕ → ℕ → Db → (Unit {0}) × Db
mark_charge_refunded now charge_id refund_id db = (
  tt,
  update_transaction charge_id
      (λ t. record t { is_refunded = true; refunded_payment_id = some refund_id; updated_at = now })
      db,
)

unfoldable pub find_payment_provider_by_name : Text → Db → Option PaymentProviderRow
find_payment_provider_by_name name db = first (λ p. p.name == name) db.providers
