-- ===== src/Domain/Payment.antt =====
-- src/app/payment/enums.ts, src/app/payment/entity and the rows of the payment repositories.
use swiftbite_orders.Common.{ℕ, Bool, false, Option, ◌==◌, ◌&&◌}
use swiftbite_orders.Domain.Order.{Text, Time}

pub data PaymentSessionStatus : Type 0 where
  initialized pending authorized captured failed expired cancelled : PaymentSessionStatus

pub data TransactionType : Type 0 where
  charge refund commission payout cod_collection adjustment : TransactionType

pub data TransactionMethod : Type 0 where
  online cod bank_transfer system : TransactionMethod

pub data TransactionStatus : Type 0 where
  pending succeeded failed reversed : TransactionStatus

-- The texts `charge:${ref}`, `commission:${id}`, `payout:${restaurant}:${key}` and
-- `refund:${uuid}`. The prefixes differ and the numbers hold no colon, so equal texts have equal
-- parts.
pub data IdempotencyKey : Type 0 where
  charge_key : Text → IdempotencyKey
  commission_key : ℕ → IdempotencyKey
  payout_key : ℕ → Text → IdempotencyKey
  refund_key : Text → IdempotencyKey

abbrev pub same_key : IdempotencyKey → IdempotencyKey → Bool
same_key (charge_key a) (charge_key b) = a == b
same_key (commission_key a) (commission_key b) = a == b
same_key (payout_key r a) (payout_key s b) = r == s && a == b
same_key (refund_key a) (refund_key b) = a == b
same_key _ _ = false

pub record TransactionEntity : Type 0 where
  pub id : ℕ
  pub region : Text
  pub order_id : Option ℕ
  pub transaction_type : TransactionType
  pub method : TransactionMethod
  pub provider_id : Option ℕ
  pub provider_reference_id : Option Text
  pub status : TransactionStatus
  pub amount : ℕ
  pub currency : Text
  pub src_acc_id : Option ℕ
  pub dst_acc_id : Option ℕ
  pub is_refunded : Bool
  pub refunded_payment_id : Option ℕ
  pub idempotency_key : Option IdempotencyKey
  pub created_at : Time
  pub updated_at : Time

pub record PaymentSessionEntity : Type 0 where
  pub id : ℕ
  pub region : Text
  pub order_id : ℕ
  pub provider_id : ℕ
  pub provider_session_id : Text
  pub redirect_url : Text
  pub amount : ℕ
  pub currency : Text
  pub status : PaymentSessionStatus
  pub raw_init_payload : Text
  pub raw_last_payload : Option Text
  pub created_at : Time
  pub updated_at : Time

pub record WebhookEventRow : Type 0 where
  pub id : ℕ
  pub region : Text
  pub provider_id : ℕ
  pub provider_event_id : Text
  pub signature : Text
  pub payload : Text
  pub processed_at : Option Time
  pub process_error : Option Text

pub record PaymentProviderRow : Type 0 where
  pub id : ℕ
  pub name : Text
  pub is_enabled : Bool
  pub priority : ℕ
