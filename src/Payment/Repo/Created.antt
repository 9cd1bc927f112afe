-- ===== src/Payment/Repo/Created.antt =====
-- What createTransaction of transaction.repo.ts has done when it does not throw.
use swiftbite_orders.Common.{◌≡◌, false, Bool-cases, inl, inr}
use swiftbite_orders.Domain.Error.{ok, ok-pair}
use swiftbite_orders.Domain.Order.{Time}
use swiftbite_orders.Domain.Payment.{TransactionEntity}
use swiftbite_orders.Store.Db.{Db, insert}
use swiftbite_orders.Payment.Repo.{
  CreateTransactionInput, new_transaction, create_transaction, key_taken,
}

pub create_transaction-ok :
    (now : Time) (d : CreateTransactionInput) (db : Db) {t : TransactionEntity} {db' : Db}
    → create_transaction now d db ≡ ok (t, db')
    → (key_taken d.idempotency_key db ≡ false)
      × (new_transaction now d db.transactions.next ≡ t)
      × (record db { transactions = insert db.transactions (new_transaction now d) } ≡ db')
unfolding create_transaction
create_transaction-ok now d db h = elim (Bool-cases (key_taken d.idempotency_key db)) [
  | inl taken ↦ cc (rw (taken, create_transaction) at h)
  | inr free ↦
      let (made, written) = ok-pair (rw (free, create_transaction) at h) in (free, made, written)
]
