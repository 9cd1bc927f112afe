-- ===== src/Finance/Payout/Laws.antt =====
-- A payout takes its amount from the balance once: recordPayout of finance.service.ts.
use swiftbite_orders.Common.{
  ℕ, ◌≡◌, refl, sym, ap, ◌∙◌, subst, arith, true, false, Option, none, some, [], ◌∷◌, ◌++◌,
  Option-cases, inl, inr, ◌⊎◌, ==_refl, first, first-append_none,
}
use swiftbite_orders.Common.Int.{ℤ, pos, ◌+ℤ◌, ◌-ℤ◌, ◌≤ℤ◌, ltb_ℤ, int_laws}
use swiftbite_orders.Domain.Error.{ok}
use swiftbite_orders.Domain.Order.{Text, Time}
use swiftbite_orders.Domain.Delivery.{RestaurantBalanceEntity}
use swiftbite_orders.Domain.Payment.{TransactionEntity, payout_key, same_key, IdempotencyKey}
use swiftbite_orders.Store.Db.{Db, Table}
use swiftbite_orders.Store.Tx.{◌>>=◌}
use swiftbite_orders.Store.Tx.Runs.{query-bind, exec-bind, throw_if-bind, pure-ok}
use swiftbite_orders.Payment.Repo.Created.{create_transaction-ok}
use swiftbite_orders.Delivery.Repo.Balance.{
  is_balance_of, lock_restaurant_balance, set_restaurant_balance,
}
use swiftbite_orders.Payment.Repo.{has_key, find_transaction_by_idempotency_key}
use swiftbite_orders.Delivery.Repo.Balance.Locked.{balance_in, balance_of, lock-ok, set-balance}
use swiftbite_orders.Finance.Payout.{payout_tx, fresh_payout, payout_input}

-- `find_transaction_by_idempotency_key` on the table alone.
abbrev find_in : IdempotencyKey → Table TransactionEntity → Option TransactionEntity
find_in key t = first (has_key key) t.rows

same_key_refl :
    (restaurant_id : ℕ) (key : Text)
    → same_key (payout_key restaurant_id key) (payout_key restaurant_id key) ≡ true
same_key_refl restaurant_id key = rw (==_refl restaurant_id, ==_refl key) refl

covers : (a b : ℤ) → ltb_ℤ b a ≡ false → a ≤ℤ b
covers a b h = ground arith

refund_back : (b a : ℤ) → (b -ℤ a) +ℤ a ≡ b
refund_back b a = grind int_laws

-- A payout with a key that is new, on a row that is locked.
fresh_payout-ok :
    (now : Time) (region : Text) (restaurant_id amount : ℕ) (currency key : Text) (db : Db)
    {b : RestaurantBalanceEntity} {t : TransactionEntity} {db' : Db}
    → first (is_balance_of restaurant_id currency) db.balances ≡ some b
    → first (has_key (payout_key restaurant_id key)) db.transactions.rows ≡ none
    → fresh_payout now region restaurant_id amount currency key none b.balance db ≡ ok (t, db')
    → (pos amount ≤ℤ b.balance)
      × (balance_of restaurant_id currency db' +ℤ pos amount ≡ b.balance)
      × (db'.transactions.rows ≡ db.transactions.rows ++ t ∷ [])
      × (t.amount ≡ amount)
      × (first (has_key (payout_key restaurant_id key)) db'.transactions.rows ≡ some t)
unfolding fresh_payout set_restaurant_balance
fresh_payout-ok now region restaurant_id amount currency key db {b} {t} {db'} there new h =
    let (covered, h1) = throw_if-bind _ _ _ _ h in
    let paid = set_restaurant_balance now restaurant_id currency (b.balance -ℤ pos amount) db in
    let (free, made, written) =
      create_transaction-ok now (payout_input region restaurant_id amount currency key) paid.1
        (exec-bind _ _ _ h1) in
    let rest = set-balance now restaurant_id currency (b.balance -ℤ pos amount) db there in
    let balance : balance_of restaurant_id currency db' ≡ b.balance -ℤ pos amount =
      ap (balance_of restaurant_id currency) (sym written) ∙ rest in
    let rows : db'.transactions.rows ≡ db.transactions.rows ++ t ∷ [] =
      ap (λ (x : Db). x.transactions.rows) (sym written)
      ∙ ap (λ x. db.transactions.rows ++ x ∷ []) made in
    (
      covers (pos amount) b.balance covered,
      ap (λ x. x +ℤ pos amount) balance ∙ refund_back b.balance (pos amount),
      rows,
      rw (← made) refl,
      rw
          (
            rows,
            first-append_none (has_key (payout_key restaurant_id key)) db.transactions.rows (t ∷ [])
                new,
            ← made,
            same_key_refl restaurant_id key,
          )
          refl,
    )

-- A payout that goes through has either found its key, and then hands the earlier payout back and
-- takes nothing; or the balance covers the amount, exactly the amount is taken from it, and one
-- payout with the key and the amount is added.
pub payout_tx-effect :
    (now : Time) (region : Text) (restaurant_id amount : ℕ) (currency key : Text) (db : Db)
    {t : TransactionEntity} {db' : Db}
    → payout_tx now region restaurant_id amount currency key db ≡ ok (t, db')
    → ((find_transaction_by_idempotency_key (payout_key restaurant_id key) db ≡ some t)
        × (balance_of restaurant_id currency db' ≡ balance_of restaurant_id currency db)
        × (db'.transactions ≡ db.transactions))
      ⊎ ((find_transaction_by_idempotency_key (payout_key restaurant_id key) db ≡ none)
          × (pos amount ≤ℤ balance_of restaurant_id currency db)
          × (balance_of restaurant_id currency db' +ℤ pos amount
              ≡ balance_of restaurant_id currency db)
          × (db'.transactions.rows ≡ db.transactions.rows ++ t ∷ [])
          × (t.amount ≡ amount)
          × (find_transaction_by_idempotency_key (payout_key restaurant_id key) db' ≡ some t))
unfolding payout_tx find_transaction_by_idempotency_key fresh_payout
payout_tx-effect now region restaurant_id amount currency key db {t} {db'} h =
    let (locked, there, kept) = lock-ok now restaurant_id region currency db in
    let h1 = query-bind _ _ _ (exec-bind _ _ _ h) in
    let (b, locked_db) = lock_restaurant_balance now restaurant_id region currency db in
    let earlier : Option TransactionEntity → Type 0 = λ o.
      fresh_payout now region restaurant_id amount currency key o b.balance locked_db
      ≡ ok (t, db') in
    let shut = ap (find_in (payout_key restaurant_id key)) kept in
    elim (Option-cases (first (has_key (payout_key restaurant_id key)) db.transactions.rows)) [
      | inr (x, found) ↦
          let (same, stay) = pure-ok x locked_db (subst earlier (shut ∙ found) h1) in
          inl (
            found ∙ ap some same,
            ap (balance_of restaurant_id currency) (sym stay) ∙ ap balance_in there ∙ locked,
            ap (λ (x : Db). x.transactions) (sym stay) ∙ kept,
          )
      | inl new ↦
          let (covered, taken, rows, amounts, kept_key) =
            fresh_payout-ok now region restaurant_id amount currency key locked_db there
              (shut ∙ new) (subst earlier (shut ∙ new) h1) in
          inr (
            new,
            rw (← locked) covered,
            taken ∙ locked,
            rows ∙ ap (λ (x : Table TransactionEntity). x.rows ++ t ∷ []) kept,
            amounts,
            kept_key,
          )
    ]

-- An earlier payout with the key is handed back.
payout_tx-again :
    (now : Time) (region : Text) (restaurant_id amount : ℕ) (currency key : Text) (db : Db)
    {t : TransactionEntity}
    → find_transaction_by_idempotency_key (payout_key restaurant_id key) db ≡ some t
    → payout_tx now region restaurant_id amount currency key db
      ≡ ok (t, (lock_restaurant_balance now restaurant_id region currency db).1)
unfolding payout_tx find_transaction_by_idempotency_key fresh_payout ◌>>=◌
payout_tx-again now region restaurant_id amount currency key db found =
    let (_, _, kept) = lock-ok now restaurant_id region currency db in
    let shut = ap (find_in (payout_key restaurant_id key)) kept in rw (shut ∙ found) refl

-- A payout asked for again with the same key, whatever the amount, hands back the payout that went
-- through and takes nothing more.
pub payout_tx-retry :
    (now later : Time) (region : Text) (restaurant_id amount again : ℕ) (currency key : Text)
    (db : Db) {t : TransactionEntity} {db' : Db}
    → payout_tx now region restaurant_id amount currency key db ≡ ok (t, db')
    → (db'' : Db) × (payout_tx later region restaurant_id again currency key db' ≡ ok (t, db''))
      × (balance_of restaurant_id currency db'' ≡ balance_of restaurant_id currency db')
      × (db''.transactions ≡ db'.transactions)
unfolding find_transaction_by_idempotency_key
payout_tx-retry now later region restaurant_id amount again currency key db {t} {db'} h =
    let found : find_transaction_by_idempotency_key (payout_key restaurant_id key) db' ≡ some t =
      elim (payout_tx-effect now region restaurant_id amount currency key db h) [
        | inl (earlier, _, kept) ↦ ap (find_in (payout_key restaurant_id key)) kept ∙ earlier
        | inr (_, _, _, _, _, there) ↦ there
      ] in
    let (locked, there, kept) = lock-ok later restaurant_id region currency db' in
    (
      (lock_restaurant_balance later restaurant_id region currency db').1,
      payout_tx-again later region restaurant_id again currency key db' found,
      ap balance_in there ∙ locked,
      kept,
    )
