-- ===== src/Finance/Ledger.antt =====
-- The money that a region owes to its restaurants, over any sequence of the transactions that move
-- it: settleDelivery of delivery.service.ts and recordPayout of finance.service.ts.
mod Others
use swiftbite_orders.Common.{
  ℕ, ◌+◌, ◌*◌, ◌-◌, ◌≤◌, ◌≡◌, ◌↔◌, refl, sym, ap, ◌∙◌, subst, arith, Bool, true, false, ◌&&◌,
  Option, none, some, Bool-cases, Option-cases, inl, inr, ◌==◌, if◌then◌else◌,
}
use swiftbite_orders.Common.Int.{ℤ, pos, pos_part, neg_part, ◌+ℤ◌, ◌≤ℤ◌, int_laws}
use swiftbite_orders.Domain.Error.{ok}
use swiftbite_orders.Domain.Order.{Text, Time, OrderEntity}
use swiftbite_orders.Domain.Delivery.{DeliveryEntity}
use swiftbite_orders.Domain.Payment.{TransactionEntity, payout_key}
use swiftbite_orders.Domain.Core.{CoreBranch}
use swiftbite_orders.Store.Db.{Db}
use swiftbite_orders.Store.Env.{Env}
use swiftbite_orders.Payment.Repo.{find_transaction_by_idempotency_key}
use swiftbite_orders.Delivery.Repo.Balance.Locked.{balance_of}
use swiftbite_orders.Delivery.Repo.Balance.Others.{same_account}
use swiftbite_orders.Delivery.Settlement.{settle_tx, commission_of}
use swiftbite_orders.Delivery.Settlement.Laws.{settle_tx-effect, commission_of-floor}
use swiftbite_orders.Delivery.Settlement.Others.{settle_tx-other}
use swiftbite_orders.Finance.Payout.{payout_tx}
use swiftbite_orders.Finance.Payout.Laws.{payout_tx-effect}
use swiftbite_orders.Finance.Ledger.Others.{payout_tx-other}

-- A committed transaction that moves money; a commission is at most all of the subtotal.
pub data Entry (db db' : Db) : Type 0 where
  settled :
      (env : Env) (region : Text) (d : DeliveryEntity) (o : OrderEntity) (branch : CoreBranch)
      (first_id second_id : Text) (r : Option DeliveryEntity)
      → branch.commission_bps ≤ 10000
      → settle_tx env region d o branch first_id second_id db ≡ ok (r, db')
      → Entry db db'
  paid :
      (now : Time) (region : Text) (restaurant_id amount : ℕ) (currency key : Text)
      (t : TransactionEntity)
      → payout_tx now region restaurant_id amount currency key db ≡ ok (t, db')
      → Entry db db'

pub data Ledger (start : Db) : Db → Type 0 where
  opened : Ledger start start
  booked : {db db' : Db} → Ledger start db → Entry db db' → Ledger start db'

-- How a balance moves by what is earned and what is paid; it does not fall below zero.
abbrev pub Moves : ℤ → ℤ → ℕ → ℕ → Type 0
Moves before after earning payment =
    pos 0 ≤ℤ before → (after +ℤ pos payment ≡ before +ℤ pos earning) × (pos 0 ≤ℤ after)

gains :
    (before after : ℤ) (subtotal commission : ℕ)
    → after +ℤ pos commission ≡ before +ℤ pos subtotal
    → commission ≤ subtotal
    → Moves before after (subtotal - commission) 0
unfolding ◌+ℤ◌
gains before after subtotal commission h within owed = (ground arith, ground arith)

pays :
    (before after : ℤ) (amount : ℕ)
    → pos amount ≤ℤ before
    → after +ℤ pos amount ≡ before
    → Moves before after 0 amount
unfolding ◌+ℤ◌
pays before after amount covered h owed = (ground arith, ground arith)

stays : (before after : ℤ) → after ≡ before → Moves before after 0 0
stays before after same owed = rw same (refl, owed)

-- An equation of two raised balances, and what it says of their parts.
raised :
    (a b : ℤ) (m n : ℕ)
    → (a +ℤ pos m ≡ b +ℤ pos n) ↔ (pos_part a + neg_part b + m ≡ pos_part b + neg_part a + n)
raised a b m n = (λ h. down (ap pos_part h) (ap neg_part h), λ h. omega int_laws)
  where
    down :
        pos_part (a +ℤ pos m) ≡ pos_part (b +ℤ pos n)
        → neg_part (a +ℤ pos m) ≡ neg_part (b +ℤ pos n)
        → pos_part a + neg_part b + m ≡ pos_part b + neg_part a + n
    down h k = omega int_laws

two_steps :
    (start before after : ℤ) (earning payment more out : ℕ)
    → before +ℤ pos payment ≡ start +ℤ pos earning
    → after +ℤ pos out ≡ before +ℤ pos more
    → after +ℤ pos (payment + out) ≡ start +ℤ pos (earning + more)
two_steps start before after earning payment more out h k =
    let first = (raised before start payment earning).0 h in
    let second = (raised after before out more).0 k in
    (raised after start (payment + out) (earning + more)).1 (omega arith)

commission_of-le :
    (o : OrderEntity) (branch : CoreBranch)
    → branch.commission_bps ≤ 10000
    → commission_of o branch ≤ o.subtotal
commission_of-le o branch share = let (low, high) = commission_of-floor o branch in grind arith

-- An amount that is paid out, or nothing where the payout had been made.
abbrev fresh_amount : Option TransactionEntity → ℕ → ℕ
fresh_amount none amount = amount
fresh_amount (some t) amount = 0

payout-own :
    (now : Time) (region : Text) (restaurant_id amount : ℕ) (currency key : Text) (db : Db)
    {t : TransactionEntity} {db' : Db}
    → payout_tx now region restaurant_id amount currency key db ≡ ok (t, db')
    → Moves (balance_of restaurant_id currency db) (balance_of restaurant_id currency db') 0 (
        fresh_amount (find_transaction_by_idempotency_key (payout_key restaurant_id key) db) amount)
payout-own now region restaurant_id amount currency key db h =
    elim (payout_tx-effect now region restaurant_id amount currency key db h) [
      | inl (earlier, same, _) ↦ rw earlier (stays _ _ same)
      | inr (new, covered, taken, _, _, _) ↦ rw new (pays _ _ amount covered taken)
    ]

module _ (restaurant_id : ℕ) (currency : Text) where
  abbrev if_mine : ℕ → Text → ℕ → ℕ
  if_mine other_id other_currency amount =
      if same_account restaurant_id currency other_id other_currency then amount else 0

  abbrev pub entry_earned : {db db' : Db} → Entry db db' → ℕ
  entry_earned (settled env region d o branch i j r share h) =
      if_mine o.restaurant_id o.currency (o.subtotal - commission_of o branch)
  entry_earned (paid now region other_id amount other_currency key t h) = 0

  abbrev pub entry_paid : {db db' : Db} → Entry db db' → ℕ
  entry_paid (settled env region d o branch i j r share h) = 0
  entry_paid {db} (paid now region other_id amount other_currency key t h) =
      if_mine other_id other_currency
        (fresh_amount (find_transaction_by_idempotency_key (payout_key other_id key) db) amount)

  -- What the restaurant has earned in the currency, and what it was paid.
  abbrev pub earned : {start db : Db} → Ledger start db → ℕ
  earned opened = 0
  earned (booked l e) = earned l + entry_earned e

  abbrev pub paid_out : {start db : Db} → Ledger start db → ℕ
  paid_out opened = 0
  paid_out (booked l e) = paid_out l + entry_paid e

  eq_of_account :
      (other_id : ℕ) (other_currency : Text)
      → same_account restaurant_id currency other_id other_currency ≡ true
      → (other_id ≡ restaurant_id) × (other_currency ≡ currency)
  eq_of_account other_id other_currency same = (ground arith, ground arith)

  -- The balance moves by what the entry says, whether it is of this account or of another.
  by_account :
      (db db' : Db) (other_id : ℕ) (other_currency : Text) (earning payment : ℕ)
      → Moves
          (balance_of other_id other_currency db)
          (balance_of other_id other_currency db')
          earning
          payment
      → (same_account restaurant_id currency other_id other_currency ≡ false
          → balance_of restaurant_id currency db' ≡ balance_of restaurant_id currency db)
      → Moves
          (balance_of restaurant_id currency db)
          (balance_of restaurant_id currency db')
          (if_mine other_id other_currency earning)
          (if_mine other_id other_currency payment)
  by_account db db' other_id other_currency earning payment own others =
      elim (Bool-cases (same_account restaurant_id currency other_id other_currency)) [
        | inl same ↦
            let (same_id, same_currency) = eq_of_account other_id other_currency same in
            rw same (rw (← same_id) (rw (← same_currency) own))
        | inr apart ↦ rw apart (stays _ _ (others apart))
      ]

  if_mine-zero : (other_id : ℕ) (other_currency : Text) → if_mine other_id other_currency 0 ≡ 0
  if_mine-zero other_id other_currency = ground arith

  entry-balance :
      {db db' : Db} (e : Entry db db')
      → Moves
          (balance_of restaurant_id currency db)
          (balance_of restaurant_id currency db')
          (entry_earned e)
          (entry_paid e)
  entry-balance {db} {db'} (settled env region d o branch i j r share h) =
      let (_, _, grown, _, _, _) = settle_tx-effect env region d o branch i j db h in
      let moved =
        Moves (balance_of restaurant_id currency db) (balance_of restaurant_id currency db') in
      subst (moved (if_mine o.restaurant_id o.currency (o.subtotal - commission_of o branch)))
        (if_mine-zero o.restaurant_id o.currency)
        (by_account db db' o.restaurant_id o.currency (o.subtotal - commission_of o branch) 0
          (gains _ _ o.subtotal (commission_of o branch) grown (commission_of-le o branch share))
          (settle_tx-other env region d o branch i j restaurant_id currency db h))
  entry-balance {db} {db'} (paid now region other_id amount other_currency key t h) =
      let moved =
        Moves (balance_of restaurant_id currency db) (balance_of restaurant_id currency db') in
      let amount_now =
        fresh_amount (find_transaction_by_idempotency_key (payout_key other_id key) db) amount in
      subst (λ n. moved n (if_mine other_id other_currency amount_now))
        (if_mine-zero other_id other_currency)
        (by_account db db' other_id other_currency 0 amount_now
          (payout-own now region other_id amount other_currency key db h)
          (payout_tx-other now region other_id amount other_currency key restaurant_id currency db
            h))

  ledger-moves :
      {start db : Db} (l : Ledger start db)
      → Moves
          (balance_of restaurant_id currency start)
          (balance_of restaurant_id currency db)
          (earned l)
          (paid_out l)
  ledger-moves opened owed = (refl, owed)
  ledger-moves (booked l e) owed =
      let (sum, now_owed) = ledger-moves l owed in
      let (step, later_owed) = entry-balance e now_owed in
      (two_steps _ _ _ (earned l) (paid_out l) (entry_earned e) (entry_paid e) sum step, later_owed)

-- Over any sequence of settlements and payouts that commit in a region, a restaurant's balance in a
-- currency is what it was, more by what the settlements of its orders earned it, and less by the
-- payouts that were made to it, each once; and it is never below zero, so that no more is paid out
-- than was owed. This where it starts at zero or above, and no branch has a commission of more than
-- all of the subtotal.
pub ledger-balances :
    (restaurant_id : ℕ) (currency : Text) (start db : Db) (l : Ledger start db)
    → pos 0 ≤ℤ balance_of restaurant_id currency start
    → (balance_of restaurant_id currency db +ℤ pos (paid_out restaurant_id currency l)
        ≡ balance_of restaurant_id currency start +ℤ pos (earned restaurant_id currency l))
      × (pos 0 ≤ℤ balance_of restaurant_id currency db)
ledger-balances restaurant_id currency start db l owed = ledger-moves restaurant_id currency l owed
