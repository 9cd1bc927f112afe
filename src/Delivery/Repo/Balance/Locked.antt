-- ===== src/Delivery/Repo/Balance/Locked.antt =====
-- The balance of a restaurant through the statements of restaurant-balance.repo.ts.
use swiftbite_orders.Common.{
  ℕ, ◌≡◌, refl, Option, none, some, [], ◌∷◌, Option-cases, inl, inr, ==_refl, first,
  first-append_none, first-update, first-passes,
}
use swiftbite_orders.Common.Int.{ℤ, pos}
use swiftbite_orders.Domain.Order.{Text, Time}
use swiftbite_orders.Domain.Delivery.{RestaurantBalanceEntity}
use swiftbite_orders.Store.Db.{Db}
use swiftbite_orders.Delivery.Repo.Balance.{
  is_balance_of, zero_balance, lock_restaurant_balance, set_restaurant_balance,
}

abbrev pub balance_in : Option RestaurantBalanceEntity → ℤ
balance_in none = pos 0
balance_in (some b) = b.balance

-- What the restaurant is owed in a currency; no row is nothing owed.
abbrev pub balance_of : ℕ → Text → Db → ℤ
balance_of restaurant_id currency db =
    balance_in (first (is_balance_of restaurant_id currency) db.balances)

-- The locked row holds the balance, and stands in the table.
pub lock-ok :
    (now : Time) (restaurant_id : ℕ) (region currency : Text) (db : Db)
    → let (b, after) = lock_restaurant_balance now restaurant_id region currency db in
      (b.balance ≡ balance_of restaurant_id currency db)
      × (first (is_balance_of restaurant_id currency) after.balances ≡ some b)
      × (after.transactions ≡ db.transactions)
unfolding lock_restaurant_balance
lock-ok now restaurant_id region currency db =
    elim (Option-cases (first (is_balance_of restaurant_id currency) db.balances)) [
      | inl missing ↦
          rw (missing, lock_restaurant_balance)
            (
              refl,
              rw
                  (
                    first-append_none (is_balance_of restaurant_id currency) db.balances
                        (zero_balance now restaurant_id region currency ∷ []) missing,
                    ==_refl restaurant_id,
                    ==_refl currency,
                  )
                  refl,
              refl,
            )
      | inr (b, there) ↦ rw (there, lock_restaurant_balance) (refl, there, refl)
    ]

pub set-balance :
    (now : Time) (restaurant_id : ℕ) (currency : Text) (balance : ℤ) (db : Db)
    {b : RestaurantBalanceEntity}
    → first (is_balance_of restaurant_id currency) db.balances ≡ some b
    → balance_of restaurant_id currency
        (set_restaurant_balance now restaurant_id currency balance db).1
      ≡ balance
unfolding set_restaurant_balance
set-balance now restaurant_id currency balance db {b} there =
    rw
      (
        first-update (is_balance_of restaurant_id currency) (is_balance_of restaurant_id currency)
            (λ r. record r { balance = balance; updated_at = now }) (λ r. refl) db.balances,
        there,
        first-passes (is_balance_of restaurant_id currency) db.balances there,
      )
      refl

-- Locking a balance writes no other table.
pub lock-keeps :
    (now : Time) (restaurant_id : ℕ) (region currency : Text) (db : Db)
    → record (lock_restaurant_balance now restaurant_id region currency db).1 {
      balances = db.balances;
    }
      ≡ db
unfolding lock_restaurant_balance
lock-keeps now restaurant_id region currency db =
    elim (Option-cases (first (is_balance_of restaurant_id currency) db.balances)) [
      | inl missing ↦ rw (missing, lock_restaurant_balance) refl
      | inr (b, there) ↦ rw (there, lock_restaurant_balance) refl
    ]
