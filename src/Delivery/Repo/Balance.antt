-- ===== src/Delivery/Repo/Balance.antt =====
-- src/app/delivery/repository/restaurant-balance.repo.ts. The row lock of SELECT … FOR UPDATE
-- makes the transactions on one balance run one after another, as the model runs them.
pub mod Locked
pub mod Others
use swiftbite_orders.Common.{
  ℕ, Bool, none, some, List, [], ◌∷◌, ◌++◌, ◌==◌, ◌&&◌, first, update, select,
}
use swiftbite_orders.Common.Int.{ℤ, pos}
use swiftbite_orders.Domain.Order.{Text, Time}
use swiftbite_orders.Domain.Delivery.{RestaurantBalanceEntity}
use swiftbite_orders.Store.Db.{Db}

abbrev pub is_balance_of : ℕ → Text → RestaurantBalanceEntity → Bool
is_balance_of restaurant_id currency b = b.restaurant_id == restaurant_id && b.currency == currency

abbrev pub zero_balance : Time → ℕ → Text → Text → RestaurantBalanceEntity
zero_balance now restaurant_id region currency = record {
  restaurant_id = restaurant_id;
  region = region;
  currency = currency;
  balance = pos 0;
  updated_at = now;
}

-- INSERT … ON CONFLICT (restaurant_id, currency) DO NOTHING, then the row FOR UPDATE.
unfoldable pub lock_restaurant_balance : Time → ℕ → Text → Text → Db → RestaurantBalanceEntity × Db
lock_restaurant_balance now restaurant_id region currency db =
    elim (first (is_balance_of restaurant_id currency) db.balances) [
      | some b ↦ (b, db)
      | none ↦
          let b = zero_balance now restaurant_id region currency in
          (b, record db { balances = db.balances ++ (b ∷ []) })
    ]

unfoldable pub set_restaurant_balance : Time → ℕ → Text → ℤ → Db → (Unit {0}) × Db
set_restaurant_balance now restaurant_id currency balance db = (
  tt,
  record db {
    balances =
        update (is_balance_of restaurant_id currency)
          (λ b. record b { balance = balance; updated_at = now }) db.balances;
  },
)

unfoldable pub find_restaurant_balances : ℕ → Db → List RestaurantBalanceEntity
find_restaurant_balances restaurant_id db =
    select (λ b. b.restaurant_id == restaurant_id) db.balances
