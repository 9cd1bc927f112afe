-- ===== src/Delivery/Repo/Balance/Others.antt =====
-- The balances that the statements of restaurant-balance.repo.ts do not name.
use swiftbite_orders.Common.{
  ℕ, ◌≡◌, refl, sym, ap, ◌∙◌, arith, false, none, some, [], ◌∷◌, Option-cases, inl, inr, ◌==◌, ◌&&◌,
  ◌⊎◌, ◌++◌, true, Bool, if◌then◌else◌, update, first, first-append, first-append_none,
  first-update, first-passes,
}
use mathlib.Core.Option
use swiftbite_orders.Common.Int.{ℤ}
use swiftbite_orders.Domain.Order.{Text, Time}
use swiftbite_orders.Domain.Delivery.{RestaurantBalanceEntity}
use swiftbite_orders.Store.Db.{Db}
use swiftbite_orders.Delivery.Repo.Balance.{
  is_balance_of, zero_balance, lock_restaurant_balance, set_restaurant_balance,
}
use swiftbite_orders.Delivery.Repo.Balance.Locked.{balance_in, balance_of}

-- The second account is the first one.
abbrev pub same_account : ℕ → Text → ℕ → Text → Bool
same_account restaurant_id currency other_id other_currency =
    other_id == restaurant_id && other_currency == currency

apart_rows :
    (restaurant_id : ℕ) (currency : Text) (other_id : ℕ) (other_currency : Text)
    (b : RestaurantBalanceEntity)
    → same_account restaurant_id currency other_id other_currency ≡ false
    → is_balance_of restaurant_id currency b ≡ true
    → is_balance_of other_id other_currency b ≡ false
apart_rows restaurant_id currency other_id other_currency b apart here = ground arith

pub lock-other :
    (now : Time) (other_id : ℕ) (region other_currency : Text) (restaurant_id : ℕ) (currency : Text)
    (db : Db)
    → same_account restaurant_id currency other_id other_currency ≡ false
    → balance_of restaurant_id currency
        (lock_restaurant_balance now other_id region other_currency db).1
      ≡ balance_of restaurant_id currency db
unfolding lock_restaurant_balance
lock-other now other_id region other_currency restaurant_id currency db apart =
    elim (Option-cases (first (is_balance_of other_id other_currency) db.balances)) [
      | inr (b, there) ↦ rw (there, lock_restaurant_balance) refl
      | inl missing ↦
          rw (missing, lock_restaurant_balance) (appended (Option-cases (first mine db.balances)))
    ]
  where
    mine : RestaurantBalanceEntity → Bool
    mine = is_balance_of restaurant_id currency

    zero : RestaurantBalanceEntity
    zero = zero_balance now other_id region other_currency

    appended :
        (first mine db.balances ≡ none)
          ⊎ ((b : RestaurantBalanceEntity) × (first mine db.balances ≡ some b))
        → balance_in (first mine (db.balances ++ zero ∷ [])) ≡ balance_in (first mine db.balances)
    appended (inl none_mine) =
        ap balance_in
          (first-append_none mine db.balances (zero ∷ []) none_mine ∙ rw apart refl ∙ sym none_mine)
    appended (inr (b, there)) =
        ap balance_in (first-append mine db.balances (zero ∷ []) there ∙ sym there)

pub set-other :
    (now : Time) (other_id : ℕ) (other_currency : Text) (balance : ℤ) (restaurant_id : ℕ)
    (currency : Text) (db : Db)
    → same_account restaurant_id currency other_id other_currency ≡ false
    → balance_of restaurant_id currency
        (set_restaurant_balance now other_id other_currency balance db).1
      ≡ balance_of restaurant_id currency db
unfolding set_restaurant_balance
set-other now other_id other_currency balance restaurant_id currency db apart =
    ap balance_in (found ∙ kept (Option-cases (first mine db.balances)))
  where
    mine : RestaurantBalanceEntity → Bool
    mine = is_balance_of restaurant_id currency

    changed : RestaurantBalanceEntity → RestaurantBalanceEntity
    changed b =
        if is_balance_of other_id other_currency b
        then record b { balance = balance; updated_at = now }
        else b

    found :
        first mine (
          update
            (is_balance_of other_id other_currency)
            (λ b. record b { balance = balance; updated_at = now })
            db.balances)
        ≡ Option.map changed (first mine db.balances)
    found =
        first-update mine (is_balance_of other_id other_currency)
          (λ r. record r { balance = balance; updated_at = now }) (λ r. refl) db.balances

    kept :
        (first mine db.balances ≡ none)
          ⊎ ((b : RestaurantBalanceEntity) × (first mine db.balances ≡ some b))
        → Option.map changed (first mine db.balances) ≡ first mine db.balances
    kept (inl none_mine) = rw none_mine refl
    kept (inr (b, there)) =
        rw
          (
            there,
            apart_rows restaurant_id currency other_id other_currency b apart
                (first-passes mine db.balances there),
          )
          refl
