-- ===== src/Domain/Core.antt =====
-- The answers of the core service: the interfaces of src/lib/core-client.
use swiftbite_orders.Common.{ℕ, Bool, Option}
use swiftbite_orders.Common.Int.{ℤ}
use swiftbite_orders.Domain.Order.{Text}

pub record CoreBranch : Type 0 where
  pub id : ℕ
  pub region : Text
  pub restaurant_id : ℕ
  pub restaurant_owner_id : ℕ
  pub restaurant_is_active : Bool  -- restaurantStatus === "active"
  pub accept_orders : Bool
  pub is_active : Bool
  pub delivery_fee : ℕ
  pub commission_bps : ℕ
  pub currency : Text
  pub lat : ℤ
  pub lng : ℤ
  pub label : Text
  pub restaurant_name : Text
  pub address_text : Text

pub record CoreBranchProduct : Type 0 where
  pub product_id : ℕ
  pub name : Text
  pub image_url : Option Text
  pub price : ℕ
  pub stock : ℕ
  pub is_available : Bool

pub record CoreCustomerAddress : Type 0 where
  pub id : ℕ
  pub user_id : ℕ
  pub lat : ℤ
  pub lng : ℤ
  pub address_text : Text
