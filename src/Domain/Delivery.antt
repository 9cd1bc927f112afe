-- ===== src/Domain/Delivery.antt =====
-- src/app/delivery/enums.ts, src/app/delivery/entity and src/app/agent/entity.
use swiftbite_orders.Common.{ℕ, Bool, true, false, Option}
use swiftbite_orders.Common.Int.{ℤ}
use swiftbite_orders.Domain.Order.{Text, Time}

pub data DeliveryStatus : Type 0 where
  assigned accepted rejected picked delivered cancelled reassigned : DeliveryStatus

pub record DeliveryEntity : Type 0 where
  pub id : ℕ
  pub region : Text
  pub order_id : ℕ
  pub agent_id : ℕ
  pub status : DeliveryStatus
  pub pickup_lat : ℤ
  pub pickup_lng : ℤ
  pub dropoff_lat : ℤ
  pub dropoff_lng : ℤ
  pub distance_meters : Option ℕ
  pub earning_amount : Option ℕ
  pub currency : Text
  pub assigned_at : Time
  pub accepted_at : Option Time
  pub rejected_at : Option Time
  pub picked_at : Option Time
  pub delivered_at : Option Time
  pub reassigned_at : Option Time
  pub reassigned_from : Option ℕ

pub record RestaurantBalanceEntity : Type 0 where
  pub restaurant_id : ℕ
  pub region : Text
  pub currency : Text
  pub balance : ℤ
  pub updated_at : Time

pub record AgentEarningEntity : Type 0 where
  pub id : ℕ
  pub region : Text
  pub agent_id : ℕ
  pub order_id : ℕ
  pub delivery_id : ℕ
  pub amount : ℕ
  pub currency : Text
  pub earned_at : Time

pub record AgentPresenceEntity : Type 0 where
  pub agent_id : ℕ
  pub region : Text
  pub is_online : Bool
  pub last_lat : Option ℤ
  pub last_lng : Option ℤ
  pub last_seen_at : Time
  pub updated_at : Time

-- ACTIVE_STATUSES of delivery.repo.ts
abbrev pub is_active : DeliveryStatus → Bool
is_active assigned = true
is_active accepted = true
is_active picked = true
is_active _ = false
