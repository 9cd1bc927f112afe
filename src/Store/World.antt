-- ===== src/Store/World.antt =====
-- The state that outlives a request. Every region has its own database and its own presence sets
-- (src/lib/knex/shards.ts, src/lib/presence); `sent` holds the WebSocket messages in order, and
-- `next_uuid` stands for uuidv4: it draws a number that no draw before has returned.
use swiftbite_orders.Common.{ℕ, List, ◌≡◌, ◌≢◌, arith, ◌==◌, if◌then◌else◌}
use swiftbite_orders.Domain.Order.{Text}
use swiftbite_orders.Domain.Event.{Channel, Message}
use swiftbite_orders.Store.Db.{Db}

-- The Redis sets presence:geo and presence:busy of a region, by agent.
pub record Presence : Type 0 where
  pub geo : List ℕ
  pub busy : List ℕ

pub record World : Type 0 where
  pub hot : Text → Db
  pub archive : Text → Db
  pub presence : Text → Presence
  pub sent : List (Channel × Message)
  pub next_uuid : ℕ

-- The value at one region is replaced.
abbrev pub at_region : {A : Type 0} → (Text → A) → Text → A → Text → A
at_region f region a r = if r == region then a else f r

pub at_region_self :
    {A : Type 0} (f : Text → A) (region : Text) (a : A) → at_region f region a region ≡ a
at_region_self f region a = ground arith

pub at_region_other :
    {A : Type 0} (f : Text → A) (region r : Text) (a : A)
    → r ≢ region
    → at_region f region a r ≡ f r
at_region_other f region r a h = ground arith
