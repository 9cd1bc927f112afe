-- ===== src/Agent/Tasks.antt =====
-- listTasks of src/app/agent/service/agent.service.ts, list of earning.service.ts, and the queries
-- behind them: findDeliveriesByAgentId of delivery.repo.ts and findAgentEarnings of
-- agent-earning.repo.ts. A page's columns are parameters, as in Order/Listing.
use swiftbite_orders.Common.{
  ℕ, Bool, true, ◌&&◌, Option, none, some, List, [], ◌∷◌, map, ◌==◌, first, select,
}
use swiftbite_orders.Domain.Order.{Text, Time, OrderEntity, OrderItemEntity}
use swiftbite_orders.Domain.Core.{CoreBranch}
use swiftbite_orders.Domain.Delivery.{
  DeliveryEntity, DeliveryStatus, assigned, accepted, rejected, picked, delivered, cancelled,
  reassigned, AgentEarningEntity,
}
use swiftbite_orders.Store.Db.{Db}
use swiftbite_orders.Store.Env.{Env}
use swiftbite_orders.Store.Action.{Action, ◌>>=◌, pure, lift, query}
use swiftbite_orders.Order.Repo.{has_id, find_order_by_id, find_items_by_order_ids}
use swiftbite_orders.Order.Listing.{items_of, id_column}
use swiftbite_orders.Pagination.Cursor.{Chars}
use swiftbite_orders.Pagination.Page.{PaginationParams, PaginationMeta}
use swiftbite_orders.Pagination.Kept.{page_of}
use swiftbite_orders.Agent.Repo.{earned_in, sum_agent_earnings}

-- The columns of a table as a page needs them.
pub record Columns (R : Type 0) : Type 0 where
  pub column : Chars → R → ℕ
  pub field : Chars → R → Chars
  pub read : Chars → Chars → ℕ

abbrev status_number : DeliveryStatus → ℕ
status_number assigned = 0
status_number accepted = 1
status_number rejected = 2
status_number picked = 3
status_number delivered = 4
status_number cancelled = 5
status_number reassigned = 6

-- `if (status) query = query.where("status", status)`
abbrev pub of_status : Option DeliveryStatus → DeliveryEntity → Bool
of_status none d = true
of_status (some status) d = status_number d.status == status_number status

unfoldable pub find_deliveries_by_agent_id :
    Columns DeliveryEntity
    → ℕ
    → Option DeliveryStatus
    → PaginationParams
    → Db
    → List DeliveryEntity × PaginationMeta
find_deliveries_by_agent_id cols agent_id status pagination db =
    page_of cols.column cols.field cols.read id_column pagination (
      select (λ (d : DeliveryEntity). (d.agent_id == agent_id) && of_status status d)
        db.deliveries.rows)

pub record Task : Type 0 where
  pub delivery : DeliveryEntity
  pub order : OrderEntity
  pub items_count : ℕ
  pub branch_name : Text
  pub branch_address_text : Text

abbrev pub task_of : DeliveryEntity → OrderEntity → List OrderItemEntity → CoreBranch → Task
task_of d o items branch = record {
  delivery = d;
  order = o;
  items_count = items_of o.id items;
  branch_name = branch.label;
  branch_address_text = branch.address_text;
}

-- The loop of listTasks: a delivery without an order is passed over.
abbrev pub tasks_of : Env → Text → List OrderItemEntity → List DeliveryEntity → Action (List Task)
tasks_of env region items [] = pure []
tasks_of env region items (d ∷ deliveries) =
    let rest = tasks_of env region items deliveries in
    query region (find_order_by_id d.order_id) >>= λ found. elim found [
      | none ↦ rest
      | some o ↦ lift (env.get_branch o.branch_id) >>= λ branch.
          rest >>= λ tasks. pure (task_of d o items branch ∷ tasks)
    ]

unfoldable pub list_tasks :
    Env
    → Columns DeliveryEntity
    → ℕ
    → Text
    → Option DeliveryStatus
    → PaginationParams
    → Action (List Task × PaginationMeta)
list_tasks env cols agent_id region status pagination = do
  page ← query region (find_deliveries_by_agent_id cols agent_id status pagination)
  items ← query region (find_items_by_order_ids (map (λ (d : DeliveryEntity). d.order_id) page.0))
  tasks ← tasks_of env region items page.0
  pure (tasks, page.1)

-- "ae.earned_at" and "ae.id".
abbrev pub earned_at_column : Chars
earned_at_column = 97 ∷ 101 ∷ 46 ∷ 101 ∷ 97 ∷ 114 ∷ 110 ∷ 101 ∷ 100 ∷ 95 ∷ 97 ∷ 116 ∷ []

abbrev pub earning_id_column : Chars
earning_id_column = 97 ∷ 101 ∷ 46 ∷ 105 ∷ 100 ∷ []

-- JOIN orders ON orders.id = order_id: an earning with its order.
abbrev joined : Db → List AgentEarningEntity → List (AgentEarningEntity × OrderEntity)
joined db [] = []
joined db (e ∷ rows) =
    let rest = joined db rows in
    elim (first (has_id e.order_id) db.orders.rows) [ none ↦ rest | some o ↦ (e, o) ∷ rest ]

pub record AgentEarningsPage : Type 0 where
  pub data_rows : List AgentEarningEntity
  pub meta : PaginationMeta
  pub order_public_ids : List (ℕ × Text)

abbrev earnings_page : List (AgentEarningEntity × OrderEntity) × PaginationMeta → AgentEarningsPage
earnings_page (rows, meta) = record {
  data_rows = map (λ (r : AgentEarningEntity × OrderEntity). r.0) rows;
  meta = meta;
  order_public_ids = map (λ (r : AgentEarningEntity × OrderEntity). (r.0.id, r.1.public_id)) rows;
}

unfoldable pub find_agent_earnings :
    Columns (AgentEarningEntity × OrderEntity)
    → ℕ
    → Time
    → Time
    → PaginationParams
    → Db
    → AgentEarningsPage
find_agent_earnings cols agent_id from until pagination db = earnings_page (
    page_of cols.column cols.field cols.read earning_id_column
      (record pagination { sort_by = earned_at_column })
      (joined db (select (earned_in agent_id from until) db.agent_earnings.rows)))

-- EarningService.list: the page, and the count and sum of the whole range.
unfoldable pub list_earnings :
    Columns (AgentEarningEntity × OrderEntity)
    → ℕ
    → Text
    → Time
    → Time
    → PaginationParams
    → Action (AgentEarningsPage × (ℕ × ℕ))
list_earnings cols agent_id region from until pagination = do
  page ← query region (find_agent_earnings cols agent_id from until pagination)
  totals ← query region (sum_agent_earnings agent_id from until)
  pure (page, totals)
