-- ===== src/Store/Env.antt =====
-- What a request meets outside this program: the clock, the configuration, the core service, the
-- payment provider and Redis. The answers are fixed while the request runs.
use swiftbite_orders.Common.{ℕ, Bool, List, Option}
use swiftbite_orders.Common.Int.{ℤ}
use swiftbite_orders.Domain.Error.{Error, Result}
use swiftbite_orders.Domain.Order.{Text, Time, OrderEntity}
use swiftbite_orders.Domain.Core.{CoreBranch, CoreBranchProduct, CoreCustomerAddress}

-- What the payment provider answers to createSession.
pub record CreateSessionResult : Type 0 where
  pub provider_session_id : Text
  pub redirect_url : Text
  pub raw : Text

-- A candidate for a delivery; the distance as Math.round leaves it.
pub record CandidateAgent : Type 0 where
  pub agent_id : ℕ
  pub distance_meters : ℕ

pub record Env : Type 0 where
  pub now : Time  -- Date.now() and the database's NOW()
  pub regions : List Text
  pub upper : Text → Text  -- toUpperCase
  -- src/lib/core-client
  pub get_branch : ℕ → Result CoreBranch
  pub get_branch_products : ℕ → List ℕ → Result (List CoreBranchProduct)
  pub get_customer_address : ℕ → Result CoreCustomerAddress
  pub get_agent : ℕ → Result Text
  pub get_permissions : Option Text → Result (List Text)
  pub reserve_stock : ℕ → List (ℕ × ℕ) → Text → Result (Unit {0})
  -- hasPermission: the text `orders:accept` and so on, by resource and action
  pub permission_name : Text → Text → Text
  -- the payment provider
  pub create_session : OrderEntity → ℕ → Result CreateSessionResult
  pub provider_refund : Option Text → ℕ → Text → Result Text
  pub verify_webhook : Text → Text → Bool
  pub provider_event_id : Text → Text → Text → Text  -- `${transactionId}:${event}:${status}`
  pub error_message : Error → Text
  -- whether cancelActiveDeliveryForOrder, which runs after the commit of updateStatus, goes through
  pub cancel_goes_through : Bool
  -- env.assignment
  pub max_reassignment_attempts : ℕ
  -- Math.round(fee * env.assignment.agentShareRate), a product of floats
  pub agent_share : ℕ → ℕ
  -- Redis: whether it answers, and GEOSEARCH BYRADIUS ASC COUNT n over the members of the geo set
  pub redis_up : Bool
  pub geo_search : List ℕ → ℤ → ℤ → ℕ → List CandidateAgent
  -- ST_DWithin and ST_Distance of findCandidateAgents over the agents that pass its other tests
  pub gist_search : List ℕ → ℤ → ℤ → ℕ → List CandidateAgent
