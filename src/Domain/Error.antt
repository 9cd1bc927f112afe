-- ===== src/Domain/Error.antt =====
-- The errors that the services throw (src/app/*/errors.ts, src/lib/auth/errors.ts), and results.
use swiftbite_orders.Common.{ℕ, List, ◌≡◌, ap}

-- One line of the details of an OutOfStock error.
pub record Shortfall : Type 0 where
  pub product_id : ℕ
  pub requested : ℕ
  pub available : ℕ

-- `unique_violation` is what the database throws at a second row with the same unique key,
-- `database_error` a statement that fails in another way,
-- `type_error` the read of a field of `undefined`, `redis_error` a Redis call that fails, `upstream`
-- any error that a call of the core service throws, and `unfinished` a loop that outruns its fuel.
pub data Error : Type 0 where
  order_not_found branch_not_accepting_orders cancellation_window_expired : Error
  address_not_owned : Error
  out_of_stock : List Shortfall → Error
  invalid_status_transition : Error
  order_not_ready order_already_has_active_delivery no_eligible_agents : Error
  max_reassignment_attempts_reached delivery_not_found no_active_delivery : Error
  order_not_pending_payment payment_provider_unavailable invalid_signature : Error
  payment_not_found payment_already_refunded payment_not_refundable : Error
  provider_not_configured insufficient_balance agent_in_active_delivery not_online : Error
  unauthorized : Error
  unique_violation database_error type_error redis_error unfinished : Error
  upstream : ℕ → Error

-- The statusCode of each AppError; the errors that are no AppError end as 500.
pub status_code : Error → ℕ
status_code order_not_found = 404
status_code branch_not_accepting_orders = 409
status_code cancellation_window_expired = 409
status_code address_not_owned = 403
status_code (out_of_stock _) = 409
status_code invalid_status_transition = 409
status_code order_not_ready = 409
status_code order_already_has_active_delivery = 409
status_code no_eligible_agents = 409
status_code max_reassignment_attempts_reached = 409
status_code delivery_not_found = 404
status_code no_active_delivery = 409
status_code order_not_pending_payment = 409
status_code payment_provider_unavailable = 503
status_code invalid_signature = 401
status_code payment_not_found = 404
status_code payment_already_refunded = 409
status_code payment_not_refundable = 409
status_code provider_not_configured = 500
status_code insufficient_balance = 409
status_code agent_in_active_delivery = 409
status_code not_online = 409
status_code unauthorized = 403
status_code unique_violation = 500
status_code database_error = 500
status_code type_error = 500
status_code redis_error = 500
status_code unfinished = 500
status_code (upstream code) = code

pub data Result {ℓ} (A : Type ℓ) : Type ℓ where
  ok : A → Result A
  err : Error → Result A

pub ok-injective {ℓ} : {A : Type ℓ} {a b : A} → ok a ≡ ok b → a ≡ b
ok-injective h = cc

pub err-injective {ℓ} : {A : Type ℓ} {e x : Error} → ◌≡◌ {A = Result A} (err e) (err x) → e ≡ x
err-injective h = cc

-- `ok` of a pair, by its parts.
pub ok-pair {ℓ κ} :
    {A : Type ℓ} {B : Type κ} {a c : A} {b d : B}
    → ◌≡◌ {A = Result (A × B)} (ok (a, b)) (ok (c, d))
    → (a ≡ c) × (b ≡ d)
ok-pair h = let p = ok-injective h in (ap (λ t. t.0) p, ap (λ t. t.1) p)
