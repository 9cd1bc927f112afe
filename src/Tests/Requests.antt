-- ===== src/Tests/Requests.antt =====
-- The theorems on repeated requests at concrete inputs. The service's state is a number that each run
-- of the handler raises.
use swiftbite_orders.Common.{ℕ, ◌+◌, ◌≡◌, refl, arith, true, false, none, some, []}
use swiftbite_orders.Domain.Order.{Text}
use swiftbite_orders.Idempotency.Keys.{post, cache_get}
use swiftbite_orders.Idempotency.Middleware.{
  IdempotencyOptions, Request, cache_key, one_region, Reply, json, Records, Conditions, saved,
  idempotency,
}
use swiftbite_orders.Idempotency.Laws.{repeated, idempotency-repeated}
use swiftbite_orders.Idempotency.Screened.{Screened, idempotency-Screened}
use swiftbite_orders.Idempotency.Fallback.{fallback-any_user}

abbrev hash : Text → Text
hash body = body + 7

abbrev strict_options : IdempotencyOptions
strict_options = record { strict = true; ttl_seconds = 86400; persist_to_db = true }

abbrev order_request : Request
order_request = record {
  method = post;
  original_url = 1;
  idempotency_key = some 42;
  user_id = some 5;
  region = one_region 3;
  body = 100;
}

abbrev at_ten : Conditions
at_ten = record {
  now = 10;
  cache_reads = true;
  cache_writes = true;
  db_reads = true;
  db_writes = true;
}

abbrev at_twenty : Conditions
at_twenty = record at_ten { now = 20 }

abbrev without_redis : Conditions
without_redis = record at_twenty { cache_reads = false; cache_writes = false }

abbrev no_records : Records
no_records = record { cache = []; keys = λ region. [] }

abbrev place : ℕ → Reply × ℕ
place orders = (json 201 9, orders + 1)

idempotency-runs :
    idempotency hash strict_options at_ten place order_request (0, no_records)
    ≡ (json 201 9, (1, saved hash strict_options at_ten order_request 42 (json 201 9) no_records))
unfolding idempotency cache_get
idempotency-runs = refl

nothing_cached : cache_get 10 (cache_key order_request 42) [] ≡ none
unfolding cache_get
nothing_cached = refl

idempotency-repeated_example :
    idempotency hash strict_options at_twenty place
      (record order_request { body = 100 })
      (1, (idempotency hash strict_options at_ten place order_request (0, no_records)).1.1)
    ≡ (
      repeated hash 100 100 9,
      (1, saved hash strict_options at_ten order_request 42 (json 201 9) no_records),
    )
idempotency-repeated_example =
    idempotency-repeated hash strict_options place order_request at_ten at_twenty 42 100 0
      no_records 201 9 1 1 refl refl refl refl nothing_cached refl refl refl (omega arith)

idempotency-Screened_example :
    Screened hash strict_options place order_request at_ten (0, no_records)
idempotency-Screened_example =
    idempotency-Screened hash strict_options place order_request at_ten (0, no_records) refl refl

fallback-any_user_example :
    idempotency hash strict_options without_redis place
      (record order_request { user_id = some 6 })
      (1, saved hash strict_options at_ten order_request 42 (json 201 9) no_records)
    ≡ (json 200 9, (1, saved hash strict_options at_ten order_request 42 (json 201 9) no_records))
fallback-any_user_example =
    fallback-any_user hash strict_options place order_request at_ten without_redis 42 3 5 6 0 1
      no_records 201 9 refl refl refl refl refl (omega arith) (omega arith) refl refl refl refl refl
