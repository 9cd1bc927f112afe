-- ===== src/Tests/Clients.antt =====
-- The client of the core service, its caches, the webhook's signature and the cached listing at
-- concrete inputs.
use swiftbite_orders.Common.{
  ℕ, ◌+◌, ◌≡◌, ◌↔◌, refl, ap, inl, inr, ==_iff, first-passes, arith, true, ◌&&◌, none, some, List,
  [], ◌∷◌, ltb, if◌then◌else◌, map, ◌==◌,
}
use swiftbite_orders.Domain.Error.{Result, ok, err, upstream, ok-injective}
use swiftbite_orders.Domain.Order.{Text, Time, OrderStatus, PaymentMethod, accepted, ready}
use swiftbite_orders.Domain.Core.{CoreBranchProduct}
use swiftbite_orders.Core.Shelf.{Shelf, cached, keep, cached-kept}
use swiftbite_orders.Core.Client.{
  Fetched, network_error, response, wrapped, CallEnds, core_client_get, core_client_post,
  core_client-ends,
}
use swiftbite_orders.Core.Products.{get_branch_products, keep_all}
use swiftbite_orders.Core.Products.Found.{Catalog, Keyed, Answers, Coherent}
use swiftbite_orders.Core.Basket.{asked_ids, cached_basket}
use swiftbite_orders.Core.Permissions.{PermissionCache, get_permissions, get_permissions-outage}
use swiftbite_orders.Http.Responses.{build_history}
use swiftbite_orders.Http.Responses.History.{
  build_history-with_status, time_in, same_status, is_stamped,
}
use swiftbite_orders.Order.Repo.Stamps.{with_status}
use swiftbite_orders.Order.Place.Basket.{
  OrderItemInput, find_product, shortfalls, subtotal, line_items,
}
use swiftbite_orders.Pagination.Cursor.{Chars}
use swiftbite_orders.Payment.Signature.{KashierWebhookPayload, verify_webhook}
use swiftbite_orders.Payment.Signature.Laws.{Plain, AgreeAt, verify_webhook-exactly}
use swiftbite_orders.Tests.Sample.{sample_order, sample_products}

-- The network fails once, then the service answers 42.
abbrev flaky : ℕ → Fetched ℕ
flaky n = if n == 0 then network_error else response (record { status = 200; body = wrapped 42 })

flaky-runs : core_client_get flaky ≡ ok 42
unfolding core_client_get swiftbite_orders.Core.Client.fetch_with_retry
    swiftbite_orders.Core.Retry.retry_with_backoff swiftbite_orders.Core.Retry.attempt_from
flaky-runs = refl

core_client-ends_example :
    CallEnds (err (upstream 500)) (λ status. upstream 502) flaky (core_client_get flaky)
    × CallEnds (ok 0) upstream flaky (core_client_post 0 flaky)
core_client-ends_example = core_client-ends 0 flaky

abbrev no_permissions : PermissionCache
no_permissions = record { fresh = []; stale = [] }

nothing_there : cached {V = List Text} 10 (3, 0) [] ≡ none
unfolding cached
nothing_there = refl

get_permissions-outage_example :
    let (given, after) = get_permissions true true 10 (λ role. ok (7 ∷ [])) 3 no_permissions in
    (given ≡ ok (7 ∷ []))
    × (get_permissions true true 3000 (λ role. err (upstream 503)) 3 after
        ≡ ((if ltb 3000 (10 + 3600) then ok (7 ∷ []) else err (upstream 503)), after))
get_permissions-outage_example =
    get_permissions-outage 10 3000 3 (7 ∷ []) no_permissions (λ role. ok (7 ∷ []))
      (λ role. err (upstream 503)) nothing_there refl refl

build_history-with_status_example :
    time_in accepted (
      build_history (
        with_status 950 ready
          (with_status 920 accepted (sample_order OrderStatus.placed PaymentMethod.cod))))
    ≡ (if same_status accepted ready && is_stamped ready
        then some 950
        else time_in accepted (
            build_history
              (with_status 920 accepted (sample_order OrderStatus.placed PaymentMethod.cod))))
build_history-with_status_example =
    build_history-with_status 950
      (with_status 920 accepted (sample_order OrderStatus.placed PaymentMethod.cod)) ready accepted

-- The branch offers the two sample products, wherever it stands.
abbrev offer : Catalog
offer branch id = find_product sample_products id

offer-Keyed : Keyed offer
offer-Keyed branch id p h =
    (==_iff p.product_id id).0 (first-passes (λ q. q.product_id == id) sample_products h)

abbrev by_offer : ℕ → List ℕ → Result (List CoreBranchProduct)
by_offer branch ids = ok sample_products

by_offer-Answers : Answers offer by_offer
by_offer-Answers branch ids ps h = rw (← ok-injective h) ((refl, (refl, tt)), λ id asked. refl)

abbrev first_product : CoreBranchProduct
first_product = record {
  product_id = 100;
  name = 12;
  image_url = none;
  price = 45;
  stock = 8;
  is_available = true;
}

-- The cache has the first product of branch 3.
abbrev one_cached : Shelf CoreBranchProduct
one_cached = keep true 0 (3, 100) first_product 30 []

one_cached-Coherent : Coherent offer 10 one_cached
unfolding cached
one_cached-Coherent branch id p h =
    elim (cached-kept true 10 0 (branch, id) (3, 100) first_product 30 [] h) [
      | inl (same, value) ↦ rw (ap (λ (k : ℕ × ℕ). k.1) same) (rw value refl)
      | inr before ↦ cc
    ]

abbrev two_items : List OrderItemInput
two_items =
    record { product_id = 100; quantity = 2 } ∷ record { product_id = 101; quantity = 1 } ∷ []

abbrev both_cached : Shelf CoreBranchProduct
both_cached = keep_all true 10 3 sample_products one_cached

products-run :
    get_branch_products true true 10 by_offer 3 (asked_ids two_items) one_cached
    ≡ (ok (first_product ∷ sample_products), both_cached)
unfolding get_branch_products swiftbite_orders.Core.Products.look_up cached keep
products-run = refl

cached_basket_example :
    (shortfalls (first_product ∷ sample_products) two_items ≡ shortfalls sample_products two_items)
    × ((sum : ℕ)
        → subtotal (first_product ∷ sample_products) sum two_items
          ≡ subtotal sample_products sum two_items)
    × (line_items (first_product ∷ sample_products) two_items
        ≡ line_items sample_products two_items)
    × ((later : Time) → Coherent offer later one_cached → Coherent offer later both_cached)
cached_basket_example =
    cached_basket offer by_offer true true 10 3 two_items one_cached both_cached
      (first_product ∷ sample_products) sample_products offer-Keyed by_offer-Answers
      one_cached-Coherent products-run refl

-- A webhook whose HMAC is the signed text.
abbrev shifted : Chars → Chars
shifted = map (λ c. c + 39)

shifted-Plain : (s : Chars) → Plain (shifted s)
shifted-Plain [] = tt
shifted-Plain (c ∷ s) = (λ h. absurd (omega arith), shifted-Plain s)

shifted-injective : (s t : Chars) → shifted s ≡ shifted t → s ≡ t
shifted-injective [] [] h = refl
shifted-injective [] (y ∷ t) h = cc
shifted-injective (x ∷ s) [] h = cc
shifted-injective (x ∷ s) (y ∷ t) h = ground (arith, shifted-injective s t)

abbrev as_text : Chars → Chars → List ℕ
as_text secret text = text

abbrev as_bytes : Chars → List ℕ
as_bytes text = text

abbrev pay_webhook : KashierWebhookPayload
pay_webhook = record {
  event = b'p' ∷ b'a' ∷ b'y' ∷ [];
  payload_data = record {
    fields = λ key. 1 ∷ [];
    signature_keys = some ((7 ∷ []) ∷ (5 ∷ []) ∷ []);
  };
}

abbrev other_event : KashierWebhookPayload
other_event = record pay_webhook { event = b'r' ∷ [] }

abbrev pay_signature : Chars
pay_signature = 5 ∷ b'=' ∷ 40 ∷ b'&' ∷ 7 ∷ b'=' ∷ 40 ∷ []

webhook-verifies : verify_webhook shifted as_text as_bytes [] pay_webhook pay_signature ≡ true
unfolding verify_webhook swiftbite_orders.Payment.Signature.verify_kashier_signature
    swiftbite_orders.Payment.Signature.query_string swiftbite_orders.Payment.Signature.join
    swiftbite_orders.Payment.Signature.sorted_keys swiftbite_orders.Payment.Signature.insert_key
    swiftbite_orders.Payment.Signature.comes_first
webhook-verifies = refl

verify_webhook-exactly_example :
    (verify_webhook shifted as_text as_bytes [] other_event pay_signature ≡ true)
    ↔ AgreeAt ((7 ∷ []) ∷ (5 ∷ []) ∷ []) (λ key. 1 ∷ []) (λ key. 1 ∷ [])
verify_webhook-exactly_example =
    verify_webhook-exactly shifted shifted-Plain shifted-injective as_text as_bytes [] pay_signature
      pay_webhook other_event ((7 ∷ []) ∷ (5 ∷ []) ∷ []) refl refl (λ h. h) webhook-verifies
