-- ===== src/Payment/Service/Laws.antt =====
-- A payment session is opened once, and what a refund demands: payment.service.ts.
use swiftbite_orders.Common.{
  ℕ, ◌≡◌, refl, sym, ap, ◌∙◌, subst, arith, Bool, true, false, Option, none, some, List, [], ◌∷◌,
  ◌++◌, not, ◌==◌, ==_refl, Bool-cases, Option-cases, inl, inr, is_some, leb, first, select,
}
use swiftbite_orders.Domain.Error.{
  ok, ok-pair, ok-injective, payment_provider_unavailable, order_not_found,
}
use swiftbite_orders.Domain.Order.{Text, OrderEntity, is_pending_payment}
use swiftbite_orders.Domain.Payment.{TransactionEntity, PaymentSessionEntity, PaymentProviderRow}
use swiftbite_orders.Store.Db.{Db, Table}
use swiftbite_orders.Store.World.{World}
use swiftbite_orders.Store.Env.{Env, CreateSessionResult}
use swiftbite_orders.Store.Action.{◌>>=◌, ◌>>◌, throw_if, or_throw}
use swiftbite_orders.Store.Action.Runs.{
  pure-ok, any-bind, query-bind, throw_if-bind, or_throw-bind, catch-throw-ok, transact-ok,
}
use swiftbite_orders.Order.Repo.{find_order_by_public_id, has_public_id}
use swiftbite_orders.Payment.Repo.{find_transaction_by_id, is_charge, is_succeeded}
use swiftbite_orders.Payment.Repo.Sessions.{
  open_for_order, newest, find_active_payment_session_by_order_id, create_payment_session,
}
use swiftbite_orders.Payment.Service.{
  find_order_for_payment, open_session, init, refund, is_own, session_input,
}

-- A refund that does not throw is of a charge, or a cash collection, that has succeeded and has not
-- been refunded.
pub refund-rights :
    (env : Env) (payment_id : ℕ) (region : Text) (requested : Option ℕ) (reason : Text) (w : World)
    {r : Option TransactionEntity} {w' : World}
    → refund env payment_id region requested reason w ≡ (ok r, w')
    → (c : TransactionEntity) × (find_transaction_by_id payment_id (w.hot region) ≡ some c)
      × (is_charge c.transaction_type ≡ true)
      × (is_succeeded c.status ≡ true)
      × (c.is_refunded ≡ false)
unfolding refund
refund-rights env payment_id region requested reason w h =
    let (c, found, h1) = or_throw-bind _ _ _ _ (query-bind _ _ _ _ h) in
    let (fit, h2) = throw_if-bind _ _ _ _ h1 in
    let (fresh, _) = throw_if-bind _ _ _ _ h2 in (c, found, ground arith, ground arith, fresh)

newest-none : (ss : List PaymentSessionEntity) → newest ss ≡ none → ss ≡ []
newest-none [] h = refl
newest-none (s ∷ ss) h = elim (Option-cases (newest ss)) [
  | inl empty ↦ cc (rw empty at h)
  | inr (t, later) ↦ elim (Bool-cases (leb t.created_at s.created_at)) [
    | inl passed ↦ cc (rw (later, passed) at h)
    | inr failed ↦ cc (rw (later, failed) at h)
  ]
]

select-append :
    {R : Type 0} (p : R → Bool) (xs ys : List R) → select p (xs ++ ys) ≡ select p xs ++ select p ys
select-append p [] ys = refl
select-append p (x ∷ xs) ys = elim (Bool-cases (p x)) [
  | inl passed ↦ rw (passed, select-append p xs ys) refl
  | inr failed ↦ rw (failed, select-append p xs ys) refl
]

-- The session made is the open one.
create_payment_session-open :
    (env : Env) (region : Text) (o : OrderEntity) (provider : PaymentProviderRow)
    (created : CreateSessionResult) (db : Db) {s : PaymentSessionEntity} {db' : Db}
    → find_active_payment_session_by_order_id o.id db ≡ none
    → create_payment_session env.now (session_input region o provider created) db ≡ ok (s, db')
    → (find_active_payment_session_by_order_id o.id db' ≡ some s) × (db'.orders ≡ db.orders)
unfolding create_payment_session find_active_payment_session_by_order_id
create_payment_session-open env region o provider created db {s} {db'} idle h =
    elim (Bool-cases (
      is_some (
        first (λ x. x.provider_session_id == created.provider_session_id)
          db.payment_sessions.rows))) [
            | inl taken ↦ cc (rw (taken, create_payment_session) at h)
            | inr free ↦
                let (made, written) = ok-pair (rw (free, create_payment_session) at h) in
                (
                  ap (λ (x : Db). newest (select (open_for_order o.id) x.payment_sessions.rows))
                        (sym written)
                      ∙ ap newest (select-append (open_for_order o.id) db.payment_sessions.rows _)
                      ∙ rw
                          (
                            newest-none (select (open_for_order o.id) db.payment_sessions.rows)
                                idle,
                            ==_refl o.id,
                          )
                          (ap some made),
                  ap (λ (x : Db). x.orders) (sym written),
                )
          ]

open_session-open :
    (env : Env) (region : Text) (o : OrderEntity) (existing : Option PaymentSessionEntity)
    (w : World) {s : PaymentSessionEntity} {w' : World}
    → find_active_payment_session_by_order_id o.id (w.hot region) ≡ existing
    → open_session env region o existing w ≡ (ok s, w')
    → (find_active_payment_session_by_order_id o.id (w'.hot region) ≡ some s)
      × ((w'.hot region).orders ≡ (w.hot region).orders)
unfolding open_session
open_session-open env region o (some x) w {s} {w'} there h =
    let (same, stay) = pure-ok _ _ h in
    (
      ap (λ (v : World). find_active_payment_session_by_order_id o.id (v.hot region)) (sym stay)
          ∙ there
          ∙ ap some same,
      ap (λ (v : World). (v.hot region).orders) (sym stay),
    )
open_session-open env region o none w {s} {w'} idle h =
    let (provider, _, h1) = or_throw-bind _ _ _ _ (query-bind _ _ _ _ h) in
    let (created, v, answered, h2) = any-bind _ _ _ h1 in
    let (_, stay) =
      catch-throw-ok (env.create_session o o.total) payment_provider_unavailable w answered in
    let (db, made, here) = transact-ok region _ v h2 in
    let (opened, orders) =
      create_payment_session-open env region o provider created (v.hot region)
        (subst (λ (x : World). find_active_payment_session_by_order_id o.id (x.hot region) ≡ none)
          stay idle)
        made in
    (
      ap (find_active_payment_session_by_order_id o.id) here ∙ opened,
      ap (λ (x : Db). x.orders) here
          ∙ orders
          ∙ ap (λ (x : World). (x.hot region).orders) (sym stay),
    )

find_order-ok :
    (public_id region : Text) (customer_id : ℕ) (w : World) {o : OrderEntity} {v : World}
    → find_order_for_payment public_id region customer_id w ≡ (ok o, v)
    → (find_order_by_public_id public_id (w.hot region) ≡ some o)
      × (is_own customer_id (some o) ≡ true)
      × (w ≡ v)
unfolding find_order_for_payment ◌>>=◌
find_order-ok public_id region customer_id w {o} {v} h =
    go (find_order_by_public_id public_id (w.hot region)) refl h
  where
    go :
        (found : Option OrderEntity)
        → find_order_by_public_id public_id (w.hot region) ≡ found
        → (throw_if (not (is_own customer_id found)) order_not_found
              >> or_throw found order_not_found)
            w
          ≡ (ok o, v)
        → (find_order_by_public_id public_id (w.hot region) ≡ some o)
          × (is_own customer_id (some o) ≡ true)
          × (w ≡ v)
    go none e h1 = cc (ap (λ t. t.0) h1)
    go (some x) e h1 = elim (Bool-cases (is_own customer_id (some x))) [
      | inr other ↦ let k = rw other at h1 in cc (ap (λ t. t.0) k)
      | inl own ↦
          let k = rw own at h1 in
          let same : x ≡ o = ok-injective (ap (λ t. t.0) k) in
          (
            e ∙ ap some same,
            subst (λ y. is_own customer_id (some y) ≡ true) same own,
            ap (λ t. t.1) k,
          )
    ]

-- An order whose session is open is handed that session, whatever the provider would answer now.
init-runs :
    (env : Env) (order_public_id region : Text) (customer_id : ℕ) (w : World) {o : OrderEntity}
    {s : PaymentSessionEntity}
    → find_order_by_public_id order_public_id (w.hot region) ≡ some o
    → is_own customer_id (some o) ≡ true
    → is_pending_payment o.status ≡ true
    → find_active_payment_session_by_order_id o.id (w.hot region) ≡ some s
    → init env order_public_id region customer_id w ≡ (ok s, w)
unfolding init find_order_for_payment open_session ◌>>=◌
init-runs env order_public_id region customer_id w found own unpaid opened =
    rw (found, own) (rw unpaid (rw opened refl))

-- A payment that is started again before it is paid gets the session that is open: after `init` has
-- handed a session out, a second `init` of the same customer hands out the same and writes nothing,
-- whatever the provider would answer the second time.
pub init-again :
    (env later : Env) (order_public_id region : Text) (customer_id : ℕ) (w : World)
    {s : PaymentSessionEntity} {w' : World}
    → init env order_public_id region customer_id w ≡ (ok s, w')
    → init later order_public_id region customer_id w' ≡ (ok s, w')
unfolding init find_order_by_public_id
init-again env later order_public_id region customer_id w {s} {w'} h =
    let (o, v, owned, h1) = any-bind _ _ _ h in
    let (found, own, stay) = find_order-ok order_public_id region customer_id w owned in
    let (pending, h2) = throw_if-bind _ _ _ _ h1 in
    let (opened, orders) = open_session-open env region o _ v refl (query-bind _ _ _ _ h2) in
    let unpaid : is_pending_payment o.status ≡ true = ground arith in
    let found' =
      ap (λ (t : Table OrderEntity). first (has_public_id order_public_id) t.rows)
        (orders ∙ ap (λ (x : World). (x.hot region).orders) (sym stay))
      ∙ found in
    init-runs later order_public_id region customer_id w' found' own unpaid opened
