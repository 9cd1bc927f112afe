-- ===== src/Store/Action/Runs.antt =====
-- Inversion: what a successful run of a do block says of its first action and of the rest.
use swiftbite_orders.Common.{
  ◌≡◌, ◌⊎◌, inl, inr, refl, ap, sym, ◌∙◌, Bool, true, false, Option, none, some, ◌+◌,
}
use swiftbite_orders.Domain.Error.{Error, Result, ok, err, ok-injective}
use swiftbite_orders.Domain.Order.{Text}
use swiftbite_orders.Domain.Event.{Channel, Message}
use swiftbite_orders.Store.Db.{Db}
use swiftbite_orders.Store.Tx.{Tx}
use swiftbite_orders.Store.World.{World, at_region, at_region_self}
use swiftbite_orders.Store.Action.{
  Action, pure, lift, throw, catch, or_throw, query, exec, transact, throw_if, uuid, publish,
  best_effort, ◌>>=◌, continue, finish,
}

module _ {B : Type 0} {b : B} {w' : World} where
  pub throw_if-bind :
      (c : Bool) (e : Error) (f : Unit {0} → Action B) (w : World)
      → (throw_if c e >>= f) w ≡ (ok b, w')
      → (c ≡ false) × (f tt w ≡ (ok b, w'))
  unfolding ◌>>=◌
  throw_if-bind true e f w h = cc (ap (λ t. t.0) h)
  throw_if-bind false e f w h = (refl, h)

  pub uuid-bind :
      (f : Text → Action B) (w : World)
      → (uuid >>= f) w ≡ (ok b, w')
      → f w.next_uuid (record w { next_uuid = w.next_uuid + 1 }) ≡ (ok b, w')
  unfolding ◌>>=◌
  uuid-bind f w h = h

  pub publish-bind :
      (channel : Channel) (message : Message) (f : Unit {0} → Action B) (w : World)
      → (publish channel message >>= f) w ≡ (ok b, w')
      → f tt (publish channel message w).1 ≡ (ok b, w')
  unfolding ◌>>=◌
  publish-bind channel message f w h = h

  pub best_effort-bind :
      (m : Action (Unit {0})) (f : Unit {0} → Action B) (w : World)
      → (best_effort m >>= f) w ≡ (ok b, w')
      → f tt (m w).1 ≡ (ok b, w')
  unfolding ◌>>=◌
  best_effort-bind m f w h = h

module _ {A B : Type 0} {b : B} {w' : World} where
  pub lift-bind :
      (r : Result A) (f : A → Action B) (w : World)
      → (lift r >>= f) w ≡ (ok b, w')
      → (a : A) × (r ≡ ok a) × (f a w ≡ (ok b, w'))
  unfolding ◌>>=◌
  lift-bind (ok a) f w h = (a, refl, h)
  lift-bind (err e) f w h = cc (ap (λ t. t.0) h)

  pub or_throw-bind :
      (o : Option A) (e : Error) (f : A → Action B) (w : World)
      → (or_throw o e >>= f) w ≡ (ok b, w')
      → (a : A) × (o ≡ some a) × (f a w ≡ (ok b, w'))
  unfolding ◌>>=◌
  or_throw-bind (some a) e f w h = (a, refl, h)
  or_throw-bind none e f w h = cc (ap (λ t. t.0) h)

  pub query-bind :
      (region : Text) (q : Db → A) (f : A → Action B) (w : World)
      → (query region q >>= f) w ≡ (ok b, w')
      → f (q (w.hot region)) w ≡ (ok b, w')
  unfolding ◌>>=◌
  query-bind region q f w h = h

  pub exec-bind :
      (region : Text) (q : Db → A × Db) (f : A → Action B) (w : World)
      → (exec region q >>= f) w ≡ (ok b, w')
      → let (a, db) = q (w.hot region) in
        f a (record w { hot = at_region w.hot region db }) ≡ (ok b, w')
  unfolding ◌>>=◌
  exec-bind region q f w h = h

  pub transact-bind :
      (region : Text) (m : Tx A) (f : A → Action B) (w : World)
      → (transact region m >>= f) w ≡ (ok b, w')
      → (a : A) × (db : Db) × (m (w.hot region) ≡ ok (a, db))
        × (f a (record w { hot = at_region w.hot region db }) ≡ (ok b, w'))
  unfolding ◌>>=◌
  transact-bind region m f w h = go (m (w.hot region)) refl h
    where
      go :
          (r : Result (A × Db))
          → m (w.hot region) ≡ r
          → (finish region r >>= f) w ≡ (ok b, w')
          → (a : A) × (db : Db) × (m (w.hot region) ≡ ok (a, db))
            × (f a (record w { hot = at_region w.hot region db }) ≡ (ok b, w'))
      go (ok (a, db)) e k = (a, db, e, k)
      go (err x) e k = cc (ap (λ t. t.0) k)

  -- The first action may be any.
  pub any-bind :
      (m : Action A) (f : A → Action B) (w : World)
      → (m >>= f) w ≡ (ok b, w')
      → (a : A) × (v : World) × (m w ≡ (ok a, v)) × (f a v ≡ (ok b, w'))
  unfolding ◌>>=◌
  any-bind m f w h = go (m w).0 (m w).1 refl h
    where
      go :
          (r : Result A) (v : World)
          → m w ≡ (r, v)
          → continue r f v ≡ (ok b, w')
          → (a : A) × (v : World) × (m w ≡ (ok a, v)) × (f a v ≡ (ok b, w'))
      go (ok a) v e k = (a, v, e, k)
      go (err x) v e k = cc (ap (λ t. t.0) k)

pub pure-ok :
    {A : Type 0} (a : A) (w : World) {b : A} {w' : World}
    → pure a w ≡ (ok b, w')
    → (a ≡ b) × (w ≡ w')
unfolding pure
pure-ok a w h = (ok-injective (ap (λ t. t.0) h), ap (λ t. t.1) h)

pub catch-throw-ok :
    {A : Type 0} (r : Result A) (e : Error) (w : World) {a : A} {v : World}
    → catch (lift r) (λ _. throw e) w ≡ (ok a, v)
    → (r ≡ ok a) × (w ≡ v)
unfolding ◌>>=◌
catch-throw-ok (ok a) e w h = (ap (λ t. t.0) h, ap (λ t. t.1) h)
catch-throw-ok (err x) e w h = cc (ap (λ t. t.0) h)

pub transact-ok :
    {A : Type 0} (region : Text) (m : Tx A) (w : World) {a : A} {w' : World}
    → transact region m w ≡ (ok a, w')
    → (db : Db) × (m (w.hot region) ≡ ok (a, db)) × (w'.hot region ≡ db)
unfolding transact
transact-ok {A = A} region m w {a} {w'} h = go (m (w.hot region)) refl h
  where
    go :
        (r : Result (A × Db))
        → m (w.hot region) ≡ r
        → finish region r w ≡ (ok a, w')
        → (db : Db) × (m (w.hot region) ≡ ok (a, db)) × (w'.hot region ≡ db)
    go (ok (x, db)) e k = (
      db,
      e ∙ ap (λ y. ok (y, db)) (ok-injective (ap (λ t. t.0) k)),
      ap (λ t. (t.1).hot region) (sym k) ∙ at_region_self w.hot region db,
    )
    go (err x) e k = cc (ap (λ t. t.0) k)

-- A do block that fails has failed in its first action, or in the rest.
pub bind-failure :
    {A B : Type 0} (m : Action A) (f : A → Action B) (w : World) {e : Error} {w' : World}
    → (m >>= f) w ≡ (err e, w')
    → (m w ≡ (err e, w')) ⊎ ((a : A) × (v : World) × (m w ≡ (ok a, v)) × (f a v ≡ (err e, w')))
unfolding ◌>>=◌
bind-failure {A = A} {B = B} m f w {e} {w'} h = go (m w).0 (m w).1 refl h
  where
    go :
        (r : Result A) (v : World)
        → m w ≡ (r, v)
        → continue r f v ≡ (err e, w')
        → (m w ≡ (err e, w')) ⊎ ((a : A) × (v : World) × (m w ≡ (ok a, v)) × (f a v ≡ (err e, w')))
    go (ok a) v s k = inr (a, v, s, k)
    go (err x) v s k = inl (s ∙ cc k)

pub transact-failure :
    {A : Type 0} (region : Text) (m : Tx A) (w : World) {e : Error} {w' : World}
    → transact region m w ≡ (err e, w')
    → w'.hot ≡ w.hot
unfolding transact
transact-failure {A = A} region m w {e} {w'} h = go (m (w.hot region)) h
  where
    go : (r : Result (A × Db)) → finish region r w ≡ (err e, w') → w'.hot ≡ w.hot
    go (ok a) k = cc (ap (λ t. t.0) k)
    go (err x) k = ap (λ t. (t.1).hot) (sym k)

-- What a do block that fails says of its first action and of the rest.
module _ {A B : Type 0} {e : Error} {w' : World} where
  pub or_throw-bind_failure :
      (o : Option A) (x : Error) (f : A → Action B) (w : World)
      → (or_throw o x >>= f) w ≡ (err e, w')
      → (w' ≡ w) ⊎ ((a : A) × (o ≡ some a) × (f a w ≡ (err e, w')))
  unfolding ◌>>=◌
  or_throw-bind_failure (some a) x f w h = inr (a, refl, h)
  or_throw-bind_failure none x f w h = inl (ap (λ t. t.1) (sym h))

  pub lift-bind_failure :
      (r : Result A) (f : A → Action B) (w : World)
      → (lift r >>= f) w ≡ (err e, w')
      → (w' ≡ w) ⊎ ((a : A) × (r ≡ ok a) × (f a w ≡ (err e, w')))
  unfolding ◌>>=◌
  lift-bind_failure (ok a) f w h = inr (a, refl, h)
  lift-bind_failure (err x) f w h = inl (ap (λ t. t.1) (sym h))

  pub transact-bind_failure :
      (region : Text) (m : Tx A) (f : A → Action B) (w : World)
      → (transact region m >>= f) w ≡ (err e, w')
      → (w' ≡ w)
        ⊎ ((a : A) × (db : Db) × (m (w.hot region) ≡ ok (a, db))
            × (f a (record w { hot = at_region w.hot region db }) ≡ (err e, w')))
  unfolding ◌>>=◌
  transact-bind_failure region m f w h = go (m (w.hot region)) refl h
    where
      go :
          (r : Result (A × Db))
          → m (w.hot region) ≡ r
          → (let (x, v) = finish region r w in continue x f v) ≡ (err e, w')
          → (w' ≡ w)
            ⊎ ((a : A) × (db : Db) × (m (w.hot region) ≡ ok (a, db))
                × (f a (record w { hot = at_region w.hot region db }) ≡ (err e, w')))
      go (ok (a, db)) written k = inr (a, db, written, k)
      go (err x) written k = inl (ap (λ t. t.1) (sym k))

  pub query-bind_failure :
      (region : Text) (q : Db → A) (f : A → Action B) (w : World)
      → (query region q >>= f) w ≡ (err e, w')
      → f (q (w.hot region)) w ≡ (err e, w')
  unfolding ◌>>=◌
  query-bind_failure region q f w h = h

pub uuid-bind_failure :
    {B : Type 0} (f : Text → Action B) (w : World) {e : Error} {w' : World}
    → (uuid >>= f) w ≡ (err e, w')
    → f w.next_uuid (record w { next_uuid = w.next_uuid + 1 }) ≡ (err e, w')
unfolding ◌>>=◌
uuid-bind_failure f w h = h
