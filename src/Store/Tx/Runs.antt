-- ===== src/Store/Tx/Runs.antt =====
-- Inversion: what a transaction that commits says of its first statement and of the rest.
use swiftbite_orders.Common.{◌≡◌, refl, Bool, true, false, Option, none, some}
use swiftbite_orders.Domain.Error.{Error, Result, ok, err, ok-pair}
use swiftbite_orders.Store.Db.{Db}
use swiftbite_orders.Store.Tx.{Tx, pure, query, exec, or_throw, throw_if, continue, ◌>>=◌}

pub pure-ok :
    {A : Type 0} (a : A) (db : Db) {b : A} {db' : Db}
    → pure a db ≡ ok (b, db')
    → (a ≡ b) × (db ≡ db')
unfolding pure
pure-ok a db h = ok-pair h

pub exec-ok :
    {A : Type 0} (f : Db → A × Db) (db : Db) {b : A} {db' : Db}
    → exec f db ≡ ok (b, db')
    → ((f db).0 ≡ b) × ((f db).1 ≡ db')
unfolding exec
exec-ok f db h = ok-pair h

module _ {A B : Type 0} {r : B × Db} where
  pub query-bind :
      (q : Db → A) (f : A → Tx B) (db : Db) → (query q >>= f) db ≡ ok r → f (q db) db ≡ ok r
  unfolding ◌>>=◌
  query-bind q f db h = h

  pub exec-bind :
      (q : Db → A × Db) (f : A → Tx B) (db : Db)
      → (exec q >>= f) db ≡ ok r
      → f (q db).0 (q db).1 ≡ ok r
  unfolding ◌>>=◌
  exec-bind q f db h = h

  pub or_throw-bind :
      (o : Option A) (e : Error) (f : A → Tx B) (db : Db)
      → (or_throw o e >>= f) db ≡ ok r
      → (a : A) × (o ≡ some a) × (f a db ≡ ok r)
  unfolding ◌>>=◌
  or_throw-bind none e f db h = cc
  or_throw-bind (some a) e f db h = (a, refl, h)

  pub any-bind :
      (m : Tx A) (f : A → Tx B) (db : Db)
      → (m >>= f) db ≡ ok r
      → (a : A) × (db' : Db) × (m db ≡ ok (a, db')) × (f a db' ≡ ok r)
  unfolding ◌>>=◌
  any-bind m f db h = go (m db) refl h
    where
      go :
          (x : Result (A × Db))
          → m db ≡ x
          → continue x f ≡ ok r
          → (a : A) × (db' : Db) × (m db ≡ ok (a, db')) × (f a db' ≡ ok r)
      go (ok (a, db')) e k = (a, db', e, k)
      go (err x) e k = cc

module _ {B : Type 0} {r : B × Db} where
  pub throw_if-bind :
      (c : Bool) (e : Error) (f : Unit {0} → Tx B) (db : Db)
      → (throw_if c e >>= f) db ≡ ok r
      → (c ≡ false) × (f tt db ≡ ok r)
  unfolding ◌>>=◌
  throw_if-bind true e f db h = cc
  throw_if-bind false e f db h = (refl, h)

pub exec-then :
    {A B : Type 0} (q : Db → A × Db) (f : A → Tx B) (db : Db)
    → (exec q >>= f) db ≡ f (q db).0 (q db).1
unfolding ◌>>=◌
exec-then q f db = refl
