-- ===== src/Store/Tx.antt =====
-- The body of `const trx = await conn.transaction(); try { …; await trx.commit() } catch (err) {
-- await trx.rollback(); throw err }`: what an error leaves behind is rolled back, so an error
-- carries no database.
pub mod Runs
use swiftbite_orders.Common.{Bool, true, false, Option, none, some}
use swiftbite_orders.Domain.Error.{Error, Result, ok, err}
use swiftbite_orders.Store.Db.{Db}

abbrev pub Tx : Type 0 → Type 0
Tx A = Db → Result (A × Db)

module _ {A : Type 0} where
  unfoldable pub pure : A → Tx A
  pure a db = ok (a, db)

  unfoldable pub throw : Error → Tx A
  throw e db = err e

  -- A query, and a statement that cannot fail.
  unfoldable pub query : (Db → A) → Tx A
  query f db = ok (f db, db)

  unfoldable pub exec : (Db → A × Db) → Tx A
  exec f db = ok (f db)

  unfoldable pub or_throw : Option A → Error → Tx A
  or_throw none e db = err e
  or_throw (some a) e db = ok (a, db)

unfoldable pub throw_if : Bool → Error → Tx (Unit {0})
throw_if true e db = err e
throw_if false e db = ok (tt, db)

-- `if (test) { await m }`
unfoldable pub run_if : Bool → Tx (Unit {0}) → Tx (Unit {0})
run_if true m db = m db
run_if false m db = ok (tt, db)

abbrev pub continue : {A B : Type 0} → Result (A × Db) → (A → Tx B) → Result (B × Db)
continue (ok (a, db)) f = f a db
continue (err e) f = err e

infixl 5 ◌>>=◌ ◌>>◌
-- To unfold this opens the actions above too.
unfoldable pub ◌>>=◌ : {A B : Type 0} → Tx A → (A → Tx B) → Tx B
unfolding pure throw query exec or_throw throw_if run_if
◌>>=◌ m f db = continue (m db) f

abbrev pub ◌>>◌ : {A B : Type 0} → Tx A → Tx B → Tx B
m >> k = m >>= λ _. k
