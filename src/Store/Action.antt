-- ===== src/Store/Action.antt =====
-- A service method: it may throw, and what it wrote before it threw stays written, so the world
-- comes back beside an error too. A database transaction is the exception (`transact`).
pub mod Atomic
pub mod Runs
use swiftbite_orders.Common.{◌+◌, Bool, true, false, Option, none, some, [], ◌∷◌, ◌++◌}
use swiftbite_orders.Domain.Error.{Error, Result, ok, err}
use swiftbite_orders.Domain.Order.{Text}
use swiftbite_orders.Domain.Event.{Channel, Message}
use swiftbite_orders.Store.Db.{Db}
use swiftbite_orders.Store.Tx.{Tx}
use swiftbite_orders.Store.World.{World, at_region}

abbrev pub Action : Type 0 → Type 0
Action A = World → Result A × World

module _ {A : Type 0} where
  unfoldable pub pure : A → Action A
  pure a w = (ok a, w)

  unfoldable pub throw : Error → Action A
  throw e w = (err e, w)

  -- The answer of a service outside the program.
  unfoldable pub lift : Result A → Action A
  lift r w = (r, w)

  unfoldable pub or_throw : Option A → Error → Action A
  or_throw none e w = (err e, w)
  or_throw (some a) e w = (ok a, w)

  -- A query on db(region), and on dbArchive(region).
  unfoldable pub query : Text → (Db → A) → Action A
  query region f w = (ok (f (w.hot region)), w)

  unfoldable pub query_archive : Text → (Db → A) → Action A
  query_archive region f w = (ok (f (w.archive region)), w)

  -- A statement on db(region) outside any transaction.
  unfoldable pub exec : Text → (Db → A × Db) → Action A
  exec region f w =
      let (a, db) = f (w.hot region) in (ok a, record w { hot = at_region w.hot region db })

  -- COMMIT or ROLLBACK, by how the body of a transaction ended.
  abbrev pub finish : Text → Result (A × Db) → Action A
  finish region (ok (a, db)) w = (ok a, record w { hot = at_region w.hot region db })
  finish region (err e) w = (err e, w)

  -- A transaction on db(region): committed whole, or rolled back whole.
  unfoldable pub transact : Text → Tx A → Action A
  transact region m w = finish region (m (w.hot region)) w

  -- `try { return await m } catch (err) { return await handle(err) }`
  unfoldable pub catch : Action A → (Error → Action A) → Action A
  catch m handle w = let (r, w') = m w in elim r [ ok a ↦ (ok a, w') | err e ↦ handle e w' ]

-- `await m.catch(() => {})`
unfoldable pub best_effort : Action (Unit {0}) → Action (Unit {0})
best_effort m w = let (_, w') = m w in (ok tt, w')

-- `if (test) { await m }`
unfoldable pub run_if : Bool → Action (Unit {0}) → Action (Unit {0})
run_if true m w = m w
run_if false m w = (ok tt, w)

unfoldable pub throw_if : Bool → Error → Action (Unit {0})
throw_if true e w = (err e, w)
throw_if false e w = (ok tt, w)

-- `publish` swallows its errors: it never throws.
unfoldable pub publish : Channel → Message → Action (Unit {0})
publish channel message w = (ok tt, record w { sent = w.sent ++ ((channel, message) ∷ []) })

unfoldable pub uuid : Action Text
uuid w = (ok w.next_uuid, record w { next_uuid = w.next_uuid + 1 })

abbrev pub continue : {A B : Type 0} → Result A → (A → Action B) → Action B
continue (ok a) f w = f a w
continue (err e) f w = (err e, w)

infixl 5 ◌>>=◌ ◌>>◌
-- To unfold this opens the actions above too.
unfoldable pub ◌>>=◌ : {A B : Type 0} → Action A → (A → Action B) → Action B
unfolding pure throw lift or_throw query query_archive exec transact catch best_effort run_if
    throw_if publish uuid
◌>>=◌ m f w = let (r, w') = m w in continue r f w'

abbrev pub ◌>>◌ : {A B : Type 0} → Action A → Action B → Action B
m >> k = m >>= λ _. k
