-- ===== src/Store/Action/Atomic.antt =====
-- Actions that write nothing, actions that cannot throw, and actions that write nothing when they
-- throw, with one rule for each way to build an action. `search` applies them to a do block.
use swiftbite_orders.Common.{◌≡◌, refl, ◌∙◌, Bool, true, false, Option, none, some}
use swiftbite_orders.Domain.Error.{Error, Result, ok, err}
use swiftbite_orders.Domain.Order.{Text}
use swiftbite_orders.Domain.Event.{Channel, Message}
use swiftbite_orders.Store.Db.{Db}
use swiftbite_orders.Store.Tx.{Tx}
use swiftbite_orders.Store.World.{World}
use swiftbite_orders.Store.Action.{
  Action, pure, throw, lift, or_throw, query, query_archive, exec, transact, best_effort, run_if,
  throw_if, publish, uuid, ◌>>=◌, finish, continue,
}

-- Nothing but the counter of uuids has changed.
pub record IsUntouched (w w' : World) : Type 0 where
  pub hot : w'.hot ≡ w.hot
  pub archive : w'.archive ≡ w.archive
  pub presence : w'.presence ≡ w.presence
  pub sent : w'.sent ≡ w.sent

pub IsUntouched-refl : (w : World) → IsUntouched w w
IsUntouched-refl w = record { hot = refl; archive = refl; presence = refl; sent = refl }

IsUntouched-trans : {u v w : World} → IsUntouched u v → IsUntouched v w → IsUntouched u w
IsUntouched-trans p q = record {
  hot = q.hot ∙ p.hot;
  archive = q.archive ∙ p.archive;
  presence = q.presence ∙ p.presence;
  sent = q.sent ∙ p.sent;
}

-- `m` writes nothing, whether it returns or throws.
pub record Quiet {A : Type 0} (m : Action A) : Type 0 where
  pub at : (w : World) → IsUntouched w (m w).1

abbrev pub Succeeds : {A : Type 0} → Result A × World → Type 0
Succeeds (ok _, _) = Unit
Succeeds (err _, _) = ⊥

-- `m` never throws.
pub record Total {A : Type 0} (m : Action A) : Type 0 where
  pub at : (w : World) → Succeeds (m w)

abbrev pub Outcome : {A : Type 0} → World → Result A × World → Type 0
Outcome w (ok _, _) = Unit
Outcome w (err _, w') = IsUntouched w w'

-- Where `m` throws, it has written nothing.
pub record Atomic {A : Type 0} (m : Action A) : Type 0 where
  pub at : (w : World) → Outcome w (m w)

module _ {A : Type 0} where
  pub Quiet-pure : (a : A) → Quiet (pure a)
  unfolding pure
  Quiet-pure a = record { at = IsUntouched-refl }

  pub Quiet-throw : (e : Error) → Quiet (throw {A = A} e)
  unfolding throw
  Quiet-throw e = record { at = IsUntouched-refl }

  pub Quiet-lift : (r : Result A) → Quiet (lift r)
  unfolding lift
  Quiet-lift r = record { at = IsUntouched-refl }

  pub Quiet-or_throw : (o : Option A) (e : Error) → Quiet (or_throw o e)
  unfolding or_throw
  Quiet-or_throw none e = record { at = IsUntouched-refl }
  Quiet-or_throw (some a) e = record { at = IsUntouched-refl }

  pub Quiet-query : (region : Text) (f : Db → A) → Quiet (query region f)
  unfolding query
  Quiet-query region f = record { at = IsUntouched-refl }

  pub Quiet-query_archive : (region : Text) (f : Db → A) → Quiet (query_archive region f)
  unfolding query_archive
  Quiet-query_archive region f = record { at = IsUntouched-refl }

  pub Total-pure : (a : A) → Total (pure a)
  unfolding pure
  Total-pure a = record { at = λ w. tt }

  pub Total-query : (region : Text) (f : Db → A) → Total (query region f)
  unfolding query
  Total-query region f = record { at = λ w. tt }

  pub Total-exec : (region : Text) (f : Db → A × Db) → Total (exec region f)
  unfolding exec
  Total-exec region f = record { at = λ w. tt }

  pub Atomic-transact : (region : Text) (m : Tx A) → Atomic (transact region m)
  unfolding transact
  Atomic-transact region m = record { at = λ w. go w (m (w.hot region)) }
    where
      go : (w : World) (r : Result (A × Db)) → Outcome {A = A} w (finish region r w)
      go w (ok (a, db)) = tt
      go w (err e) = IsUntouched-refl w

  pub Atomic-Quiet : (m : Action A) → Quiet m → Atomic m
  Atomic-Quiet m q = record { at = λ w. let (r, w') = m w in go w r w' (q.at w) }
    where
      go : (w : World) (r : Result A) (w' : World) → IsUntouched w w' → Outcome w (r, w')
      go w (ok a) w' u = tt
      go w (err e) w' u = u

  pub Atomic-Total : (m : Action A) → Total m → Atomic m
  Atomic-Total m t = record { at = λ w. let (r, w') = m w in go w r w' (t.at w) }
    where
      go : (w : World) (r : Result A) (w' : World) → Succeeds (r, w') → Outcome w (r, w')
      go w (ok a) w' s = tt
      go w (err e) w' s = absurd s

pub Quiet-throw_if : (b : Bool) (e : Error) → Quiet (throw_if b e)
unfolding throw_if
Quiet-throw_if true e = record { at = IsUntouched-refl }
Quiet-throw_if false e = record { at = IsUntouched-refl }

pub Quiet-uuid : Quiet uuid
unfolding uuid
Quiet-uuid = record {
  at = λ w. record { hot = refl; archive = refl; presence = refl; sent = refl };
}

pub Total-publish : (channel : Channel) (message : Message) → Total (publish channel message)
unfolding publish
Total-publish channel message = record { at = λ w. tt }

pub Total-best_effort : (m : Action (Unit {0})) → Total (best_effort m)
unfolding best_effort
Total-best_effort m = record { at = λ w. tt }

pub Total-run_if : (b : Bool) (m : Action (Unit {0})) → Total m → Total (run_if b m)
unfolding run_if
Total-run_if true m t = record { at = t.at }
Total-run_if false m t = record { at = λ w. tt }

module _ {A B : Type 0} where
  pub Quiet-bind :
      (m : Action A) (f : A → Action B) → Quiet m → ((a : A) → Quiet (f a)) → Quiet (m >>= f)
  unfolding ◌>>=◌
  Quiet-bind m f q k = record { at = λ w. let (r, w') = m w in go w r w' (q.at w) }
    where
      go :
          (w : World) (r : Result A) (w' : World)
          → IsUntouched w w'
          → IsUntouched w (continue r f w').1
      go w (ok a) w' u = IsUntouched-trans u ((k a).at w')
      go w (err e) w' u = u

  pub Total-bind :
      (m : Action A) (f : A → Action B) → Total m → ((a : A) → Total (f a)) → Total (m >>= f)
  unfolding ◌>>=◌
  Total-bind m f t k = record { at = λ w. let (r, w') = m w in go r w' (t.at w) }
    where
      go : (r : Result A) (w' : World) → Succeeds (r, w') → Succeeds {A = B} (continue r f w')
      go (ok a) w' s = (k a).at w'
      go (err e) w' s = absurd s

  -- A prefix that writes nothing may stand before an atomic rest.
  pub Atomic-bind-Quiet :
      (m : Action A) (f : A → Action B) → Quiet m → ((a : A) → Atomic (f a)) → Atomic (m >>= f)
  unfolding ◌>>=◌
  Atomic-bind-Quiet m f q k = record { at = λ w. let (r, w') = m w in go w r w' (q.at w) }
    where
      shift : (u v : World) (x : Result B × World) → IsUntouched u v → Outcome v x → Outcome u x
      shift u v (ok b, w'') t o = tt
      shift u v (err e, w'') t o = IsUntouched-trans t o

      go :
          (w : World) (r : Result A) (w' : World)
          → IsUntouched w w'
          → Outcome {A = B} w (continue r f w')
      go w (ok a) w' u = shift w w' (f a w') u ((k a).at w')
      go w (err e) w' u = u

  -- After an atomic action nothing may throw.
  pub Atomic-bind-Total :
      (m : Action A) (f : A → Action B) → Atomic m → ((a : A) → Total (f a)) → Atomic (m >>= f)
  unfolding ◌>>=◌
  Atomic-bind-Total m f t k = record { at = λ w. let (r, w') = m w in go w r w' (t.at w) }
    where
      through : (w : World) (x : Result B × World) → Succeeds x → Outcome w x
      through w (ok b, w'') s = tt
      through w (err e, w'') s = absurd s

      go :
          (w : World) (r : Result A) (w' : World)
          → Outcome w (r, w')
          → Outcome {A = B} w (continue r f w')
      go w (ok a) w' o = through w (f a w') ((k a).at w')
      go w (err e) w' o = o

pub ruleset quiet_rules = (
  Quiet-pure, Quiet-throw, Quiet-lift, Quiet-or_throw, Quiet-query, Quiet-query_archive,
  Quiet-throw_if, Quiet-uuid, Quiet-bind,
)

pub ruleset total_rules = (
  Total-pure, Total-query, Total-exec, Total-publish, Total-best_effort, Total-run_if, Total-bind,
)
