-- ===== src/Jobs/Lock.antt =====
-- The lock of an archival run in Redis: src/lib/jobs/archival-lock.ts. A key with a time to live is
-- its value and when it expires; a token comes from uuidv4.
use swiftbite_orders.Common.{
  List, [], ◌∷◌, All, ◌||◌, Bool-cases, inl, inr, ==_refl, ℕ, ◌+◌, ◌<◌, ◌≡◌, ◌≢◌, refl, arith, Bool,
  true, false, ◌&&◌, Option, none, some, ltb, ◌==◌, if◌then◌else◌,
}
use swiftbite_orders.Domain.Order.{Text, Time}

pub record Held : Type 0 where
  pub token : Text
  pub expires_at : Time

-- SET … NX PX
unfoldable pub acquire_lock : Time → Text → ℕ → Option Held → Bool × Option Held
acquire_lock now token ttl none = (true, some (record { token = token; expires_at = now + ttl }))
acquire_lock now token ttl (some held) =
    if ltb now held.expires_at
    then (false, some held)
    else (true, some (record { token = token; expires_at = now + ttl }))

-- RENEW_SCRIPT
unfoldable pub renew_lock : Time → Text → ℕ → Option Held → Bool × Option Held
renew_lock now token ttl none = (false, none)
renew_lock now token ttl (some held) =
    if ltb now held.expires_at && (held.token == token)
    then (true, some (record held { expires_at = now + ttl }))
    else (false, some held)

-- RELEASE_SCRIPT
unfoldable pub release_lock : Time → Text → Option Held → Bool × Option Held
release_lock now token none = (false, none)
release_lock now token (some held) =
    if ltb now held.expires_at && (held.token == token) then (true, none) else (false, some held)

-- A call of another process or of a later run: when, with what token, and for how long.
pub data LockOp : Type 0 where
  acquire renew : (at : Time) → (token : Text) → (ttl : ℕ) → LockOp
  release : (at : Time) → (token : Text) → LockOp

abbrev run_op : LockOp → Option Held → Bool × Option Held
run_op (acquire at token ttl) lock = acquire_lock at token ttl lock
run_op (renew at token ttl) lock = renew_lock at token ttl lock
run_op (release at token) lock = release_lock at token lock

-- The calls one after another: whether one of them succeeded, and the lock.
unfoldable pub run_ops : List LockOp → Option Held → Bool × Option Held
run_ops [] lock = (false, lock)
run_ops (op ∷ ops) lock =
    let (done, after) = run_op op lock in let (more, end) = run_ops ops after in (done || more, end)

abbrev op_at : LockOp → Time
op_at (acquire at token ttl) = at
op_at (renew at token ttl) = at
op_at (release at token) = at

abbrev op_token : LockOp → Text
op_token (acquire at token ttl) = token
op_token (renew at token ttl) = token
op_token (release at token) = token

-- The call is made with another token, before the time.
abbrev pub Foreign : Text → Time → LockOp → Type 0
Foreign token expires op = (op_at op < expires) × (op_token op ≢ token)

run_op-refused :
    (op : LockOp) (held : Held)
    → Foreign held.token held.expires_at op
    → run_op op (some held) ≡ (false, some held)
unfolding acquire_lock renew_lock release_lock
run_op-refused (acquire at token ttl) held (live, differs) =
    let still : ltb at held.expires_at ≡ true = ground (arith, live) in rw still refl
run_op-refused (renew at token ttl) held (live, differs) =
    let still : ltb at held.expires_at ≡ true = ground (arith, live) in
    let not_own : (held.token == token) ≡ false = ground (arith, differs) in
    rw (still, not_own) refl
run_op-refused (release at token) held (live, differs) =
    let still : ltb at held.expires_at ≡ true = ground (arith, live) in
    let not_own : (held.token == token) ≡ false = ground (arith, differs) in
    rw (still, not_own) refl

run_ops-refused :
    (ops : List LockOp) (held : Held)
    → All (Foreign held.token held.expires_at) ops
    → run_ops ops (some held) ≡ (false, some held)
unfolding run_ops
run_ops-refused [] held foreign = refl
run_ops-refused (op ∷ ops) held (here, there) =
    rw (run_op-refused op held here, run_ops-refused ops held there) refl

acquired :
    (now : Time) (token : Text) (ttl : ℕ) (lock : Option Held) {after : Option Held}
    → acquire_lock now token ttl lock ≡ (true, after)
    → after ≡ some (record { token = token; expires_at = now + ttl })
unfolding acquire_lock
acquired now token ttl none h = cc
acquired now token ttl (some held) h = elim (Bool-cases (ltb now held.expires_at)) [
  | inl taken ↦ cc (rw taken at h)
  | inr free ↦ cc (rw free at h)
]

-- A run that took the lock keeps it until it expires: of any calls with other tokens in that time,
-- in any order, none succeeds or changes the lock; and after them the run can still renew it, for
-- the time that it asks for, and release it.
pub lock_exclusive :
    (now later : Time) (token : Text) (ttl more : ℕ) (lock : Option Held) (ops : List LockOp)
    {after : Option Held}
    → acquire_lock now token ttl lock ≡ (true, after)
    → All (Foreign token (now + ttl)) ops
    → later < now + ttl
    → (run_ops ops after ≡ (false, after))
      × (renew_lock later token more (run_ops ops after).1
          ≡ (true, some (record { token = token; expires_at = later + more })))
      × (release_lock later token (run_ops ops after).1 ≡ (true, none))
unfolding renew_lock release_lock
lock_exclusive now later token ttl more lock ops {after} took foreign soon =
    let held : Held = record { token = token; expires_at = now + ttl } in
    let still : ltb later (now + ttl) ≡ true = ground (arith, soon) in
    let refused = run_ops-refused ops held foreign in
    rw (acquired now token ttl lock took, refused, still, ==_refl token) (refl, refl, refl)
