-- ===== src/Http/Responses/History.antt =====
-- The history of an order's details (order.response.dto.ts) and the statuses that were set.
use swiftbite_orders.Common.{
  ℕ, ◌≡◌, refl, sym, ap, ◌∙◌, Bool, true, false, ◌&&◌, Option, none, some, [], ◌∷◌, ◌==◌,
  if◌then◌else◌,
}
use swiftbite_orders.Domain.Order.{
  Time, OrderEntity, OrderStatus, pending_payment, placed, accepted, rejected, preparing, ready,
  assigned, picked, delivered, cancelled,
}
use swiftbite_orders.Order.Repo.Stamps.{with_status}
use swiftbite_orders.Http.Responses.{History, pushed, build_history}

abbrev status_number : OrderStatus → ℕ
status_number pending_payment = 0
status_number placed = 1
status_number accepted = 2
status_number rejected = 3
status_number preparing = 4
status_number ready = 5
status_number assigned = 6
status_number picked = 7
status_number delivered = 8
status_number cancelled = 9

abbrev pub same_status : OrderStatus → OrderStatus → Bool
same_status a b = status_number a == status_number b

-- The time that a history gives for a status.
abbrev pub time_in : OrderStatus → History → Option Time
time_in status [] = none
time_in status ((s, time) ∷ history) =
    if same_status status s then some time else time_in status history

-- The statuses with a time column of their own.
abbrev pub is_stamped : OrderStatus → Bool
is_stamped pending_payment = false
is_stamped placed = false
is_stamped preparing = false
is_stamped _ = true

-- The row's time for a status: the time of creation for placed, none for the statuses without one.
abbrev pub stamp_of : OrderStatus → OrderEntity → Option Time
stamp_of pending_payment o = none
stamp_of placed o = some o.created_at
stamp_of accepted o = o.accepted_at
stamp_of rejected o = o.rejected_at
stamp_of preparing o = none
stamp_of ready o = o.ready_at
stamp_of assigned o = o.assigned_at
stamp_of picked o = o.picked_at
stamp_of delivered o = o.delivered_at
stamp_of cancelled o = o.cancelled_at

abbrev first_of : Option Time → Option Time → Option Time
first_of none later = later
first_of (some time) later = some time

time_in-pushed :
    (asked status : OrderStatus) (time : Option Time) (later : History)
    → time_in asked (pushed status time later) ≡ (
        if same_status asked status
        then first_of time (time_in asked later)
        else time_in asked later)
time_in-pushed asked status none later = same_branches (same_status asked status)
  where
    same_branches :
        (b : Bool) → time_in asked later ≡ (if b then time_in asked later else time_in asked later)
    same_branches true = refl
    same_branches false = refl
time_in-pushed asked status (some time) later = refl

first_of-none : (time : Option Time) → first_of time none ≡ time
first_of-none none = refl
first_of-none (some time) = refl

history-times : (o : OrderEntity) (s : OrderStatus) → time_in s (build_history o) ≡ stamp_of s o
unfolding build_history
history-times o placed = refl
history-times o pending_payment = simp time_in-pushed
history-times o preparing = simp time_in-pushed
history-times o s = simp (time_in-pushed, first_of-none)

stamp_after :
    (now : Time) (o : OrderEntity) (s asked : OrderStatus)
    → stamp_of asked (with_status now s o)
      ≡ (if same_status asked s && is_stamped s then some now else stamp_of asked o)
unfolding with_status
stamp_after now o pending_payment pending_payment = refl
stamp_after now o pending_payment _ = refl
stamp_after now o placed pending_payment = refl
stamp_after now o placed _ = refl
stamp_after now o accepted pending_payment = refl
stamp_after now o accepted _ = refl
stamp_after now o rejected pending_payment = refl
stamp_after now o rejected _ = refl
stamp_after now o preparing pending_payment = refl
stamp_after now o preparing _ = refl
stamp_after now o ready pending_payment = refl
stamp_after now o ready _ = refl
stamp_after now o assigned pending_payment = refl
stamp_after now o assigned _ = refl
stamp_after now o picked pending_payment = refl
stamp_after now o picked _ = refl
stamp_after now o delivered pending_payment = refl
stamp_after now o delivered _ = refl
stamp_after now o cancelled pending_payment = refl
stamp_after now o cancelled _ = refl

-- When an order's status is set, the history that its details show gives the time for that status,
-- where it is one with a time of its own, and for every other status what it gave before.
pub build_history-with_status :
    (now : Time) (o : OrderEntity) (s asked : OrderStatus)
    → time_in asked (build_history (with_status now s o))
      ≡ (if same_status asked s && is_stamped s then some now else time_in asked (build_history o))
build_history-with_status now o s asked =
    history-times (with_status now s o) asked
    ∙ stamp_after now o s asked
    ∙ ap (λ t. if same_status asked s && is_stamped s then some now else t)
        (sym (history-times o asked))
