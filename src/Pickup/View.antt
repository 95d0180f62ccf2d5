-- ===== src/Pickup/View.antt =====
-- `describePickupDispatch` of lib/pickup.ts: who acts next, and whether the task is overdue. The
-- labels are display text and are named by what they say.
use re_loop.Base.{
  ℕ, Bool, true, false, not, ◌&&◌, ◌||◌, Option, none, some, ltb, is_some, if◌then◌else◌,
}
use re_loop.Pickup.Rules.{
  PickupStatus, requested, assigned, on_the_way, arrived, collected, completed, includes_status,
  pickup_replaceable,
}

pub data NextActor : Type 0 where
  by_admin by_collector : NextActor

pub data Label : Type 0 where
  awaiting_assignment awaiting_departure collector_underway collecting finishing late : Label
  awaiting_replacement done replaced : Label

pub record DispatchView : Type 0 where
  pub next_status : Option PickupStatus
  pub next_actor : Option NextActor
  pub next_label : Label
  pub overdue : Bool
  pub needs_replacement : Bool

pub record PickupRow : Type 0 where
  pub status : PickupStatus
  -- `expectedStartAt` in milliseconds
  pub expected_start_at : Option ℕ
  -- `replacedBy?.id` and `replacedById`
  pub replaced_by : Option ℕ
  pub replaced_by_id : Option ℕ

unfoldable pub next_step : PickupStatus → Option (PickupStatus × NextActor × Label)
next_step requested = some (assigned, by_admin, awaiting_assignment)
next_step assigned = some (on_the_way, by_collector, awaiting_departure)
next_step on_the_way = some (arrived, by_collector, collector_underway)
next_step arrived = some (collected, by_collector, collecting)
next_step collected = some (completed, by_collector, finishing)
next_step _ = none

abbrev is_assigned : PickupStatus → Bool
is_assigned assigned = true
is_assigned _ = false

abbrev is_completed : PickupStatus → Bool
is_completed completed = true
is_completed _ = false

abbrev passed : Option ℕ → ℕ → Bool
passed none now = false
passed (some t) now = ltb t now

unfoldable pub describe_pickup_dispatch : PickupRow → ℕ → DispatchView
unfolding next_step
describe_pickup_dispatch p now =
    let overdue : Bool = is_assigned p.status && passed p.expected_start_at now in
    let was_replaced : Bool = is_some p.replaced_by || is_some p.replaced_by_id in
    let needs : Bool = includes_status pickup_replaceable p.status && not was_replaced in
    elim (next_step p.status) [
      | some (s, a, l) ↦ record {
        next_status = some s;
        next_actor = some a;
        next_label = if overdue then late else l;
        overdue = overdue;
        needs_replacement = false;
      }
      | none ↦ record {
        next_status = if needs then some requested else none;
        next_actor = if needs then some by_admin else none;
        next_label =
            if needs
            then awaiting_replacement
            else if is_completed p.status
            then done
            else replaced;
        overdue = false;
        needs_replacement = needs;
      }
    ]
