-- ===== src/Pickup/Tests.antt =====
-- Runs of lib/pickup.ts on a task that a collector drives to its end.
use re_loop.Base.{◌≡◌, ◌↔◌, refl, true, false, none, some, List, [], ◌∷◌, ◌⊎◌}
use re_loop.Pickup.Rules.{
  status_not_allowed, refused, PickupStatus, assigned, on_the_way, completed, failed, cancelled,
  PickupAction, start, arrive, collect, complete, pengepul, PickupContext,
  resolve_pickup_transition, resolved, kind_of, status_refusal,
}
use re_loop.Pickup.View.{next_step, by_collector, PickupRow, describe_pickup_dispatch}
use re_loop.Pickup.Lifecycle.{
  Edge, MayAct, ActorTakes, IsPast, resolve_iff-Edge, refused_kind, describe-Edge,
  describe_attention,
}
use re_loop.Pickup.Traces.{Attempt, attempt, run, path, Contains, completed-path}

abbrev in_the_field : PickupAction → Attempt
in_the_field a = record {
  action = a;
  role = pengepul;
  is_assigned_collector = true;
  is_org_admin = false;
}

abbrev at : PickupStatus → PickupContext
at s = record { status = s; role = pengepul; is_assigned_collector = true; is_org_admin = false }

abbrev field_work : List Attempt
field_work =
    in_the_field start
    ∷ in_the_field complete
    ∷ in_the_field arrive
    ∷ in_the_field collect
    ∷ in_the_field complete
    ∷ []

abbrev waiting : PickupRow
waiting = record {
  status = assigned;
  expected_start_at = some 1000;
  replaced_by = none;
  replaced_by_id = none;
}

driven : run assigned field_work ≡ completed
unfolding run attempt resolve_pickup_transition
driven = refl

resolve_iff-Edge_example :
    (resolve_pickup_transition start (at assigned) ≡ resolved on_the_way)
    ↔ (Edge start assigned on_the_way × MayAct start (at assigned))
resolve_iff-Edge_example = resolve_iff-Edge start (at assigned) on_the_way

too_early : resolve_pickup_transition complete (at assigned) ≡ refused status_not_allowed
unfolding resolve_pickup_transition
too_early = refl

refused_kind_example : (kind_of status_not_allowed ≡ status_refusal) ↔ MayAct complete (at assigned)
refused_kind_example = refused_kind complete (at assigned) too_early

describes : (describe_pickup_dispatch waiting 2000).next_status ≡ some on_the_way
unfolding describe_pickup_dispatch next_step
describes = refl

describes_actor : (describe_pickup_dispatch waiting 2000).next_actor ≡ some by_collector
unfolding describe_pickup_dispatch next_step
describes_actor = refl

describe-Edge_example : (a : PickupAction) × Edge a assigned on_the_way × ActorTakes by_collector a
describe-Edge_example = describe-Edge waiting 2000 refl describes describes_actor

describe_attention_example :
    (((describe_pickup_dispatch waiting 2000).needs_replacement ≡ true) ↔ (
      ((assigned ≡ failed) ⊎ (assigned ≡ cancelled))
      × (waiting.replaced_by ≡ none)
      × (waiting.replaced_by_id ≡ none)))
    × (((describe_pickup_dispatch waiting 2000).overdue ≡ true)
        ↔ ((assigned ≡ assigned) × IsPast (some 1000) 2000))
describe_attention_example = describe_attention waiting 2000

completed-path_example : Contains (path assigned) field_work
completed-path_example = completed-path assigned field_work driven
