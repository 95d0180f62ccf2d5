-- ===== src/Pickup/Lifecycle.antt =====
-- What one pickup action does, against an independent description of the lifecycle.
use re_loop.Base.{◌≡◌, refl, none, ◌<◌, ◌≢◌, ◌↔◌, ◌⊎◌, true, Option, some, ℕ, arith}
use re_loop.Pickup.Rules.{
  PickupStatus, requested, assigned, on_the_way, arrived, collected, completed, cancelled, failed,
  admin, pengepul, superadmin, PickupAction, assign, start, arrive, collect, complete, fail, cancel,
  PickupContext, resolved, refused, resolve_pickup_transition, includes_status, kind_of,
  status_refusal, PickupError, pickup_open,
}
use re_loop.Pickup.View.{NextActor, by_admin, by_collector, PickupRow, describe_pickup_dispatch}

-- The edges of the lifecycle, one for each action and status it starts from.
pub data Edge : PickupAction → PickupStatus → PickupStatus → Type 0 where
  assigning : Edge assign requested assigned
  reassigning : Edge assign assigned assigned
  starting : Edge start assigned on_the_way
  arriving : Edge arrive on_the_way arrived
  collecting : Edge collect arrived collected
  completing : Edge complete collected completed
  fail_assigned : Edge fail assigned failed
  fail_on_the_way : Edge fail on_the_way failed
  fail_arrived : Edge fail arrived failed
  fail_collected : Edge fail collected failed
  cancel_requested : Edge cancel requested cancelled
  cancel_assigned : Edge cancel assigned cancelled
  cancel_on_the_way : Edge cancel on_the_way cancelled
  cancel_arrived : Edge cancel arrived cancelled

pub ruleset edges = (
  assigning, reassigning, starting, arriving, collecting, completing, fail_assigned,
  fail_on_the_way, fail_arrived, fail_collected, cancel_requested, cancel_assigned,
  cancel_on_the_way, cancel_arrived,
)

-- An office action is taken by an admin of the organization, a field action by the collector the
-- task is assigned to; a superadmin may take either.
abbrev pub MayAct : PickupAction → PickupContext → Type 0
MayAct assign c = (c.role ≡ superadmin) ⊎ ((c.role ≡ admin) × (c.is_org_admin ≡ true))
MayAct cancel c = (c.role ≡ superadmin) ⊎ ((c.role ≡ admin) × (c.is_org_admin ≡ true))
MayAct _ c = (c.role ≡ superadmin) ⊎ ((c.role ≡ pengepul) × (c.is_assigned_collector ≡ true))

resolve-Edge :
    (a : PickupAction) (c : PickupContext) (t : PickupStatus)
    → resolve_pickup_transition a c ≡ resolved t
    → Edge a c.status t × MayAct a c
unfolding resolve_pickup_transition
resolve-Edge assign c t h = grind (arith, edges)
resolve-Edge _ c t h = grind (arith, edges)

Edge-resolve :
    {a : PickupAction} {s t : PickupStatus} (c : PickupContext)
    → Edge a s t
    → c.status ≡ s
    → MayAct a c
    → resolve_pickup_transition a c ≡ resolved t
unfolding resolve_pickup_transition
Edge-resolve c assigning e m = ground arith
Edge-resolve c _ e m = ground arith

-- An action resolves to a status exactly when the lifecycle has that edge from the task's status
-- and the actor may take the action: an admin of the organization to assign and cancel, the
-- assigned collector for the field steps, a superadmin for any.
pub resolve_iff-Edge :
    (a : PickupAction) (c : PickupContext) (t : PickupStatus)
    → (resolve_pickup_transition a c ≡ resolved t) ↔ (Edge a c.status t × MayAct a c)
resolve_iff-Edge a c t = (resolve-Edge a c t, λ h. Edge-resolve c h.0 refl h.1)

-- A refusal is for the status (409) exactly when the actor may take the action; every other
-- refusal is forbidden (403).
pub refused_kind :
    (a : PickupAction) (c : PickupContext) {e : PickupError}
    → resolve_pickup_transition a c ≡ refused e
    → (kind_of e ≡ status_refusal) ↔ MayAct a c
unfolding resolve_pickup_transition kind_of
refused_kind assign c h = ground arith
refused_kind _ c h = ground arith

-- The actor that the view names may take the action.
abbrev pub ActorTakes : NextActor → PickupAction → Type 0
ActorTakes by_admin a = a ≡ assign
ActorTakes by_collector a = (a ≢ assign) × (a ≢ cancel) × (a ≢ fail)

abbrev step_of : PickupStatus → PickupAction
step_of requested = assign
step_of assigned = start
step_of on_the_way = arrive
step_of arrived = collect
step_of _ = complete

-- From an open status the next status that the view shows is reached by an edge of the lifecycle,
-- by an action of the actor that the view names.
pub describe-Edge :
    (p : PickupRow) (now : ℕ) {t : PickupStatus} {r : NextActor}
    → includes_status pickup_open p.status ≡ true
    → (describe_pickup_dispatch p now).next_status ≡ some t
    → (describe_pickup_dispatch p now).next_actor ≡ some r
    → (a : PickupAction) × Edge a p.status t × ActorTakes r a
unfolding describe_pickup_dispatch
describe-Edge p now o h k = (step_of p.status, grind (arith, edges), ground arith)

-- The deadline has passed at that instant.
abbrev pub IsPast : Option ℕ → ℕ → Type 0
IsPast none now = ⊥
IsPast (some t) now = t < now

-- The view asks for a replacement exactly when the task failed or was cancelled and has none yet,
-- and shows it as overdue exactly when it is assigned and its start deadline has passed.
pub describe_attention :
    (p : PickupRow) (now : ℕ)
    → let v = describe_pickup_dispatch p now in
      ((v.needs_replacement ≡ true) ↔ (
        ((p.status ≡ failed) ⊎ (p.status ≡ cancelled))
        × (p.replaced_by ≡ none)
        × (p.replaced_by_id ≡ none)))
      × ((v.overdue ≡ true) ↔ ((p.status ≡ assigned) × IsPast p.expected_start_at now))
unfolding describe_pickup_dispatch
describe_attention p now =
    ((λ h. ground arith, λ h. ground arith), (λ h. ground arith, λ h. ground arith))
