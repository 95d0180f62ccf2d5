-- ===== src/Pickup/Traces.antt =====
-- What holds of a pickup task over any sequence of actions.
use re_loop.Base.{◌≡◌, refl, ◌≢◌, ◌⊎◌, inl, inr, true, false, Bool, List, [], ◌∷◌, arith}
use re_loop.Pickup.Rules.{
  PickupStatus, requested, assigned, on_the_way, arrived, collected, completed, cancelled, failed,
  PickupAction, assign, start, arrive, collect, complete, PickupContext, resolved, refused,
  PickupResolution, resolve_pickup_transition, includes_status, pickup_terminal,
  pickup_reassignable, Role,
}

-- One attempt: an action, by an actor who stands in some relation to the task.
pub record Attempt : Type 0 where
  pub action : PickupAction
  pub role : Role
  pub is_assigned_collector : Bool
  pub is_org_admin : Bool

abbrev context : PickupStatus → Attempt → PickupContext
context s a = record {
  status = s;
  role = a.role;
  is_assigned_collector = a.is_assigned_collector;
  is_org_admin = a.is_org_admin;
}

abbrev after : PickupStatus → PickupResolution → PickupStatus
after s (resolved t) = t
after s (refused e) = s

-- A refused attempt leaves the task as it is.
unfoldable pub attempt : PickupStatus → Attempt → PickupStatus
attempt s a = after s (resolve_pickup_transition a.action (context s a))

unfoldable pub run : PickupStatus → List Attempt → PickupStatus
run s [] = s
run s (a ∷ l) = run (attempt s a) l

attempt_terminal :
    (s : PickupStatus) (a : Attempt) → includes_status pickup_terminal s ≡ true → attempt s a ≡ s
unfolding attempt resolve_pickup_transition
attempt_terminal s a h = ground arith

-- No sequence of attempts moves a task that is completed, cancelled or failed.
pub run_of_terminal :
    (s : PickupStatus) (l : List Attempt) → includes_status pickup_terminal s ≡ true → run s l ≡ s
unfolding run
run_of_terminal s [] h = refl
run_of_terminal s (a ∷ l) h = rw (attempt_terminal s a h) (run_of_terminal s l h)

-- The steps that are left on the way to completion.
abbrev pub path : PickupStatus → List PickupAction
path requested = assign ∷ start ∷ arrive ∷ collect ∷ complete ∷ []
path assigned = start ∷ arrive ∷ collect ∷ complete ∷ []
path on_the_way = arrive ∷ collect ∷ complete ∷ []
path arrived = collect ∷ complete ∷ []
path collected = complete ∷ []
path _ = []

-- The actions stand among the attempts in this order.
abbrev pub Contains : List PickupAction → List Attempt → Type 0
Contains [] l = Unit
Contains (p ∷ ps) [] = ⊥
Contains (p ∷ ps) (a ∷ l) = ((a.action ≡ p) × Contains ps l) ⊎ Contains (p ∷ ps) l

-- One attempt takes the next step of the path, leaves the path as it is, or ends the task badly.
attempt-path :
    (s : PickupStatus) (a : Attempt)
    → (path s ≡ a.action ∷ path (attempt s a))
      ⊎ ((path s ≡ path (attempt s a)) ⊎ ((attempt s a ≡ failed) ⊎ (attempt s a ≡ cancelled)))
unfolding attempt resolve_pickup_transition
attempt-path requested a = ground arith
attempt-path _ a = ground arith

Contains-cons :
    (ps : List PickupAction) (a : Attempt) (l : List Attempt) → Contains ps l → Contains ps (a ∷ l)
Contains-cons [] a l h = tt
Contains-cons (p ∷ ps) a l h = inr h

not_completed :
    (s : PickupStatus) (l : List Attempt) → (s ≡ failed) ⊎ (s ≡ cancelled) → run s l ≢ completed
not_completed s l h e = ground (arith, run_of_terminal s l)

attempt_departed :
    (s : PickupStatus) (a : Attempt)
    → includes_status pickup_reassignable s ≡ false
    → includes_status pickup_reassignable (attempt s a) ≡ false
unfolding attempt resolve_pickup_transition
attempt_departed requested a h = cc
attempt_departed _ a h = ground arith

-- A task that is completed in the end was assigned, started, arrived, collected and completed in
-- this order, whatever else was tried between.
pub completed-path :
    (s : PickupStatus) (l : List Attempt) → run s l ≡ completed → Contains (path s) l
unfolding run
completed-path s [] h = rw h tt
completed-path s (a ∷ l) h = elim (attempt-path s a) [
  | inl e ↦ rw e (inl (refl, completed-path (attempt s a) l h))
  | inr (inl e) ↦ rw e (Contains-cons (path (attempt s a)) a l (completed-path (attempt s a) l h))
  | inr (inr (inl f)) ↦ absurd (not_completed (attempt s a) l (ground arith) h)
  | inr (inr (inr c)) ↦ absurd (not_completed (attempt s a) l (ground arith) h)
]

-- Once a task has left the statuses in which its collector may be changed, no sequence of attempts
-- brings it back to one of them.
pub departed_for_good :
    (s : PickupStatus) (l : List Attempt)
    → includes_status pickup_reassignable s ≡ false
    → includes_status pickup_reassignable (run s l) ≡ false
unfolding run
departed_for_good s [] h = h
departed_for_good s (a ∷ l) h = departed_for_good (attempt s a) l (attempt_departed s a h)
