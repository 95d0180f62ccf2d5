-- ===== src/Pickup/Rules.antt =====
-- `RULES` and `resolvePickupTransition` of lib/pickup.ts.
use re_loop.Base.{ℕ, Bool, true, false, not, ◌&&◌, List, [], ◌∷◌, any_of, ◌==◌, if◌then◌else◌}

pub data PickupStatus : Type 0 where
  requested assigned on_the_way arrived collected completed cancelled failed : PickupStatus

pub data Role : Type 0 where
  user admin pengepul superadmin : Role

pub data PickupAction : Type 0 where
  assign start arrive collect complete fail cancel : PickupAction

abbrev pub status_ordinal : PickupStatus → ℕ
status_ordinal requested = 0
status_ordinal assigned = 1
status_ordinal on_the_way = 2
status_ordinal arrived = 3
status_ordinal collected = 4
status_ordinal completed = 5
status_ordinal cancelled = 6
status_ordinal failed = 7

abbrev pub role_ordinal : Role → ℕ
role_ordinal user = 0
role_ordinal admin = 1
role_ordinal pengepul = 2
role_ordinal superadmin = 3

-- `list.includes(x)`
abbrev pub includes_status : List PickupStatus → PickupStatus → Bool
includes_status l s = any_of (λ x. status_ordinal x == status_ordinal s) l

abbrev pub includes_role : List Role → Role → Bool
includes_role l r = any_of (λ x. role_ordinal x == role_ordinal r) l

-- Who must own the row for the action: its collector, an admin of its organization, or anybody.
pub data Actor : Type 0 where
  collector_actor admin_actor any_actor : Actor

pub record PickupRule : Type 0 where
  pub from : List PickupStatus
  pub target : PickupStatus
  pub roles : List Role
  pub actor : Actor

abbrev field_rule : List PickupStatus → PickupStatus → PickupRule
field_rule from target = record {
  from = from;
  target = target;
  roles = pengepul ∷ superadmin ∷ [];
  actor = collector_actor;
}

abbrev office_rule : List PickupStatus → PickupStatus → PickupRule
office_rule from target = record {
  from = from;
  target = target;
  roles = admin ∷ superadmin ∷ [];
  actor = admin_actor;
}

unfoldable pub rules : PickupAction → PickupRule
rules assign = office_rule (requested ∷ assigned ∷ []) assigned
rules start = field_rule (assigned ∷ []) on_the_way
rules arrive = field_rule (on_the_way ∷ []) arrived
rules collect = field_rule (arrived ∷ []) collected
rules complete = field_rule (collected ∷ []) completed
rules fail = field_rule (assigned ∷ on_the_way ∷ arrived ∷ collected ∷ []) failed
rules cancel = office_rule (requested ∷ assigned ∷ on_the_way ∷ arrived ∷ []) cancelled

-- Roles that may ever take the action.
pub pickup_action_roles : PickupAction → List Role
unfolding rules
pickup_action_roles a = (rules a).roles

pub record PickupContext : Type 0 where
  pub status : PickupStatus
  pub role : Role
  pub is_assigned_collector : Bool
  pub is_org_admin : Bool

pub data PickupError : Type 0 where
  role_not_allowed not_the_collector not_an_org_admin status_not_allowed : PickupError

-- `kind` of a refusal: 409 for a status, 403 for a role or an owner.
pub data RefusalKind : Type 0 where
  status_refusal forbidden : RefusalKind

unfoldable pub kind_of : PickupError → RefusalKind
kind_of status_not_allowed = status_refusal
kind_of _ = forbidden

pub data PickupResolution : Type 0 where
  resolved : PickupStatus → PickupResolution
  refused : PickupError → PickupResolution

abbrev lacks_ownership : Actor → PickupContext → Bool
lacks_ownership collector_actor c = not c.is_assigned_collector
lacks_ownership admin_actor c = not c.is_org_admin
lacks_ownership any_actor c = false

abbrev ownership_error : Actor → PickupError
ownership_error collector_actor = not_the_collector
ownership_error _ = not_an_org_admin

abbrev pub is_superadmin : Role → Bool
is_superadmin superadmin = true
is_superadmin _ = false

resolve_by_rule : PickupRule → PickupContext → PickupResolution
resolve_by_rule rule c =
    if not (includes_role rule.roles c.role)
    then refused role_not_allowed
    else if not (is_superadmin c.role) && lacks_ownership rule.actor c
    then refused (ownership_error rule.actor)
    else if not (includes_status rule.from c.status)
    then refused status_not_allowed
    else resolved rule.target

unfoldable pub resolve_pickup_transition : PickupAction → PickupContext → PickupResolution
unfolding rules resolve_by_rule
resolve_pickup_transition action c = resolve_by_rule (rules action) c

-- Terminal states, open states, and the two subsets that the dispatch uses.
abbrev pub pickup_terminal : List PickupStatus
pickup_terminal = completed ∷ cancelled ∷ failed ∷ []

abbrev pub pickup_open : List PickupStatus
pickup_open = requested ∷ assigned ∷ on_the_way ∷ arrived ∷ collected ∷ []

abbrev pub pickup_reassignable : List PickupStatus
pickup_reassignable = requested ∷ assigned ∷ []

abbrev pub pickup_replaceable : List PickupStatus
pickup_replaceable = failed ∷ cancelled ∷ []
