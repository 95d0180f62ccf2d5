-- ===== src/Partnership/Rules.antt =====
-- `RULES` and `resolvePartnershipTransition` of lib/partnership.ts.
use re_loop.Base.{
  ℕ, Bool, false, not, ◌&&◌, ◌||◌, List, [], ◌∷◌, Option, none, some, any_of, ◌==◌, if◌then◌else◌,
}
use re_loop.Pickup.{Role, admin, pengepul, superadmin, includes_role, is_superadmin}

pub data PartnerStatus : Type 0 where
  invited requested pending_superadmin_approval active suspended rejected removed : PartnerStatus

pub data PartnershipAction : Type 0 where
  accept decline approve reject suspend reactivate remove : PartnershipAction

abbrev pub partner_ordinal : PartnerStatus → ℕ
partner_ordinal invited = 0
partner_ordinal requested = 1
partner_ordinal pending_superadmin_approval = 2
partner_ordinal active = 3
partner_ordinal suspended = 4
partner_ordinal rejected = 5
partner_ordinal removed = 6

abbrev includes_partner : List PartnerStatus → PartnerStatus → Bool
includes_partner l s = any_of (λ x. partner_ordinal x == partner_ordinal s) l

pub data Owner : Type 0 where
  collector_owner admin_owner any_owner : Owner

pub record TransitionRule : Type 0 where
  pub from : List PartnerStatus
  pub target : PartnerStatus
  pub roles : List Role
  pub owner : Owner

abbrev rule : PartnerStatus → PartnerStatus → List Role → Owner → TransitionRule
rule from target roles owner = record {
  from = from ∷ [];
  target = target;
  roles = roles;
  owner = owner;
}

-- An action has a rule for each side that may take it.
unfoldable pub rules : PartnershipAction → List TransitionRule
rules accept =
    rule invited pending_superadmin_approval (pengepul ∷ []) collector_owner
    ∷ rule requested pending_superadmin_approval (admin ∷ []) admin_owner
    ∷ []
rules decline =
    rule invited rejected (pengepul ∷ []) collector_owner
    ∷ rule requested rejected (admin ∷ []) admin_owner
    ∷ []
rules approve = rule pending_superadmin_approval active (superadmin ∷ []) any_owner ∷ []
rules reject = rule pending_superadmin_approval rejected (superadmin ∷ []) any_owner ∷ []
rules suspend = rule active suspended (admin ∷ superadmin ∷ []) admin_owner ∷ []
rules reactivate = rule suspended active (admin ∷ superadmin ∷ []) admin_owner ∷ []
rules remove =
    record {
      from = invited ∷ requested ∷ pending_superadmin_approval ∷ active ∷ suspended ∷ rejected ∷ [];
      target = removed;
      roles = admin ∷ superadmin ∷ [];
      owner = admin_owner;
    }
    ∷ []

pub record PartnershipContext : Type 0 where
  pub status : PartnerStatus
  pub role : Role
  pub is_collector : Bool
  pub is_org_admin : Bool

abbrev lacks_ownership : Owner → PartnershipContext → Bool
lacks_ownership collector_owner c = not c.is_collector
lacks_ownership admin_owner c = not c.is_org_admin
lacks_ownership any_owner c = false

-- The three `continue`s of the loop.
abbrev skips : TransitionRule → PartnershipContext → Bool
skips r c =
    not (includes_partner r.from c.status)
    || (not (includes_role r.roles c.role)
        || (not (is_superadmin c.role) && lacks_ownership r.owner c))

-- The first rule that is not skipped; `none` is the refusal.
unfoldable pub first_rule : List TransitionRule → PartnershipContext → Option PartnerStatus
first_rule [] c = none
first_rule (r ∷ rs) c = let rest = first_rule rs c in if skips r c then rest else some r.target

unfoldable pub resolve_partnership_transition :
    PartnershipAction → PartnershipContext → Option PartnerStatus
unfolding rules first_rule
resolve_partnership_transition action c = first_rule (rules action) c
