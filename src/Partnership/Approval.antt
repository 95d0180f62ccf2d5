-- ===== src/Partnership/Approval.antt =====
-- What the partnership rules guarantee: one step against an independent description, and the
-- invariant over any history that an active partnership was approved by a superadmin.
use re_loop.Base.{◌≡◌, ◌≢◌, ◌↔◌, ◌⊎◌, inl, inr, Bool, true, some, List, [], ◌∷◌, arith}
use re_loop.Pickup.{Role, admin, pengepul, superadmin}
use re_loop.Partnership.Rules.{
  PartnerStatus, invited, requested, pending_superadmin_approval, active, suspended, rejected,
  removed, PartnershipAction, accept, decline, approve, reject, suspend, reactivate, remove,
  PartnershipContext, resolve_partnership_transition,
}

-- The collector of the row, an admin of its organization, or a superadmin.
abbrev AsCollector : PartnershipContext → Type 0
AsCollector c = (c.role ≡ pengepul) × (c.is_collector ≡ true)

abbrev AsAdmin : PartnershipContext → Type 0
AsAdmin c = (c.role ≡ admin) × (c.is_org_admin ≡ true)

abbrev AsOffice : PartnershipContext → Type 0
AsOffice c = (c.role ≡ superadmin) ⊎ AsAdmin c

-- The invited collector, or the admin of the organization that was asked, answers.
abbrev Answers : PartnershipContext → Type 0
Answers c = ((c.status ≡ invited) × AsCollector c) ⊎ ((c.status ≡ requested) × AsAdmin c)

-- The lifecycle as the organization understands it.
abbrev pub Lawful : PartnershipAction → PartnershipContext → PartnerStatus → Type 0
Lawful accept c t = Answers c × (t ≡ pending_superadmin_approval)
Lawful decline c t = Answers c × (t ≡ rejected)
Lawful approve c t = (c.status ≡ pending_superadmin_approval) × (c.role ≡ superadmin) × (t ≡ active)
Lawful reject c t =
    (c.status ≡ pending_superadmin_approval) × (c.role ≡ superadmin) × (t ≡ rejected)
Lawful suspend c t = (c.status ≡ active) × AsOffice c × (t ≡ suspended)
Lawful reactivate c t = (c.status ≡ suspended) × AsOffice c × (t ≡ active)
Lawful remove c t = (c.status ≢ removed) × AsOffice c × (t ≡ removed)

resolve-Lawful :
    (a : PartnershipAction) (c : PartnershipContext) (t : PartnerStatus)
    → resolve_partnership_transition a c ≡ some t
    → Lawful a c t
unfolding resolve_partnership_transition
resolve-Lawful accept c t h = ground arith
resolve-Lawful _ c t h = ground arith

Lawful-resolve :
    (a : PartnershipAction) (c : PartnershipContext) (t : PartnerStatus)
    → Lawful a c t
    → resolve_partnership_transition a c ≡ some t
unfolding resolve_partnership_transition
Lawful-resolve accept c t h = ground arith
Lawful-resolve _ c t h = ground arith

-- An action is granted, with that new status, exactly when the lifecycle allows it to the actor:
-- answers by the invited collector or the asked organization's admin, approval and rejection by a
-- superadmin, and suspension, reactivation and removal by the organization or a superadmin.
pub resolve_iff-Lawful :
    (a : PartnershipAction) (c : PartnershipContext) (t : PartnerStatus)
    → (resolve_partnership_transition a c ≡ some t) ↔ Lawful a c t
resolve_iff-Lawful a c t = (resolve-Lawful a c t, Lawful-resolve a c t)

-- One granted action of a history: the action and its actor.
pub record Grant : Type 0 where
  pub action : PartnershipAction
  pub role : Role
  pub is_collector : Bool
  pub is_org_admin : Bool

abbrev pub context : PartnerStatus → Grant → PartnershipContext
context s g = record {
  status = s;
  role = g.role;
  is_collector = g.is_collector;
  is_org_admin = g.is_org_admin;
}

-- The statuses that a history of granted actions passes through.
pub data History (s : PartnerStatus) : List Grant → PartnerStatus → Type 0 where
  begin : History s [] s
  then :
      {l : List Grant} {t u : PartnerStatus} (g : Grant)
      → History s l t
      → resolve_partnership_transition g.action (context t g) ≡ some u
      → History s (g ∷ l) u

-- A superadmin approved somewhere in the history.
abbrev pub Approved : List Grant → Type 0
Approved [] = ⊥
Approved (g ∷ l) = ((g.action ≡ approve) × (g.role ≡ superadmin)) ⊎ Approved l

-- The statuses that only an approved partnership has.
abbrev WasActive : PartnerStatus → Type 0
WasActive s = (s ≡ active) ⊎ (s ≡ suspended)

step-WasActive :
    (g : Grant) (t u : PartnerStatus)
    → resolve_partnership_transition g.action (context t g) ≡ some u
    → WasActive u
    → ((g.action ≡ approve) × (g.role ≡ superadmin)) ⊎ WasActive t
unfolding resolve_partnership_transition
step-WasActive g t u h w = ground arith

-- A partnership that began as an invitation or a request and is now active or suspended was
-- approved by a superadmin on the way.
pub active-Approved :
    {s t : PartnerStatus} {l : List Grant}
    → (s ≡ invited) ⊎ (s ≡ requested)
    → History s l t
    → WasActive t
    → Approved l
active-Approved b begin w = absurd (ground arith)
active-Approved b (then {t = t} {u = u} g h e) w = elim (step-WasActive g t u e w) [
  | inl approved ↦ inl approved
  | inr was ↦ inr (active-Approved b h was)
]
