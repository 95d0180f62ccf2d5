-- ===== src/Partnership/Tests.antt =====
-- Runs of lib/partnership.ts: an invited collector accepts, and a superadmin approves.
use re_loop.Base.{◌≡◌, ◌↔◌, refl, true, false, some, [], ◌∷◌, inl}
use re_loop.Pickup.{pengepul, superadmin}
use re_loop.Partnership.Rules.{
  invited, pending_superadmin_approval, active, accept, approve, resolve_partnership_transition,
}
use re_loop.Partnership.Approval.{
  Lawful, Grant, History, begin, then, Approved, context, resolve_iff-Lawful, active-Approved,
}

abbrev answer : Grant
answer = record { action = accept; role = pengepul; is_collector = true; is_org_admin = false }

abbrev approval : Grant
approval = record {
  action = approve;
  role = superadmin;
  is_collector = false;
  is_org_admin = false;
}

answered :
    resolve_partnership_transition accept (context invited answer)
    ≡ some pending_superadmin_approval
unfolding resolve_partnership_transition
answered = refl

granted :
    resolve_partnership_transition approve (context pending_superadmin_approval approval)
    ≡ some active
unfolding resolve_partnership_transition
granted = refl

onboarding : History invited (approval ∷ answer ∷ []) active
onboarding = then approval (then answer begin answered) granted

resolve_iff-Lawful_example :
    (resolve_partnership_transition accept (context invited answer)
      ≡ some pending_superadmin_approval)
    ↔ Lawful accept (context invited answer) pending_superadmin_approval
resolve_iff-Lawful_example =
    resolve_iff-Lawful accept (context invited answer) pending_superadmin_approval

active-Approved_example : Approved (approval ∷ answer ∷ [])
active-Approved_example = active-Approved (inl refl) onboarding (inl refl)
