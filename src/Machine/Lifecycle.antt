-- ===== src/Machine/Lifecycle.antt =====
-- Deposit sessions under any sequence of machine events (lib/machine-state.ts).
use re_loop.Base.{◌≡◌, ◌⊎◌, refl, Option, none, some, List, [], ◌∷◌, arith, inl, inr}
use re_loop.Machine.Session.{
  SessionStatus, reserved, completed, cancelled, expired, SessionAction, activate,
  can_transition_session,
}

-- An event that the table has no entry for is refused and leaves the session as it is.
abbrev settle : SessionStatus → Option SessionStatus → SessionStatus
settle s none = s
settle s (some t) = t

unfoldable pub after_events : SessionStatus → List SessionAction → SessionStatus
after_events s [] = s
after_events s (a ∷ l) = after_events (settle s (can_transition_session s a)) l

abbrev pub IsOver : SessionStatus → Type 0
IsOver s = (s ≡ completed) ⊎ ((s ≡ cancelled) ⊎ (s ≡ expired))

abbrev pub HasAction : SessionAction → List SessionAction → Type 0
HasAction a [] = ⊥
HasAction a (b ∷ l) = (b ≡ a) ⊎ HasAction a l

over_stays :
    (s : SessionStatus) (a : SessionAction) → IsOver s → settle s (can_transition_session s a) ≡ s
unfolding can_transition_session
over_stays s a h = ground arith

-- No sequence of events moves a session that is completed, cancelled or expired.
pub over_for_good : (s : SessionStatus) (l : List SessionAction) → IsOver s → after_events s l ≡ s
unfolding after_events
over_for_good s [] h = refl
over_for_good s (a ∷ l) h = rw (over_stays s a h) (over_for_good s l h)

reserved_step :
    (a : SessionAction)
    → (settle reserved (can_transition_session reserved a) ≡ reserved)
      ⊎ ((a ≡ activate)
          ⊎ ((settle reserved (can_transition_session reserved a) ≡ cancelled)
              ⊎ (settle reserved (can_transition_session reserved a) ≡ expired)))
unfolding can_transition_session
reserved_step a = ground arith

-- A session that was reserved is completed only after an activation.
pub completed-HasAction :
    (l : List SessionAction) → after_events reserved l ≡ completed → HasAction activate l
unfolding after_events
completed-HasAction [] h = absurd (ground arith)
completed-HasAction (a ∷ l) h = elim (reserved_step a) [
  | inl same ↦ inr (completed-HasAction l (rw same at h))
  | inr (inl activated) ↦ inl activated
  | inr (inr (inl over)) ↦
      absurd (ground (arith, over_for_good cancelled l (inr (inl refl)), rw over at h))
  | inr (inr (inr over)) ↦
      absurd (ground (arith, over_for_good expired l (inr (inr refl)), rw over at h))
]
