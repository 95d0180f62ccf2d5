-- ===== src/Deposit/Ceilings.antt =====
-- The ceiling that is reserved with a session (`reserveSessionCeiling` of
-- lib/deposit-session-service.ts over `reserveRewardBudget` of lib/reward-funding.ts).
use re_loop.Base.{
  ◌<◌, ℕ, ◌≤◌, ◌≡◌, refl, ◌∙◌, subst, true, not, ◌&&◌, Option, none, some, List, [], ◌∷◌, arith,
  Option-cases, inl, inr, ok, >>=-eq-ok, throw_if, ◌⊎◌, is_some, or_else,
}
use re_loop.Store.{ReservationStatus, Reservation, FundingDb, session_admission_key}
use re_loop.Funding.{
  reserve_reward_budget, configured_cap, resolve_session_ceiling, find_reservation_by_key,
}
use re_loop.Funding.Linking.{Lawful}
use re_loop.Funding.Admission.{Reserved, reserve-Reserved}
use re_loop.Deposit.Policy.{PolicySnapshot, build_session_policy}
use re_loop.Funding.Solvency.{Solvent, reserve_stays-Solvent}
use re_loop.Reward.{RewardMode, money_reward, compliance_only}
use re_loop.Deposit.Rows.{Session, Machine, CampaignRow, DepositDb, Env}
use re_loop.Deposit.Expire.{expire_timed_out_sessions, expire_closing}
use re_loop.Deposit.Start.{
  reserve_money, reserve_session_ceiling, snapshot_for, mode_for, ceiling_for, ceiling_column,
  admission,
}

expire_closing-funding :
    (now : ℕ) (l : List (ℕ × ℕ)) (db : DepositDb) → (expire_closing now l db).1.funding ≡ db.funding
unfolding expire_closing
expire_closing-funding now [] db = refl
expire_closing-funding now (c ∷ l) db = refl

pub expire-funding :
    (ids : List ℕ) (idle now : ℕ) (db : DepositDb)
    → (expire_timed_out_sessions ids idle now db).1.funding ≡ db.funding
unfolding expire_timed_out_sessions
expire-funding ids idle now db = expire_closing-funding now _ db

money-Solvent :
    (env : Env) (s : Session) (m : Machine) (c : Option CampaignRow) (db db' : DepositDb)
    (r : Option (ℕ × ℕ))
    → env.enforced ≡ true
    → reserve_money env s m c db ≡ ok (r, db')
    → Solvent db.funding
    → Solvent db'.funding
unfolding reserve_money
money-Solvent env s m c db db' r on e v =
    let (_, _, e1) = >>=-eq-ok (throw_if (not (is_some (ceiling_for m c)) && env.enforced) _) _ e in
    let ((i, funding), reserved, e2) =
      >>=-eq-ok (reserve_reward_budget env.enforced (admission s m c) db.funding)
        (λ p. ok (some (or_else (ceiling_for m c) 0, p.0), record db { funding = p.1 })) e1 in
    let same : funding ≡ db'.funding = ground arith in
    subst Solvent same (reserve_stays-Solvent (admission s m c) db.funding v (rw on at reserved))

pub mode_cases : (r : RewardMode) → (r ≡ compliance_only) ⊎ (r ≡ money_reward)
mode_cases compliance_only = inl refl
mode_cases money_reward = inr refl

-- Under enforcement, a ceiling that is reserved leaves each account covered.
pub ceiling-Solvent :
    (env : Env) (s : Session) (m : Machine) (c : Option CampaignRow) (db db' : DepositDb)
    (r : Option (ℕ × ℕ))
    → env.enforced ≡ true
    → reserve_session_ceiling env s m c db ≡ ok (r, db')
    → Solvent db.funding
    → Solvent db'.funding
unfolding reserve_session_ceiling
ceiling-Solvent env s m c db db' r on e v = elim (mode_cases (mode_for m c)) [
  | inl compliance ↦ let same : db.funding ≡ db'.funding = ground arith in subst Solvent same v
  | inr money ↦ money-Solvent env s m c db db' r on (ground arith) v
]

configured_positive : (column : Option ℕ) (v : ℕ) → configured_cap column ≡ some v → 0 < v
unfolding configured_cap
configured_positive none v e = absurd (ground arith)
configured_positive (some w) v e = ground arith

ceiling_positive :
    (campaign : Option (Option ℕ)) (machine : Option ℕ) (v : ℕ)
    → resolve_session_ceiling campaign machine ≡ some v
    → 0 < v
unfolding resolve_session_ceiling
ceiling_positive none machine v e = configured_positive machine v e
ceiling_positive (some campaign) machine v e = elim (Option-cases (configured_cap campaign)) [
  | inl unset ↦ configured_positive machine v (ground arith)
  | inr (w, set) ↦
      let same : w ≡ v = ground arith in rw (← same) (configured_positive campaign w set)
]

-- The session carries its snapshot; if it pays money, the snapshot has a ceiling above zero, and an
-- active reservation of the user under the key of the session covers it.
abbrev pub Backed : ℕ → Session → FundingDb → Type 0
Backed actor s funding =
    (p : PolicySnapshot) × (s.policy ≡ some p)
    × ((p.mode ≡ compliance_only)
        ⊎ ((v : ℕ) × (p.ceiling ≡ some v)
            × (0 < v)
            × (r : Reservation) × (find_reservation_by_key (session_admission_key s.id) funding
                ≡ some r)
            × (r.status ≡ ReservationStatus.active)
            × (v ≤ r.ceiling)
            × (r.user_id ≡ actor)))

money-Backed :
    (env : Env) (s : Session) (m : Machine) (c : Option CampaignRow) (db db' : DepositDb)
    (r : Option (ℕ × ℕ))
    → env.enforced ≡ true
    → reserve_money env s m c db ≡ ok (r, db')
    → Lawful db.funding
    → (v : ℕ) × (ceiling_for m c ≡ some v)
      × (0 < v)
      × (row : Reservation) × (find_reservation_by_key (session_admission_key s.id) db'.funding
          ≡ some row)
      × (row.status ≡ ReservationStatus.active)
      × (v ≤ row.ceiling)
      × (row.user_id ≡ s.user_id)
unfolding reserve_money
money-Backed env s m c db db' r on e l = elim (Option-cases (ceiling_for m c)) [
  | inl unset ↦ absurd (ground arith)
  | inr (v, set) ↦
      let (_, _, e1) =
        >>=-eq-ok (throw_if (not (is_some (ceiling_for m c)) && env.enforced) _) _ e in
      let ((i, funding), reserved, e2) =
        >>=-eq-ok (reserve_reward_budget env.enforced (admission s m c) db.funding)
          (λ p. ok (some (or_else (ceiling_for m c) 0, p.0), record db { funding = p.1 })) e1 in
      let same : funding ≡ db'.funding = ground arith in
      let k : Reserved (admission s m c) i db'.funding =
        subst (Reserved (admission s m c) i) same
          (reserve-Reserved env.enforced (admission s m c) db.funding l reserved) in
      let fits : or_else (ceiling_for m c) 0 ≤ k.row.ceiling = k.covers in
      (
        v,
        set,
        ceiling_positive (ceiling_column c) m.max_reward_per_session v set,
        k.row,
        k.found,
        k.held,
        rw set at fits,
        k.of_user,
      )
]

snapshot-mode :
    (env : Env) (m : Machine) (c : Option CampaignRow) (now : ℕ) (db : DepositDb)
    → (snapshot_for env m c now db).mode ≡ mode_for m c
unfolding build_session_policy
snapshot-mode env m c now db = refl

snapshot-ceiling :
    (env : Env) (m : Machine) (c : Option CampaignRow) (now : ℕ) (db : DepositDb)
    → mode_for m c ≡ money_reward
    → (snapshot_for env m c now db).ceiling ≡ ceiling_for m c
unfolding build_session_policy
snapshot-ceiling env m c now db money = ground (arith, money)

pub ceiling-Backed :
    (env : Env) (s : Session) (m : Machine) (c : Option CampaignRow) (now : ℕ)
    (db before db' : DepositDb) (r : Option (ℕ × ℕ))
    → env.enforced ≡ true
    → s.policy ≡ some (snapshot_for env m c now before)
    → reserve_session_ceiling env s m c db ≡ ok (r, db')
    → Lawful db.funding
    → Backed s.user_id s db'.funding
unfolding reserve_session_ceiling
ceiling-Backed env s m c now db before db' r on priced e l = elim (mode_cases (mode_for m c)) [
  | inl compliance ↦
      (snapshot_for env m c now before, priced, inl (snapshot-mode env m c now before ∙ compliance))
  | inr money ↦
      let (v, set, above, row, found, held, fits, owner) =
        money-Backed env s m c db db' r on (ground arith) l in
      (
        snapshot_for env m c now before,
        priced,
        inr (
          v,
          snapshot-ceiling env m c now before money ∙ set,
          above,
          row,
          found,
          held,
          fits,
          owner,
        ),
      )
]
