-- ===== src/Deposit/Admissions.antt =====
-- What an admission promises about money (`decideStart`, `reserveSessionCeiling` of
-- lib/deposit-session-service.ts over `reserveRewardBudget` of lib/reward-funding.ts).
use re_loop.Base.{
  ℕ, ◌≡◌, refl, sym, subst, true, not, Option, List, [], ◌∷◌, ◌++◌, ◌==◌, arith, Bool-cases, inl,
  inr, ok, >>=-eq-ok, map, where_rows,
}
use re_loop.Store.{FundingDb}
use re_loop.Funding.{lock_funding_account}
use re_loop.Funding.Linking.{Lawful}
use re_loop.Funding.Reservations.{lock-Lawful}
use re_loop.Funding.Solvency.{Solvent, lock-Solvent}
use re_loop.Deposit.Rows.{Session, Machine, CampaignRow, DepositDb, Env, timed_out}
use re_loop.Deposit.Expire.{ExpiredSession, expire_timed_out_sessions}
use re_loop.Deposit.Expiry.{session_key}
use re_loop.Deposit.Start.{
  StartDecision, StartInput, created, resumed, busy, conflict, reserve_session_ceiling,
  active_sessions, snapshot_for, new_session, insert_session, decide_live, wanted_campaign,
  not_closed, admit_request, start_on, decide_start,
}
use re_loop.Deposit.Ceilings.{Backed, ceiling-Backed, ceiling-Solvent, expire-funding}

-- What an answer to a scan promises: a new session of the actor is backed; a resumed one is the actor's.
abbrev pub Promised : ℕ → StartDecision → FundingDb → Type 0
Promised actor (created s gone c) funding = (s.user_id ≡ actor) × Backed actor s funding
Promised actor (resumed s gone) funding = s.user_id ≡ actor
Promised actor (busy gone) funding = Unit
Promised actor (conflict ids gone) funding = Unit

live-Promised :
    (env : Env) (input : StartInput) (m : Machine) (c : Option CampaignRow) (now : ℕ)
    (gone : List ExpiredSession) (l : List Session) (db db' : DepositDb) (d : StartDecision)
    → env.enforced ≡ true
    → Solvent db.funding
    → Lawful db.funding
    → decide_live env input m c now gone l db ≡ ok (d, db')
    → Solvent db'.funding × Promised input.actor d db'.funding
unfolding decide_live
live-Promised env input m c now gone [] db db' d on v l e =
    let s = new_session env input m (snapshot_for env m c now db) now db.next_id in
    let ((r, after), reserved, q) =
      >>=-eq-ok (reserve_session_ceiling env s m c (insert_session s db))
        (λ p. ok (created s gone input.campaign_id, p.1)) e in
    let same : after ≡ db' = ground arith in
    let answer : created s gone input.campaign_id ≡ d = ground arith in
    (
      subst (λ (t : DepositDb). Solvent t.funding) same
          (ceiling-Solvent env s m c (insert_session s db) after r on reserved v),
      subst (λ t. Promised input.actor t db'.funding) answer
          (
            refl,
            subst (λ (t : DepositDb). Backed input.actor s t.funding) same
                (ceiling-Backed env s m c now (insert_session s db) db after r on refl reserved l),
          ),
    )
live-Promised env input m c now gone (s ∷ []) db db' d on v l e =
    let same : db ≡ db' = ground arith in
    elim (Bool-cases (s.user_id == input.actor)) [
      | inl mine ↦
          let answer : resumed s gone ≡ d = ground arith in
          (
            subst (λ (t : DepositDb). Solvent t.funding) same v,
            subst (λ t. Promised input.actor t db'.funding) answer (ground arith),
          )
      | inr other ↦
          let answer : busy gone ≡ d = ground arith in
          (
            subst (λ (t : DepositDb). Solvent t.funding) same v,
            subst (λ t. Promised input.actor t db'.funding) answer tt,
          )
    ]
live-Promised env input m c now gone (s ∷ t ∷ rest) db db' d on v l e =
    let same : db ≡ db' = ground arith in
    let answer : conflict (map session_key (s ∷ t ∷ rest)) gone ≡ d = ground arith in
    (
      subst (λ (t : DepositDb). Solvent t.funding) same v,
      subst (λ t. Promised input.actor t db'.funding) answer tt,
    )

start_on-Promised :
    (env : Env) (input : StartInput) (m : Machine) (now : ℕ) (db db' : DepositDb)
    (d : StartDecision)
    → env.enforced ≡ true
    → Solvent db.funding
    → Lawful db.funding
    → start_on env input m now db ≡ ok (d, db')
    → Solvent db'.funding × Promised input.actor d db'.funding
unfolding start_on
start_on-Promised env input m now db db' d on v l e =
    let idle = m.idle_timeout_minutes in
    let all_active = active_sessions input.machine_id db in
    let timed = where_rows (timed_out idle now) all_active in
    let live = where_rows (λ s. not (timed_out idle now s)) all_active in
    let ids = map session_key timed in
    let gone = (expire_timed_out_sessions ids idle now db).0 in
    let after = (expire_timed_out_sessions ids idle now db).1 in
    let same = sym (expire-funding ids idle now db) in
    let (c, wanted, rest) =
      >>=-eq-ok (wanted_campaign env input m live now db)
        (λ c. decide_live env input m c now gone (live ++ not_closed gone timed) after) e in
    live-Promised env input m c now gone (live ++ not_closed gone timed) after db' d on
      (subst Solvent same v) (subst Lawful same l) rest

-- Under enforcement, from a ledger of funding that is lawful and solvent, a scan that is answered
-- leaves it solvent; a session that it creates is the actor's and, if it pays money, has a ceiling
-- above zero that an active reservation of the actor under its key covers; a session that it resumes
-- is the actor's own.
pub start_backed :
    (env : Env) (input : StartInput) (now : ℕ) (db db' : DepositDb) (d : StartDecision)
    → env.enforced ≡ true
    → Solvent db.funding
    → Lawful db.funding
    → decide_start env input now db ≡ ok (d, db')
    → Solvent db'.funding × Promised input.actor d db'.funding
unfolding decide_start
start_backed env input now db db' d on v l e =
    let locked = record db {
      funding = (lock_funding_account input.organization_id db.funding).1;
    } in
    let (m, admitted, rest) =
      >>=-eq-ok (admit_request input now locked) (λ m. start_on env input m now locked) e in
    start_on-Promised env input m now locked db' d on
      (lock-Solvent input.organization_id db.funding v).0
      (lock-Lawful input.organization_id db.funding l) rest
