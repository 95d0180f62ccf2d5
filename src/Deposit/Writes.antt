-- ===== src/Deposit/Writes.antt =====
-- The operations that write to a session that is there already keep each machine to one active session
-- (lib/deposit-session-service.ts, lib/machine-events/).
use re_loop.Base.{
  ℕ, ◌≡◌, refl, subst, Bool, true, Option, some, List, [], ◌∷◌, ◌==◌, arith, Bool-cases,
  Option-cases, inl, inr, ok, ==_iff,
}
use re_loop.Store.{find_row-test}
use re_loop.Deposit.Policy.{PolicySnapshot}
use re_loop.Deposit.Rows.{
  Session, DepositDb, Env, find_session, is_active_session, set_session, timed_out, find_machine,
}
use re_loop.Deposit.Expire.{expire_if_timed_out}
use re_loop.Deposit.Finish.{
  EndAction, ended, ended_status, has_undecided, end_by_timeout, end_active, end_deposit_by_owner,
}
use re_loop.Deposit.Events.{MachineEvent, session_side_effects}
use re_loop.Deposit.Poll.{
  poll_candidates, current_machine_session, ensure_session_policy, with_policy, joined_campaign,
}
use re_loop.Deposit.Start.{snapshot_for}
use re_loop.Deposit.Exclusion.{Exclusive, expire-Exclusive}
use re_loop.Deposit.Handling.{own_id, set-Exclusive, active_write, handle-Exclusive}

-- The handlers of machine events keep each machine to one active session.
pub session_side_effects-Exclusive :
    {mach : ℕ} (event : MachineEvent) (id idle now : ℕ) (db db' : DepositDb)
    → session_side_effects event id idle now db ≡ ok db'
    → Exclusive mach db
    → Exclusive mach db'
unfolding session_side_effects
session_side_effects-Exclusive {mach} event id idle now db db' e x =
    elim (Option-cases (find_session id db)) [
      | inl f ↦ let same : db ≡ db' = ground arith in subst (Exclusive mach) same x
      | inr (s, f) ↦ handle-Exclusive event idle now s db db' (own_id id db s f) (ground arith) x
    ]

expire_one-Exclusive :
    {mach : ℕ} (id idle now : ℕ) (db : DepositDb)
    → Exclusive mach db
    → Exclusive mach (expire_if_timed_out id idle now db).1
unfolding expire_if_timed_out
expire_one-Exclusive {mach} id idle now db x = expire-Exclusive (id ∷ []) idle now db x

timeout-Exclusive :
    {mach : ℕ} (s : Session) (now : ℕ) (db db' : DepositDb) (r : Session × Bool)
    → end_by_timeout s now db ≡ ok (r, db')
    → Exclusive mach db
    → Exclusive mach db'
unfolding end_by_timeout
timeout-Exclusive {mach} s now db db' r e x = elim (Option-cases (find_machine s.machine_id db)) [
  | inl f ↦ absurd (ground arith)
  | inr (m, f) ↦ elim (Option-cases (expire_if_timed_out s.id m.idle_timeout_minutes now db).0) [
    | inl stays ↦ absurd (ground arith)
    | inr (gone, q) ↦
        let same : (expire_if_timed_out s.id m.idle_timeout_minutes now db).1 ≡ db' =
          ground arith in
        subst (Exclusive mach) same (expire_one-Exclusive s.id m.idle_timeout_minutes now db x)
  ]
]

end_active-Exclusive :
    {mach : ℕ} (action : EndAction) (s : Session) (now : ℕ) (db db' : DepositDb)
    (r : Session × Bool)
    → find_session s.id db ≡ some s
    → is_active_session s.status ≡ true
    → end_active action s now db ≡ ok (r, db')
    → Exclusive mach db
    → Exclusive mach db'
unfolding end_active
end_active-Exclusive {mach} action s now db db' r f live e x =
    elim (Bool-cases (has_undecided s.id db)) [
      | inl waiting ↦ timeout-Exclusive s now db db' r (ground arith) x
      | inr clear ↦ elim (Option-cases (ended_status action s.status)) [
        | inl refused ↦ absurd (ground arith)
        | inr (t, q) ↦
            let same : set_session s.id (ended t now) db ≡ db' = ground arith in
            subst (Exclusive mach) same
              (active_write s (ended t now) db f (λ c. refl) (λ c. refl) live x)
      ]
    ]

-- So does the end by the owner.
pub end-Exclusive :
    {mach : ℕ} (actor id : ℕ) (action : EndAction) (now : ℕ) (db db' : DepositDb)
    (r : Session × Bool)
    → end_deposit_by_owner actor id action now db ≡ ok (r, db')
    → Exclusive mach db
    → Exclusive mach db'
unfolding end_deposit_by_owner
end-Exclusive {mach} actor id action now db db' r e x = elim (Option-cases (find_session id db)) [
  | inl f ↦ absurd (ground arith)
  | inr (s, f) ↦ elim (Bool-cases (s.user_id == actor)) [
    | inr other ↦ absurd (ground arith)
    | inl mine ↦ elim (Bool-cases (is_active_session s.status)) [
      | inr over ↦ let same : db ≡ db' = ground arith in subst (Exclusive mach) same x
      | inl live ↦
          end_active-Exclusive action s now db db' r (own_id id db s f) live (ground arith) x
    ]
  ]
]

poll_candidates-Exclusive :
    {mach : ℕ} (idle now : ℕ) (l : List Session) (db : DepositDb)
    → Exclusive mach db
    → Exclusive mach (poll_candidates idle now l db).1
unfolding poll_candidates
poll_candidates-Exclusive {mach} idle now [] db x = x
poll_candidates-Exclusive {mach} idle now (s ∷ l) db x = elim (Bool-cases (timed_out idle now s)) [
  | inr live ↦ rw (live, poll_candidates) (poll_candidates-Exclusive idle now l db x)
  | inl late ↦
      let next = expire_if_timed_out s.id idle now db in
      let kept =
        poll_candidates-Exclusive idle now l next.1 (expire_one-Exclusive s.id idle now db x) in
      elim (Option-cases next.0) [
        | inl stays ↦ rw (late, poll_candidates) (rw (stays, poll_candidates) kept)
        | inr (gone, q) ↦ rw (late, poll_candidates) (rw (q, poll_candidates) kept)
      ]
]

-- So do the poll of a machine,
pub poll-Exclusive :
    {mach : ℕ} (machine idle now : ℕ) (db : DepositDb)
    → Exclusive mach db
    → Exclusive mach (current_machine_session machine idle now db).1
unfolding current_machine_session
poll-Exclusive {mach} machine idle now db x = poll_candidates-Exclusive idle now _ db x

-- and a snapshot that is written later.
pub ensure-Exclusive :
    {mach : ℕ} (env : Env) (id organization now : ℕ) (db db' : DepositDb)
    (r : Option PolicySnapshot)
    → ensure_session_policy env id organization now db ≡ ok (r, db')
    → Exclusive mach db
    → Exclusive mach db'
unfolding ensure_session_policy
ensure-Exclusive {mach} env id organization now db db' r e x =
    elim (Option-cases (find_session id db)) [
      | inl f ↦ let same : db ≡ db' = ground arith in subst (Exclusive mach) same x
      | inr (s, f) ↦ elim (Option-cases s.policy) [
        | inr (p, q) ↦ let same : db ≡ db' = ground arith in subst (Exclusive mach) same x
        | inl unset ↦ elim (Option-cases (find_machine s.machine_id db)) [
          | inl absent ↦ let same : db ≡ db' = ground arith in subst (Exclusive mach) same x
          | inr (m, there) ↦ elim (Bool-cases (m.organization_id == organization)) [
            | inr other ↦ absurd (ground arith)
            | inl owner ↦
                let g =
                  with_policy env (snapshot_for env m (joined_campaign s.campaign_id db) now db) in
                let same : set_session id g db ≡ db' = ground arith in
                let here : s.id ≡ id =
                  (==_iff s.id id).0 (find_row-test (λ c. c.id == id) db.sessions s f) in
                subst (Exclusive mach) same (
                  subst (λ i. Exclusive mach (set_session i g db)) here
                    (set-Exclusive s g db (own_id id db s f) (λ c. refl) (λ c. refl) (λ off. off)
                      x))
          ]
        ]
      ]
    ]
