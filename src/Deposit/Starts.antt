-- ===== src/Deposit/Starts.antt =====
-- Admission keeps each machine to one active session, and a machine with several gets none
-- (`decideStart` of lib/deposit-session-service.ts).
use re_loop.Base.{
  ℕ, ◌+◌, ◌≤◌, ◌≡◌, refl, ◌∙◌, ap, subst, not, Option, List, [], ◌∷◌, ◌++◌, ◌==◌, arith, Bool-cases,
  inl, inr, if◌then◌else◌, ok, >>=-eq-ok, map, where_rows,
}
use re_loop.Store.{Keyed-append, Keyed-later}
use re_loop.Funding.{lock_funding_account}
use re_loop.Deposit.Rows.{Session, Machine, CampaignRow, DepositDb, Env, timed_out, on_machine}
use re_loop.Deposit.Expiry.{session_key, item_key, expire_writes}
use re_loop.Deposit.Expire.{ExpiredSession, expire_timed_out_sessions}
use re_loop.Deposit.Start.{
  StartDecision, StartInput, created, reserve_session_ceiling, active_sessions, snapshot_for,
  new_session, insert_session, decide_live, wanted_campaign, not_closed, admit_request, start_on,
  decide_start,
}
use re_loop.Deposit.Counting.{active_count, all_closed, count-append}
use re_loop.Deposit.Exclusion.{Exclusive, expire-Exclusive}

-- What a reservation leaves as it is.
pub record SameSessions (db db' : DepositDb) : Type 0 where
  pub sessions : db'.sessions ≡ db.sessions
  pub items : db'.items ≡ db.items
  pub next_id : db'.next_id ≡ db.next_id

pub SameSessions-Exclusive :
    {mach : ℕ} {db db' : DepositDb} → SameSessions db db' → Exclusive mach db → Exclusive mach db'
SameSessions-Exclusive {mach} {db} {db'} s x = record {
  sessions = rw (s.sessions, s.next_id) x.sessions;
  items = rw (s.items, s.next_id) x.items;
  one = rw (s.sessions) (x.one);
}

reserve-SameSessions :
    (env : Env) (s : Session) (m : Machine) (c : Option CampaignRow) (db db' : DepositDb)
    (r : Option (ℕ × ℕ))
    → reserve_session_ceiling env s m c db ≡ ok (r, db')
    → SameSessions db db'
unfolding reserve_session_ceiling
reserve-SameSessions env s m c db db' r e = record {
  sessions = ground arith;
  items = ground arith;
  next_id = ground arith;
}

insert-Exclusive :
    {mach : ℕ} (s : Session) (db : DepositDb)
    → s.id ≡ db.next_id
    → active_count s.machine_id db.sessions ≡ 0
    → Exclusive mach db
    → Exclusive mach (insert_session s db)
insert-Exclusive {mach} s db fresh free x = record {
  sessions = Keyed-append session_key db.next_id db.sessions s x.sessions fresh;
  items = Keyed-later item_key db.next_id (db.next_id + 1) db.items (omega arith) x.items;
  one = rw (count-append mach db.sessions s) fits;
}
  where
    fits : active_count mach db.sessions + (if on_machine mach s then 1 else 0) ≤ 1
    fits = elim (Bool-cases (s.machine_id == mach)) [
      | inl e ↦
          let same : s.machine_id ≡ mach = ground arith in
          let none_yet : active_count mach db.sessions ≡ 0 =
            subst (λ k. active_count k db.sessions ≡ 0) same free in
          ground (arith, none_yet)
      | inr e ↦ let one = x.one in ground arith
    ]

decide_live-Exclusive :
    {mach : ℕ} (env : Env) (input : StartInput) (m : Machine) (c : Option CampaignRow) (now : ℕ)
    (gone : List ExpiredSession) (l : List Session) (db db' : DepositDb) (d : StartDecision)
    → decide_live env input m c now gone l db ≡ ok (d, db')
    → (l ≡ [] → active_count input.machine_id db.sessions ≡ 0)
    → Exclusive mach db
    → Exclusive mach db'
unfolding decide_live
decide_live-Exclusive {mach} env input m c now gone [] db db' d e free x =
    let s = new_session env input m (snapshot_for env m c now db) now db.next_id in
    let ((r, after), reserved, q) =
      >>=-eq-ok (reserve_session_ceiling env s m c (insert_session s db))
        (λ p. ok (created s gone input.campaign_id, p.1)) e in
    let same : after ≡ db' = ground arith in
    subst (Exclusive mach) same (
      SameSessions-Exclusive (reserve-SameSessions env s m c (insert_session s db) after r reserved)
        (insert-Exclusive s db refl (free refl) x))
decide_live-Exclusive {mach} env input m c now gone (s ∷ []) db db' d e free x =
    let same : db ≡ db' = ground arith in subst (Exclusive mach) same x
decide_live-Exclusive {mach} env input m c now gone (s ∷ t ∷ l) db db' d e free x =
    let same : db ≡ db' = ground arith in subst (Exclusive mach) same x

append_nil : (a b : List Session) → a ++ b ≡ [] → a ≡ []
append_nil [] b e = refl
append_nil (x ∷ a) b e = absurd (ground arith)

start_on-Exclusive :
    {mach : ℕ} (env : Env) (input : StartInput) (m : Machine) (now : ℕ) (db db' : DepositDb)
    (d : StartDecision)
    → start_on env input m now db ≡ ok (d, db')
    → Exclusive mach db
    → Exclusive mach db'
unfolding start_on
start_on-Exclusive {mach} env input m now db db' d e x =
    let idle = m.idle_timeout_minutes in
    let all_active = active_sessions input.machine_id db in
    let timed = where_rows (timed_out idle now) all_active in
    let live = where_rows (λ s. not (timed_out idle now s)) all_active in
    let ids = map session_key timed in
    let gone = (expire_timed_out_sessions ids idle now db).0 in
    let after = (expire_timed_out_sessions ids idle now db).1 in
    let (c, wanted, rest) =
      >>=-eq-ok (wanted_campaign env input m live now db)
        (λ c. decide_live env input m c now gone (live ++ not_closed gone timed) after) e in
    decide_live-Exclusive env input m c now gone (live ++ not_closed gone timed) after db' d rest
      (λ empty.
        ap (λ (t : DepositDb). active_count input.machine_id t.sessions)
          (expire_writes ids idle now db x.sessions.distinct x.items.distinct)
        ∙ all_closed input.machine_id idle now db x.sessions.distinct
            (append_nil live (not_closed gone timed) empty))
      (expire-Exclusive ids idle now db x)

-- Admission keeps each machine to one active session.
pub start-Exclusive :
    {mach : ℕ} (env : Env) (input : StartInput) (now : ℕ) (db db' : DepositDb) (d : StartDecision)
    → decide_start env input now db ≡ ok (d, db')
    → Exclusive mach db
    → Exclusive mach db'
unfolding decide_start
start-Exclusive {mach} env input now db db' d e x =
    let locked = record db {
      funding = (lock_funding_account input.organization_id db.funding).1;
    } in
    let (m, admitted, rest) =
      >>=-eq-ok (admit_request input now locked) (λ m. start_on env input m now locked) e in
    start_on-Exclusive env input m now locked db' d rest
      (record { sessions = x.sessions; items = x.items; one = x.one })
