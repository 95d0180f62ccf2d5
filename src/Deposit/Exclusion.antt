-- ===== src/Deposit/Exclusion.antt =====
-- A machine has at most one active session: the writes to single sessions keep it so, for each machine
-- on its own.
use re_loop.Base.{
  ℕ, ◌≤◌, ◌≡◌, refl, true, false, ◌&&◌, some, List, [], ◌∷◌, ◌==◌, arith, Bool-cases, inl, inr,
  find_row,
}
use re_loop.Store.{update_row, Keyed, Keyed-update, Keyed-later}
use re_loop.Machine.{SessionStatus, SessionAction, can_transition_session}
use re_loop.Deposit.Rows.{
  Session, DepositDb, find_session, is_active_session, on_machine, undecided,
}
use re_loop.Deposit.Expiry.{session_key, item_key, expire_writes, closes}
use re_loop.Deposit.Expire.{expire_timed_out_sessions, to_review, closed}
use re_loop.Deposit.Tables.{Keyed-update_rows}
use re_loop.Deposit.Counting.{active_count, count-update_rows, closed-off}

-- Identifiers are given out once, and this machine has at most one active session.
pub record Exclusive (mach : ℕ) (db : DepositDb) : Type 0 where
  pub sessions : Keyed session_key db.next_id db.sessions
  pub items : Keyed item_key db.next_id db.items
  pub one : active_count mach db.sessions ≤ 1

-- A write to one session that keeps its identifier and its machine and does not make it active again.
pub record Touch (db db' : DepositDb) : Type 0 where
  pub row : Session
  pub write : Session → Session
  pub found : find_session row.id db ≡ some row
  pub keeps_id : (c : Session) → (write c).id ≡ c.id
  pub keeps_machine : (c : Session) → (write c).machine_id ≡ c.machine_id
  pub no_revival :
      is_active_session row.status ≡ false → is_active_session (write row).status ≡ false
  pub written : db'.sessions ≡ update_row (λ c. c.id == row.id) write db.sessions
  pub later : db.next_id ≤ db'.next_id
  pub items : Keyed item_key db'.next_id db'.items

count-write :
    (m k : ℕ) (g : Session → Session) (l : List Session) (s : Session)
    → find_row (λ c. c.id == k) l ≡ some s
    → (on_machine m s ≡ false → on_machine m (g s) ≡ false)
    → active_count m (update_row (λ c. c.id == k) g l) ≤ active_count m l
count-write m k g [] s f keep = omega arith
count-write m k g (x ∷ l) s f keep = elim (Bool-cases (x.id == k)) [
  | inr e ↦
      rw e (step m x (update_row (λ c. c.id == k) g l) l (count-write m k g l s (rw e at f) keep))
  | inl e ↦ let same : x ≡ s = head_is (rw e at f) in rw e (rw same (replaced m s (g s) l keep))
]
  where
    head_is : some x ≡ some s → x ≡ s
    head_is q = cc

    step :
        (m : ℕ) (x : Session) (a b : List Session)
        → active_count m a ≤ active_count m b
        → active_count m (x ∷ a) ≤ active_count m (x ∷ b)
    step m x a b h = elim (Bool-cases (on_machine m x)) [
      | inl e ↦ rw e (omega arith)
      | inr e ↦ rw e h
    ]

    replaced :
        (m : ℕ) (s t : Session) (l : List Session)
        → (on_machine m s ≡ false → on_machine m t ≡ false)
        → active_count m (t ∷ l) ≤ active_count m (s ∷ l)
    replaced m s t l h = elim (Bool-cases (on_machine m s)) [
      | inr off ↦ rw (off, h off) (omega arith)
      | inl on ↦ elim (Bool-cases (on_machine m t)) [
        | inl e ↦ rw (on, e) (omega arith)
        | inr e ↦ rw (on, e) (omega arith)
      ]
    ]

pub Touch-Exclusive :
    {mach : ℕ} {db db' : DepositDb} → Touch db db' → Exclusive mach db → Exclusive mach db'
Touch-Exclusive {mach} {db} {db'} t x = record {
  sessions = rw (t.written) (
      Keyed-later session_key db.next_id db'.next_id _ t.later
        (Keyed-update session_key db.next_id _ t.write db.sessions t.keeps_id x.sessions));
  items = t.items;
  one = rw (t.written) (
      let fewer =
        count-write mach t.row.id t.write db.sessions t.row t.found
          (off mach t.row (t.write t.row) (t.keeps_machine t.row) t.no_revival) in
      let one = x.one in omega arith);
}
  where
    off :
        (m : ℕ) (s t : Session)
        → t.machine_id ≡ s.machine_id
        → (is_active_session s.status ≡ false → is_active_session t.status ≡ false)
        → on_machine m s ≡ false
        → on_machine m t ≡ false
    off m s t same h e = elim (Bool-cases (is_active_session s.status)) [
      | inr ended ↦ let over = h ended in ground arith
      | inl live ↦ ground arith
    ]

-- Only an active session has a transition.
pub can_transition-active :
    (s : SessionStatus) (a : SessionAction) (t : SessionStatus)
    → can_transition_session s a ≡ some t
    → is_active_session s ≡ true
unfolding can_transition_session is_active_session
can_transition-active s a t h = ground arith

pub expire-Exclusive :
    {mach : ℕ} (ids : List ℕ) (idle now : ℕ) (db : DepositDb)
    → Exclusive mach db
    → Exclusive mach (expire_timed_out_sessions ids idle now db).1
expire-Exclusive {mach} ids idle now db x =
    rw (expire_writes ids idle now db x.sessions.distinct x.items.distinct) record {
      sessions =
          Keyed-update_rows session_key db.next_id (λ s. closes ids idle now db s.id) (closed now)
            db.sessions (λ c. refl) x.sessions;
      items =
          Keyed-update_rows item_key db.next_id
            (λ y. undecided y && closes ids idle now db y.session_id) to_review db.items (λ c. refl)
            x.items;
      one =
          let fewer =
            count-update_rows mach (λ s. closes ids idle now db s.id) (closed now) db.sessions
              (λ c _. closed-off mach now c) in
          let one = x.one in omega arith;
    }
