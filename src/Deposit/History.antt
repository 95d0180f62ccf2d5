-- ===== src/Deposit/History.antt =====
-- Any sequence of transactions on the deposit tables: admissions, ends, polls, machine events, late
-- snapshots, the timeout policy, and transactions elsewhere that leave the sessions alone.
use re_loop.Base.{ℕ, ◌≤◌, ◌≡◌, Bool, Option, List, ok, subst}
use re_loop.Store.{Keyed, Keyed-later}
use re_loop.Deposit.Policy.{PolicySnapshot}
use re_loop.Deposit.Rows.{Session, DepositDb, Env}
use re_loop.Deposit.Expiry.{session_key, item_key}
use re_loop.Deposit.Expire.{expire_timed_out_sessions}
use re_loop.Deposit.Start.{StartDecision, StartInput, decide_start}
use re_loop.Deposit.Finish.{EndAction, end_deposit_by_owner}
use re_loop.Deposit.Events.{MachineEvent, session_side_effects}
use re_loop.Deposit.Poll.{current_machine_session, ensure_session_policy}
use re_loop.Deposit.Exclusion.{Exclusive, expire-Exclusive}
use re_loop.Deposit.Writes.{
  end-Exclusive, session_side_effects-Exclusive, poll-Exclusive, ensure-Exclusive,
}
use re_loop.Deposit.Starts.{start-Exclusive}

-- A transaction that writes no session: reviews, money, machines, new items.
pub record Elsewhere (db db' : DepositDb) : Type 0 where
  pub sessions : db'.sessions ≡ db.sessions
  pub items : Keyed item_key db'.next_id db'.items
  pub later : db.next_id ≤ db'.next_id

pub data Step (env : Env) : DepositDb → DepositDb → Type 0 where
  starts :
      {db db' : DepositDb} (input : StartInput) (now : ℕ) (d : StartDecision)
      → decide_start env input now db ≡ ok (d, db')
      → Step env db db'
  ends :
      {db db' : DepositDb} (actor id : ℕ) (action : EndAction) (now : ℕ) (r : Session × Bool)
      → end_deposit_by_owner actor id action now db ≡ ok (r, db')
      → Step env db db'
  polled :
      {db db' : DepositDb} (machine idle now : ℕ)
      → (current_machine_session machine idle now db).1 ≡ db'
      → Step env db db'
  expires :
      {db db' : DepositDb} (ids : List ℕ) (idle now : ℕ)
      → (expire_timed_out_sessions ids idle now db).1 ≡ db'
      → Step env db db'
  reported :
      {db db' : DepositDb} (event : MachineEvent) (id idle now : ℕ)
      → session_side_effects event id idle now db ≡ ok db'
      → Step env db db'
  priced :
      {db db' : DepositDb} (id organization now : ℕ) (r : Option PolicySnapshot)
      → ensure_session_policy env id organization now db ≡ ok (r, db')
      → Step env db db'
  other : {db db' : DepositDb} → Elsewhere db db' → Step env db db'

pub data History (env : Env) (first : DepositDb) : DepositDb → Type 0 where
  begins : History env first first
  goes_on : {db db' : DepositDb} → History env first db → Step env db db' → History env first db'

step-Exclusive :
    {mach : ℕ} (env : Env) {db db' : DepositDb}
    → Step env db db'
    → Exclusive mach db
    → Exclusive mach db'
step-Exclusive {mach} env (starts input now d e) x = start-Exclusive env input now _ _ d e x
step-Exclusive {mach} env (ends actor id action now r e) x =
    end-Exclusive actor id action now _ _ r e x
step-Exclusive {mach} env (polled machine idle now e) x =
    subst (Exclusive mach) e (poll-Exclusive machine idle now _ x)
step-Exclusive {mach} env (expires ids idle now e) x =
    subst (Exclusive mach) e (expire-Exclusive ids idle now _ x)
step-Exclusive {mach} env (reported event id idle now e) x =
    session_side_effects-Exclusive event id idle now _ _ e x
step-Exclusive {mach} env (priced id organization now r e) x =
    ensure-Exclusive env id organization now _ _ r e x
step-Exclusive {mach} env (other o) x = record {
  sessions = rw (o.sessions) (Keyed-later session_key _ _ _ o.later x.sessions);
  items = o.items;
  one = rw (o.sessions) (x.one);
}

-- In every history of admissions, ends, polls, timeouts, machine events and late snapshots, a machine
-- that starts with at most one active session always has at most one, whatever other machines have,
-- if the identifiers of sessions and items are distinct and below the next one at the start.
pub History-Exclusive :
    (env : Env) (machine : ℕ) {first db : DepositDb}
    → History env first db
    → Exclusive machine first
    → Exclusive machine db
History-Exclusive env machine begins x = x
History-Exclusive env machine (goes_on h s) x =
    step-Exclusive env s (History-Exclusive env machine h x)
