-- ===== src/Deposit/Poll.antt =====
-- `currentMachineSession`, `ensureSessionPolicy` and `getActiveDepositForUser` of
-- lib/deposit-session-service.ts. The transactions of one poll follow one another here at one
-- instant; others that come between are further steps of a history.
use re_loop.Base.{
  ℕ, Bool, true, false, not, ◌&&◌, Option, none, some, List, [], ◌∷◌, ◌==◌, where_rows, map,
  Outcome, ok, ◌>>◌, throw_if,
}
use re_loop.Store.{Failure, http_error, machine_changed}
use re_loop.Deposit.Policy.{PolicySnapshot, canonical_session_policy, build_session_policy}
use re_loop.Deposit.Rows.{
  Session, CampaignRow, DepositDb, Env, find_session, find_machine, set_session, timed_out,
  is_active_session,
}
use re_loop.Deposit.Expire.{expire_if_timed_out}
use re_loop.Deposit.Start.{find_campaign_row, snapshot_for, active_sessions, earlier_session}
use re_loop.Reward.{sort_rows}

pub record MachineSession : Type 0 where
  pub session_id : Option ℕ
  pub is_conflict : Bool
  pub live_session_ids : List ℕ

-- The loop over the candidates: those that stay live, and the database.
unfoldable pub poll_candidates : ℕ → ℕ → List Session → DepositDb → List ℕ × DepositDb
unfolding expire_if_timed_out
poll_candidates idle now [] db = ([], db)
poll_candidates idle now (s ∷ l) db = elim (timed_out idle now s) [
  | false ↦ let (live, after) = poll_candidates idle now l db in (s.id ∷ live, after)
  | true ↦
      let (gone, next) = expire_if_timed_out s.id idle now db in
      let (live, after) = poll_candidates idle now l next in
      elim gone [ some e ↦ (live, after) | none ↦ (s.id ∷ live, after) ]
]

unfoldable pub machine_session : List ℕ → MachineSession
machine_session [] = record { session_id = none; is_conflict = false; live_session_ids = [] }
machine_session (i ∷ []) = record {
  session_id = some i;
  is_conflict = false;
  live_session_ids = i ∷ [];
}
machine_session (i ∷ j ∷ l) = record {
  session_id = none;
  is_conflict = true;
  live_session_ids = i ∷ j ∷ l;
}

unfoldable pub current_machine_session : ℕ → ℕ → ℕ → DepositDb → MachineSession × DepositDb
unfolding poll_candidates machine_session
current_machine_session machine idle now db =
    let (live, after) = poll_candidates idle now (active_sessions machine db) db in
    (machine_session live, after)

-- The campaign of a session, as the relation joins it.
abbrev pub joined_campaign : Option ℕ → DepositDb → Option CampaignRow
joined_campaign none db = none
joined_campaign (some i) db = find_campaign_row i db

abbrev pub with_policy : Env → PolicySnapshot → Session → Session
with_policy env p s = record s {
  policy_version = some (env.policy_hash (canonical_session_policy p));
  policy = some p;
}

-- The snapshot of a session, written now for one that has none. `organization` is the one that the
-- machine had before the locks were taken.
unfoldable pub ensure_session_policy :
    Env → ℕ → ℕ → ℕ → DepositDb → Outcome Failure (Option PolicySnapshot × DepositDb)
unfolding build_session_policy canonical_session_policy
ensure_session_policy env id organization now db = elim (find_session id db) [
  | none ↦ ok (none, db)
  | some s ↦ elim s.policy [
    | some p ↦ ok (some p, db)
    | none ↦ elim (find_machine s.machine_id db) [
      | none ↦ ok (none, db)
      | some m ↦ do
        throw_if (not (m.organization_id == organization)) (http_error 409 machine_changed)
        let p = snapshot_for env m (joined_campaign s.campaign_id db) now db
        ok (some p, set_session id (with_policy env p) db)
    ]
  ]
]

-- One of the caller's own active sessions.
pub record ActiveDeposit : Type 0 where
  pub session : Session
  pub is_timed_out : Bool

abbrev pub idle_of : ℕ → DepositDb → ℕ
idle_of m db = elim (find_machine m db) [ none ↦ 0 | some row ↦ row.idle_timeout_minutes ]

unfoldable pub get_active_deposit_for_user :
    ℕ → Option ℕ → ℕ → DepositDb → Option ActiveDeposit × List ActiveDeposit
get_active_deposit_for_user user machine now db =
    let rows = sort_rows earlier_session (
      where_rows
        (λ s.
          (s.user_id == user)
          && (is_active_session s.status
              && elim machine [ none ↦ true | some m ↦ s.machine_id == m ]))
        db.sessions) in
    let found =
      map (λ s. record { session = s; is_timed_out = timed_out (idle_of s.machine_id db) now s })
        rows in
    (elim found [ some_one ∷ [] ↦ some some_one | _ ↦ none ], found)
