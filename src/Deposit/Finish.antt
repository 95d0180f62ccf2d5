-- ===== src/Deposit/Finish.antt =====
-- `endDepositByOwner` of lib/deposit-session-service.ts.
use re_loop.Base.{
  ℕ, Bool, true, false, not, ◌&&◌, Option, none, some, ◌==◌, if◌then◌else◌, or_else, any_of,
  Outcome, ok, err, ◌>>=◌, ◌>>◌, throw_if, or_throw,
}
use re_loop.Store.{
  Failure, http_error, session_not_found, not_your_session, item_still_processing,
  session_cannot_end,
}
use re_loop.Machine.{SessionStatus, cancelled, finish, can_transition_session}
use re_loop.Deposit.Rows.{
  Session, DepositDb, is_active_session, find_session, find_machine, set_session, undecided,
}
use re_loop.Deposit.Expire.{expire_if_timed_out}

pub data EndAction : Type 0 where
  end_finish end_cancel : EndAction

-- `action === "cancel" ? "CANCELLED" : transitionSession(session.status, "FINISH")`
unfoldable pub ended_status : EndAction → SessionStatus → Option SessionStatus
unfolding can_transition_session
ended_status end_cancel s = some cancelled
ended_status end_finish s = can_transition_session s finish

abbrev pub has_undecided : ℕ → DepositDb → Bool
has_undecided id db = any_of (λ x. (x.session_id == id) && undecided x) db.items

-- An item is still undecided: only the timeout policy may close the session.
unfoldable pub end_by_timeout :
    Session → ℕ → DepositDb → Outcome Failure ((Session × Bool) × DepositDb)
unfolding expire_if_timed_out
end_by_timeout s now db = elim (find_machine s.machine_id db) [
  | none ↦ err (http_error 409 item_still_processing)
  | some m ↦
      let (gone, after) = expire_if_timed_out s.id m.idle_timeout_minutes now db in
      elim gone [
        | none ↦ err (http_error 409 item_still_processing)
        | some e ↦ ok ((or_else (find_session s.id after) s, true), after)
      ]
]

abbrev pub ended : SessionStatus → ℕ → Session → Session
ended status now s = record s { status = status; completed_at = some now }

unfoldable pub end_active :
    EndAction → Session → ℕ → DepositDb → Outcome Failure ((Session × Bool) × DepositDb)
unfolding end_by_timeout ended_status
end_active action s now db =
    if has_undecided s.id db then end_by_timeout s now db else elim (ended_status action s.status) [
      | none ↦ err (http_error 409 session_cannot_end)
      | some next ↦ ok ((ended next now s, true), set_session s.id (ended next now) db)
    ]

unfoldable pub end_deposit_by_owner :
    ℕ → ℕ → EndAction → ℕ → DepositDb → Outcome Failure ((Session × Bool) × DepositDb)
unfolding end_active
end_deposit_by_owner actor id action now db = do
  s ← or_throw (find_session id db) (http_error 404 session_not_found)
  throw_if (not (s.user_id == actor)) (http_error 403 not_your_session)
  if is_active_session s.status then end_active action s now db else ok ((s, false), db)
