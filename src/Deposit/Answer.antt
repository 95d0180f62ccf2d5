-- ===== src/Deposit/Answer.antt =====
-- `startOrResumeDeposit` of lib/deposit-session-service.ts: the attempts around `decideStart`, and the
-- answer to the caller. Other writers decide what each attempt finds in the database and whether the
-- index on active sessions refuses what it inserts; then the active sessions of the machine are read
-- again (two at most). The lookup of the machine by its code, which gives its identifiers, and the
-- hook of the tests are left out.
use re_loop.Base.{
  ℕ, ◌+◌, suc, zero, Bool, true, false, Option, none, some, List, [], ◌∷◌, ltb, ◌==◌, where_rows,
  if◌then◌else◌, Outcome, ok, err,
}
use re_loop.Store.{Failure, http_error, machine_in_use, machine_unavailable}
use re_loop.Deposit.Rows.{Session, DepositDb, Env, on_machine}
use re_loop.Deposit.Start.{
  StartDecision, created, resumed, busy, conflict, StartInput, decide_start,
}

pub data Attempt : Type 0 where
  decided : StartDecision → Attempt
  refused : Failure → Attempt
  index_conflict : List Session → Attempt

-- The session and whether it was resumed.
abbrev pub StartAnswer : Type 0
StartAnswer = Outcome Failure (Session × Bool)

unfoldable pub answer_decision : StartDecision → StartAnswer
answer_decision (created s gone campaign) = ok (s, false)
answer_decision (resumed s gone) = ok (s, true)
answer_decision (busy gone) = err (http_error 409 machine_in_use)
answer_decision (conflict ids gone) = err (http_error 409 machine_unavailable)

-- The `catch` branch: `none` to decide again.
unfoldable pub answer_conflict : ℕ → List Session → ℕ → Option StartAnswer
answer_conflict actor [] attempt =
    if ltb 0 attempt then some (err (http_error 409 machine_in_use)) else none
answer_conflict actor (s ∷ []) attempt =
    some (if s.user_id == actor then ok (s, true) else err (http_error 409 machine_in_use))
answer_conflict actor (s ∷ t ∷ l) attempt = some (err (http_error 409 machine_in_use))

-- What an attempt settles: an answer, or `none` to decide again.
unfoldable pub settle_attempt : ℕ → ℕ → Attempt → Option StartAnswer
unfolding answer_decision answer_conflict
settle_attempt actor attempt (decided d) = some (answer_decision d)
settle_attempt actor attempt (refused e) = some (err e)
settle_attempt actor attempt (index_conflict winners) = answer_conflict actor winners attempt

-- The database around one attempt: what the transaction reads and when, whether the index refuses the
-- session that it inserts, and what is read after that.
pub record Round : Type 0 where
  pub before : DepositDb
  pub now : ℕ
  pub conflicts : Bool
  pub later : DepositDb

-- `take: 2`
abbrev pub take_two : List Session → List Session
take_two (s ∷ t ∷ l) = s ∷ t ∷ []
take_two l = l

-- The transaction, or the read of the active sessions after a violation of the index. Only a decision
-- that inserts a session can violate it.
unfoldable pub attempt_from :
    StartInput → Round → Outcome Failure (StartDecision × DepositDb) → Attempt
attempt_from input round (err e) = refused e
attempt_from input round (ok (created s gone campaign, db)) =
    if round.conflicts
    then index_conflict (take_two (where_rows (on_machine input.machine_id) round.later.sessions))
    else decided (created s gone campaign)
attempt_from input round (ok (resumed s gone, db)) = decided (resumed s gone)
attempt_from input round (ok (busy gone, db)) = decided (busy gone)
attempt_from input round (ok (conflict ids gone, db)) = decided (conflict ids gone)

-- The loop, with fuel; `none` means that the fuel ran out.
unfoldable pub run_attempts : ℕ → Env → StartInput → ℕ → (ℕ → Round) → Option StartAnswer
unfolding settle_attempt attempt_from decide_start
run_attempts zero env input attempt rounds = none
run_attempts (suc fuel) env input attempt rounds =
    let round = rounds attempt in
    elim (settle_attempt input.actor attempt
      (attempt_from input round (decide_start env input round.now round.before))) [
        | some a ↦ some a
        | none ↦ run_attempts fuel env input (attempt + 1) rounds
      ]

unfoldable pub start_or_resume_deposit : Env → StartInput → (ℕ → Round) → Option StartAnswer
unfolding run_attempts
start_or_resume_deposit env input rounds = run_attempts 2 env input 0 rounds
