-- ===== src/Deposit/Answers.antt =====
-- The attempts of a scan end, and how they end (`startOrResumeDeposit` of
-- lib/deposit-session-service.ts).
use re_loop.Base.{
  ltb, where_rows, Outcome, ok, err, ℕ, ◌≡◌, ◌≢◌, ◌⊎◌, Bool, true, false, Option, none, some, List,
  [], ◌∷◌,
}
use re_loop.Store.{Failure, http_error, machine_in_use, machine_unavailable}
use re_loop.Deposit.Rows.{Session, DepositDb, Env, on_machine}
use re_loop.Deposit.Expire.{ExpiredSession}
use re_loop.Deposit.Start.{
  StartDecision, created, resumed, busy, conflict, StartInput, decide_start,
}
use re_loop.Deposit.Answer.{StartAnswer, Round}

module _ (env : Env) (input : StartInput) where
  abbrev decides : Round → Outcome Failure (StartDecision × DepositDb)
  decides round = decide_start env input round.now round.before

  -- The transaction would create a session, but the index refused it.
  pub record Loses (round : Round) : Type 0 where
    pub session : Session
    pub gone : List ExpiredSession
    pub campaign : Option ℕ
    pub after : DepositDb
    pub creates : decides round ≡ ok (created session gone campaign, after)
    pub refused : round.conflicts ≡ true

  abbrev pub Actives : Round → List Session → Type 0
  Actives round l = where_rows (on_machine input.machine_id) round.later.sessions ≡ l

  -- How one attempt answers the caller; `last` if there is no other.
  pub data Settles (round : Round) (last : Bool) : StartAnswer → Type 0 where
    refuses : (e : Failure) → decides round ≡ err e → Settles round last (err e)
    opens :
        (s : Session) (gone : List ExpiredSession) (campaign : Option ℕ) (db : DepositDb)
        → decides round ≡ ok (created s gone campaign, db)
        → round.conflicts ≡ false
        → Settles round last (ok (s, false))
    resumes :
        (s : Session) (gone : List ExpiredSession) (db : DepositDb)
        → decides round ≡ ok (resumed s gone, db)
        → Settles round last (ok (s, true))
    occupied :
        (gone : List ExpiredSession) (db : DepositDb)
        → decides round ≡ ok (busy gone, db)
        → Settles round last (err (http_error 409 machine_in_use))
    several :
        (ids : List ℕ) (gone : List ExpiredSession) (db : DepositDb)
        → decides round ≡ ok (conflict ids gone, db)
        → Settles round last (err (http_error 409 machine_unavailable))
    own_winner :
        (s : Session)
        → Loses round
        → Actives round (s ∷ [])
        → s.user_id ≡ input.actor
        → Settles round last (ok (s, true))
    other_winner :
        (s : Session)
        → Loses round
        → Actives round (s ∷ [])
        → s.user_id ≢ input.actor
        → Settles round last (err (http_error 409 machine_in_use))
    many_winners :
        (s t : Session) (l : List Session)
        → Loses round
        → Actives round (s ∷ t ∷ l)
        → Settles round last (err (http_error 409 machine_in_use))
    gives_up :
        Loses round
        → Actives round []
        → last ≡ true
        → Settles round last (err (http_error 409 machine_in_use))

  -- How a scan is answered: by its first attempt, or by its second if the first lost against a session
  -- that had already ended.
  pub data Answered (rounds : ℕ → Round) : StartAnswer → Type 0 where
    first_try : {r : StartAnswer} → Settles (rounds 0) false r → Answered rounds r
    second_try :
        {r : StartAnswer}
        → Loses (rounds 0)
        → Actives (rounds 0) []
        → Settles (rounds 1) true r
        → Answered rounds r

  abbrev Settled : Round → ℕ → Option StartAnswer → Type 0
  Settled round attempt o =
      ((r : StartAnswer) × (o ≡ some r) × Settles round (ltb 0 attempt) r)
      ⊎ ((o ≡ none) × (Loses round × Actives round [] × (ltb 0 attempt ≡ false)))
