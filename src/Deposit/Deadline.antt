-- ===== src/Deposit/Deadline.antt =====
-- lib/deposit-session-deadline.ts. Instants are milliseconds, a lease counts in seconds.
use re_loop.Base.{ℕ, ◌+◌, ◌*◌, ◌/◌, Option, none, some, ltb, if◌then◌else◌, min, or_else}

abbrev pub machine_lease_max_seconds : ℕ
machine_lease_max_seconds = 300

-- `session.timeoutAt`, or the start and the idle timeout of a session without one.
unfoldable pub session_deadline : Option ℕ → ℕ → ℕ → ℕ
session_deadline timeout_at started_at idle_minutes =
    or_else timeout_at (started_at + idle_minutes * 60000)

unfoldable pub session_end : Option ℕ → ℕ → Option ℕ → ℕ → ℕ
unfolding session_deadline
session_end timeout_at started_at none idle_minutes =
    session_deadline timeout_at started_at idle_minutes
session_end timeout_at started_at (some completed_at) idle_minutes =
    if ltb completed_at (session_deadline timeout_at started_at idle_minutes)
    then completed_at
    else session_deadline timeout_at started_at idle_minutes

unfoldable pub machine_lease_expiry : ℕ → ℕ → Option ℕ
machine_lease_expiry deadline issued_at =
    let expires_at = min (deadline / 1000) (issued_at + machine_lease_max_seconds) in
    if ltb issued_at expires_at then some expires_at else none
