-- ===== src/Deposit/Timeout.antt =====
-- What the timeout policy is for (`expireTimedOutSessions` of lib/deposit-session-service.ts), written
-- down row by row, and that the code does this.
use re_loop.Base.{
  leb, ◌==◌, Option-cases, any_of, update_rows, ℕ, ◌+◌, ◌*◌, ◌≡◌, refl, ◌∙◌, inl, inr, Bool, true,
  false, ◌&&◌, Option, none, some, List, arith,
}
use re_loop.Store.{Distinct}
use re_loop.Machine.{SessionStatus, completed, cancelled, expired}
use re_loop.Deposit.Rows.{
  Session, Item, ItemStatus, item_pending, item_review, ItemReason, session_timeout, DepositDb,
  is_active_session, undecided, find_session,
}
use re_loop.Deposit.Deadline.{session_deadline}
use re_loop.Deposit.Expire.{expire_timed_out_sessions, to_review}
use re_loop.Deposit.Expiry.{session_key, item_key, closes, expire_writes}

-- A session that still occupies its machine.
abbrev pub occupies : SessionStatus → Bool
occupies completed = false
occupies cancelled = false
occupies expired = false
occupies _ = true

-- Its end: the stored timeout, or the idle minutes after its start.
abbrev pub end_of : ℕ → Option ℕ → ℕ → ℕ
end_of idle (some t) started = t
end_of idle none started = started + idle * 60000

abbrev pub is_due : ℕ → ℕ → Session → Bool
is_due idle now s = occupies s.status && leb (end_of idle s.timeout_at s.started_at) now

abbrev pub asked_and_due : List ℕ → ℕ → ℕ → DepositDb → ℕ → Bool
asked_and_due ids idle now db k =
    any_of (λ i. i == k) ids
    && elim (find_session k db) [ none ↦ false | some s ↦ is_due idle now s ]

abbrev pub expired_session : ℕ → Session → Session
expired_session now s = record {
  id = s.id;
  user_id = s.user_id;
  machine_id = s.machine_id;
  campaign_id = s.campaign_id;
  status = expired;
  started_at = s.started_at;
  completed_at = some now;
  timeout_at = s.timeout_at;
  policy_version = s.policy_version;
  policy = s.policy;
}

-- Pending, and the machine has not accepted it.
abbrev pub awaits : ItemStatus → Option ℕ → Bool
awaits item_pending none = true
awaits _ _ = false

abbrev pub reason_or_timeout : Option ItemReason → Option ItemReason
reason_or_timeout none = some session_timeout
reason_or_timeout (some r) = some r

abbrev pub held_item : Item → Item
held_item x = record {
  id = x.id;
  session_id = x.session_id;
  status = item_review;
  acceptance_event_id = x.acceptance_event_id;
  reason = reason_or_timeout x.reason;
}

closes_due :
    (ids : List ℕ) (idle now : ℕ) (db : DepositDb) (k : ℕ)
    → closes ids idle now db k ≡ asked_and_due ids idle now db k
unfolding is_active_session session_deadline
closes_due ids idle now db k = elim (Option-cases (find_session k db)) [
  | inl absent ↦ rw absent refl
  | inr (s, there) ↦ rw there (same s)
]
  where
    same :
        (s : Session)
        → (any_of (λ i. i == k) ids
            && (is_active_session s.status
                && leb (session_deadline s.timeout_at s.started_at idle) now))
          ≡ (any_of (λ i. i == k) ids && is_due idle now s)
    same s = ground arith

undecided-awaits : (x : Item) → undecided x ≡ awaits x.status x.acceptance_event_id
undecided-awaits x = ground arith

to_review_held : (x : Item) → to_review x ≡ held_item x
to_review_held x = ground arith

-- The timeout policy closes exactly the sessions that are asked for, active and past their deadline,
-- moves exactly their undecided items to review, keeping a reason that is there already, and writes
-- nothing else, if the identifiers of sessions and of items are distinct.
pub expire_one_pass :
    (ids : List ℕ) (idle now : ℕ) (db : DepositDb)
    → Distinct session_key db.sessions
    → Distinct item_key db.items
    → (expire_timed_out_sessions ids idle now db).1 ≡ record db {
      sessions =
          update_rows (λ s. asked_and_due ids idle now db s.id) (expired_session now) db.sessions;
      items =
          update_rows
            (λ x.
              awaits x.status x.acceptance_event_id && asked_and_due ids idle now db x.session_id)
            held_item
            db.items;
    }
expire_one_pass ids idle now db d e = expire_writes ids idle now db d e ∙ (λ j. record db {
  sessions = update_rows (λ s. closes_due ids idle now db s.id j) (expired_session now) db.sessions;
  items =
      update_rows (λ x. undecided-awaits x j && closes_due ids idle now db x.session_id j)
        (λ x. to_review_held x j) db.items;
})
