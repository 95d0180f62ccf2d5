-- ===== src/Deposit/Leases.antt =====
-- Leases and deadlines (lib/deposit-session-deadline.ts): no lease outlives the deadline of its
-- session, so a session that the timeout policy closes has no lease left.
use re_loop.Base.{
  subst, ==_iff, ℕ, ◌+◌, ◌*◌, ◌≤◌, ◌<◌, ◌≡◌, refl, sym, ◌∙◌, ap, Bool, true, false, Option, none,
  some, List, [], ◌∷◌, ◌==◌, arith, Bool-cases, inl, inr, find_row, update_rows, if◌then◌else◌,
}
use re_loop.Store.{Distinct, find_row-test}
use re_loop.Deposit.Deadline.{machine_lease_expiry, machine_lease_max_seconds}
use re_loop.Deposit.Rows.{Session, DepositDb, find_session, is_active_session, deadline}
use re_loop.Deposit.Expire.{expire_timed_out_sessions, closed}
use re_loop.Deposit.Timeout.{expired_session}
use re_loop.Deposit.Expiry.{expire_writes, session_key, item_key, closes}

-- A lease in seconds: later than its issue, at most five minutes long, and not past the deadline.
-- There is none when the deadline is less than a whole second away.
abbrev pub IsLease : ℕ → ℕ → Option ℕ → Type 0
IsLease deadline issued none = deadline < (issued + 1) * 1000
IsLease deadline issued (some e) =
    (issued < e) × (e ≤ issued + machine_lease_max_seconds) × (e * 1000 ≤ deadline)

-- A lease ends after its issue, within five minutes and not after the deadline of the session; none
-- is given exactly when less than a second is left.
pub machine_lease_expiry-IsLease :
    (deadline issued : ℕ) → IsLease deadline issued (machine_lease_expiry deadline issued)
unfolding machine_lease_expiry
machine_lease_expiry-IsLease deadline issued = ground arith

find-update_rows :
    (k : ℕ) (p : Session → Bool) (g : Session → Session) (l : List Session) (s : Session)
    → ((c : Session) → (g c).id ≡ c.id)
    → find_row (λ c. c.id == k) l ≡ some s
    → find_row (λ c. c.id == k) (update_rows p g l) ≡ some (if p s then g s else s)
find-update_rows k p g [] s keep f = absurd (ground arith)
find-update_rows k p g (c ∷ l) s keep f = ground (arith, keep c, find-update_rows k p g l s keep)

lease_over :
    (now d issued e : ℕ) → d ≤ now → machine_lease_expiry d issued ≡ some e → e * 1000 ≤ now
unfolding machine_lease_expiry
lease_over now d issued e past given = ground arith

closed_is :
    (ids : List ℕ) (idle now : ℕ) (db : DepositDb) (k : ℕ) (s s' : Session)
    → find_session k db ≡ some s
    → some (if closes ids idle now db s.id then closed now s else s) ≡ some s'
    → s.id ≡ k
    → is_active_session s.status ≡ true
    → is_active_session s'.status ≡ false
    → (s' ≡ closed now s) × (deadline idle s ≤ now)
closed_is ids idle now db k s s' f e here a b = elim (Bool-cases (closes ids idle now db s.id)) [
  | inr stays ↦ absurd (moved (rw stays at e))
  | inl goes ↦
      (now_closed (rw goes at e), past (subst (λ j. find_session j db ≡ some s) (sym here) f) goes)
]
  where
    moved : some s ≡ some s' → ⊥
    moved q = ground arith

    now_closed : some (closed now s) ≡ some s' → s' ≡ closed now s
    now_closed q = cc

    past :
        find_session s.id db ≡ some s → closes ids idle now db s.id ≡ true → deadline idle s ≤ now
    past g q = ground arith

-- If the timeout policy closed a session, it is expired at this instant and otherwise as it was, and
-- every lease that was issued for it, under its deadline or an earlier one, has run out.
pub closed_after_leases :
    (ids : List ℕ) (idle now : ℕ) (db : DepositDb) (k : ℕ) (s s' : Session) (d issued e : ℕ)
    → Distinct session_key db.sessions
    → Distinct item_key db.items
    → find_session k db ≡ some s
    → find_session k (expire_timed_out_sessions ids idle now db).1 ≡ some s'
    → is_active_session s.status ≡ true
    → is_active_session s'.status ≡ false
    → d ≤ deadline idle s
    → machine_lease_expiry d issued ≡ some e
    → (s' ≡ expired_session now s) × (e * 1000 ≤ now)
closed_after_leases ids idle now db k s s' d issued e ds di f f' a b earlier given =
    let moved =
      sym (
        find-update_rows k (λ c. closes ids idle now db c.id) (closed now) db.sessions s (λ c. refl)
          f)
      ∙ (ap (λ (t : DepositDb). find_session k t) (sym (expire_writes ids idle now db ds di))
          ∙ f') in
    let here : s.id ≡ k = (==_iff s.id k).0 (find_row-test (λ c. c.id == k) db.sessions s f) in
    let (same, past) = closed_is ids idle now db k s s' f moved here a b in
    (same, lease_over now d issued e (omega arith) given)
