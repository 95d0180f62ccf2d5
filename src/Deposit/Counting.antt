-- ===== src/Deposit/Counting.antt =====
-- How many sessions of a machine are active, after the writes of lib/deposit-session-service.ts.
use re_loop.Base.{
  suc, ℕ, ◌+◌, ◌≤◌, ◌≡◌, refl, ◌∙◌, Bool, true, false, not, some, List, [], ◌∷◌, ◌++◌, ◌==◌, arith,
  Bool-cases, inl, inr, update_rows, where_rows, if◌then◌else◌, any_of, map, length, All,
}
use re_loop.Store.{Distinct, Found, Found-All, All-map}
use re_loop.Reward.Sorting.{Has, where-All, sort-All}
use re_loop.Deposit.Rows.{
  Session, DepositDb, find_session, is_active_session, on_machine, timed_out,
}
use re_loop.Deposit.Expire.{closed}
use re_loop.Deposit.Start.{active_sessions, earlier_session}
use re_loop.Deposit.Expiry.{session_key, closes}
use re_loop.Deposit.Tables.{any_of-All, All-Has, Has-All}

-- The number of active sessions of machine `m`.
abbrev pub active_count : ℕ → List Session → ℕ
active_count m sessions = length (where_rows (on_machine m) sessions)

pub closed-off : (m now : ℕ) (s : Session) → on_machine m (closed now s) ≡ false
unfolding is_active_session
closed-off m now s = ground arith

module _ (m : ℕ) where
  -- A write that makes no session of the machine active adds none.
  pub count-update_rows :
      (t : Session → Bool) (g : Session → Session) (l : List Session)
      → ((c : Session) → on_machine m c ≡ false → on_machine m (g c) ≡ false)
      → active_count m (update_rows t g l) ≤ active_count m l
  count-update_rows t g [] keep = omega arith
  count-update_rows t g (c ∷ l) keep = elim (Bool-cases (on_machine m c)) [
    | inl e ↦ elim (Bool-cases (t c)) [
      | inl f ↦ rw e (
          rw f (
            let rest = count-update_rows t g l keep in
            at_most (g c) (update_rows t g l) (active_count m l) rest))
      | inr f ↦ rw e (rw f (rw e (let rest = count-update_rows t g l keep in omega arith)))
    ]
    | inr e ↦ elim (Bool-cases (t c)) [
      | inl f ↦ rw e (rw f (rw (keep c e) (count-update_rows t g l keep)))
      | inr f ↦ rw e (rw f (rw e (count-update_rows t g l keep)))
    ]
  ]
    where
      at_most :
          (c : Session) (l : List Session) (n : ℕ)
          → active_count m l ≤ n
          → active_count m (c ∷ l) ≤ suc n
      at_most c l n h = elim (Bool-cases (on_machine m c)) [
        | inl e ↦ rw e (omega arith)
        | inr e ↦ rw e (omega arith)
      ]

  -- No session of the machine is active after a write that ends each one that was.
  pub count-none :
      (t : Session → Bool) (g : Session → Session) (l : List Session)
      → All (λ s. on_machine m (if t s then g s else s) ≡ false) l
      → active_count m (update_rows t g l) ≡ 0
  count-none t g [] h = refl
  count-none t g (s ∷ l) h = rw h.0 (count-none t g l h.1)

  pub count-append :
      (l : List Session) (s : Session)
      → active_count m (l ++ s ∷ []) ≡ active_count m l + (if on_machine m s then 1 else 0)
  count-append [] s = ground arith
  count-append (c ∷ l) s = ground (arith, count-append l s)

-- A timed-out session of a list is among the identifiers of its timed-out part.
ids-any :
    (k : ℕ) (l : List Session)
    → any_of (λ i. i == k) (map session_key l) ≡ any_of (λ q. q.id == k) l
ids-any k [] = refl
ids-any k (x ∷ l) = ground (arith, ids-any k l)

module _ (m idle now : ℕ) (db : DepositDb) where
  -- Where no active session of the machine is live, each is past its deadline.
  past_deadline :
      where_rows (λ s. not (timed_out idle now s)) (active_sessions m db) ≡ []
      → All (λ s. on_machine m s ≡ true → timed_out idle now s ≡ true) db.sessions
  past_deadline none_live =
      All-map (λ s. on_machine m s ≡ true → not (timed_out idle now s) ≡ true → ⊥)
        (λ s. on_machine m s ≡ true → timed_out idle now s ≡ true) db.sessions
        (λ s k on. not_live (timed_out idle now s) (k on))
        (where-All (λ s. not (timed_out idle now s) ≡ true → ⊥) (on_machine m) db.sessions
          (sort-All earlier_session (λ s. not (timed_out idle now s) ≡ true → ⊥)
            (where_rows (on_machine m) db.sessions)
            (where-All (λ _. ⊥) (λ s. not (timed_out idle now s)) (active_sessions m db)
              (rw none_live tt))))
    where
      not_live : (b : Bool) → (not b ≡ true → ⊥) → b ≡ true
      not_live true k = refl
      not_live false k = absurd (k refl)

  asked_for :
      (s : Session)
      → Has s db.sessions
      → on_machine m s ≡ true
      → timed_out idle now s ≡ true
      → any_of
          (λ i. i == s.id)
          (map session_key (where_rows (timed_out idle now) (active_sessions m db)))
        ≡ true
  asked_for s there on late =
      elim (Bool-cases
        (any_of (λ q. q.id == s.id) (where_rows (timed_out idle now) (active_sessions m db)))) [
          | inl e ↦ ids-any s.id (where_rows (timed_out idle now) (active_sessions m db)) ∙ e
          | inr e ↦ absurd (
              clash (
                Has-All session_key
                  (λ q.
                    on_machine m q ≡ true → timed_out idle now q ≡ true → (q.id == s.id) ≡ false)
                  s db.sessions
                  (where-All (λ q. timed_out idle now q ≡ true → (q.id == s.id) ≡ false)
                    (on_machine m) db.sessions
                    (sort-All earlier_session
                      (λ q. timed_out idle now q ≡ true → (q.id == s.id) ≡ false)
                      (where_rows (on_machine m) db.sessions)
                      (where-All (λ q. (q.id == s.id) ≡ false) (timed_out idle now)
                        (active_sessions m db)
                        (any_of-All session_key s.id
                          (where_rows (timed_out idle now) (active_sessions m db)) e))))
                  there on late))
        ]
    where
      clash : (s.id == s.id) ≡ false → ⊥
      clash q = ground arith

  -- Then the timeout policy leaves the machine without an active session.
  pub all_closed :
      Distinct session_key db.sessions
      → where_rows (λ s. not (timed_out idle now s)) (active_sessions m db) ≡ []
      → active_count m (
          update_rows
            (λ s.
              closes
                (map session_key (where_rows (timed_out idle now) (active_sessions m db)))
                idle
                now
                db
                s.id)
            (closed now)
            db.sessions)
        ≡ 0
  all_closed d none_live =
      let asked = map session_key (where_rows (timed_out idle now) (active_sessions m db)) in
      count-none m (λ s. closes asked idle now db s.id) (closed now) db.sessions
        (All-Has session_key
          (λ s. on_machine m (if closes asked idle now db s.id then closed now s else s) ≡ false)
          db.sessions
          (λ s h.
            gone asked s
              (Has-All session_key (Found session_key db.sessions) s db.sessions
                (Found-All session_key db.sessions d) h)
              (Has-All session_key (λ q. on_machine m q ≡ true → timed_out idle now q ≡ true) s
                db.sessions (past_deadline none_live) h)
              (asked_for s h)))
    where
      gone :
          (asked : List ℕ) (s : Session)
          → find_session s.id db ≡ some s
          → (on_machine m s ≡ true → timed_out idle now s ≡ true)
          → (on_machine m s ≡ true
              → timed_out idle now s ≡ true
              → any_of (λ i. i == s.id) asked ≡ true)
          → on_machine m (if closes asked idle now db s.id then closed now s else s) ≡ false
      gone asked s f late named = elim (Bool-cases (on_machine m s)) [
        | inl on ↦
            let past = late on in
            let there = named on past in
            let goes : closes asked idle now db s.id ≡ true = ground arith in
            rw goes (closed-off m now s)
        | inr off ↦ elim (Bool-cases (closes asked idle now db s.id)) [
          | inl goes ↦ rw goes (closed-off m now s)
          | inr stays ↦ rw stays off
        ]
      ]
