-- ===== src/Deposit/Resting.antt =====
-- Sessions that wait for a reviewer or have ended, under machine events
-- (lib/machine-events/side-effects.ts, lib/machine-events/fraud.ts).
use re_loop.Base.{
  none, find_row, List, Option, or_else, ℕ, ◌≡◌, refl, sym, ap, ◌∙◌, subst, Bool, true, false, some,
  ◌==◌, arith, Bool-cases, Option-cases, inl, inr, ok, ==_iff, [], ◌∷◌, if◌then◌else◌,
}
use re_loop.Store.{update_row}
use re_loop.Machine.{
  validate_sensor_sequence, SessionStatus, SessionAction, can_transition_session, safe_state,
  in_review, completed, cancelled, expired,
}
use re_loop.Deposit.Rows.{other_reason, ItemReason, Session, DepositDb, find_session, set_session}
use re_loop.Deposit.Events.{
  anomaly_ordinal, anomalous, flag_anomaly, MachineEvent, chamber_opened, chamber_timeout,
  safe_state_entered, item_detected, item_accepted_point, item_rejected_event, sensor_sequence,
  fraud_detected, vandalism_detected, move_session, with_status, detect_item, handle_event,
  is_terminal_session, transition_session, begin_item, extend_deadline, session_side_effects,
}
use re_loop.Deposit.Handling.{own_id}

-- Under review, completed, cancelled or expired.
abbrev pub rests : SessionStatus → Bool
rests in_review = true
rests completed = true
rests cancelled = true
rests expired = true
rests _ = false

-- The session is there, with the status of `s`.
abbrev pub Same : ℕ → Session → DepositDb → Type 0
Same k s db = (t : Session) × (find_session k db ≡ some t) × (t.status ≡ s.status)

latched : (x : SessionStatus) → rests x ≡ true → or_else (can_transition_session x safe_state) x ≡ x
unfolding can_transition_session
latched x h = ground arith

find-update_session :
    (i k : ℕ) (g : Session → Session) (l : List Session) (a : Session)
    → ((x : Session) → (g x).id ≡ x.id)
    → find_row (λ x. x.id == k) l ≡ some a
    → find_row (λ x. x.id == k) (update_row (λ x. x.id == i) g l) ≡ some (if k == i then g a else a)
find-update_session i k g [] a keep there = absurd (ground arith)
find-update_session i k g (x ∷ l) a keep there =
    ground (arith, keep x, find-update_session i k g l a keep)

set-Same :
    (i k : ℕ) (g : Session → Session) (s : Session) (db : DepositDb)
    → ((x : Session) → (g x).id ≡ x.id)
    → find_session k db ≡ some s
    → (i ≡ k → (g s).status ≡ s.status)
    → Same k s (set_session i g db)
set-Same i k g s db keep there still =
    let found = find-update_session i k g db.sessions s keep there in
    elim (Bool-cases (k == i)) [
      | inl own ↦ (g s, rw own at found, still (sym ((==_iff k i).0 own)))
      | inr other ↦ (s, rw other at found, refl)
    ]

-- Two reads of one row.
one_row :
    (k : ℕ) (s r : Session) (db : DepositDb)
    → find_session k db ≡ some s
    → find_session r.id db ≡ some r
    → r.id ≡ k
    → r ≡ s
one_row k s r db there own same = injected (sym own ∙ (ap (λ j. find_session j db) same ∙ there))
  where
    injected : {x y : Session} → some x ≡ some y → x ≡ y
    injected q = cc

module _ (k : ℕ) (s r : Session) (db : DepositDb) (there : find_session k db ≡ some s)
    (own : find_session r.id db ≡ some r) (resting : rests s.status ≡ true) where
  at_rest : r.id ≡ k → (r ≡ s) × (rests r.status ≡ true)
  at_rest same = let q = one_row k s r db there own same in (q, rw q resting)

  status-Same :
      (t : SessionStatus)
      → (rests r.status ≡ true → t ≡ r.status)
      → Same k s (set_session r.id (with_status t) db)
  status-Same t still =
      set-Same r.id k (with_status t) s db (λ x. refl) there
        (λ same. let (q, quiet) = at_rest same in still quiet ∙ ap (λ (x : Session). x.status) q)

  move-Same :
      (b : Bool) (a : SessionAction) {db' : DepositDb}
      → (rests r.status ≡ true → b ≡ false)
      → move_session b a r db ≡ ok db'
      → Same k s db'
  unfolding transition_session
  move-Same false a {db'} quiet e =
      let same : db ≡ db' = cc in subst (Same k s) same (s, there, refl)
  move-Same true a {db'} quiet e = elim (Option-cases (can_transition_session r.status a)) [
    | inl refused ↦ absurd (ground arith)
    | inr (t, moves) ↦
        let same : set_session r.id (with_status t) db ≡ db' = ground arith in
        subst (Same k s) same (status-Same t (λ h. absurd (ground (arith, quiet h))))
  ]

  flag-Same : (reason : ItemReason) (item : Option ℕ) → Same k s (flag_anomaly reason item r db)
  unfolding flag_anomaly
  flag-Same reason item = elim (Bool-cases (is_terminal_session r.status)) [
    | inl over ↦ rw over (s, there, refl)
    | inr live ↦ rw live (status-Same (anomalous r.status) (λ h. ground arith))
  ]

  detect-Same : (unknown : Bool) (idle now : ℕ) → Same k s (detect_item unknown idle now r db)
  unfolding detect_item begin_item
  detect-Same unknown idle now =
      set-Same r.id k
        (λ x. record x {
          timeout_at = (extend_deadline idle now r).timeout_at;
          status = (begin_item idle now r).status;
        })
        s db (λ x. refl) there
        (λ same. let (q, quiet) = at_rest same in still quiet ∙ ap (λ (x : Session). x.status) q)
    where
      still : rests r.status ≡ true → (begin_item idle now r).status ≡ r.status
      still h = ground arith

  handle-Same :
      (event : MachineEvent) (idle now : ℕ) {db' : DepositDb}
      → handle_event event idle now r db ≡ ok db'
      → Same k s db'
  unfolding handle_event
  handle-Same chamber_opened idle now e = move-Same _ _ (λ h. ground arith) e
  handle-Same chamber_timeout idle now e = move-Same _ _ (λ h. ground arith) e
  handle-Same item_rejected_event idle now e = move-Same _ _ (λ h. ground arith) e
  handle-Same (item_accepted_point review) idle now e = move-Same _ _ (λ h. ground arith) e
  handle-Same (item_detected unknown) idle now {db'} e =
      let same : detect_item unknown idle now r db ≡ db' = cc in
      subst (Same k s) same (detect-Same unknown idle now)
  handle-Same (sensor_sequence i log) idle now {db'} e =
      elim (Option-cases (validate_sensor_sequence (some log))) [
        | inl clean ↦ let same : db ≡ db' = ground arith in subst (Same k s) same (s, there, refl)
        | inr (a, seen) ↦
            let same : flag_anomaly (other_reason (anomaly_ordinal a)) (some i) r db ≡ db' =
              ground arith in
            subst (Same k s) same (flag-Same (other_reason (anomaly_ordinal a)) (some i))
      ]
  handle-Same fraud_detected idle now {db'} e =
      let same : flag_anomaly (other_reason 3) none r db ≡ db' = cc in
      subst (Same k s) same (flag-Same (other_reason 3) none)
  handle-Same vandalism_detected idle now {db'} e =
      let same : flag_anomaly (other_reason 3) none r db ≡ db' = cc in
      subst (Same k s) same (flag-Same (other_reason 3) none)
  handle-Same safe_state_entered idle now {db'} e =
      elim (Bool-cases (is_terminal_session r.status)) [
        | inl over ↦ let same : db ≡ db' = ground arith in subst (Same k s) same (s, there, refl)
        | inr live ↦
            let t = or_else (can_transition_session r.status safe_state) r.status in
            let same : set_session r.id (with_status t) db ≡ db' = ground arith in
            subst (Same k s) same (status-Same t (latched r.status))
      ]

-- Machine events that arrive one after the other, for any sessions at any time.
pub data Arrivals (first : DepositDb) : DepositDb → Type 0 where
  start : Arrivals first first
  arrives :
      (event : MachineEvent) (id idle now : ℕ) {db db' : DepositDb}
      → Arrivals first db
      → session_side_effects event id idle now db ≡ ok db'
      → Arrivals first db'

event-Same :
    (k : ℕ) (s : Session) (event : MachineEvent) (id idle now : ℕ) (db : DepositDb)
    {db' : DepositDb}
    → find_session k db ≡ some s
    → rests s.status ≡ true
    → session_side_effects event id idle now db ≡ ok db'
    → Same k s db'
unfolding session_side_effects
event-Same k s event id idle now db {db'} there resting e =
    elim (Option-cases (find_session id db)) [
      | inl absent ↦ let same : db ≡ db' = ground arith in subst (Same k s) same (s, there, refl)
      | inr (r, found) ↦
          let handled : handle_event event idle now r db ≡ ok db' = ground arith in
          handle-Same k s r db there (own_id id db r found) resting event idle now handled
    ]

-- No machine event ends a review, and none revives a session that has ended: through any sequence of
-- events, for whatever sessions, a session that is under review, completed, cancelled or expired keeps
-- its status. The close watermark, which applies the timeout policy, is not one of these events.
pub events_keep_status :
    {first db : DepositDb} (k : ℕ) (s : Session)
    → find_session k first ≡ some s
    → rests s.status ≡ true
    → Arrivals first db
    → (t : Session) × (find_session k db ≡ some t) × (t.status ≡ s.status)
events_keep_status k s there resting start = (s, there, refl)
events_keep_status k s there resting (arrives event id idle now {db = db} before e) =
    let (t, found, same) = events_keep_status k s there resting before in
    let (u, after, still) = event-Same k t event id idle now db found (ap rests same ∙ resting) e in
    (u, after, still ∙ same)
