-- ===== src/Deposit/Handling.antt =====
-- A single machine event keeps each machine to one active session (lib/machine-events/).
use re_loop.Base.{
  none, find_row, List, Option, or_else, ℕ, ◌≡◌, refl, sym, subst, Bool, true, false, some, ◌==◌,
  arith, Bool-cases, Option-cases, inl, inr, ok, ==_iff,
}
use re_loop.Store.{Keyed, Keyed-update, Keyed-append, find_row-test}
use re_loop.Machine.{
  validate_sensor_sequence, SessionStatus, SessionAction, can_transition_session, safe_state,
}
use re_loop.Deposit.Rows.{
  item_review, other_reason, Item, ItemReason, Session, DepositDb, find_session, is_active_session,
  set_session,
}
use re_loop.Deposit.Expiry.{item_key}
use re_loop.Deposit.Events.{
  reviewable, anomaly_ordinal, flag_item, anomalous, sensor_sequence, flag_anomaly, flag_session,
  MachineEvent, chamber_opened, chamber_timeout, safe_state_entered, item_detected,
  item_accepted_point, item_rejected_event, sensor_sequence, fraud_detected, vandalism_detected,
  move_session, with_status, detect_item, detected_item, handle_event, is_terminal_session,
  transition_session, begin_item, extend_deadline,
}
use re_loop.Deposit.Exclusion.{Exclusive, Touch-Exclusive, can_transition-active}

-- A row is found again by its own identifier.
pub own_id :
    (i : ℕ) (db : DepositDb) (s : Session)
    → find_session i db ≡ some s
    → find_session s.id db ≡ some s
own_id i db s f =
    let here : s.id ≡ i = (==_iff s.id i).0 (find_row-test (λ c. c.id == i) db.sessions s f) in
    subst (λ j. find_session j db ≡ some s) (sym here) f

-- A write to the columns other than the identifier and the machine.
pub set-Exclusive :
    {mach : ℕ} (s : Session) (g : Session → Session) (db : DepositDb)
    → find_session s.id db ≡ some s
    → ((c : Session) → (g c).id ≡ c.id)
    → ((c : Session) → (g c).machine_id ≡ c.machine_id)
    → (is_active_session s.status ≡ false → is_active_session (g s).status ≡ false)
    → Exclusive mach db
    → Exclusive mach (set_session s.id g db)
set-Exclusive {mach} s g db f i m r x =
    Touch-Exclusive
      record {
        row = s;
        write = g;
        found = f;
        keeps_id = i;
        keeps_machine = m;
        no_revival = r;
        written = refl;
        later = omega arith;
        items = x.items;
      }
      x

pub active_write :
    {mach : ℕ} (s : Session) (g : Session → Session) (db : DepositDb)
    → find_session s.id db ≡ some s
    → ((c : Session) → (g c).id ≡ c.id)
    → ((c : Session) → (g c).machine_id ≡ c.machine_id)
    → is_active_session s.status ≡ true
    → Exclusive mach db
    → Exclusive mach (set_session s.id g db)
active_write {mach} s g db f i m live x =
    set-Exclusive s g db f i m (λ off. absurd (ground arith)) x

move-Exclusive :
    {mach : ℕ} (b : Bool) (a : SessionAction) (s : Session) (db db' : DepositDb)
    → find_session s.id db ≡ some s
    → move_session b a s db ≡ ok db'
    → Exclusive mach db
    → Exclusive mach db'
unfolding transition_session
move-Exclusive {mach} false a s db db' f e x =
    let same : db ≡ db' = cc in subst (Exclusive mach) same x
move-Exclusive {mach} true a s db db' f e x =
    elim (Option-cases (can_transition_session s.status a)) [
      | inl refused ↦ absurd (ground arith)
      | inr (t, moved) ↦
          let same : set_session s.id (with_status t) db ≡ db' = ground arith in
          subst (Exclusive mach) same (
            active_write s (with_status t) db f (λ c. refl) (λ c. refl)
              (can_transition-active s.status a t moved) x)
    ]

begin_item-off :
    (idle now : ℕ) (s : Session)
    → is_active_session s.status ≡ false
    → is_active_session (begin_item idle now s).status ≡ false
unfolding begin_item is_active_session
begin_item-off idle now s off = ground arith

detected-id : (unknown : Bool) (s : Session) (n : ℕ) → (detected_item unknown s n).id ≡ n
unfolding detected_item
detected-id unknown s n = refl

detect-Exclusive :
    {mach : ℕ} (unknown : Bool) (idle now : ℕ) (s : Session) (db : DepositDb)
    → find_session s.id db ≡ some s
    → Exclusive mach db
    → Exclusive mach (detect_item unknown idle now s db)
unfolding detect_item
detect-Exclusive {mach} unknown idle now s db f x =
    Touch-Exclusive
      record {
        row = s;
        write = λ r. record r {
          timeout_at = (extend_deadline idle now s).timeout_at;
          status = (begin_item idle now s).status;
        };
        found = f;
        keeps_id = λ c. refl;
        keeps_machine = λ c. refl;
        no_revival = begin_item-off idle now s;
        written = refl;
        later = omega arith;
        items =
            Keyed-append item_key db.next_id db.items (detected_item unknown s db.next_id) x.items
              (detected-id unknown s db.next_id);
      }
      x

not_over : (s : SessionStatus) → is_terminal_session s ≡ false → is_active_session s ≡ true
unfolding is_active_session
not_over s h = ground arith

flagged-Exclusive :
    {mach : ℕ} (s : Session) (db : DepositDb)
    → find_session s.id db ≡ some s
    → Exclusive mach db
    → Exclusive mach (flag_session s db)
flagged-Exclusive {mach} s db f x = elim (Bool-cases (is_terminal_session s.status)) [
  | inl over ↦ rw over x
  | inr live ↦ rw live (
      active_write s (λ r. record r { status = anomalous s.status }) db f (λ c. refl) (λ c. refl)
        (not_over s.status live) x)
]

-- A flagged item keeps its identifier.
flag_item-Keyed :
    (reason : ItemReason) (i n : ℕ) (items : List Item)
    → Keyed item_key n items
    → Keyed item_key n (flag_item reason i items)
flag_item-Keyed reason i n items k = elim (Option-cases (find_row (λ x. x.id == i) items)) [
  | inl absent ↦ rw (absent, flag_item) k
  | inr (x, there) ↦ elim (Bool-cases (reviewable x)) [
    | inr decided ↦ rw (there, decided, flag_item) k
    | inl undecided ↦
        rw (there, undecided, flag_item)
          (Keyed-update item_key n (λ y. y.id == i)
            (λ y. record y { status = item_review; reason = some (or_else x.reason reason) }) items
            (λ c. refl) k)
  ]
]

flag-Exclusive :
    {mach : ℕ} (reason : ItemReason) (item : Option ℕ) (s : Session) (db : DepositDb)
    → find_session s.id db ≡ some s
    → Exclusive mach db
    → Exclusive mach (flag_anomaly reason item s db)
unfolding flag_anomaly
flag-Exclusive {mach} reason none s db f x = flagged-Exclusive s db f x
flag-Exclusive {mach} reason (some i) s db f x =
    let y = flagged-Exclusive s db f x in
    record { sessions = y.sessions; items = flag_item-Keyed reason i _ _ y.items; one = y.one }

pub handle-Exclusive :
    {mach : ℕ} (event : MachineEvent) (idle now : ℕ) (s : Session) (db db' : DepositDb)
    → find_session s.id db ≡ some s
    → handle_event event idle now s db ≡ ok db'
    → Exclusive mach db
    → Exclusive mach db'
unfolding handle_event
handle-Exclusive {mach} chamber_opened idle now s db db' f e x = move-Exclusive _ _ s db db' f e x
handle-Exclusive {mach} chamber_timeout idle now s db db' f e x = move-Exclusive _ _ s db db' f e x
handle-Exclusive {mach} item_rejected_event idle now s db db' f e x =
    move-Exclusive _ _ s db db' f e x
handle-Exclusive {mach} (item_accepted_point review) idle now s db db' f e x =
    move-Exclusive _ _ s db db' f e x
handle-Exclusive {mach} (item_detected unknown) idle now s db db' f e x =
    let same : detect_item unknown idle now s db ≡ db' = cc in
    subst (Exclusive mach) same (detect-Exclusive unknown idle now s db f x)
handle-Exclusive {mach} (sensor_sequence i log) idle now s db db' f e x =
    elim (Option-cases (validate_sensor_sequence (some log))) [
      | inl clean ↦ let same : db ≡ db' = ground arith in subst (Exclusive mach) same x
      | inr (a, seen) ↦
          let same : flag_anomaly (other_reason (anomaly_ordinal a)) (some i) s db ≡ db' =
            ground arith in
          subst (Exclusive mach) same
            (flag-Exclusive (other_reason (anomaly_ordinal a)) (some i) s db f x)
    ]
handle-Exclusive {mach} fraud_detected idle now s db db' f e x =
    let same : flag_anomaly (other_reason 3) none s db ≡ db' = cc in
    subst (Exclusive mach) same (flag-Exclusive (other_reason 3) none s db f x)
handle-Exclusive {mach} vandalism_detected idle now s db db' f e x =
    let same : flag_anomaly (other_reason 3) none s db ≡ db' = cc in
    subst (Exclusive mach) same (flag-Exclusive (other_reason 3) none s db f x)
handle-Exclusive {mach} safe_state_entered idle now s db db' f e x =
    elim (Bool-cases (is_terminal_session s.status)) [
      | inl over ↦ let same : db ≡ db' = ground arith in subst (Exclusive mach) same x
      | inr live ↦
          let g = with_status (or_else (can_transition_session s.status safe_state) s.status) in
          let same : set_session s.id g db ≡ db' = ground arith in
          subst (Exclusive mach) same
            (active_write s g db f (λ c. refl) (λ c. refl) (not_over s.status live) x)
    ]
