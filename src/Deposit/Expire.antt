-- ===== src/Deposit/Expire.antt =====
-- The timeout policy (`expireTimedOutSessions`, `expireIfTimedOut` of lib/deposit-session-service.ts).
use re_loop.Base.{
  ℕ, Bool, true, false, ◌&&◌, Option, none, some, List, [], ◌∷◌, ltb, ◌==◌, if◌then◌else◌, or_else,
  find_row, where_rows, any_of, map,
}
use re_loop.Store.{update_row}
use re_loop.Machine.{expired}
use re_loop.Reward.{sort_rows, first_row}
use re_loop.Deposit.Rows.{
  Session, Item, item_review, session_timeout, DepositDb, is_active_session, find_session,
  timed_out, undecided,
}

pub record ExpiredSession : Type 0 where
  pub session_id : ℕ
  pub user_id : ℕ
  pub held_item_ids : List ℕ

-- `[...new Set(sessionIds)].sort()`
unfoldable pub insert_id : ℕ → List ℕ → List ℕ
insert_id i [] = i ∷ []
insert_id i (j ∷ l) =
    let later = j ∷ insert_id i l in if ltb i j then i ∷ j ∷ l else if i == j then j ∷ l else later

unfoldable pub id_set : List ℕ → List ℕ
unfolding insert_id
id_set [] = []
id_set (i ∷ l) = insert_id i (id_set l)

abbrev pub must_close : ℕ → ℕ → Session → Bool
must_close idle now s = is_active_session s.status && timed_out idle now s

-- The sessions to close, with their owners.
unfoldable pub closing_sessions : ℕ → ℕ → DepositDb → List ℕ → List (ℕ × ℕ)
closing_sessions idle now db [] = []
closing_sessions idle now db (i ∷ l) =
    let rest = closing_sessions idle now db l in
    elim (find_session i db) [
      | none ↦ rest
      | some s ↦ if must_close idle now s then (i, s.user_id) ∷ rest else rest
    ]

abbrev pub of_sessions : List (ℕ × ℕ) → Item → Bool
of_sessions closing x = any_of (λ c. c.0 == x.session_id) closing

abbrev pub earlier_item : Item → Item → Bool
earlier_item a b = ltb a.id b.id

-- The undecided items of the closing sessions, in the order of their identifiers.
abbrev pub undecided_items : List (ℕ × ℕ) → DepositDb → List Item
undecided_items closing db =
    sort_rows earlier_item (where_rows (λ x. undecided x && of_sessions closing x) db.items)

abbrev pub to_review : Item → Item
to_review x = record x { status = item_review; reason = some (or_else x.reason session_timeout) }

abbrev pub find_item : ℕ → List Item → Option Item
find_item i items = find_row (λ x. x.id == i) items

-- Each item is read again and moved to review if it is still undecided; the session and the
-- identifier of each that was moved.
unfoldable pub hold_items : List Item → List Item → List (ℕ × ℕ) × List Item
hold_items [] items = ([], items)
hold_items (q ∷ l) items = elim (find_item q.id items) [
  | none ↦ hold_items l items
  | some x ↦ elim (undecided x) [
    | false ↦ hold_items l items
    | true ↦
        let (held, after) = hold_items l (update_row (λ y. y.id == q.id) to_review items) in
        ((q.session_id, q.id) ∷ held, after)
  ]
]

abbrev pub closed : ℕ → Session → Session
closed now s = record s { status = expired; completed_at = some now }

unfoldable pub close_sessions : ℕ → List (ℕ × ℕ) → List Session → List Session
close_sessions now [] sessions = sessions
close_sessions now (c ∷ l) sessions =
    close_sessions now l (update_row (λ s. s.id == c.0) (closed now) sessions)

abbrev held_of : List (ℕ × ℕ) → ℕ × ℕ → ExpiredSession
held_of held c = record {
  session_id = c.0;
  user_id = c.1;
  held_item_ids = map (λ h. h.1) (where_rows (λ h. h.0 == c.0) held);
}

-- What follows once the sessions to close are known; nothing is written when there are none.
unfoldable pub expire_closing : ℕ → List (ℕ × ℕ) → DepositDb → List ExpiredSession × DepositDb
unfolding hold_items close_sessions sort_rows
expire_closing now [] db = ([], db)
expire_closing now (c ∷ l) db =
    let (held, items) = hold_items (undecided_items (c ∷ l) db) db.items in
    (
      map (held_of held) (c ∷ l),
      record db { items = items; sessions = close_sessions now (c ∷ l) db.sessions },
    )

unfoldable pub expire_timed_out_sessions :
    List ℕ → ℕ → ℕ → DepositDb → List ExpiredSession × DepositDb
unfolding id_set closing_sessions expire_closing
expire_timed_out_sessions ids idle now db =
    expire_closing now (closing_sessions idle now db (id_set ids)) db

unfoldable pub expire_if_timed_out : ℕ → ℕ → ℕ → DepositDb → Option ExpiredSession × DepositDb
unfolding expire_timed_out_sessions
expire_if_timed_out id idle now db =
    let (closed_now, after) = expire_timed_out_sessions (id ∷ []) idle now db in
    (first_row closed_now, after)
