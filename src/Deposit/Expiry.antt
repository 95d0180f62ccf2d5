-- ===== src/Deposit/Expiry.antt =====
-- What the timeout policy writes, as one pass over the tables (`expireTimedOutSessions` of
-- lib/deposit-session-service.ts).
use re_loop.Base.{
  ℕ, ◌≡◌, refl, sym, ◌∙◌, Bool, true, false, ◌&&◌, ◌||◌, none, some, List, [], ◌∷◌, ◌==◌, arith,
  Bool-cases, Option-cases, inl, inr, update_rows, any_of,
}
use re_loop.Store.{Distinct, Found, Found-All}
use re_loop.Reward.Sorting.{Has}
use re_loop.Deposit.Rows.{Session, Item, DepositDb, find_session, undecided}
use re_loop.Deposit.Expire.{
  insert_id, id_set, must_close, closing_sessions, of_sessions, undecided_items, to_review,
  find_item, hold_items, closed, close_sessions, expire_closing, expire_timed_out_sessions,
  earlier_item,
}
use re_loop.Deposit.Tables.{
  update_row-update_rows, Distinct-update_rows, update_rows-twice, update_rows-cong,
  update_rows-none, All-Has, Has-All, named-query,
}

abbrev pub session_key : Session → ℕ
session_key s = s.id

abbrev pub item_key : Item → ℕ
item_key x = x.id

-- The session with this identifier is asked for, is active, and its deadline has passed.
abbrev pub closes : List ℕ → ℕ → ℕ → DepositDb → ℕ → Bool
closes ids idle now db k =
    any_of (λ i. i == k) ids
    && elim (find_session k db) [ none ↦ false | some s ↦ must_close idle now s ]

insert-any :
    (k i : ℕ) (l : List ℕ)
    → any_of (λ j. j == k) (insert_id i l) ≡ ((i == k) || any_of (λ j. j == k) l)
unfolding insert_id
insert-any k i [] = refl
insert-any k i (j ∷ l) = ground (arith, insert-any k i l)

id_set-any : (k : ℕ) (l : List ℕ) → any_of (λ j. j == k) (id_set l) ≡ any_of (λ j. j == k) l
unfolding id_set
id_set-any k [] = refl
id_set-any k (i ∷ l) = ground (arith, insert-any k i (id_set l), id_set-any k l)

closing_sessions-any :
    (idle now : ℕ) (db : DepositDb) (k : ℕ) (l : List ℕ)
    → any_of (λ c. c.0 == k) (closing_sessions idle now db l) ≡ closes l idle now db k
unfolding closing_sessions
closing_sessions-any idle now db k [] = refl
closing_sessions-any idle now db k (i ∷ l) = elim (Bool-cases (i == k)) [
  | inl e ↦
      let same : i ≡ k = ground arith in
      rw same (elim (Option-cases (find_session k db)) [
        | inl f ↦ ground (arith, closing_sessions-any idle now db k l, f)
        | inr (s, f) ↦ ground (arith, closing_sessions-any idle now db k l, f)
      ])
  | inr e ↦ elim (Option-cases (find_session i db)) [
    | inl f ↦ ground (arith, closing_sessions-any idle now db k l, f)
    | inr (s, f) ↦ ground (arith, closing_sessions-any idle now db k l, f)
  ]
]

asked-any :
    (ids : List ℕ) (idle now : ℕ) (db : DepositDb) (k : ℕ)
    → any_of (λ c. c.0 == k) (closing_sessions idle now db (id_set ids)) ≡ closes ids idle now db k
asked-any ids idle now db k =
    ground (arith, closing_sessions-any idle now db k (id_set ids), id_set-any k ids)

close_sessions_lem :
    (now : ℕ) (l : List (ℕ × ℕ)) (sessions : List Session)
    → Distinct session_key sessions
    → close_sessions now l sessions
      ≡ update_rows (λ s. any_of (λ c. c.0 == s.id) l) (closed now) sessions
unfolding close_sessions
close_sessions_lem now [] sessions d = sym (
    update_rows-none session_key (λ _. false) (closed now) sessions
      (All-Has session_key (λ _. ◌≡◌ {A = Bool} false false) sessions (λ x h. refl)))
close_sessions_lem now (c ∷ l) sessions d =
    rw (update_row-update_rows session_key c.0 (closed now) sessions d) (
      close_sessions_lem now l _ (Distinct-update_rows session_key _ _ sessions (λ s. refl) d)
      ∙ (update_rows-twice session_key (λ s. s.id == c.0) (λ s. any_of (λ e. e.0 == s.id) l)
            (closed now) sessions (λ s. refl)
          ∙ update_rows-cong session_key (λ s. (s.id == c.0) || any_of (λ e. e.0 == s.id) l)
              (λ s. any_of (λ e. e.0 == s.id) (c ∷ l)) (closed now) sessions
              (All-Has session_key
                (λ s.
                  ((s.id == c.0) || any_of (λ e. e.0 == s.id) l)
                  ≡ any_of (λ e. e.0 == s.id) (c ∷ l))
                sessions (λ s h. ground arith))))

-- The row that is found is the row of the table.
found_is :
    (i : ℕ) (items : List Item) (x y : Item)
    → Distinct item_key items
    → find_item i items ≡ some x
    → Has y items
    → (y.id == i) ≡ true
    → y ≡ x
found_is i items x y d f h e =
    let found : find_item y.id items ≡ some y =
      Has-All item_key (Found item_key items) y items (Found-All item_key items d) h in
    let same : y.id ≡ i = ground arith in some_inj (sym found ∙ (rw same f))
  where
    some_inj : {a b : Item} → some a ≡ some b → a ≡ b
    some_inj k = cc

absent_is :
    (i : ℕ) (items : List Item) (y : Item)
    → Distinct item_key items
    → find_item i items ≡ none
    → Has y items
    → (y.id == i) ≡ false
absent_is i items y d f h = elim (Bool-cases (y.id == i)) [
  | inr e ↦ e
  | inl e ↦
      let found : find_item y.id items ≡ some y =
        Has-All item_key (Found item_key items) y items (Found-All item_key items d) h in
      let same : y.id ≡ i = ground arith in absurd (clash (sym found ∙ (rw same f)))
]
  where
    clash : {a : Item} → some a ≡ none → ⊥
    clash k = cc

abbrev named : List Item → Item → Bool
named l x = undecided x && any_of (λ q. q.id == x.id) l

hold_items_lem :
    (l items : List Item)
    → Distinct item_key items
    → (hold_items l items).1 ≡ update_rows (named l) to_review items
unfolding hold_items
hold_items_lem [] items d = sym (
    update_rows-none item_key (named []) to_review items
      (All-Has item_key (λ x. named [] x ≡ false) items (λ x h. ground arith)))
hold_items_lem (q ∷ l) items d = elim (Option-cases (find_item q.id items)) [
  | inl f ↦
      rw (f, hold_items)
        (hold_items_lem l items d
          ∙ update_rows-cong item_key (named l) (named (q ∷ l)) to_review items (
              All-Has item_key (λ y. named l y ≡ named (q ∷ l) y) items
                (λ y h. let miss = absent_is q.id items y d f h in ground arith)))
  | inr (x, f) ↦ elim (Bool-cases (undecided x)) [
    | inr e ↦
        rw (f, hold_items)
          (rw e (
            hold_items_lem l items d
            ∙ update_rows-cong item_key (named l) (named (q ∷ l)) to_review items (
                All-Has item_key (λ y. named l y ≡ named (q ∷ l) y) items
                  (λ y h. decided_row q.id items x y l d f h e))))
    | inl e ↦
        rw (f, hold_items)
          (rw e (
            rw (update_row-update_rows item_key q.id to_review items d) (
              hold_items_lem l _ (Distinct-update_rows item_key _ _ items (λ c. refl) d)
              ∙ (update_rows-twice item_key (λ y. y.id == q.id) (named l) to_review items
                    (λ c. refl)
                  ∙ update_rows-cong item_key (λ y. (y.id == q.id) || named l y) (named (q ∷ l))
                      to_review items
                      (All-Has item_key (λ y. ((y.id == q.id) || named l y) ≡ named (q ∷ l) y) items
                        (λ y h. pending_row q.id items x y l d f h e))))))
  ]
]
  where
    decided_row :
        (i : ℕ) (items : List Item) (x y : Item) (l : List Item)
        → Distinct item_key items
        → find_item i items ≡ some x
        → Has y items
        → undecided x ≡ false
        → named l y ≡ (undecided y && ((i == y.id) || any_of (λ r. r.id == y.id) l))
    decided_row i items x y l d f h e = elim (Bool-cases (y.id == i)) [
      | inr other ↦ ground arith
      | inl here ↦ rw (found_is i items x y d f h here) (rw e refl)
    ]

    pending_row :
        (i : ℕ) (items : List Item) (x y : Item) (l : List Item)
        → Distinct item_key items
        → find_item i items ≡ some x
        → Has y items
        → undecided x ≡ true
        → ((y.id == i) || named l y)
          ≡ (undecided y && ((i == y.id) || any_of (λ r. r.id == y.id) l))
    pending_row i items x y l d f h e = elim (Bool-cases (y.id == i)) [
      | inr other ↦ ground arith
      | inl here ↦
          let pending : undecided y ≡ true = rw (found_is i items x y d f h here) e in ground arith
    ]

-- The tables after the sessions of `cl` are closed, where `test` tells who is in `cl`.
closing_writes :
    (now : ℕ) (cl : List (ℕ × ℕ)) (db : DepositDb) (test : ℕ → Bool)
    → Distinct session_key db.sessions
    → Distinct item_key db.items
    → ((k : ℕ) → any_of (λ c. c.0 == k) cl ≡ test k)
    → (expire_closing now cl db).1 ≡ record db {
      sessions = update_rows (λ s. test s.id) (closed now) db.sessions;
      items = update_rows (λ x. undecided x && test x.session_id) to_review db.items;
    }
unfolding expire_closing
closing_writes now [] db test d e same =
    let p =
      update_rows-none session_key (λ s. test s.id) (closed now) db.sessions
        (All-Has session_key (λ s. test s.id ≡ false) db.sessions (λ s h. sym (same s.id))) in
    let q =
      update_rows-none item_key (λ x. undecided x && test x.session_id) to_review db.items
        (All-Has item_key (λ x. (undecided x && test x.session_id) ≡ false) db.items
          (λ x h. ground (arith, same x.session_id))) in
    sym (λ i. record db { sessions = p i; items = q i })
closing_writes now (c ∷ l) db test d e same =
    let cl = c ∷ l in
    let p =
      close_sessions_lem now cl db.sessions d
      ∙ update_rows-cong session_key (λ s. any_of (λ c. c.0 == s.id) cl) (λ s. test s.id)
          (closed now) db.sessions
          (All-Has session_key (λ s. any_of (λ c. c.0 == s.id) cl ≡ test s.id) db.sessions
            (λ s h. same s.id)) in
    let q =
      hold_items_lem (undecided_items cl db) db.items e
      ∙ update_rows-cong item_key (named (undecided_items cl db))
          (λ x. undecided x && test x.session_id) to_review db.items
          (All-Has item_key
            (λ x. named (undecided_items cl db) x ≡ (undecided x && test x.session_id)) db.items
            (λ x h. ground (
              arith,
              same x.session_id,
              named-query item_key earlier_item (λ y. undecided y && of_sessions cl y) db.items x e
                  h,
            ))) in
    λ i. record db { sessions = p i; items = q i }

-- The writes of the timeout policy in one pass, in the terms of its helpers.
pub expire_writes :
    (ids : List ℕ) (idle now : ℕ) (db : DepositDb)
    → Distinct session_key db.sessions
    → Distinct item_key db.items
    → (expire_timed_out_sessions ids idle now db).1 ≡ record db {
      sessions = update_rows (λ s. closes ids idle now db s.id) (closed now) db.sessions;
      items =
          update_rows (λ x. undecided x && closes ids idle now db x.session_id) to_review db.items;
    }
unfolding expire_timed_out_sessions
expire_writes ids idle now db d e =
    closing_writes now (closing_sessions idle now db (id_set ids)) db (closes ids idle now db) d e
      (asked-any ids idle now db)
