-- ===== src/Wallet/Effects.antt =====
-- What the operations of lib/wallet-service.ts do to the balance of a user.
use re_loop.Base.{
  ℕ, ◌≡◌, refl, Bool, true, false, ◌&&◌, some, List, [], ◌∷◌, ◌++◌, ◌==◌, arith, Bool-cases,
  Option-cases, inl, inr, find_row, ok, ◌∙◌, ℤ, neg, pos, ◌-ℤ◌, ◌+ℤ◌, ◌≤ℤ◌, int_laws, parts_of,
}
use re_loop.Store.{
  EntryType, Text, text_eq, text_eq_refl, LedgerStatus, pending, redeemed, reversed, redeem,
  update_row, find-append_new, find_row-All, find_row-test,
}
use re_loop.Wallet.Rows.{LedgerRow, Redemption, WalletDb}
use re_loop.Wallet.Balance.{get_wallet_balance, held_by_open_debit_cases, rows_of_user}
use re_loop.Wallet.Reserve.{
  is_live_reserve, find_redemption, with_status, new_reserve, RedeemOutcome, success_outcome,
  failed_outcome, target_of,
}
use re_loop.Wallet.Request.{
  CurrentUser, RequestInput, request_redemption, find_request, same_request, new_redemption,
}
use re_loop.Wallet.Transition.{
  RedemptionAction, approve, process, succeed, fail, cancel, TransitionInput, transitions,
  transition_redemption, terminal_statuses, includes_redemption, lock_redemption_for_change,
  transition_new, moved_to,
}
use re_loop.Wallet.Grouping.{figure, in_available, in_reserved, Weight, weigh, balance_of_rows}
use re_loop.Wallet.Backing.{Backed, AllBacked, where-append, find-where}
use re_loop.Wallet.Moves.{pending_row, found_reserve}
use re_loop.Wallet.Transits.{ledger_after, transition-parts, money-rows}
use re_loop.Wallet.Requests.{request_redemption-new, reserved_with, request_new-parts}

pub figure-append :
    (w : EntryType → LedgerStatus → Weight) (l r : List LedgerRow)
    → figure w (l ++ r) ≡ figure w l +ℤ figure w r
figure-append w [] r = omega int_laws
figure-append w (e ∷ l) r = rw (figure-append w l r) (omega int_laws)

pub own_rows :
    (u : ℕ) (l : List LedgerRow) (e : LedgerRow)
    → e.user_id ≡ u
    → rows_of_user u (l ++ e ∷ []) ≡ rows_of_user u l ++ e ∷ []
own_rows u l e own =
    let one : rows_of_user u (e ∷ []) ≡ e ∷ [] = ground arith in
    where-append (λ x. x.user_id == u) l (e ∷ []) ∙ rw one refl

figure-reserve :
    (w : EntryType → LedgerStatus → Weight) (u n i j : ℕ) (l : List LedgerRow)
    → figure w (rows_of_user u (l ++ new_reserve u n i j ∷ []))
      ≡ figure w (rows_of_user u l) +ℤ weigh (w redeem pending) (neg (pos n))
figure-reserve w u n i j l =
    rw (own_rows u l (new_reserve u n i j) refl)
      (figure-append w (rows_of_user u l) (new_reserve u n i j ∷ []) ∙ omega int_laws)

-- A new request fits into what is available and not held by a debit case; it takes its amount from
-- what is available and adds it to what is reserved.
pub request_reserves :
    (encrypt : Text → Text) (actor : CurrentUser) (input : RequestInput) (db : WalletDb)
    {r : Redemption} {db' : WalletDb}
    → AllBacked db
    → request_redemption encrypt actor input db ≡ ok ((r, false), db')
    → let before = get_wallet_balance actor.id db in
      let after = get_wallet_balance actor.id db' in
      (pos input.amount ≤ℤ before.available -ℤ pos (held_by_open_debit_cases actor.id db))
      × (after.available ≡ before.available -ℤ pos input.amount)
      × (after.reserved ≡ before.reserved +ℤ pos input.amount)
unfolding request_redemption
request_reserves encrypt actor input db {r} {db'} a e =
    elim (Option-cases (find_request actor.id input.idempotency_key db)) [
      | inr (old, there) ↦ absurd (ground arith)
      | inl new ↦
          let e1 = request_redemption-new encrypt actor input db ((r, false), db') new e in
          let (account, same, _, fits) =
            request_new-parts encrypt actor.id input db {x = (r, false)} a e1 in
          let after = reserved_with encrypt actor.id input account db in
          let before_rows = balance_of_rows actor.id db in
          let after_rows = balance_of_rows actor.id after in
          (
            fits,
            rw same (
                after_rows.0
                ∙ figure-reserve in_available actor.id input.amount db.next_id _ db.ledger
                ∙ rw (before_rows.0) (omega int_laws)),
            rw same (
                after_rows.3
                ∙ figure-reserve in_reserved actor.id input.amount db.next_id _ db.ledger
                ∙ rw (before_rows.3) (omega int_laws)),
          )
    ]

replayed_request :
    (encrypt : Text → Text) (actor : CurrentUser) (input : RequestInput) (db after : WalletDb)
    (r old : Redemption) (x : Redemption × Bool) (db' : WalletDb)
    → request_redemption encrypt actor input db ≡ ok (x, db')
    → find_request actor.id input.idempotency_key after ≡ some old
    → same_request old input ≡ true
    → request_redemption encrypt actor input after ≡ ok ((old, true), after)
unfolding request_redemption
replayed_request encrypt actor input db after r old x db' e there same = ground arith

-- The same request under the same key is answered by the first one and reserves nothing again.
pub request_again_free :
    (encrypt : Text → Text) (actor : CurrentUser) (input : RequestInput) (db : WalletDb)
    {r : Redemption} {db' : WalletDb}
    → AllBacked db
    → request_redemption encrypt actor input db ≡ ok ((r, false), db')
    → request_redemption encrypt actor input db' ≡ ok ((r, true), db')
unfolding request_redemption
request_again_free encrypt actor input db {r} {db'} a e =
    elim (Option-cases (find_request actor.id input.idempotency_key db)) [
      | inr (old, there) ↦ absurd (ground arith)
      | inl new ↦
          let e1 = request_redemption-new encrypt actor input db ((r, false), db') new e in
          let (account, same, row, _) =
            request_new-parts encrypt actor.id input db {x = (r, false)} a e1 in
          let added = new_redemption encrypt actor.id input account db.next_id in
          let own : ((added.user_id == actor.id)
                && text_eq added.idempotency_key input.idempotency_key)
              ≡ true =
            ground (arith, text_eq_refl input.idempotency_key) in
          let there : find_request actor.id input.idempotency_key db' ≡ some r =
            rw (same, row) (find-append_new _ db.redemptions added new own) in
          let alike : same_request r input ≡ true = rw row (ground arith) in
          replayed_request encrypt actor input db db' r r _ db' e there alike
    ]

-- A transition of a request that is over is refused, or repeats the recorded outcome and leaves the
-- tables as they are.
pub settled_transition :
    (encrypt : Text → Text) (actor : CurrentUser) (i : ℕ) (input : TransitionInput) (db : WalletDb)
    (r : Redemption) {again : Bool} {db' : WalletDb}
    → find_redemption i db ≡ some r
    → includes_redemption terminal_statuses r.status ≡ true
    → transition_redemption encrypt actor i input db ≡ ok (again, db')
    → (again ≡ true) × (db' ≡ db) × ((transitions input.action).target ≡ r.status)
unfolding transition_redemption transition_new lock_redemption_for_change transitions
settled_transition encrypt actor i input db r found over e = ground arith

figure-settle :
    (w : EntryType → LedgerStatus → Weight) (u : ℕ) (s : LedgerStatus) (p : LedgerRow → Bool)
    (l : List LedgerRow) (e : LedgerRow)
    → find_row p l ≡ some e
    → e.user_id ≡ u
    → figure w (rows_of_user u (update_row p (with_status s) l))
        +ℤ weigh (w e.entry_type e.status) e.amount
      ≡ figure w (rows_of_user u l) +ℤ weigh (w e.entry_type s) e.amount
figure-settle w u s p [] e found own = absurd (ground arith)
figure-settle w u s p (x ∷ l) e found own = elim (Bool-cases (p x)) [
  | inl here ↦
      let same : e ≡ x = ground arith in
      let mine : (x.user_id == u) ≡ true = ground arith in rw (here, same, mine) (omega int_laws)
  | inr there ↦
      let later : find_row p l ≡ some e = ground arith in
      let rest = parts_of _ _ (figure-settle w u s p l e later own) in
      elim (Bool-cases (x.user_id == u)) [
        | inl mine ↦ rw (there, mine) (omega int_laws)
        | inr other ↦ rw (there, other) (figure-settle w u s p l e later own)
      ]
]

-- What a transition gives back to the user.
abbrev pub returned : RedemptionAction → ℕ → ℤ
returned fail amount = pos amount
returned cancel amount = pos amount
returned _ amount = pos 0

settled_balance :
    (u amount : ℕ) (o : RedeemOutcome) (p : LedgerRow → Bool) (l : List LedgerRow) (e : LedgerRow)
    → find_row p l ≡ some e
    → e.user_id ≡ u
    → e.entry_type ≡ redeem
    → e.status ≡ pending
    → e.amount ≡ neg (pos amount)
    → figure in_available (rows_of_user u (update_row p (with_status (target_of o)) l))
      ≡ figure in_available (rows_of_user u l)
        +ℤ (elim o [ success_outcome ↦ pos 0 | failed_outcome ↦ pos amount ])
settled_balance u amount success_outcome p l e found own kind waiting same =
    let moved =
      rw (kind, waiting, same) at (figure-settle in_available u redeemed p l e found own) in
    let parts = parts_of _ _ moved in omega int_laws
settled_balance u amount failed_outcome p l e found own kind waiting same =
    let moved =
      rw (kind, waiting, same) at (figure-settle in_available u reversed p l e found own) in
    let parts = parts_of _ _ moved in omega int_laws

moved_balance :
    (action : RedemptionAction) (u amount : ℕ) (p : LedgerRow → Bool) (l : List LedgerRow)
    (e : LedgerRow)
    → find_row p l ≡ some e
    → e.user_id ≡ u
    → e.entry_type ≡ redeem
    → e.status ≡ pending
    → e.amount ≡ neg (pos amount)
    → figure in_available (rows_of_user u (ledger_after (transitions action).reserve p l))
      ≡ figure in_available (rows_of_user u l) +ℤ returned action amount
unfolding transitions
moved_balance approve u amount p l e found own kind waiting same = omega int_laws
moved_balance process u amount p l e found own kind waiting same = omega int_laws
moved_balance succeed u amount p l e found own kind waiting same =
    settled_balance u amount success_outcome p l e found own kind waiting same
moved_balance fail u amount p l e found own kind waiting same =
    settled_balance u amount failed_outcome p l e found own kind waiting same
moved_balance cancel u amount p l e found own kind waiting same =
    settled_balance u amount failed_outcome p l e found own kind waiting same

-- A transition that is no replay starts from a status of its rule and ends in the rule's status; a
-- failure or a cancel gives the amount back to what is available, and approval, processing and
-- success leave what is available as it was.
pub transition_moves :
    (encrypt : Text → Text) (actor : CurrentUser) (i : ℕ) (input : TransitionInput) (db : WalletDb)
    (r : Redemption) {db' : WalletDb}
    → AllBacked db
    → find_redemption i db ≡ some r
    → transition_redemption encrypt actor i input db ≡ ok (false, db')
    → (includes_redemption (transitions input.action).from r.status ≡ true)
      × ((x : Redemption) × (find_redemption r.id db' ≡ some x)
          × (x.status ≡ (transitions input.action).target))
      × ((get_wallet_balance r.user_id db').available
          ≡ (get_wallet_balance r.user_id db).available +ℤ returned input.action r.amount)
transition_moves encrypt actor i input db r {db'} a found e =
    let b = find_row-All (Backed db.ledger) _ db.redemptions r a.backed found in
    let (d, own, waiting, from, money) = transition-parts encrypt actor i input db r b a found e in
    let (row, ledger) = money-rows actor input.action r d input db b own waiting a money in
    let there = found_reserve db r b waiting a in
    let live =
      find_row-test (is_live_reserve r.id) db.ledger b.reserve
        (find-where _ db.ledger b.reserve b.only) in
    let kind : b.reserve.entry_type ≡ redeem = ground arith in
    let before = (balance_of_rows r.user_id db).0 in
    let moved =
      moved_balance input.action r.user_id r.amount (pending_row b.reserve) db.ledger b.reserve
        there b.same_user kind waiting b.same_amount in
    (
      from,
      (moved_to (transitions input.action).target d input actor r, row, refl),
      rw ((balance_of_rows r.user_id db').0, ledger, before) moved,
    )
