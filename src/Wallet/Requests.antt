-- ===== src/Wallet/Requests.antt =====
-- What a payout request guarantees (`requestRedemption` of lib/wallet-service.ts).
use re_loop.Base.{
  ℕ, ◌+◌, ◌≡◌, refl, Bool, none, List, [], ◌∷◌, ◌++◌, arith, Bool-cases, Option-cases, inl, inr,
  find_row, All, ok, subst, sym, pos, ◌-ℤ◌, ◌≤ℤ◌, ltb_ℤ,
}
use re_loop.Store.{Text, All-map}
use re_loop.Wallet.Rows.{LedgerRow, Redemption, PayoutAccount, WalletDb}
use re_loop.Wallet.Balance.{get_wallet_balance, held_by_open_debit_cases}
use re_loop.Wallet.Reserve.{
  expected_reserve_status, is_reserve_of, new_reserve, create_redeem_reserve,
}
use re_loop.Wallet.Request.{
  CurrentUser, RequestInput, find_payout_account, new_redemption, request_new, request_redemption,
  find_request,
}
use re_loop.Wallet.Backing.{AllBacked, AllBacked-add, RefersBelow, find-none}

-- The tables after a request that reserved money.
abbrev pub reserved_with : (Text → Text) → ℕ → RequestInput → PayoutAccount → WalletDb → WalletDb
reserved_with encrypt owner input account db = record db {
  redemptions = db.redemptions ++ new_redemption encrypt owner input account db.next_id ∷ [];
  ledger = db.ledger ++ new_reserve owner input.amount db.next_id (db.next_id + 1) ∷ [];
  next_id = db.next_id + 1 + 1;
}

no_reserve :
    (n : ℕ) (l : List LedgerRow) → All (RefersBelow n) l → find_row (is_reserve_of n) l ≡ none
no_reserve n l h =
    find-none (is_reserve_of n) l (All-map (RefersBelow n) _ l (λ x k. k n (omega arith)) h)

-- A new request in its parts: the account, the guards and the tables.
pub request_new-parts :
    (encrypt : Text → Text) (owner : ℕ) (input : RequestInput) (db : WalletDb)
    {x : Redemption × Bool} {db' : WalletDb}
    → AllBacked db
    → request_new encrypt owner input db ≡ ok (x, db')
    → (account : PayoutAccount) × (db' ≡ reserved_with encrypt owner input account db)
      × (x.0 ≡ new_redemption encrypt owner input account db.next_id)
      × (pos input.amount
          ≤ℤ (get_wallet_balance owner db).available -ℤ pos (held_by_open_debit_cases owner db))
unfolding request_new create_redeem_reserve
request_new-parts encrypt owner input db {x} {db'} a e =
    let fresh = no_reserve db.next_id db.ledger a.refers in
    let capacity =
      (get_wallet_balance owner db).available -ℤ pos (held_by_open_debit_cases owner db) in
    elim (Option-cases (find_payout_account input.payout_account_id owner db)) [
      | inl absent ↦ absurd (ground arith)
      | inr (account, there) ↦ elim (Bool-cases (ltb_ℤ capacity (pos input.amount))) [
        | inl short ↦ absurd (ground arith)
        | inr enough ↦ (account, ground arith, ground arith, ground arith)
      ]
    ]

-- A key that is not used yet is a new request.
pub request_redemption-new :
    (encrypt : Text → Text) (actor : CurrentUser) (input : RequestInput) (db : WalletDb)
    (o : (Redemption × Bool) × WalletDb)
    → find_request actor.id input.idempotency_key db ≡ none
    → request_redemption encrypt actor input db ≡ ok o
    → request_new encrypt actor.id input db ≡ ok o
unfolding request_redemption
request_redemption-new encrypt actor input db o new e = ground arith

pub request-AllBacked :
    (encrypt : Text → Text) (actor : CurrentUser) (input : RequestInput) (db : WalletDb)
    {x : Redemption × Bool} {db' : WalletDb}
    → AllBacked db
    → request_redemption encrypt actor input db ≡ ok (x, db')
    → AllBacked db'
unfolding request_redemption expected_reserve_status
request-AllBacked encrypt actor input db {x} {db'} a e =
    elim (Option-cases (find_request actor.id input.idempotency_key db)) [
      | inr (old, there) ↦ subst AllBacked (ground arith) a
      | inl new ↦
          let e1 : request_new encrypt actor.id input db ≡ ok (x, db') = ground arith in
          let (account, same, _, _) = request_new-parts encrypt actor.id input db {x = x} a e1 in
          subst AllBacked (sym same) (
            AllBacked-add db (reserved_with encrypt actor.id input account db)
              (new_redemption encrypt actor.id input account db.next_id) actor.id input.amount refl
              refl refl refl refl refl refl a)
    ]
