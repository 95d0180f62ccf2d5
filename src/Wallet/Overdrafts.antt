-- ===== src/Wallet/Overdrafts.antt =====
-- What a reward effect comes to, case by case (`applyRewardEffect` of lib/reward-credit.ts).
use re_loop.Base.{
  ◌==◌, if◌then◌else◌, ◌+ℤ◌, pos, ltb_ℤ, ℕ, ◌+◌, ◌≡◌, ◌≢◌, Bool, true, false, ◌&&◌, Option, none,
  some, [], ◌∷◌, ◌++◌,
}
use re_loop.Store.{Source, pending, available}
use re_loop.Funding.{Admitted}
use re_loop.Wallet.Rows.{LedgerRow, DebitCase, WalletDb}
use re_loop.Wallet.Balance.{get_wallet_balance}
use re_loop.Wallet.Credit.{
  CreditRewardInput, EffectOutcome, credited, existing, zero_effect, case_opened, size, find_entry,
  find_case, same_effect,
}

-- A debit of money that is available at once and that the available balance does not cover.
abbrev pub uncovered_debit : CreditRewardInput → WalletDb → Bool
uncovered_debit input db =
    ltb_ℤ input.amount (pos 0)
    && (input.is_available
        && ltb_ℤ ((get_wallet_balance input.user_id db).available +ℤ input.amount) (pos 0))

-- A case is opened for the effect, and nothing else is written.
abbrev pub OpensCase : CreditRewardInput → Bool → WalletDb → WalletDb → Type 0
OpensCase input paid_out db db' =
    (c : DebitCase) × (db' ≡ record db { cases = db.cases ++ c ∷ []; next_id = db.next_id + 1 })
    × (c.business_key ≡ input.business_key)
    × (c.user_id ≡ input.user_id)
    × (c.amount ≡ size input.amount)
    × (c.is_open ≡ true)
    × (c.already_paid_out ≡ paid_out)

-- One row is added to the ledger, for the recipient, with the amount and under the key.
abbrev pub AddsRow : CreditRewardInput → WalletDb → WalletDb → Type 0
AddsRow input db db' =
    (e : LedgerRow) × (db'.ledger ≡ db.ledger ++ e ∷ [])
    × (e.user_id ≡ input.user_id)
    × (e.amount ≡ input.amount)
    × (e.status ≡ (if input.is_available then available else pending))
    × (e.business_key ≡ some input.business_key)

-- The key has neither an entry nor a case, and there is an amount.
abbrev pub IsNew : CreditRewardInput → WalletDb → Type 0
IsNew input db =
    (input.amount ≢ pos 0)
    × (find_entry input.business_key db ≡ none)
    × (find_case input.business_key db ≡ none)

module _ (admitted : Source → Option Admitted) (cutover : Option ℕ) (is_erased : ℕ → Bool) where
  -- What an effect comes to.
  pub data Comes (input : CreditRewardInput) (db : WalletDb)
      : EffectOutcome → WalletDb → Type 0 where
    empty :
        {db' : WalletDb}
        → (size input.amount == 0) ≡ true
        → db'.ledger ≡ db.ledger
        → Comes input db zero_effect db'
    repeated :
        {db' : WalletDb} (e : LedgerRow)
        → find_entry input.business_key db ≡ some e
        → same_effect e input ≡ true
        → db' ≡ db
        → Comes input db existing db'
    still_open :
        {db' : WalletDb} (c : DebitCase)
        → find_case input.business_key db ≡ some c
        → db' ≡ db
        → Comes input db case_opened db'
    owner_gone :
        {db' : WalletDb}
        → IsNew input db
        → is_erased input.user_id ≡ true
        → OpensCase input false db db'
        → Comes input db case_opened db'
    refused :
        {db' : WalletDb}
        → IsNew input db
        → is_erased input.user_id ≡ false
        → uncovered_debit input db ≡ true
        → OpensCase input true db db'
        → Comes input db case_opened db'
    added :
        {db' : WalletDb}
        → IsNew input db
        → is_erased input.user_id ≡ false
        → uncovered_debit input db ≡ false
        → AddsRow input db db'
        → Comes input db credited db'
