-- ===== src/Wallet/Reserve.antt =====
-- `createRedeemReserve`, `expectedReserveStatus`, `loadRedeemReserve` and `settleRedeemLedger` of
-- lib/ledger.ts.
use re_loop.Base.{
  ℕ, ◌+◌, Bool, true, false, not, ◌&&◌, ◌||◌, Option, none, some, List, [], ◌∷◌, ◌++◌, pos, neg,
  eqb_ℤ, ◌==◌, if◌then◌else◌, find_row, where_rows, Outcome, ok, err, ◌>>=◌, ◌>>◌, throw_if,
  or_throw,
}
use re_loop.Store.{
  redeem, entry_ordinal, LedgerStatus, pending, redeemed, reversed, rejected, ledger_ordinal,
  redemption_reserve_key, Failure, http_error, reserve_missing, reserve_mismatch,
  redemption_not_found, update_row,
}
use re_loop.Wallet.Rows.{
  LedgerRow, Reference, redemption_reference, Redemption, RedemptionStatus, success, failed,
  reversed_status, WalletDb,
}

unfoldable pub expected_reserve_status : RedemptionStatus → LedgerStatus
expected_reserve_status success = redeemed
expected_reserve_status failed = reversed
expected_reserve_status reversed_status = reversed
expected_reserve_status _ = pending

abbrev refers_to : ℕ → Option Reference → Bool
refers_to i none = false
refers_to i (some (redemption_reference j)) = j == i
refers_to i (some _) = false

-- A REDEEM row of the redemption.
abbrev pub is_reserve_of : ℕ → LedgerRow → Bool
is_reserve_of i e = (entry_ordinal e.entry_type == entry_ordinal redeem) && refers_to i e.reference

abbrev pub has_status : LedgerStatus → LedgerRow → Bool
has_status s e = ledger_ordinal e.status == ledger_ordinal s

-- One that still counts: a rejected row is a neutralized duplicate.
abbrev pub is_live_reserve : ℕ → LedgerRow → Bool
is_live_reserve i e = is_reserve_of i e && not (has_status rejected e)

abbrev pub new_reserve : ℕ → ℕ → ℕ → ℕ → LedgerRow
new_reserve user amount redemption i = record {
  id = i;
  user_id = user;
  entry_type = redeem;
  amount = neg (pos amount);
  status = pending;
  reference = some (redemption_reference redemption);
  business_key = some (redemption_reserve_key redemption);
}

-- `createRedeemReserve`
unfoldable pub create_redeem_reserve : ℕ → ℕ → ℕ → WalletDb → LedgerRow × WalletDb
create_redeem_reserve user amount redemption db =
    elim (find_row (is_reserve_of redemption) db.ledger) [
      | some e ↦ (e, db)
      | none ↦ (
        new_reserve user amount redemption db.next_id,
        record db {
          ledger = db.ledger ++ new_reserve user amount redemption db.next_id ∷ [];
          next_id = db.next_id + 1;
        },
      )
    ]

abbrev pub mismatches : LedgerRow → Redemption → Bool
mismatches e r = not (e.user_id == r.user_id) || not (eqb_ℤ e.amount (neg (pos r.amount)))

-- The single live reserve.
abbrev pub only_reserve : Redemption → List LedgerRow → Outcome Failure LedgerRow
only_reserve r [] = err (http_error 409 reserve_missing)
only_reserve r (e ∷ []) = throw_if (mismatches e r) (http_error 409 reserve_mismatch) >> ok e
only_reserve r (e ∷ f ∷ l) = err (http_error 409 reserve_mismatch)

unfoldable pub load_redeem_reserve : Redemption → WalletDb → Outcome Failure LedgerRow
load_redeem_reserve r db = only_reserve r (where_rows (is_live_reserve r.id) db.ledger)

abbrev pub find_redemption : ℕ → WalletDb → Option Redemption
find_redemption i db = find_row (λ r. r.id == i) db.redemptions

pub data RedeemOutcome : Type 0 where
  success_outcome failed_outcome : RedeemOutcome

abbrev pub target_of : RedeemOutcome → LedgerStatus
target_of success_outcome = redeemed
target_of failed_outcome = reversed

abbrev pub with_status : LedgerStatus → LedgerRow → LedgerRow
with_status s e = record e { status = s }

abbrev pub set_ledger_status : ℕ → LedgerStatus → WalletDb → WalletDb
set_ledger_status i s db = record db {
  ledger = update_row (λ e. (e.id == i) && has_status pending e) (with_status s) db.ledger;
}

-- The conditional update: exactly one pending row, or the row as it is now must agree.
unfoldable pub settle_pending :
    LedgerRow → LedgerStatus → WalletDb → Outcome Failure ((LedgerRow × Bool) × WalletDb)
settle_pending e s db = elim (find_row (λ x. (x.id == e.id) && has_status pending x) db.ledger) [
  | some x ↦ ok ((with_status s e, true), set_ledger_status e.id s db)
  | none ↦ elim (find_row (λ x. x.id == e.id) db.ledger) [
    | some x ↦
        throw_if (not (has_status s x)) (http_error 409 reserve_mismatch) >> ok ((x, false), db)
    | none ↦ err (http_error 409 reserve_mismatch)
  ]
]

-- The row, and whether this call changed it.
unfoldable pub settle_redeem_ledger :
    ℕ → RedeemOutcome → WalletDb → Outcome Failure ((LedgerRow × Bool) × WalletDb)
settle_redeem_ledger i outcome db = do
  r ← or_throw (find_redemption i db) (http_error 404 redemption_not_found)
  e ← load_redeem_reserve r db
  if has_status (target_of outcome) e
      then ok ((e, false), db)
      else throw_if (not (has_status pending e)) (http_error 409 reserve_mismatch)
        >> settle_pending e (target_of outcome) db
