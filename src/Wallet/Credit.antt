-- ===== src/Wallet/Credit.antt =====
-- `applyRewardEffect`, `checkRewardFunding` and `releasedByResolving` of lib/reward-credit.ts: the
-- only writer of reward money. Whether a recipient was erased is read through `is_erased`; the columns
-- that no decision reads (reason, actor, organization) are left out.
use re_loop.Base.{
  ℕ, ◌+◌, ◌-◌, Bool, true, false, not, ◌&&◌, ◌||◌, Option, none, some, List, [], ◌∷◌, ◌++◌, ℤ, pos,
  pos_part, neg_part, ◌+ℤ◌, eqb_ℤ, ltb_ℤ, ltb, ◌==◌, min, or_else, if◌then◌else◌, find_row,
  where_rows, Outcome, ok, ◌>>=◌, ◌>>◌, throw_if,
}
use re_loop.Store.{
  EntryType, earn, adjust, reverse, entry_ordinal, LedgerStatus, available, pending, Key, key_eq,
  Source, session_source, trip_source, Failure, http_error, range_error, reward_key_conflict,
}
use re_loop.Funding.{Admitted, resolve_source_reservation, commit_on_source}
use re_loop.Wallet.Rows.{LedgerRow, Reference, trip_reference, DebitCase, WalletDb}
use re_loop.Wallet.Balance.{get_wallet_balance, held_by_cases}

pub data CreditEntryType : Type 0 where
  credit_earn credit_adjust credit_reverse : CreditEntryType

abbrev pub entry_type_of : CreditEntryType → EntryType
entry_type_of credit_earn = earn
entry_type_of credit_adjust = adjust
entry_type_of credit_reverse = reverse

-- `{ ceilingRupiah, reviewPending }`, or settled by the caller.
pub data RewardFundingHint : Type 0 where
  funded : Option ℕ → Option Bool → RewardFundingHint
  settled_by_caller : RewardFundingHint

pub record CreditRewardInput : Type 0 where
  pub business_key : Key
  pub user_id : ℕ
  pub amount : ℤ
  -- AVAILABLE, or PENDING
  pub is_available : Bool
  pub entry_type : CreditEntryType
  pub reference : Reference
  pub deposit_item_id : Option ℕ
  pub session_id : Option ℕ
  pub funding : RewardFundingHint

pub data EffectOutcome : Type 0 where
  credited existing zero_effect case_opened : EffectOutcome

abbrev pub size : ℤ → ℕ
size a = pos_part a + neg_part a

abbrev is_earn : CreditEntryType → Bool
is_earn credit_earn = true
is_earn _ = false

abbrev is_reverse : CreditEntryType → Bool
is_reverse credit_reverse = true
is_reverse _ = false

abbrev pub is_negative : ℤ → Bool
is_negative a = ltb_ℤ a (pos 0)

-- `assertEffect`, whose test on the length of the key is on its spelling.
unfoldable pub assert_effect : CreditRewardInput → Outcome Failure (Unit {0})
assert_effect input =
    throw_if
      (ltb 2147483647 (size input.amount)
        || ((is_earn input.entry_type && is_negative input.amount)
            || (is_reverse input.entry_type && ltb_ℤ (pos 0) input.amount)))
      range_error

-- `fundingCeiling`
unfoldable pub funding_ceiling : CreditRewardInput → ℕ
funding_ceiling input = elim input.funding [
  | settled_by_caller ↦ 0
  | funded ceiling p ↦ or_else ceiling (pos_part input.amount)
]

abbrev pub source_of : CreditRewardInput → Option Source
source_of input = elim input.session_id [
  | some i ↦ some (session_source i)
  | none ↦ elim input.reference [ trip_reference i ↦ some (trip_source i) | _ ↦ none ]
]

abbrev pub review_pending_of : CreditRewardInput → Bool
review_pending_of input = elim input.funding [
  | settled_by_caller ↦ false
  | funded ceiling p ↦ or_else p (not input.is_available)
]

abbrev is_settled_by_caller : RewardFundingHint → Bool
is_settled_by_caller settled_by_caller = true
is_settled_by_caller (funded c p) = false

abbrev pub status_of : CreditRewardInput → LedgerStatus
status_of input = if input.is_available then available else pending

abbrev pub new_entry : CreditRewardInput → ℕ → LedgerRow
new_entry input i = record {
  id = i;
  user_id = input.user_id;
  entry_type = entry_type_of input.entry_type;
  amount = input.amount;
  status = status_of input;
  reference = some input.reference;
  business_key = some input.business_key;
}

abbrev pub has_key : Key → LedgerRow → Bool
has_key k e = elim e.business_key [ none ↦ false | some j ↦ key_eq j k ]

abbrev pub find_entry : Key → WalletDb → Option LedgerRow
find_entry k db = find_row (has_key k) db.ledger

abbrev pub find_case : Key → WalletDb → Option DebitCase
find_case k db = find_row (λ c. key_eq c.business_key k) db.cases

abbrev pub same_effect : LedgerRow → CreditRewardInput → Bool
same_effect e input =
    (e.user_id == input.user_id)
    && ((entry_ordinal e.entry_type == entry_ordinal (entry_type_of input.entry_type))
        && eqb_ℤ e.amount input.amount)

-- `openRewardReconciliationCase`, for a key that has no case yet.
abbrev pub open_case : CreditRewardInput → Bool → WalletDb → WalletDb
open_case input paid_out db = record db {
  cases =
      db.cases
      ++ record {
        id = db.next_id;
        business_key = input.business_key;
        user_id = input.user_id;
        deposit_item_id = input.deposit_item_id;
        amount = size input.amount;
        is_open = true;
        already_paid_out = paid_out;
      }
        ∷ [];
  next_id = db.next_id + 1;
}

abbrev pub add_entry : CreditRewardInput → WalletDb → WalletDb
add_entry input db = record db {
  ledger = db.ledger ++ new_entry input db.next_id ∷ [];
  next_id = db.next_id + 1;
}

-- A debit of available money that the available balance does not cover.
abbrev pub overdraws : CreditRewardInput → WalletDb → Bool
overdraws input db =
    is_negative input.amount
    && (input.is_available
        && is_negative ((get_wallet_balance input.user_id db).available +ℤ input.amount))

module _ (admitted : Source → Option Admitted) (cutover : Option ℕ) (is_erased : ℕ → Bool) where
  abbrev pub fund : Source → CreditRewardInput → WalletDb → Outcome Failure WalletDb
  fund s input db =
      commit_on_source input.business_key (funding_ceiling input) (review_pending_of input)
        (resolve_source_reservation admitted cutover s db.funding)
      >>= (λ x. ok (record db { funding = x.1 }))

  -- `checkRewardFunding`: an earning commits its ceiling on the reservation of its source.
  unfoldable pub check_reward_funding : CreditRewardInput → WalletDb → Outcome Failure WalletDb
  check_reward_funding input db =
      if is_settled_by_caller input.funding
        || (not (is_earn input.entry_type) || (funding_ceiling input == 0))
      then ok db
      else elim (source_of input) [ none ↦ ok db | some s ↦ fund s input db ]

  -- A key that has neither an entry nor a case.
  unfoldable pub apply_new :
      CreditRewardInput → WalletDb → Outcome Failure (EffectOutcome × WalletDb)
  apply_new input db =
      if is_erased input.user_id
      then ok (case_opened, open_case input false db)
      else if overdraws input db
      then ok (case_opened, open_case input true db)
      else check_reward_funding input db >>= (λ db'. ok (credited, add_entry input db'))

  unfoldable pub apply_reward_effect :
      CreditRewardInput → WalletDb → Outcome Failure (EffectOutcome × WalletDb)
  apply_reward_effect input db = do
    assert_effect input
    if size input.amount == 0
        then (if ltb 0 (funding_ceiling input) then check_reward_funding input db else ok db)
          >>= (λ db'. ok (zero_effect, db'))
        else elim (find_entry input.business_key db) [
          | some e ↦
              throw_if (not (same_effect e input)) (http_error 409 reward_key_conflict)
              >> ok (existing, db)
          | none ↦ elim (find_case input.business_key db) [
            | some c ↦ ok (case_opened, db)
            | none ↦ apply_new input db
          ]
        ]

-- `releasedByResolving`: what resolving a case makes withdrawable.
unfoldable pub released_by_resolving : ℕ → List DebitCase → ℤ → ℕ
released_by_resolving i cases balance =
    min (pos_part balance) (held_by_cases cases)
    - min (pos_part balance) (held_by_cases (where_rows (λ c. not (c.id == i)) cases))
