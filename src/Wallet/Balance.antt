-- ===== src/Wallet/Balance.antt =====
-- `computeBalance` and `getWalletBalance` of lib/ledger.ts, and `heldByCases` of lib/reward-credit.ts.
use re_loop.Base.{
  ℕ, Bool, false, ◌&&◌, none, some, List, [], ◌∷◌, ℤ, pos, ◌+ℤ◌, neg, ◌==◌, max, if◌then◌else◌,
  where_rows,
}
use re_loop.Store.{
  EntryType, earn, redeem, entry_ordinal, LedgerStatus, pending, available, redeemed,
  ledger_ordinal, sum_by,
}
use re_loop.Wallet.Rows.{LedgerRow, DebitCase, WalletDb}

pub record WalletBalance : Type 0 where
  pub available : ℤ
  pub pending : ℤ
  pub redeemed : ℤ
  pub reserved : ℤ
  pub total_earned : ℤ

pub record LedgerGroup : Type 0 where
  pub entry_type : EntryType
  pub status : LedgerStatus
  pub amount : ℤ

abbrev pub empty_balance : WalletBalance
empty_balance = record {
  available = pos 0;
  pending = pos 0;
  redeemed = pos 0;
  reserved = pos 0;
  total_earned = pos 0;
}

-- One round of the loop.
unfoldable pub add_group : EntryType → LedgerStatus → ℤ → WalletBalance → WalletBalance
add_group earn available sum b = record b {
  available = b.available +ℤ sum;
  total_earned = b.total_earned +ℤ sum;
}
add_group earn pending sum b = record b {
  pending = b.pending +ℤ sum;
  total_earned = b.total_earned +ℤ sum;
}
add_group earn _ sum b = b
add_group redeem pending sum b = record b {
  available = b.available +ℤ sum;
  reserved = b.reserved +ℤ neg sum;
}
add_group redeem redeemed sum b = record b {
  available = b.available +ℤ sum;
  redeemed = b.redeemed +ℤ neg sum;
}
add_group redeem _ sum b = b
add_group _ available sum b = record b { available = b.available +ℤ sum }
add_group _ pending sum b = record b { pending = b.pending +ℤ sum }
add_group _ _ sum b = b

abbrev pub fold_groups : List LedgerGroup → WalletBalance → WalletBalance
fold_groups [] b = b
fold_groups (g ∷ l) b = fold_groups l (add_group g.entry_type g.status g.amount b)

unfoldable pub compute_balance : List LedgerGroup → WalletBalance
compute_balance groups = fold_groups groups empty_balance

abbrev pub same_group : LedgerGroup → LedgerRow → Bool
same_group g e =
    (entry_ordinal g.entry_type == entry_ordinal e.entry_type)
    && (ledger_ordinal g.status == ledger_ordinal e.status)

abbrev pub group_of : LedgerRow → LedgerGroup
group_of e = record { entry_type = e.entry_type; status = e.status; amount = e.amount }

-- `groupBy` status and type, with the sum of the amounts.
abbrev pub add_to_groups : LedgerRow → List LedgerGroup → List LedgerGroup
add_to_groups e [] = group_of e ∷ []
add_to_groups e (g ∷ l) =
    let rest = add_to_groups e l in
    if same_group g e then record g { amount = g.amount +ℤ e.amount } ∷ l else g ∷ rest

abbrev pub group_rows : List LedgerRow → List LedgerGroup
group_rows [] = []
group_rows (e ∷ l) = add_to_groups e (group_rows l)

abbrev pub rows_of_user : ℕ → List LedgerRow → List LedgerRow
rows_of_user user l = where_rows (λ e. e.user_id == user) l

unfoldable pub get_wallet_balance : ℕ → WalletDb → WalletBalance
get_wallet_balance user db = compute_balance (group_rows (rows_of_user user db.ledger))

-- Money that refused debits still owe: each deposit item once, at its largest case.
pub data CaseKey : Type 0 where
  of_item of_case : ℕ → CaseKey

abbrev pub case_key : DebitCase → CaseKey
case_key c = elim c.deposit_item_id [ none ↦ of_case c.id | some i ↦ of_item i ]

abbrev pub case_eq : CaseKey → CaseKey → Bool
case_eq (of_item a) (of_item b) = a == b
case_eq (of_case a) (of_case b) = a == b
case_eq _ _ = false

abbrev pub raise_item : CaseKey → ℕ → List (CaseKey × ℕ) → List (CaseKey × ℕ)
raise_item k amount [] = (k, amount) ∷ []
raise_item k amount (x ∷ l) =
    let rest = raise_item k amount l in
    if case_eq k x.0 then (x.0, max x.1 amount) ∷ l else x ∷ rest

abbrev pub per_item : List DebitCase → List (CaseKey × ℕ) → List (CaseKey × ℕ)
per_item [] l = l
per_item (c ∷ cs) l = per_item cs (raise_item (case_key c) c.amount l)

unfoldable pub held_by_cases : List DebitCase → ℕ
held_by_cases cs = sum_by (λ x. x.1) (per_item cs [])

unfoldable pub held_by_open_debit_cases : ℕ → WalletDb → ℕ
held_by_open_debit_cases user db =
    held_by_cases
      (where_rows (λ c. (c.user_id == user) && (c.is_open && c.already_paid_out)) db.cases)
