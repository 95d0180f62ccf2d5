-- ===== src/Wallet/Grouping.antt =====
-- The balance of lib/ledger.ts is computed from sums by status and type; here it is what the rows
-- themselves add up to.
use re_loop.Base.{
  ℕ, ◌≡◌, refl, List, [], ◌∷◌, ℤ, pos, ◌+ℤ◌, neg, int_laws, arith, Bool-cases, inl, inr, ◌∙◌,
}
use re_loop.Store.{EntryType, earn, redeem, LedgerStatus, pending, available, redeemed}
use re_loop.Wallet.Rows.{LedgerRow, WalletDb}
use re_loop.Wallet.Balance.{
  WalletBalance, LedgerGroup, add_group, fold_groups, compute_balance, same_group, add_to_groups,
  group_rows, rows_of_user, get_wallet_balance, empty_balance,
}

-- How an amount counts in a figure.
pub data Weight : Type 0 where
  nothing once negated : Weight

abbrev pub weigh : Weight → ℤ → ℤ
weigh nothing x = pos 0
weigh once x = x
weigh negated x = neg x

weigh-add : (w : Weight) (x y : ℤ) → weigh w (x +ℤ y) ≡ weigh w x +ℤ weigh w y
weigh-add nothing x y = omega int_laws
weigh-add once x y = refl
weigh-add negated x y = omega int_laws

-- A figure as the rows of a user add up to it.
abbrev pub figure : (EntryType → LedgerStatus → Weight) → List LedgerRow → ℤ
figure w [] = pos 0
figure w (e ∷ l) = weigh (w e.entry_type e.status) e.amount +ℤ figure w l

module _ (pick : WalletBalance → ℤ) (w : EntryType → LedgerStatus → Weight)
    (counts : (t : EntryType) (s : LedgerStatus) (x : ℤ) (b : WalletBalance)
      → pick (add_group t s x b) ≡ pick b +ℤ weigh (w t s) x) where
  abbrev groups_sum : List LedgerGroup → ℤ
  groups_sum [] = pos 0
  groups_sum (g ∷ l) = weigh (w g.entry_type g.status) g.amount +ℤ groups_sum l

  fold_groups-sum :
      (l : List LedgerGroup) (b : WalletBalance) → pick (fold_groups l b) ≡ pick b +ℤ groups_sum l
  fold_groups-sum [] b = omega int_laws
  fold_groups-sum (g ∷ l) b =
      fold_groups-sum l _ ∙ rw (counts g.entry_type g.status g.amount b) (omega int_laws)

  add_to_groups-sum :
      (e : LedgerRow) (l : List LedgerGroup)
      → groups_sum (add_to_groups e l) ≡ weigh (w e.entry_type e.status) e.amount +ℤ groups_sum l
  add_to_groups-sum e [] = refl
  add_to_groups-sum e (g ∷ l) = elim (Bool-cases (same_group g e)) [
    | inl same ↦
        let type : g.entry_type ≡ e.entry_type = ground arith in
        let status : g.status ≡ e.status = ground arith in
        rw (same, type, status, weigh-add) (omega int_laws)
    | inr other ↦ rw (other, add_to_groups-sum e l) (omega int_laws)
  ]

  group_rows-sum : (l : List LedgerRow) → groups_sum (group_rows l) ≡ figure w l
  group_rows-sum [] = refl
  group_rows-sum (e ∷ l) = add_to_groups-sum e (group_rows l) ∙ rw (group_rows-sum l) refl

  balance_figure :
      (l : List LedgerRow)
      → pick empty_balance ≡ pos 0
      → pick (compute_balance (group_rows l)) ≡ figure w l
  unfolding compute_balance
  balance_figure l zero =
      fold_groups-sum (group_rows l) empty_balance ∙ rw (zero, group_rows-sum l) (omega int_laws)

-- What each figure counts.
abbrev pub in_available : EntryType → LedgerStatus → Weight
in_available earn available = once
in_available earn _ = nothing
in_available redeem pending = once
in_available redeem redeemed = once
in_available redeem _ = nothing
in_available _ available = once
in_available _ _ = nothing

abbrev pub in_pending : EntryType → LedgerStatus → Weight
in_pending redeem _ = nothing
in_pending _ pending = once
in_pending _ _ = nothing

abbrev pub in_redeemed : EntryType → LedgerStatus → Weight
in_redeemed redeem redeemed = negated
in_redeemed _ _ = nothing

abbrev pub in_reserved : EntryType → LedgerStatus → Weight
in_reserved redeem pending = negated
in_reserved _ _ = nothing

abbrev pub in_earned : EntryType → LedgerStatus → Weight
in_earned earn available = once
in_earned earn pending = once
in_earned _ _ = nothing

unchanged : (x : ℤ) → x ≡ x +ℤ pos 0
unchanged x = omega int_laws

module _ (t : EntryType) (s : LedgerStatus) (x : ℤ) (b : WalletBalance) where
  add_group-available : (add_group t s x b).available ≡ b.available +ℤ weigh (in_available t s) x
  unfolding add_group
  add_group-available = ground (arith, unchanged b.available)

  add_group-pending : (add_group t s x b).pending ≡ b.pending +ℤ weigh (in_pending t s) x
  unfolding add_group
  add_group-pending = ground (arith, unchanged b.pending)

  add_group-redeemed : (add_group t s x b).redeemed ≡ b.redeemed +ℤ weigh (in_redeemed t s) x
  unfolding add_group
  add_group-redeemed = ground (arith, unchanged b.redeemed)

  add_group-reserved : (add_group t s x b).reserved ≡ b.reserved +ℤ weigh (in_reserved t s) x
  unfolding add_group
  add_group-reserved = ground (arith, unchanged b.reserved)

  add_group-earned : (add_group t s x b).total_earned ≡ b.total_earned +ℤ weigh (in_earned t s) x
  unfolding add_group
  add_group-earned = ground (arith, unchanged b.total_earned)

-- The balance of a user is what the user's rows add up to, figure by figure, though it is computed
-- from sums by status and type: spendable are earnings and corrections that are available, less the
-- payout reserves that are pending or paid.
pub balance_of_rows :
    (u : ℕ) (db : WalletDb)
    → let rows = rows_of_user u db.ledger in
      let b = get_wallet_balance u db in
      (b.available ≡ figure in_available rows)
      × (b.pending ≡ figure in_pending rows)
      × (b.redeemed ≡ figure in_redeemed rows)
      × (b.reserved ≡ figure in_reserved rows)
      × (b.total_earned ≡ figure in_earned rows)
unfolding get_wallet_balance
balance_of_rows u db =
    let rows = rows_of_user u db.ledger in
    (
      balance_figure (λ b. b.available) in_available add_group-available rows refl,
      balance_figure (λ b. b.pending) in_pending add_group-pending rows refl,
      balance_figure (λ b. b.redeemed) in_redeemed add_group-redeemed rows refl,
      balance_figure (λ b. b.reserved) in_reserved add_group-reserved rows refl,
      balance_figure (λ b. b.total_earned) in_earned add_group-earned rows refl,
    )
