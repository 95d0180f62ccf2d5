-- ===== src/Wallet/Crediting.antt =====
-- What the writer of reward effects guarantees (`applyRewardEffect` of lib/reward-credit.ts).
use re_loop.Base.{
  ◌+◌, ℕ, ◌≤◌, ◌≡◌, ◌≢◌, ◌⊎◌, refl, Bool, true, false, ◌&&◌, Option, none, some, [], ◌∷◌, ◌++◌, ℤ,
  pos, ◌+ℤ◌, ◌≤ℤ◌, int_laws, ◌==◌, arith, Bool-cases, Option-cases, inl, inr, ok, subst,
}
use re_loop.Store.{
  All-map, append-All, Keyed-append, Keyed-later, Source, key_eq_refl, find-append_new, available,
  pending,
}
use re_loop.Funding.{Admitted}
use re_loop.Wallet.Rows.{LedgerRow, WalletDb}
use re_loop.Wallet.Balance.{get_wallet_balance, rows_of_user}
use re_loop.Wallet.Credit.{
  CreditRewardInput, CreditEntryType, EffectOutcome, credited, existing, add_entry, size, source_of,
  entry_type_of, status_of, new_entry, find_entry, find_case, has_key, same_effect, overdraws,
  is_negative, check_reward_funding, apply_new, apply_reward_effect,
}
use re_loop.Wallet.Grouping.{nothing, once, weigh, in_available, balance_of_rows}
use re_loop.Wallet.Reserve.{is_reserve_of, is_live_reserve}
use re_loop.Wallet.Backing.{AllBacked, Backed-still, RefersBelow, redemption_id, ledger_id}
use re_loop.Wallet.Moves.{outcome_cases}
use re_loop.Wallet.Effects.{own_rows, figure-append}

same_row : (input : CreditRewardInput) (i : ℕ) → same_effect (new_entry input i) input ≡ true
same_row input i = ground arith

counts_pending : (t : CreditEntryType) → in_available (entry_type_of t) pending ≡ nothing
counts_pending t = ground arith

counts_available : (t : CreditEntryType) → in_available (entry_type_of t) available ≡ once
counts_available t = ground arith

-- The row of an effect that does not overdraw leaves the balance covered.
added_stays :
    (input : CreditRewardInput) (balance : ℤ)
    → pos 0 ≤ℤ balance
    → (is_negative input.amount && (input.is_available && is_negative (balance +ℤ input.amount)))
      ≡ false
    → pos 0
      ≤ℤ balance
        +ℤ (weigh (in_available (entry_type_of input.entry_type) (status_of input)) input.amount
            +ℤ pos 0)
added_stays input balance covered within = elim (Bool-cases input.is_available) [
  | inr held ↦ rw (held, counts_pending input.entry_type) (omega int_laws)
  | inl free ↦ elim (Bool-cases (is_negative input.amount)) [
    | inr credit ↦
        let up : pos 0 ≤ℤ input.amount = ground arith in
        rw (free, counts_available input.entry_type) (omega int_laws)
    | inl debit ↦
        let enough : is_negative (balance +ℤ input.amount) ≡ false = ground arith in
        let up : pos 0 ≤ℤ balance +ℤ input.amount = ground arith in
        rw (free, counts_available input.entry_type) (omega int_laws)
  ]
]

no_reserve_row : (input : CreditRewardInput) (n i : ℕ) → is_reserve_of i (new_entry input n) ≡ false
no_reserve_row input n i = ground arith

no_live_row : (input : CreditRewardInput) (n i : ℕ) → is_live_reserve i (new_entry input n) ≡ false
no_live_row input n i = ground arith

module _ (admitted : Source → Option Admitted) (cutover : Option ℕ) (is_erased : ℕ → Bool) where
  -- Only the funding tables move.
  pub check-rows :
      (input : CreditRewardInput) (db : WalletDb) {db' : WalletDb}
      → check_reward_funding admitted cutover is_erased input db ≡ ok db'
      → (db'.ledger ≡ db.ledger) × (db'.next_id ≡ db.next_id) × (db'.redemptions ≡ db.redemptions)
  unfolding check_reward_funding
  check-rows input db {db'} e = ground (arith, Option-cases (source_of input))

  -- What an effect does to the ledger: nothing, or one new row that does not overdraw.
  abbrev pub Written : CreditRewardInput → WalletDb → EffectOutcome → WalletDb → Type 0
  Written input db o db' =
      ((db'.ledger ≡ db.ledger)
        × (o ≢ credited)
        × (db'.redemptions ≡ db.redemptions)
        × (db.next_id ≤ db'.next_id))
      ⊎ ((db'.ledger ≡ db.ledger ++ new_entry input db.next_id ∷ [])
          × (overdraws input db ≡ false)
          × (o ≡ credited)
          × (db'.redemptions ≡ db.redemptions)
          × (db'.next_id ≡ db.next_id + 1))

  apply_new-Written :
      (input : CreditRewardInput) (db : WalletDb) {o : EffectOutcome} {db' : WalletDb}
      → apply_new admitted cutover is_erased input db ≡ ok (o, db')
      → Written input db o db'
  unfolding apply_new
  apply_new-Written input db {o} {db'} e = elim (Bool-cases (is_erased input.user_id)) [
    | inl erased ↦ inl (ground arith, ground arith, ground arith, ground arith)
    | inr there ↦ elim (Bool-cases (overdraws input db)) [
      | inl over ↦ inl (ground arith, ground arith, ground arith, ground arith)
      | inr within ↦
          elim (outcome_cases (check_reward_funding admitted cutover is_erased input db)) [
            | inr (f, refused) ↦ absurd (ground arith)
            | inl (mid, fine) ↦
                let (ledger, next, rows) = check-rows input db fine in
                let same : add_entry input mid ≡ db' = ground arith in
                inr (
                  subst (λ d. d.ledger ≡ db.ledger ++ new_entry input db.next_id ∷ []) same
                      (rw (ledger, next) refl),
                  within,
                  ground arith,
                  subst (λ d. d.redemptions ≡ db.redemptions) same (rw rows refl),
                  subst (λ d. d.next_id ≡ db.next_id + 1) same (rw next refl),
                )
          ]
    ]
  ]

  pub effect-Written :
      (input : CreditRewardInput) (db : WalletDb) {o : EffectOutcome} {db' : WalletDb}
      → apply_reward_effect admitted cutover is_erased input db ≡ ok (o, db')
      → Written input db o db'
  unfolding apply_reward_effect
  effect-Written input db {o} {db'} e = elim (Bool-cases (size input.amount == 0)) [
    | inl zero_amount ↦
        elim (outcome_cases (check_reward_funding admitted cutover is_erased input db)) [
          | inr (f, refused) ↦ inl (ground arith, ground arith, ground arith, ground arith)
          | inl (mid, fine) ↦
              let (ledger, next, rows) = check-rows input db fine in
              inl (ground arith, ground arith, ground arith, ground arith)
        ]
    | inr some_amount ↦ elim (Option-cases (find_entry input.business_key db)) [
      | inr (old, there) ↦ inl (ground arith, ground arith, ground arith, ground arith)
      | inl new ↦ elim (Option-cases (find_case input.business_key db)) [
        | inr (old, there) ↦ inl (ground arith, ground arith, ground arith, ground arith)
        | inl fresh ↦ apply_new-Written input db {o = o} {db' = db'} (ground arith)
      ]
    ]
  ]

  -- The available balance of the recipient stays covered.
  pub effect_stays_covered :
      (input : CreditRewardInput) (db : WalletDb) {o : EffectOutcome} {db' : WalletDb}
      → pos 0 ≤ℤ (get_wallet_balance input.user_id db).available
      → apply_reward_effect admitted cutover is_erased input db ≡ ok (o, db')
      → pos 0 ≤ℤ (get_wallet_balance input.user_id db').available
  effect_stays_covered input db {o} {db'} covered e = elim (effect-Written input db e) [
    | inl (same, _, _, _) ↦
        rw ((balance_of_rows input.user_id db').0, same, ← (balance_of_rows input.user_id db).0)
          covered
    | inr (added, within, _, _, _) ↦
        let before = (balance_of_rows input.user_id db).0 in
        let after = (balance_of_rows input.user_id db').0 in
        rw
          (
            after,
            added,
            own_rows input.user_id db.ledger (new_entry input db.next_id) refl,
            figure-append in_available (rows_of_user input.user_id db.ledger)
                (new_entry input db.next_id ∷ []),
            ← before,
          )
          (added_stays input (get_wallet_balance input.user_id db).available covered within)
  ]

  replayed_effect :
      (input : CreditRewardInput) (db after : WalletDb) (e : LedgerRow) (o : EffectOutcome)
      (db' : WalletDb)
      → apply_reward_effect admitted cutover is_erased input db ≡ ok (o, db')
      → o ≡ credited
      → find_entry input.business_key after ≡ some e
      → same_effect e input ≡ true
      → apply_reward_effect admitted cutover is_erased input after ≡ ok (existing, after)
  unfolding apply_reward_effect
  replayed_effect input db after e o db' done paid there same =
      elim (Bool-cases (size input.amount == 0)) [
        | inl zero_amount ↦
            elim (outcome_cases (check_reward_funding admitted cutover is_erased input db)) [
              | inr (f, refused) ↦ absurd (ground arith)
              | inl (mid, fine) ↦ absurd (ground arith)
            ]
        | inr some_amount ↦ ground arith
      ]

  new_key :
      (input : CreditRewardInput) (db : WalletDb) {db' : WalletDb}
      → apply_reward_effect admitted cutover is_erased input db ≡ ok (credited, db')
      → find_entry input.business_key db ≡ none
  unfolding apply_reward_effect
  new_key input db {db'} e = elim (Option-cases (find_entry input.business_key db)) [
    | inl new ↦ new
    | inr (old, there) ↦
        elim (outcome_cases (check_reward_funding admitted cutover is_erased input db)) [
          | inr (f, refused) ↦ absurd (ground arith)
          | inl (mid, fine) ↦ absurd (ground arith)
        ]
  ]

  -- An effect is credited once: the same effect under its key again writes nothing.
  pub effect_again_free :
      (input : CreditRewardInput) (db : WalletDb) {db' : WalletDb}
      → apply_reward_effect admitted cutover is_erased input db ≡ ok (credited, db')
      → apply_reward_effect admitted cutover is_erased input db' ≡ ok (existing, db')
  effect_again_free input db {db'} e = elim (effect-Written input db e) [
    | inl (_, other, _, _) ↦ absurd (other refl)
    | inr (added, _, _, _, _) ↦
        let row = new_entry input db.next_id in
        let own : has_key input.business_key row ≡ true = key_eq_refl input.business_key in
        let there : find_entry input.business_key db' ≡ some row =
          rw added
            (find-append_new (has_key input.business_key) db.ledger row (new_key input db e) own) in
        replayed_effect input db db' row credited db' e refl there (same_row input db.next_id)
  ]

  -- A reward effect is no reserve, so it leaves every payout request backed.
  pub effect-AllBacked :
      (input : CreditRewardInput) (db : WalletDb) {o : EffectOutcome} {db' : WalletDb}
      → AllBacked db
      → apply_reward_effect admitted cutover is_erased input db ≡ ok (o, db')
      → AllBacked db'
  effect-AllBacked input db {o} {db'} a e = elim (effect-Written input db e) [
    | inl (ledger, _, rows, next) ↦ record {
      redemptions =
          rw rows (Keyed-later redemption_id db.next_id _ db.redemptions next a.redemptions);
      ledger = rw ledger (Keyed-later ledger_id db.next_id _ db.ledger next a.ledger);
      refers = rw ledger (
          All-map (RefersBelow db.next_id) _ db.ledger (λ x h i above. h i (omega arith)) a.refers);
      backed = rw (ledger, rows) a.backed;
    }
    | inr (ledger, _, _, rows, next) ↦
        let row = new_entry input db.next_id in
        record {
          redemptions =
              rw (rows, next)
                (Keyed-later redemption_id db.next_id _ db.redemptions (omega arith) a.redemptions);
          ledger =
              rw (ledger, next) (Keyed-append ledger_id db.next_id db.ledger row a.ledger refl);
          refers =
              rw (ledger, next)
                (append-All (RefersBelow (db.next_id + 1)) db.ledger (row ∷ [])
                  (All-map (RefersBelow db.next_id) _ db.ledger (λ x h i above. h i (omega arith))
                    a.refers)
                  (λ i above. no_reserve_row input db.next_id i, tt));
          backed =
              rw (ledger, rows)
                (Backed-still db.ledger row db.redemptions db.next_id
                  (λ x old. no_live_row input db.next_id x.id) a.redemptions.older a.backed);
        }
  ]
