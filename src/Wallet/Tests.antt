-- ===== src/Wallet/Tests.antt =====
-- Runs of lib/wallet-service.ts: a request of a user with earnings, its approval and its cancellation.
use re_loop.Base.{
  Bool, Option, ℕ, ◌≡◌, refl, true, false, none, some, [], ◌∷◌, pos, ok, err, Outcome, arith, ◌-ℤ◌,
  ◌+ℤ◌, ◌≤ℤ◌, neg,
}
use re_loop.Store.{Source, deposit_item_earn_key, Text, text_eq, earn, available, Failure}
use re_loop.Pickup.{user}
use re_loop.Funding.History.{opened}
use re_loop.Wallet.Rows.{deposit_item_reference, Redemption, WalletDb, reversed_status}
use re_loop.Wallet.Balance.{
  get_wallet_balance, compute_balance, add_group, held_by_open_debit_cases, held_by_cases,
  rows_of_user,
}
use re_loop.Wallet.Reserve.{
  create_redeem_reserve, settle_redeem_ledger, settle_pending, load_redeem_reserve, find_redemption,
  expected_reserve_status,
}
use re_loop.Wallet.Request.{
  CurrentUser, RequestInput, new_redemption, request_redemption, request_new,
}
use re_loop.Wallet.Transition.{
  TransitionInput, cancel, transitions, transition_redemption, transition_new, settle_money,
  pay_source, destination_for_change, assert_may_transition, lock_redemption_for_change,
  assert_identical_replay, includes_redemption,
}
use re_loop.Funding.{Admitted}
use re_loop.Wallet.Credit.{
  CreditRewardInput, credit_earn, funded, add_entry, credited, existing, apply_reward_effect,
  assert_effect, apply_new, check_reward_funding, funding_ceiling,
}
use re_loop.Wallet.Crediting.{effect_again_free}
use re_loop.Wallet.Settled.{settled_for_good}
use re_loop.Wallet.Grouping.{
  figure, in_available, in_pending, in_redeemed, in_reserved, in_earned, balance_of_rows,
}
use re_loop.Wallet.Backing.{AllBacked}
use re_loop.Wallet.History.{start, next, requests, transits, requests_stay-AllBacked}
use re_loop.Wallet.Effects.{request_reserves, request_again_free, transition_moves, returned}

abbrev plain : Text → Text
plain t = t

abbrev nowhere : Source → Option Admitted
nowhere s = none

abbrev nobody : ℕ → Bool
nobody u = false

abbrev earned : WalletDb
earned = record {
  ledger =
      record {
        id = 1;
        user_id = 5;
        entry_type = earn;
        amount = pos 500;
        status = available;
        reference = none;
        business_key = none;
      }
      ∷ [];
  redemptions = [];
  payout_accounts =
      record {
        id = 2;
        user_id = 5;
        disabled = false;
        provider = 1;
        identifier = 8 ∷ 1 ∷ [];
        name = none;
      }
      ∷ [];
  cases = [];
  funding = opened [];
  min_redemption = 100;
  next_id = 3;
}

abbrev owner : CurrentUser
owner = record { id = 5; role = user }

abbrev wanted : RequestInput
wanted = record { amount = 200; payout_account_id = 2; idempotency_key = 65 ∷ 49 ∷ [] }

abbrev request : Redemption
request =
    new_redemption plain 5 wanted
      (record {
        id = 2;
        user_id = 5;
        disabled = false;
        provider = 1;
        identifier = 8 ∷ 1 ∷ [];
        name = none;
      })
      3

abbrev state_of : {A : Type 0} → Outcome Failure (A × WalletDb) → WalletDb
state_of (ok x) = x.1
state_of (err e) = earned

abbrev asked : WalletDb
asked = state_of (request_redemption plain owner wanted earned)

abbrev cancelling : TransitionInput
cancelling = record { action = cancel; note = none; provider_reference = none }

abbrev undone : WalletDb
undone = state_of (transition_redemption plain owner 3 cancelling asked)

earned-AllBacked : AllBacked earned
earned-AllBacked = record {
  redemptions = record { distinct = tt; older = tt };
  ledger = record { distinct = (tt, tt); older = (ground arith, tt) };
  refers = (λ i h. refl, tt);
  backed = tt;
}

asks : request_redemption plain owner wanted earned ≡ ok ((request, false), asked)
unfolding request_redemption request_new create_redeem_reserve get_wallet_balance compute_balance
    add_group held_by_open_debit_cases held_by_cases text_eq ◌+ℤ◌ ◌-ℤ◌ neg
asks = refl

undoes : transition_redemption plain owner 3 cancelling asked ≡ ok (false, undone)
unfolding request_redemption request_new create_redeem_reserve get_wallet_balance compute_balance
    add_group held_by_open_debit_cases held_by_cases text_eq ◌+ℤ◌ ◌-ℤ◌ neg transition_redemption
    transition_new transitions settle_money pay_source destination_for_change settle_redeem_ledger
    settle_pending load_redeem_reserve assert_may_transition lock_redemption_for_change
    expected_reserve_status
undoes = refl

requests_stay-AllBacked_example : AllBacked undone
requests_stay-AllBacked_example =
    requests_stay-AllBacked plain nowhere none nobody earned-AllBacked
      (next (next start (requests owner wanted asks)) (transits owner 3 cancelling undoes))

request_reserves_example :
    (pos 200 ≤ℤ (get_wallet_balance 5 earned).available -ℤ pos (held_by_open_debit_cases 5 earned))
    × ((get_wallet_balance 5 asked).available ≡ (get_wallet_balance 5 earned).available -ℤ pos 200)
    × ((get_wallet_balance 5 asked).reserved ≡ (get_wallet_balance 5 earned).reserved +ℤ pos 200)
request_reserves_example = request_reserves plain owner wanted earned earned-AllBacked asks

request_again_free_example :
    request_redemption plain owner wanted asked ≡ ok ((request, true), asked)
request_again_free_example = request_again_free plain owner wanted earned earned-AllBacked asks

asked-AllBacked : AllBacked asked
asked-AllBacked =
    requests_stay-AllBacked plain nowhere none nobody earned-AllBacked
      (next start (requests owner wanted asks))

there : find_redemption 3 asked ≡ some request
unfolding request_redemption request_new create_redeem_reserve get_wallet_balance compute_balance
    add_group held_by_open_debit_cases held_by_cases text_eq ◌+ℤ◌ ◌-ℤ◌ neg
there = refl

transition_moves_example :
    (includes_redemption (transitions cancel).from request.status ≡ true)
    × ((x : Redemption) × (find_redemption 3 undone ≡ some x)
        × (x.status ≡ (transitions cancel).target))
    × ((get_wallet_balance 5 undone).available
        ≡ (get_wallet_balance 5 asked).available +ℤ returned cancel 200)
transition_moves_example =
    transition_moves plain owner 3 cancelling asked request asked-AllBacked there undoes

undone-AllBacked : AllBacked undone
undone-AllBacked =
    requests_stay-AllBacked plain nowhere none nobody asked-AllBacked
      (next start (transits owner 3 cancelling undoes))

abbrev ended : Redemption
ended = record request { status = reversed_status }

ended_row : find_redemption 3 undone ≡ some ended
unfolding request_redemption request_new create_redeem_reserve get_wallet_balance compute_balance
    add_group held_by_open_debit_cases held_by_cases text_eq ◌+ℤ◌ ◌-ℤ◌ neg transition_redemption
    transition_new transitions settle_money pay_source destination_for_change settle_redeem_ledger
    settle_pending load_redeem_reserve assert_may_transition lock_redemption_for_change
    expected_reserve_status
ended_row = refl

repeats : transition_redemption plain owner 3 cancelling undone ≡ ok (true, undone)
unfolding request_redemption request_new create_redeem_reserve get_wallet_balance compute_balance
    add_group held_by_open_debit_cases held_by_cases text_eq ◌+ℤ◌ ◌-ℤ◌ neg transition_redemption
    transition_new transitions settle_money pay_source destination_for_change settle_redeem_ledger
    settle_pending load_redeem_reserve assert_may_transition lock_redemption_for_change
    expected_reserve_status assert_identical_replay
repeats = refl

settled_for_good_example : find_redemption 3 undone ≡ some ended
settled_for_good_example =
    settled_for_good plain nowhere none nobody 3 ended undone-AllBacked ended_row refl
      (next start (transits owner 3 cancelling repeats))

balance_of_rows_example :
    let rows = rows_of_user 5 asked.ledger in
    let b = get_wallet_balance 5 asked in
    (b.available ≡ figure in_available rows)
    × (b.pending ≡ figure in_pending rows)
    × (b.redeemed ≡ figure in_redeemed rows)
    × (b.reserved ≡ figure in_reserved rows)
    × (b.total_earned ≡ figure in_earned rows)
balance_of_rows_example = balance_of_rows 5 asked

abbrev bonus : CreditRewardInput
bonus = record {
  business_key = deposit_item_earn_key 4;
  user_id = 5;
  amount = pos 100;
  is_available = true;
  entry_type = credit_earn;
  reference = deposit_item_reference 4;
  deposit_item_id = some 4;
  session_id = none;
  funding = funded none none;
}

abbrev credited_db : WalletDb
credited_db = add_entry bonus earned

credits : apply_reward_effect nowhere none nobody bonus earned ≡ ok (credited, credited_db)
unfolding apply_reward_effect assert_effect apply_new check_reward_funding funding_ceiling
credits = refl

effect_again_free_example :
    apply_reward_effect nowhere none nobody bonus credited_db ≡ ok (existing, credited_db)
effect_again_free_example = effect_again_free nowhere none nobody bonus earned credits
