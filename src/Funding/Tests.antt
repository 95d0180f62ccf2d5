-- ===== src/Funding/Tests.antt =====
-- Runs of lib/reward-funding.ts on a small history: cash, an admission, an acceptance and a payout.
use re_loop.Base.{
  ◌⊎◌, Option, ◌≡◌, refl, Bool, true, false, none, some, List, [], ◌∷◌, pos, ◌+ℤ◌, ◌-ℤ◌, neg, ok,
  err, Outcome, arith, where_rows,
}
use re_loop.Store.{
  Account, Keyed, Source, key_eq, text_eq, Text, Campaign, FundingDb, Failure, Key, session_source,
  confirmed_topup, session_admission_key, deposit_item_earn_key, session_close_watermark_key,
}
use re_loop.Funding.Capacity.{
  find_account, assert_rupiah, bump_account, lock_funding_account, bump_campaign, check_capacity,
  configured_cap,
}
use re_loop.Funding.Reserve.{
  ReserveInput, reserve_reward_budget, admit, enforce, hold, write_reservation, reserve_delta,
}
use re_loop.Funding.Commit.{
  CommitResult, commit_reward_against_budget, commit_new, hold_uncovered, draw, find_commit,
}
use re_loop.Funding.Release.{
  ReleaseOptions, release_unused_reward_budget, release_new, shrink, give_back, record_release,
  find_release,
}
use re_loop.Funding.Payout.{
  EntryInput, entry_of, record_funding_entry, settle_payout_funding, is_payout_of, Attribution,
  pay_first, pay_commits, debit_accounts,
}
use re_loop.Funding.SourceReservation.{Admitted}
use re_loop.Funding.Replay.{payout_again_free}
use re_loop.Funding.Laws.{commit_again_free}
use re_loop.Funding.Releases.{release_again_free}
use re_loop.Funding.History.{
  opened, Reach, start, next, records, reserves, commits, pays, books_balance,
}
use re_loop.Funding.Solvency.{account_id, Covered}
use re_loop.Funding.Coverage.{reserve_keeps_covered}
use re_loop.Funding.Invariant.{Sound}

abbrev state_of : {A : Type 0} → Outcome Failure (A × FundingDb) → FundingDb
state_of (ok (a, db)) = db
state_of (err e) = opened []

abbrev value_of : {A : Type 0} → A → Outcome Failure (A × FundingDb) → A
value_of d (ok (a, db)) = a
value_of d (err e) = d

abbrev same_text : Text → Text
same_text t = t

abbrev has_ended : Source → Bool
has_ended s = true

abbrev unknown : Source → Option Admitted
unknown s = none

abbrev programs : List Campaign
programs =
    record { id = 100; organization_id = 7; reward_budget = some 800; held = pos 0; spent = pos 0 }
    ∷ []

abbrev cash : EntryInput
cash = record {
  organization_id = 7;
  kind = confirmed_topup;
  amount = pos 1000;
  reference = 1 ∷ 2 ∷ 3 ∷ 4 ∷ 5 ∷ 6 ∷ [];
  note = 1 ∷ 2 ∷ 3 ∷ 4 ∷ 5 ∷ 6 ∷ 7 ∷ 8 ∷ 9 ∷ 10 ∷ [];
  verified_by = 3;
}

abbrev admission : ReserveInput
admission = record {
  business_key = session_admission_key 1;
  organization_id = 7;
  campaign_id = some 100;
  user_id = 5;
  ceiling = 300;
  source = session_source 1;
}

abbrev item : Key
item = deposit_item_earn_key 11

abbrev funded : FundingDb
funded = state_of (record_funding_entry same_text cash (opened programs))

abbrev admitted : FundingDb
admitted = state_of (reserve_reward_budget true admission funded)

abbrev accepted : FundingDb
accepted = state_of (commit_reward_against_budget 1 item 200 false admitted)

abbrev paid : FundingDb
paid = state_of (settle_payout_funding 9 5 250 (some 3) accepted)

abbrev attribution : Attribution
attribution = record { attributed = pos 200; legacy = pos 50 }

abbrev first_commit : CommitResult
first_commit = record { commit_id = 2; covered = pos 200; uncovered = 0; existing = false }

enters :
    record_funding_entry same_text cash (opened programs)
    ≡ ok ((entry_of same_text cash 0, false), funded)
unfolding record_funding_entry assert_rupiah bump_account lock_funding_account ◌+ℤ◌ key_eq text_eq
enters = refl

admits : reserve_reward_budget true admission funded ≡ ok (1, admitted)
unfolding record_funding_entry assert_rupiah bump_account lock_funding_account ◌+ℤ◌ ◌-ℤ◌
    reserve_reward_budget admit enforce hold bump_campaign write_reservation check_capacity
    configured_cap reserve_delta key_eq text_eq
admits = refl

commits_once : commit_reward_against_budget 1 item 200 false admitted ≡ ok (first_commit, accepted)
unfolding record_funding_entry assert_rupiah bump_account lock_funding_account ◌+ℤ◌ ◌-ℤ◌ neg
    reserve_reward_budget admit enforce hold bump_campaign write_reservation check_capacity
    configured_cap reserve_delta key_eq text_eq commit_reward_against_budget commit_new
    hold_uncovered draw
commits_once = refl

pays_out : settle_payout_funding 9 5 250 (some 3) accepted ≡ ok (attribution, paid)
unfolding record_funding_entry assert_rupiah bump_account lock_funding_account ◌+ℤ◌ ◌-ℤ◌ neg
    reserve_reward_budget admit enforce hold bump_campaign write_reservation check_capacity
    configured_cap reserve_delta key_eq text_eq commit_reward_against_budget commit_new
    hold_uncovered draw settle_payout_funding pay_first pay_commits debit_accounts
pays_out = refl

history : Reach same_text has_ended unknown none programs paid
history =
    next
      (next (next (next start (records cash enters)) (reserves true admission admits))
        (commits 1 item 200 false commits_once))
      (pays 9 5 250 (some 3) pays_out)

books_balance_example : Sound paid
books_balance_example = books_balance same_text has_ended unknown none programs history

funded-Keyed : Keyed account_id funded.next_id funded.accounts
unfolding record_funding_entry assert_rupiah bump_account lock_funding_account ◌+ℤ◌
funded-Keyed = record { distinct = (tt, tt); older = (ground arith, tt) }

abbrev funded_account : Account
funded_account = record {
  id = 0;
  organization_id = 7;
  confirmed = pos 1000;
  held = pos 0;
  version = 1;
}

funded_account_there : find_account 0 funded ≡ some funded_account
unfolding record_funding_entry assert_rupiah bump_account lock_funding_account ◌+ℤ◌
funded_account_there = refl

reserve_keeps_covered_example :
    (b : Account) × (find_account 0 admitted ≡ some b) × ((b ≡ funded_account) ⊎ Covered b)
reserve_keeps_covered_example =
    reserve_keeps_covered admission funded 0 funded_account funded-Keyed admits funded_account_there

unpaid_yet : where_rows (is_payout_of 9) accepted.entries ≡ []
unfolding record_funding_entry assert_rupiah bump_account lock_funding_account ◌+ℤ◌ ◌-ℤ◌ neg
    reserve_reward_budget admit enforce hold bump_campaign write_reservation check_capacity
    configured_cap reserve_delta key_eq text_eq commit_reward_against_budget commit_new
    hold_uncovered draw
unpaid_yet = refl

payout_again_free_example : settle_payout_funding 9 5 250 none paid ≡ ok (attribution, paid)
payout_again_free_example =
    payout_again_free 9 5 250 (some 3) none accepted unpaid_yet (ground arith) pays_out

uncommitted : find_commit item admitted ≡ none
unfolding record_funding_entry assert_rupiah bump_account lock_funding_account ◌+ℤ◌ ◌-ℤ◌
    reserve_reward_budget admit enforce hold bump_campaign write_reservation check_capacity
    configured_cap reserve_delta key_eq text_eq
uncommitted = refl

commit_again_free_example :
    commit_reward_against_budget 1 item 150 true accepted
    ≡ ok (record first_commit { existing = true }, accepted)
commit_again_free_example =
    commit_again_free 1 item 200 150 false true admitted uncommitted (ground arith) commits_once

abbrev watermark : ReleaseOptions
watermark = record {
  close = false;
  released_by = none;
  business_key = some (session_close_watermark_key 1);
}

abbrev freed : FundingDb
freed = state_of (release_unused_reward_budget 1 40 watermark admitted)

frees_once : release_unused_reward_budget 1 40 watermark admitted ≡ ok ((40, false), freed)
unfolding record_funding_entry assert_rupiah bump_account lock_funding_account ◌+ℤ◌ ◌-ℤ◌ neg
    reserve_reward_budget admit enforce hold bump_campaign write_reservation check_capacity
    configured_cap reserve_delta key_eq text_eq release_unused_reward_budget release_new shrink
    give_back record_release
frees_once = refl

not_freed : find_release (session_close_watermark_key 1) admitted ≡ none
unfolding record_funding_entry assert_rupiah bump_account lock_funding_account ◌+ℤ◌ ◌-ℤ◌
    reserve_reward_budget admit enforce hold bump_campaign write_reservation check_capacity
    configured_cap reserve_delta key_eq text_eq
not_freed = refl

release_again_free_example :
    release_unused_reward_budget 1 90 watermark freed ≡ ok ((40, true), freed)
release_again_free_example =
    release_again_free 1 40 90 watermark (session_close_watermark_key 1) admitted refl not_freed
      (ground arith) frees_once
