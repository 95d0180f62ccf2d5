-- ===== src/Funding/Capacity.antt =====
-- `assertRupiah`, `configuredCap`, `checkCapacity`, the account and campaign counters of
-- lib/reward-funding.ts.
use re_loop.Base.{
  ℕ, ◌+◌, Bool, ◌&&◌, ◌||◌, Option, none, some, [], ◌∷◌, ◌++◌, ℤ, pos, pos_part, neg_part, ◌+ℤ◌,
  ◌-ℤ◌, ltb_ℤ, ltb, ◌==◌, if◌then◌else◌, find_row, Outcome, ok, ◌>>=◌, ◌>>◌, throw_if, or_throw,
}
use re_loop.Store.{
  Account, Campaign, FundingDb, Failure, http_error, missing_row, funding_amount_invalid,
  update_row,
}

abbrev pub max_funding_rupiah : ℕ
max_funding_rupiah = 2147483647

-- The smallest value that the caller allows, and the largest that a counter can hold.
unfoldable pub assert_rupiah : ℕ → ℕ → Outcome Failure (Unit {0})
assert_rupiah low value =
    throw_if (ltb value low || ltb max_funding_rupiah value) (http_error 422 funding_amount_invalid)

-- A money cap that is zero or absent is not configured.
unfoldable pub configured_cap : Option ℕ → Option ℕ
configured_cap none = none
configured_cap (some v) = if ltb 0 v then some v else none

-- `resolveSessionCeiling`: the campaign's configured ceiling, else the machine's.
unfoldable pub resolve_session_ceiling : Option (Option ℕ) → Option ℕ → Option ℕ
unfolding configured_cap
resolve_session_ceiling none machine = configured_cap machine
resolve_session_ceiling (some campaign) machine = elim (configured_cap campaign) [
  | some v ↦ some v
  | none ↦ configured_cap machine
]

abbrev magnitude : ℤ → ℕ
magnitude a = pos_part a + neg_part a

abbrev pub is_account : ℕ → Account → Bool
is_account i a = a.id == i

abbrev pub is_campaign : ℕ → Campaign → Bool
is_campaign i c = c.id == i

abbrev pub find_account : ℕ → FundingDb → Option Account
find_account i db = find_row (is_account i) db.accounts

abbrev pub find_campaign : ℕ → FundingDb → Option Campaign
find_campaign i db = find_row (is_campaign i) db.campaigns

abbrev pub set_account : ℕ → (Account → Account) → FundingDb → FundingDb
set_account i g db = record db { accounts = update_row (is_account i) g db.accounts }

abbrev pub set_campaign : ℕ → (Campaign → Campaign) → FundingDb → FundingDb
set_campaign i g db = record db { campaigns = update_row (is_campaign i) g db.campaigns }

abbrev pub moved : ℤ → ℤ → Account → Account
moved confirmed held a = record a {
  confirmed = a.confirmed +ℤ confirmed;
  held = a.held +ℤ held;
  version = a.version + 1;
}

-- `bumpAccount`: both counters must stay within what a column can hold.
unfoldable pub bump_account : ℕ → ℤ → ℤ → FundingDb → Outcome Failure FundingDb
bump_account i confirmed held db = do
  a ← or_throw (find_account i db) missing_row
  throw_if (ltb max_funding_rupiah (magnitude (a.confirmed +ℤ confirmed)))
      (http_error 422 funding_amount_invalid)
  throw_if (ltb max_funding_rupiah (magnitude (a.held +ℤ held)))
      (http_error 422 funding_amount_invalid)
  ok (set_account i (moved confirmed held) db)

abbrev is_zero : ℤ → Bool
is_zero a = magnitude a == 0

abbrev pub charged : ℤ → ℤ → Campaign → Campaign
charged held spent c = record c { held = c.held +ℤ held; spent = c.spent +ℤ spent }

abbrev charge : ℕ → ℤ → ℤ → FundingDb → Outcome Failure FundingDb
charge i held spent db = do
  or_throw (find_campaign i db) missing_row
  ok (set_campaign i (charged held spent) db)

-- `bumpCampaign`: nothing for no campaign, nor for no change.
unfoldable pub bump_campaign : Option ℕ → ℤ → ℤ → FundingDb → Outcome Failure FundingDb
bump_campaign none held spent db = ok db
bump_campaign (some i) held spent db =
    if is_zero held && is_zero spent then ok db else charge i held spent db

-- `lockFundingAccountForOrganization`: the organization's account, created empty on first use.
abbrev pub account_of_organization : ℕ → FundingDb → Option Account
account_of_organization o db = find_row (λ a. a.organization_id == o) db.accounts

abbrev pub empty_account : ℕ → ℕ → Account
empty_account i o = record {
  id = i;
  organization_id = o;
  confirmed = pos 0;
  held = pos 0;
  version = 0;
}

unfoldable pub lock_funding_account : ℕ → FundingDb → Account × FundingDb
lock_funding_account o db = elim (account_of_organization o db) [
  | some a ↦ (a, db)
  | none ↦ (
    empty_account db.next_id o,
    record db {
      accounts = db.accounts ++ empty_account db.next_id o ∷ [];
      next_id = db.next_id + 1;
    },
  )
]

pub record CapacityCheck : Type 0 where
  pub account_shortfall : ℕ
  pub campaign_shortfall : ℕ

-- What is missing to take `amount` from a capacity that may be negative.
abbrev pub missing : ℤ → ℕ → ℕ
missing capacity amount =
    if ltb_ℤ capacity (pos amount) then pos_part (pos amount -ℤ capacity) else 0

abbrev campaign_missing : Option Campaign → ℕ → ℕ
campaign_missing none amount = 0
campaign_missing (some c) amount = elim c.reward_budget [
  | none ↦ 0
  | some budget ↦ missing (pos budget -ℤ c.held -ℤ c.spent) amount
]

unfoldable pub check_capacity : Account → Option Campaign → ℕ → CapacityCheck
check_capacity a c amount = record {
  account_shortfall = missing (a.confirmed -ℤ a.held) amount;
  campaign_shortfall = campaign_missing c amount;
}
