-- ===== src/Funding/Reserve.antt =====
-- `reserveRewardBudget` of lib/reward-funding.ts. The test on the length of the business key is on its
-- spelling, which a key here does not have.
use re_loop.Base.{
  ℕ, ◌+◌, ◌-◌, Bool, true, false, not, ◌&&◌, ◌||◌, Option, none, some, [], ◌∷◌, ◌++◌, pos, ltb, leb,
  ◌==◌, if◌then◌else◌, find_row, where_rows, Outcome, ok, err, ◌>>=◌, ◌>>◌, throw_if, is_some,
}
use re_loop.Store.{
  Account, Campaign, Reservation, FundingDb, Source, ReservationStatus, active, released, Key,
  key_eq, Failure, http_error, missing_row, funding_insufficient, campaign_budget_insufficient,
  campaign_budget_not_configured, funding_key_conflict, campaign_not_of_organization, update_row,
  sum_by,
}
use re_loop.Funding.Capacity.{
  assert_rupiah, configured_cap, find_campaign, bump_account, bump_campaign, lock_funding_account,
  CapacityCheck, check_capacity,
}

pub record ReserveInput : Type 0 where
  pub business_key : Key
  pub organization_id : ℕ
  pub campaign_id : Option ℕ
  pub user_id : ℕ
  pub ceiling : ℕ
  pub source : Source

abbrev pub find_reservation : ℕ → FundingDb → Option Reservation
find_reservation i db = find_row (λ r. r.id == i) db.reservations

abbrev pub find_reservation_by_key : Key → FundingDb → Option Reservation
find_reservation_by_key k db = find_row (λ r. key_eq r.business_key k) db.reservations

abbrev pub set_reservation : ℕ → (Reservation → Reservation) → FundingDb → FundingDb
set_reservation i g db = record db { reservations = update_row (λ r. r.id == i) g db.reservations }

abbrev pub is_active : ReservationStatus → Bool
is_active active = true
is_active released = false

-- What is still committed against a reservation.
abbrev pub committed_against : ℕ → FundingDb → ℕ
committed_against i db = sum_by (λ c. c.held) (where_rows (λ c. c.reservation_id == i) db.commits)

-- How much more the account must hold: everything for a new key, the difference for a larger
-- ceiling, and for a released reservation all that is not still committed.
unfoldable pub reserve_delta : Option Reservation → ℕ → FundingDb → ℕ
reserve_delta none ceiling db = ceiling
reserve_delta (some r) ceiling db =
    if is_active r.status then ceiling - r.ceiling else ceiling - committed_against r.id db

-- `lockAndReadCampaign`, when the reservation names a campaign.
abbrev pub read_campaign : Option ℕ → FundingDb → Outcome Failure (Option Campaign)
read_campaign none db = ok none
read_campaign (some i) db = elim (find_campaign i db) [
  | some c ↦ ok (some c)
  | none ↦ err missing_row
]

abbrev pub of_other_organization : Option Campaign → ℕ → Bool
of_other_organization none o = false
of_other_organization (some c) o = not (c.organization_id == o)

abbrev pub belongs_elsewhere : Option Reservation → ℕ → ℕ → Bool
belongs_elsewhere none account user = false
belongs_elsewhere (some r) account user = not (r.account_id == account) || not (r.user_id == user)

-- An active reservation that already covers the ceiling is returned as it is.
abbrev pub covering : Option Reservation → ℕ → Option ℕ
covering none ceiling = none
covering (some r) ceiling = if is_active r.status && leb ceiling r.ceiling then some r.id else none

abbrev pub lacks_budget : Option Campaign → Bool
lacks_budget none = false
lacks_budget (some c) = not (is_some (configured_cap c.reward_budget))

-- The four refusals under enforcement; shadow mode refuses nothing.
unfoldable pub enforce : Bool → ℕ → Option Campaign → CapacityCheck → Outcome Failure (Unit {0})
enforce false ceiling campaign s = ok tt
enforce true ceiling campaign s = do
  throw_if (ceiling == 0) (http_error 409 funding_insufficient)
  throw_if (lacks_budget campaign) (http_error 409 campaign_budget_not_configured)
  throw_if (ltb 0 s.account_shortfall) (http_error 409 funding_insufficient)
  throw_if (ltb 0 s.campaign_shortfall) (http_error 409 campaign_budget_insufficient)

abbrev pub campaign_ref : Option Campaign → Option ℕ
campaign_ref none = none
campaign_ref (some c) = some c.id

-- The larger (or re-activated) reservation.
abbrev pub extended : ℕ → ℕ → CapacityCheck → Reservation → Reservation
extended ceiling delta s r = record r {
  ceiling = ceiling;
  remaining = if is_active r.status then r.remaining + delta else delta;
  shortfall = r.shortfall + s.account_shortfall;
  campaign_shortfall = r.campaign_shortfall + s.campaign_shortfall;
  status = active;
  released_by = if is_active r.status then r.released_by else none;
}

abbrev pub fresh : ReserveInput → ℕ → Option ℕ → CapacityCheck → ℕ → Reservation
fresh input account campaign s i = record {
  id = i;
  business_key = input.business_key;
  account_id = account;
  campaign_id = campaign;
  user_id = input.user_id;
  source = input.source;
  ceiling = input.ceiling;
  remaining = input.ceiling;
  shortfall = s.account_shortfall;
  campaign_shortfall = s.campaign_shortfall;
  status = active;
  late = false;
  released_by = none;
}

-- The row that is written once the counters have moved.
unfoldable pub write_reservation :
    Option Reservation → ReserveInput → ℕ → Option ℕ → ℕ → CapacityCheck → FundingDb → ℕ × FundingDb
write_reservation (some r) input account campaign delta s db =
    (r.id, set_reservation r.id (extended input.ceiling delta s) db)
write_reservation none input account campaign delta s db = (
  db.next_id,
  record db {
    reservations = db.reservations ++ fresh input account campaign s db.next_id ∷ [];
    next_id = db.next_id + 1;
  },
)

-- The holds, when there is something to hold.
unfoldable pub hold : ℕ → Option ℕ → ℕ → FundingDb → Outcome Failure FundingDb
hold account campaign delta db =
    if ltb 0 delta
    then bump_account account (pos 0) (pos delta) db >>= bump_campaign campaign (pos delta) (pos 0)
    else ok db

-- The admission proper, once the rows are read and no earlier reservation covers it.
unfoldable pub admit :
    Bool
    → ReserveInput
    → Account
    → Option Campaign
    → Option Reservation
    → FundingDb
    → Outcome Failure (ℕ × FundingDb)
admit enforced input account campaign existing db = do
  let delta = reserve_delta existing input.ceiling db
  let s = check_capacity account campaign delta
  enforce enforced input.ceiling campaign s
  db' ← hold account.id (campaign_ref campaign) delta db
  ok (write_reservation existing input account.id (campaign_ref campaign) delta s db')

unfoldable pub reserve_reward_budget :
    Bool → ReserveInput → FundingDb → Outcome Failure (ℕ × FundingDb)
reserve_reward_budget enforced input db = do
  assert_rupiah 0 input.ceiling
  let (account, db') = lock_funding_account input.organization_id db
  campaign ← read_campaign input.campaign_id db'
  throw_if (of_other_organization campaign input.organization_id)
      (http_error 422 campaign_not_of_organization)
  let existing = find_reservation_by_key input.business_key db'
  throw_if (belongs_elsewhere existing account.id input.user_id)
      (http_error 409 funding_key_conflict)
  elim (covering existing input.ceiling) [
    | some i ↦ ok (i, db')
    | none ↦ admit enforced input account campaign existing db'
  ]
