-- ===== src/Funding/Release.antt =====
-- `releaseUnusedRewardBudget`, `closeReservation` and `releaseResidualReservation` of
-- lib/reward-funding.ts. Release times are not kept.
use re_loop.Base.{
  ℕ, ◌-◌, Bool, true, false, not, ◌&&◌, Option, none, some, [], ◌∷◌, ◌++◌, pos, neg, ltb, ◌==◌, min,
  if◌then◌else◌, find_row, is_some, Outcome, ok, ◌>>=◌, ◌>>◌, throw_if, or_throw,
}
use re_loop.Store.{
  Reservation, Release, FundingDb, Key, key_eq, Source, released, Failure, http_error, range_error,
  missing_row, funding_key_conflict, reservation_not_found, reservation_source_still_open,
  reservation_release_reason_required,
}
use re_loop.Funding.Capacity.{assert_rupiah, find_account, bump_account, bump_campaign}
use re_loop.Funding.Reserve.{find_reservation, set_reservation, is_active}

pub record ReleaseOptions : Type 0 where
  pub close : Bool
  pub released_by : Option ℕ
  pub business_key : Option Key

abbrev pub find_release : Key → FundingDb → Option Release
find_release k db = find_row (λ r. key_eq r.business_key k) db.releases

abbrev pub recorded_release : Option Key → FundingDb → Option Release
recorded_release none db = none
recorded_release (some k) db = find_release k db

-- What a release gives back: nothing of a released reservation, and never more than remains.
abbrev pub releasable : Reservation → ℕ → ℕ
releasable r amount = if is_active r.status then min amount r.remaining else 0

abbrev pub shrunk : ℕ → ReleaseOptions → Reservation → Reservation
shrunk amount o r = record r {
  remaining = r.remaining - amount;
  status = if o.close then released else r.status;
  released_by = if o.close then o.released_by else r.released_by;
}

-- The counters, when something is given back.
unfoldable pub give_back : Reservation → ℕ → FundingDb → Outcome Failure FundingDb
give_back r amount db =
    if ltb 0 amount
    then bump_account r.account_id (pos 0) (neg (pos amount)) db
      >>= bump_campaign r.campaign_id (neg (pos amount)) (pos 0)
    else ok db

unfoldable pub shrink : Reservation → ℕ → ReleaseOptions → FundingDb → Outcome Failure FundingDb
shrink r amount o db =
    if is_active r.status
    then give_back r amount db >>= (λ db'. ok (set_reservation r.id (shrunk amount o) db'))
    else ok db

abbrev pub new_release : Reservation → Key → ℕ → ReleaseOptions → Release
new_release r k amount o = record {
  reservation_id = r.id;
  account_id = r.account_id;
  campaign_id = r.campaign_id;
  business_key = k;
  amount = amount;
  released_by = o.released_by;
}

unfoldable pub record_release :
    Reservation → ℕ → ReleaseOptions → Option Key → FundingDb → FundingDb
record_release r amount o none db = db
record_release r amount o (some k) db = record db {
  releases = db.releases ++ new_release r k amount o ∷ [];
}

-- The first release under its key, or a release without one.
unfoldable pub release_new :
    Reservation → ℕ → ReleaseOptions → FundingDb → Outcome Failure ((ℕ × Bool) × FundingDb)
release_new r amount o db = do
  let given = releasable r amount
  db' ← shrink r given o db
  ok ((given, false), record_release r given o o.business_key db')

-- The amount released, and whether it was released before.
unfoldable pub release_unused_reward_budget :
    ℕ → ℕ → ReleaseOptions → FundingDb → Outcome Failure ((ℕ × Bool) × FundingDb)
release_unused_reward_budget reservation amount o db = do
  assert_rupiah 0 amount
  throw_if (not o.close && not (is_some o.business_key)) range_error
  r ← or_throw (find_reservation reservation db) (http_error 404 reservation_not_found)
  elim (recorded_release o.business_key db) [
    | some old ↦ do
      throw_if (not (old.reservation_id == reservation)) (http_error 409 funding_key_conflict)
      ok ((old.amount, true), db)
    | none ↦ release_new r amount o db
  ]

abbrev pub closing : Option ℕ → ReleaseOptions
closing by = record { close = true; released_by = by; business_key = none }

-- Closes a reservation with everything that it still holds.
unfoldable pub close_reservation :
    ℕ → Option ℕ → FundingDb → Outcome Failure ((ℕ × Bool) × FundingDb)
close_reservation reservation by db = do
  r ← or_throw (find_reservation reservation db) (http_error 404 reservation_not_found)
  release_unused_reward_budget reservation r.remaining (closing by) db

-- `releaseResidualReservation`: `ended` is whether the session or trip of the source has ended.
unfoldable pub release_residual_reservation :
    (Source → Bool) → ℕ → ℕ → ℕ → Bool → FundingDb → Outcome Failure ((ℕ × Bool) × FundingDb)
release_residual_reservation ended organization reservation by has_reason db = do
  throw_if (not has_reason) (http_error 422 reservation_release_reason_required)
  r ← or_throw (find_reservation reservation db) (http_error 404 reservation_not_found)
  a ← or_throw (find_account r.account_id db) missing_row
  throw_if (not (a.organization_id == organization)) (http_error 404 reservation_not_found)
  if not (is_active r.status)
      then ok ((0, true), db)
      else throw_if (not (ended r.source)) (http_error 409 reservation_source_still_open)
        >> release_unused_reward_budget reservation r.remaining (closing (some by)) db
