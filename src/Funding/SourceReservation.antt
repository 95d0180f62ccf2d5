-- ===== src/Funding/SourceReservation.antt =====
-- `resolveSourceReservation` and `settleOrCommitReward` of lib/reward-funding.ts. The session and trip
-- tables are read through `admitted`; the cutover is `none` where it is unavailable.
use re_loop.Base.{
  ℕ, ◌+◌, Bool, true, false, Option, none, some, [], ◌∷◌, ◌++◌, ltb, or_else, if◌then◌else◌,
  Outcome, ok, ◌>>=◌,
}
use re_loop.Store.{
  Reservation, FundingDb, Source, session_source, trip_source, active, Key, session_admission_key,
  trip_issuance_key, Failure,
}
use re_loop.Funding.Capacity.{lock_funding_account}
use re_loop.Funding.Reserve.{find_reservation_by_key}
use re_loop.Funding.Commit.{find_commit, settle_committed_reward, commit_reward_against_budget}

-- What a session or a trip with a user says about its admission.
pub record Admitted : Type 0 where
  pub created_at : ℕ
  pub user_id : ℕ
  pub campaign_id : Option ℕ
  pub organization_id : ℕ

pub data SourceAnswer : Type 0 where
  has_reservation : Reservation → SourceAnswer
  legacy_source no_source : SourceAnswer

abbrev pub source_key : Source → Key
source_key (session_source i) = session_admission_key i
source_key (trip_source i) = trip_issuance_key i

abbrev pub before_cutover : ℕ → Option ℕ → Bool
before_cutover t none = false
before_cutover t (some at) = ltb t at

-- The zero-ceiling reservation of a source that was admitted without one.
abbrev pub late_reservation : Source → Admitted → ℕ → ℕ → Reservation
late_reservation s a account i = record {
  id = i;
  business_key = source_key s;
  account_id = account;
  campaign_id = a.campaign_id;
  user_id = a.user_id;
  source = s;
  ceiling = 0;
  remaining = 0;
  shortfall = 0;
  campaign_shortfall = 0;
  status = active;
  late = true;
  released_by = none;
}

abbrev pub add_reservation : Reservation → FundingDb → FundingDb
add_reservation r db = record db {
  reservations = db.reservations ++ r ∷ [];
  next_id = db.next_id + 1;
}

unfoldable pub admit_late : Source → Admitted → FundingDb → SourceAnswer × FundingDb
admit_late s a db = (
  has_reservation (
      late_reservation s a (lock_funding_account a.organization_id db).0.id
        (lock_funding_account a.organization_id db).1.next_id),
  add_reservation
      (late_reservation s a (lock_funding_account a.organization_id db).0.id
        (lock_funding_account a.organization_id db).1.next_id)
      (lock_funding_account a.organization_id db).1,
)

-- Commits against the reservation of the source, when it has one.
unfoldable pub commit_on_source :
    Key → ℕ → Bool → SourceAnswer × FundingDb → Outcome Failure (Option ℕ × FundingDb)
commit_on_source k amount pending x = elim x.0 [
  | has_reservation r ↦ do
    (c, db') ← commit_reward_against_budget r.id k amount pending x.1
    ok (some c.commit_id, db')
  | legacy_source ↦ ok (none, x.1)
  | no_source ↦ ok (none, x.1)
]

abbrev pub positive : Option ℕ → Option ℕ
positive none = none
positive (some n) = if ltb 0 n then some n else none

module _ (admitted : Source → Option Admitted) (cutover : Option ℕ) where
  unfoldable pub resolve_source_reservation : Source → FundingDb → SourceAnswer × FundingDb
  resolve_source_reservation s db = elim (find_reservation_by_key (source_key s) db) [
    | some r ↦ (has_reservation r, db)
    | none ↦ elim (admitted s) [
      | none ↦ (no_source, db)
      | some a ↦ elim (before_cutover a.created_at cutover) [
        | true ↦ (legacy_source, db)
        | false ↦ admit_late s a db
      ]
    ]
  ]

  -- `none` for the target keeps what is held.
  unfoldable pub settle_or_commit_reward :
      Key → Source → Option ℕ → Bool → FundingDb → Outcome Failure (Option ℕ × FundingDb)
  settle_or_commit_reward k s target pending db = elim (find_commit k db) [
    | some c ↦ settle_committed_reward k (or_else target c.held) pending db
    | none ↦ elim (positive target) [
      | none ↦ ok (none, db)
      | some n ↦ commit_on_source k n pending (resolve_source_reservation s db)
    ]
  ]
