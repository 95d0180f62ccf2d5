-- ===== src/Funding/Commit.antt =====
-- `commitRewardAgainstBudget`, `settleCommittedReward` and `markCommitReviewPending` of
-- lib/reward-funding.ts.
use re_loop.Base.{
  ℕ, ◌+◌, ◌-◌, Bool, true, false, not, Option, none, some, [], ◌∷◌, ◌++◌, ℤ, pos, ◌-ℤ◌, neg, ltb,
  ◌==◌, min, max, if◌then◌else◌, find_row, update_rows, Outcome, ok, ◌>>=◌, ◌>>◌, throw_if,
  or_throw,
}
use re_loop.Store.{
  Reservation, Commit, FundingDb, Key, key_eq, Failure, http_error, missing_row,
  funding_key_conflict, reservation_not_found, update_row,
}
use re_loop.Funding.Capacity.{assert_rupiah, bump_account, bump_campaign}
use re_loop.Funding.Reserve.{find_reservation, set_reservation, is_active}

abbrev pub find_commit : Key → FundingDb → Option Commit
find_commit k db = find_row (λ c. key_eq c.business_key k) db.commits

abbrev pub set_commit : ℕ → (Commit → Commit) → FundingDb → FundingDb
set_commit i g db = record db { commits = update_row (λ c. c.id == i) g db.commits }

-- `covered` is what an earlier commit still draws from its reservation; a review may have lowered the
-- obligation below its uncovered part.
pub record CommitResult : Type 0 where
  pub commit_id : ℕ
  pub covered : ℤ
  pub uncovered : ℕ
  pub existing : Bool

-- What an active reservation can still cover.
abbrev pub coverable : Reservation → ℕ → ℕ
coverable r amount = if is_active r.status then min amount r.remaining else 0

abbrev pub drawn : ℕ → Reservation → Reservation
drawn covered r = record r { remaining = r.remaining - covered }

-- Takes `covered` from the reservation's remaining ceiling.
unfoldable pub draw : ℕ → ℕ → FundingDb → FundingDb
draw i covered db = if ltb 0 covered then set_reservation i (drawn covered) db else db

-- Holds on the account what no reservation covers.
unfoldable pub hold_uncovered : ℕ → ℕ → FundingDb → Outcome Failure FundingDb
hold_uncovered account uncovered db =
    if ltb 0 uncovered then bump_account account (pos 0) (pos uncovered) db else ok db

abbrev pub new_commit : Reservation → Key → ℕ → ℕ → Bool → ℕ → Commit
new_commit r k amount uncovered pending i = record {
  id = i;
  reservation_id = r.id;
  account_id = r.account_id;
  campaign_id = r.campaign_id;
  user_id = r.user_id;
  business_key = k;
  held = amount;
  uncovered = uncovered;
  paid = 0;
  review_pending = pending;
}

abbrev pub add_commit : Reservation → Key → ℕ → ℕ → Bool → FundingDb → FundingDb
add_commit r k amount uncovered pending db = record db {
  commits = db.commits ++ new_commit r k amount uncovered pending db.next_id ∷ [];
  next_id = db.next_id + 1;
}

-- The first commit under a key.
unfoldable pub commit_new :
    Reservation → Key → ℕ → Bool → FundingDb → Outcome Failure (CommitResult × FundingDb)
commit_new r k amount pending db = do
  let covered = coverable r amount
  let uncovered = amount - covered
  held ← hold_uncovered r.account_id uncovered (draw r.id covered db)
  charged ← bump_campaign r.campaign_id (neg (pos covered)) (pos amount) held
  ok (
    record {
      commit_id = charged.next_id;
      covered = pos covered;
      uncovered = uncovered;
      existing = false;
    },
    add_commit r k amount uncovered pending charged,
  )

-- A retry under the same key: the recorded commit, or a conflict when it belongs elsewhere.
unfoldable pub commit_again : ℕ → Commit → FundingDb → Outcome Failure (CommitResult × FundingDb)
commit_again reservation c db = do
  throw_if (not (c.reservation_id == reservation)) (http_error 409 funding_key_conflict)
  ok (
    record {
      commit_id = c.id;
      covered = pos c.held -ℤ pos c.uncovered;
      uncovered = c.uncovered;
      existing = true;
    },
    db,
  )

unfoldable pub commit_reward_against_budget :
    ℕ → Key → ℕ → Bool → FundingDb → Outcome Failure (CommitResult × FundingDb)
commit_reward_against_budget reservation k amount pending db = do
  assert_rupiah 0 amount
  r ← or_throw (find_reservation reservation db) (http_error 404 reservation_not_found)
  elim (find_commit k db) [
    | some c ↦ commit_again reservation c db
    | none ↦ commit_new r k amount pending db
  ]

abbrev pub settled : ℕ → ℕ → Bool → Commit → Commit
settled new_held uncovered pending c = record c {
  held = new_held;
  review_pending = pending;
  uncovered = c.uncovered + uncovered;
}

-- A larger obligation draws from the reservation, and holds what it does not cover.
unfoldable pub raise_on : Reservation → Commit → ℕ → Bool → FundingDb → Outcome Failure FundingDb
raise_on r c new_held pending db = do
  let delta = new_held - c.held
  let covered = coverable r delta
  let uncovered = delta - covered
  held ← hold_uncovered c.account_id uncovered (draw r.id covered db)
  charged ← bump_campaign c.campaign_id (neg (pos covered)) (pos delta) held
  ok (set_commit c.id (settled new_held uncovered pending) charged)

unfoldable pub raise_commit : Commit → ℕ → Bool → FundingDb → Outcome Failure FundingDb
raise_commit c new_held pending db = do
  r ← or_throw (find_reservation c.reservation_id db) missing_row
  raise_on r c new_held pending db

-- A smaller obligation gives the difference back.
unfoldable pub lower_commit : Commit → ℕ → Bool → FundingDb → Outcome Failure FundingDb
lower_commit c new_held pending db = do
  let delta = c.held - new_held
  released ← bump_account c.account_id (pos 0) (neg (pos delta)) db
  charged ← bump_campaign c.campaign_id (pos 0) (neg (pos delta)) released
  ok (set_commit c.id (settled new_held 0 pending) charged)

-- The obligation becomes `new_held`.
unfoldable pub settle_to : Commit → ℕ → Bool → FundingDb → Outcome Failure FundingDb
settle_to c new_held pending db =
    if ltb c.held new_held
    then raise_commit c new_held pending db
    else if ltb new_held c.held
    then lower_commit c new_held pending db
    else ok (set_commit c.id (settled new_held 0 pending) db)

-- `settleCommittedReward`: never below what was paid out; `none` for an earning without a commit.
unfoldable pub settle_committed_reward :
    Key → ℕ → Bool → FundingDb → Outcome Failure (Option ℕ × FundingDb)
settle_committed_reward k target pending db = do
  assert_rupiah 0 target
  elim (find_commit k db) [
    | none ↦ ok (none, db)
    | some c ↦ do db' ← settle_to c (max target c.paid) pending db; ok (some c.id, db')
  ]

abbrev pub marked : Commit → Commit
marked c = record c { review_pending = true }

-- `markCommitReviewPending`
unfoldable pub mark_commit_review_pending : Key → FundingDb → FundingDb
mark_commit_review_pending k db = record db {
  commits = update_rows (λ c. key_eq c.business_key k) marked db.commits;
}
