-- ===== src/Funding/History.antt =====
-- Every history of the funding operations of lib/reward-funding.ts, as a step relation.
use re_loop.Base.{ℕ, ◌≡◌, refl, Bool, Option, some, List, [], ok}
use re_loop.Store.{Source, Campaign, Text, Reservation, FundingEntry, FundingDb, Key}
use re_loop.Funding.Reserve.{ReserveInput, reserve_reward_budget, find_reservation}
use re_loop.Funding.Commit.{
  CommitResult, commit_reward_against_budget, settle_committed_reward, mark_commit_review_pending,
}
use re_loop.Funding.Release.{
  ReleaseOptions, release_unused_reward_budget, close_reservation, release_residual_reservation,
}
use re_loop.Funding.Payout.{EntryInput, record_funding_entry, Attribution, settle_payout_funding}
use re_loop.Funding.Invariant.{Sound}
use re_loop.Funding.SourceReservation.{
  Admitted, resolve_source_reservation, settle_or_commit_reward,
}
use re_loop.Funding.Sources.{resolve-Lawful, review-Lawful}
use re_loop.Funding.Linking.{Lawful}
use re_loop.Funding.Laws.{commit-Lawful, settle-Lawful}
use re_loop.Funding.Releases.{ClosesAll, release-Lawful, close-Lawful}
use re_loop.Funding.Reservations.{reserve-Lawful}
use re_loop.Funding.Payouts.{payout-Lawful}
use re_loop.Funding.Entries.{mark-Lawful, entry-Lawful, residual-Lawful}

-- One transaction on the funding tables. The switch of enforcement may change at any time. A release
-- that closes gives back all that remains, as its callers do.
pub data Step (upper : Text → Text) (ended : Source → Bool) (admitted : Source → Option Admitted)
    (cutover : Option ℕ) : FundingDb → FundingDb → Type 0 where
  reserves :
      (enforced : Bool) (input : ReserveInput) {i : ℕ} {db db' : FundingDb}
      → reserve_reward_budget enforced input db ≡ ok (i, db')
      → Step upper ended admitted cutover db db'
  commits :
      (reservation : ℕ) (k : Key) (amount : ℕ) (pending : Bool) {r : CommitResult}
      {db db' : FundingDb}
      → commit_reward_against_budget reservation k amount pending db ≡ ok (r, db')
      → Step upper ended admitted cutover db db'
  settles :
      (k : Key) (target : ℕ) (pending : Bool) {o : Option ℕ} {db db' : FundingDb}
      → settle_committed_reward k target pending db ≡ ok (o, db')
      → Step upper ended admitted cutover db db'
  marks :
      (k : Key) {db : FundingDb}
      → Step upper ended admitted cutover db (mark_commit_review_pending k db)
  releases :
      (reservation amount : ℕ) (o : ReleaseOptions) {x : ℕ × Bool} {db db' : FundingDb}
      → ((r : Reservation) → find_reservation reservation db ≡ some r → ClosesAll o r amount)
      → release_unused_reward_budget reservation amount o db ≡ ok (x, db')
      → Step upper ended admitted cutover db db'
  closes :
      (reservation : ℕ) (by : Option ℕ) {x : ℕ × Bool} {db db' : FundingDb}
      → close_reservation reservation by db ≡ ok (x, db')
      → Step upper ended admitted cutover db db'
  frees :
      (organization reservation by : ℕ) (reason : Bool) {x : ℕ × Bool} {db db' : FundingDb}
      → release_residual_reservation ended organization reservation by reason db ≡ ok (x, db')
      → Step upper ended admitted cutover db db'
  records :
      (input : EntryInput) {x : FundingEntry × Bool} {db db' : FundingDb}
      → record_funding_entry upper input db ≡ ok (x, db')
      → Step upper ended admitted cutover db db'
  resolves :
      (s : Source) {db : FundingDb}
      → Step upper ended admitted cutover db (resolve_source_reservation admitted cutover s db).1
  reviews :
      (k : Key) (s : Source) (target : Option ℕ) (pending : Bool) {o : Option ℕ}
      {db db' : FundingDb}
      → settle_or_commit_reward admitted cutover k s target pending db ≡ ok (o, db')
      → Step upper ended admitted cutover db db'
  pays :
      (redemption user gross : ℕ) (actor : Option ℕ) {x : Attribution} {db db' : FundingDb}
      → settle_payout_funding redemption user gross actor db ≡ ok (x, db')
      → Step upper ended admitted cutover db db'

Step-Lawful :
    (upper : Text → Text) (ended : Source → Bool) (admitted : Source → Option Admitted)
    (cutover : Option ℕ) {db db' : FundingDb}
    → Step upper ended admitted cutover db db'
    → Lawful db
    → Lawful db'
Step-Lawful upper ended admitted cutover (reserves enforced input {db = db} e) l =
    reserve-Lawful enforced input db l e
Step-Lawful upper ended admitted cutover (commits reservation k amount pending {db = db} e) l =
    commit-Lawful reservation k amount pending db l e
Step-Lawful upper ended admitted cutover (settles k target pending {db = db} e) l =
    settle-Lawful k target pending db l e
Step-Lawful upper ended admitted cutover (marks k {db = db}) l = mark-Lawful k db l
Step-Lawful upper ended admitted cutover (releases reservation amount o {db = db} all e) l =
    release-Lawful reservation amount o db all l e
Step-Lawful upper ended admitted cutover (closes reservation by {db = db} e) l =
    close-Lawful reservation by db l e
Step-Lawful upper ended admitted cutover (frees organization reservation by reason {db = db} e) l =
    residual-Lawful ended organization reservation by reason db l e
Step-Lawful upper ended admitted cutover (records input {db = db} e) l =
    entry-Lawful upper input db l e
Step-Lawful upper ended admitted cutover (resolves s {db = db}) l =
    resolve-Lawful admitted cutover s db l
Step-Lawful upper ended admitted cutover (reviews k s target pending {db = db} e) l =
    review-Lawful admitted cutover k s target pending db l e
Step-Lawful upper ended admitted cutover (pays redemption user gross actor {db = db} e) l =
    payout-Lawful redemption user gross actor db l e

-- The tables before the first funding transaction.
abbrev pub opened : List Campaign → FundingDb
opened campaigns = record {
  accounts = [];
  campaigns = campaigns;
  reservations = [];
  commits = [];
  releases = [];
  entries = [];
  next_id = 0;
}

-- The states that any sequence of transactions reaches from a database without accounts.
pub data Reach (upper : Text → Text) (ended : Source → Bool) (admitted : Source → Option Admitted)
    (cutover : Option ℕ) (campaigns : List Campaign) : FundingDb → Type 0 where
  start : Reach upper ended admitted cutover campaigns (opened campaigns)
  next :
      {db db' : FundingDb}
      → Reach upper ended admitted cutover campaigns db
      → Step upper ended admitted cutover db db'
      → Reach upper ended admitted cutover campaigns db'

pub Reach-Lawful :
    (upper : Text → Text) (ended : Source → Bool) (admitted : Source → Option Admitted)
    (cutover : Option ℕ) (campaigns : List Campaign) {db : FundingDb}
    → Reach upper ended admitted cutover campaigns db
    → Lawful db
Reach-Lawful upper ended admitted cutover campaigns start = record {
  keyed = record {
    reservations = record { distinct = tt; older = tt };
    commits = record { distinct = tt; older = tt };
    linked = tt;
  };
  sound = record { conserved = λ a. refl; paid_within = tt; released_empty = tt };
}
Reach-Lawful upper ended admitted cutover campaigns (next before step) =
    Step-Lawful upper ended admitted cutover step
      (Reach-Lawful upper ended admitted cutover campaigns before)

-- After any history of funding transactions, each account holds exactly what its reservations can
-- still draw and what its commits still owe; no commit is paid beyond its obligation; a released
-- reservation holds nothing.
pub books_balance :
    (upper : Text → Text) (ended : Source → Bool) (admitted : Source → Option Admitted)
    (cutover : Option ℕ) (campaigns : List Campaign) {db : FundingDb}
    → Reach upper ended admitted cutover campaigns db
    → Sound db
books_balance upper ended admitted cutover campaigns r =
    (Reach-Lawful upper ended admitted cutover campaigns r).sound
