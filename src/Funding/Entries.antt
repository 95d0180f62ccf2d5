-- ===== src/Funding/Entries.antt =====
-- Marks and entries keep the funding tables lawful (`markCommitReviewPending`, the cash entries and the
-- residual release of lib/reward-funding.ts).
use re_loop.Base.{
  ℕ, ◌≡◌, refl, Bool, false, some, List, [], ◌∷◌, ℤ, pos, All, arith, Bool-cases, Option-cases, inl,
  inr, find_row, ◌≤◌, ok, Outcome, ◌>>=◌, >>=-eq-ok, subst, ◌∙◌, update_rows,
}
use re_loop.Store.{
  Failure, Source, Text, Commit, FundingEntry, FundingDb, Key, key_eq, sum_by, Distinct, Older,
}
use re_loop.Funding.Capacity.{bump_account, lock_funding_account, find_account}
use re_loop.Funding.Reserve.{find_reservation, is_active}
use re_loop.Funding.Commit.{mark_commit_review_pending, marked}
use re_loop.Funding.Release.{release_residual_reservation, closing}
use re_loop.Funding.Payout.{EntryInput, entry_key, entry_of, add_entry, record_funding_entry}
use re_loop.Funding.Bumps.{bump_account-Effect}
use re_loop.Funding.Identity.{WellKeyed-SameRows, Linked, commit_id}
use re_loop.Funding.Invariant.{Effect-conserved, commit_share, PaidWithin}
use re_loop.Funding.Linking.{Lawful}
use re_loop.Funding.Releases.{release-Lawful}
use re_loop.Funding.Reservations.{lock-Lawful}

module _ (p : Commit → Bool) where
  marked-sum :
      (a : ℕ) (l : List Commit)
      → sum_by (commit_share a) (update_rows p marked l) ≡ sum_by (commit_share a) l
  marked-sum a [] = refl
  marked-sum a (c ∷ l) = ground (arith, marked-sum a l)

  marked-All :
      (P : Commit → Type 0) (l : List Commit)
      → ((c : Commit) → P c → P (marked c))
      → All P l
      → All P (update_rows p marked l)
  marked-All P [] k h = tt
  marked-All P (c ∷ l) k h = elim (Bool-cases (p c)) [
    | inl e ↦ rw e (k c h.0, marked-All P l k h.1)
    | inr e ↦ rw e (h.0, marked-All P l k h.1)
  ]

  marked-Distinct :
      (l : List Commit) → Distinct commit_id l → Distinct commit_id (update_rows p marked l)
  marked-Distinct [] d = tt
  marked-Distinct (c ∷ l) d = elim (Bool-cases (p c)) [
    | inl e ↦ rw e (marked-All _ l (λ x h. h) d.0, marked-Distinct l d.1)
    | inr e ↦ rw e (marked-All _ l (λ x h. h) d.0, marked-Distinct l d.1)
  ]

pub mark-Lawful : (k : Key) (db : FundingDb) → Lawful db → Lawful (mark_commit_review_pending k db)
unfolding mark_commit_review_pending
mark-Lawful k db l =
    let p : Commit → Bool = λ c. key_eq c.business_key k in
    record {
      keyed = record {
        reservations = l.keyed.reservations;
        commits = record {
          distinct = marked-Distinct p db.commits l.keyed.commits.distinct;
          older =
              marked-All p (Older commit_id db.next_id) db.commits (λ x h. h) l.keyed.commits.older;
        };
        linked = marked-All p (Linked db.reservations) db.commits (λ x h. h) l.keyed.linked;
      };
      sound = record {
        conserved = λ a. l.sound.conserved a ∙ rw (marked-sum p a db.commits) refl;
        paid_within = marked-All p PaidWithin db.commits (λ x h. h) l.sound.paid_within;
        released_empty = l.sound.released_empty;
      };
    }

add_entry-Lawful : (e : FundingEntry) (db : FundingDb) → Lawful db → Lawful (add_entry e db)
add_entry-Lawful e db l = record {
  keyed = record {
    reservations = l.keyed.reservations;
    commits = l.keyed.commits;
    linked = l.keyed.linked;
  };
  sound = record {
    conserved = l.sound.conserved;
    paid_within = l.sound.paid_within;
    released_empty = l.sound.released_empty;
  };
}

-- Confirmed cash that comes or goes leaves what is held.
cash-Lawful :
    (i : ℕ) (amount : ℤ) (db db' : FundingDb)
    → Lawful db
    → bump_account i amount (pos 0) db ≡ ok db'
    → Lawful db'
cash-Lawful i amount db db' l e =
    let (rows, a) = bump_account-Effect i amount (pos 0) db db' e in
    record {
      keyed = WellKeyed-SameRows rows l.keyed;
      sound = record {
        conserved = Effect-conserved a refl l.sound.conserved;
        paid_within = rw rows.same_commits l.sound.paid_within;
        released_empty = rw rows.same_reservations l.sound.released_empty;
      };
    }

pub entry-Lawful :
    (upper : Text → Text) (input : EntryInput) (db : FundingDb) {x : FundingEntry × Bool}
    {db' : FundingDb}
    → Lawful db
    → record_funding_entry upper input db ≡ ok (x, db')
    → Lawful db'
unfolding record_funding_entry
entry-Lawful upper input db {x} {db'} l e =
    let account = (lock_funding_account input.organization_id db).0 in
    let locked = (lock_funding_account input.organization_id db).1 in
    let kept = lock-Lawful input.organization_id db l in
    let created = entry_of upper input account.id in
    elim (Option-cases
      (find_row (λ r. key_eq r.business_key (entry_key upper input)) locked.entries)) [
        | inr (old, there) ↦ subst Lawful (ground arith) kept
        | inl new ↦
            let answer : FundingDb → Outcome Failure ((FundingEntry × Bool) × FundingDb) =
              λ d. ok ((created, false), d) in
            let bump = bump_account account.id input.amount (pos 0) (add_entry created locked) in
            let e1 : (bump >>= answer) ≡ ok (x, db') = ground arith in
            let (bumped, h, g) = >>=-eq-ok bump answer e1 in
            let same : bumped ≡ db' = cc g in
            subst Lawful same (
              cash-Lawful account.id input.amount _ bumped (add_entry-Lawful created locked kept) h)
      ]

pub residual-Lawful :
    (ended : Source → Bool) (organization reservation by : ℕ) (reason : Bool) (db : FundingDb)
    {x : ℕ × Bool} {db' : FundingDb}
    → Lawful db
    → release_residual_reservation ended organization reservation by reason db ≡ ok (x, db')
    → Lawful db'
unfolding release_residual_reservation
residual-Lawful ended organization reservation by reason db {x} {db'} l e =
    elim (Option-cases (find_reservation reservation db)) [
      | inl absent ↦ absurd (ground arith)
      | inr (r, f) ↦ elim (Option-cases (find_account r.account_id db)) [
        | inl absent ↦ absurd (ground arith)
        | inr (a, there) ↦ elim (Bool-cases (is_active r.status)) [
          | inr closed ↦ subst Lawful (ground arith) l
          | inl live ↦
              release-Lawful reservation r.remaining (closing (some by)) db {x = x}
                (λ r' f' c.
                  let same : r ≡ r' = ground arith in
                  subst (λ y. y.remaining ≤ r.remaining) same (omega arith))
                l (ground arith)
        ]
      ]
    ]
