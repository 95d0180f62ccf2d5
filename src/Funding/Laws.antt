-- ===== src/Funding/Laws.antt =====
-- The laws of commits and settlements: the books balance before and after, and a retry is free.
use re_loop.Base.{
  ℕ, ◌-◌, ◌≤◌, ◌<◌, ◌≡◌, refl, Bool, true, Option, none, some, pos, ◌-ℤ◌, int_laws, ◌==◌, ltb, max,
  arith, Bool-cases, Option-cases, inl, inr, find_row, ok, subst, ◌∙◌,
}
use re_loop.Store.{
  Reservation, Commit, FundingDb, Key, key_eq_refl, found_by_key, find_row-All, update_row-All,
  find-append_new, find_row-test,
}
use re_loop.Funding.Reserve.{find_reservation}
use re_loop.Funding.Commit.{
  CommitResult, find_commit, coverable, commit_new, commit_again, commit_reward_against_budget,
  settled, raise_commit, lower_commit, settle_to, settle_committed_reward, set_commit, new_commit,
}
use re_loop.Funding.Capacity.{assert_rupiah, max_funding_rupiah}
use re_loop.Funding.Bumps.{set_commit-Effect, bump_campaign-Effect}
use re_loop.Funding.Identity.{WellKeyed-set_commit, commit_id, Linked}
use re_loop.Funding.Invariant.{Effect-conserved, PaidWithin}
use re_loop.Funding.Obligations.{
  commit_new-steps, hold_uncovered-Effect, draw-commits, commit_new-Sound, found_by_own_id,
}
use re_loop.Funding.Settlements.{raise_on-Sound, lower_commit-Sound}
use re_loop.Funding.Linking.{
  Lawful, draw-find, commit_new-WellKeyed, raise_on-WellKeyed, lower_commit-WellKeyed,
}

commit_new-Lawful :
    (r : Reservation) (k : Key) (amount : ℕ) (pending : Bool) (db : FundingDb) (res : CommitResult)
    (db' : FundingDb)
    → find_reservation r.id db ≡ some r
    → Lawful db
    → commit_new r k amount pending db ≡ ok (res, db')
    → Lawful db'
commit_new-Lawful r k amount pending db res db' found l e = record {
  keyed = commit_new-WellKeyed r k amount pending db found l.keyed e;
  sound = commit_new-Sound r k amount pending db found l.sound e;
}

-- A commit, first or retried and covered or not, keeps the books: every account still holds what its
-- reservations and unpaid obligations add up to.
pub commit-Lawful :
    (reservation : ℕ) (k : Key) (amount : ℕ) (pending : Bool) (db : FundingDb) {res : CommitResult}
    {db' : FundingDb}
    → Lawful db
    → commit_reward_against_budget reservation k amount pending db ≡ ok (res, db')
    → Lawful db'
unfolding commit_reward_against_budget commit_again
commit-Lawful reservation k amount pending db {res} {db'} l e =
    elim (Option-cases (find_reservation reservation db)) [
      | inl absent ↦ absurd (ground arith)
      | inr (r, found) ↦ elim (Option-cases (find_commit k db)) [
        | inl new ↦
            commit_new-Lawful r k amount pending db res db' (found_by_own_id reservation db r found)
              l (ground arith)
        | inr (c, old) ↦ subst Lawful (ground arith) l
      ]
    ]

raise_commit-Lawful :
    (c : Commit) (new_held : ℕ) (pending : Bool) (db db' : FundingDb)
    → find_row (λ x. x.id == c.id) db.commits ≡ some c
    → c.held < new_held
    → Lawful db
    → raise_commit c new_held pending db ≡ ok db'
    → Lawful db'
unfolding raise_commit
raise_commit-Lawful c new_held pending db db' found more l e =
    let (r, there, one) =
      find_row-All (Linked db.reservations) _ db.commits c l.keyed.linked found in
    record {
      keyed = raise_on-WellKeyed r c new_held pending db l.keyed (ground arith);
      sound =
          raise_on-Sound r c new_held pending db (found_by_own_id c.reservation_id db r there) one
            found more l.sound (ground arith);
    }

keep_commit-Lawful :
    (c : Commit) (pending : Bool) (db : FundingDb)
    → find_row (λ x. x.id == c.id) db.commits ≡ some c
    → Lawful db
    → Lawful (set_commit c.id (settled c.held 0 pending) db)
keep_commit-Lawful c pending db found l = record {
  keyed =
      WellKeyed-set_commit c.id (settled c.held 0 pending) db (λ x. refl) (λ x. refl) (λ x. refl)
        l.keyed;
  sound = record {
    conserved =
        Effect-conserved
          (set_commit-Effect c.id (settled c.held 0 pending) (pos 0) db c found refl
            (omega int_laws))
          refl l.sound.conserved;
    paid_within =
        update_row-All PaidWithin _ (settled c.held 0 pending) db.commits c l.sound.paid_within
          found (find_row-All PaidWithin _ db.commits c l.sound.paid_within found);
    released_empty = l.sound.released_empty;
  };
}

settle_to-Lawful :
    (c : Commit) (new_held : ℕ) (pending : Bool) (db db' : FundingDb)
    → find_row (λ x. x.id == c.id) db.commits ≡ some c
    → c.paid ≤ new_held
    → Lawful db
    → settle_to c new_held pending db ≡ ok db'
    → Lawful db'
unfolding settle_to
settle_to-Lawful c new_held pending db db' found within l e =
    elim (Bool-cases (ltb c.held new_held)) [
      | inl more ↦
          raise_commit-Lawful c new_held pending db db' found (ground arith) l (rw more at e)
      | inr not_more ↦ elim (Bool-cases (ltb new_held c.held)) [
        | inl less ↦
            let step : lower_commit c new_held pending db ≡ ok db' = ground arith in
            record {
              keyed = lower_commit-WellKeyed c new_held pending db l.keyed step;
              sound =
                  lower_commit-Sound c new_held pending db found (ground arith) within l.sound step;
            }
        | inr not_less ↦
            let same : new_held ≡ c.held = ground arith in
            let step : set_commit c.id (settled new_held 0 pending) db ≡ db' = ground arith in
            subst Lawful step (rw same (keep_commit-Lawful c pending db found l))
      ]
    ]

-- A settlement, up or down, keeps the books, and never lowers an obligation below what was paid out.
pub settle-Lawful :
    (k : Key) (target : ℕ) (pending : Bool) (db : FundingDb) {o : Option ℕ} {db' : FundingDb}
    → Lawful db
    → settle_committed_reward k target pending db ≡ ok (o, db')
    → Lawful db'
unfolding settle_committed_reward
settle-Lawful k target pending db {o} {db'} l e = elim (Option-cases (find_commit k db)) [
  | inl absent ↦ subst Lawful (ground arith) l
  | inr (c, f) ↦
      let found = found_by_key commit_id _ db.commits c l.keyed.commits.distinct f in
      settle_to-Lawful c (max target c.paid) pending db db' found (omega arith) l (ground arith)
]

retry :
    (reservation : ℕ) (k : Key) (again : ℕ) (pending : Bool) (db : FundingDb) (x : Reservation)
    (c : Commit)
    → find_reservation reservation db ≡ some x
    → find_commit k db ≡ some c
    → c.reservation_id ≡ reservation
    → again ≤ max_funding_rupiah
    → commit_reward_against_budget reservation k again pending db
      ≡ ok (
        record {
          commit_id = c.id;
          covered = pos c.held -ℤ pos c.uncovered;
          uncovered = c.uncovered;
          existing = true;
        },
        db,
      )
unfolding commit_reward_against_budget assert_rupiah commit_again
retry reservation k again pending db x c row recorded same fits = ground arith

-- A retried commit under the same key on the same reservation changes nothing and reports the
-- recorded commit, whatever amount it asks for within the range of a counter.
pub commit_again_free :
    (reservation : ℕ) (k : Key) (amount again : ℕ) (pending pending' : Bool) (db : FundingDb)
    {res : CommitResult} {db' : FundingDb}
    → find_commit k db ≡ none
    → again ≤ max_funding_rupiah
    → commit_reward_against_budget reservation k amount pending db ≡ ok (res, db')
    → commit_reward_against_budget reservation k again pending' db'
      ≡ ok (record res { existing = true }, db')
unfolding commit_reward_against_budget assert_rupiah commit_again
commit_again_free reservation k amount again pending pending' db {res} {db'} new fits e =
    elim (Option-cases (find_reservation reservation db)) [
      | inl absent ↦ absurd (ground arith)
      | inr (r, f) ↦
          let found = found_by_own_id reservation db r f in
          let same_id : r.id ≡ reservation =
            ground (arith, find_row-test (λ x. x.id == reservation) db.reservations r f) in
          let first : commit_new r k amount pending db ≡ ok (res, db') = ground arith in
          let (held, h, charged, g, after, result) = commit_new-steps r k amount pending db first in
          let (rows, _) = hold_uncovered-Effect _ _ _ held h in
          let (rows', _) = bump_campaign-Effect 0 _ _ _ held charged g in
          let (x, there, _) = draw-find (coverable r amount) db r found in
          let commits : charged.commits ≡ db.commits =
            rows'.same_commits
            ∙ rows.same_commits
            ∙ (draw-commits r.id (coverable r amount) db).0 in
          let row : find_reservation reservation db' ≡ some x =
            subst (λ i. find_reservation i db' ≡ some x) same_id
              (rw (after, rows'.same_reservations, rows.same_reservations) there) in
          let recorded : find_commit k db'
              ≡ some (new_commit r k amount (amount - coverable r amount) pending charged.next_id) =
            rw (after, commits) (find-append_new _ db.commits _ new (key_eq_refl k)) in
          let within : coverable r amount ≤ amount = ground arith in
          let covered : pos amount -ℤ pos (amount - coverable r amount) ≡ pos (coverable r amount) =
            omega int_laws in
          retry reservation k again pending' db' x _ row recorded same_id fits
          ∙ rw (result, covered) refl
    ]
