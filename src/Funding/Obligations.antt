-- ===== src/Funding/Obligations.antt =====
-- Commits and settlements keep the conservation law (`commitRewardAgainstBudget`,
-- `settleCommittedReward`).
use re_loop.Base.{
  sym, ◌∙◌, ℕ, ◌-◌, ◌≤◌, ◌≡◌, refl, Bool, false, some, pos, neg, int_laws, ◌==◌, ltb, All, arith,
  Bool-cases, inl, inr, ok, >>=-eq-ok, subst,
}
use re_loop.Store.{
  Reservation, FundingDb, Key, update_row-All, append-All, find_row-All, find_row-test,
}
use re_loop.Funding.Capacity.{bump_campaign}
use re_loop.Funding.Reserve.{find_reservation}
use re_loop.Funding.Commit.{
  CommitResult, coverable, drawn, draw, hold_uncovered, new_commit, add_commit, commit_new,
}
use re_loop.Funding.Invariant.{
  Sound, Effect, Effect-trans, Effect-conserved, ReleasedEmpty, PaidWithin,
}
use re_loop.Funding.Bumps.{
  SameRows, SameRows-refl, SameRows-Effect, bump_account-Effect, bump_campaign-Effect,
  set_reservation-Effect, add_commit-Effect,
}

pub draw-Effect :
    (covered : ℕ) (db : FundingDb) (r : Reservation)
    → find_reservation r.id db ≡ some r
    → covered ≤ r.remaining
    → Effect r.account_id (pos 0) (neg (pos covered)) db (draw r.id covered db)
unfolding draw
draw-Effect covered db r found fits = elim (Bool-cases (ltb 0 covered)) [
  | inl some_covered ↦ rw some_covered (
      set_reservation-Effect r.id (drawn covered) (neg (pos covered)) db r found refl
        (omega int_laws))
  | inr none_covered ↦
      let nothing : covered ≡ 0 = ground arith in
      let zero_covered : neg (pos covered) ≡ pos 0 = rw nothing (omega int_laws) in
      rw (none_covered, zero_covered) (SameRows-Effect (SameRows-refl db) refl)
]

pub draw-ReleasedEmpty :
    (covered : ℕ) (db : FundingDb) (r : Reservation)
    → find_reservation r.id db ≡ some r
    → All ReleasedEmpty db.reservations
    → All ReleasedEmpty (draw r.id covered db).reservations
unfolding draw
draw-ReleasedEmpty covered db r found h = elim (Bool-cases (ltb 0 covered)) [
  | inl some_covered ↦ rw some_covered (
      update_row-All ReleasedEmpty _ (drawn covered) db.reservations r h found
        (λ e. omega (arith, find_row-All ReleasedEmpty _ db.reservations r h found e)))
  | inr none_covered ↦ rw none_covered h
]

pub draw-commits :
    (id covered : ℕ) (db : FundingDb)
    → ((draw id covered db).commits ≡ db.commits) × ((draw id covered db).accounts ≡ db.accounts)
unfolding draw
draw-commits id covered db = ground arith

pub hold_uncovered-Effect :
    (account uncovered : ℕ) (db db' : FundingDb)
    → hold_uncovered account uncovered db ≡ ok db'
    → SameRows db db' × Effect account (pos uncovered) (pos 0) db db'
unfolding hold_uncovered
hold_uncovered-Effect account uncovered db db' e = elim (Bool-cases (ltb 0 uncovered)) [
  | inl some_left ↦ bump_account-Effect account (pos 0) (pos uncovered) db db' (rw some_left at e)
  | inr none_left ↦
      let nothing : uncovered ≡ 0 = ground arith in
      let same : db ≡ db' = ground arith in
      rw nothing (
        subst (λ d. SameRows db d × Effect account (pos 0) (pos 0) db d) same
          (SameRows-refl db, SameRows-Effect (SameRows-refl db) refl))
]

-- What a successful first commit did, step by step.
pub commit_new-steps :
    (r : Reservation) (k : Key) (amount : ℕ) (pending : Bool) (db : FundingDb) {res : CommitResult}
    {db' : FundingDb}
    → commit_new r k amount pending db ≡ ok (res, db')
    → let covered = coverable r amount in
      (held : FundingDb) × (hold_uncovered r.account_id (amount - covered) (draw r.id covered db)
        ≡ ok held)
      × (charged : FundingDb) × (bump_campaign r.campaign_id (neg (pos covered)) (pos amount) held
          ≡ ok charged)
      × (db' ≡ add_commit r k amount (amount - covered) pending charged)
      × (res ≡ record {
        commit_id = charged.next_id;
        covered = pos covered;
        uncovered = amount - covered;
        existing = false;
      })
unfolding commit_new
commit_new-steps r k amount pending db e =
    let (held, h, e') = >>=-eq-ok _ _ e in
    let (charged, c, e'') = >>=-eq-ok _ _ e' in (held, h, charged, c, cc e'', cc e'')

-- A commit on a reservation keeps the law: what the reservation covers turns from an admission hold
-- into an obligation, and the rest is held in addition.
pub commit_new-Sound :
    (r : Reservation) (k : Key) (amount : ℕ) (pending : Bool) (db : FundingDb) {res : CommitResult}
    {db' : FundingDb}
    → find_reservation r.id db ≡ some r
    → Sound db
    → commit_new r k amount pending db ≡ ok (res, db')
    → Sound db'
commit_new-Sound r k amount pending db found s e =
    let covered = coverable r amount in
    let (held, h, charged, c, same, _) = commit_new-steps r k amount pending db e in
    let fits : covered ≤ r.remaining = ground arith in
    let within : covered ≤ amount = ground arith in
    let d = draw-Effect covered db r found fits in
    let (rows, held_effect) = hold_uncovered-Effect _ _ _ held h in
    let (rows', charge_effect) = bump_campaign-Effect r.account_id _ _ _ held charged c in
    let commits : charged.commits ≡ db.commits =
      rows'.same_commits ∙ rows.same_commits ∙ (draw-commits r.id covered db).0 in
    let after = add_commit r k amount (amount - covered) pending charged in
    let added =
      add_commit-Effect charged after
        (new_commit r k amount (amount - covered) pending charged.next_id) refl refl refl in
    rw same (record {
      conserved =
          Effect-conserved
            (Effect-trans (Effect-trans (Effect-trans d held_effect) charge_effect) added)
            (omega int_laws) s.conserved;
      paid_within =
          append-All PaidWithin charged.commits _ (rw commits s.paid_within) (omega arith, tt);
      released_empty =
          rw (rows'.same_reservations, rows.same_reservations)
            (draw-ReleasedEmpty covered db r found s.released_empty);
    })

-- A row found under an identifier is found under its own.
pub found_by_own_id :
    (i : ℕ) (db : FundingDb) (r : Reservation)
    → find_reservation i db ≡ some r
    → find_reservation r.id db ≡ some r
found_by_own_id i db r e =
    let same : r.id ≡ i = ground (arith, find_row-test (λ x. x.id == i) db.reservations r e) in
    subst (λ x. find_reservation x db ≡ some r) (sym same) e
