-- ===== src/Funding/Settlements.antt =====
-- A review's settlement keeps the conservation law (`settleCommittedReward`).
use re_loop.Base.{
  ℕ, ◌-◌, ◌≤◌, ◌<◌, ◌≡◌, refl, Bool, some, pos, neg, int_laws, ◌==◌, arith, find_row, ok, >>=-eq-ok,
  subst, ◌∙◌,
}
use re_loop.Store.{Reservation, Commit, FundingDb, update_row-All, find_row-All}
use re_loop.Funding.Capacity.{bump_account, bump_campaign}
use re_loop.Funding.Reserve.{find_reservation}
use re_loop.Funding.Commit.{
  coverable, draw, hold_uncovered, settled, raise_on, lower_commit, set_commit,
}
use re_loop.Funding.Invariant.{Sound, Effect, Effect-trans, Effect-conserved, PaidWithin}
use re_loop.Funding.Bumps.{bump_account-Effect, bump_campaign-Effect, set_commit-Effect}
use re_loop.Funding.Obligations.{
  draw-Effect, draw-ReleasedEmpty, draw-commits, hold_uncovered-Effect,
}

pub raise_on-steps :
    (r : Reservation) (c : Commit) (new_held : ℕ) (pending : Bool) (db : FundingDb)
    {db' : FundingDb}
    → raise_on r c new_held pending db ≡ ok db'
    → let delta = new_held - c.held in
      let covered = coverable r delta in
      (held : FundingDb) × (hold_uncovered c.account_id (delta - covered) (draw r.id covered db)
        ≡ ok held)
      × (charged : FundingDb) × (bump_campaign c.campaign_id (neg (pos covered)) (pos delta) held
          ≡ ok charged)
      × (db' ≡ set_commit c.id (settled new_held (delta - covered) pending) charged)
unfolding raise_on
raise_on-steps r c new_held pending db e =
    let (held, h, e') = >>=-eq-ok _ _ e in
    let (charged, g, e'') = >>=-eq-ok _ _ e' in (held, h, charged, g, cc e'')

pub raise_on-Sound :
    (r : Reservation) (c : Commit) (new_held : ℕ) (pending : Bool) (db : FundingDb)
    {db' : FundingDb}
    → find_reservation r.id db ≡ some r
    → r.account_id ≡ c.account_id
    → find_row (λ x. x.id == c.id) db.commits ≡ some c
    → c.held < new_held
    → Sound db
    → raise_on r c new_held pending db ≡ ok db'
    → Sound db'
raise_on-Sound r c new_held pending db row one found more s e =
    let delta : ℕ = new_held - c.held in
    let covered : ℕ = coverable r delta in
    let (held, h, charged, g, same) = raise_on-steps r c new_held pending db e in
    let fits : covered ≤ r.remaining = ground arith in
    let within : covered ≤ delta = ground arith in
    let paid : c.paid ≤ c.held = find_row-All PaidWithin _ db.commits c s.paid_within found in
    let d =
      subst (λ i. Effect i (pos 0) (neg (pos covered)) db (draw r.id covered db)) one
        (draw-Effect covered db r row fits) in
    let (rows, held_effect) = hold_uncovered-Effect _ _ _ held h in
    let (rows', charge_effect) = bump_campaign-Effect c.account_id _ _ _ held charged g in
    let commits : charged.commits ≡ db.commits =
      rows'.same_commits ∙ rows.same_commits ∙ (draw-commits r.id covered db).0 in
    let still : find_row (λ x. x.id == c.id) charged.commits ≡ some c = rw commits found in
    let change =
      set_commit-Effect c.id (settled new_held (delta - covered) pending) (pos delta) charged c
        still refl (omega int_laws) in
    rw same (record {
      conserved =
          Effect-conserved
            (Effect-trans (Effect-trans (Effect-trans d held_effect) charge_effect) change)
            (omega int_laws) s.conserved;
      paid_within =
          update_row-All PaidWithin _ (settled new_held (delta - covered) pending) charged.commits c
            (rw commits s.paid_within) still (omega arith);
      released_empty =
          rw (rows'.same_reservations, rows.same_reservations)
            (draw-ReleasedEmpty covered db r row s.released_empty);
    })

pub lower_commit-steps :
    (c : Commit) (new_held : ℕ) (pending : Bool) (db : FundingDb) {db' : FundingDb}
    → lower_commit c new_held pending db ≡ ok db'
    → let delta = c.held - new_held in
      (freed : FundingDb) × (bump_account c.account_id (pos 0) (neg (pos delta)) db ≡ ok freed)
      × (charged : FundingDb) × (bump_campaign c.campaign_id (pos 0) (neg (pos delta)) freed
          ≡ ok charged)
      × (db' ≡ set_commit c.id (settled new_held 0 pending) charged)
unfolding lower_commit
lower_commit-steps c new_held pending db e =
    let (freed, h, e') = >>=-eq-ok _ _ e in
    let (charged, g, e'') = >>=-eq-ok _ _ e' in (freed, h, charged, g, cc e'')

pub lower_commit-Sound :
    (c : Commit) (new_held : ℕ) (pending : Bool) (db : FundingDb) {db' : FundingDb}
    → find_row (λ x. x.id == c.id) db.commits ≡ some c
    → new_held < c.held
    → c.paid ≤ new_held
    → Sound db
    → lower_commit c new_held pending db ≡ ok db'
    → Sound db'
lower_commit-Sound c new_held pending db found less within s e =
    let delta : ℕ = c.held - new_held in
    let (freed, h, charged, g, same) = lower_commit-steps c new_held pending db e in
    let (rows, freed_effect) = bump_account-Effect _ _ _ db freed h in
    let (rows', charge_effect) = bump_campaign-Effect c.account_id _ _ _ freed charged g in
    let commits : charged.commits ≡ db.commits = rows'.same_commits ∙ rows.same_commits in
    let still : find_row (λ x. x.id == c.id) charged.commits ≡ some c = rw commits found in
    let change =
      set_commit-Effect c.id (settled new_held 0 pending) (neg (pos delta)) charged c still refl
        (omega int_laws) in
    rw same (record {
      conserved =
          Effect-conserved (Effect-trans (Effect-trans freed_effect charge_effect) change)
            (omega int_laws) s.conserved;
      paid_within =
          update_row-All PaidWithin _ (settled new_held 0 pending) charged.commits c
            (rw commits s.paid_within) still (omega arith);
      released_empty = rw (rows'.same_reservations, rows.same_reservations) s.released_empty;
    })
