-- ===== src/Funding/Linking.antt =====
-- Commits and settlements keep the identifiers and links of the funding tables.
use re_loop.Base.{ℕ, ◌-◌, ◌≡◌, refl, Bool, some, ltb, Bool-cases, inl, inr, ok}
use re_loop.Store.{find-update, Reservation, Commit, FundingDb, Key}
use re_loop.Funding.Reserve.{find_reservation}
use re_loop.Funding.Commit.{
  CommitResult, coverable, drawn, draw, new_commit, add_commit, commit_new, settled, raise_on,
  lower_commit,
}
use re_loop.Funding.Bumps.{bump_account-Effect, bump_campaign-Effect}
use re_loop.Funding.Identity.{
  WellKeyed, WellKeyed-SameRows, WellKeyed-set_reservation, WellKeyed-add_commit,
  WellKeyed-set_commit, reservation_id,
}
use re_loop.Funding.Obligations.{commit_new-steps, hold_uncovered-Effect}
use re_loop.Funding.Settlements.{raise_on-steps, lower_commit-steps}
use re_loop.Funding.Invariant.{Sound}

draw-WellKeyed : (i covered : ℕ) (db : FundingDb) → WellKeyed db → WellKeyed (draw i covered db)
unfolding draw
draw-WellKeyed i covered db w = elim (Bool-cases (ltb 0 covered)) [
  | inl e ↦ rw e (WellKeyed-set_reservation i (drawn covered) db (λ x. refl) (λ x. refl) w)
  | inr e ↦ rw e w
]

-- The reservation that was drawn from is still there, on the same account.
pub draw-find :
    (covered : ℕ) (db : FundingDb) (r : Reservation)
    → find_reservation r.id db ≡ some r
    → (x : Reservation) × (find_reservation r.id (draw r.id covered db) ≡ some x)
      × (x.account_id ≡ r.account_id)
unfolding draw
draw-find covered db r found = elim (Bool-cases (ltb 0 covered)) [
  | inl e ↦
      rw e
        (elim (find-update reservation_id r.id r.id (drawn covered) db.reservations r (λ x. refl)
          found) [ inl kept ↦ (r, kept, refl) | inr changed ↦ (drawn covered r, changed, refl) ])
  | inr e ↦ rw e (r, found, refl)
]

pub commit_new-WellKeyed :
    (r : Reservation) (k : Key) (amount : ℕ) (pending : Bool) (db : FundingDb) {res : CommitResult}
    {db' : FundingDb}
    → find_reservation r.id db ≡ some r
    → WellKeyed db
    → commit_new r k amount pending db ≡ ok (res, db')
    → WellKeyed db'
commit_new-WellKeyed r k amount pending db found w e =
    let covered : ℕ = coverable r amount in
    let (held, h, charged, c, same, _) = commit_new-steps r k amount pending db e in
    let (rows, _) = hold_uncovered-Effect _ _ _ held h in
    let (rows', _) = bump_campaign-Effect 0 _ _ _ held charged c in
    let (x, there, one) = draw-find covered db r found in
    let kept =
      WellKeyed-SameRows rows' (WellKeyed-SameRows rows (draw-WellKeyed r.id covered db w)) in
    rw same (
      WellKeyed-add_commit charged (add_commit r k amount (amount - covered) pending charged)
        (new_commit r k amount (amount - covered) pending charged.next_id)
        (x, rw (rows'.same_reservations, rows.same_reservations) there, one) refl refl refl refl
        kept)

pub raise_on-WellKeyed :
    (r : Reservation) (c : Commit) (new_held : ℕ) (pending : Bool) (db : FundingDb)
    {db' : FundingDb}
    → WellKeyed db
    → raise_on r c new_held pending db ≡ ok db'
    → WellKeyed db'
raise_on-WellKeyed r c new_held pending db w e =
    let (held, h, charged, g, same) = raise_on-steps r c new_held pending db e in
    let (rows, _) = hold_uncovered-Effect _ _ _ held h in
    let (rows', _) = bump_campaign-Effect 0 _ _ _ held charged g in
    let kept = WellKeyed-SameRows rows' (WellKeyed-SameRows rows (draw-WellKeyed r.id _ db w)) in
    rw same (
      WellKeyed-set_commit c.id (settled new_held _ pending) charged (λ x. refl) (λ x. refl)
        (λ x. refl) kept)

pub lower_commit-WellKeyed :
    (c : Commit) (new_held : ℕ) (pending : Bool) (db : FundingDb) {db' : FundingDb}
    → WellKeyed db
    → lower_commit c new_held pending db ≡ ok db'
    → WellKeyed db'
lower_commit-WellKeyed c new_held pending db w e =
    let (freed, h, charged, g, same) = lower_commit-steps c new_held pending db e in
    let (rows, _) = bump_account-Effect _ _ _ db freed h in
    let (rows', _) = bump_campaign-Effect 0 _ _ _ freed charged g in
    rw same (
      WellKeyed-set_commit c.id (settled new_held 0 pending) charged (λ x. refl) (λ x. refl)
        (λ x. refl) (WellKeyed-SameRows rows' (WellKeyed-SameRows rows w)))

-- Everything that the operations rely on and keep.
pub record Lawful (db : FundingDb) : Type 0 where
  pub keyed : WellKeyed db
  pub sound : Sound db
