-- ===== src/Funding/Releases.antt =====
-- The laws of releases (`releaseUnusedRewardBudget`, `closeReservation`,
-- `releaseResidualReservation`): residue goes back once, and the books balance.
use re_loop.Base.{
  ℕ, ◌≤◌, ◌≡◌, refl, Bool, true, Option, none, some, pos, neg, int_laws, ◌==◌, ltb, arith,
  Bool-cases, Option-cases, inl, inr, ok, >>=-eq-ok, subst, ◌∙◌,
}
use re_loop.Store.{
  Reservation, Release, FundingDb, Key, key_eq_refl, update_row-All, find_row-test, find-append_new,
  find-update,
}
use re_loop.Funding.Capacity.{assert_rupiah, max_funding_rupiah}
use re_loop.Funding.Reserve.{find_reservation, set_reservation, is_active}
use re_loop.Funding.Release.{
  ReleaseOptions, closing, find_release, recorded_release, releasable, shrunk, give_back, shrink,
  new_release, record_release, release_new, release_unused_reward_budget, close_reservation,
}
use re_loop.Funding.Bumps.{
  SameRows, SameRows-refl, SameRows-trans, SameRows-Effect, bump_account-Effect,
  bump_campaign-Effect, set_reservation-Effect,
}
use re_loop.Funding.Identity.{reservation_id, WellKeyed-SameRows, WellKeyed-set_reservation}
use re_loop.Funding.Invariant.{Effect, Effect-cast, Effect-trans, Effect-conserved, ReleasedEmpty}
use re_loop.Funding.Obligations.{found_by_own_id}
use re_loop.Funding.Linking.{Lawful}

give_back-Effect :
    (r : Reservation) (amount : ℕ) (db db' : FundingDb)
    → give_back r amount db ≡ ok db'
    → SameRows db db' × Effect r.account_id (neg (pos amount)) (pos 0) db db'
unfolding give_back
give_back-Effect r amount db db' e = elim (Bool-cases (ltb 0 amount)) [
  | inl some_left ↦
      let (freed, h, g) = >>=-eq-ok _ _ (rw some_left at e) in
      let (rows, a) = bump_account-Effect _ _ _ db freed h in
      let (rows', b) = bump_campaign-Effect r.account_id _ _ _ freed db' g in
      (SameRows-trans rows rows', Effect-cast (omega int_laws) (omega int_laws) (Effect-trans a b))
  | inr none_left ↦
      let nothing : amount ≡ 0 = ground arith in
      let zero_freed : neg (pos amount) ≡ pos 0 = rw nothing (omega int_laws) in
      let same : db ≡ db' = ground arith in
      rw zero_freed (
        subst (λ d. SameRows db d × Effect r.account_id (pos 0) (pos 0) db d) same
          (SameRows-refl db, SameRows-Effect (SameRows-refl db) refl))
]

-- A close must give back everything that remains.
abbrev pub ClosesAll : ReleaseOptions → Reservation → ℕ → Type 0
ClosesAll o r amount = o.close ≡ true → r.remaining ≤ amount

shrink-Lawful :
    (r : Reservation) (given : ℕ) (o : ReleaseOptions) (db db' : FundingDb)
    → find_reservation r.id db ≡ some r
    → given ≤ r.remaining
    → (is_active r.status ≡ true → ClosesAll o r given)
    → Lawful db
    → shrink r given o db ≡ ok db'
    → Lawful db'
unfolding shrink
shrink-Lawful r given o db db' found fits closes l e = elim (Bool-cases (is_active r.status)) [
  | inr inactive ↦ subst Lawful (ground arith) l
  | inl live ↦
      let (freed, h, g) = >>=-eq-ok _ _ (rw live at e) in
      let (rows, a) = give_back-Effect r given db freed h in
      let there : find_reservation r.id freed ≡ some r = rw rows.same_reservations found in
      let b =
        set_reservation-Effect r.id (shrunk given o) (neg (pos given)) freed r there refl
          (omega int_laws) in
      let same : set_reservation r.id (shrunk given o) freed ≡ db' = cc g in
      subst Lawful same (record {
        keyed =
            WellKeyed-set_reservation r.id (shrunk given o) freed (λ x. refl) (λ x. refl)
              (WellKeyed-SameRows rows l.keyed);
        sound = record {
          conserved = Effect-conserved (Effect-trans a b) (omega int_laws) l.sound.conserved;
          paid_within = rw rows.same_commits l.sound.paid_within;
          released_empty =
              update_row-All ReleasedEmpty _ (shrunk given o) freed.reservations r
                (rw rows.same_reservations l.sound.released_empty) there
                (λ q. ground (arith, closes live));
        };
      })
]

record_release-Lawful :
    (r : Reservation) (amount : ℕ) (o : ReleaseOptions) (k : Option Key) (db : FundingDb)
    → Lawful db
    → Lawful (record_release r amount o k db)
unfolding record_release
record_release-Lawful r amount o none db l = l
record_release-Lawful r amount o (some k) db l = record {
  keyed = record {
    reservations = l.keyed.reservations;
    commits = l.keyed.commits;
    linked = l.keyed.linked;
  };
  sound = record {
    conserved = l.sound.conserved;
    paid_within = l.sound.paid_within;
    released_empty = l.sound.released_empty;
  };
}

release_new-Lawful :
    (r : Reservation) (amount : ℕ) (o : ReleaseOptions) (db : FundingDb) {x : ℕ × Bool}
    {db' : FundingDb}
    → find_reservation r.id db ≡ some r
    → ClosesAll o r amount
    → Lawful db
    → release_new r amount o db ≡ ok (x, db')
    → Lawful db'
unfolding release_new
release_new-Lawful r amount o db {x} {db'} found closes l e =
    let (shrunken, h, g) = >>=-eq-ok (shrink r (releasable r amount) o db) _ e in
    let same : record_release r (releasable r amount) o o.business_key shrunken ≡ db' = cc g in
    let fits : releasable r amount ≤ r.remaining = ground arith in
    subst Lawful same (
      record_release-Lawful r _ o o.business_key shrunken (
        shrink-Lawful r (releasable r amount) o db shrunken found fits
          (λ live c. ground (arith, closes c)) l h))

-- A release keeps the books, provided that one which closes its reservation gives back all that
-- remains of it (as every caller does).
pub release-Lawful :
    (reservation amount : ℕ) (o : ReleaseOptions) (db : FundingDb) {x : ℕ × Bool} {db' : FundingDb}
    → ((r : Reservation) → find_reservation reservation db ≡ some r → ClosesAll o r amount)
    → Lawful db
    → release_unused_reward_budget reservation amount o db ≡ ok (x, db')
    → Lawful db'
unfolding release_unused_reward_budget
release-Lawful reservation amount o db {x} {db'} closes l e =
    elim (Option-cases (find_reservation reservation db)) [
      | inl absent ↦ absurd (ground arith)
      | inr (r, f) ↦ elim (Option-cases (recorded_release o.business_key db)) [
        | inl new ↦
            release_new-Lawful r amount o db {x = x} (found_by_own_id reservation db r f)
              (closes r f) l (ground arith)
        | inr (old, again) ↦ subst Lawful (ground arith) l
      ]
    ]

-- Closing a reservation keeps the books.
pub close-Lawful :
    (reservation : ℕ) (by : Option ℕ) (db : FundingDb) {x : ℕ × Bool} {db' : FundingDb}
    → Lawful db
    → close_reservation reservation by db ≡ ok (x, db')
    → Lawful db'
unfolding close_reservation
close-Lawful reservation by db {x} {db'} l e =
    elim (Option-cases (find_reservation reservation db)) [
      | inl absent ↦ absurd (ground arith)
      | inr (r, f) ↦
          release-Lawful reservation r.remaining (closing by) db {x = x}
            (λ r' f' c.
              let same : r ≡ r' = ground arith in
              subst (λ y. y.remaining ≤ r.remaining) same (omega arith))
            l (ground arith)
    ]

shrink-rows :
    (r : Reservation) (given : ℕ) (o : ReleaseOptions) (db db' : FundingDb)
    → find_reservation r.id db ≡ some r
    → shrink r given o db ≡ ok db'
    → (db'.releases ≡ db.releases) × ((y : Reservation) × (find_reservation r.id db' ≡ some y))
unfolding shrink
shrink-rows r given o db db' found e = elim (Bool-cases (is_active r.status)) [
  | inr inactive ↦
      let same : db ≡ db' = ground arith in
      subst
        (λ d. (d.releases ≡ db.releases) × ((y : Reservation) × (find_reservation r.id d ≡ some y)))
        same (refl, (r, found))
  | inl live ↦
      let (freed, h, g) = >>=-eq-ok _ _ (rw live at e) in
      let (rows, _) = give_back-Effect r given db freed h in
      let there : find_reservation r.id freed ≡ some r = rw rows.same_reservations found in
      let same : set_reservation r.id (shrunk given o) freed ≡ db' = cc g in
      subst
        (λ d. (d.releases ≡ db.releases) × ((y : Reservation) × (find_reservation r.id d ≡ some y)))
        same
        (
          rows.same_releases,
          elim (find-update reservation_id r.id r.id (shrunk given o) freed.reservations r
              (λ x. refl) there) [
                | inl kept ↦ (r, kept)
                | inr changed ↦ (shrunk given o r, changed)
              ],
        )
]

release_retry :
    (reservation again : ℕ) (o : ReleaseOptions) (k : Key) (db : FundingDb) (r : Reservation)
    (old : Release)
    → o.business_key ≡ some k
    → find_reservation reservation db ≡ some r
    → find_release k db ≡ some old
    → old.reservation_id ≡ reservation
    → again ≤ max_funding_rupiah
    → release_unused_reward_budget reservation again o db ≡ ok ((old.amount, true), db)
unfolding release_unused_reward_budget assert_rupiah
release_retry reservation again o k db r old key row recorded same fits = ground arith

-- A retried release under its key reports the recorded amount and gives nothing back again.
pub release_again_free :
    (reservation amount again : ℕ) (o : ReleaseOptions) (k : Key) (db : FundingDb) {x : ℕ × Bool}
    {db' : FundingDb}
    → o.business_key ≡ some k
    → find_release k db ≡ none
    → again ≤ max_funding_rupiah
    → release_unused_reward_budget reservation amount o db ≡ ok (x, db')
    → release_unused_reward_budget reservation again o db' ≡ ok ((x.0, true), db')
unfolding release_unused_reward_budget release_new record_release
release_again_free reservation amount again o k db {x} {db'} key new fits e =
    elim (Option-cases (find_reservation reservation db)) [
      | inl absent ↦ absurd (ground arith)
      | inr (r, f) ↦
          let found = found_by_own_id reservation db r f in
          let same_id : r.id ≡ reservation =
            ground (arith, find_row-test (λ y. y.id == reservation) db.reservations r f) in
          let first : release_new r amount o db ≡ ok (x, db') = ground arith in
          let (shrunken, h, g) = >>=-eq-ok (shrink r (releasable r amount) o db) _ first in
          let (releases, still) = shrink-rows r _ o db shrunken found h in
          let after : db' ≡ record_release r (releasable r amount) o (some k) shrunken =
            subst (λ z. db' ≡ record_release r (releasable r amount) o z shrunken) key (cc g) in
          let amount_given : x.0 ≡ releasable r amount = ground arith in
          let row : find_reservation reservation db' ≡ some still.0 =
            subst (λ i. find_reservation i db' ≡ some still.0) same_id (rw after still.1) in
          let recorded : find_release k db' ≡ some (new_release r k (releasable r amount) o) =
            rw (after, releases) (find-append_new _ db.releases _ new (key_eq_refl k)) in
          release_retry reservation again o k db' still.0 _ key row recorded same_id fits
          ∙ rw amount_given refl
    ]
