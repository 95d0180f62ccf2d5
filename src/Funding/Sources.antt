-- ===== src/Funding/Sources.antt =====
-- Resolving the reservation of a source, and settling a review through it (lib/reward-funding.ts), keep
-- the books.
use re_loop.Base.{
  ℕ, ◌≡◌, refl, Bool, Option, [], ◌∷◌, arith, Bool-cases, Option-cases, inl, inr, ok, >>=-eq-ok,
  subst, or_else,
}
use re_loop.Store.{FundingDb, Source, Key, append-All}
use re_loop.Funding.Capacity.{lock_funding_account}
use re_loop.Funding.Reserve.{find_reservation_by_key}
use re_loop.Funding.Commit.{find_commit, commit_reward_against_budget}
use re_loop.Funding.SourceReservation.{
  Admitted, SourceAnswer, has_reservation, legacy_source, no_source, source_key, before_cutover,
  late_reservation, add_reservation, admit_late, resolve_source_reservation, commit_on_source,
  positive, settle_or_commit_reward,
}
use re_loop.Funding.Bumps.{add_reservation-Effect}
use re_loop.Funding.Identity.{WellKeyed-add_reservation}
use re_loop.Funding.Invariant.{Effect-conserved, ReleasedEmpty}
use re_loop.Funding.Linking.{Lawful}
use re_loop.Funding.Laws.{commit-Lawful, settle-Lawful}
use re_loop.Funding.Reservations.{lock-Lawful}

-- A reservation that holds nothing adds nothing to what is owed.
add_late-Lawful :
    (s : Source) (a : Admitted) (account : ℕ) (db : FundingDb)
    → Lawful db
    → Lawful (add_reservation (late_reservation s a account db.next_id) db)
add_late-Lawful s a account db l =
    let r = late_reservation s a account db.next_id in
    record {
      keyed = WellKeyed-add_reservation db (add_reservation r db) r refl refl refl refl l.keyed;
      sound = record {
        conserved =
            Effect-conserved (add_reservation-Effect db (add_reservation r db) r refl refl refl)
              refl l.sound.conserved;
        paid_within = l.sound.paid_within;
        released_empty =
            append-All ReleasedEmpty db.reservations (r ∷ []) l.sound.released_empty
              (λ q. refl, tt);
      };
    }

commit_on_source-Lawful :
    (k : Key) (amount : ℕ) (pending : Bool) (x : SourceAnswer × FundingDb) {o : Option ℕ}
    {db' : FundingDb}
    → Lawful x.1
    → commit_on_source k amount pending x ≡ ok (o, db')
    → Lawful db'
unfolding commit_on_source
commit_on_source-Lawful k amount pending (has_reservation r, db) {o} {db'} l e =
    let (c, h, g) = >>=-eq-ok (commit_reward_against_budget r.id k amount pending db) _ e in
    let same : c.1 ≡ db' = cc g in subst Lawful same (commit-Lawful r.id k amount pending db l h)
commit_on_source-Lawful k amount pending (legacy_source, db) l e = subst Lawful (ground arith) l
commit_on_source-Lawful k amount pending (no_source, db) l e = subst Lawful (ground arith) l

module _ (admitted : Source → Option Admitted) (cutover : Option ℕ) where
  pub resolve-Lawful :
      (s : Source) (db : FundingDb)
      → Lawful db
      → Lawful (resolve_source_reservation admitted cutover s db).1
  unfolding resolve_source_reservation admit_late
  resolve-Lawful s db l = elim (Option-cases (find_reservation_by_key (source_key s) db)) [
    | inr (r, there) ↦ rw (there, resolve_source_reservation) l
    | inl new ↦ elim (Option-cases (admitted s)) [
      | inl unknown ↦ rw (new, unknown, resolve_source_reservation) l
      | inr (a, known) ↦ elim (Bool-cases (before_cutover a.created_at cutover)) [
        | inl legacy ↦ rw (new, known, legacy, resolve_source_reservation) l
        | inr late ↦
            rw (new, known, late, resolve_source_reservation)
              (add_late-Lawful s a _ (lock_funding_account a.organization_id db).1
                (lock-Lawful a.organization_id db l))
      ]
    ]
  ]

  pub review-Lawful :
      (k : Key) (s : Source) (target : Option ℕ) (pending : Bool) (db : FundingDb) {o : Option ℕ}
      {db' : FundingDb}
      → Lawful db
      → settle_or_commit_reward admitted cutover k s target pending db ≡ ok (o, db')
      → Lawful db'
  unfolding settle_or_commit_reward
  review-Lawful k s target pending db {o} {db'} l e = elim (Option-cases (find_commit k db)) [
    | inr (c, there) ↦ settle-Lawful k (or_else target c.held) pending db {o = o} l (ground arith)
    | inl new ↦ elim (Option-cases (positive target)) [
      | inl nothing ↦ subst Lawful (ground arith) l
      | inr (n, some_owed) ↦
          commit_on_source-Lawful k n pending (resolve_source_reservation admitted cutover s db)
            {o = o} (resolve-Lawful s db l) (ground arith)
    ]
  ]
