-- ===== src/Funding/Identity.antt =====
-- Identifiers of the funding tables: accounts, reservations and commits have distinct identifiers
-- below the next one, and each commit belongs to the account of its reservation. Every write keeps this.
use re_loop.Base.{
  ℕ, ◌+◌, ◌≡◌, some, List, [], ◌∷◌, ◌++◌, ◌==◌, All, arith, inl, inr, find_row, sym, ◌∙◌,
}
use re_loop.Store.{
  Reservation, Commit, FundingDb, append-All, All-map, find-append, find-update, update-All, Keyed,
  Keyed-append, Keyed-update, Keyed-later,
}
use re_loop.Funding.Reserve.{set_reservation}
use re_loop.Funding.Commit.{set_commit}
use re_loop.Funding.Bumps.{SameRows}

-- The reservation of a commit is there, on the same account.
abbrev pub Linked : List Reservation → Commit → Type 0
Linked rs c =
    (r : Reservation) × (find_row (λ x. x.id == c.reservation_id) rs ≡ some r)
    × (r.account_id ≡ c.account_id)

abbrev pub reservation_id : Reservation → ℕ
reservation_id r = r.id

abbrev pub commit_id : Commit → ℕ
commit_id c = c.id

pub record WellKeyed (db : FundingDb) : Type 0 where
  pub reservations : Keyed reservation_id db.next_id db.reservations
  pub commits : Keyed commit_id db.next_id db.commits
  pub linked : All (Linked db.reservations) db.commits

pub WellKeyed-SameRows : {db db' : FundingDb} → SameRows db db' → WellKeyed db → WellKeyed db'
WellKeyed-SameRows {db} {db'} s w = record {
  reservations = rw (s.same_reservations, s.same_next_id) w.reservations;
  commits = rw (s.same_commits, s.same_next_id) w.commits;
  linked = rw (s.same_commits, s.same_reservations) w.linked;
}

pub WellKeyed-set_reservation :
    (i : ℕ) (g : Reservation → Reservation) (db : FundingDb)
    → ((x : Reservation) → (g x).id ≡ x.id)
    → ((x : Reservation) → (g x).account_id ≡ x.account_id)
    → WellKeyed db
    → WellKeyed (set_reservation i g db)
WellKeyed-set_reservation i g db keep_id keep_account w = record {
  reservations = Keyed-update reservation_id db.next_id _ g db.reservations keep_id w.reservations;
  commits = w.commits;
  linked =
      All-map (Linked db.reservations) (Linked (set_reservation i g db).reservations) db.commits
        relink w.linked;
}
  where
    relink :
        (c : Commit) → Linked db.reservations c → Linked (set_reservation i g db).reservations c
    relink c (r, e, same) =
        elim (find-update reservation_id i c.reservation_id g db.reservations r keep_id e) [
          | inl kept ↦ (r, kept, same)
          | inr changed ↦ (g r, changed, keep_account r ∙ same)
        ]

-- A new reservation breaks no link.
pub WellKeyed-add_reservation :
    (db db' : FundingDb) (r : Reservation)
    → r.id ≡ db.next_id
    → db'.reservations ≡ db.reservations ++ r ∷ []
    → db'.commits ≡ db.commits
    → db'.next_id ≡ db.next_id + 1
    → WellKeyed db
    → WellKeyed db'
WellKeyed-add_reservation db db' r new rs cs next w = record {
  reservations =
      rw (rs, next) (Keyed-append reservation_id db.next_id db.reservations r w.reservations new);
  commits = rw (cs, next) (Keyed-later commit_id db.next_id _ db.commits (omega arith) w.commits);
  linked =
      rw (cs, rs)
        (All-map (Linked db.reservations) (Linked (db.reservations ++ r ∷ [])) db.commits
          (λ c h. (h.0, find-append _ db.reservations (r ∷ []) h.0 h.1, h.2)) w.linked);
}

-- A new commit on a reservation that is there.
pub WellKeyed-add_commit :
    (db db' : FundingDb) (c : Commit)
    → Linked db.reservations c
    → c.id ≡ db.next_id
    → db'.reservations ≡ db.reservations
    → db'.commits ≡ db.commits ++ c ∷ []
    → db'.next_id ≡ db.next_id + 1
    → WellKeyed db
    → WellKeyed db'
WellKeyed-add_commit db db' c link new rs cs next w = record {
  reservations =
      rw (rs, next)
        (Keyed-later reservation_id db.next_id _ db.reservations (omega arith) w.reservations);
  commits = rw (cs, next) (Keyed-append commit_id db.next_id db.commits c w.commits new);
  linked =
      rw (cs, rs) (append-All (Linked db.reservations) db.commits (c ∷ []) w.linked (link, tt));
}

pub WellKeyed-set_commit :
    (i : ℕ) (g : Commit → Commit) (db : FundingDb)
    → ((c : Commit) → (g c).id ≡ c.id)
    → ((c : Commit) → (g c).reservation_id ≡ c.reservation_id)
    → ((c : Commit) → (g c).account_id ≡ c.account_id)
    → WellKeyed db
    → WellKeyed (set_commit i g db)
WellKeyed-set_commit i g db keep_id keep_link keep_account w = record {
  reservations = w.reservations;
  commits = Keyed-update commit_id db.next_id _ g db.commits keep_id w.commits;
  linked =
      update-All (Linked db.reservations) _ g db.commits
        (λ c h. (h.0, rw (keep_link c) h.1, h.2 ∙ sym (keep_account c))) w.linked;
}
