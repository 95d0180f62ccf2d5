-- ===== src/Wallet/Backing.antt =====
-- Payout requests and the reserves that back them (lib/ledger.ts, lib/wallet-service.ts): what every
-- operation keeps.
use re_loop.Base.{
  ℕ, ◌+◌, ◌≤◌, ◌<◌, ◌≡◌, ◌≢◌, refl, Bool, true, false, ◌&&◌, none, some, List, [], ◌∷◌, ◌++◌, pos,
  neg, eqb_ℤ, ◌==◌, arith, find_row, where_rows, All, ok, sym, ◌∙◌,
}
use re_loop.Store.{
  pending, update_row, append-All, All-map, Keyed, Keyed-append, Keyed-later, Older,
}
use re_loop.Wallet.Rows.{LedgerRow, Redemption, WalletDb}
use re_loop.Wallet.Reserve.{
  expected_reserve_status, is_reserve_of, is_live_reserve, new_reserve, load_redeem_reserve,
}

module _ {A : Type 0} (q : A → Bool) where
  pub where-append : (l r : List A) → where_rows q (l ++ r) ≡ where_rows q l ++ where_rows q r
  where-append [] r = refl
  where-append (x ∷ l) r = ground (arith, where-append l r)

  pub where-none : (l : List A) → All (λ x. q x ≡ false) l → where_rows q l ≡ []
  where-none [] h = refl
  where-none (x ∷ l) h = ground (arith, h.0, where-none l h.1)

  pub find-none : (l : List A) → All (λ x. q x ≡ false) l → find_row q l ≡ none
  find-none [] h = refl
  find-none (x ∷ l) h = ground (arith, h.0, find-none l h.1)

  pub find-where : (l : List A) (e : A) → where_rows q l ≡ e ∷ [] → find_row q l ≡ some e
  find-where [] e h = ground arith
  find-where (x ∷ l) e h = ground (arith, find-where l e)

  -- A write to a row that the clause does not keep, before or after, does not show.
  pub where-update_other :
      (p : A → Bool) (g : A → A) (l : List A) (e : A)
      → find_row p l ≡ some e
      → q e ≡ false
      → q (g e) ≡ false
      → where_rows q (update_row p g l) ≡ where_rows q l
  where-update_other p g [] e found before after = refl
  where-update_other p g (x ∷ l) e found before after = ground (arith, where-update_other p g l e)

  pub where-update_only :
      (p : A → Bool) (g : A → A) (l : List A) (e : A)
      → find_row p l ≡ some e
      → where_rows q l ≡ e ∷ []
      → p e ≡ true
      → q e ≡ true
      → q (g e) ≡ true
      → where_rows q (update_row p g l) ≡ g e ∷ []
  where-update_only p g [] e found only own kept after = ground arith
  where-update_only p g (x ∷ l) e found only own kept after =
      ground (arith, where-update_only p g l e)

  pub find-and :
      (p : A → Bool) (l : List A) (e : A)
      → find_row p l ≡ some e
      → q e ≡ true
      → find_row (λ x. p x && q x) l ≡ some e
  find-and p [] e found own = ground arith
  find-and p (x ∷ l) e found own = ground (arith, find-and p l e)

abbrev pub redemption_id : Redemption → ℕ
redemption_id r = r.id

abbrev pub ledger_id : LedgerRow → ℕ
ledger_id e = e.id

-- The request has one live reserve, of the same user and amount, in the status that agrees with the
-- status of the request.
pub record Backed (ledger : List LedgerRow) (r : Redemption) : Type 0 where
  pub reserve : LedgerRow
  pub only : where_rows (is_live_reserve r.id) ledger ≡ reserve ∷ []
  pub same_user : reserve.user_id ≡ r.user_id
  pub same_amount : reserve.amount ≡ neg (pos r.amount)
  pub agrees : reserve.status ≡ expected_reserve_status r.status

-- No reserve row refers to a redemption that is not there yet.
abbrev pub RefersBelow : ℕ → LedgerRow → Type 0
RefersBelow n e = (i : ℕ) → n ≤ i → is_reserve_of i e ≡ false

pub record AllBacked (db : WalletDb) : Type 0 where
  pub redemptions : Keyed redemption_id db.next_id db.redemptions
  pub ledger : Keyed ledger_id db.next_id db.ledger
  pub refers : All (RefersBelow db.next_id) db.ledger
  pub backed : All (Backed db.ledger) db.redemptions

-- A backed request loads its reserve.
pub Backed-load :
    (db : WalletDb) (r : Redemption) (b : Backed db.ledger r)
    → load_redeem_reserve r db ≡ ok b.reserve
unfolding load_redeem_reserve
Backed-load db r b =
    let user : b.reserve.user_id == r.user_id ≡ true = ground (arith, b.same_user) in
    let amount : eqb_ℤ b.reserve.amount (neg (pos r.amount)) ≡ true =
      rw b.same_amount (ground arith) in
    rw (b.only, user, amount) refl

reserve_elsewhere :
    (user amount redemption id i : ℕ)
    → redemption ≢ i
    → is_reserve_of i (new_reserve user amount redemption id) ≡ false
reserve_elsewhere user amount redemption id i other = ground arith

reserve_elsewhere_live :
    (user amount redemption id i : ℕ)
    → redemption ≢ i
    → is_live_reserve i (new_reserve user amount redemption id) ≡ false
reserve_elsewhere_live user amount redemption id i other = ground arith

-- A row that backs none of the old requests leaves them backed.
pub Backed-still :
    (l : List LedgerRow) (e : LedgerRow) (rs : List Redemption) (n : ℕ)
    → ((x : Redemption) → x.id < n → is_live_reserve x.id e ≡ false)
    → All (Older redemption_id n) rs
    → All (Backed l) rs
    → All (Backed (l ++ e ∷ [])) rs
Backed-still l e [] n other older backed = tt
Backed-still l e (r ∷ rs) n other older backed =
    let none_of : where_rows (is_live_reserve r.id) (e ∷ []) ≡ [] = rw (other r older.0) refl in
    (
      record {
        reserve = backed.0.reserve;
        only = where-append (is_live_reserve r.id) l (e ∷ []) ∙ rw (backed.0.only, none_of) refl;
        same_user = backed.0.same_user;
        same_amount = backed.0.same_amount;
        agrees = backed.0.agrees;
      },
      Backed-still l e rs n other older.1 backed.1,
    )

new-Backed :
    (db : WalletDb) (r : Redemption) (user amount : ℕ)
    → r.id ≡ db.next_id
    → r.user_id ≡ user
    → r.amount ≡ amount
    → expected_reserve_status r.status ≡ pending
    → All (RefersBelow db.next_id) db.ledger
    → Backed (db.ledger ++ new_reserve user amount r.id (db.next_id + 1) ∷ []) r
new-Backed db r user amount new own same waiting refers =
    let e = new_reserve user amount r.id (db.next_id + 1) in
    let before : where_rows (is_live_reserve r.id) db.ledger ≡ [] =
      where-none (is_live_reserve r.id) db.ledger (
        All-map (RefersBelow db.next_id) _ db.ledger
          (λ x h. let there : is_reserve_of r.id x ≡ false = h r.id (omega arith) in rw there refl)
          refers) in
    let itself : where_rows (is_live_reserve r.id) (e ∷ []) ≡ e ∷ [] = ground arith in
    record {
      reserve = e;
      only = where-append (is_live_reserve r.id) db.ledger (e ∷ []) ∙ rw (before, itself) refl;
      same_user = sym own;
      same_amount = rw same refl;
      agrees = sym waiting;
    }

-- A new request with its reserve.
pub AllBacked-add :
    (db db' : WalletDb) (r : Redemption) (user amount : ℕ)
    → r.id ≡ db.next_id
    → r.user_id ≡ user
    → r.amount ≡ amount
    → expected_reserve_status r.status ≡ pending
    → db'.redemptions ≡ db.redemptions ++ r ∷ []
    → db'.ledger ≡ db.ledger ++ new_reserve user amount r.id (db.next_id + 1) ∷ []
    → db'.next_id ≡ db.next_id + 1 + 1
    → AllBacked db
    → AllBacked db'
AllBacked-add db db' r user amount new own same waiting rs es next a =
    let e = new_reserve user amount r.id (db.next_id + 1) in
    record {
      redemptions =
          rw (rs, next)
            (Keyed-later redemption_id (db.next_id + 1) _ _ (omega arith)
              (Keyed-append redemption_id db.next_id db.redemptions r a.redemptions new));
      ledger =
          rw (es, next)
            (Keyed-append ledger_id (db.next_id + 1) db.ledger e
              (Keyed-later ledger_id db.next_id _ db.ledger (omega arith) a.ledger) refl);
      refers =
          rw (es, next)
            (append-All (RefersBelow (db.next_id + 1 + 1)) db.ledger (e ∷ [])
              (All-map (RefersBelow db.next_id) _ db.ledger (λ x h i above. h i (omega arith))
                a.refers)
              (λ i above. reserve_elsewhere user amount r.id (db.next_id + 1) i (omega arith), tt));
      backed =
          rw (rs, es)
            (append-All (Backed (db.ledger ++ e ∷ [])) db.redemptions (r ∷ [])
              (Backed-still (db.ledger) e db.redemptions db.next_id
                (λ x old.
                  reserve_elsewhere_live user amount r.id (db.next_id + 1) x.id (omega arith))
                a.redemptions.older a.backed)
              (new-Backed db r user amount new own same waiting a.refers, tt));
    }
