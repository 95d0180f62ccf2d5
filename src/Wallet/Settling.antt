-- ===== src/Wallet/Settling.antt =====
-- A change of a request together with its reserve (`transitionRedemption` of lib/wallet-service.ts and
-- `settleRedeemLedger` of lib/ledger.ts) keeps every request backed.
use re_loop.Base.{
  ℕ, ◌≡◌, ◌≢◌, refl, Bool, true, false, some, List, [], ◌∷◌, ◌==◌, ◌&&◌, arith, Bool-cases, inl,
  inr, find_row, All, subst, sym, ◌∙◌,
}
use re_loop.Store.{
  LedgerStatus, pending, rejected, update_row, find_row-test, find_row-All, update_row-All,
  Keyed-update, Distinct, Apart, found_by_key, update-All,
}
use re_loop.Wallet.Rows.{LedgerRow, Redemption, WalletDb}
use re_loop.Wallet.Reserve.{
  expected_reserve_status, is_live_reserve, has_status, find_redemption, with_status,
  set_ledger_status,
}
use re_loop.Wallet.Transition.{set_redemption}
use re_loop.Wallet.Backing.{
  Backed, AllBacked, RefersBelow, redemption_id, ledger_id, find-where, find-and,
  where-update_other, where-update_only,
}

-- What a change of a request leaves.
pub record Keeps (g : Redemption → Redemption) : Type 0 where
  pub same_id : (x : Redemption) → (g x).id ≡ x.id
  pub same_user : (x : Redemption) → (g x).user_id ≡ x.user_id
  pub same_amount : (x : Redemption) → (g x).amount ≡ x.amount

Backed-change :
    (l : List LedgerRow) (g : Redemption → Redemption) (r : Redemption)
    → Keeps g
    → expected_reserve_status (g r).status ≡ expected_reserve_status r.status
    → Backed l r
    → Backed l (g r)
Backed-change l g r k same b = record {
  reserve = b.reserve;
  only = rw (k.same_id r) b.only;
  same_user = b.same_user ∙ sym (k.same_user r);
  same_amount = rw (k.same_amount r) b.same_amount;
  agrees = b.agrees ∙ sym same;
}

-- A change that leaves the reserve as it is.
pub AllBacked-change :
    (i : ℕ) (g : Redemption → Redemption) (db : WalletDb) (r : Redemption)
    → find_redemption i db ≡ some r
    → Keeps g
    → expected_reserve_status (g r).status ≡ expected_reserve_status r.status
    → AllBacked db
    → AllBacked (set_redemption i g db)
AllBacked-change i g db r found k same a = record {
  redemptions = Keyed-update redemption_id db.next_id _ g db.redemptions k.same_id a.redemptions;
  ledger = a.ledger;
  refers = a.refers;
  backed = update_row-All (Backed db.ledger) _ g db.redemptions r a.backed found (
      Backed-change db.ledger g r k same
        (find_row-All (Backed db.ledger) _ db.redemptions r a.backed found));
}

module _ (l l' : List LedgerRow) (g : Redemption → Redemption) (r : Redemption)
    (others : (x : Redemption) → redemption_id r ≢ redemption_id x → Backed l x → Backed l' x)
    (itself : Backed l' (g r)) where
  Backed-Apart :
      (rs : List Redemption)
      → All (Apart redemption_id r) rs
      → All (Backed l) rs
      → All (Backed l') rs
  Backed-Apart [] apart h = tt
  Backed-Apart (x ∷ rs) apart h = (others x apart.0 h.0, Backed-Apart rs apart.1 h.1)

  Backed-update :
      (rs : List Redemption)
      → Distinct redemption_id rs
      → find_row (λ x. x.id == r.id) rs ≡ some r
      → All (Backed l) rs
      → All (Backed l') (update_row (λ x. x.id == r.id) g rs)
  Backed-update [] d found h = tt
  Backed-update (x ∷ rs) d found h = elim (Bool-cases (x.id == r.id)) [
    | inl here ↦
        let same : r ≡ x = ground arith in
        let apart : All (Apart redemption_id r) rs =
          subst (λ y. All (Apart redemption_id y) rs) (sym same) d.0 in
        rw here (subst (λ y. Backed l' (g y)) same itself, Backed-Apart rs apart h.1)
    | inr there ↦
        let later : find_row (λ y. y.id == r.id) rs ≡ some r = ground arith in
        let apart : redemption_id r ≢ redemption_id x = ground arith in
        rw there (others x apart h.0, Backed-update rs d.1 later h.1)
  ]

live_of_one :
    (i j : ℕ) (e : LedgerRow) → i ≢ j → is_live_reserve i e ≡ true → is_live_reserve j e ≡ false
live_of_one i j e other live = ground arith

live_after :
    (i j : ℕ) (s : LedgerStatus) (e : LedgerRow)
    → i ≢ j
    → is_live_reserve i e ≡ true
    → is_live_reserve j (with_status s e) ≡ false
live_after i j s e other live = ground arith

live_kept :
    (i : ℕ) (s : LedgerStatus) (e : LedgerRow)
    → s ≢ rejected
    → is_live_reserve i e ≡ true
    → is_live_reserve i (with_status s e) ≡ true
live_kept i s e counts live = ground arith

-- A change that settles the pending reserve to the status that the new status expects.
pub AllBacked-settle :
    (g : Redemption → Redemption) (s : LedgerStatus) (db : WalletDb) (r : Redemption)
    (b : Backed db.ledger r)
    → find_redemption r.id db ≡ some r
    → b.reserve.status ≡ pending
    → Keeps g
    → s ≡ expected_reserve_status (g r).status
    → s ≢ rejected
    → AllBacked db
    → AllBacked (set_ledger_status b.reserve.id s (set_redemption r.id g db))
AllBacked-settle g s db r b found waiting k agrees counts a =
    let e = b.reserve in
    let p : LedgerRow → Bool = λ y. (y.id == e.id) && has_status pending y in
    let l' = update_row p (with_status s) db.ledger in
    let live = find_row-test (is_live_reserve r.id) db.ledger e (find-where _ db.ledger e b.only) in
    let there : find_row p db.ledger ≡ some e =
      find-and (has_status pending) (λ y. y.id == e.id) db.ledger e
        (found_by_key ledger_id _ db.ledger e a.ledger.distinct (find-where _ db.ledger e b.only))
        (rw waiting refl) in
    let itself : Backed l' (g r) = record {
      reserve = with_status s e;
      only = rw (k.same_id r) (
          where-update_only (is_live_reserve r.id) p (with_status s) db.ledger e there b.only
            (find_row-test p db.ledger e there) live (live_kept r.id s e counts live));
      same_user = b.same_user ∙ sym (k.same_user r);
      same_amount = rw (k.same_amount r) b.same_amount;
      agrees = agrees;
    } in
    record {
      redemptions =
          Keyed-update redemption_id db.next_id _ g db.redemptions k.same_id a.redemptions;
      ledger = Keyed-update ledger_id db.next_id p (with_status s) db.ledger (λ x. refl) a.ledger;
      refers = update-All (RefersBelow db.next_id) p (with_status s) db.ledger (λ x h. h) a.refers;
      backed =
          Backed-update db.ledger l' g r
            (λ x other h. record {
              reserve = h.reserve;
              only =
                  where-update_other (is_live_reserve x.id) p (with_status s) db.ledger e there
                    (live_of_one r.id x.id e other live) (live_after r.id x.id s e other live)
                  ∙ h.only;
              same_user = h.same_user;
              same_amount = h.same_amount;
              agrees = h.agrees;
            })
            itself db.redemptions a.redemptions.distinct found a.backed;
    }
