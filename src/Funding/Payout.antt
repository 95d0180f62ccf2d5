-- ===== src/Funding/Payout.antt =====
-- `recordFundingEntry`, `fundingAccountsForPayout` and `settlePayoutFunding` of
-- lib/reward-funding.ts. References and notes come trimmed, since trimming is a library call; the
-- upper-cased reference of a key is `upper`.
use re_loop.Base.{
  ℕ, ◌+◌, ◌-◌, Bool, true, false, not, ◌&&◌, ◌||◌, Option, none, some, List, [], ◌∷◌, ◌++◌, ℤ, pos,
  neg, ◌-ℤ◌, pos_part, neg_part, ltb_ℤ, eqb_ℤ, ltb, ◌==◌, min, if◌then◌else◌, length, find_row,
  where_rows, opt_eq, Outcome, ok, ◌>>=◌, ◌>>◌, throw_if,
}
use re_loop.Store.{
  Text, Commit, FundingEntry, EntryKind, confirmed_topup, payout, kind_ordinal, FundingDb, Key,
  key_eq, funding_cash_key, funding_correction_key, payout_funding_key, Failure, http_error,
  funding_reference_required, funding_note_required, funding_reference_conflict,
}
use re_loop.Funding.Capacity.{assert_rupiah, bump_account, lock_funding_account}
use re_loop.Funding.Commit.{set_commit}

pub record EntryInput : Type 0 where
  pub organization_id : ℕ
  pub kind : EntryKind
  pub amount : ℤ
  pub reference : Text
  pub note : Text
  pub verified_by : ℕ

abbrev pub add_entry : FundingEntry → FundingDb → FundingDb
add_entry e db = record db { entries = db.entries ++ e ∷ [] }

abbrev pub size_of : ℤ → ℕ
size_of a = pos_part a + neg_part a

-- A confirmed topup is positive; a correction has either sign.
abbrev pub rupiah_of : EntryInput → ℕ
rupiah_of input =
    if kind_ordinal input.kind == kind_ordinal confirmed_topup
    then pos_part input.amount
    else size_of input.amount

module _ (upper : Text → Text) where
  -- Cash that comes in has one key space, a reversal its own.
  abbrev pub entry_key : EntryInput → Key
  entry_key input =
      if ltb_ℤ (pos 0) input.amount
      then funding_cash_key (upper input.reference)
      else funding_correction_key (upper input.reference)

  abbrev pub differs : FundingEntry → ℕ → EntryInput → Bool
  differs e account input =
      not (e.account_id == account)
      || (not (eqb_ℤ e.amount input.amount) || not (kind_ordinal e.kind == kind_ordinal input.kind))

  abbrev pub entry_of : EntryInput → ℕ → FundingEntry
  entry_of input account = record {
    account_id = account;
    business_key = entry_key input;
    kind = input.kind;
    amount = input.amount;
    redemption_reference = none;
    reference = input.reference;
    note = input.note;
    verified_by = some input.verified_by;
  }

  -- The entry, and whether it was there before.
  unfoldable pub record_funding_entry :
      EntryInput → FundingDb → Outcome Failure ((FundingEntry × Bool) × FundingDb)
  record_funding_entry input db = do
    throw_if (ltb (length input.reference) 6 || ltb 120 (length input.reference))
        (http_error 422 funding_reference_required)
    throw_if (ltb (length input.note) 10 || ltb 500 (length input.note))
        (http_error 422 funding_note_required)
    assert_rupiah 1 (rupiah_of input)
    let (account, locked) = lock_funding_account input.organization_id db
    elim (find_row (λ e. key_eq e.business_key (entry_key input)) locked.entries) [
      | some e ↦ do
        throw_if (differs e account.id input) (http_error 409 funding_reference_conflict)
        ok ((e, true), locked)
      | none ↦ do
        let created = entry_of input account.id
        db' ← bump_account account.id input.amount (pos 0) (add_entry created locked)
        ok ((created, false), db')
    ]

-- The commits that a payout draws from, oldest first: rows are stored in the order they were made.
abbrev pub is_payable : ℕ → Commit → Bool
is_payable user c = c.user_id == user && not c.review_pending

abbrev pub unpaid : Commit → ℕ
unpaid c = c.held - c.paid

-- An amount for each account.
abbrev pub Shares : Type 0
Shares = List (ℕ × ℕ)

abbrev pub add_share : ℕ → ℕ → Shares → Shares
add_share a n [] = (a, n) ∷ []
add_share a n ((b, m) ∷ l) =
    let rest = add_share a n l in if a == b then (b, m + n) ∷ l else (b, m) ∷ rest

abbrev pub insert_share : ℕ × ℕ → Shares → Shares
insert_share x [] = x ∷ []
insert_share x (y ∷ l) = let rest = insert_share x l in if ltb y.0 x.0 then y ∷ rest else x ∷ y ∷ l

-- In the order of the accounts.
abbrev pub sort_shares : Shares → Shares
sort_shares [] = []
sort_shares (x ∷ l) = insert_share x (sort_shares l)

-- `fundingAccountsForPayout`: the accounts to lock, in order.
unfoldable pub funding_accounts_for_payout : ℕ → FundingDb → List ℕ
funding_accounts_for_payout user db =
    accounts
      (sort_shares (collect (where_rows (λ c. is_payable user c && ltb c.paid c.held) db.commits)))
  where
    collect : List Commit → Shares
    collect [] = []
    collect (c ∷ l) = add_share c.account_id 0 (collect l)

    accounts : Shares → List ℕ
    accounts [] = []
    accounts (x ∷ l) = x.0 ∷ accounts l

abbrev pub paid_more : ℕ → Commit → Commit
paid_more n c = record c { paid = c.paid + n }

-- The loop over the commits: what is left, what each account pays, and the rows.
unfoldable pub pay_commits : List Commit → ℕ → Shares → FundingDb → ℕ × Shares × FundingDb
pay_commits [] remaining shares db = (remaining, shares, db)
pay_commits (c ∷ rest) remaining shares db = elim (remaining == 0) [
  | true ↦ (remaining, shares, db)
  | false ↦ elim (min remaining (unpaid c) == 0) [
    | true ↦ pay_commits rest remaining shares db
    | false ↦
        pay_commits rest (remaining - min remaining (unpaid c))
          (add_share c.account_id (min remaining (unpaid c)) shares)
          (set_commit c.id (paid_more (min remaining (unpaid c))) db)
  ]
]

abbrev pub payout_entry : ℕ → Option ℕ → ℕ × ℕ → FundingEntry
payout_entry redemption actor share = record {
  account_id = share.0;
  business_key = payout_funding_key redemption share.0;
  kind = payout;
  amount = neg (pos share.1);
  redemption_reference = some redemption;
  reference = [];
  note = [];
  verified_by = actor;
}

unfoldable pub debit_accounts : ℕ → Option ℕ → Shares → FundingDb → Outcome Failure FundingDb
debit_accounts redemption actor [] db = ok db
debit_accounts redemption actor (x ∷ rest) db = do
  debited ← bump_account x.0 (neg (pos x.1)) (neg (pos x.1)) db
  debit_accounts redemption actor rest (add_entry (payout_entry redemption actor x) debited)

abbrev pub is_payout_of : ℕ → FundingEntry → Bool
is_payout_of redemption e =
    kind_ordinal e.kind == kind_ordinal payout && opt_eq e.redemption_reference (some redemption)

-- What the recorded entries of a payout took, which they store negated.
abbrev pub taken : List FundingEntry → ℤ
taken [] = pos 0
taken (e ∷ l) = taken l -ℤ e.amount

pub record Attribution : Type 0 where
  pub attributed : ℤ
  pub legacy : ℤ

unfoldable pub pay_first :
    ℕ → ℕ → ℕ → Option ℕ → FundingDb → Outcome Failure (Attribution × FundingDb)
pay_first redemption user gross actor db = do
  let (left, shares, paid) = pay_commits (where_rows (is_payable user) db.commits) gross [] db
  db' ← debit_accounts redemption actor (sort_shares shares) paid
  ok (record { attributed = pos gross -ℤ pos left; legacy = pos left }, db')

unfoldable pub settle_payout_funding :
    ℕ → ℕ → ℕ → Option ℕ → FundingDb → Outcome Failure (Attribution × FundingDb)
settle_payout_funding redemption user gross actor db = do
  assert_rupiah 1 gross
  elim (where_rows (is_payout_of redemption) db.entries) [
    | [] ↦ pay_first redemption user gross actor db
    | e ∷ l ↦ ok (record { attributed = taken (e ∷ l); legacy = pos gross -ℤ taken (e ∷ l) }, db)
  ]
