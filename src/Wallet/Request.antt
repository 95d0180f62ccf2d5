-- ===== src/Wallet/Request.antt =====
-- `requestRedemption` of lib/wallet-service.ts and the destination columns of
-- lib/payout-destination.ts. The body hash is a hash of the amount and the account, so it stands as
-- this pair; `encrypt` is a parameter.
use re_loop.Base.{
  ℕ, ◌+◌, Bool, true, false, not, ◌&&◌, ◌||◌, Option, none, some, [], ◌∷◌, ◌++◌, pos, ◌-ℤ◌, ltb_ℤ,
  ltb, ◌==◌, opt_eq, length, if◌then◌else◌, find_row, Outcome, ok, ◌>>=◌, ◌>>◌, throw_if, or_throw,
}
use re_loop.Store.{
  Text, text_eq, Failure, http_error, role_denied, invalid_input, redemption_key_conflict,
  payout_account_not_found, payout_account_disabled, below_minimum, insufficient_balance,
  insufficient_balance_held,
}
use re_loop.Pickup.{Role, user, role_ordinal}
use re_loop.Wallet.Rows.{
  Redemption, requested, Destination, DestinationSource, request_snapshot, legacy_unavailable,
  PayoutAccount, WalletDb,
}
use re_loop.Wallet.Balance.{get_wallet_balance, held_by_open_debit_cases}
use re_loop.Wallet.Reserve.{create_redeem_reserve}

pub record CurrentUser : Type 0 where
  pub id : ℕ
  pub role : Role

pub record RequestInput : Type 0 where
  pub amount : ℕ
  pub payout_account_id : ℕ
  pub idempotency_key : Text

abbrev pub max_rupiah : ℕ
max_rupiah = 2147483647

-- `idempotencyKeySchema`: visible ASCII, 1 to 80 characters.
unfoldable pub all_visible : Text → Bool
all_visible [] = true
all_visible (c ∷ t) = not (ltb c 33) && (not (ltb 126 c) && all_visible t)

unfoldable pub is_idempotency_key : Text → Bool
unfolding all_visible
is_idempotency_key key = all_visible key && (ltb 0 (length key) && not (ltb 80 (length key)))

abbrev pub request_hash : RequestInput → ℕ × ℕ
request_hash input = (input.amount, input.payout_account_id)

abbrev hash_eq : ℕ × ℕ → ℕ × ℕ → Bool
hash_eq a b = (a.0 == b.0) && (a.1 == b.1)

-- Whether the key was used for the same amount and account; a legacy row has no hash.
abbrev pub same_request : Redemption → RequestInput → Bool
same_request r input = elim r.request_hash [
  | some h ↦ hash_eq h (request_hash input)
  | none ↦ (r.amount == input.amount) && opt_eq r.payout_account_id (some input.payout_account_id)
]

abbrev pub find_request : ℕ → Text → WalletDb → Option Redemption
find_request owner key db =
    find_row (λ r. (r.user_id == owner) && text_eq r.idempotency_key key) db.redemptions

abbrev pub find_payout_account : ℕ → ℕ → WalletDb → Option PayoutAccount
find_payout_account i owner db =
    find_row (λ a. (a.id == i) && (a.user_id == owner)) db.payout_accounts

module _ (encrypt : Text → Text) where
  abbrev encrypt_name : Option Text → Option Text
  encrypt_name none = none
  encrypt_name (some []) = none
  encrypt_name (some (c ∷ t)) = some (encrypt (c ∷ t))

  abbrev pub destination_snapshot : PayoutAccount → DestinationSource → Destination
  destination_snapshot a source = record {
    source = source;
    provider = some a.provider;
    identifier = some (encrypt a.identifier);
    name = encrypt_name a.name;
  }

  abbrev pub new_redemption : ℕ → RequestInput → PayoutAccount → ℕ → Redemption
  new_redemption owner input a i = record {
    id = i;
    user_id = owner;
    payout_account_id = some a.id;
    amount = input.amount;
    status = requested;
    provider_reference = none;
    manual_transfer_proof = none;
    note = none;
    processed_by = none;
    idempotency_key = input.idempotency_key;
    request_hash = some (request_hash input);
    destination = some (destination_snapshot a request_snapshot);
    reconciliation_required = false;
    reconciliation_note = none;
  }

  abbrev pub add_redemption : Redemption → WalletDb → WalletDb
  add_redemption r db = record db {
    redemptions = db.redemptions ++ r ∷ [];
    next_id = db.next_id + 1;
  }

  abbrev pub balance_message : ℕ → Failure
  balance_message held =
      http_error 422 (if ltb 0 held then insufficient_balance_held else insufficient_balance)

  -- A key that is not used yet.
  unfoldable pub request_new :
      ℕ → RequestInput → WalletDb → Outcome Failure ((Redemption × Bool) × WalletDb)
  request_new owner input db = do
    a ←
        or_throw (find_payout_account input.payout_account_id owner db)
          (http_error 404 payout_account_not_found)
    throw_if a.disabled (http_error 409 payout_account_disabled)
    throw_if (ltb input.amount db.min_redemption) (http_error 422 below_minimum)
    let held = held_by_open_debit_cases owner db
    throw_if (ltb_ℤ ((get_wallet_balance owner db).available -ℤ pos held) (pos input.amount))
        (balance_message held)
    let r = new_redemption owner input a db.next_id
    let (_, reserved) = create_redeem_reserve owner input.amount r.id (add_redemption r db)
    ok ((r, false), reserved)

  -- The request, and whether it was there before.
  unfoldable pub request_redemption :
      CurrentUser → RequestInput → WalletDb → Outcome Failure ((Redemption × Bool) × WalletDb)
  unfolding is_idempotency_key
  request_redemption actor input db = do
    throw_if (not (role_ordinal actor.role == role_ordinal user)) (http_error 403 role_denied)
    throw_if
        (ltb input.amount 1
          || (ltb max_rupiah input.amount || not (is_idempotency_key input.idempotency_key)))
        (http_error 422 invalid_input)
    elim (find_request actor.id input.idempotency_key db) [
      | some r ↦ do
        throw_if (not (same_request r input)) (http_error 409 redemption_key_conflict)
        ok ((r, true), db)
      | none ↦ request_new actor.id input db
    ]

abbrev pub unavailable_destination : Destination
unavailable_destination = record {
  source = legacy_unavailable;
  provider = none;
  identifier = none;
  name = none;
}
