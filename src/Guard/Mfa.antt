-- ===== src/Guard/Mfa.antt =====
-- The second factor of an account (lib/mfa.ts). Each function is a transaction under the lock of the
-- user row, except that a login reads the row first and claims the step in a second statement.
-- Passwords, encryption and HMAC-SHA1 are parameters; secrets are compared as they are stored.
use re_loop.Base.{
  ltb, leb, ◌==◌, if◌then◌else◌, is_some, Outcome, ok, ◌>>=◌, ◌>>◌, throw_if, or_throw, ℕ, ◌+◌, ◌*◌,
  Bool, true, false, not, ◌&&◌, Option, none, some, List, ◌∷◌,
}
use re_loop.Store.{
  Text, text_eq, Failure, http_error, account_inactive, current_code_required, wrong_proof,
  wrong_password,
}
use re_loop.Guard.Totp.{find_totp_step}

-- The columns of `User` that the second factor reads and writes.
pub record UserRow : Type 0 where
  pub is_active : Bool
  pub password_hash : Option Text
  pub mfa_enabled : Bool
  pub totp_secret : Option Text
  pub totp_last_used_step : Option ℕ
  pub pending_totp_secret : Option Text
  pub pending_totp_expires_at : Option ℕ
  pub pending_totp_token_version : Option ℕ
  pub token_version : ℕ

pub record FactorEnv : Type 0 where
  pub hmac_sha1 : List ℕ → List ℕ → List ℕ
  pub is_encrypted : Text → Bool
  pub decrypt : Text → Option Text
  pub verify_password : Text → Text → Bool

abbrev pub mfa_pending_ttl_ms : ℕ
mfa_pending_ttl_ms = 10 * 60000

-- `!text` of a string that may be null or missing
abbrev pub given : Option Text → Option Text
given (some (c ∷ t)) = some (c ∷ t)
given _ = none

unfoldable pub read_totp_secret : FactorEnv → Option Text → Option Text
read_totp_secret env stored = elim (given stored) [
  | none ↦ none
  | some t ↦ if env.is_encrypted t then env.decrypt t else some t
]

-- The step of a code in the window of one step around now, as `findTotpStep(secret, code)` gives it.
abbrev pub step_of : FactorEnv → Text → Text → ℕ → Outcome Failure (Option ℕ)
step_of env secret code now = find_totp_step env.hmac_sha1 secret code 1 now

unfoldable pub is_fresh_step : Option ℕ → Option ℕ → Bool
is_fresh_step none last = false
is_fresh_step (some s) none = true
is_fresh_step (some s) (some l) = ltb l s

-- Nothing for a proof that fails; otherwise the step to record, if a code was checked.
unfoldable pub check_proof :
    FactorEnv → UserRow → Text → Option Text → ℕ → Outcome Failure (Option (Option ℕ))
check_proof env user password code now =
    let password_ok : Bool = elim (given user.password_hash) [
      | none ↦ false
      | some h ↦ env.verify_password password h
    ] in
    elim user.mfa_enabled [
      | false ↦ ok (if password_ok then some none else none)
      | true ↦ do
        step ← code_step (read_totp_secret env user.totp_secret) (given code)
        ok (if password_ok && is_fresh_step step user.totp_last_used_step then some step else none)
    ]
  where
    code_step : Option Text → Option Text → Outcome Failure (Option ℕ)
    code_step (some secret) (some c) = step_of env secret c now
    code_step _ _ = ok none

abbrev pub pending_mfa_cleared : UserRow → UserRow
pending_mfa_cleared user = record user {
  pending_totp_secret = none;
  pending_totp_expires_at = none;
  pending_totp_token_version = none;
}

abbrev pub with_step : Option ℕ → UserRow → UserRow
with_step none user = user
with_step (some s) user = record user { totp_last_used_step = some s }

-- `sealed` is the encrypted new secret.
abbrev pub with_pending : Text → ℕ → UserRow → UserRow
with_pending sealed now user = record user {
  pending_totp_secret = some sealed;
  pending_totp_expires_at = some (now + mfa_pending_ttl_ms);
  pending_totp_token_version = some user.token_version;
}

unfoldable pub begin_mfa_setup :
    FactorEnv → Text → Text → Option Text → ℕ → UserRow → Outcome Failure (Bool × UserRow)
begin_mfa_setup env sealed password code now user = do
  throw_if (not user.is_active) (http_error 403 account_inactive)
  throw_if (user.mfa_enabled && not (is_some (given code))) (http_error 422 current_code_required)
  checked ← check_proof env user password code now
  step ←
      or_throw checked (http_error 400 (if user.mfa_enabled then wrong_proof else wrong_password))
  ok (user.mfa_enabled, with_step step (with_pending sealed now user))

pub data EnableMfaResult : Type 0 where
  enabled : Bool → EnableMfaResult
  no_pending setup_expired setup_stale invalid_code : EnableMfaResult

pub record Pending : Type 0 where
  pub secret : Text
  pub expires_at : ℕ
  pub version : ℕ

abbrev pub pending_of : UserRow → Option Pending
pending_of user = do
  secret ← given user.pending_totp_secret
  expires_at ← user.pending_totp_expires_at
  version ← user.pending_totp_token_version
  some (record { secret = secret; expires_at = expires_at; version = version })
  where
    infixl 5 ◌>>=◌
    ◌>>=◌ : {A B : Type 0} → Option A → (A → Option B) → Option B
    none >>= f = none
    some a >>= f = f a

abbrev pub promoted : Pending → ℕ → UserRow → UserRow
promoted p step user = record (pending_mfa_cleared user) {
  totp_secret = user.pending_totp_secret;
  mfa_enabled = true;
  token_version = user.token_version + 1;
  totp_last_used_step = some step;
}

unfoldable pub confirm_pending :
    FactorEnv → Text → ℕ → UserRow → Pending → Outcome Failure (EnableMfaResult × UserRow)
confirm_pending env code now user p =
    if leb p.expires_at now
    then ok (setup_expired, pending_mfa_cleared user)
    else if not (p.version == user.token_version)
    then ok (setup_stale, pending_mfa_cleared user)
    else elim (read_totp_secret env (some p.secret)) [
      | none ↦ ok (no_pending, pending_mfa_cleared user)
      | some secret ↦ do
        step ← step_of env secret code now
        elim step [
          | none ↦ ok (invalid_code, user)
          | some s ↦ ok (enabled user.mfa_enabled, promoted p s user)
        ]
    ]

unfoldable pub enable_mfa :
    FactorEnv → Text → ℕ → UserRow → Outcome Failure (EnableMfaResult × UserRow)
enable_mfa env code now user = do
  throw_if (not user.is_active) (http_error 403 account_inactive)
  elim (pending_of user) [
    | none ↦ ok (no_pending, user)
    | some p ↦ confirm_pending env code now user p
  ]

pub data DisableMfaResult : Type 0 where
  disabled not_enabled invalid_proof : DisableMfaResult

unfoldable pub disable_mfa :
    FactorEnv → Text → Text → ℕ → UserRow → Outcome Failure (DisableMfaResult × UserRow)
disable_mfa env password code now user = do
  throw_if (not user.is_active) (http_error 403 account_inactive)
  elim user.mfa_enabled [
    | false ↦ ok (not_enabled, user)
    | true ↦ do
      checked ← check_proof env user password (some code) now
      ok (elim checked [
        | none ↦ (invalid_proof, user)
        | some _ ↦ (
          disabled,
          record (pending_mfa_cleared user) {
            mfa_enabled = false;
            totp_secret = none;
            totp_last_used_step = none;
            token_version = user.token_version + 1;
          },
        )
      ])
  ]

unfoldable pub cancel_mfa_setup : UserRow → Bool × UserRow
cancel_mfa_setup user = elim user.pending_totp_secret [
  | none ↦ (false, user)
  | some _ ↦ (true, pending_mfa_cleared user)
]

-- The first statement of a login: the stored secret and the step to claim.
unfoldable pub login_claim : FactorEnv → Text → ℕ → UserRow → Outcome Failure (Option (Text × ℕ))
login_claim env code now user = elim (user.mfa_enabled && user.is_active) [
  | false ↦ ok none
  | true ↦ elim (given user.totp_secret) [
    | none ↦ ok none
    | some stored ↦ elim (read_totp_secret env (some stored)) [
      | none ↦ ok none
      | some secret ↦ do
        step ← step_of env secret code now
        ok (if is_fresh_step step user.totp_last_used_step then claim stored step else none)
    ]
  ]
]
  where
    claim : Text → Option ℕ → Option (Text × ℕ)
    claim stored none = none
    claim stored (some s) = some (stored, s)

abbrev same_secret : Text → Option Text → Bool
same_secret stored none = false
same_secret stored (some t) = text_eq stored t

-- The second statement: the conditional update, on the row as it is by then.
unfoldable pub claim_step : Text → ℕ → UserRow → Bool × UserRow
unfolding is_fresh_step
claim_step stored step user =
    if user.mfa_enabled
      && (user.is_active
          && (same_secret stored user.totp_secret
              && is_fresh_step (some step) user.totp_last_used_step))
    then (true, with_step (some step) user)
    else (false, user)
