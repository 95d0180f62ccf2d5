-- ===== src/Guard/Tests.antt =====
-- Runs of lib/machine-auth.ts, lib/rate-limit.ts and lib/totp.ts.
use re_loop.Base.{
  false, ◌≤◌, true, All, ◌-ℤ◌, ℤ, pos, ok, err, ℕ, ◌+◌, ◌-◌, ◌*◌, min, ◌≡◌, refl, ◌≢◌, Option, none,
  some, List, [], ◌∷◌, ◌++◌, arith,
}
use re_loop.Store.{Text, text_eq}
use re_loop.Guard.Maps.{lookup, set_entry, sweep}
use re_loop.Guard.Nonces.{consume_key, consume_machine_nonce, sweep_nonces}
use re_loop.Guard.Requests.{
  VerifyParams, Clock, sign_machine_payload, is_stale, verify_machine_signature,
  verify_machine_request, NonceEvent, request_event, sweep_event, run_nonce_events, stale_timestamp,
  replay_nonce,
}
use re_loop.Guard.Replay.{accepted_once}
use re_loop.Guard.RateLimit.{
  Windows, check, sweep_windows, LimitEvent, run_limit_event, checks_of, allowed_of,
}
use re_loop.Guard.RateLimit
use re_loop.Guard.Windows.{Within, window_allowance}
use re_loop.Guard.Base32.{
  alphabet_at, index_of, take_groups, encode_loop, base32_encode, strip_padding, decode_loop,
  base32_decode,
}
use re_loop.Guard.Totp.{generate_totp_code, find_totp_step}
use re_loop.Guard.TotpWindow.{generated_is_found}
use re_loop.Guard.Mfa.{FactorEnv, UserRow, claim_step, is_fresh_step}
use re_loop.Guard.SingleUse.{
  MfaEvent, begin_event, enable_event, login_event, mfa_event, mfa_events, Descending,
  accepted-Descending,
}
use re_loop.Guard.RoundTrip.{base32_decode-base32_encode}

-- A stand-in for HMAC: the key, then the message.
abbrev keyed : Text → Text → Text
keyed secret message = secret ++ message

abbrev read_decimal : Text → ℕ → ℕ
read_decimal [] n = n
read_decimal (c ∷ t) n = read_decimal t (n * 10 + (c - 48))

abbrev whole_number : Text → Option ℤ
whole_number t = some (pos (read_decimal t 0))

-- The timestamp 5000 and the nonce "a".
abbrev request : VerifyParams
request = record {
  machine_id = 77 ∷ [];
  secret = some (115 ∷ []);
  timestamp = some (53 ∷ 48 ∷ 48 ∷ 48 ∷ []);
  nonce = some (97 ∷ []);
  raw_body = 123 ∷ 125 ∷ [];
  signature = some (115 ∷ 53 ∷ 48 ∷ 48 ∷ 48 ∷ 46 ∷ 97 ∷ 46 ∷ 123 ∷ 125 ∷ []);
  now_seconds = none;
}

abbrev early : Clock
early = record { signature_ms = 4700000; nonce_ms = 4700002 }

abbrev late : Clock
late = record { signature_ms = 5300999; nonce_ms = 5301001 }

abbrev much_later : Clock
much_later = record { signature_ms = 5301000; nonce_ms = 5301001 }

abbrev between : List (NonceEvent keyed 1 whole_number)
between =
    sweep_event 4760000
    ∷ request_event (record request { nonce = some (98 ∷ []) }) late
    ∷ sweep_event 5300000
    ∷ []

first_is_accepted : (verify_machine_request keyed 1 whole_number request early []).0 ≡ ok tt
unfolding verify_machine_request verify_machine_signature consume_machine_nonce consume_key lookup
    is_stale sign_machine_payload text_eq ◌-ℤ◌
first_is_accepted = refl

second_is_a_replay :
    (verify_machine_request keyed 1 whole_number request late (
      run_nonce_events keyed 1 whole_number between
        (verify_machine_request keyed 1 whole_number request early []).1)).0
    ≡ err replay_nonce
unfolding verify_machine_request verify_machine_signature consume_machine_nonce consume_key lookup
    set_entry is_stale sign_machine_payload text_eq ◌-ℤ◌ run_nonce_events sweep_nonces sweep
second_is_a_replay = refl

later_is_stale :
    verify_machine_signature keyed 1 whole_number request much_later.signature_ms
    ≡ err stale_timestamp
unfolding verify_machine_signature is_stale ◌-ℤ◌
later_is_stale = refl

accepted_once_example :
    (verify_machine_request keyed 1 whole_number request late (
      run_nonce_events keyed 1 whole_number between
        (verify_machine_request keyed 1 whole_number request early []).1)).0
    ≢ ok tt
accepted_once_example =
    accepted_once keyed 1 whole_number request request.raw_body request.signature early late between
      [] (omega arith) refl (omega arith) (omega arith)
      (omega arith, (omega arith, (omega arith, tt))) first_is_accepted

-- Three logins of one key in a minute, two allowed; another key and the timer do not matter.
abbrev login : Text
login = 108 ∷ []

abbrev attempts : List LimitEvent
attempts =
    RateLimit.check_event login 2 60000 1010
    ∷ RateLimit.check_event (109 ∷ []) 5 60000 1020
    ∷ RateLimit.sweep_event 30000
    ∷ RateLimit.check_event login 2 60000 60999
    ∷ []

two_of_three : allowed_of login (RateLimit.check_event login 2 60000 1000 ∷ attempts) [] ≡ 2
unfolding allowed_of run_limit_event check lookup set_entry sweep_windows sweep text_eq
two_of_three = refl

no_window : RateLimit.open_window 1000 (lookup {V = RateLimit.Window} login []) ≡ none
unfolding lookup
no_window = refl

attempts-Within : All (Within login 2 61000) attempts
unfolding text_eq
attempts-Within = (
  (omega arith, λ e. refl),
  ((omega arith, λ e. cc), (omega arith, ((omega arith, λ e. refl), tt))),
)

window_allowance_example :
    allowed_of login (RateLimit.check_event login 2 60000 1000 ∷ attempts) []
    ≡ min (checks_of login (RateLimit.check_event login 2 60000 1000 ∷ attempts)) 2
window_allowance_example =
    window_allowance login 2 60000 1000 [] attempts (omega arith) no_window attempts-Within

-- "MZXW6YQ" is "foob".
foob : base32_encode (102 ∷ 111 ∷ 111 ∷ 98 ∷ []) ≡ 77 ∷ 90 ∷ 88 ∷ 87 ∷ 54 ∷ 89 ∷ 81 ∷ []
unfolding base32_encode encode_loop take_groups alphabet_at
foob = refl

lower_case_padded :
    base32_decode (109 ∷ 122 ∷ 120 ∷ 119 ∷ 54 ∷ 121 ∷ 113 ∷ 61 ∷ []) ≡ 102 ∷ 111 ∷ 111 ∷ 98 ∷ []
unfolding base32_decode decode_loop strip_padding index_of
lower_case_padded = refl

base32_decode-base32_encode_example :
    base32_decode (base32_encode (102 ∷ 111 ∷ 111 ∷ 98 ∷ [])) ≡ 102 ∷ 111 ∷ 111 ∷ 98 ∷ []
base32_decode-base32_encode_example =
    base32_decode-base32_encode (102 ∷ 111 ∷ 111 ∷ 98 ∷ [])
      (omega arith, (omega arith, (omega arith, (omega arith, tt))))

-- A stand-in for HMAC-SHA1: the counter moves the code.
abbrev tagged : List ℕ → List ℕ → List ℕ
tagged secret message = 0 ∷ 0 ∷ 0 ∷ 0 ∷ message

abbrev shared : Text
shared = 77 ∷ 90 ∷ []

-- The code of step 5, checked in step 6.
generated_is_found_example :
    (s : ℕ) × (find_totp_step tagged shared (generate_totp_code tagged shared 150000) 1 199999
      ≡ ok (some s))
    × (5 ≤ s)
generated_is_found_example =
    generated_is_found tagged shared 1 150000 199999 (omega arith) (omega arith)

abbrev factor_env : FactorEnv
factor_env = record {
  hmac_sha1 = tagged;
  is_encrypted = λ t. false;
  decrypt = λ t. none;
  verify_password = text_eq;
}

abbrev no_factor : UserRow
no_factor = record {
  is_active = true;
  password_hash = some (112 ∷ []);
  mfa_enabled = false;
  totp_secret = none;
  totp_last_used_step = none;
  pending_totp_secret = none;
  pending_totp_expires_at = none;
  pending_totp_token_version = none;
  token_version = 0;
}

-- A setup, its confirmation in step 5, two logins that both claim step 6, and one that claims step 7.
abbrev factor_events : List MfaEvent
factor_events =
    begin_event shared (112 ∷ []) none 140000
    ∷ enable_event (generate_totp_code tagged shared 150000) 150000
    ∷ login_event shared 6
    ∷ login_event shared 6
    ∷ login_event shared 7
    ∷ []

accepted-Descending_example :
    Descending
      (mfa_events factor_env factor_events (record { user = no_factor; accepted = [] })).accepted
accepted-Descending_example = accepted-Descending factor_env factor_events no_factor

two_logins :
    (mfa_events factor_env
      (login_event shared 6 ∷ login_event shared 6 ∷ login_event shared 7 ∷ [])
      (record {
        user = record no_factor { mfa_enabled = true; totp_secret = some shared };
        accepted = [];
      })).accepted
    ≡ 7 ∷ 6 ∷ []
unfolding mfa_events mfa_event claim_step is_fresh_step text_eq
two_logins = refl
