-- ===== src/Guard/Requests.antt =====
-- Signed machine requests (lib/machine-auth.ts). HMAC-SHA256 in hexadecimal is a parameter, and so is
-- the conversion `Number(text)`: a finite number in units of 1 / `unit` seconds, or nothing.
use re_loop.Base.{
  or_else, ◌-ℤ◌, ℤ, pos, ltb_ℤ, Outcome, ok, err, ◌>>=◌, ◌>>◌, throw_if, or_throw, ℕ, ◌*◌, ◌/◌,
  Bool, not, ◌||◌, Option, none, some, List, [], ◌∷◌, ◌++◌,
}
use re_loop.Store.{Text, text_eq}
use re_loop.Guard.Nonces.{Nonces, machine_sig_max_skew_seconds, consume_machine_nonce, sweep_nonces}

pub record VerifyParams : Type 0 where
  pub machine_id : Text
  pub secret : Option Text
  pub timestamp : Option Text
  pub nonce : Option Text
  pub raw_body : Text
  pub signature : Option Text
  pub now_seconds : Option ℕ

pub data Reason : Type 0 where
  no_secret missing_headers bad_timestamp stale_timestamp bad_signature replay_nonce : Reason

-- A string that is there and is not empty.
abbrev pub truthy : Option Text → Option Text
truthy none = none
truthy (some []) = none
truthy (some (c ∷ t)) = some (c ∷ t)

-- One call reads the clock for the signature and once more for the nonce.
pub record Clock : Type 0 where
  pub signature_ms : ℕ
  pub nonce_ms : ℕ

module _ (hmac : Text → Text → Text) (unit : ℕ) (number : Text → Option ℤ) where
  -- `${timestamp}.${nonce}.${rawBody}`
  unfoldable pub sign_machine_payload : Text → Text → Text → Text → Text
  sign_machine_payload secret timestamp nonce raw_body =
      hmac secret (timestamp ++ 46 ∷ nonce ++ 46 ∷ raw_body)

  -- `Math.abs(now - ts) > MACHINE_SIG_MAX_SKEW_SECONDS`
  unfoldable pub is_stale : ℕ → ℤ → Bool
  is_stale now ts =
      ltb_ℤ (pos (machine_sig_max_skew_seconds * unit)) (pos (now * unit) -ℤ ts)
      || ltb_ℤ (pos (machine_sig_max_skew_seconds * unit)) (ts -ℤ pos (now * unit))

  abbrev pub now_of : VerifyParams → ℕ → ℕ
  now_of p ms = or_else p.now_seconds (ms / 1000)

  unfoldable pub verify_machine_signature : VerifyParams → ℕ → Outcome Reason (Unit {0})
  verify_machine_signature p ms = do
    secret ← or_throw (truthy p.secret) no_secret
    timestamp ← or_throw (truthy p.timestamp) missing_headers
    nonce ← or_throw (truthy p.nonce) missing_headers
    signature ← or_throw (truthy p.signature) missing_headers
    ts ← or_throw (number timestamp) bad_timestamp
    throw_if (is_stale (now_of p ms) ts) stale_timestamp
    throw_if (not (text_eq (sign_machine_payload secret timestamp nonce p.raw_body) signature))
        bad_signature

  unfoldable pub verify_machine_request :
      VerifyParams → Clock → Nonces → Outcome Reason (Unit {0}) × Nonces
  verify_machine_request p clock seen = elim (verify_machine_signature p clock.signature_ms) [
    | err e ↦ (err e, seen)
    | ok _ ↦
        let (fresh, after) =
          consume_machine_nonce p.machine_id (or_else p.nonce []) clock.nonce_ms seen in
        (throw_if (not fresh) replay_nonce, after)
  ]

  -- What happens to the store of one process: a request, or the timer.
  pub data NonceEvent : Type 0 where
    request_event : VerifyParams → Clock → NonceEvent
    sweep_event : ℕ → NonceEvent

  unfoldable pub run_nonce_events : List NonceEvent → Nonces → Nonces
  run_nonce_events [] seen = seen
  run_nonce_events (request_event p clock ∷ l) seen =
      run_nonce_events l (verify_machine_request p clock seen).1
  run_nonce_events (sweep_event now ∷ l) seen = run_nonce_events l (sweep_nonces now seen)
