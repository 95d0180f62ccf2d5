-- ===== src/Guard/Replay.antt =====
-- A signed request is accepted once: the nonce outlives the signature (lib/machine-auth-constants.ts).
use re_loop.Base.{
  sym, -ℤ_parts, leb, leb→le, Bool-cases, or_else, All, ℤ, pos, Outcome, ok, err, throw_if,
  or_throw, >>=-eq-ok, ℕ, suc, ◌+◌, ◌*◌, ◌/◌, ◌≤◌, ◌<◌, ◌≡◌, refl, ap, ◌∙◌, subst, ◌≢◌, ◌⊎◌, inl,
  inr, Bool, true, false, Option, none, some, List, [], ◌∷◌, arith,
}
use native.Mathlib.Nat.{mul-le-mul_right}
use re_loop.Store.{Text, All-map}
use re_loop.Guard.Maps.{lookup}
use re_loop.Guard.Nonces.{
  Nonces, nonce_key, machine_nonce_ttl_ms, consume_key, consume_machine_nonce,
}
use re_loop.Guard.Requests.{
  no_secret, VerifyParams, Clock, Reason, no_secret, missing_headers, bad_timestamp,
  stale_timestamp, truthy, now_of, is_stale, verify_machine_signature, verify_machine_request,
  NonceEvent, request_event, sweep_event, run_nonce_events,
}
use re_loop.Guard.Remembering.{
  consumed-lookup, known_is_refused, consume_key-keeps, sweep_nonces-keeps,
}

Outcome-cases : (o : Outcome Reason (Unit {0})) → ((e : Reason) × (o ≡ err e)) ⊎ (o ≡ ok tt)
Outcome-cases (err e) = inl (e, refl)
Outcome-cases (ok _) = inr refl

or_throw-eq-ok : {A : Type 0} (o : Option A) (e : Reason) (a : A) → or_throw o e ≡ ok a → o ≡ some a
or_throw-eq-ok none e a passed = cc
or_throw-eq-ok (some b) e a passed = cc

throw_if-eq-ok : (b : Bool) (e : Reason) → throw_if b e ≡ ok (tt {0}) → b ≡ false
throw_if-eq-ok true e passed = cc
throw_if-eq-ok false e passed = refl

module _ (hmac : Text → Text → Text) (unit : ℕ) (number : Text → Option ℤ) where
  abbrev pub Before : ℕ → NonceEvent hmac unit number → Type 0
  Before until (request_event p clock) = clock.nonce_ms < until
  Before until (sweep_event now) = now < until

  request-keeps :
      (k : Text) (p : VerifyParams) (clock : Clock) (until : ℕ) (seen : Nonces)
      → clock.nonce_ms < until
      → lookup k seen ≡ some until
      → lookup k (verify_machine_request hmac unit number p clock seen).1 ≡ some until
  unfolding verify_machine_request consume_machine_nonce
  request-keeps k p clock until seen early found =
      elim (Outcome-cases (verify_machine_signature hmac unit number p clock.signature_ms)) [
        | inl (e, refused) ↦ rw (refused, verify_machine_request) found
        | inr passed ↦
            rw (passed, verify_machine_request)
              (consume_key-keeps k (nonce_key p.machine_id (or_else p.nonce [])) clock.nonce_ms
                until seen early found)
      ]

  events-keep :
      (k : Text) (until : ℕ) (events : List (NonceEvent hmac unit number)) (seen : Nonces)
      → All (Before until) events
      → lookup k seen ≡ some until
      → lookup k (run_nonce_events hmac unit number events seen) ≡ some until
  unfolding run_nonce_events
  events-keep k until [] seen early found = found
  events-keep k until (request_event p clock ∷ l) seen early found =
      events-keep k until l _ early.1 (request-keeps k p clock until seen early.0 found)
  events-keep k until (sweep_event now ∷ l) seen early found =
      events-keep k until l _ early.1 (sweep_nonces-keeps k now until seen early.0 found)

  -- What passes the checks has a timestamp within the skew.
  signature_in_time :
      (p : VerifyParams) (ms : ℕ)
      → verify_machine_signature hmac unit number p ms ≡ ok tt
      → (t : Text) × (ts : ℤ) × (truthy p.timestamp ≡ some t)
        × (number t ≡ some ts)
        × (is_stale hmac unit number (now_of hmac unit number p ms) ts ≡ false)
  unfolding verify_machine_signature
  signature_in_time p ms passed =
      let (_, _, p1) = >>=-eq-ok (or_throw (truthy p.secret) no_secret) _ passed in
      let (t, timestamp, p2) = >>=-eq-ok (or_throw (truthy p.timestamp) missing_headers) _ p1 in
      let (_, _, p3) = >>=-eq-ok (or_throw (truthy p.nonce) missing_headers) _ p2 in
      let (_, _, p4) = >>=-eq-ok (or_throw (truthy p.signature) missing_headers) _ p3 in
      let (ts, reads, p5) = >>=-eq-ok (or_throw (number t) bad_timestamp) _ p4 in
      let (_, fits, _) =
        >>=-eq-ok
          (throw_if (is_stale hmac unit number (now_of hmac unit number p ms) ts) stale_timestamp) _
          p5 in
      let in_time : is_stale hmac unit number (now_of hmac unit number p ms) ts ≡ false =
        throw_if-eq-ok _ _ fits in
      (t, ts, or_throw-eq-ok _ _ t timestamp, or_throw-eq-ok _ _ ts reads, in_time)

  skew_bound :
      (n m : ℕ) (ts : ℤ)
      → 0 < unit
      → is_stale hmac unit number n ts ≡ false
      → is_stale hmac unit number m ts ≡ false
      → m ≤ n + 600
  unfolding is_stale
  skew_bound n m ts some_unit first second =
      let close : m * unit ≤ n * unit + 600 * unit = ground (
        arith,
        -ℤ_parts (pos (n * unit)) ts,
        -ℤ_parts ts (pos (n * unit)),
        -ℤ_parts (pos (m * unit)) ts,
        -ℤ_parts ts (pos (m * unit)),
      ) in
      elim (Bool-cases (leb m (n + 600))) [
        | inl fits ↦ leb→le m (n + 600) fits
        | inr far ↦
            let more : n + 601 ≤ m = ground arith in
            absurd (omega (arith, mul-le-mul_right unit more, close))
      ]

  -- An accepted request passed the signature check and consumed its nonce.
  accepted_consumes :
      (p : VerifyParams) (clock : Clock) (seen : Nonces)
      → (verify_machine_request hmac unit number p clock seen).0 ≡ ok tt
      → (verify_machine_signature hmac unit number p clock.signature_ms ≡ ok tt)
        × ((consume_key (nonce_key p.machine_id (or_else p.nonce [])) clock.nonce_ms seen).0 ≡ true)
        × ((verify_machine_request hmac unit number p clock seen).1
            ≡ (consume_key (nonce_key p.machine_id (or_else p.nonce [])) clock.nonce_ms seen).1)
  unfolding verify_machine_request consume_machine_nonce
  accepted_consumes p clock seen accepted =
      elim (Outcome-cases (verify_machine_signature hmac unit number p clock.signature_ms)) [
        | inl (e, refused) ↦ cc (rw (refused, verify_machine_request) at accepted)
        | inr passed ↦
            let unknown = throw_if-eq-ok _ _ (rw (passed, verify_machine_request) at accepted) in
            (passed, ground arith, rw (passed, verify_machine_request) refl)
      ]

  Before-later :
      (a b : ℕ) (events : List (NonceEvent hmac unit number))
      → a ≤ b
      → All (Before a) events
      → All (Before b) events
  Before-later a b events le = All-map (Before a) (Before b) events widen
    where
      widen : (e : NonceEvent hmac unit number) → Before a e → Before b e
      widen (request_event p clock) early = omega arith
      widen (sweep_event now) early = omega arith

  -- Two checks that pass on one timestamp are at most 600 seconds apart.
  passes_apart :
      (p q : VerifyParams) (a b : ℕ)
      → 0 < unit
      → p.timestamp ≡ q.timestamp
      → verify_machine_signature hmac unit number p a ≡ ok tt
      → verify_machine_signature hmac unit number q b ≡ ok tt
      → now_of hmac unit number q b ≤ now_of hmac unit number p a + 600
  passes_apart p q a b some_unit same first second =
      let (t, ts, told, reads, fits) = signature_in_time p a first in
      let (u, us, told', reads', fits') = signature_in_time q b second in
      let one_text : some u ≡ some t = sym told' ∙ sym (ap truthy same) ∙ told in
      let one_time : us ≡ ts = cc in
      skew_bound _ _ ts some_unit fits (
        subst (λ x. is_stale hmac unit number (now_of hmac unit number q b) x ≡ false) one_time
          fits')

  -- The same machine, timestamp and nonce with any body and signature.
  abbrev pub resent : Text → Option Text → VerifyParams → VerifyParams
  resent body signature p = record p { raw_body = body; signature = signature }

  -- A request that was accepted, on a server that reads the time itself, is not accepted again with any
  -- body and signature, through any requests and sweeps that are not later than its second check of
  -- the nonce. The first call reads the clock for the nonce after it does for the signature, and the
  -- second within 59 seconds of it.
  pub accepted_once :
      (p : VerifyParams) (body : Text) (signature : Option Text) (first second : Clock)
      (events : List (NonceEvent hmac unit number)) (seen : Nonces)
      → 0 < unit
      → p.now_seconds ≡ none
      → first.signature_ms ≤ first.nonce_ms
      → second.nonce_ms < second.signature_ms + 59000
      → All (Before (suc second.nonce_ms)) events
      → (verify_machine_request hmac unit number p first seen).0 ≡ ok tt
      → (verify_machine_request hmac unit number (resent body signature p) second (
          run_nonce_events hmac unit number events
            (verify_machine_request hmac unit number p first seen).1)).0
        ≢ ok tt
  accepted_once p body signature first second events seen some_unit clock ordered prompt early
        accepted again =
      let key = nonce_key p.machine_id (or_else p.nonce []) in
      let until = first.nonce_ms + machine_nonce_ttl_ms in
      let q = resent body signature p in
      let after = (verify_machine_request hmac unit number p first seen).1 in
      let (passed, fresh, stored) = accepted_consumes p first seen accepted in
      let (passed_again, fresh_again, _) = accepted_consumes q second _ again in
      let near = passes_apart p q _ _ some_unit refl passed passed_again in
      let near_ms : second.signature_ms / 1000 ≤ first.signature_ms / 1000 + 600 =
        rw clock at near in
      let in_time : second.nonce_ms < until = omega arith in
      let known : lookup key after ≡ some until =
        rw stored (consumed-lookup key first.nonce_ms seen fresh) in
      let kept =
        events-keep key until events after
          (Before-later (suc second.nonce_ms) until events in_time early) known in
      let refused = known_is_refused key second.nonce_ms until _ in_time kept in
      cc (sym refused ∙ fresh_again)
