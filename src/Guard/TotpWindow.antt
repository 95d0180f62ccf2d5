-- ===== src/Guard/TotpWindow.antt =====
-- A code is accepted for as long as its time step is in the window (`findTotpStep` of lib/totp.ts).
use re_loop.Base.{
  ◌==◌, ==_iff, Bool-cases, length, All, ok, ℕ, zero, suc, ◌+◌, ◌*◌, ◌/◌, ◌%◌, ◌^◌, ◌≤◌, ◌<◌, ◌≡◌,
  refl, sym, ap, ◌∙◌, subst, inl, inr, true, false, not, some, List, [], ◌∷◌, arith,
}
use re_loop.Store.{Text, text_eq, text_eq_refl}
use re_loop.Guard.Base32.{base32_decode}
use re_loop.Guard.Totp.{
  six_digits, is_digit, is_space, all_digits, without_spaces, counter_at, truncated, big_endian,
  hotp, generate_totp_code, find_loop, find_totp_step,
}

abbrev IsDigit : ℕ → Type 0
IsDigit c = (is_digit c ≡ true) × (is_space c ≡ false)

remainder-IsDigit : (n : ℕ) → IsDigit (48 + n % 10)
remainder-IsDigit n = ground arith

six_digits-IsDigit : (n : ℕ) → All IsDigit (six_digits n)
six_digits-IsDigit n = (
  remainder-IsDigit (n / 100000),
  (
    remainder-IsDigit (n / 10000),
    (
      remainder-IsDigit (n / 1000),
      (remainder-IsDigit (n / 100), (remainder-IsDigit (n / 10), (remainder-IsDigit n, tt))),
    ),
  ),
)

digits_are_kept : (t : Text) → All IsDigit t → without_spaces t ≡ t
unfolding without_spaces
digits_are_kept [] digits = refl
digits_are_kept (c ∷ t) digits =
    let kept : not (is_space c) ≡ true = ap not digits.0.1 in
    rw (kept, digits_are_kept t digits.1) refl

digits-all_digits : (t : Text) → All IsDigit t → all_digits t ≡ true
unfolding all_digits
digits-all_digits [] digits = refl
digits-all_digits (c ∷ t) digits = rw (digits.0.0, digits-all_digits t digits.1) refl

module _ (hmac_sha1 : List ℕ → List ℕ → List ℕ) where
  -- The loop stops at a matching step or at a later one.
  find_loop-finds :
      (n : ℕ) (secret : List ℕ) (token : Text) (above step : ℕ)
      → step < above
      → above ≤ step + n
      → text_eq (hotp hmac_sha1 secret step) token ≡ true
      → (s : ℕ) × (find_loop hmac_sha1 n secret token above ≡ ok (some s)) × (step ≤ s)
  unfolding find_loop
  find_loop-finds zero secret token above step below reach matches = absurd (omega arith)
  find_loop-finds (suc n) secret token zero step below reach matches = absurd (omega arith)
  find_loop-finds (suc n) secret token (suc a) step below reach matches =
      elim (Bool-cases (text_eq (hotp hmac_sha1 secret a) token)) [
        | inl found ↦ (a, rw (found, find_loop) refl, omega arith)
        | inr missed ↦ elim (Bool-cases (step == a)) [
          | inl same ↦
              let here =
                subst (λ x. text_eq (hotp hmac_sha1 secret x) token ≡ true) ((==_iff step a).0 same)
                  matches in
              cc (sym here ∙ missed)
          | inr other ↦
              let (s, found, later) =
                find_loop-finds n secret token a step (ground arith) (omega arith) matches in
              (s, rw (missed, find_loop) found, later)
        ]
      ]

  hotp-IsDigit : (secret : List ℕ) (counter : ℕ) → All IsDigit (hotp hmac_sha1 secret counter)
  unfolding hotp
  hotp-IsDigit secret counter =
      six_digits-IsDigit (truncated hmac_sha1 (hmac_sha1 secret (big_endian 8 counter)) % 10 ^ 6)

  length-hotp :
      (secret : List ℕ) (counter : ℕ) → (length (hotp hmac_sha1 secret counter) == 6) ≡ true
  unfolding hotp
  length-hotp secret counter = refl

  digits_are_searched :
      (secret token : Text) (window now : ℕ)
      → without_spaces token ≡ token
      → all_digits token ≡ true
      → (length token == 6) ≡ true
      → find_totp_step hmac_sha1 secret token window now
        ≡ find_loop hmac_sha1
            (2 * window + 1)
            (base32_decode secret)
            token
            (suc (counter_at now + window))
  unfolding find_totp_step
  digits_are_searched secret token window now kept digits six =
      rw (kept, digits, six, find_totp_step)
        (ap
          (λ t.
            find_loop hmac_sha1 (2 * window + 1) (base32_decode secret) t
              (suc (counter_at now + window)))
          kept)

  -- A code that was generated from a secret is found again, at its own time step or a later one with
  -- the same code, if its step is at most the window away from the step of the check.
  pub generated_is_found :
      (secret : Text) (window issued now : ℕ)
      → counter_at issued ≤ counter_at now + window
      → counter_at now ≤ counter_at issued + window
      → (s : ℕ) × (find_totp_step hmac_sha1 secret
            (generate_totp_code hmac_sha1 secret issued)
            window
            now
          ≡ ok (some s))
        × (counter_at issued ≤ s)
  unfolding generate_totp_code
  generated_is_found secret window issued now not_early not_late =
      let code = hotp hmac_sha1 (base32_decode secret) (counter_at issued) in
      let digits = hotp-IsDigit (base32_decode secret) (counter_at issued) in
      let searched =
        digits_are_searched secret code window now (digits_are_kept code digits)
          (digits-all_digits code digits)
          (length-hotp (base32_decode secret) (counter_at issued)) in
      let (s, found, later) =
        find_loop-finds (2 * window + 1) (base32_decode secret) code (suc (counter_at now + window))
          (counter_at issued) (omega arith) (omega arith) (text_eq_refl code) in
      (s, searched ∙ found, later)
