-- ===== src/Guard/Totp.antt =====
-- One-time passwords (lib/totp.ts). HMAC-SHA1 on bytes is a parameter; the window is a natural number.
use re_loop.Base.{
  leb, ◌==◌, is_some, length, where_rows, Outcome, ok, err, ◌>>=◌, ℕ, zero, suc, ◌+◌, ◌-◌, ◌*◌, ◌/◌,
  ◌%◌, ◌^◌, Bool, true, false, not, ◌&&◌, ◌||◌, Option, none, some, List, [], ◌∷◌,
}
use re_loop.Store.{Text, text_eq, Failure, range_error}
use re_loop.Guard.Base32.{base32_decode}

-- `buffer.writeBigUInt64BE(BigInt(counter))`: the last n bytes, the highest first.
unfoldable pub big_endian : ℕ → ℕ → List ℕ
big_endian zero counter = []
big_endian (suc n) counter = (counter / 256 ^ n % 256) ∷ big_endian n counter

-- `digest[i]` under a mask: out of range it is undefined, which masks to 0.
unfoldable pub byte_at : List ℕ → ℕ → ℕ
byte_at [] i = 0
byte_at (b ∷ l) zero = b
byte_at (b ∷ l) (suc i) = byte_at l i

-- `String(code % 10 ** DIGITS).padStart(DIGITS, "0")`
abbrev pub six_digits : ℕ → Text
six_digits n =
    (48 + n / 100000 % 10)
    ∷ (48 + n / 10000 % 10)
    ∷ (48 + n / 1000 % 10)
    ∷ (48 + n / 100 % 10)
    ∷ (48 + n / 10 % 10)
    ∷ (48 + n % 10)
    ∷ []

abbrev pub is_digit : ℕ → Bool
is_digit c = leb 48 c && leb c 57

-- `\s`
abbrev pub is_space : ℕ → Bool
is_space c =
    (leb 9 c && leb c 13)
    || ((c == 32)
        || ((c == 160)
            || ((c == 5760)
                || ((leb 8192 c && leb c 8202)
                    || ((c == 8232)
                        || ((c == 8233)
                            || ((c == 8239)
                                || ((c == 8287) || ((c == 12288) || (c == 65279))))))))))

unfoldable pub all_digits : Text → Bool
all_digits [] = true
all_digits (c ∷ t) = is_digit c && all_digits t

-- `token.replace(/\s+/g, "")`
unfoldable pub without_spaces : Text → Text
without_spaces token = where_rows (λ c. not (is_space c)) token

-- `Math.floor(timestampMs / 1000 / STEP_SECONDS)`
abbrev pub counter_at : ℕ → ℕ
counter_at timestamp_ms = timestamp_ms / 30000

module _ (hmac_sha1 : List ℕ → List ℕ → List ℕ) where
  abbrev pub truncated : List ℕ → ℕ
  truncated digest =
      let offset = byte_at digest (length digest - 1) % 16 in
      byte_at digest offset % 128 * 2 ^ 24
      + byte_at digest (offset + 1) % 256 * 2 ^ 16
      + byte_at digest (offset + 2) % 256 * 2 ^ 8
      + byte_at digest (offset + 3) % 256

  unfoldable pub hotp : List ℕ → ℕ → Text
  unfolding big_endian byte_at
  hotp secret counter = six_digits (truncated (hmac_sha1 secret (big_endian 8 counter)) % 10 ^ 6)

  unfoldable pub generate_totp_code : Text → ℕ → Text
  generate_totp_code secret timestamp_ms = hotp (base32_decode secret) (counter_at timestamp_ms)

  -- The loop over the offsets, from the latest step down. `suc step` stands for the step that is
  -- tried, and zero for one below 0, where writeBigUInt64BE throws a RangeError.
  unfoldable pub find_loop : ℕ → List ℕ → Text → ℕ → Outcome Failure (Option ℕ)
  find_loop zero secret token above = ok none
  find_loop (suc n) secret token zero = err range_error
  find_loop (suc n) secret token (suc step) = elim (text_eq (hotp secret step) token) [
    | true ↦ ok (some step)
    | false ↦ find_loop n secret token step
  ]

  unfoldable pub find_totp_step : Text → Text → ℕ → ℕ → Outcome Failure (Option ℕ)
  find_totp_step secret token window timestamp_ms =
      let normalized = without_spaces token in
      elim (all_digits normalized && (length normalized == 6)) [
        | false ↦ ok none
        | true ↦
            find_loop (2 * window + 1) (base32_decode secret) normalized
              (suc (counter_at timestamp_ms + window))
      ]

  abbrev pub verify_totp_code : Text → Text → ℕ → ℕ → Outcome Failure Bool
  verify_totp_code secret token window timestamp_ms = do
    step ← find_totp_step secret token window timestamp_ms
    ok (is_some step)
