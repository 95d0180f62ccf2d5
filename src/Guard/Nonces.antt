-- ===== src/Guard/Nonces.antt =====
-- Machine request nonces (`MemoryNonceStore` of lib/machine-nonce.ts). Times are in milliseconds.
use re_loop.Base.{
  ltb, leb, ◌==◌, if◌then◌else◌, ℕ, ◌+◌, Bool, true, false, not, ◌&&◌, Option, none, some, List, [],
  ◌∷◌, ◌++◌,
}
use re_loop.Store.{Text}
use re_loop.Guard.Maps.{lookup, set_entry, sweep}

abbrev pub machine_sig_max_skew_seconds : ℕ
machine_sig_max_skew_seconds = 300

-- (2 * skew + 60) * 1000
abbrev pub machine_nonce_ttl_ms : ℕ
machine_nonce_ttl_ms = 660000

-- `machine-nonce:`
abbrev nonce_prefix : Text
nonce_prefix = 109 ∷ 97 ∷ 99 ∷ 104 ∷ 105 ∷ 110 ∷ 101 ∷ 45 ∷ 110 ∷ 111 ∷ 110 ∷ 99 ∷ 101 ∷ 58 ∷ []

abbrev pub nonce_key : Text → Text → Text
nonce_key machine_id nonce = nonce_prefix ++ machine_id ++ 58 ∷ nonce

-- `seen`: when each key expires.
abbrev pub Nonces : Type 0
Nonces = List (Text × ℕ)

-- `existing && existing > now`
abbrev pub is_known : ℕ → Option ℕ → Bool
is_known now none = false
is_known now (some until) = not (until == 0) && ltb now until

unfoldable pub consume_key : Text → ℕ → Nonces → Bool × Nonces
unfolding lookup
consume_key key now seen =
    if is_known now (lookup key seen)
    then (false, seen)
    else (true, set_entry key (now + machine_nonce_ttl_ms) seen)

unfoldable pub consume_machine_nonce : Text → Text → ℕ → Nonces → Bool × Nonces
consume_machine_nonce machine_id nonce now seen = consume_key (nonce_key machine_id nonce) now seen

-- The timer's loop.
unfoldable pub sweep_nonces : ℕ → Nonces → Nonces
sweep_nonces now seen = sweep (λ until. leb until now) seen
