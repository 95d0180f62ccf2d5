-- ===== src/Guard/Remembering.antt =====
-- A nonce stays in the store until it expires (`MemoryNonceStore` of lib/machine-nonce.ts).
use re_loop.Base.{leb, Bool-cases, ℕ, ◌+◌, ◌<◌, ◌≡◌, subst, inl, inr, true, false, some, arith}
use re_loop.Store.{Text, text_eq, text_eq_sound}
use re_loop.Guard.Maps.{lookup, lookup-set_entry, lookup-set_entry_other, lookup-sweep}
use re_loop.Guard.Nonces.{Nonces, machine_nonce_ttl_ms, is_known, consume_key, sweep_nonces}

-- A key that is not known becomes known for the whole lifetime.
pub consumed-lookup :
    (key : Text) (now : ℕ) (seen : Nonces)
    → (consume_key key now seen).0 ≡ true
    → lookup key (consume_key key now seen).1 ≡ some (now + machine_nonce_ttl_ms)
unfolding consume_key
consumed-lookup key now seen fresh = elim (Bool-cases (is_known now (lookup key seen))) [
  | inl known ↦ ground arith
  | inr new ↦ rw new (lookup-set_entry key (now + machine_nonce_ttl_ms) seen)
]

pub known_is_refused :
    (key : Text) (now until : ℕ) (seen : Nonces)
    → now < until
    → lookup key seen ≡ some until
    → (consume_key key now seen).0 ≡ false
unfolding consume_key
known_is_refused key now until seen early found = rw found (ground arith)

-- Until it expires a key outlasts what is done with any key, and the timer.
pub consume_key-keeps :
    (k key : Text) (now until : ℕ) (seen : Nonces)
    → now < until
    → lookup k seen ≡ some until
    → lookup k (consume_key key now seen).1 ≡ some until
unfolding consume_key
consume_key-keeps k key now until seen early found = elim (Bool-cases (text_eq k key)) [
  | inl same ↦
      let here : lookup key seen ≡ some until =
        subst (λ t. lookup t seen ≡ some until) (text_eq_sound k key same) found in
      let known : is_known now (lookup key seen) ≡ true = rw here (ground arith) in rw known found
  | inr other ↦ elim (Bool-cases (is_known now (lookup key seen))) [
    | inl known ↦ rw known found
    | inr new ↦ rw (new, lookup-set_entry_other k key (now + machine_nonce_ttl_ms) seen other) found
  ]
]

pub sweep_nonces-keeps :
    (k : Text) (now until : ℕ) (seen : Nonces)
    → now < until
    → lookup k seen ≡ some until
    → lookup k (sweep_nonces now seen) ≡ some until
unfolding sweep_nonces
sweep_nonces-keeps k now until seen early found =
    lookup-sweep (λ u. leb u now) k until seen (ground arith) found
