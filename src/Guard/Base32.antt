-- ===== src/Guard/Base32.antt =====
-- The base32 form of a TOTP secret (lib/totp.ts). A text is a list of UTF-16 code units, here all
-- ASCII. The accumulator `value` is a 32-bit integer, kept as its bit pattern: `<<` wraps, `>>>`
-- divides. After the shift its low bits are zero, so `| x` adds x.
use re_loop.Base.{
  ltb, leb, ◌==◌, if◌then◌else◌, ℕ, zero, suc, ◌+◌, ◌-◌, ◌*◌, ◌/◌, ◌%◌, ◌^◌, true, false, ◌&&◌,
  Option, none, some, List, [], ◌∷◌, ◌++◌, map,
}
use re_loop.Store.{Text}

abbrev pub u32_mod : ℕ
u32_mod = 2 ^ 32

-- BASE32_ALPHABET: A to Z, then 2 to 7
unfoldable pub alphabet_at : ℕ → ℕ
alphabet_at i = if ltb i 26 then 65 + i else 24 + i

-- `BASE32_ALPHABET.indexOf(char)`: nothing for -1
unfoldable pub index_of : ℕ → Option ℕ
index_of c =
    if leb 65 c && leb c 90
    then some (c - 65)
    else if leb 50 c && leb c 55
    then some (c - 24)
    else none

-- The inner loop: `while (bits >= 5)`. The bits left and the characters; each round takes five.
unfoldable pub take_groups : ℕ → ℕ → ℕ → ℕ × Text
take_groups zero value bits = (bits, [])
take_groups (suc fuel) value bits = elim (leb 5 bits) [
  | false ↦ (bits, [])
  | true ↦
      let (left, rest) = take_groups fuel value (bits - 5) in
      (left, alphabet_at (value / 2 ^ (bits - 5) % 32) ∷ rest)
]

abbrev pub add_byte : ℕ → ℕ → ℕ
add_byte value byte = value * 2 ^ 8 % u32_mod + byte

unfoldable pub encode_loop : List ℕ → ℕ → ℕ → Text
encode_loop [] value bits =
    if ltb 0 bits then alphabet_at (value * 2 ^ (5 - bits) % u32_mod % 32) ∷ [] else []
encode_loop (byte ∷ buffer) value bits =
    let v = add_byte value byte in
    let (left, output) = take_groups (bits + 8) v (bits + 8) in output ++ encode_loop buffer v left

unfoldable pub base32_encode : List ℕ → Text
base32_encode buffer = encode_loop buffer 0 0

-- `input.replace(/=+$/, "")`
unfoldable pub strip_padding : Text → Text
strip_padding [] = []
strip_padding (c ∷ t) = elim (strip_padding t) [
  | [] ↦ if c == 61 then [] else c ∷ []
  | d ∷ r ↦ c ∷ d ∷ r
]

abbrev pub upper_case : ℕ → ℕ
upper_case c = if leb 97 c && leb c 122 then c - 32 else c

unfoldable pub decode_loop : Text → ℕ → ℕ → List ℕ
decode_loop [] value bits = []
decode_loop (c ∷ t) value bits = elim (index_of c) [
  | none ↦ decode_loop t value bits
  | some i ↦
      let v = value * 2 ^ 5 % u32_mod + i in
      let n = bits + 5 in
      elim (leb 8 n) [
        | true ↦ (v / 2 ^ (n - 8) % 256) ∷ decode_loop t v (n - 8)
        | false ↦ decode_loop t v n
      ]
]

unfoldable pub base32_decode : Text → List ℕ
base32_decode input = decode_loop (map upper_case (strip_padding input)) 0 0
