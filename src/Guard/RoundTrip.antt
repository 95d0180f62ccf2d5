-- ===== src/Guard/RoundTrip.antt =====
-- Decoding undoes encoding (`base32Encode`, `base32Decode` of lib/totp.ts). Between two bytes the
-- encoder holds e bits and the decoder d, with e + d 0 or 8; in the second case the two parts are
-- the byte that is not decoded yet.
use re_loop.Base.{
  ltb, leb, ◌==◌, Bool-cases, All, ℕ, zero, suc, ◌+◌, ◌-◌, ◌*◌, ◌/◌, ◌%◌, ◌^◌, ◌≤◌, ◌<◌, ◌≡◌, refl,
  ap, ◌∙◌, inl, inr, true, false, some, List, [], ◌∷◌, map, arith,
}
use re_loop.Store.{Text, append-All}
use re_loop.Guard.Base32.{
  u32_mod, alphabet_at, index_of, add_byte, take_groups, encode_loop, base32_encode, strip_padding,
  upper_case, decode_loop, base32_decode,
}

abbrev pub IsByte : ℕ → Type 0
IsByte b = b < 256

index_of-alphabet_at : (i : ℕ) → i < 32 → index_of (alphabet_at i) ≡ some i
unfolding index_of alphabet_at
index_of-alphabet_at i small = ground arith

abbrev shifted_in : ℕ → ℕ → ℕ
shifted_in w i = w * 2 ^ 5 % u32_mod + i

-- A character that completes no byte, and one that does.
decode-skip :
    (i w d : ℕ) (t : Text) (rest : List ℕ)
    → i < 32
    → d < 3
    → decode_loop t (shifted_in w i) (d + 5) ≡ rest
    → decode_loop (alphabet_at i ∷ t) w d ≡ rest
unfolding decode_loop
decode-skip i w d t rest small short next =
    let waits : leb 8 (d + 5) ≡ false = ground arith in ground (arith, index_of-alphabet_at i small)

decode-emit :
    (i w d b : ℕ) (t : Text) (rest : List ℕ)
    → i < 32
    → 3 ≤ d
    → shifted_in w i / 2 ^ (d + 5 - 8) % 256 ≡ b
    → decode_loop t (shifted_in w i) (d + 5 - 8) ≡ rest
    → decode_loop (alphabet_at i ∷ t) w d ≡ b ∷ rest
unfolding decode_loop
decode-emit i w d b t rest small long byte next =
    let full : leb 8 (d + 5) ≡ true = ground arith in ground (arith, index_of-alphabet_at i small)

decode_loop-nil : (w d : ℕ) → decode_loop [] w d ≡ []
unfolding decode_loop
decode_loop-nil w d = refl

-- How the bits of the current byte are shared between the encoder and the decoder.
data Phase : Type 0 where
  none_held three_held one_held four_held two_held : Phase

abbrev held_bits : Phase → ℕ
held_bits none_held = 0
held_bits three_held = 3
held_bits one_held = 1
held_bits four_held = 4
held_bits two_held = 2

abbrev read_bits : Phase → ℕ
read_bits none_held = 0
read_bits three_held = 5
read_bits one_held = 7
read_bits four_held = 4
read_bits two_held = 6

-- The byte that the two parts form.
abbrev Shares : Phase → ℕ → ℕ → ℕ → Type 0
Shares none_held v w b = Unit
Shares three_held v w b = w % 32 * 8 + v % 8 ≡ b
Shares one_held v w b = w % 128 * 2 + v % 2 ≡ b
Shares four_held v w b = w % 16 * 16 + v % 16 ≡ b
Shares two_held v w b = w % 64 * 4 + v % 4 ≡ b

abbrev owed : Phase → ℕ → List ℕ → List ℕ
owed none_held b l = l
owed _ b l = b ∷ l

decode_loop-encode_loop :
    (phase : Phase) (buffer : List ℕ) (v w b : ℕ)
    → All IsByte buffer
    → Shares phase v w b
    → decode_loop (encode_loop buffer v (held_bits phase)) w (read_bits phase) ≡ owed phase b buffer
unfolding encode_loop take_groups
decode_loop-encode_loop none_held [] v w b bytes shares = decode_loop-nil w 0
decode_loop-encode_loop three_held [] v w b bytes shares =
    decode-emit (v * 2 ^ 2 % u32_mod % 32) w 5 b [] [] (omega arith) (omega arith) (omega arith)
      (decode_loop-nil _ 2)
decode_loop-encode_loop one_held [] v w b bytes shares =
    decode-emit (v * 2 ^ 4 % u32_mod % 32) w 7 b [] [] (omega arith) (omega arith) (omega arith)
      (decode_loop-nil _ 4)
decode_loop-encode_loop four_held [] v w b bytes shares =
    decode-emit (v * 2 ^ 1 % u32_mod % 32) w 4 b [] [] (omega arith) (omega arith) (omega arith)
      (decode_loop-nil _ 1)
decode_loop-encode_loop two_held [] v w b bytes shares =
    decode-emit (v * 2 ^ 3 % u32_mod % 32) w 6 b [] [] (omega arith) (omega arith) (omega arith)
      (decode_loop-nil _ 3)
decode_loop-encode_loop none_held (c ∷ l) v w b bytes shares =
    let x = add_byte v c in
    let i = x / 2 ^ 3 % 32 in
    decode-skip i w 0 _ _ (omega arith) (omega arith)
      (decode_loop-encode_loop three_held l x (shifted_in w i) c bytes.1 (omega arith))
decode_loop-encode_loop three_held (c ∷ l) v w b bytes shares =
    let x = add_byte v c in
    let i = x / 2 ^ 6 % 32 in
    let w1 = shifted_in w i in
    let j = x / 2 % 32 in
    decode-emit i w 5 b _ _ (omega arith) (omega arith) (omega arith) (
      decode-skip j w1 2 _ _ (omega arith) (omega arith)
        (decode_loop-encode_loop one_held l x (shifted_in w1 j) c bytes.1 (omega arith)))
decode_loop-encode_loop one_held (c ∷ l) v w b bytes shares =
    let x = add_byte v c in
    let i = x / 2 ^ 4 % 32 in
    decode-emit i w 7 b _ _ (omega arith) (omega arith) (omega arith)
      (decode_loop-encode_loop four_held l x (shifted_in w i) c bytes.1 (omega arith))
decode_loop-encode_loop four_held (c ∷ l) v w b bytes shares =
    let x = add_byte v c in
    let i = x / 2 ^ 7 % 32 in
    let w1 = shifted_in w i in
    let j = x / 2 ^ 2 % 32 in
    decode-emit i w 4 b _ _ (omega arith) (omega arith) (omega arith) (
      decode-skip j w1 1 _ _ (omega arith) (omega arith)
        (decode_loop-encode_loop two_held l x (shifted_in w1 j) c bytes.1 (omega arith)))
decode_loop-encode_loop two_held (c ∷ l) v w b bytes shares =
    let x = add_byte v c in
    let i = x / 2 ^ 5 % 32 in
    let w1 = shifted_in w i in
    let j = x / 2 ^ 0 % 32 in
    decode-emit i w 6 b _ _ (omega arith) (omega arith) (omega arith) (
      decode-emit j w1 3 c _ _ (omega arith) (omega arith) (omega arith)
        (decode_loop-encode_loop none_held l x (shifted_in w1 j) c bytes.1 tt))

-- What the encoder writes is upper case and has no padding.
upper_case-alphabet_at : (i : ℕ) → i < 32 → upper_case (alphabet_at i) ≡ alphabet_at i
unfolding alphabet_at
upper_case-alphabet_at i small = ground arith

no_padding_at : (i : ℕ) → i < 32 → (alphabet_at i == 61) ≡ false
unfolding alphabet_at
no_padding_at i small = ground arith

abbrev IsPlain : ℕ → Type 0
IsPlain c = (upper_case c ≡ c) × ((c == 61) ≡ false)

alphabet_at-IsPlain : (i : ℕ) → i < 32 → IsPlain (alphabet_at i)
alphabet_at-IsPlain i small = (upper_case-alphabet_at i small, no_padding_at i small)

take_groups-IsPlain : (fuel v bits : ℕ) → All IsPlain (take_groups fuel v bits).1
unfolding take_groups
take_groups-IsPlain zero v bits = tt
take_groups-IsPlain (suc fuel) v bits = elim (Bool-cases (leb 5 bits)) [
  | inr done ↦ rw (done, All) tt
  | inl more ↦
      rw (more, All) (alphabet_at-IsPlain _ (omega arith), take_groups-IsPlain fuel v (bits - 5))
]

encode_loop-IsPlain : (buffer : List ℕ) (v bits : ℕ) → All IsPlain (encode_loop buffer v bits)
unfolding encode_loop
encode_loop-IsPlain [] v bits = elim (Bool-cases (ltb 0 bits)) [
  | inr done ↦ rw done tt
  | inl more ↦ rw more (alphabet_at-IsPlain _ (omega arith), tt)
]
encode_loop-IsPlain (c ∷ l) v bits =
    append-All IsPlain _ _ (take_groups-IsPlain (bits + 8) (add_byte v c) (bits + 8))
      (encode_loop-IsPlain l (add_byte v c) _)

strip_padding_plain : (t : Text) → All IsPlain t → strip_padding t ≡ t
unfolding strip_padding
strip_padding_plain [] plain = refl
strip_padding_plain (c ∷ []) plain = rw plain.0.1 refl
strip_padding_plain (c ∷ d ∷ t) plain = ground (arith, strip_padding_plain (d ∷ t) plain.1)

upper_case_plain : (t : Text) → All IsPlain t → map upper_case t ≡ t
upper_case_plain [] plain = refl
upper_case_plain (c ∷ t) plain = rw (plain.0.0, upper_case_plain t plain.1) refl

plain_is_kept : (t : Text) → All IsPlain t → map upper_case (strip_padding t) ≡ t
plain_is_kept t plain = ap (map upper_case) (strip_padding_plain t plain) ∙ upper_case_plain t plain

-- Decoding the base32 form of a buffer of bytes gives the buffer back.
pub base32_decode-base32_encode :
    (buffer : List ℕ) → All IsByte buffer → base32_decode (base32_encode buffer) ≡ buffer
unfolding base32_decode base32_encode
base32_decode-base32_encode buffer bytes =
    rw (plain_is_kept _ (encode_loop-IsPlain buffer 0 0))
      (decode_loop-encode_loop none_held buffer 0 0 0 bytes tt)
