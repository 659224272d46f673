-- ===== src/Base64/RoundTrip.antt =====
-- Encoding and decoding of nimblenet/util/src/base64.cpp undo one another.
use nimble_sdk.Prelude.{
  ℕ, zero, suc, ◌+◌, ◌*◌, ◌/◌, ◌<◌, ◌≤◌, ◌≡◌, ◌∙◌, refl, sym, subst, ap, Bool, true, ◌&&◌, not,
  Bool-cases, inl, inr, List, [], ◌∷◌, Text, ◌==◌, All, arith, length,
}
use nimble_sdk.Base64.{
  base64_encode, base64_decode, encode_loop, decode_loop, encode_tail, base64_find, base64_char,
  is_base64, held0, held1, held2, sextet0, sextet1, sextet2, sextet3, byte0, byte1, byte2,
}

abbrev reads_on : ℕ → Bool
reads_on x = not (x == b'=') && is_base64 x

abbrev holds : ℕ → Bool
holds i = base64_find (base64_char i) == i && reads_on (base64_char i)

-- Every sextet from `first` on, for `count` of them, is found where its character stands, and the
-- decoder reads that character.
sextets_hold : (first count : ℕ) → Bool
sextets_hold first zero = true
sextets_hold first (suc count) = holds first && sextets_hold (suc first) count

sextet-holds :
    (first count i : ℕ)
    → sextets_hold first count ≡ true
    → first ≤ i
    → i < first + count
    → holds i ≡ true
unfolding sextets_hold
sextet-holds first zero i h le lt = absurd (omega arith)
sextet-holds first (suc count) i h le lt = elim (Bool-cases (i == first)) [
  | inl b ↦
      let e : i ≡ first = ground (arith, b) in subst (λ j. holds j ≡ true) (sym e) (ground arith)
  | inr b ↦ sextet-holds (suc first) count i (ground arith) (ground (arith, b)) (omega arith)
]

alphabet : (i : ℕ) → i < 64 → holds i ≡ true
unfolding sextets_hold base64_find base64_char is_base64
alphabet i h = sextet-holds 0 64 i refl (omega arith) h

-- The 64 characters of the alphabet are found where they stand, and the decoder reads them.
find-char : (i : ℕ) → i < 64 → base64_find (base64_char i) ≡ i
find-char i h = ground (arith, alphabet i h)

reads-char : (i : ℕ) → i < 64 → reads_on (base64_char i) ≡ true
reads-char i h = ground (arith, alphabet i h)

abbrev IsByte : ℕ → Type 0
IsByte b = b < 256

-- Four characters of the alphabet decode to their three bytes.
decode_quad :
    (p q r s : ℕ) (rest : Text)
    → p < 64
    → q < 64
    → r < 64
    → s < 64
    → decode_loop (base64_char p ∷ base64_char q ∷ base64_char r ∷ base64_char s ∷ rest) held0
      ≡ byte0 p q ∷ byte1 q r ∷ byte2 r s ∷ decode_loop rest held0
unfolding decode_loop
decode_quad p q r s rest hp hq hr hs =
    rw
      (
        reads-char p hp,
        reads-char q hq,
        reads-char r hr,
        reads-char s hs,
        find-char p hp,
        find-char q hq,
        find-char r hr,
        find-char s hs,
      )
      refl

-- The bytes come back from the sextets.
bytes_of_sextets :
    (a b c : ℕ)
    → IsByte a
    → IsByte b
    → IsByte c
    → (byte0 (sextet0 a) (sextet1 a b) ≡ a)
      × (byte1 (sextet1 a b) (sextet2 b c) ≡ b)
      × (byte2 (sextet2 b c) (sextet3 c) ≡ c)
bytes_of_sextets a b c ha hb hc = (omega arith, omega arith, omega arith)

decode_one : (a : ℕ) → IsByte a → decode_loop (encode_tail (held1 a)) held0 ≡ a ∷ []
unfolding decode_loop encode_tail
decode_one a ha =
    let s0 : sextet0 a < 64 = omega arith in
    let s1 : sextet1 a 0 < 64 = omega arith in
    rw (reads-char _ s0, reads-char _ s1, find-char _ s0, find-char _ s1)
      (ap (λ x. x ∷ []) (omega arith))

decode_two :
    (a b : ℕ) → IsByte a → IsByte b → decode_loop (encode_tail (held2 a b)) held0 ≡ a ∷ b ∷ []
unfolding decode_loop encode_tail
decode_two a b ha hb =
    let s0 : sextet0 a < 64 = omega arith in
    let s1 : sextet1 a b < 64 = omega arith in
    let s2 : sextet2 b 0 < 64 = omega arith in
    let bytes = bytes_of_sextets a b 0 ha hb (omega arith) in
    rw
      (
        reads-char _ s0,
        reads-char _ s1,
        reads-char _ s2,
        find-char _ s0,
        find-char _ s1,
        find-char _ s2,
      )
      (cc (bytes.0, bytes.1))

decode_loop-encode_loop :
    (bs : List ℕ) → All IsByte bs → decode_loop (encode_loop bs held0) held0 ≡ bs
unfolding encode_loop
decode_loop-encode_loop [] h = unfold decode_loop encode_tail in refl
decode_loop-encode_loop (a ∷ []) (ha, _) = decode_one a ha
decode_loop-encode_loop (a ∷ b ∷ []) (ha, (hb, _)) = decode_two a b ha hb
decode_loop-encode_loop (a ∷ b ∷ c ∷ bs) (ha, (hb, (hc, h))) =
    let bytes = bytes_of_sextets a b c ha hb hc in
    decode_quad (sextet0 a) (sextet1 a b) (sextet2 b c) (sextet3 c) (encode_loop bs held0)
      (omega arith) (omega arith) (omega arith) (omega arith)
    ∙ cc (bytes.0, bytes.1, bytes.2, decode_loop-encode_loop bs h)

-- Decoding what was encoded gives back the buffer, for every buffer of bytes.
pub decode-encode :
    (buf : List ℕ) → All (λ b. b < 256) buf → base64_decode (base64_encode buf) ≡ buf
unfolding base64_decode base64_encode
decode-encode buf h = decode_loop-encode_loop buf h

length-encode_loop : (bs : List ℕ) → length (encode_loop bs held0) ≡ (length bs + 2) / 3 * 4
unfolding encode_loop encode_tail
length-encode_loop [] = refl
length-encode_loop (a ∷ []) = refl
length-encode_loop (a ∷ b ∷ []) = refl
length-encode_loop (a ∷ b ∷ c ∷ bs) = omega (arith, length-encode_loop bs)

-- Of n bytes the encoder writes four characters for every three, the last group filled up.
length-encode : (buf : List ℕ) → length (base64_encode buf) ≡ (length buf + 2) / 3 * 4
unfolding base64_encode
length-encode buf = length-encode_loop buf
