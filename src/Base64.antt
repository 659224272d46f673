-- ===== src/Base64.antt =====
-- nimblenet/util/src/base64.cpp. A BYTE is its bit pattern, a number below 256. A mask of low ones
-- is a remainder, and a mask followed by a shift is a quotient: `(x & 0xf0) >> 4` is `x / 16`.
pub mod RoundTrip
use nimble_sdk.Prelude.{
  ℕ, zero, suc, ◌+◌, ◌*◌, ◌/◌, ◌%◌, Bool, true, false, ◌&&◌, ◌||◌, not, List, [], ◌∷◌, ◌++◌, Text,
  codes, leb, ◌==◌, if◌then◌else◌, get_or,
}

unfoldable pub base64_chars : Text
base64_chars = codes "ABCDEFGHIJKLMNOPQRSTUVWXYZabcdefghijklmnopqrstuvwxyz0123456789+/"

abbrev pub isalnum : ℕ → Bool
isalnum c = (leb b'0' c && leb c b'9') || (leb b'A' c && leb c b'Z') || (leb b'a' c && leb c b'z')

unfoldable pub is_base64 : ℕ → Bool
is_base64 c = isalnum c || c == b'+' || c == b'/'

-- `base64_chars.find(c)` stored in a char: a miss, npos, is the byte 255.
pub find_in : Text → ℕ → ℕ → ℕ
find_in [] pos c = 255
find_in (x ∷ xs) pos c = if x == c then pos else find_in xs (pos + 1) c

unfoldable pub base64_char : ℕ → ℕ
unfolding base64_chars
base64_char i = get_or base64_chars i 0

unfoldable pub base64_find : ℕ → ℕ
unfolding base64_chars find_in
base64_find c = find_in base64_chars 0 c

-- The first `i` slots of `char_array_3` while i < 3, and of `char_array_4` while i < 4.
pub data Held : Type 0 where
  held0 : Held
  held1 : ℕ → Held
  held2 : ℕ → ℕ → Held
  held3 : ℕ → ℕ → ℕ → Held

-- The four sextets of three bytes.
abbrev pub sextet0 : ℕ → ℕ
sextet0 a = a / 4

abbrev pub sextet1 : ℕ → ℕ → ℕ
sextet1 a b = a % 4 * 16 + b / 16

abbrev pub sextet2 : ℕ → ℕ → ℕ
sextet2 b c = b % 16 * 4 + c / 64

abbrev pub sextet3 : ℕ → ℕ
sextet3 c = c % 64

-- `if (i)`: what is held is padded with zero bytes, i + 1 characters are written, and `=` fills up.
encode_tail : Held → Text
unfolding base64_char
encode_tail held0 = []
encode_tail (held1 a) = base64_char (sextet0 a) ∷ base64_char (sextet1 a 0) ∷ b'=' ∷ b'=' ∷ []
encode_tail (held2 a b) =
    base64_char (sextet0 a) ∷ base64_char (sextet1 a b) ∷ base64_char (sextet2 b 0) ∷ b'=' ∷ []
encode_tail (held3 a b c) = []

encode_loop : List ℕ → Held → Text
unfolding base64_char encode_tail
encode_loop [] h = encode_tail h
encode_loop (x ∷ xs) held0 = encode_loop xs (held1 x)
encode_loop (x ∷ xs) (held1 a) = encode_loop xs (held2 a x)
encode_loop (x ∷ xs) (held2 a b) =
    base64_char (sextet0 a)
    ∷ base64_char (sextet1 a b)
    ∷ base64_char (sextet2 b x)
    ∷ base64_char (sextet3 x)
    ∷ encode_loop xs held0
encode_loop (x ∷ xs) (held3 a b c) = []

pub base64_encode : List ℕ → Text
unfolding encode_loop
base64_encode buf = encode_loop buf held0

-- The three bytes of four sextets, each stored in a char.
abbrev pub byte0 : ℕ → ℕ → ℕ
byte0 p q = (p * 4 + q / 16 % 4) % 256

abbrev pub byte1 : ℕ → ℕ → ℕ
byte1 q r = (q % 16 * 16 + r / 4 % 16) % 256

abbrev pub byte2 : ℕ → ℕ → ℕ
byte2 r s = (r % 4 * 64 + s) % 256

-- `if (i)`: of the three bytes the first i - 1 are written.
decode_tail : Held → List ℕ
unfolding base64_find
decode_tail held0 = []
decode_tail (held1 p) = []
decode_tail (held2 p q) = byte0 (base64_find p) (base64_find q) ∷ []
decode_tail (held3 p q r) =
    byte0 (base64_find p) (base64_find q) ∷ byte1 (base64_find q) (base64_find r) ∷ []

-- The loop ends at the end of the text, at `=`, and at a character outside the alphabet.
decode_loop : Text → Held → List ℕ
unfolding base64_find is_base64 decode_tail
decode_loop [] h = decode_tail h
decode_loop (x ∷ xs) held0 =
    let rest = decode_loop xs (held1 x) in
    if not (x == b'=') && is_base64 x then rest else decode_tail held0
decode_loop (x ∷ xs) (held1 p) =
    let rest = decode_loop xs (held2 p x) in
    if not (x == b'=') && is_base64 x then rest else decode_tail (held1 p)
decode_loop (x ∷ xs) (held2 p q) =
    let rest = decode_loop xs (held3 p q x) in
    if not (x == b'=') && is_base64 x then rest else decode_tail (held2 p q)
decode_loop (x ∷ xs) (held3 p q r) =
    let rest = decode_loop xs held0 in
    if not (x == b'=') && is_base64 x
    then byte0 (base64_find p) (base64_find q)
      ∷ byte1 (base64_find q) (base64_find r)
      ∷ byte2 (base64_find r) (base64_find x)
      ∷ rest
    else decode_tail (held3 p q r)

pub base64_decode : Text → List ℕ
unfolding decode_loop
base64_decode s = decode_loop s held0
