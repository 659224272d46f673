-- ===== src/UserEvents/Integers.antt =====
-- The integers as a scalar: int32_t and int64_t as long as nothing overflows.
use nimble_sdk.Prelude.{
  ℕ, suc, ◌+◌, ◌-◌, ◌*◌, ◌/◌, ◌≡◌, ◌&&◌, Bool, true, false, not, [], ◌∷◌, Text, leb, ◌==◌,
  if◌then◌else◌, arith,
}
use nimble_sdk.Prelude.Int.{ℤ, pos, negsuc, leb_ℤ}
use nimble_sdk.UserEvents.Scalar.{Scalar, IsExact, IsOrdered}

abbrev pos_part : ℤ → ℕ
pos_part (pos n) = n
pos_part (negsuc n) = 0

abbrev neg_part : ℤ → ℕ
neg_part (pos n) = 0
neg_part (negsuc n) = suc n

-- a - b, as an integer.
abbrev sub_ℕ : ℕ → ℕ → ℤ
sub_ℕ a b = if leb b a then pos (a - b) else negsuc (b - a - 1)

abbrev plus : ℤ → ℤ → ℤ
plus a b = sub_ℕ (pos_part a + pos_part b) (neg_part a + neg_part b)

abbrev minus : ℤ → ℤ → ℤ
minus a b = sub_ℕ (pos_part a + neg_part b) (neg_part a + pos_part b)

-- Division rounds towards zero.
abbrev divide : ℤ → ℤ → ℤ
divide (pos a) (pos b) = pos (a / b)
divide (pos a) (negsuc b) = sub_ℕ 0 (a / suc b)
divide (negsuc a) (pos b) = sub_ℕ 0 (suc a / b)
divide (negsuc a) (negsuc b) = pos (suc a / suc b)

abbrev digits : ℕ → Text → ℕ
digits acc [] = acc
digits acc (c ∷ t) =
    let rest = digits (acc * 10 + (c - b'0')) t in if leb b'0' c && leb c b'9' then rest else acc

-- A text that starts with digits, behind a minus sign perhaps.
abbrev extract : Text → ℤ
extract [] = pos 0
extract (c ∷ []) = if leb b'0' c && leb c b'9' then pos (c - b'0') else pos 0
extract (c ∷ d ∷ t) =
    if leb b'0' c && leb c b'9'
    then pos (digits 0 (c ∷ d ∷ t))
    else if c == b'-' && leb b'0' d && leb d b'9'
    then sub_ℕ 0 (digits 0 (d ∷ t))
    else pos 0

abbrev lt : ℤ → ℤ → Bool
lt a b = not (leb_ℤ b a)

abbrev eq : ℤ → ℤ → Bool
eq a b = leb_ℤ a b && leb_ℤ b a

abbrev pub integers : Scalar
integers = record {
  T = ℤ;
  nought = pos 0;
  one = pos 1;
  plus = plus;
  minus = minus;
  divide = divide;
  lt = lt;
  eq = eq;
  extract = extract;
}

plus-zero : (a : ℤ) → plus a (pos 0) ≡ a
plus-zero a = ground arith

zero-plus : (a : ℤ) → plus (pos 0) a ≡ a
zero-plus a = ground arith

plus_assoc : (a b c : ℤ) → plus (plus a b) c ≡ plus a (plus b c)
plus_assoc a b c = ground arith

minus-plus : (a b : ℤ) → minus (plus a b) a ≡ b
minus-plus a b = ground arith

pub integers-IsExact : IsExact integers
integers-IsExact = record {
  nought-plus = zero-plus;
  plus-nought = plus-zero;
  plus_assoc = plus_assoc;
  minus-plus = minus-plus;
}

lt_trans : (a b c : ℤ) → lt a b ≡ true → lt b c ≡ true → lt a c ≡ true
lt_trans a b c h k = ground arith

lt_connected : (a b : ℤ) → lt a b ≡ false → lt b a ≡ false → a ≡ b
lt_connected a b h k = ground arith

lt_irrefl : (a : ℤ) → lt a a ≡ false
lt_irrefl a = ground arith

eq_refl : (a : ℤ) → eq a a ≡ true
eq_refl a = ground arith

pub integers-IsOrdered : IsOrdered integers
integers-IsOrdered = record {
  lt_irrefl = lt_irrefl;
  lt_trans = lt_trans;
  lt_connected = lt_connected;
  eq_refl = eq_refl;
}
